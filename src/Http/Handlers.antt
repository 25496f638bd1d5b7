-- ===== src/Http/Handlers.antt =====
-- internal/interfaces/http/handler: query.go, delete.go, retry.go and upload.go.
use recording.Prelude.{
  ℕ, String, Bool, ◌&&◌, not, List, [], ◌∷◌, Option, none, some, same, if◌then◌else◌, Result, ok,
  err,
}
use recording.Decimal.{ℤ, pos, atoi}
use recording.Uuid.{is_valid}
use recording.ErrorCode.{ErrorCode, invalid_argument, file_required, file_too_large}
use recording.Database.Rows.{Db}
use recording.Database.Tx.{Env}
use recording.Ports.{TaskView, RecordingDetail, RecordingList}
use recording.FileStore.{StoreError, Chunk, Store, Disk}
use recording.Service.{World}
use recording.Service.Queries.{query_task, query_recording, query_recordings}
use recording.Service.Upload.{UploadResult, UploadError, app, app_of_ctx, interrupted, upload}
use recording.Service.Delete.{delete}
use recording.Service.Retry.{RetryResult, retry}
use recording.Http.Dto.{
  new_task_body, new_recording_detail_body, new_recording_list_body, upload_response,
  retry_response,
}
use recording.Http.Stream.{Poll, stream}
use recording.Http.Answer.{
  Outcome, replied, errored, aborted, no_body, task_body, recording_body, list_body, upload_body,
  retry_body, events_body,
}

-- `fail` of the query handler: the services return nothing but coded errors there.
abbrev pub task_outcome : Result ErrorCode TaskView → Outcome
task_outcome (err code) = errored code
task_outcome (ok view) = replied 200 (task_body (new_task_body view))

unfoldable pub handle_task : Env → String → World → Outcome
handle_task env id w =
    if is_valid id then task_outcome (query_task env id w.db) else errored invalid_argument

abbrev pub recording_outcome : Result ErrorCode RecordingDetail → Outcome
recording_outcome (err code) = errored code
recording_outcome (ok d) = replied 200 (recording_body (new_recording_detail_body d))

unfoldable pub handle_recording : Env → String → World → Outcome
handle_recording env id w =
    if is_valid id
    then recording_outcome (query_recording env id w.db)
    else errored invalid_argument

-- A parameter of the query: the default where it is empty, `none` where it is no number.
abbrev pub int_param : String → ℕ → Option ℤ
int_param raw default = if same raw "" then some (pos default) else atoi raw

abbrev pub list_outcome : Result ErrorCode RecordingList → Outcome
list_outcome (err code) = errored code
list_outcome (ok l) = replied 200 (list_body (new_recording_list_body l))

abbrev pub listed : Env → Option ℤ → Option ℤ → Db → Outcome
listed env (some page) (some page_size) db = list_outcome (query_recordings env page page_size db)
listed env _ _ db = errored invalid_argument

unfoldable pub handle_list : Env → String → String → World → Outcome
handle_list env raw_page raw_page_size w =
    listed env (int_param raw_page 1) (int_param raw_page_size 20) w.db

-- The stream, behind a first query that can still answer with an error.
abbrev pub stream_outcome :
    (Option ℕ → String) → String → ℕ → List Poll → Result ErrorCode RecordingDetail → Outcome
stream_outcome show_time id now polls (err code) = errored code
stream_outcome show_time id now polls (ok d) =
    replied 200 (events_body (stream show_time id "" now polls))

unfoldable pub handle_summary_stream :
    Env → (Option ℕ → String) → String → ℕ → List Poll → World → Outcome
handle_summary_stream env show_time id now polls w =
    if is_valid id
    then stream_outcome show_time id now polls (query_recording env id w.db)
    else errored invalid_argument

abbrev pub retry_outcome : Result ErrorCode RetryResult × World → Outcome × World
retry_outcome (err code, w) = (errored code, w)
retry_outcome (ok res, w) = (replied 202 (retry_body (retry_response res)), w)

unfoldable pub handle_retry : Env → String → World → Outcome × World
handle_retry env id w =
    if is_valid id then retry_outcome (retry env id w) else (errored invalid_argument, w)

abbrev pub delete_outcome : Result ErrorCode (Unit {0}) × World → Outcome × World
delete_outcome (err code, w) = (errored code, w)
delete_outcome (ok _, w) = (replied 204 no_body, w)

unfoldable pub handle_delete : (ℕ → Env) → Disk → String → World → Outcome × World
handle_delete envs disk id w =
    if is_valid id then delete_outcome (delete envs disk id w) else (errored invalid_argument, w)

-- What `NextPart` returns before io.EOF: a part, or an error.
pub record Part : Type 0 where
  pub form_name : String
  pub file_name : String
  pub content : List Chunk

pub data NextPart : Type 0 where
  part : Part → NextPart
  part_failed : StoreError → NextPart

abbrev pub multipart_error : StoreError → ErrorCode
multipart_error StoreError.file_too_large = file_too_large
multipart_error _ = invalid_argument

abbrev pub is_file : Part → Bool
is_file p = same p.form_name "file" && not (same p.file_name "")

-- The loop over the parts: the first file ends it, other parts are passed over.
unfoldable pub find_file : List NextPart → Result ErrorCode (Option Part)
find_file [] = ok none
find_file (part_failed e ∷ ps) = err (multipart_error e)
find_file (part p ∷ ps) = let rest = find_file ps in if is_file p then ok (some p) else rest

-- `fail` of the upload handler: a context's error is a client that has gone.
abbrev pub upload_outcome : Result UploadError UploadResult × World → Outcome × World
upload_outcome (err interrupted, w) = (aborted 499, w)
upload_outcome (err (app_of_ctx code), w) = (aborted 499, w)
upload_outcome (err (app code), w) = (errored code, w)
upload_outcome (ok res, w) = (replied 202 (upload_body (upload_response res)), w)

abbrev pub with_file :
    Env → Store → Disk → String → World → Result ErrorCode (Option Part) → Outcome × World
with_file env store disk request_id w (err code) = (errored code, w)
with_file env store disk request_id w (ok none) = (errored file_required, w)
with_file env store disk request_id w (ok (some p)) = upload_outcome (
    upload env store disk
      (record { file_part = p.content; filename = p.file_name; request_id = request_id }) w)

-- `Handle` of upload.go; `not_multipart` is the error of `MultipartReader`.
unfoldable pub handle_upload :
    Env → Store → Disk → String → Option StoreError → List NextPart → World → Outcome × World
unfolding find_file
handle_upload env store disk request_id (some e) parts w = (errored (multipart_error e), w)
handle_upload env store disk request_id none parts w =
    with_file env store disk request_id w (find_file parts)
