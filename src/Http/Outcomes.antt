-- ===== src/Http/Outcomes.antt =====
-- The outcomes of the handlers of internal/interfaces/http/handler: a status that goes with its body,
-- or an error whose code has the status of one.
use recording.Prelude.{
  [], ◌∷◌, ℕ, ◌≡◌, ◌⊎◌, inl, inr, refl, String, Bool, true, false, List, Option, none, some, arith,
  Bool-cases, Result, ok, err, if◌then◌else◌,
}
use recording.Decimal.{ℤ}
use recording.Uuid.{is_valid}
use recording.ErrorCode.{ErrorCode, http_status, invalid_argument}
use recording.Database.Rows.{Db}
use recording.Database.Tx.{Env}
use recording.FileStore.{StoreError, Store, Disk}
use recording.Ports.{TaskView, RecordingDetail, RecordingList}
use recording.Service.{World}
use recording.Service.Answers.{
  IsAnswer, IsAnswered, query_task-IsAnswered, query_recording-IsAnswered,
  query_recordings-IsAnswered,
}
use recording.Service.Answers.Retry.{retry-IsAnswered}
use recording.Service.Answers.Delete.{delete-IsAnswered}
use recording.Service.Answers.Upload.{IsUploadAnswered, upload-IsAnswered}
use recording.Service.Queries.{query_task, query_recording, query_recordings}
use recording.Service.Upload.{
  UploadResult, UploadError, app, app_of_ctx, interrupted, upload, UploadRequest,
}
use recording.Service.Delete.{delete}
use recording.Service.Retry.{RetryResult, retry}
use recording.Http.Stream.{Poll}
use recording.Http.Answer.{
  no_body, error_body, state_body, upload_body, retry_body, Outcome, replied, errored, aborted,
  panicked,
}
use recording.Http.Handlers.{
  NextPart, Part, part, part_failed, handle_task, handle_recording, handle_list,
  handle_summary_stream, handle_retry, handle_delete, handle_upload, task_outcome,
  recording_outcome, list_outcome, listed, int_param, stream_outcome, retry_outcome, delete_outcome,
  find_file, multipart_error, upload_outcome, with_file, is_file,
}

-- The outcomes that give such responses.
abbrev pub IsSound : Outcome → Type 0
IsSound (errored code) = IsAnswer code
IsSound (aborted n) = n ≡ 499
IsSound panicked = Unit
IsSound (replied n (error_body e)) = ⊥
IsSound (replied n no_body) = n ≡ 204
IsSound (replied n (state_body s)) = (n ≡ 200) ⊎ (n ≡ 503)
IsSound (replied n (upload_body b)) = n ≡ 202
IsSound (replied n (retry_body b)) = n ≡ 202
IsSound (replied n _) = n ≡ 200

pub if-IsSound : (b : Bool) (o p : Outcome) → IsSound o → IsSound p → IsSound (if b then o else p)
if-IsSound true o p h k = h
if-IsSound false o p h k = k

-- The outcome of a request with a bad parameter.
refused-IsSound : IsSound (errored invalid_argument)
unfolding http_status
refused-IsSound = omega arith

task_outcome-IsSound : (r : Result ErrorCode TaskView) → IsAnswered r → IsSound (task_outcome r)
task_outcome-IsSound (ok v) h = refl
task_outcome-IsSound (err code) h = h

pub handle_task-IsSound : (env : Env) (id : String) (w : World) → IsSound (handle_task env id w)
unfolding handle_task
handle_task-IsSound env id w =
    if-IsSound (is_valid id) (task_outcome (query_task env id w.db)) (errored invalid_argument)
      (task_outcome-IsSound (query_task env id w.db) (query_task-IsAnswered env id w.db))
      refused-IsSound

recording_outcome-IsSound :
    (r : Result ErrorCode RecordingDetail) → IsAnswered r → IsSound (recording_outcome r)
recording_outcome-IsSound (ok v) h = refl
recording_outcome-IsSound (err code) h = h

pub handle_recording-IsSound :
    (env : Env) (id : String) (w : World) → IsSound (handle_recording env id w)
unfolding handle_recording
handle_recording-IsSound env id w =
    if-IsSound (is_valid id) (recording_outcome (query_recording env id w.db))
      (errored invalid_argument)
      (recording_outcome-IsSound (query_recording env id w.db)
        (query_recording-IsAnswered env id w.db))
      refused-IsSound

list_outcome-IsSound :
    (r : Result ErrorCode RecordingList) → IsAnswered r → IsSound (list_outcome r)
list_outcome-IsSound (ok v) h = refl
list_outcome-IsSound (err code) h = h

listed-IsSound :
    (env : Env) (page page_size : Option ℤ) (db : Db) → IsSound (listed env page page_size db)
listed-IsSound env none o db = refused-IsSound
listed-IsSound env (some page) none db = refused-IsSound
listed-IsSound env (some page) (some page_size) db =
    list_outcome-IsSound (query_recordings env page page_size db)
      (query_recordings-IsAnswered env page page_size db)

pub handle_list-IsSound :
    (env : Env) (page page_size : String) (w : World) → IsSound (handle_list env page page_size w)
unfolding handle_list
handle_list-IsSound env page page_size w =
    listed-IsSound env (int_param page 1) (int_param page_size 20) w.db

stream_outcome-IsSound :
    (show_time : Option ℕ → String) (id : String) (now : ℕ) (polls : List Poll)
    (r : Result ErrorCode RecordingDetail)
    → IsAnswered r
    → IsSound (stream_outcome show_time id now polls r)
stream_outcome-IsSound show_time id now polls (ok v) h = refl
stream_outcome-IsSound show_time id now polls (err code) h = h

pub handle_summary_stream-IsSound :
    (env : Env) (show_time : Option ℕ → String) (id : String) (now : ℕ) (polls : List Poll)
    (w : World)
    → IsSound (handle_summary_stream env show_time id now polls w)
unfolding handle_summary_stream
handle_summary_stream-IsSound env show_time id now polls w =
    if-IsSound (is_valid id) (stream_outcome show_time id now polls (query_recording env id w.db))
      (errored invalid_argument)
      (stream_outcome-IsSound show_time id now polls (query_recording env id w.db)
        (query_recording-IsAnswered env id w.db))
      refused-IsSound

-- A handler that changes the world.
pub pick-IsSound :
    (b : Bool) (a c : Outcome × World) → IsSound a.0 → IsSound c.0 → IsSound (if b then a else c).0
pick-IsSound true a c h k = h
pick-IsSound false a c h k = k

retry_outcome-IsSound :
    (r : Result ErrorCode RetryResult × World) → IsAnswered r.0 → IsSound (retry_outcome r).0
retry_outcome-IsSound (ok v, w) h = refl
retry_outcome-IsSound (err code, w) h = h

pub handle_retry-IsSound : (env : Env) (id : String) (w : World) → IsSound (handle_retry env id w).0
unfolding handle_retry
handle_retry-IsSound env id w =
    pick-IsSound (is_valid id) (retry_outcome (retry env id w)) (errored invalid_argument, w)
      (retry_outcome-IsSound (retry env id w) (retry-IsAnswered env id w)) refused-IsSound

delete_outcome-IsSound :
    (r : Result ErrorCode (Unit {0}) × World) → IsAnswered r.0 → IsSound (delete_outcome r).0
delete_outcome-IsSound (ok v, w) h = refl
delete_outcome-IsSound (err code, w) h = h

pub handle_delete-IsSound :
    (envs : ℕ → Env) (disk : Disk) (id : String) (w : World)
    → IsSound (handle_delete envs disk id w).0
unfolding handle_delete
handle_delete-IsSound envs disk id w =
    pick-IsSound (is_valid id) (delete_outcome (delete envs disk id w))
      (errored invalid_argument, w)
      (delete_outcome-IsSound (delete envs disk id w) (delete-IsAnswered envs disk id w))
      refused-IsSound

multipart_error-IsAnswer : (e : StoreError) → IsAnswer (multipart_error e)
unfolding http_status
multipart_error-IsAnswer StoreError.file_too_large = omega arith
multipart_error-IsAnswer _ = omega arith

find_file-IsAnswered : (ps : List NextPart) → IsAnswered (find_file ps)
unfolding find_file
find_file-IsAnswered [] = tt
find_file-IsAnswered (part_failed e ∷ ps) = multipart_error-IsAnswer e
find_file-IsAnswered (part p ∷ ps) = elim (Bool-cases (is_file p)) [
  | inl file ↦ rw file tt
  | inr other ↦ rw other (find_file-IsAnswered ps)
]

upload_outcome-IsSound :
    (r : Result UploadError UploadResult × World)
    → IsUploadAnswered r.0
    → IsSound (upload_outcome r).0
upload_outcome-IsSound (ok v, w) h = refl
upload_outcome-IsSound (err interrupted, w) h = refl
upload_outcome-IsSound (err (app_of_ctx code), w) h = refl
upload_outcome-IsSound (err (app code), w) h = h

with_file-IsSound :
    (env : Env) (store : Store) (disk : Disk) (request_id : String) (w : World)
    (r : Result ErrorCode (Option Part))
    → IsAnswered r
    → IsSound (with_file env store disk request_id w r).0
unfolding http_status
with_file-IsSound env store disk request_id w (err code) h = h
with_file-IsSound env store disk request_id w (ok none) h = omega arith
with_file-IsSound env store disk request_id w (ok (some p)) h =
    let req : UploadRequest = record {
      file_part = p.content;
      filename = p.file_name;
      request_id = request_id;
    } in
    upload_outcome-IsSound (upload env store disk req w) (upload-IsAnswered env store disk req w)

pub handle_upload-IsSound :
    (env : Env) (store : Store) (disk : Disk) (request_id : String) (e : Option StoreError)
    (parts : List NextPart) (w : World)
    → IsSound (handle_upload env store disk request_id e parts w).0
unfolding handle_upload
handle_upload-IsSound env store disk request_id (some e) parts w = multipart_error-IsAnswer e
handle_upload-IsSound env store disk request_id none parts w =
    with_file-IsSound env store disk request_id w (find_file parts) (find_file-IsAnswered parts)
