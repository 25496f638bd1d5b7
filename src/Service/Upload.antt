-- ===== src/Service/Upload.antt =====
-- `UploadService.Upload` of internal/application/recording/upload.go.
pub mod Laws
use recording.Prelude.{
  ℕ, ◌+◌, String, Bool, true, false, List, ◌∷◌, Option, none, some, Result, ok, err, if◌then◌else◌,
}
use recording.Domain.Status.{TaskStatus, pending, DomainError}
use recording.Domain.Task.{ProcessingTask, zero_task, allocate_event_seq}
use recording.Domain.Event.{TaskEvent, zero_event, task_created, info}
use recording.Domain.Filename.{parse_extension, sanitize_filename}
use recording.ErrorCode.{
  ErrorCode, unsupported_extension, empty_file, file_too_large, file_storage_unavailable,
  invalid_argument, database_unavailable,
}
use recording.Database.Rows.{Recording, Db}
use recording.Database.Tx.{Env}
use recording.Ports
use recording.Ports.{
  DriverError, TxError, commit_unknown, driver_failed, stale_execution, data_inconsistent,
  task_not_found, recording_not_found, CreateInput, CreateOrReuseResult,
}
use recording.FileStore.{StoreError, StoredFile, Chunk, Disk, Store, save, delete_file}
use recording.RecordingTx.Create.{create_or_reuse_by_content_hash}
use recording.Service.{World}

pub record UploadRequest : Type 0 where
  pub file_part : List Chunk
  pub filename : String
  pub request_id : String

pub record UploadResult : Type 0 where
  pub recording_id : String
  pub task_id : String
  pub status : TaskStatus
  pub idempotent_reused : Bool

-- A business code, a business code around the context's error, which `errors.Is` finds in it, or
-- the context's own error handed on.
pub data UploadError : Type 0 where
  app app_of_ctx : ErrorCode → UploadError
  interrupted : UploadError

abbrev pub save_error : StoreError → UploadError
save_error StoreError.empty_file = app empty_file
save_error StoreError.file_too_large = app file_too_large
save_error StoreError.storage_unavailable = app file_storage_unavailable
save_error StoreError.canceled = interrupted
save_error StoreError.deadline_exceeded = interrupted
save_error StoreError.read_failed = app invalid_argument

-- The new ids come from `new_id` 0 (recording), 1 (task) and 2 (event).
abbrev pub new_recording : Env → UploadRequest → String → StoredFile → Recording
new_recording env req ext stored = record {
  id = env.new_id 0;
  original_filename = sanitize_filename req.filename;
  storage_path = stored.storage_path;
  extension = ext;
  size_bytes = stored.size_bytes;
  content_hash = stored.content_hash;
  deleting_at = none;
  created_at = env.now;
  updated_at = env.now;
}

abbrev pub new_task : Env → UploadRequest → ProcessingTask
new_task env req = record zero_task {
  id = env.new_id 1;
  recording_id = env.new_id 0;
  status = pending;
  attempt = 1;
  created_request_id = req.request_id;
  created_at = env.now;
  updated_at = env.now;
}

abbrev pub new_event : Env → UploadRequest → ℕ → TaskEvent
new_event env req seq = record zero_event {
  event_id = env.new_id 2;
  task_id = env.new_id 1;
  recording_id = env.new_id 0;
  event_seq = seq;
  attempt = 1;
  kind = task_created;
  occurred_at = env.now;
  level = info;
  to_status = some pending;
  created_request_id = req.request_id;
  instance_id = env.instance_id;
}

unfoldable pub new_input : Env → UploadRequest → String → StoredFile → CreateInput
unfolding allocate_event_seq
new_input env req ext stored =
    let (task, seq) = allocate_event_seq (new_task env req) in
    record {
      recording = new_recording env req ext stored;
      task = task;
      event = new_event env req seq;
    }

abbrev pub Answer : Type 0
Answer = Result UploadError UploadResult × World

-- `errorcode.New(CodeDatabaseUnavailable, err)`: the adapters wrap the driver's error with `%w`.
abbrev pub database_error : TxError → UploadError
database_error (driver_failed DriverError.canceled) = app_of_ctx database_unavailable
database_error (driver_failed DriverError.deadline_exceeded) = app_of_ctx database_unavailable
database_error (driver_failed DriverError.other) = app database_unavailable
database_error stale_execution = app database_unavailable
database_error data_inconsistent = app database_unavailable
database_error commit_unknown = app database_unavailable
database_error task_not_found = app database_unavailable
database_error recording_not_found = app database_unavailable
database_error (TxError.app code) = app database_unavailable

-- A definite rollback: the file is deleted, as far as that goes.
abbrev pub rolled_back : Disk → StoredFile → TxError → World → Answer
rolled_back disk stored e w =
    let (_, files) = delete_file disk stored.storage_path w.files in
    (err (database_error e), record w { files = files })

-- The content is there already: the new file is not referenced, and deleted.
abbrev pub reused_after :
    CreateOrReuseResult → World → Result StoreError (Unit {0}) × List String → Answer
reused_after res w (err e, files) = (err (app file_storage_unavailable), record w { files = files })
reused_after res w (ok _, files) = (
  ok (record {
    recording_id = res.recording_id;
    task_id = res.task_id;
    status = res.status;
    idempotent_reused = true;
  }),
  record w { files = files },
)

-- A new aggregate: the workers are woken.
abbrev pub created_new : CreateInput → World → Answer
created_new input w = (
  ok (record {
    recording_id = input.recording.id;
    task_id = input.task.id;
    status = input.task.status;
    idempotent_reused = false;
  }),
  record w { notified = w.notified + 1; mirrored = input.event ∷ w.mirrored },
)

abbrev pub after_tx :
    Disk → StoredFile → CreateInput → World → Result TxError CreateOrReuseResult × Db → Answer
after_tx disk stored input w (err commit_unknown, db) =
    (err (app database_unavailable), record w { db = db })
after_tx disk stored input w (err e, db) = rolled_back disk stored e (record w { db = db })
after_tx disk stored input w (ok res, db) =
    let now = record w { db = db } in
    let reused = reused_after res now (delete_file disk stored.storage_path now.files) in
    if res.reused then reused else created_new input now

abbrev pub after_save :
    Env
    → Disk
    → UploadRequest
    → String
    → World
    → Result StoreError StoredFile × List String
    → Answer
after_save env disk req ext w (err e, files) = (err (save_error e), record w { files = files })
after_save env disk req ext w (ok stored, files) =
    let input = new_input env req ext stored in
    after_tx disk stored input (record w { files = files })
      (create_or_reuse_by_content_hash env input w.db)

abbrev pub after_extension :
    Env → Store → Disk → UploadRequest → World → Result DomainError String → Answer
after_extension env store disk req w (err e) = (err (app unsupported_extension), w)
after_extension env store disk req w (ok ext) =
    after_save env disk req ext w (save store disk req.file_part ext w.files)

unfoldable pub upload : Env → Store → Disk → UploadRequest → World → Answer
unfolding new_input
upload env store disk req w = after_extension env store disk req w (parse_extension req.filename)
