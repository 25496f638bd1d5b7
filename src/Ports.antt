-- ===== src/Ports.antt =====
-- internal/application/ports: the errors that the adapters return, and the values that pass
-- between the use cases and the adapters.
use recording.Prelude.{ℕ, String, Bool, List, Option}
use recording.Domain.Status.{TaskStatus}
use recording.Domain.Task.{ProcessingTask, ExecutionKey}
use recording.Domain.Event.{TaskEvent}
use recording.Domain.Summary.{Summary}
use recording.Database.Rows.{Recording}
use recording.ErrorCode.{ErrorCode}

-- What a database driver reports: the two context errors, or any other.
pub data DriverError : Type 0 where
  canceled deadline_exceeded other : DriverError

-- An error value of an adapter, by what `errors.Is` and `errors.As` find in it.
pub data TxError : Type 0 where
  stale_execution data_inconsistent commit_unknown task_not_found recording_not_found : TxError
  driver_failed : DriverError → TxError
  app : ErrorCode → TxError

pub record ClaimedExecution : Type 0 where
  pub execution_key : ExecutionKey
  pub recording_id : String
  pub storage_path : String
  pub extension : String
  pub created_request_id : String

pub record CreateInput : Type 0 where
  pub recording : Recording
  pub task : ProcessingTask
  pub event : TaskEvent

pub record CreateOrReuseResult : Type 0 where
  pub recording_id : String
  pub task_id : String
  pub status : TaskStatus
  pub reused : Bool

pub record TaskError : Type 0 where
  pub code : ℕ
  pub message : String

pub record TaskView : Type 0 where
  pub id : String
  pub recording_id : String
  pub status : TaskStatus
  pub attempt : ℕ
  pub error : Option TaskError
  pub created_at : ℕ
  pub started_at : Option ℕ
  pub finished_at : Option ℕ
  pub next_retry_at : Option ℕ

pub record RecordingDetail : Type 0 where
  pub task : TaskView
  pub original_filename : String
  pub extension : String
  pub size_bytes : ℕ
  pub created_at : ℕ
  pub transcript : Option String
  pub result : Option Summary

pub record RecordingListItem : Type 0 where
  pub recording_id : String
  pub original_filename : String
  pub size_bytes : ℕ
  pub created_at : ℕ
  pub task_id : String
  pub status : TaskStatus

pub record RecordingList : Type 0 where
  pub items : List RecordingListItem
  pub page : ℕ
  pub page_size : ℕ
  pub total : ℕ

-- `status` is the empty text in Go where the task is missing: here `none`.
pub record DeletingCleanup : Type 0 where
  pub recording_id : String
  pub task_id : String
  pub storage_path : String
  pub status : Option TaskStatus
  pub attempt : ℕ
  pub event_seq : ℕ
