-- ===== src/Database/Rows.antt =====
-- models.go: the rows, and the conversions of recording_tx.go from domain values to rows.
use recording.Prelude.{ℕ, String, List, [], Option, none, some, same, if◌then◌else◌}
use recording.Domain.Status.{TaskStatus}
use recording.Domain.Json.{Json, Fields}
use recording.Domain.Task.{ProcessingTask}
use recording.Domain.Event.{EventKind, EventLevel, TaskEvent}

-- domain/recording/recording.go: the aggregate root; `RecordingPO` has the same fields.
pub record Recording : Type 0 where
  pub id : String
  pub original_filename : String
  pub storage_path : String
  pub extension : String
  pub size_bytes : ℕ
  pub content_hash : String
  pub deleting_at : Option ℕ
  pub created_at : ℕ
  pub updated_at : ℕ

pub record RecordingRow : Type 0 where
  pub id : String
  pub original_filename : String
  pub storage_path : String
  pub extension : String
  pub size_bytes : ℕ
  pub content_hash : String
  pub deleting_at : Option ℕ
  pub created_at : ℕ
  pub updated_at : ℕ

pub record HashLockRow : Type 0 where
  pub content_hash : String
  pub created_at : ℕ

-- A NULL text column reads as the empty text, as GORM scans it into a Go string.
pub record TaskRow : Type 0 where
  pub id : String
  pub recording_id : String
  pub status : TaskStatus
  pub attempt : ℕ
  pub event_seq : ℕ
  pub transcript : String
  pub summary_json : Option Json
  pub error_code : Option ℕ
  pub error_message : String
  pub created_request_id : String
  pub created_at : ℕ
  pub updated_at : ℕ
  pub started_at : Option ℕ
  pub finished_at : Option ℕ
  pub next_retry_at : Option ℕ

-- Without the auto-increment key, which the program never reads.
pub record EventRow : Type 0 where
  pub event_id : String
  pub task_id : String
  pub recording_id : String
  pub event_seq : ℕ
  pub attempt : ℕ
  pub event : EventKind
  pub occurred_at : ℕ
  pub level : EventLevel
  pub from_status : Option TaskStatus
  pub to_status : Option TaskStatus
  pub stage : Option String
  pub request_id : Option String
  pub created_request_id : String
  pub instance_id : String
  pub error_code : Option ℕ
  pub error_message : Option String
  pub stage_elapsed_ms : Option ℕ
  pub attempt_elapsed_ms : Option ℕ
  pub task_elapsed_ms : Option ℕ
  pub details : Fields

abbrev pub to_recording_po : Recording → RecordingRow
to_recording_po r = record {
  id = r.id;
  original_filename = r.original_filename;
  storage_path = r.storage_path;
  extension = r.extension;
  size_bytes = r.size_bytes;
  content_hash = r.content_hash;
  deleting_at = r.deleting_at;
  created_at = r.created_at;
  updated_at = r.updated_at;
}

-- The columns that the literal leaves out have Go's zero values.
abbrev pub to_task_po : ProcessingTask → TaskRow
to_task_po tk = record {
  id = tk.id;
  recording_id = tk.recording_id;
  status = tk.status;
  attempt = tk.attempt;
  event_seq = tk.event_seq;
  transcript = "";
  summary_json = none;
  error_code = none;
  error_message = "";
  created_request_id = tk.created_request_id;
  created_at = tk.created_at;
  updated_at = tk.updated_at;
  started_at = tk.started_at;
  finished_at = tk.finished_at;
  next_retry_at = none;
}

abbrev pub str_ptr : String → Option String
str_ptr s = if same s "" then none else some s

-- `details` is the JSON object of the map: an empty map is the object without fields.
abbrev pub to_task_event_po : TaskEvent → EventRow
to_task_event_po e = record {
  event_id = e.event_id;
  task_id = e.task_id;
  recording_id = e.recording_id;
  event_seq = e.event_seq;
  attempt = e.attempt;
  event = e.kind;
  occurred_at = e.occurred_at;
  level = e.level;
  from_status = e.from_status;
  to_status = e.to_status;
  stage = e.stage;
  request_id = e.request_id;
  created_request_id = e.created_request_id;
  instance_id = e.instance_id;
  error_code = e.error_code;
  error_message = str_ptr e.error_message;
  stage_elapsed_ms = none;
  attempt_elapsed_ms = none;
  task_elapsed_ms = none;
  details = e.details;
}

pub record Db : Type 0 where
  pub recordings : List RecordingRow
  pub tasks : List TaskRow
  pub events : List EventRow
  pub hash_locks : List HashLockRow

abbrev pub empty : Db
empty = record { recordings = []; tasks = []; events = []; hash_locks = [] }
