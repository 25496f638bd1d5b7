-- ===== src/Domain/Event.antt =====
-- internal/domain/recording/event.go.
use recording.Prelude.{ℕ, String, Option, none}
use recording.Domain.Status.{TaskStatus}
use recording.Domain.Json.{Fields, end}

pub data EventKind : Type 0 where
  task_created task_claimed transcription_completed task_completed : EventKind
  task_failed task_auto_retry_scheduled task_retry_accepted task_recovered : EventKind
  task_interrupted task_delete_requested task_deleted : EventKind

pub data EventLevel : Type 0 where
  info warn error : EventLevel

pub record TaskEvent : Type 0 where
  pub event_id : String
  pub task_id : String
  pub recording_id : String
  pub event_seq : ℕ
  pub attempt : ℕ
  pub kind : EventKind
  pub occurred_at : ℕ
  pub level : EventLevel
  pub from_status : Option TaskStatus
  pub to_status : Option TaskStatus
  pub stage : Option String
  pub request_id : Option String
  pub created_request_id : String
  pub instance_id : String
  pub error_code : Option ℕ
  pub error_message : String
  pub stage_elapsed_ms : Option ℕ
  pub attempt_elapsed_ms : Option ℕ
  pub task_elapsed_ms : Option ℕ
  pub details : Fields

-- The zero value `domain.TaskEvent{}`; every literal of the program sets the kind and the level.
abbrev pub zero_event : TaskEvent
zero_event = record {
  event_id = "";
  task_id = "";
  recording_id = "";
  event_seq = 0;
  attempt = 0;
  kind = task_created;
  occurred_at = 0;
  level = info;
  from_status = none;
  to_status = none;
  stage = none;
  request_id = none;
  created_request_id = "";
  instance_id = "";
  error_code = none;
  error_message = "";
  stage_elapsed_ms = none;
  attempt_elapsed_ms = none;
  task_elapsed_ms = none;
  details = end;
}
