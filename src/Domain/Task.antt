-- ===== src/Domain/Task.antt =====
-- internal/domain/recording/task.go: the entity and its methods. A method that mutates the task
-- returns the new task. Times are natural numbers of nanoseconds; `int` and `int64` counters that
-- only ever go up by one are natural numbers.
use recording.Prelude.{ℕ, ◌+◌, String, Bool, ◌||◌, not, Option, none, some, ◌==◌, if◌then◌else◌}
use recording.Domain.Status.{
  TaskStatus, pending, transcribing, summarizing, failed, DomainError, invalid_transition,
  attempt_mismatch, transitions, is_status,
}
use recording.Domain.Summary.{Summary}

pub record ProcessingTask : Type 0 where
  pub id : String
  pub recording_id : String
  pub status : TaskStatus
  pub attempt : ℕ
  pub event_seq : ℕ
  pub transcript : String
  pub summary : Option Summary
  pub error_code : Option ℕ
  pub error_message : String
  pub created_request_id : String
  pub created_at : ℕ
  pub updated_at : ℕ
  pub started_at : Option ℕ
  pub finished_at : Option ℕ

-- The zero value `domain.ProcessingTask{}`, whose status is read by nothing.
abbrev pub zero_task : ProcessingTask
zero_task = record {
  id = "";
  recording_id = "";
  status = pending;
  attempt = 0;
  event_seq = 0;
  transcript = "";
  summary = none;
  error_code = none;
  error_message = "";
  created_request_id = "";
  created_at = 0;
  updated_at = 0;
  started_at = none;
  finished_at = none;
}

unfoldable pub can_transition : ProcessingTask → TaskStatus → Bool
can_transition t to = transitions t.status to

unfoldable pub transition : ProcessingTask → ℕ → TaskStatus → ProcessingTask × Option DomainError
unfolding can_transition
transition t attempt to =
    if not (attempt == t.attempt)
    then (t, some attempt_mismatch)
    else if not (can_transition t to)
    then (t, some invalid_transition)
    else (record t { status = to }, none)

unfoldable pub transition_for_recovery :
    ProcessingTask → TaskStatus → ProcessingTask × Option DomainError
transition_for_recovery t to =
    if not (is_status t.status transcribing || is_status t.status summarizing)
    then (t, some invalid_transition)
    else if not (is_status to pending || is_status to failed)
    then (t, some invalid_transition)
    else (record t { status = to }, none)

unfoldable pub allocate_event_seq : ProcessingTask → ProcessingTask × ℕ
allocate_event_seq t = (record t { event_seq = t.event_seq + 1 }, t.event_seq + 1)

-- What a conditional update matches on.
pub record ExecutionKey : Type 0 where
  pub task_id : String
  pub attempt : ℕ
