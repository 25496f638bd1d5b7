-- ===== src/ProcessingTx/Fail.antt =====
-- `FailTask` of processing_tx.go: the attempts before the third are scheduled again.
pub mod Laws
pub mod Effect
use recording.Prelude.{
  ℕ, ◌+◌, ◌-◌, ◌*◌, ◌^◌, String, Bool, ◌||◌, ◌&&◌, not, Option, none, some, ◌==◌, ltb,
  if◌then◌else◌, Result, ok, err,
}
use recording.Domain.Status.{
  TaskStatus, pending, transcribing, summarizing, done, failed, is_status,
}
use recording.Domain.Json.{Fields, num, end, field}
use recording.Domain.Task.{ExecutionKey, zero_task, allocate_event_seq}
use recording.Domain.Event.{
  TaskEvent, EventKind, EventLevel, zero_event, task_failed, task_auto_retry_scheduled, warn, error,
}
use recording.ErrorCode.{ErrorCode, number}
use recording.Database.Rows.{RecordingRow, TaskRow, Db}
use recording.Database.Tx.{
  Env, Tx, ◌>>=◌, ◌>>◌, lock_task, lock_recording, commit, stop_if, is_some, task_by_id, matches,
  recording_by_id, update_tasks, insert_event_row, transact,
}
use recording.Ports.{TxError, stale_execution}

-- The text of a status.
abbrev pub status_text : TaskStatus → String
status_text pending = "pending"
status_text transcribing = "transcribing"
status_text summarizing = "summarizing"
status_text done = "done"
status_text failed = "failed"

-- `time.Second`, in nanoseconds.
abbrev pub second : ℕ
second = 1000000000

-- `time.Second << (attempt - 1)`; the column's CHECK keeps `attempt` positive.
abbrev pub retry_delay : ℕ → ℕ
retry_delay attempt = second * 2 ^ (attempt - 1)

abbrev pub auto_retry : TaskRow → Bool
auto_retry task = ltb task.attempt 3

abbrev pub fail_target : TaskRow → TaskStatus
fail_target task = if auto_retry task then pending else failed

abbrev pub next_attempt : TaskRow → ℕ
next_attempt task = if auto_retry task then task.attempt + 1 else task.attempt

abbrev pub next_retry : Env → TaskRow → Option ℕ
next_retry env task = if auto_retry task then some (env.now + retry_delay task.attempt) else none

abbrev pub fail_details : TaskRow → Fields
fail_details task =
    if auto_retry task
    then field "next_attempt" (num (task.attempt + 1))
        (field "retry_after_ms" (num (1000 * 2 ^ (task.attempt - 1))) end)
    else end

abbrev pub failed_row : Env → ℕ → TaskRow → ErrorCode → String → TaskRow → TaskRow
failed_row env seq task code msg t = record t {
  status = fail_target task;
  attempt = next_attempt task;
  error_code = some (number code);
  error_message = msg;
  next_retry_at = next_retry env task;
  transcript = "";
  summary_json = none;
  event_seq = seq;
  updated_at = env.now;
  finished_at = if auto_retry task then none else some env.now;
}

abbrev pub failed_event : Env → ExecutionKey → TaskRow → ErrorCode → String → ℕ → TaskEvent
failed_event env key task code msg seq = record zero_event {
  event_id = env.new_id 0;
  task_id = task.id;
  recording_id = task.recording_id;
  event_seq = seq;
  attempt = key.attempt;
  kind = if auto_retry task then task_auto_retry_scheduled else task_failed;
  occurred_at = env.now;
  level = if auto_retry task then warn else error;
  from_status = some task.status;
  to_status = some (fail_target task);
  stage = some (status_text task.status);
  created_request_id = task.created_request_id;
  instance_id = env.instance_id;
  error_code = some (number code);
  error_message = msg;
  details = fail_details task;
}

unfoldable pub fail_body : Env → ExecutionKey → ErrorCode → String → Tx (Unit {0}) (Unit {0})
unfolding allocate_event_seq
fail_body env key code msg = do
  task ← task_by_id env lock_task key.task_id (err stale_execution)
  stop_if (not (task.attempt == key.attempt)) (err stale_execution)
  stop_if (not (is_status task.status transcribing) && not (is_status task.status summarizing))
      (err stale_execution)
  rec ← recording_by_id env lock_recording task.recording_id (err stale_execution)
  stop_if (is_some rec.deleting_at) (err stale_execution)
  let (allocated, seq) = allocate_event_seq (record zero_task { event_seq = task.event_seq })
  rows ←
      update_tasks env (matches key.task_id key.attempt task.status)
        (failed_row env allocated.event_seq task code msg)
  stop_if (rows == 0) (err stale_execution)
  insert_event_row env (failed_event env key task code msg seq)
  commit tt

unfoldable pub fail_task :
    Env → ExecutionKey → ErrorCode → String → Db → Result TxError (Unit {0}) × Db
unfolding fail_body
fail_task env key code msg = transact env (fail_body env key code msg)
