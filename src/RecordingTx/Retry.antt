-- ===== src/RecordingTx/Retry.antt =====
-- `RetryTask` of recording_tx.go.
pub mod Laws
pub mod Effect
use recording.Prelude.{ℕ, ◌+◌, String, ◌&&◌, not, none, some, ◌==◌, Result, ok, err}
use recording.Domain.Status.{pending, failed, is_status}
use recording.Domain.Task.{zero_task, allocate_event_seq}
use recording.Domain.Event.{TaskEvent, zero_event, task_retry_accepted, info}
use recording.Database.Rows.{TaskRow, Db}
use recording.Database.Tx.{
  Env, Tx, ◌>>=◌, ◌>>◌, lock_task, lock_recording, read_back, commit, stop_if, is_some, task_by_id,
  matches, recording_by_id, update_tasks, insert_event_row, transact,
}
use recording.ErrorCode
use recording.Ports.{TxError, driver_failed, other, app}

abbrev pub retried_row : Env → ℕ → ℕ → TaskRow → TaskRow
retried_row env seq new_attempt t = record t {
  status = pending;
  attempt = new_attempt;
  transcript = "";
  summary_json = none;
  error_code = none;
  error_message = "";
  started_at = none;
  finished_at = none;
  next_retry_at = none;
  event_seq = seq;
  updated_at = env.now;
}

abbrev pub retried_event : Env → TaskRow → ℕ → ℕ → TaskEvent
retried_event env task seq new_attempt = record zero_event {
  event_id = env.new_id 0;
  task_id = task.id;
  recording_id = task.recording_id;
  event_seq = seq;
  attempt = new_attempt;
  kind = task_retry_accepted;
  occurred_at = env.now;
  level = info;
  from_status = some failed;
  to_status = some pending;
  created_request_id = task.created_request_id;
  instance_id = env.instance_id;
}

unfoldable pub retry_body : Env → String → Tx ℕ ℕ
unfolding allocate_event_seq
retry_body env task_id = do
  task ← task_by_id env lock_task task_id (err (app ErrorCode.task_not_found))
  rec ← recording_by_id env lock_recording task.recording_id (err (app ErrorCode.data_inconsistent))
  stop_if (is_some rec.deleting_at) (err (app ErrorCode.task_not_found))
  stop_if (not (is_status task.status failed)) (err (app ErrorCode.task_not_retryable))
  let new_attempt = task.attempt + 1
  let (allocated, seq) = allocate_event_seq (record zero_task { event_seq = task.event_seq })
  rows ←
      update_tasks env (matches task_id task.attempt failed)
        (retried_row env allocated.event_seq new_attempt)
  stop_if (rows == 0) (err (app ErrorCode.task_not_retryable))
  insert_event_row env (retried_event env task seq new_attempt)
  fresh ← task_by_id env read_back task.id (err (driver_failed other))
  commit fresh.attempt

unfoldable pub retry_task : Env → String → Db → Result TxError ℕ × Db
unfolding retry_body
retry_task env task_id = transact env (retry_body env task_id)
