-- ===== src/ProcessingTx/Complete.antt =====
-- `CompleteTask` of processing_tx.go.
pub mod Laws
pub mod Effect
use recording.Prelude.{ℕ, ◌+◌, String, List, [], ◌∷◌, ◌||◌, not, some, ◌==◌, Result, ok, err}
use recording.Domain.Status.{summarizing, done, is_status}
use recording.Domain.Json.{Json, str, arr, obj, Items, nil, cons, end, field}
use recording.Domain.Summary.{Summary}
use recording.Domain.Task.{ExecutionKey, zero_task, allocate_event_seq}
use recording.Domain.Event.{TaskEvent, zero_event, task_completed, info}
use recording.Database.Rows.{RecordingRow, TaskRow, Db}
use recording.Database.Tx.{
  Env, Tx, ◌>>=◌, ◌>>◌, lock_task, lock_recording, commit, stop_if, is_some, task_by_id, matches,
  recording_by_id, update_tasks, insert_event_row, transact,
}
use recording.Ports.{TxError, stale_execution}

-- `json.Marshal` of a `[]string` that is not nil.
unfoldable pub texts : List String → Items
texts [] = nil
texts (s ∷ ss) = cons (str s) (texts ss)

-- `json.Marshal` of the struct with the lower-case keys.
unfoldable pub marshal_summary : Summary → Json
unfolding texts
marshal_summary s = obj (
    field "summary" (str s.summary)
      (field "key_points" (arr (texts s.key_points)) (field "todos" (arr (texts s.todos)) end)))

abbrev pub completed_row : Env → ℕ → Summary → TaskRow → TaskRow
completed_row env seq s t = record t {
  status = done;
  summary_json = some (marshal_summary s);
  event_seq = seq;
  updated_at = env.now;
  finished_at = some env.now;
}

abbrev pub completed_event : Env → ExecutionKey → TaskRow → ℕ → TaskEvent
completed_event env key task seq = record zero_event {
  event_id = env.new_id 0;
  task_id = task.id;
  recording_id = task.recording_id;
  event_seq = seq;
  attempt = key.attempt;
  kind = task_completed;
  occurred_at = env.now;
  level = info;
  from_status = some summarizing;
  to_status = some done;
  stage = some "summarizing";
  created_request_id = task.created_request_id;
  instance_id = env.instance_id;
}

unfoldable pub complete_body : Env → ExecutionKey → Summary → Tx (Unit {0}) (Unit {0})
unfolding allocate_event_seq
complete_body env key s = do
  task ← task_by_id env lock_task key.task_id (err stale_execution)
  stop_if (not (task.attempt == key.attempt) || not (is_status task.status summarizing))
      (err stale_execution)
  rec ← recording_by_id env lock_recording task.recording_id (err stale_execution)
  stop_if (is_some rec.deleting_at) (err stale_execution)
  let (allocated, seq) = allocate_event_seq (record zero_task { event_seq = task.event_seq })
  rows ←
      update_tasks env (matches key.task_id key.attempt summarizing)
        (completed_row env allocated.event_seq s)
  stop_if (rows == 0) (err stale_execution)
  insert_event_row env (completed_event env key task seq)
  commit tt

unfoldable pub complete_task : Env → ExecutionKey → Summary → Db → Result TxError (Unit {0}) × Db
unfolding complete_body
complete_task env key s = transact env (complete_body env key s)
