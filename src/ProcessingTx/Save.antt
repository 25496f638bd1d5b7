-- ===== src/ProcessingTx/Save.antt =====
-- `SaveTranscription` of processing_tx.go.
pub mod Laws
pub mod Effect
use recording.Prelude.{ℕ, ◌+◌, String, ◌||◌, not, some, ◌==◌, Result, ok, err}
use recording.Domain.Status.{transcribing, summarizing, is_status}
use recording.Domain.Task.{ExecutionKey, zero_task, allocate_event_seq}
use recording.Domain.Event.{TaskEvent, zero_event, transcription_completed, info}
use recording.Database.Rows.{RecordingRow, TaskRow, Db}
use recording.Database.Tx.{
  Env, Tx, ◌>>=◌, ◌>>◌, lock_task, lock_recording, commit, stop_if, is_some, task_by_id, matches,
  recording_by_id, update_tasks, insert_event_row, transact,
}
use recording.Ports.{TxError, stale_execution}

abbrev pub transcribed_row : Env → ℕ → String → TaskRow → TaskRow
transcribed_row env seq transcript t = record t {
  status = summarizing;
  transcript = transcript;
  event_seq = seq;
  updated_at = env.now;
}

abbrev pub transcribed_event : Env → ExecutionKey → TaskRow → ℕ → TaskEvent
transcribed_event env key task seq = record zero_event {
  event_id = env.new_id 0;
  task_id = task.id;
  recording_id = task.recording_id;
  event_seq = seq;
  attempt = key.attempt;
  kind = transcription_completed;
  occurred_at = env.now;
  level = info;
  from_status = some transcribing;
  to_status = some summarizing;
  stage = some "transcribing";
  created_request_id = task.created_request_id;
  instance_id = env.instance_id;
}

unfoldable pub save_body : Env → ExecutionKey → String → Tx (Unit {0}) (Unit {0})
unfolding allocate_event_seq
save_body env key transcript = do
  task ← task_by_id env lock_task key.task_id (err stale_execution)
  stop_if (not (task.attempt == key.attempt) || not (is_status task.status transcribing))
      (err stale_execution)
  rec ← recording_by_id env lock_recording task.recording_id (err stale_execution)
  stop_if (is_some rec.deleting_at) (err stale_execution)
  let (allocated, seq) = allocate_event_seq (record zero_task { event_seq = task.event_seq })
  rows ←
      update_tasks env (matches key.task_id key.attempt transcribing)
        (transcribed_row env allocated.event_seq transcript)
  stop_if (rows == 0) (err stale_execution)
  insert_event_row env (transcribed_event env key task seq)
  commit tt

unfoldable pub save_transcription :
    Env → ExecutionKey → String → Db → Result TxError (Unit {0}) × Db
unfolding save_body
save_transcription env key transcript = transact env (save_body env key transcript)
