-- ===== src/RecordingTx/MarkDeleting.antt =====
-- `MarkDeleting` of recording_tx.go.
pub mod Laws
use recording.Prelude.{
  ℕ, ◌+◌, String, Bool, true, false, ◌&&◌, not, Option, none, some, ◌==◌, same, find?,
  if◌then◌else◌, Result, ok, err,
}
use recording.Domain.Task.{zero_task, allocate_event_seq}
use recording.Domain.Event.{TaskEvent, zero_event, task_delete_requested, info}
use recording.Database.Rows.{RecordingRow, TaskRow, Db}
use recording.Database.Tx.{
  Env, Tx, ◌>>=◌, ◌>>◌, find_hint, lock_task, lock_recording, commit, pure, stop_if, is_some,
  has_recording_id, task_by_id, recording_by_id, update_tasks, update_recordings, insert_event_row,
  transact,
}
use recording.Ports.{TxError, driver_failed}
use recording.RecordingTx.{ensuring_hash_lock, take_hash_lock}

pub record Hint : Type 0 where
  pub content_hash : String
  pub task_id : String

abbrev pub joined_task_id : Option TaskRow → String
joined_task_id none = ""
joined_task_id (some t) = t.id

-- recordings LEFT JOIN tasks WHERE r.id = ?; no row leaves the struct at its zero value.
abbrev pub hint_of : Db → Option RecordingRow → Hint
hint_of db none = record { content_hash = ""; task_id = "" }
hint_of db (some r) = record {
  content_hash = r.content_hash;
  task_id = joined_task_id (find? (λ (t : TaskRow). same t.recording_id r.id) db.tasks);
}

abbrev pub hint : String → Db → Hint
hint recording_id db = hint_of db (find? (has_recording_id recording_id) db.recordings)

abbrev pub lock_hinted_task : {R : Type 0} → Env → String → Result TxError R → Tx R (Option TaskRow)
lock_hinted_task env task_id missing =
    if same task_id ""
    then pure none
    else (do t ← task_by_id env lock_task task_id missing; pure (some t))

abbrev pub marked_row : Env → RecordingRow → RecordingRow
marked_row env r = record r { deleting_at = some env.now; updated_at = env.now }

abbrev pub delete_event : Env → RecordingRow → TaskRow → ℕ → TaskEvent
delete_event env rec task seq = record zero_event {
  event_id = env.new_id 0;
  task_id = task.id;
  recording_id = rec.id;
  event_seq = seq;
  attempt = task.attempt;
  kind = task_delete_requested;
  occurred_at = env.now;
  level = info;
  from_status = some task.status;
  to_status = some task.status;
  created_request_id = task.created_request_id;
  instance_id = env.instance_id;
}

-- What follows the mark: the event of the task, if there is one.
unfoldable pub log_delete : Env → RecordingRow → Option TaskRow → Tx (String × Bool) (String × Bool)
unfolding allocate_event_seq
log_delete env rec none = commit ("", true)
log_delete env rec (some task) = do
  let (allocated, seq) = allocate_event_seq (record zero_task { event_seq = task.event_seq })
  rows ←
      update_tasks env (λ t. same t.id task.id)
        (λ t. record t { event_seq = allocated.event_seq; updated_at = env.now })
  insert_event_row env (delete_event env rec task seq)
  commit (task.id, true)

unfoldable pub mark_body : Env → String → Hint → Tx (String × Bool) (String × Bool)
unfolding log_delete
mark_body env recording_id h = do
  lock ← take_hash_lock env h.content_hash
  rec ← recording_by_id env lock_recording recording_id (ok ("", false))
  task ← lock_hinted_task env h.task_id (ok ("", false))
  stop_if (is_some rec.deleting_at) (ok (joined_task_id task, true))
  rows ←
      update_recordings env (λ r. same r.id recording_id && not (is_some r.deleting_at))
        (marked_row env)
  stop_if (rows == 0) (ok (joined_task_id task, true))
  log_delete env rec task

-- The hint is read before the transaction; the rows are read again under the locks.
unfoldable pub mark_with_hint : Env → String → Hint → Db → Result TxError (String × Bool) × Db
unfolding mark_body
mark_with_hint env recording_id h db =
    if same h.content_hash ""
    then (ok ("", false), db)
    else ensuring_hash_lock env h.content_hash env.now (transact env (mark_body env recording_id h))
        db

unfoldable pub mark_deleting : Env → String → Db → Result TxError (String × Bool) × Db
unfolding mark_with_hint
mark_deleting env recording_id db = elim (env.fails find_hint) [
  | none ↦ mark_with_hint env recording_id (hint recording_id db) db
  | some e ↦ (err (driver_failed e), db)
]
