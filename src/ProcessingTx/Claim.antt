-- ===== src/ProcessingTx/Claim.antt =====
-- `ClaimNext` of processing_tx.go.
pub mod Laws
pub mod Effect
use recording.Prelude.{
  ℕ, ◌+◌, String, Bool, true, ◌&&◌, ◌||◌, not, Option, none, some, ◌==◌, ltb, leb, same,
  if◌then◌else◌, Result, ok, err, keep, List,
}
use recording.Domain.Status.{TaskStatus, pending, transcribing, is_status}
use recording.Domain.Task.{ProcessingTask, zero_task, allocate_event_seq}
use recording.Domain.Event.{TaskEvent, zero_event, task_claimed, info}
use recording.Database.Table.{order_by, first?}
use recording.Database.Rows.{RecordingRow, TaskRow, Db}
use recording.Database.Tx.{
  Env, Tx, ◌>>=◌, ◌>>◌, find_candidate, lock_recording, read_back, attempt, commit, stop_if,
  found_or, is_some, select_tasks, task_by_id, matches, recording_by_id, update_tasks,
  insert_event_row, transact,
}
use recording.Ports.{TxError, data_inconsistent, driver_failed, other, ClaimedExecution}

abbrev pub is_due : ℕ → Option ℕ → Bool
is_due now none = true
is_due now (some at) = leb at now

-- WHERE status = 'pending' AND (next_retry_at IS NULL OR next_retry_at <= now).
abbrev pub is_claimable : ℕ → TaskRow → Bool
is_claimable now t = is_status t.status pending && is_due now t.next_retry_at

-- ORDER BY created_at, id.
abbrev pub queue_before : Env → TaskRow → TaskRow → Bool
queue_before env a b =
    ltb a.created_at b.created_at || (a.created_at == b.created_at && env.text_before a.id b.id)

-- FOR UPDATE SKIP LOCKED.
abbrev pub candidates : Env → List TaskRow → List TaskRow
candidates env ts =
    order_by (queue_before env) (keep (λ t. is_claimable env.now t && not (env.skips t)) ts)

abbrev pub claimed_row : Env → ℕ → TaskRow → TaskRow
claimed_row env seq t = record t {
  status = transcribing;
  next_retry_at = none;
  error_code = none;
  error_message = "";
  event_seq = seq;
  updated_at = env.now;
  started_at = some env.now;
}

abbrev pub claimed_event : Env → TaskRow → ℕ → TaskEvent
claimed_event env task seq = record zero_event {
  event_id = env.new_id 0;
  task_id = task.id;
  recording_id = task.recording_id;
  event_seq = seq;
  attempt = task.attempt;
  kind = task_claimed;
  occurred_at = env.now;
  level = info;
  from_status = some pending;
  to_status = some transcribing;
  stage = some "transcribing";
  created_request_id = task.created_request_id;
  instance_id = env.instance_id;
}

abbrev pub claimed_execution : TaskRow → RecordingRow → TaskRow → ClaimedExecution
claimed_execution fresh rec task = record {
  execution_key = record { task_id = fresh.id; attempt = fresh.attempt };
  recording_id = rec.id;
  storage_path = rec.storage_path;
  extension = rec.extension;
  created_request_id = task.created_request_id;
}

unfoldable pub claim_body : Env → Tx (Option ClaimedExecution) (Option ClaimedExecution)
unfolding allocate_event_seq
claim_body env = do
  attempt env find_candidate
  first ← select_tasks (λ ts. first? (candidates env ts))
  task ← found_or first (ok none)
  rec ← recording_by_id env lock_recording task.recording_id (err data_inconsistent)
  stop_if (is_some rec.deleting_at) (ok none)
  let (allocated, seq) = allocate_event_seq (record zero_task { event_seq = task.event_seq })
  rows ←
      update_tasks env (matches task.id task.attempt pending) (claimed_row env allocated.event_seq)
  stop_if (rows == 0) (ok none)
  insert_event_row env (claimed_event env task seq)
  fresh ← task_by_id env read_back task.id (err (driver_failed other))
  commit (some (claimed_execution fresh rec task))

unfoldable pub claim_next : Env → Db → Result TxError (Option ClaimedExecution) × Db
unfolding claim_body
claim_next env = transact env (claim_body env)
