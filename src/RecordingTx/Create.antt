-- ===== src/RecordingTx/Create.antt =====
-- `CreateWithTask` and `CreateOrReuseByContentHash` of recording_tx.go.
pub mod Laws
use recording.Prelude.{
  ℕ, String, Bool, true, false, ◌&&◌, ◌||◌, not, List, [], ◌∷◌, ◌++◌, Option, none, some, ◌==◌, ltb,
  same, if◌then◌else◌, Result, keep, map,
}
use recording.Domain.Status.{TaskStatus, pending}
use recording.Database.Table.{order_by, first?}
use recording.Database.Rows.{RecordingRow, TaskRow, Db}
use recording.Database.Tx.{
  Env, Tx, ◌>>=◌, ◌>>◌, find_existing, attempt, commit, pure, is_some, insert_recording_row,
  insert_task_row, insert_event_row, transact,
}
use recording.Ports.{TxError, CreateInput, CreateOrReuseResult}
use recording.RecordingTx.{ensuring_hash_lock, take_hash_lock}

unfoldable pub create_body : Env → CreateInput → Tx (Unit {0}) (Unit {0})
create_body env input = do
  insert_recording_row env input.recording
  insert_task_row env input.task
  insert_event_row env input.event
  commit tt

unfoldable pub create_with_task : Env → CreateInput → Db → Result TxError (Unit {0}) × Db
unfolding create_body
create_with_task env input = transact env (create_body env input)

pub record Existing : Type 0 where
  pub recording_id : String
  pub task_id : String
  pub status : TaskStatus
  pub created_at : ℕ

-- The struct before `Scan`; its status is read only behind a recording id.
abbrev pub no_row : Existing
no_row = record { recording_id = ""; task_id = ""; status = pending; created_at = 0 }

-- The rows of `recordings r JOIN tasks t ON t.recording_id = r.id` for one `r`.
abbrev pub joined_with : RecordingRow → TaskRow → Existing
joined_with r t = record {
  recording_id = r.id;
  task_id = t.id;
  status = t.status;
  created_at = r.created_at;
}

unfoldable pub join_tasks : List TaskRow → List RecordingRow → List Existing
join_tasks ts [] = []
join_tasks ts (r ∷ rs) =
    map (joined_with r) (keep (λ t. same t.recording_id r.id) ts) ++ join_tasks ts rs

-- WHERE r.content_hash = ? AND r.deleting_at IS NULL.
abbrev pub is_reusable : String → RecordingRow → Bool
is_reusable hash r = same r.content_hash hash && not (is_some r.deleting_at)

abbrev pub existing_before : Env → Existing → Existing → Bool
existing_before env a b =
    ltb a.created_at b.created_at
    || (a.created_at == b.created_at && env.text_before a.recording_id b.recording_id)

abbrev pub scanned : Option Existing → Existing
scanned none = no_row
scanned (some e) = e

-- ORDER BY r.created_at, r.id LIMIT 1.
abbrev pub reusable : Env → String → Db → Existing
reusable env hash db = scanned (
    first? (
      order_by (existing_before env) (join_tasks db.tasks (keep (is_reusable hash) db.recordings))))

abbrev pub reuse : Existing → CreateOrReuseResult
reuse e = record {
  recording_id = e.recording_id;
  task_id = e.task_id;
  status = e.status;
  reused = true;
}

abbrev pub created : CreateInput → CreateOrReuseResult
created input = record {
  recording_id = input.recording.id;
  task_id = input.task.id;
  status = input.task.status;
  reused = false;
}

-- The branch behind the query: commit with nothing written, or the three inserts.
abbrev pub reuse_or_create :
    Env → CreateInput → Existing → Tx CreateOrReuseResult CreateOrReuseResult
reuse_or_create env input existing =
    if not (same existing.recording_id "") then commit (reuse existing) else (do
      insert_recording_row env input.recording
      insert_task_row env input.task
      insert_event_row env input.event
      commit (created input))

unfoldable pub create_or_reuse_body : Env → CreateInput → Tx CreateOrReuseResult CreateOrReuseResult
unfolding join_tasks
create_or_reuse_body env input = do
  lock ← take_hash_lock env input.recording.content_hash
  attempt env find_existing
  existing ← (λ db. pure (reusable env input.recording.content_hash db) db)
  reuse_or_create env input existing

unfoldable pub create_or_reuse_by_content_hash :
    Env → CreateInput → Db → Result TxError CreateOrReuseResult × Db
unfolding create_or_reuse_body
create_or_reuse_by_content_hash env input =
    ensuring_hash_lock env input.recording.content_hash input.recording.created_at
      (transact env (create_or_reuse_body env input))
