-- ===== src/Database/Tx.antt =====
-- A transaction of the adapters: statements between Begin and Commit, each of which may fail, and
-- early returns behind Rollback. What the server, the clock and `uuid.New` answer during one call
-- is the argument `Env`.
pub mod Steps
use recording.Prelude.{
  ℕ, zero, suc, ◌+◌, ◌≤◌, ◌<◌, ◌≡◌, refl, String, Bool, true, false, not, ◌&&◌, ◌||◌, List, [], ◌∷◌,
  Option, none, some, arith, if◌then◌else◌, ltb, leb, ◌==◌, same, keep, find?, any, Result, ok, err,
}
use recording.Domain.Status.{TaskStatus, is_status}
use recording.Domain.Task.{ProcessingTask}
use recording.Domain.Event.{TaskEvent}
use recording.Database.Table.{update, affected, delete}
use recording.Database.Rows.{
  Recording, RecordingRow, HashLockRow, TaskRow, EventRow, Db, to_recording_po, to_task_po,
  to_task_event_po,
}
use recording.Ports.{DriverError, other, TxError, commit_unknown, driver_failed}

-- The places at which a statement of the adapters can fail.
pub data Stmt : Type 0 where
  begin_tx find_candidate lock_task lock_recording lock_hash find_existing find_hint : Stmt
  ensure_hash_lock update_task update_recording insert_recording insert_task insert_event : Stmt
  read_back scan_tasks delete_events delete_tasks delete_recording select_task : Stmt
  select_recording count_recordings inspect_tasks inspect_recordings list_paths : Stmt

-- COMMIT is acknowledged, or its reply is lost and the server has kept or dropped the changes.
pub data CommitReply : Type 0 where
  acknowledged lost_kept lost_dropped : CommitReply

-- `skips` are the rows that other transactions hold locked, which SKIP LOCKED passes over;
-- `text_before` is the server's order on CHAR(36).
pub record Env : Type 0 where
  pub fails : Stmt → Option DriverError
  pub commit_reply : CommitReply
  pub skips : TaskRow → Bool
  pub text_before : String → String → Bool
  pub now : ℕ
  pub new_id : ℕ → String
  pub instance_id : String

-- `stop` is a return behind Rollback, with the value or the error that is returned.
pub data Progress (R A : Type 0) : Type 0 where
  stop : Result TxError R → Progress R A
  go : A → Db → Progress R A

abbrev pub Tx : Type 0 → Type 0 → Type 0
Tx R A = Db → Progress R A

infixl 5 ◌>>=◌ ◌>>◌
abbrev pub ◌>>=◌ : {R A B : Type 0} → Tx R A → (A → Tx R B) → Tx R B
◌>>=◌ m f db = elim (m db) [ stop r ↦ stop r | go a db' ↦ f a db' ]

abbrev pub ◌>>◌ : {R B : Type 0} → Tx R (Unit {0}) → Tx R B → Tx R B
m >> k = m >>= λ _. k

abbrev pub pure : {R A : Type 0} → A → Tx R A
pure a db = go a db

abbrev pub commit : {R : Type 0} → R → Tx R R
commit a db = go a db

abbrev pub rollback : {R A : Type 0} → Result TxError R → Tx R A
rollback r db = stop r

abbrev pub attempt : {R : Type 0} → Env → Stmt → Tx R (Unit {0})
attempt env s db = elim (env.fails s) [ none ↦ go tt db | some e ↦ stop (err (driver_failed e)) ]

-- `if test { Rollback; return r }`.
abbrev pub stop_if : {R : Type 0} → Bool → Result TxError R → Tx R (Unit {0})
stop_if true r db = stop r
stop_if false r db = go tt db

-- `First`: the row, or `r` where there is none.
abbrev pub found_or : {R A : Type 0} → Option A → Result TxError R → Tx R A
found_or none r db = stop r
found_or (some a) r db = go a db

abbrev pub is_some {ℓ} : {A : Type ℓ} → Option A → Bool
is_some none = false
is_some (some _) = true

abbrev pub has_task_id : String → TaskRow → Bool
has_task_id k t = same t.id k

abbrev pub has_recording_id : String → RecordingRow → Bool
has_recording_id k r = same r.id k

-- WHERE id = ? AND attempt = ? AND status = ?
abbrev pub matches : String → ℕ → TaskStatus → TaskRow → Bool
matches k a s t = same t.id k && (t.attempt == a && is_status t.status s)

abbrev pub select_tasks : {R A : Type 0} → (List TaskRow → A) → Tx R A
select_tasks f db = go (f db.tasks) db

abbrev pub select_recordings : {R A : Type 0} → (List RecordingRow → A) → Tx R A
select_recordings f db = go (f db.recordings) db

-- SELECT … WHERE id = ? [FOR UPDATE] on tasks, with the program's answer to a missing row.
abbrev pub task_by_id : {R : Type 0} → Env → Stmt → String → Result TxError R → Tx R TaskRow
task_by_id env s k missing = do
  attempt env s
  t ← select_tasks (find? (has_task_id k))
  found_or t missing

abbrev pub recording_by_id :
    {R : Type 0} → Env → Stmt → String → Result TxError R → Tx R RecordingRow
recording_by_id env s k missing = do
  attempt env s
  r ← select_recordings (find? (has_recording_id k))
  found_or r missing

-- UPDATE tasks … WHERE: the number of rows that matched. Each statement of the program changes
-- `updated_at` or `event_seq`, so matched rows are changed rows.
abbrev pub update_tasks : {R : Type 0} → Env → (TaskRow → Bool) → (TaskRow → TaskRow) → Tx R ℕ
update_tasks env p f = do
  attempt env update_task
  λ db. go (affected p db.tasks) (record db { tasks = update p f db.tasks })

abbrev pub update_recordings :
    {R : Type 0} → Env → (RecordingRow → Bool) → (RecordingRow → RecordingRow) → Tx R ℕ
update_recordings env p f = do
  attempt env update_recording
  λ db. go (affected p db.recordings) (record db { recordings = update p f db.recordings })

-- UNIQUE(event_id) and UNIQUE(task_id, event_seq).
abbrev pub event_clash : EventRow → EventRow → Bool
event_clash e x =
    same x.event_id e.event_id
    || (same x.task_id e.task_id && (leb x.event_seq e.event_seq && leb e.event_seq x.event_seq))

abbrev pub insert_event_row : {R : Type 0} → Env → TaskEvent → Tx R (Unit {0})
insert_event_row env e = do
  attempt env insert_event
  λ db.
      if any (event_clash (to_task_event_po e)) db.events
      then stop (err (driver_failed other))
      else go tt (record db { events = to_task_event_po e ∷ db.events })

-- PRIMARY KEY(id) and UNIQUE(recording_id), CHECK(attempt > 0).
abbrev pub task_clash : TaskRow → TaskRow → Bool
task_clash t x = same x.id t.id || same x.recording_id t.recording_id

abbrev pub insert_task_row : {R : Type 0} → Env → ProcessingTask → Tx R (Unit {0})
insert_task_row env t = do
  attempt env insert_task
  λ db.
      if any (task_clash (to_task_po t)) db.tasks || leb t.attempt 0
      then stop (err (driver_failed other))
      else go tt (record db { tasks = to_task_po t ∷ db.tasks })

-- PRIMARY KEY(id), UNIQUE(storage_path), CHECK on the extension and on the size.
abbrev pub recording_clash : RecordingRow → RecordingRow → Bool
recording_clash r x = same x.id r.id || same x.storage_path r.storage_path

abbrev pub allowed_extension : String → Bool
allowed_extension ext = same ext "wav" || same ext "mp3" || same ext "m4a" || same ext "aac"

abbrev pub recording_check : RecordingRow → Bool
recording_check r =
    allowed_extension r.extension && (ltb 0 r.size_bytes && leb r.size_bytes 52428800)

abbrev pub insert_recording_row : {R : Type 0} → Env → Recording → Tx R (Unit {0})
insert_recording_row env r = do
  attempt env insert_recording
  λ db.
      if any (recording_clash (to_recording_po r)) db.recordings
        || not (recording_check (to_recording_po r))
      then stop (err (driver_failed other))
      else go tt (record db { recordings = to_recording_po r ∷ db.recordings })

abbrev pub delete_event_rows : {R : Type 0} → Env → (EventRow → Bool) → Tx R (Unit {0})
delete_event_rows env p = do
  attempt env delete_events
  λ db. go tt (record db { events = delete p db.events })

abbrev pub delete_task_rows : {R : Type 0} → Env → (TaskRow → Bool) → Tx R (Unit {0})
delete_task_rows env p = do
  attempt env delete_tasks
  λ db. go tt (record db { tasks = delete p db.tasks })

abbrev pub delete_recording_rows : {R : Type 0} → Env → (RecordingRow → Bool) → Tx R (Unit {0})
delete_recording_rows env p = do
  attempt env delete_recording
  λ db. go tt (record db { recordings = delete p db.recordings })

abbrev pub finish : {R : Type 0} → CommitReply → Db → Progress R R → Result TxError R × Db
finish _ db (stop r) = (r, db)
finish acknowledged db (go a db') = (ok a, db')
finish lost_kept db (go a db') = (err commit_unknown, db')
finish lost_dropped db (go a db') = (err commit_unknown, db)

-- Begin, the statements, and Rollback or Commit.
unfoldable pub transact : {R : Type 0} → Env → Tx R R → Db → Result TxError R × Db
transact env body db = elim (env.fails begin_tx) [
  | none ↦ finish env.commit_reply db (body db)
  | some e ↦ (err (driver_failed e), db)
]
