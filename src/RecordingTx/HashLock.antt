-- ===== src/RecordingTx/HashLock.antt =====
-- What `ensureHashLock` of recording_tx.go leaves behind.
use recording.Prelude.{◌∙◌, ℕ, ◌≡◌, inl, inr, String, arith, Option-cases, Result}
use recording.Database.Rows.{Db}
use recording.Database.Tx.{Env, ensure_hash_lock}
use recording.Database.Log.{IsConsistent}
use recording.Ports.{TxError}
use recording.RecordingTx.{with_hash_lock, ensuring_hash_lock}

-- A lock row is added at most: the other tables are as they were.
pub record Locked (db d : Db) : Type 0 where
  pub recordings : d.recordings ≡ db.recordings
  pub tasks : d.tasks ≡ db.tasks
  pub events : d.events ≡ db.events

pub Locked-after : {db d0 d : Db} → Locked db d0 → Locked d0 d → Locked db d
Locked-after l w = record {
  recordings = w.recordings ∙ l.recordings;
  tasks = w.tasks ∙ l.tasks;
  events = w.events ∙ l.events;
}

pub with_hash_lock-Locked : (h : String) (at : ℕ) (db : Db) → Locked db (with_hash_lock h at db)
unfolding with_hash_lock
with_hash_lock-Locked h at db = ground arith

-- Consistency reads the tasks and the events only.
pub IsConsistent-same :
    {db d : Db} → d.tasks ≡ db.tasks → d.events ≡ db.events → IsConsistent db → IsConsistent d
IsConsistent-same ts es c = record {
  logs = rw (ts, es) c.logs;
  fresh = rw (ts, es) c.fresh;
  unique = rw ts c.unique;
}

pub IsConsistent-Locked : {db d : Db} → Locked db d → IsConsistent db → IsConsistent d
IsConsistent-Locked w c = IsConsistent-same w.tasks w.events c

-- A transaction behind `ensureHashLock`: it starts on the database, or the database with the lock.
pub ensuring_hash_lock-keeps {κ} :
    {A : Type 0} (P : Db → Type κ) (env : Env) (h : String) (at : ℕ)
    (rest : Db → Result TxError A × Db) (db : Db)
    → P db
    → P (rest (with_hash_lock h at db)).1
    → P (ensuring_hash_lock env h at rest db).1
ensuring_hash_lock-keeps P env h at rest db start after =
    elim (Option-cases (env.fails ensure_hash_lock)) [
      | inl ran ↦ rw (ran, ensuring_hash_lock) after
      | inr (e, failed) ↦ rw (failed, ensuring_hash_lock) start
    ]
