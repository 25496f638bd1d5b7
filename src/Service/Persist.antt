-- ===== src/Service/Persist.antt =====
-- `ProcessService.persist` of internal/application/processing/process.go: a write of the database
-- that is tried again after 200 ms and after 500 ms.
pub mod Laws
use recording.Prelude.{
  ℕ, suc, List, [], ◌∷◌, Option, none, some, Bool, true, false, Result, ok, err,
}
use recording.Database.Rows.{Db}
use recording.Ports.{DriverError, canceled, TxError, stale_execution, driver_failed}

-- How a wait ends: the timer fires, the timer fires while the context is done, or the context ends
-- the wait.
pub data WaitEnd : Type 0 where
  elapsed : WaitEnd
  elapsed_done interrupted : DriverError → WaitEnd

-- The result, and whether the service has been halted.
pub record Persisted : Type 0 where
  pub result : Result TxError (Unit {0})
  pub halts : Bool
  pub db : Db

-- Behind the loop: only a cancellation does not halt.
abbrev pub gave_up : Option DriverError → TxError → Db → Persisted
gave_up (some e) (driver_failed canceled) db = record {
  result = err (driver_failed canceled);
  halts = false;
  db = db;
}
gave_up _ last db = record { result = err last; halts = true; db = db }

abbrev pub settled : Db → Result TxError (Unit {0}) → Persisted
settled db r = record { result = r; halts = false; db = db }

-- The wait after the failure `last`, and the rest of the loop.
abbrev pub after_wait : WaitEnd → TxError → Db → Persisted → Persisted
after_wait elapsed last db rest = rest
after_wait (elapsed_done e) last db rest = gave_up (some e) last db
after_wait (interrupted e) last db rest = gave_up (some e) (driver_failed e) db

-- One round: success and a stale execution end the loop, another error goes on to `k`.
abbrev pub tried : Result TxError (Unit {0}) × Db → (TxError → Db → Persisted) → Persisted
tried (ok _, db) k = settled db (ok tt)
tried (err stale_execution, db) k = settled db (err stale_execution)
tried (err last, db) k = k last db

-- `op` is the write, by the round; `waits` are the ends of the waits that are left, and `at_end` is
-- the context's error after the last round.
unfoldable pub persist_from :
    (ℕ → Db → Result TxError (Unit {0}) × Db)
    → Option DriverError
    → ℕ
    → List WaitEnd
    → Db
    → Persisted
persist_from op at_end i [] db = tried (op i db) (gave_up at_end)
persist_from op at_end i (w ∷ ws) db =
    tried (op i db) (λ last db'. after_wait w last db' (persist_from op at_end (suc i) ws db'))

-- The two delays of `persistRetryDelays`.
unfoldable pub persist :
    (ℕ → Db → Result TxError (Unit {0}) × Db)
    → Option DriverError
    → WaitEnd
    → WaitEnd
    → Db
    → Persisted
unfolding persist_from
persist op at_end first second db = persist_from op at_end 0 (first ∷ second ∷ []) db
