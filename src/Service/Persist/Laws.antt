-- ===== src/Service/Persist/Laws.antt =====
-- What `persist` promises.
use recording.Prelude.{
  ℕ, suc, ◌≡◌, List, [], ◌∷◌, Option, none, some, Bool, true, false, Result, ok, err, arith,
  if◌then◌else◌,
}
use recording.Database.Rows.{Db}
use recording.Ports.{
  DriverError, TxError, stale_execution, data_inconsistent, commit_unknown, task_not_found,
  recording_not_found, driver_failed, app,
}
use recording.Service.Persist.{
  WaitEnd, elapsed, elapsed_done, interrupted, Persisted, gave_up, settled, after_wait, tried,
  persist_from, persist,
}

gave_up-db : (o : Option DriverError) (last : TxError) (db : Db) → (gave_up o last db).db ≡ db
gave_up-db o last db = ground arith

tried-keeps {κ} :
    (P : Db → Type κ) (out : Result TxError (Unit {0}) × Db) (k : TxError → Db → Persisted)
    → P out.1
    → ((last : TxError) → P (k last out.1).db)
    → P (tried out k).db
tried-keeps P (ok _, db) k h rest = h
tried-keeps P (err stale_execution, db) k h rest = h
tried-keeps P (err data_inconsistent, db) k h rest = rest data_inconsistent
tried-keeps P (err commit_unknown, db) k h rest = rest commit_unknown
tried-keeps P (err task_not_found, db) k h rest = rest task_not_found
tried-keeps P (err recording_not_found, db) k h rest = rest recording_not_found
tried-keeps P (err (driver_failed e), db) k h rest = rest (driver_failed e)
tried-keeps P (err (app c), db) k h rest = rest (app c)

-- A property of the database that every round of the write keeps, the whole keeps.
module _ {κ} (P : Db → Type κ) (op : ℕ → Db → Result TxError (Unit {0}) × Db)
    (keeps : (i : ℕ) (db : Db) → P db → P (op i db).1) (at_end : Option DriverError) where
  after_wait-keeps :
      (w : WaitEnd) (last : TxError) (db : Db) (rest : Persisted)
      → P db
      → P rest.db
      → P (after_wait w last db rest).db
  after_wait-keeps elapsed last db rest h r = r
  after_wait-keeps (elapsed_done e) last db rest h r = rw (gave_up-db (some e) last db) h
  after_wait-keeps (interrupted e) last db rest h r =
      rw (gave_up-db (some e) (driver_failed e) db) h

  persist_from-keeps :
      (i : ℕ) (waits : List WaitEnd) (db : Db) → P db → P (persist_from op at_end i waits db).db
  unfolding persist_from
  persist_from-keeps i [] db h =
      tried-keeps P (op i db) (gave_up at_end) (keeps i db h)
        (λ last. rw (gave_up-db at_end last (op i db).1) (keeps i db h))
  persist_from-keeps i (w ∷ ws) db h =
      tried-keeps P (op i db)
        (λ last db'. after_wait w last db' (persist_from op at_end (suc i) ws db')) (keeps i db h)
        (λ last.
          after_wait-keeps w last (op i db).1 _ (keeps i db h)
            (persist_from-keeps (suc i) ws (op i db).1 (keeps i db h)))

  pub persist-keeps :
      (first second : WaitEnd) (db : Db) → P db → P (persist op at_end first second db).db
  unfolding persist
  persist-keeps first second db h = persist_from-keeps 0 (first ∷ second ∷ []) db h

-- The answers that end the loop.
abbrev pub settles : Result TxError (Unit {0}) → Bool
settles (ok _) = true
settles (err stale_execution) = true
settles (err e) = false

-- With no interruption the write is tried at most three times, each on the database that the round
-- before has left, until it answers success or a stale execution. If it never does, the result is
-- the last error, and the service is halted.
pub persist_elapsed :
    (op : ℕ → Db → Result TxError (Unit {0}) × Db) (db : Db)
    → let (r0, d0) = op 0 db in
      let (r1, d1) = op 1 d0 in
      let (r2, d2) = op 2 d1 in
      persist op none elapsed elapsed db ≡ (
        if settles r0
        then settled d0 r0
        else if settles r1
        then settled d1 r1
        else if settles r2
        then settled d2 r2
        else record { result = r2; halts = true; db = d2 })
unfolding persist persist_from
persist_elapsed op db = ground arith

gave_up-halts :
    (o : Option DriverError) (last : TxError) (db : Db)
    → settles (err last) ≡ false
    → settles (gave_up o last db).result ≡ false
gave_up-halts o last db h = ground arith

-- A service is halted only by an error that is not a stale execution.
pub persist_halts :
    (op : ℕ → Db → Result TxError (Unit {0}) × Db) (at_end : Option DriverError)
    (first second : WaitEnd) (db : Db)
    → (persist op at_end first second db).halts ≡ true
    → settles (persist op at_end first second db).result ≡ false
unfolding persist persist_from
persist_halts op at_end first second db h = ground arith
