-- ===== src/Bootstrap/Startup/Laws.antt =====
-- What a start leaves: a ready application has nothing in flight.
use recording.Prelude.{
  ℕ, ◌≡◌, ◌≢◌, ◌⊎◌, inl, inr, refl, sym, ap, ◌∙◌, subst, String, Bool, true, false, List, [], ◌∷◌,
  keep, length, same, arith, Result, ok, err,
}
use recording.Database.Table.{order_by, insert_ordered}
use recording.Database.Rows.{Db, TaskRow}
use recording.Database.Tx.{Env}
use recording.Database.Log.{IsConsistent}
use recording.FileStore.{Disk}
use recording.Ports.{TxError}
use recording.Pool.{new_pool, start}
use recording.ProcessingTx.Reset.{in_flight, reset_in_flight}
use recording.ProcessingTx.Reset.Laws.{
  reset_in_flight_lem, reset_in_flight-IsConsistent, none_in_flight,
}
use recording.Service.{World}
use recording.Service.Delete.Laws.{cleanup_pending-IsConsistent}
use recording.Service.Recover
use recording.Service.Recover.Laws.{orphans-db}
use recording.Service.Recover.{OrphanError, inspect, resume_deletions, reset, remove_orphan_files}
use recording.Bootstrap.Startup.{
  StartError, Boot, Started, after_orphans, after_reset, after_inspect, unless, new_app,
}

insert_ordered-not_empty :
    (before : TaskRow → TaskRow → Bool) (t : TaskRow) (ts : List TaskRow)
    → length (insert_ordered before t ts) ≢ 0
unfolding insert_ordered
insert_ordered-not_empty before t [] h = omega arith
insert_ordered-not_empty before t (u ∷ us) h = ground arith

length-order_by_zero :
    (before : TaskRow → TaskRow → Bool) (ts : List TaskRow)
    → length (order_by before ts) ≡ 0
    → ts ≡ []
unfolding order_by
length-order_by_zero before [] h = refl
length-order_by_zero before (t ∷ ts) h =
    absurd (insert_ordered-not_empty before t (order_by before ts) h)

after_reset-ok :
    (w w' : World) (r : Result TxError ℕ × Db) (n : ℕ)
    → Recover.after_reset w r ≡ (ok n, w')
    → (r.0 ≡ ok n) × (w'.db ≡ r.1)
after_reset-ok w w' (err e, db) n h = absurd (cc (ap (λ x. x.0) h))
after_reset-ok w w' (ok m, db) n h = (ap (λ x. x.0) h, sym (ap (λ x. x.1.db) h))

-- A reset that succeeds leaves no task in flight.
reset-ok :
    (env : Env) (interrupt : Bool) (w w' : World) (n : ℕ)
    → reset env interrupt w ≡ (ok n, w')
    → keep in_flight w'.db.tasks ≡ []
unfolding reset
reset-ok env interrupt w w' n h =
    let (went, at) = after_reset-ok w w' (reset_in_flight env interrupt w.db) n h in
    subst (λ (db : Db). keep in_flight db.tasks ≡ []) (sym at)
      (elim (reset_in_flight_lem env interrupt w.db) [
        | inl (same_db, inl (_, idle)) ↦
            subst (λ (db : Db). keep in_flight db.tasks ≡ []) (sym same_db)
              (length-order_by_zero _ (keep in_flight w.db.tasks) idle)
        | inl (same_db, inr (e, failed)) ↦ absurd (cc (sym went ∙ failed))
        | inr (m, _, was) ↦
            subst (λ ts. keep in_flight ts ≡ []) (sym was.tasks)
              (none_in_flight env interrupt w.db w.db.tasks)
      ])

after_reset-db : (w : World) (r : Result TxError ℕ × Db) → (Recover.after_reset w r).1.db ≡ r.1
after_reset-db w (err e, db) = refl
after_reset-db w (ok n, db) = refl

-- The outcome of a start from `w`.
abbrev pub IsStarted : World → Started → Type 0
IsStarted w (err e, w') = IsConsistent w'.db
IsStarted w (ok app, w') =
    IsConsistent w'.db
    × (app.world ≡ w')
    × (app.pool.started ≡ app.ready)
    × (app.cleanup_runs ≡ app.ready)
    × (((app.ready ≡ true) × (keep in_flight w'.db.tasks ≡ [])) ⊎ ((app.ready ≡ false) × (w' ≡ w)))

pool_started : (k : ℕ) → (start (new_pool k false)).started ≡ true
unfolding start new_pool
pool_started k = refl

pool_new : (k : ℕ) → (new_pool k false).started ≡ false
unfolding new_pool
pool_new k = refl

after_orphans-IsStarted :
    (w v : World) (workers : ℕ) (r : Result OrphanError ℕ × World)
    → r.1.db ≡ v.db
    → IsConsistent v.db
    → keep in_flight v.db.tasks ≡ []
    → IsStarted w (after_orphans workers r)
after_orphans-IsStarted w v workers (o, u) at c idle = (
  subst IsConsistent (sym at) c,
  refl,
  pool_started workers,
  refl,
  inl (refl, subst (λ (db : Db). keep in_flight db.tasks ≡ []) (sym at) idle),
)

after_reset-IsStarted :
    (b : Boot) (interrupt : Bool) (w v : World) (workers : ℕ) (r : Result TxError ℕ × World)
    → reset b.reset_env interrupt v ≡ r
    → IsConsistent r.1.db
    → IsStarted w (after_reset b workers r)
after_reset-IsStarted b interrupt w v workers (err e, u) h c = c
after_reset-IsStarted b interrupt w v workers (ok n, u) h c =
    after_orphans-IsStarted w u workers (remove_orphan_files b.orphan_env b.orphan_disks u)
      (orphans-db b.orphan_env b.orphan_disks u) c (reset-ok b.reset_env interrupt v u n h)

reset-IsConsistent :
    (env : Env) (interrupt : Bool) (w : World)
    → IsConsistent w.db
    → IsConsistent (reset env interrupt w).1.db
unfolding reset
reset-IsConsistent env interrupt w c =
    subst IsConsistent (sym (after_reset-db w (reset_in_flight env interrupt w.db)))
      (reset_in_flight-IsConsistent env interrupt w.db c)

resume-IsConsistent :
    (envs : ℕ → Env) (disks : ℕ → Disk) (w : World)
    → IsConsistent w.db
    → IsConsistent (resume_deletions envs disks w).db
unfolding resume_deletions
resume-IsConsistent envs disks w c = cleanup_pending-IsConsistent envs disks w c

after_inspect-IsStarted :
    (b : Boot) (interrupt : Bool) (workers : ℕ) (w : World) (r : Result TxError (Unit {0}))
    → IsConsistent w.db
    → IsStarted w (after_inspect b interrupt workers w r)
after_inspect-IsStarted b interrupt workers w (err e) c =
    (c, refl, pool_new workers, refl, inr (refl, refl))
after_inspect-IsStarted b interrupt workers w (ok u) c =
    let v = resume_deletions b.deletion_envs b.deletion_disks w in
    after_reset-IsStarted b interrupt w v workers (reset b.reset_env interrupt v) refl (
      reset-IsConsistent b.reset_env interrupt v
        (resume-IsConsistent b.deletion_envs b.deletion_disks w c))

unless-IsStarted :
    (fails : Bool) (e : StartError) (w : World) (rest : Started)
    → IsConsistent w.db
    → IsStarted w rest
    → IsStarted w (unless fails e w rest)
unless-IsStarted true e w rest c h = c
unless-IsStarted false e w rest c h = h

-- A start on a consistent database keeps it consistent, on every path. Where it gives an
-- application, either that is ready, its workers and its clean-up loop run, and no task is in
-- flight, or it is not ready, nothing runs, and nothing has changed.
pub new_app_lem :
    (b : Boot) (recovery_mode : String) (workers : ℕ) (w : World)
    → IsConsistent w.db
    → IsStarted w (new_app b recovery_mode workers w)
unfolding new_app
new_app_lem b recovery_mode workers w c = unless-IsStarted b.logging_fails _ w _ c (
    unless-IsStarted b.open_fails _ w _ c (
      unless-IsStarted b.migration_fails _ w _ c (
        unless-IsStarted b.data_dir_fails _ w _ c (
          after_inspect-IsStarted b (same recovery_mode "interrupt") workers w
            (inspect b.inspect_env w) c))))
