-- ===== src/ProcessingTx/Reset/Laws.antt =====
-- What `ResetInFlight` of processing_tx.go changes.
use recording.Prelude.{
  ap, Result, ℕ, ◌+◌, ◌≡◌, ◌⊎◌, inl, inr, refl, sym, subst, ◌∙◌, some-injective, String, Bool, true,
  false, some, none, arith, List, [], ◌∷◌, keep, length, All, Bool-cases, Option-cases, ok, err,
}
use recording.Ports.{TxError, commit_unknown}
use recording.Database.Rows.{Db, TaskRow, EventRow, to_task_event_po}
use recording.Database.Table.{update, order_by}
use recording.Database.Table.Laws.{All-keep, All-order_by}
use recording.Database.Tx.{Env, go, stop}
use recording.Database.Tx.Steps
use recording.Database.Tx.Steps.{bind-go, transact-keeps, transact-Outcome, undone}
use recording.Database.Log.{find_task, history, UniqueIds, TaskLog, IsConsistent}
use recording.Database.Log.Post.{TaskLog-cons, find_task-update, UniqueIds-update}
use recording.Database.Log.Unique.{ordered_unique, UniqueIds-keep, find_task-keep, if_passes}
use recording.ProcessingTx.Reset.{in_flight, reset_event, reset_row, reset_body, reset_in_flight}
use recording.ProcessingTx.Reset.Events.{
  pushed, insert_events-not_ok, insert_events-go, reset_events, recover_events_lem,
  history-pushed-none, history-pushed-some,
}

All-unit : (ts : List TaskRow) → All (λ _. Unit {0}) ts
All-unit [] = tt
All-unit (t ∷ ts) = (tt, All-unit ts)

All-second :
    (ts : List TaskRow)
    → All (λ t. Unit {0} × (in_flight t ≡ true)) ts
    → All (λ t. in_flight t ≡ true) ts
All-second [] h = tt
All-second (t ∷ ts) h = (h.0.1, All-second ts h.1)

pub reset_row-id :
    (env : Env) (interrupt : Bool) (t : TaskRow) → (reset_row env interrupt t).id ≡ t.id
reset_row-id env true t = refl
reset_row-id env false t = refl

-- One more event over the log of a task in flight.
reset_log :
    (env : Env) (interrupt : Bool) (i : ℕ) (t : TaskRow) (h : List EventRow)
    → in_flight t ≡ true
    → TaskLog t h
    → TaskLog
        (reset_row env interrupt t)
        (to_task_event_po (reset_event env interrupt i t (t.event_seq + 1)) ∷ h)
reset_log env true i t h on log =
    TaskLog-cons t (reset_row env true t)
      (to_task_event_po (reset_event env true i t (t.event_seq + 1))) h log refl refl refl refl refl
      refl (ground arith) log.attempt_positive (omega arith) (ground (arith, log.shaped))
reset_log env false i t h on log =
    TaskLog-cons t (reset_row env false t)
      (to_task_event_po (reset_event env false i t (t.event_seq + 1))) h log refl refl refl refl
      refl refl (ground arith) (omega arith) (omega arith) (refl, refl, refl)

module _ (env : Env) (interrupt : Bool) (db : Db) where
  -- The tasks in flight, in the order of their locks.
  abbrev pub flying : List TaskRow
  flying = order_by (λ (a b : TaskRow). env.text_before a.id b.id) (keep in_flight db.tasks)

  flying-All : All (λ t. in_flight t ≡ true) flying
  flying-All =
      All-order_by (λ t. in_flight t ≡ true) _ (keep in_flight db.tasks)
        (All-second (keep in_flight db.tasks)
          (All-keep (λ _. Unit) in_flight db.tasks (All-unit db.tasks)))

  abbrev written : Db
  written = record db { tasks = update in_flight (reset_row env interrupt) db.tasks }

  -- Every task in flight is reset, each with one event, and nothing else changes.
  pub record WasReset (n : ℕ) (d : Db) : Type 0 where
    pub tasks : d.tasks ≡ update in_flight (reset_row env interrupt) db.tasks
    pub events : d.events ≡ pushed (reset_events env interrupt 0 flying) db.events
    pub recordings : d.recordings ≡ db.recordings
    pub hash_locks : d.hash_locks ≡ db.hash_locks
    pub count : n ≡ length flying

  pub reset_body-go : (n : ℕ) (d : Db) → reset_body env interrupt db ≡ go n d → WasReset n d
  unfolding reset_body
  reset_body-go n d h = ground (
    arith,
    recover_events_lem env interrupt 0 flying flying-All,
    insert_events-go {R = ℕ} env (reset_events env interrupt 0 flying) written d,
  )

module _ (env : Env) (interrupt : Bool) (db : Db) (c : IsConsistent db) where
  pub find_task-flying :
      (j : String)
      → find_task j (flying env interrupt db) ≡ if_passes in_flight (find_task j db.tasks)
  find_task-flying j =
      (ordered_unique _ (keep in_flight db.tasks) (UniqueIds-keep in_flight db.tasks c.unique)).1 j
      ∙ find_task-keep in_flight j db.tasks c.unique

  pub flying_unique : UniqueIds (flying env interrupt db)
  flying_unique =
      (ordered_unique _ (keep in_flight db.tasks) (UniqueIds-keep in_flight db.tasks c.unique)).0

  log_after :
      (j : String) (u : TaskRow)
      → find_task j (update in_flight (reset_row env interrupt) db.tasks) ≡ some u
      → TaskLog u
          (history j (pushed (reset_events env interrupt 0 (flying env interrupt db)) db.events))
  log_after j u h = elim (Option-cases (find_task j db.tasks)) [
    | inl absent ↦
        let gone : find_task j (update in_flight (reset_row env interrupt) db.tasks) ≡ none =
          find_task-update in_flight (reset_row env interrupt) (reset_row-id env interrupt) j
            db.tasks
          ∙ rw absent refl in
        cc (gone, h)
    | inr (t, there) ↦
        let at =
          sym (
            find_task-update in_flight (reset_row env interrupt) (reset_row-id env interrupt) j
              db.tasks)
          ∙ h in
        elim (Bool-cases (in_flight t)) [
          | inl on ↦
              let u_is = some-injective (reset_row env interrupt t) u (rw on at (rw there at at)) in
              let (i, more) =
                history-pushed-some env interrupt j 0 (flying env interrupt db) db.events t
                  flying_unique (find_task-flying j ∙ rw there (rw on refl)) in
              rw more (
                subst
                  (λ x. TaskLog x (
                    to_task_event_po (reset_event env interrupt i t (t.event_seq + 1))
                    ∷ history j db.events))
                  u_is (reset_log env interrupt i t (history j db.events) on (c.logs j t there)))
          | inr off ↦
              let u_is = some-injective t u (rw off at (rw there at at)) in
              rw
                (history-pushed-none env interrupt j 0 (flying env interrupt db) db.events
                  (find_task-flying j ∙ rw there (rw off refl)))
                (subst (λ x. TaskLog x (history j db.events)) u_is (c.logs j t there))
        ]
  ]

  fresh_after :
      (j : String)
      → find_task j (update in_flight (reset_row env interrupt) db.tasks) ≡ none
      → history j (pushed (reset_events env interrupt 0 (flying env interrupt db)) db.events) ≡ []
  fresh_after j h = elim (Option-cases (find_task j db.tasks)) [
    | inl absent ↦
        history-pushed-none env interrupt j 0 (flying env interrupt db) db.events
          (find_task-flying j ∙ rw absent refl)
        ∙ c.fresh j absent
    | inr (t, there) ↦ absurd (
        cc (
          rw there at (
            sym (
              find_task-update in_flight (reset_row env interrupt) (reset_row-id env interrupt) j
                db.tasks)
            ∙ h)))
  ]

  WasReset-IsConsistent : (n : ℕ) (d : Db) → WasReset env interrupt db n d → IsConsistent d
  WasReset-IsConsistent n d w = record {
    logs = rw (w.tasks, w.events) log_after;
    fresh = rw (w.tasks, w.events) fresh_after;
    unique = rw w.tasks (
        UniqueIds-update in_flight (reset_row env interrupt) (reset_row-id env interrupt) db.tasks
          c.unique);
  }

module _ (env : Env) (interrupt : Bool) (db : Db) where
  pub reset_in_flight-IsConsistent :
      IsConsistent db → IsConsistent (reset_in_flight env interrupt db).1
  unfolding reset_in_flight
  reset_in_flight-IsConsistent c =
      transact-keeps IsConsistent env (reset_body env interrupt) db c (λ n d h.
        WasReset-IsConsistent env interrupt db c n d (reset_body-go env interrupt db n d h))

  stopped_empty :
      (n : ℕ)
      → reset_body env interrupt db ≡ stop (ok n)
      → (n ≡ 0) × (length (flying env interrupt db) ≡ 0)
  unfolding reset_body
  stopped_empty n h = ground (
    arith,
    recover_events_lem env interrupt 0 (flying env interrupt db) (flying-All env interrupt db),
    insert_events-not_ok env (reset_events env interrupt 0 (flying env interrupt db))
        (written env interrupt db) n,
  )

  idle :
      (res : Result TxError ℕ)
      → ((n : ℕ) → res ≡ ok n → (n ≡ 0) × (length (flying env interrupt db) ≡ 0))
      → ((res ≡ ok 0) × (length (flying env interrupt db) ≡ 0)) ⊎ ((e : TxError) × (res ≡ err e))
  idle (ok n) h = let (zero_tasks, none_there) = h n refl in inl (ap ok zero_tasks, none_there)
  idle (err e) h = inr (e, refl)

  -- Either nothing has changed, and a success says that no task was in flight, or every task in
  -- flight is reset, and the result is their number or an unknown commit.
  pub reset_in_flight_lem :
      let (res, d) = reset_in_flight env interrupt db in
      ((d ≡ db)
        × (((res ≡ ok 0) × (length (flying env interrupt db) ≡ 0))
            ⊎ ((e : TxError) × (res ≡ err e))))
      ⊎ ((n : ℕ) × ((res ≡ ok n) ⊎ (res ≡ err commit_unknown)) × WasReset env interrupt db n d)
  unfolding reset_in_flight
  reset_in_flight_lem = elim (transact-Outcome env (reset_body env interrupt) db) [
    | undone same_db stopped ↦
        inl (
          same_db,
          idle (reset_in_flight env interrupt db).0 (λ n h. stopped_empty n (stopped n h)),
        )
    | Steps.done n d went at res ↦ inr (
      n,
      res,
      subst (WasReset env interrupt db n) (sym at) (reset_body-go env interrupt db n d went),
    )
  ]

  -- No task is in flight after a reset.
  pub none_in_flight :
      (ts : List TaskRow) → keep in_flight (update in_flight (reset_row env interrupt) ts) ≡ []
  unfolding update
  none_in_flight [] = refl
  none_in_flight (t ∷ ts) = ground (arith, none_in_flight ts)
