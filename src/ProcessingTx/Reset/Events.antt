-- ===== src/ProcessingTx/Reset/Events.antt =====
-- The events that `ResetInFlight` prepares and inserts.
use recording.Prelude.{
  ok, ℕ, suc, ◌+◌, ◌≡◌, ◌≢◌, inl, inr, refl, subst, ◌∙◌, some-injective, String, Bool, true, false,
  some, none, arith, List, [], ◌∷◌, All, same, same→eq, Bool-cases,
}
use recording.Domain.Task.{transition_for_recovery, allocate_event_seq}
use recording.Domain.Event.{TaskEvent}
use recording.Database.Rows.{Db, TaskRow, EventRow, to_task_event_po}
use recording.Database.Tx.{Env, insert_event_row, go, stop}
use recording.Database.Tx.Steps.{bind-go, bind-stop, insert_event_row-not_ok, insert_event_row-go}
use recording.Database.Log.{find_task, history, UniqueIds}
use recording.Database.Log.Unique.{absent-apart}
use recording.ProcessingTx.Reset.{
  in_flight, recover_one, recover_events, insert_events, reset_event,
}

-- `insert_events` puts the first event in first, so that the last is the newest.
abbrev pub pushed : List TaskEvent → List EventRow → List EventRow
pushed [] l = l
pushed (e ∷ es) l = pushed es (to_task_event_po e ∷ l)

pub insert_events-go :
    {R : Type 0} (env : Env) (es : List TaskEvent) (db d : Db)
    → insert_events {R = R} env es db ≡ go tt d
    → (d.events ≡ pushed es db.events)
      × (d.tasks ≡ db.tasks)
      × (d.recordings ≡ db.recordings)
      × (d.hash_locks ≡ db.hash_locks)
unfolding insert_events
insert_events-go env [] db d h = ground arith
insert_events-go env (e ∷ es) db d h =
    let (_, d0, first, rest) =
      bind-go (insert_event_row env e) (λ _. insert_events env es) db tt d h in
    let at = insert_event_row-go env e db d0 first in
    subst
      (λ x.
        (d.events ≡ pushed es x.events)
        × (d.tasks ≡ x.tasks)
        × (d.recordings ≡ x.recordings)
        × (d.hash_locks ≡ x.hash_locks))
      at (insert_events-go env es d0 d rest)

pub insert_events-not_ok :
    {R : Type 0} (env : Env) (es : List TaskEvent) (db : Db) (a : R)
    → insert_events {R = R} env es db ≢ stop (ok a)
unfolding insert_events
insert_events-not_ok env [] db a h = cc
insert_events-not_ok env (e ∷ es) db a h =
    elim (bind-stop (insert_event_row env e) (λ _. insert_events env es) db (ok a) h) [
      | inl first ↦ insert_event_row-not_ok env e db a first
      | inr (_, d0, _, rest) ↦ insert_events-not_ok env es d0 a rest
    ]

-- A task in flight has an event: the edge is never refused.
pub recover_one-some :
    (env : Env) (interrupt : Bool) (i : ℕ) (t : TaskRow)
    → in_flight t ≡ true
    → recover_one env interrupt i t ≡ some (reset_event env interrupt i t (t.event_seq + 1))
unfolding allocate_event_seq transition_for_recovery
recover_one-some env true i t flying = ground arith
recover_one-some env false i t flying = ground arith

-- The events of a list of tasks in flight, and what they add to the history of a task.
abbrev pub reset_events : Env → Bool → ℕ → List TaskRow → List TaskEvent
reset_events env interrupt i [] = []
reset_events env interrupt i (t ∷ ts) =
    reset_event env interrupt i t (t.event_seq + 1) ∷ reset_events env interrupt (suc i) ts

pub recover_events_lem :
    (env : Env) (interrupt : Bool) (i : ℕ) (ts : List TaskRow)
    → All (λ t. in_flight t ≡ true) ts
    → recover_events env interrupt i ts ≡ some (reset_events env interrupt i ts)
unfolding recover_events
recover_events_lem env interrupt i [] h = refl
recover_events_lem env interrupt i (t ∷ ts) h =
    rw (recover_one-some env interrupt i t h.0, recover_events_lem env interrupt (suc i) ts h.1)
      refl

module _ (env : Env) (interrupt : Bool) (j : String) where
  pub history-pushed-none :
      (i : ℕ) (ts : List TaskRow) (l : List EventRow)
      → find_task j ts ≡ none
      → history j (pushed (reset_events env interrupt i ts) l) ≡ history j l
  history-pushed-none i [] l absent = refl
  history-pushed-none i (t ∷ ts) l absent =
      let (apart, rest) = absent-apart j t ts absent in
      history-pushed-none (suc i) ts _ rest ∙ rw apart refl

  pub history-pushed-some :
      (i : ℕ) (ts : List TaskRow) (l : List EventRow) (t : TaskRow)
      → UniqueIds ts
      → find_task j ts ≡ some t
      → (n : ℕ) × (history j (pushed (reset_events env interrupt i ts) l)
          ≡ to_task_event_po (reset_event env interrupt n t (t.event_seq + 1)) ∷ history j l)
  history-pushed-some i [] l t u there = cc
  history-pushed-some i (x ∷ xs) l t u there = elim (Bool-cases (same x.id j)) [
    | inl at ↦
        let same_row = some-injective x t (rw at at there) in
        let gone = subst (λ k. find_task k xs ≡ none) (same→eq x.id j at) u.0 in
        (i, history-pushed-none (suc i) xs _ gone ∙ rw at (rw same_row refl))
    | inr other ↦
        let (n, rest) = history-pushed-some (suc i) xs _ t u.1 (rw other at there) in
        (n, rest ∙ rw other refl)
  ]
