-- ===== src/Database/Log/Moved.antt =====
-- One task moves on, with one event: what a conditional update with its event means for the tables,
-- whatever the update writes.
use recording.Prelude.{
  ◌≡◌, refl, inl, inr, sym, ap, ◌∙◌, ℕ, ◌+◌, String, true, false, Option, some, none, ◌∷◌, same,
  same_refl, same→eq, arith, Bool-cases, Option-cases,
}
use recording.Domain.Status.{TaskStatus}
use recording.Domain.Event.{EventKind, EventLevel}
use recording.Database.Rows.{TaskRow, EventRow, Db}
use recording.Database.Tx.{Env, matches}
use recording.Database.Log.{find_task}
use recording.Database.Log.Post.{Posted, find_task-id, find_task-update}

-- The event `e` tells of the move from `t` to `u`: it has the next number, the time of the call, and
-- the two statuses; the identity of the task stays.
pub record Stamped (env : Env) (i : ℕ) (t u : TaskRow) (e : EventRow) : Type 0 where
  pub id : u.id ≡ t.id
  pub recording_id : u.recording_id ≡ t.recording_id
  pub created_at : u.created_at ≡ t.created_at
  pub created_request_id : u.created_request_id ≡ t.created_request_id
  pub event_seq : u.event_seq ≡ t.event_seq + 1
  pub updated_at : u.updated_at ≡ env.now
  pub of_task : e.task_id ≡ t.id
  pub of_recording : e.recording_id ≡ t.recording_id
  pub of_request : e.created_request_id ≡ t.created_request_id
  pub number : e.event_seq ≡ t.event_seq + 1
  pub occurred_at : e.occurred_at ≡ env.now
  pub event_id : e.event_id ≡ env.new_id i
  pub instance_id : e.instance_id ≡ env.instance_id
  pub from_status : e.from_status ≡ some t.status
  pub to_status : e.to_status ≡ some u.status

-- The task under `k` was `t` and is `u` now, with the event `e`; nothing else has changed.
pub record Moved (env : Env) (db d : Db) (k : String) (t u : TaskRow) (e : EventRow) : Type 0 where
  pub before : find_task k db.tasks ≡ some t
  pub after : find_task k d.tasks ≡ some u
  pub others : (j : String) → same k j ≡ false → find_task j d.tasks ≡ find_task j db.tasks
  pub events : d.events ≡ e ∷ db.events
  pub recordings : d.recordings ≡ db.recordings
  pub hash_locks : d.hash_locks ≡ db.hash_locks
  pub stamped : Stamped env 0 t u e

module _ {db d : Db} {k : String} {a : ℕ} {s : TaskStatus} {t : TaskRow} {f : TaskRow → TaskRow}
    {e : EventRow} (env : Env) (w : Posted db d k a s t f e)
    (same_id : (x : TaskRow) → (f x).id ≡ x.id) where
  hit : matches k a s t ≡ true
  hit = ground (arith, same_refl k, find_task-id k db.tasks t w.task, w.current, w.in_status)

  spared : (j : String) (r : TaskRow) → same k j ≡ false → r.id ≡ j → matches k a s r ≡ false
  spared j r other at_j = elim (Bool-cases (same r.id k)) [
    | inl touched ↦ cc (sym (same→eq r.id k touched) ∙ at_j, same_refl k)
    | inr untouched ↦ ground (arith, untouched)
  ]

  others_stay : (j : String) → same k j ≡ false → find_task j d.tasks ≡ find_task j db.tasks
  others_stay j other = ap (find_task j) w.tasks ∙ (elim (Option-cases (find_task j db.tasks)) [
    | inl absent ↦ rw (find_task-update (matches k a s) f same_id j db.tasks) (rw absent refl)
    | inr (r, there) ↦
        rw (find_task-update (matches k a s) f same_id j db.tasks)
          (rw (there, spared j r other (find_task-id j db.tasks r there)) refl)
  ])

  pub Posted-Moved : Stamped env 0 t (f t) e → Moved env db d k t (f t) e
  Posted-Moved stamped = record {
    before = w.task;
    after =
        ap (find_task k) w.tasks
        ∙ find_task-update (matches k a s) f same_id k db.tasks
        ∙ rw (w.task, hit) refl;
    others = others_stay;
    events = w.events;
    recordings = w.recordings;
    hash_locks = w.hash_locks;
    stamped = stamped;
  }

-- What an event says beside its stamp, without an error.
pub record Says (e : EventRow) (of_kind : EventKind) (at_level : EventLevel) (in_attempt : ℕ)
    (in_stage : Option String) : Type 0 where
  pub kind : e.event ≡ of_kind
  pub level : e.level ≡ at_level
  pub attempt : e.attempt ≡ in_attempt
  pub stage : e.stage ≡ in_stage

pub record NoError (e : EventRow) : Type 0 where
  pub code : e.error_code ≡ none
  pub message : e.error_message ≡ none
