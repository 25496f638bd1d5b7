-- ===== src/Database/Log/Post.antt =====
-- A conditional update of one task together with one event keeps the database consistent.
use recording.Prelude.{
  ◌==◌, ℕ, ◌+◌, ◌-◌, ◌≤◌, ◌<◌, ◌≡◌, refl, sym, ap, ◌∙◌, subst, some-injective, inl, inr, String,
  Bool, true, false, List, [], ◌∷◌, none, some, same, All, arith, if◌then◌else◌, Bool-cases,
  Option-cases, same_refl, same→eq,
}
use mathlib.Core.Option
use recording.Domain.Status.{TaskStatus}
use recording.Database.Table.{update, affected}
use recording.Database.Table.Laws.{find?-update}
use recording.Database.Rows.{TaskRow, EventRow, Db}
use recording.Database.Tx.{has_task_id, matches}
use recording.Database.Log.{find_task, history, Allowed, Shape, TaskLog, UniqueIds, IsConsistent}

-- One more event over a log.
pub TaskLog-cons :
    (t u : TaskRow) (e : EventRow) (h : List EventRow)
    → TaskLog t h
    → e.event_seq ≡ t.event_seq + 1
    → u.event_seq ≡ t.event_seq + 1
    → u.recording_id ≡ t.recording_id
    → e.recording_id ≡ t.recording_id
    → e.from_status ≡ some t.status
    → e.to_status ≡ some u.status
    → Allowed e.event t.status u.status
    → 0 < u.attempt
    → u.attempt ≤ t.attempt + 1
    → Shape u.status u
    → TaskLog u (e ∷ h)
TaskLog-cons t u e h log es us ur er ef et al up ub sh = record {
  numbered = (
    es ∙ sym us,
    omega arith,
    let q : u.event_seq - 1 ≡ t.event_seq = omega arith in rw q log.numbered,
  );
  chained = (et, rw ef (al, log.chained));
  owned = (
    er ∙ sym ur,
    subst (λ (rid : String). All (λ (x : EventRow). x.recording_id ≡ rid) h) (sym ur) log.owned,
  );
  attempt_positive = up;
  attempt_bounded = omega (arith, log.attempt_bounded);
  shaped = sh;
}

module _ (p : TaskRow → Bool) (f : TaskRow → TaskRow)
    (same_id : (r : TaskRow) → (f r).id ≡ r.id) where
  -- The row under an id after an update that leaves ids alone.
  pub find_task-update :
      (j : String) (ts : List TaskRow)
      → find_task j (update p f ts) ≡ Option.map (λ x. if p x then f x else x) (find_task j ts)
  find_task-update j ts = find?-update (has_task_id j) p f (λ r. ap (λ i. same i j) (same_id r)) ts

  kept_id : (t : TaskRow) → (if p t then f t else t).id ≡ t.id
  kept_id t = ground (arith, same_id t)

  pub UniqueIds-update : (ts : List TaskRow) → UniqueIds ts → UniqueIds (update p f ts)
  unfolding update
  UniqueIds-update [] h = tt
  UniqueIds-update (t ∷ ts) h =
      (rw (kept_id t) (find_task-update t.id ts ∙ ap (Option.map _) h.0), UniqueIds-update ts h.1)

pub find_task-id :
    (j : String) (ts : List TaskRow) (r : TaskRow) → find_task j ts ≡ some r → r.id ≡ j
find_task-id j [] r h = cc
find_task-id j (t ∷ ts) r h = elim (Bool-cases (same t.id j)) [
  | inl hit ↦ ground (arith, same→eq t.id j hit)
  | inr miss ↦ find_task-id j ts r (rw miss at h)
]

-- The history of a task with one more event, which is its own or another's.
pub history-own :
    (k : String) (e : EventRow) (es : List EventRow)
    → e.task_id ≡ k
    → history k (e ∷ es) ≡ e ∷ history k es
history-own k e es own = ground (arith, same_refl k)

pub history-other :
    (k j : String) (e : EventRow) (es : List EventRow)
    → e.task_id ≡ k
    → same k j ≡ false
    → history j (e ∷ es) ≡ history j es
history-other k j e es own other = ground arith

-- An update and an event under `k`, seen from the id `j`.
module _ (k : String) (t : TaskRow) (p : TaskRow → Bool) (f : TaskRow → TaskRow) (e : EventRow)
    (only : (r : TaskRow) → p r ≡ true → r.id ≡ k) (hit : p t ≡ true)
    (same_id : (r : TaskRow) → (f r).id ≡ r.id) (own : e.task_id ≡ k) (ts : List TaskRow)
    (es : List EventRow) where
  updated_self : find_task k ts ≡ some t → find_task k (update p f ts) ≡ some (f t)
  updated_self found = rw (find_task-update p f same_id k ts) (rw (found, hit))

  spared : (j : String) (r : TaskRow) → same k j ≡ false → r.id ≡ j → p r ≡ false
  spared j r other at_j = elim (Bool-cases (p r)) [
    | inl touched ↦ cc (sym (only r touched) ∙ at_j, same_refl k)
    | inr untouched ↦ untouched
  ]

  updated_other : (j : String) → same k j ≡ false → find_task j (update p f ts) ≡ find_task j ts
  updated_other j other = elim (Option-cases (find_task j ts)) [
    | inl absent ↦ rw (find_task-update p f same_id j ts) (rw absent)
    | inr (r, there) ↦
        rw (find_task-update p f same_id j ts)
          (rw (there, spared j r other (find_task-id j ts r there)))
  ]

  logs_after :
      (found : find_task k ts ≡ some t) (log : TaskLog (f t) (e ∷ history k es))
      (before : (j : String) (u : TaskRow) → find_task j ts ≡ some u → TaskLog u (history j es))
      (j : String) (u : TaskRow)
      → find_task j (update p f ts) ≡ some u
      → TaskLog u (history j (e ∷ es))
  logs_after found log before j u h = elim (Bool-cases (same k j)) [
    | inl at ↦
        subst (λ i. find_task i (update p f ts) ≡ some u → TaskLog u (history i (e ∷ es)))
          (same→eq k j at)
          (λ h'.
            subst (λ x. TaskLog x (history k (e ∷ es)))
              (some-injective (f t) u (sym (updated_self found) ∙ h'))
              (subst (TaskLog (f t)) (sym (history-own k e es own)) log))
          h
    | inr other ↦
        subst (TaskLog u) (sym (history-other k j e es own other))
          (before j u (sym (updated_other j other) ∙ h))
  ]

  fresh_after :
      (found : find_task k ts ≡ some t)
      (before : (j : String) → find_task j ts ≡ none → history j es ≡ []) (j : String)
      → find_task j (update p f ts) ≡ none
      → history j (e ∷ es) ≡ []
  fresh_after found before j h = elim (Bool-cases (same k j)) [
    | inl at ↦
        subst (λ i. find_task i (update p f ts) ≡ none → history i (e ∷ es) ≡ []) (same→eq k j at)
          (λ h'. cc (updated_self found)) h
    | inr other ↦ history-other k j e es own other ∙ before j (sym (updated_other j other) ∙ h)
  ]

-- The row under `k` moves on, and the event is its own: the database stays consistent.
pub IsConsistent-post :
    (db db' : Db) (k : String) (t : TaskRow) (p : TaskRow → Bool) (f : TaskRow → TaskRow)
    (e : EventRow)
    → IsConsistent db
    → find_task k db.tasks ≡ some t
    → ((r : TaskRow) → p r ≡ true → r.id ≡ k)
    → p t ≡ true
    → ((r : TaskRow) → (f r).id ≡ r.id)
    → e.task_id ≡ k
    → TaskLog (f t) (e ∷ history k db.events)
    → db'.tasks ≡ update p f db.tasks
    → db'.events ≡ e ∷ db.events
    → IsConsistent db'
IsConsistent-post db db' k t p f e c found only hit same_id own log ts es = record {
  logs = λ j u h.
      subst (λ l. TaskLog u (history j l)) (sym es)
        (logs_after k t p f e only hit same_id own db.tasks db.events found log c.logs j u
          (subst (λ l. find_task j l ≡ some u) ts h));
  fresh = λ j h.
      subst (λ l. history j l ≡ []) (sym es)
        (fresh_after k t p f e only hit same_id own db.tasks db.events found c.fresh j
          (subst (λ l. find_task j l ≡ none) ts h));
  unique = subst UniqueIds (sym ts) (UniqueIds-update p f same_id db.tasks c.unique);
}

-- The event `e` takes the row `t` to `u`.
pub record Extends (t u : TaskRow) (e : EventRow) : Type 0 where
  pub event_seq : e.event_seq ≡ t.event_seq + 1
  pub row_seq : u.event_seq ≡ t.event_seq + 1
  pub row_recording : u.recording_id ≡ t.recording_id
  pub event_recording : e.recording_id ≡ t.recording_id
  pub event_task : e.task_id ≡ t.id
  pub from_status : e.from_status ≡ some t.status
  pub to_status : e.to_status ≡ some u.status
  pub allowed : Allowed e.event t.status u.status
  pub attempt_positive : 0 < u.attempt
  pub attempt_bounded : u.attempt ≤ t.attempt + 1
  pub shaped : Shape u.status u

-- One conditional update of the task `k` and one event, and nothing else.
pub record Posted (db d : Db) (k : String) (a : ℕ) (s : TaskStatus) (t : TaskRow)
    (f : TaskRow → TaskRow) (e : EventRow) : Type 0 where
  pub task : find_task k db.tasks ≡ some t
  pub current : t.attempt ≡ a
  pub in_status : t.status ≡ s
  pub tasks : d.tasks ≡ update (matches k a s) f db.tasks
  pub events : d.events ≡ e ∷ db.events
  pub recordings : d.recordings ≡ db.recordings
  pub hash_locks : d.hash_locks ≡ db.hash_locks

module _ {db d : Db} {k : String} {a : ℕ} {s : TaskStatus} {t : TaskRow} {f : TaskRow → TaskRow}
    {e : EventRow} (c : IsConsistent db) (w : Posted db d k a s t f e) where
  pub log_before : TaskLog t (history k db.events)
  log_before = c.logs k t w.task

  pub Shape-before : Shape s t
  Shape-before = subst (λ x. Shape x t) w.in_status (c.logs k t w.task).shaped

  pub attempt_before : 0 < t.attempt
  attempt_before = (c.logs k t w.task).attempt_positive

  pub Posted-IsConsistent : ((x : TaskRow) → (f x).id ≡ x.id) → Extends t (f t) e → IsConsistent d
  Posted-IsConsistent same_id x =
      IsConsistent-post db d k t (matches k a s) f e c w.task
        (λ y hit. same→eq y.id k (ground arith))
        (ground (arith, same_refl k, find_task-id k db.tasks t w.task, w.current, w.in_status))
        same_id (x.event_task ∙ find_task-id k db.tasks t w.task)
        (TaskLog-cons t (f t) e (history k db.events) (c.logs k t w.task) x.event_seq x.row_seq
          x.row_recording x.event_recording x.from_status x.to_status x.allowed x.attempt_positive
          x.attempt_bounded x.shaped)
        w.tasks w.events

-- The row that a transaction reads back is the one that it has written.
pub Posted-read_back :
    {db d : Db} {k : String} {a : ℕ} {s : TaskStatus} {t u : TaskRow} {f : TaskRow → TaskRow}
    {e : EventRow}
    → Posted db d k a s t f e
    → ((x : TaskRow) → (f x).id ≡ x.id)
    → find_task t.id d.tasks ≡ some u
    → u ≡ f t
Posted-read_back {db} {d} {k} {a} {s} {t} {u} {f} w same_id there =
    let hit : matches k a s t ≡ true =
      ground (arith, same_refl k, find_task-id k db.tasks t w.task, w.current, w.in_status) in
    let at_k = subst (λ i. find_task i d.tasks ≡ some u) (find_task-id k db.tasks t w.task) there in
    let written = subst (λ l. find_task k l ≡ some u) w.tasks at_k in
    some-injective u (f t)
      (sym written ∙ find_task-update (matches k a s) f same_id k db.tasks ∙ rw (w.task, hit) refl)

pub found_affected :
    (p : TaskRow → Bool) (k : String) (t : TaskRow) (ts : List TaskRow)
    → find_task k ts ≡ some t
    → p t ≡ true
    → (affected p ts == 0) ≡ false
unfolding affected
found_affected p k t [] there hit = cc
found_affected p k t (x ∷ xs) there hit = elim (Bool-cases (same x.id k)) [
  | inl at ↦ ground arith
  | inr other ↦ ground (arith, found_affected p k t xs (rw other at there) hit)
]
