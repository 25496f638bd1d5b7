-- ===== src/System/Follows.antt =====
-- How a task row may move under one transaction.
pub mod Steps
use recording.Prelude.{
  ℕ, ◌+◌, ◌*◌, ◌≤◌, ◌≡◌, ◌⊎◌, inl, inr, refl, sym, ap, subst, ◌∙◌, some-injective, String, Bool,
  true, false, ◌||◌, List, [], ◌∷◌, Option, some, none, arith, find?, any, same, same→eq, same_refl,
  Bool-cases, Option-cases, if◌then◌else◌,
}
use recording.Domain.Status.{TaskStatus, pending, transcribing, summarizing, done, failed}
use recording.Database.Table.{update, delete}
use recording.Database.Rows.{TaskRow, Db}
use recording.Database.Tx.{task_clash}
use recording.Database.Log.{find_task, UniqueIds}
use recording.Database.Log.Post.{find_task-update}
use recording.Database.Log.Remove.{left-delete, no_clash}

abbrev pub stage : TaskStatus → ℕ
stage pending = 0
stage transcribing = 1
stage summarizing = 2
stage done = 3
stage failed = 3

-- Attempts count before stages.
abbrev pub progress : TaskRow → ℕ
progress t = 4 * t.attempt + stage t.status

-- `u` is `t` at a later time: it is the same recording's, its log has not shrunk, it has not gone
-- back, and a finished task keeps its result.
pub record Follows (t u : TaskRow) : Type 0 where
  pub recording_id : u.recording_id ≡ t.recording_id
  pub event_seq : t.event_seq ≤ u.event_seq
  pub forward : progress t ≤ progress u
  pub final :
      t.status ≡ done
      → (u.status ≡ done) × (u.summary_json ≡ t.summary_json) × (u.transcript ≡ t.transcript)

pub Follows-refl : (t : TaskRow) → Follows t t
Follows-refl t = record {
  recording_id = refl;
  event_seq = omega arith;
  forward = omega arith;
  final = λ e. (e, refl, refl);
}

pub Follows-trans : {t u v : TaskRow} → Follows t u → Follows u v → Follows t v
Follows-trans f g = record {
  recording_id = g.recording_id ∙ f.recording_id;
  event_seq = omega (arith, f.event_seq, g.event_seq);
  forward = omega (arith, f.forward, g.forward);
  final = λ e. let (d, s, x) = f.final e in let (d', s', x') = g.final d in (d', s' ∙ s, x' ∙ x);
}

-- What has become of a task.
abbrev pub Became : String → TaskRow → List TaskRow → Type 0
Became j t ts = (find_task j ts ≡ none) ⊎ ((u : TaskRow) × (find_task j ts ≡ some u) × Follows t u)

pub Became-same :
    (j : String) (t : TaskRow) (ts : List TaskRow) → find_task j ts ≡ some t → Became j t ts
Became-same j t ts there = inr (t, there, Follows-refl t)

pub Became-update :
    (p : TaskRow → Bool) (f : TaskRow → TaskRow) (j : String) (t : TaskRow) (ts : List TaskRow)
    → ((x : TaskRow) → (f x).id ≡ x.id)
    → (p t ≡ true → Follows t (f t))
    → find_task j ts ≡ some t
    → Became j t (update p f ts)
Became-update p f j t ts same_id follows there =
    let at = find_task-update p f same_id j ts in
    elim (Bool-cases (p t)) [
      | inl hit ↦ inr (f t, at ∙ rw (there, hit) refl, follows hit)
      | inr miss ↦ inr (t, at ∙ rw (there, miss) refl, Follows-refl t)
    ]

pub Became-delete :
    (p : TaskRow → Bool) (j : String) (t : TaskRow) (ts : List TaskRow)
    → UniqueIds ts
    → find_task j ts ≡ some t
    → Became j t (delete p ts)
Became-delete p j t ts unique there = elim (Option-cases (find_task j (delete p ts))) [
  | inl gone ↦ inl gone
  | inr (u, left) ↦
      let same_row = some-injective t u (sym there ∙ (left-delete p j ts u unique left).0) in
      inr (u, left, subst (Follows t) same_row (Follows-refl t))
]

pub Became-create :
    (u : TaskRow) (j : String) (t : TaskRow) (ts : List TaskRow)
    → any (task_clash u) ts ≡ false
    → find_task j ts ≡ some t
    → Became j t (u ∷ ts)
Became-create u j t ts free there = elim (Bool-cases (same u.id j)) [
  | inl at ↦ absurd (
      cc (no_clash u ts free, subst (λ i. find_task i ts ≡ some t) (sym (same→eq u.id j at)) there))
  | inr other ↦ inr (t, rw other there, Follows-refl t)
]
