-- ===== src/Database/Log/Unique.antt =====
-- Tables of tasks with unique ids: the row under an id, in selections and in ordered tables.
use recording.Prelude.{
  ◌≡◌, refl, sym, ap, subst, ◌∙◌, some-injective, inl, inr, String, Bool, true, false, Option, some,
  none, arith, List, [], ◌∷◌, find?, keep, All, same, same_refl, same→eq, Bool-cases, if◌then◌else◌,
}
use recording.Database.Table.{order_by, insert_ordered}
use recording.Database.Rows.{TaskRow}
use recording.Database.Log.{find_task, UniqueIds}

module _ {ℓ κ} {A : Type ℓ} (P : A → Type κ) (q : A → Bool) where
  -- The row that a selection finds is one of the rows, and passes the test.
  pub All-find? : (xs : List A) (x : A) → All P xs → find? q xs ≡ some x → P x
  All-find? [] x h e = cc
  All-find? (y ∷ ys) x h e = elim (Bool-cases (q y)) [
    | inl hit ↦ subst P (some-injective y x (rw hit at e)) h.0
    | inr miss ↦ All-find? ys x h.1 (rw miss at e)
  ]

module _ {ℓ} {A : Type ℓ} (q : A → Bool) where
  pub find?-passes : (xs : List A) (x : A) → find? q xs ≡ some x → q x ≡ true
  find?-passes [] x e = cc
  find?-passes (y ∷ ys) x e = elim (Bool-cases (q y)) [
    | inl hit ↦ subst (λ z. q z ≡ true) (some-injective y x (rw hit at e)) hit
    | inr miss ↦ find?-passes ys x (rw miss at e)
  ]

-- In a table with unique ids every row is the one that is found under its id.
All-map {ℓ κ μ} :
    {A : Type ℓ} (P : A → Type κ) (Q : A → Type μ)
    → ((x : A) → P x → Q x)
    → (xs : List A) → All P xs
    → All Q xs
All-map P Q f [] h = tt
All-map P Q f (x ∷ xs) h = (f x h.0, All-map P Q f xs h.1)

found_still :
    (x y : TaskRow) (xs : List TaskRow)
    → find_task x.id xs ≡ none
    → find_task y.id xs ≡ some y
    → find_task y.id (x ∷ xs) ≡ some y
found_still x y xs absent there = elim (Bool-cases (same x.id y.id)) [
  | inl at ↦ cc (ap (λ i. find_task i xs) (same→eq x.id y.id at))
  | inr other ↦ rw other there
]

pub found_self : (ts : List TaskRow) → UniqueIds ts → All (λ t. find_task t.id ts ≡ some t) ts
found_self [] u = tt
found_self (t ∷ ts) u = (
  ground (arith, same_refl t.id),
  All-map _ _ (λ y there. found_still t y ts u.0 there) ts (found_self ts u.1),
)

abbrev pub if_passes : (TaskRow → Bool) → Option TaskRow → Option TaskRow
if_passes q none = none
if_passes q (some t) = if q t then some t else none

module _ (q : TaskRow → Bool) where
  absent-keep :
      (j : String) (ts : List TaskRow) → find_task j ts ≡ none → find_task j (keep q ts) ≡ none
  absent-keep j [] h = refl
  absent-keep j (t ∷ ts) h = elim (Bool-cases (same t.id j)) [
    | inl at ↦ absurd (cc (rw at at h))
    | inr other ↦
        let rest = absent-keep j ts (rw other at h) in
        elim (Bool-cases (q t)) [ inl hit ↦ rw hit (rw other rest) | inr miss ↦ rw miss rest ]
  ]

  pub UniqueIds-keep : (ts : List TaskRow) → UniqueIds ts → UniqueIds (keep q ts)
  UniqueIds-keep [] u = tt
  UniqueIds-keep (t ∷ ts) u = elim (Bool-cases (q t)) [
    | inl hit ↦ rw hit (absent-keep t.id ts u.0, UniqueIds-keep ts u.1)
    | inr miss ↦ rw miss (UniqueIds-keep ts u.1)
  ]

  pub find_task-keep :
      (j : String) (ts : List TaskRow)
      → UniqueIds ts
      → find_task j (keep q ts) ≡ if_passes q (find_task j ts)
  find_task-keep j [] u = refl
  find_task-keep j (t ∷ ts) u = elim (Bool-cases (same t.id j)) [
    | inl at ↦ elim (Bool-cases (q t)) [
      | inl hit ↦ rw (at, hit) (rw at refl)
      | inr miss ↦
          rw (at, miss)
            (absent-keep j ts (subst (λ i. find_task i ts ≡ none) (same→eq t.id j at) u.0))
    ]
    | inr other ↦
        let rest = find_task-keep j ts u.1 in
        elim (Bool-cases (q t)) [
          | inl hit ↦ rw (other, hit) (rw other rest)
          | inr miss ↦ rw (other, miss) rest
        ]
  ]

pub absent-apart :
    (j : String) (x : TaskRow) (xs : List TaskRow)
    → find_task j (x ∷ xs) ≡ none
    → (same x.id j ≡ false) × (find_task j xs ≡ none)
absent-apart j x xs h = elim (Bool-cases (same x.id j)) [
  | inl at ↦ absurd (cc (rw at at h))
  | inr other ↦ (other, rw other at h)
]

not-both :
    (j : String) (t x : TaskRow) → same x.id t.id ≡ false → same x.id j ≡ true → same t.id j ≡ false
not-both j t x apart at = elim (Bool-cases (same t.id j)) [
  | inl at_t ↦ cc (same→eq x.id j at ∙ sym (same→eq t.id j at_t), same_refl t.id)
  | inr other ↦ other
]

module _ (before : TaskRow → TaskRow → Bool) where
  find_task-insert_ordered :
      (j : String) (t : TaskRow) (ts : List TaskRow)
      → find_task t.id ts ≡ none
      → find_task j (insert_ordered before t ts) ≡ find_task j (t ∷ ts)
  unfolding insert_ordered
  find_task-insert_ordered j t [] absent = refl
  find_task-insert_ordered j t (x ∷ xs) absent = elim (Bool-cases (before x t)) [
    | inr first ↦ rw first refl
    | inl later ↦
        let (apart, rest) = absent-apart t.id x xs absent in
        elim (Bool-cases (same x.id j)) [
          | inl at ↦ rw (later, at, not-both j t x apart at) refl
          | inr other ↦ rw (later, other) (find_task-insert_ordered j t xs rest)
        ]
  ]

  UniqueIds-insert_ordered :
      (t : TaskRow) (ts : List TaskRow)
      → find_task t.id ts ≡ none
      → UniqueIds ts
      → UniqueIds (insert_ordered before t ts)
  unfolding insert_ordered
  UniqueIds-insert_ordered t [] absent u = (refl, tt)
  UniqueIds-insert_ordered t (x ∷ xs) absent u = elim (Bool-cases (before x t)) [
    | inr first ↦ rw first (absent, u)
    | inl later ↦
        let (apart, rest) = absent-apart t.id x xs absent in
        rw later (
          find_task-insert_ordered x.id t xs rest
              ∙ rw (not-both x.id t x apart (same_refl x.id)) u.0,
          UniqueIds-insert_ordered t xs rest u.1,
        )
  ]

  pub ordered_unique :
      (ts : List TaskRow)
      → UniqueIds ts
      → UniqueIds (order_by before ts)
        × ((j : String) → find_task j (order_by before ts) ≡ find_task j ts)
  unfolding order_by
  ordered_unique [] u = (tt, λ j. refl)
  ordered_unique (t ∷ ts) u =
      let (v, same_rows) = ordered_unique ts u.1 in
      let absent = same_rows t.id ∙ u.0 in
      (
        UniqueIds-insert_ordered t (order_by before ts) absent v,
        λ j. find_task-insert_ordered j t (order_by before ts) absent ∙ rw (same_rows j) refl,
      )
