-- ===== src/Database/Table/Laws.antt =====
-- Selections of updated, deleted and ordered tables.
use recording.Prelude.{
  ◌≢◌, ◌≡◌, refl, subst, some-injective, Bool, true, false, List, [], ◌∷◌, some, arith,
  if◌then◌else◌, keep, find?, length, Bool-cases, inl, inr, All,
}
use mathlib.Core.Option
use recording.Database.Table.{update, affected, delete, insert_ordered, order_by, first?}

module _ {ℓ} {A : Type ℓ} where
  -- The first row that passes `q`, where the update leaves `q` as it was.
  pub find?-update :
      (q p : A → Bool) (f : A → A)
      → ((x : A) → q (f x) ≡ q x)
      → (xs : List A)
      → find? q (update p f xs) ≡ Option.map (λ x. if p x then f x else x) (find? q xs)
  unfolding update
  find?-update q p f h [] = refl
  find?-update q p f h (x ∷ xs) = ground (arith, h x, find?-update q p f h xs)

  -- A deletion that spares every row that passes `q`.
  pub find?-delete :
      (q p : A → Bool)
      → ((x : A) → q x ≡ true → p x ≡ false)
      → (xs : List A) → find? q (delete p xs) ≡ find? q xs
  unfolding delete
  find?-delete q p h [] = refl
  find?-delete q p h (x ∷ xs) = ground (arith, h x, find?-delete q p h xs)

  pub keep-delete :
      (q p : A → Bool)
      → ((x : A) → q x ≡ true → p x ≡ false)
      → (xs : List A) → keep q (delete p xs) ≡ keep q xs
  unfolding delete
  keep-delete q p h [] = refl
  keep-delete q p h (x ∷ xs) = ground (arith, h x, keep-delete q p h xs)

  pub length-affected : (p : A → Bool) (xs : List A) → affected p xs ≡ length (keep p xs)
  unfolding affected
  length-affected p [] = refl
  length-affected p (x ∷ xs) = ground (arith, length-affected p xs)

module _ {ℓ κ} {A : Type ℓ} (P : A → Type κ) where
  -- A selection has what every row has, and passes the test.
  pub All-keep : (q : A → Bool) (xs : List A) → All P xs → All (λ x. P x × (q x ≡ true)) (keep q xs)
  All-keep q [] h = tt
  All-keep q (x ∷ xs) h = elim (Bool-cases (q x)) [
    | inl hit ↦ rw hit ((h.0, hit), All-keep q xs h.1)
    | inr miss ↦ rw miss (All-keep q xs h.1)
  ]

  pub All-insert_ordered :
      (before : A → A → Bool) (x : A) (xs : List A)
      → P x
      → All P xs
      → All P (insert_ordered before x xs)
  unfolding insert_ordered
  All-insert_ordered before x [] px h = (px, tt)
  All-insert_ordered before x (y ∷ ys) px h = elim (Bool-cases (before y x)) [
    | inl later ↦ rw later (h.0, All-insert_ordered before x ys px h.1)
    | inr first ↦ rw first (px, h)
  ]

  pub All-order_by : (before : A → A → Bool) (xs : List A) → All P xs → All P (order_by before xs)
  unfolding order_by
  All-order_by before [] h = tt
  All-order_by before (x ∷ xs) h =
      All-insert_ordered before x (order_by before xs) h.0 (All-order_by before xs h.1)

  pub All-of_keep :
      (q : A → Bool) (xs : List A) → All P (keep q xs) → All (λ x. q x ≡ true → P x) xs
  All-of_keep q [] h = tt
  All-of_keep q (x ∷ xs) h = elim (Bool-cases (q x)) [
    | inl hit ↦ let h' = rw hit at h in ((λ _. h'.0), All-of_keep q xs h'.1)
    | inr miss ↦ ((λ e. cc), All-of_keep q xs (rw miss at h))
  ]

  pub All-of_insert_ordered :
      (before : A → A → Bool) (x : A) (xs : List A)
      → All P (insert_ordered before x xs)
      → All P (x ∷ xs)
  unfolding insert_ordered
  All-of_insert_ordered before x [] h = h
  All-of_insert_ordered before x (y ∷ ys) h = elim (Bool-cases (before y x)) [
    | inl later ↦
        let h' = rw later at h in
        let rest = All-of_insert_ordered before x ys h'.1 in (rest.0, (h'.0, rest.1))
    | inr first ↦ rw first at h
  ]

  pub All-of_order_by :
      (before : A → A → Bool) (xs : List A) → All P (order_by before xs) → All P xs
  unfolding order_by
  All-of_order_by before [] h = tt
  All-of_order_by before (x ∷ xs) h =
      let h' = All-of_insert_ordered before x (order_by before xs) h in
      (h'.0, All-of_order_by before xs h'.1)

  pub All-first? : (xs : List A) (x : A) → All P xs → first? xs ≡ some x → P x
  All-first? [] x h e = cc
  All-first? (y ∷ ys) x h e = subst P (some-injective y x e) h.0

-- The first row of an ordered table is at most every row, for an order that `before` respects.
module _ {ℓ κ} {A : Type ℓ} (before : A → A → Bool) (Le : A → A → Type κ)
    (of_before : (a b : A) → before a b ≡ true → Le a b)
    (of_after : (a b : A) → before a b ≡ false → Le b a)
    (trans : (a b c : A) → Le a b → Le b c → Le a c) (le_refl : (a : A) → Le a a) where
  abbrev LeastFirst : List A → Type κ
  LeastFirst [] = Unit
  LeastFirst (x ∷ xs) = All (Le x) xs

  All-trans : (a b : A) (xs : List A) → Le a b → All (Le b) xs → All (Le a) xs
  All-trans a b [] ab h = tt
  All-trans a b (x ∷ xs) ab h = (trans a b x ab h.0, All-trans a b xs ab h.1)

  insert_ordered-LeastFirst :
      (x : A) (xs : List A) → LeastFirst xs → LeastFirst (insert_ordered before x xs)
  unfolding insert_ordered
  insert_ordered-LeastFirst x [] h = tt
  insert_ordered-LeastFirst x (y ∷ ys) h = elim (Bool-cases (before y x)) [
    | inl later ↦ rw later (All-insert_ordered (Le y) before x ys (of_before y x later) h)
    | inr first ↦ rw first (of_after y x first, All-trans x y ys (of_after y x first) h)
  ]

  order_by-LeastFirst : (xs : List A) → LeastFirst (order_by before xs)
  unfolding order_by
  order_by-LeastFirst [] = tt
  order_by-LeastFirst (x ∷ xs) =
      insert_ordered-LeastFirst x (order_by before xs) (order_by-LeastFirst xs)

  first?-LeastFirst : (x : A) (xs : List A) → LeastFirst xs → first? xs ≡ some x → All (Le x) xs
  first?-LeastFirst x [] h e = cc
  first?-LeastFirst x (y ∷ ys) h e =
      subst (λ z. All (Le z) (y ∷ ys)) (some-injective y x e) (le_refl y, h)

  pub first?-order_by : (x : A) (xs : List A) → first? (order_by before xs) ≡ some x → All (Le x) xs
  first?-order_by x xs e =
      All-of_order_by (Le x) before xs
        (first?-LeastFirst x (order_by before xs) (order_by-LeastFirst xs) e)

module _ {ℓ} {A : Type ℓ} (before : A → A → Bool) where
  insert_ordered-not_empty : (x : A) (xs : List A) → insert_ordered before x xs ≢ []
  unfolding insert_ordered
  insert_ordered-not_empty x [] h = cc
  insert_ordered-not_empty x (y ∷ ys) h = elim (Bool-cases (before y x)) [
    | inl later ↦ cc (rw later at h)
    | inr first ↦ cc (rw first at h)
  ]

  -- Ordering makes no rows go away.
  pub order_by-empty : (xs : List A) → order_by before xs ≡ [] → xs ≡ []
  unfolding order_by
  order_by-empty [] h = refl
  order_by-empty (x ∷ xs) h = absurd (insert_ordered-not_empty x (order_by before xs) h)
