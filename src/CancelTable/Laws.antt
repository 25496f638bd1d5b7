-- ===== src/CancelTable/Laws.antt =====
-- The table is a map from keys to cancel functions, whatever calls it has had.
use recording.Prelude.{
  ◌≡◌, ◌↔◌, refl, sym, ap, ◌∙◌, subst, fun_ext, inl, inr, String, true, List, [], ◌∷◌, Option, none,
  some, some-injective, same, same_refl, same→eq, arith, Bool-cases, if◌then◌else◌,
}
use mathlib.Core.List.{Memᴰ}
use mathlib.Core.List.Memᴰ.{head, tail}
use recording.Domain.Task.{ExecutionKey}
use recording.CancelTable.{
  CancelTable, same_key, lookup, unregister, cancel_task, called, Call, register_call,
  unregister_call, cancel_call, cancel_task_call, perform, after_calls,
}

same_key→eq : (a b : ExecutionKey) → same_key a b ≡ true → a ≡ b
unfolding same_key
same_key→eq a b h = ground (arith, same→eq a.task_id b.task_id)

same_key_refl : (a : ExecutionKey) → same_key a a ≡ true
unfolding same_key
same_key_refl a = ground (arith, same_refl a.task_id)

eq→same_key : (a b : ExecutionKey) → a ≡ b → same_key a b ≡ true
eq→same_key a b e = subst (λ x. same_key a x ≡ true) e (same_key_refl a)

module _ {F : Type 0} where
  -- The abstract state is a function of the key.
  abbrev pub update : (ExecutionKey → Option F) → ExecutionKey → Option F → ExecutionKey → Option F
  update m key v k = if same_key key k then v else m k

  -- What a call does to the map.
  abbrev pub apply : Call F → (ExecutionKey → Option F) → ExecutionKey → Option F
  apply (register_call key f) m = update m key (some f)
  apply (unregister_call key) m = update m key none
  apply (cancel_call key) m = m
  apply (cancel_task_call task_id) m = m

  -- The functions that a call has to call, in no order.
  abbrev pub Asked : Call F → (ExecutionKey → Option F) → F → Type 0
  Asked (register_call key f) m g = ⊥
  Asked (unregister_call key) m g = ⊥
  Asked (cancel_call key) m g = m key ≡ some g
  Asked (cancel_task_call task_id) m g =
      (key : ExecutionKey) × (key.task_id ≡ task_id) × (m key ≡ some g)

  unfoldable pub view : CancelTable F → ExecutionKey → Option F
  view t key = lookup key t

  lookup-unregister :
      (key k : ExecutionKey) (t : CancelTable F)
      → lookup k (unregister key t) ≡ (if same_key key k then none else lookup k t)
  unfolding lookup unregister
  lookup-unregister key k [] = ground arith
  lookup-unregister key k ((j, f) ∷ t) = ground (
    arith,
    lookup-unregister key k t,
    same_key→eq j key,
    same_key→eq key k,
    same_key→eq j k,
    eq→same_key j key,
    eq→same_key key k,
    eq→same_key j k,
  )

  -- The keys of a table are different.
  abbrev IsUnique : CancelTable F → Type 0
  IsUnique [] = Unit
  IsUnique ((k, f) ∷ t) = (lookup k t ≡ none) × IsUnique t

  IsUnique-unregister :
      (key : ExecutionKey) (t : CancelTable F) → IsUnique t → IsUnique (unregister key t)
  unfolding unregister
  IsUnique-unregister key [] u = tt
  IsUnique-unregister key ((k, f) ∷ t) u = elim (Bool-cases (same_key k key)) [
    | inl at ↦ rw at (IsUnique-unregister key t u.1)
    | inr other ↦
        rw other (ground (arith, lookup-unregister key k t, u.0), IsUnique-unregister key t u.1)
  ]

  after_calls-IsUnique : (cs : List (Call F)) → IsUnique (after_calls cs)
  unfolding after_calls
  after_calls-IsUnique [] = tt
  after_calls-IsUnique (register_call key f ∷ cs) = (
    ground (arith, lookup-unregister key key (after_calls cs), same_key_refl key),
    IsUnique-unregister key (after_calls cs) (after_calls-IsUnique cs),
  )
  after_calls-IsUnique (unregister_call key ∷ cs) =
      IsUnique-unregister key (after_calls cs) (after_calls-IsUnique cs)
  after_calls-IsUnique (cancel_call key ∷ cs) = after_calls-IsUnique cs
  after_calls-IsUnique (cancel_task_call task_id ∷ cs) = after_calls-IsUnique cs

  lookup-cons_ne :
      (k key : ExecutionKey) (f g : F) (t : CancelTable F)
      → lookup k t ≡ none
      → lookup key t ≡ some g
      → lookup key ((k, f) ∷ t) ≡ some g
  unfolding lookup
  lookup-cons_ne k key f g t u h = elim (Bool-cases (same_key k key)) [
    | inl at ↦ absurd (cc (same_key→eq k key at))
    | inr other ↦ rw other h
  ]

  lookup-cons_self : (k : ExecutionKey) (f : F) (t : CancelTable F) → lookup k ((k, f) ∷ t) ≡ some f
  unfolding lookup
  lookup-cons_self k f t = rw (same_key_refl k) refl

  first_or_later :
      (task_id : String) (k : ExecutionKey) (f : F) (t : CancelTable F) (g : F)
      → IsUnique ((k, f) ∷ t)
      → same k.task_id task_id ≡ true
      → (Memᴰ g (cancel_task task_id t) → Asked (cancel_task_call task_id) (view t) g)
      → Memᴰ g (f ∷ cancel_task task_id t)
      → Asked (cancel_task_call task_id) (view ((k, f) ∷ t)) g
  unfolding view
  first_or_later task_id k f t g u own ih (head e) =
      (k, same→eq k.task_id task_id own, lookup-cons_self k f t ∙ ap some (sym e))
  first_or_later task_id k f t g u own ih (tail m) =
      let (key, e, h) = ih m in (key, e, lookup-cons_ne k key f g t u.0 h)

  -- `CancelTask` calls what it is asked to, and nothing else.
  Asked-called :
      (task_id : String) (t : CancelTable F) (g : F)
      → IsUnique t
      → Memᴰ g (cancel_task task_id t)
      → Asked (cancel_task_call task_id) (view t) g
  unfolding cancel_task view
  Asked-called task_id [] g u m = elim m [ ]
  Asked-called task_id ((k, f) ∷ t) g u m = elim (Bool-cases (same k.task_id task_id)) [
    | inl own ↦ first_or_later task_id k f t g u own (Asked-called task_id t g u.1) (rw own at m)
    | inr other ↦
        let (key, e, h) = Asked-called task_id t g u.1 (rw other at m) in
        (key, e, lookup-cons_ne k key f g t u.0 h)
  ]

  called_of_asked :
      (task_id : String) (t : CancelTable F) (g : F) (key : ExecutionKey)
      → key.task_id ≡ task_id
      → lookup key t ≡ some g
      → Memᴰ g (cancel_task task_id t)
  unfolding cancel_task lookup
  called_of_asked task_id [] g key e h = absurd (cc h)
  called_of_asked task_id ((k, f) ∷ t) g key e h = elim (Bool-cases (same_key k key)) [
    | inl at ↦
        let own : same k.task_id task_id ≡ true =
          subst (λ x. same x.task_id task_id ≡ true) (sym (same_key→eq k key at))
            (subst (λ x. same x task_id ≡ true) (sym e) (same_refl task_id)) in
        rw own (head (sym (some-injective _ _ (rw at at h))))
    | inr other ↦
        let later = called_of_asked task_id t g key e (rw other at h) in
        elim (Bool-cases (same k.task_id task_id)) [
          | inl own ↦ rw own (tail later)
          | inr apart ↦ rw apart later
        ]
  ]

  view-perform :
      (c : Call F) (t : CancelTable F) (k : ExecutionKey)
      → view (perform c t).0 k ≡ apply c (view t) k
  unfolding view perform
  view-perform (register_call key f) t k = elim (Bool-cases (same_key key k)) [
    | inl at ↦ rw at refl
    | inr other ↦
        let below : lookup k (unregister key t) ≡ lookup k t =
          subst (λ b. lookup k (unregister key t) ≡ (if b then none else lookup k t)) other
            (lookup-unregister key k t) in
        rw other below
  ]
  view-perform (unregister_call key) t k = lookup-unregister key k t
  view-perform (cancel_call key) t k = refl
  view-perform (cancel_task_call task_id) t k = refl

  called_iff : (o : Option F) (g : F) → Memᴰ g (called o) ↔ (o ≡ some g)
  called_iff none g = ((λ m. elim m [ ]), λ e. absurd (cc e))
  called_iff (some f) g = (only, λ e. head (sym (some-injective _ _ e)))
    where
      only : {f g : F} → Memᴰ g (f ∷ []) → some f ≡ some g
      only (head e) = ap some (sym e)
      only (tail m) = elim m [ ]

  perform-called :
      (c : Call F) (t : CancelTable F) (g : F)
      → IsUnique t
      → Memᴰ g (perform c t).1 ↔ Asked c (view t) g
  unfolding view perform
  perform-called (register_call key f) t g u = ((λ m. elim m [ ]), λ b. absurd b)
  perform-called (unregister_call key) t g u = ((λ m. elim m [ ]), λ b. absurd b)
  perform-called (cancel_call key) t g u = called_iff (lookup key t) g
  perform-called (cancel_task_call task_id) t g u =
      (Asked-called task_id t g u, λ (key, e, h). called_of_asked task_id t g key e h)

  -- After any calls, the table is the function from keys to cancel functions that the calls have
  -- made, and the next call calls exactly the functions that it has to call there: `Cancel` the one
  -- of its key, if any, and `CancelTask` those of every key of the task.
  pub perform_refines :
      (cs : List (Call F)) (c : Call F)
      → (view (perform c (after_calls cs)).0 ≡ apply c (view (after_calls cs)))
        × ((g : F) → Memᴰ g (perform c (after_calls cs)).1 ↔ Asked c (view (after_calls cs)) g)
  perform_refines cs c = (
    fun_ext (view-perform c (after_calls cs)),
    λ g. perform-called c (after_calls cs) g (after_calls-IsUnique cs),
  )
