-- ===== src/Database/Log/Remove.antt =====
-- New tasks, and the removal of all that belongs to one recording, keep the database consistent.
use recording.Prelude.{
  ◌≡◌, refl, sym, ap, subst, some-injective, ◌∙◌, inl, inr, String, Bool, true, false, List, [],
  ◌∷◌, none, some, same, keep, any, All, arith, Bool-cases, Option-cases, same→eq,
}
use recording.Database.Table.{delete}
use recording.Database.Rows.{TaskRow, EventRow, Db}
use recording.Database.Tx.{task_clash}
use recording.Database.Log.{find_task, of_task, history, TaskLog, UniqueIds, IsConsistent}
use recording.Database.Log.Post.{history-own, history-other}

pub no_clash :
    (u : TaskRow) (ts : List TaskRow) → any (task_clash u) ts ≡ false → find_task u.id ts ≡ none
no_clash u [] h = refl
no_clash u (t ∷ ts) h = ground (arith, no_clash u ts)

-- A new task with its first event.
pub IsConsistent-create :
    (db d : Db) (u : TaskRow) (e : EventRow)
    → IsConsistent db
    → any (task_clash u) db.tasks ≡ false
    → e.task_id ≡ u.id
    → TaskLog u (e ∷ [])
    → d.tasks ≡ u ∷ db.tasks
    → d.events ≡ e ∷ db.events
    → IsConsistent d
IsConsistent-create db d u e c free own log ts es = record {
  logs = λ j t h.
      subst (λ l. TaskLog t (history j l)) (sym es)
        (log_at j t (subst (λ l. find_task j l ≡ some t) ts h));
  fresh = λ j h.
      subst (λ l. history j l ≡ []) (sym es) (fresh_at j (subst (λ l. find_task j l ≡ none) ts h));
  unique = subst UniqueIds (sym ts) (absent, c.unique);
}
  where
    absent : find_task u.id db.tasks ≡ none
    absent = no_clash u db.tasks free

    first : history u.id (e ∷ db.events) ≡ e ∷ []
    first = history-own u.id e db.events own ∙ ap (λ l. e ∷ l) (c.fresh u.id absent)

    log_at :
        (j : String) (t : TaskRow)
        → find_task j (u ∷ db.tasks) ≡ some t
        → TaskLog t (history j (e ∷ db.events))
    log_at j t h = elim (Bool-cases (same u.id j)) [
      | inl at ↦
          subst (λ i. TaskLog t (history i (e ∷ db.events))) (same→eq u.id j at)
            (subst (λ l. TaskLog t l) (sym first)
              (subst (λ x. TaskLog x (e ∷ [])) (some-injective u t (rw at at h)) log))
      | inr other ↦
          subst (TaskLog t) (sym (history-other u.id j e db.events own other))
            (c.logs j t (rw other at h))
    ]

    fresh_at : (j : String) → find_task j (u ∷ db.tasks) ≡ none → history j (e ∷ db.events) ≡ []
    fresh_at j h = elim (Bool-cases (same u.id j)) [
      | inl at ↦ absurd (cc (rw at at h))
      | inr other ↦ history-other u.id j e db.events own other ∙ c.fresh j (rw other at h)
    ]

module _ {ℓ} {A : Type ℓ} (p q : A → Bool) where
  keep-delete-All : (xs : List A) → All (λ x. q x ≡ true) (keep p xs) → keep p (delete q xs) ≡ []
  unfolding delete
  keep-delete-All [] h = refl
  keep-delete-All (x ∷ xs) h = elim (Bool-cases (p x)) [
    | inl hit ↦ let h' = rw hit at h in rw h'.0 (keep-delete-All xs h'.1)
    | inr miss ↦
        let rest = keep-delete-All xs (rw miss at h) in
        elim (Bool-cases (q x)) [ inl gone ↦ rw gone rest | inr left ↦ rw left (rw miss rest) ]
  ]

  keep-delete_none :
      (xs : List A) → All (λ x. q x ≡ false) (keep p xs) → keep p (delete q xs) ≡ keep p xs
  unfolding delete
  keep-delete_none [] h = refl
  keep-delete_none (x ∷ xs) h = elim (Bool-cases (p x)) [
    | inl hit ↦
        let h' = rw hit at h in rw h'.0 (rw hit (ap (λ l. x ∷ l) (keep-delete_none xs h'.1)))
    | inr miss ↦
        let rest = keep-delete_none xs (rw miss at h) in
        elim (Bool-cases (q x)) [
          | inl gone ↦ rw gone (rw miss rest)
          | inr left ↦ rw left (rw miss rest)
        ]
  ]

module _ (p : TaskRow → Bool) where
  absent-delete :
      (j : String) (ts : List TaskRow) → find_task j ts ≡ none → find_task j (delete p ts) ≡ none
  unfolding delete
  absent-delete j [] h = refl
  absent-delete j (t ∷ ts) h = elim (Bool-cases (same t.id j)) [
    | inl at ↦ absurd (cc (rw at at h))
    | inr other ↦
        let rest = absent-delete j ts (rw other at h) in
        elim (Bool-cases (p t)) [ inl gone ↦ rw gone rest | inr left ↦ rw left (rw other rest) ]
  ]

  UniqueIds-delete : (ts : List TaskRow) → UniqueIds ts → UniqueIds (delete p ts)
  unfolding delete
  UniqueIds-delete [] u = tt
  UniqueIds-delete (t ∷ ts) u = elim (Bool-cases (p t)) [
    | inl gone ↦ rw gone (UniqueIds-delete ts u.1)
    | inr left ↦ rw left (absent-delete t.id ts u.0, UniqueIds-delete ts u.1)
  ]

  -- What a deletion leaves is what was there, under the same id, and escaped the test.
  pub left-delete :
      (j : String) (ts : List TaskRow) (t : TaskRow)
      → UniqueIds ts
      → find_task j (delete p ts) ≡ some t
      → (find_task j ts ≡ some t) × (p t ≡ false)
  unfolding delete
  left-delete j [] t u h = cc
  left-delete j (x ∷ xs) t u h = elim (Bool-cases (same x.id j)) [
    | inl at ↦ elim (Bool-cases (p x)) [
      | inl gone ↦ absurd (
          cc (
            subst (λ i. find_task i (delete p xs) ≡ none) (same→eq x.id j at)
                (absent-delete x.id xs u.0),
            rw gone at h,
          ))
      | inr left ↦
          let h' = rw at at (rw left at h) in
          (rw at h', subst (λ y. p y ≡ false) (some-injective x t h') left)
    ]
    | inr other ↦ elim (Bool-cases (p x)) [
      | inl gone ↦ rw other (left-delete j xs t u.1 (rw gone at h))
      | inr left ↦ rw other (left-delete j xs t u.1 (rw other at (rw left at h)))
    ]
  ]

  -- What a deletion has taken was there and failed the test, or was never there.
  gone-delete :
      (j : String) (ts : List TaskRow) (t : TaskRow)
      → find_task j (delete p ts) ≡ none
      → find_task j ts ≡ some t
      → p t ≡ true
  unfolding delete
  gone-delete j [] t h e = cc
  gone-delete j (x ∷ xs) t h e = elim (Bool-cases (same x.id j)) [
    | inl at ↦ elim (Bool-cases (p x)) [
      | inl gone ↦ subst (λ y. p y ≡ true) (some-injective x t (rw at at e)) gone
      | inr left ↦ absurd (cc (rw at at (rw left at h)))
    ]
    | inr other ↦ elim (Bool-cases (p x)) [
      | inl gone ↦ gone-delete j xs t (rw gone at h) (rw other at e)
      | inr left ↦ gone-delete j xs t (rw other at (rw left at h)) (rw other at e)
    ]
  ]

-- DELETE of the tasks and of the events of one recording.
module _ (rid : String) where
  abbrev pub of_recording : EventRow → Bool
  of_recording e = same e.recording_id rid

  abbrev pub belongs : TaskRow → Bool
  belongs t = same t.recording_id rid

  owned-All :
      (t : TaskRow) (b : Bool) (h : List EventRow)
      → belongs t ≡ b
      → All (λ (e : EventRow). e.recording_id ≡ t.recording_id) h
      → All (λ (e : EventRow). of_recording e ≡ b) h
  owned-All t b [] q o = tt
  owned-All t b (e ∷ h) q o = (ap (λ i. same i rid) o.0 ∙ q, owned-All t b h q o.1)

  pub IsConsistent-purge :
      (db d : Db)
      → IsConsistent db
      → d.tasks ≡ delete belongs db.tasks
      → d.events ≡ delete of_recording db.events
      → IsConsistent d
  IsConsistent-purge db d c ts es = record {
    logs = λ j t h.
        let (there, left) =
          left-delete belongs j db.tasks t c.unique (subst (λ l. find_task j l ≡ some t) ts h) in
        let log = c.logs j t there in
        subst (λ l. TaskLog t (history j l)) (sym es)
          (subst (TaskLog t)
            (sym (
              keep-delete_none (of_task j) of_recording db.events
                (owned-All t false (history j db.events) left log.owned)))
            log);
    fresh = λ j h.
        subst (λ l. history j l ≡ []) (sym es) (emptied j (subst (λ l. find_task j l ≡ none) ts h));
    unique = subst UniqueIds (sym ts) (UniqueIds-delete belongs db.tasks c.unique);
  }
    where
      emptied :
          (j : String)
          → find_task j (delete belongs db.tasks) ≡ none
          → history j (delete of_recording db.events) ≡ []
      emptied j h = elim (Option-cases (find_task j db.tasks)) [
        | inl absent ↦ keep-delete-All (of_task j) of_recording db.events (
            subst (λ l. All (λ (e : EventRow). of_recording e ≡ true) l) (sym (c.fresh j absent))
              tt)
        | inr (t, there) ↦ keep-delete-All (of_task j) of_recording db.events (
            owned-All t true (history j db.events) (gone-delete belongs j db.tasks t h there)
              (c.logs j t there).owned)
      ]
