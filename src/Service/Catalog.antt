-- ===== src/Service/Catalog.antt =====
-- The recordings and their tasks: no upload is stored twice, and every recording has a task.
pub mod Keeps
pub mod Whole
pub mod Reuse
use recording.Prelude.{
  ◌≢◌, ◌≡◌, inl, inr, refl, sym, ap, subst, ◌∙◌, String, Bool, true, false, ◌&&◌, not, List, [],
  ◌∷◌, ◌++◌, any, All, Option, none, some, same, same_refl, same→eq, keep, map, arith, Bool-cases,
}
use recording.Domain.Status.{TaskStatus, pending, done}
use recording.Domain.Summary.{Summary}
use recording.Domain.Summary.Parse.Laws.{IsValid}
use recording.ProcessingTx.Complete.{marshal_summary}
use recording.Database.Table.{update, delete, order_by, first?}
use recording.Database.Table.Laws.{All-keep, All-order_by, order_by-empty}
use recording.Database.Rows.{RecordingRow, TaskRow, Db}
use recording.Database.Tx.{Env, is_some}
use recording.RecordingTx.Create.{
  Existing, joined_with, join_tasks, is_reusable, existing_before, scanned, reusable,
}
use recording.RecordingTx.MarkDeleting.{marked_row}
use recording.Service.Recover.Laws.{flip}
use recording.Service.Sound.{All-delete, All-marked}

abbrev pub Visible : RecordingRow → Type 0
Visible r = is_some r.deleting_at ≡ false

-- Some task is the recording's.
abbrev pub owned : String → List TaskRow → Bool
owned id ts = any (λ (t : TaskRow). same t.recording_id id) ts

-- Some recording has the id.
abbrev pub known : String → List RecordingRow → Bool
known id rs = any (λ (r : RecordingRow). same r.id id) rs

-- No recording that is shown has the content.
abbrev pub IsNew : String → List RecordingRow → Type 0
IsNew hash rs = All (λ (r : RecordingRow). Visible r → same r.content_hash hash ≡ false) rs

-- No two recordings that are shown have the same content.
unfoldable pub Single : List RecordingRow → Type 0
Single [] = Unit
Single (r ∷ rs) = (Visible r → IsNew r.content_hash rs) × Single rs

-- A finished task has a summary that can be read.
abbrev pub Readable : TaskRow → Type 0
Readable t =
    t.status ≡ done → (s : Summary) × (t.summary_json ≡ some (marshal_summary s)) × IsValid s

pub record IsCatalog (rs : List RecordingRow) (ts : List TaskRow) : Type 0 where
  pub named : All (λ (r : RecordingRow). same r.id "" ≡ false) rs
  pub paired : All (λ (r : RecordingRow). owned r.id ts ≡ true) rs
  pub hosted : All (λ (t : TaskRow). known t.recording_id rs ≡ true) ts
  pub single : Single rs
  pub readable : All Readable ts

All-along {ℓ} :
    {A : Type ℓ} (P Q : A → Type 0) (xs : List A) → ((x : A) → P x → Q x) → All P xs → All Q xs
All-along P Q [] k h = tt
All-along P Q (x ∷ xs) k h = (k x h.0, All-along P Q xs k h.1)

module _ {ℓ} {A : Type ℓ} (q p : A → Bool) where
  any-update :
      (f : A → A) → ((x : A) → q (f x) ≡ q x) → (xs : List A) → any q (update p f xs) ≡ any q xs
  unfolding update
  any-update f k [] = refl
  any-update f k (x ∷ xs) = elim (Bool-cases (p x)) [
    | inl hit ↦ rw (hit, k x, any-update f k xs) refl
    | inr miss ↦ rw (miss, any-update f k xs) refl
  ]

  any-delete : ((x : A) → p x ≡ true → q x ≡ false) → (xs : List A) → any q (delete p xs) ≡ any q xs
  unfolding delete
  any-delete k [] = refl
  any-delete k (x ∷ xs) = elim (Bool-cases (p x)) [
    | inl goes ↦ rw (goes, k x goes) (any-delete k xs)
    | inr stays ↦ rw (stays, any-delete k xs) refl
  ]

module _ {A : Type 0} (P Q : A → Type 0) (p : A → Bool) where
  All-left : ((x : A) → p x ≡ false → P x → Q x) → (xs : List A) → All P xs → All Q (delete p xs)
  unfolding delete
  All-left k [] h = tt
  All-left k (x ∷ xs) h = elim (Bool-cases (p x)) [
    | inl goes ↦ rw goes (All-left k xs h.1)
    | inr stays ↦ rw stays (k x stays h.0, All-left k xs h.1)
  ]

  All-updated :
      (f : A → A)
      → ((x : A) → P x → Q x)
      → ((x : A) → P x → Q (f x))
      → (xs : List A) → All P xs
      → All Q (update p f xs)
  unfolding update
  All-updated f k kf [] h = tt
  All-updated f k kf (x ∷ xs) h = elim (Bool-cases (p x)) [
    | inl hit ↦ rw hit (kf x h.0, All-updated f k kf xs h.1)
    | inr miss ↦ rw miss (k x h.0, All-updated f k kf xs h.1)
  ]

apart_from : (a b c : String) → same b c ≡ false → same a c ≡ true → same a b ≡ false
apart_from a b c apart at = ap (λ x. same x b) (same→eq a c at) ∙ flip b c apart

-- An update that keeps the tasks with their recordings.
pub IsCatalog-update :
    (p : TaskRow → Bool) (f : TaskRow → TaskRow)
    → ((t : TaskRow) → (f t).recording_id ≡ t.recording_id)
    → ((t : TaskRow) → Readable t → Readable (f t))
    → (rs : List RecordingRow) (ts : List TaskRow) → IsCatalog rs ts
    → IsCatalog rs (update p f ts)
IsCatalog-update p f k kr rs ts c = record {
  named = c.named;
  paired =
      All-along _ _ rs
        (λ r h.
          any-update (λ (t : TaskRow). same t.recording_id r.id) p f
            (λ t. ap (λ i. same i r.id) (k t)) ts
          ∙ h)
        c.paired;
  hosted = All-updated _ _ p f (λ t h. h) (λ t h. ap (λ i. known i rs) (k t) ∙ h) ts c.hosted;
  readable = All-updated _ _ p f (λ t h. h) kr ts c.readable;
  single = c.single;
}

Single-delete :
    (p : RecordingRow → Bool) (rs : List RecordingRow) → Single rs → Single (delete p rs)
unfolding delete Single
Single-delete p [] h = tt
Single-delete p (r ∷ rs) h = elim (Bool-cases (p r)) [
  | inl goes ↦ rw goes (Single-delete p rs h.1)
  | inr stays ↦ rw stays ((λ v. All-delete p _ rs (h.0 v)), Single-delete p rs h.1)
]

-- A purge takes a recording with its tasks.
pub IsCatalog-purge :
    (gone : String) (rs : List RecordingRow) (ts : List TaskRow)
    → IsCatalog rs ts
    → IsCatalog
        (delete (λ (r : RecordingRow). same r.id gone) rs)
        (delete (λ (t : TaskRow). same t.recording_id gone) ts)
IsCatalog-purge gone rs ts c = record {
  named = All-delete _ _ rs c.named;
  paired =
      All-left _ _ _
        (λ r stays h.
          any-delete (λ (t : TaskRow). same t.recording_id r.id) _
            (λ t. apart_from t.recording_id r.id gone stays) ts
          ∙ h)
        rs c.paired;
  hosted =
      All-left _ _ _
        (λ t stays h.
          any-delete (λ (r : RecordingRow). same r.id t.recording_id) _
            (λ r. apart_from r.id t.recording_id gone stays) rs
          ∙ h)
        ts c.hosted;
  single = Single-delete _ rs c.single;
  readable = All-left _ _ _ (λ t stays h. h) ts c.readable;
}

-- The mark hides recordings.
Single-marked :
    (p : RecordingRow → Bool) (env : Env) (rs : List RecordingRow)
    → Single rs
    → Single (update p (marked_row env) rs)
unfolding update Single
Single-marked p env [] h = tt
Single-marked p env (r ∷ rs) h = elim (Bool-cases (p r)) [
  | inl hit ↦ rw hit ((λ v. absurd (cc v)), Single-marked p env rs h.1)
  | inr miss ↦ rw miss (
    (λ v. All-marked p env _ rs (λ x k hidden. absurd (cc hidden)) (h.0 v)),
    Single-marked p env rs h.1,
  )
]

pub IsCatalog-marked :
    (p : RecordingRow → Bool) (env : Env) (rs : List RecordingRow) (ts : List TaskRow)
    → IsCatalog rs ts
    → IsCatalog (update p (marked_row env) rs) ts
IsCatalog-marked p env rs ts c = record {
  named = All-marked p env _ rs (λ r h. h) c.named;
  paired = All-marked p env _ rs (λ r h. h) c.paired;
  hosted =
      All-along _ _ ts
        (λ t h.
          any-update (λ (r : RecordingRow). same r.id t.recording_id) p (marked_row env) (λ r. refl)
            rs
          ∙ h)
        c.hosted;
  single = Single-marked p env rs c.single;
  readable = c.readable;
}

-- A recording with a task is found under its content.
join_tasks-empty :
    (ts : List TaskRow) (rs : List RecordingRow)
    → All (λ (r : RecordingRow). owned r.id ts ≡ true) rs
    → join_tasks ts rs ≡ []
    → rs ≡ []
unfolding join_tasks
join_tasks-empty ts [] h e = refl
join_tasks-empty ts (r ∷ rs) h e = absurd (occupied ts (join_tasks ts rs) h.0 e)
  where
    occupied :
        (us : List TaskRow) (rest : List Existing)
        → owned r.id us ≡ true
        → map (joined_with r) (keep (λ t. same t.recording_id r.id) us) ++ rest ≢ []
    occupied [] rest h' e' = cc
    occupied (u ∷ us) rest h' e' = elim (Bool-cases (same u.recording_id r.id)) [
      | inl hit ↦ cc (rw hit at e')
      | inr miss ↦ occupied us rest (rw miss at h') (rw miss at e')
    ]

keep-empty {ℓ} :
    {A : Type ℓ} (p : A → Bool) (xs : List A) → keep p xs ≡ [] → All (λ x. p x ≡ false) xs
keep-empty p [] h = tt
keep-empty p (x ∷ xs) h = elim (Bool-cases (p x)) [
  | inl hit ↦ absurd (cc (rw hit at h))
  | inr miss ↦ (miss, keep-empty p xs (rw miss at h))
]

join_tasks-named :
    (ts : List TaskRow) (rs : List RecordingRow)
    → All (λ (r : RecordingRow). same r.id "" ≡ false) rs
    → All (λ (e : Existing). same e.recording_id "" ≡ false) (join_tasks ts rs)
unfolding join_tasks
join_tasks-named ts [] h = tt
join_tasks-named ts (r ∷ rs) h = beside ts (join_tasks ts rs) (join_tasks-named ts rs h.1)
  where
    beside :
        (us : List TaskRow) (rest : List Existing)
        → All (λ (e : Existing). same e.recording_id "" ≡ false) rest
        → All
            (λ (e : Existing). same e.recording_id "" ≡ false)
            (map (joined_with r) (keep (λ t. same t.recording_id r.id) us) ++ rest)
    beside [] rest k = k
    beside (u ∷ us) rest k = elim (Bool-cases (same u.recording_id r.id)) [
      | inl hit ↦ rw hit (h.0, beside us rest k)
      | inr miss ↦ rw miss (beside us rest k)
    ]

scanned-empty :
    (xs : List Existing)
    → All (λ (e : Existing). same e.recording_id "" ≡ false) xs
    → same (scanned (first? xs)).recording_id "" ≡ true
    → xs ≡ []
scanned-empty [] h e = refl
scanned-empty (x ∷ xs) h e = absurd (cc (h.0, e))

-- Where the query finds no row, the content is new.
pub reusable-IsNew :
    (env : Env) (hash : String) (db : Db)
    → IsCatalog db.recordings db.tasks
    → same (reusable env hash db).recording_id "" ≡ true
    → IsNew hash db.recordings
reusable-IsNew env hash db c h =
    let kept = keep (is_reusable hash) db.recordings in
    let kept_named =
      All-along _ _ kept (λ r x. x.0)
        (All-keep (λ (r : RecordingRow). same r.id "" ≡ false) (is_reusable hash) db.recordings
          c.named) in
    let kept_paired =
      All-along _ _ kept (λ r x. x.0)
        (All-keep (λ (r : RecordingRow). owned r.id db.tasks ≡ true) (is_reusable hash)
          db.recordings c.paired) in
    let joined = join_tasks db.tasks kept in
    let none_joined : joined ≡ [] = order_by-empty (existing_before env) joined (
      scanned-empty (order_by (existing_before env) joined)
        (All-order_by _ (existing_before env) joined (join_tasks-named db.tasks kept kept_named))
        h) in
    All-along _ _ db.recordings (λ r x visible. ground (arith, x, visible))
      (keep-empty (is_reusable hash) db.recordings
        (join_tasks-empty db.tasks kept kept_paired none_joined))

any-more {ℓ} :
    {A : Type ℓ} (q : A → Bool) (x : A) (xs : List A) → any q xs ≡ true → any q (x ∷ xs) ≡ true
any-more q x xs h = ground (arith, h)

-- A new recording with its task.
pub IsCatalog-create :
    (env : Env) (hash : String) (db : Db) (r : RecordingRow) (t : TaskRow)
    → r.content_hash ≡ hash
    → t.recording_id ≡ r.id
    → t.status ≡ pending
    → same r.id "" ≡ false
    → same (reusable env hash db).recording_id "" ≡ true
    → IsCatalog db.recordings db.tasks
    → IsCatalog (r ∷ db.recordings) (t ∷ db.tasks)
unfolding Single
IsCatalog-create env hash db r t content of fresh named none_there c = record {
  named = (named, c.named);
  paired = (
    rw of (ground (arith, same_refl r.id)),
    All-along _ _ db.recordings (λ x h. any-more _ t db.tasks h) c.paired,
  );
  hosted = (
    rw of (ground (arith, same_refl r.id)),
    All-along _ _ db.tasks (λ x h. any-more _ r db.recordings h) c.hosted,
  );
  single = (
    (λ visible.
        subst (λ k. IsNew k db.recordings) (sym content) (reusable-IsNew env hash db c none_there)),
    c.single,
  );
  readable = ((λ finished. absurd (cc (fresh, finished))), c.readable);
}
