-- ===== src/Service/Catalog/Reuse.antt =====
-- What `CreateOrReuseByContentHash` of recording_tx.go does with a content, on a catalog.
use recording.RecordingTx.HashLock.{Locked-after, Locked, with_hash_lock-Locked}
use recording.RecordingTx.Create.{
  reuse, Existing, joined_with, join_tasks, is_reusable, existing_before, scanned, reusable,
  create_or_reuse_body, create_or_reuse_by_content_hash,
}
use mathlib.Core.List.{Memᴰ}
use recording.Prelude.{
  ◌≡◌, ◌⊎◌, ◌∙◌, inl, inr, refl, sym, ap, subst, String, Bool, true, false, List, [], ◌∷◌, ◌++◌,
  All, none, keep, map, same, same→eq, arith, Result, ok, err, Option-cases,
}
use recording.Domain.Status.{TaskStatus}
use recording.Database.Rows.{RecordingRow, TaskRow, EventRow, Db}
use recording.Database.Table.{order_by, first?}
use recording.Database.Table.Laws.{All-keep, All-order_by}
use recording.Database.Tx.{Env, transact, ensure_hash_lock}
use recording.Database.Tx.Steps.{transact-Outcome, undone, done}
use recording.Ports.{TxError, CreateInput, CreateOrReuseResult, commit_unknown, driver_failed}
use recording.RecordingTx.{with_hash_lock, ensuring_hash_lock}
use recording.RecordingTx.Create.Laws.{
  Deduplicated, create_or_reuse_body-go, create_or_reuse_body-not-ok, failed,
}
use recording.Service.Catalog.{IsCatalog, IsNew, reusable-IsNew}

-- A recording of the table that is not being deleted and has the content, and a task of it.
pub record Fits (hash : String) (db : Db) (r : RecordingRow) (t : TaskRow) : Type 0 where
  pub there : Memᴰ r db.recordings
  pub content : r.content_hash ≡ hash
  pub visible : r.deleting_at ≡ none
  pub task_there : Memᴰ t db.tasks
  pub task_of : t.recording_id ≡ r.id

-- The rows that the aggregate of the call becomes.
pub record Stores (input : CreateInput) (r : RecordingRow) (t : TaskRow) (e : EventRow)
    : Type 0 where
  pub id : r.id ≡ input.recording.id
  pub original_filename : r.original_filename ≡ input.recording.original_filename
  pub storage_path : r.storage_path ≡ input.recording.storage_path
  pub extension : r.extension ≡ input.recording.extension
  pub size_bytes : r.size_bytes ≡ input.recording.size_bytes
  pub content_hash : r.content_hash ≡ input.recording.content_hash
  pub deleting_at : r.deleting_at ≡ input.recording.deleting_at
  pub task_id : t.id ≡ input.task.id
  pub task_recording : t.recording_id ≡ input.task.recording_id
  pub status : t.status ≡ input.task.status
  pub attempt : t.attempt ≡ input.task.attempt
  pub event_seq : t.event_seq ≡ input.task.event_seq
  pub created_request_id : t.created_request_id ≡ input.task.created_request_id
  pub created_at : t.created_at ≡ input.task.created_at
  pub event_id : e.event_id ≡ input.event.event_id
  pub event_task : e.task_id ≡ input.event.task_id
  pub event_recording : e.recording_id ≡ input.event.recording_id
  pub event_kind : e.event ≡ input.event.kind
  pub number : e.event_seq ≡ input.event.event_seq

-- The answer has these ids, this status and this flag, or the commit is unknown.
abbrev pub Answers :
    Result TxError CreateOrReuseResult → String → String → TaskStatus → Bool → Type 0
Answers res recording_id task_id status again =
    ((x : CreateOrReuseResult) × (res ≡ ok x)
      × (x.recording_id ≡ recording_id)
      × (x.task_id ≡ task_id)
      × (x.status ≡ status)
      × (x.reused ≡ again))
    ⊎ (res ≡ err commit_unknown)

-- The row of a joined pair.
record Joined (hash : String) (db : Db) (x : Existing) (r : RecordingRow) (t : TaskRow)
    : Type 0 where
  fits : Fits hash db r t
  is : x ≡ joined_with r t

All-self {ℓ} : {A : Type ℓ} (xs : List A) → All (λ x. Memᴰ x xs) xs
All-self [] = tt
All-self {A = A} (x ∷ xs) = (Memᴰ.head refl, All-weaken xs xs (λ y m. Memᴰ.tail m) (All-self xs))
  where
    All-weaken :
        (ys zs : List A)
        → ((y : A) → Memᴰ y ys → Memᴰ y (x ∷ ys))
        → All (λ y. Memᴰ y ys) zs
        → All (λ y. Memᴰ y (x ∷ ys)) zs
    All-weaken ys [] k h = tt
    All-weaken ys (z ∷ zs) k h = (k z h.0, All-weaken ys zs k h.1)

module _ (hash : String) (db : Db) where
  abbrev Pair : Existing → Type 0
  Pair x = (r : RecordingRow) × (t : TaskRow) × Joined hash db x r t

  pairs_of :
      (r : RecordingRow) (ts : List TaskRow) (rest : List Existing)
      → Memᴰ r db.recordings
      → is_reusable hash r ≡ true
      → All (λ t. Memᴰ t db.tasks × (same t.recording_id r.id ≡ true)) ts
      → All Pair rest
      → All Pair (map (joined_with r) ts ++ rest)
  pairs_of r [] rest m p h k = k
  pairs_of r (t ∷ ts) rest m p h k = (
    (
      r,
      t,
      record {
        fits = record {
          there = m;
          content = same→eq r.content_hash hash (ground (arith, p));
          visible = ground (arith, p);
          task_there = h.0.0;
          task_of = same→eq t.recording_id r.id h.0.1;
        };
        is = refl;
      },
    ),
    pairs_of r ts rest m p h.1 k,
  )

  join_tasks-Pair :
      (rs : List RecordingRow)
      → All (λ r. Memᴰ r db.recordings × (is_reusable hash r ≡ true)) rs
      → All Pair (join_tasks db.tasks rs)
  unfolding join_tasks
  join_tasks-Pair [] h = tt
  join_tasks-Pair (r ∷ rs) h =
      pairs_of r (keep (λ t. same t.recording_id r.id) db.tasks) (join_tasks db.tasks rs) h.0.0
        h.0.1
        (All-keep (λ t. Memᴰ t db.tasks) (λ t. same t.recording_id r.id) db.tasks
          (All-self db.tasks))
        (join_tasks-Pair rs h.1)

  -- Where the query finds a row, that is a recording of the content with its task.
  scanned-Pair :
      (xs : List Existing)
      → All Pair xs
      → same (scanned (first? xs)).recording_id "" ≡ false
      → Pair (scanned (first? xs))
  unfolding same
  scanned-Pair [] h some_id = absurd (cc some_id)
  scanned-Pair (x ∷ xs) h some_id = h.0

  reusable-Pair :
      (env : Env)
      → same (reusable env hash db).recording_id "" ≡ false
      → Pair (reusable env hash db)
  reusable-Pair env =
      let kept = keep (is_reusable hash) db.recordings in
      scanned-Pair (order_by (existing_before env) (join_tasks db.tasks kept)) (
        All-order_by _ (existing_before env) (join_tasks db.tasks kept) (
          join_tasks-Pair kept (
            All-keep (λ r. Memᴰ r db.recordings) (is_reusable hash) db.recordings
              (All-self db.recordings))))

module _ (input : CreateInput) (db : Db) where
  -- An error, with nothing written; or a pair of the content, with nothing written and the pair's
  -- ids; or the new rows, where no recording that is shown has the content, and the new ids. A row
  -- of `content_hash_locks` may have been added.
  pub data Deduped (out : Result TxError CreateOrReuseResult × Db) : Type 0 where
    refused : Locked db out.1 → (e : TxError) → out.0 ≡ err e → Deduped out
    reused :
        (r : RecordingRow) (t : TaskRow)
        → Fits input.recording.content_hash db r t
        → Locked db out.1
        → Answers out.0 r.id t.id t.status true
        → Deduped out
    created :
        (r : RecordingRow) (t : TaskRow) (e : EventRow)
        → IsNew input.recording.content_hash db.recordings
        → Stores input r t e
        → out.1.recordings ≡ r ∷ db.recordings
        → out.1.tasks ≡ t ∷ db.tasks
        → out.1.events ≡ e ∷ db.events
        → Answers out.0 input.recording.id input.task.id input.task.status false
        → Deduped out

module _ (env : Env) (input : CreateInput) where
  abbrev hash : String
  hash = input.recording.content_hash

  done-Deduped :
      (db d : Db) (res : Result TxError CreateOrReuseResult) (a : CreateOrReuseResult)
      → IsCatalog db.recordings db.tasks
      → (res ≡ ok a) ⊎ (res ≡ err commit_unknown)
      → Deduplicated env input db a d
      → Deduped input db (res, d)
  done-Deduped db d res a c got (Deduplicated.reused there is_reuse same_db) =
      let (r, t, j) = reusable-Pair hash db env there in
      let spelled = is_reuse ∙ ap reuse j.is in
      Deduped.reused r t j.fits
        (record {
          recordings = ap (λ (y : Db). y.recordings) same_db;
          tasks = ap (λ (y : Db). y.tasks) same_db;
          events = ap (λ (y : Db). y.events) same_db;
        })
        (elim got [
          | inl success ↦ inl (
            a,
            success,
            ap (λ x. x.recording_id) spelled,
            ap (λ x. x.task_id) spelled,
            ap (λ x. x.status) spelled,
            ap (λ x. x.reused) spelled,
          )
          | inr unknown ↦ inr unknown
        ])
  done-Deduped db d res a c got (Deduplicated.fresh none_there is_created w) =
      Deduped.created _ _ _ (reusable-IsNew env hash db c none_there) (ground arith) w.recordings
        w.tasks w.events
        (elim got [
          | inl success ↦ inl (
            a,
            success,
            ap (λ x. x.recording_id) is_created,
            ap (λ x. x.task_id) is_created,
            ap (λ x. x.status) is_created,
            ap (λ x. x.reused) is_created,
          )
          | inr unknown ↦ inr unknown
        ])

  transact-Deduped :
      (db : Db)
      → IsCatalog db.recordings db.tasks
      → Deduped input db (transact env (create_or_reuse_body env input) db)
  transact-Deduped db c = elim (transact-Outcome env (create_or_reuse_body env input) db) [
    | undone same_db stopped ↦
        let (e, is_error) =
          failed env input db (transact env (create_or_reuse_body env input) db).0
            (λ x h. create_or_reuse_body-not-ok env input db db x (stopped x h)) in
        Deduped.refused
          (record {
            recordings = ap (λ (y : Db). y.recordings) same_db;
            tasks = ap (λ (y : Db). y.tasks) same_db;
            events = ap (λ (y : Db). y.events) same_db;
          })
          e is_error
    | done a d went at res ↦ done-Deduped db _ _ a c res (
        subst (Deduplicated env input db a) (sym at)
          (create_or_reuse_body-go env input db a d went))
  ]

  -- The lock is outside of what is told.
  Deduped-Locked :
      (db d0 : Db) (out : Result TxError CreateOrReuseResult × Db)
      → Locked db d0
      → Deduped input d0 out
      → Deduped input db out
  Deduped-Locked db d0 out l (Deduped.refused w e is_error) =
      Deduped.refused (Locked-after l w) e is_error
  Deduped-Locked db d0 out l (Deduped.reused r t f w a) =
      Deduped.reused r t
        (record {
          there = subst (Memᴰ r) l.recordings f.there;
          content = f.content;
          visible = f.visible;
          task_there = subst (Memᴰ t) l.tasks f.task_there;
          task_of = f.task_of;
        })
        (Locked-after l w) a
  Deduped-Locked db d0 out l (Deduped.created r t e new s rs ts es a) =
      Deduped.created r t e (subst (IsNew hash) l.recordings new) s
        (rs ∙ ap (λ xs. r ∷ xs) l.recordings) (ts ∙ ap (λ xs. t ∷ xs) l.tasks)
        (es ∙ ap (λ xs. e ∷ xs) l.events) a

  -- On a catalog, as every history of the service leaves it: `CreateOrReuseByContentHash` answers
  -- an error and writes nothing; or a recording that is not being deleted has the content, nothing
  -- is written, and the answer is its id, with the id and the status of its task, as reused; or no
  -- recording that is shown has the content, the three rows of the call are new, and the answer is
  -- their ids, as not reused. In the last two cases the commit may be unknown instead. A row of
  -- `content_hash_locks` may be added in each.
  pub create_or_reuse-Deduped :
      (db : Db)
      → IsCatalog db.recordings db.tasks
      → Deduped input db (create_or_reuse_by_content_hash env input db)
  unfolding create_or_reuse_by_content_hash
  create_or_reuse-Deduped db c = elim (Option-cases (env.fails ensure_hash_lock)) [
    | inl ran ↦
        let l = with_hash_lock-Locked hash input.recording.created_at db in
        rw (ran, ensuring_hash_lock)
          (Deduped-Locked db _ _ l (
            transact-Deduped (with_hash_lock hash input.recording.created_at db)
              (rw (l.recordings, l.tasks) c)))
    | inr (e, broken) ↦
        rw (broken, ensuring_hash_lock)
          (Deduped.refused (record { recordings = refl; tasks = refl; events = refl })
            (driver_failed e) refl)
  ]
