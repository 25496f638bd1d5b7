-- ===== src/RecordingTx/Create/Laws.antt =====
-- What `CreateWithTask` and `CreateOrReuseByContentHash` of recording_tx.go write.
use recording.Ports.{driver_failed, TxError, CreateInput, CreateOrReuseResult, commit_unknown}
use recording.Prelude.{
  ◌≡◌, ◌⊎◌, ◌≢◌, inl, inr, refl, sym, subst, ap, ◌∙◌, true, false, [], ◌∷◌, none, some, arith, same,
  any, Bool-cases, Option-cases, Result, ok, err,
}
use recording.Domain.Status.{pending}
use recording.Database.Rows.{Db, to_task_po, to_task_event_po, to_recording_po}
use recording.Database.Tx.{
  Env, go, stop, transact, task_clash, recording_clash, recording_check, ensure_hash_lock,
}
use recording.Database.Tx.Steps.{transact-keeps, transact-Outcome, undone, done}
use recording.Database.Log.{IsConsistent, TaskLog}
use recording.Database.Log.Remove.{IsConsistent-create}
use recording.RecordingTx.{with_hash_lock, ensuring_hash_lock}
use recording.RecordingTx.HashLock.{
  with_hash_lock-Locked, IsConsistent-Locked, ensuring_hash_lock-keeps,
}
use recording.RecordingTx.Create.{
  Existing, create_body, create_with_task, reusable, reuse, created, create_or_reuse_body,
  create_or_reuse_by_content_hash,
}

-- The aggregate that an upload creates: a pending task in its first attempt and its first event.
pub record IsFreshInput (input : CreateInput) : Type 0 where
  pub status : input.task.status ≡ pending
  pub attempt : input.task.attempt ≡ 1
  pub event_seq : input.task.event_seq ≡ 1
  pub finished_at : input.task.finished_at ≡ none
  pub recording : input.task.recording_id ≡ input.recording.id
  pub event_task : input.event.task_id ≡ input.task.id
  pub event_recording : input.event.recording_id ≡ input.recording.id
  pub first : input.event.event_seq ≡ 1
  pub from_status : input.event.from_status ≡ none
  pub to_status : input.event.to_status ≡ some pending

fresh_log :
    (input : CreateInput)
    → IsFreshInput input
    → TaskLog (to_task_po input.task) (to_task_event_po input.event ∷ [])
fresh_log input f = ground (
  arith, f.status, f.attempt, f.event_seq, f.finished_at, f.recording, f.event_task,
  f.event_recording, f.first, f.from_status, f.to_status,
)

-- The three rows are new and nothing else is.
pub record Created (input : CreateInput) (db d : Db) : Type 0 where
  pub new_recording : any (recording_clash (to_recording_po input.recording)) db.recordings ≡ false
  pub checked : recording_check (to_recording_po input.recording) ≡ true
  pub new_task : any (task_clash (to_task_po input.task)) db.tasks ≡ false
  pub recordings : d.recordings ≡ to_recording_po input.recording ∷ db.recordings
  pub tasks : d.tasks ≡ to_task_po input.task ∷ db.tasks
  pub events : d.events ≡ to_task_event_po input.event ∷ db.events
  pub hash_locks : d.hash_locks ≡ db.hash_locks

Created-IsConsistent :
    (input : CreateInput) (db d : Db)
    → IsFreshInput input
    → IsConsistent db
    → Created input db d
    → IsConsistent d
Created-IsConsistent input db d f c w =
    IsConsistent-create db d (to_task_po input.task) (to_task_event_po input.event) c w.new_task
      f.event_task (fresh_log input f) w.tasks w.events

module _ (env : Env) (input : CreateInput) (db : Db) where
  create_body-go : (d : Db) → create_body env input db ≡ go tt d → Created input db d
  unfolding create_body
  create_body-go d h = ground arith

  pub create_with_task-IsConsistent :
      IsFreshInput input → IsConsistent db → IsConsistent (create_with_task env input db).1
  unfolding create_with_task
  create_with_task-IsConsistent f c =
      transact-keeps IsConsistent env (create_body env input) db c
        (λ a d h. Created-IsConsistent input db d f c (create_body-go d h))

  create_body-not-ok : create_body env input db ≢ stop (ok tt)
  unfolding create_body
  create_body-not-ok h = ground arith

  -- Either nothing has changed and the result is an error, or the three rows are new and the result
  -- is success or an unknown commit.
  pub create_with_task_lem :
      let (res, d) = create_with_task env input db in
      ((d ≡ db) × (res ≢ ok tt))
      ⊎ (((res ≡ ok tt) ⊎ (res ≡ err commit_unknown)) × Created input db d)
  unfolding create_with_task
  create_with_task_lem = elim (transact-Outcome env (create_body env input) db) [
    | undone same_db stopped ↦ inl (same_db, λ h. create_body-not-ok (stopped tt h))
    | done a d went at res ↦ inr (res, subst (Created input db) (sym at) (create_body-go d went))
  ]

  -- A recording of the same content with a task is reused and nothing is written, or there is none
  -- and the three rows are new.
  pub data Deduplicated (res : CreateOrReuseResult) (d : Db) : Type 0 where
    reused :
        same (reusable env input.recording.content_hash db).recording_id "" ≡ false
        → res ≡ reuse (reusable env input.recording.content_hash db)
        → d ≡ db
        → Deduplicated res d
    fresh :
        same (reusable env input.recording.content_hash db).recording_id "" ≡ true
        → res ≡ created input
        → Created input db d
        → Deduplicated res d

  pub create_or_reuse_body-go :
      (res : CreateOrReuseResult) (d : Db)
      → create_or_reuse_body env input db ≡ go res d
      → Deduplicated res d
  unfolding create_or_reuse_body
  create_or_reuse_body-go res d h =
      elim (Bool-cases (same (reusable env input.recording.content_hash db).recording_id "")) [
        | inl none_there ↦ Deduplicated.fresh none_there (ground arith) (ground arith)
        | inr there ↦ Deduplicated.reused there (ground arith) (ground arith)
      ]

  create_or_reuse_body-IsConsistent :
      IsFreshInput input
      → IsConsistent db
      → (res : CreateOrReuseResult) (d : Db) → create_or_reuse_body env input db ≡ go res d
      → IsConsistent d
  create_or_reuse_body-IsConsistent f c res d h = elim (create_or_reuse_body-go res d h) [
    | reused _ _ same_db ↦ rw same_db c
    | fresh _ _ w ↦ Created-IsConsistent input db d f c w
  ]

module _ (env : Env) (input : CreateInput) (db : Db) where
  pub create_or_reuse-IsConsistent :
      IsFreshInput input
      → IsConsistent db
      → IsConsistent (create_or_reuse_by_content_hash env input db).1
  unfolding create_or_reuse_by_content_hash
  create_or_reuse-IsConsistent f c =
      let hash = input.recording.content_hash in
      let at = input.recording.created_at in
      let c' = IsConsistent-Locked (with_hash_lock-Locked hash at db) c in
      ensuring_hash_lock-keeps IsConsistent env hash at
        (transact env (create_or_reuse_body env input)) db c
        (transact-keeps IsConsistent env (create_or_reuse_body env input)
          (with_hash_lock hash at db) c'
          (create_or_reuse_body-IsConsistent env input (with_hash_lock hash at db) f c'))

  -- What becomes of the recordings: they are as they were, and a success is a reuse, or the new one
  -- is there, and the result says so or is an unknown commit.
  pub data Recorded (out : Result TxError CreateOrReuseResult × Db) : Type 0 where
    kept :
        out.1.recordings ≡ db.recordings
        → ((x : CreateOrReuseResult) × (out.0 ≡ ok x) × (x.reused ≡ true))
          ⊎ ((e : TxError) × (out.0 ≡ err e))
        → Recorded out
    added :
        out.1.recordings ≡ to_recording_po input.recording ∷ db.recordings
        → (out.0 ≡ ok (created input)) ⊎ (out.0 ≡ err commit_unknown)
        → Recorded out

  pub create_or_reuse_body-not-ok :
      (d : Db) (x : CreateOrReuseResult) → create_or_reuse_body env input d ≢ stop (ok x)
  unfolding create_or_reuse_body
  create_or_reuse_body-not-ok d x h = ground arith

  pub failed :
      (res : Result TxError CreateOrReuseResult)
      → ((x : CreateOrReuseResult) → res ≢ ok x)
      → (e : TxError) × (res ≡ err e)
  failed (ok x) h = absurd (h x refl)
  failed (err e) h = (e, refl)

  answered :
      {res : Result TxError CreateOrReuseResult} (x : Existing) (a : CreateOrReuseResult)
      → (res ≡ ok a) ⊎ (res ≡ err commit_unknown)
      → a ≡ reuse x
      → ((y : CreateOrReuseResult) × (res ≡ ok y) × (y.reused ≡ true))
        ⊎ ((e : TxError) × (res ≡ err e))
  answered x a (inl success) is_reuse = inl (a, success, ap (λ y. y.reused) is_reuse)
  answered x a (inr unknown) is_reuse = inr (commit_unknown, unknown)

  transact-Recorded :
      (d0 : Db)
      → d0.recordings ≡ db.recordings
      → Recorded (transact env (create_or_reuse_body env input) d0)
  transact-Recorded d0 same_recordings =
      elim (transact-Outcome env (create_or_reuse_body env input) d0) [
        | undone same_db stopped ↦
            Recorded.kept (ap (λ (y : Db). y.recordings) same_db ∙ same_recordings) (
              inr (
                failed (transact env (create_or_reuse_body env input) d0).0
                  (λ x h. create_or_reuse_body-not-ok d0 x (stopped x h))))
        | done a d went at res ↦ elim (create_or_reuse_body-go env input d0 a d went) [
          | reused there is_reuse same_db ↦
              Recorded.kept (ap (λ (y : Db). y.recordings) (at ∙ same_db) ∙ same_recordings)
                (answered (reusable env input.recording.content_hash d0) a res is_reuse)
          | fresh none_there is_created w ↦
              Recorded.added
                (ap (λ (y : Db). y.recordings) at
                  ∙ w.recordings
                  ∙ ap (λ l. to_recording_po input.recording ∷ l) same_recordings)
                (subst
                  (λ y.
                    ((transact env (create_or_reuse_body env input) d0).0 ≡ ok y)
                    ⊎ ((transact env (create_or_reuse_body env input) d0).0 ≡ err commit_unknown))
                  is_created res)
        ]
      ]

  -- After `CreateOrReuseByContentHash` the recordings are as they were, and the answer is a reuse or
  -- an error, or the new recording is there, and the answer is its ids or an unknown commit.
  pub create_or_reuse-Recorded : Recorded (create_or_reuse_by_content_hash env input db)
  unfolding create_or_reuse_by_content_hash
  create_or_reuse-Recorded = elim (Option-cases (env.fails ensure_hash_lock)) [
    | inl ran ↦
        rw (ran, ensuring_hash_lock)
          (transact-Recorded _
            (with_hash_lock-Locked input.recording.content_hash input.recording.created_at
              db).recordings)
    | inr (e, broken) ↦
        rw (broken, ensuring_hash_lock) (Recorded.kept refl (inr (driver_failed e, refl)))
  ]
