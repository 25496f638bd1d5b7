-- ===== src/RecordingTx/Retry/Laws.antt =====
-- What `RetryTask` of recording_tx.go changes, and when.
use recording.Prelude.{Result}
use recording.Ports.{TxError}
use recording.Prelude.{
  ℕ, ◌+◌, ◌≡◌, ◌≢◌, ◌⊎◌, inl, inr, refl, sym, subst, String, some, none, arith, ◌∷◌, find?,
  Option-cases, List, ok, err,
}
use recording.Domain.Status.{failed}
use recording.Database.Rows.{TaskRow, RecordingRow, Db, to_task_event_po}
use recording.Database.Table.{update}
use recording.Database.Tx.{Env, matches, go, stop, has_recording_id}
use recording.Database.Tx.Steps.{transact-keeps, transact-Outcome, undone, done}
use recording.Database.Log.{find_task, IsConsistent}
use recording.Database.Log.Post.{
  Extends, Posted, Posted-IsConsistent, Posted-read_back, Shape-before, attempt_before,
}
use recording.Ports.{commit_unknown}
use recording.RecordingTx.Retry.{retry_body, retry_task, retried_row, retried_event}

module _ (env : Env) (task_id : String) (db : Db) where
  abbrev pub RetriedTask : Db → TaskRow → Type 0
  RetriedTask d t =
      Posted db d task_id t.attempt failed t (retried_row env (t.event_seq + 1) (t.attempt + 1))
        (to_task_event_po (retried_event env t (t.event_seq + 1) (t.attempt + 1)))

  -- A commit: the task has failed and its recording is not being deleted; the task is pending
  -- again in the next attempt `a`.
  pub record Retried (a : ℕ) (d : Db) (t : TaskRow) (r : RecordingRow) : Type 0 where
    pub posted : RetriedTask d t
    pub recording : find? (has_recording_id t.recording_id) db.recordings ≡ some r
    pub visible : r.deleting_at ≡ none
    pub next : a ≡ t.attempt + 1

  -- What the body itself shows: the changes, and the row read back.
  record Written (a : ℕ) (d : Db) (t u : TaskRow) (r : RecordingRow) : Type 0 where
    task : find_task task_id db.tasks ≡ some t
    recording : find? (has_recording_id t.recording_id) db.recordings ≡ some r
    visible : r.deleting_at ≡ none
    in_status : t.status ≡ failed
    tasks :
        d.tasks
        ≡ update
            (matches task_id t.attempt failed)
            (retried_row env (t.event_seq + 1) (t.attempt + 1))
            db.tasks
    events :
        d.events
        ≡ to_task_event_po (retried_event env t (t.event_seq + 1) (t.attempt + 1)) ∷ db.events
    recordings : d.recordings ≡ db.recordings
    hash_locks : d.hash_locks ≡ db.hash_locks
    back : find_task t.id d.tasks ≡ some u
    answer : a ≡ u.attempt

  abbrev rows_after : TaskRow → List TaskRow
  rows_after t =
      update (matches task_id t.attempt failed) (retried_row env (t.event_seq + 1) (t.attempt + 1))
        db.tasks

  retry_body-Written :
      (a : ℕ) (d : Db)
      → retry_body env task_id db ≡ go a d
      → (t : TaskRow) × (u : TaskRow) × (r : RecordingRow) × Written a d t u r
  unfolding retry_body
  retry_body-Written a d h = elim (Option-cases (find_task task_id db.tasks)) [
    | inl absent ↦ absurd (ground arith)
    | inr (t, there) ↦ elim (Option-cases (find? (has_recording_id t.recording_id) db.recordings)) [
      | inl absent ↦ absurd (ground arith)
      | inr (r, stands) ↦ elim (Option-cases (find_task t.id (rows_after t))) [
        | inl absent ↦ absurd (ground arith)
        | inr (u, back) ↦ (t, u, r, ground arith)
      ]
    ]
  ]

  retry_body-go :
      (a : ℕ) (d : Db)
      → retry_body env task_id db ≡ go a d
      → (t : TaskRow) × (r : RecordingRow) × Retried a d t r
  retry_body-go a d h =
      let (t, u, r, w) = retry_body-Written a d h in
      let posted : RetriedTask d t = record {
        task = w.task;
        current = refl;
        in_status = w.in_status;
        tasks = w.tasks;
        events = w.events;
        recordings = w.recordings;
        hash_locks = w.hash_locks;
      } in
      let same_row = Posted-read_back posted (λ y. refl) w.back in
      (
        t,
        r,
        record {
          posted = posted;
          recording = w.recording;
          visible = w.visible;
          next = ground arith;
        },
      )

  Retried-Extends :
      {d : Db} {t : TaskRow}
      → IsConsistent db
      → RetriedTask d t
      → Extends t
          (retried_row env (t.event_seq + 1) (t.attempt + 1) t)
          (to_task_event_po (retried_event env t (t.event_seq + 1) (t.attempt + 1)))
  Retried-Extends c w = ground (arith, Shape-before c w, attempt_before c w)

  pub retry_task-IsConsistent : IsConsistent db → IsConsistent (retry_task env task_id db).1
  unfolding retry_task
  retry_task-IsConsistent c =
      transact-keeps IsConsistent env (retry_body env task_id) db c (λ a d h.
        let (t, r, w) = retry_body-go a d h in
        Posted-IsConsistent c w.posted (λ x. refl) (Retried-Extends c w.posted))

  retry_body-not-ok : (a : ℕ) → retry_body env task_id db ≢ stop (ok a)
  unfolding retry_body
  retry_body-not-ok a h = ground arith

  refused : (res : Result TxError ℕ) → ((a : ℕ) → res ≢ ok a) → (e : TxError) × (res ≡ err e)
  refused (ok a) h = absurd (h a refl)
  refused (err e) h = (e, refl)

  -- Either nothing has changed and the result is an error, or the changes of `Retried` are there
  -- and the result is the new attempt or an unknown commit.
  pub retry_task_lem :
      let (res, d) = retry_task env task_id db in
      ((d ≡ db) × ((e : TxError) × (res ≡ err e)))
      ⊎ ((a : ℕ) × ((res ≡ ok a) ⊎ (res ≡ err commit_unknown))
          × ((t : TaskRow) × (r : RecordingRow) × Retried a d t r))
  unfolding retry_task
  retry_task_lem = elim (transact-Outcome env (retry_body env task_id) db) [
    | undone same_db stopped ↦
        inl (
          same_db,
          refused (retry_task env task_id db).0 (λ a h. retry_body-not-ok a (stopped a h)),
        )
    | done a d went at res ↦ inr (
      a,
      res,
      subst (λ x. (t : TaskRow) × (r : RecordingRow) × Retried a x t r) (sym at)
          (retry_body-go a d went),
    )
  ]
