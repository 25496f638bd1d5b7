-- ===== src/ProcessingTx/Claim/Laws.antt =====
-- What `ClaimNext` of processing_tx.go changes, and which task it takes.
use recording.Prelude.{Result}
use recording.Prelude.{keep}
use recording.Ports.{TxError}
use recording.Prelude.{
  ◌+◌, ◌≤◌, ◌≡◌, ◌≢◌, ◌⊎◌, inl, inr, refl, sym, subst, true, not, ◌&&◌, Option, some, none, arith,
  ◌∷◌, find?, All, ok, err,
}
use recording.Domain.Status.{pending}
use recording.Database.Table.{first?}
use recording.Database.Table.Laws.{All-keep, All-order_by, All-first?, first?-order_by}
use recording.Database.Rows.{TaskRow, RecordingRow, Db, to_task_event_po}
use recording.Database.Tx.{Env, go, stop, has_recording_id, matches}
use recording.Database.Table.{update}
use recording.Database.Tx.Steps.{transact-keeps, transact-Outcome, undone, done}
use recording.Database.Log.{find_task, UniqueIds, IsConsistent}
use recording.Database.Log.Post.{
  Extends, Posted, Posted-IsConsistent, Posted-read_back, Shape-before, attempt_before,
}
use recording.Database.Log.Unique.{found_self}
use recording.Ports.{commit_unknown, ClaimedExecution}
use recording.ProcessingTx.Claim.{
  is_claimable, queue_before, candidates, claim_body, claim_next, claimed_row, claimed_event,
  claimed_execution,
}

module _ (env : Env) (db : Db) where
  abbrev pub ClaimedTask : Db → TaskRow → Type 0
  ClaimedTask d t =
      Posted db d t.id t.attempt pending t (claimed_row env (t.event_seq + 1))
        (to_task_event_po (claimed_event env t (t.event_seq + 1)))

  -- A commit: `t` is the first candidate, its recording `r` is not being deleted, the task is
  -- transcribing, and the answer names its attempt and its file.
  pub record Claimed (x : Option ClaimedExecution) (d : Db) (t : TaskRow) (r : RecordingRow)
      : Type 0 where
    pub posted : ClaimedTask d t
    pub candidate : first? (candidates env db.tasks) ≡ some t
    pub recording : find? (has_recording_id t.recording_id) db.recordings ≡ some r
    pub visible : r.deleting_at ≡ none
    pub answer : x ≡ some (claimed_execution t r t)

  -- What the body itself shows: the candidate, and the row read back.
  record Written (x : Option ClaimedExecution) (d : Db) (t u : TaskRow) (r : RecordingRow)
      : Type 0 where
    candidate : first? (candidates env db.tasks) ≡ some t
    recording : find? (has_recording_id t.recording_id) db.recordings ≡ some r
    visible : r.deleting_at ≡ none
    tasks :
        d.tasks
        ≡ update (matches t.id t.attempt pending) (claimed_row env (t.event_seq + 1)) db.tasks
    events : d.events ≡ to_task_event_po (claimed_event env t (t.event_seq + 1)) ∷ db.events
    recordings : d.recordings ≡ db.recordings
    hash_locks : d.hash_locks ≡ db.hash_locks
    back : find_task t.id d.tasks ≡ some u
    answer : x ≡ some (claimed_execution u r t)

  claim_body-Written :
      (x : Option ClaimedExecution) (d : Db)
      → claim_body env db ≡ go x d
      → (t : TaskRow) × (u : TaskRow) × (r : RecordingRow) × Written x d t u r
  unfolding claim_body
  claim_body-Written x d h = ground arith

  pub candidate_found :
      (t : TaskRow)
      → UniqueIds db.tasks
      → first? (candidates env db.tasks) ≡ some t
      → (find_task t.id db.tasks ≡ some t) × ((is_claimable env.now t && not (env.skips t)) ≡ true)
  candidate_found t u first =
      All-first? _ (candidates env db.tasks) t
        (All-order_by _ (queue_before env) _ (
          All-keep (λ x. find_task x.id db.tasks ≡ some x)
            (λ x. is_claimable env.now x && not (env.skips x)) db.tasks (found_self db.tasks u)))
        first

  pub claim_body-go :
      (x : Option ClaimedExecution) (d : Db)
      → IsConsistent db
      → claim_body env db ≡ go x d
      → (t : TaskRow) × (r : RecordingRow) × Claimed x d t r
  claim_body-go x d c h =
      let (t, u, r, w) = claim_body-Written x d h in
      let there = candidate_found t c.unique w.candidate in
      let posted : ClaimedTask d t = record {
        task = there.0;
        current = refl;
        in_status = ground arith;
        tasks = w.tasks;
        events = w.events;
        recordings = w.recordings;
        hash_locks = w.hash_locks;
      } in
      let same_row = Posted-read_back posted (λ y. refl) w.back in
      (
        t,
        r,
        record {
          posted = posted;
          candidate = w.candidate;
          recording = w.recording;
          visible = w.visible;
          answer = ground arith;
        },
      )

  Claimed-Extends :
      {d : Db} {t : TaskRow}
      → IsConsistent db
      → ClaimedTask d t
      → Extends t
          (claimed_row env (t.event_seq + 1) t)
          (to_task_event_po (claimed_event env t (t.event_seq + 1)))
  Claimed-Extends c w = ground (arith, Shape-before c w, attempt_before c w)

  pub claim_next-IsConsistent : IsConsistent db → IsConsistent (claim_next env db).1
  unfolding claim_next
  claim_next-IsConsistent c = transact-keeps IsConsistent env (claim_body env) db c (λ x d h.
      let (t, r, w) = claim_body-go x d c h in
      Posted-IsConsistent c w.posted (λ y. refl) (Claimed-Extends c w.posted))

  claim_body-not-some : (x : ClaimedExecution) → claim_body env db ≢ stop (ok (some x))
  unfolding claim_body
  claim_body-not-some x h = ground arith

  no_execution :
      (res : Result TxError (Option ClaimedExecution))
      → ((x : ClaimedExecution) → res ≢ ok (some x))
      → (res ≡ ok none) ⊎ ((e : TxError) × (res ≡ err e))
  no_execution (ok none) h = inl refl
  no_execution (ok (some x)) h = absurd (h x refl)
  no_execution (err e) h = inr (e, refl)

  -- On a consistent database: either nothing has changed and the answer is no task or
  -- an error, or the
  -- changes of `Claimed` are there and the result is its answer or an unknown commit.
  pub claim_next_lem :
      IsConsistent db
      → let (res, d) = claim_next env db in
        ((d ≡ db) × ((res ≡ ok none) ⊎ ((e : TxError) × (res ≡ err e))))
        ⊎ ((x : Option ClaimedExecution) × ((res ≡ ok x) ⊎ (res ≡ err commit_unknown))
            × ((t : TaskRow) × (r : RecordingRow) × Claimed x d t r))
  unfolding claim_next
  claim_next_lem c = elim (transact-Outcome env (claim_body env) db) [
    | undone same_db stopped ↦ inl (
      same_db,
      no_execution (claim_next env db).0 (λ x h. claim_body-not-some x (stopped (some x) h)),
    )
    | done x d went at res ↦ inr (
      x,
      res,
      subst (λ y. (t : TaskRow) × (r : RecordingRow) × Claimed x y t r) (sym at)
          (claim_body-go x d c went),
    )
  ]

  -- The candidate was created no later than any pending task that is due and is not locked.
  pub candidate_oldest :
      (t : TaskRow)
      → first? (candidates env db.tasks) ≡ some t
      → All
          (λ x. t.created_at ≤ x.created_at)
          (keep (λ x. is_claimable env.now x && not (env.skips x)) db.tasks)
  candidate_oldest t first =
      first?-order_by (queue_before env) (λ a b. a.created_at ≤ b.created_at)
        (λ a b h. ground arith) (λ a b h. ground arith) (λ a b c p q. omega arith)
        (λ a. omega arith) t (keep (λ x. is_claimable env.now x && not (env.skips x)) db.tasks)
        first
