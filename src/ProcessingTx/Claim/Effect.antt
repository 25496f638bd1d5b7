-- ===== src/ProcessingTx/Claim/Effect.antt =====
-- What `ClaimNext` of processing_tx.go leaves in the tables and answers, column by column.
use recording.Database.Tx.{matches, stop, Env, has_recording_id}
use recording.Database.Log.Post.{found_affected}
use recording.Prelude.{
  same_refl, Option-cases, List, [], ◌∷◌, ◌&&◌, ◌≤◌, not, All, keep, same→eq, true, ◌≡◌, ◌⊎◌, inl,
  inr, refl, ℕ, false, Option, none, some, arith, find?, ok, err,
}
use recording.ProcessingTx.Claim.{
  queue_before, claim_body, candidates, is_claimable, first?, is_due, claim_next,
}
use recording.ProcessingTx.Claim.Laws.{
  claim_body-go, candidate_oldest, Claimed, claim_next_lem, candidate_found,
}
use recording.Database.Table.Laws.{order_by-empty}
use recording.Database.Tx.Steps.{transact-Outcome, undone, done}
use recording.Database.Table.{first?}
use recording.Database.Log.Unique.{find?-passes}
use recording.Domain.Status.{pending, transcribing}
use recording.Domain.Event.{task_claimed, info}
use recording.Database.Rows.{TaskRow, EventRow, RecordingRow, Db}
use recording.Database.Log.{IsConsistent}
use recording.Database.Log.Moved.{Moved, Says, NoError, Posted-Moved}
use recording.Ports.{TxError, commit_unknown, ClaimedExecution}

-- No time is set for a retry, or it has come.
pub data Due (now : ℕ) : Option ℕ → Type 0 where
  unset : Due now none
  reached : {at : ℕ} → at ≤ now → Due now (some at)

is_due-Due : (now : ℕ) (at : Option ℕ) → is_due now at ≡ true → Due now at
is_due-Due now none h = unset
is_due-Due now (some at) h = reached (ground arith)

-- The answer names the row `t`, its attempt, and the file of the recording `r`.
pub record Names (x : ClaimedExecution) (t : TaskRow) (r : RecordingRow) : Type 0 where
  pub task_id : x.execution_key.task_id ≡ t.id
  pub attempt : x.execution_key.attempt ≡ t.attempt
  pub recording_id : x.recording_id ≡ t.recording_id
  pub storage_path : x.storage_path ≡ r.storage_path
  pub extension : x.extension ≡ r.extension
  pub created_request_id : x.created_request_id ≡ t.created_request_id

first?-none {ℓ} : {A : Type ℓ} (xs : List A) → first? xs ≡ none → xs ≡ []
first?-none [] h = refl
first?-none (x ∷ xs) h = absurd (cc h)

module _ (env : Env) (db : Db) where
  -- The pending task `t`, due and not locked, is the row `u` now: transcribing from this time on in
  -- the same attempt, with no error and no time for a retry; `e` is the one new event, and `x` the
  -- answer.
  pub record Taken (x : ClaimedExecution) (d : Db) (t u : TaskRow) (e : EventRow) (r : RecordingRow)
      : Type 0 where
    pub moved : Moved env db d t.id t u e
    pub was : t.status ≡ pending
    pub due : Due env.now t.next_retry_at
    pub unlocked : env.skips t ≡ false
    pub candidate : first? (candidates env db.tasks) ≡ some t
    pub oldest :
        All
          (λ x. t.created_at ≤ x.created_at)
          (keep (λ x. is_claimable env.now x && not (env.skips x)) db.tasks)
    pub recording : find? (has_recording_id t.recording_id) db.recordings ≡ some r
    pub visible : r.deleting_at ≡ none
    pub answer : Names x t r
    pub status : u.status ≡ transcribing
    pub attempt : u.attempt ≡ t.attempt
    pub transcript : u.transcript ≡ t.transcript
    pub summary_json : u.summary_json ≡ t.summary_json
    pub error_code : u.error_code ≡ none
    pub error_message : u.error_message ≡ ""
    pub started_at : u.started_at ≡ some env.now
    pub finished_at : u.finished_at ≡ t.finished_at
    pub next_retry_at : u.next_retry_at ≡ none
    pub says : Says e task_claimed info t.attempt (some "transcribing")
    pub no_error : NoError e

  -- No task is pending, due and not locked, or the recording of the candidate is being deleted.
  pub data NothingToDo : Type 0 where
    none_due : keep (λ x. is_claimable env.now x && not (env.skips x)) db.tasks ≡ [] → NothingToDo
    deleting :
        (t : TaskRow) (r : RecordingRow) (at : ℕ)
        → first? (candidates env db.tasks) ≡ some t
        → find? (has_recording_id t.recording_id) db.recordings ≡ some r
        → r.deleting_at ≡ some at
        → NothingToDo

  claim_body-NothingToDo : IsConsistent db → claim_body env db ≡ stop (ok none) → NothingToDo
  unfolding claim_body
  claim_body-NothingToDo c h = elim (Option-cases (first? (candidates env db.tasks))) [
    | inl absent ↦ NothingToDo.none_due (
        order_by-empty (queue_before env)
          (keep (λ x. is_claimable env.now x && not (env.skips x)) db.tasks)
          (first?-none (candidates env db.tasks) absent))
    | inr (t, first) ↦ elim (Option-cases (find? (has_recording_id t.recording_id) db.recordings)) [
      | inl missing ↦ absurd (ground arith)
      | inr (r, stands) ↦ elim (Option-cases r.deleting_at) [
        | inr (at, marked) ↦ NothingToDo.deleting t r at first stands marked
        | inl visible ↦
            let (there, passes) = candidate_found env db t c.unique first in
            let written =
              found_affected (matches t.id t.attempt pending) t.id t db.tasks there
                (ground (arith, same_refl t.id)) in
            absurd (ground arith)
      ]
    ]
  ]

  claim_next-NothingToDo : IsConsistent db → (claim_next env db).0 ≡ ok none → NothingToDo
  unfolding claim_next
  claim_next-NothingToDo c h = elim (transact-Outcome env (claim_body env) db) [
    | undone same_db stopped ↦ claim_body-NothingToDo c (stopped none h)
    | done x d went at res ↦
        let (t, r, w) = claim_body-go env db x d c went in absurd (ground arith)
  ]

  Claimed-Taken :
      (x : Option ClaimedExecution) (d : Db) (t : TaskRow) (r : RecordingRow)
      → IsConsistent db
      → Claimed env db x d t r
      → (y : ClaimedExecution) × (x ≡ some y) × ((u : TaskRow) × (e : EventRow) × Taken y d t u e r)
  Claimed-Taken x d t r c w =
      let names : r.id ≡ t.recording_id =
        same→eq r.id t.recording_id
          (find?-passes (has_recording_id t.recording_id) db.recordings r w.recording) in
      let (there, passes) = candidate_found env db t c.unique w.candidate in
      (
        _,
        w.answer,
        (
          _,
          _,
          record {
            moved = Posted-Moved env w.posted (λ y. refl) (ground (arith, w.posted.in_status));
            was = w.posted.in_status;
            due = is_due-Due env.now t.next_retry_at (ground arith);
            unlocked = ground arith;
            candidate = w.candidate;
            oldest = candidate_oldest env db t w.candidate;
            recording = w.recording;
            visible = w.visible;
            answer = record {
              task_id = refl;
              attempt = refl;
              recording_id = names;
              storage_path = refl;
              extension = refl;
              created_request_id = refl;
            };
            status = refl;
            attempt = refl;
            transcript = refl;
            summary_json = refl;
            error_code = refl;
            error_message = refl;
            started_at = refl;
            finished_at = refl;
            next_retry_at = refl;
            says = ground arith;
            no_error = ground (arith, same_refl "");
          },
        ),
      )

  -- On a consistent database: either nothing has changed and the answer is an error, or it is no
  -- task, and then no task is pending, due and not locked, or the recording of the oldest such task
  -- is being deleted; or
  -- a pending task, due and not locked, created no later than any other such task, whose recording
  -- is not being deleted, is transcribing from this time on, in the same attempt, without an error or a time for a retry, with one
  -- `task_claimed` event, and nothing else has changed. The result is then the answer that has the
  -- task's id, attempt and request id, and the recording's id, path and extension, or it is an
  -- unknown commit.
  pub claim_next-Taken :
      IsConsistent db
      → let (res, d) = claim_next env db in
        ((d ≡ db) × (((res ≡ ok none) × NothingToDo) ⊎ ((e : TxError) × (res ≡ err e))))
        ⊎ ((x : ClaimedExecution) × ((res ≡ ok (some x)) ⊎ (res ≡ err commit_unknown))
            × ((t : TaskRow) × (u : TaskRow) × (e : EventRow) × (r : RecordingRow) × Taken x d t u e
                  r))
  claim_next-Taken c = elim (claim_next_lem env db c) [
    | inl (same_db, inl no_task) ↦ inl (same_db, inl (no_task, claim_next-NothingToDo c no_task))
    | inl (same_db, inr failure) ↦ inl (same_db, inr failure)
    | inr (x, res, (t, r, w)) ↦
        let (y, is_y, (u, e, changes)) = Claimed-Taken x _ t r c w in
        inr (y, ground arith, (t, u, e, r, changes))
  ]
