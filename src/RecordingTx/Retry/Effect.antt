-- ===== src/RecordingTx/Retry/Effect.antt =====
-- What `RetryTask` of recording_tx.go leaves in the tables, column by column.
use recording.Prelude.{
  same_refl, ◌≡◌, ◌+◌, ◌⊎◌, inl, inr, refl, ℕ, String, none, some, arith, find?, ok, err,
}
use recording.Domain.Status.{pending, failed}
use recording.Domain.Event.{task_retry_accepted, info}
use recording.Database.Rows.{TaskRow, EventRow, RecordingRow, Db}
use recording.Database.Tx.{Env, has_recording_id}
use recording.Database.Log.Moved.{Moved, Says, NoError, Posted-Moved}
use recording.Ports.{TxError, commit_unknown}
use recording.RecordingTx.Retry.{retry_task}
use recording.RecordingTx.Retry.Laws.{Retried, retry_task_lem}

module _ (env : Env) (task_id : String) (db : Db) where
  -- The failed task `t` is the row `u` now: pending in the next attempt, with no trace of the last
  -- one, and `e` is the one new event. The answer `a` is the new attempt.
  pub record Renewed (a : ℕ) (d : Db) (t u : TaskRow) (e : EventRow) (r : RecordingRow)
      : Type 0 where
    pub moved : Moved env db d task_id t u e
    pub was : t.status ≡ failed
    pub recording : find? (has_recording_id t.recording_id) db.recordings ≡ some r
    pub visible : r.deleting_at ≡ none
    pub answer : a ≡ t.attempt + 1
    pub status : u.status ≡ pending
    pub attempt : u.attempt ≡ t.attempt + 1
    pub transcript : u.transcript ≡ ""
    pub summary_json : u.summary_json ≡ none
    pub error_code : u.error_code ≡ none
    pub error_message : u.error_message ≡ ""
    pub started_at : u.started_at ≡ none
    pub finished_at : u.finished_at ≡ none
    pub next_retry_at : u.next_retry_at ≡ none
    pub says : Says e task_retry_accepted info (t.attempt + 1) none
    pub no_error : NoError e

  Retried-Renewed :
      (a : ℕ) (d : Db) (t : TaskRow) (r : RecordingRow)
      → Retried env task_id db a d t r
      → (u : TaskRow) × (e : EventRow) × Renewed a d t u e r
  Retried-Renewed a d t r w = (
    _,
    _,
    record {
      moved = Posted-Moved env w.posted (λ x. refl) (ground (arith, w.posted.in_status));
      was = w.posted.in_status;
      recording = w.recording;
      visible = w.visible;
      answer = w.next;
      status = refl;
      attempt = refl;
      transcript = refl;
      summary_json = refl;
      error_code = refl;
      error_message = refl;
      started_at = refl;
      finished_at = refl;
      next_retry_at = refl;
      says = ground arith;
      no_error = ground (arith, same_refl "");
    },
  )

  -- Either nothing has changed and the result is an error; or the task, which has failed and whose
  -- recording is not being deleted, is pending in the next attempt, without a transcript, summary,
  -- error, start, end or time for a retry, there is one `task_retry_accepted` event of the new
  -- attempt, and nothing else has changed. The result is then the new attempt or an unknown commit.
  pub retry_task-Renewed :
      let (res, d) = retry_task env task_id db in
      ((d ≡ db) × ((x : TxError) × (res ≡ err x)))
      ⊎ ((a : ℕ) × ((res ≡ ok a) ⊎ (res ≡ err commit_unknown))
          × ((t : TaskRow) × (u : TaskRow) × (e : EventRow) × (r : RecordingRow) × Renewed a d t u e
                r))
  retry_task-Renewed = elim (retry_task_lem env task_id db) [
    | inl unchanged ↦ inl unchanged
    | inr (a, res, (t, r, w)) ↦
        let (u, e, changes) = Retried-Renewed a _ t r w in inr (a, res, (t, u, e, r, changes))
  ]
