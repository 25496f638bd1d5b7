-- ===== src/ProcessingTx/Complete/Effect.antt =====
-- What `CompleteTask` of processing_tx.go leaves in the tables, column by column.
use recording.Prelude.{same_refl, ◌≡◌, ◌≢◌, ◌⊎◌, inl, inr, refl, none, some, arith, find?, ok, err}
use recording.ProcessingTx.Complete.{
  marshal_summary, end, texts, arr, str, field, obj, Json, Summary, complete_task,
}
use recording.Domain.Status.{summarizing, done}
use recording.Domain.Event.{task_completed, info}
use recording.Domain.Task.{ExecutionKey}
use recording.Database.Rows.{TaskRow, EventRow, RecordingRow, Db}
use recording.Database.Tx.{Env, has_recording_id}
use recording.Database.Log.Moved.{Moved, Says, NoError, Posted-Moved}
use recording.Ports.{commit_unknown}
use recording.ProcessingTx.Complete.Laws.{Completed, complete_task_lem}

-- The JSON object of a summary.
abbrev pub summary_object : Summary → Json
summary_object s = obj (
    field "summary" (str s.summary)
      (field "key_points" (arr (texts s.key_points)) (field "todos" (arr (texts s.todos)) end)))

module _ (env : Env) (key : ExecutionKey) (s : Summary) (db : Db) where
  -- The task `t` of the key, summarizing in the attempt of the key, is the row `u` now, which is
  -- done with the JSON object of the summary, and `e` is the one new event.
  pub record Finished (d : Db) (t u : TaskRow) (e : EventRow) (r : RecordingRow) : Type 0 where
    pub moved : Moved env db d key.task_id t u e
    pub current : t.attempt ≡ key.attempt
    pub was : t.status ≡ summarizing
    pub recording : find? (has_recording_id t.recording_id) db.recordings ≡ some r
    pub visible : r.deleting_at ≡ none
    pub status : u.status ≡ done
    pub attempt : u.attempt ≡ t.attempt
    pub transcript : u.transcript ≡ t.transcript
    pub summary_json : u.summary_json ≡ some (summary_object s)
    pub error_code : u.error_code ≡ t.error_code
    pub error_message : u.error_message ≡ t.error_message
    pub started_at : u.started_at ≡ t.started_at
    pub finished_at : u.finished_at ≡ some env.now
    pub next_retry_at : u.next_retry_at ≡ t.next_retry_at
    pub says : Says e task_completed info t.attempt (some "summarizing")
    pub no_error : NoError e

  Completed-Finished :
      (d : Db) (t : TaskRow) (r : RecordingRow)
      → Completed env key s db d t r
      → (u : TaskRow) × (e : EventRow) × Finished d t u e r
  unfolding marshal_summary
  Completed-Finished d t r w = (
    _,
    _,
    record {
      moved = Posted-Moved env w.posted (λ x. refl) (ground (arith, w.posted.in_status));
      current = w.posted.current;
      was = w.posted.in_status;
      recording = w.recording;
      visible = w.visible;
      status = refl;
      attempt = refl;
      transcript = refl;
      summary_json = refl;
      error_code = refl;
      error_message = refl;
      started_at = refl;
      finished_at = refl;
      next_retry_at = refl;
      says = ground (arith, w.posted.current);
      no_error = ground (arith, same_refl "");
    },
  )

  -- Either nothing has changed and the result is no success; or the task of the key, summarizing in
  -- the attempt of the key, with a recording that is not being deleted, is done with the JSON object
  -- of the summary, finished at this time, all its other columns but the event number and the time of
  -- the update are as they were, there is one `task_completed` event, and nothing else has changed.
  -- The result is then success or an unknown commit.
  pub complete_task-Finished :
      let (res, d) = complete_task env key s db in
      ((d ≡ db) × (res ≢ ok tt))
      ⊎ (((res ≡ ok tt) ⊎ (res ≡ err commit_unknown))
          × ((t : TaskRow) × (u : TaskRow) × (e : EventRow) × (r : RecordingRow) × Finished d t u e
                r))
  complete_task-Finished = elim (complete_task_lem env key s db) [
    | inl unchanged ↦ inl unchanged
    | inr (res, (t, r, w)) ↦
        let (u, e, changes) = Completed-Finished _ t r w in inr (res, (t, u, e, r, changes))
  ]
