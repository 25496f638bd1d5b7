-- ===== src/ProcessingTx/Save/Effect.antt =====
-- What `SaveTranscription` of processing_tx.go leaves in the tables, column by column.
use recording.Prelude.{
  same_refl, ◌≡◌, ◌≢◌, ◌⊎◌, inl, inr, refl, String, none, some, arith, find?, ok, err,
}
use recording.Domain.Status.{transcribing, summarizing}
use recording.Domain.Event.{transcription_completed, info}
use recording.Domain.Task.{ExecutionKey}
use recording.Database.Rows.{TaskRow, EventRow, RecordingRow, Db}
use recording.Database.Tx.{Env, has_recording_id}
use recording.Database.Log.Moved.{Moved, Says, NoError, Posted-Moved}
use recording.Ports.{commit_unknown}
use recording.ProcessingTx.Save.{save_transcription}
use recording.ProcessingTx.Save.Laws.{Saved, save_transcription_lem}

module _ (env : Env) (key : ExecutionKey) (text : String) (db : Db) where
  -- The task `t` of the key, transcribing in the attempt of the key, is the row `u` now, which is
  -- summarizing with the transcript, and `e` is the one new event.
  pub record Transcribed (d : Db) (t u : TaskRow) (e : EventRow) (r : RecordingRow) : Type 0 where
    pub moved : Moved env db d key.task_id t u e
    pub current : t.attempt ≡ key.attempt
    pub was : t.status ≡ transcribing
    pub recording : find? (has_recording_id t.recording_id) db.recordings ≡ some r
    pub visible : r.deleting_at ≡ none
    pub status : u.status ≡ summarizing
    pub attempt : u.attempt ≡ t.attempt
    pub transcript : u.transcript ≡ text
    pub summary_json : u.summary_json ≡ t.summary_json
    pub error_code : u.error_code ≡ t.error_code
    pub error_message : u.error_message ≡ t.error_message
    pub started_at : u.started_at ≡ t.started_at
    pub finished_at : u.finished_at ≡ t.finished_at
    pub next_retry_at : u.next_retry_at ≡ t.next_retry_at
    pub says : Says e transcription_completed info t.attempt (some "transcribing")
    pub no_error : NoError e

  Saved-Transcribed :
      (d : Db) (t : TaskRow) (r : RecordingRow)
      → Saved env key text db d t r
      → (u : TaskRow) × (e : EventRow) × Transcribed d t u e r
  Saved-Transcribed d t r w = (
    _,
    _,
    record {
      moved = Posted-Moved env w.posted (λ x. refl) (ground (arith, w.posted.in_status));
      current = w.posted.current;
      was = w.posted.in_status;
      recording = w.recording;
      visible = w.visible;
      status = refl;
      attempt = refl;
      transcript = refl;
      summary_json = refl;
      error_code = refl;
      error_message = refl;
      started_at = refl;
      finished_at = refl;
      next_retry_at = refl;
      says = ground (arith, w.posted.current);
      no_error = ground (arith, same_refl "");
    },
  )

  -- Either nothing has changed and the result is no success; or the task of the key, transcribing in
  -- the attempt of the key, with a recording that is not being deleted, is summarizing with the
  -- transcript, all its other columns but the event number and the time of the update are as they
  -- were, there is one `transcription_completed` event, and nothing else has changed. The result is
  -- then success or an unknown commit.
  pub save_transcription-Transcribed :
      let (res, d) = save_transcription env key text db in
      ((d ≡ db) × (res ≢ ok tt))
      ⊎ (((res ≡ ok tt) ⊎ (res ≡ err commit_unknown))
          × ((t : TaskRow) × (u : TaskRow) × (e : EventRow) × (r : RecordingRow) × Transcribed d t u
                e r))
  save_transcription-Transcribed = elim (save_transcription_lem env key text db) [
    | inl unchanged ↦ inl unchanged
    | inr (res, (t, r, w)) ↦
        let (u, e, changes) = Saved-Transcribed _ t r w in inr (res, (t, u, e, r, changes))
  ]
