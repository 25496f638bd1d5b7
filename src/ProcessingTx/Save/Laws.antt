-- ===== src/ProcessingTx/Save/Laws.antt =====
-- What `SaveTranscription` of processing_tx.go changes, and when.
use recording.Prelude.{
  ◌+◌, ◌≡◌, ◌≢◌, ◌⊎◌, inl, inr, refl, sym, subst, String, none, some, arith, find?, ok, err,
}
use recording.Domain.Status.{transcribing}
use recording.Domain.Task.{ExecutionKey}
use recording.Database.Rows.{TaskRow, RecordingRow, Db, to_task_event_po}
use recording.Database.Tx.{Env, go, stop, has_recording_id}
use recording.Database.Tx.Steps.{transact-keeps, transact-Outcome, undone, done}
use recording.Database.Log.{IsConsistent}
use recording.Database.Log.Post.{Extends, Posted, Posted-IsConsistent, Shape-before, attempt_before}
use recording.Ports.{commit_unknown}
use recording.ProcessingTx.Save.{save_body, save_transcription, transcribed_row, transcribed_event}

module _ (env : Env) (key : ExecutionKey) (transcript : String) (db : Db) where
  abbrev pub SavedTask : Db → TaskRow → Type 0
  SavedTask d t =
      Posted db d key.task_id key.attempt transcribing t
        (transcribed_row env (t.event_seq + 1) transcript)
        (to_task_event_po (transcribed_event env key t (t.event_seq + 1)))

  -- A commit: the task under the key is in the attempt and transcribing, its recording is not
  -- being deleted, and the task and its log move on.
  pub record Saved (d : Db) (t : TaskRow) (r : RecordingRow) : Type 0 where
    pub posted : SavedTask d t
    pub recording : find? (has_recording_id t.recording_id) db.recordings ≡ some r
    pub visible : r.deleting_at ≡ none

  save_body-go :
      (d : Db)
      → save_body env key transcript db ≡ go tt d
      → (t : TaskRow) × (r : RecordingRow) × Saved d t r
  unfolding save_body
  save_body-go d h = ground arith

  Saved-Extends :
      {d : Db} {t : TaskRow}
      → IsConsistent db
      → SavedTask d t
      → Extends t
          (transcribed_row env (t.event_seq + 1) transcript t)
          (to_task_event_po (transcribed_event env key t (t.event_seq + 1)))
  Saved-Extends c w = ground (arith, Shape-before c w, attempt_before c w)

  pub save_transcription-IsConsistent :
      IsConsistent db → IsConsistent (save_transcription env key transcript db).1
  unfolding save_transcription
  save_transcription-IsConsistent c =
      transact-keeps IsConsistent env (save_body env key transcript) db c (λ a d h.
        let (t, r, w) = save_body-go d h in
        Posted-IsConsistent c w.posted (λ x. refl) (Saved-Extends c w.posted))

  save_body-not-ok : save_body env key transcript db ≢ stop (ok tt)
  unfolding save_body
  save_body-not-ok h = ground arith

  -- Either nothing has changed and the result is an error, or the changes of `Saved` are there
  -- and the result is success or an unknown commit.
  pub save_transcription_lem :
      let (res, d) = save_transcription env key transcript db in
      ((d ≡ db) × (res ≢ ok tt))
      ⊎ (((res ≡ ok tt) ⊎ (res ≡ err commit_unknown))
          × ((t : TaskRow) × (r : RecordingRow) × Saved d t r))
  unfolding save_transcription
  save_transcription_lem = elim (transact-Outcome env (save_body env key transcript) db) [
    | undone same_db stopped ↦ inl (same_db, λ h. save_body-not-ok (stopped tt h))
    | done a d went at res ↦ inr (
      res,
      subst (λ x. (t : TaskRow) × (r : RecordingRow) × Saved x t r) (sym at) (save_body-go d went),
    )
  ]
