-- ===== src/ProcessingTx/Fail/Laws.antt =====
-- What `FailTask` of processing_tx.go changes, and when.
use recording.Prelude.{
  ◌+◌, ◌≡◌, ◌≢◌, ◌⊎◌, inl, inr, true, refl, sym, subst, String, none, some, arith, find?, ok, err,
}
use recording.Domain.Status.{is_in_flight}
use recording.ErrorCode.{ErrorCode}
use recording.Domain.Task.{ExecutionKey}
use recording.Database.Rows.{TaskRow, RecordingRow, Db, to_task_event_po}
use recording.Database.Tx.{Env, go, stop, has_recording_id}
use recording.Database.Tx.Steps.{transact-keeps, transact-Outcome, undone, done}
use recording.Database.Log.{IsConsistent}
use recording.Database.Log.Post.{Extends, Posted, Posted-IsConsistent, Shape-before, attempt_before}
use recording.Ports.{commit_unknown}
use recording.ProcessingTx.Fail.{fail_body, fail_task, failed_row, failed_event}

module _ (env : Env) (key : ExecutionKey) (code : ErrorCode) (msg : String) (db : Db) where
  abbrev pub FailedTask : Db → TaskRow → Type 0
  FailedTask d t =
      Posted db d key.task_id key.attempt t.status t (failed_row env (t.event_seq + 1) t code msg)
        (to_task_event_po (failed_event env key t code msg (t.event_seq + 1)))

  -- A commit: the task under the key is in the attempt and in flight, its recording is not
  -- being deleted, and the task and its log move on.
  pub record Failed (d : Db) (t : TaskRow) (r : RecordingRow) : Type 0 where
    pub posted : FailedTask d t
    pub recording : find? (has_recording_id t.recording_id) db.recordings ≡ some r
    pub visible : r.deleting_at ≡ none
    pub in_flight : is_in_flight t.status ≡ true

  fail_body-go :
      (d : Db)
      → fail_body env key code msg db ≡ go tt d
      → (t : TaskRow) × (r : RecordingRow) × Failed d t r
  unfolding fail_body
  fail_body-go d h = ground arith

  Failed-Extends :
      {d : Db} {t : TaskRow}
      → IsConsistent db
      → FailedTask d t
      → is_in_flight t.status ≡ true
      → Extends t
          (failed_row env (t.event_seq + 1) t code msg t)
          (to_task_event_po (failed_event env key t code msg (t.event_seq + 1)))
  Failed-Extends c w flying = ground (arith, Shape-before c w, attempt_before c w)

  pub fail_task-IsConsistent : IsConsistent db → IsConsistent (fail_task env key code msg db).1
  unfolding fail_task
  fail_task-IsConsistent c =
      transact-keeps IsConsistent env (fail_body env key code msg) db c (λ a d h.
        let (t, r, w) = fail_body-go d h in
        Posted-IsConsistent c w.posted (λ x. refl) (Failed-Extends c w.posted w.in_flight))

  fail_body-not-ok : fail_body env key code msg db ≢ stop (ok tt)
  unfolding fail_body
  fail_body-not-ok h = ground arith

  -- Either nothing has changed and the result is an error, or the changes of `Failed` are there
  -- and the result is success or an unknown commit.
  pub fail_task_lem :
      let (res, d) = fail_task env key code msg db in
      ((d ≡ db) × (res ≢ ok tt))
      ⊎ (((res ≡ ok tt) ⊎ (res ≡ err commit_unknown))
          × ((t : TaskRow) × (r : RecordingRow) × Failed d t r))
  unfolding fail_task
  fail_task_lem = elim (transact-Outcome env (fail_body env key code msg) db) [
    | undone same_db stopped ↦ inl (same_db, λ h. fail_body-not-ok (stopped tt h))
    | done a d went at res ↦ inr (
      res,
      subst (λ x. (t : TaskRow) × (r : RecordingRow) × Failed x t r) (sym at) (fail_body-go d went),
    )
  ]
