-- ===== src/ProcessingTx/Complete/Laws.antt =====
-- What `CompleteTask` of processing_tx.go changes, and when.
use recording.Prelude.{
  ◌+◌, ◌≡◌, ◌≢◌, ◌⊎◌, inl, inr, refl, sym, subst, none, some, arith, find?, ok, err,
}
use recording.Domain.Status.{summarizing}
use recording.Domain.Summary.{Summary}
use recording.Domain.Task.{ExecutionKey}
use recording.Database.Rows.{TaskRow, RecordingRow, Db, to_task_event_po}
use recording.Database.Tx.{Env, go, stop, has_recording_id}
use recording.Database.Tx.Steps.{transact-keeps, transact-Outcome, undone, done}
use recording.Database.Log.{IsConsistent}
use recording.Database.Log.Post.{Extends, Posted, Posted-IsConsistent, Shape-before, attempt_before}
use recording.Ports.{commit_unknown}
use recording.ProcessingTx.Complete.{complete_body, complete_task, completed_row, completed_event}

module _ (env : Env) (key : ExecutionKey) (s : Summary) (db : Db) where
  abbrev pub CompletedTask : Db → TaskRow → Type 0
  CompletedTask d t =
      Posted db d key.task_id key.attempt summarizing t (completed_row env (t.event_seq + 1) s)
        (to_task_event_po (completed_event env key t (t.event_seq + 1)))

  -- A commit: the task under the key is in the attempt and summarizing, its recording is not
  -- being deleted, and the task and its log move on.
  pub record Completed (d : Db) (t : TaskRow) (r : RecordingRow) : Type 0 where
    pub posted : CompletedTask d t
    pub recording : find? (has_recording_id t.recording_id) db.recordings ≡ some r
    pub visible : r.deleting_at ≡ none

  complete_body-go :
      (d : Db)
      → complete_body env key s db ≡ go tt d
      → (t : TaskRow) × (r : RecordingRow) × Completed d t r
  unfolding complete_body
  complete_body-go d h = ground arith

  Completed-Extends :
      {d : Db} {t : TaskRow}
      → IsConsistent db
      → CompletedTask d t
      → Extends t
          (completed_row env (t.event_seq + 1) s t)
          (to_task_event_po (completed_event env key t (t.event_seq + 1)))
  Completed-Extends c w = ground (arith, Shape-before c w, attempt_before c w)

  pub complete_task-IsConsistent : IsConsistent db → IsConsistent (complete_task env key s db).1
  unfolding complete_task
  complete_task-IsConsistent c =
      transact-keeps IsConsistent env (complete_body env key s) db c (λ a d h.
        let (t, r, w) = complete_body-go d h in
        Posted-IsConsistent c w.posted (λ x. refl) (Completed-Extends c w.posted))

  complete_body-not-ok : complete_body env key s db ≢ stop (ok tt)
  unfolding complete_body
  complete_body-not-ok h = ground arith

  -- Either nothing has changed and the result is an error, or the changes of `Completed` are there
  -- and the result is success or an unknown commit.
  pub complete_task_lem :
      let (res, d) = complete_task env key s db in
      ((d ≡ db) × (res ≢ ok tt))
      ⊎ (((res ≡ ok tt) ⊎ (res ≡ err commit_unknown))
          × ((t : TaskRow) × (r : RecordingRow) × Completed d t r))
  unfolding complete_task
  complete_task_lem = elim (transact-Outcome env (complete_body env key s) db) [
    | undone same_db stopped ↦ inl (same_db, λ h. complete_body-not-ok (stopped tt h))
    | done a d went at res ↦ inr (
      res,
      subst (λ x. (t : TaskRow) × (r : RecordingRow) × Completed x t r) (sym at)
          (complete_body-go d went),
    )
  ]
