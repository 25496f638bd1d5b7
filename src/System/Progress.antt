-- ===== src/System/Progress.antt =====
-- When the transactions succeed: a quiet server, the current key, and an unused event id.
use recording.Database.Log.Post.{found_affected, find_task-id}
use recording.Prelude.{
  ℕ, ◌+◌, ◌-◌, ◌≤◌, ◌<◌, ◌≡◌, inl, inr, refl, ◌∙◌, String, Bool, true, false, none, some, arith,
  List, [], ◌∷◌, ◌==◌, any, find?, All, same, same_refl, Bool-cases, ok,
}
use recording.Domain.Status.{TaskStatus, transcribing, summarizing, is_in_flight}
use recording.Domain.Summary.{Summary}
use recording.Domain.Task.{ExecutionKey, allocate_event_seq}
use recording.ErrorCode.{ErrorCode}
use recording.Database.Rows.{Db, TaskRow, EventRow, RecordingRow, to_task_event_po}
use recording.Database.Table.{affected}
use recording.Database.Tx.{
  Env, Stmt, acknowledged, event_clash, has_recording_id, matches, transact, begin_tx, lock_task,
  lock_recording, update_task, insert_event,
}
use recording.Database.Log.{find_task, history, Numbered, IsConsistent}
use recording.ProcessingTx.Save.{save_body, save_transcription, transcribed_event}
use recording.ProcessingTx.Complete.{complete_body, complete_task, completed_event}
use recording.ProcessingTx.Fail.{fail_body, fail_task, failed_event}

-- No statement fails and COMMIT is acknowledged.
pub record IsQuiet (env : Env) : Type 0 where
  pub runs : (s : Stmt) → env.fails s ≡ none
  pub commits : env.commit_reply ≡ acknowledged

-- `new_id` has not been used for an event.
abbrev pub is_used : String → EventRow → Bool
is_used id x = same x.event_id id

Numbered-bounded :
    (n : ℕ) (h : List EventRow) → Numbered n h → All (λ (e : EventRow). e.event_seq ≤ n) h
Numbered-bounded n [] q = tt
Numbered-bounded n (e ∷ es) q =
    (omega (arith, q.0), weaker (n - 1) n es (omega arith) (Numbered-bounded (n - 1) es q.2))
  where
    weaker :
        (a b : ℕ) (h : List EventRow)
        → a ≤ b
        → All (λ (x : EventRow). x.event_seq ≤ a) h
        → All (λ (x : EventRow). x.event_seq ≤ b) h
    weaker a b [] le all = tt
    weaker a b (x ∷ xs) le all = (omega (arith, all.0), weaker a b xs le all.1)

clash-free :
    (e : EventRow) (k : String) (n : ℕ) (es : List EventRow)
    → e.task_id ≡ k
    → n < e.event_seq
    → any (is_used e.event_id) es ≡ false
    → All (λ (x : EventRow). x.event_seq ≤ n) (history k es)
    → any (event_clash e) es ≡ false
clash-free e k n [] own above unused bounded = refl
clash-free e k n (x ∷ xs) own above unused bounded = elim (Bool-cases (same x.task_id k)) [
  | inl mine ↦
      let h = rw mine at bounded in
      ground (arith, h.0, clash-free e k n xs own above (ground arith) h.1)
  | inr other ↦ ground (arith, clash-free e k n xs own above (ground arith) (rw other at bounded))
]

-- The task `t` of the key is there, and its recording is not being deleted.
pub record IsCurrent (db : Db) (k : String) (a : ℕ) (s : TaskStatus) (t : TaskRow)
    (r : RecordingRow) : Type 0 where
  pub task : find_task k db.tasks ≡ some t
  pub attempt : t.attempt ≡ a
  pub status : t.status ≡ s
  pub recording : find? (has_recording_id t.recording_id) db.recordings ≡ some r
  pub visible : r.deleting_at ≡ none

module _ (env : Env) (quiet : IsQuiet env) (key : ExecutionKey) (db : Db) (c : IsConsistent db)
    (unused : any (is_used (env.new_id 0)) db.events ≡ false) where
  no_clash :
      (t : TaskRow) (e : EventRow)
      → find_task key.task_id db.tasks ≡ some t
      → e.task_id ≡ t.id
      → e.event_id ≡ env.new_id 0
      → e.event_seq ≡ t.event_seq + 1
      → any (event_clash e) db.events ≡ false
  no_clash t e there own id seq =
      let at = find_task-id key.task_id db.tasks t there in
      clash-free e key.task_id t.event_seq db.events (own ∙ at) (omega (arith, seq)) (rw id unused)
        (Numbered-bounded t.event_seq _ (c.logs key.task_id t there).numbered)

  hits :
      (s : TaskStatus) (t : TaskRow) (r : RecordingRow)
      → IsCurrent db key.task_id key.attempt s t r
      → (affected (matches key.task_id key.attempt s) db.tasks == 0) ≡ false
  hits s t r cur =
      found_affected (matches key.task_id key.attempt s) key.task_id t db.tasks cur.task (
        ground (
          arith,
          same_refl key.task_id,
          find_task-id key.task_id db.tasks t cur.task,
          cur.attempt,
          cur.status,
        ))

  -- On a quiet server the current execution of a transcribing task can save its transcript.
  pub save_transcription_succeeds :
      (text : String) (t : TaskRow) (r : RecordingRow)
      → IsCurrent db key.task_id key.attempt transcribing t r
      → (save_transcription env key text db).0 ≡ ok tt
  unfolding save_transcription save_body transact allocate_event_seq
  save_transcription_succeeds text t r cur = ground (
    arith,
    quiet.runs begin_tx,
    quiet.runs lock_task,
    quiet.runs lock_recording,
    quiet.runs update_task,
    quiet.runs insert_event,
    quiet.commits,
    cur.task,
    cur.attempt,
    cur.status,
    cur.recording,
    cur.visible,
    hits transcribing t r cur,
    no_clash t (to_task_event_po (transcribed_event env key t (t.event_seq + 1))) cur.task refl refl
        refl,
  )

  -- On a quiet server the current execution of a summarizing task can complete it.
  pub complete_task_succeeds :
      (s : Summary) (t : TaskRow) (r : RecordingRow)
      → IsCurrent db key.task_id key.attempt summarizing t r
      → (complete_task env key s db).0 ≡ ok tt
  unfolding complete_task complete_body transact allocate_event_seq
  complete_task_succeeds s t r cur = ground (
    arith,
    quiet.runs begin_tx,
    quiet.runs lock_task,
    quiet.runs lock_recording,
    quiet.runs update_task,
    quiet.runs insert_event,
    quiet.commits,
    cur.task,
    cur.attempt,
    cur.status,
    cur.recording,
    cur.visible,
    hits summarizing t r cur,
    no_clash t (to_task_event_po (completed_event env key t (t.event_seq + 1))) cur.task refl refl
        refl,
  )

  -- On a quiet server the current execution of a task in flight can fail it.
  pub fail_task_succeeds :
      (code : ErrorCode) (msg : String) (t : TaskRow) (r : RecordingRow)
      → IsCurrent db key.task_id key.attempt t.status t r
      → is_in_flight t.status ≡ true
      → (fail_task env key code msg db).0 ≡ ok tt
  unfolding fail_task fail_body transact allocate_event_seq
  fail_task_succeeds code msg t r cur flying = ground (
    arith,
    quiet.runs begin_tx,
    quiet.runs lock_task,
    quiet.runs lock_recording,
    quiet.runs update_task,
    quiet.runs insert_event,
    quiet.commits,
    cur.task,
    cur.attempt,
    cur.status,
    cur.recording,
    cur.visible,
    hits t.status t r cur,
    no_clash t (to_task_event_po (failed_event env key t code msg (t.event_seq + 1))) cur.task refl
        refl refl,
  )
