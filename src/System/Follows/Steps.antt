-- ===== src/System/Follows/Steps.antt =====
-- Every transaction moves every task forward or removes it.
use recording.Prelude.{
  ℕ, ◌+◌, ◌≡◌, inl, inr, refl, sym, subst, ◌∙◌, some-injective, String, Bool, true, false, some,
  arith, same, same→eq, Bool-cases,
}
use recording.Domain.Status.{TaskStatus}
use recording.Database.Rows.{TaskRow, EventRow, Db}
use recording.Database.Tx.{Env, matches, transact}
use recording.Database.Tx.Steps.{transact-keeps}
use recording.Database.Log.{find_task, IsConsistent}
use recording.Database.Log.Post.{Posted, find_task-id}
use recording.Domain.Summary.{Summary}
use recording.Domain.Task.{ExecutionKey}
use recording.ErrorCode.{ErrorCode}
use recording.Ports.{CreateInput}
use recording.ProcessingTx.Claim.{claim_next}
use recording.ProcessingTx.Claim.Laws.{claim_next_lem}
use recording.ProcessingTx.Save.{save_transcription}
use recording.ProcessingTx.Save.Laws.{save_transcription_lem}
use recording.ProcessingTx.Complete.{complete_task}
use recording.ProcessingTx.Complete.Laws.{complete_task_lem}
use recording.ProcessingTx.Fail.{fail_task}
use recording.ProcessingTx.Fail.Laws.{fail_task_lem}
use recording.ProcessingTx.Reset.{in_flight, reset_row, reset_in_flight}
use recording.ProcessingTx.Reset.Laws.{reset_row-id, reset_in_flight_lem}
use recording.RecordingTx.Create.{
  create_with_task, create_or_reuse_body, create_or_reuse_by_content_hash,
}
use recording.RecordingTx.Create.Laws.{create_with_task_lem, create_or_reuse_body-go, reused, fresh}
use recording.RecordingTx.Retry.{retry_task}
use recording.RecordingTx.Retry.Laws.{retry_task_lem}
use recording.RecordingTx.MarkDeleting.{Hint, mark_body, mark_with_hint}
use recording.RecordingTx.MarkDeleting.Laws.{Marked, touched, mark_body-go}
use recording.RecordingTx.{with_hash_lock}
use recording.RecordingTx.HashLock.{with_hash_lock-Locked, ensuring_hash_lock-keeps}
use recording.RecordingTx.Purge.{purge_recording}
use recording.RecordingTx.Purge.Laws.{purge_recording_lem}
use recording.System.{
  ◌⟶◌, claim, save, complete, fail, reset, create, create_or_reuse, retry, mark, purge,
}
use recording.System.Follows.{
  Follows, Became, Became-same, Became-update, Became-delete, Became-create,
}

reset_row-Follows :
    (env : Env) (interrupt : Bool) (t : TaskRow)
    → in_flight t ≡ true
    → Follows t (reset_row env interrupt t)
reset_row-Follows env true t on = ground arith
reset_row-Follows env false t on = ground arith

Became-Posted :
    {db d : Db} {k : String} {a : ℕ} {s : TaskStatus} {t : TaskRow} {f : TaskRow → TaskRow}
    {e : EventRow} (j : String) (x : TaskRow)
    → Posted db d k a s t f e
    → ((y : TaskRow) → (f y).id ≡ y.id)
    → Follows t (f t)
    → find_task j db.tasks ≡ some x
    → Became j x d.tasks
Became-Posted {db} {d} {k} {a} {s} {t} {f} j x w same_id follows there =
    subst (Became j x) (sym w.tasks) (
      Became-update (matches k a s) f j x db.tasks same_id
        (λ hit.
          let x_at : x.id ≡ k = same→eq x.id k (ground arith) in
          let at : j ≡ k = sym (find_task-id j db.tasks x there) ∙ x_at in
          let same_row : t ≡ x =
            some-injective t x (sym w.task ∙ subst (λ i. find_task i db.tasks ≡ some x) at there) in
          subst (λ y. Follows y (f y)) same_row follows)
        there)

-- The request to delete a task counts as one event and moves nothing.
touched-Follows :
    (env : Env) (t : TaskRow) (y : TaskRow) (n : ℕ)
    → t ≡ y
    → n ≡ t.event_seq + 1
    → Follows y (touched env n y)
touched-Follows env t y n e q = ground arith

after_mark_body :
    (j : String) (x : TaskRow) (env : Env) (rid : String) (h : Hint) (db : Db) (res : String × Bool)
    (d : Db)
    → find_task j db.tasks ≡ some x
    → Became j x db.tasks
    → Marked env rid h db res d
    → Became j x d.tasks
after_mark_body j x env rid h db res d there start (Marked.alone r _ _ _ _ at) =
    subst (λ (y : Db). Became j x y.tasks) (sym at) start
after_mark_body j x env rid h db res d there start (Marked.with_task r t _ _ _ found _ _ ts _) =
    subst (Became j x) (sym ts) (
      Became-update (λ y. same y.id t.id) (touched env (t.event_seq + 1)) j x db.tasks (λ y. refl)
        (λ hit.
          let at : h.task_id ≡ j =
            sym (find_task-id h.task_id db.tasks t found)
            ∙ sym (same→eq x.id t.id hit)
            ∙ find_task-id j db.tasks x there in
          let same_row : t ≡ x =
            some-injective t x
              (sym found ∙ subst (λ i. find_task i db.tasks ≡ some x) (sym at) there) in
          touched-Follows env t x (t.event_seq + 1) same_row refl)
        there)

module _ (j : String) (x : TaskRow) {db : Db} (c : IsConsistent db)
    (there : find_task j db.tasks ≡ some x) where
  unchanged : {d : Db} → d ≡ db → Became j x d.tasks
  unchanged at = subst (λ y. Became j x y.tasks) (sym at) (Became-same j x db.tasks there)

  after_claim : (env : Env) → Became j x (claim_next env db).1.tasks
  after_claim env = elim (claim_next_lem env db c) [
    | inl (same_db, _) ↦ unchanged same_db
    | inr (_, _, (t, _, w)) ↦
        Became-Posted j x w.posted (λ y. refl) (ground (arith, w.posted.in_status)) there
  ]

  after_save :
      (env : Env) (key : ExecutionKey) (text : String)
      → Became j x (save_transcription env key text db).1.tasks
  after_save env key text = elim (save_transcription_lem env key text db) [
    | inl (same_db, _) ↦ unchanged same_db
    | inr (_, (t, _, w)) ↦
        Became-Posted j x w.posted (λ y. refl) (ground (arith, w.posted.in_status)) there
  ]

  after_complete :
      (env : Env) (key : ExecutionKey) (s : Summary)
      → Became j x (complete_task env key s db).1.tasks
  after_complete env key s = elim (complete_task_lem env key s db) [
    | inl (same_db, _) ↦ unchanged same_db
    | inr (_, (t, _, w)) ↦
        Became-Posted j x w.posted (λ y. refl) (ground (arith, w.posted.in_status)) there
  ]

  after_fail :
      (env : Env) (key : ExecutionKey) (code : ErrorCode) (msg : String)
      → Became j x (fail_task env key code msg db).1.tasks
  after_fail env key code msg = elim (fail_task_lem env key code msg db) [
    | inl (same_db, _) ↦ unchanged same_db
    | inr (_, (t, _, w)) ↦
        Became-Posted j x w.posted (λ y. refl) (ground (arith, w.in_flight)) there
  ]

  after_retry : (env : Env) (task_id : String) → Became j x (retry_task env task_id db).1.tasks
  after_retry env task_id = elim (retry_task_lem env task_id db) [
    | inl (same_db, _) ↦ unchanged same_db
    | inr (_, _, (t, _, w)) ↦
        Became-Posted j x w.posted (λ y. refl) (ground (arith, w.posted.in_status)) there
  ]

  after_reset :
      (env : Env) (interrupt : Bool) → Became j x (reset_in_flight env interrupt db).1.tasks
  after_reset env interrupt = elim (reset_in_flight_lem env interrupt db) [
    | inl (same_db, _) ↦ unchanged same_db
    | inr (_, _, w) ↦ subst (Became j x) (sym w.tasks) (
        Became-update in_flight (reset_row env interrupt) j x db.tasks (reset_row-id env interrupt)
          (reset_row-Follows env interrupt x) there)
  ]

  after_purge : (env : Env) (rid : String) → Became j x (purge_recording env rid db).1.tasks
  after_purge env rid = elim (purge_recording_lem env rid db) [
    | inl (same_db, _) ↦ unchanged same_db
    | inr (_, w) ↦ subst (Became j x) (sym w.tasks) (Became-delete _ j x db.tasks c.unique there)
  ]

  after_create :
      (env : Env) (input : CreateInput) → Became j x (create_with_task env input db).1.tasks
  after_create env input = elim (create_with_task_lem env input db) [
    | inl (same_db, _) ↦ unchanged same_db
    | inr (_, w) ↦ subst (Became j x) (sym w.tasks) (Became-create _ j x db.tasks w.new_task there)
  ]

  after_create_or_reuse :
      (env : Env) (input : CreateInput)
      → Became j x (create_or_reuse_by_content_hash env input db).1.tasks
  unfolding create_or_reuse_by_content_hash
  after_create_or_reuse env input =
      let hash = input.recording.content_hash in
      let at = input.recording.created_at in
      let db0 = with_hash_lock hash at db in
      let same_tasks = (with_hash_lock-Locked hash at db).tasks in
      let start : Became j x db0.tasks =
        subst (Became j x) (sym same_tasks) (Became-same j x db.tasks there) in
      let there0 = subst (λ l. find_task j l ≡ some x) (sym same_tasks) there in
      ensuring_hash_lock-keeps (λ (d : Db). Became j x d.tasks) env hash at
        (transact env (create_or_reuse_body env input)) db (Became-same j x db.tasks there)
        (transact-keeps (λ (d : Db). Became j x d.tasks) env (create_or_reuse_body env input) db0
          start
          (λ res d h. elim (create_or_reuse_body-go env input db0 res d h) [
            | reused _ _ same_db ↦ subst (λ (y : Db). Became j x y.tasks) (sym same_db) start
            | fresh _ _ w ↦
                subst (Became j x) (sym w.tasks) (Became-create _ j x db0.tasks w.new_task there0)
          ]))

  after_mark :
      (env : Env) (rid : String) (h : Hint) → Became j x (mark_with_hint env rid h db).1.tasks
  unfolding mark_with_hint
  after_mark env rid h = elim (Bool-cases (same h.content_hash "")) [
    | inl no_row ↦ rw no_row (Became-same j x db.tasks there)
    | inr row ↦
        let db0 = with_hash_lock h.content_hash env.now db in
        let same_tasks = (with_hash_lock-Locked h.content_hash env.now db).tasks in
        let start : Became j x db0.tasks =
          subst (Became j x) (sym same_tasks) (Became-same j x db.tasks there) in
        let there0 = subst (λ l. find_task j l ≡ some x) (sym same_tasks) there in
        rw row (
          ensuring_hash_lock-keeps (λ (d : Db). Became j x d.tasks) env h.content_hash env.now
            (transact env (mark_body env rid h)) db (Became-same j x db.tasks there)
            (transact-keeps (λ (d : Db). Became j x d.tasks) env (mark_body env rid h) db0 start
              (λ res d e.
                after_mark_body j x env rid h db0 res d there0 start
                  (mark_body-go env rid h db0 res d e))))
  ]

-- One transaction moves a task forward, or removes it.
pub step-Became :
    {db d : Db} (j : String) (t : TaskRow)
    → db ⟶ d
    → IsConsistent db
    → find_task j db.tasks ≡ some t
    → Became j t d.tasks
step-Became j t (claim env db) c there = after_claim j t c there env
step-Became j t (save env key text db) c there = after_save j t c there env key text
step-Became j t (complete env key s db) c there = after_complete j t c there env key s
step-Became j t (fail env key code msg db) c there = after_fail j t c there env key code msg
step-Became j t (reset env interrupt db) c there = after_reset j t c there env interrupt
step-Became j t (create env input db f) c there = after_create j t c there env input
step-Became j t (create_or_reuse env input db f) c there =
    after_create_or_reuse j t c there env input
step-Became j t (retry env task_id db) c there = after_retry j t c there env task_id
step-Became j t (mark env rid h db hinted) c there = after_mark j t c there env rid h
step-Became j t (purge env rid db) c there = after_purge j t c there env rid
