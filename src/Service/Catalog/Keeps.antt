-- ===== src/Service/Catalog/Keeps.antt =====
-- The transactions of the use cases and of the workers keep the catalog.
use recording.Prelude.{
  arith, ◌+◌, ◌≡◌, inl, inr, refl, sym, subst, ℕ, String, Bool, true, false, same, Bool-cases,
  Option-cases, ◌≢◌,
}
use recording.Domain.Status.{TaskStatus, done}
use recording.Domain.Summary.Parse.Laws.{IsValid}
use recording.Domain.Summary.{Summary}
use recording.Domain.Task.{ExecutionKey}
use recording.ErrorCode.{ErrorCode}
use recording.Ports.{CreateInput}
use recording.Database.Table.{update}
use recording.Database.Rows.{TaskRow, EventRow, Db}
use recording.Database.Tx.{Env, transact, find_hint}
use recording.Database.Tx.Steps.{transact-keeps}
use recording.Database.Log.{IsConsistent}
use recording.Database.Log.Post.{Posted}
use recording.ProcessingTx.Claim.{claim_next}
use recording.ProcessingTx.Claim.Laws.{claim_next_lem, claim_next-IsConsistent}
use recording.ProcessingTx.Save.{save_transcription}
use recording.ProcessingTx.Save.Laws.{save_transcription_lem, save_transcription-IsConsistent}
use recording.ProcessingTx.Complete.{complete_task}
use recording.ProcessingTx.Complete.Laws.{complete_task_lem, complete_task-IsConsistent}
use recording.ProcessingTx.Fail.{fail_target, fail_task}
use recording.ProcessingTx.Fail.Laws.{fail_task_lem, fail_task-IsConsistent}
use recording.ProcessingTx.Reset.{in_flight, reset_row, reset_in_flight}
use recording.ProcessingTx.Reset.Laws.{reset_in_flight_lem, reset_in_flight-IsConsistent}
use recording.RecordingTx.{with_hash_lock}
use recording.RecordingTx.HashLock.{with_hash_lock-Locked, ensuring_hash_lock-keeps}
use recording.RecordingTx.Retry.{retry_task}
use recording.RecordingTx.Retry.Laws.{retry_task_lem, retry_task-IsConsistent}
use recording.RecordingTx.Purge.{purge_recording}
use recording.RecordingTx.Purge.Laws.{purge_recording_lem, purge_recording-IsConsistent}
use recording.RecordingTx.Create.{create_or_reuse_body, create_or_reuse_by_content_hash}
use recording.RecordingTx.Create.Laws.{
  IsFreshInput, create_or_reuse_body-go, reused, fresh, create_or_reuse-IsConsistent,
}
use recording.RecordingTx.MarkDeleting.{Hint, hint, mark_body, mark_with_hint, mark_deleting}
use recording.RecordingTx.MarkDeleting.Laws.{
  Marked, touched, mark_body-go, mark_deleting-IsConsistent,
}
use recording.Service.Catalog.{
  Readable, IsCatalog, IsCatalog-update, IsCatalog-purge, IsCatalog-marked, IsCatalog-create,
}

abbrev pub InOrder : Db → Type 0
InOrder db = IsCatalog db.recordings db.tasks

abbrev pub Kept : Db → Type 0
Kept db = IsConsistent db × InOrder db

same_rows : (db d : Db) → d ≡ db → InOrder db → InOrder d
same_rows db d at c = subst InOrder (sym at) c

with_tasks :
    (p : TaskRow → Bool) (f : TaskRow → TaskRow) (db d : Db)
    → d.recordings ≡ db.recordings
    → d.tasks ≡ update p f db.tasks
    → ((t : TaskRow) → (f t).recording_id ≡ t.recording_id)
    → ((t : TaskRow) → Readable t → Readable (f t))
    → InOrder db
    → InOrder d
with_tasks p f db d rs ts k kr c = rw (rs, ts) (IsCatalog-update p f k kr db.recordings db.tasks c)

Posted-InOrder :
    {db d : Db} {j : String} {a : ℕ} {s : TaskStatus} {t : TaskRow} {f : TaskRow → TaskRow}
    {e : EventRow}
    → Posted db d j a s t f e
    → ((y : TaskRow) → (f y).recording_id ≡ y.recording_id)
    → ((y : TaskRow) → Readable y → Readable (f y))
    → InOrder db
    → InOrder d
Posted-InOrder {db} {d} w k kr c = with_tasks _ _ db d w.recordings w.tasks k kr c

pub claim-Kept : (env : Env) (db : Db) → Kept db → Kept (claim_next env db).1
claim-Kept env db (c, o) = (
  claim_next-IsConsistent env db c,
  elim (claim_next_lem env db c) [
    | inl (same_db, _) ↦ same_rows db _ same_db o
    | inr (_, _, (t, _, w)) ↦ Posted-InOrder w.posted (λ y. refl) (λ y h d. absurd (cc d)) o
  ],
)

pub save-Kept :
    (env : Env) (key : ExecutionKey) (text : String) (db : Db)
    → Kept db
    → Kept (save_transcription env key text db).1
save-Kept env key text db (c, o) = (
  save_transcription-IsConsistent env key text db c,
  elim (save_transcription_lem env key text db) [
    | inl (same_db, _) ↦ same_rows db _ same_db o
    | inr (_, (t, _, w)) ↦ Posted-InOrder w.posted (λ y. refl) (λ y h d. absurd (cc d)) o
  ],
)

pub complete-Kept :
    (env : Env) (key : ExecutionKey) (s : Summary) (db : Db)
    → IsValid s
    → Kept db
    → Kept (complete_task env key s db).1
complete-Kept env key s db v (c, o) = (
  complete_task-IsConsistent env key s db c,
  elim (complete_task_lem env key s db) [
    | inl (same_db, _) ↦ same_rows db _ same_db o
    | inr (_, (t, _, w)) ↦ Posted-InOrder w.posted (λ y. refl) (λ y h d. (s, refl, v)) o
  ],
)

-- A failure leads back to pending, or to failed.
fail_target-not-done : (t : TaskRow) → fail_target t ≢ done
fail_target-not-done t d = ground arith

pub fail-Kept :
    (env : Env) (key : ExecutionKey) (code : ErrorCode) (msg : String) (db : Db)
    → Kept db
    → Kept (fail_task env key code msg db).1
fail-Kept env key code msg db (c, o) = (
  fail_task-IsConsistent env key code msg db c,
  elim (fail_task_lem env key code msg db) [
    | inl (same_db, _) ↦ same_rows db _ same_db o
    | inr (_, (t, _, w)) ↦
        Posted-InOrder w.posted (λ y. refl) (λ y h d. absurd (fail_target-not-done t d)) o
  ],
)

pub retry-Kept :
    (env : Env) (task_id : String) (db : Db) → Kept db → Kept (retry_task env task_id db).1
retry-Kept env task_id db (c, o) = (
  retry_task-IsConsistent env task_id db c,
  elim (retry_task_lem env task_id db) [
    | inl (same_db, _) ↦ same_rows db _ same_db o
    | inr (_, _, (t, r, w)) ↦ Posted-InOrder w.posted (λ y. refl) (λ y h d. absurd (cc d)) o
  ],
)

reset_row-recording_id :
    (env : Env) (interrupt : Bool) (t : TaskRow)
    → (reset_row env interrupt t).recording_id ≡ t.recording_id
reset_row-recording_id env true t = refl
reset_row-recording_id env false t = refl

reset_row-Readable :
    (env : Env) (interrupt : Bool) (t : TaskRow) → Readable t → Readable (reset_row env interrupt t)
reset_row-Readable env true t h d = absurd (cc d)
reset_row-Readable env false t h d = absurd (cc d)

pub reset-Kept :
    (env : Env) (interrupt : Bool) (db : Db) → Kept db → Kept (reset_in_flight env interrupt db).1
reset-Kept env interrupt db (c, o) = (
  reset_in_flight-IsConsistent env interrupt db c,
  elim (reset_in_flight_lem env interrupt db) [
    | inl (same_db, _) ↦ same_rows db _ same_db o
    | inr (_, _, w) ↦
        with_tasks in_flight (reset_row env interrupt) db (reset_in_flight env interrupt db).1
          w.recordings w.tasks (reset_row-recording_id env interrupt)
          (reset_row-Readable env interrupt) o
  ],
)

pub purge-Kept : (env : Env) (id : String) (db : Db) → Kept db → Kept (purge_recording env id db).1
purge-Kept env id db (c, o) = (
  purge_recording-IsConsistent env id db c,
  elim (purge_recording_lem env id db) [
    | inl (same_db, _) ↦ same_rows db _ same_db o
    | inr (_, w) ↦ rw (w.recordings, w.tasks) (IsCatalog-purge id db.recordings db.tasks o)
  ],
)

Marked-InOrder :
    (env : Env) (id : String) (h : Hint) (db : Db) (res : String × Bool) (d : Db)
    → InOrder db
    → Marked env id h db res d
    → InOrder d
Marked-InOrder env id h db res d o (Marked.alone r _ _ _ _ at) =
    subst InOrder (sym at) (IsCatalog-marked _ env db.recordings db.tasks o)
Marked-InOrder env id h db res d o (Marked.with_task r t _ _ _ _ _ rs ts _) =
    rw (rs, ts)
      (IsCatalog-marked _ env db.recordings _ (
        IsCatalog-update _ (touched env (t.event_seq + 1)) (λ y. refl) (λ y k. k) db.recordings
          db.tasks o))

-- The lock of a content leaves recordings and tasks alone.
locked : (hash : String) (at : ℕ) (db : Db) → InOrder db → InOrder (with_hash_lock hash at db)
locked hash at db o = let w = with_hash_lock-Locked hash at db in rw (w.recordings, w.tasks) o

mark_with_hint-InOrder :
    (env : Env) (id : String) (h : Hint) (db : Db)
    → InOrder db
    → InOrder (mark_with_hint env id h db).1
unfolding mark_with_hint
mark_with_hint-InOrder env id h db o = elim (Bool-cases (same h.content_hash "")) [
  | inl no_row ↦ rw no_row o
  | inr row ↦
      let d0 = with_hash_lock h.content_hash env.now db in
      let o0 = locked h.content_hash env.now db o in
      rw row (
        ensuring_hash_lock-keeps InOrder env h.content_hash env.now
          (transact env (mark_body env id h)) db o
          (transact-keeps InOrder env (mark_body env id h) d0 o0
            (λ res d e. Marked-InOrder env id h d0 res d o0 (mark_body-go env id h d0 res d e))))
]

pub mark-Kept : (env : Env) (id : String) (db : Db) → Kept db → Kept (mark_deleting env id db).1
unfolding mark_deleting
mark-Kept env id db (c, o) = (
  mark_deleting-IsConsistent env id db c,
  elim (Option-cases (env.fails find_hint)) [
    | inl ran ↦ rw (ran, mark_deleting) (mark_with_hint-InOrder env id (hint id db) db o)
    | inr (e, broken) ↦ rw (broken, mark_deleting) o
  ],
)

pub create-Kept :
    (env : Env) (input : CreateInput) (db : Db)
    → IsFreshInput input
    → same input.recording.id "" ≡ false
    → Kept db
    → Kept (create_or_reuse_by_content_hash env input db).1
unfolding create_or_reuse_by_content_hash
create-Kept env input db f named (c, o) =
    let hash = input.recording.content_hash in
    let at = input.recording.created_at in
    let d0 = with_hash_lock hash at db in
    let o0 = locked hash at db o in
    (
      create_or_reuse-IsConsistent env input db f c,
      ensuring_hash_lock-keeps InOrder env hash at (transact env (create_or_reuse_body env input))
          db o
          (transact-keeps InOrder env (create_or_reuse_body env input) d0 o0 (λ res d h.
            elim (create_or_reuse_body-go env input d0 res d h) [
              | reused _ _ same_db ↦ same_rows d0 d same_db o0
              | fresh none_there _ w ↦
                  rw (w.recordings, w.tasks)
                    (IsCatalog-create env hash d0 _ _ refl f.recording f.status named none_there o0)
            ])),
    )
