-- ===== src/Service/Sound/Writes.antt =====
-- The writes of the workers, of a retry and of the reset leave the recordings alone.
use recording.Service.Process.Laws.{Returns-any, process-keeps}
use recording.Prelude.{◌≡◌, inl, inr, refl, ap, ◌∙◌, ℕ, String, Bool, List, Result, ok, err}
use recording.Domain.Summary.{Summary}
use recording.Domain.Task.{ExecutionKey}
use recording.ErrorCode.{ErrorCode}
use recording.Ports.{TxError}
use recording.Database.Rows.{RecordingRow, Db}
use recording.Database.Tx.{Env}
use recording.Database.Log.{IsConsistent}
use recording.ProcessingTx.Claim.{claim_next}
use recording.ProcessingTx.Claim.Laws.{claim_next_lem, claim_next-IsConsistent}
use recording.ProcessingTx.Save.{save_transcription}
use recording.ProcessingTx.Save.Laws.{save_transcription_lem, save_transcription-IsConsistent}
use recording.ProcessingTx.Complete.{complete_task}
use recording.ProcessingTx.Complete.Laws.{complete_task_lem, complete_task-IsConsistent}
use recording.ProcessingTx.Fail.{fail_task}
use recording.ProcessingTx.Fail.Laws.{fail_task_lem, fail_task-IsConsistent}
use recording.ProcessingTx.Reset.{reset_in_flight}
use recording.ProcessingTx.Reset.Laws.{reset_in_flight_lem, reset_in_flight-IsConsistent}
use recording.RecordingTx.Retry.{retry_task}
use recording.RecordingTx.Retry.Laws.{retry_task_lem, retry_task-IsConsistent}
use recording.Service.{World}
use recording.Service.Process.{Round, Processing, process}
use recording.Service.Retry.{after_retry, retry}
use recording.Service.Recover
use recording.Service.Recover.{reset}
use recording.Service.Sound.{IsSound, IsSound-same}

-- Consistent, with these recordings.
abbrev Holds : List RecordingRow → Db → Type 0
Holds rs d = IsConsistent d × (d.recordings ≡ rs)

unchanged : {d db : Db} → d ≡ db → d.recordings ≡ db.recordings
unchanged at = ap (λ (x : Db). x.recordings) at

module _ (rs : List RecordingRow) where
  claim-Holds : (env : Env) (db : Db) → Holds rs db → Holds rs (claim_next env db).1
  claim-Holds env db (c, at) = (
    claim_next-IsConsistent env db c,
    elim (claim_next_lem env db c) [
      | inl (same_db, _) ↦ unchanged same_db
      | inr (_, _, (t, _, w)) ↦ w.posted.recordings
    ]
        ∙ at,
  )

  save-Holds :
      (env : Env) (key : ExecutionKey) (text : String) (db : Db)
      → Holds rs db
      → Holds rs (save_transcription env key text db).1
  save-Holds env key text db (c, at) = (
    save_transcription-IsConsistent env key text db c,
    elim (save_transcription_lem env key text db) [
      | inl (same_db, _) ↦ unchanged same_db
      | inr (_, (t, _, w)) ↦ w.posted.recordings
    ]
        ∙ at,
  )

  complete-Holds :
      (env : Env) (key : ExecutionKey) (s : Summary) (db : Db)
      → Holds rs db
      → Holds rs (complete_task env key s db).1
  complete-Holds env key s db (c, at) = (
    complete_task-IsConsistent env key s db c,
    elim (complete_task_lem env key s db) [
      | inl (same_db, _) ↦ unchanged same_db
      | inr (_, (t, _, w)) ↦ w.posted.recordings
    ]
        ∙ at,
  )

  fail-Holds :
      (env : Env) (key : ExecutionKey) (code : ErrorCode) (msg : String) (db : Db)
      → Holds rs db
      → Holds rs (fail_task env key code msg db).1
  fail-Holds env key code msg db (c, at) = (
    fail_task-IsConsistent env key code msg db c,
    elim (fail_task_lem env key code msg db) [
      | inl (same_db, _) ↦ unchanged same_db
      | inr (_, (t, _, w)) ↦ w.posted.recordings
    ]
        ∙ at,
  )

pub IsSound-process :
    (r : Round) (s : Processing) (files : List String)
    → IsSound s.db files
    → IsSound (process r s).db files
IsSound-process r s files h =
    let (c, at) =
      process-keeps (λ x. Unit) (Holds s.db.recordings)
        (record {
          claim = claim-Holds s.db.recordings;
          save = save-Holds s.db.recordings;
          complete = λ env key x db v. complete-Holds s.db.recordings env key x db;
          fail = fail-Holds s.db.recordings;
        })
        r s (λ text. Returns-any (r.summarize text)) (h.consistent, refl) in
    IsSound-same c h at

after_retry-world :
    (task_id : String) (w : World) (out : Result TxError ℕ × Db)
    → ((after_retry task_id w out).1.db ≡ out.1) × ((after_retry task_id w out).1.files ≡ w.files)
after_retry-world task_id w (err e, db) = (refl, refl)
after_retry-world task_id w (ok n, db) = (refl, refl)

pub retry-db :
    (env : Env) (task_id : String) (w : World)
    → (retry env task_id w).1.db ≡ (retry_task env task_id w.db).1
unfolding retry
retry-db env task_id w = (after_retry-world task_id w (retry_task env task_id w.db)).0

pub IsSound-retry :
    (env : Env) (task_id : String) (w : World)
    → IsSound w.db w.files
    → IsSound (retry env task_id w).1.db (retry env task_id w).1.files
unfolding retry
IsSound-retry env task_id w h =
    let (at_db, at_files) = after_retry-world task_id w (retry_task env task_id w.db) in
    let after : IsSound (retry_task env task_id w.db).1 w.files =
      IsSound-same (retry_task-IsConsistent env task_id w.db h.consistent) h
        (elim (retry_task_lem env task_id w.db) [
          | inl (same_db, _) ↦ unchanged same_db
          | inr (_, _, (t, r, x)) ↦ x.posted.recordings
        ]) in
    rw (at_db, at_files) after

after_reset-world :
    (w : World) (out : Result TxError ℕ × Db)
    → ((Recover.after_reset w out).1.db ≡ out.1) × ((Recover.after_reset w out).1.files ≡ w.files)
after_reset-world w (err e, db) = (refl, refl)
after_reset-world w (ok n, db) = (refl, refl)

pub reset-db :
    (env : Env) (interrupt : Bool) (w : World)
    → (reset env interrupt w).1.db ≡ (reset_in_flight env interrupt w.db).1
unfolding reset
reset-db env interrupt w = (after_reset-world w (reset_in_flight env interrupt w.db)).0

pub IsSound-reset :
    (env : Env) (interrupt : Bool) (w : World)
    → IsSound w.db w.files
    → IsSound (reset env interrupt w).1.db (reset env interrupt w).1.files
unfolding reset
IsSound-reset env interrupt w h =
    let (at_db, at_files) = after_reset-world w (reset_in_flight env interrupt w.db) in
    let after : IsSound (reset_in_flight env interrupt w.db).1 w.files =
      IsSound-same (reset_in_flight-IsConsistent env interrupt w.db h.consistent) h
        (elim (reset_in_flight_lem env interrupt w.db) [
          | inl (same_db, _) ↦ unchanged same_db
          | inr (_, _, x) ↦ x.recordings
        ]) in
    rw (at_db, at_files) after
