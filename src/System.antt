-- ===== src/System.antt =====
-- The database under all transactions of the adapters, in any order, each with its own answers of
-- the server: failed statements, lost commits, other transactions' row locks.
pub mod Follows
pub mod Fencing
pub mod Progress
use recording.Prelude.{ℕ, String, Bool, refl}
use recording.Domain.Summary.{Summary}
use recording.Domain.Task.{ExecutionKey}
use recording.ErrorCode.{ErrorCode}
use recording.Ports.{CreateInput}
use recording.Database.Rows.{Db, empty}
use recording.Database.Tx.{Env}
use recording.Database.Log.{IsConsistent}
use recording.ProcessingTx.Claim.{claim_next}
use recording.ProcessingTx.Save.{save_transcription}
use recording.ProcessingTx.Complete.{complete_task}
use recording.ProcessingTx.Fail.{fail_task}
use recording.ProcessingTx.Reset.{reset_in_flight}
use recording.ProcessingTx.Claim.Laws.{claim_next-IsConsistent}
use recording.ProcessingTx.Save.Laws.{save_transcription-IsConsistent}
use recording.ProcessingTx.Complete.Laws.{complete_task-IsConsistent}
use recording.ProcessingTx.Fail.Laws.{fail_task-IsConsistent}
use recording.ProcessingTx.Reset.Laws.{reset_in_flight-IsConsistent}
use recording.RecordingTx.Create.{create_with_task, create_or_reuse_by_content_hash}
use recording.RecordingTx.Create.Laws.{
  IsFreshInput, create_with_task-IsConsistent, create_or_reuse-IsConsistent,
}
use recording.RecordingTx.Retry.{retry_task}
use recording.RecordingTx.Retry.Laws.{retry_task-IsConsistent}
use recording.RecordingTx.MarkDeleting.{Hint, mark_with_hint}
use recording.RecordingTx.MarkDeleting.Laws.{IsHintFor, mark_with_hint-IsConsistent}
use recording.RecordingTx.Purge.{purge_recording}
use recording.RecordingTx.Purge.Laws.{purge_recording-IsConsistent}

infix 40 ◌⟶◌ ◌⟶*◌
-- One transaction. A creation inserts what an upload builds; a hint of `MarkDeleting` may be old,
-- as long as it names no task of another recording.
pub data ◌⟶◌ : Db → Db → Type 0 where
  claim : (env : Env) (db : Db) → db ⟶ (claim_next env db).1
  save :
      (env : Env) (key : ExecutionKey) (transcript : String) (db : Db)
      → db ⟶ (save_transcription env key transcript db).1
  complete :
      (env : Env) (key : ExecutionKey) (s : Summary) (db : Db) → db ⟶ (complete_task env key s db).1
  fail :
      (env : Env) (key : ExecutionKey) (code : ErrorCode) (msg : String) (db : Db)
      → db ⟶ (fail_task env key code msg db).1
  reset : (env : Env) (interrupt : Bool) (db : Db) → db ⟶ (reset_in_flight env interrupt db).1
  create :
      (env : Env) (input : CreateInput) (db : Db)
      → IsFreshInput input
      → db ⟶ (create_with_task env input db).1
  create_or_reuse :
      (env : Env) (input : CreateInput) (db : Db)
      → IsFreshInput input
      → db ⟶ (create_or_reuse_by_content_hash env input db).1
  retry : (env : Env) (task_id : String) (db : Db) → db ⟶ (retry_task env task_id db).1
  mark :
      (env : Env) (recording_id : String) (h : Hint) (db : Db)
      → IsHintFor env recording_id h db
      → db ⟶ (mark_with_hint env recording_id h db).1
  purge :
      (env : Env) (recording_id : String) (db : Db) → db ⟶ (purge_recording env recording_id db).1

pub data ◌⟶*◌ : Db → Db → Type 0 where
  here : {db : Db} → db ⟶* db
  step : {a c : Db} (b : Db) → a ⟶ b → b ⟶* c → a ⟶* c

pub step-IsConsistent : {db d : Db} → db ⟶ d → IsConsistent db → IsConsistent d
step-IsConsistent (claim env db) c = claim_next-IsConsistent env db c
step-IsConsistent (save env key x db) c = save_transcription-IsConsistent env key x db c
step-IsConsistent (complete env key s db) c = complete_task-IsConsistent env key s db c
step-IsConsistent (fail env key code msg db) c = fail_task-IsConsistent env key code msg db c
step-IsConsistent (reset env interrupt db) c = reset_in_flight-IsConsistent env interrupt db c
step-IsConsistent (create env input db f) c = create_with_task-IsConsistent env input db f c
step-IsConsistent (create_or_reuse env input db f) c = create_or_reuse-IsConsistent env input db f c
step-IsConsistent (retry env task_id db) c = retry_task-IsConsistent env task_id db c
step-IsConsistent (mark env rid h db hinted) c = mark_with_hint-IsConsistent env rid h db hinted c
step-IsConsistent (purge env rid db) c = purge_recording-IsConsistent env rid db c

steps-IsConsistent : {db d : Db} → db ⟶* d → IsConsistent db → IsConsistent d
steps-IsConsistent here c = c
steps-IsConsistent (step b s rest) c = steps-IsConsistent rest (step-IsConsistent s c)

pub empty-IsConsistent : IsConsistent empty
empty-IsConsistent = record { logs = λ j t h. cc; fresh = λ j h. refl; unique = tt }

-- Every database that the transactions reach from an empty one is consistent: each task's events
-- are numbered 1, 2, …, event_seq without gaps, their statuses form a chain of allowed edges from
-- the creation to the task's status, they carry its recording, the row has the shape of its status,
-- the attempt is positive and at most the number of events; a task id without a row has no events.
pub reachable-IsConsistent : {db : Db} → empty ⟶* db → IsConsistent db
reachable-IsConsistent steps = steps-IsConsistent steps empty-IsConsistent
