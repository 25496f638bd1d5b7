-- ===== src/Service/Process.antt =====
-- `ProcessService.Process` of internal/application/processing/process.go: one round of a worker.
pub mod Laws
use Prim.Native.String.{len, slice, ◌++◌ as text_append}
use text.Mathlib.Text.{is_char_boundary}
use recording.Prelude.{
  ℕ, zero, suc, String, Bool, true, false, ◌||◌, not, List, ◌∷◌, [], Option, none, some, ◌==◌, leb,
  same, keep, Result, ok, err, if◌then◌else◌, ◌&&◌,
}
use recording.Domain.Status.{TaskStatus, transcribing, is_status}
use recording.Domain.Summary.{Summary}
use recording.Domain.Task.{ExecutionKey}
use recording.ErrorCode.{
  ErrorCode, asr_failed, llm_timeout, llm_invalid_output, llm_upstream_error, internal_error,
}
use recording.Database.Rows.{Db}
use recording.Database.Tx.{Env, is_some}
use recording.Ports.{DriverError, TxError, ClaimedExecution, TaskView}
use recording.ProcessingTx.Claim.{claim_next}
use recording.ProcessingTx.Save.{save_transcription}
use recording.ProcessingTx.Complete.{complete_task}
use recording.ProcessingTx.Fail.{fail_task}
use recording.Query.{get_task}
use recording.CancelTable.{CancelTable, register, unregister}
use recording.Service.Persist.{WaitEnd, Persisted, persist}

-- What a call of the transcriber or the summarizer does: it returns, with an error that is the
-- context's cancellation or has a kind and a text, or it panics with a text.
pub data CallError : Type 0 where
  call_canceled : CallError
  llm_timed_out llm_upstream llm_invalid call_failed : String → CallError

pub data Call (A : Type 0) : Type 0 where
  returned : A → Call A
  failed_with : CallError → Call A
  panicked : String → Call A

abbrev pub error_text : CallError → String
error_text call_canceled = "context canceled"
error_text (llm_timed_out m) = m
error_text (llm_upstream m) = m
error_text (llm_invalid m) = m
error_text (call_failed m) = m

abbrev pub llm_error_code : CallError → ErrorCode
llm_error_code (llm_timed_out m) = llm_timeout
llm_error_code (llm_invalid m) = llm_invalid_output
llm_error_code _ = llm_upstream_error

-- The loop of `truncateMessage`: back to the last byte that starts a character.
unfoldable pub cut_back : String → ℕ → ℕ
cut_back msg zero = 0
cut_back msg (suc n) =
    let rest = cut_back msg n in if is_char_boundary msg (suc n) then suc n else rest

unfoldable pub truncate_message : String → String
unfolding cut_back
truncate_message msg =
    if leb (len msg) 500 then msg else text_append (slice msg 0 (cut_back msg 500)) "…"

-- What the world answers during one round, whose context `taskCtx` has a number. The three writes, of which two can happen, have their
-- own environments by the round of `persist`.
pub record Round : Type 0 where
  pub task_ctx : ℕ
  pub claim : Env
  pub check : Env
  pub first : ℕ → Env
  pub second : ℕ → Env
  pub panic : Env
  pub first_waits : WaitEnd × WaitEnd
  pub second_waits : WaitEnd × WaitEnd
  pub first_ctx : Option DriverError
  pub second_ctx : Option DriverError
  pub run_ctx : Option DriverError
  pub transcribe : String → Call String
  pub summarize : String → Call Summary

-- The state of the service and the cancel table, whose functions are named by their contexts.
pub record Processing : Type 0 where
  pub db : Db
  pub halted : Bool
  pub table : CancelTable ℕ

abbrev pub persisted : Processing → Persisted → Processing
persisted s p = record s { db = p.db; halted = s.halted || p.halts }

abbrev pub persist_first : Round → (Env → Db → Result TxError (Unit {0}) × Db) → Db → Persisted
persist_first r op db = persist (λ i. op (r.first i)) r.first_ctx r.first_waits.0 r.first_waits.1 db

abbrev pub persist_second : Round → (Env → Db → Result TxError (Unit {0}) × Db) → Db → Persisted
persist_second r op db =
    persist (λ i. op (r.second i)) r.second_ctx r.second_waits.0 r.second_waits.1 db

-- `failTask` in the place of the first and of the second write.
abbrev pub fail_first : Round → ExecutionKey → ErrorCode → CallError → Processing → Processing
fail_first r key code e s =
    persisted s
      (persist_first r (λ env. fail_task env key code (truncate_message (error_text e))) s.db)

abbrev pub fail_second : Round → ExecutionKey → ErrorCode → CallError → Processing → Processing
fail_second r key code e s =
    persisted s
      (persist_second r (λ env. fail_task env key code (truncate_message (error_text e))) s.db)

-- `recoverRound`: one write without a second try, unless the service is being stopped.
abbrev pub recover_round : Round → ExecutionKey → String → Processing → Processing
recover_round r key msg s = if is_some r.run_ctx then s else record s {
  db = (fail_task r.panic key internal_error (truncate_message (text_append "panic: " msg)) s.db).1;
}

abbrev pub after_summary : Round → ExecutionKey → Call Summary → Processing → Processing
after_summary r key (failed_with call_canceled) s = s
after_summary r key (failed_with e) s = fail_second r key (llm_error_code e) e s
after_summary r key (panicked msg) s = recover_round r key msg s
after_summary r key (returned summary) s =
    persisted s (persist_second r (λ env. complete_task env key summary) s.db)

abbrev pub after_saved : Round → ExecutionKey → String → Processing → Persisted → Processing
after_saved r key transcript s p = elim p.result [
  | err e ↦ persisted s p
  | ok _ ↦ after_summary r key (r.summarize transcript) (persisted s p)
]

abbrev pub after_transcript : Round → ExecutionKey → Call String → Processing → Processing
after_transcript r key (failed_with call_canceled) s = s
after_transcript r key (failed_with e) s = fail_first r key asr_failed e s
after_transcript r key (panicked msg) s = recover_round r key msg s
after_transcript r key (returned transcript) s =
    after_saved r key transcript s
      (persist_first r (λ env. save_transcription env key transcript) s.db)

-- The task is looked at again before the calls outside.
abbrev pub is_still_mine : ExecutionKey → Result TxError TaskView → Bool
is_still_mine key (err e) = false
is_still_mine key (ok view) = view.attempt == key.attempt && is_status view.status transcribing

-- The work between the registration of the key and the end of the round.
unfoldable pub execute : Round → ExecutionKey → Processing → Processing
unfolding truncate_message
execute r key s =
    if is_still_mine key (get_task r.check key.task_id s.db)
    then after_transcript r key (r.transcribe key.task_id) s
    else s

abbrev pub after_claim :
    Round → Processing → Result TxError (Option ClaimedExecution) × Db → Processing
after_claim r s (err e, db) = record s { db = db }
after_claim r s (ok none, db) = record s { db = db }
after_claim r s (ok (some claimed), db) =
    let key = claimed.execution_key in
    let done = execute r key (record s { db = db; table = register key r.task_ctx s.table }) in
    record done { table = unregister key done.table }

unfoldable pub process : Round → Processing → Processing
unfolding execute
process r s = if s.halted then s else after_claim r s (claim_next r.claim s.db)
