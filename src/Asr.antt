-- ===== src/Asr.antt =====
-- internal/infrastructure/asr/mock: the two stand-ins for the transcriber. `hash/fnv` is the argument
-- `seed`, and the end of the context an answer of the world.
pub mod Laws
use Prim.Native.String.{◌++◌ as text_append}
use recording.Prelude.{
  ℕ, ◌+◌, ◌*◌, ◌%◌, String, Bool, true, false, ◌&&◌, not, List, [], ◌∷◌, Option, none, some, any,
  ◌==◌, ltb, same, if◌then◌else◌,
}
use recording.Decimal.{print}
use recording.Service.Process.{Call, CallError, returned, failed_with, call_canceled, call_failed}

-- When the context is cancelled, in nanoseconds from the call, if it is; `timer_first` is the choice of
-- the `select` where both of its channels are ready.
pub record Ctx : Type 0 where
  pub done_at : Option ℕ
  pub timer_first : Bool

-- The wait before a transcription: the context's error, if it ends first.
abbrev pub ended : Ctx → ℕ → ℕ → Option CallError
ended ctx d t =
    if d == 0
    then (if t == 0 then some call_canceled else none)
    else if ltb t d
    then some call_canceled
    else if t == d && not ctx.timer_first
    then some call_canceled
    else none

unfoldable pub wait : Ctx → ℕ → Option CallError
wait ctx d = elim ctx.done_at [ none ↦ none | some t ↦ ended ctx d t ]

abbrev pub waited {ℓ} : {A : Type ℓ} → Option CallError → (CallError → A) → A → A
waited none broken rest = rest
waited (some e) broken rest = broken e

abbrev pub seed_text : (String → ℕ) → String → String
seed_text seed task_id =
    text_append "[mock-asr] transcript for task "
      (text_append task_id (text_append " (seed=" (text_append (print (seed task_id)) ")")))

abbrev pub transcription_failed : String → Call String
transcription_failed task_id =
    failed_with (call_failed (text_append "mock transcription failed: task " task_id))

-- Five seconds, and tenths of a second by the seed.
unfoldable pub delay_of : ℕ → ℕ
delay_of h = 5000000000 + (h % 100) * 100000000

unfoldable pub transcribe : (String → ℕ) → Ctx → String → Call String
unfolding wait delay_of
transcribe seed ctx task_id =
    let h = seed task_id in
    waited (wait ctx (delay_of h)) failed_with
      (if h % 5 == 0 then transcription_failed task_id else returned (seed_text seed task_id))

-- The stand-in of the tests, with the tasks whose first call has failed.
pub record DeterministicTranscriber : Type 0 where
  pub delay : ℕ
  pub fail : Bool
  pub fail_first : Bool
  pub failed_once : List String

abbrev pub has_failed : String → DeterministicTranscriber → Bool
has_failed task_id d = any (λ id. same id task_id) d.failed_once

unfoldable pub fail_first_now : String → DeterministicTranscriber → Bool × DeterministicTranscriber
fail_first_now task_id d =
    if not d.fail_first
    then (false, d)
    else if has_failed task_id d
    then (false, d)
    else (true, record d { failed_once = task_id ∷ d.failed_once })

abbrev pub after_first :
    (String → ℕ) → String → Bool × DeterministicTranscriber → Call String × DeterministicTranscriber
after_first seed task_id (now, d) = (
  (if now
      then transcription_failed task_id
      else if d.fail && (seed task_id % 5 == 0)
      then transcription_failed task_id
      else returned (seed_text seed task_id)),
  d,
)

unfoldable pub transcribe_deterministic :
    (String → ℕ) → Ctx → String → DeterministicTranscriber → Call String × DeterministicTranscriber
unfolding wait fail_first_now
transcribe_deterministic seed ctx task_id d =
    waited (wait ctx d.delay) (λ e. (failed_with e, d))
      (after_first seed task_id (fail_first_now task_id d))
