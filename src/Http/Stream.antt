-- ===== src/Http/Stream.antt =====
-- `HandleSummaryStream` of internal/interfaces/http/handler/summary_stream.go, from its first event
-- on: the loop over the answers that it polls.
pub mod Reports
pub mod Laws
use Prim.Native.String.{◌++◌ as text_append}
use recording.Prelude.{
  ℕ, ◌+◌, ◌-◌, ◌≤◌, String, Bool, List, [], ◌∷◌, ◌++◌, Option, none, some, same, leb, if◌then◌else◌,
  Result, ok, err,
}
use recording.Decimal.{print}
use recording.Domain.Status.{TaskStatus, pending, transcribing, summarizing, done, failed}
use recording.ErrorCode.{ErrorCode}
use recording.Ports.{RecordingDetail}
use recording.Http.Dto.{
  TaskErrorBody, TaskBody, ResultBody, new_task_body, new_recording_detail_body,
}

pub data Event : Type 0 where
  status_event : TaskBody → Event
  summary_event : Option ResultBody → Event
  failed_event : Option TaskErrorBody → Event
  deleted_event : String → Event
  ping_event : Event

-- One round: the answer of GetRecording, the time, and whether the request's context ends the wait
-- for the ticker.
pub record Poll : Type 0 where
  pub answer : Result ErrorCode RecordingDetail
  pub now : ℕ
  pub ctx_done : Bool

abbrev pub error_key : Option TaskErrorBody → String
error_key none = ""
error_key (some e) = text_append (print e.code) (text_append ":" e.message)

-- `fmt.Sprintf("%s:%d:%v:%s", …)`; `show_time` is the `%v` of a time or of nil.
unfoldable pub key_of : (Option ℕ → String) → TaskBody → String
key_of show_time b = text_append b.status (
    text_append ":" (
      text_append (print b.attempt) (
        text_append ":"
          (text_append (show_time b.next_retry_at) (text_append ":" (error_key b.error))))))

-- `if key != last { send status }`.
abbrev pub changed : String → String → TaskBody → List Event → List Event
changed last key body rest = if same key last then rest else status_event body ∷ rest

-- Fifteen seconds.
abbrev pub ping_interval : ℕ
ping_interval = 15000000000

abbrev pub ping_due : ℕ → ℕ → Bool
ping_due last_ping now = leb ping_interval (now - last_ping)

-- The end of a round: a terminal event, or perhaps a ping and the wait. `rest` and `pinged` are the
-- next rounds, without a ping and with one.
abbrev pub ended : TaskStatus → RecordingDetail → Bool → Bool → List Event → List Event → List Event
ended done d due ctx_done rest pinged = summary_event (new_recording_detail_body d).result ∷ []
ended failed d due ctx_done rest pinged = failed_event (new_task_body d.task).error ∷ []
ended _ d due ctx_done rest pinged =
    if due then ping_event ∷ (if ctx_done then [] else pinged) else if ctx_done then [] else rest

-- The events of the rounds `polls`, after which the connection is still open unless a round has
-- ended it.
unfoldable pub stream : (Option ℕ → String) → String → String → ℕ → List Poll → List Event
unfolding key_of new_task_body
stream show_time id last last_ping [] = []
stream show_time id last last_ping (p ∷ ps) = elim p.answer [
  | err e ↦ deleted_event id ∷ []
  | ok d ↦
      let body = new_task_body d.task in
      let key = key_of show_time body in
      changed last key body (
        ended d.task.status d (ping_due last_ping p.now) p.ctx_done
          (stream show_time id key last_ping ps) (stream show_time id key p.now ps))
]
