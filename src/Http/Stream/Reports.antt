-- ===== src/Http/Stream/Reports.antt =====
-- What a stream reports of the progress of a task: the status events that its polls make.
use Prim.Native.String.{◌++◌ as text_append, len}
use text.Mathlib.TextPositions.{len-append}
use recording.Prelude.{
  ◌≡◌, arith, ℕ, refl, sym, ap, String, Bool, false, List, [], ◌∷◌, Option, none, some, same,
  same→eq, Result, ok, err, inl, inr, Bool-cases, if◌then◌else◌,
}
use recording.Domain.Status.{TaskStatus, pending, transcribing, summarizing, done, failed}
use recording.ErrorCode.{ErrorCode}
use recording.Ports.{RecordingDetail}
use recording.Decimal.{print}
use recording.Http.Dto.{TaskErrorBody, TaskBody, new_task_body, new_recording_detail_body}
use recording.Http.Stream.{Event, status_event, summary_event, failed_event, Poll, changed, ended}

abbrev pub terminal_status : TaskStatus → RecordingDetail → Option Event
terminal_status done d = some (summary_event (new_recording_detail_body d).result)
terminal_status failed d = some (failed_event (new_task_body d.task).error)
terminal_status _ d = none

abbrev pub error_text : Option TaskErrorBody → String
error_text none = ""
error_text (some e) = text_append (print e.code) (text_append ":" e.message)

-- The progress that a client sees: status, attempt, time of the next attempt, and error.
abbrev pub line_of : (Option ℕ → String) → TaskBody → String
line_of show_time b = text_append b.status (
    text_append ":" (
      text_append (print b.attempt) (
        text_append ":"
          (text_append (show_time b.next_retry_at) (text_append ":" (error_text b.error))))))

-- The bodies of the status events.
abbrev pub statuses : List Event → List TaskBody
statuses [] = []
statuses (status_event b ∷ es) = b ∷ statuses es
statuses (e ∷ es) = statuses es

-- The task at each poll that finds the recording.
abbrev pub body_of : Result ErrorCode RecordingDetail → List TaskBody → List TaskBody
body_of (err e) bs = bs
body_of (ok d) bs = new_task_body d.task ∷ bs

abbrev pub bodies : List Poll → List TaskBody
bodies [] = []
bodies (p ∷ ps) = body_of p.answer (bodies ps)

-- The first body, and each one that shows other progress than the one before it.
abbrev pub reports : (Option ℕ → String) → Option TaskBody → List TaskBody → List TaskBody
reports show_time before [] = []
reports show_time none (b ∷ bs) = b ∷ reports show_time (some b) bs
reports show_time (some a) (b ∷ bs) =
    let rest = reports show_time (some b) bs in
    if same (line_of show_time b) (line_of show_time a) then rest else b ∷ rest

module _ (show_time : Option ℕ → String) where
  abbrev pub last_line : Option TaskBody → String
  last_line none = ""
  last_line (some a) = line_of show_time a

  line_of-not_empty : (b : TaskBody) → same (line_of show_time b) "" ≡ false
  line_of-not_empty b = elim (Bool-cases (same (line_of show_time b) "")) [
    | inl blank ↦
        let mark : len ":" ≡ 1 = refl in
        let tail = text_append (print b.attempt) (
          text_append ":"
            (text_append (show_time b.next_retry_at) (text_append ":" (error_text b.error)))) in
        let no_bytes : len (line_of show_time b) ≡ 0 =
          ap len (same→eq (line_of show_time b) "" blank) in
        absurd (
          omega (
            arith,
            no_bytes,
            mark,
            len-append b.status (text_append ":" tail),
            len-append ":" tail,
          ))
    | inr text ↦ text
  ]

  pub reports-cons :
      (before : Option TaskBody) (b : TaskBody) (bs : List TaskBody)
      → reports show_time before (b ∷ bs) ≡ (
          if same (line_of show_time b) (last_line before)
          then reports show_time (some b) bs
          else b ∷ reports show_time (some b) bs)
  reports-cons none b bs = sym (rw (line_of-not_empty b) refl)
  reports-cons (some a) b bs = refl

  pub statuses-changed :
      (last key : String) (b : TaskBody) (es : List Event)
      → statuses (changed last key b es) ≡ (if same key last then statuses es else b ∷ statuses es)
  statuses-changed last key b es = ground arith

  pub statuses-here :
      (s : TaskStatus) (d : RecordingDetail) (t : Event) (due c : Bool) (rest pinged : List Event)
      → terminal_status s d ≡ some t
      → statuses (ended s d due c rest pinged) ≡ []
  statuses-here pending d t due c rest pinged h = absurd (cc h)
  statuses-here transcribing d t due c rest pinged h = absurd (cc h)
  statuses-here summarizing d t due c rest pinged h = absurd (cc h)
  statuses-here done d t due c rest pinged h = refl
  statuses-here failed d t due c rest pinged h = refl

  pub statuses-later :
      (s : TaskStatus) (d : RecordingDetail) (due c : Bool) (rest pinged : List Event)
      (bs : List TaskBody)
      → terminal_status s d ≡ none
      → c ≡ false
      → statuses rest ≡ bs
      → statuses pinged ≡ bs
      → statuses (ended s d due c rest pinged) ≡ bs
  statuses-later pending d due c rest pinged bs h f r p = ground arith
  statuses-later transcribing d due c rest pinged bs h f r p = ground arith
  statuses-later summarizing d due c rest pinged bs h f r p = ground arith
  statuses-later done d due c rest pinged bs h f r p = absurd (cc h)
  statuses-later failed d due c rest pinged bs h f r p = absurd (cc h)
