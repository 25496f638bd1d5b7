-- ===== src/Http/Stream/Laws.antt =====
-- A stream ends with the event of the answer that ends it, and reports changes only.
use recording.Http.Stream.Reports.{
  terminal_status, line_of, statuses, body_of, bodies, reports, last_line, reports-cons,
  statuses-changed, statuses-here, statuses-later,
}
use recording.Prelude.{
  ◌∙◌, some-injective, ℕ, ◌≡◌, refl, sym, ap, subst, String, Bool, true, false, List, [], ◌∷◌, ◌++◌,
  Option, none, some, same, same→eq, All, Result, ok, err, inl, inr, Bool-cases, if◌then◌else◌,
}
use recording.Http.Dto.{TaskBody, new_task_body}
use recording.Http.Stream.{
  Event, status_event, deleted_event, ping_event, Poll, key_of, changed, ping_due, ended, stream,
}
use recording.Domain.Status.{TaskStatus, pending, transcribing, summarizing, done, failed}
use recording.ErrorCode.{ErrorCode}
use recording.Ports.{RecordingDetail}

abbrev pub is_terminal : Event → Bool
is_terminal (status_event b) = false
is_terminal ping_event = false
is_terminal _ = true

-- The event that ends the stream at an answer: the recording is gone, or its task is done or failed.
abbrev pub terminal_of : String → Result ErrorCode RecordingDetail → Option Event
terminal_of id (err e) = some (deleted_event id)
terminal_of id (ok d) = terminal_status d.task.status d

-- A round after which the stream goes on.
abbrev pub IsOpen : String → Poll → Type 0
IsOpen id p = (terminal_of id p.answer ≡ none) × (p.ctx_done ≡ false)

-- Of the status events, each shows another key than the one before it.
abbrev pub Changing : (Option ℕ → String) → String → List Event → Type 0
Changing show_time last [] = Unit
Changing show_time last (status_event b ∷ es) =
    (same (key_of show_time b) last ≡ false) × Changing show_time (key_of show_time b) es
Changing show_time last (e ∷ es) = Changing show_time last es

module _ (show_time : Option ℕ → String) (id : String) where
  -- What the rest of a stream is: events of which only the last is terminal, with changes only.
  Ending : String → Event → List Event → Type 0
  Ending last t es =
      (before : List Event) × (es ≡ before ++ (t ∷ []))
      × All (λ e. is_terminal e ≡ false) before
      × Changing show_time last es

  Ending-changed :
      (last : String) (t : Event) (b : TaskBody) (es : List Event)
      → Ending (key_of show_time b) t es
      → Ending last t (changed last (key_of show_time b) b es)
  unfolding Ending
  Ending-changed last t b es (before, e, quiet, ch) =
      elim (Bool-cases (same (key_of show_time b) last)) [
        | inl at ↦
            let unchanged = same→eq (key_of show_time b) last at in
            rw at (before, e, quiet, subst (λ k. Changing show_time k es) unchanged ch)
        | inr other ↦
            rw other (
              status_event b ∷ before,
              ap (λ xs. status_event b ∷ xs) e,
              (refl, quiet),
              (other, ch),
            )
      ]

  Ending-ping :
      (last : String) (t : Event) (es : List Event)
      → Ending last t es
      → Ending last t (ping_event ∷ es)
  unfolding Ending
  Ending-ping last t es (before, e, quiet, ch) =
      (ping_event ∷ before, ap (λ xs. ping_event ∷ xs) e, (refl, quiet), ch)

  Ending-here :
      (last : String) (s : TaskStatus) (d : RecordingDetail) (t : Event) (due c : Bool)
      (rest pinged : List Event)
      → terminal_status s d ≡ some t
      → Ending last t (ended s d due c rest pinged)
  unfolding Ending
  Ending-here last pending d t due c rest pinged h = absurd (cc h)
  Ending-here last transcribing d t due c rest pinged h = absurd (cc h)
  Ending-here last summarizing d t due c rest pinged h = absurd (cc h)
  Ending-here last done d t due c rest pinged h =
      ([], ap (λ (e : Event). e ∷ []) (some-injective _ _ h), tt, tt)
  Ending-here last failed d t due c rest pinged h =
      ([], ap (λ (e : Event). e ∷ []) (some-injective _ _ h), tt, tt)

  Ending-waits :
      (last : String) (t : Event) (due c : Bool) (rest pinged : List Event)
      → c ≡ false
      → Ending last t rest
      → Ending last t pinged
      → Ending last t
          (if due then ping_event ∷ (if c then [] else pinged) else if c then [] else rest)
  Ending-waits last t true c rest pinged f r p =
      subst (λ b. Ending last t (ping_event ∷ (if b then [] else pinged))) (sym f)
        (Ending-ping last t pinged p)
  Ending-waits last t false c rest pinged f r p =
      subst (λ b. Ending last t (if b then [] else rest)) (sym f) r

  Ending-later :
      (last : String) (s : TaskStatus) (d : RecordingDetail) (t : Event) (due c : Bool)
      (rest pinged : List Event)
      → terminal_status s d ≡ none
      → c ≡ false
      → Ending last t rest
      → Ending last t pinged
      → Ending last t (ended s d due c rest pinged)
  Ending-later last pending d t due c rest pinged h = Ending-waits last t due c rest pinged
  Ending-later last transcribing d t due c rest pinged h = Ending-waits last t due c rest pinged
  Ending-later last summarizing d t due c rest pinged h = Ending-waits last t due c rest pinged
  Ending-later last done d t due c rest pinged h = absurd (cc h)
  Ending-later last failed d t due c rest pinged h = absurd (cc h)

  -- One round, by its answer.
  abbrev round : String → ℕ → Poll → Result ErrorCode RecordingDetail → List Poll → List Event
  round last last_ping p answer ps = elim answer [
    | err e ↦ deleted_event id ∷ []
    | ok d ↦
        let key = key_of show_time (new_task_body d.task) in
        changed last key (new_task_body d.task) (
          ended d.task.status d (ping_due last_ping p.now) p.ctx_done
            (stream show_time id key last_ping ps) (stream show_time id key p.now ps))
  ]

  Ending-last :
      (last : String) (last_ping : ℕ) (p : Poll) (answer : Result ErrorCode RecordingDetail)
      (ps : List Poll) (t : Event)
      → terminal_of id answer ≡ some t
      → Ending last t (round last last_ping p answer ps)
  unfolding Ending
  Ending-last last last_ping p (err e) ps t h =
      ([], ap (λ (e : Event). e ∷ []) (some-injective _ _ h), tt, tt)
  Ending-last last last_ping p (ok d) ps t h =
      Ending-changed last t (new_task_body d.task) _
        (Ending-here _ d.task.status d t (ping_due last_ping p.now) p.ctx_done _ _ h)

  Ending-round :
      (last : String) (last_ping : ℕ) (p : Poll) (answer : Result ErrorCode RecordingDetail)
      (ps : List Poll) (t : Event)
      → terminal_of id answer ≡ none
      → p.ctx_done ≡ false
      → ((key : String) (n : ℕ) → Ending key t (stream show_time id key n ps))
      → Ending last t (round last last_ping p answer ps)
  Ending-round last last_ping p (err e) ps t h f ih = absurd (cc h)
  Ending-round last last_ping p (ok d) ps t h f ih =
      let key = key_of show_time (new_task_body d.task) in
      Ending-changed last t (new_task_body d.task) _ (
        Ending-later key d.task.status d t (ping_due last_ping p.now) p.ctx_done _ _ h f
          (ih key last_ping) (ih key p.now))

  stream-Ending :
      (before : List Poll) (p : Poll) (after : List Poll) (t : Event) (last : String)
      (last_ping : ℕ)
      → All (IsOpen id) before
      → terminal_of id p.answer ≡ some t
      → Ending last t (stream show_time id last last_ping (before ++ (p ∷ after)))
  unfolding stream
  stream-Ending [] p after t last last_ping o h = Ending-last last last_ping p p.answer after t h
  stream-Ending (q ∷ before) p after t last last_ping o h =
      Ending-round last last_ping q q.answer (before ++ (p ∷ after)) t o.0.0 o.0.1
        (λ key n. stream-Ending before p after t key n o.1 h)

  statuses-round :
      (before : Option TaskBody) (last_ping : ℕ) (p : Poll)
      (answer : Result ErrorCode RecordingDetail) (ps : List Poll) (bs : List TaskBody)
      → terminal_of id answer ≡ none
      → p.ctx_done ≡ false
      → ((a : TaskBody) (n : ℕ)
          → statuses (stream show_time id (line_of show_time a) n ps)
            ≡ reports show_time (some a) bs)
      → statuses (round (last_line show_time before) last_ping p answer ps)
        ≡ reports show_time before (body_of answer bs)
  unfolding key_of
  statuses-round before last_ping p (err e) ps bs h f ih = absurd (cc h)
  statuses-round before last_ping p (ok d) ps bs h f ih =
      let b = new_task_body d.task in
      let later =
        statuses-later show_time d.task.status d (ping_due last_ping p.now) p.ctx_done
          (stream show_time id (line_of show_time b) last_ping ps)
          (stream show_time id (line_of show_time b) p.now ps) (reports show_time (some b) bs) h f
          (ih b last_ping) (ih b p.now) in
      statuses-changed show_time (last_line show_time before) (line_of show_time b) b _
      ∙ rw later (sym (reports-cons show_time before b bs))

  statuses-last :
      (before : Option TaskBody) (last_ping : ℕ) (p : Poll)
      (answer : Result ErrorCode RecordingDetail) (ps : List Poll) (t : Event)
      → terminal_of id answer ≡ some t
      → statuses (round (last_line show_time before) last_ping p answer ps)
        ≡ reports show_time before (body_of answer [])
  unfolding key_of
  statuses-last none last_ping p (err e) ps t h = refl
  statuses-last (some a) last_ping p (err e) ps t h = refl
  statuses-last before last_ping p (ok d) ps t h =
      let b = new_task_body d.task in
      let here =
        statuses-here show_time d.task.status d t (ping_due last_ping p.now) p.ctx_done
          (stream show_time id (line_of show_time b) last_ping ps)
          (stream show_time id (line_of show_time b) p.now ps) h in
      statuses-changed show_time (last_line show_time before) (line_of show_time b) b _
      ∙ rw here (sym (reports-cons show_time before b []))

  stream-statuses :
      (polls : List Poll) (p : Poll) (after : List Poll) (t : Event) (before : Option TaskBody)
      (last_ping : ℕ)
      → All (IsOpen id) polls
      → terminal_of id p.answer ≡ some t
      → statuses (stream show_time id (last_line show_time before) last_ping (polls ++ (p ∷ after)))
        ≡ reports show_time before (bodies (polls ++ (p ∷ [])))
  unfolding stream
  stream-statuses [] p after t before last_ping o h =
      statuses-last before last_ping p p.answer after t h
  stream-statuses (q ∷ polls) p after t before last_ping o h =
      statuses-round before last_ping q q.answer (polls ++ (p ∷ after)) (bodies (polls ++ (p ∷ [])))
        o.0.0 o.0.1 (λ a n. stream-statuses polls p after t (some a) n o.1 h)

  -- Where the answers of some rounds keep the stream open and the next one ends it, the stream is
  -- events of which none is terminal, and then the one event of that answer: `deleted` for an error
  -- of any kind, `summary` for a task that is done, `failed` for one that has failed, whatever
  -- further answers there would be. The status events are, in their order, the first task that a
  -- poll finds and each one whose status, attempt, time of the next attempt or error, put in one
  -- text, is not that of the poll before it.
  pub stream_lem :
      (before : List Poll) (p : Poll) (after : List Poll) (t : Event) (last_ping : ℕ)
      → All (IsOpen id) before
      → terminal_of id p.answer ≡ some t
      → let sent = stream show_time id "" last_ping (before ++ (p ∷ after)) in
        ((events : List Event) × (sent ≡ events ++ (t ∷ []))
          × All (λ e. is_terminal e ≡ false) events
          × Changing show_time "" sent)
        × (statuses sent ≡ reports show_time none (bodies (before ++ (p ∷ []))))
  unfolding Ending
  stream_lem before p after t last_ping o h = (
    stream-Ending before p after t "" last_ping o h,
    stream-statuses before p after t none last_ping o h,
  )
