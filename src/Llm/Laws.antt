-- ===== src/Llm/Laws.antt =====
-- What each outcome of a call of the channel means.
use recording.Llm.{
  upstream, Client, Response, Exchange, CtxError, ctx_canceled, ctx_deadline_exceeded,
  classify_ctx_err, chat_request, Summarized, broken_off, of_parsed, of_choices, choices_in,
  read_body, of_body, of_reply, summarize, as_call,
}
use Prim.Native.String.{◌++◌ as text_append}
use recording.Prelude.{
  ℕ, zero, suc, take, if◌then◌else◌, ◌<◌, ◌≤◌, ◌≡◌, ◌⊎◌, inl, inr, refl, String, Bool, true, false,
  ◌||◌, List, [], ◌∷◌, Option, none, some, ltb, length, arith, Bool-cases, Result, ok, err,
}
use recording.Domain.Status.{DomainError}
use recording.Domain.Summary.{Summary}
use recording.Domain.Summary.Parse.{parse_summary}
use recording.Domain.Summary.Parse.Laws.{IsValid, parse_summary-IsValid}
use recording.Service.Process.Laws.{Returns}
use recording.Service.Process.{
  CallError, call_canceled, llm_timed_out, llm_upstream, llm_invalid, call_failed,
}

abbrev pub reply : Client → Exchange → String → Result String Response
reply c x transcript = x.send (text_append c.base "/chat/completions") (chat_request c transcript)

-- A reader with a limit of one byte more gives that many.
length-take : (n : ℕ) (xs : List ℕ) → n < length xs → length (take (suc n) xs) ≡ suc n
length-take n [] h = absurd (omega arith)
length-take zero (x ∷ xs) h = refl
length-take (suc n) (x ∷ xs) h = omega (arith, length-take n xs)

module _ (c : Client) (x : Exchange) (transcript : String) where
  -- The server has answered with a status of success, and with a body within the limit.
  pub record Answered (resp : Response) : Type 0 where
    pub replied : reply c x transcript ≡ ok resp
    pub at_least : 200 ≤ resp.status
    pub at_most : resp.status ≤ 299
    pub within : length resp.body ≤ c.max_resp
    pub read : resp.read_fails ≡ none

  -- The context was done when the call or the reading of its answer failed.
  abbrev pub CutOff : CtxError → Type 0
  CutOff e = (x.ctx_after_send ≡ some e) ⊎ (x.ctx_after_read ≡ some e)

  -- The body has no first choice, or the text of that is no summary.
  abbrev pub NoSummary : List ℕ → Type 0
  NoSummary body =
      (choices_in x body ≡ none)
      ⊎ (choices_in x body ≡ some [])
      ⊎ (content : String) × (rest : List String) × (e : DomainError) × (choices_in x body
          ≡ some (content ∷ rest))
        × (parse_summary (x.parse content) ≡ err e)

  abbrev pub UpstreamFault : Type 0
  UpstreamFault =
      (x.bad_request ≡ true)
      ⊎ ((detail : String) × (reply c x transcript ≡ err detail) × (x.ctx_after_send ≡ none))
      ⊎ ((resp : Response) × (reply c x transcript ≡ ok resp)
          × ((resp.status < 200) ⊎ (299 < resp.status)))
      ⊎ ((resp : Response) × (reply c x transcript ≡ ok resp) × (c.max_resp < length resp.body))
      ⊎ ((resp : Response) × (detail : String) × (reply c x transcript ≡ ok resp)
          × (resp.read_fails ≡ some detail)
          × (x.ctx_after_read ≡ none))

  abbrev pub Explains : CallError → Type 0
  Explains call_canceled = CutOff ctx_canceled
  Explains (llm_timed_out m) = CutOff ctx_deadline_exceeded
  Explains (llm_upstream m) = UpstreamFault
  Explains (llm_invalid m) = (resp : Response) × Answered resp × NoSummary resp.body
  Explains (call_failed m) = ⊥

  abbrev pub Describes : Summarized → Type 0
  Describes (err e) = Explains e
  Describes (ok s) =
      (resp : Response) × (content : String) × (rest : List String) × Answered resp
      × (choices_in x resp.body ≡ some (content ∷ rest))
      × (parse_summary (x.parse content) ≡ ok s)
      × IsValid s

  classified : (e : CtxError) → CutOff e → Explains (classify_ctx_err e)
  unfolding classify_ctx_err
  classified ctx_canceled h = h
  classified ctx_deadline_exceeded h = h

  of_parsed-Describes :
      (resp : Response) (content : String) (rest : List String) (r : Result DomainError Summary)
      → Answered resp
      → choices_in x resp.body ≡ some (content ∷ rest)
      → parse_summary (x.parse content) ≡ r
      → Describes (of_parsed r)
  of_parsed-Describes resp content rest (ok s) a h p =
      (resp, content, rest, a, h, p, parse_summary-IsValid (x.parse content) s p)
  of_parsed-Describes resp content rest (err e) a h p =
      (resp, a, inr (inr (content, rest, e, h, p)))

  of_choices-Describes :
      (resp : Response) (o : Option (List String))
      → Answered resp
      → choices_in x resp.body ≡ o
      → Describes (of_choices x o)
  of_choices-Describes resp none a h = (resp, a, inl h)
  of_choices-Describes resp (some []) a h = (resp, a, inr (inl h))
  of_choices-Describes resp (some (content ∷ rest)) a h =
      of_parsed-Describes resp content rest (parse_summary (x.parse content)) a h refl

  read_failed-Describes :
      (resp : Response) (detail text : String) (o : Option CtxError)
      → reply c x transcript ≡ ok resp
      → resp.read_fails ≡ some detail
      → x.ctx_after_read ≡ o
      → Describes (broken_off o text)
  read_failed-Describes resp detail text none r f h = inr (inr (inr (inr (resp, detail, r, f, h))))
  read_failed-Describes resp detail text (some e) r f h = classified e (inr h)

  send_failed-Describes :
      (detail : String) (o : Option CtxError)
      → reply c x transcript ≡ err detail
      → x.ctx_after_send ≡ o
      → Describes (broken_off o detail)
  send_failed-Describes detail none r h = inr (inl (detail, r, h))
  send_failed-Describes detail (some e) r h = classified e (inl h)

  read_whole-Describes :
      (resp : Response) (o : Option String)
      → reply c x transcript ≡ ok resp
      → 200 ≤ resp.status
      → resp.status ≤ 299
      → ltb c.max_resp (length resp.body) ≡ false
      → resp.read_fails ≡ o
      → Describes (of_body c x (elim o [ none ↦ ok resp.body | some detail ↦ err detail ]))
  read_whole-Describes resp (some detail) r low high fits f =
      read_failed-Describes resp detail _ x.ctx_after_read r f refl
  read_whole-Describes resp none r low high fits f =
      let a : Answered resp = record {
        replied = r;
        at_least = low;
        at_most = high;
        within = ground arith;
        read = f;
      } in
      rw fits (of_choices-Describes resp (choices_in x resp.body) a refl)

  of_body-Describes :
      (resp : Response)
      → reply c x transcript ≡ ok resp
      → 200 ≤ resp.status
      → resp.status ≤ 299
      → Describes (of_body c x (read_body c.max_resp resp))
  of_body-Describes resp r low high = elim (Bool-cases (ltb c.max_resp (length resp.body))) [
    | inl over ↦
        let cut : ltb c.max_resp (length (take (suc c.max_resp) resp.body)) ≡ true =
          ground (arith, length-take c.max_resp resp.body) in
        rw over (rw cut (inr (inr (inr (inl (resp, r, ground arith))))))
    | inr fits ↦ rw fits (read_whole-Describes resp resp.read_fails r low high fits refl)
  ]

  of_reply-Describes :
      (answer : Result String Response)
      → reply c x transcript ≡ answer
      → Describes (of_reply c x answer)
  of_reply-Describes (err detail) r = send_failed-Describes detail x.ctx_after_send r refl
  of_reply-Describes (ok resp) r = elim (Bool-cases (ltb resp.status 200 || ltb 299 resp.status)) [
    | inl off ↦ rw off (inr (inr (inl (resp, r, ground arith))))
    | inr good ↦ rw good (of_body-Describes resp r (ground arith) (ground arith))
  ]

  made-Describes :
      (bad : Bool)
      → x.bad_request ≡ bad
      → Describes (if bad then err (upstream "构造请求失败") else of_reply c x (reply c x transcript))
  made-Describes true e = inl e
  made-Describes false e = of_reply-Describes (reply c x transcript) refl

  -- A summary is one that the parser reads in the first choice of an answer of success, within the
  -- limit; it is valid. A cancellation or a timeout is reported only where the context was done, an
  -- invalid output only for such an answer without a summary, and an upstream error for a request
  -- that cannot be made, a failed call or read, another status, or a body beyond the limit.
  pub summarize_lem : Describes (summarize c x transcript)
  unfolding summarize
  summarize_lem = made-Describes x.bad_request refl

as_call-Returns :
    (c : Client) (x : Exchange) (transcript : String) (r : Summarized)
    → Describes c x transcript r
    → Returns IsValid (as_call r)
as_call-Returns c x transcript (ok s) (_, _, _, _, _, _, v) = v
as_call-Returns c x transcript (err e) h = tt

-- As a worker's summarizer, the channel returns valid summaries only.
pub summarize-Returns :
    (c : Client) (x : Exchange) (transcript : String)
    → Returns IsValid (as_call (summarize c x transcript))
summarize-Returns c x transcript =
    as_call-Returns c x transcript (summarize c x transcript) (summarize_lem c x transcript)
