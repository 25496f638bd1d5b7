-- ===== src/Llm.antt =====
-- internal/infrastructure/llm/llm.go: one call of the chat/completions channel, and what its
-- outcomes mean to the caller. net/http and the JSON syntax are what the argument `Exchange` answers.
pub mod Envelope
pub mod Laws
use Prim.Native.Char.{Char, code}
use Prim.Native.String.{[], ◌∷◌, ◌++◌ as text_append}
use recording.Prelude.{
  ℕ, suc, ◌+◌, String, Bool, ◌&&◌, ◌||◌, List, Option, none, some, ◌==◌, ltb, same, length, take,
  if◌then◌else◌, Result, ok, err,
}
use recording.Decimal.{print}
use recording.Domain.Status.{DomainError}
use recording.Domain.Json.{Json, Items, Fields, str, arr, obj, nil, cons, end, field}
use recording.Domain.Summary.{Summary}
use recording.Domain.Summary.Parse.{parse_summary}
use recording.Service.Process.{
  Call, returned, failed_with, CallError, call_canceled, llm_timed_out, llm_upstream, llm_invalid,
}
use recording.Llm.Envelope.{choices_of}

pub record Client : Type 0 where
  pub base : String
  pub model : String
  pub api_key : String
  pub max_resp : ℕ

-- `strings.TrimSuffix(baseURL, "/")`.
unfoldable pub trim_slash : String → String
trim_slash [] = ""
trim_slash (c ∷ s) = if same s "" && code c == 47 then "" else c ∷ trim_slash s

unfoldable pub new_client : String → String → String → ℕ → Client
unfolding trim_slash
new_client base_url model api_key max_resp_bytes = record {
  base = trim_slash base_url;
  model = model;
  api_key = api_key;
  max_resp = max_resp_bytes;
}

abbrev pub summary_prompt : String
summary_prompt =
    "你是会议纪要助手。阅读用户消息中的会议转写文本，输出一个 JSON 对象，包含且仅包含三个字段：summary（非空字符串，忠实概括转写内容）、key_points（字符串数组，元素为非空字符串的要点）、todos（字符串数组，没有待办事项时为空数组）。只输出该 JSON 对象本身，不要 Markdown 围栏，不要任何多余文本。"

abbrev pub chat_message : String → String → Json
chat_message role content = obj (field "role" (str role) (field "content" (str content) end))

-- The request's body.
unfoldable pub chat_request : Client → String → Json
chat_request c transcript = obj (
    field "model" (str c.model) (
      field "messages"
        (arr
          (cons (chat_message "system" summary_prompt) (cons (chat_message "user" transcript) nil)))
        end))

-- `llmCtx.Err()`, where the context is done.
pub data CtxError : Type 0 where
  ctx_canceled ctx_deadline_exceeded : CtxError

-- The body is what the server sends until it ends, or until reading it fails with a text.
pub record Response : Type 0 where
  pub status : ℕ
  pub body : List ℕ
  pub read_fails : Option String

-- `do_error` is the text of an error of `Do`. `unmarshal` is the JSON value of the bytes, `parse`
-- that of a text, where there is exactly one.
pub record Exchange : Type 0 where
  pub bad_request : Bool
  pub send : String → Json → Result String Response
  pub ctx_after_send : Option CtxError
  pub ctx_after_read : Option CtxError
  pub unmarshal : List ℕ → Option Json
  pub parse : String → Option Json

unfoldable pub classify_ctx_err : CtxError → CallError
classify_ctx_err ctx_deadline_exceeded = llm_timed_out "llm timeout: context deadline exceeded"
classify_ctx_err ctx_canceled = call_canceled

abbrev pub upstream : String → CallError
upstream detail = llm_upstream (text_append "llm upstream error: " detail)

abbrev pub Summarized : Type 0
Summarized = Result CallError Summary

-- A failure while the context is done is the context's.
abbrev pub broken_off : Option CtxError → String → Summarized
broken_off none detail = err (upstream detail)
broken_off (some e) detail = err (classify_ctx_err e)

-- The detail of the parser's error is left out of the text.
abbrev pub of_parsed : Result DomainError Summary → Summarized
of_parsed (ok s) = ok s
of_parsed (err e) = err (llm_invalid "llm invalid output: ")

-- The first choice.
abbrev pub of_choices : Exchange → Option (List String) → Summarized
of_choices x (some (List.◌∷◌ content rest)) = of_parsed (parse_summary (x.parse content))
of_choices x _ = err (llm_invalid "llm invalid output: 外层结构异常（非 chat.completions 或无 choices）")

abbrev pub choices_in : Exchange → List ℕ → Option (List String)
choices_in x body = elim (x.unmarshal body) [ none ↦ none | some j ↦ choices_of j ]

-- `io.ReadAll(io.LimitReader(resp.Body, max + 1))`: a body beyond the limit is cut, and its error
-- is not met.
abbrev pub read_body : ℕ → Response → Result String (List ℕ)
read_body max resp =
    if ltb max (length resp.body)
    then ok (take (suc max) resp.body)
    else elim resp.read_fails [ none ↦ ok resp.body | some detail ↦ err detail ]

abbrev pub of_body : Client → Exchange → Result String (List ℕ) → Summarized
of_body c x (err detail) = broken_off x.ctx_after_read (text_append "读取响应失败: " detail)
of_body c x (ok body) =
    if ltb c.max_resp (length body)
    then err (upstream (text_append "响应体超过 " (text_append (print c.max_resp) " 字节上限")))
    else of_choices x (choices_in x body)

abbrev pub of_reply : Client → Exchange → Result String Response → Summarized
of_reply c x (err detail) = broken_off x.ctx_after_send detail
of_reply c x (ok resp) =
    if ltb resp.status 200 || ltb 299 resp.status
    then err (upstream (text_append "HTTP " (print resp.status)))
    else of_body c x (read_body c.max_resp resp)

unfoldable pub summarize : Client → Exchange → String → Summarized
unfolding classify_ctx_err chat_request
summarize c x transcript =
    if x.bad_request
    then err (upstream "构造请求失败")
    else of_reply c x (x.send (text_append c.base "/chat/completions") (chat_request c transcript))

-- The pair that `Summarize` returns, as a round of a worker takes it.
abbrev pub as_call : Summarized → Call Summary
as_call (ok s) = returned s
as_call (err e) = failed_with e
