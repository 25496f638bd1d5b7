-- ===== src/Http/Answer.antt =====
-- What a handler leaves behind, and what the middlewares of internal/interfaces/http/middleware and
-- `Render` of internal/interfaces/http/errorcode/render.go make of it.
use recording.Prelude.{ℕ, String, List, ◌==◌, same, if◌then◌else◌}
use recording.ErrorCode.{ErrorCode, internal_error, number, http_status, message}
use recording.Http.Dto.{
  TaskBody, RecordingDetailBody, RecordingListBody, UploadResponse, RetryResponse,
}
use recording.Http.Stream.{Event}

pub record ErrorBody : Type 0 where
  pub code : ℕ
  pub message : String
  pub request_id : String

pub data Body : Type 0 where
  no_body : Body
  error_body : ErrorBody → Body
  state_body : String → Body
  task_body : TaskBody → Body
  recording_body : RecordingDetailBody → Body
  list_body : RecordingListBody → Body
  upload_body : UploadResponse → Body
  retry_body : RetryResponse → Body
  events_body : List Event → Body

-- A handler writes a status and a body, registers an error by `c.Error`, aborts with a status, or
-- panics before it has written anything.
pub data Outcome : Type 0 where
  replied : ℕ → Body → Outcome
  errored : ErrorCode → Outcome
  aborted : ℕ → Outcome
  panicked : Outcome

-- `request_id` is the value of the header X-Request-ID.
pub record Response : Type 0 where
  pub status : ℕ
  pub body : Body
  pub request_id : String

-- `Render`, for a response of which nothing is written: a code without a status is an internal error.
unfoldable pub render : String → ErrorCode → Response
render request_id code = record {
  status = if http_status code == 0 then 500 else http_status code;
  body =
      error_body (record { code = number code; message = message code; request_id = request_id });
  request_id = request_id;
}

-- `RequestID`: the client's id, or a new one.
abbrev pub request_id_of : String → String → String
request_id_of header new_id = if same header "" then new_id else header

-- `PanicRecovery`: a panic is registered as an internal error.
abbrev pub panic_recovery : Outcome → Outcome
panic_recovery panicked = errored internal_error
panic_recovery o = o

-- `ErrorRenderer`: a registered error is rendered, an answer that is written stays.
abbrev pub error_renderer : String → Outcome → Response
error_renderer request_id (replied status body) = record {
  status = status;
  body = body;
  request_id = request_id;
}
error_renderer request_id (errored code) = render request_id code
error_renderer request_id (aborted status) = record {
  status = status;
  body = no_body;
  request_id = request_id;
}
error_renderer request_id panicked = record {
  status = 200;
  body = no_body;
  request_id = request_id;
}

-- The chain RequestID, ErrorRenderer, PanicRecovery round a handler.
unfoldable pub respond : String → Outcome → Response
unfolding render
respond request_id o = error_renderer request_id (panic_recovery o)
