-- ===== src/Http/Router/Laws.antt =====
-- What every request is answered with.
use recording.Prelude.{◌≤◌, ◌≡◌, ◌⊎◌}
use recording.ErrorCode.{ErrorCode, http_status, number, message}
use recording.Http.Answer.{Body, no_body, error_body, state_body, upload_body, retry_body, Response}

-- The status that goes with a body: of an error, the code's, which is 400 at least, with the code's
-- number and message and the response's own request id.
abbrev pub IsProper : Response → Body → Type 0
IsProper r (error_body e) =
    (code : ErrorCode) × (e
      ≡ record { code = number code; message = message code; request_id = r.request_id })
    × (r.status ≡ http_status code)
    × (400 ≤ r.status)
IsProper r no_body = (r.status ≡ 204) ⊎ (r.status ≡ 499)
IsProper r (state_body s) = (r.status ≡ 200) ⊎ (r.status ≡ 503)
IsProper r (upload_body b) = r.status ≡ 202
IsProper r (retry_body b) = r.status ≡ 202
IsProper r _ = r.status ≡ 200
