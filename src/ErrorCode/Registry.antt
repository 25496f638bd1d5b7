-- ===== src/ErrorCode/Registry.antt =====
-- The registry of internal/application/errorcode/errorcode.go as a whole.
use recording.Prelude.{◌≡◌, ◌⊎◌, ◌↔◌, arith}
use recording.ErrorCode.{
  ErrorCode, number, http_status, service_interrupted, asr_failed, llm_timeout, llm_upstream_error,
  llm_invalid_output,
}

-- Two codes with one number are one code.
pub number_injective : (c d : ErrorCode) → number c ≡ number d → c ≡ d
unfolding number
number_injective c d h = ground arith

-- The codes without an HTTP status are the five that are stored with a task.
pub http_status_zero :
    (c : ErrorCode)
    → http_status c ≡ 0 ↔ (
        (c ≡ service_interrupted)
        ⊎ (c ≡ asr_failed)
        ⊎ (c ≡ llm_timeout)
        ⊎ (c ≡ llm_upstream_error)
        ⊎ (c ≡ llm_invalid_output))
unfolding http_status
http_status_zero c = ground arith
