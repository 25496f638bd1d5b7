-- ===== src/Domain/Status.antt =====
-- internal/domain/recording/task.go: the statuses and the transition matrix; errors.go.
use recording.Prelude.{Bool, true, false}

pub data TaskStatus : Type 0 where
  pending transcribing summarizing done failed : TaskStatus

pub data DomainError : Type 0 where
  invalid_transition attempt_mismatch summary_invalid unsupported_extension : DomainError

-- The map `transitions`; a missing key reads as `false`.
abbrev pub transitions : TaskStatus → TaskStatus → Bool
transitions pending transcribing = true
transitions pending failed = true
transitions transcribing summarizing = true
transitions transcribing failed = true
transitions transcribing pending = true
transitions summarizing done = true
transitions summarizing failed = true
transitions summarizing pending = true
transitions failed pending = true
transitions _ _ = false

-- Go's `==` on statuses.
abbrev pub is_status : TaskStatus → TaskStatus → Bool
is_status pending pending = true
is_status transcribing transcribing = true
is_status summarizing summarizing = true
is_status done done = true
is_status failed failed = true
is_status _ _ = false

-- The statuses of a task that a worker is executing.
abbrev pub is_in_flight : TaskStatus → Bool
is_in_flight transcribing = true
is_in_flight summarizing = true
is_in_flight _ = false
