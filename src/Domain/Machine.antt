-- ===== src/Domain/Machine.antt =====
-- What the methods of internal/domain/recording/task.go promise.
use recording.Prelude.{ℕ, ◌≡◌, refl, ◌≢◌, ◌⊎◌, true, false, none, some, arith}
use recording.Domain.Status.{
  TaskStatus, pending, transcribing, summarizing, done, failed, invalid_transition,
  attempt_mismatch, transitions, is_in_flight,
}
use recording.Domain.Task.{ProcessingTask, transition, transition_for_recovery}

-- `Transition` succeeds exactly when the attempt is the current one and the matrix has the edge;
-- then only the status changes. On either error the task is returned as it was, and a wrong
-- attempt is reported before a missing edge.
pub transition_lem :
    (t : ProcessingTask) (attempt : ℕ) (to : TaskStatus)
    → ((attempt ≡ t.attempt)
        × (transitions t.status to ≡ true)
        × (transition t attempt to ≡ (record t { status = to }, none)))
      ⊎ ((attempt ≢ t.attempt) × (transition t attempt to ≡ (t, some attempt_mismatch)))
      ⊎ ((attempt ≡ t.attempt)
          × (transitions t.status to ≡ false)
          × (transition t attempt to ≡ (t, some invalid_transition)))
unfolding transition
transition_lem t attempt to = ground arith

-- Where `TransitionForRecovery` succeeds, the task was in flight, the target is `pending` or
-- `failed`, the matrix allows the edge too, and only the status has changed; where it fails, the
-- task is unchanged.
pub transition_for_recovery_lem :
    (t : ProcessingTask) (to : TaskStatus)
    → ((is_in_flight t.status ≡ true)
        × ((to ≡ pending) ⊎ (to ≡ failed))
        × (transitions t.status to ≡ true)
        × (transition_for_recovery t to ≡ (record t { status = to }, none)))
      ⊎ (((is_in_flight t.status ≡ false) ⊎ ((to ≢ pending) × (to ≢ failed)))
          × (transition_for_recovery t to ≡ (t, some invalid_transition)))
unfolding transition_for_recovery
transition_for_recovery_lem t to = ground arith

infix 40 ◌⟶*◌
-- Paths through the matrix.
pub data ◌⟶*◌ : TaskStatus → TaskStatus → Type 0 where
  here : {s : TaskStatus} → s ⟶* s
  step : {s u : TaskStatus} (t : TaskStatus) → transitions s t ≡ true → t ⟶* u → s ⟶* u

-- A status other than `done` has a path to `done`; from `done` only `done` is reachable.
pub reach_done : (s : TaskStatus) → s ⟶* done
reach_done pending = step transcribing refl (step summarizing refl (step done refl here))
reach_done transcribing = step summarizing refl (step done refl here)
reach_done summarizing = step done refl here
reach_done done = here
reach_done failed =
    step pending refl (step transcribing refl (step summarizing refl (step done refl here)))

no_way_out : (s t : TaskStatus) → s ≡ done → transitions s t ≡ true → ⊥
no_way_out s t e h = ground arith

pub done_terminal : {s t : TaskStatus} → s ⟶* t → s ≡ done → t ≡ done
done_terminal here e = e
done_terminal (step {s = s} t h rest) e = absurd (no_way_out s t e h)
