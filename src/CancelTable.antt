-- ===== src/CancelTable.antt =====
-- internal/infrastructure/worker/canceltable.go: the cancel functions of the executions that run
-- now. A Go map is a list of entries; the mutex makes each method one step.
pub mod Laws
use recording.Prelude.{
  ℕ, String, Bool, ◌&&◌, List, [], ◌∷◌, Option, none, some, ◌==◌, same, not, keep, map,
  if◌then◌else◌,
}
use recording.Domain.Task.{ExecutionKey}

unfoldable pub same_key : ExecutionKey → ExecutionKey → Bool
same_key a b = same a.task_id b.task_id && (a.attempt == b.attempt)

abbrev pub CancelTable : Type 0 → Type 0
CancelTable F = List (ExecutionKey × F)

-- `F` are the cancel functions.
module _ {F : Type 0} where
  abbrev pub new_cancel_table : CancelTable F
  new_cancel_table = []

  -- The read `t.cancels[key]`.
  unfoldable pub lookup : ExecutionKey → CancelTable F → Option F
  lookup key [] = none
  lookup key ((k, f) ∷ t) = if same_key k key then some f else lookup key t

  abbrev pub is_other : ExecutionKey → ExecutionKey × F → Bool
  is_other key e = not (same_key e.0 key)

  unfoldable pub unregister : ExecutionKey → CancelTable F → CancelTable F
  unregister key t = keep (is_other key) t

  unfoldable pub register : ExecutionKey → F → CancelTable F → CancelTable F
  unfolding unregister
  register key f t = (key, f) ∷ unregister key t

  abbrev pub called : Option F → List F
  called none = []
  called (some f) = f ∷ []

  -- The functions that `Cancel` and `CancelTask` call, outside the lock.
  unfoldable pub cancel : ExecutionKey → CancelTable F → List F
  unfolding lookup
  cancel key t = called (lookup key t)

  abbrev pub is_of_task : String → ExecutionKey × F → Bool
  is_of_task task_id e = same e.0.task_id task_id

  abbrev pub function_of : ExecutionKey × F → F
  function_of e = e.1

  unfoldable pub cancel_task : String → CancelTable F → List F
  cancel_task task_id t = map function_of (keep (is_of_task task_id) t)
  -- A call of the table, with the table after it and the functions that it calls.

pub data Call (F : Type 0) : Type 0 where
  register_call : ExecutionKey → F → Call F
  unregister_call : ExecutionKey → Call F
  cancel_call : ExecutionKey → Call F
  cancel_task_call : String → Call F

module _ {F : Type 0} where
  unfoldable pub perform : Call F → CancelTable F → CancelTable F × List F
  unfolding register unregister cancel cancel_task
  perform (register_call key f) t = (register key f t, [])
  perform (unregister_call key) t = (unregister key t, [])
  perform (cancel_call key) t = (t, cancel key t)
  perform (cancel_task_call task_id) t = (t, cancel_task task_id t)

  -- The table after a history of calls, the last one first.
  unfoldable pub after_calls : List (Call F) → CancelTable F
  unfolding perform
  after_calls [] = new_cancel_table
  after_calls (c ∷ cs) = (perform c (after_calls cs)).0
