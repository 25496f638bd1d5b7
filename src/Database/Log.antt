-- ===== src/Database/Log.antt =====
-- What a consistent database is: the event log of each task, and the shape of a task row by its
-- status. This is the specification of the transactions, stated without them.
pub mod Unique
pub mod Post
pub mod Moved
pub mod Remove
use recording.Prelude.{
  ℕ, ◌-◌, ◌≤◌, ◌<◌, ◌≡◌, ◌⊎◌, String, Bool, true, List, [], ◌∷◌, Option, none, some, same, keep,
  find?, All,
}
use recording.Domain.Status.{
  TaskStatus, pending, transcribing, summarizing, done, failed, transitions,
}
use recording.Domain.Event.{EventKind, task_delete_requested}
use recording.Database.Rows.{TaskRow, EventRow, Db}
use recording.Database.Tx.{has_task_id, is_some}

abbrev pub find_task : String → List TaskRow → Option TaskRow
find_task j = find? (has_task_id j)

abbrev pub of_task : String → EventRow → Bool
of_task j e = same e.task_id j

-- The events of a task, newest first.
abbrev pub history : String → List EventRow → List EventRow
history j = keep (of_task j)

-- The numbers are n, n - 1, …, 1.
abbrev pub Numbered : ℕ → List EventRow → Type 0
Numbered n [] = n ≡ 0
Numbered n (e ∷ es) = (e.event_seq ≡ n) × (0 < n) × Numbered (n - 1) es

-- An edge of the domain's matrix, or a request to delete, which keeps the status.
abbrev pub Allowed : EventKind → TaskStatus → TaskStatus → Type 0
Allowed kind from to = (transitions from to ≡ true) ⊎ ((kind ≡ task_delete_requested) × (from ≡ to))

abbrev pub After : (TaskStatus → Type 0) → Type 0 → Option TaskStatus → Type 0
After later first none = first
After later first (some from) = later from

-- The statuses form a chain of allowed edges that ends in `s` and starts with a creation.
abbrev pub Chained : List EventRow → TaskStatus → Type 0
Chained [] s = ⊥
Chained (e ∷ es) s =
    (e.to_status ≡ some s)
    × After (λ from. Allowed e.event from s × Chained es from) (es ≡ []) e.from_status

-- What a row of each status holds.
abbrev pub Shape : TaskStatus → TaskRow → Type 0
Shape pending t = (t.transcript ≡ "") × (t.summary_json ≡ none) × (t.finished_at ≡ none)
Shape transcribing t =
    (t.transcript ≡ "")
    × (t.summary_json ≡ none)
    × (t.error_code ≡ none)
    × (t.finished_at ≡ none)
    × (t.next_retry_at ≡ none)
    × (is_some t.started_at ≡ true)
Shape summarizing t =
    (t.summary_json ≡ none)
    × (t.error_code ≡ none)
    × (t.finished_at ≡ none)
    × (t.next_retry_at ≡ none)
    × (is_some t.started_at ≡ true)
Shape done t =
    (is_some t.summary_json ≡ true)
    × (t.error_code ≡ none)
    × (is_some t.finished_at ≡ true)
    × (t.next_retry_at ≡ none)
    × (is_some t.started_at ≡ true)
Shape failed t =
    (t.summary_json ≡ none)
    × (is_some t.error_code ≡ true)
    × (is_some t.finished_at ≡ true)
    × (t.next_retry_at ≡ none)

pub record TaskLog (t : TaskRow) (h : List EventRow) : Type 0 where
  pub numbered : Numbered t.event_seq h
  pub chained : Chained h t.status
  pub owned : All (λ (e : EventRow). e.recording_id ≡ t.recording_id) h
  pub attempt_positive : 0 < t.attempt
  pub attempt_bounded : t.attempt ≤ t.event_seq
  pub shaped : Shape t.status t

abbrev pub UniqueIds : List TaskRow → Type 0
UniqueIds [] = Unit
UniqueIds (t ∷ ts) = (find_task t.id ts ≡ none) × UniqueIds ts

pub record IsConsistent (db : Db) : Type 0 where
  pub logs :
      (j : String) (t : TaskRow) → find_task j db.tasks ≡ some t → TaskLog t (history j db.events)
  pub fresh : (j : String) → find_task j db.tasks ≡ none → history j db.events ≡ []
  pub unique : UniqueIds db.tasks
