-- ===== src/Service.antt =====
-- internal/application: the use cases. What they share is the state below: the database and the data
-- directory through their ports, and what they have asked the worker pool and the cancel table for.
pub mod Files
pub mod Upload
pub mod Delete
pub mod Retry
pub mod Queries
pub mod Persist
pub mod Process
pub mod Recover
pub mod Sound
pub mod Catalog
pub mod Reach
pub mod Answers
use recording.Prelude.{ℕ, String, List}
use recording.Domain.Event.{TaskEvent}
use recording.Database.Rows.{Db}

-- `notified` counts the calls of `Notify`; `cancelled` are the tasks whose executions were
-- cancelled, and `mirrored` the events that only the log has, newest first.
pub record World : Type 0 where
  pub db : Db
  pub files : List String
  pub notified : ℕ
  pub cancelled : List String
  pub mirrored : List TaskEvent
