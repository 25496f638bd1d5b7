-- ===== src/Service/Answers.antt =====
-- The codes with which the use cases of internal/application/recording fail have an HTTP status of an
-- error: none is one of the codes that are only stored with a task.
pub mod Retry
pub mod Delete
pub mod Upload
use recording.Prelude.{
  ℕ, ◌≤◌, ◌≡◌, refl, String, Bool, true, false, ◌||◌, List, Option, none, some, ltb, inl, inr,
  arith, Bool-cases, Option-cases, Result, ok, err, if◌then◌else◌,
}
use recording.Decimal.{ℤ, pos, negsuc}
use recording.ErrorCode.{ErrorCode, http_status}
use recording.Database.Rows.{Db}
use recording.Database.Tx.{Env}
use recording.Ports.{TxError, data_inconsistent, task_not_found, recording_not_found}
use recording.Query.{get_task, get_recording, list_recordings}
use recording.Service.Queries.{
  map_err, mapped, max_page_size, query_task, query_recording, query_recordings,
}

-- The code has the status of an error.
abbrev pub IsAnswer : ErrorCode → Type 0
IsAnswer code = 400 ≤ http_status code

pub map_err-IsAnswer : (e : TxError) → IsAnswer (map_err e)
unfolding http_status
map_err-IsAnswer task_not_found = omega arith
map_err-IsAnswer recording_not_found = omega arith
map_err-IsAnswer data_inconsistent = omega arith
map_err-IsAnswer _ = omega arith

-- A use case fails with such a code only.
abbrev pub IsAnswered : {A : Type 0} → Result ErrorCode A → Type 0
IsAnswered (ok a) = Unit
IsAnswered (err code) = IsAnswer code

mapped-IsAnswered : {A : Type 0} (r : Result TxError A) → IsAnswered (mapped r)
mapped-IsAnswered (ok a) = tt
mapped-IsAnswered (err e) = map_err-IsAnswer e

pub query_task-IsAnswered : (env : Env) (id : String) (db : Db) → IsAnswered (query_task env id db)
unfolding query_task
query_task-IsAnswered env id db = mapped-IsAnswered (get_task env id db)

pub query_recording-IsAnswered :
    (env : Env) (id : String) (db : Db) → IsAnswered (query_recording env id db)
unfolding query_recording
query_recording-IsAnswered env id db = mapped-IsAnswered (get_recording env id db)

pub query_recordings-IsAnswered :
    (env : Env) (page page_size : ℤ) (db : Db) → IsAnswered (query_recordings env page page_size db)
unfolding query_recordings http_status
query_recordings-IsAnswered env (pos p) (pos s) db =
    elim (Bool-cases ((ltb p 1 || ltb s 1) || ltb max_page_size s)) [
      | inl off ↦ rw off (omega arith)
      | inr fine ↦ rw fine (mapped-IsAnswered (list_recordings env p s db))
    ]
query_recordings-IsAnswered env (pos p) (negsuc s) db = omega arith
query_recordings-IsAnswered env (negsuc p) s db = omega arith
