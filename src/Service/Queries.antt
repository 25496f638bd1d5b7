-- ===== src/Service/Queries.antt =====
-- `QueryService` of internal/application/recording/query.go.
use recording.Prelude.{ℕ, String, ◌||◌, Result, ok, err, ltb, if◌then◌else◌}
use recording.ErrorCode.{ErrorCode}
use recording.Database.Rows.{Db}
use recording.Database.Tx.{Env}
use recording.Ports.{
  TxError, TaskView, RecordingDetail, RecordingList, task_not_found, recording_not_found,
  data_inconsistent,
}
use recording.Decimal.{ℤ, pos}
use recording.Query.{get_task, get_recording, list_recordings}

abbrev pub max_page_size : ℕ
max_page_size = 100

abbrev pub map_err : TxError → ErrorCode
map_err task_not_found = ErrorCode.task_not_found
map_err recording_not_found = ErrorCode.recording_not_found
map_err data_inconsistent = ErrorCode.data_inconsistent
map_err _ = ErrorCode.database_unavailable

abbrev pub mapped : {A : Type 0} → Result TxError A → Result ErrorCode A
mapped (ok a) = ok a
mapped (err e) = err (map_err e)

unfoldable pub query_task : Env → String → Db → Result ErrorCode TaskView
query_task env task_id db = mapped (get_task env task_id db)

unfoldable pub query_recording : Env → String → Db → Result ErrorCode RecordingDetail
query_recording env id db = mapped (get_recording env id db)

-- page <= 0 || page_size <= 0 || page_size > MaxPageSize.
unfoldable pub query_recordings : Env → ℤ → ℤ → Db → Result ErrorCode RecordingList
query_recordings env (pos page) (pos page_size) db =
    if (ltb page 1 || ltb page_size 1) || ltb max_page_size page_size
    then err ErrorCode.invalid_argument
    else mapped (list_recordings env page page_size db)
query_recordings env _ _ db = err ErrorCode.invalid_argument
