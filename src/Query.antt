-- ===== src/Query.antt =====
-- internal/infrastructure/persistence/mysql/query.go: the read-only adapter. Each query runs outside
-- any transaction; the rows of one call are read from one state of the database.
pub mod Laws
use recording.Prelude.{
  ℕ, ◌+◌, ◌-◌, ◌*◌, ◌%◌, String, Bool, true, false, ◌&&◌, ◌||◌, not, List, [], ◌∷◌, Option, none,
  some, ◌==◌, ltb, same, if◌then◌else◌, Result, ok, err, find?, keep, map, length, take, drop,
}
use recording.Domain.Status.{TaskStatus, done, DomainError, is_status}
use recording.Domain.Json.{Json}
use recording.Domain.Summary.{Summary}
use recording.Domain.Summary.Parse.{parse_summary}
use recording.Database.Table.{order_by}
use recording.Database.Rows.{RecordingRow, TaskRow, Db, str_ptr}
use recording.Database.Tx.{
  Env, select_task, select_recording, count_recordings, has_recording_id, has_task_id, is_some,
}
use recording.ProcessingTx.Integrity.{queried}
use recording.Ports.{
  TxError, TaskError, TaskView, RecordingDetail, RecordingListItem, RecordingList, DeletingCleanup,
  task_not_found, recording_not_found, data_inconsistent,
}

abbrev pub task_error : TaskRow → Option ℕ → Option TaskError
task_error po none = none
task_error po (some code) = some (record { code = code; message = po.error_message })

unfoldable pub task_view : TaskRow → TaskView
task_view po = record {
  id = po.id;
  recording_id = po.recording_id;
  status = po.status;
  attempt = po.attempt;
  error = task_error po po.error_code;
  created_at = po.created_at;
  started_at = po.started_at;
  finished_at = po.finished_at;
  next_retry_at = po.next_retry_at;
}

-- The parser's error, and a missing summary, are one error to the caller.
abbrev pub parsed : Result DomainError Summary → Result TxError (Option Summary)
parsed (ok s) = ok (some s)
parsed (err e) = err data_inconsistent

abbrev pub of_json : Option Json → Result TxError (Option Summary)
of_json none = err data_inconsistent
of_json (some j) = parsed (parse_summary (some j))

unfoldable pub summary_from_po : TaskRow → Result TxError (Option Summary)
summary_from_po po = of_json po.summary_json

abbrev pub visible_task : Option RecordingRow → TaskRow → Result TxError TaskView
visible_task none po = err task_not_found
visible_task (some rec) po =
    if is_some rec.deleting_at then err task_not_found else ok (task_view po)

abbrev pub task_of : Env → Db → Option TaskRow → Result TxError TaskView
task_of env db none = err task_not_found
task_of env db (some po) =
    queried (env.fails select_recording)
      (visible_task (find? (has_recording_id po.recording_id) db.recordings) po)

unfoldable pub get_task : Env → String → Db → Result TxError TaskView
unfolding task_view
get_task env task_id db =
    queried (env.fails select_task) (task_of env db (find? (has_task_id task_id) db.tasks))

-- WHERE recording_id = ?, and WHERE id = ? AND deleting_at IS [NOT] NULL.
abbrev pub is_task_of : RecordingRow → TaskRow → Bool
is_task_of r t = same t.recording_id r.id

abbrev pub is_visible : String → RecordingRow → Bool
is_visible id r = same r.id id && not (is_some r.deleting_at)

abbrev pub is_deleting : String → RecordingRow → Bool
is_deleting id r = same r.id id && is_some r.deleting_at

abbrev pub detail : RecordingRow → TaskRow → Option Summary → RecordingDetail
detail rec tk result = record {
  task = task_view tk;
  original_filename = rec.original_filename;
  extension = rec.extension;
  size_bytes = rec.size_bytes;
  created_at = rec.created_at;
  transcript = str_ptr tk.transcript;
  result = result;
}

abbrev pub with_result :
    RecordingRow → TaskRow → Result TxError (Option Summary) → Result TxError RecordingDetail
with_result rec tk (err e) = err e
with_result rec tk (ok result) = ok (detail rec tk result)

abbrev pub detail_of : RecordingRow → Option TaskRow → Result TxError RecordingDetail
detail_of rec none = err data_inconsistent
detail_of rec (some tk) =
    with_result rec tk (if is_status tk.status done then summary_from_po tk else ok none)

abbrev pub recording_of : Env → Db → Option RecordingRow → Result TxError RecordingDetail
recording_of env db none = err recording_not_found
recording_of env db (some rec) =
    queried (env.fails select_task) (detail_of rec (find? (is_task_of rec) db.tasks))

unfoldable pub get_recording : Env → String → Db → Result TxError RecordingDetail
unfolding summary_from_po task_view
get_recording env id db =
    queried (env.fails select_recording) (recording_of env db (find? (is_visible id) db.recordings))

-- ORDER BY created_at DESC, id DESC.
abbrev pub newest_before : Env → RecordingRow → RecordingRow → Bool
newest_before env a b =
    ltb b.created_at a.created_at || (a.created_at == b.created_at && env.text_before b.id a.id)

abbrev pub listed : Db → List RecordingRow
listed db = keep (λ (r : RecordingRow). not (is_some r.deleting_at)) db.recordings

-- An `int` of 64 bits that is at least zero, or zero where it has wrapped around to a negative one.
abbrev pub non_negative : ℕ → ℕ
non_negative n =
    if ltb (n % 18446744073709551616) 9223372036854775808 then n % 18446744073709551616 else 0

-- LIMIT page_size OFFSET (page - 1) * page_size, of which GORM leaves out an OFFSET below zero.
abbrev pub page_of : Env → Db → ℕ → ℕ → List RecordingRow
page_of env db page page_size =
    take page_size
      (drop (non_negative ((page - 1) * page_size)) (order_by (newest_before env) (listed db)))

abbrev pub item : RecordingRow → TaskRow → RecordingListItem
item r tk = record {
  recording_id = r.id;
  original_filename = r.original_filename;
  size_bytes = r.size_bytes;
  created_at = r.created_at;
  task_id = tk.id;
  status = tk.status;
}

abbrev pub push_item :
    RecordingRow
    → Option TaskRow
    → Result TxError (List RecordingListItem)
    → Result TxError (List RecordingListItem)
push_item r none rest = err data_inconsistent
push_item r (some tk) (err e) = err e
push_item r (some tk) (ok items) = ok (item r tk ∷ items)

-- The loop over the page; `recording_id` is unique, so the map has one task of a recording.
unfoldable pub items_of : List TaskRow → List RecordingRow → Result TxError (List RecordingListItem)
items_of ts [] = ok []
items_of ts (r ∷ rs) = push_item r (find? (is_task_of r) ts) (items_of ts rs)

abbrev pub listing :
    ℕ → ℕ → ℕ → Result TxError (List RecordingListItem) → Result TxError RecordingList
listing page page_size total (err e) = err e
listing page page_size total (ok items) =
    ok (record { items = items; page = page; page_size = page_size; total = total })

-- An empty page is returned before the tasks are queried.
abbrev pub page_items :
    Env → List TaskRow → List RecordingRow → Result TxError (List RecordingListItem)
page_items env ts [] = ok []
page_items env ts (r ∷ rs) = queried (env.fails select_task) (items_of ts (r ∷ rs))

unfoldable pub list_recordings : Env → ℕ → ℕ → Db → Result TxError RecordingList
unfolding items_of
list_recordings env page page_size db = queried (env.fails count_recordings) (
    queried (env.fails select_recording) (
      listing page page_size (length (listed db))
        (page_items env db.tasks (page_of env db page page_size))))

abbrev pub cleanup_without_task : RecordingRow → DeletingCleanup
cleanup_without_task rec = record {
  recording_id = rec.id;
  task_id = "";
  storage_path = rec.storage_path;
  status = none;
  attempt = 0;
  event_seq = 0;
}

abbrev pub cleanup : RecordingRow → Option TaskRow → DeletingCleanup
cleanup rec none = cleanup_without_task rec
cleanup rec (some tk) = record {
  recording_id = rec.id;
  task_id = tk.id;
  storage_path = rec.storage_path;
  status = some tk.status;
  attempt = tk.attempt;
  event_seq = tk.event_seq;
}

-- Any error of the query, not only a missing row, leaves the task out.
unfoldable pub deleting_of : Env → Db → RecordingRow → DeletingCleanup
deleting_of env db rec = elim (env.fails select_task) [
  | some _ ↦ cleanup_without_task rec
  | none ↦ cleanup rec (find? (is_task_of rec) db.tasks)
]

abbrev pub found_deleting : Env → Db → Option RecordingRow → Result TxError (Option DeletingCleanup)
found_deleting env db none = ok none
found_deleting env db (some rec) = ok (some (deleting_of env db rec))

unfoldable pub get_deleting : Env → String → Db → Result TxError (Option DeletingCleanup)
unfolding deleting_of
get_deleting env recording_id db =
    queried (env.fails select_recording)
      (found_deleting env db (find? (is_deleting recording_id) db.recordings))

abbrev pub time_of : Option ℕ → ℕ
time_of none = 0
time_of (some t) = t

-- ORDER BY deleting_at, id.
abbrev pub oldest_mark_before : Env → RecordingRow → RecordingRow → Bool
oldest_mark_before env a b =
    ltb (time_of a.deleting_at) (time_of b.deleting_at)
    || (time_of a.deleting_at == time_of b.deleting_at && env.text_before a.id b.id)

unfoldable pub list_deleting : Env → Db → Result TxError (List DeletingCleanup)
unfolding deleting_of
list_deleting env db = queried (env.fails select_recording) (
    ok (
      map (deleting_of env db) (
        order_by (oldest_mark_before env)
          (keep (λ (r : RecordingRow). is_some r.deleting_at) db.recordings))))
