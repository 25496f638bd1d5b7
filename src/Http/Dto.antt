-- ===== src/Http/Dto.antt =====
-- internal/interfaces/http/dto: the bodies of the answers. Times are natural numbers of nanoseconds,
-- as in the rest of the model.
use recording.Prelude.{ℕ, String, Bool, List, Option, none, some, map}
use recording.Domain.Summary.{Summary}
use recording.Ports.{TaskError, TaskView, RecordingDetail, RecordingListItem, RecordingList}
use recording.ProcessingTx.Fail.{status_text}
use recording.Service.Upload.{UploadResult}
use recording.Service.Retry.{RetryResult}

pub record TaskErrorBody : Type 0 where
  pub code : ℕ
  pub message : String

pub record TaskBody : Type 0 where
  pub id : String
  pub recording_id : String
  pub status : String
  pub attempt : ℕ
  pub error : Option TaskErrorBody
  pub created_at : ℕ
  pub started_at : Option ℕ
  pub finished_at : Option ℕ
  pub next_retry_at : Option ℕ

abbrev pub error_of : Option TaskError → Option TaskErrorBody
error_of none = none
error_of (some e) = some (record { code = e.code; message = e.message })

unfoldable pub new_task_body : TaskView → TaskBody
new_task_body v = record {
  id = v.id;
  recording_id = v.recording_id;
  status = status_text v.status;
  attempt = v.attempt;
  error = error_of v.error;
  created_at = v.created_at;
  started_at = v.started_at;
  finished_at = v.finished_at;
  next_retry_at = v.next_retry_at;
}

pub record ResultBody : Type 0 where
  pub summary : String
  pub key_points : List String
  pub todos : List String

pub record RecordingDetailBody : Type 0 where
  pub id : String
  pub original_filename : String
  pub extension : String
  pub size_bytes : ℕ
  pub created_at : ℕ
  pub task : TaskBody
  pub transcript : Option String
  pub result : Option ResultBody

abbrev pub result_of : Option Summary → Option ResultBody
result_of none = none
result_of (some s) =
    some (record { summary = s.summary; key_points = s.key_points; todos = s.todos })

unfoldable pub new_recording_detail_body : RecordingDetail → RecordingDetailBody
unfolding new_task_body
new_recording_detail_body d = record {
  id = d.task.recording_id;
  original_filename = d.original_filename;
  extension = d.extension;
  size_bytes = d.size_bytes;
  created_at = d.created_at;
  task = new_task_body d.task;
  transcript = d.transcript;
  result = result_of d.result;
}

pub record RecordingListItemBody : Type 0 where
  pub id : String
  pub original_filename : String
  pub size_bytes : ℕ
  pub created_at : ℕ
  pub task_id : String
  pub status : String

abbrev pub item_body : RecordingListItem → RecordingListItemBody
item_body it = record {
  id = it.recording_id;
  original_filename = it.original_filename;
  size_bytes = it.size_bytes;
  created_at = it.created_at;
  task_id = it.task_id;
  status = status_text it.status;
}

pub record RecordingListBody : Type 0 where
  pub items : List RecordingListItemBody
  pub page : ℕ
  pub page_size : ℕ
  pub total : ℕ

unfoldable pub new_recording_list_body : RecordingList → RecordingListBody
new_recording_list_body l = record {
  items = map item_body l.items;
  page = l.page;
  page_size = l.page_size;
  total = l.total;
}

pub record UploadResponse : Type 0 where
  pub recording_id : String
  pub task_id : String
  pub status : String
  pub idempotent_reused : Bool

abbrev pub upload_response : UploadResult → UploadResponse
upload_response res = record {
  recording_id = res.recording_id;
  task_id = res.task_id;
  status = status_text res.status;
  idempotent_reused = res.idempotent_reused;
}

pub record RetryResponse : Type 0 where
  pub task_id : String
  pub status : String
  pub attempt : ℕ

abbrev pub retry_response : RetryResult → RetryResponse
retry_response res = record {
  task_id = res.task_id;
  status = status_text res.status;
  attempt = res.attempt;
}
