-- ===== src/ErrorCode.antt =====
-- internal/application/errorcode/errorcode.go: the codes, their numbers, HTTP statuses, messages and
-- mnemonics. Every code that the program names is a constructor.
pub mod Registry
use recording.Prelude.{ℕ, String}

pub data ErrorCode : Type 0 where
  invalid_argument route_not_found method_not_allowed file_required : ErrorCode
  empty_file unsupported_extension file_too_large recording_not_found : ErrorCode
  recording_delete_pending task_not_found task_not_retryable service_interrupted : ErrorCode
  asr_failed llm_timeout llm_upstream_error llm_invalid_output : ErrorCode
  database_unavailable file_storage_unavailable internal_error data_inconsistent : ErrorCode
  service_not_ready : ErrorCode

-- The integer value of a constant.
unfoldable pub number : ErrorCode → ℕ
number invalid_argument = 10001
number route_not_found = 10002
number method_not_allowed = 10003
number file_required = 20001
number empty_file = 20002
number unsupported_extension = 20003
number file_too_large = 20004
number recording_not_found = 20005
number recording_delete_pending = 20006
number task_not_found = 30001
number task_not_retryable = 30002
number service_interrupted = 30003
number asr_failed = 40001
number llm_timeout = 50001
number llm_upstream_error = 50002
number llm_invalid_output = 50003
number database_unavailable = 90002
number file_storage_unavailable = 90003
number internal_error = 90001
number data_inconsistent = 90004
number service_not_ready = 90005

-- 0 for a code that is stored with a task and never answers a request.
unfoldable pub http_status : ErrorCode → ℕ
http_status invalid_argument = 400
http_status route_not_found = 404
http_status method_not_allowed = 405
http_status file_required = 400
http_status empty_file = 400
http_status unsupported_extension = 400
http_status file_too_large = 413
http_status recording_not_found = 404
http_status recording_delete_pending = 503
http_status task_not_found = 404
http_status task_not_retryable = 409
http_status service_interrupted = 0
http_status asr_failed = 0
http_status llm_timeout = 0
http_status llm_upstream_error = 0
http_status llm_invalid_output = 0
http_status database_unavailable = 503
http_status file_storage_unavailable = 503
http_status internal_error = 500
http_status data_inconsistent = 500
http_status service_not_ready = 503

unfoldable pub message : ErrorCode → String
message invalid_argument = "请求参数非法"
message route_not_found = "接口不存在"
message method_not_allowed = "HTTP 方法不支持"
message file_required = "缺少 file 文件字段"
message empty_file = "文件为空"
message unsupported_extension = "不支持的文件扩展名"
message file_too_large = "文件大小超过上限"
message recording_not_found = "录音不存在"
message recording_delete_pending = "录音删除尚未完成，请稍后重试"
message task_not_found = "任务不存在"
message task_not_retryable = "仅失败任务允许重试"
message service_interrupted = "服务重启中断了任务，请手动重试"
message asr_failed = "转写失败"
message llm_timeout = "摘要生成超时"
message llm_upstream_error = "摘要服务暂不可用"
message llm_invalid_output = "摘要结果不符合预期格式"
message database_unavailable = "数据库暂不可用"
message file_storage_unavailable = "文件存储暂不可用"
message internal_error = "内部错误"
message data_inconsistent = "数据关联异常"
message service_not_ready = "服务未就绪，暂不接收上传"

unfoldable pub mnemonic : ErrorCode → String
mnemonic invalid_argument = "INVALID_ARGUMENT"
mnemonic route_not_found = "ROUTE_NOT_FOUND"
mnemonic method_not_allowed = "METHOD_NOT_ALLOWED"
mnemonic file_required = "FILE_REQUIRED"
mnemonic empty_file = "EMPTY_FILE"
mnemonic unsupported_extension = "UNSUPPORTED_FILE_EXTENSION"
mnemonic file_too_large = "FILE_TOO_LARGE"
mnemonic recording_not_found = "RECORDING_NOT_FOUND"
mnemonic recording_delete_pending = "RECORDING_DELETE_PENDING"
mnemonic task_not_found = "TASK_NOT_FOUND"
mnemonic task_not_retryable = "TASK_NOT_RETRYABLE"
mnemonic service_interrupted = "SERVICE_INTERRUPTED"
mnemonic asr_failed = "ASR_FAILED"
mnemonic llm_timeout = "LLM_TIMEOUT"
mnemonic llm_upstream_error = "LLM_UPSTREAM_ERROR"
mnemonic llm_invalid_output = "LLM_INVALID_OUTPUT"
mnemonic database_unavailable = "DATABASE_UNAVAILABLE"
mnemonic file_storage_unavailable = "FILE_STORAGE_UNAVAILABLE"
mnemonic internal_error = "INTERNAL_ERROR"
mnemonic data_inconsistent = "DATA_INCONSISTENT"
mnemonic service_not_ready = "SERVICE_NOT_READY"
