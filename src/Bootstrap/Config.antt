-- ===== src/Bootstrap/Config.antt =====
-- `LoadConfig` of bootstrap/config.go.
pub mod Laws
use recording.Prelude.{
  ℕ, ◌+◌, ◌-◌, ◌*◌, ◌%◌, String, Bool, true, false, ◌&&◌, ◌||◌, not, List, [], ◌∷◌, ◌++◌, Option,
  none, some, same, ltb, leb, if◌then◌else◌, Result, ok, err,
}
use recording.Bootstrap.Environ.{
  Environ, env_int, env_duration, env_bool, env_default, env_mock_asr_delay, int_complaint,
  duration_complaint, bool_complaint, mock_asr_delay_complaint, parse_bool,
}
use recording.Decimal.{ℤ, pos, negsuc, atoi}

pub record Config : Type 0 where
  pub http_addr : String
  pub log_dir : String
  pub log_level : String
  pub log_max_size_mb : ℤ
  pub log_max_backups : ℤ
  pub log_max_age_days : ℤ
  pub data_dir : String
  pub mysql_dsn : String
  pub upload_max_file_bytes : ℤ
  pub upload_max_body_bytes : ℤ
  pub upload_min_free_bytes : ℕ
  pub upload_read_timeout : ℤ
  pub upload_total_timeout : ℤ
  pub worker_concurrency : ℤ
  pub task_poll_interval : ℤ
  pub mock_asr_delay : ℤ
  pub mock_asr_fail_first : Bool
  pub llm_base_url : String
  pub llm_model : String
  pub llm_api_key : String
  pub llm_timeout : ℤ
  pub db_query_timeout : ℤ
  pub shutdown_timeout : ℤ
  pub cleanup_interval : ℤ
  pub recovery_mode : String

-- What is wrong, by the names of the variables.
pub data ConfigError : Type 0 where
  malformed missing : List String → ConfigError
  bad_recovery_mode bad_file_mb bad_body_mb bad_free_mb body_below_file : ConfigError
  bad_read_timeout bad_total_timeout : ConfigError

-- The 64 bits of an integer, those of its product with 1024 * 1024, and bits as an `int64`.
abbrev pub bits : ℤ → ℕ
bits (pos n) = n % 18446744073709551616
bits (negsuc n) = 18446744073709551615 - n % 18446744073709551616

unfoldable pub megabytes : ℤ → ℕ
megabytes mb = (bits mb * 1048576) % 18446744073709551616

unfoldable pub to_int64 : ℕ → ℤ
to_int64 w = if ltb w 9223372036854775808 then pos w else negsuc (18446744073709551615 - w)

abbrev pub second : ℕ
second = 1000000000

abbrev pub upload_file_mb : Environ → ℤ
upload_file_mb e = env_int e "UPLOAD_MAX_FILE_MB" 50

abbrev pub upload_body_mb : Environ → ℤ
upload_body_mb e = env_int e "UPLOAD_MAX_BODY_MB" 53

abbrev pub upload_free_mb : Environ → ℤ
upload_free_mb e = env_int e "UPLOAD_MIN_FREE_DISK_MB" 512

-- The struct literal.
unfoldable pub config_of : Environ → Config
unfolding megabytes to_int64 parse_bool
config_of e = record {
  http_addr = env_default e "HTTP_ADDR" ":8080";
  log_dir = env_default e "LOG_DIR" "./logs";
  log_level = env_default e "LOG_LEVEL" "INFO";
  log_max_size_mb = env_int e "LOG_MAX_SIZE_MB" 20;
  log_max_backups = env_int e "LOG_MAX_BACKUPS" 5;
  log_max_age_days = env_int e "LOG_MAX_AGE_DAYS" 7;
  data_dir = env_default e "DATA_DIR" "./data/recordings";
  mysql_dsn = e.getenv "MYSQL_DSN";
  upload_max_file_bytes = to_int64 (megabytes (upload_file_mb e));
  upload_max_body_bytes = to_int64 (megabytes (upload_body_mb e));
  upload_min_free_bytes = megabytes (upload_free_mb e);
  upload_read_timeout = env_duration e "UPLOAD_READ_TIMEOUT" (30 * second);
  upload_total_timeout = env_duration e "UPLOAD_TOTAL_TIMEOUT" (600 * second);
  worker_concurrency = env_int e "WORKER_CONCURRENCY" 3;
  task_poll_interval = env_duration e "TASK_POLL_INTERVAL" second;
  mock_asr_delay = env_mock_asr_delay e;
  mock_asr_fail_first = env_bool e "MOCK_ASR_FAIL_FIRST" false;
  llm_base_url = e.getenv "LLM_BASE_URL";
  llm_model = e.getenv "LLM_MODEL";
  llm_api_key = e.getenv "LLM_API_KEY";
  llm_timeout = env_duration e "LLM_TIMEOUT" (60 * second);
  db_query_timeout = env_duration e "DB_QUERY_TIMEOUT" (3 * second);
  shutdown_timeout = env_duration e "SHUTDOWN_TIMEOUT" (20 * second);
  cleanup_interval = env_duration e "CLEANUP_INTERVAL" (30 * second);
  recovery_mode = env_default e "RECOVERY_MODE" "reset";
}

-- All malformed variables, in the order in which they are read.
unfoldable pub malformed_of : Environ → List String
unfolding parse_bool
malformed_of e =
    int_complaint e "UPLOAD_MAX_FILE_MB"
    ++ int_complaint e "UPLOAD_MAX_BODY_MB"
    ++ int_complaint e "UPLOAD_MIN_FREE_DISK_MB"
    ++ int_complaint e "LOG_MAX_SIZE_MB"
    ++ int_complaint e "LOG_MAX_BACKUPS"
    ++ int_complaint e "LOG_MAX_AGE_DAYS"
    ++ duration_complaint e "UPLOAD_READ_TIMEOUT"
    ++ duration_complaint e "UPLOAD_TOTAL_TIMEOUT"
    ++ int_complaint e "WORKER_CONCURRENCY"
    ++ duration_complaint e "TASK_POLL_INTERVAL"
    ++ mock_asr_delay_complaint e
    ++ bool_complaint e "MOCK_ASR_FAIL_FIRST"
    ++ duration_complaint e "LLM_TIMEOUT"
    ++ duration_complaint e "DB_QUERY_TIMEOUT"
    ++ duration_complaint e "SHUTDOWN_TIMEOUT"
    ++ duration_complaint e "CLEANUP_INTERVAL"

abbrev pub if_empty : String → String → List String
if_empty key v = if same v "" then key ∷ [] else []

-- The required variables that are empty; Go's map gives them in any order.
unfoldable pub missing_of : Config → List String
missing_of c =
    if_empty "MYSQL_DSN" c.mysql_dsn
    ++ if_empty "LLM_BASE_URL" c.llm_base_url
    ++ if_empty "LLM_MODEL" c.llm_model
    ++ if_empty "LLM_API_KEY" c.llm_api_key

abbrev pub is_positive : ℤ → Bool
is_positive (pos n) = ltb 0 n
is_positive (negsuc n) = false

abbrev pub is_negative : ℤ → Bool
is_negative (pos n) = false
is_negative (negsuc n) = true

-- a < b.
abbrev pub is_below : ℤ → ℤ → Bool
is_below (pos a) (pos b) = ltb a b
is_below (pos a) (negsuc b) = false
is_below (negsuc a) (pos b) = true
is_below (negsuc a) (negsuc b) = ltb b a

abbrev pub refuse_if : Bool → ConfigError → Result ConfigError Config → Result ConfigError Config
refuse_if b why rest = if b then err why else rest

-- The switch over the limits of uploads.
unfoldable pub check_limits : ℤ → ℤ → ℤ → Config → Result ConfigError Config
check_limits file body free c = refuse_if (not (is_positive file)) bad_file_mb (
    refuse_if (not (is_positive body)) bad_body_mb (
      refuse_if (is_negative free) bad_free_mb (
        refuse_if (is_below body file) body_below_file (
          refuse_if (not (is_positive c.upload_read_timeout)) bad_read_timeout
            (refuse_if (not (is_positive c.upload_total_timeout)) bad_total_timeout (ok c))))))

abbrev pub is_recovery_mode : String → Bool
is_recovery_mode mode = same mode "reset" || same mode "interrupt"

abbrev pub after_missing : Environ → List String → Config → Result ConfigError Config
after_missing e (key ∷ keys) c = err (missing (key ∷ keys))
after_missing e [] c =
    if is_recovery_mode c.recovery_mode
    then check_limits (upload_file_mb e) (upload_body_mb e) (upload_free_mb e) c
    else err bad_recovery_mode

abbrev pub after_malformed : Environ → List String → Config → Result ConfigError Config
after_malformed e (key ∷ keys) c = err (malformed (key ∷ keys))
after_malformed e [] c = after_missing e (missing_of c) c

unfoldable pub load_config : Environ → Result ConfigError Config
unfolding config_of malformed_of missing_of check_limits
load_config e = after_malformed e (malformed_of e) (config_of e)
