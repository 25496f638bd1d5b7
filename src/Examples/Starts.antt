-- ===== src/Examples/Starts.antt =====
-- The configuration, a start and a stop on concrete data.
use recording.Prelude.{ℕ, ◌<◌, ◌≤◌, ◌≡◌, refl, true, false, [], none, some, same, if◌then◌else◌, ok}
use recording.Decimal.{pos, atoi}
use recording.System.{reachable-IsConsistent}
use recording.Bootstrap.Environ.{Environ}
use recording.Bootstrap.Config.{upload_file_mb, upload_body_mb, config_of, load_config}
use recording.Bootstrap.Config.Laws.{IsAccepted, IsExact, load_config_lem}
use recording.Bootstrap.Startup.{Boot, new_app}
use recording.Bootstrap.Startup.Laws.{IsStarted, new_app_lem}
use recording.Bootstrap.Lifecycle.{Lifecycle, Waits, shutdown}
use recording.Bootstrap.Lifecycle.Laws.{IsStopped, shutdown_lem}
use recording.Examples.Data.{quiet, sound_disk, to_uploaded}
use recording.Examples.Services.{world_1}

-- The required variables and nothing else.
abbrev environ_1 : Environ
environ_1 = record {
  getenv = λ key.
      if same key "MYSQL_DSN"
      then "dsn"
      else if same key "LLM_BASE_URL"
      then "http://llm/v1"
      else if same key "LLM_MODEL"
      then "m"
      else if same key "LLM_API_KEY"
      then "k"
      else "";
  parse_duration = λ text. none;
}

loaded_1 : load_config environ_1 ≡ ok (config_of environ_1)
unfolding load_config same atoi
loaded_1 = refl

load_config_lem_example :
    IsAccepted environ_1 (config_of environ_1)
    × ((f : ℕ) × (b : ℕ) × (upload_file_mb environ_1 ≡ pos f)
        × (upload_body_mb environ_1 ≡ pos b)
        × (0 < f)
        × (f ≤ b)
        × IsExact f b (config_of environ_1))
load_config_lem_example = load_config_lem environ_1 (config_of environ_1) loaded_1

abbrev boot_1 : Boot
boot_1 = record {
  logging_fails = false;
  open_fails = false;
  migration_fails = false;
  data_dir_fails = false;
  inspect_env = quiet "i" 60;
  deletion_envs = λ i. quiet "j" 61;
  deletion_disks = λ i. sound_disk;
  reset_env = quiet "k" 62;
  orphan_env = quiet "l" 63;
  orphan_disks = λ i. sound_disk;
}

new_app_lem_example : IsStarted world_1 (new_app boot_1 "reset" 3 world_1)
new_app_lem_example = new_app_lem boot_1 "reset" 3 world_1 (reachable-IsConsistent to_uploaded)

abbrev lifecycle_1 : Lifecycle
lifecycle_1 = record {
  timeout = 20;
  pool = record {
    workers = [];
    started = true;
    stopped = false;
    drained = false;
    parent_done = false;
    run_cancelled = false;
    claim_cancelled = false;
  };
  ready = true;
  cleanup_cancelled = false;
  run_cancelled = false;
  shut = false;
  db_closed = false;
}

-- The workers never end.
abbrev waits_1 : Waits
waits_1 = record {
  server = some 5;
  workers = none;
  done_first = false;
  stop = none;
  cleanup = some 1;
  close_fails = false;
}

shutdown_lem_example : IsStopped waits_1 lifecycle_1 (shutdown waits_1 lifecycle_1)
shutdown_lem_example = shutdown_lem waits_1 lifecycle_1 refl
