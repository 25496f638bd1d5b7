-- ===== src/Bootstrap/Startup.antt =====
-- `NewApp` of bootstrap/wire.go: the order of the start, and what its failures do. What is only
-- assembled there (the handlers, the services, the server) has no step of its own.
pub mod Laws
use recording.Prelude.{ℕ, String, Bool, true, false, if◌then◌else◌, same, Result, ok, err}
use recording.Database.Tx.{Env}
use recording.FileStore.{Disk}
use recording.Ports.{TxError}
use recording.Pool.{Pool, new_pool, start}
use recording.Service.{World}
use recording.Service.Recover.{OrphanError, inspect, resume_deletions, reset, remove_orphan_files}

-- The error with which NewApp returns.
pub data StartError : Type 0 where
  logging_failed open_failed migration_failed data_dir_failed : StartError
  reset_failed : TxError → StartError

-- What the outside answers, in the order of the calls. `runCtx` is new, so that it is not done.
pub record Boot : Type 0 where
  pub logging_fails : Bool
  pub open_fails : Bool
  pub migration_fails : Bool
  pub data_dir_fails : Bool
  pub inspect_env : Env
  pub deletion_envs : ℕ → Env
  pub deletion_disks : ℕ → Disk
  pub reset_env : Env
  pub orphan_env : Env
  pub orphan_disks : ℕ → Disk

pub record App : Type 0 where
  pub ready : Bool
  pub pool : Pool
  pub cleanup_runs : Bool
  pub world : World

abbrev pub Started : Type 0
Started = Result StartError App × World

-- Step 7. The result of the search for orphan files is only logged.
abbrev pub after_orphans : ℕ → Result OrphanError ℕ × World → Started
after_orphans workers (_, w) = (
  ok (record {
    ready = true;
    pool = start (new_pool workers false);
    cleanup_runs = true;
    world = w;
  }),
  w,
)

-- Step 6, unless the reset has failed.
abbrev pub after_reset : Boot → ℕ → Result TxError ℕ × World → Started
after_reset b workers (err e, w) = (err (reset_failed e), w)
after_reset b workers (ok n, w) =
    after_orphans workers (remove_orphan_files b.orphan_env b.orphan_disks w)

-- Steps 4 and 5, unless the inspection has failed: then the application is up and not ready.
abbrev pub after_inspect : Boot → Bool → ℕ → World → Result TxError (Unit {0}) → Started
after_inspect b interrupt workers w (err e) = (
  ok (record { ready = false; pool = new_pool workers false; cleanup_runs = false; world = w }),
  w,
)
after_inspect b interrupt workers w (ok _) =
    after_reset b workers
      (reset b.reset_env interrupt (resume_deletions b.deletion_envs b.deletion_disks w))

abbrev pub unless : Bool → StartError → World → Started → Started
unless fails e w rest = if fails then (err e, w) else rest

-- `recovery_mode` and `workers` are of the configuration.
unfoldable pub new_app : Boot → String → ℕ → World → Started
new_app b recovery_mode workers w = unless b.logging_fails logging_failed w (
    unless b.open_fails open_failed w (
      unless b.migration_fails migration_failed w (
        unless b.data_dir_fails data_dir_failed w
          (after_inspect b (same recovery_mode "interrupt") workers w (inspect b.inspect_env w)))))
