-- ===== src/Service/Recover.antt =====
-- `RecoverService` of internal/application/processing/recover.go: the start of the service.
pub mod Laws
use text.Mathlib.Text.{starts_with}
use recording.Prelude.{
  ℕ, suc, ◌+◌, String, Bool, ◌&&◌, not, List, [], ◌∷◌, same, any, Result, ok, err, if◌then◌else◌,
}
use recording.Database.Rows.{Db}
use recording.Database.Tx.{Env}
use recording.Ports.{TxError}
use recording.ProcessingTx.Integrity.{inspect_integrity, list_storage_paths}
use recording.ProcessingTx.Reset.{reset_in_flight}
use recording.FileStore.{StoreError, Disk, delete_file, list_stored}
use recording.Service.{World}
use recording.Service.Delete.{cleanup_pending}

unfoldable pub inspect : Env → World → Result TxError (Unit {0})
inspect env w = inspect_integrity env w.db

-- Errors are logged there, and never returned.
unfoldable pub resume_deletions : (ℕ → Env) → (ℕ → Disk) → World → World
resume_deletions envs disks w = cleanup_pending envs disks w

abbrev pub after_reset : World → Result TxError ℕ × Db → Result TxError ℕ × World
after_reset w (err e, db) = (err e, record w { db = db })
after_reset w (ok n, db) = (ok n, record w { db = db })

unfoldable pub reset : Env → Bool → World → Result TxError ℕ × World
reset env interrupt w = after_reset w (reset_in_flight env interrupt w.db)

-- The files that are kept: referenced ones, unless they are temporary.
abbrev pub is_kept : List String → String → Bool
is_kept refs name = not (starts_with name "tmp-") && any (λ p. same p name) refs

abbrev pub counted : Result StoreError (Unit {0}) → ℕ → ℕ
counted (ok _) removed = removed + 1
counted (err e) removed = removed

unfoldable pub remove_all :
    (ℕ → Disk) → ℕ → List String → List String → ℕ → List String → ℕ × List String
remove_all disks i refs [] removed files = (removed, files)
remove_all disks i refs (name ∷ names) removed files =
    let kept = remove_all disks (suc i) refs names removed files in
    let (gone, files') = delete_file (disks i) name files in
    let went = remove_all disks (suc i) refs names (counted gone removed) files' in
    if is_kept refs name then kept else went

pub data OrphanError : Type 0 where
  list_failed : StoreError → OrphanError
  refs_failed : TxError → OrphanError

abbrev pub with_refs :
    (ℕ → Disk) → World → List String → Result TxError (List String) → Result OrphanError ℕ × World
with_refs disks w stored (err e) = (err (refs_failed e), w)
with_refs disks w stored (ok refs) =
    let (removed, files) = remove_all disks 1 refs stored 0 w.files in
    (ok removed, record w { files = files })

abbrev pub with_stored :
    Env → (ℕ → Disk) → World → Result StoreError (List String) → Result OrphanError ℕ × World
with_stored env disks w (err e) = (err (list_failed e), w)
with_stored env disks w (ok stored) = with_refs disks w stored (list_storage_paths env w.db)

unfoldable pub remove_orphan_files : Env → (ℕ → Disk) → World → Result OrphanError ℕ × World
unfolding remove_all
remove_orphan_files env disks w = with_stored env disks w (list_stored (disks 0) w.files)
