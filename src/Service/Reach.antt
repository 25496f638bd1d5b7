-- ===== src/Service/Reach.antt =====
-- The service as a whole: the use cases, the rounds of the workers and the recovery, in any order,
-- each with its own answers of the server and of the disk.
use recording.Prelude.{String, Bool, List, ℕ, sym, subst}
use recording.Database.Rows.{empty}
use recording.Database.Tx.{Env}
use recording.FileStore.{Disk, Store}
use recording.Service.{World}
use recording.Service.Upload.{UploadRequest, upload, new_input}
use recording.Service.Delete.{delete, cleanup_pending}
use recording.Service.Retry.{retry}
use recording.Database.Log.{IsConsistent}
use recording.Service.Upload.Laws.{new_input-IsFreshInput, upload-keeps}
use recording.Service.Delete.Laws.{delete-keeps, cleanup_pending-keeps}
use recording.Service.Process.Laws.{Returns, process-keeps}
use recording.Domain.Summary.Parse.Laws.{IsValid}
use recording.Service.Catalog.{IsCatalog}
use recording.Service.Catalog.Keeps.{
  Kept, claim-Kept, save-Kept, complete-Kept, fail-Kept, retry-Kept, reset-Kept, purge-Kept,
  mark-Kept, create-Kept,
}
use recording.Service.Process.{Round, Processing, process}
use recording.Service.Recover.{reset, remove_orphan_files}
use recording.Service.Recover.Laws.{orphans-db, remove_orphan_files-HasFiles}
use recording.Service.Sound.{Apart, IsSound}
use recording.Service.Sound.Writes.{
  retry-db, reset-db, IsSound-process, IsSound-retry, IsSound-reset,
}
use recording.Service.Sound.Deletes.{IsSound-delete_recording, IsSound-cleanup_pending}
use recording.Service.Sound.Uploads.{IsFresh, IsSound-upload}
use recording.System.{empty-IsConsistent}

infix 40 ◌↝◌ ◌↝*◌
-- One use of the service. A round of a worker sees the database only, and has its own view `s` of
-- the cancel table; the summarizer returns valid summaries only, as `Summarize` of llm.go does.
pub data ◌↝◌ : World → World → Type 0 where
  uploads :
      (env : Env) (store : Store) (disk : Disk) (req : UploadRequest) (w : World)
      → IsFresh env disk w.db.recordings
      → w ↝ (upload env store disk req w).1
  deletes :
      (envs : ℕ → Env) (disk : Disk) (recording_id : String) (w : World)
      → w ↝ (delete envs disk recording_id w).1
  cleans_up : (envs : ℕ → Env) (disks : ℕ → Disk) (w : World) → w ↝ cleanup_pending envs disks w
  retries : (env : Env) (task_id : String) (w : World) → w ↝ (retry env task_id w).1
  works :
      (r : Round) (s : Processing) (w : World)
      → ((text : String) → Returns IsValid (r.summarize text))
      → w ↝ record w { db = (process r (record s { db = w.db })).db }
  resets : (env : Env) (interrupt : Bool) (w : World) → w ↝ (reset env interrupt w).1
  sweeps : (env : Env) (disks : ℕ → Disk) (w : World) → w ↝ (remove_orphan_files env disks w).1

pub data ◌↝*◌ : World → World → Type 0 where
  here : {w : World} → w ↝* w
  use_of : {u w : World} (v : World) → u ↝ v → v ↝* w → u ↝* w

sweep-IsSound :
    (env : Env) (disks : ℕ → Disk) (w : World)
    → IsSound w.db w.files
    → IsSound (remove_orphan_files env disks w).1.db (remove_orphan_files env disks w).1.files
sweep-IsSound env disks w s =
    let (same_db, stored) = remove_orphan_files-HasFiles env disks w s.named s.stored in
    rw same_db
      (record { consistent = s.consistent; apart = s.apart; named = s.named; stored = stored })

step-IsSound : {w v : World} → w ↝ v → IsSound w.db w.files → IsSound v.db v.files
step-IsSound (uploads env store disk req w fresh) s = IsSound-upload env store disk req w fresh s
step-IsSound (deletes envs disk id w) s = IsSound-delete_recording envs disk id w s
step-IsSound (cleans_up envs disks w) s = IsSound-cleanup_pending envs disks w s
step-IsSound (retries env task_id w) s = IsSound-retry env task_id w s
step-IsSound (works r p w valid) s = IsSound-process r (record p { db = w.db }) w.files s
step-IsSound (resets env interrupt w) s = IsSound-reset env interrupt w s
step-IsSound (sweeps env disks w) s = sweep-IsSound env disks w s

-- Whatever uploads, deletions, clean-ups, retries, rounds of workers, resets and removals of orphan
-- files follow each other, with any failures of the server, of the disk and of the calls outside:
-- from a sound state they lead to a sound one. The database is consistent, no two recordings share a
-- file, none has a temporary name, and every recording that is not being deleted has its file. The
-- names that the store makes up for uploads are new, and not temporary.
pub uses-IsSound : {w v : World} → w ↝* v → IsSound w.db w.files → IsSound v.db v.files
uses-IsSound here s = s
uses-IsSound (use_of v u rest) s = uses-IsSound rest (step-IsSound u s)

-- An empty database is sound with any files.
pub empty-IsSound : (files : List String) → IsSound empty files
unfolding Apart
empty-IsSound files = record {
  consistent = empty-IsConsistent;
  apart = tt;
  named = tt;
  stored = tt;
}

upload-Kept :
    (env : Env) (store : Store) (disk : Disk) (req : UploadRequest) (w : World)
    → IsFresh env disk w.db.recordings
    → Kept w.db
    → Kept (upload env store disk req w).1.db
unfolding new_input
upload-Kept env store disk req w fresh k =
    upload-keeps Kept env store disk req w
      (λ ext stored.
        create-Kept env (new_input env req ext stored) w.db
          (new_input-IsFreshInput env req ext stored) fresh.id k)
      k

process-Kept :
    (r : Round) (s : Processing)
    → ((text : String) → Returns IsValid (r.summarize text))
    → Kept s.db
    → Kept (process r s).db
process-Kept =
    process-keeps IsValid Kept
      (record { claim = claim-Kept; save = save-Kept; complete = complete-Kept; fail = fail-Kept })

step-Kept : {w v : World} → w ↝ v → Kept w.db → Kept v.db
step-Kept (uploads env store disk req w fresh) k = upload-Kept env store disk req w fresh k
step-Kept (deletes envs disk id w) k = delete-keeps Kept mark-Kept purge-Kept envs disk id w k
step-Kept (cleans_up envs disks w) k =
    cleanup_pending-keeps Kept mark-Kept purge-Kept envs disks w k
step-Kept (retries env task_id w) k =
    subst Kept (sym (retry-db env task_id w)) (retry-Kept env task_id w.db k)
step-Kept (works r p w valid) k = process-Kept r (record p { db = w.db }) valid k
step-Kept (resets env interrupt w) k =
    subst Kept (sym (reset-db env interrupt w)) (reset-Kept env interrupt w.db k)
step-Kept (sweeps env disks w) k = subst Kept (sym (orphans-db env disks w)) k

steps-Kept : {w v : World} → w ↝* v → Kept w.db → Kept v.db
steps-Kept here k = k
steps-Kept (use_of v u rest) k = steps-Kept rest (step-Kept u k)

-- Deduplication: from an empty database, or any whose catalog is in order, whatever the uses of the
-- service and whatever fails, no two recordings that are shown have the same content, every recording
-- has a task and every task its recording, no recording has the empty id, and every finished task has
-- a valid summary.
pub uses-IsCatalog :
    {w v : World}
    → w ↝* v
    → IsConsistent w.db
    → IsCatalog w.db.recordings w.db.tasks
    → IsCatalog v.db.recordings v.db.tasks
uses-IsCatalog uses c o = (steps-Kept uses (c, o)).1
