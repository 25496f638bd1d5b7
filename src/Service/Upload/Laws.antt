-- ===== src/Service/Upload/Laws.antt =====
-- What an upload leaves behind.
use recording.Prelude.{
  ◌∙◌, ◌⊎◌, ◌≡◌, ◌≢◌, inl, inr, refl, sym, ap, subst, String, true, false, List, ◌∷◌, Result, ok,
  err, Bool-cases,
}
use recording.Domain.Status.{DomainError}
use recording.Domain.Filename.{parse_extension}
use recording.Database.Rows.{Db, to_recording_po}
use recording.Database.Tx.{Env}
use recording.Database.Log.{IsConsistent}
use recording.Ports.{
  TxError, stale_execution, data_inconsistent, commit_unknown, task_not_found, recording_not_found,
  driver_failed, CreateInput, CreateOrReuseResult,
}
use recording.FileStore.{
  Disk, Store, StoreError, StoredFile, tmp_name, final_name, save, delete_file,
}
use recording.RecordingTx.Create.{create_or_reuse_by_content_hash, created}
use recording.RecordingTx.Create.Laws.{
  IsFreshInput, create_or_reuse-IsConsistent, Recorded, create_or_reuse-Recorded,
}
use recording.Service.{World}
use recording.Service.Files.{
  has_file, HasFiles, IsUnreferenced, stored-name, HasFiles-save, stored-has_file,
  HasFiles-delete_file,
}
use recording.Service.Upload.{
  UploadRequest, new_input, reused_after, after_tx, after_save, after_extension, upload,
}

-- The input of the transaction is a fresh aggregate.
pub new_input-IsFreshInput :
    (env : Env) (req : UploadRequest) (ext : String) (stored : StoredFile)
    → IsFreshInput (new_input env req ext stored)
unfolding new_input
new_input-IsFreshInput env req ext stored = record {
  status = refl;
  attempt = refl;
  event_seq = refl;
  finished_at = refl;
  recording = refl;
  event_task = refl;
  event_recording = refl;
  first = refl;
  from_status = refl;
  to_status = refl;
}

pub new_input-path :
    (env : Env) (req : UploadRequest) (ext : String) (stored : StoredFile)
    → (new_input env req ext stored).recording.storage_path ≡ stored.storage_path
unfolding new_input
new_input-path env req ext stored = refl

ok-injective : {E A : Type 0} (a b : A) → Path (Result E A) (ok a) (ok b) → a ≡ b
ok-injective a b h = cc

err-injective : {E A : Type 0} (a b : E) → Path (Result E A) (err a) (err b) → a ≡ b
err-injective a b h = cc

-- The answer's database is the transaction's.
pub after_tx-db :
    (disk : Disk) (stored : StoredFile) (input : CreateInput) (w : World)
    (out : Result TxError CreateOrReuseResult × Db)
    → (after_tx disk stored input w out).1.db ≡ out.1
after_tx-db disk stored input w (err commit_unknown, db) = refl
after_tx-db disk stored input w (err stale_execution, db) = refl
after_tx-db disk stored input w (err data_inconsistent, db) = refl
after_tx-db disk stored input w (err task_not_found, db) = refl
after_tx-db disk stored input w (err recording_not_found, db) = refl
after_tx-db disk stored input w (err (driver_failed e), db) = refl
after_tx-db disk stored input w (err (TxError.app e), db) = refl
after_tx-db disk stored input w (ok res, db) = elim (Bool-cases res.reused) [
  | inl again ↦ rw again (reused_after-db (delete_file disk stored.storage_path w.files))
  | inr new ↦ rw new refl
]
  where
    reused_after-db :
        (d : Result StoreError (Unit {0}) × List String)
        → (reused_after res (record w { db = db }) d).1.db ≡ db
    reused_after-db (err e, files) = refl
    reused_after-db (ok _, files) = refl

-- What the transaction keeps, an upload keeps.
pub upload-keeps :
    (P : Db → Type 0) (env : Env) (store : Store) (disk : Disk) (req : UploadRequest) (w : World)
    → ((ext : String) (stored : StoredFile)
        → P (create_or_reuse_by_content_hash env (new_input env req ext stored) w.db).1)
    → P w.db
    → P (upload env store disk req w).1.db
unfolding upload
upload-keeps P env store disk req w creates c = by_extension (parse_extension req.filename)
  where
    by_save :
        (ext : String) (out : Result StoreError StoredFile × List String)
        → P (after_save env disk req ext w out).1.db
    by_save ext (err e, files) = c
    by_save ext (ok stored, files) =
        let input = new_input env req ext stored in
        let w' : World = record w { files = files } in
        subst P
          (sym (after_tx-db disk stored input w' (create_or_reuse_by_content_hash env input w.db)))
          (creates ext stored)

    by_extension :
        (ext : Result DomainError String) → P (after_extension env store disk req w ext).1.db
    by_extension (err e) = c
    by_extension (ok ext) = by_save ext (save store disk req.file_part ext w.files)

-- An upload keeps the database consistent, whatever the disk and the server do.
pub upload-IsConsistent :
    (env : Env) (store : Store) (disk : Disk) (req : UploadRequest) (w : World)
    → IsConsistent w.db
    → IsConsistent (upload env store disk req w).1.db
upload-IsConsistent env store disk req w c =
    upload-keeps IsConsistent env store disk req w
      (λ ext stored.
        create_or_reuse-IsConsistent env (new_input env req ext stored) w.db
          (new_input-IsFreshInput env req ext stored) c)
      c

abbrev Kept : World → Type 0
Kept w = HasFiles w.db.recordings w.files

-- Deleting the new file is harmless where no recording refers to it.
reused-Kept :
    (disk : Disk) (name : String) (res : CreateOrReuseResult) (w : World)
    → IsUnreferenced name w.db.recordings
    → Kept w
    → Kept (reused_after res w (delete_file disk name w.files)).1
reused-Kept disk name res w u h =
    by_answer (delete_file disk name w.files)
      (HasFiles-delete_file disk name w.db.recordings w.files u h)
  where
    by_answer :
        (d : Result StoreError (Unit {0}) × List String)
        → HasFiles w.db.recordings d.1
        → Kept (reused_after res w d).1
    by_answer (err e, files) h' = h'
    by_answer (ok _, files) h' = h'

module _ (env : Env) (disk : Disk) (stored : StoredFile) (input : CreateInput) (w : World)
    (path : input.recording.storage_path ≡ stored.storage_path)
    (u : IsUnreferenced stored.storage_path w.db.recordings)
    (there : has_file stored.storage_path w.files ≡ true) (h : Kept w) where
  still : (db : Db) → db.recordings ≡ w.db.recordings → HasFiles db.recordings w.files
  still db same_recordings = rw same_recordings h

  with_new :
      (db : Db)
      → db.recordings ≡ to_recording_po input.recording ∷ w.db.recordings
      → HasFiles db.recordings w.files
  with_new db more =
      rw more ((λ visible. subst (λ p. has_file p w.files ≡ true) (sym path) there), h)

  -- A definite failure has added nothing, and deletes the new file.
  rolled_back-Kept :
      (e : TxError) (db : Db)
      → e ≢ commit_unknown
      → Recorded env input w.db (err e, db)
      → HasFiles db.recordings (delete_file disk stored.storage_path w.files).1
  rolled_back-Kept e db definite (Recorded.kept same_recordings _) =
      rw same_recordings (HasFiles-delete_file disk stored.storage_path w.db.recordings w.files u h)
  rolled_back-Kept e db definite (Recorded.added more (inl success)) = cc
  rolled_back-Kept e db definite (Recorded.added more (inr unknown)) =
      absurd (definite (err-injective e commit_unknown unknown))

  unknown-Kept :
      (db : Db) → Recorded env input w.db (err commit_unknown, db) → HasFiles db.recordings w.files
  unknown-Kept db (Recorded.kept same_recordings _) = still db same_recordings
  unknown-Kept db (Recorded.added more _) = with_new db more

  is_reused :
      (res : CreateOrReuseResult)
      → ((x : CreateOrReuseResult) × (Path (Result TxError CreateOrReuseResult) (ok res) (ok x))
          × (x.reused ≡ true))
        ⊎ ((e : TxError) × (Path (Result TxError CreateOrReuseResult) (ok res) (err e)))
      → res.reused ≡ true
  is_reused res (inl (x, same_result, again)) =
      ap (λ y. y.reused) (ok-injective res x same_result) ∙ again
  is_reused res (inr (e, broken)) = cc

  success-Kept :
      (res : CreateOrReuseResult) (db : Db)
      → Recorded env input w.db (ok res, db)
      → Kept (after_tx disk stored input w (ok res, db)).1
  success-Kept res db (Recorded.kept same_recordings again) = rw (is_reused res again) (
      reused-Kept disk stored.storage_path res (record w { db = db }) (rw same_recordings u)
        (still db same_recordings))
  success-Kept res db (Recorded.added more (inl is_created)) =
      let new : res.reused ≡ false =
        ap (λ x. x.reused) (ok-injective res (created input) is_created) in
      rw new (with_new db more)
  success-Kept res db (Recorded.added more (inr unknown)) = cc

  after_tx-Kept :
      (out : Result TxError CreateOrReuseResult × Db)
      → Recorded env input w.db out
      → Kept (after_tx disk stored input w out).1
  after_tx-Kept (err commit_unknown, db) r = unknown-Kept db r
  after_tx-Kept (err stale_execution, db) r = rolled_back-Kept stale_execution db (λ e. cc) r
  after_tx-Kept (err data_inconsistent, db) r = rolled_back-Kept data_inconsistent db (λ e. cc) r
  after_tx-Kept (err task_not_found, db) r = rolled_back-Kept task_not_found db (λ e. cc) r
  after_tx-Kept (err recording_not_found, db) r =
      rolled_back-Kept recording_not_found db (λ e. cc) r
  after_tx-Kept (err (driver_failed x), db) r = rolled_back-Kept (driver_failed x) db (λ e. cc) r
  after_tx-Kept (err (TxError.app x), db) r = rolled_back-Kept (TxError.app x) db (λ e. cc) r
  after_tx-Kept (ok res, db) r = success-Kept res db r

-- After an upload every recording that is not being deleted has its file, if that was so before and
-- the two names that the store makes up are not those of a recording's file: also where a statement
-- fails, the reply to COMMIT is lost, or the duplicate file is deleted.
pub upload-HasFiles :
    (env : Env) (store : Store) (disk : Disk) (req : UploadRequest) (w : World)
    → ((ext : String) → IsUnreferenced (final_name disk ext) w.db.recordings)
    → IsUnreferenced (tmp_name disk) w.db.recordings
    → HasFiles w.db.recordings w.files
    → HasFiles (upload env store disk req w).1.db.recordings (upload env store disk req w).1.files
unfolding upload
upload-HasFiles env store disk req w u ut h = by_extension (parse_extension req.filename)
  where
    by_save :
        (ext : String) (out : Result StoreError StoredFile × List String)
        → save store disk req.file_part ext w.files ≡ out
        → Kept (after_save env disk req ext w out).1
    by_save ext (err e, files) at =
        HasFiles-save store disk req.file_part ext w.db.recordings w.files files (err e) ut at h
    by_save ext (ok stored, files) at =
        let w' : World = record w { files = files } in
        after_tx-Kept env disk stored (new_input env req ext stored) w'
          (new_input-path env req ext stored)
          (subst (λ p. IsUnreferenced p w.db.recordings)
            (sym (stored-name store disk req.file_part ext w.files files stored at)) (u ext))
          (stored-has_file store disk req.file_part ext w.files files stored at)
          (HasFiles-save store disk req.file_part ext w.db.recordings w.files files (ok stored) ut
            at h)
          (create_or_reuse_by_content_hash env (new_input env req ext stored) w.db)
          (create_or_reuse-Recorded env (new_input env req ext stored) w.db)

    by_extension :
        (ext : Result DomainError String) → Kept (after_extension env store disk req w ext).1
    by_extension (err e) = h
    by_extension (ok ext) = by_save ext (save store disk req.file_part ext w.files) refl
