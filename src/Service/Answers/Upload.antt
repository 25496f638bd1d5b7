-- ===== src/Service/Answers/Upload.antt =====
-- The codes of an upload.
use recording.Service.Upload.{
  Answer, UploadRequest, UploadResult, UploadError, save_error, rolled_back, reused_after,
  created_new, after_tx, after_save, after_extension, new_input, upload,
}
use recording.Prelude.{String, Bool, true, false, List, arith, Result, ok, err, if◌then◌else◌}
use recording.Domain.Status.{DomainError}
use recording.Domain.Filename.{parse_extension}
use recording.ErrorCode.{http_status}
use recording.Database.Rows.{Db}
use recording.Database.Tx.{Env}
use recording.FileStore.{StoreError, StoredFile, Store, Disk, delete_file, save}
use recording.Ports.{
  DriverError, driver_failed, stale_execution, data_inconsistent, task_not_found,
  recording_not_found, TxError, CreateInput, CreateOrReuseResult, commit_unknown,
}
use recording.RecordingTx.Create.{create_or_reuse_by_content_hash}
use recording.Service.{World}
use recording.Service.Answers.{IsAnswer}

-- An upload may also be interrupted.
abbrev pub IsUploadAnswered : {A : Type 0} → Result UploadError A → Type 0
IsUploadAnswered (err (UploadError.app code)) = IsAnswer code
IsUploadAnswered (err (UploadError.app_of_ctx code)) = IsAnswer code
IsUploadAnswered _ = Unit

save_error-IsAnswered : (e : StoreError) → IsUploadAnswered {A = UploadResult} (err (save_error e))
unfolding http_status
save_error-IsAnswered StoreError.empty_file = omega arith
save_error-IsAnswered StoreError.file_too_large = omega arith
save_error-IsAnswered StoreError.storage_unavailable = omega arith
save_error-IsAnswered StoreError.canceled = tt
save_error-IsAnswered StoreError.deadline_exceeded = tt
save_error-IsAnswered StoreError.read_failed = omega arith

rolled_back-IsAnswered :
    (disk : Disk) (stored : StoredFile) (e : TxError) (w : World)
    → IsUploadAnswered (rolled_back disk stored e w).0
unfolding http_status
rolled_back-IsAnswered disk stored (driver_failed DriverError.canceled) w = omega arith
rolled_back-IsAnswered disk stored (driver_failed DriverError.deadline_exceeded) w = omega arith
rolled_back-IsAnswered disk stored (driver_failed DriverError.other) w = omega arith
rolled_back-IsAnswered disk stored stale_execution w = omega arith
rolled_back-IsAnswered disk stored data_inconsistent w = omega arith
rolled_back-IsAnswered disk stored commit_unknown w = omega arith
rolled_back-IsAnswered disk stored task_not_found w = omega arith
rolled_back-IsAnswered disk stored recording_not_found w = omega arith
rolled_back-IsAnswered disk stored (TxError.app code) w = omega arith

reused_after-IsAnswered :
    (res : CreateOrReuseResult) (w : World) (r : Result StoreError (Unit {0}) × List String)
    → IsUploadAnswered (reused_after res w r).0
unfolding http_status
reused_after-IsAnswered res w (err e, files) = omega arith
reused_after-IsAnswered res w (ok u, files) = tt

either-IsAnswered :
    (b : Bool) (x y : Answer)
    → IsUploadAnswered x.0
    → IsUploadAnswered y.0
    → IsUploadAnswered (if b then x else y).0
either-IsAnswered true x y p q = p
either-IsAnswered false x y p q = q

after_tx-IsAnswered :
    (disk : Disk) (stored : StoredFile) (input : CreateInput) (w : World)
    (r : Result TxError CreateOrReuseResult × Db)
    → IsUploadAnswered (after_tx disk stored input w r).0
unfolding http_status
after_tx-IsAnswered disk stored input w (err commit_unknown, db) = omega arith
after_tx-IsAnswered disk stored input w (err e, db) =
    rolled_back-IsAnswered disk stored e (record w { db = db })
after_tx-IsAnswered disk stored input w (ok res, db) =
    either-IsAnswered res.reused _ (created_new input (record w { db = db }))
      (reused_after-IsAnswered res (record w { db = db })
        (delete_file disk stored.storage_path w.files))
      tt

after_save-IsAnswered :
    (env : Env) (disk : Disk) (req : UploadRequest) (ext : String) (w : World)
    (r : Result StoreError StoredFile × List String)
    → IsUploadAnswered (after_save env disk req ext w r).0
after_save-IsAnswered env disk req ext w (err e, files) = save_error-IsAnswered e
after_save-IsAnswered env disk req ext w (ok stored, files) =
    let input = new_input env req ext stored in
    after_tx-IsAnswered disk stored input (record w { files = files })
      (create_or_reuse_by_content_hash env input w.db)

after_extension-IsAnswered :
    (env : Env) (store : Store) (disk : Disk) (req : UploadRequest) (w : World)
    (r : Result DomainError String)
    → IsUploadAnswered (after_extension env store disk req w r).0
unfolding http_status
after_extension-IsAnswered env store disk req w (err e) = omega arith
after_extension-IsAnswered env store disk req w (ok ext) =
    after_save-IsAnswered env disk req ext w (save store disk req.file_part ext w.files)

pub upload-IsAnswered :
    (env : Env) (store : Store) (disk : Disk) (req : UploadRequest) (w : World)
    → IsUploadAnswered (upload env store disk req w).0
unfolding upload
upload-IsAnswered env store disk req w =
    after_extension-IsAnswered env store disk req w (parse_extension req.filename)
