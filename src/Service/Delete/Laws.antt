-- ===== src/Service/Delete/Laws.antt =====
-- What the deletion of a recording leaves behind.
use recording.Prelude.{
  ℕ, suc, ◌≡◌, ◌≢◌, ◌⊎◌, inl, inr, refl, sym, ap, subst, ◌∙◌, String, Bool, true, false, List, [],
  ◌∷◌, Option, some, none, Result, ok, err, Bool-cases, arith, same,
}
use recording.Database.Rows.{Db}
use recording.Database.Tx.{Env}
use recording.Database.Log.{IsConsistent}
use recording.ErrorCode.{recording_delete_pending}
use recording.Ports.{TxError, commit_unknown, DeletingCleanup}
use recording.FileStore.{Disk, StoreError, delete_file, remove}
use recording.RecordingTx.MarkDeleting.{mark_deleting}
use recording.RecordingTx.MarkDeleting.Laws.{mark_deleting-IsConsistent}
use recording.RecordingTx.Purge.{purge_recording}
use recording.RecordingTx.Purge.Laws.{purge_recording-IsConsistent, purge_recording_lem, Purged}
use recording.Query.{get_deleting, list_deleting}
use recording.Service.{World}
use recording.Service.Files.{has_file}
use recording.Service.Delete.{
  cancel, after_purge, after_delete, finalize, after_query, after_mark, delete, finalize_all,
  after_scan, cleanup_pending,
}

pub cancel-db : (row : DeletingCleanup) (w : World) → (cancel row w).db ≡ w.db
cancel-db row w = ground arith

pub log_deleted-db :
    (env : Env) (row : DeletingCleanup) (w : World) (out : Result TxError (Unit {0}) × Db)
    → (after_purge env row w out).1.db ≡ out.1
log_deleted-db env row w (err e, db) = refl
log_deleted-db env row w (ok _, db) = ground arith

-- What the mark and the purge keep, a deletion and the clean-up loop keep.
module _ (P : Db → Type 0)
    (marks : (env : Env) (id : String) (db : Db) → P db → P (mark_deleting env id db).1)
    (purges : (env : Env) (id : String) (db : Db) → P db → P (purge_recording env id db).1) where
  finalize-keeps :
      (env : Env) (disk : Disk) (row : DeletingCleanup) (w : World)
      → P w.db
      → P (finalize env disk row w).1.db
  unfolding finalize
  finalize-keeps env disk row w c = by_file (delete_file disk row.storage_path (cancel row w).files)
    where
      c' : P (cancel row w).db
      c' = subst P (sym (cancel-db row w)) c

      by_file :
          (out : Result StoreError (Unit {0}) × List String)
          → P (after_delete env row (cancel row w) out).1.db
      by_file (err e, files) = c'
      by_file (ok _, files) =
          subst P
            (sym (
              log_deleted-db env row (record (cancel row w) { files = files })
                (purge_recording env row.recording_id (cancel row w).db)))
            (purges env row.recording_id (cancel row w).db c')

  pub delete-keeps :
      (envs : ℕ → Env) (disk : Disk) (recording_id : String) (w : World)
      → P w.db
      → P (delete envs disk recording_id w).1.db
  unfolding delete
  delete-keeps envs disk recording_id w c =
      by_mark (mark_deleting (envs 0) recording_id w.db) (marks (envs 0) recording_id w.db c)
    where
      by_query :
          (w' : World) (row : Result TxError (Option DeletingCleanup))
          → P w'.db
          → P (after_query (envs 2) disk w' row).1.db
      by_query w' (err e) c' = c'
      by_query w' (ok none) c' = c'
      by_query w' (ok (some row)) c' = finalize-keeps (envs 2) disk row w' c'

      by_mark :
          (out : Result TxError (String × Bool) × Db)
          → P out.1
          → P (after_mark envs disk recording_id w out).1.db
      by_mark (err e, db) c' = c'
      by_mark (ok (task_id, false), db) c' = c'
      by_mark (ok (task_id, true), db) c' =
          by_query (record w { db = db }) (get_deleting (envs 1) recording_id db) c'

  pub cleanup_pending-keeps :
      (envs : ℕ → Env) (disks : ℕ → Disk) (w : World) → P w.db → P (cleanup_pending envs disks w).db
  unfolding cleanup_pending finalize_all
  cleanup_pending-keeps envs disks w c = by_scan (list_deleting (envs 0) w.db)
    where
      by_rows :
          (i : ℕ) (rows : List DeletingCleanup) (w' : World)
          → P w'.db
          → P (finalize_all envs disks i rows w').db
      by_rows i [] w' c' = c'
      by_rows i (row ∷ rows) w' c' =
          by_rows (suc i) rows (finalize (envs i) (disks i) row w').1
            (finalize-keeps (envs i) (disks i) row w' c')

      by_scan : (rows : Result TxError (List DeletingCleanup)) → P (after_scan envs disks rows w).db
      by_scan (err e) = c
      by_scan (ok rows) = by_rows 1 rows w c

-- `Delete` keeps the database consistent, whatever the disk and the server do.
pub delete-IsConsistent :
    (envs : ℕ → Env) (disk : Disk) (recording_id : String) (w : World)
    → IsConsistent w.db
    → IsConsistent (delete envs disk recording_id w).1.db
delete-IsConsistent =
    delete-keeps IsConsistent mark_deleting-IsConsistent purge_recording-IsConsistent

-- The clean-up loop keeps the database consistent.
pub cleanup_pending-IsConsistent :
    (envs : ℕ → Env) (disks : ℕ → Disk) (w : World)
    → IsConsistent w.db
    → IsConsistent (cleanup_pending envs disks w).db
cleanup_pending-IsConsistent =
    cleanup_pending-keeps IsConsistent mark_deleting-IsConsistent purge_recording-IsConsistent

-- A file whose deletion has succeeded is not there.
gone-remove : (name : String) (files : List String) → has_file name (remove name files) ≡ false
gone-remove name [] = refl
gone-remove name (f ∷ fs) = ground (arith, gone-remove name fs)

pub delete_file-gone :
    (disk : Disk) (name : String) (files : List String)
    → same name "" ≡ false
    → (delete_file disk name files).0 ≡ ok tt
    → has_file name (delete_file disk name files).1 ≡ false
unfolding delete_file
delete_file-gone disk name files named ran = elim (Bool-cases (has_file name files)) [
  | inr absent ↦ rw (named, absent) absent
  | inl there ↦ elim (Bool-cases (disk.remove_fails name)) [
    | inl refused ↦ absurd (ground arith)
    | inr removed ↦ rw (named, there, removed) (gone-remove name files)
  ]
]

pub after_purge-ok :
    (env : Env) (row : DeletingCleanup) (w : World) (out : Result TxError (Unit {0}) × Db)
    → (after_purge env row w out).1.files ≡ w.files
after_purge-ok env row w (err e, db) = refl
after_purge-ok env row w (ok _, db) = ground arith

-- The last steps: on success the rows are purged; on failure they are as they were, or purged by a
-- commit whose reply was lost.
after_purge_lem :
    (env : Env) (row : DeletingCleanup) (w : World) (out : Result TxError (Unit {0}) × Db)
    → ((out.1 ≡ w.db) × (out.0 ≢ ok tt))
      ⊎ (((out.0 ≡ ok tt) ⊎ (out.0 ≡ err commit_unknown)) × Purged env row.recording_id w.db out.1)
    → (((after_purge env row w out).0 ≡ ok tt) × Purged env row.recording_id w.db out.1)
      ⊎ (((after_purge env row w out).0 ≡ err recording_delete_pending)
          × ((out.1 ≡ w.db)
              ⊎ ((out.0 ≡ err commit_unknown) × Purged env row.recording_id w.db out.1)))
after_purge_lem env row w (err e, db) (inl (same_db, _)) = inr (refl, inl same_db)
after_purge_lem env row w (err e, db) (inr (inl success, purged)) = absurd (cc success)
after_purge_lem env row w (err e, db) (inr (inr lost, purged)) = inr (refl, inr (lost, purged))
after_purge_lem env row w (ok _, db) (inl (_, not_ok)) = absurd (not_ok refl)
after_purge_lem env row w (ok _, db) (inr (_, purged)) = inl (refl, purged)

-- Finishing a deletion: on success the file is gone and exactly the recording's rows are purged. On
-- failure the answer is `recording_delete_pending`, and either the rows are as they were, so that
-- the deletion can be tried again, or the file is gone and the rows were purged by a commit whose
-- reply was lost: `PurgeRecording` has returned the unknown commit.
pub finalize_lem :
    (env : Env) (disk : Disk) (row : DeletingCleanup) (w : World)
    → same row.storage_path "" ≡ false
    → let (res, w') = finalize env disk row w in
      ((res ≡ ok tt)
        × (has_file row.storage_path w'.files ≡ false)
        × Purged env row.recording_id w.db w'.db)
      ⊎ ((res ≡ err recording_delete_pending)
          × ((w'.db ≡ w.db)
              ⊎ (((purge_recording env row.recording_id w.db).0 ≡ err commit_unknown)
                  × (has_file row.storage_path w'.files ≡ false)
                  × Purged env row.recording_id w.db w'.db)))
unfolding finalize
finalize_lem env disk row w named =
    by_file (delete_file disk row.storage_path (cancel row w).files)
      (delete_file-gone disk row.storage_path (cancel row w).files named)
  where
    w1 : World
    w1 = cancel row w

    by_file :
        (out : Result StoreError (Unit {0}) × List String)
        → (out.0 ≡ ok tt → has_file row.storage_path out.1 ≡ false)
        → let (res, w') = after_delete env row w1 out in
          ((res ≡ ok tt)
            × (has_file row.storage_path w'.files ≡ false)
            × Purged env row.recording_id w.db w'.db)
          ⊎ ((res ≡ err recording_delete_pending)
              × ((w'.db ≡ w.db)
                  ⊎ (((purge_recording env row.recording_id w.db).0 ≡ err commit_unknown)
                      × (has_file row.storage_path w'.files ≡ false)
                      × Purged env row.recording_id w.db w'.db)))
    by_file (err e, files) gone = inr (refl, inl (cancel-db row w))
    by_file (ok _, files) gone =
        let w2 : World = record w1 { files = files } in
        let out = purge_recording env row.recording_id w2.db in
        let file_gone : has_file row.storage_path (after_purge env row w2 out).1.files ≡ false =
          ap (has_file row.storage_path) (after_purge-ok env row w2 out) ∙ gone refl in
        let at_db = log_deleted-db env row w2 out in
        let from = cancel-db row w in
        elim (after_purge_lem env row w2 out (purge_recording_lem env row.recording_id w2.db)) [
          | inl (done, purged) ↦ inl (
            done,
            file_gone,
            rw at_db (subst (λ d. Purged env row.recording_id d out.1) from purged),
          )
          | inr (pending, inl same_db) ↦ inr (pending, inl (at_db ∙ same_db ∙ from))
          | inr (pending, inr (lost, purged)) ↦ inr (
            pending,
            inr (
              subst (λ d. (purge_recording env row.recording_id d).0 ≡ err commit_unknown) from
                  lost,
              file_gone,
              rw at_db (subst (λ d. Purged env row.recording_id d out.1) from purged),
            ),
          )
        ]
