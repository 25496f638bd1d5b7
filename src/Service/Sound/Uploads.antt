-- ===== src/Service/Sound/Uploads.antt =====
-- An upload stores its file under a name of its own.
use recording.Prelude.{same, ◌≡◌, refl, sym, subst, ◌∙◌, String, false, List, Result, ok, err}
use text.Mathlib.Text.{starts_with}
use text.Mathlib.TextPositions.{starts_with-append}
use recording.Domain.Status.{DomainError}
use recording.Domain.Filename.{parse_extension}
use recording.Database.Rows.{RecordingRow, Db}
use recording.Database.Tx.{Env}
use recording.Ports.{CreateInput, CreateOrReuseResult, TxError}
use recording.FileStore.{Disk, Store, StoreError, StoredFile, tmp_name, final_name, save}
use recording.RecordingTx.Create.{create_or_reuse_by_content_hash}
use recording.RecordingTx.Create.Laws.{Recorded, create_or_reuse-Recorded}
use recording.Service.{World}
use recording.Service.Files.{IsUnreferenced, stored-name}
use recording.Service.Recover.Laws.{NotTemporary, temporary-IsUnreferenced}
use recording.Service.Upload.{UploadRequest, new_input, after_save, after_extension, upload}
use recording.Service.Upload.Laws.{
  after_tx-db, new_input-path, upload-IsConsistent, upload-HasFiles,
}
use recording.Service.Sound.{Apart, IsSound}

-- The name of a stored file is new, and not temporary; the id of the recording is a text.
pub record IsFresh (env : Env) (disk : Disk) (rs : List RecordingRow) : Type 0 where
  pub id : same (env.new_id 0) "" ≡ false
  pub lasting : (ext : String) → starts_with (final_name disk ext) "tmp-" ≡ false
  pub new : (ext : String) → IsUnreferenced (final_name disk ext) rs

-- The recordings are apart, and none has a temporary name.
abbrev Tidy : List RecordingRow → Type 0
Tidy rs = Apart rs × NotTemporary rs

Recorded-Tidy :
    (env : Env) (input : CreateInput) (db : Db) (out : Result TxError CreateOrReuseResult × Db)
    → IsUnreferenced input.recording.storage_path db.recordings
    → starts_with input.recording.storage_path "tmp-" ≡ false
    → Tidy db.recordings
    → Recorded env input db out
    → Tidy out.1.recordings
unfolding Apart
Recorded-Tidy env input db out u lasting t (Recorded.kept at _) = subst Tidy (sym at) t
Recorded-Tidy env input db out u lasting t (Recorded.added at _) =
    subst Tidy (sym at) ((u, t.0), (lasting, t.1))

upload-Tidy :
    (env : Env) (store : Store) (disk : Disk) (req : UploadRequest) (w : World)
    → IsFresh env disk w.db.recordings
    → Tidy w.db.recordings
    → Tidy (upload env store disk req w).1.db.recordings
unfolding upload
upload-Tidy env store disk req w fresh t = by_extension (parse_extension req.filename)
  where
    by_save :
        (ext : String) (out : Result StoreError StoredFile × List String)
        → save store disk req.file_part ext w.files ≡ out
        → Tidy (after_save env disk req ext w out).1.db.recordings
    by_save ext (err e, files) at = t
    by_save ext (ok stored, files) at =
        let input = new_input env req ext stored in
        let w' : World = record w { files = files } in
        let name : input.recording.storage_path ≡ final_name disk ext =
          new_input-path env req ext stored
          ∙ stored-name store disk req.file_part ext w.files files stored at in
        subst (λ (d : Db). Tidy d.recordings)
          (sym (after_tx-db disk stored input w' (create_or_reuse_by_content_hash env input w.db)))
          (Recorded-Tidy env input w.db (create_or_reuse_by_content_hash env input w.db)
            (subst (λ p. IsUnreferenced p w.db.recordings) (sym name) (fresh.new ext))
            (subst (λ p. starts_with p "tmp-" ≡ false) (sym name) (fresh.lasting ext)) t
            (create_or_reuse-Recorded env input w.db))

    by_extension :
        (ext : Result DomainError String)
        → Tidy (after_extension env store disk req w ext).1.db.recordings
    by_extension (err e) = t
    by_extension (ok ext) = by_save ext (save store disk req.file_part ext w.files) refl

pub IsSound-upload :
    (env : Env) (store : Store) (disk : Disk) (req : UploadRequest) (w : World)
    → IsFresh env disk w.db.recordings
    → IsSound w.db w.files
    → IsSound (upload env store disk req w).1.db (upload env store disk req w).1.files
IsSound-upload env store disk req w fresh s =
    let (apart, named) = upload-Tidy env store disk req w fresh (s.apart, s.named) in
    record {
      consistent = upload-IsConsistent env store disk req w s.consistent;
      apart = apart;
      named = named;
      stored =
          upload-HasFiles env store disk req w fresh.new
            (temporary-IsUnreferenced (tmp_name disk) w.db.recordings
              (starts_with-append "tmp-" (disk.new_name 0)) s.named)
            s.stored;
    }
