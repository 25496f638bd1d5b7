-- ===== src/Service/Files.antt =====
-- The files that the database refers to.
use recording.Prelude.{
  ◌≡◌, inl, inr, refl, ap, ◌∙◌, String, Bool, true, false, not, List, [], ◌∷◌, any, All, same,
  same_refl, same→eq, arith, Bool-cases, Result, ok, err,
}
use recording.Database.Rows.{RecordingRow}
use recording.Database.Tx.{is_some}
use recording.FileStore.{
  Disk, StoreError, StoredFile, Store, Chunk, remove, try_remove, tmp_name, final_name, save,
  delete_file,
}
use recording.FileStore.Laws.{save_copied, save_lem, save_error_lem}

abbrev pub has_file : String → List String → Bool
has_file name files = any (λ f. same f name) files

-- Every recording that is not being deleted has its file.
abbrev pub HasFiles : List RecordingRow → List String → Type 0
HasFiles rs files =
    All (λ (r : RecordingRow). is_some r.deleting_at ≡ false → has_file r.storage_path files ≡ true)
      rs

-- No recording refers to the file.
abbrev pub IsUnreferenced : String → List RecordingRow → Type 0
IsUnreferenced name rs = All (λ (r : RecordingRow). same name r.storage_path ≡ false) rs

pub has_file-remove :
    (p name : String) (files : List String)
    → same name p ≡ false
    → has_file p files ≡ true
    → has_file p (remove name files) ≡ true
has_file-remove p name [] apart h = cc
has_file-remove p name (f ∷ fs) apart h = elim (Bool-cases (same f name)) [
  | inl at ↦
      let same_name = same→eq f name at in
      let miss : same f p ≡ false = ap (λ x. same x p) same_name ∙ apart in
      rw at (has_file-remove p name fs apart (rw miss at h))
  | inr other ↦ elim (Bool-cases (same f p)) [
    | inl hit ↦ rw other (rw hit refl)
    | inr miss ↦ rw other (rw miss (has_file-remove p name fs apart (rw miss at h)))
  ]
]

pub HasFiles-remove :
    (name : String) (rs : List RecordingRow) (files : List String)
    → IsUnreferenced name rs
    → HasFiles rs files
    → HasFiles rs (remove name files)
HasFiles-remove name [] files u h = tt
HasFiles-remove name (r ∷ rs) files u h = (
  (λ visible. has_file-remove r.storage_path name files u.0 (h.0 visible)),
  HasFiles-remove name rs files u.1 h.1,
)

pub HasFiles-cons :
    (name : String) (rs : List RecordingRow) (files : List String)
    → HasFiles rs files
    → HasFiles rs (name ∷ files)
HasFiles-cons name [] files h = tt
HasFiles-cons name (r ∷ rs) files h =
    ((λ visible. ground (arith, h.0 visible)), HasFiles-cons name rs files h.1)

pub HasFiles-delete_file :
    (disk : Disk) (name : String) (rs : List RecordingRow) (files : List String)
    → IsUnreferenced name rs
    → HasFiles rs files
    → HasFiles rs (delete_file disk name files).1
unfolding delete_file
HasFiles-delete_file disk name rs files u h = elim (Bool-cases (same name "")) [
  | inl no_name ↦ rw no_name h
  | inr named ↦ elim (Bool-cases (not (has_file name files))) [
    | inl absent ↦ rw (named, absent) h
    | inr there ↦ elim (Bool-cases (disk.remove_fails name)) [
      | inl refused ↦ rw (named, there, refused) h
      | inr removed ↦ rw (named, there, removed) (HasFiles-remove name rs files u h)
    ]
  ]
]

HasFiles-try_remove :
    (disk : Disk) (rs : List RecordingRow) (files : List String)
    → IsUnreferenced (tmp_name disk) rs
    → HasFiles rs files
    → HasFiles rs (try_remove disk (tmp_name disk) files)
HasFiles-try_remove disk rs files u h = elim (Bool-cases (disk.remove_fails (tmp_name disk))) [
  | inl refused ↦ rw refused h
  | inr removed ↦ rw removed (HasFiles-remove (tmp_name disk) rs files u h)
]

-- Storing a file keeps the files of the recordings, and a stored file is there.
pub HasFiles-save :
    (s : Store) (disk : Disk) (src : List Chunk) (ext : String) (rs : List RecordingRow)
    (files d : List String) (res : Result StoreError StoredFile)
    → IsUnreferenced (tmp_name disk) rs
    → save s disk src ext files ≡ (res, d)
    → HasFiles rs files
    → HasFiles rs d
HasFiles-save s disk src ext rs files d (ok f) u h has =
    let (_, _, _, _, dir) = save_lem s disk src ext files d f h in
    rw dir (
      HasFiles-cons f.storage_path rs _ (
        HasFiles-remove (tmp_name disk) rs (tmp_name disk ∷ files) u
          (HasFiles-cons (tmp_name disk) rs files has)))
HasFiles-save s disk src ext rs files d (err e) u h has =
    elim (save_error_lem s disk src ext files d e h) [
      | inl kept ↦ rw kept has
      | inr tried ↦ rw tried (
          HasFiles-try_remove disk rs (tmp_name disk ∷ files) u
            (HasFiles-cons (tmp_name disk) rs files has))
    ]

pub stored-has_file :
    (s : Store) (disk : Disk) (src : List Chunk) (ext : String) (files d : List String)
    (f : StoredFile)
    → save s disk src ext files ≡ (ok f, d)
    → has_file f.storage_path d ≡ true
stored-has_file s disk src ext files d f h =
    let (_, _, _, _, dir) = save_lem s disk src ext files d f h in
    rw dir (ground (arith, same_refl f.storage_path))

pub stored-name :
    (s : Store) (disk : Disk) (src : List Chunk) (ext : String) (files d : List String)
    (f : StoredFile)
    → save s disk src ext files ≡ (ok f, d)
    → f.storage_path ≡ final_name disk ext
stored-name s disk src ext files d f h =
    let (_, _, is_stored, _) = save_copied s disk src ext files d f h in
    ap (λ x. x.storage_path) is_stored
