-- ===== src/Service/Sound.antt =====
-- What holds of the database and the data directory together, and how it survives a change of the
-- recordings.
pub mod Writes
pub mod Deletes
pub mod Uploads
use recording.Prelude.{
  ◌≡◌, inl, inr, sym, subst, String, Bool, true, false, not, List, [], ◌∷◌, All, same, arith,
  Bool-cases,
}
use recording.Database.Table.{update, delete}
use recording.Database.Rows.{RecordingRow, Db}
use recording.Database.Tx.{Env, is_some}
use recording.Database.Log.{IsConsistent}
use recording.FileStore.{Disk, remove, delete_file}
use recording.RecordingTx.MarkDeleting.{marked_row}
use recording.Service.{World}
use recording.Service.Files.{has_file, HasFiles, IsUnreferenced, has_file-remove}
use recording.Service.Recover.Laws.{flip, NotTemporary}

-- No recording that is to be kept refers to the file.
abbrev pub IsUnneeded : String → List RecordingRow → Type 0
IsUnneeded name rs =
    All (λ (r : RecordingRow). is_some r.deleting_at ≡ false → same name r.storage_path ≡ false) rs

-- No two recordings share a file.
unfoldable pub Apart : List RecordingRow → Type 0
Apart [] = Unit
Apart (r ∷ rs) = IsUnreferenced r.storage_path rs × Apart rs

pub record IsSound (db : Db) (files : List String) : Type 0 where
  pub consistent : IsConsistent db
  pub apart : Apart db.recordings
  pub named : NotTemporary db.recordings
  pub stored : HasFiles db.recordings files

HasFiles-remove_unneeded :
    (name : String) (rs : List RecordingRow) (files : List String)
    → IsUnneeded name rs
    → HasFiles rs files
    → HasFiles rs (remove name files)
HasFiles-remove_unneeded name [] files u h = tt
HasFiles-remove_unneeded name (r ∷ rs) files u h = (
  (λ visible. has_file-remove r.storage_path name files (u.0 visible) (h.0 visible)),
  HasFiles-remove_unneeded name rs files u.1 h.1,
)

pub HasFiles-delete_unneeded :
    (disk : Disk) (name : String) (rs : List RecordingRow) (files : List String)
    → IsUnneeded name rs
    → HasFiles rs files
    → HasFiles rs (delete_file disk name files).1
unfolding delete_file
HasFiles-delete_unneeded disk name rs files u h = elim (Bool-cases (same name "")) [
  | inl no_name ↦ rw no_name h
  | inr named ↦ elim (Bool-cases (not (has_file name files))) [
    | inl absent ↦ rw (named, absent) h
    | inr there ↦ elim (Bool-cases (disk.remove_fails name)) [
      | inl refused ↦ rw (named, there, refused) h
      | inr removed ↦ rw (named, there, removed) (HasFiles-remove_unneeded name rs files u h)
    ]
  ]
]

-- The recordings that a deletion leaves.
module _ (p : RecordingRow → Bool) where
  pub All-delete :
      (Q : RecordingRow → Type 0) (rs : List RecordingRow) → All Q rs → All Q (delete p rs)
  unfolding delete
  All-delete Q [] h = tt
  All-delete Q (r ∷ rs) h = elim (Bool-cases (p r)) [
    | inl goes ↦ rw goes (All-delete Q rs h.1)
    | inr stays ↦ rw stays (h.0, All-delete Q rs h.1)
  ]

  pub Apart-delete : (rs : List RecordingRow) → Apart rs → Apart (delete p rs)
  unfolding delete Apart
  Apart-delete [] h = tt
  Apart-delete (r ∷ rs) h = elim (Bool-cases (p r)) [
    | inl goes ↦ rw goes (Apart-delete rs h.1)
    | inr stays ↦ rw stays (All-delete _ rs h.0, Apart-delete rs h.1)
  ]

-- The recordings of which some are marked.
module _ (p : RecordingRow → Bool) (env : Env) where
  pub All-marked :
      (Q : RecordingRow → Type 0) (rs : List RecordingRow)
      → ((r : RecordingRow) → Q r → Q (marked_row env r))
      → All Q rs
      → All Q (update p (marked_row env) rs)
  unfolding update
  All-marked Q [] k h = tt
  All-marked Q (r ∷ rs) k h = elim (Bool-cases (p r)) [
    | inl hit ↦ rw hit (k r h.0, All-marked Q rs k h.1)
    | inr miss ↦ rw miss (h.0, All-marked Q rs k h.1)
  ]

  pub Apart-marked : (rs : List RecordingRow) → Apart rs → Apart (update p (marked_row env) rs)
  unfolding update Apart
  Apart-marked [] h = tt
  Apart-marked (r ∷ rs) h = elim (Bool-cases (p r)) [
    | inl hit ↦ rw hit (All-marked _ rs (λ x q. q) h.0, Apart-marked rs h.1)
    | inr miss ↦ rw miss (All-marked _ rs (λ x q. q) h.0, Apart-marked rs h.1)
  ]

IsUnneeded-IsUnreferenced :
    (name : String) (rs : List RecordingRow) → IsUnreferenced name rs → IsUnneeded name rs
IsUnneeded-IsUnreferenced name [] h = tt
IsUnneeded-IsUnreferenced name (r ∷ rs) h = ((λ _. h.0), IsUnneeded-IsUnreferenced name rs h.1)

-- The files of the recordings `ys` that are being deleted are unneeded in `rs`.
abbrev pub Freed : List RecordingRow → List RecordingRow → Type 0
Freed rs ys =
    All (λ (r : RecordingRow). is_some r.deleting_at ≡ true → IsUnneeded r.storage_path rs) ys

Freed-cons :
    (x : RecordingRow) (rs ys : List RecordingRow)
    → IsUnreferenced x.storage_path ys
    → Freed rs ys
    → Freed (x ∷ rs) ys
Freed-cons x rs [] u h = tt
Freed-cons x rs (y ∷ ys) u h = (
  (λ marked. ((λ _. flip x.storage_path y.storage_path u.0), h.0 marked)),
  Freed-cons x rs ys u.1 h.1,
)

pub Apart-Freed : (rs : List RecordingRow) → Apart rs → Freed rs rs
unfolding Apart
Apart-Freed [] a = tt
Apart-Freed (x ∷ rs) a = (
  (λ marked. (
    (λ visible. absurd (cc (marked, visible))),
    IsUnneeded-IsUnreferenced x.storage_path rs a.0,
  )),
  Freed-cons x rs rs a.0 (Apart-Freed rs a.1),
)

module _ {db d : Db} {files : List String} (c : IsConsistent d) (s : IsSound db files) where
  pub IsSound-same : d.recordings ≡ db.recordings → IsSound d files
  IsSound-same at = record {
    consistent = c;
    apart = subst Apart (sym at) s.apart;
    named = subst NotTemporary (sym at) s.named;
    stored = subst (λ rs. HasFiles rs files) (sym at) s.stored;
  }

  pub IsSound-delete :
      (p : RecordingRow → Bool) → d.recordings ≡ delete p db.recordings → IsSound d files
  IsSound-delete p at = record {
    consistent = c;
    apart = subst Apart (sym at) (Apart-delete p db.recordings s.apart);
    named = subst NotTemporary (sym at) (All-delete p _ db.recordings s.named);
    stored = subst (λ rs. HasFiles rs files) (sym at) (All-delete p _ db.recordings s.stored);
  }

  pub IsSound-marked :
      (p : RecordingRow → Bool) (env : Env)
      → d.recordings ≡ update p (marked_row env) db.recordings
      → IsSound d files
  IsSound-marked p env at = record {
    consistent = c;
    apart = subst Apart (sym at) (Apart-marked p env db.recordings s.apart);
    named = subst NotTemporary (sym at) (All-marked p env _ db.recordings (λ r h. h) s.named);
    stored =
        subst (λ rs. HasFiles rs files) (sym at)
          (All-marked p env _ db.recordings (λ r h visible. absurd (cc visible)) s.stored);
  }

pub IsSound-delete_file :
    (disk : Disk) (name : String) (db : Db) (files : List String)
    → IsUnneeded name db.recordings
    → IsSound db files
    → IsSound db (delete_file disk name files).1
IsSound-delete_file disk name db files u s = record {
  consistent = s.consistent;
  apart = s.apart;
  named = s.named;
  stored = HasFiles-delete_unneeded disk name db.recordings files u s.stored;
}
