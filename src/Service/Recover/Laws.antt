-- ===== src/Service/Recover/Laws.antt =====
-- What the start of the service leaves behind.
use text.Mathlib.Text.{starts_with}
use recording.Prelude.{
  ℕ, suc, ◌≡◌, inl, inr, refl, subst, String, true, false, List, [], ◌∷◌, any, map, All, Bool-cases,
  Option-cases, arith, same, same_refl, same→eq, Result, ok, err,
}
use recording.Database.Rows.{RecordingRow}
use recording.Database.Tx.{Env, list_paths}
use recording.FileStore.{Disk, delete_file, list_stored, StoreError}
use recording.ProcessingTx.Integrity.{list_storage_paths}
use recording.Ports.{TxError}
use recording.Service.{World}
use recording.Service.Files.{HasFiles, IsUnreferenced, HasFiles-delete_file}
use recording.Service.Recover.{with_refs, with_stored, is_kept, remove_all, remove_orphan_files}

abbrev paths : List RecordingRow → List String
paths rs = map (λ (r : RecordingRow). r.storage_path) rs

pub flip : (a b : String) → same a b ≡ false → same b a ≡ false
flip a b h = elim (Bool-cases (same b a)) [
  | inl hit ↦ absurd (cc (same_refl a, subst (λ x. same a x ≡ false) (same→eq b a hit) h))
  | inr miss ↦ miss
]

-- A name that is not temporary and not kept is no recording's.
not_kept-IsUnreferenced :
    (name : String) (rs : List RecordingRow)
    → any (λ p. same p name) (paths rs) ≡ false
    → IsUnreferenced name rs
not_kept-IsUnreferenced name [] h = tt
not_kept-IsUnreferenced name (r ∷ rs) h = elim (Bool-cases (same r.storage_path name)) [
  | inl at ↦ absurd (cc (rw at at h))
  | inr other ↦ (flip r.storage_path name other, not_kept-IsUnreferenced name rs (rw other at h))
]

-- No path of a recording is a temporary name.
abbrev pub NotTemporary : List RecordingRow → Type 0
NotTemporary rs = All (λ (r : RecordingRow). starts_with r.storage_path "tmp-" ≡ false) rs

pub temporary-IsUnreferenced :
    (name : String) (rs : List RecordingRow)
    → starts_with name "tmp-" ≡ true
    → NotTemporary rs
    → IsUnreferenced name rs
temporary-IsUnreferenced name [] t h = tt
temporary-IsUnreferenced name (r ∷ rs) t h = (
  elim (Bool-cases (same name r.storage_path)) [
    | inl hit ↦
        absurd
          (cc (h.0, subst (λ x. starts_with x "tmp-" ≡ true) (same→eq name r.storage_path hit) t))
    | inr miss ↦ miss
  ],
  temporary-IsUnreferenced name rs t h.1,
)

removed-IsUnreferenced :
    (name : String) (rs : List RecordingRow)
    → NotTemporary rs
    → is_kept (paths rs) name ≡ false
    → IsUnreferenced name rs
removed-IsUnreferenced name rs plain h = elim (Bool-cases (starts_with name "tmp-")) [
  | inl temporary ↦ temporary-IsUnreferenced name rs temporary plain
  | inr other ↦ not_kept-IsUnreferenced name rs (ground (arith, other, h))
]

remove_all-HasFiles :
    (disks : ℕ → Disk) (i : ℕ) (rs : List RecordingRow) (names : List String) (removed : ℕ)
    (files : List String)
    → NotTemporary rs
    → HasFiles rs files
    → HasFiles rs (remove_all disks i (paths rs) names removed files).1
unfolding remove_all
remove_all-HasFiles disks i rs [] removed files plain h = h
remove_all-HasFiles disks i rs (name ∷ names) removed files plain h =
    elim (Bool-cases (is_kept (paths rs) name)) [
      | inl kept ↦ rw kept (remove_all-HasFiles disks (suc i) rs names removed files plain h)
      | inr goes ↦ rw goes (
          remove_all-HasFiles disks (suc i) rs names _ (delete_file (disks i) name files).1 plain (
            HasFiles-delete_file (disks i) name rs files (removed-IsUnreferenced name rs plain goes)
              h))
    ]

-- Removing orphan files leaves the database alone, and every recording that is not being deleted
-- keeps its file: also where the directory or the paths cannot be read.
pub remove_orphan_files-HasFiles :
    (env : Env) (disks : ℕ → Disk) (w : World)
    → NotTemporary w.db.recordings
    → HasFiles w.db.recordings w.files
    → ((remove_orphan_files env disks w).1.db ≡ w.db)
      × HasFiles w.db.recordings (remove_orphan_files env disks w).1.files
unfolding remove_orphan_files list_storage_paths list_stored
remove_orphan_files-HasFiles env disks w plain h = elim (Bool-cases (disks 0).list_fails) [
  | inl unread ↦ rw unread (refl, h)
  | inr listed ↦ elim (Option-cases (env.fails list_paths)) [
    | inr (e, broken) ↦ rw (listed, broken) (refl, h)
    | inl ran ↦
        rw (listed, ran)
          (refl, remove_all-HasFiles disks 1 w.db.recordings w.files 0 w.files plain h)
  ]
]

with_refs-db :
    (disks : ℕ → Disk) (w : World) (stored : List String) (r : Result TxError (List String))
    → (with_refs disks w stored r).1.db ≡ w.db
with_refs-db disks w stored (err e) = refl
with_refs-db disks w stored (ok refs) = refl

with_stored-db :
    (env : Env) (disks : ℕ → Disk) (w : World) (r : Result StoreError (List String))
    → (with_stored env disks w r).1.db ≡ w.db
with_stored-db env disks w (err e) = refl
with_stored-db env disks w (ok stored) = with_refs-db disks w stored (list_storage_paths env w.db)

pub orphans-db :
    (env : Env) (disks : ℕ → Disk) (w : World) → (remove_orphan_files env disks w).1.db ≡ w.db
unfolding remove_orphan_files
orphans-db env disks w = with_stored-db env disks w (list_stored (disks 0) w.files)
