-- ===== src/FileStore.antt =====
-- internal/infrastructure/filestore/local/store.go. The directory is the list of its file names; a
-- file's bytes are seen in the size and the hash only. What the operating system and the context
-- answer during one call, and SHA-256, are the argument `Disk`.
pub mod Laws
use Prim.Native.String.{◌++◌ as text_append}
use recording.Prelude.{
  ℕ, suc, ◌+◌, String, Bool, List, [], ◌∷◌, ◌++◌, Option, none, some, ◌==◌, ltb, same, keep, any,
  not, length, if◌then◌else◌, Result, ok, err,
}

-- What `errors.Is` finds in an error of the store, or in one that the reader returned.
pub data StoreError : Type 0 where
  empty_file file_too_large storage_unavailable : StoreError
  canceled deadline_exceeded read_failed : StoreError

pub record StoredFile : Type 0 where
  pub storage_path : String
  pub size_bytes : ℕ
  pub content_hash : String

-- What `Read` returns beside the bytes: no error, io.EOF, or another error.
pub data ReadEnd : Type 0 where
  more eof : ReadEnd
  broken : StoreError → ReadEnd

pub record Chunk : Type 0 where
  pub bytes : List ℕ
  pub after : ReadEnd

-- `free` is none where statfs fails; `ctx_err` and `write_fails` are by the round of the loop.
pub record Disk : Type 0 where
  pub free : Option ℕ
  pub create_fails : Bool
  pub close_fails : Bool
  pub rename_fails : Bool
  pub list_fails : Bool
  pub remove_fails : String → Bool
  pub ctx_err : ℕ → Option StoreError
  pub write_fails : ℕ → Bool
  pub sha256_hex : List ℕ → String
  pub new_name : ℕ → String

pub record Store : Type 0 where
  pub max_file_bytes : ℕ
  pub min_free_bytes : ℕ

abbrev pub Copied : Type 0
Copied = Result StoreError (List ℕ)

abbrev pub finished : List ℕ → Copied
finished [] = err empty_file
finished (b ∷ bs) = ok (b ∷ bs)

-- What a round does once its bytes are written: stop at the end or an error, or read on.
abbrev pub after_read : List ℕ → ReadEnd → Copied → Copied
after_read written more rest = rest
after_read written eof rest = finished written
after_read written (broken e) rest = err e

abbrev pub interrupted : Option StoreError → Copied → Copied
interrupted none rest = rest
interrupted (some e) rest = err e

-- A read without bytes skips the write.
abbrev pub wrote : Disk → ℕ → Chunk → Copied → Copied
wrote disk i c rest =
    if length c.bytes == 0
    then rest
    else if disk.write_fails i
    then err storage_unavailable
    else rest

-- The loop: `written` are the bytes so far. A reader that has no chunk left has ended.
unfoldable pub stream_copy : Disk → ℕ → ℕ → List ℕ → List Chunk → Copied
stream_copy disk limit i written [] = interrupted (disk.ctx_err i) (finished written)
stream_copy disk limit i written (c ∷ cs) =
    let rest = stream_copy disk limit (suc i) (written ++ c.bytes) cs in
    interrupted (disk.ctx_err i) (
      if ltb limit (length written + length c.bytes)
      then err file_too_large
      else wrote disk i c (after_read (written ++ c.bytes) c.after rest))

abbrev pub remove : String → List String → List String
remove name files = keep (λ f. not (same f name)) files

-- `_ = os.Remove(tmpPath)`.
abbrev pub try_remove : Disk → String → List String → List String
try_remove disk name files = if disk.remove_fails name then files else remove name files

abbrev pub tmp_name : Disk → String
tmp_name disk = text_append "tmp-" (disk.new_name 0)

abbrev pub final_name : Disk → String → String
final_name disk ext = text_append (disk.new_name 1) (text_append "." ext)

abbrev pub stored : Disk → String → List ℕ → StoredFile
stored disk ext bytes = record {
  storage_path = final_name disk ext;
  size_bytes = length bytes;
  content_hash = disk.sha256_hex bytes;
}

abbrev pub renamed :
    Disk → String → List ℕ → List String → Result StoreError StoredFile × List String
renamed disk ext bytes files =
    if disk.rename_fails
    then (err storage_unavailable, try_remove disk (tmp_name disk) files)
    else (ok (stored disk ext bytes), final_name disk ext ∷ remove (tmp_name disk) files)

-- Close, and the clean-up on any error.
abbrev pub closed :
    Disk → String → Copied → List String → Result StoreError StoredFile × List String
closed disk ext (err e) files = (err e, try_remove disk (tmp_name disk) files)
closed disk ext (ok bytes) files =
    if disk.close_fails
    then (err storage_unavailable, try_remove disk (tmp_name disk) files)
    else renamed disk ext bytes files

abbrev pub enough_free : Store → Option ℕ → Bool
enough_free s none = Bool.false
enough_free s (some free) = not (ltb free s.min_free_bytes)

unfoldable pub save :
    Store → Disk → List Chunk → String → List String → Result StoreError StoredFile × List String
unfolding stream_copy
save s disk src ext files =
    if not (enough_free s disk.free)
    then (err storage_unavailable, files)
    else if disk.create_fails
    then (err storage_unavailable, files)
    else closed disk ext (stream_copy disk s.max_file_bytes 0 [] src) (tmp_name disk ∷ files)

-- A missing file is a success.
unfoldable pub delete_file :
    Disk → String → List String → Result StoreError (Unit {0}) × List String
delete_file disk storage_path files =
    if same storage_path ""
    then (ok tt, files)
    else if not (any (λ f. same f storage_path) files)
    then (ok tt, files)
    else if disk.remove_fails storage_path
    then (err storage_unavailable, files)
    else (ok tt, remove storage_path files)

unfoldable pub list_stored : Disk → List String → Result StoreError (List String)
list_stored disk files = if disk.list_fails then err storage_unavailable else ok files
