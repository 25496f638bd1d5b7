-- ===== src/FileStore/Laws.antt =====
-- What the file store promises.
use recording.Prelude.{
  ℕ, suc, ◌+◌, ◌≤◌, ◌<◌, ◌≡◌, ◌⊎◌, inl, inr, refl, sym, ap, ◌∙◌, String, List, [], ◌∷◌, ◌++◌, ltb,
  length, length-append, Option-cases, Result-cases, if◌then◌else◌, ok, err, arith,
}
use recording.FileStore.{
  StoreError, Chunk, ReadEnd, more, eof, broken, Disk, Store, StoredFile, stream_copy, finished,
  Copied, file_too_large, interrupted, wrote, after_read, remove, try_remove, tmp_name, stored,
  save,
}

-- The bytes that a reader gives up to its end.
abbrev pub up_to : ReadEnd → List ℕ → List ℕ
up_to more rest = rest
up_to eof rest = []
up_to (broken e) rest = []

abbrev pub bytes_of : List Chunk → List ℕ
bytes_of [] = []
bytes_of (c ∷ cs) = c.bytes ++ up_to c.after (bytes_of cs)

append_assoc : (a b c : List ℕ) → (a ++ b) ++ c ≡ a ++ (b ++ c)
append_assoc [] b c = refl
append_assoc (x ∷ a) b c = ap (λ l. x ∷ l) (append_assoc a b c)

append_nil : (a : List ℕ) → a ++ [] ≡ a
append_nil [] = refl
append_nil (x ∷ a) = ap (λ l. x ∷ l) (append_nil a)

finished_lem :
    (written out : List ℕ) → finished written ≡ ok out → (out ≡ written) × (0 < length out)
finished_lem [] out h = cc
finished_lem (b ∷ bs) out h = ground arith

abbrev Copies : ℕ → List ℕ → List ℕ → List ℕ → Type 0
Copies limit written rest out = (out ≡ written ++ rest) × (0 < length out) × (length out ≤ limit)

round_ok :
    (disk : Disk) (limit i : ℕ) (written : List ℕ) (c : Chunk) (x : Copied) (out : List ℕ)
    → interrupted (disk.ctx_err i) (
        if ltb limit (length written + length c.bytes)
        then err file_too_large
        else wrote disk i c x)
      ≡ ok out
    → (x ≡ ok out) × (length written + length c.bytes ≤ limit)
round_ok disk limit i written c x out h = ground arith

end_ok :
    (limit : ℕ) (w rest out : List ℕ) (x : Copied) (end : ReadEnd)
    → length w ≤ limit
    → after_read w end x ≡ ok out
    → (x ≡ ok out → Copies limit w rest out)
    → Copies limit w (up_to end rest) out
end_ok limit w rest out x more le h more_copied = more_copied h
end_ok limit w rest out x eof le h more_copied =
    let (same_bytes, some_bytes) = finished_lem w out h in
    (same_bytes ∙ sym (append_nil w), some_bytes, rw same_bytes le)
end_ok limit w rest out x (broken e) le h more_copied = cc

-- A copy that succeeds has copied all that the reader gave, at least one byte and at most the
-- limit.
stream_copy-Copies :
    (disk : Disk) (limit i : ℕ) (written : List ℕ) (cs : List Chunk) (out : List ℕ)
    → length written ≤ limit
    → stream_copy disk limit i written cs ≡ ok out
    → Copies limit written (bytes_of cs) out
unfolding stream_copy
stream_copy-Copies disk limit i written [] out le h = elim (Option-cases (disk.ctx_err i)) [
  | inr (e, stop) ↦ absurd (cc (rw stop at h))
  | inl run ↦
      let (same_bytes, some_bytes) = finished_lem written out (rw run at h) in
      (same_bytes ∙ sym (append_nil written), some_bytes, rw same_bytes le)
]
stream_copy-Copies disk limit i written (c ∷ cs) out le h =
    let x =
      after_read (written ++ c.bytes) c.after
        (stream_copy disk limit (suc i) (written ++ c.bytes) cs) in
    let (went, room) = round_ok disk limit i written c x out h in
    let le' : length (written ++ c.bytes) ≤ limit =
      omega (arith, room, length-append written c.bytes) in
    let (same_bytes, some_bytes, few) =
      end_ok limit (written ++ c.bytes) (bytes_of cs) out _ c.after le' went
        (stream_copy-Copies disk limit (suc i) (written ++ c.bytes) cs out le') in
    (same_bytes ∙ append_assoc written c.bytes (up_to c.after (bytes_of cs)), some_bytes, few)

pub save_copied :
    (s : Store) (disk : Disk) (src : List Chunk) (ext : String) (files d : List String)
    (f : StoredFile)
    → save s disk src ext files ≡ (ok f, d)
    → (out : List ℕ) × (stream_copy disk s.max_file_bytes 0 [] src ≡ ok out)
      × (f ≡ stored disk ext out)
      × (d ≡ f.storage_path ∷ remove (tmp_name disk) (tmp_name disk ∷ files))
unfolding save
save_copied s disk src ext files d f h =
    elim (Result-cases (stream_copy disk s.max_file_bytes 0 [] src)) [
      | inl (out, copied) ↦ (out, copied, ground arith, ground arith)
      | inr (e, stopped) ↦ absurd (ground arith)
    ]

-- A file that `Save` has stored has the size and the hash of all the bytes that the reader gave up
-- to its end, between one byte and the limit, and the directory gains its name.
pub save_lem :
    (s : Store) (disk : Disk) (src : List Chunk) (ext : String) (files d : List String)
    (f : StoredFile)
    → save s disk src ext files ≡ (ok f, d)
    → (f.size_bytes ≡ length (bytes_of src))
      × (0 < f.size_bytes)
      × (f.size_bytes ≤ s.max_file_bytes)
      × (f.content_hash ≡ disk.sha256_hex (bytes_of src))
      × (d ≡ f.storage_path ∷ remove (tmp_name disk) (tmp_name disk ∷ files))
save_lem s disk src ext files d f h =
    let (out, copied, is_stored, dir) = save_copied s disk src ext files d f h in
    let (same_bytes, some_bytes, few) =
      stream_copy-Copies disk s.max_file_bytes 0 [] src out (omega arith) copied in
    let size : f.size_bytes ≡ length out = ap (λ x. x.size_bytes) is_stored in
    (
      size ∙ ap length same_bytes,
      omega (arith, size, some_bytes),
      omega (arith, size, few),
      ap (λ x. x.content_hash) is_stored ∙ ap disk.sha256_hex same_bytes,
      dir,
    )

-- Where `Save` fails, the directory is as it was, or has been given the temporary file and been
-- asked to remove it.
pub save_error_lem :
    (s : Store) (disk : Disk) (src : List Chunk) (ext : String) (files d : List String)
    (e : StoreError)
    → save s disk src ext files ≡ (err e, d)
    → (d ≡ files) ⊎ (d ≡ try_remove disk (tmp_name disk) (tmp_name disk ∷ files))
unfolding save
save_error_lem s disk src ext files d e h = ground arith
