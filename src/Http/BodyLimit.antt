-- ===== src/Http/BodyLimit.antt =====
-- `bodyLimitReader` of internal/interfaces/http/handler/upload.go: the limit on a request's body,
-- counted as it is read.
pub mod Laws
use recording.Prelude.{ℕ, ◌+◌, ◌-◌, List, [], ◌∷◌, ltb, ◌==◌, length, if◌then◌else◌}
use recording.FileStore.{StoreError, Chunk, broken}

-- A read of the reader below: its answer to a buffer of a size.
abbrev pub Reader : Type 0
Reader = ℕ → Chunk

abbrev pub too_large : Chunk
too_large = record { bytes = []; after = broken StoreError.file_too_large }

-- The buffer is cut down to what remains.
abbrev pub allowed : ℕ → ℕ → ℕ
allowed remain want = if ltb remain want then remain else want

-- One read, with what remains after it.
unfoldable pub read : ℕ → ℕ → Reader → Chunk × ℕ
read remain want r =
    if remain == 0
    then (too_large, remain)
    else (let c = r (allowed remain want) in (c, remain - length c.bytes))

-- Reads in sequence: what remains after them, and how many bytes they have given.
unfoldable pub remain_after : ℕ → List (ℕ × Reader) → ℕ
unfolding read
remain_after remain [] = remain
remain_after remain ((want, r) ∷ rs) = remain_after (read remain want r).1 rs

unfoldable pub given : ℕ → List (ℕ × Reader) → ℕ
unfolding read
given remain [] = 0
given remain ((want, r) ∷ rs) =
    length (read remain want r).0.bytes + given (read remain want r).1 rs
