-- ===== src/Domain/Filename.antt =====
-- internal/domain/recording/recording.go: the rules on file names. A file name is a text of Unicode
-- scalar values, so that the replacement of invalid bytes changes nothing.
pub mod Laws
use Prim.Native.Char.{Char, code, len_utf8}
use Prim.Native.String.{[], ◌∷◌, char_at}
use recording.Prelude.{
  ℕ, ◌+◌, ◌-◌, String, Bool, ◌&&◌, ◌||◌, Option, none, some, ◌==◌, ltb, leb, same, if◌then◌else◌,
  Result, ok, err,
}
use recording.Domain.Status.{DomainError, unsupported_extension}

abbrev pub supported_extensions : String → Bool
supported_extensions ext = same ext "wav" || same ext "mp3" || same ext "m4a" || same ext "aac"

-- `strings.LastIndex(filename, ".")`: the texts before and after the last point.
unfoldable pub split_last_dot : String → Option (String × String)
split_last_dot [] = none
split_last_dot (c ∷ s) = elim (split_last_dot s) [
  | some (before, ext) ↦ some (c ∷ before, ext)
  | none ↦ if code c == 46 then some ("", s) else none
]

-- `strings.ToLower`: outside ASCII no letter has a lower-case form that the list of extensions uses.
abbrev lower_char : Char → Char
lower_char c =
    if leb 65 (code c) && leb (code c) 90
    then char_at "abcdefghijklmnopqrstuvwxyz" (code c - 65)
    else c

unfoldable pub to_lower : String → String
to_lower [] = ""
to_lower (c ∷ s) = lower_char c ∷ to_lower s

abbrev pub accepted : String → Result DomainError String
accepted ext = if supported_extensions ext then ok ext else err unsupported_extension

abbrev pub of_split : Option (String × String) → Result DomainError String
of_split none = err unsupported_extension
of_split (some (before, ext)) =
    if same before "" then err unsupported_extension else accepted (to_lower ext)

unfoldable pub parse_extension : String → Result DomainError String
unfolding split_last_dot to_lower
parse_extension filename = of_split (split_last_dot filename)

-- `unicode.IsControl`.
abbrev pub is_control : Char → Bool
is_control c = ltb (code c) 32 || (leb 127 (code c) && ltb (code c) 160)

abbrev pub max_filename_bytes : ℕ
max_filename_bytes = 255

-- The loop, with the number of bytes written so far.
unfoldable pub sanitize_from : ℕ → String → String
sanitize_from n [] = ""
sanitize_from n (c ∷ s) =
    let skipped = sanitize_from n s in
    let written = sanitize_from (n + len_utf8 c) s in
    if is_control c
    then skipped
    else if ltb max_filename_bytes (n + len_utf8 c)
    then ""
    else c ∷ written

unfoldable pub sanitize_filename : String → String
unfolding sanitize_from
sanitize_filename name = sanitize_from 0 name
