-- ===== src/Uuid.antt =====
-- internal/pkg/uuid/uuid.go: new ids in their text form, and the check of path parameters.
pub mod Laws
use Prim.Native.Char.{Char, code}
use Prim.Native.String.{[], ◌∷◌, char_at, len}
use recording.Prelude.{
  ℕ, zero, suc, ◌+◌, ◌/◌, ◌%◌, String, Bool, true, false, ◌&&◌, ◌||◌, ◌==◌, leb, if◌then◌else◌,
}

abbrev pub hex : ℕ → Char
hex n = char_at "0123456789abcdef" n

-- The version and the variant are written over the random bytes:
-- `b & 0x0f | 0x40` and `b & 0x3f | 0x80`.
abbrev pub stamped : (ℕ → ℕ) → ℕ → ℕ
stamped b i = if i == 6 then b 6 % 16 + 64 else if i == 8 then b 8 % 64 + 128 else b i

abbrev pub hex_pair : ℕ → String → String
hex_pair v s = hex (v / 16) ∷ hex (v % 16) ∷ s

abbrev pub dash_before : ℕ → Bool
dash_before i = (i == 4 || i == 6) || (i == 8 || i == 10)

-- The loop over the bytes from the `i`-th on, of which `left` are left.
unfoldable pub format : (ℕ → ℕ) → ℕ → ℕ → String
format v zero i = ""
format v (suc left) i =
    let pair = hex_pair (v i) (format v left (suc i)) in
    if dash_before i then char_at "-" 0 ∷ pair else pair

-- `b` are the 16 bytes of crypto/rand.
unfoldable pub new : (ℕ → ℕ) → String
unfolding format
new b = format (stamped b) 16 0

abbrev pub is_hex : ℕ → Bool
is_hex c = (leb 48 c && leb c 57) || ((leb 97 c && leb c 102) || (leb 65 c && leb c 70))

abbrev pub is_dash_position : ℕ → Bool
is_dash_position i = (i == 8 || i == 13) || (i == 18 || i == 23)

-- The loop over the bytes from the `i`-th on. A character that is not ASCII is refused whole, since
-- its first byte is.
unfoldable pub valid_from : ℕ → String → Bool
valid_from i [] = true
valid_from i (c ∷ s) =
    let rest = valid_from (i + 1) s in
    if is_dash_position i
    then if code c == 45 then rest else false
    else if is_hex (code c)
    then rest
    else false

unfoldable pub is_valid : String → Bool
unfolding valid_from
is_valid s = if len s == 36 then valid_from 0 s else false
