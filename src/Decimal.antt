-- ===== src/Decimal.antt =====
-- Decimal numbers in text, as `fmt` prints them and `strconv.Atoi` reads them; used by
-- internal/interfaces/http/handler, internal/infrastructure/llm and bootstrap/config.go.
pub mod Laws
use Prim.Native.Char.{Char, code}
use Prim.Native.String.{[], ◌∷◌, char_at, ◌++◌ as text_append}
use recording.Prelude.{
  ℕ, zero, suc, ◌+◌, ◌-◌, ◌*◌, ◌/◌, ◌%◌, String, Bool, true, false, ◌&&◌, Option, none, some, ◌==◌,
  ltb, leb, if◌then◌else◌,
}

-- An `int` or an `int64`, which may be negative: `negsuc n` is -(n + 1).
pub data ℤ : Type 0 where
  pos : ℕ → ℤ
  negsuc : ℕ → ℤ

abbrev pub digit : ℕ → String
digit n = char_at "0123456789" n ∷ ""

-- `%d` of a number that is not negative, with fuel for the digits.
unfoldable pub print_digits : ℕ → ℕ → String
print_digits zero n = ""
print_digits (suc fuel) n =
    let more = text_append (print_digits fuel (n / 10)) (digit (n % 10)) in
    if ltb n 10 then digit n else more

unfoldable pub print : ℕ → String
unfolding print_digits
print n = print_digits (suc n) n

abbrev pub is_digit : Char → Bool
is_digit c = leb 48 (code c) && leb (code c) 57

-- The digits of a text, after those of `acc`; `none` at any other character.
unfoldable pub read_digits : ℕ → String → Option ℕ
read_digits acc [] = some acc
read_digits acc (c ∷ s) =
    let more = read_digits (acc * 10 + (code c - 48)) s in if is_digit c then more else none

-- At least one digit.
abbrev pub read_number : String → Option ℕ
read_number [] = none
read_number (c ∷ s) = read_digits 0 (c ∷ s)

-- The two ranges of an `int` of 64 bits.
abbrev pub plus : Option ℕ → Option ℤ
plus none = none
plus (some n) = if ltb n 9223372036854775808 then some (pos n) else none

abbrev pub minus : Option ℕ → Option ℤ
minus none = none
minus (some zero) = some (pos 0)
minus (some (suc n)) = if ltb n 9223372036854775808 then some (negsuc n) else none

-- `strconv.Atoi`: a sign, then digits.
unfoldable pub atoi : String → Option ℤ
unfolding read_digits
atoi [] = none
atoi (c ∷ s) =
    if code c == 43
    then plus (read_number s)
    else if code c == 45
    then minus (read_number s)
    else plus (read_number (c ∷ s))
