-- ===== src/Uuid/Laws.antt =====
-- A new id passes the check.
use Prim.Native.Char.{code, len_utf8}
use Prim.Native.String.{◌∷◌, char_at, len}
use Prim.Native.String.len as string_len
use recording.Prelude.{
  ℕ, zero, suc, ◌+◌, ◌*◌, ◌/◌, ◌%◌, ◌<◌, ◌≡◌, refl, ◌∙◌, String, true, false, ◌==◌, arith,
  if◌then◌else◌, inl, inr, Bool-cases, all_below, all_below_sound,
}
use recording.Uuid.{
  hex, stamped, hex_pair, dash_before, format, new, is_hex, is_dash_position, valid_from, is_valid,
}

hex_table : all_below 16 (λ n. is_hex (code (hex n))) ≡ true
hex_table = refl

width_table : all_below 16 (λ n. len_utf8 (hex n) == 1) ≡ true
width_table = refl

hex-is_hex : (n : ℕ) → n < 16 → is_hex (code (hex n)) ≡ true
hex-is_hex n h = all_below_sound 16 (λ n. is_hex (code (hex n))) n hex_table h

len_utf8-hex : (n : ℕ) → n < 16 → len_utf8 (hex n) ≡ 1
len_utf8-hex n h =
    let one = all_below_sound 16 (λ n. len_utf8 (hex n) == 1) n width_table h in ground arith

valid_from-pair :
    (i v : ℕ) (s : String)
    → v < 256
    → is_dash_position i ≡ false
    → is_dash_position (i + 1) ≡ false
    → valid_from i (hex_pair v s) ≡ valid_from (i + 1 + 1) s
unfolding valid_from
valid_from-pair i v s h a b =
    rw (a, b, hex-is_hex (v / 16) (omega arith), hex-is_hex (v % 16) (omega arith)) refl

abbrev dashes : ℕ → ℕ → ℕ
dashes zero i = 0
dashes (suc left) i = (if dash_before i then 1 else 0) + dashes left (suc i)

len-hex_pair : (v : ℕ) (s : String) → v < 256 → len (hex_pair v s) ≡ 2 + len s
len-hex_pair v s h =
    string_len.cons (hex (v / 16)) (hex (v % 16) ∷ s)
    ∙ omega (
      arith,
      string_len.cons (hex (v % 16)) s,
      len_utf8-hex (v / 16) (omega arith),
      len_utf8-hex (v % 16) (omega arith),
    )

len-format :
    (v : ℕ → ℕ)
    → ((i : ℕ) → v i < 256)
    → (left i : ℕ) → len (format v left i) ≡ left * 2 + dashes left i
unfolding format
len-format v h zero i = refl
len-format v h (suc left) i = elim (Bool-cases (dash_before i)) [
  | inl d ↦ rw d (
      string_len.cons (char_at "-" 0) (hex_pair (v i) (format v left (suc i)))
      ∙ omega
          (arith, len-hex_pair (v i) (format v left (suc i)) (h i), len-format v h left (suc i)))
  | inr d ↦
      rw d (
        omega
          (arith, len-hex_pair (v i) (format v left (suc i)) (h i), len-format v h left (suc i)))
]

stamped_lt : (b : ℕ → ℕ) → ((i : ℕ) → b i < 256) → (i : ℕ) → stamped b i < 256
stamped_lt b h i = ground (arith, h i)

-- The text form is checked pair by pair; each dash computes.
valid_from-format : (v : ℕ → ℕ) → ((i : ℕ) → v i < 256) → valid_from 0 (format v 16 0) ≡ true
unfolding format valid_from
valid_from-format v h =
    valid_from-pair 0 (v 0) (format v 15 1) (h 0) refl refl
    ∙ valid_from-pair 2 (v 1) (format v 14 2) (h 1) refl refl
    ∙ valid_from-pair 4 (v 2) (format v 13 3) (h 2) refl refl
    ∙ valid_from-pair 6 (v 3) (format v 12 4) (h 3) refl refl
    ∙ valid_from-pair 9 (v 4) (format v 11 5) (h 4) refl refl
    ∙ valid_from-pair 11 (v 5) (format v 10 6) (h 5) refl refl
    ∙ valid_from-pair 14 (v 6) (format v 9 7) (h 6) refl refl
    ∙ valid_from-pair 16 (v 7) (format v 8 8) (h 7) refl refl
    ∙ valid_from-pair 19 (v 8) (format v 7 9) (h 8) refl refl
    ∙ valid_from-pair 21 (v 9) (format v 6 10) (h 9) refl refl
    ∙ valid_from-pair 24 (v 10) (format v 5 11) (h 10) refl refl
    ∙ valid_from-pair 26 (v 11) (format v 4 12) (h 11) refl refl
    ∙ valid_from-pair 28 (v 12) (format v 3 13) (h 12) refl refl
    ∙ valid_from-pair 30 (v 13) (format v 2 14) (h 13) refl refl
    ∙ valid_from-pair 32 (v 14) (format v 1 15) (h 14) refl refl
    ∙ valid_from-pair 34 (v 15) (format v 0 16) (h 15) refl refl

-- Whatever the random bytes are, the new id has the form of an id.
pub is_valid-new : (b : ℕ → ℕ) → ((i : ℕ) → b i < 256) → is_valid (new b) ≡ true
unfolding is_valid new
is_valid-new b h =
    let long : len (format (stamped b) 16 0) ≡ 36 = len-format (stamped b) (stamped_lt b h) 16 0 in
    rw long (valid_from-format (stamped b) (stamped_lt b h))
