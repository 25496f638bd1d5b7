-- ===== src/Decimal/Laws.antt =====
-- What is printed is read back.
use Prim.Native.Char.{code}
use Prim.Native.String.{[], ◌∷◌, char_at, ◌++◌ as text_append}
use Prim.Native.String.append
use recording.Prelude.{
  all_below, all_below_sound, ℕ, zero, suc, ◌+◌, ◌-◌, ◌*◌, ◌/◌, ◌%◌, ◌<◌, ◌≡◌, refl, ◌∙◌, ap,
  String, true, Option, none, some, ◌==◌, ltb, arith, inl, inr, Bool-cases,
}
use recording.Decimal.{pos, digit, print_digits, print, read_digits, is_digit, atoi}

digit_table : all_below 10 (λ n. code (char_at "0123456789" n) == 48 + n) ≡ true
digit_table = refl

code-digit : (n : ℕ) → n < 10 → code (char_at "0123456789" n) ≡ 48 + n
code-digit n h =
    let hit = all_below_sound 10 (λ n. code (char_at "0123456789" n) == 48 + n) n digit_table h in
    ground arith

-- Reading on after a text.
abbrev after : Option ℕ → String → Option ℕ
after none t = none
after (some n) t = read_digits n t

read_digits-append :
    (acc : ℕ) (s t : String) → read_digits acc (text_append s t) ≡ after (read_digits acc s) t
unfolding read_digits
read_digits-append acc [] t = rw append.nil refl
read_digits-append acc (c ∷ s) t = elim (Bool-cases (is_digit c)) [
  | inl d ↦ rw append.cons (rw d (read_digits-append (acc * 10 + (code c - 48)) s t))
  | inr d ↦ rw append.cons (rw d refl)
]

read_digits-digit : (acc n : ℕ) → n < 10 → read_digits acc (digit n) ≡ some (acc * 10 + n)
unfolding read_digits
read_digits-digit acc n h = ground (arith, code-digit n h)

read_digits-print : (fuel n : ℕ) → n < fuel → read_digits 0 (print_digits fuel n) ≡ some n
unfolding print_digits
read_digits-print zero n h = absurd (omega arith)
read_digits-print (suc fuel) n h = elim (Bool-cases (ltb n 10)) [
  | inl small ↦ rw small (read_digits-digit 0 n (ground arith) ∙ ap some (omega arith))
  | inr big ↦
      let ten : 9 < n = ground arith in
      rw big (
        read_digits-append 0 (print_digits fuel (n / 10)) (digit (n % 10))
        ∙ ap (λ o. after o (digit (n % 10))) (read_digits-print fuel (n / 10) (omega arith))
        ∙ read_digits-digit (n / 10) (n % 10) (omega arith)
        ∙ ap some (omega arith))
]

atoi-read :
    (s : String) (n : ℕ)
    → read_digits 0 s ≡ some n
    → 0 < n
    → n < 9223372036854775808
    → atoi s ≡ some (pos n)
unfolding atoi
atoi-read [] n h p b = absurd (ground arith)
atoi-read (c ∷ s) n h p b = ground arith

-- A number that fits an `int` is read back from its print.
pub atoi-print : (n : ℕ) → n < 9223372036854775808 → atoi (print n) ≡ some (pos n)
unfolding atoi print
atoi-print zero b = refl
atoi-print (suc n) b =
    atoi-read (print (suc n)) (suc n) (read_digits-print (suc (suc n)) (suc n) (omega arith))
      (omega arith) b
