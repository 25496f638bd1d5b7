-- ===== src/Http/BodyLimit/Laws.antt =====
-- The limit is exact.
use recording.Prelude.{
  ap, ◌∙◌, ℕ, ◌+◌, ◌-◌, ◌<◌, ◌≤◌, ◌≡◌, ◌⊎◌, inl, inr, refl, List, [], ◌∷◌, ◌==◌, length, All, arith,
  Bool-cases,
}
use recording.Http.BodyLimit.{Reader, too_large, allowed, read, remain_after, given}

-- The contract of io.Reader: no more bytes than the buffer has.
abbrev pub IsReader : ℕ × Reader → Type 0
IsReader (want, r) = (n : ℕ) → length (r n).bytes ≤ n

read-given :
    (remain want : ℕ) (r : Reader)
    → ((n : ℕ) → length (r n).bytes ≤ n)
    → length (read remain want r).0.bytes + (read remain want r).1 ≡ remain
unfolding read
read-given remain want r h = ground (arith, h (allowed remain want))

given-remain :
    (limit : ℕ) (rs : List (ℕ × Reader))
    → All IsReader rs
    → given limit rs + remain_after limit rs ≡ limit
unfolding given remain_after
given-remain limit [] h = omega arith
given-remain limit ((want, r) ∷ rs) h =
    omega (arith, read-given limit want r h.0, given-remain (read limit want r).1 rs h.1)

next-read :
    (n want : ℕ) (r : Reader)
    → ((0 < n) × ((read n want r).0 ≡ r (allowed n want)))
      ⊎ ((n ≡ 0) × ((read n want r).0 ≡ too_large))
unfolding read
next-read n want r = elim (Bool-cases (n == 0)) [
  | inl none_left ↦ inr (ground arith, rw none_left refl)
  | inr some_left ↦ inl (ground arith, rw some_left refl)
]

-- Whatever reads there have been, they have given at most `limit` bytes. The next one hands on the
-- answer of the reader below, to a buffer of no more than what is left to the limit, as long as
-- something is left; then it fails as too large, without bytes.
pub read_lem :
    (limit want : ℕ) (r : Reader) (rs : List (ℕ × Reader))
    → All IsReader rs
    → (given limit rs ≤ limit)
      × (((given limit rs < limit)
            × ((read (remain_after limit rs) want r).0 ≡ r (allowed (limit - given limit rs) want)))
          ⊎ ((given limit rs ≡ limit) × ((read (remain_after limit rs) want r).0 ≡ too_large)))
read_lem limit want r rs h =
    let total = given-remain limit rs h in
    let left : remain_after limit rs ≡ limit - given limit rs = omega arith in
    (
      omega arith,
      elim (next-read (remain_after limit rs) want r) [
        | inl (more, e) ↦ inl (omega arith, e ∙ ap (λ n. r (allowed n want)) left)
        | inr (none_left, e) ↦ inr (omega arith, e)
      ],
    )
