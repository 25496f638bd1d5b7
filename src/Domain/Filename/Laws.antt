-- ===== src/Domain/Filename/Laws.antt =====
-- What the rules on file names guarantee.
use Prim.Native.Char.{Char, code, len_utf8}
use Prim.Native.String.{[], ◌∷◌, ◌++◌, len}
use Prim.Native.String.len as len_laws
use Prim.Native.String.append as append_laws
use recording.Prelude.{
  ℕ, ◌+◌, ◌≤◌, ◌≡◌, inl, inr, refl, sym, ap, subst, some-injective, ◌∙◌, ◌==◌, String, true, false,
  some, Option-cases, Bool-cases, arith, same, ltb, Result, ok,
}
use recording.Domain.Filename.{
  is_control, sanitize_from, sanitize_filename, supported_extensions, split_last_dot, to_lower,
  parse_extension,
}

ok-injective : {E : Type 0} (a b : String) → Path (Result E String) (ok a) (ok b) → a ≡ b
ok-injective a b h = cc

abbrev pub NoControl : String → Type 0
NoControl [] = Unit
NoControl (c ∷ s) = (is_control c ≡ false) × NoControl s

sanitize_from-clean : (n : ℕ) (s : String) → NoControl (sanitize_from n s)
unfolding sanitize_from
sanitize_from-clean n [] = tt
sanitize_from-clean n (c ∷ s) = elim (Bool-cases (is_control c)) [
  | inl control ↦ rw control (sanitize_from-clean n s)
  | inr printable ↦ elim (Bool-cases (ltb 255 (n + len_utf8 c))) [
    | inl full ↦ rw (printable, full) tt
    | inr room ↦ rw (printable, room) (printable, sanitize_from-clean (n + len_utf8 c) s)
  ]
]

sanitize_from-len : (n : ℕ) (s : String) → n ≤ 255 → n + len (sanitize_from n s) ≤ 255
unfolding sanitize_from
sanitize_from-len n [] le = omega (arith, le)
sanitize_from-len n (c ∷ s) le = elim (Bool-cases (is_control c)) [
  | inl control ↦ rw control (sanitize_from-len n s le)
  | inr printable ↦ elim (Bool-cases (ltb 255 (n + len_utf8 c))) [
    | inl full ↦ rw (printable, full) (omega (arith, le))
    | inr room ↦
        rw (printable, room)
          (let h = sanitize_from-len (n + len_utf8 c) s (ground arith) in
            omega (arith, h, len_laws.cons c (sanitize_from (n + len_utf8 c) s)))
  ]
]

-- A text that is short and has no control character is left alone.
sanitize_from-id : (n : ℕ) (s : String) → NoControl s → n + len s ≤ 255 → sanitize_from n s ≡ s
unfolding sanitize_from
sanitize_from-id n [] clean le = refl
sanitize_from-id n (c ∷ s) clean le =
    let room : ltb 255 (n + len_utf8 c) ≡ false = ground (arith, len_laws.cons c s) in
    rw (clean.0, room)
      (ap (λ x. c ∷ x)
        (sanitize_from-id (n + len_utf8 c) s clean.1 (omega (arith, le, len_laws.cons c s))))

-- A sanitized name has at most 255 bytes and no control characters, and sanitizing it again changes
-- nothing.
pub sanitize_filename_lem :
    (name : String)
    → (len (sanitize_filename name) ≤ 255)
      × NoControl (sanitize_filename name)
      × (sanitize_filename (sanitize_filename name) ≡ sanitize_filename name)
unfolding sanitize_filename
sanitize_filename_lem name =
    let bounded : len (sanitize_from 0 name) ≤ 255 =
      (let h = sanitize_from-len 0 name (omega arith) in omega (arith, h)) in
    (
      bounded,
      sanitize_from-clean 0 name,
      sanitize_from-id 0 (sanitize_from 0 name) (sanitize_from-clean 0 name)
          (omega (arith, bounded)),
    )

-- The text is the two parts with a point between them.
abbrev pub Joined : String → String × String → Type 0
Joined s (before, ext) = (point : Char) × (code point ≡ 46) × (s ≡ before ++ (point ∷ ext))

split_last_dot-Joined :
    (s : String) (parts : String × String) → split_last_dot s ≡ some parts → Joined s parts
unfolding split_last_dot
split_last_dot-Joined [] parts h = cc
split_last_dot-Joined (c ∷ s) parts h = elim (Option-cases (split_last_dot s)) [
  | inr ((b, e), found) ↦
      let (point, is_point, join) = split_last_dot-Joined s (b, e) found in
      subst (Joined (c ∷ s)) (some-injective (c ∷ b, e) parts (rw found at h))
        (point, is_point, ap (λ x. c ∷ x) join ∙ sym (append_laws.cons c b (point ∷ e)))
  | inl absent ↦ elim (Bool-cases (code c == 46)) [
    | inl hit ↦
        subst (Joined (c ∷ s)) (some-injective ("", s) parts (rw hit at (rw absent at h)))
          (c, ground (arith, hit), sym (append_laws.nil (c ∷ s)))
    | inr miss ↦ absurd (cc (rw miss at (rw absent at h)))
  ]
]

-- An accepted extension is on the list, and the name is a non-empty text, a point, and a spelling
-- of the extension.
pub parse_extension_lem :
    (name ext : String)
    → parse_extension name ≡ ok ext
    → (supported_extensions ext ≡ true)
      × ((before : String) × (spelled : String) × (same before "" ≡ false)
          × (to_lower spelled ≡ ext)
          × Joined name (before, spelled))
unfolding parse_extension
parse_extension_lem name ext h = elim (Option-cases (split_last_dot name)) [
  | inl absent ↦ absurd (cc (rw absent at h))
  | inr ((b, e), found) ↦
      let h' = rw found at h in
      let join = split_last_dot-Joined name (b, e) found in
      elim (Bool-cases (same b "")) [
        | inl no_name ↦ absurd (cc (rw no_name at h'))
        | inr named ↦ elim (Bool-cases (supported_extensions (to_lower e))) [
          | inr off ↦ absurd (cc (rw off at (rw named at h')))
          | inl on ↦
              let is_ext : to_lower e ≡ ext =
                ok-injective (to_lower e) ext (rw on at (rw named at h')) in
              (subst (λ x. supported_extensions x ≡ true) is_ext on, (b, e, named, is_ext, join))
        ]
      ]
]
