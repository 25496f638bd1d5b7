-- ===== src/Bootstrap/Config/Laws.antt =====
-- What a configuration that is accepted guarantees.
use recording.Bootstrap.Config.{
  bad_total_timeout, bad_read_timeout, body_below_file, bad_body_mb, bad_file_mb, Config,
  ConfigError, megabytes, to_int64, upload_file_mb, upload_body_mb, upload_free_mb, config_of,
  malformed_of, missing_of, is_positive, refuse_if, check_limits, is_recovery_mode, after_missing,
  after_malformed, load_config,
}
use recording.Prelude.{
  ℕ, ◌*◌, ◌<◌, ◌≤◌, ◌≡◌, ◌≢◌, ◌⊎◌, inl, inr, refl, sym, ap, ◌∙◌, subst, String, Bool, true, false,
  not, List, [], ◌∷◌, ltb, arith, Bool-cases, Result, ok,
}
use recording.Decimal.{ℤ, pos, negsuc}
use recording.Bootstrap.Environ.{Environ}

-- 2^43 megabytes are the first that do not fit an `int64`.
abbrev pub IsExact : ℕ → ℕ → Config → Type 0
IsExact f b c =
    ((b < 8796093022208)
      × (c.upload_max_file_bytes ≡ pos (f * 1048576))
      × (c.upload_max_body_bytes ≡ pos (b * 1048576)))
    ⊎ (8796093022208 ≤ b) × (c.upload_max_body_bytes ≢ pos (b * 1048576))

-- The limits of uploads, before the conversion to bytes.
abbrev pub AreLimits : ℤ → ℤ → ℤ → Config → Type 0
AreLimits (pos f) (pos b) (pos m) c =
    (0 < f)
    × (f ≤ b)
    × (is_positive c.upload_read_timeout ≡ true)
    × (is_positive c.upload_total_timeout ≡ true)
AreLimits _ _ _ c = ⊥

-- A refusal that did not happen.
refuse_if-ok :
    (b : Bool) (why : ConfigError) (rest : Result ConfigError Config) (d : Config)
    → refuse_if b why rest ≡ ok d
    → (b ≡ false) × (rest ≡ ok d)
refuse_if-ok true why rest d h = absurd (cc h)
refuse_if-ok false why rest d h = (refl, h)

not-false : (b : Bool) → not b ≡ false → b ≡ true
not-false true h = refl
not-false false h = absurd (cc h)

ok-injective : (c d : Config) → refuse_if false bad_file_mb (ok c) ≡ ok d → c ≡ d
ok-injective c d h = cc h

check_limits_lem :
    (file body free : ℤ) (c d : Config)
    → check_limits file body free c ≡ ok d
    → (c ≡ d) × AreLimits file body free c
unfolding check_limits
check_limits_lem (pos f) (pos b) (pos m) c d h =
    let (file, h1) = refuse_if-ok (not (ltb 0 f)) bad_file_mb _ d h in
    let (body, h2) = refuse_if-ok (not (ltb 0 b)) bad_body_mb _ d h1 in
    let (below, h4) = refuse_if-ok (ltb b f) body_below_file _ d h2 in
    let (read, h5) =
      refuse_if-ok (not (is_positive c.upload_read_timeout)) bad_read_timeout _ d h4 in
    let (total, h6) =
      refuse_if-ok (not (is_positive c.upload_total_timeout)) bad_total_timeout _ d h5 in
    (
      ok-injective c d h6,
      (
        (let positive = not-false (ltb 0 f) file in ground arith),
        ground arith,
        not-false (is_positive c.upload_read_timeout) read,
        not-false (is_positive c.upload_total_timeout) total,
      ),
    )
check_limits_lem (pos f) (pos b) (negsuc m) c d h =
    let (file, h1) = refuse_if-ok (not (ltb 0 f)) bad_file_mb _ d h in
    let (body, h2) = refuse_if-ok (not (ltb 0 b)) bad_body_mb _ d h1 in absurd (cc h2)
check_limits_lem (pos f) (negsuc b) m c d h =
    let (file, h1) = refuse_if-ok (not (ltb 0 f)) bad_file_mb _ d h in absurd (cc h1)
check_limits_lem (negsuc f) b m c d h = absurd (cc h)

megabytes-exact : (n : ℕ) → n < 8796093022208 → to_int64 (megabytes (pos n)) ≡ pos (n * 1048576)
unfolding megabytes to_int64
megabytes-exact n h = ground arith

megabytes-wrapped : (n : ℕ) → 8796093022208 ≤ n → to_int64 (megabytes (pos n)) ≢ pos (n * 1048576)
unfolding megabytes to_int64
megabytes-wrapped n h e = ground arith

IsExact-config_of :
    (e : Environ) (f b : ℕ)
    → upload_file_mb e ≡ pos f
    → upload_body_mb e ≡ pos b
    → f ≤ b
    → IsExact f b (config_of e)
unfolding config_of
IsExact-config_of e f b hf hb le = elim (Bool-cases (ltb b 8796093022208)) [
  | inl small ↦ inl (
    (let below : b < 8796093022208 = ground arith in below),
    ap (λ m. to_int64 (megabytes m)) hf ∙ megabytes-exact f (ground arith),
    ap (λ m. to_int64 (megabytes m)) hb ∙ megabytes-exact b (ground arith),
  )
  | inr big ↦
      let above : 8796093022208 ≤ b = ground arith in
      inr (above, λ e. megabytes-wrapped b above (sym (ap (λ m. to_int64 (megabytes m)) hb) ∙ e))
]

-- What the start has checked of a configuration.
pub record IsAccepted (e : Environ) (c : Config) : Type 0 where
  pub read : c ≡ config_of e
  pub well_formed : malformed_of e ≡ []
  pub complete : missing_of c ≡ []
  pub mode : is_recovery_mode c.recovery_mode ≡ true
  pub limits : AreLimits (upload_file_mb e) (upload_body_mb e) (upload_free_mb e) c

after_missing_lem :
    (e : Environ) (keys : List String) (c d : Config)
    → missing_of c ≡ keys
    → after_missing e keys c ≡ ok d
    → malformed_of e ≡ []
    → c ≡ config_of e
    → IsAccepted e d
after_missing_lem e (key ∷ keys) c d m h w r = absurd (cc h)
after_missing_lem e [] c d m h w r = elim (Bool-cases (is_recovery_mode c.recovery_mode)) [
  | inl mode ↦
      let (same_config, limits) =
        check_limits_lem (upload_file_mb e) (upload_body_mb e) (upload_free_mb e) c d
          (rw mode at h) in
      subst (IsAccepted e) same_config
        (record { read = r; well_formed = w; complete = m; mode = mode; limits = limits })
  | inr other ↦ absurd (cc (rw other at h))
]

after_malformed_lem :
    (e : Environ) (keys : List String) (d : Config)
    → malformed_of e ≡ keys
    → after_malformed e keys (config_of e) ≡ ok d
    → IsAccepted e d
after_malformed_lem e (key ∷ keys) d w h = absurd (cc h)
after_malformed_lem e [] d w h =
    after_missing_lem e (missing_of (config_of e)) (config_of e) d refl h w refl

load_config-IsAccepted : (e : Environ) (c : Config) → load_config e ≡ ok c → IsAccepted e c
unfolding load_config
load_config-IsAccepted e c h = after_malformed_lem e (malformed_of e) c refl h

read_limits :
    (e : Environ) (file body free : ℤ) (c : Config)
    → upload_file_mb e ≡ file
    → upload_body_mb e ≡ body
    → c ≡ config_of e
    → AreLimits file body free c
    → (f : ℕ) × (b : ℕ) × (upload_file_mb e ≡ pos f)
      × (upload_body_mb e ≡ pos b)
      × (0 < f)
      × (f ≤ b)
      × IsExact f b c
read_limits e (pos f) (pos b) (pos m) c hf hb r l =
    (f, b, hf, hb, l.0, l.1, subst (IsExact f b) (sym r) (IsExact-config_of e f b hf hb l.1))
read_limits e (pos f) (pos b) (negsuc m) c hf hb r l = absurd l
read_limits e (pos f) (negsuc b) m c hf hb r l = absurd l
read_limits e (negsuc f) b m c hf hb r l = absurd l

-- A configuration that is accepted comes from an environment without malformed values, has every
-- required variable, a known recovery mode and positive upload timeouts; the limit of a file is
-- positive and at most that of a body. Both are exact in bytes where the body's limit is below 2^43
-- megabytes; from there on the body's limit in bytes is another number, for the `int64` overflows.
-- Of the number of workers and the polling interval only the form is checked.
pub load_config_lem :
    (e : Environ) (c : Config)
    → load_config e ≡ ok c
    → IsAccepted e c
      × ((f : ℕ) × (b : ℕ) × (upload_file_mb e ≡ pos f)
          × (upload_body_mb e ≡ pos b)
          × (0 < f)
          × (f ≤ b)
          × IsExact f b c)
load_config_lem e c h =
    let u = load_config-IsAccepted e c h in
    (
      u,
      read_limits e (upload_file_mb e) (upload_body_mb e) (upload_free_mb e) c refl refl u.read
          u.limits,
    )
