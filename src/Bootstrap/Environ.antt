-- ===== src/Bootstrap/Environ.antt =====
-- How bootstrap/config.go reads the environment. The variables and `time.ParseDuration` (in
-- nanoseconds) are the argument `Environ`.
use recording.Prelude.{
  ℕ, String, Bool, true, false, ◌||◌, List, [], ◌∷◌, Option, none, some, same, if◌then◌else◌,
}
use recording.Decimal.{ℤ, pos, negsuc, atoi}

pub record Environ : Type 0 where
  pub getenv : String → String
  pub parse_duration : String → Option ℤ

abbrev pub or_default {ℓ} : {A : Type ℓ} → Option A → A → A
or_default none default = default
or_default (some a) default = a

-- The closures `envInt`, `envDuration` and `envBool`: the value of a variable, or the default where
-- it is empty or malformed, and the name where it is malformed.
abbrev pub value {ℓ} : {A : Type ℓ} → String → Option A → A → A
value v parsed default = if same v "" then default else or_default parsed default

abbrev pub complaint {ℓ} : {A : Type ℓ} → String → String → Option A → List String
complaint key v (some a) = []
complaint key v none = if same v "" then [] else key ∷ []

abbrev pub env_int : Environ → String → ℕ → ℤ
env_int e key default = value (e.getenv key) (atoi (e.getenv key)) (pos default)

abbrev pub int_complaint : Environ → String → List String
int_complaint e key = complaint key (e.getenv key) (atoi (e.getenv key))

abbrev pub env_duration : Environ → String → ℕ → ℤ
env_duration e key default = value (e.getenv key) (e.parse_duration (e.getenv key)) (pos default)

abbrev pub duration_complaint : Environ → String → List String
duration_complaint e key = complaint key (e.getenv key) (e.parse_duration (e.getenv key))

-- `strconv.ParseBool`.
unfoldable pub parse_bool : String → Option Bool
parse_bool v =
    if (same v "1" || same v "t")
      || ((same v "T" || same v "TRUE") || (same v "true" || same v "True"))
    then some true
    else if (same v "0" || same v "f")
        || ((same v "F" || same v "FALSE") || (same v "false" || same v "False"))
    then some false
    else none

abbrev pub env_bool : Environ → String → Bool → Bool
env_bool e key default = value (e.getenv key) (parse_bool (e.getenv key)) default

abbrev pub bool_complaint : Environ → String → List String
bool_complaint e key = complaint key (e.getenv key) (parse_bool (e.getenv key))

abbrev pub env_default : Environ → String → String → String
env_default e key default = if same (e.getenv key) "" then default else e.getenv key

-- A duration that is set and not negative; -1 stands for "not set", and for what is refused.
abbrev pub not_negative : Option ℤ → Option ℤ
not_negative (some (pos n)) = some (pos n)
not_negative _ = none

abbrev pub env_mock_asr_delay : Environ → ℤ
env_mock_asr_delay e =
    value (e.getenv "MOCK_ASR_DELAY") (not_negative (e.parse_duration (e.getenv "MOCK_ASR_DELAY")))
      (negsuc 0)

abbrev pub mock_asr_delay_complaint : Environ → List String
mock_asr_delay_complaint e =
    complaint "MOCK_ASR_DELAY" (e.getenv "MOCK_ASR_DELAY")
      (not_negative (e.parse_duration (e.getenv "MOCK_ASR_DELAY")))
