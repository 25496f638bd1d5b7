-- ===== src/Domain/Summary/Parse.antt =====
-- `ParseSummary` of internal/domain/recording/summary.go, on the JSON value of the text; `none` is
-- a text that is not one JSON value. Of a repeated key the last value counts.
pub mod Laws
use Prim.Native.Char.{Char, code}
use Prim.Native.String.{[], ◌∷◌}
use recording.Prelude.{
  ℕ, ◌+◌, String, Bool, true, false, ◌&&◌, ◌||◌, List, Option, none, some, ◌==◌, leb, same,
  if◌then◌else◌, Result, ok, err,
}
use recording.Domain.Status.{DomainError, summary_invalid}
use recording.Domain.Json.{
  Json, Items, Fields, null, bool, num, str, arr, obj, nil, cons, end, field,
}
use recording.Domain.Summary.{Summary}

pub data SummaryField : Type 0 where
  summary_field key_points_field todos_field : SummaryField

-- The decoder compares keys under Unicode's simple folding: the letters that fold to an ASCII
-- letter are its capital, and U+017F for `s` and U+212A for `k`.
abbrev fold_code : ℕ → ℕ
fold_code n =
    if leb 65 n && leb n 90 then n + 32 else if n == 383 then 115 else if n == 8490 then 107 else n

unfoldable pub folds_to : String → String → Bool
folds_to [] [] = true
folds_to [] (d ∷ t) = false
folds_to (c ∷ s) [] = false
folds_to (c ∷ s) (d ∷ t) = fold_code (code c) == code d && folds_to s t

unfoldable pub field_of : String → Option SummaryField
unfolding folds_to
field_of key =
    if folds_to key "summary"
    then some summary_field
    else if folds_to key "key_points"
    then some key_points_field
    else if folds_to key "todos"
    then some todos_field
    else none

-- The struct of pointers: `none` is a missing field or null.
pub record Raw : Type 0 where
  pub summary : Option String
  pub key_points : Option (List String)
  pub todos : Option (List String)

abbrev pub zero_raw : Raw
zero_raw = record { summary = none; key_points = none; todos = none }

-- Into a `*string`; the outer `none` is a type error.
abbrev pub decode_text : Json → Option (Option String)
decode_text null = some none
decode_text (str s) = some (some s)
decode_text _ = none

abbrev pub push_text : String → Option (List String) → Option (List String)
push_text s none = none
push_text s (some ss) = some (List.◌∷◌ s ss)

-- Into a `[]string`: a null element stays the empty text.
unfoldable pub decode_items : Items → Option (List String)
decode_items nil = some List.[]
decode_items (cons (str s) rest) = push_text s (decode_items rest)
decode_items (cons null rest) = push_text "" (decode_items rest)
decode_items (cons _ rest) = none

abbrev pub present : Option (List String) → Option (Option (List String))
present none = none
present (some ss) = some (some ss)

unfoldable pub decode_texts : Json → Option (Option (List String))
unfolding decode_items
decode_texts null = some none
decode_texts (arr items) = present (decode_items items)
decode_texts _ = none

abbrev pub set_summary : Raw → Option (Option String) → Option Raw
set_summary raw none = none
set_summary raw (some v) = some (record raw { summary = v })

abbrev pub set_key_points : Raw → Option (Option (List String)) → Option Raw
set_key_points raw none = none
set_key_points raw (some v) = some (record raw { key_points = v })

abbrev pub set_todos : Raw → Option (Option (List String)) → Option Raw
set_todos raw none = none
set_todos raw (some v) = some (record raw { todos = v })

-- DisallowUnknownFields: `none` for a key that is no field.
abbrev pub decode_field : Raw → Option SummaryField → Json → Option Raw
decode_field raw none v = none
decode_field raw (some summary_field) v = set_summary raw (decode_text v)
decode_field raw (some key_points_field) v = set_key_points raw (decode_texts v)
decode_field raw (some todos_field) v = set_todos raw (decode_texts v)

abbrev pub and_then : {A : Type 0} → Option A → (A → Option A) → Option A
and_then none f = none
and_then (some a) f = f a

unfoldable pub decode_fields : Fields → Raw → Option Raw
unfolding field_of decode_texts
decode_fields end raw = some raw
decode_fields (field key v rest) raw =
    and_then (decode_field raw (field_of key) v) (decode_fields rest)

unfoldable pub check_non_empty_elements : List String → Bool
check_non_empty_elements List.[] = true
check_non_empty_elements (List.◌∷◌ s ss) =
    let rest = check_non_empty_elements ss in if same s "" then false else rest

abbrev pub checked : String → List String → List String → Result DomainError Summary
checked summary key_points todos =
    if same summary ""
    then err summary_invalid
    else if check_non_empty_elements key_points
    then (if check_non_empty_elements todos
        then ok (record { summary = summary; key_points = key_points; todos = todos })
        else err summary_invalid)
    else err summary_invalid

abbrev pub all_there :
    Option String → Option (List String) → Option (List String) → Result DomainError Summary
all_there (some s) (some ks) (some ts) = checked s ks ts
all_there _ _ _ = err summary_invalid

abbrev pub of_raw : Raw → Result DomainError Summary
of_raw raw = all_there raw.summary raw.key_points raw.todos

abbrev pub of_decoded : Option Raw → Result DomainError Summary
of_decoded none = err summary_invalid
of_decoded (some raw) = of_raw raw

-- A top-level null is refused, and every other value that is not an object is a type error.
unfoldable pub parse_summary : Option Json → Result DomainError Summary
unfolding decode_fields check_non_empty_elements
parse_summary (some (obj fields)) = of_decoded (decode_fields fields zero_raw)
parse_summary _ = err summary_invalid
