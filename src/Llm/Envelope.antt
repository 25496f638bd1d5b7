-- ===== src/Llm/Envelope.antt =====
-- How `encoding/json` reads the outer structure `chatResponse` of internal/infrastructure/llm/llm.go:
-- keys without a field are skipped, null leaves a value as it is, a wrong type is an error.
use recording.Prelude.{String, List, [], ◌∷◌, Option, none, some, if◌then◌else◌}
use recording.Domain.Json.{Json, Items, Fields, null, str, arr, obj, nil, cons, end, field}
use recording.Domain.Summary.Parse.{folds_to}

abbrev pub into_text : Json → String → Option String
into_text null old = some old
into_text (str s) old = some s
into_text _ old = none

-- `message`, of which `content` is read; the last `content` counts.
unfoldable pub message_fields : Fields → String → Option String
unfolding folds_to
message_fields end content = some content
message_fields (field key v rest) content =
    let skipped = message_fields rest content in
    let read : Option String = elim (into_text v content) [
      | none ↦ none
      | some content' ↦ message_fields rest content'
    ] in
    if folds_to key "content" then read else skipped

abbrev pub message_of : Json → String → Option String
message_of null content = some content
message_of (obj fields) content = message_fields fields content
message_of _ content = none

-- One element of `choices`.
unfoldable pub choice_fields : Fields → String → Option String
unfolding message_fields
choice_fields end content = some content
choice_fields (field key v rest) content =
    let skipped = choice_fields rest content in
    let read : Option String = elim (message_of v content) [
      | none ↦ none
      | some content' ↦ choice_fields rest content'
    ] in
    if folds_to key "message" then read else skipped

abbrev pub choice_of : Json → Option String
choice_of null = some ""
choice_of (obj fields) = choice_fields fields ""
choice_of _ = none

abbrev pub push_content : Option String → Option (List String) → Option (List String)
push_content (some content) (some rest) = some (content ∷ rest)
push_content _ _ = none

unfoldable pub choice_items : Items → Option (List String)
unfolding choice_fields
choice_items nil = some []
choice_items (cons j rest) = push_content (choice_of j) (choice_items rest)

abbrev pub into_choices : Json → Option (List String)
into_choices null = some []
into_choices (arr items) = choice_items items
into_choices _ = none

unfoldable pub response_fields : Fields → List String → Option (List String)
unfolding choice_items
response_fields end choices = some choices
response_fields (field key v rest) choices =
    let skipped = response_fields rest choices in
    let read : Option (List String) = elim (into_choices v) [
      | none ↦ none
      | some choices' ↦ response_fields rest choices'
    ] in
    if folds_to key "choices" then read else skipped

-- The contents of the choices; `none` is an error of `json.Unmarshal`.
unfoldable pub choices_of : Json → Option (List String)
unfolding response_fields
choices_of null = some []
choices_of (obj fields) = response_fields fields []
choices_of _ = none
