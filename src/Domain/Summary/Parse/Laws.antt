-- ===== src/Domain/Summary/Parse/Laws.antt =====
-- What `ParseSummary` accepts, and that it reads back what `CompleteTask` stores.
use recording.Prelude.{
  ◌≡◌, refl, String, true, false, List, [], ◌∷◌, Option, none, some, same, ok, arith,
}
use recording.Domain.Json.{Json, null, bool, num, str, arr, obj}
use recording.Domain.Summary.{Summary}
use recording.Domain.Summary.Parse.{
  Raw, decode_items, decode_fields, zero_raw, of_decoded, check_non_empty_elements, parse_summary,
}
use recording.ProcessingTx.Complete.{texts, marshal_summary}

-- The value object: a text that is not empty, and lists of such texts.
pub record IsValid (s : Summary) : Type 0 where
  pub summary : same s.summary "" ≡ false
  pub key_points : check_non_empty_elements s.key_points ≡ true
  pub todos : check_non_empty_elements s.todos ≡ true

decode_items-texts : (ss : List String) → decode_items (texts ss) ≡ some ss
unfolding decode_items texts
decode_items-texts [] = refl
decode_items-texts (s ∷ ss) = rw (decode_items-texts ss) refl

-- A summary that is valid is read back from its JSON, unchanged.
pub parse_summary-marshal :
    (s : Summary) → IsValid s → parse_summary (some (marshal_summary s)) ≡ ok s
unfolding parse_summary marshal_summary
parse_summary-marshal s v = ground (
  arith,
  decode_items-texts s.key_points,
  decode_items-texts s.todos,
  v.summary,
  v.key_points,
  v.todos,
)

of_decoded-IsValid : (o : Option Raw) (s : Summary) → of_decoded o ≡ ok s → IsValid s
of_decoded-IsValid o s h = ground arith

-- Whatever is accepted is valid.
pub parse_summary-IsValid : (j : Option Json) (s : Summary) → parse_summary j ≡ ok s → IsValid s
unfolding parse_summary
parse_summary-IsValid none s h = cc
parse_summary-IsValid (some null) s h = cc
parse_summary-IsValid (some (bool b)) s h = cc
parse_summary-IsValid (some (num n)) s h = cc
parse_summary-IsValid (some (str t)) s h = cc
parse_summary-IsValid (some (arr xs)) s h = cc
parse_summary-IsValid (some (obj fields)) s h =
    of_decoded-IsValid (decode_fields fields zero_raw) s h
