-- ===== src/Domain/Summary.antt =====
-- internal/domain/recording/summary.go: the value object; its parser is in the child `Parse`.
pub mod Parse
use recording.Prelude.{String, List}

pub record Summary : Type 0 where
  pub summary : String
  pub key_points : List String
  pub todos : List String
