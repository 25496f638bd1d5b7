-- ===== src/Domain/Json.antt =====
-- JSON values, as `encoding/json` and the JSON columns of MySQL hold them. The `details` and
-- `summary_json` columns are modelled by such values, not by their text.
use recording.Prelude.{ℕ, String, Bool}

mutual
  pub data Json : Type 0 where
    null : Json
    bool : Bool → Json
    num : ℕ → Json
    str : String → Json
    arr : Items → Json
    obj : Fields → Json

  pub data Items : Type 0 where
    nil : Items
    cons : Json → Items → Items

  pub data Fields : Type 0 where
    end : Fields
    field : String → Json → Fields → Fields
