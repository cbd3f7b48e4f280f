-- ===== src/Config/Json.antt =====
-- A JSON value, as encoding/json reads it. A number is its literal.
use kubio.Prelude.{Bool, Option, none, some, List, [], ◌∷◌, if◌then◌else◌}
use kubio.Text.{Text, text_eq}

mutual
  pub data Json : Type 0 where
    null : Json
    boolean : Bool → Json
    number : Text → Json
    str : Text → Json
    array : Items → Json
    object : Fields → Json

  pub data Items : Type 0 where
    end : Items
    item : Json → Items → Items

  pub data Fields : Type 0 where
    close : Fields
    entry : Text → Json → Fields → Fields

abbrev pub items_of : Items → List Json
items_of end = []
items_of (item v rest) = v ∷ items_of rest

abbrev pub fields_of : Fields → List (Text × Json)
fields_of close = []
fields_of (entry key v rest) = (key, v) ∷ fields_of rest

-- The value of a struct's field: the configuration has been checked for keys that stand twice.
unfoldable pub field_of : Text → Fields → Option Json
field_of name close = none
field_of name (entry key v rest) = if text_eq key name then some v else field_of name rest
