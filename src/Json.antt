-- ===== src/Json.antt =====
-- JSON values, as `encoding/json` marshals Go values to them, and the two libraries behind
-- `CanonicalJSON`: json.Marshal and the third-party jcs.Transform, which are parameters.
use stonewrit.Prelude.{List, [], ◌∷◌, Bool, Option, none, some, Text, str_eq, if◌then◌else◌}
use stonewrit.Prelude.Errors.{Result}

mutual
  pub data Json : Type 0 where
    null : Json
    bool : Bool → Json
    -- a number by the text that json.Marshal prints for it
    num : Text → Json
    str : Text → Json
    arr : Items → Json
    obj : Fields → Json

  pub data Items : Type 0 where
    nil : Items
    cons : Json → Items → Items

  pub data Fields : Type 0 where
    end : Fields
    field : Text → Json → Fields → Fields

-- what `CanonicalJSON` calls: json.Marshal of a value, and jcs.Transform of its bytes
pub record JsonLib : Type 0 where
  pub marshal : Json → Result Text
  pub transform : Text → Result Text

-- a slice of strings
unfoldable pub strings : List Text → Items
strings [] = nil
strings (s ∷ l) = cons (str s) (strings l)

-- a string field with `omitempty`
unfoldable pub omit_str : Text → Text → Fields → Fields
omit_str k [] rest = rest
omit_str k (c ∷ s) rest = field k (str (c ∷ s)) rest

-- a slice field with `omitempty`
unfoldable pub omit_strs : Text → List Text → Fields → Fields
unfolding strings
omit_strs k [] rest = rest
omit_strs k (s ∷ l) rest = field k (arr (strings (s ∷ l))) rest

-- a pointer field with `omitempty`
unfoldable pub omit_nil : Text → Option Json → Fields → Fields
omit_nil k none rest = rest
omit_nil k (some v) rest = field k v rest

-- the value at a key
unfoldable pub lookup : Text → Fields → Option Json
lookup k end = none
lookup k (field j v rest) = if str_eq j k then some v else lookup k rest
