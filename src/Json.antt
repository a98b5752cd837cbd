-- ===== src/Json.antt =====
-- The JSON values that the program stores and sends: Python's dict, list, str, int, bool and None.
-- A stored value is kept as the value itself, since `json.loads` undoes `json.dumps`.
use yjdlagent.Prelude.{
  ℕ, String, Bool, true, false, Option, none, some, List, [], ◌∷◌, str_eq, if◌then◌else◌, not, ◌==◌,
}

mutual
  pub data Json : Type 0 where
    null : Json
    bool : Bool → Json
    num : ℕ → Json
    -- any other number, by its literal
    real : String → Json
    text : String → Json
    -- the text that `iso_utc` makes of an instant
    iso : ℕ → Json
    arr : Items → Json
    obj : Fields → Json

  pub data Items : Type 0 where
    nil : Items
    cons : Json → Items → Items

  pub data Fields : Type 0 where
    end : Fields
    field : String → Json → Fields → Fields

-- `dict.get(key)` on the fields of an object.
unfoldable pub get_field : String → Fields → Option Json
get_field k end = none
get_field k (field j v fs) = if str_eq j k then some v else get_field k fs

-- `value.get(key)`; `none` for a missing key, and for a value that is no dict.
unfoldable pub get : String → Json → Option Json
unfolding get_field
get k (obj fs) = get_field k fs
get k other = none

abbrev pub items : List Json → Items
items [] = nil
items (x ∷ xs) = cons x (items xs)

abbrev pub fields : List (String × Json) → Fields
fields [] = end
fields ((k, v) ∷ rest) = field k v (fields rest)

-- A dict literal.
abbrev pub dict : List (String × Json) → Json
dict entries = obj (fields entries)

-- `if value:`
unfoldable pub truthy : Json → Bool
truthy null = false
truthy (bool b) = b
truthy (num n) = not (n == 0)
truthy (real s) = not (str_eq s "0.0")
truthy (text s) = not (str_eq s "")
truthy (iso t) = true
truthy (arr nil) = false
truthy (arr (cons x xs)) = true
truthy (obj end) = false
truthy (obj (field k v fs)) = true
