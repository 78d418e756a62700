-- ===== src/Json.antt =====
-- JSON values, and what the program takes from Python's `json`: text is a list of code points.
use ansuman_nsfw_detection_s.Base.{
  ◌==◌, ◌&&◌, not, false, true, String, Bool, Option, none, some, List, [], ◌∷◌, str_eq,
  if◌then◌else◌,
}
use ansuman_nsfw_detection_s.Base.Int.{ℤ, pos, negsuc}
use ansuman_nsfw_detection_s.Float.{Double, FloatOps}

mutual
  pub data Json : Type 0 where
    null : Json
    bool : Bool → Json
    int : ℤ → Json
    float : Double → Json
    string : String → Json
    array : Items → Json
    object : Fields → Json

  pub data Items : Type 0 where
    nil : Items
    cons : Json → Items → Items

  pub data Fields : Type 0 where
    end : Fields
    field : String → Json → Fields → Fields

-- payload.get(key)
unfoldable pub get_field : String → Fields → Option Json
get_field k end = none
get_field k (field j v r) = if str_eq j k then some v else get_field k r

-- A list of values as a list.
unfoldable pub items : Items → List Json
items nil = []
items (cons v r) = v ∷ items r

-- A dict of strings to values as an object, and back.
unfoldable pub fields_of : List (String × Json) → Fields
fields_of [] = end
fields_of ((k, v) ∷ d) = field k v (fields_of d)

unfoldable pub fields : Fields → List (String × Json)
fields end = []
fields (field k v r) = (k, v) ∷ fields r

-- `bool(value)` of a decoded value.
unfoldable pub is_truthy : FloatOps → Json → Bool
is_truthy ops null = false
is_truthy ops (bool b) = b
is_truthy ops (int (pos n)) = not (n == 0)
is_truthy ops (int (negsuc n)) = true
is_truthy ops (float x) = not (ops.leb x (ops.of_int 0) && ops.leb (ops.of_int 0) x)
is_truthy ops (string s) = not (str_eq s "")
is_truthy ops (array nil) = false
is_truthy ops (array (cons v r)) = true
is_truthy ops (object end) = false
is_truthy ops (object (field k v r)) = true
