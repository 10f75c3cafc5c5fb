-- ===== src/Ui/Database/DataTypes.antt =====
-- `getDataType` and `normalizeDataType` of frontend/astiango-hub-ui/src/utils/database.ts.
use astiango_hub.Common.{
  ◌+◌, String, Bool, false, ◌&&◌, ◌||◌, Option, some, List, [], ◌∷◌, ◌++◌, map, codes, leb, str_eq,
  Text, eq_text, ◌≡◌, refl, ends_with, if◌then◌else◌,
}
use astiango_hub.Mcp.Json.{Json, null, bool, str, arr, obj, items}
use astiango_hub.Ui.Menu.{starts_with, contains}

pub data DatabaseDataType : Type 0 where
  number boolean string datetime date object array objectid unknown : DatabaseDataType

-- `toLowerCase`, on the letters that the names of types have.
unfoldable pub to_lower : Text → Text
to_lower s = map (λ c. if leb 65 c && leb c 90 then c + 32 else c) s

abbrev is_one_of : Text → List Text → Bool
is_one_of s [] = false
is_one_of s (t ∷ ts) = eq_text s t || is_one_of s ts

-- `/^int|integer|smallint|bigint|tinyint|mediumint$/`, whose `^` and `$` belong to the first and the
-- last alternative only; so in the next ones.
unfoldable pub is_integer_type : Text → Bool
is_integer_type t =
    starts_with t (codes "int")
    || contains t (codes "integer")
    || contains t (codes "smallint")
    || contains t (codes "bigint")
    || contains t (codes "tinyint")
    || ends_with t (codes "mediumint")

unfoldable pub is_float_type : Text → Bool
is_float_type t =
    starts_with t (codes "float")
    || contains t (codes "real")
    || contains t (codes "double")
    || contains t (codes "numeric")
    || contains t (codes "decimal")

unfoldable pub is_boolean_type : Text → Bool
is_boolean_type t = starts_with t (codes "bool") || ends_with t (codes "bit")

unfoldable pub is_string_type : Text → Bool
is_string_type t =
    starts_with t (codes "char") || contains t (codes "text") || ends_with t (codes "string")

-- The tests that follow, each on the whole name.
unfoldable pub exact_type : Text → DatabaseDataType
exact_type t =
    if is_one_of t (codes "timestamp" ∷ codes "datetime" ∷ codes "timestamptz" ∷ [])
    then datetime
    else if eq_text t (codes "date")
    then date
    else if eq_text t (codes "time")
    then string
    else if is_one_of t (codes "json" ∷ codes "jsonb" ∷ [])
    then object
    else if eq_text t (codes "array") || ends_with t (codes "[]")
    then array
    else if is_one_of t (codes "uuid" ∷ codes "uniqueidentifier" ∷ [])
    then string
    else if is_one_of t
        (codes "bytea" ∷ codes "blob" ∷ codes "binary" ∷ codes "varbinary" ∷ codes "image" ∷ [])
    then object
    else if is_one_of t (codes "long" ∷ codes "decimal128" ∷ [])
    then number
    else if eq_text t (codes "objectid")
    then objectid
    else if eq_text t (codes "object")
    then object
    else if eq_text t (codes "isodate")
    then datetime
    else unknown

unfoldable pub get_data_type : Text → DatabaseDataType
unfolding to_lower is_integer_type is_float_type is_boolean_type is_string_type exact_type
get_data_type type =
    let t = to_lower type in
    if is_integer_type t
    then number
    else if is_float_type t
    then number
    else if is_boolean_type t
    then boolean
    else if is_string_type t
    then string
    else exact_type t

-- `Number`, `Boolean` and `String`, and `JSON.parse` of the text of a value, `none` where it throws.
pub record Conversions : Type 0 where
  pub to_number : Json → Json
  pub to_boolean : Json → Bool
  pub to_text : Json → String
  pub parse : Json → Option Json

abbrev boolean_value : (Json → Bool) → Json → Bool
boolean_value to_boolean (bool b) = b
boolean_value to_boolean (str s) = eq_text (to_lower (codes s)) (codes "true") || str_eq s "1"
boolean_value to_boolean v = to_boolean v

abbrev array_value : Json → Json
array_value (arr xs) = arr xs
array_value v = arr (items (v ∷ []))

abbrev object_value : (Json → Option Json) → Json → Option Json
object_value parse null = some null
object_value parse (arr xs) = some (arr xs)
object_value parse (obj fs) = some (obj fs)
object_value parse v = parse v

module _ (c : Conversions) where
  unfoldable pub value_of_type : DatabaseDataType → Json → Option Json
  unfolding to_lower
  value_of_type number v = some (c.to_number v)
  value_of_type boolean v = some (bool (boolean_value c.to_boolean v))
  value_of_type string v = some (str (c.to_text v))
  value_of_type array v = some (array_value v)
  value_of_type object v = object_value c.parse v
  value_of_type _ v = some v

  -- `none` where it throws.
  unfoldable pub normalize_data_type : Json → Text → Option Json
  unfolding value_of_type get_data_type
  normalize_data_type value type = value_of_type (get_data_type type) value

-- A column whose type begins with "int" is taken for a number, whatever follows: an array of numbers and
-- an interval too.
pub get_data_type-int : (rest : Text) → get_data_type (codes "int" ++ rest) ≡ number
unfolding get_data_type starts_with
get_data_type-int rest = refl
