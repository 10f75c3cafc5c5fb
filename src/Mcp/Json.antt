-- ===== src/Mcp/Json.antt =====
-- The values that requests and replies carry, and what the tools compute with them. Numbers are
-- natural numbers; `undefined` is a value, since an object may hold it.
use mathlib.Core.List.{flatten}
use astiango_hub.Common.{
  ℕ, String, Bool, true, false, not, Option, none, some, List, [], ◌∷◌, ◌==◌, str_eq, if◌then◌else◌,
}

mutual
  pub data Json : Type 0 where
    undefined null : Json
    bool : Bool → Json
    num : ℕ → Json
    str : String → Json
    arr : Items → Json
    obj : Fields → Json

  pub data Items : Type 0 where
    nil : Items
    cons : Json → Items → Items

  pub data Fields : Type 0 where
    end : Fields
    field : String → Json → Fields → Fields

abbrev pub items : List Json → Items
items [] = nil
items (x ∷ xs) = cons x (items xs)

abbrev pub elements : Items → List Json
elements nil = []
elements (cons x xs) = x ∷ elements xs

-- An object literal.
abbrev pub fields : List (String × Json) → Fields
fields [] = end
fields ((k, v) ∷ rest) = field k v (fields rest)

abbrev pub object : List (String × Json) → Json
object kvs = obj (fields kvs)

-- An optional argument.
abbrev pub opt_str : Option String → Json
opt_str none = undefined
opt_str (some s) = str s

abbrev pub opt_num : Option ℕ → Json
opt_num none = undefined
opt_num (some n) = num n

abbrev pub opt_bool : Option Bool → Json
opt_bool none = undefined
opt_bool (some b) = bool b

abbrev strs : List String → List Json
strs [] = []
strs (s ∷ rest) = str s ∷ strs rest

abbrev pub opt_strs : Option (List String) → Json
opt_strs none = undefined
opt_strs (some ss) = arr (items (strs ss))

-- An argument of `z.object({})`, which keeps no key.
abbrev pub opt_object : Option (Unit {0}) → Json
opt_object none = undefined
opt_object (some _) = obj end

unfoldable pub truthy : Json → Bool
truthy undefined = false
truthy null = false
truthy (bool b) = b
truthy (num n) = not (n == 0)
truthy (str s) = not (str_eq s "")
truthy (arr xs) = true
truthy (obj fs) = true

-- `...(v && { k: v })`
unfoldable pub when_truthy : String → Json → List (String × Json)
unfolding truthy
when_truthy k v = if truthy v then (k, v) ∷ [] else []

-- `...(v !== undefined && { k: v })`
unfoldable pub when_defined : String → Json → List (String × Json)
when_defined k undefined = []
when_defined k v = (k, v) ∷ []

-- An object literal that is made of spreads.
abbrev pub spread : List (List (String × Json)) → Json
spread kvs = object (flatten kvs)

abbrev pub get_or_undefined : Option Json → Json
get_or_undefined none = undefined
get_or_undefined (some v) = v

-- A key that stands twice has its last value.
unfoldable pub find_field : String → Fields → Option Json
find_field k end = none
find_field k (field j v fs) = elim (find_field k fs) [
  | some w ↦ some w
  | none ↦ if str_eq j k then some v else none
]

-- `v.k`; `none` is the TypeError of a read from `undefined` or `null`.
unfoldable pub read_field : String → Json → Option Json
unfolding find_field
read_field k undefined = none
read_field k null = none
read_field k (obj fs) = some (get_or_undefined (find_field k fs))
read_field k v = some undefined
