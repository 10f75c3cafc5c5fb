-- ===== src/Ui/Database.antt =====
-- The editor of database tables: frontend/astiango-hub-ui/src/interfaces/models/database.d.ts, the types
-- of columns, indexes and tables.
pub mod DataTypes
pub mod Schema
mod Tests
use astiango_hub.Common.{ℕ, String, Bool, true, false, Option, none, some, List, [], ◌∷◌, str_eq}

pub data ItemStatus : Type 0 where
  new updated deleted : ItemStatus

-- The fields `hash`, `original_name`, `isEdit` and `contextMenuVisible`, which serve the display, are
-- left out.
pub record DatabaseColumn : Type 0 where
  pub name : Option String
  pub col_type : Option String
  pub not_null : Option Bool
  pub default_value : Option String
  pub primary : Option Bool
  pub auto_increment : Option Bool
  pub status : Option ItemStatus

pub record DatabaseIndexColumn : Type 0 where
  pub name : String
  pub order : ℕ

pub record DatabaseIndex : Type 0 where
  pub name : String
  pub index_type : Option String
  pub columns : List DatabaseIndexColumn
  pub unique : Bool
  pub status : Option ItemStatus

pub record DatabaseTable : Type 0 where
  pub name : Option String
  pub columns : Option (List DatabaseColumn)
  pub indexes : Option (List DatabaseIndex)

-- `s === t` for texts that may be missing.
unfoldable pub eq_opt_str : Option String → Option String → Bool
eq_opt_str none none = true
eq_opt_str (some s) (some t) = str_eq s t
eq_opt_str _ _ = false

abbrev pub eq_bool : Bool → Bool → Bool
eq_bool true b = b
eq_bool false true = false
eq_bool false false = true

unfoldable pub eq_opt_bool : Option Bool → Option Bool → Bool
eq_opt_bool none none = true
eq_opt_bool (some a) (some b) = eq_bool a b
eq_opt_bool _ _ = false

-- A text as a test.
abbrev pub is_filled : Option String → Bool
is_filled none = false
is_filled (some s) = elim (str_eq s "") [ true ↦ false | false ↦ true ]

abbrev pub or_nil {ℓ} : {A : Type ℓ} → Option (List A) → List A
or_nil none = []
or_nil (some xs) = xs
