-- ===== src/Ui/Database/Schema.antt =====
-- The columns and indexes of a table in the editor: `getColumnStatus` and its neighbours of
-- frontend/astiango-hub-ui/src/utils/database.ts, with the handlers of
-- components/core/database/tables/DatabaseTableDetailColumns.vue and the tests of
-- components/core/database/DatabaseTableDetail.vue.
pub mod Laws
use Prim.Native.String.{◌++◌ as concat}
use astiango_hub.Common.{
  ℕ, suc, ◌==◌, String, Bool, true, false, not, ◌&&◌, ◌||◌, Option, none, some, List, [], ◌∷◌, ◌++◌,
  map, codes, str_eq, find_index, insert_at, remove_at, modify_at, get_elem?, if◌then◌else◌,
}
use astiango_hub.Ui.Menu.{contains}
use astiango_hub.Ui.Database.{
  ItemStatus, new, updated, deleted, DatabaseColumn, DatabaseIndexColumn, DatabaseIndex,
  DatabaseTable, eq_opt_str, eq_opt_bool, eq_bool, is_filled, or_nil,
}
use astiango_hub.Ui.Database.DataTypes.{to_lower}

-- `xs.some(p)`
unfoldable pub any : {A : Type 0} → (A → Bool) → List A → Bool
any p [] = false
any p (x ∷ xs) = p x || any p xs

-- `if (status && status !== 'updated') return status`
abbrev pub unless_fixed : Option ItemStatus → Bool → Option ItemStatus
unless_fixed (some new) same = some new
unless_fixed (some deleted) same = some deleted
unless_fixed _ true = none
unless_fixed _ false = some updated

unfoldable pub same_column : DatabaseColumn → DatabaseColumn → Bool
unfolding eq_opt_str eq_opt_bool
same_column c d =
    eq_opt_str c.name d.name
    && eq_opt_str c.col_type d.col_type
    && eq_opt_bool c.not_null d.not_null
    && eq_opt_str c.default_value d.default_value
    && eq_opt_bool c.primary d.primary
    && eq_opt_bool c.auto_increment d.auto_increment

abbrev pub columns_of : Option DatabaseTable → List DatabaseColumn
columns_of none = []
columns_of (some t) = or_nil t.columns

abbrev pub indexes_of : Option DatabaseTable → List DatabaseIndex
indexes_of none = []
indexes_of (some t) = or_nil t.indexes

unfoldable pub get_column_status : DatabaseColumn → Option DatabaseTable → Option ItemStatus
unfolding same_column any
get_column_status c original = unless_fixed c.status (any (same_column c) (columns_of original))

-- The texts of two lists of columns, by `JSON.stringify`, are the same.
unfoldable pub same_index_columns : List DatabaseIndexColumn → List DatabaseIndexColumn → Bool
same_index_columns [] [] = true
same_index_columns (c ∷ cs) (d ∷ ds) =
    str_eq c.name d.name && c.order == d.order && same_index_columns cs ds
same_index_columns _ _ = false

unfoldable pub same_index : DatabaseIndex → DatabaseIndex → Bool
unfolding eq_opt_str same_index_columns
same_index i j =
    str_eq i.name j.name
    && eq_opt_str i.index_type j.index_type
    && same_index_columns i.columns j.columns
    && eq_bool i.unique j.unique

unfoldable pub get_index_status : DatabaseIndex → Option DatabaseTable → Option ItemStatus
unfolding same_index any
get_index_status i original = unless_fixed i.status (any (same_index i) (indexes_of original))

abbrev lacks_columns : Option (List DatabaseColumn) → Bool
lacks_columns (some []) = true
lacks_columns _ = false

abbrev is_empty : List DatabaseIndexColumn → Bool
is_empty [] = true
is_empty (c ∷ cs) = false

abbrev is_valid : DatabaseTable → Bool
is_valid t =
    is_filled t.name
    && not (lacks_columns t.columns)
    && not (any (λ c. not (is_filled c.name) || not (is_filled c.col_type)) (or_nil t.columns))
    && not (any (λ i. str_eq i.name "" || is_empty i.columns) (or_nil t.indexes))

unfoldable pub is_valid_table : Option DatabaseTable → Bool
unfolding any
is_valid_table none = false
is_valid_table (some t) = is_valid t

-- `xs.join('_')`
unfoldable pub join_names : List DatabaseIndexColumn → String
join_names [] = ""
join_names (c ∷ []) = c.name
join_names (c ∷ d ∷ cs) = concat c.name (concat "_" (join_names (d ∷ cs)))

abbrev shown_name : Option String → String
shown_name none = "undefined"
shown_name (some s) = s

unfoldable pub get_default_index_name : DatabaseTable → List DatabaseIndexColumn → String
unfolding join_names
get_default_index_name t cs =
    concat (shown_name t.name) (concat "_" (concat (join_names cs) "_idx"))

unfoldable pub is_default_index_name : DatabaseTable → DatabaseIndex → Bool
unfolding get_default_index_name
is_default_index_name t i = str_eq i.name (get_default_index_name t i.columns)

abbrev is_true : Option Bool → Bool
is_true none = false
is_true (some b) = b

abbrev lower_type : Option String → Bool
lower_type none = false
lower_type (some s) = contains (to_lower (codes s)) (codes "int")

unfoldable pub can_column_auto_increment : DatabaseColumn → Bool
unfolding contains to_lower
can_column_auto_increment c = is_true c.primary && lower_type c.col_type

abbrev pub is_some : Option ItemStatus → Bool
is_some none = false
is_some (some s) = true

-- The computed values of the editor, for the table in it and the original.
unfoldable pub has_columns_change : Option DatabaseTable → Option DatabaseTable → Bool
unfolding any get_column_status
has_columns_change table original =
    any (λ c. is_some (get_column_status c original)) (columns_of table)

unfoldable pub has_indexes_change : Option DatabaseTable → Option DatabaseTable → Bool
unfolding any get_index_status
has_indexes_change table original =
    any (λ i. is_some (get_index_status i original)) (indexes_of table)

unfoldable pub can_save : Bool → Option DatabaseTable → Option DatabaseTable → Bool
unfolding is_valid_table has_columns_change has_indexes_change
can_save data_changed table original =
    is_valid_table table
    && (data_changed || has_columns_change table original || has_indexes_change table original)

-- `column.status = …`, for the column at an index.
abbrev pub with_status : Option ItemStatus → DatabaseColumn → DatabaseColumn
with_status s c = record c { status = s }

abbrev pub blank_column : DatabaseColumn
blank_column = record {
  name = some "";
  col_type = some "";
  not_null = some true;
  default_value = some "";
  primary = none;
  auto_increment = none;
  status = some new;
}

abbrev pub has_name : Option String → DatabaseColumn → Bool
has_name n c = eq_opt_str c.name n

-- Where a column is inserted. A column of the list is found, so that the first case does not arise.
abbrev insert_found : Option ℕ → Bool → DatabaseColumn → List DatabaseColumn → List DatabaseColumn
insert_found none before c cs = cs
insert_found (some i) true c cs = insert_at i c cs
insert_found (some i) false c cs = insert_at (suc i) c cs

abbrev remove_found : Option ℕ → List DatabaseColumn → List DatabaseColumn
remove_found none cs = cs
remove_found (some i) cs = remove_at i cs

abbrev add_at : Option DatabaseColumn → Bool → List DatabaseColumn → List DatabaseColumn
add_at none before cs = cs
add_at (some c) before cs = insert_found (find_index (has_name c.name) cs) before blank_column cs

abbrev delete_at : Option DatabaseColumn → ℕ → List DatabaseColumn → List DatabaseColumn
delete_at none i cs = cs
delete_at (some c) i cs = elim c.status [
  | some new ↦ remove_found (find_index (has_name c.name) cs) cs
  | _ ↦ modify_at i (with_status (some deleted)) cs
]

-- `onAddColumn()`, and beside the column at an index.
unfoldable pub add_column : List DatabaseColumn → List DatabaseColumn
add_column cs = cs ++ blank_column ∷ []

unfoldable pub add_column_beside : ℕ → Bool → List DatabaseColumn → List DatabaseColumn
add_column_beside i before cs = add_at (get_elem? cs i) before cs

-- `onDeleteColumn` and `onRevertColumn`, for the column at an index.
unfoldable pub delete_column : ℕ → List DatabaseColumn → List DatabaseColumn
unfolding eq_opt_str
delete_column i cs = delete_at (get_elem? cs i) i cs

unfoldable pub revert_column : ℕ → List DatabaseColumn → List DatabaseColumn
revert_column i cs = modify_at i (with_status none) cs

-- The columns that `modifyTable` sends.
unfoldable pub sent_columns : Option DatabaseTable → DatabaseTable → List DatabaseColumn
unfolding get_column_status
sent_columns original t =
    map (λ (c : DatabaseColumn). record c { status = get_column_status c original })
      (or_nil t.columns)
