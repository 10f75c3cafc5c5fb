-- ===== src/Ui/List.antt =====
-- frontend/astiango-hub-ui/src/layouts/content/list/useList.ts: what a list does with the store of its
-- entities when the header of a column changes, when a dialog opens or closes, and when it goes away.
pub mod Header
pub mod Views
pub mod Refinement
pub mod Agreement
pub mod Defaults
mod Tests
use astiango_hub.Mcp.Session.{Outcome}
use astiango_hub.Mcp.Json.{str, arr, items}
use astiango_hub.Common.{
  String, Bool, true, false, not, Option, none, some, List, [], ◌∷◌, ◌++◌, map, str_eq, filter,
  if◌then◌else◌,
}
use astiango_hub.Ui.BaseStore.{BaseStoreState, FilterConditionData, SortData}
use astiango_hub.Ui.BaseStore.Mutations.{
  set_form, set_form_list, reset_form, reset_form_list, reset_table_data, reset_table_list_filter,
  reset_table_list_sort, set_table_list_filter_by_key, reset_table_list_filter_by_key,
  set_table_list_sort_by_key, reset_table_list_sort_by_key,
}
use astiango_hub.Ui.BaseStore.Actions.{ListRequestParams, ListReply, rows_of, start_list, get_list}

-- What the header needs of a column. A flag that is missing is false.
pub record TableColumn : Type 0 where
  pub key : String
  pub allow_filter_search : Bool
  pub allow_filter_items : Bool

pub record TableHeaderDialogFilterData : Type 0 where
  pub search_string : Option String
  pub conditions : Option (List FilterConditionData)
  pub items : Option (List String)

-- `d.op !== FILTER_OP_NOT_SET`
abbrev pub is_set : FilterConditionData → Bool
is_set d = elim d.op [ none ↦ true | some op ↦ not (str_eq op "ns") ]

abbrev items_condition : List String → List FilterConditionData
items_condition [] = []
items_condition (i ∷ is) =
    record { key = none; op = some "in"; value = arr (items (map str (i ∷ is))) } ∷ []

abbrev search_condition : Option String → List FilterConditionData
search_condition none = []
search_condition (some s) =
    if str_eq s "" then [] else record { key = none; op = some "c"; value = str s } ∷ []

unfoldable pub get_filter_conditions :
    TableColumn → TableHeaderDialogFilterData → List FilterConditionData
get_filter_conditions column f =
    filter is_set (rows_of f.conditions)
    ++ (if column.allow_filter_items
        then items_condition (rows_of f.items)
        else if column.allow_filter_search
        then search_condition f.search_string
        else [])

module _ {T C : Type 0} where
  abbrev commit_filter :
      TableColumn → Option TableHeaderDialogFilterData → BaseStoreState T C → BaseStoreState T C
  commit_filter column none s = reset_table_list_filter_by_key column.key s
  commit_filter column (some f) s =
      set_table_list_filter_by_key column.key (get_filter_conditions column f) s

  abbrev commit_sort : String → Option SortData → BaseStoreState T C → BaseStoreState T C
  commit_sort key none s = reset_table_list_sort_by_key key s
  commit_sort key (some sort) s = set_table_list_sort_by_key key (some sort) s

  -- `onHeaderChange` up to its request.
  unfoldable pub commit_header :
      TableColumn
      → Option SortData
      → Option TableHeaderDialogFilterData
      → BaseStoreState T C
      → BaseStoreState T C
  unfolding get_filter_conditions
  commit_header column sort f s = commit_sort column.key sort (commit_filter column f s)

  unfoldable pub start_header_change :
      TableColumn
      → Option SortData
      → Option TableHeaderDialogFilterData
      → BaseStoreState T C
      → ListRequestParams × BaseStoreState T C
  unfolding commit_header
  start_header_change column sort f s = start_list (commit_header column sort f s)

  unfoldable pub on_header_change :
      (List T → String)
      → (ListRequestParams → Outcome (ListReply T))
      → (BaseStoreState T C → BaseStoreState T C)
      → TableColumn
      → Option SortData
      → Option TableHeaderDialogFilterData
      → BaseStoreState T C
      → Outcome (ListReply T) × BaseStoreState T C
  unfolding commit_header
  on_header_change get_md5 service meanwhile column sort f s =
      get_list get_md5 service meanwhile (commit_header column sort f s)

  unfoldable pub get_new_form_list : BaseStoreState T C → List T
  get_new_form_list s =
      s.new_form_fn tt
      ∷ s.new_form_fn tt
      ∷ s.new_form_fn tt
      ∷ s.new_form_fn tt
      ∷ s.new_form_fn tt
      ∷ []

  abbrev on_dialog : String → BaseStoreState T C → BaseStoreState T C
  on_dialog key s =
      if str_eq key ""
      then reset_form_list (reset_form s)
      else if str_eq key "create"
      then set_form_list (get_new_form_list s) (set_form (s.new_form_fn tt) s)
      else s

  -- The watcher of the key of the dialog.
  unfoldable pub on_active_dialog_key : BaseStoreState T C → BaseStoreState T C
  unfolding get_new_form_list
  on_active_dialog_key s = elim s.active_dialog_key [
    | none ↦ reset_form_list (reset_form s)
    | some key ↦ on_dialog key s
  ]

  unfoldable pub on_before_unmount : BaseStoreState T C → BaseStoreState T C
  on_before_unmount s = reset_table_list_sort (reset_table_list_filter (reset_table_data s))
