-- ===== src/Ui/BaseStore/Mutations.antt =====
-- The mutations of frontend/astiango-hub-ui/src/utils/store.ts.
use astiango_hub.Common.{
  ℕ, String, Bool, false, not, Option, none, some, List, [], ◌∷◌, ◌++◌, map, str_eq, filter,
  find_index, remove_at, set_at,
}
use astiango_hub.Ui.BaseStore.{
  BaseStoreState, FilterConditionData, SortData, TablePagination, StoreTab, Settings,
  save_pagination, default_pagination,
}

abbrev pub key_is : String → Option String → Bool
key_is key none = false
key_is key (some k) = str_eq k key

-- `d.key === key`
abbrev pub has_key : String → FilterConditionData → Bool
has_key key d = key_is key d.key

-- `d.key = key`
abbrev pub with_key : String → FilterConditionData → FilterConditionData
with_key key d = record d { key = some key }

abbrev pub sorts_by : String → SortData → Bool
sorts_by key d = str_eq d.key key

-- What `setTableListSortByKey` does at the index that it finds.
unfoldable pub replace_sort : Option ℕ → Option SortData → List SortData → List SortData
replace_sort none none sorts = sorts
replace_sort none (some sort) sorts = sorts ++ sort ∷ []
replace_sort (some i) (some sort) sorts = set_at i sort sorts
replace_sort (some i) none sorts = remove_at i sorts

module _ {T C : Type 0} where
  unfoldable pub hide_dialog : BaseStoreState T C → BaseStoreState T C
  hide_dialog s = record s {
    is_selective_form = false;
    selected_form_fields = [];
    form_list = [];
    confirm_loading = false;
    active_dialog_key = none;
  }

  unfoldable pub show_dialog : String → BaseStoreState T C → BaseStoreState T C
  show_dialog key s = record s { active_dialog_key = some key }

  unfoldable pub set_form : T → BaseStoreState T C → BaseStoreState T C
  set_form value s = record s { form = value }

  unfoldable pub reset_form : BaseStoreState T C → BaseStoreState T C
  reset_form s = record s { form = s.new_form_fn tt }

  unfoldable pub set_is_selective_form : Bool → BaseStoreState T C → BaseStoreState T C
  set_is_selective_form value s = record s { is_selective_form = value }

  unfoldable pub set_selected_form_fields : List String → BaseStoreState T C → BaseStoreState T C
  set_selected_form_fields value s = record s { selected_form_fields = value }

  unfoldable pub reset_selected_form_fields : BaseStoreState T C → BaseStoreState T C
  reset_selected_form_fields s = record s { selected_form_fields = [] }

  unfoldable pub set_readonly_form_fields : List String → BaseStoreState T C → BaseStoreState T C
  set_readonly_form_fields value s = record s { readonly_form_fields = value }

  unfoldable pub reset_readonly_form_fields : BaseStoreState T C → BaseStoreState T C
  reset_readonly_form_fields s = record s { readonly_form_fields = [] }

  unfoldable pub set_form_list : List T → BaseStoreState T C → BaseStoreState T C
  set_form_list value s = record s { form_list = value }

  unfoldable pub reset_form_list : BaseStoreState T C → BaseStoreState T C
  reset_form_list s = record s { form_list = [] }

  unfoldable pub set_confirm_loading : Bool → BaseStoreState T C → BaseStoreState T C
  set_confirm_loading value s = record s { confirm_loading = value }

  unfoldable pub set_table_loading : Bool → BaseStoreState T C → BaseStoreState T C
  set_table_loading value s = record s { table_loading = value }

  unfoldable pub set_table_data : List T → ℕ → BaseStoreState T C → BaseStoreState T C
  set_table_data rows total s = record s { table_data = rows; table_total = total }

  unfoldable pub reset_table_data : BaseStoreState T C → BaseStoreState T C
  reset_table_data s = record s { table_data = [] }

  -- The two that write the settings too.
  unfoldable pub set_table_pagination :
      TablePagination → BaseStoreState T C × Settings → BaseStoreState T C × Settings
  set_table_pagination p (s, settings) =
      (record s { table_pagination = p }, save_pagination s.ns p settings)

  unfoldable pub reset_table_pagination :
      BaseStoreState T C × Settings → BaseStoreState T C × Settings
  reset_table_pagination (s, settings) = (
    record s { table_pagination = default_pagination },
    save_pagination s.ns default_pagination settings,
  )

  unfoldable pub set_table_list_filter :
      List FilterConditionData → BaseStoreState T C → BaseStoreState T C
  set_table_list_filter filters s = record s { table_list_filter = filters }

  unfoldable pub reset_table_list_filter : BaseStoreState T C → BaseStoreState T C
  reset_table_list_filter s = record s { table_list_filter = [] }

  unfoldable pub set_table_list_filter_by_key :
      String → List FilterConditionData → BaseStoreState T C → BaseStoreState T C
  set_table_list_filter_by_key key conditions s = record s {
    table_list_filter =
        filter (λ d. not (has_key key d)) s.table_list_filter ++ map (with_key key) conditions;
  }

  unfoldable pub reset_table_list_filter_by_key : String → BaseStoreState T C → BaseStoreState T C
  reset_table_list_filter_by_key key s = record s {
    table_list_filter = filter (λ d. not (has_key key d)) s.table_list_filter;
  }

  unfoldable pub set_table_list_sort : List SortData → BaseStoreState T C → BaseStoreState T C
  set_table_list_sort sorts s = record s { table_list_sort = sorts }

  unfoldable pub reset_table_list_sort : BaseStoreState T C → BaseStoreState T C
  reset_table_list_sort s = record s { table_list_sort = [] }

  unfoldable pub set_table_list_sort_by_key :
      String → Option SortData → BaseStoreState T C → BaseStoreState T C
  set_table_list_sort_by_key key sort s = record s {
    table_list_sort =
        replace_sort (find_index (sorts_by key) s.table_list_sort) sort s.table_list_sort;
  }

  unfoldable pub reset_table_list_sort_by_key : String → BaseStoreState T C → BaseStoreState T C
  reset_table_list_sort_by_key key s = record s {
    table_list_sort = filter (λ d. not (sorts_by key d)) s.table_list_sort;
  }

  unfoldable pub set_tabs : List StoreTab → BaseStoreState T C → BaseStoreState T C
  set_tabs value s = record s { tabs = value }

  unfoldable pub set_disabled_tab_keys : List String → BaseStoreState T C → BaseStoreState T C
  set_disabled_tab_keys keys s = record s { disabled_tab_keys = keys }

  unfoldable pub reset_disabled_tab_keys : BaseStoreState T C → BaseStoreState T C
  reset_disabled_tab_keys s = record s { disabled_tab_keys = [] }

  unfoldable pub set_nav_list : List T → BaseStoreState T C → BaseStoreState T C
  set_nav_list value s = record s { nav_list = value }

  unfoldable pub reset_nav_list : BaseStoreState T C → BaseStoreState T C
  reset_nav_list s = record s { nav_list = [] }

  unfoldable pub set_after_save : List C → BaseStoreState T C → BaseStoreState T C
  set_after_save fns s = record s { after_save = fns }
