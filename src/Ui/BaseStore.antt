-- ===== src/Ui/BaseStore.antt =====
-- frontend/astiango-hub-ui/src/utils/store.ts: the state that the store modules of lists share, its
-- storage and its getters. `T` is the type of the rows and of the form, `C` that of the callbacks
-- which run after a form is saved.
pub mod Mutations
pub mod Actions
pub mod Filters
pub mod Sorts
pub mod Lists
pub mod Pagination
mod Tests
use astiango_hub.Common.{ℕ, String, Bool, true, false, not, Option, none, some, List, [], ◌∷◌, map}
use astiango_hub.Common.{str_eq, if◌then◌else◌}
use astiango_hub.Mcp.Json.{Json}

pub record FilterConditionData : Type 0 where
  pub key : Option String
  pub op : Option String
  pub value : Json

-- A column by which the list is sorted, and the direction.
pub record SortData : Type 0 where
  pub key : String
  pub d : Option String

pub record TablePagination : Type 0 where
  pub page : ℕ
  pub size : ℕ

-- A tab of the view of one entity.
pub record StoreTab : Type 0 where
  pub id : String
  pub title : String

module _ (T C : Type 0) where
  pub record BaseStoreState : Type 0 where
    pub ns : String
    pub dialog_visible : Bool
    pub active_dialog_key : Option String
    pub form : T
    pub is_selective_form : Bool
    pub selected_form_fields : List String
    pub readonly_form_fields : List String
    pub form_list : List T
    pub new_form_fn : Unit {0} → T
    pub confirm_loading : Bool
    pub table_loading : Bool
    pub table_data : List T
    pub table_total : ℕ
    pub table_pagination : TablePagination
    pub table_list_filter : List FilterConditionData
    pub table_list_sort : List SortData
    pub sidebar_collapsed : Bool
    pub actions_collapsed : Bool
    pub tabs : List StoreTab
    pub disabled_tab_keys : List String
    pub nav_list : List T
    pub after_save : List C

-- The settings under 'globalLayoutSettings' in `localStorage`: the pagination of each namespace, the
-- only setting that is saved there.
abbrev pub Settings : Type 0
Settings = List (String × TablePagination)

unfoldable pub load_pagination : String → Settings → Option TablePagination
load_pagination ns [] = none
load_pagination ns ((n, p) ∷ rest) =
    let later = load_pagination ns rest in if str_eq n ns then some p else later

-- `saveNamespaceLocalStorage(ns, key, { pagination })`
unfoldable pub save_pagination : String → TablePagination → Settings → Settings
save_pagination ns p [] = (ns, p) ∷ []
save_pagination ns p ((n, q) ∷ rest) =
    let later = save_pagination ns p rest in if str_eq n ns then (n, p) ∷ rest else (n, q) ∷ later

abbrev pub default_pagination : TablePagination
default_pagination = record { page = 1; size = 10 }

abbrev pub pagination_or_default : Option TablePagination → TablePagination
pagination_or_default none = default_pagination
pagination_or_default (some p) = p

module _ {T C : Type 0} where
  -- `empty` is the form `{}`, and `overview` the title of the first tab.
  unfoldable pub default_store_state : T → String → String → Settings → BaseStoreState T C
  default_store_state empty overview ns settings = record {
    ns = ns;
    dialog_visible = true;
    active_dialog_key = none;
    form = empty;
    is_selective_form = false;
    selected_form_fields = [];
    readonly_form_fields = [];
    form_list = [];
    new_form_fn = λ _. empty;
    confirm_loading = false;
    table_loading = false;
    table_data = [];
    table_total = 0;
    table_pagination = pagination_or_default (load_pagination ns settings);
    table_list_filter = [];
    table_list_sort = [];
    sidebar_collapsed = false;
    actions_collapsed = false;
    tabs = record { id = "overview"; title = overview } ∷ [];
    disabled_tab_keys = [];
    nav_list = [];
    after_save = [];
  }

  -- The getter `dialogVisible`.
  unfoldable pub is_dialog_visible : BaseStoreState T C → Bool
  is_dialog_visible s = elim s.active_dialog_key [ none ↦ false | some _ ↦ true ]

  -- The getter `formListIds`, where `id` reads `_id`.
  unfoldable pub form_list_ids : (T → String) → BaseStoreState T C → List String
  form_list_ids id s = map id s.form_list
