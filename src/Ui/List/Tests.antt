-- ===== src/Ui/List/Tests.antt =====
-- Lists and their headers at concrete states.
use astiango_hub.Mcp.Json.{num}
use astiango_hub.Common.{
  ◌≡◌, refl, String, true, false, none, some, List, [], ◌∷◌, filter, Distinct,
}
use astiango_hub.Ui.BaseStore.{BaseStoreState, SortData}
use astiango_hub.Ui.BaseStore.Mutations.{sorts_by}
use astiango_hub.Ui.BaseStore.Sorts.{keys}
use astiango_hub.Ui.List.{TableColumn, TableHeaderDialogFilterData, start_header_change}
use astiango_hub.Ui.List.Header.{
  new_header, filter_clicked, filter_chosen, sort_chosen, apply_clicked, cancel_clicked,
  default_internal_sort,
}
use astiango_hub.Ui.List.Views.{view_of, asked, first, conditions_of, change_view}
use astiango_hub.Ui.List.Refinement.{start_header_change-refines}
use astiango_hub.Ui.List.Agreement.{TableEvent, at_header, elsewhere, run, Agrees, run-Agrees}
use astiango_hub.Ui.List.Defaults.{filter_alone}

abbrev name_column : TableColumn
name_column = record { key = "name"; allow_filter_search = true; allow_filter_items = false }

abbrev status_column : TableColumn
status_column = record { key = "status"; allow_filter_search = false; allow_filter_items = true }

abbrev search : TableHeaderDialogFilterData
search = record { search_string = some "news"; conditions = none; items = none }

abbrev by_status : SortData
by_status = record { key = "status"; d = some "desc" }

abbrev spiders : BaseStoreState String String
spiders = record {
  ns = "spider";
  dialog_visible = true;
  active_dialog_key = none;
  form = "";
  is_selective_form = false;
  selected_form_fields = [];
  readonly_form_fields = [];
  form_list = [];
  new_form_fn = λ _. "";
  confirm_loading = false;
  table_loading = false;
  table_data = [];
  table_total = 0;
  table_pagination = record { page = 3; size = 10 };
  table_list_filter = record { key = some "status"; op = some "eq"; value = num 1 } ∷ [];
  table_list_sort = by_status ∷ [];
  sidebar_collapsed = false;
  actions_collapsed = false;
  tabs = [];
  disabled_tab_keys = [];
  nav_list = [];
  after_save = [];
}

start_header_change-refines_example :
    let (params, s') = start_header_change status_column none (some search) spiders in
    let wanted =
      change_view "status"
        (conditions_of status_column (some search))
        none
        (view_of spiders.table_list_filter spiders.table_list_sort) in
    (asked params ≡ wanted)
    × (view_of s'.table_list_filter s'.table_list_sort ≡ wanted)
    × (params.page ≡ some 3)
    × Distinct (keys s'.table_list_sort)
start_header_change-refines_example =
    start_header_change-refines status_column none (some search) spiders tt (tt, tt)

abbrev clicks : List TableEvent
clicks =
    at_header filter_clicked
    ∷ at_header (filter_chosen search)
    ∷ elsewhere status_column (some by_status) none
    ∷ at_header apply_clicked
    ∷ at_header filter_clicked
    ∷ at_header (sort_chosen (some "asc"))
    ∷ at_header cancel_clicked
    ∷ []

run-Agrees_example :
    let (h', s') = run name_column clicks new_header spiders in Agrees name_column h' s'
unfolding filter
run-Agrees_example =
    run-Agrees name_column clicks new_header spiders
      (tt, (tt, (((λ e. cc), refl), (tt, (tt, (tt, (tt, tt))))))) (tt, tt) (tt, tt) (refl, refl)

filter_alone_example :
    let (h', s') =
      run name_column
        (at_header filter_clicked ∷ at_header (filter_chosen search) ∷ at_header apply_clicked ∷ [])
        new_header
        spiders in
    (h'.sort_active ≡ true)
    × (first (filter (sorts_by "name") s'.table_list_sort) ≡ some (default_internal_sort "name"))
filter_alone_example = filter_alone name_column search new_header spiders refl refl (tt, tt)
