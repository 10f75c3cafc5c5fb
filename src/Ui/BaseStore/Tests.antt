-- ===== src/Ui/BaseStore/Tests.antt =====
-- The theorems on frontend/astiango-hub-ui/src/utils/store.ts at concrete stores.
use astiango_hub.Common.{String, ◌≡◌, true, false, none, some, List, [], ◌∷◌}
use astiango_hub.Mcp.Session.{ok, throw}
use astiango_hub.Mcp.Json.{str}
use astiango_hub.Ui.BaseStore.{BaseStoreState, FilterConditionData, SortData, TablePagination}
use astiango_hub.Ui.BaseStore.Actions.{ListReply, start_list, finish_list, get_list}
use astiango_hub.Ui.BaseStore.Lists.{get_list-idle, finish_list-last}

abbrev by_name : FilterConditionData
by_name = record { key = some "name"; op = some "c"; value = str "a" }

abbrev by_status : FilterConditionData
by_status = record { key = none; op = some "eq"; value = str "running" }

abbrev upwards : SortData
upwards = record { key = "name"; d = some "asc" }

abbrev downwards : SortData
downwards = record { key = "name"; d = some "desc" }

abbrev store : BaseStoreState String (Unit {0})
store = record {
  ns = "task";
  dialog_visible = true;
  active_dialog_key = none;
  form = "";
  is_selective_form = false;
  selected_form_fields = [];
  readonly_form_fields = [];
  form_list = [];
  new_form_fn = λ _. "";
  confirm_loading = false;
  table_loading = false;
  table_data = "t1" ∷ [];
  table_total = 12;
  table_pagination = record { page = 1; size = 10 };
  table_list_filter = by_name ∷ [];
  table_list_sort = upwards ∷ [];
  sidebar_collapsed = false;
  actions_collapsed = false;
  tabs = [];
  disabled_tab_keys = [];
  nav_list = [];
  after_save = [];
}

-- A digest of a table: its first row.
abbrev digest : List String → String
digest [] = ""
digest (row ∷ rows) = row

abbrev older : ListReply String
older = record { rows = some ("t2" ∷ []); total = 1 }

abbrev newer : ListReply String
newer = record { rows = some ("t3" ∷ []); total = 1 }

abbrev shrunk : ListReply String
shrunk = record { rows = some ("t1" ∷ []); total = 11 }

abbrev same_store : BaseStoreState String (Unit {0}) → BaseStoreState String (Unit {0})
same_store s = s

get_list-idle_example :
    ((start_list store).1 ≡ record store { table_loading = true })
    × ((get_list digest (λ _. throw "timeout") same_store store).0 ≡ throw "timeout")
    × ((get_list digest (λ _. throw "timeout") same_store store).1.table_loading ≡ false)
get_list-idle_example = get_list-idle digest (λ _. throw "timeout") same_store store

finish_list-last_example :
    ((finish_list digest (ok newer) store).1.table_loading ≡ false)
    × ((finish_list digest (ok older) (finish_list digest (ok newer) store).1).1.table_data
        ≡ "t2" ∷ [])
unfolding finish_list
finish_list-last_example = finish_list-last digest older newer store (λ e. cc e)

abbrev third : TablePagination
third = record { page = 3; size = 20 }
