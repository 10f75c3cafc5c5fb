-- ===== src/Ui/BaseStore/Actions.antt =====
-- The actions of frontend/astiango-hub-ui/src/utils/store.ts. A service answers a request with a
-- reply or an error. What else is committed while an action waits for its reply is an argument.
use astiango_hub.Mcp.Session.{Outcome, ok, throw}
use astiango_hub.Mcp.Json.{str}
use astiango_hub.Common.{
  ℕ, String, true, false, Option, none, some, List, [], ◌∷◌, str_eq, if◌then◌else◌,
}
use astiango_hub.Ui.BaseStore.{BaseStoreState, FilterConditionData, SortData}
use astiango_hub.Ui.BaseStore.Mutations.{set_form, set_table_loading, set_table_data, set_nav_list}

-- The texts of filters and sorts are kept as the lists that `JSON.stringify` reads.
pub record ListRequestParams : Type 0 where
  pub page : Option ℕ
  pub size : Option ℕ
  pub filter : Option (List FilterConditionData)
  pub sort : Option (List SortData)

pub record ListReply (T : Type 0) : Type 0 where
  pub rows : Option (List T)
  pub total : ℕ

-- `res.data || []`
abbrev pub rows_of : {T : Type 0} → Option (List T) → List T
rows_of none = []
rows_of (some rows) = rows

abbrev name_filter : String → Option (List FilterConditionData)
name_filter query =
    if str_eq query ""
    then none
    else some (record { key = some "name"; op = some "c"; value = str query } ∷ [])

abbrev pub nav_params : Option String → ListRequestParams
nav_params none = record { page = none; size = some 100; filter = none; sort = none }
nav_params (some query) = record {
  page = none;
  size = some 100;
  filter = name_filter query;
  sort = none;
}

module _ {T C : Type 0} where
  -- `getById`, from the reply of the service.
  unfoldable pub get_by_id : Outcome T → BaseStoreState T C → Outcome T × BaseStoreState T C
  get_by_id (ok form) s = (ok form, set_form form s)
  get_by_id (throw e) s = (throw e, s)

  -- The request of `getList`, and the state in which it is sent.
  unfoldable pub start_list : BaseStoreState T C → ListRequestParams × BaseStoreState T C
  unfolding set_table_loading
  start_list s = (
    record {
      page = some s.table_pagination.page;
      size = some s.table_pagination.size;
      filter = some s.table_list_filter;
      sort = some s.table_list_sort;
    },
    set_table_loading true s,
  )

  -- `if (getMd5(tableData.data) !== getMd5(state.tableData)) commit('setTableData', tableData)`
  unfoldable pub update_table :
      (List T → String) → List T → ℕ → BaseStoreState T C → BaseStoreState T C
  unfolding set_table_data
  update_table get_md5 rows total s =
      if str_eq (get_md5 rows) (get_md5 s.table_data) then s else set_table_data rows total s

  -- The rest of `getList`, when the reply is there.
  unfoldable pub finish_list :
      (List T → String)
      → Outcome (ListReply T)
      → BaseStoreState T C
      → Outcome (ListReply T) × BaseStoreState T C
  unfolding update_table set_table_loading
  finish_list get_md5 (ok res) s =
      (ok res, set_table_loading false (update_table get_md5 (rows_of res.rows) res.total s))
  finish_list get_md5 (throw e) s = (throw e, set_table_loading false s)

  -- `getList`, where `meanwhile` is what other code commits before the reply is there.
  unfoldable pub get_list :
      (List T → String)
      → (ListRequestParams → Outcome (ListReply T))
      → (BaseStoreState T C → BaseStoreState T C)
      → BaseStoreState T C
      → Outcome (ListReply T) × BaseStoreState T C
  unfolding start_list finish_list
  get_list get_md5 service meanwhile s =
      let (params, s') = start_list s in finish_list get_md5 (service params) (meanwhile s')

  abbrev pub commit_nav : Option (List T) → BaseStoreState T C → BaseStoreState T C
  commit_nav none s = s
  commit_nav (some rows) s = set_nav_list rows s

  -- `getNavList`, which returns nothing.
  unfoldable pub get_nav_list :
      (ListRequestParams → Outcome (ListReply T))
      → Option String
      → BaseStoreState T C
      → Outcome (Unit {0}) × BaseStoreState T C
  get_nav_list service query s = elim (service (nav_params query)) [
    | ok res ↦ (ok tt, commit_nav res.rows s)
    | throw e ↦ (throw e, s)
  ]
