-- ===== src/Ui/Services/Lists.antt =====
-- The lists of a store, from `getList` of frontend/astiango-hub-ui/src/services/request.ts to the
-- action of utils/store.ts.
use astiango_hub.Mcp.Session.{Outcome, ok, throw}
use astiango_hub.Mcp.Json.{Json, arr, truthy, object, opt_num, opt_str, elements}
use astiango_hub.Common.{
  String, true, ◌≡◌, refl, ◌∙◌, inl, inr, Option, none, some, List, [], ◌∷◌, Bool-cases,
}
use astiango_hub.Ui.Services.{
  RequestOptions, RequestConfig, ResponseBody, Axios, Page, normalized, list_reply, request, get,
  request_list,
}
use astiango_hub.Ui.Services
use astiango_hub.Ui.BaseStore.{BaseStoreState, FilterConditionData, SortData}
use astiango_hub.Ui.BaseStore.Actions.{ListRequestParams, ListReply, start_list, get_list}
use astiango_hub.Ui.BaseStore.Lists.{Tells, get_list-idle, get_list-rows}

-- The rows of a reply, none if its `data` is no list.
abbrev pub rows_in : Json → Option (List Json)
rows_in (arr xs) = some (elements xs)
rows_in _ = none

abbrev pub list_result : Outcome ResponseBody → Outcome (ListReply Json)
list_result (ok res) = ok (record { rows = rows_in res.rows; total = res.total })
list_result (throw e) = throw e

abbrev opt_text : {A : Type 0} → (A → String) → Option A → Option String
opt_text text none = none
opt_text text (some a) = some (text a)

module _ (filter_text : List FilterConditionData → String) (sort_text : List SortData → String)
    (axios : Axios) (page : Page) (endpoint : String) where
  -- `getList` of `useService(endpoint)`, as the store calls it; the two texts are `JSON.stringify`.
  unfoldable pub list_service : ListRequestParams → Outcome (ListReply Json)
  unfolding Services.get_list
  list_service p = list_result (
      Services.get_list axios page endpoint (
        object (
          ("page", opt_num p.page)
          ∷ ("size", opt_num p.size)
          ∷ ("filter", opt_str (opt_text filter_text p.filter))
          ∷ ("sort", opt_str (opt_text sort_text p.sort))
          ∷ [])))

normalized-truthy :
    (axios : Axios) (page : Page) (o : Option ResponseBody)
    → truthy (normalized axios page o).rows ≡ true
unfolding truthy
normalized-truthy axios page none = refl
normalized-truthy axios page (some res) = elim (Bool-cases (truthy res.rows)) [
  | inl full ↦ rw full full
  | inr empty ↦ rw empty refl
]

list_reply-truthy :
    (axios : Axios) (page : Page) (o : Outcome (Option ResponseBody)) (r : ResponseBody)
    → list_reply axios page o ≡ ok r
    → truthy r.rows ≡ true
list_reply-truthy axios page (ok o) r e =
    let same : normalized axios page o ≡ r = cc in rw (← same) (normalized-truthy axios page o)
list_reply-truthy axios page (throw message) r e = cc

-- A reply that `getList` returns has data, also if the hub sent none, or the session was lost.
pub request_list-truthy :
    (axios : Axios) (page : Page) (url : String) (params : Json) (opts : RequestOptions)
    (r : ResponseBody)
    → request_list axios page url params opts ≡ ok r
    → truthy r.rows ≡ true
unfolding request_list
request_list-truthy axios page url params opts r e = list_reply-truthy axios page _ r e

lost-reply :
    (filter_text : List FilterConditionData → String) (sort_text : List SortData → String)
    (axios : Axios) (page : Page) (endpoint : String) (p : ListRequestParams)
    → ((r : RequestConfig) → axios r ≡ ok none)
    → list_service filter_text sort_text axios page endpoint p
      ≡ ok (record { rows = some []; total = 0 })
unfolding list_service Services.get_list request_list get request
lost-reply filter_text sort_text axios page endpoint p lost = rw (lost _) refl

-- When the session is lost, so that `axios` answers every request with `undefined`, the table of the
-- store is empty after `getList`, which reports no error, if the digest tells its rows from no rows.
pub get_list-lost :
    {C : Type 0} (filter_text : List FilterConditionData → String)
    (sort_text : List SortData → String) (axios : Axios) (page : Page) (endpoint : String)
    (get_md5 : List Json → String) (meanwhile : BaseStoreState Json C → BaseStoreState Json C)
    (s : BaseStoreState Json C)
    → ((r : RequestConfig) → axios r ≡ ok none)
    → Tells get_md5 (record { rows = some []; total = 0 }) (meanwhile (start_list s).1)
    → let result =
        get_list get_md5 (list_service filter_text sort_text axios page endpoint) meanwhile s in
      (result.0 ≡ ok (record { rows = some []; total = 0 })) × (result.1.table_data ≡ [])
unfolding start_list
get_list-lost filter_text sort_text axios page endpoint get_md5 meanwhile s lost tells =
    let service = list_service filter_text sort_text axios page endpoint in
    let reply = lost-reply filter_text sort_text axios page endpoint (start_list s).0 lost in
    (
      (get_list-idle get_md5 service meanwhile s).1 ∙ reply,
      get_list-rows get_md5 service meanwhile s _ reply tells,
    )
