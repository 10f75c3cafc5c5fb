-- ===== src/Ui/Services/Tests.antt =====
-- The theorems on the services of frontend/astiango-hub-ui/src/services at concrete replies.
use astiango_hub.Mcp.Json.{Json, str, undefined, null, arr, nil}
use astiango_hub.Common.{String, some, List, [], ◌∷◌}
use astiango_hub.Ui.Services.{ResponseBody, Page}
use astiango_hub.Ui.BaseStore.{BaseStoreState, default_store_state}

abbrev page : Page
page = record { base_url = "http://hub"; token = some "t" }

abbrev no_rows : ResponseBody
no_rows = record { rows = null; total = 7 }

abbrev answered : ResponseBody
answered = record { rows = arr nil; total = 7 }

abbrev store : BaseStoreState Json (Unit {0})
store = record (default_store_state undefined "Overview" "task" []) { table_data = str "t1" ∷ [] }

-- A digest of a table: whether it has rows.
abbrev digest : List Json → String
digest [] = "empty"
digest (row ∷ rows) = "full"
