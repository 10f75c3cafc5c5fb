-- ===== src/Ui/Dependency/Tests.antt =====
-- The store of dependencies at concrete states.
use astiango_hub.Mcp.Session.{Outcome, ok, throw}
use astiango_hub.Mcp.Json.{Json, undefined, str}
use astiango_hub.Common.{◌≡◌, refl, String, none, some, List, [], ◌∷◌}
use astiango_hub.Ui.BaseStore.{default_store_state}
use astiango_hub.Ui.BaseStore.Actions.{ListRequestParams, ListReply}
use astiango_hub.Ui.Dependency.{DependencyStoreState, initial_state}
use astiango_hub.Ui.Dependency.Mutations.{reset_setup_form}

abbrev start : DependencyStoreState
start = initial_state (default_store_state undefined "overview" "dependency" [])

abbrev get_md5 : List Json → String
get_md5 [] = "none"
get_md5 (x ∷ xs) = "some"

abbrev failed : ListRequestParams → Outcome (ListReply Json)
failed params = throw "lost"

abbrev one_row : Outcome (ListReply Json)
one_row = ok (record { rows = some (str "requests" ∷ []); total = 1 })

-- The form that is left after a reset lacks the mode that it starts with.
reset_setup_form-mode :
    (start.setup_form.mode ≡ some "all") × ((reset_setup_form start).setup_form.mode ≡ none)
unfolding reset_setup_form initial_state
reset_setup_form-mode = (refl, refl)
