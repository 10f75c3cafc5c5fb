-- ===== src/Ui/Layout/Session.antt =====
-- A sequence of mutations of frontend/astiango-hub-ui/src/store/modules/layout.ts, after the page is
-- loaded.
use astiango_hub.Common.{ℕ, String, Bool, Option, none, some, List, [], ◌∷◌}
use astiango_hub.Ui.Menu.{MenuItem}
use astiango_hub.Ui.Layout.{
  Tab, NavItem, LocalStorage, TabsJson, LayoutStoreState, Page, initial_state,
}
use astiango_hub.Ui.Layout.Numbers.{Number}
use astiango_hub.Ui.Layout.Mutations

pub data Mutation : Type 0 where
  set_menu_items : List MenuItem → Mutation
  set_sidebar_collapsed : Bool → Mutation
  set_tabs : List Tab → Mutation
  set_active_tab_id : ℕ → Mutation
  add_tab update_tab : Tab → Mutation
  remove_all_tabs : Mutation
  remove_tab set_dragging_tab : Tab → Mutation
  reset_dragging_tab : Mutation
  set_target_tab : Tab → Mutation
  reset_target_tab : Mutation
  set_is_tabs_dragging : Bool → Mutation
  set_nav_visible_fn : (String → Bool) → Mutation
  set_detail_tab_visible_fn : (String → NavItem → Bool) → Mutation
  set_action_visible_fn : (String → String → Bool) → Mutation
  set_chatbot_sidebar_visible : Bool → Mutation
  set_chatbot_sidebar_width : Number → Mutation

unfoldable pub commit : TabsJson → Mutation → Page → Page
commit json (set_menu_items items) p = Mutations.set_menu_items items p
commit json (set_sidebar_collapsed value) p = Mutations.set_sidebar_collapsed value p
commit json (set_tabs ts) p = Mutations.set_tabs json ts p
commit json (set_active_tab_id id) p = Mutations.set_active_tab_id id p
commit json (add_tab tab) p = Mutations.add_tab json tab p
commit json (update_tab tab) p = Mutations.update_tab json tab p
commit json remove_all_tabs p = Mutations.remove_all_tabs p
commit json (remove_tab tab) p = Mutations.remove_tab json tab p
commit json (set_dragging_tab tab) p = Mutations.set_dragging_tab tab p
commit json reset_dragging_tab p = Mutations.reset_dragging_tab p
commit json (set_target_tab tab) p = Mutations.set_target_tab tab p
commit json reset_target_tab p = Mutations.reset_target_tab p
commit json (set_is_tabs_dragging value) p = Mutations.set_is_tabs_dragging value p
commit json (set_nav_visible_fn fn) p = Mutations.set_nav_visible_fn fn p
commit json (set_detail_tab_visible_fn fn) p = Mutations.set_detail_tab_visible_fn fn p
commit json (set_action_visible_fn fn) p = Mutations.set_action_visible_fn fn p
commit json (set_chatbot_sidebar_visible value) p = Mutations.set_chatbot_sidebar_visible value p
commit json (set_chatbot_sidebar_width value) p = Mutations.set_chatbot_sidebar_width value p

unfoldable pub commits : TabsJson → List Mutation → Page → Page
commits json [] p = p
commits json (m ∷ ms) p = commits json ms (commit json m p)

abbrev opened : LocalStorage → Option LayoutStoreState → Option Page
opened storage none = none
opened storage (some s) = some (record { state = s; storage = storage })

-- A page that is loaded with what the storage holds.
unfoldable pub open_page : TabsJson → List MenuItem → LocalStorage → Option Page
unfolding initial_state
open_page json menu_items storage = opened storage (initial_state json menu_items storage)
