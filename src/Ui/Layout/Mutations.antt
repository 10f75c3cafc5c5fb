-- ===== src/Ui/Layout/Mutations.antt =====
-- The mutations of frontend/astiango-hub-ui/src/store/modules/layout.ts.
use astiango_hub.Common.{
  ℕ, ◌+◌, String, Bool, Option, none, some, List, [], ◌∷◌, ◌++◌, find_index, remove_at, set_at,
}
use astiango_hub.Ui.Menu.{MenuItem}
use astiango_hub.Ui.Layout.{Tab, NavItem, TabsJson, LayoutStoreState, Page, boolean_text, has_id}
use astiango_hub.Ui.Layout.Numbers.{Number, decimal, number_text}

-- A change of the state alone.
abbrev in_state : (LayoutStoreState → LayoutStoreState) → Page → Page
in_state f p = record p { state = f p.state }

-- `state.tabs = tabs`, written to the storage.
abbrev save_tabs : TabsJson → List Tab → Page → Page
save_tabs json ts p = record {
  state = record p.state { tabs = ts };
  storage = record p.storage { tabs = some (json.stringify ts) };
}

unfoldable pub set_menu_items : List MenuItem → Page → Page
set_menu_items items p = in_state (λ s. record s { menu_items = items }) p

unfoldable pub set_sidebar_collapsed : Bool → Page → Page
set_sidebar_collapsed value p = record {
  state = record p.state { sidebar_collapsed = value };
  storage = record p.storage { sidebar_collapsed = some (boolean_text value) };
}

unfoldable pub set_tabs : TabsJson → List Tab → Page → Page
set_tabs json ts p = save_tabs json ts p

unfoldable pub set_active_tab_id : ℕ → Page → Page
set_active_tab_id id p = record {
  state = record p.state { active_tab_id = some id };
  storage = record p.storage { active_tab_id = some (decimal id) };
}

-- `tabs.push(tab)` with what `addTab` writes; `maximum` is `state.maxTabId` at that time.
abbrev pub push_tab : TabsJson → Tab → ℕ → Page → Page
push_tab json tab maximum p = record {
  state = record p.state { max_tab_id = maximum; tabs = p.state.tabs ++ tab ∷ [] };
  storage = record p.storage {
    tabs = some (json.stringify (p.state.tabs ++ tab ∷ []));
    max_tab_id = some (decimal maximum);
  };
}

abbrev pub push_with : TabsJson → Option ℕ → Tab → Page → Page
push_with json none tab p =
    push_tab json (record tab { id = some (p.state.max_tab_id + 1) }) (p.state.max_tab_id + 1) p
push_with json (some id) tab p = push_tab json tab p.state.max_tab_id p

unfoldable pub add_tab : TabsJson → Tab → Page → Page
add_tab json tab p = push_with json tab.id tab p

abbrev pub replace_tab : List Tab → Option ℕ → Tab → List Tab
replace_tab ts none tab = ts
replace_tab ts (some i) tab = set_at i tab ts

unfoldable pub update_tab : TabsJson → Tab → Page → Page
update_tab json tab p =
    save_tabs json (replace_tab p.state.tabs (find_index (has_id tab.id) p.state.tabs) tab) p

unfoldable pub remove_all_tabs : Page → Page
remove_all_tabs p = record {
  state = record p.state { tabs = [] };
  storage = record p.storage { tabs = none };
}

abbrev pub splice_tab : TabsJson → Option ℕ → Page → Page
splice_tab json none p = p
splice_tab json (some i) p = save_tabs json (remove_at i p.state.tabs) p

abbrev pub remove_with : TabsJson → Option ℕ → Page → Page
remove_with json none p = p
remove_with json (some id) p = splice_tab json (find_index (has_id (some id)) p.state.tabs) p

unfoldable pub remove_tab : TabsJson → Tab → Page → Page
remove_tab json tab p = remove_with json tab.id p

unfoldable pub set_dragging_tab : Tab → Page → Page
set_dragging_tab tab p = in_state (λ s. record s { dragging_tab = some tab }) p

unfoldable pub reset_dragging_tab : Page → Page
reset_dragging_tab p = in_state (λ s. record s { dragging_tab = none }) p

unfoldable pub set_target_tab : Tab → Page → Page
set_target_tab tab p = in_state (λ s. record s { target_tab = some tab }) p

unfoldable pub reset_target_tab : Page → Page
reset_target_tab p = in_state (λ s. record s { target_tab = none }) p

unfoldable pub set_is_tabs_dragging : Bool → Page → Page
set_is_tabs_dragging value p = in_state (λ s. record s { is_tabs_dragging = value }) p

unfoldable pub set_nav_visible_fn : (String → Bool) → Page → Page
set_nav_visible_fn fn p = in_state (λ s. record s { nav_visible_fn = some fn }) p

unfoldable pub set_detail_tab_visible_fn : (String → NavItem → Bool) → Page → Page
set_detail_tab_visible_fn fn p = in_state (λ s. record s { detail_tab_visible_fn = fn }) p

unfoldable pub set_action_visible_fn : (String → String → Bool) → Page → Page
set_action_visible_fn fn p = in_state (λ s. record s { action_visible_fn = fn }) p

unfoldable pub set_chatbot_sidebar_visible : Bool → Page → Page
set_chatbot_sidebar_visible value p = record {
  state = record p.state { chatbot_sidebar_visible = value };
  storage = record p.storage { chatbot_sidebar_visible = some (boolean_text value) };
}

unfoldable pub set_chatbot_sidebar_width : Number → Page → Page
set_chatbot_sidebar_width value p = record {
  state = record p.state { chatbot_sidebar_width = value };
  storage = record p.storage { chatbot_sidebar_width = some (number_text value) };
}
