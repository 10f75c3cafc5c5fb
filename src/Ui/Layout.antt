-- ===== src/Ui/Layout.antt =====
-- The store module frontend/astiango-hub-ui/src/store/modules/layout.ts with what it keeps in
-- `localStorage`. A mutation takes the page, which is the state and the storage, to the next page.
-- The fields of tabs and of menu items that only the view reads are left out.
pub mod Numbers
pub mod Mutations
pub mod Tabs
pub mod Session
pub mod Reload
pub mod Invariant
mod Codec
mod Tests
use astiango_hub.Common.{
  ℕ, ◌+◌, String, Bool, true, false, Option, none, some, List, [], ◌∷◌, ◌++◌, map, ◌==◌, find_index,
  find, remove_at, insert_at, set_at, codes, Text, eq_text,
}
use astiango_hub.Ui.Layout.Numbers.{Number, natural, read_whole, parse_int}
use astiango_hub.Common.Options.{◌>>=◌}
use mathlib.Core.Option.{map as map_option}
use astiango_hub.Ui.Menu.{MenuItem}

pub record Tab : Type 0 where
  pub id : Option ℕ
  pub path : Text
  pub is_action : Option Bool

-- What a detail view passes to the test of its tabs.
pub record NavItem : Type 0 where
  pub id : String
  pub path : Option String

-- The texts of `localStorage`, one slot for each key that the module uses.
pub record LocalStorage : Type 0 where
  pub sidebar_collapsed : Option Text
  pub tabs : Option Text
  pub active_tab_id : Option Text
  pub max_tab_id : Option Text
  pub chatbot_sidebar_visible : Option Text
  pub chatbot_sidebar_width : Option Text

-- `JSON.stringify` and `JSON.parse` on a list of tabs. `parse` is `none` where it throws
-- or gives no tabs.
pub record TabsJson : Type 0 where
  pub stringify : List Tab → Text
  pub parse : Text → Option (List Tab)

pub record LayoutStoreState : Type 0 where
  pub sidebar_collapsed : Bool
  pub menu_items : List MenuItem
  pub active_tab_id : Option ℕ
  pub max_tab_id : ℕ
  pub tabs : List Tab
  pub dragging_tab : Option Tab
  pub target_tab : Option Tab
  pub is_tabs_dragging : Bool
  pub nav_visible_fn : Option (String → Bool)
  pub detail_tab_visible_fn : String → NavItem → Bool
  pub action_visible_fn : String → String → Bool
  pub chatbot_sidebar_visible : Bool
  pub chatbot_sidebar_width : Number

pub record Page : Type 0 where
  pub state : LayoutStoreState
  pub storage : LocalStorage

-- The text of a Boolean, by `JSON.stringify` or as it is written out.
abbrev pub boolean_text : Bool → Text
boolean_text true = codes "true"
boolean_text false = codes "false"

module _ {A : Type 0} where
  -- What a slot is read as, or the default if it is missing or empty.
  abbrev pub stored_or : A → (Text → A) → Option Text → A
  stored_or d read none = d
  stored_or d read (some []) = d
  stored_or d read (some t) = read t

-- `getDefaultSidebarCollapsed` and `getDefaultChatbotSidebarVisible`
abbrev pub default_boolean : Option Text → Bool
default_boolean slot = stored_or false (λ t. eq_text t (codes "true")) slot

-- The readers below are `none` where `JSON.parse` throws, or where no whole number can be read. In the
-- source the page then does not load, or its number is `NaN`.
abbrev pub default_tabs : TabsJson → Option Text → Option (List Tab)
default_tabs json slot = stored_or (some []) json.parse slot

abbrev pub default_active_tab_id : Option Text → Option (Option ℕ)
default_active_tab_id slot = stored_or (some none) (λ t. map_option some (read_whole t)) slot

abbrev pub default_max_tab_id : Option Text → Option ℕ
default_max_tab_id slot = stored_or (some 0) read_whole slot

abbrev pub default_chatbot_sidebar_width : Option Text → Option Number
default_chatbot_sidebar_width slot = stored_or (some (natural 350)) parse_int slot

-- The state of a new page. `menu_items` is `getDefaultSidebarMenuItems()` of the router.
unfoldable pub initial_state : TabsJson → List MenuItem → LocalStorage → Option LayoutStoreState
unfolding eq_text read_whole parse_int
initial_state json menu_items s = do
  active_tab_id ← default_active_tab_id s.active_tab_id
  max_tab_id ← default_max_tab_id s.max_tab_id
  tabs ← default_tabs json s.tabs
  width ← default_chatbot_sidebar_width s.chatbot_sidebar_width
  some (record {
    sidebar_collapsed = default_boolean s.sidebar_collapsed;
    menu_items = menu_items;
    active_tab_id = active_tab_id;
    max_tab_id = max_tab_id;
    tabs = tabs;
    dragging_tab = none;
    target_tab = none;
    is_tabs_dragging = false;
    nav_visible_fn = some (λ _. true);
    detail_tab_visible_fn = λ _ _. true;
    action_visible_fn = λ _ _. true;
    chatbot_sidebar_visible = default_boolean s.chatbot_sidebar_visible;
    chatbot_sidebar_width = width;
  })

-- `===` on identifiers that may be `undefined`.
unfoldable pub same_id : Option ℕ → Option ℕ → Bool
same_id none none = true
same_id (some a) (some b) = a == b
same_id _ _ = false

abbrev pub has_id : Option ℕ → Tab → Bool
has_id i t = same_id t.id i

abbrev tab_index : List Tab → Option ℕ → Option ℕ
tab_index ts i = find_index (has_id i) ts

abbrev pub move : Tab → List Tab → Option ℕ → Option ℕ → List Tab
move dragging ts (some i) (some j) = insert_at j dragging (remove_at i ts)
move dragging ts _ _ = ts

abbrev pub reordered : List Tab → Option Tab → Option Tab → List Tab
reordered ts (some dragging) (some target) =
    move dragging ts (tab_index ts dragging.id) (tab_index ts target.id)
reordered ts _ _ = ts

-- The getter `tabs`: while a tab is dragged over another one, it stands in the place of that one.
unfoldable pub ordered_tabs : LayoutStoreState → List Tab
ordered_tabs s = reordered s.tabs s.dragging_tab s.target_tab

abbrev pub find_tab : List Tab → Option ℕ → Option Tab
find_tab ts none = none
find_tab ts (some i) = find (has_id (some i)) ts

unfoldable pub active_tab : LayoutStoreState → Option Tab
active_tab s = find_tab s.tabs s.active_tab_id
