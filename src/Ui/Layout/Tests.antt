-- ===== src/Ui/Layout/Tests.antt =====
-- The theorems on the layout store at concrete pages.
use mathlib.Core.List.{Perm}
use mathlib.Core.Option.{map as map_option}
use astiango_hub.Common.{◌≡◌, refl, arith, true, false, none, some, List, [], ◌∷◌, codes}
use astiango_hub.Ui.Layout.{Tab, LocalStorage, LayoutStoreState, Page, initial_state, ordered_tabs}
use astiango_hub.Ui.Layout.Numbers.{natural, number_text}
use astiango_hub.Ui.Layout.Mutations
use astiango_hub.Ui.Layout.Codec.{read_tabs, tabs_json, tabs_json-inverse, tabs_json-written}
use astiango_hub.Ui.Layout.Session.{Mutation, commit, commits, open_page}
use astiango_hub.Ui.Layout.Reload.{reloaded, reload_restores}
use astiango_hub.Ui.Layout.Tabs.{ids, ordered_tabs-perm}
use astiango_hub.Ui.Layout.Invariant.{IsNumbered, commits-IsNumbered}

abbrev home : Tab
home = record { id = some 1; path = codes "/home"; is_action = none }

abbrev spiders : Tab
spiders = record { id = some 2; path = codes "/spiders"; is_action = none }

abbrev new_tab : Tab
new_tab = record { id = none; path = codes "/tasks"; is_action = none }

abbrev storage : LocalStorage
storage = record {
  sidebar_collapsed = some (codes "true");
  tabs = some (tabs_json.stringify (home ∷ spiders ∷ []));
  active_tab_id = some (codes "2");
  max_tab_id = some (codes "2");
  chatbot_sidebar_visible = some (codes "false");
  chatbot_sidebar_width = some (codes "350");
}

abbrev page : Page
page = record {
  state = record {
    sidebar_collapsed = true;
    menu_items = [];
    active_tab_id = some 2;
    max_tab_id = 2;
    tabs = home ∷ spiders ∷ [];
    dragging_tab = some home;
    target_tab = some spiders;
    is_tabs_dragging = true;
    nav_visible_fn = none;
    detail_tab_visible_fn = λ _ _. true;
    action_visible_fn = λ _ _. true;
    chatbot_sidebar_visible = false;
    chatbot_sidebar_width = natural 350;
  };
  storage = storage;
}

abbrev session : List Mutation
session =
    Mutation.add_tab new_tab
    ∷ Mutation.set_active_tab_id 3
    ∷ Mutation.remove_tab home
    ∷ Mutation.update_tab spiders
    ∷ []

ordered_tabs-perm_example : Perm (ids (ordered_tabs page.state)) (some 1 ∷ some 2 ∷ [])
ordered_tabs-perm_example = ordered_tabs-perm page.state

abbrev loaded : Page
loaded = record page { state = reloaded [] page.state }

storage-loads : open_page tabs_json [] storage ≡ some loaded
unfolding open_page read_tabs
storage-loads = refl

-- A width with a fraction.
abbrev wide : Mutation
wide =
    Mutation.set_chatbot_sidebar_width (record { negative = false; whole = 350; fraction = 5 ∷ [] })

reload_restores_example :
    initial_state tabs_json [] (commits tabs_json (wide ∷ session) loaded).storage
    ≡ some (reloaded [] (commits tabs_json (wide ∷ session) loaded).state)
reload_restores_example =
    reload_restores tabs_json tabs_json-inverse tabs_json-written [] storage loaded (wide ∷ session)
      storage-loads

-- The reload of a page whose width is 350.5.
reload-cuts :
    map_option
      (λ (s : LayoutStoreState). s.chatbot_sidebar_width)
      (initial_state tabs_json [] (commit tabs_json wide loaded).storage)
    ≡ some (natural 350)
unfolding initial_state commit Mutations.set_chatbot_sidebar_width read_tabs number_text
reload-cuts = refl

page-IsNumbered : IsNumbered page.state
page-IsNumbered = ((omega arith, (omega arith, tt)), (((λ e. cc), tt), (tt, tt)))

commits-IsNumbered_example : IsNumbered (commits tabs_json session page).state
commits-IsNumbered_example =
    commits-IsNumbered tabs_json session page (refl, (tt, (tt, (tt, tt)))) page-IsNumbered
