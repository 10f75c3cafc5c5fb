-- ===== src/Ui/Tests.antt =====
-- The theorem on the sidebar at a concrete menu.
use astiango_hub.Common.{true, false, none, some, List, [], ◌∷◌, All}
use astiango_hub.Ui.Menu.{MenuItem, item, nil, cons, absent, present, Access, sidebar_menu_items}
use astiango_hub.Ui.Menu.Laws.{IsShown, sidebar_menu_items-IsShown}

abbrev visitor : Access
visitor = record {
  is_pro = true;
  me = some (record { root_admin = false; routes = some ("/tasks" ∷ []) });
}

abbrev stranger : Access
stranger = record { is_pro = true; me = none }

abbrev menu : List MenuItem
menu =
    item "Home" (some "/home") false absent
    ∷ item "Work" (some "/work") false (
        present (
          cons (item "Tasks" (some "/tasks") false absent)
            (cons (item "Gits" (some "/gits") false absent) nil)))
    ∷ []

sidebar_menu_items-IsShown_example :
    All (IsShown visitor (some (λ _. true))) (sidebar_menu_items visitor (some (λ _. true)) menu)
sidebar_menu_items-IsShown_example = sidebar_menu_items-IsShown visitor (some (λ _. true)) menu
