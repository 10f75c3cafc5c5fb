-- ===== src/Ui/Routes/Tests.antt =====
-- The map of frontend/astiango-hub-ui/src/utils/route.ts for a small menu.
use Prim.Native.String.{◌++◌}
use astiango_hub.Common.{◌↔◌, String, false, ◌≡◌, refl, some, List, [], ◌∷◌}
use astiango_hub.Ui.Menu.{MenuItem, item, nil, cons, absent, present, starts_with}
use astiango_hub.Ui.Routes.{all_menu_item_path_map}
use astiango_hub.Ui.Routes.Keys.{IsPathInMenu, all_menu_item_path_map_iff}
use astiango_hub.Ui.Routes.Laws.{HasPath}

-- `url-join` on a root and a part without slashes at the joint.
abbrev join : String → String → String
join root part = root ++ "/" ++ part

abbrev menu : List MenuItem
menu =
    item "Home" (some "/home") false absent
    ∷ item "System" (some "/system") false (
        present (
          cons (item "Users" (some "users") false absent)
            (cons (item "Roles" (some "/roles") false absent) nil)))
    ∷ []

menu_paths :
    all_menu_item_path_map join menu
    ≡ ("/home", "/") ∷ ("/system", "/") ∷ ("/system/users", "/system") ∷ ("/roles", "/system") ∷ []
unfolding all_menu_item_path_map starts_with
menu_paths = refl

all_menu_item_path_map_iff_example :
    HasPath "/system/users" (all_menu_item_path_map join menu)
    ↔ IsPathInMenu join menu "/system/users"
all_menu_item_path_map_iff_example = all_menu_item_path_map_iff join menu "/system/users"
