-- ===== src/Ui/Routes.antt =====
-- `getMenuItemPathMap` and `getAllMenuItemPathMap` of frontend/astiango-hub-ui/src/utils/route.ts: the
-- parent path of every path of the sidebar.
pub mod Laws
mod Keys
mod Tests
use astiango_hub.Common.{
  String, Bool, Option, none, some, List, [], ◌∷◌, codes, str_eq, if◌then◌else◌,
}
use astiango_hub.Ui.Menu.{
  starts_with, MenuItem, item, MenuItems, nil, cons, Children, absent, present,
}

-- A `Map` from texts to texts, in the order of its insertions.
abbrev pub Paths : Type 0
Paths = List (String × String)

-- `paths.set(path, parent)`
unfoldable pub set : String → String → Paths → Paths
set path parent [] = (path, parent) ∷ []
set path parent ((key, value) ∷ rest) =
    let updated = set path parent rest in
    if str_eq key path then (key, parent) ∷ rest else (key, value) ∷ updated

-- `added.forEach((parentPath, path) => { paths.set(path, parentPath); })`
unfoldable pub set_all : Paths → Paths → Paths
unfolding set
set_all [] paths = paths
set_all ((path, parent) ∷ added) paths = set_all added (set path parent paths)

-- `url-join` is a parameter.
module _ (urljoin : String → String → String) where
  abbrev pub path_under : String → Option String → String
  path_under root none = urljoin root ""
  path_under root (some path) =
      if starts_with (codes path) (codes "/") then path else urljoin root path

  unfoldable mutual
    pub menu_item_path_map : String → MenuItem → Paths
    menu_item_path_map root (item title path hidden children) =
        let item_path = path_under root path in
        children_path_map item_path children ((item_path, root) ∷ [])

    pub children_path_map : String → Children → Paths → Paths
    children_path_map item_path absent paths = paths
    children_path_map item_path (present cs) paths = items_path_map item_path cs paths

    -- The loop over the children.
    pub items_path_map : String → MenuItems → Paths → Paths
    items_path_map item_path nil paths = paths
    items_path_map item_path (cons c cs) paths =
        items_path_map item_path cs (set_all (menu_item_path_map item_path c) paths)

  -- The loop of `getAllMenuItemPathMap` over the items of the sidebar.
  unfoldable pub add_menu_items : List MenuItem → Paths → Paths
  unfolding set_all menu_item_path_map
  add_menu_items [] paths = paths
  add_menu_items (m ∷ ms) paths = add_menu_items ms (set_all (menu_item_path_map "/" m) paths)

  unfoldable pub all_menu_item_path_map : List MenuItem → Paths
  unfolding add_menu_items
  all_menu_item_path_map ms = add_menu_items ms []
