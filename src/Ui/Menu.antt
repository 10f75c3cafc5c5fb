-- ===== src/Ui/Menu.antt =====
-- The items of the sidebar: the filters of `sidebarMenuItems` in
-- frontend/astiango-hub-ui/src/store/modules/layout.ts, with `isAllowedRoutePath` of utils/auth.ts.
pub mod Laws
use astiango_hub.Common.{
  ℕ, String, Bool, true, false, not, ◌&&◌, ◌||◌, Option, none, some, List, [], ◌∷◌, map, ◌==◌,
  codes, str_eq, filter,
}

-- An item, by the fields that the filters read.
mutual
  pub data MenuItem : Type 0 where
    item : (title : String) (path : Option String) (hidden : Bool) (children : Children) → MenuItem

  pub data Children : Type 0 where
    absent : Children
    present : MenuItems → Children

  pub data MenuItems : Type 0 where
    nil : MenuItems
    cons : MenuItem → MenuItems → MenuItems

-- The user of the store `common`.
pub record Me : Type 0 where
  pub root_admin : Bool
  pub routes : Option (List String)

-- The getter `common/isPro`, and `common.me`.
pub record Access : Type 0 where
  pub is_pro : Bool
  pub me : Option Me

-- `xs.includes(s)`
unfoldable pub includes : List String → String → Bool
includes [] s = false
includes (x ∷ xs) s = str_eq x s || includes xs s

abbrev includes_path : Option (List String) → Option String → Bool
includes_path (some routes) (some path) = includes routes path
includes_path _ _ = false

abbrev allowed_to : Option Me → Option String → Bool
allowed_to none path = false
allowed_to (some me) path = me.root_admin || includes_path me.routes path

unfoldable pub is_allowed_route_path : Access → Option String → Bool
unfolding includes
is_allowed_route_path access path = not access.is_pro || allowed_to access.me path

unfoldable pub starts_with : List ℕ → List ℕ → Bool
starts_with xs [] = true
starts_with [] (y ∷ ys) = false
starts_with (x ∷ xs) (y ∷ ys) = x == y && starts_with xs ys

-- `s.includes(part)` on the characters of two texts.
unfoldable pub contains : List ℕ → List ℕ → Bool
unfolding starts_with
contains [] part = starts_with [] part
contains (x ∷ xs) part = starts_with (x ∷ xs) part || contains xs part

abbrev pub community_hidden_paths : List String
community_hidden_paths =
    "/notifications" ∷ "/environments" ∷ "/system" ∷ "/deps" ∷ "/gits" ∷ "/databases"
    ∷ "/dependencies" ∷ []

unfoldable pub is_in_edition : Bool → String → String → Bool
unfolding contains includes
is_in_edition true title path = not (str_eq title "router.menuItems.users")
is_in_edition false title path =
    not (includes community_hidden_paths path)
    && not (contains (codes title) (codes "usersManagement"))

abbrev pub not_hidden : MenuItem → Bool
not_hidden (item title path hidden children) = not hidden

unfoldable pub has_edition : Bool → MenuItem → Bool
has_edition pro (item title none hidden children) = false
has_edition pro (item title (some path) hidden children) =
    not (str_eq path "") && is_in_edition pro title path

abbrev pub visible_path : Option (String → Bool) → Option String → Bool
visible_path none path = true
visible_path (some fn) none = true
visible_path (some fn) (some path) = str_eq path "" || fn path

abbrev pub is_visible : Option (String → Bool) → MenuItem → Bool
is_visible fn (item title path hidden children) = visible_path fn path

abbrev pub item_path : MenuItem → Option String
item_path (item title path hidden children) = path

abbrev pub some_allowed : Access → MenuItems → Bool
some_allowed access nil = false
some_allowed access (cons c cs) =
    is_allowed_route_path access (item_path c) || some_allowed access cs

abbrev pub child_allowed : Access → Children → Bool
child_allowed access absent = false
child_allowed access (present cs) = some_allowed access cs

abbrev pub is_allowed : Access → MenuItem → Bool
is_allowed access (item title path hidden children) =
    is_allowed_route_path access path || child_allowed access children

abbrev keep : Bool → MenuItem → MenuItems → MenuItems
keep true c cs = cons c cs
keep false c cs = cs

abbrev pub allowed_items : Access → MenuItems → MenuItems
allowed_items access nil = nil
allowed_items access (cons c cs) =
    keep (is_allowed_route_path access (item_path c)) c (allowed_items access cs)

abbrev pub allowed_children : Access → Children → Children
allowed_children access absent = absent
allowed_children access (present cs) = present (allowed_items access cs)

abbrev pub restrict : Access → MenuItem → MenuItem
restrict access (item title path hidden children) =
    item title path hidden (allowed_children access children)

-- The getter, from `navVisibleFn` and `menuItems` of the state.
unfoldable pub sidebar_menu_items : Access → Option (String → Bool) → List MenuItem → List MenuItem
sidebar_menu_items access nav_visible_fn menu_items = map (restrict access) (
    filter (is_allowed access) (
      filter (is_visible nav_visible_fn)
        (filter (has_edition access.is_pro) (filter not_hidden menu_items))))
