-- ===== src/Ui/Routes/Laws.antt =====
-- The map of frontend/astiango-hub-ui/src/utils/route.ts is closed under parents.
use astiango_hub.Common.{
  String, ◌≡◌, refl, sym, ◌∙◌, ◌⊎◌, inl, inr, List, [], ◌∷◌, str_eq, eq_iff, Bool-cases, All,
  All-mono,
}
use astiango_hub.Ui.Menu.{MenuItem, item, MenuItems, nil, cons, Children, absent, present}
use astiango_hub.Ui.Routes.{
  Paths, set, set_all, path_under, menu_item_path_map, children_path_map, items_path_map,
  add_menu_items, all_menu_item_path_map,
}

-- `path` is a key of the map.
abbrev pub HasPath : String → Paths → Type 0
HasPath path [] = ⊥
HasPath path ((key, parent) ∷ rest) = (key ≡ path) ⊎ HasPath path rest

-- Every parent is the root or a path of the map.
abbrev pub IsClosed : String → Paths → Type 0
IsClosed root paths = All (λ e. (e.1 ≡ root) ⊎ HasPath e.1 paths) paths

set-HasPath : (path parent : String) (paths : Paths) → HasPath path (set path parent paths)
unfolding set
set-HasPath path parent [] = inl refl
set-HasPath path parent ((key, value) ∷ rest) = elim (Bool-cases (str_eq key path)) [
  | inl same ↦ rw same (inl ((eq_iff _ _).0 same))
  | inr differs ↦ rw differs (inr (set-HasPath path parent rest))
]

set_keeps :
    (path parent other : String) (paths : Paths)
    → HasPath other paths
    → HasPath other (set path parent paths)
unfolding set
set_keeps path parent other [] h = absurd h
set_keeps path parent other ((key, value) ∷ rest) h = elim (Bool-cases (str_eq key path)) [
  | inl same ↦ rw same h
  | inr differs ↦
      rw differs
        (elim h [ inl here ↦ inl here | inr later ↦ inr (set_keeps path parent other rest later) ])
]

-- What holds of all parents holds of them after a parent is set of which it holds.
set-All :
    (P : String → Type 0) (path parent : String) (paths : Paths)
    → P parent
    → All (λ e. P e.1) paths
    → All (λ e. P e.1) (set path parent paths)
unfolding set
set-All P path parent [] p h = (p, tt)
set-All P path parent ((key, value) ∷ rest) p (q, h) = elim (Bool-cases (str_eq key path)) [
  | inl same ↦ rw same (p, h)
  | inr differs ↦ rw differs (q, set-All P path parent rest p h)
]

pub set_all_keeps :
    (added paths : Paths) (other : String)
    → HasPath other paths
    → HasPath other (set_all added paths)
unfolding set_all
set_all_keeps [] paths other h = h
set_all_keeps ((path, parent) ∷ added) paths other h =
    set_all_keeps added _ other (set_keeps path parent other paths h)

pub set_all-HasPath :
    (added paths : Paths) (other : String)
    → HasPath other added
    → HasPath other (set_all added paths)
unfolding set_all
set_all-HasPath [] paths other h = absurd h
set_all-HasPath ((path, parent) ∷ added) paths other (inl here) =
    set_all_keeps added _ other (rw (sym here) (set-HasPath path parent paths))
set_all-HasPath ((path, parent) ∷ added) paths other (inr later) =
    set_all-HasPath added _ other later

set_all-All :
    (P : String → Type 0) (added paths : Paths)
    → All (λ e. P e.1) added
    → All (λ e. P e.1) paths
    → All (λ e. P e.1) (set_all added paths)
unfolding set_all
set_all-All P [] paths k h = h
set_all-All P ((path, parent) ∷ added) paths (p, k) h =
    set_all-All P added _ k (set-All P path parent paths p h)

-- Adding a map that is closed under a path of a closed map keeps it closed.
set_all-IsClosed :
    (root path : String) (added paths : Paths)
    → (path ≡ root) ⊎ HasPath path paths
    → IsClosed path added
    → IsClosed root paths
    → IsClosed root (set_all added paths)
set_all-IsClosed root path added paths here k h =
    set_all-All (λ v. (v ≡ root) ⊎ HasPath v (set_all added paths)) added paths
      (All-mono added
        (λ e w. elim w [
          | inl same ↦ elim here [
            | inl is_root ↦ inl (same ∙ is_root)
            | inr has ↦ inr (rw same (set_all_keeps added paths path has))
          ]
          | inr has ↦ inr (set_all-HasPath added paths e.1 has)
        ])
        k)
      (All-mono paths
        (λ e w. elim w [ inl same ↦ inl same | inr has ↦ inr (set_all_keeps added paths e.1 has) ])
        h)

module _ (urljoin : String → String → String) where
  mutual
    unfolding menu_item_path_map

    item-IsClosed :
        (root : String) (m : MenuItem) → IsClosed root (menu_item_path_map urljoin root m)
    item-IsClosed root (item title path hidden children) =
        children-IsClosed root (path_under urljoin root path) children _ (inl refl) (inl refl, tt)

    children-IsClosed :
        (root path : String) (cs : Children) (paths : Paths)
        → HasPath path paths
        → IsClosed root paths
        → IsClosed root (children_path_map urljoin path cs paths)
    children-IsClosed root path absent paths here h = h
    children-IsClosed root path (present cs) paths here h = items-IsClosed root path cs paths here h

    items-IsClosed :
        (root path : String) (cs : MenuItems) (paths : Paths)
        → HasPath path paths
        → IsClosed root paths
        → IsClosed root (items_path_map urljoin path cs paths)
    items-IsClosed root path nil paths here h = h
    items-IsClosed root path (cons c cs) paths here h =
        let added = menu_item_path_map urljoin path c in
        items-IsClosed root path cs (set_all added paths) (set_all_keeps added paths path here)
          (set_all-IsClosed root path added paths (inr here) (item-IsClosed path c) h)

  menu_items-IsClosed :
      (ms : List MenuItem) (paths : Paths)
      → IsClosed "/" paths
      → IsClosed "/" (add_menu_items urljoin ms paths)
  unfolding add_menu_items
  menu_items-IsClosed [] paths h = h
  menu_items-IsClosed (m ∷ ms) paths h = menu_items-IsClosed ms _ (
      set_all-IsClosed "/" "/" (menu_item_path_map urljoin "/" m) paths (inl refl)
        (item-IsClosed "/" m) h)

  -- Every parent in the map of the sidebar is the root or itself a path of the map, so that the
  -- ancestors of a path are found in the map, whatever the menu is and however paths are joined.
  pub all_menu_item_path_map-IsClosed :
      (ms : List MenuItem) → IsClosed "/" (all_menu_item_path_map urljoin ms)
  unfolding all_menu_item_path_map
  all_menu_item_path_map-IsClosed ms = menu_items-IsClosed ms [] tt
