-- ===== src/Ui/Routes/Keys.antt =====
-- Which paths the map of frontend/astiango-hub-ui/src/utils/route.ts has.
use astiango_hub.Common.{
  ℕ, arith, refl, codes, Option, none, some, true, String, ◌≡◌, ◌⊎◌, inl, inr, ◌↔◌, List, [], ◌∷◌,
  str_eq, Bool-cases,
}
use mathlib.Core.Path.{subst}
use astiango_hub.Ui.Menu.{
  starts_with, MenuItem, item, MenuItems, nil, cons, Children, absent, present,
}
use astiango_hub.Ui.Routes.{
  Paths, set, set_all, path_under, menu_item_path_map, children_path_map, items_path_map,
  add_menu_items, all_menu_item_path_map,
}
use astiango_hub.Ui.Routes.Laws.{HasPath, set_all_keeps, set_all-HasPath}

set_old :
    (path parent other : String) (paths : Paths)
    → HasPath other (set path parent paths)
    → (path ≡ other) ⊎ HasPath other paths
unfolding set
set_old path parent other [] h = h
set_old path parent other ((key, value) ∷ rest) h = elim (Bool-cases (str_eq key path)) [
  | inl same ↦ inr (rw same at h)
  | inr differs ↦ elim (rw differs at h) [
    | inl here ↦ inr (inl here)
    | inr later ↦ elim (set_old path parent other rest later) [
      | inl new ↦ inl new
      | inr old ↦ inr (inr old)
    ]
  ]
]

set_all_old :
    (added paths : Paths) (other : String)
    → HasPath other (set_all added paths)
    → HasPath other added ⊎ HasPath other paths
unfolding set_all
set_all_old [] paths other h = inr h
set_all_old ((path, parent) ∷ added) paths other h = elim (set_all_old added _ other h) [
  | inl new ↦ inl (inr new)
  | inr old ↦ elim (set_old path parent other paths old) [
    | inl here ↦ inl (inl here)
    | inr older ↦ inr older
  ]
]

-- The first code unit is that of a slash.
abbrev pub BeginsWithSlash : List ℕ → Type 0
BeginsWithSlash [] = ⊥
BeginsWithSlash (x ∷ xs) = x ≡ 47

starts_with-slash : (xs : List ℕ) → (starts_with xs (47 ∷ []) ≡ true) ↔ BeginsWithSlash xs
unfolding starts_with
starts_with-slash [] = ((λ e. cc), λ w. absurd w)
starts_with-slash (x ∷ xs) = ((λ e. ground (arith, e)), λ e. ground (arith, e))

module _ (urljoin : String → String → String) where
  -- `path` is that of an item below `root`: its own path, if that begins with a slash, or else the own
  -- path, which is empty if there is none, joined to the root.
  abbrev pub IsPathOf : String → Option String → String → Type 0
  IsPathOf root none path = path ≡ urljoin root ""
  IsPathOf root (some own) path =
      (BeginsWithSlash (codes own) × (path ≡ own))
      ⊎ (¬ BeginsWithSlash (codes own) × (path ≡ urljoin root own))

  path_under-IsPathOf :
      (root : String) (own : Option String) → IsPathOf root own (path_under urljoin root own)
  path_under-IsPathOf root none = refl
  path_under-IsPathOf root (some own) = elim (Bool-cases (starts_with (codes own) (codes "/"))) [
    | inl slash ↦ rw slash (inl ((starts_with-slash (codes own)).0 slash, refl))
    | inr other ↦ rw other (inr ((λ w. cc ((starts_with-slash (codes own)).1 w, other)), refl))
  ]

  -- An item has one path.
  IsPathOf-unique :
      (root : String) (own : Option String) (p q : String)
      → IsPathOf root own p
      → IsPathOf root own q
      → p ≡ q
  IsPathOf-unique root none p q h k = cc
  IsPathOf-unique root (some own) p q (inl (_, h)) (inl (_, k)) = cc
  IsPathOf-unique root (some own) p q (inl (slash, _)) (inr (other, _)) = absurd (other slash)
  IsPathOf-unique root (some own) p q (inr (other, _)) (inl (slash, _)) = absurd (other slash)
  IsPathOf-unique root (some own) p q (inr (_, h)) (inr (_, k)) = cc

  -- `path` is the path of the item below `root`, or of an item below it.
  unfoldable mutual
    pub IsPathIn : String → MenuItem → String → Type 0
    IsPathIn root (item title own hidden children) path =
        IsPathOf root own path
        ⊎ ((item_path : String) × (IsPathOf root own item_path
              × IsPathInChildren item_path children path))

    pub IsPathInChildren : String → Children → String → Type 0
    IsPathInChildren root absent path = ⊥
    IsPathInChildren root (present cs) path = IsPathInItems root cs path

    pub IsPathInItems : String → MenuItems → String → Type 0
    IsPathInItems root nil path = ⊥
    IsPathInItems root (cons c cs) path = IsPathIn root c path ⊎ IsPathInItems root cs path

  abbrev pub IsPathInMenu : List MenuItem → String → Type 0
  IsPathInMenu [] path = ⊥
  IsPathInMenu (m ∷ ms) path = IsPathIn "/" m path ⊎ IsPathInMenu ms path

  mutual
    unfolding menu_item_path_map IsPathIn

    item_old :
        (root : String) (m : MenuItem) (path : String)
        → HasPath path (menu_item_path_map urljoin root m)
        → IsPathIn root m path
    item_old root (item title own hidden children) path h =
        elim (children_old (path_under urljoin root own) children _ path h) [
          | inl below ↦ inr (path_under urljoin root own, (path_under-IsPathOf root own, below))
          | inr here ↦ elim here [
            | inl own_path ↦ inl (rw own_path at (path_under-IsPathOf root own))
            | inr none_else ↦ absurd none_else
          ]
        ]

    children_old :
        (root : String) (cs : Children) (paths : Paths) (path : String)
        → HasPath path (children_path_map urljoin root cs paths)
        → IsPathInChildren root cs path ⊎ HasPath path paths
    children_old root absent paths path h = inr h
    children_old root (present cs) paths path h = items_old root cs paths path h

    items_old :
        (root : String) (cs : MenuItems) (paths : Paths) (path : String)
        → HasPath path (items_path_map urljoin root cs paths)
        → IsPathInItems root cs path ⊎ HasPath path paths
    items_old root nil paths path h = inr h
    items_old root (cons c cs) paths path h = elim (items_old root cs _ path h) [
      | inl later ↦ inl (inr later)
      | inr before ↦ elim (set_all_old (menu_item_path_map urljoin root c) paths path before) [
        | inl added ↦ inl (inl (item_old root c path added))
        | inr older ↦ inr older
      ]
    ]

  mutual
    unfolding menu_item_path_map IsPathIn

    item_new :
        (root : String) (m : MenuItem) (path : String)
        → IsPathIn root m path
        → HasPath path (menu_item_path_map urljoin root m)
    item_new root (item title own hidden children) path (inl here) =
        children_new (path_under urljoin root own) children _ path
          (inr (inl (IsPathOf-unique root own _ path (path_under-IsPathOf root own) here)))
    item_new root (item title own hidden children) path (inr (item_path, (joined, below))) =
        children_new (path_under urljoin root own) children _ path (
          inl (
            subst (λ p. IsPathInChildren p children path)
              (IsPathOf-unique root own item_path _ joined (path_under-IsPathOf root own)) below))

    children_new :
        (root : String) (cs : Children) (paths : Paths) (path : String)
        → IsPathInChildren root cs path ⊎ HasPath path paths
        → HasPath path (children_path_map urljoin root cs paths)
    children_new root absent paths path (inl w) = absurd w
    children_new root absent paths path (inr h) = h
    children_new root (present cs) paths path w = items_new root cs paths path w

    items_new :
        (root : String) (cs : MenuItems) (paths : Paths) (path : String)
        → IsPathInItems root cs path ⊎ HasPath path paths
        → HasPath path (items_path_map urljoin root cs paths)
    items_new root nil paths path (inl w) = absurd w
    items_new root nil paths path (inr h) = h
    items_new root (cons c cs) paths path (inl (inl w)) = items_new root cs _ path (
        inr
          (set_all-HasPath (menu_item_path_map urljoin root c) paths path (item_new root c path w)))
    items_new root (cons c cs) paths path (inl (inr w)) = items_new root cs _ path (inl w)
    items_new root (cons c cs) paths path (inr h) =
        items_new root cs _ path
          (inr (set_all_keeps (menu_item_path_map urljoin root c) paths path h))

  menu_old :
      (ms : List MenuItem) (paths : Paths) (path : String)
      → HasPath path (add_menu_items urljoin ms paths)
      → IsPathInMenu ms path ⊎ HasPath path paths
  unfolding add_menu_items
  menu_old [] paths path h = inr h
  menu_old (m ∷ ms) paths path h = elim (menu_old ms _ path h) [
    | inl later ↦ inl (inr later)
    | inr before ↦ elim (set_all_old (menu_item_path_map urljoin "/" m) paths path before) [
      | inl added ↦ inl (inl (item_old "/" m path added))
      | inr older ↦ inr older
    ]
  ]

  menu_new :
      (ms : List MenuItem) (paths : Paths) (path : String)
      → IsPathInMenu ms path ⊎ HasPath path paths
      → HasPath path (add_menu_items urljoin ms paths)
  unfolding add_menu_items
  menu_new [] paths path (inl w) = absurd w
  menu_new [] paths path (inr h) = h
  menu_new (m ∷ ms) paths path (inl (inl w)) =
      menu_new ms _ path (
        inr (set_all-HasPath (menu_item_path_map urljoin "/" m) paths path (item_new "/" m path w)))
  menu_new (m ∷ ms) paths path (inl (inr w)) = menu_new ms _ path (inl w)
  menu_new (m ∷ ms) paths path (inr h) =
      menu_new ms _ path (inr (set_all_keeps (menu_item_path_map urljoin "/" m) paths path h))

  -- The paths of the map are the paths of the items of the sidebar, all of them and no others. The path
  -- of an item is the one it is given, if that begins with a slash, and else that one, or the empty text
  -- if it is given none, joined to the path of the item above it, which is '/' for the first items.
  pub all_menu_item_path_map_iff :
      (ms : List MenuItem) (path : String)
      → HasPath path (all_menu_item_path_map urljoin ms) ↔ IsPathInMenu ms path
  unfolding all_menu_item_path_map
  all_menu_item_path_map_iff ms path = (
    (λ h. elim (menu_old ms [] path h) [ inl w ↦ w | inr none_else ↦ absurd none_else ]),
    (λ w. menu_new ms [] path (inl w)),
  )
