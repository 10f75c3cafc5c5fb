-- ===== src/Ui/Menu/Laws.antt =====
-- What the sidebar of frontend/astiango-hub-ui/src/store/modules/layout.ts shows to whom.
use astiango_hub.Common.{
  String, Bool, true, false, ◌≡◌, ◌≢◌, refl, ◌⊎◌, inl, inr, Option, none, some, List, [], All,
  All-mono, filter, arith, eq_iff, Bool-cases,
}
use astiango_hub.Common.Arrays.Laws.{map-All}
use astiango_hub.Common.Arrays.Search.{filter-All, filter-adds, filter-nil}
use astiango_hub.Ui.Menu.{
  MenuItem, item, MenuItems, nil, cons, Children, absent, present, Access, is_allowed_route_path,
  item_path, visible_path, not_hidden, has_edition, is_in_edition, is_visible, is_allowed,
  child_allowed, some_allowed, allowed_items, allowed_children, restrict, sidebar_menu_items,
}

-- Every child may be visited.
abbrev pub AllAllowed : Access → Children → Type 0
AllAllowed access absent = Unit
AllAllowed access (present nil) = Unit
AllAllowed access (present (cons c cs)) =
    (is_allowed_route_path access (item_path c) ≡ true) × AllAllowed access (present cs)

-- There is a child.
abbrev pub HasChild : Children → Type 0
HasChild (present (cons c cs)) = Unit
HasChild _ = ⊥

-- An item that may be shown: it is not hidden, it belongs to the edition, it has a path that the test
-- of the navigation accepts, the user may visit it or a child of it, and may visit all its children.
abbrev pub IsShown : Access → Option (String → Bool) → MenuItem → Type 0
IsShown access fn (item title path hidden children) =
    (hidden ≡ false)
    × ((p : String) × (path ≡ some p) × (p ≢ "") × (is_in_edition access.is_pro title p ≡ true))
    × (visible_path fn path ≡ true)
    × ((is_allowed_route_path access path ≡ true) ⊎ HasChild children)
    × AllAllowed access children

allowed_items-AllAllowed :
    (access : Access) (cs : MenuItems) → AllAllowed access (present (allowed_items access cs))
allowed_items-AllAllowed access nil = tt
allowed_items-AllAllowed access (cons c cs) =
    elim (Bool-cases (is_allowed_route_path access (item_path c))) [
      | inl holds ↦ rw holds (holds, allowed_items-AllAllowed access cs)
      | inr fails ↦ rw fails (allowed_items-AllAllowed access cs)
    ]

allowed_items-HasChild :
    (access : Access) (cs : MenuItems)
    → some_allowed access cs ≡ true
    → HasChild (present (allowed_items access cs))
allowed_items-HasChild access nil h = cc
allowed_items-HasChild access (cons c cs) h =
    elim (Bool-cases (is_allowed_route_path access (item_path c))) [
      | inl holds ↦ rw holds tt
      | inr fails ↦ rw fails (allowed_items-HasChild access cs (rw fails at h))
    ]

children-AllAllowed :
    (access : Access) (cs : Children) → AllAllowed access (allowed_children access cs)
children-AllAllowed access absent = tt
children-AllAllowed access (present cs) = allowed_items-AllAllowed access cs

children-HasChild :
    (access : Access) (cs : Children)
    → child_allowed access cs ≡ true
    → HasChild (allowed_children access cs)
children-HasChild access absent h = cc
children-HasChild access (present cs) h = allowed_items-HasChild access cs h

edition-path :
    (pro : Bool) (title : String) (path : Option String) (hidden : Bool) (children : Children)
    → has_edition pro (item title path hidden children) ≡ true
    → (p : String) × (path ≡ some p) × (p ≢ "") × (is_in_edition pro title p ≡ true)
unfolding has_edition
edition-path pro title none hidden children h = cc
edition-path pro title (some p) hidden children h =
    (p, refl, ground (arith, eq_iff p ""), ground (arith, eq_iff p ""))

-- The tests that the filters make.
abbrev Passed : Access → Option (String → Bool) → MenuItem → Type 0
Passed access fn d =
    (((not_hidden d ≡ true) × (has_edition access.is_pro d ≡ true)) × (is_visible fn d ≡ true))
    × (is_allowed access d ≡ true)

Passed-IsShown :
    (access : Access) (fn : Option (String → Bool)) (d : MenuItem)
    → Passed access fn d
    → IsShown access fn (restrict access d)
Passed-IsShown access fn (item title path hidden children) (((shown, edition), visible), allowed) =
    (
      ground arith,
      edition-path access.is_pro title path hidden children edition,
      visible,
      elim (Bool-cases (is_allowed_route_path access path)) [
        | inl holds ↦ inl holds
        | inr fails ↦ inr (children-HasChild access children (rw fails at allowed))
      ],
      children-AllAllowed access children,
    )

-- Every item of the sidebar may be shown to the user.
pub sidebar_menu_items-IsShown :
    (access : Access) (fn : Option (String → Bool)) (items : List MenuItem)
    → All (IsShown access fn) (sidebar_menu_items access fn items)
unfolding sidebar_menu_items
sidebar_menu_items-IsShown access fn items = map-All (IsShown access fn) (restrict access) _ (
    All-mono _ (Passed-IsShown access fn) (
      filter-adds _ (is_allowed access) _ (
        filter-adds _ (is_visible fn) _
          (filter-adds _ (has_edition access.is_pro) _ (filter-All not_hidden items (λ _ h. h))))))

locked_items :
    (access : Access) (cs : MenuItems)
    → access.is_pro ≡ true
    → access.me ≡ none
    → some_allowed access cs ≡ false
unfolding is_allowed_route_path
locked_items access nil pro out = refl
locked_items access (cons c cs) pro out = rw (pro, out, locked_items access cs pro out) refl

locked :
    (access : Access) (d : MenuItem)
    → access.is_pro ≡ true
    → access.me ≡ none
    → is_allowed access d ≡ false
unfolding is_allowed_route_path
locked access (item title path hidden absent) pro out = rw (pro, out) refl
locked access (item title path hidden (present cs)) pro out =
    rw (locked_items access cs pro out, pro, out) refl

-- In the pro edition the sidebar is empty as long as no user is known.
pub sidebar_menu_items-nil :
    (access : Access) (fn : Option (String → Bool)) (items : List MenuItem)
    → access.is_pro ≡ true
    → access.me ≡ none
    → sidebar_menu_items access fn items ≡ []
unfolding sidebar_menu_items
sidebar_menu_items-nil access fn items pro out =
    rw
      (filter-nil (is_allowed access)
        (filter (is_visible fn) (filter (has_edition access.is_pro) (filter not_hidden items)))
        (λ d. locked access d pro out))
      refl
