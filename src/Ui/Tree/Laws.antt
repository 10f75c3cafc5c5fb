-- ===== src/Ui/Tree/Laws.antt =====
-- `normalizeTree` of frontend/astiango-hub-ui/src/utils/tree.ts lists exactly the nodes of its trees.
use astiango_hub.Common.{
  ℕ, suc, ◌+◌, ◌≡◌, refl, sym, ap, ◌∙◌, ◌↔◌, ◌⊎◌, inl, inr, List, [], ◌∷◌, ◌++◌, some, All,
  All-append, All-mono, length, get_elem?,
}
use astiango_hub.Common.Arrays.Laws.{All-at, get_elem?-append_left, get_elem?-append_right}
use astiango_hub.Ui.Menu.{MenuItem, item, MenuItems, nil, cons, Children, absent, present}
use astiango_hub.Ui.Tree.{
  get_normalized_nodes, normalized_children, normalized_items, normalize_tree,
}

-- `d` is the node or stands below it.
unfoldable mutual
  pub Within : MenuItem → MenuItem → Type 0
  Within d (item title path hidden children) =
      (d ≡ item title path hidden children) ⊎ WithinChildren d children

  pub WithinChildren : MenuItem → Children → Type 0
  WithinChildren d absent = ⊥
  WithinChildren d (present cs) = WithinItems d cs

  pub WithinItems : MenuItem → MenuItems → Type 0
  WithinItems d nil = ⊥
  WithinItems d (cons c cs) = Within d c ⊎ WithinItems d cs

abbrev pub WithinTrees : MenuItem → List MenuItem → Type 0
WithinTrees d [] = ⊥
WithinTrees d (t ∷ ts) = Within d t ⊎ WithinTrees d ts

mutual
  unfolding get_normalized_nodes Within

  node_sound : (m : MenuItem) → All (λ d. Within d m) (get_normalized_nodes m)
  node_sound (item title path hidden children) =
      (inl refl, All-mono _ (λ d w. inr w) (children_sound children))

  children_sound : (cs : Children) → All (λ d. WithinChildren d cs) (normalized_children cs)
  children_sound absent = tt
  children_sound (present cs) = items_sound cs

  items_sound : (cs : MenuItems) → All (λ d. WithinItems d cs) (normalized_items cs)
  items_sound nil = tt
  items_sound (cons c cs) =
      All-append _ (get_normalized_nodes c) (normalized_items cs)
        (All-mono _ (λ d w. inl w) (node_sound c)) (All-mono _ (λ d w. inr w) (items_sound cs))

-- `d` stands somewhere in the list.
abbrev pub Listed : MenuItem → List MenuItem → Type 0
Listed d ds = (i : ℕ) × (get_elem? ds i ≡ some d)

Listed-left : (d : MenuItem) (xs ys : List MenuItem) → Listed d xs → Listed d (xs ++ ys)
Listed-left d xs ys (i, e) = (i, get_elem?-append_left xs ys i e)

Listed-right : (d : MenuItem) (xs ys : List MenuItem) → Listed d ys → Listed d (xs ++ ys)
Listed-right d xs ys (i, e) = (length xs + i, get_elem?-append_right xs ys i ∙ e)

mutual
  unfolding get_normalized_nodes Within get_elem?

  node-Listed : (d m : MenuItem) → Within d m → Listed d (get_normalized_nodes m)
  node-Listed d (item title path hidden children) (inl here) = (0, ap some (sym here))
  node-Listed d (item title path hidden children) (inr below) =
      let (i, e) = children-Listed d children below in (suc i, e)

  children-Listed :
      (d : MenuItem) (cs : Children) → WithinChildren d cs → Listed d (normalized_children cs)
  children-Listed d absent w = absurd w
  children-Listed d (present cs) w = items-Listed d cs w

  items-Listed : (d : MenuItem) (cs : MenuItems) → WithinItems d cs → Listed d (normalized_items cs)
  items-Listed d nil w = absurd w
  items-Listed d (cons c cs) (inl w) = Listed-left d _ _ (node-Listed d c w)
  items-Listed d (cons c cs) (inr w) =
      Listed-right d (get_normalized_nodes c) _ (items-Listed d cs w)

trees-Listed : (d : MenuItem) (ts : List MenuItem) → WithinTrees d ts → Listed d (normalize_tree ts)
unfolding normalize_tree
trees-Listed d [] w = absurd w
trees-Listed d (t ∷ ts) (inl w) = Listed-left d _ _ (node-Listed d t w)
trees-Listed d (t ∷ ts) (inr w) = Listed-right d (get_normalized_nodes t) _ (trees-Listed d ts w)

trees_sound : (ts : List MenuItem) → All (λ d. WithinTrees d ts) (normalize_tree ts)
unfolding normalize_tree
trees_sound [] = tt
trees_sound (t ∷ ts) =
    All-append _ (get_normalized_nodes t) (normalize_tree ts)
      (All-mono _ (λ d w. inl w) (node_sound t)) (All-mono _ (λ d w. inr w) (trees_sound ts))

-- The normalized list holds the nodes of the trees, each of them and nothing else.
pub normalize_tree_lem :
    (ts : List MenuItem) (d : MenuItem) → Listed d (normalize_tree ts) ↔ WithinTrees d ts
normalize_tree_lem ts d =
    ((λ (i, e). All-at i _ (normalize_tree ts) (trees_sound ts) e), trees-Listed d ts)
