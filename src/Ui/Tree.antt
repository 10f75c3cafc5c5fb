-- ===== src/Ui/Tree.antt =====
-- `normalizeTree` of frontend/astiango-hub-ui/src/utils/tree.ts on the items of the menu, with no
-- handler: the getter `normalizedMenuItems` of store/modules/layout.ts.
pub mod Laws
use astiango_hub.Common.{List, [], ◌∷◌, ◌++◌}
use astiango_hub.Ui.Menu.{MenuItem, item, MenuItems, nil, cons, Children, absent, present}

-- `getNormalizedNodes`, with the loop over the children.
unfoldable mutual
  pub get_normalized_nodes : MenuItem → List MenuItem
  get_normalized_nodes (item title path hidden children) =
      item title path hidden children ∷ normalized_children children

  pub normalized_children : Children → List MenuItem
  normalized_children absent = []
  normalized_children (present cs) = normalized_items cs

  pub normalized_items : MenuItems → List MenuItem
  normalized_items nil = []
  normalized_items (cons c cs) = get_normalized_nodes c ++ normalized_items cs

-- `normalizeTree`
unfoldable pub normalize_tree : List MenuItem → List MenuItem
normalize_tree [] = []
normalize_tree (d ∷ ds) = get_normalized_nodes d ++ normalize_tree ds
