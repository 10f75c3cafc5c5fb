-- ===== src/Ui/Layout/Tabs.antt =====
-- The order of the tabs while one is dragged, for the getter `tabs` of
-- frontend/astiango-hub-ui/src/store/modules/layout.ts.
use astiango_hub.Common.{
  ℕ, ◌≤◌, ◌<◌, ◌≡◌, refl, ap, ◌∙◌, true, Option, none, some, List, map, arith, length, find_index,
  get_elem?, remove_at, ==_iff,
}
use astiango_hub.Common.Arrays.Laws.{
  remove_at-perm, insert_at-perm, get_elem?-insert_at, remove_at-insert_at, length-remove_at,
  map-remove_at, map-insert_at, get_elem?-map,
}
use astiango_hub.Common.Arrays.Search.{find_index-found}
use mathlib.Core.List.{Perm}
use mathlib.Core.List.Perm
use astiango_hub.Ui.Layout.{Tab, LayoutStoreState, same_id, has_id, move, reordered, ordered_tabs}

abbrev pub ids : List Tab → List (Option ℕ)
ids ts = map (λ t. t.id) ts

pub same_id-eq : (a b : Option ℕ) → same_id a b ≡ true → a ≡ b
unfolding same_id
same_id-eq none none h = refl
same_id-eq (some a) (some b) h = ap some ((==_iff a b).0 h)
same_id-eq none (some b) h = cc
same_id-eq (some a) none h = cc

-- The identifier at the index that is found.
pub index-id :
    (ts : List Tab) (i : Option ℕ) {n : ℕ}
    → find_index (has_id i) ts ≡ some n
    → (n < length ts) × (get_elem? (ids ts) n ≡ some i)
index-id ts i {n} h =
    let (below, (t, at, same)) = find_index-found (has_id i) ts h in
    (below, get_elem?-map (λ t. t.id) ts n at ∙ ap some (same_id-eq t.id i same))

move-perm :
    (d : Tab) (ts : List Tab) (i j : ℕ)
    → get_elem? (ids ts) i ≡ some d.id
    → Perm (ids (move d ts (some i) (some j))) (ids ts)
move-perm d ts i j at =
    rw (map-insert_at (λ t. t.id) j d (remove_at i ts), map-remove_at (λ t. t.id) i ts)
      (Perm.trans (insert_at-perm j d.id (remove_at i (ids ts))) (remove_at-perm i (ids ts) at))

move-cases :
    (d : Tab) (ts : List Tab) (i j : Option ℕ)
    → find_index (has_id d.id) ts ≡ i
    → Perm (ids (move d ts i j)) (ids ts)
move-cases d ts none j at = Perm.refl _
move-cases d ts (some i) none at = Perm.refl _
move-cases d ts (some i) (some j) at = move-perm d ts i j (index-id ts d.id at).1

reordered-perm : (ts : List Tab) (d t : Option Tab) → Perm (ids (reordered ts d t)) (ids ts)
reordered-perm ts none t = Perm.refl _
reordered-perm ts (some d) none = Perm.refl _
reordered-perm ts (some d) (some t) = move-cases d ts _ (find_index (has_id t.id) ts) refl

-- Dragging neither loses nor doubles a tab: the identifiers of the tabs that are shown are those of
-- the tabs of the state, in some order, whatever tab is dragged over whatever other.
pub ordered_tabs-perm : (s : LayoutStoreState) → Perm (ids (ordered_tabs s)) (ids s.tabs)
unfolding ordered_tabs
ordered_tabs-perm s = reordered-perm s.tabs s.dragging_tab s.target_tab

-- A tab that is dragged over another one is shown in the place of that one, and the other tabs keep
-- their order.
pub ordered_tabs-moved :
    (s : LayoutStoreState) (d t : Tab) (i j : ℕ)
    → s.dragging_tab ≡ some d
    → s.target_tab ≡ some t
    → find_index (has_id d.id) s.tabs ≡ some i
    → find_index (has_id t.id) s.tabs ≡ some j
    → (get_elem? (ordered_tabs s) j ≡ some d) × (remove_at j (ordered_tabs s) ≡ remove_at i s.tabs)
unfolding ordered_tabs
ordered_tabs-moved s d t i j hd ht hi hj =
    let (below_i, _) = index-id s.tabs d.id hi in
    let (below_j, _) = index-id s.tabs t.id hj in
    let fits : j ≤ length (remove_at i s.tabs) =
      omega (arith, below_j, length-remove_at i s.tabs below_i) in
    rw (hd, ht, hi, hj)
      (
        get_elem?-insert_at j d (remove_at i s.tabs) fits,
        remove_at-insert_at j d (remove_at i s.tabs) fits,
      )
