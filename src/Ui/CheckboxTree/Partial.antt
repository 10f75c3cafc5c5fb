-- ===== src/Ui/CheckboxTree/Partial.antt =====
-- A parent whose children are parents, after a leaf below it was changed:
-- frontend/astiango-hub-ui/src/components/ui/checkbox/CheckboxTree.vue.
use astiango_hub.Common.{
  ℕ, suc, ◌<◌, String, Bool, true, false, ◌≡◌, refl, none, some, List, [], ◌∷◌, length, filter, ltb,
  ◌==◌, arith, eq_refl,
}
use astiango_hub.Ui.CheckboxTree.{
  Options, option, nil, cons, CheckState, InternalState, set, Found, count_true, collect_states,
  parent_state, sibling_states, find_parent_option, update_ancestors,
}

ltb-true : (a b : ℕ) → a < b → ltb a b ≡ true
ltb-true a b h = ground arith

zero-differs : (n : ℕ) → (0 == suc n) ≡ false
zero-differs n = ground arith

-- Nothing is checked, and something is there.
parent_state-none :
    (bs : List Bool)
    → count_true bs ≡ 0
    → 0 < length bs
    → parent_state bs ≡ record { checked = false; intermediate = false }
unfolding parent_state
parent_state-none [] e h = absurd (omega (arith, h))
parent_state-none (b ∷ bs) e h = rw (e, zero-differs (length bs)) refl

parent_state-some :
    (bs : List Bool)
    → 0 < count_true bs
    → count_true bs < length bs
    → (parent_state bs).intermediate ≡ true
unfolding parent_state
parent_state-some bs h below =
    rw (ltb-true 0 (count_true bs) h, ltb-true (count_true bs) (length bs) below) refl

collect_states-nil : (m : InternalState) → collect_states m nil ≡ []
unfolding collect_states
collect_states-nil m = refl

sibling_states-pos :
    (cs : Options) (m : InternalState)
    → 0 < count_true (collect_states m cs)
    → 0 < length (sibling_states m cs)
unfolding sibling_states filter
sibling_states-pos nil m h = absurd (omega (arith, rw (collect_states-nil m) at h))
sibling_states-pos (cons (option id value checked cs) os) m h = omega arith

-- When the loop comes to a root none of whose children is checked, since some of the leaves below them are
-- and some are not, the root shows as not checked and not intermediate, where the sum over its leaves,
-- which `updateParentStates` takes, is intermediate.
pub update_ancestors-partial :
    (os : Options) (id : String) (p : Found) (m : InternalState) (fuel : ℕ)
    → find_parent_option os id ≡ some p
    → find_parent_option os p.id ≡ none
    → count_true (sibling_states m p.children) ≡ 0
    → 0 < count_true (collect_states m p.children)
    → count_true (collect_states m p.children) < length (collect_states m p.children)
    → let shown : CheckState = record { checked = false; intermediate = false } in
      (update_ancestors (suc (suc fuel)) os id m ≡ some (set p.id shown m))
      × (set p.id shown m p.id ≡ some shown)
      × ((parent_state (collect_states m p.children)).intermediate ≡ true)
unfolding update_ancestors
update_ancestors-partial os id p m fuel at root unchecked some_leaf not_all =
    let shown =
      parent_state-none (sibling_states m p.children) unchecked
        (sibling_states-pos p.children m some_leaf) in
    (
      rw (at, root, shown) refl,
      rw (eq_refl p.id) refl,
      parent_state-some (collect_states m p.children) some_leaf not_all,
    )
