-- ===== src/Ui/CheckboxTree/Loop.antt =====
-- The loop of `updateState` in frontend/astiango-hub-ui/src/components/ui/checkbox/CheckboxTree.vue
-- ends.
use astiango_hub.Common.{
  ℕ, zero, suc, ◌<◌, String, Bool, ◌≡◌, refl, inl, inr, some, length, Distinct, Option-cases, arith,
}
use astiango_hub.Ui.CheckboxTree.{
  CheckboxTreeSelectOption, option, Options, nil, cons, InternalState, set, parent_state,
  sibling_states, find_parent_option, ids, update_ancestors, update_state, update_each,
  update_parent_states, check_all,
}
use astiango_hub.Ui.CheckboxTree.Paths.{rank, rank-≤, find_parent_option-rank}

loop_ends :
    (fuel : ℕ) (os : Options) (id : String) (m : InternalState)
    → Distinct (ids os)
    → rank os id < fuel
    → (m' : InternalState) × (update_ancestors fuel os id m ≡ some m')
unfolding update_ancestors
loop_ends zero os id m distinct h = absurd (omega (arith, h))
loop_ends (suc fuel) os id m distinct h = elim (Option-cases (find_parent_option os id)) [
  | inl root ↦ rw root (m, refl)
  | inr (p, at) ↦
      let (_, up) = find_parent_option-rank os id p distinct at in
      rw at (
        loop_ends fuel os p.id (set p.id (parent_state (sibling_states m p.children)) m) distinct
          (omega (arith, up, h)))
]

state_ends :
    (os : Options) (o : CheckboxTreeSelectOption) (b : Bool) (m : InternalState)
    → Distinct (ids os)
    → (m' : InternalState) × (update_state os o b m ≡ some m')
unfolding update_state
state_ends os (option id value checked cs) b m distinct =
    loop_ends (suc (length (ids os))) os id _ distinct (omega (arith, rank-≤ os id))

each_ends :
    (os : Options) (rest : Options) (b : Bool) (m : InternalState)
    → Distinct (ids os)
    → (m' : InternalState) × (update_each os rest b m ≡ some m')
unfolding update_each
each_ends os nil b m distinct = (m, refl)
each_ends os (cons o rest) b m distinct =
    let (m', e) = state_ends os o b m distinct in rw e (each_ends os rest b m' distinct)

-- Changing an option, and checking or unchecking all of them, ends, if no two options have the same
-- identifier: the loop over the ancestors takes no more rounds than there are options.
pub update_state-ends :
    (os : Options) (o : CheckboxTreeSelectOption) (b : Bool) (m : InternalState)
    → Distinct (ids os)
    → ((m' : InternalState) × (update_state os o b m ≡ some m'))
      × ((m' : InternalState) × (check_all os b m ≡ some m'))
unfolding check_all
update_state-ends os o b m distinct =
    let (m', e) = each_ends os os b m distinct in
    (state_ends os o b m distinct, rw e (update_parent_states os m', refl))
