-- ===== src/Ui/CheckboxTree/Tests.antt =====
-- A tree of options at concrete states.
use astiango_hub.Common.{
  arith, ◌≡◌, ◌≢◌, refl, String, true, false, none, some, Distinct, filter, str_eq, eq_iff,
}
use astiango_hub.Ui.CheckboxTree.{
  CheckboxTreeSelectOption, option, Options, nil, cons, CheckState, InternalState, set,
  collect_states, parent_state, update_parent_states, update_state, check_all, update_ancestors,
  find_parent_option, ids, sibling_states, get_check_all_status, indeterminate,
}
use astiango_hub.Ui.CheckboxTree.Loop.{update_state-ends}
use astiango_hub.Ui.CheckboxTree.Parents.{IsSummed, update_parent_states-IsSummed}
use astiango_hub.Ui.CheckboxTree.Partial.{update_ancestors-partial}

abbrev leaf : String → CheckboxTreeSelectOption
leaf id = option id id false nil

abbrev middle : Options
middle = cons (option "m" "m" false (cons (leaf "a") (cons (leaf "b") nil))) nil

abbrev tree : Options
tree = cons (option "r" "r" false middle) nil

-- The leaf "a" was checked.
abbrev one_leaf : InternalState
one_leaf = set "a" (record { checked = true; intermediate = false }) (λ k. none)

-- Its parent was updated too.
abbrev half : InternalState
half = set "m" (record { checked = false; intermediate = true }) one_leaf

get_check_all_status-half : get_check_all_status tree half ≡ indeterminate
unfolding get_check_all_status filter
get_check_all_status-half = refl

apart : (a b : String) → str_eq a b ≡ false → a ≢ b
apart a b h e = cc ((eq_iff a b).1 e, h)

tree-Distinct : Distinct (ids tree)
unfolding ids
tree-Distinct = (
  (apart "r" "m" refl, (apart "r" "a" refl, (apart "r" "b" refl, tt))),
  ((apart "m" "a" refl, (apart "m" "b" refl, tt)), ((apart "a" "b" refl, tt), (tt, tt))),
)

update_state-ends_example :
    ((m' : InternalState) × (update_state tree (leaf "a") true one_leaf ≡ some m'))
    × ((m' : InternalState) × (check_all tree true one_leaf ≡ some m'))
update_state-ends_example = update_state-ends tree (leaf "a") true one_leaf tree-Distinct

update_parent_states-IsSummed_example :
    IsSummed tree (update_parent_states tree one_leaf)
    × (collect_states (update_parent_states tree one_leaf) tree ≡ collect_states one_leaf tree)
update_parent_states-IsSummed_example = update_parent_states-IsSummed tree one_leaf tree-Distinct

update_ancestors-partial_example :
    let shown : CheckState = record { checked = false; intermediate = false } in
    (update_ancestors 2 tree "m" half ≡ some (set "r" shown half))
    × (set "r" shown half "r" ≡ some shown)
    × ((parent_state (collect_states half middle)).intermediate ≡ true)
unfolding find_parent_option sibling_states collect_states filter
update_ancestors-partial_example =
    update_ancestors-partial tree "m" (record { id = "r"; children = middle }) half 0 refl refl refl
      (omega arith) (omega arith)
