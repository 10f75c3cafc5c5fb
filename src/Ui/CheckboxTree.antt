-- ===== src/Ui/CheckboxTree.antt =====
-- frontend/astiango-hub-ui/src/components/ui/checkbox/CheckboxTree.vue: a tree of options with
-- checkboxes. `internalState` is a function from identifiers.
pub mod Paths
pub mod Loop
pub mod Parents
pub mod Partial
mod Tests
use astiango_hub.Common.{
  ℕ, zero, suc, String, Bool, true, false, not, ◌&&◌, ◌||◌, Option, none, some, List, [], ◌∷◌, ◌++◌,
  str_eq, length, filter, ◌==◌, ltb, if◌then◌else◌,
}
use astiango_hub.Ui.Menu.{includes}

-- An option with no children has the empty list of them.
mutual
  pub data CheckboxTreeSelectOption : Type 0 where
    option : (id value : String) (checked : Bool) (children : Options) → CheckboxTreeSelectOption

  pub data Options : Type 0 where
    nil : Options
    cons : CheckboxTreeSelectOption → Options → Options

pub record CheckState : Type 0 where
  pub checked : Bool
  pub intermediate : Bool

abbrev pub InternalState : Type 0
InternalState = String → Option CheckState

abbrev pub set : String → CheckState → InternalState → InternalState
set id s m = λ k. if str_eq k id then some s else m k

abbrev pub state_or_default : Option CheckState → CheckState
state_or_default none = record { checked = false; intermediate = false }
state_or_default (some s) = s

unfoldable pub get_state : InternalState → String → CheckState
get_state m id = state_or_default (m id)

abbrev pub is_checked : InternalState → String → Bool
is_checked m id = (get_state m id).checked

abbrev pub is_nil : Options → Bool
is_nil nil = true
is_nil (cons o os) = false

-- `collectDescendantStates`, which is `collectStates` too.
unfoldable pub collect_states : InternalState → Options → List Bool
unfolding get_state
collect_states m nil = []
collect_states m (cons (option id value checked nil) os) = is_checked m id ∷ collect_states m os
collect_states m (cons (option id value checked (cons c cs)) os) =
    collect_states m (cons c cs) ++ collect_states m os

abbrev pub count_true : List Bool → ℕ
count_true bs = length (filter (λ b. b) bs)

-- What a parent shows for the states of those below it.
unfoldable pub parent_state : List Bool → CheckState
parent_state bs = record {
  checked = count_true bs == length bs;
  intermediate = ltb 0 (count_true bs) && ltb (count_true bs) (length bs);
}

unfoldable pub update_parent_states : Options → InternalState → InternalState
unfolding collect_states parent_state
update_parent_states nil m = m
update_parent_states (cons (option id value checked nil) os) m = update_parent_states os m
update_parent_states (cons (option id value checked (cons c cs)) os) m =
    let m' = update_parent_states (cons c cs) m in
    update_parent_states os (set id (parent_state (collect_states m' (cons c cs))) m')

-- `all` is `props.checkedAll`, and `values` has the values of the model at the start.
abbrev init_option :
    Bool → List String → String → String → Bool → Option CheckState → InternalState → InternalState
init_option all values id value checked (some s) m = m
init_option all values id value checked none m =
    set id (record { checked = all || includes values value || checked; intermediate = false }) m

-- The loop of `initializeState`; each call ends with the update of the parents.
unfoldable pub initialize_options : Bool → List String → Options → InternalState → InternalState
unfolding update_parent_states includes
initialize_options all values nil m = m
initialize_options all values (cons (option id value checked nil) os) m =
    initialize_options all values os (init_option all values id value checked (m id) m)
initialize_options all values (cons (option id value checked (cons c cs)) os) m =
    initialize_options all values os (
      update_parent_states (cons c cs) (
        initialize_options all values (cons c cs)
          (init_option all values id value checked (m id) m)))

unfoldable pub initialize_state : Bool → List String → Options → InternalState → InternalState
unfolding initialize_options
initialize_state all values os m = update_parent_states os (initialize_options all values os m)

-- `collectValues`
unfoldable pub collect_values : InternalState → Options → List String
unfolding get_state
collect_values m nil = []
collect_values m (cons (option id value checked nil) os) =
    let rest = collect_values m os in if is_checked m id then value ∷ rest else rest
collect_values m (cons (option id value checked (cons c cs)) os) =
    collect_values m (cons c cs) ++ collect_values m os

unfoldable pub update_children_states : Options → Bool → InternalState → InternalState
update_children_states nil b m = m
update_children_states (cons (option id value checked cs) os) b m =
    update_children_states os b
      (update_children_states cs b (set id (record { checked = b; intermediate = false }) m))

-- `children.some(child => child.id === id)`
unfoldable pub has_child : Options → String → Bool
has_child nil id = false
has_child (cons (option i value checked cs) os) id = str_eq i id || has_child os id

-- An option, by the fields that the loop reads.
pub record Found : Type 0 where
  pub id : String
  pub children : Options

abbrev pub or_else {ℓ} : {A : Type ℓ} → Option A → Option A → Option A
or_else none o = o
or_else (some x) o = some x

unfoldable pub find_parent_option : Options → String → Option Found
unfolding has_child
find_parent_option nil id = none
find_parent_option (cons (option i value checked cs) os) id =
    let below = find_parent_option cs id in
    let beside = find_parent_option os id in
    if has_child cs id then some (record { id = i; children = cs }) else or_else below beside

-- The states of the siblings, not of the leaves below them.
unfoldable pub sibling_states : InternalState → Options → List Bool
unfolding get_state
sibling_states m nil = []
sibling_states m (cons (option id value checked cs) os) = is_checked m id ∷ sibling_states m os

abbrev pub climb :
    Option Found
    → InternalState
    → (String → InternalState → Option InternalState)
    → Option InternalState
climb none m go = some m
climb (some p) m go = go p.id (set p.id (parent_state (sibling_states m p.children)) m)

-- The loop up to the root, with fuel: `none` means that it ran out.
unfoldable pub update_ancestors : ℕ → Options → String → InternalState → Option InternalState
unfolding find_parent_option sibling_states parent_state
update_ancestors zero os id m = none
update_ancestors (suc fuel) os id m = climb (find_parent_option os id) m (update_ancestors fuel os)

unfoldable pub ids : Options → List String
ids nil = []
ids (cons (option id value checked cs) os) = id ∷ ids cs ++ ids os

-- `updateState`: the state, and the values of the model. The fuel is one more than the number of options.
unfoldable pub update_state :
    Options → CheckboxTreeSelectOption → Bool → InternalState → Option InternalState
unfolding update_children_states update_ancestors ids
update_state os (option id value checked cs) b m =
    update_ancestors (suc (length (ids os))) os id
      (update_children_states cs b (set id (record { checked = b; intermediate = false }) m))

abbrev then_update :
    Option InternalState → (InternalState → Option InternalState) → Option InternalState
then_update none f = none
then_update (some m) f = f m

-- The loop of `checkAll`.
unfoldable pub update_each : Options → Options → Bool → InternalState → Option InternalState
unfolding update_state
update_each all nil b m = some m
update_each all (cons o os) b m =
    then_update (update_state all o b m) (λ m'. update_each all os b m')

unfoldable pub check_all : Options → Bool → InternalState → Option InternalState
unfolding update_each update_parent_states
check_all os b m = then_update (update_each os os b m) (λ m'. some (update_parent_states os m'))

pub data CheckboxStatus : Type 0 where
  checked indeterminate unchecked : CheckboxStatus

abbrev status_of : List Bool → CheckboxStatus
status_of bs =
    if count_true bs == length bs
    then checked
    else if ltb 0 (count_true bs)
    then indeterminate
    else unchecked

unfoldable pub get_check_all_status : Options → InternalState → CheckboxStatus
unfolding collect_states
get_check_all_status os m = status_of (collect_states m os)
