-- ===== src/Ui/CheckboxTree/Parents.antt =====
-- What `updateParentStates` of frontend/astiango-hub-ui/src/components/ui/checkbox/CheckboxTree.vue
-- makes of the parents.
use astiango_hub.Common.{
  String, ◌≡◌, ◌≢◌, refl, sym, ap, ◌∙◌, inl, inr, some, List, [], ◌∷◌, ◌++◌, str_eq, All, All-mono,
  Distinct, Bool-cases, eq_iff, eq_refl,
}
use astiango_hub.Ui.CheckboxTree.{
  Options, option, nil, cons, CheckState, InternalState, set, state_or_default, is_checked,
  get_state, collect_states, parent_state, update_parent_states, ids,
}
use mathlib.Core.Path.{ap₂}
use astiango_hub.Common.Arrays.Distinct.{
  All-left, All-right, All-both, All-flip, Distinct-left, Distinct-right, Distinct-across,
}

-- Each parent shows what the leaves below it say.
unfoldable pub IsSummed : Options → InternalState → Type 0
IsSummed nil m = Unit
IsSummed (cons (option id value checked nil) os) m = IsSummed os m
IsSummed (cons (option id value checked (cons c cs)) os) m =
    (m id ≡ some (parent_state (collect_states m (cons c cs))))
    × IsSummed (cons c cs) m
    × IsSummed os m

-- Two states that are the same on some identifiers.
abbrev Agree : InternalState → InternalState → List String → Type 0
Agree m m' ks = All (λ k. m k ≡ m' k) ks

set-other : (id k : String) (s : CheckState) (m : InternalState) → k ≢ id → set id s m k ≡ m k
set-other id k s m apart = elim (Bool-cases (str_eq k id)) [
  | inl same ↦ absurd (apart ((eq_iff k id).0 same))
  | inr differ ↦ rw differ refl
]

set-same : (id : String) (s : CheckState) (m : InternalState) → set id s m id ≡ some s
set-same id s m = rw (eq_refl id) refl

Agree-set :
    (id : String) (s : CheckState) (m : InternalState) (ks : List String)
    → All (λ k. id ≢ k) ks
    → Agree (set id s m) m ks
Agree-set id s m ks apart = All-mono ks (λ k n. set-other id k s m (λ e. n (sym e))) apart

Agree-trans :
    (m m' m'' : InternalState) (ks : List String) → Agree m m' ks → Agree m' m'' ks → Agree m m'' ks
Agree-trans m m' m'' [] h h' = tt
Agree-trans m m' m'' (k ∷ ks) (e, h) (e', h') = (e ∙ e', Agree-trans m m' m'' ks h h')

is_checked-Agree :
    (m m' : InternalState) (id : String) → m id ≡ m' id → is_checked m id ≡ is_checked m' id
unfolding get_state
is_checked-Agree m m' id e = ap (λ s. (state_or_default s).checked) e

collect_states-Agree :
    (os : Options) (m m' : InternalState)
    → Agree m m' (ids os)
    → collect_states m os ≡ collect_states m' os
unfolding collect_states ids
collect_states-Agree nil m m' h = refl
collect_states-Agree (cons (option id value checked nil) os) m m' (e, h) =
    ap₂ (λ b bs. b ∷ bs) (is_checked-Agree m m' id e) (collect_states-Agree os m m' h)
collect_states-Agree (cons (option id value checked (cons c cs)) os) m m' (e, h) =
    ap₂ (λ bs ds. bs ++ ds)
      (collect_states-Agree (cons c cs) m m' (All-left _ (ids (cons c cs)) (ids os) h))
      (collect_states-Agree os m m' (All-right _ (ids (cons c cs)) (ids os) h))

IsSummed-Agree :
    (os : Options) (m m' : InternalState) → Agree m m' (ids os) → IsSummed os m → IsSummed os m'
unfolding IsSummed ids
IsSummed-Agree nil m m' h s = tt
IsSummed-Agree (cons (option id value checked nil) os) m m' (e, h) s = IsSummed-Agree os m m' h s
IsSummed-Agree (cons (option id value checked (cons c cs)) os) m m' (e, h) (here, inside, beside) =
    let below = All-left _ (ids (cons c cs)) (ids os) h in
    (
      sym e
          ∙ here
          ∙ ap (λ bs. some (parent_state bs)) (collect_states-Agree (cons c cs) m m' below),
      IsSummed-Agree (cons c cs) m m' below inside,
      IsSummed-Agree os m m' (All-right _ (ids (cons c cs)) (ids os) h) beside,
    )

-- Only identifiers of the options get another state.
update_parent_states-other :
    (os : Options) (m : InternalState) (k : String)
    → All (λ i. k ≢ i) (ids os)
    → update_parent_states os m k ≡ m k
unfolding update_parent_states ids
update_parent_states-other nil m k h = refl
update_parent_states-other (cons (option id value checked nil) os) m k (n, h) =
    update_parent_states-other os m k h
update_parent_states-other (cons (option id value checked (cons c cs)) os) m k (n, h) =
    update_parent_states-other os _ k (All-right _ (ids (cons c cs)) (ids os) h)
    ∙ set-other id k _ (update_parent_states (cons c cs) m) n
    ∙ update_parent_states-other (cons c cs) m k (All-left _ (ids (cons c cs)) (ids os) h)

-- The updated parents sum up their leaves, and the leaves keep their states, if no two options have the
-- same identifier.
pub update_parent_states-IsSummed :
    (os : Options) (m : InternalState)
    → Distinct (ids os)
    → IsSummed os (update_parent_states os m)
      × (collect_states (update_parent_states os m) os ≡ collect_states m os)
unfolding update_parent_states collect_states IsSummed ids
update_parent_states-IsSummed nil m distinct = (tt, refl)
update_parent_states-IsSummed (cons (option id value checked nil) os) m (own, distinct) =
    let (beside, same) = update_parent_states-IsSummed os m distinct in
    (
      beside,
      ap₂ (λ b bs. b ∷ bs)
          (is_checked-Agree (update_parent_states os m) m id
            (update_parent_states-other os m id own))
          same,
    )
update_parent_states-IsSummed (cons (option id value checked (cons c cs)) os) m (own, distinct) =
    let inner = ids (cons c cs) in
    let m1 = update_parent_states (cons c cs) m in
    let sum = parent_state (collect_states m1 (cons c cs)) in
    let m2 = set id sum m1 in
    let (inside, same_inside) =
      update_parent_states-IsSummed (cons c cs) m (Distinct-left inner (ids os) distinct) in
    let (beside, same_beside) =
      update_parent_states-IsSummed os m2 (Distinct-right inner (ids os) distinct) in
    let across = Distinct-across inner (ids os) distinct in
    let own_in = All-left _ inner (ids os) own in
    let own_os = All-right _ inner (ids os) own in
    let below : Agree m1 (update_parent_states os m2) inner =
      All-mono inner
        (λ k h.
          sym (set-other id k sum m1 (λ e. h.0 (sym e)))
          ∙ sym (update_parent_states-other os m2 k h.1))
        (All-both _ _ inner own_in across) in
    let before : Agree m2 m (ids os) =
      All-mono (ids os)
        (λ k h.
          set-other id k sum m1 (λ e. h.0 (sym e)) ∙ update_parent_states-other (cons c cs) m k h.1)
        (All-both _ _ (ids os) own_os (All-flip inner (ids os) across)) in
    let kept = collect_states-Agree (cons c cs) m1 (update_parent_states os m2) below in
    (
      (
        update_parent_states-other os m2 id own_os
            ∙ set-same id sum m1
            ∙ ap (λ bs. some (parent_state bs)) kept,
        IsSummed-Agree (cons c cs) m1 _ below inside,
        beside,
      ),
      ap₂ (λ bs ds. bs ++ ds) (sym kept ∙ same_inside)
          (same_beside ∙ collect_states-Agree os m2 m before),
    )
