-- ===== src/Ui/BaseStore/Filters.antt =====
-- Filters by key of frontend/astiango-hub-ui/src/utils/store.ts.
use astiango_hub.Common.{
  String, Bool, true, false, not, ◌≡◌, refl, ap, ◌∙◌, List, [], ◌∷◌, ◌++◌, map, append-nil, filter,
  All, All-mono,
}
use astiango_hub.Common.Arrays.Search.{filter-All, filter-append, filter-accepts, filter-refuses}
use astiango_hub.Common.{eq_refl}
use astiango_hub.Ui.BaseStore.{BaseStoreState, FilterConditionData}
use astiango_hub.Ui.BaseStore.Mutations.{has_key, with_key, set_table_list_filter_by_key}

with_key-has :
    (key : String) (ds : List FilterConditionData)
    → All (λ d. has_key key d ≡ true) (map (with_key key) ds)
with_key-has key [] = tt
with_key-has key (d ∷ ds) = (eq_refl key, with_key-has key ds)

pub not-false : (b : Bool) → b ≡ true → not b ≡ false
not-false b h = rw h refl

pub not-true : (b : Bool) → not b ≡ true → b ≡ false
not-true true h = cc
not-true false h = refl

-- Setting the filters of a key makes the given conditions, with that key, the filters of the key,
-- and leaves the filters of the other keys as they were and in their order.
pub set_table_list_filter_by_key_lem :
    {T C : Type 0} (key : String) (conditions : List FilterConditionData) (s : BaseStoreState T C)
    → let after = (set_table_list_filter_by_key key conditions s).table_list_filter in
      (filter (has_key key) after ≡ map (with_key key) conditions)
      × (filter (λ d. not (has_key key d)) after
          ≡ filter (λ d. not (has_key key d)) s.table_list_filter)
unfolding set_table_list_filter_by_key
set_table_list_filter_by_key_lem key conditions s =
    let others = filter (λ d. not (has_key key d)) s.table_list_filter in
    let given = map (with_key key) conditions in
    let keyed = with_key-has key conditions in
    (
      filter-append (has_key key) others given
          ∙ ap (λ l. l ++ filter (has_key key) given)
              (filter-refuses (has_key key) others
                (filter-All _ s.table_list_filter (λ d h. not-true _ h)))
          ∙ filter-accepts (has_key key) given keyed,
      filter-append (λ d. not (has_key key d)) others given
          ∙ ap (λ l. l ++ filter (λ d. not (has_key key d)) given)
              (filter-accepts _ others (filter-All _ s.table_list_filter (λ d h. h)))
          ∙ ap (λ l. others ++ l)
              (filter-refuses _ given (All-mono given (λ d h. not-false _ h) keyed))
          ∙ append-nil others,
    )
