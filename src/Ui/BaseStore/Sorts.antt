-- ===== src/Ui/BaseStore/Sorts.antt =====
-- Sorts by key of frontend/astiango-hub-ui/src/utils/store.ts.
use astiango_hub.Common.{
  ℕ, String, true, false, not, ◌≡◌, ◌≢◌, refl, sym, ◌∙◌, inl, inr, Option, none, some, List, [],
  ◌∷◌, map, Bool-cases, filter, find_index, set_at, remove_at, All, All-append, Distinct, next,
  eq_iff,
}
use astiango_hub.Common.Arrays.Laws.{remove_at-All, set_at-All, map-remove_at, map-set_at}
use astiango_hub.Common.Arrays.Search.{
  filter-refuses, find_index-none, find_index-here, find_index-there,
}
use mathlib.Core.List.{map-append}
use astiango_hub.Ui.BaseStore.{BaseStoreState, SortData}
use astiango_hub.Ui.BaseStore.Mutations.{sorts_by, replace_sort, set_table_list_sort_by_key}

-- The sort that is given, as a list.
abbrev pub given : Option SortData → List SortData
given none = []
given (some sort) = sort ∷ []

-- The sort that is given is one of the key.
abbrev pub IsOf : String → Option SortData → Type 0
IsOf key none = Unit
IsOf key (some sort) = sort.key ≡ key

abbrev pub keys : List SortData → List String
keys sorts = map (λ d. d.key) sorts

replace_sort-next :
    (i : Option ℕ) (sort : Option SortData) (d : SortData) (ds : List SortData)
    → replace_sort (next i) sort (d ∷ ds) ≡ d ∷ replace_sort i sort ds
unfolding replace_sort set_at remove_at
replace_sort-next none none d ds = refl
replace_sort-next none (some sort) d ds = refl
replace_sort-next (some i) none d ds = refl
replace_sort-next (some i) (some sort) d ds = refl

-- What holds of every sort, and of the given one.
replace_sort-All :
    (P : String → Type 0) (i : Option ℕ) (sort : Option SortData) (ds : List SortData)
    → All P (keys (given sort))
    → All P (keys ds)
    → All P (keys (replace_sort i sort ds))
unfolding replace_sort
replace_sort-All P none none ds g h = h
replace_sort-All P none (some sort) ds g h =
    rw (map-append (λ d. d.key) ds (sort ∷ [])) (All-append P (keys ds) (sort.key ∷ []) h g)
replace_sort-All P (some i) none ds g h =
    rw (map-remove_at (λ d. d.key) i ds) (remove_at-All P i (keys ds) h)
replace_sort-All P (some i) (some sort) ds (g, _) h =
    rw (map-set_at (λ d. d.key) i sort ds) (set_at-All P i sort.key (keys ds) g h)

-- If one sort has the key, none of those with other keys has it.
no-others :
    (key : String) (d : SortData) (ds : List SortData)
    → sorts_by key d ≡ true
    → All (λ k. d.key ≢ k) (keys ds)
    → All (λ e. sorts_by key e ≡ false) ds
no-others key d [] same h = tt
no-others key d (e ∷ ds) same (n, h) = elim (Bool-cases (sorts_by key e)) [
  | inl too ↦ absurd (n ((eq_iff d.key key).0 same ∙ sym ((eq_iff e.key key).0 too)))
  | inr differs ↦ (differs, no-others key d ds same h)
]

-- `after` is `before` with the given sort for the sort of the key.
abbrev pub Replaced : String → Option SortData → List SortData → List SortData → Type 0
Replaced key sort before after =
    (filter (sorts_by key) after ≡ given sort)
    × (filter (λ d. not (sorts_by key d)) after ≡ filter (λ d. not (sorts_by key d)) before)
    × Distinct (keys after)

-- The sort that is found goes.
drop-Replaced :
    (key : String) (d : SortData) (ds : List SortData)
    → sorts_by key d ≡ true
    → Distinct (keys (d ∷ ds))
    → Replaced key none (d ∷ ds) ds
unfolding filter
drop-Replaced key d ds same (n, distinct) =
    (filter-refuses _ ds (no-others key d ds same n), rw same refl, distinct)

swap-Replaced :
    (key : String) (sort d : SortData) (ds : List SortData)
    → sort.key ≡ key
    → sorts_by key d ≡ true
    → Distinct (keys (d ∷ ds))
    → Replaced key (some sort) (d ∷ ds) (sort ∷ ds)
unfolding filter
swap-Replaced key sort d ds e same (n, distinct) =
    let has = (eq_iff sort.key key).1 e in
    (
      rw (has, filter-refuses _ ds (no-others key d ds same n)) refl,
      rw (has, same) refl,
      (rw (e ∙ sym ((eq_iff d.key key).0 same)) n, distinct),
    )

-- A sort of another key stays.
keep-Replaced :
    (key : String) (sort : Option SortData) (d : SortData) (before after : List SortData)
    → sorts_by key d ≡ false
    → All (λ k. d.key ≢ k) (keys after)
    → Replaced key sort before after
    → Replaced key sort (d ∷ before) (d ∷ after)
unfolding filter
keep-Replaced key sort d before after other n (e, f, distinct) =
    (rw other e, rw (other, f) refl, (n, distinct))

given-differs :
    (key : String) (sort : Option SortData) (d : SortData)
    → IsOf key sort
    → sorts_by key d ≡ false
    → All (λ k. d.key ≢ k) (keys (given sort))
given-differs key none d e other = tt
given-differs key (some sort) d e other = ((λ same. cc ((eq_iff d.key key).1 (same ∙ e))), tt)

found :
    (key : String) (sort : Option SortData) (d : SortData) (ds : List SortData)
    → IsOf key sort
    → sorts_by key d ≡ true
    → Distinct (keys (d ∷ ds))
    → Replaced key sort (d ∷ ds) (replace_sort (some 0) sort (d ∷ ds))
unfolding replace_sort set_at remove_at
found key none d ds e same distinct = drop-Replaced key d ds same distinct
found key (some sort) d ds e same distinct = swap-Replaced key sort d ds e same distinct

nil-Replaced :
    (key : String) (sort : Option SortData)
    → IsOf key sort
    → Replaced key sort [] (replace_sort none sort [])
unfolding replace_sort filter
nil-Replaced key none e = (refl, refl, tt)
nil-Replaced key (some sort) e =
    let has = (eq_iff sort.key key).1 e in (rw has refl, rw has refl, (tt, tt))

replace_sort-Replaced :
    (key : String) (sort : Option SortData) (ds : List SortData)
    → IsOf key sort
    → Distinct (keys ds)
    → Replaced key sort ds (replace_sort (find_index (sorts_by key) ds) sort ds)
replace_sort-Replaced key sort [] e distinct =
    rw (find_index-none (sorts_by key) [] tt) (nil-Replaced key sort e)
replace_sort-Replaced key sort (d ∷ ds) e (n, distinct) = elim (Bool-cases (sorts_by key d)) [
  | inl same ↦ rw (find_index-here _ d ds same) (found key sort d ds e same (n, distinct))
  | inr other ↦
      rw (find_index-there _ d ds other, replace_sort-next _ sort d ds)
        (keep-Replaced key sort d ds _ other
          (replace_sort-All _ _ sort ds (given-differs key sort d e other) n)
          (replace_sort-Replaced key sort ds e distinct))
]

-- Setting the sort of a key makes the given sort, or none, the only sort of the key, and leaves the
-- sorts of the other keys as they were and in their order, if no two sorts had the same key and the
-- given one is of the key. Still no two sorts have the same key.
pub set_table_list_sort_by_key_lem :
    {T C : Type 0} (key : String) (sort : Option SortData) (s : BaseStoreState T C)
    → IsOf key sort
    → Distinct (keys s.table_list_sort)
    → Replaced key sort s.table_list_sort (set_table_list_sort_by_key key sort s).table_list_sort
unfolding set_table_list_sort_by_key
set_table_list_sort_by_key_lem key sort s e distinct =
    replace_sort-Replaced key sort s.table_list_sort e distinct
