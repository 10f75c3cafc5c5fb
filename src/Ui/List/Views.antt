-- ===== src/Ui/List/Views.antt =====
-- The filters and the sorts of a list as a map from the keys of its columns, and the change of one key:
-- frontend/astiango-hub-ui/src/layouts/content/list/useList.ts over utils/store.ts.
use astiango_hub.Common.{
  String, Bool, true, false, not, ◌≡◌, refl, ap, ◌∙◌, inl, inr, Option, none, some, List, [], ◌∷◌,
  map, str_eq, filter, if◌then◌else◌, Bool-cases, All, Distinct, eq_iff,
}
use astiango_hub.Common.Arrays.Search.{filter-All, filter-accepts, filter-refuses, filter-kept}
use astiango_hub.Ui.BaseStore.{FilterConditionData, SortData}
use astiango_hub.Ui.BaseStore.Mutations.{key_is, has_key, with_key, sorts_by}
use astiango_hub.Ui.BaseStore.Filters.{not-true}
use astiango_hub.Ui.BaseStore.Sorts.{given, keys, Replaced}
use astiango_hub.Ui.BaseStore.Actions.{ListRequestParams, rows_of}
use astiango_hub.Ui.List.{TableColumn, TableHeaderDialogFilterData, get_filter_conditions}

-- The filters and the sort under each key. The order of the keys and the conditions with no key are
-- forgotten.
pub record View : Type 0 where
  pub filters : String → List FilterConditionData
  pub sort : String → Option SortData

abbrev pub first {ℓ} : {A : Type ℓ} → List A → Option A
first [] = none
first (x ∷ xs) = some x

abbrev pub view_of : List FilterConditionData → List SortData → View
view_of fs sorts = record {
  filters = λ k. filter (has_key k) fs;
  sort = λ k. first (filter (sorts_by k) sorts);
}

abbrev pub asked : ListRequestParams → View
asked params = view_of (rows_of params.filter) (rows_of params.sort)

-- The conditions that the header gives for the key of its column.
abbrev pub conditions_of :
    TableColumn → Option TableHeaderDialogFilterData → List FilterConditionData
conditions_of column none = []
conditions_of column (some f) = get_filter_conditions column f

-- The change of one key.
abbrev pub change_view : String → List FilterConditionData → Option SortData → View → View
change_view key conditions sort v = record {
  filters = λ k. if str_eq k key then map (with_key key) conditions else v.filters k;
  sort = λ k. if str_eq k key then sort else v.sort k;
}

-- A text is not equal to two that differ.
text-apart :
    (key k t : String) → str_eq k key ≡ false → str_eq t k ≡ true → not (str_eq t key) ≡ true
text-apart key k t differ e = rw ((eq_iff t k).0 e, differ) refl

key_is-apart :
    (key k : String) (o : Option String)
    → str_eq k key ≡ false
    → key_is k o ≡ true
    → not (key_is key o) ≡ true
key_is-apart key k none differ h = refl
key_is-apart key k (some t) differ h = text-apart key k t differ h

first-given : (sort : Option SortData) → first (given sort) ≡ sort
first-given none = refl
first-given (some sort) = refl

keys-filter-All :
    (P : String → Type 0) (p : SortData → Bool) (ds : List SortData)
    → All P (keys ds)
    → All P (keys (filter p ds))
unfolding filter
keys-filter-All P p [] h = tt
keys-filter-All P p (d ∷ ds) (here, h) = elim (Bool-cases (p d)) [
  | inl holds ↦ rw holds (here, keys-filter-All P p ds h)
  | inr fails ↦ rw fails (keys-filter-All P p ds h)
]

keys-filter-Distinct :
    (p : SortData → Bool) (ds : List SortData) → Distinct (keys ds) → Distinct (keys (filter p ds))
unfolding filter
keys-filter-Distinct p [] h = tt
keys-filter-Distinct p (d ∷ ds) (n, h) = elim (Bool-cases (p d)) [
  | inl holds ↦ rw holds (keys-filter-All _ p ds n, keys-filter-Distinct p ds h)
  | inr fails ↦ rw fails (keys-filter-Distinct p ds h)
]

module _ (key : String) where
  filters-changed :
      (given : List FilterConditionData) (before after : List FilterConditionData)
      → filter (has_key key) after ≡ given
      → filter (λ d. not (has_key key d)) after ≡ filter (λ d. not (has_key key d)) before
      → (k : String)
      → filter (has_key k) after ≡ (if str_eq k key then given else filter (has_key k) before)
  filters-changed given before after mine others k = elim (Bool-cases (str_eq k key)) [
    | inl same ↦ rw same (rw ((eq_iff k key).0 same) mine)
    | inr differ ↦
        rw differ
          (filter-kept (has_key k) _ (λ d. key_is-apart key k d.key differ) before after others)
  ]

  sort-changed :
      (sort : Option SortData) (before after : List SortData)
      → Replaced key sort before after
      → (k : String)
      → first (filter (sorts_by k) after)
        ≡ (if str_eq k key then sort else first (filter (sorts_by k) before))
  sort-changed sort before after (mine, others, distinct) k = elim (Bool-cases (str_eq k key)) [
    | inl same ↦ rw same (rw ((eq_iff k key).0 same) (ap first mine ∙ first-given sort))
    | inr differ ↦ rw differ (
        ap first
          (filter-kept (sorts_by k) _ (λ d. text-apart key k d.key differ) before after others))
  ]

  -- Resetting the sort of a key replaces it by none.
  pub reset-Replaced :
      (ds : List SortData)
      → Distinct (keys ds)
      → Replaced key none ds (filter (λ d. not (sorts_by key d)) ds)
  reset-Replaced ds distinct =
      let others = filter (λ d. not (sorts_by key d)) ds in
      (
        filter-refuses (sorts_by key) others (filter-All _ ds (λ d h. not-true _ h)),
        filter-accepts _ others (filter-All _ ds (λ d h. h)),
        keys-filter-Distinct _ ds distinct,
      )

  pub changed-view :
      (conditions : List FilterConditionData) (sort : Option SortData)
      (fs fs' : List FilterConditionData) (sorts sorts' : List SortData)
      → filter (has_key key) fs' ≡ map (with_key key) conditions
      → filter (λ d. not (has_key key d)) fs' ≡ filter (λ d. not (has_key key d)) fs
      → Replaced key sort sorts sorts'
      → view_of fs' sorts' ≡ change_view key conditions sort (view_of fs sorts)
  changed-view conditions sort fs fs' sorts sorts' mine others r = λ i. record {
    filters = λ k. filters-changed (map (with_key key) conditions) fs fs' mine others k i;
    sort = λ k. sort-changed sort sorts sorts' r k i;
  }
