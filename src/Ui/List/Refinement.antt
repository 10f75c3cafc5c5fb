-- ===== src/Ui/List/Refinement.antt =====
-- What a list asks its service for, as a map from the keys of the columns to their filters and sorts:
-- frontend/astiango-hub-ui/src/layouts/content/list/useList.ts over utils/store.ts.
use astiango_hub.Common.{
  not, ◌≡◌, refl, sym, ap, ◌∙◌, Option, none, some, List, append-nil, filter, Distinct,
}
use mathlib.Core.Path.{subst}
use astiango_hub.Ui.BaseStore.{BaseStoreState, FilterConditionData, SortData}
use astiango_hub.Ui.BaseStore.Mutations.{
  has_key, set_table_loading, set_table_list_filter_by_key, reset_table_list_filter_by_key,
  set_table_list_sort_by_key, reset_table_list_sort_by_key,
}
use astiango_hub.Ui.BaseStore.Filters.{set_table_list_filter_by_key_lem}
use astiango_hub.Ui.BaseStore.Sorts.{IsOf, keys, Replaced, set_table_list_sort_by_key_lem}
use astiango_hub.Ui.BaseStore.Actions.{start_list}
use astiango_hub.Ui.List.{
  TableColumn, TableHeaderDialogFilterData, commit_filter, commit_sort, commit_header,
  start_header_change,
}
use astiango_hub.Ui.List.Views.{
  view_of, asked, conditions_of, change_view, reset-Replaced, changed-view,
}

module _ {T C : Type 0} (column : TableColumn) where
  commit_filter-as_set :
      (f : Option TableHeaderDialogFilterData) (s : BaseStoreState T C)
      → commit_filter column f s
        ≡ set_table_list_filter_by_key column.key (conditions_of column f) s
  unfolding set_table_list_filter_by_key reset_table_list_filter_by_key
  commit_filter-as_set none s =
      ap (λ (l : List FilterConditionData). record s { table_list_filter = l }) (sym (append-nil _))
  commit_filter-as_set (some f) s = refl

  commit_sort-Replaced :
      (sort : Option SortData) (s : BaseStoreState T C)
      → IsOf column.key sort
      → Distinct (keys s.table_list_sort)
      → Replaced column.key sort s.table_list_sort (commit_sort column.key sort s).table_list_sort
  unfolding reset_table_list_sort_by_key
  commit_sort-Replaced none s e distinct = reset-Replaced column.key s.table_list_sort distinct
  commit_sort-Replaced (some sort) s e distinct =
      set_table_list_sort_by_key_lem column.key (some sort) s e distinct

  commit_sort-keeps :
      (sort : Option SortData) (s : BaseStoreState T C)
      → (commit_sort column.key sort s).table_list_filter ≡ s.table_list_filter
  unfolding reset_table_list_sort_by_key set_table_list_sort_by_key
  commit_sort-keeps none s = refl
  commit_sort-keeps (some sort) s = refl

  set_filter-keeps :
      (conditions : List FilterConditionData) (s : BaseStoreState T C)
      → (set_table_list_filter_by_key column.key conditions s).table_list_sort ≡ s.table_list_sort
  unfolding set_table_list_filter_by_key
  set_filter-keeps conditions s = refl

  commit_header-page :
      (sort : Option SortData) (f : Option TableHeaderDialogFilterData) (s : BaseStoreState T C)
      → (commit_header column sort f s).table_pagination.page ≡ s.table_pagination.page
  unfolding commit_header set_table_list_filter_by_key reset_table_list_filter_by_key
      reset_table_list_sort_by_key set_table_list_sort_by_key
  commit_header-page none none s = refl
  commit_header-page none (some f) s = refl
  commit_header-page (some sort) none s = refl
  commit_header-page (some sort) (some f) s = refl

  -- What a change of the header does to the filters and the sorts.
  pub commit_header-refines :
      (sort : Option SortData) (f : Option TableHeaderDialogFilterData) (s : BaseStoreState T C)
      → IsOf column.key sort
      → Distinct (keys s.table_list_sort)
      → let s' = commit_header column sort f s in
        (view_of s'.table_list_filter s'.table_list_sort
          ≡ change_view column.key
              (conditions_of column f)
              sort
              (view_of s.table_list_filter s.table_list_sort))
        × Distinct (keys s'.table_list_sort)
  unfolding commit_header
  commit_header-refines sort f s e distinct =
      let set = set_table_list_filter_by_key column.key (conditions_of column f) s in
      let filters : (commit_header column sort f s).table_list_filter ≡ set.table_list_filter =
        commit_sort-keeps sort (commit_filter column f s)
        ∙ ap (λ (u : BaseStoreState T C). u.table_list_filter) (commit_filter-as_set f s) in
      let kept : (commit_filter column f s).table_list_sort ≡ s.table_list_sort =
        ap (λ (u : BaseStoreState T C). u.table_list_sort) (commit_filter-as_set f s)
        ∙ set_filter-keeps (conditions_of column f) s in
      let (mine, others) = set_table_list_filter_by_key_lem column.key (conditions_of column f) s in
      let r : Replaced column.key sort s.table_list_sort
          (commit_header column sort f s).table_list_sort =
        subst (λ l. Replaced column.key sort l (commit_header column sort f s).table_list_sort) kept
          (commit_sort-Replaced sort (commit_filter column f s) e (rw kept distinct)) in
      (
        changed-view column.key (conditions_of column f) sort s.table_list_filter _
            s.table_list_sort _ (ap (filter (has_key column.key)) filters ∙ mine)
            (ap (filter (λ d. not (has_key column.key d))) filters ∙ others) r,
        r.2,
      )

  -- The request that follows a change of a header asks for the filters and the sorts as they were, with
  -- those of the key of the column replaced by the given ones, and the store has the same; it asks for
  -- the page that was shown before. No two sorts have the same key, if this held before and the given
  -- sort is one of the key.
  pub start_header_change-refines :
      (sort : Option SortData) (f : Option TableHeaderDialogFilterData) (s : BaseStoreState T C)
      → IsOf column.key sort
      → Distinct (keys s.table_list_sort)
      → let (params, s') = start_header_change column sort f s in
        let wanted =
          change_view column.key
            (conditions_of column f)
            sort
            (view_of s.table_list_filter s.table_list_sort) in
        (asked params ≡ wanted)
        × (view_of s'.table_list_filter s'.table_list_sort ≡ wanted)
        × (params.page ≡ some s.table_pagination.page)
        × Distinct (keys s'.table_list_sort)
  unfolding start_header_change start_list set_table_loading
  start_header_change-refines sort f s e distinct =
      let (same, apart) = commit_header-refines sort f s e distinct in
      (same, same, ap some (commit_header-page sort f s), apart)
