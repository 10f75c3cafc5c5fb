-- ===== src/Ui/List/Defaults.antt =====
-- The sort that the dialog of a header fills in:
-- frontend/astiango-hub-ui/src/components/ui/table/TableHeaderDialog.vue.
use astiango_hub.Common.{
  ◌≡◌, refl, ap, ◌∙◌, true, false, none, some, [], ◌∷◌, filter, Distinct, eq_refl,
}
use astiango_hub.Ui.BaseStore.{BaseStoreState}
use astiango_hub.Ui.BaseStore.Mutations.{sorts_by}
use astiango_hub.Ui.BaseStore.Sorts.{keys}
use astiango_hub.Ui.List.{TableColumn, TableHeaderDialogFilterData}
use astiango_hub.Ui.List.Header.{
  Header, filter_clicked, filter_chosen, apply_clicked, default_internal_sort, step, open_filter,
  on_filter_change, apply, on_dialog_apply, hide_dialog,
}
use astiango_hub.Ui.List.Views.{first}
use astiango_hub.Ui.List.Refinement.{commit_header-refines}
use astiango_hub.Ui.List.Agreement.{at_header, run}

-- Choosing a filter and nothing else marks the header as sorted, and gives the list a sort by the column
-- that has no direction, if the dialog was hidden, the header had no sort, and no two sorts had the same
-- key.
pub filter_alone :
    {T C : Type 0} (column : TableColumn) (f : TableHeaderDialogFilterData) (h : Header)
    (s : BaseStoreState T C)
    → h.dialog_visible ≡ false
    → h.sort_data ≡ none
    → Distinct (keys s.table_list_sort)
    → let (h', s') =
        run column
          (at_header filter_clicked ∷ at_header (filter_chosen f) ∷ at_header apply_clicked ∷ [])
          h
          s in
      (h'.sort_active ≡ true)
      × (first (filter (sorts_by column.key) s'.table_list_sort)
          ≡ some (default_internal_sort column.key))
unfolding run step open_filter on_filter_change apply on_dialog_apply hide_dialog
filter_alone column f h s hidden unsorted distinct =
    let (same, _) =
      commit_header-refines column (some (default_internal_sort column.key)) (some f) s refl
        distinct in
    rw (hidden, unsorted) (refl, ap (λ v. v.sort column.key) same ∙ rw (eq_refl column.key) refl)
