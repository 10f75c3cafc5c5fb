-- ===== src/Ui/List/Agreement.antt =====
-- The header of a column and the store of the list, through what the user does:
-- frontend/astiango-hub-ui/src/components/ui/table/TableHeader.vue with
-- layouts/content/list/useList.ts.
use astiango_hub.Common.{
  String, Bool, true, false, ◌≡◌, ◌≢◌, refl, sym, ap, ◌∙◌, inl, inr, Option, none, some, List, [],
  ◌∷◌, map, str_eq, filter, Bool-cases, Distinct, All, eq_iff, eq_refl,
}
use astiango_hub.Ui.BaseStore.{BaseStoreState, SortData}
use astiango_hub.Ui.BaseStore.Mutations.{has_key, with_key, sorts_by}
use astiango_hub.Ui.BaseStore.Sorts.{IsOf, keys}
use astiango_hub.Ui.List.{TableColumn, TableHeaderDialogFilterData, commit_header}
use astiango_hub.Ui.List.Header.{
  Header, Change, sort_or_default, HeaderEvent, sort_clicked, filter_clicked, sort_chosen,
  filter_chosen, apply_clicked, clear_clicked, cancel_clicked, step, apply, clear, clear_dialog,
  hide_dialog, on_dialog_apply, open_sort, open_filter, on_sort_change, on_filter_change,
  is_empty_filter, apply_or_clear,
}
use astiango_hub.Ui.List.Views.{first, conditions_of}
use astiango_hub.Ui.List.Refinement.{commit_header-refines}

-- What happens at a table: something at the header of the column, or a change by another column.
pub data TableEvent : Type 0 where
  at_header : HeaderEvent → TableEvent
  elsewhere : TableColumn → Option SortData → Option TableHeaderDialogFilterData → TableEvent

-- A change by another column, with a sort of that column.
abbrev pub IsElsewhere : String → TableEvent → Type 0
IsElsewhere key (at_header e) = Unit
IsElsewhere key (elsewhere column sort f) = (key ≢ column.key) × IsOf column.key sort

module _ (column : TableColumn) where
  -- What a step of the header tells is what it shows next, and without a change it shows the same.
  abbrev Tells : Change → Header → Header → Type 0
  Tells none h h' = (h'.sort_data ≡ h.sort_data) × (h'.filter_data ≡ h.filter_data)
  Tells (some (sort, f)) h h' = (h'.sort_data ≡ sort) × (h'.filter_data ≡ f) × IsOf column.key sort

  -- The sorts in the header are of its column.
  abbrev pub IsOwn : Header → Type 0
  IsOwn h = IsOf column.key h.internal_sort × IsOf column.key h.sort_data

  sort_or_default-IsOf :
      (sort : Option SortData)
      → IsOf column.key sort
      → (sort_or_default column.key sort).key ≡ column.key
  sort_or_default-IsOf none e = refl
  sort_or_default-IsOf (some sort) e = e

  clear-Tells :
      (h : Header)
      → IsOwn h
      → Tells (clear column.key h).0 h (clear column.key h).1 × IsOwn (clear column.key h).1
  unfolding clear clear_dialog hide_dialog
  clear-Tells h (i, e) = ((refl, refl, tt), (sort_or_default-IsOf h.internal_sort i, tt))

  on_dialog_apply-Tells :
      (sort : Option SortData) (f : Option TableHeaderDialogFilterData) (h : Header)
      → IsOf column.key sort
      → IsOwn h
      → Tells (on_dialog_apply sort f h).0 h (on_dialog_apply sort f h).1
        × IsOwn (on_dialog_apply sort f h).1
  unfolding on_dialog_apply clear_dialog hide_dialog
  on_dialog_apply-Tells none none h e (i, own) = ((refl, refl, tt), (i, tt))
  on_dialog_apply-Tells none (some f) h e (i, own) = ((refl, refl, tt), (i, tt))
  on_dialog_apply-Tells (some sort) none h e (i, own) = ((refl, refl, e), (i, e))
  on_dialog_apply-Tells (some sort) (some f) h e (i, own) = ((refl, refl, e), (i, e))

  apply_or_clear-Tells :
      (sort : Option SortData) (b : Bool) (h : Header)
      → IsOwn h
      → Tells (apply_or_clear sort b column.key h).0 h (apply_or_clear sort b column.key h).1
        × IsOwn (apply_or_clear sort b column.key h).1
  apply_or_clear-Tells none true h own = clear-Tells h own
  apply_or_clear-Tells none false h own =
      on_dialog_apply-Tells h.internal_sort h.internal_filter h own.0 own
  apply_or_clear-Tells (some sort) b h own =
      on_dialog_apply-Tells h.internal_sort h.internal_filter h own.0 own

  step-Tells :
      (e : HeaderEvent) (h : Header)
      → IsOwn h
      → Tells (step column.key e h).0 h (step column.key e h).1 × IsOwn (step column.key e h).1
  unfolding step open_sort open_filter on_sort_change on_filter_change apply hide_dialog
  step-Tells sort_clicked h (i, own) = elim (Bool-cases h.dialog_visible) [
    | inl visible ↦ rw visible ((refl, refl), (i, own))
    | inr hidden ↦ rw hidden ((refl, refl), (sort_or_default-IsOf h.sort_data own, own))
  ]
  step-Tells filter_clicked h (i, own) = elim (Bool-cases h.dialog_visible) [
    | inl visible ↦ rw visible ((refl, refl), (i, own))
    | inr hidden ↦ rw hidden ((refl, refl), (sort_or_default-IsOf h.sort_data own, own))
  ]
  step-Tells (sort_chosen d) h (i, own) =
      ((refl, refl), (sort_or_default-IsOf h.internal_sort i, own))
  step-Tells (filter_chosen f) h own = ((refl, refl), own)
  step-Tells apply_clicked h own =
      apply_or_clear-Tells h.internal_sort (is_empty_filter h.internal_filter) h own
  step-Tells clear_clicked h own = clear-Tells h own
  step-Tells cancel_clicked h own = ((refl, refl), own)

module _ {T C : Type 0} (column : TableColumn) where
  abbrev commit_change : Change → BaseStoreState T C → BaseStoreState T C
  commit_change none s = s
  commit_change (some (sort, f)) s = commit_header column sort f s

  unfoldable pub run : List TableEvent → Header → BaseStoreState T C → Header × BaseStoreState T C
  unfolding step commit_header
  run [] h s = (h, s)
  run (at_header e ∷ events) h s =
      let (change, h') = step column.key e h in run events h' (commit_change change s)
  run (elsewhere other sort f ∷ events) h s = run events h (commit_header other sort f s)

  -- The list has the filters and the sort that the header shows.
  abbrev pub Agrees : Header → BaseStoreState T C → Type 0
  Agrees h s =
      (filter (has_key column.key) s.table_list_filter
        ≡ map (with_key column.key) (conditions_of column h.filter_data))
      × (first (filter (sorts_by column.key) s.table_list_sort) ≡ h.sort_data)

  commit_change-Agrees :
      (c : Change) (h h' : Header) (s : BaseStoreState T C)
      → Tells column c h h'
      → Distinct (keys s.table_list_sort)
      → Agrees h s
      → Agrees h' (commit_change c s) × Distinct (keys (commit_change c s).table_list_sort)
  commit_change-Agrees none h h' s (sd, fd) distinct (a, b) = ((rw fd a, b ∙ sym sd), distinct)
  commit_change-Agrees (some (sort, f)) h h' s (sd, fd, e) distinct agree =
      let (same, distinct') = commit_header-refines column sort f s e distinct in
      let here = eq_refl column.key in
      (
        (
          rw fd (ap (λ v. v.filters column.key) same ∙ rw here refl),
          ap (λ v. v.sort column.key) same ∙ rw here (sym sd),
        ),
        distinct',
      )

  elsewhere-Agrees :
      (other : TableColumn) (sort : Option SortData) (f : Option TableHeaderDialogFilterData)
      (h : Header) (s : BaseStoreState T C)
      → column.key ≢ other.key
      → IsOf other.key sort
      → Distinct (keys s.table_list_sort)
      → Agrees h s
      → Agrees h (commit_header other sort f s)
        × Distinct (keys (commit_header other sort f s).table_list_sort)
  elsewhere-Agrees other sort f h s apart e distinct (a, b) =
      let (same, distinct') = commit_header-refines other sort f s e distinct in
      elim (Bool-cases (str_eq column.key other.key)) [
        | inl equal ↦ absurd (apart ((eq_iff column.key other.key).0 equal))
        | inr differ ↦ (
          (
            ap (λ v. v.filters column.key) same ∙ rw differ a,
            ap (λ v. v.sort column.key) same ∙ rw differ b,
          ),
          distinct',
        )
      ]

  -- Through whatever the user does at the header of a column, and at others, the filters and the sort
  -- that the list has under the key of the column are those that its header shows, if this held at the
  -- start, where no two sorts had the same key and the sorts of the header were of its column.
  pub run-Agrees :
      (events : List TableEvent) (h : Header) (s : BaseStoreState T C)
      → All (IsElsewhere column.key) events
      → IsOwn column h
      → Distinct (keys s.table_list_sort)
      → Agrees h s
      → let (h', s') = run events h s in Agrees h' s'
  unfolding run
  run-Agrees [] h s others own distinct agree = agree
  run-Agrees (at_header e ∷ events) h s (here, others) own distinct agree =
      let (told, own') = step-Tells column e h own in
      let (agree', distinct') =
        commit_change-Agrees (step column.key e h).0 h (step column.key e h).1 s told distinct
          agree in
      run-Agrees events _ _ others own' distinct' agree'
  run-Agrees (elsewhere other sort f ∷ events) h s ((apart, e), others) own distinct agree =
      let (agree', distinct') = elsewhere-Agrees other sort f h s apart e distinct agree in
      run-Agrees events h _ others own distinct' agree'
