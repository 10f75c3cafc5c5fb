-- ===== src/Ui/List/Header.antt =====
-- The header of a column, with its dialog:
-- frontend/astiango-hub-ui/src/components/ui/table/TableHeader.vue and TableHeaderDialog.vue.
use astiango_hub.Common.{
  String, Bool, true, false, not, ◌&&◌, Option, none, some, List, [], ◌∷◌, str_eq, filter,
  if◌then◌else◌,
}
use astiango_hub.Ui.BaseStore.{SortData}
use astiango_hub.Ui.BaseStore.Actions.{rows_of}
use astiango_hub.Ui.List.{TableHeaderDialogFilterData, is_set}

-- The state of the header, and in the dialog the sort and the filter that are not applied yet.
pub record Header : Type 0 where
  pub dialog_visible : Bool
  pub filter_active : Bool
  pub filter_focused : Bool
  pub sort_active : Bool
  pub sort_focused : Bool
  pub sort_data : Option SortData
  pub filter_data : Option TableHeaderDialogFilterData
  pub internal_sort : Option SortData
  pub internal_filter : Option TableHeaderDialogFilterData

abbrev pub new_header : Header
new_header = record {
  dialog_visible = false;
  filter_active = false;
  filter_focused = false;
  sort_active = false;
  sort_focused = false;
  sort_data = none;
  filter_data = none;
  internal_sort = none;
  internal_filter = none;
}

-- What the header tells the list: the sort and the filter of a change, if there is one.
abbrev pub Change : Type 0
Change = Option (Option SortData × Option TableHeaderDialogFilterData)

abbrev pub default_internal_sort : String → SortData
default_internal_sort key = record { key = key; d = none }

abbrev pub sort_or_default : String → Option SortData → SortData
sort_or_default key none = default_internal_sort key
sort_or_default key (some sort) = sort

abbrev is_filled : Option String → Bool
is_filled none = false
is_filled (some s) = not (str_eq s "")

abbrev is_nil {ℓ} : {A : Type ℓ} → List A → Bool
is_nil [] = true
is_nil (x ∷ xs) = false

unfoldable pub is_empty_filter : Option TableHeaderDialogFilterData → Bool
is_empty_filter none = true
is_empty_filter (some f) =
    not (is_filled f.search_string)
    && is_nil (filter is_set (rows_of f.conditions))
    && is_nil (rows_of f.items)

-- The clicks on the two icons. When the dialog is shown, its watcher takes the data of the header.
abbrev show_dialog : String → Header → Header
show_dialog key h = if h.dialog_visible then h else record h {
  dialog_visible = true;
  internal_sort = some (sort_or_default key h.sort_data);
  internal_filter = h.filter_data;
}

unfoldable pub open_sort : String → Header → Header
open_sort key h = record (show_dialog key h) { sort_focused = true }

unfoldable pub open_filter : String → Header → Header
open_filter key h = record (show_dialog key h) { filter_focused = true }

unfoldable pub hide_dialog : Header → Header
hide_dialog h = record h { dialog_visible = false; filter_focused = false; sort_focused = false }

unfoldable pub clear_dialog : Header → Change × Header
unfolding hide_dialog
clear_dialog h = (
  some (none, none),
  hide_dialog (record h {
    filter_active = false;
    sort_active = false;
    sort_data = none;
    filter_data = none;
  }),
)

-- `clear()` of the dialog, which leads to `onDialogClear`.
unfoldable pub clear : String → Header → Change × Header
unfolding clear_dialog
clear key h = clear_dialog (record h {
  internal_sort = some (record (sort_or_default key h.internal_sort) { d = none });
  internal_filter = none;
})

abbrev applied : Option SortData → Option TableHeaderDialogFilterData → Header → Header
applied sort f h = record h {
  sort_active = elim sort [ none ↦ h.sort_active | some _ ↦ true ];
  filter_active = elim f [ none ↦ h.filter_active | some _ ↦ true ];
  sort_data = sort;
  filter_data = f;
}

unfoldable pub on_dialog_apply :
    Option SortData → Option TableHeaderDialogFilterData → Header → Change × Header
unfolding clear_dialog hide_dialog
on_dialog_apply none none h = clear_dialog (applied none none h)
on_dialog_apply sort f h = (some (sort, f), hide_dialog (applied sort f h))

abbrev pub apply_or_clear : Option SortData → Bool → String → Header → Change × Header
apply_or_clear none true key h = clear key h
apply_or_clear _ _ key h = on_dialog_apply h.internal_sort h.internal_filter h

-- `apply()` of the dialog, which leads to `onDialogApply`, or to `onDialogClear`.
unfoldable pub apply : String → Header → Change × Header
unfolding clear on_dialog_apply is_empty_filter
apply key h = apply_or_clear h.internal_sort (is_empty_filter h.internal_filter) key h

unfoldable pub on_sort_change : String → Option String → Header → Header
on_sort_change key d h = record h {
  internal_sort = some (record (sort_or_default key h.internal_sort) { d = d });
}

unfoldable pub on_filter_change : TableHeaderDialogFilterData → Header → Header
on_filter_change f h = record h { internal_filter = some f }

-- What the user does at the header of a column.
pub data HeaderEvent : Type 0 where
  sort_clicked : HeaderEvent
  filter_clicked : HeaderEvent
  sort_chosen : Option String → HeaderEvent
  filter_chosen : TableHeaderDialogFilterData → HeaderEvent
  apply_clicked : HeaderEvent
  clear_clicked : HeaderEvent
  cancel_clicked : HeaderEvent

unfoldable pub step : String → HeaderEvent → Header → Change × Header
unfolding open_sort open_filter on_sort_change on_filter_change apply clear hide_dialog
step key sort_clicked h = (none, open_sort key h)
step key filter_clicked h = (none, open_filter key h)
step key (sort_chosen d) h = (none, on_sort_change key d h)
step key (filter_chosen f) h = (none, on_filter_change f h)
step key apply_clicked h = apply key h
step key clear_clicked h = clear key h
step key cancel_clicked h = (none, hide_dialog h)
