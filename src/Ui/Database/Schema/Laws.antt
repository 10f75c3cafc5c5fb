-- ===== src/Ui/Database/Schema/Laws.antt =====
-- What the editor of columns keeps and what it loses:
-- frontend/astiango-hub-ui/src/utils/database.ts and
-- components/core/database/tables/DatabaseTableDetailColumns.vue.
use astiango_hub.Common.{
  ℕ, suc, ◌+◌, ◌≡◌, refl, sym, ap, ◌∙◌, ◌⊎◌, inl, inr, append_assoc, Bool, true, false, Bool-cases,
  Option, none, some, List, [], ◌∷◌, ◌++◌, All, length, String, eq_refl, get_elem?, modify_at,
}
use astiango_hub.Common.Arrays.Laws.{get_elem?-append_right}
use astiango_hub.Common.Arrays.Behind.{
  get_elem?-behind, modify_at-behind, remove_at-behind, find_index-behind,
}
use astiango_hub.Ui.Database.{
  ItemStatus, new, updated, deleted, DatabaseColumn, DatabaseTable, eq_opt_str, eq_opt_bool, or_nil,
}
use astiango_hub.Ui.Database.Schema.{
  any, is_some, unless_fixed, same_column, get_column_status, has_columns_change, has_name,
  with_status, delete_column, revert_column,
}

eq_opt_str_refl : (s : Option String) → eq_opt_str s s ≡ true
unfolding eq_opt_str
eq_opt_str_refl none = refl
eq_opt_str_refl (some s) = eq_refl s

eq_opt_bool_refl : (b : Option Bool) → eq_opt_bool b b ≡ true
unfolding eq_opt_bool
eq_opt_bool_refl none = refl
eq_opt_bool_refl (some true) = refl
eq_opt_bool_refl (some false) = refl

same_column_refl : (c : DatabaseColumn) → same_column c c ≡ true
unfolding same_column
same_column_refl c =
    rw
      (
        eq_opt_str_refl c.name,
        eq_opt_str_refl c.col_type,
        eq_opt_bool_refl c.not_null,
        eq_opt_str_refl c.default_value,
        eq_opt_bool_refl c.primary,
        eq_opt_bool_refl c.auto_increment,
      )
      refl

any-found :
    (p : DatabaseColumn → Bool) (before : List DatabaseColumn) (c : DatabaseColumn)
    (rest : List DatabaseColumn)
    → p c ≡ true
    → any p (before ++ c ∷ rest) ≡ true
unfolding any
any-found p [] c rest h = rw h refl
any-found p (d ∷ before) c rest h = elim (Bool-cases (p d)) [
  | inl here ↦ rw here refl
  | inr other ↦ rw other (any-found p before c rest h)
]

-- Neither new nor deleted.
abbrev IsKept : DatabaseColumn → Type 0
IsKept c = (c.status ≡ none) ⊎ (c.status ≡ some updated)

unless_fixed_kept :
    (s : Option ItemStatus) → (s ≡ none) ⊎ (s ≡ some updated) → unless_fixed s true ≡ none
unless_fixed_kept s (inl e) = rw e refl
unless_fixed_kept s (inr e) = rw e refl

no_change :
    (before rest : List DatabaseColumn) (original : DatabaseTable)
    → or_nil original.columns ≡ before ++ rest
    → All IsKept rest
    → any (λ c. is_some (get_column_status c (some original))) rest ≡ false
unfolding any get_column_status
no_change before [] original e h = refl
no_change before (c ∷ rest) original e (kept, h) =
    let found : any (same_column c) (or_nil original.columns) ≡ true =
      rw e (any-found (same_column c) before c rest (same_column_refl c)) in
    let here = ap (unless_fixed c.status) found ∙ unless_fixed_kept c.status kept in
    rw here
      (no_change (before ++ c ∷ []) rest original (e ∙ sym (append_assoc before (c ∷ []) rest)) h)

-- A table that was not edited, as after a rollback, shows no change of its columns.
pub has_columns_change-rollback :
    (t : DatabaseTable)
    → All IsKept (or_nil t.columns)
    → has_columns_change (some t) (some t) ≡ false
unfolding has_columns_change
has_columns_change-rollback t h = no_change [] (or_nil t.columns) t refl h

module _ (before : List DatabaseColumn) (c : DatabaseColumn) (rest : List DatabaseColumn) where
  -- A column that was not new is as it was after it is deleted and reverted.
  pub revert_column-delete_column :
      c.status ≡ none
      → revert_column (length before) (delete_column (length before) (before ++ c ∷ rest))
        ≡ before ++ c ∷ rest
  unfolding revert_column delete_column
  revert_column-delete_column fresh =
      let marked : delete_column (length before) (before ++ c ∷ rest)
          ≡ before ++ with_status (some deleted) c ∷ rest =
        rw (get_elem?-behind before c rest, fresh)
          (modify_at-behind (with_status (some deleted)) before c rest) in
      ap (modify_at (length before) (with_status none)) marked
      ∙ modify_at-behind (with_status none) before (with_status (some deleted) c) rest
      ∙ ap (λ (u : Option ItemStatus). before ++ with_status u c ∷ rest) (sym fresh)

  -- Deleting a new column that has the name of a column which stands before it, the first of that name,
  -- removes that one from the table, so that it is not sent either, and keeps the new one.
  pub delete_column-namesake :
      (k : ℕ) (n : DatabaseColumn)
      → get_elem? rest k ≡ some n
      → n.status ≡ some new
      → c.name ≡ n.name
      → All (λ d. has_name n.name d ≡ false) before
      → delete_column (length before + suc k) (before ++ c ∷ rest) ≡ before ++ rest
  unfolding delete_column get_elem?
  delete_column-namesake k n at is_new same absent =
      let found =
        find_index-behind (has_name n.name) before c rest absent
          (ap (λ (m : Option String). eq_opt_str m n.name) same ∙ eq_opt_str_refl n.name) in
      rw (get_elem?-append_right before (c ∷ rest) (suc k), at, is_new, found)
        (remove_at-behind before c rest)
