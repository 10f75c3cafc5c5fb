-- ===== src/Ui/Database/Tests.antt =====
-- Examples of the editor of database tables.
use astiango_hub.Common.{
  ◌≡◌, refl, get_elem?, find_index, insert_at, true, false, none, some, [], ◌∷◌, codes,
}
use astiango_hub.Ui.Database.{eq_opt_str, updated, DatabaseColumn, DatabaseTable}
use astiango_hub.Ui.Database.DataTypes.{number, get_data_type, get_data_type-int}
use astiango_hub.Ui.Database.Schema.{
  blank_column, has_columns_change, delete_column, revert_column, add_column_beside,
}
use astiango_hub.Ui.Database.Schema.Laws.{revert_column-delete_column, delete_column-namesake}

abbrev id_column : DatabaseColumn
id_column = record {
  name = some "id";
  col_type = some "int";
  not_null = some true;
  default_value = none;
  primary = some true;
  auto_increment = some true;
  status = none;
}

abbrev title_column : DatabaseColumn
title_column = record {
  name = some "title";
  col_type = some "text";
  not_null = some false;
  default_value = some "";
  primary = none;
  auto_increment = none;
  status = some updated;
}

abbrev pages : DatabaseTable
pages = record {
  name = some "pages";
  columns = some (id_column ∷ title_column ∷ []);
  indexes = none;
}

abbrev second_id : DatabaseColumn
second_id = record blank_column { name = some "id" }

abbrev renamed : DatabaseTable
renamed = record pages {
  columns = some (id_column ∷ record title_column { name = some "name" } ∷ []);
}

has_columns_change-renamed : has_columns_change (some renamed) (some pages) ≡ true
unfolding has_columns_change
has_columns_change-renamed = refl

add_column_beside-first : add_column_beside 0 true (id_column ∷ []) ≡ blank_column ∷ id_column ∷ []
unfolding add_column_beside get_elem? find_index eq_opt_str insert_at
add_column_beside-first = refl

revert_column-delete_column_example :
    revert_column 1 (delete_column 1 (title_column ∷ id_column ∷ blank_column ∷ []))
    ≡ title_column ∷ id_column ∷ blank_column ∷ []
revert_column-delete_column_example =
    revert_column-delete_column (title_column ∷ []) id_column (blank_column ∷ []) refl

delete_column-namesake_example :
    delete_column 2 (title_column ∷ id_column ∷ second_id ∷ []) ≡ title_column ∷ second_id ∷ []
unfolding get_elem? eq_opt_str
delete_column-namesake_example =
    delete_column-namesake (title_column ∷ []) id_column (second_id ∷ []) 0 second_id refl refl refl
      (refl, tt)

get_data_type-int_example : get_data_type (codes "int[]") ≡ number
get_data_type-int_example = get_data_type-int (codes "[]")
