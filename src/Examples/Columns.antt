-- ===== src/Examples/Columns.antt =====
-- A column that is declared INTEGER and has the rows 7, NULL and 2^40.
use rsqlite.Prelude.{
  ℕ, zero, suc, ◌^◌, ◌≡◌, ◌≢◌, refl, pos, negsuc, List, [], ◌∷◌, ◌++◌, map, true, false, some,
  if◌then◌else◌,
}
use rsqlite.Outcome.{ok}
use rsqlite.DataType.{DataType}
use rsqlite.Runtime.{
  na_real, real, int, int64, unset, intsxp, realsxp, Sexp, na_integer, na_integer64,
}
use rsqlite.Source.{DataSource, Warning}
use rsqlite.Storage.{
  get_item_data_type, sexptype_from_datatype, Storage, Appended, new_storage, append_col,
}
use rsqlite.Storage.Blocks.{
  next_type, has_view, value_slot, value_warnings, All, IsBlock, IsTyped, fits, rows, shown, widen,
  na_slot,
}
use rsqlite.Storage.Copy.{copy_to}
use rsqlite.Storage.Growth.{new_storage-IsBlock}
use rsqlite.Storage.Layout.{copy_to_lem}
use rsqlite.Storage.Appending.{append_col-row}
use rsqlite.Storage.Writing.{cell, type_after, cell_warnings, shown_rows}
use rsqlite.Column.{
  DbColumn, initial_type, new_column, set_col_value, set_rows, finalize, to_sexp, get_type,
  warn_type_conflicts,
}
use rsqlite.Column.Mixed.{warn_type_conflicts_lem, mixed}
use rsqlite.Column.Message.{warning_of}
use rsqlite.Column.Contents.{IsColumn, contents, set_col_value-row}
use rsqlite.Column.Rows.{column_of_rows, new_column-IsColumn}
use rsqlite.Column.Reference.{final_type, type_of_rows, cells, warnings_of_rows}
use rsqlite.DataFrame.{Row, new_columns, set_all_rows, to_sexps}
use rsqlite.DataFrame.ByColumn.{
  IsTypedRow, ByColumn, frame_cells, frame_of_rows, set_all_rows-ByColumn,
}
use rsqlite.SqliteSource
use rsqlite.SqliteSource.{sqlite_source, type_of_value, needs_64_bit, get_decl_data_type}
use rsqlite.SqliteSource.Types.{sqlite_source-IsTyped, decl_type-known}
use rsqlite.Examples.{
  plain_r, plain_r-IsRuntime, plain_boost, seven, word, word-IsSqliteColumn, big, missing,
  seven-IsSqliteColumn, big-IsSqliteColumn, missing-IsSqliteColumn, source,
}

abbrev three : List DataSource
three = source seven ∷ source missing ∷ source big ∷ []

seven-IsTyped : IsTyped (source seven)
seven-IsTyped = sqlite_source-IsTyped plain_boost false seven seven-IsSqliteColumn

missing-IsTyped : IsTyped (source missing)
missing-IsTyped = sqlite_source-IsTyped plain_boost false missing missing-IsSqliteColumn

big-IsTyped : IsTyped (source big)
big-IsTyped = sqlite_source-IsTyped plain_boost false big big-IsSqliteColumn

three-IsTyped : All IsTyped three
three-IsTyped = (seven-IsTyped, (missing-IsTyped, (big-IsTyped, tt)))

declared : (source seven).get_decl_data_type ≢ DataType.unknown
declared = decl_type-known plain_boost false seven

column_of_rows_example :
    (col : DbColumn) × (v : Sexp) × (set_rows plain_r
        (new_column plain_r DataType.bool (negsuc 0) 0)
        three
      ≡ ok (col, []))
    × (to_sexp plain_r (finalize col 3) (source seven) ≡ ok v)
    × (v.type ≡ realsxp)
    × (v.slots ≡ int64 (pos 7) ∷ int64 na_integer64 ∷ int64 (pos (2 ^ 40)) ∷ [])
unfolding warnings_of_rows cell_warnings value_warnings final_type type_of_rows type_after next_type
    initial_type cells cell widen value_slot na_slot sexptype_from_datatype sqlite_source
    SqliteSource.get_data_type type_of_value needs_64_bit get_decl_data_type
column_of_rows_example =
    column_of_rows plain_r plain_r-IsRuntime DataType.bool (negsuc 0) 0 three (source seven)
      three-IsTyped declared

abbrev second_row : Row
second_row zero = source missing
second_row (suc j) = source big

abbrev by_two : List Row
by_two = (λ j. source seven) ∷ second_row ∷ []

by_two-IsTyped : All IsTypedRow by_two
by_two-IsTyped = ((λ j. seven-IsTyped), (two, tt))
  where
    two : (j : ℕ) → IsTyped (second_row j)
    two zero = missing-IsTyped
    two (suc j) = big-IsTyped

frame_of_rows_example :
    (ends : List DbColumn) × (w : List Warning) × (vs : List Sexp) × (set_all_rows plain_r
        (new_columns plain_r (pos 2) 0 (DataType.int ∷ DataType.int ∷ []))
        by_two
      ≡ ok (ends, w))
    × (to_sexps plain_r (map (λ c. finalize c 2) ends) (λ j. source seven) ≡ ok vs)
    × (map (λ (v : Sexp). v.slots) vs
        ≡ (int (pos 7) ∷ int na_integer ∷ []) ∷ (int64 (pos 7) ∷ int64 (pos (2 ^ 40)) ∷ []) ∷ [])
unfolding frame_cells final_type type_of_rows type_after next_type initial_type cells cell widen
    value_slot na_slot sqlite_source SqliteSource.get_data_type type_of_value needs_64_bit
    get_decl_data_type
frame_of_rows_example =
    frame_of_rows plain_r plain_r-IsRuntime (pos 2) (DataType.int ∷ DataType.int ∷ []) by_two
      (λ j. source seven) by_two-IsTyped (λ k. declared)

abbrev first_column : DbColumn
first_column = new_column plain_r DataType.int (pos 2) 0

abbrev two_columns : List DbColumn
two_columns = first_column ∷ new_column plain_r DataType.real (pos 2) 1 ∷ []

set_all_rows-ByColumn_example :
    (ends : List DbColumn) × (w : List Warning) × (set_all_rows plain_r (two_columns) by_two
      ≡ ok (ends, w))
    × ByColumn plain_r plain_r-IsRuntime by_two two_columns ends
set_all_rows-ByColumn_example =
    set_all_rows-ByColumn plain_r plain_r-IsRuntime two_columns by_two
      (
        new_column-IsColumn plain_r plain_r-IsRuntime DataType.int (pos 2) 0,
        (new_column-IsColumn plain_r plain_r-IsRuntime DataType.real (pos 2) 1, tt),
      )
      by_two-IsTyped

-- An empty block of 32-bit integers that has room for one row.
abbrev block : Storage
block = new_storage plain_r DataType.int 1 (pos 1)

block-IsBlock : IsBlock block
block-IsBlock = new_storage-IsBlock plain_r plain_r-IsRuntime DataType.int 1 (pos 1)

append_col-row_example :
    (a : Appended) × (append_col plain_r block (source big) ≡ ok a)
    × IsBlock a.storage
    × (a.storage.dt ≡ DataType.int64)
    × (a.warnings ≡ [])
    × (shown_rows plain_r DataType.int64 a.storage
        ≡ (if a.is_new then [] else []) ++ (int64 (pos (2 ^ 40)) ∷ []))
unfolding type_after next_type cell_warnings value_warnings cell widen value_slot sqlite_source
    SqliteSource.get_data_type type_of_value needs_64_bit get_decl_data_type new_storage rows
append_col-row_example =
    append_col-row plain_r plain_r-IsRuntime block (source big) DataType.int64 block-IsBlock
      big-IsTyped fits_64
  where
    fits_64 : fits (type_after block.dt (source big)) DataType.int64 ≡ true
    fits_64 = unfold fits in refl

set_col_value-row_example :
    (next : DbColumn) × (set_col_value plain_r first_column (source seven) ≡ ok (next, []))
    × IsColumn next
    × (next.j ≡ 0)
    × (next.last.dt ≡ DataType.int)
    × (contents plain_r DataType.real next
        ≡ contents plain_r DataType.real first_column ++ (real 0x401C000000000000 ∷ []))
unfolding type_after next_type cell_warnings value_warnings cell widen value_slot sqlite_source
    SqliteSource.get_data_type type_of_value needs_64_bit get_decl_data_type new_column new_storage
    initial_type
set_col_value-row_example =
    set_col_value-row plain_r plain_r-IsRuntime first_column (source seven) DataType.real
      (new_column-IsColumn plain_r plain_r-IsRuntime DataType.int (pos 2) 0) seven-IsTyped
      (unfold fits in refl)

-- A block with the rows 7 and then, beyond its one slot, a missing value.
abbrev overfull : Storage
overfull = record {
  block = record { type = intsxp; slots = int (pos 7) ∷ []; attributes = [] };
  i = 2;
  dt = DataType.int;
  n_max = pos 1;
}

overfull-IsBlock : IsBlock overfull
overfull-IsBlock =
    unfold sexptype_from_datatype has_view in
    record { kind = refl; views = (refl, tt); empty = λ e. cc }

copy_to_lem_example :
    copy_to plain_r overfull
      (record { type = realsxp; slots = unset ∷ unset ∷ unset ∷ []; attributes = [] })
      DataType.real
      1
    ≡ ok (
      record {
        type = realsxp;
        slots = unset ∷ real 0x401C000000000000 ∷ real na_real ∷ [];
        attributes = [];
      },
      2,
    )
unfolding rows shown widen na_slot
copy_to_lem_example =
    copy_to_lem plain_r plain_r-IsRuntime overfull DataType.real overfull-IsBlock
      (unfold fits in refl) 1
      (record { type = realsxp; slots = unset ∷ unset ∷ unset ∷ []; attributes = [] }) (unset ∷ [])
      (unset ∷ unset ∷ []) [] (λ e. cc) (unfold sexptype_from_datatype in refl) refl refl refl

-- A text in a column of integers.
abbrev two : List DataSource
two = source seven ∷ source word ∷ []

two-IsTyped : All IsTyped two
two-IsTyped =
    (seven-IsTyped, (sqlite_source-IsTyped plain_boost false word word-IsSqliteColumn, tt))

abbrev filled : DbColumn
filled =
    (column_of_rows plain_r plain_r-IsRuntime DataType.bool (negsuc 0) 0 two (source seven)
      two-IsTyped declared).0

warn_type_conflicts_lem_example :
    warn_type_conflicts filled (source seven) "a"
    ≡ warning_of "a"
        (get_type filled (source seven))
        (mixed plain_r (get_type filled (source seven)) two)
warn_type_conflicts_lem_example =
    warn_type_conflicts_lem plain_r DataType.bool (negsuc 0) 0 two filled
      (warnings_of_rows (initial_type DataType.bool) two) (source seven) "a"
      (column_of_rows plain_r plain_r-IsRuntime DataType.bool (negsuc 0) 0 two (source seven)
        two-IsTyped declared).2

-- What it says for the types of these cells in a column of integers.
mixed-two :
    warning_of "a" DataType.int (mixed plain_r DataType.int two)
    ≡ some (
        "Column `" ∷ "a" ∷ "`: " ∷ "mixed type, first seen values of type " ∷ "integer" ∷ ", "
        ∷ "coercing other values of type " ∷ "string" ∷ [])
unfolding sqlite_source get_item_data_type SqliteSource.get_data_type type_of_value needs_64_bit
    get_decl_data_type
mixed-two = refl
