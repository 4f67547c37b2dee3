-- ===== src/Examples/Cells.antt =====
-- Single cells, declared types and bound parameters.
use rsqlite.Prelude.{
  ◌-◌, ◌^◌, ◌≡◌, ◌≢◌, ◌↔◌, refl, pos, negsuc, false, some, [], ◌∷◌, codes, true, arith,
}
use rsqlite.Outcome.{ok, stop, out_of_bounds}
use rsqlite.DataType.{DataType}
use rsqlite.Runtime.{na_integer, na_real}
use rsqlite.Storage.Blocks.{All, IsTyped, na_slot}
use rsqlite.Storage.Writing.{cell}
use rsqlite.Affinity.{to_lower, affinity_type, integer}
use rsqlite.Affinity.Table.{by_table, contains, starts, affinity_type-by_table}
use rsqlite.SqliteSource.{SqliteColumn, sqlite_source, datatype_from_decltype}
use rsqlite.SqliteSource.Types.{
  IsSqliteColumn, sqlite_source-IsTyped, decltype-by_table, declared_type, int_cell, IsShownAs,
  IsNaValue,
}
use rsqlite.Params
use rsqlite.Params.{Param, bind_value, double_value, validate_params, same_lengths}
use rsqlite.Params.Bounds.{validated_in_bounds, real_never_null}
use rsqlite.Examples.{plain_r, plain_boost, big, big-IsSqliteColumn}

abbrev least : SqliteColumn
least = record {
  column_type = 1;
  column_int = negsuc (2 ^ 31 - 1);
  column_int64 = negsuc (2 ^ 31 - 1);
  column_double = 0xC1E0000000000000;
  column_text = codes "-2147483648";
  column_blob = codes "-2147483648";
  column_decltype = some (codes "INTEGER");
}

least-IsSqliteColumn : IsSqliteColumn least
least-IsSqliteColumn = record { type_code = (omega arith, omega arith); narrow = λ h k. refl }

-- The INT of "POINT" comes before the text "FLOAT" is read.
affinity_type-by_table_example : affinity_type (some (codes "FLOATING POINT")) ≡ integer
unfolding by_table contains starts to_lower
affinity_type-by_table_example = affinity_type-by_table (codes "FLOATING POINT")

decltype-by_table_example :
    datatype_from_decltype plain_boost (some (codes "Double Precision")) false ≡ DataType.real
unfolding declared_type contains starts to_lower
decltype-by_table_example = decltype-by_table plain_boost (codes "Double Precision")

sqlite_source-IsTyped_example : IsTyped (sqlite_source plain_boost true big)
sqlite_source-IsTyped_example = sqlite_source-IsTyped plain_boost true big big-IsSqliteColumn

-- The least integer of 32 bits comes out as a missing value.
int_cell_example :
    let dt = (sqlite_source plain_boost false least).get_data_type in
    let shown = cell plain_r dt dt (sqlite_source plain_boost false least) in
    IsShownAs (negsuc (2 ^ 31 - 1)) dt shown
    × ((shown ≡ na_slot dt) ↔ IsNaValue (negsuc (2 ^ 31 - 1)))
int_cell_example = int_cell plain_r plain_boost least least-IsSqliteColumn refl

validated_in_bounds_example :
    All
      (λ (q : Param). bind_value q 1 ≢ stop out_of_bounds)
      (Params.int (pos 1 ∷ na_integer ∷ []) ∷ Params.real (0 ∷ na_real ∷ []) ∷ [])
validated_in_bounds_example =
    validated_in_bounds (Params.int (pos 1 ∷ na_integer ∷ [])) (Params.real (0 ∷ na_real ∷ []) ∷ [])
      1 (unfold validate_params same_lengths in refl) (omega arith)

real_never_null_example : bind_value (Params.real (0 ∷ na_real ∷ [])) 1 ≡ ok (double_value na_real)
real_never_null_example = real_never_null (0 ∷ na_real ∷ []) 1 na_real refl
