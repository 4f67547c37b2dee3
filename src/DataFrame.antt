-- ===== src/DataFrame.antt =====
-- src/DbDataFrame.cpp and .h (and src/SqliteDataFrame.cpp, which only passes its arguments on): the
-- columns of a result under way. A row is the function that gives each column index its cell.
pub mod ByColumn
pub mod NoRows
pub mod Typing
use rsqlite.Prelude.{
  ℕ, zero, suc, ◌%◌, ℤ, pos, ltb_ℤ, String, Bool, true, ◌&&◌, ◌||◌, Option, none, some, List, [],
  ◌∷◌, ◌++◌, map, ◌==◌, length, if◌then◌else◌,
}
use rsqlite.Outcome.{Result, ok, stop, ◌>>=◌, interrupted}
use rsqlite.DataType.{DataType}
use rsqlite.Runtime.{Sexp, Runtime}
use rsqlite.Source.{DataSource, Warning}
use rsqlite.Column.{
  DbColumn, new_column, set_col_value, finalize, get_type, to_sexp, warn_type_conflicts,
}

abbrev pub Row : Type 0
Row = ℕ → DataSource

pub record DbDataFrame : Type 0 where
  pub n_max : ℤ
  pub i : ℕ
  pub columns : List DbColumn
  pub names : List String

-- What R gets: the columns, their names, and `row.names = c(NA, -i)`, which makes `i` rows.
pub record RDataFrame : Type 0 where
  pub columns : List Sexp
  pub names : List String
  pub row_count : ℕ

-- the result of get_data(types_): the frame, the new types and the warnings on mixed types
pub record FrameData : Type 0 where
  pub frame : RDataFrame
  pub types : List DataType
  pub conflicts : List (List String)

-- advance(); R looks for a user interrupt at every 1024th row.
unfoldable pub advance : Bool → DbDataFrame → Result (DbDataFrame × Bool)
advance interrupt df =
    let i = suc df.i in
    if (i % 1024 == 0) && interrupt
    then stop interrupted
    else ok (record df { i = i }, ltb_ℤ df.n_max (pos 0) || ltb_ℤ (pos i) df.n_max)

unfoldable pub finalize_cols : DbDataFrame → DbDataFrame
finalize_cols df = record df { columns = map (λ col. finalize col df.i) df.columns }

unfoldable pub get_ncols : DbDataFrame → ℕ
get_ncols df = length df.columns

unfoldable pub warn_columns : List DbColumn → List String → Row → List (List String)
warn_columns [] names row = []
warn_columns (col ∷ columns) [] row = []
warn_columns (col ∷ columns) (name ∷ names) row =
    elim (warn_type_conflicts col (row col.j) name) [ none ↦ [] | some w ↦ w ∷ [] ]
    ++ warn_columns columns names row

-- The types that get_data(types_) writes, before it converts any column.
abbrev pub column_types : DbDataFrame → Row → List DataType
column_types df row = map (λ (col : DbColumn). get_type col (row col.j)) (finalize_cols df).columns

module _ (rt : Runtime) where
  unfoldable pub new_columns : ℤ → ℕ → List DataType → List DbColumn
  new_columns n_max j [] = []
  new_columns n_max j (dt ∷ types) = new_column rt dt n_max j ∷ new_columns n_max (suc j) types

  -- the constructor
  unfoldable pub new_data_frame : List String → ℤ → List DataType → DbDataFrame
  new_data_frame names n_max types = record {
    n_max = n_max;
    i = 0;
    columns = new_columns n_max 0 types;
    names = names;
  }

  unfoldable pub set_columns : List DbColumn → Row → Result (List DbColumn × List Warning)
  set_columns [] row = ok ([], [])
  set_columns (col ∷ columns) row = do
    (next, warnings) ← set_col_value rt col (row col.j)
    (rest, more) ← set_columns columns row
    ok (next ∷ rest, warnings ++ more)

  -- One call of set_columns for each row.
  unfoldable pub set_all_rows : List DbColumn → List Row → Result (List DbColumn × List Warning)
  set_all_rows columns [] = ok (columns, [])
  set_all_rows columns (row ∷ rows) = do
    (next, warnings) ← set_columns columns row
    (end, more) ← set_all_rows next rows
    ok (end, warnings ++ more)

  unfoldable pub set_col_values : DbDataFrame → Row → Result (DbDataFrame × List Warning)
  set_col_values df row = do
    (columns, warnings) ← set_columns df.columns row
    ok (record df { columns = columns }, warnings)

  unfoldable pub to_sexps : List DbColumn → Row → Result (List Sexp)
  to_sexps [] row = ok []
  to_sexps (col ∷ columns) row = do
    x ← to_sexp rt col (row col.j)
    xs ← to_sexps columns row
    ok (x ∷ xs)

  unfoldable pub get_data : DbDataFrame → Row → Result FrameData
  get_data df row = do
    let final = finalize_cols df
    columns ← to_sexps final.columns row
    ok (record {
      frame = record { columns = columns; names = final.names; row_count = final.i };
      types = column_types df row;
      conflicts = warn_columns final.columns final.names row;
    })
