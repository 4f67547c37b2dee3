-- ===== src/ResultImpl/Fetch.antt =====
-- fetch(), fetch_rows(), peek_first_row() and get_column_info() of src/SqliteResultImpl.cpp. The
-- fuel bounds the rows of one fetch_rows(), as a query may have rows without end.
use rsqlite.Prelude.{
  ℕ, zero, suc, ℤ, pos, eqb_ℤ, String, Bool, true, false, ◌&&◌, List, [], ◌++◌, map, ◌==◌,
  if◌then◌else◌,
}
use rsqlite.Outcome.{ok, stop, not_bound, out_of_fuel}
use rsqlite.Exec.{Exec, pure, lift, ◌>>=◌, ◌>>◌}
use rsqlite.DataType.{DataType}
use rsqlite.Runtime.{SexpType, Runtime}
use rsqlite.Source.{Warning}
use rsqlite.Storage.{sexptype_from_datatype}
use rsqlite.DataFrame.{
  Row, DbDataFrame, FrameData, new_data_frame, set_col_values, advance, get_ncols, get_data,
  column_types,
}
use rsqlite.SqliteSource.{Boost, sqlite_source}
use rsqlite.ResultImpl.{Sqlite, ResultImpl, Fetched, step}

module _ {Stmt : Type 0} (sq : Sqlite Stmt) (rt : Runtime) (boost : Boost) where
  -- SqliteColumnDataSourceFactory(stmt, with_alt_types) and its create(j): the cells of the
  -- statement's current row.
  unfoldable pub current_row : ResultImpl Stmt → Row
  current_row r j = sqlite_source boost r.with_alt_types (sq.column r.stmt j)

  -- SqliteDataFrame data(stmt, cache.names_, n_max, types_, with_alt_types_), of
  -- src/SqliteDataFrame.cpp; its factory is `current_row` at each call.
  unfoldable pub empty_frame : ℤ → ResultImpl Stmt → DbDataFrame
  empty_frame n_max r = new_data_frame rt r.names n_max r.types

  -- data.set_col_values() and data.get_data(types_), which read the statement
  unfoldable pub fill : DbDataFrame → Exec (ResultImpl Stmt) (DbDataFrame × List Warning)
  fill df r = (set_col_values rt df (current_row r), r)

  unfoldable pub take_data : DbDataFrame → Exec (ResultImpl Stmt) FrameData
  take_data df r =
      (get_data rt df (current_row r), record r { types = column_types df (current_row r) })

  module _ (interrupt : ℕ → Bool) where
    -- nrows_++ and data.advance(); `interrupt i` says that the user interrupts when `i` rows are
    -- there.
    unfoldable pub finish_round :
        DbDataFrame → List Warning → Exec (ResultImpl Stmt) (DbDataFrame × List Warning × Bool)
    finish_round filled warnings r =
        (lift (advance (interrupt (suc filled.i)) filled) >>= λ (next, more).
        pure (next, warnings, more))
          (record r { nrows = suc r.nrows })

    -- One round of the loop, and whether there is another.
    unfoldable pub fetch_round :
        DbDataFrame → Exec (ResultImpl Stmt) (DbDataFrame × List Warning × Bool)
    fetch_round df = fill df >>= λ (filled, warnings). step sq >> finish_round filled warnings

    -- `rec` is the loop after the round.
    unfoldable pub go_on :
        (DbDataFrame → Exec (ResultImpl Stmt) (DbDataFrame × List Warning))
        → DbDataFrame × List Warning × Bool
        → Exec (ResultImpl Stmt) (DbDataFrame × List Warning)
    go_on rec (next, warnings, true) = rec next >>= λ (end, rest). pure (end, warnings ++ rest)
    go_on rec (next, warnings, false) = pure (next, warnings)

    unfoldable pub fetch_loop :
        ℕ → DbDataFrame → Exec (ResultImpl Stmt) (DbDataFrame × List Warning)
    fetch_loop zero df r = if r.complete then (ok (df, []), r) else (stop out_of_fuel, r)
    fetch_loop (suc f) df r =
        if r.complete
        then (ok (df, []), r)
        else (fetch_round df >>= go_on (λ next. fetch_loop f next)) r

    unfoldable pub fetch_rows : ℕ → ℤ → Exec (ResultImpl Stmt) Fetched
    fetch_rows fuel n_max r =
        let no_select = r.complete && (get_ncols (empty_frame n_max r) == 0) in
        (fetch_loop fuel (empty_frame n_max r) >>= λ (df, warnings). take_data df >>= λ out.
        pure (record { frame_data = out; warnings = warnings; no_select = no_select }))
          r

  -- The frame has no rows, but its types are those of the current row.
  unfoldable pub peek_first_row : Exec (ResultImpl Stmt) Fetched
  peek_first_row r =
      let df = empty_frame (pos 1) r in
      ((if r.complete then pure (df, []) else fill df) >>= λ (filled, warnings).
      take_data filled >>= λ out.
      pure (record { frame_data = out; warnings = warnings; no_select = false }))
        r

  unfoldable pub fetch : (ℕ → Bool) → ℕ → ℤ → Exec (ResultImpl Stmt) Fetched
  fetch interrupt fuel n_max r =
      if r.ready
      then if eqb_ℤ n_max (pos 0) then peek_first_row r else fetch_rows interrupt fuel n_max r
      else (stop not_bound, r)

  -- Rf_type2char is R's.
  unfoldable pub type_name : (SexpType → String) → DataType → String
  type_name type2char DataType.date = "Date"
  type_name type2char DataType.datetime = "POSIXct"
  type_name type2char DataType.time = "hms"
  type_name type2char dt = type2char (sexptype_from_datatype dt)

  -- The names and the types; the names are taken from the cache.
  unfoldable pub get_column_info :
      (SexpType → String) → Exec (ResultImpl Stmt) (List String × List String)
  get_column_info type2char = do
    peek_first_row
    (λ r. (ok (r.names, map (type_name type2char) r.types), r))
