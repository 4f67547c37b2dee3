-- ===== src/ResultImpl/Peeking.antt =====
-- A look at the first row takes nothing.
use rsqlite.Prelude.{
  ℕ, ◌≡◌, ◌≢◌, refl, ap, pos, Bool, true, false, List, [], ◌∷◌, map, if◌then◌else◌,
}
use rsqlite.Outcome.{Result, ok, stop}
use rsqlite.Exec.{pure, ◌>>=◌}
use rsqlite.DataType.{DataType}
use rsqlite.Runtime.{Sexp, Runtime, IsRuntime}
use rsqlite.Source.{Warning}
use rsqlite.Storage.Blocks.{All}
use rsqlite.Column.{DbColumn}
use rsqlite.DataFrame.{
  Row, DbDataFrame, set_col_values, new_columns, new_data_frame, finalize_cols, get_data,
}
use rsqlite.DataFrame.ByColumn.{
  IsTypedRow, ByColumn, ByColumn-nil, ByColumn-step, set_columns_lem, new_columns-IsColumn,
}
use rsqlite.DataFrame.NoRows.{final_types, no_rows_lem}
use rsqlite.SqliteSource.{Boost}
use rsqlite.SqliteSource.Types.{IsSqliteColumn, sqlite_source-IsTyped, decl_type-known}
use rsqlite.ResultImpl.{Sqlite, ResultImpl, Fetched}
use rsqlite.ResultImpl.Fetch.{current_row, empty_frame, fill, take_data, peek_first_row}

module _ {Stmt : Type 0} (sq : Sqlite Stmt) (rt : Runtime) (laws : IsRuntime rt) (boost : Boost)
    (cells : (stmt : Stmt) (j : ℕ) → IsSqliteColumn (sq.column stmt j)) where
  -- The rows that the look sees.
  abbrev pub in_view : ResultImpl Stmt → List Row
  in_view r = if r.complete then [] else current_row sq rt boost r ∷ []

  typed : (r : ResultImpl Stmt) → IsTypedRow (current_row sq rt boost r)
  unfolding current_row
  typed r j = sqlite_source-IsTyped boost r.with_alt_types (sq.column r.stmt j) (cells r.stmt j)

  declared :
      (r : ResultImpl Stmt) (k : ℕ)
      → (current_row sq rt boost r k).get_decl_data_type ≢ DataType.unknown
  unfolding current_row
  declared r k = decl_type-known boost r.with_alt_types (sq.column r.stmt k)

  -- What is handed to R without a row: the types are those of the rows.
  abbrev pub Peeked : List Row → ResultImpl Stmt → Result Fetched × ResultImpl Stmt → Type 0
  Peeked rows r (stop e, s) = ⊥
  Peeked rows r (ok out, s) =
      (s ≡ record r { types = final_types 0 r.types rows (current_row sq rt boost r) })
      × (out.frame_data.frame.row_count ≡ 0)
      × (map (λ (v : Sexp). v.slots) out.frame_data.frame.columns ≡ map (λ dt. []) r.types)
      × (out.frame_data.types ≡ final_types 0 r.types rows (current_row sq rt boost r))

  taken_lem :
      (r : ResultImpl Stmt) (rows : List Row) (ends : List DbColumn) (warnings : List Warning)
      → All IsTypedRow rows
      → ByColumn rt laws rows (new_columns rt (pos 1) 0 r.types) ends
      → Peeked rows r (
          (take_data sq rt boost (record (empty_frame sq rt boost (pos 1) r) { columns = ends })
              >>= λ out. pure (record { frame_data = out; warnings = warnings; no_select = false }))
            r)
  unfolding take_data get_data finalize_cols empty_frame new_data_frame
  taken_lem r rows ends warnings h by =
      let (vs, out, none, types) =
        no_rows_lem rt laws (pos 1) r.types rows (current_row sq rt boost r) 0 ends h (declared r)
          by in
      rw out (ap (λ t. record r { types = t }) types, refl, none, types)

  pub peek_first_row-Peeked :
      (r : ResultImpl Stmt) → Peeked (in_view r) r (peek_first_row sq rt boost r)
  unfolding peek_first_row fill set_col_values empty_frame new_data_frame
  peek_first_row-Peeked r = by_complete r.complete
    where
      df : DbDataFrame
      df = empty_frame sq rt boost (pos 1) r

      by_complete :
          (b : Bool)
          → Peeked (if b then [] else current_row sq rt boost r ∷ []) r (
              ((if b then pure (df, []) else fill sq rt boost df) >>= λ (filled, warnings).
              take_data sq rt boost filled >>= λ out.
              pure (record { frame_data = out; warnings = warnings; no_select = false }))
                r)
      by_complete true =
          taken_lem r [] (new_columns rt (pos 1) 0 r.types) [] tt
            (ByColumn-nil rt laws (new_columns rt (pos 1) 0 r.types))
      by_complete false =
          let columns : List DbColumn = new_columns rt (pos 1) 0 r.types in
          let now : Row = current_row sq rt boost r in
          let (next, w, run, good, stepped) =
            set_columns_lem rt laws columns now (new_columns-IsColumn rt laws (pos 1) 0 r.types)
              (typed r) in
          rw run (
            taken_lem r (now ∷ []) next w (typed r, tt)
              (ByColumn-step rt laws now [] columns next next stepped (ByColumn-nil rt laws next)))
