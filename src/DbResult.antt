-- ===== src/DbResult.antt =====
-- src/DbResult.cpp and .h, and the entry points of src/result.cpp and src/SqliteResult.cpp that
-- only pass their arguments on. A connection counts every result as its current one, so a result is
-- always active.
use rsqlite.Prelude.{
  ℕ, zero, suc, ℤ, pos, negsuc, String, length, Bool, true, false, Option, none, some, List,
}
use rsqlite.Outcome.{stop, inactive_result}
use rsqlite.Exec.{Exec, pure, lift, ◌>>=◌, ◌>>◌}
use rsqlite.Runtime.{Runtime, SexpType, na_integer}
use rsqlite.SqliteSource.{Boost}
use rsqlite.Params.{Param, validate_params}
use rsqlite.ResultImpl
use rsqlite.ResultImpl.{Sqlite, ResultImpl, Fetched}
use rsqlite.ResultImpl.Fetch

-- DbConnection::is_current_result
unfoldable pub is_active : Bool
is_active = true

module _ {Stmt : Type 0} where
  -- The null pointer `impl` counts as complete.
  unfoldable pub complete : Option (ResultImpl Stmt) → Bool
  complete none = true
  complete (some impl) = impl.complete

  -- result_valid: a released external pointer is null.
  unfoldable pub result_valid : Option (ResultImpl Stmt) → Bool
  unfolding is_active
  result_valid none = false
  result_valid (some impl) = is_active

  unfoldable pub n_rows_fetched : ResultImpl Stmt → ℕ
  n_rows_fetched r = r.nrows

-- What get_column_info() gives: a data frame of the names and the types, and its row names.
pub record ColumnInfo : Type 0 where
  pub names : List String
  pub types : List String
  pub row_names : ℤ × ℤ

-- -Rf_length(x)
abbrev minus : ℕ → ℤ
minus zero = pos 0
minus (suc n) = negsuc n

module _ {Stmt : Type 0} (sq : Sqlite Stmt) where
  unfoldable pub n_rows_affected : ResultImpl Stmt → ℤ
  n_rows_affected r = ResultImpl.n_rows_affected sq r

  unfoldable pub get_column_info :
      Runtime → Boost → (SexpType → String) → Exec (ResultImpl Stmt) ColumnInfo
  get_column_info rt boost type2char =
      Fetch.get_column_info sq rt boost type2char >>= λ (names, types).
      pure (record { names = names; types = types; row_names = (na_integer, minus (length names)) })

  unfoldable pub bind : List Param → Exec (ResultImpl Stmt) (Unit {0})
  bind params = lift (validate_params params) >> ResultImpl.bind sq params

  unfoldable pub fetch : Runtime → Boost → (ℕ → Bool) → ℕ → ℤ → Exec (ResultImpl Stmt) Fetched
  unfolding is_active
  fetch rt boost interrupt fuel n_max r = elim is_active [
    | true ↦ Fetch.fetch sq rt boost interrupt fuel n_max r
    | false ↦ (stop inactive_result, r)
  ]
