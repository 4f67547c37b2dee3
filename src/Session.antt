-- ===== src/Session.antt =====
-- The entry points of src/result.cpp and src/connection.cpp with src/SqliteResult.cpp and the
-- constructor and destructor of src/DbResult.cpp: what R has of one connection. The object is owned
-- by shared pointers: one behind R's external pointer to the connection, and one in each result.
-- The last one that goes destroys the object.
pub mod Fitting
pub mod Counting
pub mod Shared
pub mod Reaching
pub mod Closing
pub mod Calling
pub mod Newest
pub mod Query
pub mod BoundQuery
use rsqlite.Prelude.{
  ℕ, zero, suc, ◌-◌, ℤ, String, Bool, true, false, Option, none, some, List, [], ◌∷◌, ◌++◌, ◌==◌,
  length, if◌then◌else◌,
}
use rsqlite.Outcome.{Result, ok, stop, ◌>>=◌, invalid_result}
use rsqlite.Exec.{Exec}
use rsqlite.Runtime.{Runtime, SexpType}
use rsqlite.SqliteSource.{Boost}
use rsqlite.Params.{Param}
use rsqlite.Connection
use rsqlite.Connection.{
  OpenV2, Arguments, DbConnection, Callback, connect, conn, check_connection, is_valid, destroy,
}
use rsqlite.ResultImpl.{Sqlite, ResultImpl, Fetched, new_result, get_placeholder_names}
use rsqlite.DbResult
use rsqlite.DbResult.{ColumnInfo}

-- `uses` is the count of the shared pointers, `destroyed` how often the object was destroyed,
-- `pointer` says that R has its external pointer, and `statements` is the number of prepared
-- statements that are not finalized. A result that is released is a null pointer.
pub record Session (Stmt : Type 0) : Type 0 where
  pub con : DbConnection
  pub uses : ℕ
  pub destroyed : ℕ
  pub pointer : Bool
  pub results : List (Option (ResultImpl Stmt))
  pub statements : ℕ

-- The result behind an external pointer, by its number.
unfoldable pub lookup : {A : Type 0} → ℕ → List (Option A) → Option A
lookup i [] = none
lookup zero (o ∷ os) = o
lookup (suc i) (o ∷ os) = lookup i os

unfoldable pub put : {A : Type 0} → ℕ → Option A → List (Option A) → List (Option A)
put i new [] = []
put zero new (o ∷ os) = new ∷ os
put (suc i) new (o ∷ os) = o ∷ put i new os

module _ {Stmt : Type 0} where
  -- A copy of a shared pointer, and its destructor.
  unfoldable pub acquire : Session Stmt → Session Stmt
  acquire s = record s { uses = suc s.uses }

  unfoldable pub let_go : Session Stmt → Session Stmt
  let_go s =
      let left = record s { uses = s.uses - 1 } in
      if s.uses == 1 then record left { con = destroy s.con; destroyed = suc s.destroyed } else left

  -- An exception in a constructor destroys the members that are there.
  unfoldable pub unwind : {A : Type 0} → Result A × Session Stmt → Result A × Session Stmt
  unfolding let_go
  unwind (ok a, s) = (ok a, s)
  unwind (stop e, s) = (stop e, let_go s)

  unfoldable pub connection_connect : OpenV2 → Arguments → Result (Session Stmt)
  connection_connect open_v2 args = connect open_v2 args >>= λ c.
      ok (record { con = c; uses = 1; destroyed = 0; pointer = true; results = []; statements = 0 })

  unfoldable pub connection_valid : Session Stmt → Bool
  connection_valid s = if s.pointer then is_valid s.con else false

  -- The result says whether it warns.
  unfoldable pub connection_release : Session Stmt → Bool × Session Stmt
  unfolding connection_valid
  connection_release s =
      let (warns, c) = Connection.connection_release s.uses s.con in
      if connection_valid s then (warns, record s { con = c }) else (true, s)

  unfoldable pub set_busy_handler : Option Callback → Exec (Session Stmt) (Unit {0})
  set_busy_handler f s =
      let (out, c) = Connection.set_busy_handler f s.con in (out, record s { con = c })

  -- R's garbage collector takes the external pointer to the connection.
  unfoldable pub forget_connection : Session Stmt → Session Stmt
  unfolding let_go
  forget_connection s = if s.pointer then let_go (record s { pointer = false }) else s

  -- ~SqliteResultImpl finalizes the statement, then pConn_ goes.
  unfoldable pub delete_result : Session Stmt → Session Stmt
  unfolding let_go
  delete_result s = let_go (record s { statements = s.statements - 1 })

  -- By R, or by its garbage collector.
  unfoldable pub result_release : ℕ → Session Stmt → Session Stmt
  unfolding lookup put delete_result
  result_release i s = elim (lookup i s.results) [
    | none ↦ s
    | some r ↦ delete_result (record s { results = put i none s.results })
  ]

  -- A released external pointer is null.
  unfoldable pub result_valid : ℕ → Session Stmt → Bool
  unfolding lookup
  result_valid i s = DbResult.result_valid (lookup i s.results)

  -- A method of a result; as_cpp() refuses a null pointer.
  unfoldable pub with_result : {A : Type 0} → ℕ → Exec (ResultImpl Stmt) A → Exec (Session Stmt) A
  unfolding lookup put
  with_result i method s = elim (lookup i s.results) [
    | none ↦ (stop invalid_result, s)
    | some r ↦
        let (out, next) = method r in (out, record s { results = put i (some next) s.results })
  ]

module _ {Stmt : Type 0} (sq : Sqlite Stmt) where
  -- new SqliteResult(con, sql): its DbResult holds a shared pointer, then the statement is
  -- prepared.
  unfoldable pub new_sqlite_result : List ℕ → Exec (Session Stmt) (ResultImpl Stmt)
  unfolding acquire unwind
  new_sqlite_result sql s =
      let made = check_connection s.con >>= λ u.
      conn s.con >>= λ u. new_result sq sql s.con.with_alt_types in
      elim made [
        | stop e ↦ unwind (stop e, acquire s)
        | ok (r, tail) ↦ (ok r, record (acquire s) { statements = suc s.statements })
      ]

  -- external_pointer<DbResult>(res)
  unfoldable pub wrapped : Result (ResultImpl Stmt) × Session Stmt → Result ℕ × Session Stmt
  wrapped (ok r, s) = (ok (length s.results), record s { results = s.results ++ some r ∷ [] })
  wrapped (stop e, s) = (stop e, s)

  -- The number of the new result.
  unfoldable pub result_create : List ℕ → Exec (Session Stmt) ℕ
  unfolding new_sqlite_result wrapped
  result_create sql s = elim (check_connection s.con) [
    | stop e ↦ (stop e, s)
    | ok u ↦ wrapped (new_sqlite_result sql s)
  ]

  unfoldable pub result_bind : ℕ → List Param → Exec (Session Stmt) (Unit {0})
  unfolding with_result
  result_bind i params = with_result i (DbResult.bind sq params)

  module _ (rt : Runtime) (boost : Boost) where
    unfoldable pub result_fetch : (ℕ → Bool) → ℕ → ℕ → ℤ → Exec (Session Stmt) Fetched
    unfolding with_result
    result_fetch interrupt fuel i n = with_result i (DbResult.fetch sq rt boost interrupt fuel n)

    unfoldable pub result_column_info : (SexpType → String) → ℕ → Exec (Session Stmt) ColumnInfo
    unfolding with_result
    result_column_info type2char i = with_result i (DbResult.get_column_info sq rt boost type2char)

  unfoldable pub result_has_completed : ℕ → Exec (Session Stmt) Bool
  unfolding with_result
  result_has_completed i = with_result i (λ r. (ok (DbResult.complete (some r)), r))

  unfoldable pub result_rows_fetched : ℕ → Exec (Session Stmt) ℕ
  unfolding with_result
  result_rows_fetched i = with_result i (λ r. (ok (DbResult.n_rows_fetched r), r))

  unfoldable pub result_rows_affected : ℕ → Exec (Session Stmt) ℤ
  unfolding with_result
  result_rows_affected i = with_result i (λ r. (ok (DbResult.n_rows_affected sq r), r))

  unfoldable pub result_get_placeholder_names : ℕ → Exec (Session Stmt) (List (List ℕ))
  unfolding with_result
  result_get_placeholder_names i = with_result i (λ r. (ok (get_placeholder_names sq r), r))
