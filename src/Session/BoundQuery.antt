-- ===== src/Session/BoundQuery.antt =====
-- A query with parameters from its text to its data frame: result_create, result_bind, result_fetch
-- and result_release in a session.
use rsqlite.Prelude.{
  ℕ, suc, ◌-◌, ◌^◌, min, ◌≤◌, ◌<◌, ◌≡◌, ◌≢◌, refl, sym, ap, ◌∙◌, negsuc, Bool, true, false, Option,
  some, List, length, ◌==◌, if-false, arith,
}
use mathlib.Core.Path.{subst}
use rsqlite.Outcome.{Result, ok}
use rsqlite.Exec.{continue}
use rsqlite.Runtime.{Runtime, IsRuntime}
use rsqlite.Params.{Param, validate_params}
use rsqlite.SqliteSource.{Boost}
use rsqlite.SqliteSource.Types.{IsSqliteColumn}
use rsqlite.ResultImpl
use rsqlite.ResultImpl.{
  Sqlite, ResultImpl, new_result, constructed, created, fresh, unread, first_length,
}
use rsqlite.ResultImpl.Answers.{Executes, joined}
use rsqlite.ResultImpl.Running.{bind-Stands}
use rsqlite.ResultImpl.Binding.{bind-IsFitting}
use rsqlite.ResultImpl.Starting.{prepare-ok}
use rsqlite.ResultImpl.Keeping.{bind-IsBound}
use rsqlite.ResultImpl.Fetch.{fetch_rows}
use rsqlite.DbResult
use rsqlite.Session.{Session, result_create, result_bind, result_fetch}
use rsqlite.Session.Newest.{with_new, with_result-new, create_new}
use rsqlite.Session.Query.{Ended, fetched_new, fetched_rows-Delivers, delivered-Ended}

module _ {Stmt : Type 0} (sq : Sqlite Stmt) where
  -- A query that has parameters is not run yet.
  constructed-fresh :
      (alt : Bool) (stmt : Stmt) (rest : List ℕ)
      → sq.bind_parameter_count stmt ≢ 0
      → constructed sq alt (ok (stmt, rest)) ≡ ok (fresh sq stmt alt, rest)
  unfolding constructed created fresh
  constructed-fresh alt stmt rest some_needed =
      let some_are : (sq.bind_parameter_count stmt == 0) ≡ false = ground arith in
      ap (created sq rest) (if-false some_are _)

  new_result-fresh :
      (sql : List ℕ) (alt : Bool) (stmt : Stmt) (tail : Option (List ℕ))
      → sq.prepare_v2 sql (min (suc (length sql)) (2 ^ 31 - 1)) ≡ (0, stmt, tail)
      → sq.bind_parameter_count stmt ≢ 0
      → new_result sq sql alt ≡ ok (fresh sq stmt alt, unread tail)
  unfolding new_result
  new_result-fresh sql alt stmt tail e some_needed =
      ap (constructed sq alt) (prepare-ok sq sql stmt tail e)
      ∙ constructed-fresh alt stmt (unread tail) some_needed

  bound_new :
      (s : Session Stmt) (r : ResultImpl Stmt) (params : List Param)
      → validate_params params ≡ ok tt
      → result_bind sq (length s.results) params (with_new s (some r))
        ≡ ((ResultImpl.bind sq params r).0, with_new s (some (ResultImpl.bind sq params r).1))
  unfolding result_bind DbResult.bind
  bound_new s r params valid =
      with_result-new (DbResult.bind sq params) s r
      ∙ ap
          (λ (x : Result (Unit {0})).
            let out = continue x (λ u. ResultImpl.bind sq params) r in
            (out.0, with_new s (some out.1)))
          valid

module _ {Stmt : Type 0} (sq : Sqlite Stmt) (rt : Runtime) (laws : IsRuntime rt) (boost : Boost)
    (cells : (stmt : Stmt) (j : ℕ) → IsSqliteColumn (sq.column stmt j)) (interrupt : ℕ → Bool)
    (calm : (i : ℕ) → interrupt i ≡ false) where
  -- The parameters are bound, and a fetch without a limit ends the query.
  abbrev pub BoundAnswered :
      ℕ → ℕ → Session Stmt → Stmt → List Stmt → Result (Unit {0}) × Session Stmt → Type 0
  BoundAnswered fuel m s stmt rows (bound, after_bind) =
      (bound ≡ ok tt)
      × Ended sq rt laws boost cells interrupt calm s stmt rows
          (result_fetch sq rt boost interrupt fuel (length s.results) (negsuc m) after_bind)

  -- The result is made, then the parameters are bound.
  abbrev pub MadeAnswered :
      ℕ → ℕ → Session Stmt → Stmt → List Param → List Stmt → Result ℕ × Session Stmt → Type 0
  MadeAnswered fuel m s stmt params rows (made, after_create) =
      (made ≡ ok (length s.results))
      × BoundAnswered fuel m s stmt rows (result_bind sq (length s.results) params after_create)

  bound-Answered :
      (s : Session Stmt) (stmt : Stmt) (params : List Param) (runs : List (List Stmt)) (fuel m : ℕ)
      → 0 < s.uses
      → validate_params params ≡ ok tt
      → sq.bind_parameter_count stmt ≢ 0
      → length params ≡ sq.bind_parameter_count stmt
      → Executes sq params 0 stmt runs
      → first_length params ≡ length runs
      → length (joined runs) ≤ fuel
      → let out = ResultImpl.bind sq params (fresh sq stmt s.con.with_alt_types) in
        BoundAnswered fuel m s stmt (joined runs) (out.0, with_new s (some out.1))
  unfolding fresh
  bound-Answered s stmt params runs fuel m used valid some_needed same es count enough =
      let r : ResultImpl Stmt = fresh sq stmt s.con.with_alt_types in
      let bound : ResultImpl Stmt = (ResultImpl.bind sq params r).1 in
      let (done, stands) = bind-Stands sq params r runs some_needed same es count in
      let fit = (bind-IsFitting sq params r valid tt).1 in
      let kept = bind-IsBound sq params r runs valid some_needed same es count in
      (
        done,
        subst (Ended sq rt laws boost cells interrupt calm s stmt (joined runs))
            (sym (fetched_new sq rt laws boost cells interrupt calm s fuel m bound kept.ready))
            (delivered-Ended sq rt laws boost cells interrupt calm s stmt (joined runs) bound
              (fetch_rows sq rt boost interrupt fuel (negsuc m) bound) used kept.types
              kept.alt_types
              (fetched_rows-Delivers sq rt laws boost cells interrupt calm fuel m bound
                (joined runs) fit stands enough)),
      )

  -- For a runtime and an SQLite that behave as documented, a user who does not interrupt, a session
  -- whose connection is valid and has a reference, a query that SQLite prepares to a statement with
  -- parameters, values for them that validate_params accepts and whose number is the statement's,
  -- and rows `runs` that the statement gives, one run for each row of the values: R gets a new
  -- result, and binds the values, without an error; a fetch without a limit, with at least as many
  -- rounds as rows, gives the data frame of the cells of the rows of all runs in order; then the
  -- result has completed, and its release leaves the session as it was, but for the released
  -- result.
  pub bound_query_lem :
      (s : Session Stmt) (sql : List ℕ) (stmt : Stmt) (tail : Option (List ℕ)) (params : List Param)
      (runs : List (List Stmt)) (fuel m : ℕ)
      → s.con.handle ≡ true
      → 0 < s.uses
      → sq.prepare_v2 sql (min (suc (length sql)) (2 ^ 31 - 1)) ≡ (0, stmt, tail)
      → validate_params params ≡ ok tt
      → sq.bind_parameter_count stmt ≢ 0
      → length params ≡ sq.bind_parameter_count stmt
      → Executes sq params 0 stmt runs
      → first_length params ≡ length runs
      → length (joined runs) ≤ fuel
      → MadeAnswered fuel m s stmt params (joined runs) (result_create sq sql s)
  bound_query_lem s sql stmt tail params runs fuel m open_con used e valid some_needed same es count
        enough =
      let r : ResultImpl Stmt = fresh sq stmt s.con.with_alt_types in
      subst (MadeAnswered fuel m s stmt params (joined runs))
        (sym (
          create_new sq s sql r (unread tail) open_con
            (new_result-fresh sq sql s.con.with_alt_types stmt tail e some_needed)))
        (
          refl,
          subst (BoundAnswered fuel m s stmt (joined runs)) (sym (bound_new sq s r params valid)) (
              bound-Answered s stmt params runs fuel m used valid some_needed same es count enough),
        )
