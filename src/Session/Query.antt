-- ===== src/Session/Query.antt =====
-- A query from its text to its data frame: result_create, result_fetch and result_release in a
-- session.
use rsqlite.Prelude.{
  ℕ, suc, ◌-◌, ◌^◌, min, ◌≤◌, ◌<◌, ◌≡◌, refl, sym, ap, ◌∙◌, negsuc, Bool, true, false, Option, some,
  List, [], map, length, if-true, inl, take-all, take, drop, length-drop, eq-nil_of_length, arith,
}
use mathlib.Core.Path.{subst}
use rsqlite.Outcome.{Result, ok, stop}
use rsqlite.Runtime.{Sexp, Runtime, IsRuntime}
use rsqlite.DataFrame.{Row}
use rsqlite.DataFrame.ByColumn.{frame_cells}
use rsqlite.SqliteSource.{Boost}
use rsqlite.SqliteSource.Types.{IsSqliteColumn}
use rsqlite.ResultImpl.{
  Sqlite, ResultImpl, Fetched, new_result, get_column_names, get_initial_field_types,
}
use rsqlite.ResultImpl.Fetch
use rsqlite.ResultImpl.Fetch.{current_row, fetch_rows}
use rsqlite.ResultImpl.Kept.{IsFitting}
use rsqlite.ResultImpl.Answers.{Yields, Stands, cells_of}
use rsqlite.ResultImpl.Starting.{Starts, new_result-Starts}
use rsqlite.ResultImpl.Delivering.{Delivers, fetch_rows-Delivers}
use rsqlite.DbResult
use rsqlite.Session.{Session, result_create, result_fetch, result_has_completed, result_release}
use rsqlite.Session.Newest.{with_new, with_released, release_new, with_result-new, create_new}

module _ {Stmt : Type 0} (sq : Sqlite Stmt) (rt : Runtime) (laws : IsRuntime rt) (boost : Boost)
    (cells : (stmt : Stmt) (j : ℕ) → IsSqliteColumn (sq.column stmt j)) (interrupt : ℕ → Bool)
    (calm : (i : ℕ) → interrupt i ≡ false) where
  -- A frame with the cells of the rows, for the columns of `stmt`; the row `now` gives the declared
  -- types.
  abbrev pub Gathers : Stmt → Bool → List Stmt → Result Fetched → Type 0
  Gathers stmt alt rows (stop e) = ⊥
  Gathers stmt alt rows (ok out) =
      (now : Row) × (out.frame_data.frame.row_count ≡ length rows)
      × (map (λ (v : Sexp). v.slots) out.frame_data.frame.columns
          ≡ frame_cells rt laws 0 (get_initial_field_types (length (get_column_names sq stmt)))
              (map (cells_of sq boost alt) rows) now)

  -- The fetch gives the rows, the result has completed, and its release leaves the session as it
  -- was.
  abbrev pub Ended : Session Stmt → Stmt → List Stmt → Result Fetched × Session Stmt → Type 0
  Ended s stmt rows (out, after_fetch) =
      Gathers stmt s.con.with_alt_types rows out
      × ((result_has_completed sq (length s.results) after_fetch).0 ≡ ok true)
      × (result_release (length s.results) after_fetch ≡ with_released s)

  -- The result is made, and a fetch without a limit ends the query.
  abbrev pub Answered : ℕ → ℕ → Session Stmt → Stmt → List Stmt → Result ℕ × Session Stmt → Type 0
  Answered fuel m s stmt rows (made, after_create) =
      (made ≡ ok (length s.results))
      × Ended s stmt rows
          (result_fetch sq rt boost interrupt fuel (length s.results) (negsuc m) after_create)

  fetch_ready :
      (fuel m : ℕ) (r : ResultImpl Stmt)
      → r.ready ≡ true
      → DbResult.fetch sq rt boost interrupt fuel (negsuc m) r
        ≡ fetch_rows sq rt boost interrupt fuel (negsuc m) r
  unfolding DbResult.fetch Fetch.fetch
  fetch_ready fuel m r e = if-true e _

  pub fetched_new :
      (s : Session Stmt) (fuel m : ℕ) (r : ResultImpl Stmt)
      → r.ready ≡ true
      → let out = fetch_rows sq rt boost interrupt fuel (negsuc m) r in
        result_fetch sq rt boost interrupt fuel (length s.results) (negsuc m) (with_new s (some r))
        ≡ (out.0, with_new s (some out.1))
  unfolding result_fetch
  fetched_new s fuel m r e =
      with_result-new (DbResult.fetch sq rt boost interrupt fuel (negsuc m)) s r
      ∙ ap (λ out. (out.0, with_new s (some out.1))) (fetch_ready fuel m r e)

  completed_new :
      (s : Session Stmt) (r : ResultImpl Stmt)
      → r.complete ≡ true
      → (result_has_completed sq (length s.results) (with_new s (some r))).0 ≡ ok true
  unfolding result_has_completed DbResult.complete
  completed_new s r e =
      ap (λ (out : Result Bool × Session Stmt). out.0)
        (with_result-new (λ q. (ok (DbResult.complete (some q)), q)) s r)
      ∙ ap ok e

  pub fetched_rows-Delivers :
      (fuel m : ℕ) (r : ResultImpl Stmt) (rows : List Stmt)
      → IsFitting r
      → Stands sq r rows
      → length rows ≤ fuel
      → Delivers sq rt laws boost cells interrupt calm rows [] r
          (fetch_rows sq rt boost interrupt fuel (negsuc m) r)
  fetched_rows-Delivers fuel m r rows fit stands enough =
      let all_taken : take fuel rows ≡ rows = take-all fuel rows enough in
      let none_left : drop fuel rows ≡ [] =
        eq-nil_of_length (drop fuel rows) (omega (arith, length-drop fuel rows, enough)) in
      subst
        (λ ((mine, others) : List Stmt × List Stmt).
          Delivers sq rt laws boost cells interrupt calm mine others r
            (fetch_rows sq rt boost interrupt fuel (negsuc m) r))
        (λ i. (all_taken i, none_left i))
        (fetch_rows-Delivers sq rt laws boost cells interrupt calm fuel (negsuc m) r rows fit stands
          (inl (m, refl, enough)))

  pub delivered-Ended :
      (s : Session Stmt) (stmt : Stmt) (rows : List Stmt) (r : ResultImpl Stmt)
      (out : Result Fetched × ResultImpl Stmt)
      → 0 < s.uses
      → r.types ≡ get_initial_field_types (length (get_column_names sq stmt))
      → r.with_alt_types ≡ s.con.with_alt_types
      → Delivers sq rt laws boost cells interrupt calm rows [] r out
      → Ended s stmt rows (out.0, with_new s (some out.1))
  delivered-Ended s stmt rows r (stop e, t) used types alts d = absurd d
  delivered-Ended s stmt rows r (ok out, t) used types alts (done, fit, n, count, slots) = (
    (
      current_row sq rt boost t,
      count,
      slots ∙ (λ i.
          frame_cells rt laws 0 (types i) (map (cells_of sq boost (alts i)) rows)
            (current_row sq rt boost t)),
    ),
    completed_new s t done,
    release_new s t used,
  )

  -- For a runtime and an SQLite that behave as documented, a user who does not interrupt, a session
  -- whose connection is valid and has a reference, and a query that SQLite prepares to a statement
  -- without parameters, which gives the rows `rows`: R gets a new result without an error; a fetch
  -- without a limit on it, with at least as many rounds as rows, gives the data frame of the cells
  -- of all rows in order; then the result has completed, and its release leaves the session as it
  -- was, but for the released result.
  pub query_lem :
      (s : Session Stmt) (sql : List ℕ) (stmt end : Stmt) (tail : Option (List ℕ))
      (rows : List Stmt) (fuel m : ℕ)
      → s.con.handle ≡ true
      → 0 < s.uses
      → sq.prepare_v2 sql (min (suc (length sql)) (2 ^ 31 - 1)) ≡ (0, stmt, tail)
      → sq.bind_parameter_count stmt ≡ 0
      → Yields sq stmt rows end
      → length rows ≤ fuel
      → Answered fuel m s stmt rows (result_create sq sql s)
  query_lem s sql stmt end tail rows fuel m valid used e none_needed ys enough =
      by_new (new_result sq sql s.con.with_alt_types) refl
        (new_result-Starts sq sql s.con.with_alt_types stmt end tail rows e none_needed ys)
    where
      by_new :
          (x : Result (ResultImpl Stmt × List ℕ))
          → new_result sq sql s.con.with_alt_types ≡ x
          → Starts sq rows stmt s.con.with_alt_types x
          → Answered fuel m s stmt rows (result_create sq sql s)
      by_new (stop e) made h = absurd h
      by_new (ok (r, rest)) made (stands, fit, ready, types, alts) =
          subst (Answered fuel m s stmt rows) (sym (create_new sq s sql r rest valid made)) (
            refl,
            subst (Ended s stmt rows) (sym (fetched_new s fuel m r ready)) (
                delivered-Ended s stmt rows r (fetch_rows sq rt boost interrupt fuel (negsuc m) r)
                  used types alts (fetched_rows-Delivers fuel m r rows fit stands enough)),
          )
