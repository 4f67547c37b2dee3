-- ===== src/ResultImpl/Serving.antt =====
-- bind() and the fetches behind it, against what SQLite answers.
use rsqlite.Prelude.{
  ℕ, suc, ◌-◌, ◌^◌, min, Option, ◌≡◌, ◌≢◌, refl, Bool, false, pos, inr, List, [], ◌∷◌, length, take,
  drop, arith,
}
use rsqlite.Outcome.{Result, ok, stop}
use rsqlite.Runtime.{Runtime, IsRuntime}
use rsqlite.Params.{Param, validate_params}
use rsqlite.SqliteSource.{Boost}
use rsqlite.SqliteSource.Types.{IsSqliteColumn}
use rsqlite.ResultImpl.{Sqlite, ResultImpl, Fetched, bind, first_length, new_result}
use rsqlite.ResultImpl.Fetch.{fetch_rows}
use rsqlite.ResultImpl.Kept.{IsFitting}
use rsqlite.ResultImpl.Binding.{bind-IsFitting}
use rsqlite.ResultImpl.Answers.{Yields, Executes, Stands, joined}
use rsqlite.ResultImpl.Running.{bind-Stands}
use rsqlite.ResultImpl.Starting.{Starts, new_result-Starts}
use rsqlite.ResultImpl.Delivering.{Delivers, fetch_rows-Delivers}

module _ {Stmt : Type 0} (sq : Sqlite Stmt) (rt : Runtime) (laws : IsRuntime rt) (boost : Boost)
    (cells : (stmt : Stmt) (j : ℕ) → IsSqliteColumn (sq.column stmt j)) (interrupt : ℕ → Bool)
    (calm : (i : ℕ) → interrupt i ≡ false) where
  -- One fetch after the other, of at most `n + 1` rows for each number `n`: each has the next of
  -- the rows, and the result stands at the others in the end.
  abbrev pub Serves : List ℕ → List Stmt → ResultImpl Stmt → Type 0
  Serves [] rows r = Stands sq r rows
  Serves (n ∷ ns) rows r =
      let out = fetch_rows sq rt boost interrupt (suc n) (pos (suc n)) r in
      Delivers sq rt laws boost cells interrupt calm (take (suc n) rows) (drop (suc n) rows) r out
      × Serves ns (drop (suc n) rows) out.1

  after :
      (rows rest : List Stmt) (r : ResultImpl Stmt) (out : Result Fetched × ResultImpl Stmt)
      → Delivers sq rt laws boost cells interrupt calm rows rest r out
      → Stands sq out.1 rest × IsFitting out.1
  after rows rest r (ok o, s) d = (d.0, d.1)
  after rows rest r (stop e, s) d = absurd d

  Serves-Stands :
      (ns : List ℕ) (rows : List Stmt) (r : ResultImpl Stmt)
      → IsFitting r
      → Stands sq r rows
      → Serves ns rows r
  Serves-Stands [] rows r fit h = h
  Serves-Stands (n ∷ ns) rows r fit h =
      let here =
        fetch_rows-Delivers sq rt laws boost cells interrupt calm (suc n) (pos (suc n)) r rows fit h
          (inr (refl, omega arith)) in
      let (stands, fit') = after (take (suc n) rows) (drop (suc n) rows) r _ here in
      (here, Serves-Stands ns (drop (suc n) rows) _ fit' stands)

  -- For a runtime and an SQLite that behave as documented, a user who does not interrupt, a result
  -- whose present parameters fit, new parameters that validate_params accepts and whose number is
  -- the query's, more than none, and a query that gives the rows `runs`, one run for each row of
  -- the parameters: bind() raises no error, and neither does any fetch behind it of at most `n + 1`
  -- rows, for any numbers `n` one after the other. Each frame has the cells of the next rows of all
  -- runs joined, so that no row is lost, given twice, or out of order, whichever way the fetches
  -- cut the runs.
  pub bind-Serves :
      (params : List Param) (r : ResultImpl Stmt) (runs : List (List Stmt)) (ns : List ℕ)
      → validate_params params ≡ ok tt
      → IsFitting r
      → r.nparams ≢ 0
      → length params ≡ r.nparams
      → Executes sq params 0 r.stmt runs
      → first_length params ≡ length runs
      → ((bind sq params r).0 ≡ ok tt) × Serves ns (joined runs) (bind sq params r).1
  bind-Serves params r runs ns valid fit some_params same es count =
      let (done, stands) = bind-Stands sq params r runs some_params same es count in
      (
        done,
        Serves-Stands ns (joined runs) (bind sq params r).1 (bind-IsFitting sq params r valid fit).1
            stands,
      )

  -- The result that new_result() makes, and the fetches behind it.
  abbrev pub Started : List ℕ → List Stmt → Result (ResultImpl Stmt × List ℕ) → Type 0
  Started ns rows (stop e) = ⊥
  Started ns rows (ok (r, rest)) = Serves ns rows r

  Starts-Started :
      (ns : List ℕ) (rows : List Stmt) (stmt : Stmt) (alt : Bool)
      (x : Result (ResultImpl Stmt × List ℕ))
      → Starts sq rows stmt alt x
      → Started ns rows x
  Starts-Started ns rows stmt alt (stop e) h = h
  Starts-Started ns rows stmt alt (ok (r, rest)) (stands, fit, ready, types, alts) =
      Serves-Stands ns rows r fit stands

  -- For a runtime and an SQLite that behave as documented, a user who does not interrupt, and a
  -- query that SQLite prepares to a statement without parameters, which gives the rows `rows`: the
  -- constructor raises no error, and neither does any fetch behind it of at most `n + 1` rows, for
  -- any numbers `n` one after the other; each frame has the cells of the next of the rows.
  pub new_result-Serves :
      (sql : List ℕ) (alt : Bool) (stmt end : Stmt) (tail : Option (List ℕ)) (rows : List Stmt)
      (ns : List ℕ)
      → sq.prepare_v2 sql (min (suc (length sql)) (2 ^ 31 - 1)) ≡ (0, stmt, tail)
      → sq.bind_parameter_count stmt ≡ 0
      → Yields sq stmt rows end
      → Started ns rows (new_result sq sql alt)
  new_result-Serves sql alt stmt end tail rows ns e none_needed ys =
      Starts-Started ns rows stmt alt (new_result sq sql alt)
        (new_result-Starts sq sql alt stmt end tail rows e none_needed ys)
