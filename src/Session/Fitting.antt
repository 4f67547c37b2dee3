-- ===== src/Session/Fitting.antt =====
-- Whatever method of a result is called, its parameters fit its rows afterwards.
use rsqlite.Prelude.{
  ℕ, zero, suc, ◌≡◌, refl, ℤ, pos, eqb_ℤ, String, Bool, true, false, List, [], ◌==◌, if◌then◌else◌,
}
use rsqlite.Outcome.{Result, ok, stop, not_bound}
use rsqlite.Exec.{Exec, continue, pure, lift, ◌>>=◌}
use rsqlite.Runtime.{Runtime, SexpType}
use rsqlite.Source.{Warning}
use rsqlite.SqliteSource.{Boost}
use rsqlite.Params.{Param, validate_params}
use rsqlite.DataFrame.{DbDataFrame, advance}
use rsqlite.ResultImpl.{
  Sqlite, ResultImpl, Fetched, step, new_result, prepare, constructed, created, fresh, after_bind,
}
use rsqlite.ResultImpl.Fetch
use rsqlite.ResultImpl.Fetch.{
  current_row, empty_frame, fill, take_data, finish_round, fetch_round, go_on, fetch_loop,
  fetch_rows, peek_first_row, get_column_info, type_name,
}
use rsqlite.ResultImpl.Stepping.{step-Safe}
use rsqlite.ResultImpl.Kept.{IsFitting, fits_still}
use rsqlite.ResultImpl.Binding.{after_bind_lem, bind-IsFitting}
use rsqlite.DbResult

-- A method after which the parameters still fit.
abbrev pub Fitted : {Stmt A : Type 0} → Exec (ResultImpl Stmt) A → Type 0
Fitted {Stmt} m = (r : ResultImpl Stmt) → IsFitting r → IsFitting (m r).1

then-Fitted :
    {Stmt A B : Type 0} (m : Exec (ResultImpl Stmt) A) (f : A → Exec (ResultImpl Stmt) B)
    → Fitted m
    → ((a : A) → Fitted (f a))
    → Fitted (m >>= f)
then-Fitted {Stmt} {A} {B} m f h k r fit = after (m r) (h r fit)
  where
    after :
        (out : Result A × ResultImpl Stmt) → IsFitting out.1 → IsFitting (continue out.0 f out.1).1
    after (ok a, s) fit' = k a s fit'
    after (stop e, s) fit' = fit'

if-Fitted :
    {Stmt A : Type 0} (b : Bool) (x y : Result A × ResultImpl Stmt)
    → IsFitting x.1
    → IsFitting y.1
    → IsFitting (if b then x else y).1
if-Fitted true x y h k = h
if-Fitted false x y h k = k

choose-Fitted :
    {Stmt A : Type 0} (b : Bool) (m n : Exec (ResultImpl Stmt) A)
    → Fitted m
    → Fitted n
    → Fitted (if b then m else n)
choose-Fitted true m n h k = h
choose-Fitted false m n h k = k

module _ {Stmt : Type 0} (sq : Sqlite Stmt) where
  step-Fitted : Fitted (step sq)
  step-Fitted r fit = fits_still r (step sq r).1 (step-Safe sq r fit).1 fit

  module _ (rt : Runtime) (boost : Boost) where
    fill-Fitted : (df : DbDataFrame) → Fitted (fill sq rt boost df)
    unfolding fill
    fill-Fitted df r fit = fit

    take_data-Fitted : (df : DbDataFrame) → Fitted (take_data sq rt boost df)
    unfolding take_data
    take_data-Fitted df r fit = fit

    peek-Fitted : Fitted (peek_first_row sq rt boost)
    unfolding peek_first_row
    peek-Fitted r fit =
        let df : DbDataFrame = empty_frame sq rt boost (pos 1) r in
        then-Fitted (if r.complete then pure (df, []) else fill sq rt boost df) _
          (choose-Fitted r.complete (pure (df, [])) (fill sq rt boost df) (λ r fit. fit)
            (fill-Fitted df))
          (λ (filled, warnings).
            then-Fitted (take_data sq rt boost filled) _ (take_data-Fitted filled)
              (λ out r fit. fit))
          r fit

    pub column_info-Fitted :
        (type2char : SexpType → String) → Fitted (DbResult.get_column_info sq rt boost type2char)
    unfolding DbResult.get_column_info get_column_info
    column_info-Fitted type2char =
        then-Fitted (get_column_info sq rt boost type2char) _
          (then-Fitted (peek_first_row sq rt boost) _ peek-Fitted (λ out r fit. fit))
          (λ out r fit. fit)

    module _ (interrupt : ℕ → Bool) where
      round-Fitted : (df : DbDataFrame) → Fitted (fetch_round sq rt boost interrupt df)
      unfolding fetch_round finish_round
      round-Fitted df = then-Fitted (fill sq rt boost df) _ (fill-Fitted df) (λ (filled, warnings).
          then-Fitted (step sq) _ step-Fitted (λ u r fit.
            then-Fitted (lift (advance (interrupt (suc filled.i)) filled)) _ (λ s fit'. fit')
              (λ a s fit'. fit') (record r { nrows = suc r.nrows }) fit))

      go_on-Fitted :
          (rec : DbDataFrame → Exec (ResultImpl Stmt) (DbDataFrame × List Warning))
          (o : DbDataFrame × List Warning × Bool)
          → ((df : DbDataFrame) → Fitted (rec df))
          → Fitted (go_on sq rt boost interrupt rec o)
      unfolding go_on
      go_on-Fitted rec (next, warnings, true) h r fit =
          then-Fitted (rec next) _ (h next) (λ a r fit. fit) r fit
      go_on-Fitted rec (next, warnings, false) h r fit = fit

      loop-Fitted :
          (fuel : ℕ) (df : DbDataFrame) → Fitted (fetch_loop sq rt boost interrupt fuel df)
      unfolding fetch_loop go_on
      loop-Fitted zero df r fit = if-Fitted r.complete (ok (df, []), r) _ fit fit
      loop-Fitted (suc f) df r fit =
          let rec : DbDataFrame → Exec (ResultImpl Stmt) (DbDataFrame × List Warning) =
            λ next. fetch_loop sq rt boost interrupt f next in
          if-Fitted r.complete (ok (df, []), r)
            ((fetch_round sq rt boost interrupt df >>= go_on sq rt boost interrupt rec) r) fit
            (then-Fitted (fetch_round sq rt boost interrupt df) (go_on sq rt boost interrupt rec)
              (round-Fitted df) (λ o. go_on-Fitted rec o (λ next. loop-Fitted f next)) r fit)

      rows-Fitted : (fuel : ℕ) (n : ℤ) → Fitted (fetch_rows sq rt boost interrupt fuel n)
      unfolding fetch_rows
      rows-Fitted fuel n r fit =
          then-Fitted (fetch_loop sq rt boost interrupt fuel (empty_frame sq rt boost n r)) _
            (loop-Fitted fuel (empty_frame sq rt boost n r))
            (λ (df, warnings).
              then-Fitted (take_data sq rt boost df) _ (take_data-Fitted df) (λ out s fit'. fit'))
            r fit

      pub fetch-Fitted : (fuel : ℕ) (n : ℤ) → Fitted (DbResult.fetch sq rt boost interrupt fuel n)
      unfolding DbResult.fetch Fetch.fetch
      fetch-Fitted fuel n r fit =
          if-Fitted r.ready _ (stop not_bound, r)
            (if-Fitted (eqb_ℤ n (pos 0)) (peek_first_row sq rt boost r)
              (fetch_rows sq rt boost interrupt fuel n r) (peek-Fitted r fit)
              (rows-Fitted fuel n r fit))
            fit

  pub bind-Fitted : (params : List Param) → Fitted (DbResult.bind sq params)
  unfolding DbResult.bind
  bind-Fitted params r fit = by_check (validate_params params) refl
    where
      by_check :
          (x : Result (Unit {0}))
          → validate_params params ≡ x
          → IsFitting (continue x (λ u. rsqlite.ResultImpl.bind sq params) r).1
      by_check (ok u) e = (bind-IsFitting sq params r e fit).1
      by_check (stop e') e = fit

  -- A result that was created has parameters that fit.
  abbrev pub Made : Result (ResultImpl Stmt × List ℕ) → Type 0
  Made (ok (r, tail)) = IsFitting r
  Made (stop e) = Unit {0}

  created-Made :
      (tail : List ℕ) (out : Result (Unit {0}) × ResultImpl Stmt)
      → IsFitting out.1
      → Made (created sq tail out)
  unfolding created
  created-Made tail (ok u, r) fit = fit
  created-Made tail (stop e, r) fit = tt

  constructed-Made : (alt : Bool) (x : Result (Stmt × List ℕ)) → Made (constructed sq alt x)
  unfolding constructed fresh
  constructed-Made alt (stop e) = tt
  constructed-Made alt (ok (stmt, rest)) = created-Made rest _ (
      if-Fitted (sq.bind_parameter_count stmt == 0) (after_bind sq true (fresh sq stmt alt))
        (ok tt, fresh sq stmt alt) (after_bind_lem sq true (fresh sq stmt alt) tt).1 tt)

  pub new_result-Made : (sql : List ℕ) (alt : Bool) → Made (new_result sq sql alt)
  unfolding new_result
  new_result-Made sql alt = constructed-Made alt (prepare sq sql)
