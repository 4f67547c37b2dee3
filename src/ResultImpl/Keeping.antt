-- ===== src/ResultImpl/Keeping.antt =====
-- What bind() leaves besides the rows: the types, and that the result is ready.
use rsqlite.Prelude.{◌≡◌, ◌≢◌, refl, true, false, List, [], ◌∷◌, length, ◌==◌, arith}
use rsqlite.Outcome.{ok}
use rsqlite.Exec.{continue}
use rsqlite.Params.{Param, validate_params}
use rsqlite.ResultImpl.{
  Sqlite, ResultImpl, bind, bind_row, after_bind, init, with_params, first_length,
}
use rsqlite.ResultImpl.Stepping.{step-Safe}
use rsqlite.ResultImpl.Binding.{accepted-All}
use rsqlite.ResultImpl.Answers.{Executes}
use rsqlite.ResultImpl.Running.{bind_row-Binds, bind_row-over}

-- The result is ready, and has the types it had.
pub record IsBound {Stmt : Type 0} (r s : ResultImpl Stmt) : Type 0 where
  pub ready : s.ready ≡ true
  pub types : s.types ≡ r.types
  pub alt_types : s.with_alt_types ≡ r.with_alt_types

module _ {Stmt : Type 0} (sq : Sqlite Stmt) where
  pub bind-IsBound :
      (params : List Param) (r : ResultImpl Stmt) (runs : List (List Stmt))
      → validate_params params ≡ ok tt
      → r.nparams ≢ 0
      → length params ≡ r.nparams
      → Executes sq params 0 r.stmt runs
      → first_length params ≡ length runs
      → IsBound r (bind sq params r).1
  unfolding bind after_bind init with_params
  bind-IsBound params r runs valid some_params same es count =
      rw (not_none, equal) (by_runs runs es count)
    where
      not_none : (r.nparams == 0) ≡ false
      not_none = ground arith

      equal : (length params == r.nparams) ≡ true
      equal = ground arith

      by_runs :
          (runs : List (List Stmt))
          → Executes sq params 0 r.stmt runs
          → first_length params ≡ length runs
          → IsBound r
              (continue
                (bind_row sq (with_params sq params r)).0
                (after_bind sq)
                (bind_row sq (with_params sq params r)).1).1
      by_runs [] es count =
          rw (bind_row-over sq (with_params sq params r) (omega (arith, count)))
            (record { ready = refl; types = refl; alt_types = refl })
      by_runs (rows ∷ runs) (t, end, binds, ys, es) count =
          let kept =
            (step-Safe sq
              (record (with_params sq params r) {
                stmt = t;
                ready = true;
                nrows = 0;
                complete = false;
              })
              (accepted-All params valid)).1 in
          rw (bind_row-Binds sq (with_params sq params r) t (omega (arith, count)) binds)
            (record { ready = kept.ready; types = kept.types; alt_types = kept.alt_types })
