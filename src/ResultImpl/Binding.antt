-- ===== src/ResultImpl/Binding.antt =====
-- Binding: accepted parameters fit, and refused ones change nothing.
use rsqlite.Prelude.{
  ◌≡◌, ◌≢◌, refl, Bool, true, false, Bool-cases, ◌⊎◌, inl, inr, List, [], ◌∷◌, length, ◌==◌, arith,
}
use rsqlite.Outcome.{Result, ok, stop}
use rsqlite.Exec.{continue}
use rsqlite.Storage.Blocks.{All}
use rsqlite.Params.{Param, param_length, validate_params}
use rsqlite.Params.Bounds.{validate_params-All}
use rsqlite.ResultImpl.{
  Sqlite, ResultImpl, init, bind_row, step, after_bind, bind, with_params, first_length,
}
use rsqlite.ResultImpl.Stepping.{bind_row_lem, step-Safe}
use rsqlite.ResultImpl.Kept.{IsFitting, Safe, Bound, Safe-stop, Safe-ok, fits_still}

-- Accepted parameters have the length of the first one.
pub accepted-All :
    (params : List Param)
    → validate_params params ≡ ok tt
    → All (λ (p : Param). param_length p ≡ first_length params) params
accepted-All [] h = tt
accepted-All (p ∷ params) h = validate_params-All p params h

abbrev Fits : {Stmt A : Type 0} → Result A × ResultImpl Stmt → Type 0
Fits out = Safe out.0 × IsFitting out.1

module _ {Stmt : Type 0} (sq : Sqlite Stmt) where
  pub after_bind_lem :
      (more : Bool) (r : ResultImpl Stmt) → IsFitting r → Fits (after_bind sq more r)
  unfolding after_bind init
  after_bind_lem true r fit =
      let begun : ResultImpl Stmt = record r { ready = true; nrows = 0; complete = false } in
      let (safe, kept) = step-Safe sq begun fit in
      (safe, fits_still begun (step sq begun).1 kept fit)
  after_bind_lem false r fit = (Safe-ok tt, fit)

  bound_lem :
      (r : ResultImpl Stmt)
      → IsFitting r
      → Fits (continue (bind_row sq r).0 (after_bind sq) (bind_row sq r).1)
  bound_lem r fit = after (bind_row sq r) (bind_row_lem sq r fit).0
    where
      after :
          (out : Result Bool × ResultImpl Stmt)
          → Bound r out
          → Fits (continue out.0 (after_bind sq) out.1)
      after (ok more, s) b = after_bind_lem more s (fits_still r s b.1.0 fit)
      after (stop e, s) b = (Safe-stop e b.0, fits_still r s b.1.0 fit)

  -- For a result whose parameters fit, binding parameters that validate_params accepts reads none
  -- of them out of bounds and comes to an end, with a result or an error, and the parameters that
  -- the result then has fit its number of rows; where their number is not the one that the query
  -- has, or the query has none, nothing changes.
  pub bind-IsFitting :
      (params : List Param) (r : ResultImpl Stmt)
      → validate_params params ≡ ok tt
      → IsFitting r
      → Safe (bind sq params r).0
        × IsFitting (bind sq params r).1
        × (((r.nparams ≢ 0) × (length params ≡ r.nparams)) ⊎ ((bind sq params r).1 ≡ r))
  unfolding bind with_params
  bind-IsFitting params r h fit = elim (Bool-cases (r.nparams == 0)) [
    | inl none ↦ rw none (((λ e. cc), (λ e. cc)), fit, inr refl)
    | inr needed ↦ elim (Bool-cases (length params == r.nparams)) [
      | inl same ↦
          let (safe, fits) = bound_lem (with_params sq params r) (accepted-All params h) in
          rw (needed, same) (safe, fits, inl ((λ e. ground arith), ground arith))
      | inr other ↦ rw (needed, other) (((λ e. cc), (λ e. cc)), fit, inr refl)
    ]
  ]
