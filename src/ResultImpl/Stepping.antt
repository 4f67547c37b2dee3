-- ===== src/ResultImpl/Stepping.antt =====
-- Stepping ends: the rows of the parameters bound the rounds, and none is read out of bounds.
use rsqlite.Prelude.{
  ℕ, zero, suc, ◌-◌, ◌<◌, ◌≡◌, refl, ◌∙◌, Bool, true, false, Bool-cases, inl, inr, List, [], ◌∷◌,
  leb, ◌==◌, if◌then◌else◌, arith,
}
use rsqlite.Outcome.{Result, ok, stop, sqlite_error}
use rsqlite.Exec.{pure, continue}
use rsqlite.Storage.Blocks.{All}
use rsqlite.Params.{BoundValue, Param, param_length, bind_value}
use rsqlite.Params.Bounds.{within}
use rsqlite.ResultImpl.{
  Sqlite, ResultImpl, bind_params, bind_row, step_done, step_run, step_loop, step, sqlite_done,
  sqlite_row,
}
use rsqlite.ResultImpl.Kept.{
  IsFitting, Safe, Kept, Kept-trans, Kept-refl, Kept-stmt, Kept-complete, Kept-group, fits_still,
  Safe-stop, Safe-ok, bind_value-fuel, Bound, Stepped, Ended,
}

module _ {Stmt : Type 0} (sq : Sqlite Stmt) where
  bind_params_lem :
      (j : ℕ) (ps : List Param) (r : ResultImpl Stmt)
      → r.group < r.groups
      → All (λ (p : Param). param_length p ≡ r.groups) ps
      → Bound r (bind_params sq j ps r)
  unfolding bind_params
  bind_params_lem j [] r lt fit = (Safe-ok tt, (Kept-refl r, refl))
  bind_params_lem j (p ∷ ps) r lt fit =
      by_value (bind_value p r.group)
        (within p r.group (omega (arith, lt, fit.0)), bind_value-fuel p r.group)
        (λ next here. bind_params_lem (suc j) ps next here)
    where
      by_value :
          (x : Result BoundValue)
          → Safe x
          → ((next : ResultImpl Stmt)
              → next.group < next.groups
              → All (λ (q : Param). param_length q ≡ next.groups) ps
              → Bound next (bind_params sq (suc j) ps next))
          → Bound {A = Unit {0}} r (elim x [
            | ok v ↦ bind_params sq (suc j) ps (record r { stmt = sq.bind r.stmt j v })
            | stop e ↦ (stop e, r)
          ])
      by_value (ok v) s ih =
          let next : ResultImpl Stmt = record r { stmt = sq.bind r.stmt j v } in
          let (safe, (kept, same)) = ih next lt fit.1 in
          (safe, (Kept-trans r next _ (Kept-stmt r (sq.bind r.stmt j v)) kept, same))
      by_value (stop e) s ih = (Safe-stop e s, (Kept-refl r, refl))

  pub bind_row_lem :
      (r : ResultImpl Stmt)
      → IsFitting r
      → Bound r (bind_row sq r) × ((bind_row sq r).0 ≡ ok true → r.group < r.groups)
  unfolding bind_row
  bind_row_lem r fit = elim (Bool-cases (leb r.groups r.group)) [
    | inl over ↦ rw over ((Safe-ok false, (Kept-refl r, refl)), (λ h. cc))
    | inr more ↦
        let cleared : ResultImpl Stmt = record r { stmt = sq.clear_bindings (sq.reset r.stmt) } in
        let lt : r.group < r.groups = ground arith in
        rw more (
          after r cleared (Kept-stmt r (sq.clear_bindings (sq.reset r.stmt))) refl
              (bind_params sq 1 r.params cleared) (bind_params_lem 1 r.params cleared lt fit),
          λ h. lt,
        )
  ]
    where
      after :
          (r cleared : ResultImpl Stmt)
          → Kept r cleared
          → cleared.group ≡ r.group
          → (out : Result (Unit {0}) × ResultImpl Stmt) → Bound cleared out
          → Bound r (continue out.0 (λ u. pure true) out.1)
      after r cleared k g (ok u, s) b = (Safe-ok true, (Kept-trans r cleared s k b.1.0, b.1.1 ∙ g))
      after r cleared k g (stop e, s) b =
          (Safe-stop e b.0, (Kept-trans r cleared s k b.1.0, b.1.1 ∙ g))

  step_done_lem : (r : ResultImpl Stmt) → IsFitting r → Stepped r (step_done sq r)
  unfolding step_done
  step_done_lem r fit =
      let next : ResultImpl Stmt = record r { group = suc r.group } in
      let (b, more) = bind_row_lem next fit in after next refl refl (bind_row sq next) b more
    where
      after :
          (next : ResultImpl Stmt)
          → next.group ≡ suc r.group
          → next.groups ≡ r.groups
          → (out : Result Bool × ResultImpl Stmt) → Bound (record r { group = suc r.group }) out
          → (out.0 ≡ ok true → suc r.group < r.groups)
          → Stepped r (
              continue out.0
                (λ more s. (ok more, if more then s else record s { complete = true }))
                out.1)
      after next g gs (ok true, s) b more = (
        Safe-ok true,
        (
          Kept-trans r _ s (Kept-group r) b.1.0,
          λ h. (omega (arith, b.1.1), omega (arith, b.1.1, b.1.0.groups, more refl)),
        ),
      )
      after next g gs (ok false, s) b more = (
        Safe-ok false,
        (Kept-trans r _ _ (Kept-group r) (Kept-trans _ s _ b.1.0 (Kept-complete s)), λ h. cc),
      )
      after next g gs (stop e, s) b more =
          (Safe-stop e b.0, (Kept-trans r _ s (Kept-group r) b.1.0, λ h. cc))

  step_run_lem : (r : ResultImpl Stmt) → IsFitting r → Stepped r (step_run sq r)
  unfolding step_run
  step_run_lem r fit =
      by_code ((sq.step r.stmt).0 == sqlite_done) ((sq.step r.stmt).0 == sqlite_row)
        (record r { stmt = (sq.step r.stmt).1 }) (Kept-stmt r (sq.step r.stmt).1) refl
        (step_done_lem (record r { stmt = (sq.step r.stmt).1 }) fit)
    where
      by_code :
          (done row : Bool) (s : ResultImpl Stmt)
          → Kept r s
          → s.group ≡ r.group
          → Stepped s (step_done sq s)
          → Stepped r (
              if done
              then step_done sq s
              else if row
              then (ok false, s)
              else (stop sqlite_error, s))
      by_code true row s k g d =
          (d.0, (Kept-trans r s _ k d.1.0, λ h. let (a, b) = d.1.1 h in (omega (arith, a, g), b)))
      by_code false true s k g d = (Safe-ok false, (k, λ h. cc))
      by_code false false s k g d = (((λ h. cc), (λ h. cc)), (k, λ h. cc))

  step_loop_lem :
      (f : ℕ) (r : ResultImpl Stmt)
      → IsFitting r
      → r.groups - r.group < f
      → Ended r (step_loop sq f r)
  unfolding step_loop
  step_loop_lem zero r fit lt = absurd (omega arith)
  step_loop_lem (suc f) r fit lt =
      after (step_run sq r) (step_run_lem r fit) (λ s. step_loop_lem f s)
    where
      after :
          (out : Result Bool × ResultImpl Stmt)
          → Stepped r out
          → ((s : ResultImpl Stmt)
              → IsFitting s
              → s.groups - s.group < f
              → Ended s (step_loop sq f s))
          → Ended r (
              continue out.0
                (λ again. elim again [ true ↦ step_loop sq f | false ↦ pure tt ])
                out.1)
      after (ok true, s) b ih =
          let (a, c) = b.1.1 refl in
          let (safe, kept) = ih s (fits_still r s b.1.0 fit) (omega (arith, a, c, b.1.0.groups)) in
          (safe, Kept-trans r s _ b.1.0 kept)
      after (ok false, s) b ih = (Safe-ok tt, b.1.0)
      after (stop e, s) b ih = (Safe-stop e b.0, b.1.0)

  -- If all parameters have as many rows as the statement runs through, step() ends within the
  -- rounds that are left, reads no parameter out of bounds, and changes nothing but the statement,
  -- the row of the parameters and whether the result is complete.
  pub step-Safe : (r : ResultImpl Stmt) → IsFitting r → Safe (step sq r).0 × Kept r (step sq r).1
  unfolding step
  step-Safe r fit = step_loop_lem (suc (r.groups - r.group)) r fit (omega arith)
