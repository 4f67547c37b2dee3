-- ===== src/ResultImpl/Running.antt =====
-- Stepping and binding against what SQLite answers: every row is shown once, in order, those of one
-- row of the parameters before those of the next.
use rsqlite.Prelude.{
  ℕ, zero, suc, ◌-◌, ◌≤◌, ◌<◌, ◌≡◌, ◌≢◌, refl, ap, true, false, List, [], ◌∷◌, ◌++◌, length, leb,
  ◌==◌, arith,
}
use rsqlite.Outcome.{Result, ok}
use rsqlite.Exec.{continue}
use rsqlite.Params.{Param}
use rsqlite.ResultImpl.{
  Sqlite, ResultImpl, bind_params, bind_row, step_done, step_run, step_loop, step, after_bind, init,
  bind, with_params, first_length, sqlite_row, sqlite_done,
}
use rsqlite.ResultImpl.Answers.{Yields, Binds, Executes, IsPending, Stands, joined}

module _ {Stmt : Type 0} (sq : Sqlite Stmt) where
  bind_params-Binds :
      (j : ℕ) (params : List Param) (r : ResultImpl Stmt) (t : Stmt)
      → Binds sq r.group j params r.stmt t
      → bind_params sq j params r ≡ (ok tt, record r { stmt = t })
  unfolding bind_params
  bind_params-Binds j [] r t h = ap (λ s. (ok tt, record r { stmt = s })) h
  bind_params-Binds j (p ∷ params) r t (v, e, h) =
      rw (bind_params, e)
        (bind_params-Binds (suc j) params (record r { stmt = sq.bind r.stmt j v }) t h)

  pub bind_row-Binds :
      (r : ResultImpl Stmt) (t : Stmt)
      → r.group < r.groups
      → Binds sq r.group 1 r.params (sq.clear_bindings (sq.reset r.stmt)) t
      → bind_row sq r ≡ (ok true, record r { stmt = t })
  unfolding bind_row
  bind_row-Binds r t lt h =
      let cleared : ResultImpl Stmt = record r { stmt = sq.clear_bindings (sq.reset r.stmt) } in
      let more : leb r.groups r.group ≡ false = ground arith in
      rw (more, bind_params-Binds 1 r.params cleared t h) refl

  pub bind_row-over : (r : ResultImpl Stmt) → r.groups ≤ r.group → bind_row sq r ≡ (ok false, r)
  unfolding bind_row
  bind_row-over r le = let over : leb r.groups r.group ≡ true = ground arith in rw over refl

  -- What a call leaves that ends without an error at the rows `more`.
  abbrev pub Ready : List Stmt → Result (Unit {0}) × ResultImpl Stmt → Type 0
  Ready more out = (out.0 ≡ ok tt) × Stands sq out.1 more

  step_run-row :
      (r : ResultImpl Stmt) (t : Stmt)
      → sq.step r.stmt ≡ (sqlite_row, t)
      → step_run sq r ≡ (ok false, record r { stmt = t })
  unfolding step_run
  step_run-row r t h = rw h refl

  step_run-done :
      (r : ResultImpl Stmt) (t : Stmt)
      → sq.step r.stmt ≡ (sqlite_done, t)
      → step_run sq r ≡ step_done sq (record r { stmt = t })
  unfolding step_run
  step_run-done r t h = rw h refl

  step_done-last :
      (r : ResultImpl Stmt)
      → r.groups ≤ suc r.group
      → step_done sq r ≡ (ok false, record r { group = suc r.group; complete = true })
  unfolding step_done
  step_done-last r le = rw (bind_row-over (record r { group = suc r.group }) le) refl

  step_done-next :
      (r : ResultImpl Stmt) (t : Stmt)
      → suc r.group < r.groups
      → Binds sq (suc r.group) 1 r.params (sq.clear_bindings (sq.reset r.stmt)) t
      → step_done sq r ≡ (ok true, record r { group = suc r.group; stmt = t })
  unfolding step_done
  step_done-next r t lt h = rw (bind_row-Binds (record r { group = suc r.group }) t lt h) refl

  -- The rest of the run, then the runs of the parameters' further rows.
  step_loop-Stands :
      (f : ℕ) (r : ResultImpl Stmt) (rows : List Stmt) (end : Stmt) (runs : List (List Stmt))
      → r.complete ≡ false
      → Yields sq r.stmt rows end
      → Executes sq r.params (suc r.group) end runs
      → r.groups - suc r.group ≡ length runs
      → length runs < f
      → Ready (rows ++ joined runs) (step_loop sq f r)
  unfolding step_loop
  step_loop-Stands zero r rows end runs going ys es count lt = absurd (omega (arith, lt))
  step_loop-Stands (suc f) r (t ∷ rows) end runs going (y, ys) es count lt =
      rw (step_run-row r t y) (
        refl,
        (
          going,
          refl,
          record {
            rows = rows;
            end = end;
            runs = runs;
            yields = ys;
            executes = es;
            count = count;
            all_rows = refl;
          },
        ),
      )
  step_loop-Stands (suc f) r [] end [] going y es count lt =
      rw (step_run-done r end y, step_done-last (record r { stmt = end }) (omega (arith, count)))
        (refl, refl)
  step_loop-Stands (suc f) r [] end (rows ∷ runs) going y (t, last, binds, ys, es) count lt =
      rw
        (
          step_run-done r end y,
          step_done-next (record r { stmt = end }) t (omega (arith, count)) binds,
        )
        (step_loop-Stands f (record r { group = suc r.group; stmt = t }) rows last runs going ys es
          (omega (arith, count)) (omega (arith, lt)))

  -- step() goes to the next row.
  pub step-Stands :
      (r : ResultImpl Stmt) (more : List Stmt)
      → r.complete ≡ false
      → IsPending sq r more
      → Ready more (step sq r)
  unfolding step
  step-Stands r more going p = rw p.all_rows (
      step_loop-Stands (suc (r.groups - r.group)) r p.rows p.end p.runs going p.yields p.executes
        p.count (omega (arith, p.count)))

  -- For parameters whose number is the query's, and more than none, and an SQLite that gives the
  -- rows `runs`, one run for each row of the parameters in order: binding ends without an error,
  -- and the result stands at the first row of all runs joined, with the others to come.
  pub bind-Stands :
      (params : List Param) (r : ResultImpl Stmt) (runs : List (List Stmt))
      → r.nparams ≢ 0
      → length params ≡ r.nparams
      → Executes sq params 0 r.stmt runs
      → first_length params ≡ length runs
      → Ready (joined runs) (bind sq params r)
  unfolding bind after_bind init with_params
  bind-Stands params r runs some_params same es count = rw (not_none, equal) (by_runs runs es count)
    where
      not_none : (r.nparams == 0) ≡ false
      not_none = ground arith

      equal : (length params == r.nparams) ≡ true
      equal = ground arith

      by_runs :
          (runs : List (List Stmt))
          → Executes sq params 0 r.stmt runs
          → first_length params ≡ length runs
          → Ready (joined runs) (
              continue
                (bind_row sq (with_params sq params r)).0
                (after_bind sq)
                (bind_row sq (with_params sq params r)).1)
      by_runs [] es count =
          rw (bind_row-over (with_params sq params r) (omega (arith, count))) (refl, refl)
      by_runs (rows ∷ runs) (t, end, binds, ys, es) count =
          rw (bind_row-Binds (with_params sq params r) t (omega (arith, count)) binds) (
            step-Stands
              (record (with_params sq params r) {
                stmt = t;
                ready = true;
                nrows = 0;
                complete = false;
              })
              (joined (rows ∷ runs)) refl
              (record {
                rows = rows;
                end = end;
                runs = runs;
                yields = ys;
                executes = es;
                count = omega (arith, count);
                all_rows = refl;
              }))
