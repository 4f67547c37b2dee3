-- ===== src/ResultImpl/Answers.antt =====
-- What SQLite answers to a query, independent of the loops of src/SqliteResultImpl.cpp: the rows of
-- one run of the statement, and those of one run for each row of the parameters.
use rsqlite.Prelude.{ℕ, suc, ◌-◌, ◌≡◌, Bool, true, false, List, [], ◌∷◌, ◌++◌, length}
use rsqlite.Outcome.{ok}
use rsqlite.SqliteSource.{Boost, sqlite_source}
use rsqlite.DataFrame.{Row}
use rsqlite.Params.{Param, BoundValue, bind_value}
use rsqlite.ResultImpl.{Sqlite, ResultImpl, sqlite_row, sqlite_done}

-- All runs, one behind the other.
abbrev pub joined {ℓ} : {A : Type ℓ} → List (List A) → List A
joined [] = []
joined (rows ∷ runs) = rows ++ joined runs

module _ {Stmt : Type 0} (sq : Sqlite Stmt) where
  -- From the state `s`, the statement gives a row in each of the states `rows`, and is done in
  -- `end`.
  abbrev pub Yields : Stmt → List Stmt → Stmt → Type 0
  Yields s [] end = sq.step s ≡ (sqlite_done, end)
  Yields s (t ∷ rows) end = (sq.step s ≡ (sqlite_row, t)) × Yields t rows end

  -- The values of `params` at the row `group`, bound from the position `j` on, lead from `s` to
  -- `t`.
  abbrev pub Binds : ℕ → ℕ → List Param → Stmt → Stmt → Type 0
  Binds group j [] s t = s ≡ t
  Binds group j (p ∷ params) s t =
      (v : BoundValue) × (bind_value p group ≡ ok v) × Binds group (suc j) params (sq.bind s j v) t

  -- One run for each row of the parameters from `group` on; `runs` has the rows of each.
  abbrev pub Executes : List Param → ℕ → Stmt → List (List Stmt) → Type 0
  Executes params group s [] = Unit
  Executes params group s (rows ∷ runs) =
      (t : Stmt) × (end : Stmt) × Binds group 1 params (sq.clear_bindings (sq.reset s)) t
      × Yields t rows end
      × Executes params (suc group) end runs

  -- The statement still has to give the rows `more`: those of its run, then those of further runs.
  pub record IsPending (r : ResultImpl Stmt) (more : List Stmt) : Type 0 where
    pub rows : List Stmt
    pub end : Stmt
    pub runs : List (List Stmt)
    pub yields : Yields r.stmt rows end
    pub executes : Executes r.params (suc r.group) end runs
    pub count : r.groups - suc r.group ≡ length runs
    pub all_rows : more ≡ rows ++ joined runs

  -- The result is at the first of the rows `rows`, or complete if there is none.
  abbrev pub Stands : ResultImpl Stmt → List Stmt → Type 0
  Stands r [] = r.complete ≡ true
  Stands r (s ∷ more) = (r.complete ≡ false) × (r.stmt ≡ s) × IsPending r more

-- The cells of the row that a statement is at.
abbrev pub cells_of : {Stmt : Type 0} → Sqlite Stmt → Boost → Bool → Stmt → Row
cells_of sq boost alt s j = sqlite_source boost alt (sq.column s j)
