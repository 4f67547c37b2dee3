-- ===== src/ResultImpl/Starting.antt =====
-- The constructor, for a query without parameters, against what SQLite answers.
use rsqlite.Prelude.{
  ℕ, suc, ◌^◌, min, ◌-◌, ◌≡◌, refl, sym, ap, Bool, true, false, Option, List, [], append-nil,
  length, ◌==◌, if-true, if◌then◌else◌, arith,
}
use mathlib.Core.Path.{subst}
use rsqlite.Outcome.{Result, ok, stop}
use rsqlite.ResultImpl.{
  Sqlite, ResultImpl, step, after_bind, init, new_result, prepare, constructed, created, fresh,
  get_column_names, get_initial_field_types, unread, raise_sqlite_exception,
}
use rsqlite.ResultImpl.Stepping.{step-Safe}
use rsqlite.ResultImpl.Kept.{IsFitting, Kept, fits_still}
use rsqlite.ResultImpl.Answers.{Yields, Stands}
use rsqlite.ResultImpl.Running.{Ready, step-Stands}

module _ {Stmt : Type 0} (sq : Sqlite Stmt) where
  -- What new_result() makes of the statement: a result at the rows `rows`, with parameters that
  -- fit.
  abbrev pub Starts : List Stmt → Stmt → Bool → Result (ResultImpl Stmt × List ℕ) → Type 0
  Starts rows stmt alt (stop e) = ⊥
  Starts rows stmt alt (ok (r, rest)) =
      Stands sq r rows
      × IsFitting r
      × (r.ready ≡ true)
      × (r.types ≡ get_initial_field_types (length (get_column_names sq stmt)))
      × (r.with_alt_types ≡ alt)

  pub prepare-ok :
      (sql : List ℕ) (stmt : Stmt) (tail : Option (List ℕ))
      → sq.prepare_v2 sql (min (suc (length sql)) (2 ^ 31 - 1)) ≡ (0, stmt, tail)
      → prepare sq sql ≡ ok (stmt, unread tail)
  unfolding prepare
  prepare-ok sql stmt tail e =
      ap (λ (rc, s, t). if rc == 0 then ok (s, unread t) else raise_sqlite_exception) e

  created-Starts :
      (stmt : Stmt) (alt : Bool) (rest : List ℕ) (rows : List Stmt)
      (out : Result (Unit {0}) × ResultImpl Stmt)
      → Ready sq rows out
      → Kept (record (fresh sq stmt alt) { ready = true; nrows = 0; complete = false }) out.1
      → Starts rows stmt alt (created sq rest out)
  unfolding created fresh
  created-Starts stmt alt rest rows (ok u, r) (done, stands) k = (
    stands,
    fits_still (record (fresh sq stmt alt) { ready = true; nrows = 0; complete = false }) r k tt,
    k.ready,
    k.types,
    k.alt_types,
  )
  created-Starts stmt alt rest rows (stop e, r) (done, stands) k = absurd (cc done)

  constructed-Starts :
      (alt : Bool) (stmt : Stmt) (end : Stmt) (rest : List ℕ) (rows : List Stmt)
      → sq.bind_parameter_count stmt ≡ 0
      → Yields sq stmt rows end
      → Starts rows stmt alt (constructed sq alt (ok (stmt, rest)))
  unfolding constructed fresh after_bind init
  constructed-Starts alt stmt end rest rows none_needed ys =
      let begun : ResultImpl Stmt = record (fresh sq stmt alt) {
        ready = true;
        nrows = 0;
        complete = false;
      } in
      let none_is : (sq.bind_parameter_count stmt == 0) ≡ true = ground arith in
      subst (λ o. Starts rows stmt alt (created sq rest o)) (sym (if-true none_is _))
        (created-Starts stmt alt rest rows (step sq begun)
          (step-Stands sq begun rows refl (record {
            rows = rows;
            end = end;
            runs = [];
            yields = ys;
            executes = tt;
            count = refl;
            all_rows = sym (append-nil rows);
          }))
          (step-Safe sq begun tt).1)

  -- For an SQLite that prepares the query to a statement without parameters, which gives the rows
  -- `rows`: the constructor makes a result that stands at the first of them, or is complete if
  -- there is none.
  pub new_result-Starts :
      (sql : List ℕ) (alt : Bool) (stmt end : Stmt) (tail : Option (List ℕ)) (rows : List Stmt)
      → sq.prepare_v2 sql (min (suc (length sql)) (2 ^ 31 - 1)) ≡ (0, stmt, tail)
      → sq.bind_parameter_count stmt ≡ 0
      → Yields sq stmt rows end
      → Starts rows stmt alt (new_result sq sql alt)
  unfolding new_result
  new_result-Starts sql alt stmt end tail rows e none_needed ys =
      subst (λ x. Starts rows stmt alt (constructed sq alt x)) (sym (prepare-ok sql stmt tail e))
        (constructed-Starts alt stmt end (unread tail) rows none_needed ys)
