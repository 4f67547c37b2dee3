-- ===== src/ResultImpl/Showing.antt =====
-- What stepping shows is what SQLite answers.
use rsqlite.Prelude.{
  ℕ, zero, suc, ◌≤◌, ◌≡◌, refl, ap, ◌∙◌, Bool, true, false, ◌||◌, if-true, if-false, List, [], ◌∷◌,
  map, length, take, arith,
}
use rsqlite.DataType.{DataType}
use rsqlite.Runtime.{Runtime}
use rsqlite.SqliteSource.{Boost}
use rsqlite.ResultImpl.{Sqlite, ResultImpl, step}
use rsqlite.ResultImpl.Fetch.{current_row}
use rsqlite.ResultImpl.Stepping.{step-Safe}
use rsqlite.ResultImpl.Kept.{IsFitting, Kept, fits_still}
use rsqlite.ResultImpl.Fetching.{after_row, seen}
use rsqlite.ResultImpl.Unlimited.{ends_within}
use rsqlite.ResultImpl.Answers.{Stands, cells_of}
use rsqlite.ResultImpl.Running.{step-Stands}

or_right : (a : Bool) {b : Bool} → b ≡ true → (a || b) ≡ true
or_right true h = refl
or_right false h = h

module _ {Stmt : Type 0} (sq : Sqlite Stmt) where
  -- The number of the rows and the types do not count.
  pub Stands-same :
      (s : ResultImpl Stmt) (rows : List Stmt) (n : ℕ) (types : List DataType)
      → Stands sq s rows
      → Stands sq (record s { nrows = n; types = types }) rows
  Stands-same s [] n types h = h
  Stands-same s (t ∷ rows) n types (going, here, p) = (
    going,
    here,
    record {
      rows = p.rows;
      end = p.end;
      runs = p.runs;
      yields = p.yields;
      executes = p.executes;
      count = p.count;
      all_rows = p.all_rows;
    },
  )

  -- The row is taken, and the statement is stepped.
  pub after_row-Stands :
      (boost : Boost) (r : ResultImpl Stmt) (t : Stmt) (more : List Stmt)
      → Stands sq r (t ∷ more)
      → Stands sq (after_row sq boost r) more
  unfolding after_row
  after_row-Stands boost r t more (going, here, p) =
      Stands-same (step sq r).1 more (suc (step sq r).1.nrows) (step sq r).1.types
        (step-Stands sq r more going p).1

  pub after_row-Kept :
      (boost : Boost) (r : ResultImpl Stmt)
      → IsFitting r
      → ((after_row sq boost r).with_alt_types ≡ r.with_alt_types)
        × IsFitting (after_row sq boost r)
  unfolding after_row
  after_row-Kept boost r fit =
      let kept : Kept r (step sq r).1 = (step-Safe sq r fit).1 in
      (kept.alt_types, fits_still r (step sq r).1 kept fit)

  -- What stepping shows are the rows, as long as there are any.
  pub seen-Stands :
      (boost : Boost) (rt : Runtime) (n : ℕ) (r : ResultImpl Stmt) (rows : List Stmt)
      → IsFitting r
      → Stands sq r rows
      → seen sq boost n r rt ≡ take n (map (cells_of sq boost r.with_alt_types) rows)
  unfolding seen current_row
  seen-Stands boost rt zero r rows fit h = refl
  seen-Stands boost rt (suc n) r [] fit h = if-true h _
  seen-Stands boost rt (suc n) r (t ∷ more) fit (going, here, p) =
      let (alt, fit') = after_row-Kept boost r fit in
      let rest : seen sq boost n (after_row sq boost r) rt
          ≡ take n (map (cells_of sq boost r.with_alt_types) more) =
        seen-Stands boost rt n (after_row sq boost r) more fit'
          (after_row-Stands boost r t more (going, here, p))
        ∙ ap (λ b. take n (map (cells_of sq boost b) more)) alt in
      if-false going _ ∙ (λ i. cells_of sq boost r.with_alt_types (here i) ∷ rest i)

  pub ends_within-Stands :
      (boost : Boost) (f : ℕ) (r : ResultImpl Stmt) (rows : List Stmt)
      → Stands sq r rows
      → length rows ≤ f
      → ends_within sq boost f r ≡ true
  unfolding ends_within
  ends_within-Stands boost zero r [] h le = h
  ends_within-Stands boost zero r (t ∷ more) h le = absurd (omega (arith, le))
  ends_within-Stands boost (suc f) r [] h le = rw h refl
  ends_within-Stands boost (suc f) r (t ∷ more) (going, here, p) le = or_right r.complete (
      ends_within-Stands boost f (after_row sq boost r) more
        (after_row-Stands boost r t more (going, here, p)) (omega (arith, le)))
