-- ===== src/ResultImpl/Unlimited.antt =====
-- A fetch without a limit, of a query whose rows end.
use rsqlite.Prelude.{
  ℕ, zero, suc, ◌≡◌, refl, ◌%◌, negsuc, ◌==◌, Bool, true, false, ◌&&◌, ◌||◌, Bool-cases, ◌⊎◌, inl,
  inr, List, [], ◌∷◌, if◌then◌else◌,
}
use rsqlite.Outcome.{Result, ok, stop, interrupted, out_of_fuel}
use rsqlite.Exec.{continue, ◌>>=◌}
use rsqlite.Runtime.{Runtime, IsRuntime}
use rsqlite.Source.{Warning}
use rsqlite.Storage.Blocks.{All}
use rsqlite.Column.{DbColumn}
use rsqlite.Column.Contents.{IsColumn}
use rsqlite.DataFrame.{DbDataFrame, set_columns, set_col_values, advance, new_data_frame}
use rsqlite.DataFrame.ByColumn.{set_columns_lem, new_columns-IsColumn}
use rsqlite.SqliteSource.{Boost}
use rsqlite.SqliteSource.Types.{IsSqliteColumn}
use rsqlite.ResultImpl.{Sqlite, ResultImpl, step}
use rsqlite.ResultImpl.Fetch.{
  current_row, fill, finish_round, go_on, fetch_round, fetch_loop, fetch_rows, empty_frame,
  take_data,
}
use rsqlite.ResultImpl.Stepping.{step-Safe}
use rsqlite.ResultImpl.Kept.{IsFitting, Safe, Kept, Safe-stop, fits_still}
use rsqlite.ResultImpl.Fetching.{
  after_row, seen, Looped, nothing-Taken, extended, grown, counted, Looped-Fetches, Fetches,
  current_row-IsTypedRow,
}

-- The result is complete after at most `n` rows.
unfoldable pub ends_within : {Stmt : Type 0} → Sqlite Stmt → Boost → ℕ → ResultImpl Stmt → Bool
ends_within sq boost zero r = r.complete
ends_within sq boost (suc n) r = r.complete || ends_within sq boost n (after_row sq boost r)

or_false : (a b : Bool) → (a || b) ≡ true → a ≡ false → b ≡ true
or_false true b h e = absurd (cc e)
or_false false b h e = h

module _ {Stmt : Type 0} (sq : Sqlite Stmt) (rt : Runtime) (laws : IsRuntime rt) (boost : Boost)
    (cells : (stmt : Stmt) (j : ℕ) → IsSqliteColumn (sq.column stmt j)) (interrupt : ℕ → Bool) where
  advance-unlimited :
      (b : Bool) (df : DbDataFrame) (m : ℕ)
      → df.n_max ≡ negsuc m
      → (advance b df ≡ stop interrupted) ⊎ (advance b df ≡ ok (record df { i = suc df.i }, true))
  unfolding advance
  advance-unlimited b df m max = elim (Bool-cases ((suc df.i % 1024 == 0) && b)) [
    | inl e ↦ inl (rw e refl)
    | inr e ↦ inr (rw (e, max) refl)
  ]

  -- One row, and the rest of the loop.
  stepped-Looped :
      (f m : ℕ) (df : DbDataFrame) (r : ResultImpl Stmt) (next : List DbColumn) (w : List Warning)
      (run : set_columns rt df.columns (current_row sq rt boost r) ≡ ok (next, w))
      (out : Result (Unit {0}) × ResultImpl Stmt)
      → df.n_max ≡ negsuc m
      → Safe out.0
      → Kept r out.1
      → IsFitting out.1
      → Looped sq rt laws boost cells interrupt f
          (grown sq rt laws boost cells interrupt df next)
          (seen sq boost f (counted sq rt laws boost cells interrupt out.1) rt)
          (counted sq rt laws boost cells interrupt out.1)
          (fetch_loop sq rt boost interrupt f
            (grown sq rt laws boost cells interrupt df next)
            (counted sq rt laws boost cells interrupt out.1))
      → let round =
          continue out.0
            (λ u. finish_round sq rt boost interrupt (record df { columns = next }) w)
            out.1 in
        Looped sq rt laws boost cells interrupt
          (suc f)
          df
          (current_row sq rt boost r
            ∷ seen sq boost f (counted sq rt laws boost cells interrupt out.1) rt)
          r
          (continue round.0
            (go_on sq rt boost interrupt (λ d. fetch_loop sq rt boost interrupt f d))
            round.1)
  unfolding finish_round go_on Looped
  stepped-Looped f m df r next w run (stop e, s) max safe k fit rest = (Safe-stop e safe, fit)
  stepped-Looped f m df r next w run (ok u, s) max safe k fit rest =
      elim (advance-unlimited (interrupt (suc df.i)) (record df { columns = next }) m max) [
        | inl e ↦ rw e (((λ h. cc), (λ h. cc)), fit)
        | inr e ↦ rw e (
            extended sq rt laws boost cells interrupt df r next w run f
              (seen sq boost f (counted sq rt laws boost cells interrupt s) rt) s k _ rest)
      ]

  round-Looped :
      (f m : ℕ) (df : DbDataFrame) (r : ResultImpl Stmt)
      → IsFitting r
      → All IsColumn df.columns
      → df.n_max ≡ negsuc m
      → ((d : DbDataFrame)
          → All IsColumn d.columns
          → d.n_max ≡ negsuc m
          → IsFitting (after_row sq boost r)
          → Looped sq rt laws boost cells interrupt f d
              (seen sq boost f (after_row sq boost r) rt)
              (after_row sq boost r)
              (fetch_loop sq rt boost interrupt f d (after_row sq boost r)))
      → Looped sq rt laws boost cells interrupt
          (suc f)
          df
          (current_row sq rt boost r ∷ seen sq boost f (after_row sq boost r) rt)
          r
          ((fetch_round sq rt boost interrupt df
              >>= go_on sq rt boost interrupt (λ d. fetch_loop sq rt boost interrupt f d))
            r)
  unfolding Looped fetch_round fill set_col_values after_row
  round-Looped f m df r fit good max more =
      let (next, w, run, good', s) =
        set_columns_lem rt laws df.columns (current_row sq rt boost r) good
          (current_row-IsTypedRow sq rt laws boost cells interrupt r) in
      let (safe, kept) = step-Safe sq r fit in
      let fit' = fits_still r (step sq r).1 kept fit in
      rw run (
        stepped-Looped f m df r next w run (step sq r) max safe kept fit'
          (more (grown sq rt laws boost cells interrupt df next) good' max fit'))

  ended-Looped :
      (df : DbDataFrame) (r : ResultImpl Stmt) (b : Bool)
      → IsFitting r
      → b ≡ true
      → Looped sq rt laws boost cells interrupt 0 df [] r
          (if b then (ok (df, []), r) else (stop out_of_fuel, r))
  unfolding Looped
  ended-Looped df r true fit h = nothing-Taken sq rt laws boost cells interrupt 0 df r fit
  ended-Looped df r false fit h = absurd (cc h)

  pub loop-Looped :
      (f m : ℕ) (df : DbDataFrame) (r : ResultImpl Stmt)
      → IsFitting r
      → All IsColumn df.columns
      → df.n_max ≡ negsuc m
      → ends_within sq boost f r ≡ true
      → Looped sq rt laws boost cells interrupt f df
          (seen sq boost f r rt)
          r
          (fetch_loop sq rt boost interrupt f df r)
  unfolding Looped fetch_loop seen ends_within
  loop-Looped zero m df r fit good max h = ended-Looped df r r.complete fit h
  loop-Looped (suc f) m df r fit good max h = by_complete r.complete refl (λ ends.
      round-Looped f m df r fit good max
        (λ d good' max' fit'. loop-Looped f m d (after_row sq boost r) fit' good' max' ends))
    where
      by_complete :
          (b : Bool)
          → r.complete ≡ b
          → (ends_within sq boost f (after_row sq boost r) ≡ true
              → Looped sq rt laws boost cells interrupt
                  (suc f)
                  df
                  (current_row sq rt boost r ∷ seen sq boost f (after_row sq boost r) rt)
                  r
                  ((fetch_round sq rt boost interrupt df
                      >>= go_on sq rt boost interrupt (λ d. fetch_loop sq rt boost interrupt f d))
                    r))
          → Looped sq rt laws boost cells interrupt
              (suc f)
              df
              (if b
                then []
                else current_row sq rt boost r ∷ seen sq boost f (after_row sq boost r) rt)
              r
              (if b
                then (ok (df, []), r)
                else (fetch_round sq rt boost interrupt df
                      >>= go_on sq rt boost interrupt (λ d. fetch_loop sq rt boost interrupt f d))
                    r)
      by_complete true e more = nothing-Taken sq rt laws boost cells interrupt (suc f) df r fit
      by_complete false e more =
          more (or_false r.complete (ends_within sq boost f (after_row sq boost r)) h e)

  -- For a runtime and an SQLite that behave as documented, parameters that fit, and a query whose
  -- rows end after at most `k`: a fetch without a limit ends within `k` rounds. If it raises an
  -- error, then none of a read past the end or a loop that does not end; else it counts and hands
  -- to R all rows that stepping shows, as the columns of their cells.
  pub unlimited-Fetches :
      (k m : ℕ) (r : ResultImpl Stmt)
      → IsFitting r
      → ends_within sq boost k r ≡ true
      → Fetches sq rt laws boost cells interrupt k r
          (fetch_rows sq rt boost interrupt k (negsuc m) r)
  unfolding fetch_rows Looped take_data
  unlimited-Fetches k m r fit ends =
      Looped-Fetches sq rt laws boost cells interrupt k (negsuc m) r
        (fetch_loop sq rt boost interrupt k (empty_frame sq rt boost (negsuc m) r) r) _
        (unfold empty_frame new_data_frame in
          loop-Looped k m (empty_frame sq rt boost (negsuc m) r) r fit
            (new_columns-IsColumn rt laws (negsuc m) 0 r.types) refl ends)
