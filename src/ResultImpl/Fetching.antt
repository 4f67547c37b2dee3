-- ===== src/ResultImpl/Fetching.antt =====
-- A limited fetch against the rows that stepping gives.
use rsqlite.Prelude.{
  ℕ, zero, suc, ◌+◌, ◌≤◌, ◌<◌, ◌≡◌, refl, sym, ap, ◌∙◌, ℤ, pos, ltb_ℤ, ltb, Bool, true, false, ◌&&◌,
  ◌||◌, ◌%◌, ◌==◌, Bool-cases, ◌⊎◌, inl, inr, List, [], ◌∷◌, ◌++◌, map, length, if◌then◌else◌,
  arith,
}
use rsqlite.Outcome.{Result, ok, stop, interrupted}
use rsqlite.Exec.{continue, pure, ◌>>=◌}
use rsqlite.Runtime.{Sexp, Runtime, IsRuntime}
use rsqlite.Source.{Warning}
use rsqlite.Storage.Blocks.{All}
use rsqlite.Column.{DbColumn, finalize, get_type}
use rsqlite.Column.Contents.{IsColumn}
use rsqlite.DataFrame.{
  Row, DbDataFrame, FrameData, set_columns, new_data_frame, finalize_cols, warn_columns,
  set_all_rows, set_col_values, advance, to_sexps, get_data,
}
use rsqlite.DataFrame.ByColumn.{
  IsTypedRow, set_columns_lem, new_columns-IsColumn, frame_cells, frame_of_rows,
}
use rsqlite.SqliteSource.{Boost}
use rsqlite.SqliteSource.Types.{IsSqliteColumn, sqlite_source-IsTyped, decl_type-known}
use rsqlite.ResultImpl.{Sqlite, ResultImpl, Fetched, step}
use rsqlite.ResultImpl.Fetch.{
  current_row, fill, finish_round, go_on, fetch_round, fetch_loop, fetch_rows, empty_frame,
  take_data,
}
use rsqlite.ResultImpl.Stepping.{step-Safe}
use rsqlite.ResultImpl.Kept.{IsFitting, Safe, Kept, Safe-stop, fits_still}

module _ {Stmt : Type 0} (sq : Sqlite Stmt) (boost : Boost) where
  -- The result after one row is taken and the statement is stepped.
  unfoldable pub after_row : ResultImpl Stmt → ResultImpl Stmt
  after_row r = record (step sq r).1 { nrows = suc (step sq r).1.nrows }

  -- The rows that at most `n` steps show, until the result is complete.
  unfoldable pub seen : ℕ → ResultImpl Stmt → Runtime → List Row
  seen zero r rt = []
  seen (suc n) r rt =
      let rest = seen n (after_row r) rt in
      if r.complete then [] else current_row sq rt boost r ∷ rest

module _ {Stmt : Type 0} (sq : Sqlite Stmt) (rt : Runtime) (laws : IsRuntime rt) (boost : Boost)
    (cells : (stmt : Stmt) (j : ℕ) → IsSqliteColumn (sq.column stmt j)) (interrupt : ℕ → Bool) where
  pub current_row-IsTypedRow : (r : ResultImpl Stmt) → IsTypedRow (current_row sq rt boost r)
  unfolding current_row
  current_row-IsTypedRow r j =
      sqlite_source-IsTyped boost r.with_alt_types (sq.column r.stmt j) (cells r.stmt j)

  -- What the loop leaves: the frame has taken in the rows.
  pub record Taken (n : ℕ) (df : DbDataFrame) (rows : List Row) (r : ResultImpl Stmt)
      (end : DbDataFrame) (s : ResultImpl Stmt) : Type 0 where
    pub warnings : List Warning
    pub run : set_all_rows rt df.columns rows ≡ ok (end.columns, warnings)
    pub typed : All IsTypedRow rows
    pub count : end.i ≡ df.i + length rows
    pub nrows : s.nrows ≡ r.nrows + length rows
    pub limit : length rows ≤ n
    pub fit : IsFitting s
    pub types : s.types ≡ r.types

  unfoldable pub Looped :
      ℕ
      → DbDataFrame
      → List Row
      → ResultImpl Stmt
      → Result (DbDataFrame × List Warning) × ResultImpl Stmt
      → Type 0
  Looped n df rows r (stop e, s) = Safe {A = Unit {0}} (stop e) × IsFitting s
  Looped n df rows r (ok (end, w), s) = Taken n df rows r end s

  pub nothing-Taken :
      (n : ℕ) (df : DbDataFrame) (r : ResultImpl Stmt) → IsFitting r → Taken n df [] r df r
  nothing-Taken n df r fit = record {
    warnings = [];
    run = unfold set_all_rows in refl;
    typed = tt;
    count = omega arith;
    nrows = omega arith;
    limit = omega arith;
    fit = fit;
    types = refl;
  }

  advance_lem :
      (b : Bool) (df : DbDataFrame) (f : ℕ)
      → df.n_max ≡ pos (df.i + suc f)
      → (advance b df ≡ stop interrupted)
        ⊎ (advance b df ≡ ok (record df { i = suc df.i }, ltb 0 f))
  unfolding advance
  advance_lem b df f max = elim (Bool-cases ((suc df.i % 1024 == 0) && b)) [
    | inl e ↦ inl (rw e refl)
    | inr e ↦ inr (
        rw (e, max)
          (ap (λ z. ok (record df { n_max = pos (df.i + suc f); i = suc df.i }, z)) (more df.i)))
  ]
    where
      more :
          (i : ℕ)
          → (ltb_ℤ (pos (i + suc f)) (pos 0) || ltb_ℤ (pos (suc i)) (pos (i + suc f))) ≡ ltb 0 f
      more i = ground arith

  -- The frame and the result after a row whose cells make the columns `next`.
  abbrev pub grown : DbDataFrame → List DbColumn → DbDataFrame
  grown df next = record df { columns = next; i = suc df.i }

  abbrev pub counted : ResultImpl Stmt → ResultImpl Stmt
  counted s = record s { nrows = suc s.nrows }

  module _ (df : DbDataFrame) (r : ResultImpl Stmt) (next : List DbColumn) (w : List Warning)
      (run : set_columns rt df.columns (current_row sq rt boost r) ≡ ok (next, w)) where
    one_more :
        (n : ℕ) (rows : List Row) (s t : ResultImpl Stmt) (end : DbDataFrame)
        → Kept r s
        → Taken n (grown df next) rows (counted s) end t
        → Taken (suc n) df (current_row sq rt boost r ∷ rows) r end t
    one_more n rows s t end k a = record {
      warnings = w ++ a.warnings;
      run = unfold set_all_rows in rw (run, a.run) refl;
      typed = (current_row-IsTypedRow r, a.typed);
      count = omega (arith, a.count);
      nrows = omega (arith, a.nrows, k.nrows);
      limit = omega (arith, a.limit);
      fit = a.fit;
      types = a.types ∙ k.types;
    }

    pub extended :
        (n : ℕ) (rows : List Row) (s : ResultImpl Stmt)
        → Kept r s
        → (out : Result (DbDataFrame × List Warning) × ResultImpl Stmt)
        → Looped n (grown df next) rows (counted s) out
        → Looped
            (suc n)
            df
            (current_row sq rt boost r ∷ rows)
            r
            (continue out.0 (λ (end, rest) u. (ok (end, w ++ rest), u)) out.1)
    unfolding Looped
    extended n rows s k (ok (end, rest), t) l = one_more n rows s t end k l
    extended n rows s k (stop e, t) l = l

    went_on :
        (f : ℕ) (b : Bool) (s : ResultImpl Stmt)
        → b ≡ ltb 0 f
        → Kept r s
        → IsFitting s
        → (0 < f
            → Looped f
                (grown df next)
                (seen sq boost f (counted s) rt)
                (counted s)
                (fetch_loop sq rt boost interrupt f (grown df next) (counted s)))
        → Looped (suc f) df (current_row sq rt boost r ∷ seen sq boost f (counted s) rt) r (
            go_on sq rt boost interrupt
              (λ d. fetch_loop sq rt boost interrupt f d)
              (grown df next, w, b)
              (counted s))
    unfolding go_on
    went_on zero true s e k fit ih = absurd (ground arith)
    went_on zero false s e k fit ih =
        unfold Looped seen in
        one_more 0 [] s (counted s) (grown df next) k
          (nothing-Taken 0 (grown df next) (counted s) fit)
    went_on (suc f) true s e k fit ih =
        extended (suc f) (seen sq boost (suc f) (counted s) rt) s k
          (fetch_loop sq rt boost interrupt (suc f) (grown df next) (counted s)) (ih (omega arith))
    went_on (suc f) false s e k fit ih = absurd (ground arith)

    stepped :
        (f : ℕ) (out : Result (Unit {0}) × ResultImpl Stmt)
        → df.n_max ≡ pos (df.i + suc f)
        → Safe out.0
        → Kept r out.1
        → IsFitting out.1
        → (0 < f
            → Looped f
                (grown df next)
                (seen sq boost f (counted out.1) rt)
                (counted out.1)
                (fetch_loop sq rt boost interrupt f (grown df next) (counted out.1)))
        → let round =
            continue out.0
              (λ u. finish_round sq rt boost interrupt (record df { columns = next }) w)
              out.1 in
          Looped (suc f) df (current_row sq rt boost r ∷ seen sq boost f (counted out.1) rt) r (
            continue round.0
              (go_on sq rt boost interrupt (λ d. fetch_loop sq rt boost interrupt f d))
              round.1)
    unfolding finish_round
    stepped f (stop e, s) max safe k fit ih = unfold Looped in (Safe-stop e safe, fit)
    stepped f (ok u, s) max safe k fit ih =
        elim (advance_lem (interrupt (suc df.i)) (record df { columns = next }) f max) [
          | inl e ↦ rw e (unfold Looped in (((λ h. cc), (λ h. cc)), fit))
          | inr e ↦ rw e (went_on f (ltb 0 f) s refl k fit ih)
        ]

  round_lem :
      (f : ℕ) (df : DbDataFrame) (r : ResultImpl Stmt)
      → IsFitting r
      → All IsColumn df.columns
      → df.n_max ≡ pos (df.i + suc f)
      → ((d : DbDataFrame) (s : ResultImpl Stmt)
          → IsFitting s
          → All IsColumn d.columns
          → df.n_max ≡ d.n_max
          → d.i ≡ suc df.i
          → 0 < f
          → Looped f d (seen sq boost f s rt) s (fetch_loop sq rt boost interrupt f d s))
      → Looped
          (suc f)
          df
          (seen sq boost (suc f) r rt)
          r
          (fetch_loop sq rt boost interrupt (suc f) df r)
  unfolding Looped fetch_loop seen fetch_round fill set_col_values after_row
  round_lem f df r fit good max further =
      let (next, w, run, good', s) =
        set_columns_lem rt laws df.columns (current_row sq rt boost r) good
          (current_row-IsTypedRow r) in
      let (safe, kept) = step-Safe sq r fit in
      let fit' = fits_still r (step sq r).1 kept fit in
      by_complete r.complete _ _ (
        rw run (
          stepped df r next w run f (step sq r) max safe kept fit'
            (further (grown df next) (counted (step sq r).1) fit' good' refl refl)))
    where
      by_complete :
          (b : Bool) (rows : List Row) (out : Result (DbDataFrame × List Warning) × ResultImpl Stmt)
          → Looped (suc f) df rows r out
          → Looped (suc f) df (if b then [] else rows) r (if b then (ok (df, []), r) else out)
      by_complete true rows out l = nothing-Taken (suc f) df r fit
      by_complete false rows out l = l

  pub loop_lem :
      (f : ℕ) (df : DbDataFrame) (r : ResultImpl Stmt)
      → IsFitting r
      → All IsColumn df.columns
      → df.n_max ≡ pos (df.i + suc f)
      → Looped
          (suc f)
          df
          (seen sq boost (suc f) r rt)
          r
          (fetch_loop sq rt boost interrupt (suc f) df r)
  loop_lem zero df r fit good max =
      round_lem zero df r fit good max (λ d s fit' good' same i lt. absurd (omega arith))
  loop_lem (suc f) df r fit good max =
      round_lem (suc f) df r fit good max (λ d s fit' good' same i lt.
        loop_lem f d s fit' good' (sym same ∙ max ∙ ap pos (omega (arith, i))))

  -- What a limited fetch gives: an error that is neither of the two, or the frame of the rows.
  abbrev pub Fetches : ℕ → ResultImpl Stmt → Result Fetched × ResultImpl Stmt → Type 0
  Fetches n r (stop e, s) = Safe {A = Unit {0}} (stop e) × IsFitting s
  Fetches n r (ok out, s) =
      IsFitting s
      × (length (seen sq boost n r rt) ≤ n)
      × (s.nrows ≡ r.nrows + length (seen sq boost n r rt))
      × (out.frame_data.frame.row_count ≡ length (seen sq boost n r rt))
      × (map (λ (v : Sexp). v.slots) out.frame_data.frame.columns
          ≡ frame_cells rt laws 0 r.types (seen sq boost n r rt) (current_row sq rt boost s))

  abbrev begun : ℕ → ResultImpl Stmt → DbDataFrame
  begun n r = empty_frame sq rt boost (pos n) r

  -- get_data() of the frame that the loop leaves.
  pub data_lem :
      (n : ℕ) (n_max : ℤ) (r s : ResultImpl Stmt) (rows : List Row) (end : DbDataFrame)
      → Taken n (empty_frame sq rt boost n_max r) rows r end s
      → (out : FrameData) × (get_data rt end (current_row sq rt boost s) ≡ ok out)
        × (out.frame.row_count ≡ length rows)
        × (map (λ (v : Sexp). v.slots) out.frame.columns
            ≡ frame_cells rt laws 0 r.types rows (current_row sq rt boost s))
  unfolding get_data finalize_cols empty_frame new_data_frame
  data_lem n n_max r s rows end a =
      let now : Row = current_row sq rt boost s in
      let (ends, w, vs, run, out, slots) =
        frame_of_rows rt laws n_max r.types rows now a.typed (λ k.
          unfold current_row in decl_type-known boost s.with_alt_types (sq.column s.stmt k)) in
      let same : end.columns ≡ ends = cc (run, a.run) in
      let many : end.i ≡ length rows = omega (arith, a.count) in
      let outs : to_sexps rt (map (λ c. finalize c end.i) end.columns) now ≡ ok vs =
        (λ i. to_sexps rt (map (λ c. finalize c (many i)) (same i)) now) ∙ out in
      let final : List DbColumn = map (λ c. finalize c end.i) end.columns in
      (
        record {
          frame = record { columns = vs; names = end.names; row_count = end.i };
          types = map (λ (c : DbColumn). get_type c (now c.j)) final;
          conflicts = warn_columns final end.names now;
        },
        rw outs refl,
        many,
        slots,
      )

  -- What is handed to R after the loop.
  pub Looped-Fetches :
      (n : ℕ) (n_max : ℤ) (r : ResultImpl Stmt)
      (out : Result (DbDataFrame × List Warning) × ResultImpl Stmt) (b : Bool)
      → Looped n (empty_frame sq rt boost n_max r) (seen sq boost n r rt) r out
      → Fetches n r (
          continue out.0
            (λ (df, warnings). take_data sq rt boost df >>= λ o.
              pure (record { frame_data = o; warnings = warnings; no_select = b }))
            out.1)
  unfolding Looped take_data
  Looped-Fetches n n_max r (stop e, s) b l = l
  Looped-Fetches n n_max r (ok (end, w), s) b l =
      let (out, e, count, slots) = data_lem n n_max r s (seen sq boost n r rt) end l in
      rw e (l.fit, l.limit, l.nrows, count, unfold current_row in slots)

  -- For a runtime and an SQLite that behave as documented, and parameters that fit: a fetch of at
  -- most `k + 1` rows ends within as many rounds. If it raises an error, then none of a read past
  -- the end or a loop that does not end; else it counts and hands to R the rows that stepping
  -- shows, at most `k + 1`, as the columns of their cells.
  pub fetch_rows-Fetches :
      (k : ℕ) (r : ResultImpl Stmt)
      → IsFitting r
      → Fetches (suc k) r (fetch_rows sq rt boost interrupt (suc k) (pos (suc k)) r)
  unfolding fetch_rows Looped take_data
  fetch_rows-Fetches k r fit =
      Looped-Fetches (suc k) (pos (suc k)) r
        (fetch_loop sq rt boost interrupt (suc k) (begun (suc k) r) r) _
        (unfold empty_frame new_data_frame in
          loop_lem k (begun (suc k) r) r fit (new_columns-IsColumn rt laws (pos (suc k)) 0 r.types)
            (ap pos (omega arith)))
