-- ===== src/ResultImpl/Delivering.antt =====
-- Fetching against what SQLite answers: the frames of successive fetches have the rows in order.
use rsqlite.Prelude.{
  ℕ, zero, suc, ◌+◌, ◌≡◌, refl, sym, ap, ◌∙◌, ℤ, pos, Bool, true, false, if-true, if-false, inl,
  inr, List, [], ◌∷◌, map, length, take, drop, length-map, ◌++◌, arith,
}
use mathlib.Core.Path.{subst}
use rsqlite.Outcome.{Result, ok, stop}
use rsqlite.Exec.{continue, pure, ◌>>=◌}
use rsqlite.Runtime.{Sexp, Runtime, IsRuntime}
use rsqlite.Source.{Warning}
use rsqlite.Storage.Blocks.{All}
use rsqlite.Column.Contents.{IsColumn}
use rsqlite.DataFrame.{column_types, DbDataFrame, set_col_values, new_data_frame}
use rsqlite.DataFrame.ByColumn.{set_columns_lem, new_columns-IsColumn, frame_cells}
use rsqlite.SqliteSource.{Boost}
use rsqlite.SqliteSource.Types.{IsSqliteColumn}
use rsqlite.ResultImpl.{Sqlite, ResultImpl, Fetched, step}
use rsqlite.ResultImpl.Fetch.{
  current_row, fill, finish_round, go_on, fetch_round, fetch_loop, fetch_rows, empty_frame,
  take_data,
}
use rsqlite.ResultImpl.Stepping.{step-Safe}
use rsqlite.ResultImpl.Kept.{IsFitting, Kept, fits_still}
use rsqlite.ResultImpl.Fetching.{
  seen, current_row-IsTypedRow, grown, counted, Looped, data_lem, loop_lem,
}
use rsqlite.ResultImpl.Unlimited.{loop-Looped}
use rsqlite.ResultImpl.Answers.{Stands, cells_of}
use rsqlite.ResultImpl.Running.{Ready, step-Stands}
use rsqlite.ResultImpl.Showing.{Stands-same, seen-Stands, ends_within-Stands}
use rsqlite.ResultImpl.Rounds.{
  Ends, Room, advance-calm, asks_more, asks_more_lem, Suffices, map-take,
}

module _ {Stmt : Type 0} (sq : Sqlite Stmt) (rt : Runtime) (laws : IsRuntime rt) (boost : Boost)
    (cells : (stmt : Stmt) (j : ℕ) → IsSqliteColumn (sq.column stmt j)) (interrupt : ℕ → Bool)
    (calm : (i : ℕ) → interrupt i ≡ false) where
  extended-Ends :
      (rest : List Stmt) (w : List Warning)
      (out : Result (DbDataFrame × List Warning) × ResultImpl Stmt)
      → Ends sq rest out
      → Ends sq rest (continue out.0 (λ (end, more) u. (ok (end, w ++ more), u)) out.1)
  extended-Ends rest w (ok x, s) h = h
  extended-Ends rest w (stop e, s) h = h

  go_on-Ends :
      (f : ℕ) (b : Bool) (df : DbDataFrame) (w : List Warning) (s : ResultImpl Stmt)
      (more : List Stmt)
      → (b ≡ false → f ≡ 0)
      → Stands sq s more
      → (b ≡ true → Ends sq (drop f more) (fetch_loop sq rt boost interrupt f df s))
      → Ends sq
          (drop f more)
          (go_on sq rt boost interrupt (λ d. fetch_loop sq rt boost interrupt f d) (df, w, b) s)
  unfolding go_on
  go_on-Ends f true df w s more last h ih =
      extended-Ends (drop f more) w (fetch_loop sq rt boost interrupt f df s) (ih refl)
  go_on-Ends f false df w s more last h ih = rw (last refl) h

  -- Behind step(), the round counts the row, and goes on or not.
  stepped-Ends :
      (f : ℕ) (df : DbDataFrame) (w : List Warning) (out : Result (Unit {0}) × ResultImpl Stmt)
      (more : List Stmt)
      → (out.0 ≡ ok tt) × Stands sq out.1 more
      → Room (suc f) df (out.1.stmt ∷ more)
      → (Room f (record df { i = suc df.i }) more
          → Ends sq (drop f more) (
              fetch_loop sq rt boost interrupt f
                (record df { i = suc df.i })
                (counted sq rt laws boost cells interrupt out.1)))
      → let round = continue out.0 (λ u. finish_round sq rt boost interrupt df w) out.1 in
        Ends sq (drop f more) (
          continue round.0
            (go_on sq rt boost interrupt (λ d. fetch_loop sq rt boost interrupt f d))
            round.1)
  unfolding finish_round
  stepped-Ends f df w (stop e, s) more (h, at_more) room ih = absurd (cc h)
  stepped-Ends f df w (ok u, s) more (h, at_more) room ih =
      let (last, again) = asks_more_lem f df s.stmt more room in
      rw (advance-calm (interrupt (suc df.i)) df (calm (suc df.i))) (
        go_on-Ends f (asks_more df) (record df { i = suc df.i }) w
          (counted sq rt laws boost cells interrupt s) more last
          (Stands-same sq s more (suc s.nrows) s.types at_more) (λ b. ih (again b)))

  loop-Ends :
      (f : ℕ) (df : DbDataFrame) (r : ResultImpl Stmt) (rows : List Stmt)
      → IsFitting r
      → All IsColumn df.columns
      → Stands sq r rows
      → Room f df rows
      → Ends sq (drop f rows) (fetch_loop sq rt boost interrupt f df r)
  unfolding fetch_loop fetch_round fill set_col_values
  loop-Ends zero df r [] fit good h room = subst (Ends sq []) (sym (if-true h _)) h
  loop-Ends zero df r (t ∷ more) fit good h (inl (m, e, le)) = absurd (omega (arith, le))
  loop-Ends zero df r (t ∷ more) fit good h (inr (e, lt)) = absurd (omega (arith, lt))
  loop-Ends (suc f) df r [] fit good h room = subst (Ends sq []) (sym (if-true h _)) h
  loop-Ends (suc f) df r (t ∷ more) fit good (going, here, p) room =
      let (next, w, run, good', s) =
        set_columns_lem rt laws df.columns (current_row sq rt boost r) good
          (current_row-IsTypedRow sq rt laws boost cells interrupt r) in
      let kept : Kept r (step sq r).1 = (step-Safe sq r fit).1 in
      let stands : Ready sq more (step sq r) = step-Stands sq r more going p in
      subst (Ends sq (drop f more)) (sym (if-false going _)) (
        rw run (
          stepped-Ends f (record df { columns = next }) w (step sq r) more stands room
            (λ room'.
              loop-Ends f (grown sq rt laws boost cells interrupt df next)
                (counted sq rt laws boost cells interrupt (step sq r).1) more
                (fits_still r (step sq r).1 kept fit) good'
                (Stands-same sq (step sq r).1 more (suc (step sq r).1.nrows) (step sq r).1.types
                  stands.1)
                room')))

  -- A fetch without an error has the rows `rows` in order, and leaves the rows `rest`.
  abbrev pub Delivers :
      List Stmt → List Stmt → ResultImpl Stmt → Result Fetched × ResultImpl Stmt → Type 0
  Delivers rows rest r (stop e, s) = ⊥
  Delivers rows rest r (ok out, s) =
      Stands sq s rest
      × IsFitting s
      × (s.nrows ≡ r.nrows + length rows)
      × (out.frame_data.frame.row_count ≡ length rows)
      × (map (λ (v : Sexp). v.slots) out.frame_data.frame.columns
          ≡ frame_cells rt laws 0 r.types (map (cells_of sq boost r.with_alt_types) rows)
              (current_row sq rt boost s))

  -- What is handed to R after the loop.
  loop-Delivers :
      (n : ℕ) (n_max : ℤ) (r : ResultImpl Stmt) (rows rest : List Stmt)
      (out : Result (DbDataFrame × List Warning) × ResultImpl Stmt) (b : Bool)
      → seen sq boost n r rt ≡ map (cells_of sq boost r.with_alt_types) rows
      → Looped sq rt laws boost cells interrupt n
          (empty_frame sq rt boost n_max r)
          (seen sq boost n r rt)
          r
          out
      → Ends sq rest out
      → Delivers rows rest r (
          continue out.0
            (λ (df, warnings). take_data sq rt boost df >>= λ o.
              pure (record { frame_data = o; warnings = warnings; no_select = b }))
            out.1)
  unfolding Looped take_data
  loop-Delivers n n_max r rows rest (stop e, s) b all l ends = absurd ends
  loop-Delivers n n_max r rows rest (ok (end, w), s) b all l ends =
      let (out, e, count, slots) =
        data_lem sq rt laws boost cells interrupt n n_max r s (seen sq boost n r rt) end l in
      let many : length (seen sq boost n r rt) ≡ length rows =
        ap length all ∙ length-map rows (cells_of sq boost r.with_alt_types) in
      rw e (
        Stands-same sq s rest s.nrows (column_types end (current_row sq rt boost s)) ends,
        l.fit,
        l.nrows ∙ ap (λ k. r.nrows + k) many,
        count ∙ many,
        unfold current_row in
            slots ∙ ap (λ rows. frame_cells rt laws 0 r.types rows (current_row sq rt boost s)) all,
      )

  enough-Room :
      (f : ℕ) (n_max : ℤ) (r : ResultImpl Stmt) (rows : List Stmt)
      → Suffices f n_max rows
      → Room f (empty_frame sq rt boost n_max r) rows
  unfolding empty_frame new_data_frame
  enough-Room f n_max r rows (inl h) = inl h
  enough-Room f n_max r rows (inr (e, lt)) = inr (e ∙ ap pos (omega arith), lt)

  loop-Looped_of_Suffices :
      (f : ℕ) (n_max : ℤ) (r : ResultImpl Stmt) (rows : List Stmt)
      → IsFitting r
      → Stands sq r rows
      → Suffices f n_max rows
      → Looped sq rt laws boost cells interrupt f
          (empty_frame sq rt boost n_max r)
          (seen sq boost f r rt)
          r
          (fetch_loop sq rt boost interrupt f (empty_frame sq rt boost n_max r) r)
  unfolding empty_frame new_data_frame
  loop-Looped_of_Suffices f n_max r rows fit h (inl (m, e, le)) =
      loop-Looped sq rt laws boost cells interrupt f m (empty_frame sq rt boost n_max r) r fit
        (new_columns-IsColumn rt laws n_max 0 r.types) e (ends_within-Stands sq boost f r rows h le)
  loop-Looped_of_Suffices zero n_max r rows fit h (inr (e, lt)) = absurd (omega (arith, lt))
  loop-Looped_of_Suffices (suc k) n_max r rows fit h (inr (e, lt)) =
      loop_lem sq rt laws boost cells interrupt k (empty_frame sq rt boost n_max r) r fit
        (new_columns-IsColumn rt laws n_max 0 r.types) (e ∙ ap pos (omega arith))

  -- For a runtime and an SQLite that behave as documented, parameters that fit, a user who does not
  -- interrupt, and a result that stands at the first of the rows `rows`: a fetch of at most `f`
  -- rows, or one without a limit where there are at most `f`, raises no error and ends within `f`
  -- rounds; its frame has the cells of the first `f` of the rows, and the result then stands at the
  -- first of the others.
  pub fetch_rows-Delivers :
      (f : ℕ) (n_max : ℤ) (r : ResultImpl Stmt) (rows : List Stmt)
      → IsFitting r
      → Stands sq r rows
      → Suffices f n_max rows
      → Delivers (take f rows) (drop f rows) r (fetch_rows sq rt boost interrupt f n_max r)
  unfolding fetch_rows
  fetch_rows-Delivers f n_max r rows fit h enough =
      loop-Delivers f n_max r (take f rows) (drop f rows)
        (fetch_loop sq rt boost interrupt f (empty_frame sq rt boost n_max r) r) _
        (seen-Stands sq boost rt f r rows fit h
          ∙ map-take (cells_of sq boost r.with_alt_types) f rows)
        (loop-Looped_of_Suffices f n_max r rows fit h enough)
        (unfold empty_frame new_data_frame in
          loop-Ends f (empty_frame sq rt boost n_max r) r rows fit
            (new_columns-IsColumn rt laws n_max 0 r.types) h (enough-Room f n_max r rows enough))
