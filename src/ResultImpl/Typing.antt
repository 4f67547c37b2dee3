-- ===== src/ResultImpl/Typing.antt =====
-- The types of what fetch() hands to R.
use rsqlite.Prelude.{ℕ, ◌≡◌, ℤ, eqb_ℤ, pos, Bool, true, false, List, if◌then◌else◌}
use mathlib.Core.Path.{subst}
use rsqlite.Outcome.{Result, ok, stop}
use rsqlite.Exec.{pure, continue, ◌>>=◌}
use rsqlite.Runtime.{Runtime, IsRuntime}
use rsqlite.Source.{Warning}
use rsqlite.Storage.Shape.{IfOk, gave}
use rsqlite.DataFrame.{DbDataFrame, FrameData, get_data}
use rsqlite.DataFrame.Typing.{Typed, get_data-Typed}
use rsqlite.SqliteSource.{Boost}
use rsqlite.ResultImpl.{Sqlite, ResultImpl, Fetched}
use rsqlite.ResultImpl.Fetch.{current_row, take_data, fetch_rows, peek_first_row, fetch}

module _ {Stmt : Type 0} (sq : Sqlite Stmt) (rt : Runtime) (laws : IsRuntime rt)
    (boost : Boost) where
  -- Where there is no error, the vectors have the types that the result keeps.
  abbrev pub Hands : Result Fetched × ResultImpl Stmt → Type 0
  Hands (stop e, s) = Unit
  Hands (ok out, s) =
      (out.frame_data.types ≡ s.types)
      × Typed rt laws out.frame_data.frame.row_count s.types out.frame_data.frame.columns

  given-Hands :
      (x : Result FrameData) (s : ResultImpl Stmt) (w : List Warning) (b : Bool)
      → IfOk
          (λ (out : FrameData).
            (out.types ≡ s.types) × Typed rt laws out.frame.row_count out.types out.frame.columns)
          x
      → Hands
          (continue x (λ out. pure (record { frame_data = out; warnings = w; no_select = b })) s)
  given-Hands (ok out) s w b (gave h) =
      (h.0, subst (λ types. Typed rt laws out.frame.row_count types out.frame.columns) h.0 h.1)
  given-Hands (stop e) s w b h = tt

  taken-Hands :
      (x : Result (DbDataFrame × List Warning) × ResultImpl Stmt) (b : Bool)
      → Hands (
          continue x.0
            (λ (df, warnings). take_data sq rt boost df >>= λ out.
              pure (record { frame_data = out; warnings = warnings; no_select = b }))
            x.1)
  unfolding take_data
  taken-Hands (stop e, s) b = tt
  taken-Hands (ok (df, w), s) b =
      given-Hands (get_data rt df (current_row sq rt boost s)) (take_data sq rt boost df s).1 w b
        (get_data-Typed rt laws df (current_row sq rt boost s))

  peek-Hands : (r : ResultImpl Stmt) → Hands (peek_first_row sq rt boost r)
  unfolding peek_first_row
  peek-Hands r = taken-Hands _ false

  rows-Hands :
      (interrupt : ℕ → Bool) (fuel : ℕ) (n_max : ℤ) (r : ResultImpl Stmt)
      → Hands (fetch_rows sq rt boost interrupt fuel n_max r)
  unfolding fetch_rows
  rows-Hands interrupt fuel n_max r = taken-Hands _ _

  by_limit :
      (zero_rows ready : Bool) (peeked fetched refused : Result Fetched × ResultImpl Stmt)
      → Hands peeked
      → Hands fetched
      → Hands refused
      → Hands (if ready then if zero_rows then peeked else fetched else refused)
  by_limit true true peeked fetched refused p f n = p
  by_limit false true peeked fetched refused p f n = f
  by_limit z false peeked fetched refused p f n = n

  -- For an R whose allocations behave as documented, and whatever SQLite, the user and the limit
  -- do: if fetch() raises no error, then R gets one vector for each type that the result keeps, of
  -- the R type, the length and the class that belong to it.
  pub fetch-Hands :
      (interrupt : ℕ → Bool) (fuel : ℕ) (n_max : ℤ) (r : ResultImpl Stmt)
      → Hands (fetch sq rt boost interrupt fuel n_max r)
  unfolding fetch
  fetch-Hands interrupt fuel n_max r =
      by_limit (eqb_ℤ n_max (pos 0)) r.ready _ _ _ (peek-Hands r)
        (rows-Hands interrupt fuel n_max r) tt
