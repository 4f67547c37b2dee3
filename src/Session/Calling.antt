-- ===== src/Session/Calling.antt =====
-- Calls of R on the results of a session.
use rsqlite.Prelude.{
  ℕ, zero, suc, ◌≡◌, refl, pos, eqb_ℤ, String, Bool, true, false, Option-cases, List, [], ◌∷◌, ◌==◌,
  inl, inr, if◌then◌else◌, arith,
}
use mathlib.Core.Path.{subst}
use rsqlite.Outcome.{Result, ok, stop, not_bound, wrong_parameter_length}
use rsqlite.Exec.{continue}
use rsqlite.Runtime.{Runtime, IsRuntime, SexpType}
use rsqlite.SqliteSource.{Boost}
use rsqlite.SqliteSource.Types.{IsSqliteColumn}
use rsqlite.Params.{Param, param_length, validate_params, same_lengths}
use rsqlite.ResultImpl
use rsqlite.ResultImpl.{Sqlite, ResultImpl, Fetched}
use rsqlite.ResultImpl.Fetch
use rsqlite.ResultImpl.Fetch.{fetch_rows}
use rsqlite.ResultImpl.Kept.{IsFitting, Safe, Safe-stop, Safe-ok}
use rsqlite.ResultImpl.Binding.{bind-IsFitting}
use rsqlite.ResultImpl.Fetching.{Fetches, fetch_rows-Fetches}
use rsqlite.ResultImpl.Peeking.{in_view, Peeked, peek_first_row-Peeked}
use rsqlite.DbResult
use rsqlite.Connection.{OpenV2, Arguments}
use rsqlite.Session.{
  Session, lookup, connection_connect, with_result, result_bind, result_fetch, result_column_info,
}
use rsqlite.Session.Counting.{FitsIfThere, lookup-FitsIfThere}
use rsqlite.Session.Shared.{IsShared}
use rsqlite.Session.Reaching.{Reached, Reached-IsShared}

if-Safe : {A : Type 0} (b : Bool) (x y : Result A) → Safe x → Safe y → Safe (if b then x else y)
if-Safe true x y h k = h
if-Safe false x y h k = k

first_if-Safe :
    {A S : Type 0} (b : Bool) (x y : Result A × S)
    → Safe x.0
    → Safe y.0
    → Safe (if b then x else y).0
first_if-Safe true x y h k = h
first_if-Safe false x y h k = k

then-Safe :
    {A B S : Type 0} (out : Result A × S) (f : A → S → Result B × S)
    → Safe out.0
    → ((a : A) (s : S) → Safe (f a s).0)
    → Safe (continue out.0 f out.1).0
then-Safe (ok a, s) f h k = k a s
then-Safe (stop e, s) f h k = Safe-stop e h

some_rows : (k : ℕ) → eqb_ℤ (pos (suc k)) (pos 0) ≡ false
some_rows k = ground arith

same_lengths-Safe : (n j : ℕ) (params : List Param) → Safe (same_lengths n j params)
unfolding same_lengths
same_lengths-Safe n j [] = Safe-ok tt
same_lengths-Safe n j (p ∷ params) =
    if-Safe (param_length p == n) (same_lengths n (suc j) params)
      (stop (wrong_parameter_length j n)) (same_lengths-Safe n (suc j) params)
      ((λ k. cc), (λ k. cc))

validate_params-Safe : (params : List Param) → Safe (validate_params params)
unfolding validate_params
validate_params-Safe [] = Safe-ok tt
validate_params-Safe (p ∷ params) = same_lengths-Safe (param_length p) 2 params

module _ {Stmt : Type 0} (sq : Sqlite Stmt) (rt : Runtime) (laws : IsRuntime rt) (boost : Boost)
    (cells : (stmt : Stmt) (j : ℕ) → IsSqliteColumn (sq.column stmt j)) (interrupt : ℕ → Bool) where
  bind-Safe :
      (params : List Param) (r : ResultImpl Stmt) → IsFitting r → Safe (DbResult.bind sq params r).0
  unfolding DbResult.bind
  bind-Safe params r fit = by_check (validate_params params) refl (validate_params-Safe params)
    where
      by_check :
          (x : Result (Unit {0}))
          → validate_params params ≡ x
          → Safe x
          → Safe (continue x (λ u. ResultImpl.bind sq params) r).0
      by_check (ok u) e s = (bind-IsFitting sq params r e fit).0
      by_check (stop e') e s = Safe-stop e' s

  Fetches-Safe :
      (n : ℕ) (r : ResultImpl Stmt) (out : Result Fetched × ResultImpl Stmt)
      → Fetches sq rt laws boost cells interrupt n r out
      → Safe out.0
  Fetches-Safe n r (ok f, s) h = Safe-ok f
  Fetches-Safe n r (stop e, s) h = Safe-stop e h.0

  peek_first_row-Safe : (r : ResultImpl Stmt) → Safe (Fetch.peek_first_row sq rt boost r).0
  peek_first_row-Safe r =
      of_peeked (Fetch.peek_first_row sq rt boost r)
        (peek_first_row-Peeked sq rt laws boost cells r)
    where
      of_peeked :
          (out : Result Fetched × ResultImpl Stmt)
          → Peeked sq rt laws boost cells (in_view sq rt laws boost cells r) r out
          → Safe out.0
      of_peeked (ok f, s) h = Safe-ok f
      of_peeked (stop e, s) h = absurd h

  fetch-Safe :
      (k : ℕ) (r : ResultImpl Stmt)
      → IsFitting r
      → Safe (DbResult.fetch sq rt boost interrupt k (pos k) r).0
  unfolding DbResult.fetch Fetch.fetch
  fetch-Safe zero r fit =
      first_if-Safe r.ready (Fetch.peek_first_row sq rt boost r) (stop not_bound, r)
        (peek_first_row-Safe r) ((λ h. cc), (λ h. cc))
  fetch-Safe (suc k) r fit =
      first_if-Safe r.ready _ (stop not_bound, r)
        (rw (some_rows k)
          (Fetches-Safe (suc k) r _ (fetch_rows-Fetches sq rt laws boost cells interrupt k r fit)))
        ((λ h. cc), (λ h. cc))

  info-Safe :
      (type2char : SexpType → String) (r : ResultImpl Stmt)
      → Safe (DbResult.get_column_info sq rt boost type2char r).0
  unfolding DbResult.get_column_info Fetch.get_column_info
  info-Safe type2char r =
      then-Safe (Fetch.get_column_info sq rt boost type2char r) _
        (then-Safe (Fetch.peek_first_row sq rt boost r) _ (peek_first_row-Safe r)
          (λ out s. Safe-ok _))
        (λ out s. Safe-ok _)

  method-Safe :
      {A : Type 0} (i : ℕ) (method : ResultImpl Stmt → Result A × ResultImpl Stmt)
      (t : Session Stmt)
      → IsShared t
      → ((r : ResultImpl Stmt) → IsFitting r → Safe (method r).0)
      → Safe (with_result i method t).0
  unfolding with_result
  method-Safe i method t c h = elim (Option-cases (lookup i t.results)) [
    | inl e ↦ rw (e, with_result) ((λ k. cc), (λ k. cc))
    | inr (r, e) ↦
        rw (e, with_result) (h r (subst FitsIfThere e (lookup-FitsIfThere i t.results c.fits)))
  ]

  -- For a runtime and an SQLite that behave as documented: in every session that is reached from a
  -- new connection, whatever was called before, binding any parameters to any result, a fetch of at
  -- most `k` rows from it, and asking for its columns, read nothing out of bounds and come to an
  -- end, with a value or an R error; also where the result was released or never made.
  pub result_calls-Safe :
      (open_v2 : OpenV2) (args : Arguments) (s t : Session Stmt) (i k : ℕ) (params : List Param)
      (type2char : SexpType → String)
      → connection_connect open_v2 args ≡ ok s
      → Reached sq rt boost s t
      → Safe (result_bind sq i params t).0
        × Safe (result_fetch sq rt boost interrupt k i (pos k) t).0
        × Safe (result_column_info sq rt boost type2char i t).0
  unfolding result_bind result_fetch result_column_info
  result_calls-Safe open_v2 args s t i k params type2char e r =
      let c : IsShared t = Reached-IsShared sq rt boost open_v2 args s t e r in
      (
        method-Safe i (DbResult.bind sq params) t c (bind-Safe params),
        method-Safe i (DbResult.fetch sq rt boost interrupt k (pos k)) t c (fetch-Safe k),
        method-Safe i (DbResult.get_column_info sq rt boost type2char) t c
            (λ r' fit. info-Safe type2char r'),
      )
