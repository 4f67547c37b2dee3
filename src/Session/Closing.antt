-- ===== src/Session/Closing.antt =====
-- How a connection ends: by connection_release, and by the garbage collector.
use rsqlite.Prelude.{
  ℕ, zero, suc, ◌≤◌, ◌≡◌, refl, sym, ap, ◌∙◌, true, false, Bool-cases, ◌-◌, Option, Option-cases,
  none, some, List, [], ◌∷◌, ◌==◌, ltb, length, drop, inl, inr, if◌then◌else◌, arith,
}
use mathlib.Core.Path.{subst}
use rsqlite.Outcome.{ok, stop, invalid_connection}
use rsqlite.Runtime.{Runtime}
use rsqlite.SqliteSource.{Boost}
use rsqlite.Connection
use rsqlite.Connection.{
  OpenV2, Arguments, open_rc, DbConnection, check_connection, disconnect, release_data,
  release_callback_data,
}
use rsqlite.ResultImpl.{Sqlite}
use rsqlite.Session.{
  Session, lookup, put, let_go, connection_connect, connection_valid, connection_release,
  forget_connection, result_release, delete_result, result_create,
}
use rsqlite.Session.Counting.{live, held_by}
use rsqlite.Session.Shared.{IsShared, Object}
use rsqlite.Session.Reaching.{Reached, also, clears, forgets, first_holds, Reached-IsShared}

-- The garbage collector takes the results `n - 1` to 0.
unfoldable pub collect_results : {Stmt : Type 0} → ℕ → Session Stmt → Session Stmt
collect_results zero s = s
collect_results (suc n) s = collect_results n (result_release n s)

put_absent : {A : Type 0} (i : ℕ) (os : List (Option A)) → lookup i os ≡ none → put i none os ≡ os
unfolding lookup put
put_absent i [] e = refl
put_absent zero (o ∷ os) e = ap (λ x. x ∷ os) (sym e)
put_absent (suc i) (o ∷ os) e = ap (λ x. o ∷ x) (put_absent i os e)

live-put_absent :
    {A : Type 0} (n : ℕ) (os : List (Option A))
    → live (drop n (put n none os)) ≡ live (drop (suc n) os)
unfolding put
live-put_absent zero [] = refl
live-put_absent (suc n) [] = refl
live-put_absent zero (o ∷ os) = omega arith
live-put_absent (suc n) (o ∷ os) = live-put_absent n os

live-drop : {A : Type 0} (n : ℕ) (os : List (Option A)) → length os ≤ n → live (drop n os) ≡ 0
live-drop zero [] h = refl
live-drop (suc n) [] h = refl
live-drop zero (o ∷ os) h = absurd (omega arith)
live-drop (suc n) (o ∷ os) h = live-drop n os (omega arith)

more : (n k : ℕ) → n ≡ suc k → ltb 1 n ≡ ltb 0 k
more n k e = ground arith

module _ {Stmt : Type 0} where
  results-let_go : (s : Session Stmt) → (let_go s).results ≡ s.results
  unfolding let_go
  results-let_go s = elim (Bool-cases (s.uses == 1)) [
    | inl e ↦ rw (e, let_go) refl
    | inr e ↦ rw (e, let_go) refl
  ]

  results-release : (i : ℕ) (s : Session Stmt) → (result_release i s).results ≡ put i none s.results
  unfolding result_release delete_result
  results-release i s = elim (Option-cases (lookup i s.results)) [
    | inl e ↦ rw (e, result_release) (sym (put_absent i s.results e))
    | inr (r, e) ↦
        rw (e, result_release)
          (results-let_go
            (record s { statements = s.statements - 1; results = put i none s.results }))
  ]

  live-collect :
      (n : ℕ) (s : Session Stmt) → live (collect_results n s).results ≡ live (drop n s.results)
  unfolding collect_results
  live-collect zero s = refl
  live-collect (suc n) s =
      live-collect n (result_release n s)
      ∙ ap (λ os. live (drop n os)) (results-release n s)
      ∙ live-put_absent n s.results

  pointer-let_go : (s : Session Stmt) → (let_go s).pointer ≡ s.pointer
  unfolding let_go
  pointer-let_go s = elim (Bool-cases (s.uses == 1)) [
    | inl e ↦ rw (e, let_go) refl
    | inr e ↦ rw (e, let_go) refl
  ]

  -- The external pointer is gone, and the results stay.
  forget_lem :
      (s : Session Stmt)
      → ((forget_connection s).pointer ≡ false) × ((forget_connection s).results ≡ s.results)
  unfolding forget_connection
  forget_lem s = elim (Bool-cases s.pointer) [
    | inl e ↦
        rw (e, forget_connection)
          (
            pointer-let_go (record s { pointer = false }),
            results-let_go (record s { pointer = false }),
          )
    | inr e ↦ rw (e, forget_connection) (refl, refl)
  ]

  -- When nothing refers to the connection.
  ended_lem :
      (s : Session Stmt)
      → IsShared s
      → s.pointer ≡ false
      → live s.results ≡ 0
      → (s.statements ≡ 0) × ((s.destroyed ≡ 1) × ((s.con.closed ≡ 1) × (s.con.preserved ≡ 0)))
  ended_lem s c p l =
      let unused : s.uses ≡ 0 = omega (arith, c.count, ap held_by p, l) in
      (c.statements ∙ l, subst (λ n. Object (n == 0) s.destroyed s.con) unused c.object)

  -- A valid connection is disconnected, with a warning if there are results.
  released_lem :
      (s : Session Stmt)
      → IsShared s
      → connection_valid s ≡ true
      → connection_release s ≡ (ltb 0 (live s.results), record s { con = disconnect s.con })
  unfolding connection_release connection_valid Connection.connection_release
  released_lem s c v =
      let pointer : s.pointer ≡ true = first_holds s.pointer s.con.handle v in
      let handle : s.con.handle ≡ true =
        ap (λ b. if b then s.con.handle else false) (sym pointer) ∙ v in
      let warns : ltb 1 s.uses ≡ ltb 0 (live s.results) =
        more s.uses (live s.results) (omega (arith, c.count, ap held_by pointer)) in
      rw (v, handle, warns) refl

handle-release_data :
    (o : Option Connection.Callback) (c : DbConnection) → (release_data o c).handle ≡ c.handle
unfolding release_data
handle-release_data none c = refl
handle-release_data (some f) c = refl

handle-disconnect : (c : DbConnection) → (disconnect c).handle ≡ false
unfolding disconnect release_callback_data
handle-disconnect c =
    handle-release_data c.busy_callback (record c { handle = false; closed = suc c.closed })

invalid_lem : {Stmt : Type 0} (s : Session Stmt) → s.con.handle ≡ false → connection_valid s ≡ false
unfolding connection_valid
invalid_lem s h = elim (Bool-cases s.pointer) [
  | inl e ↦ rw (e, connection_valid, h) refl
  | inr e ↦ rw (e, connection_valid) refl
]

module _ {Stmt : Type 0} (sq : Sqlite Stmt) where
  refused_lem :
      (s : Session Stmt) (sql : List ℕ)
      → s.con.handle ≡ false
      → ((result_create sq sql s).0 ≡ stop invalid_connection) × (connection_release s ≡ (true, s))
  unfolding result_create check_connection connection_release
  refused_lem s sql h = (rw h refl, rw (invalid_lem s h, connection_release) refl)

module _ {Stmt : Type 0} (sq : Sqlite Stmt) (rt : Runtime) (boost : Boost) where
  Reached-collect :
      {s : Session Stmt} (n : ℕ) (t : Session Stmt)
      → Reached sq rt boost s t
      → Reached sq rt boost s (collect_results n t)
  unfolding collect_results
  Reached-collect zero t r = r
  Reached-collect (suc n) t r = Reached-collect n (result_release n t) (also r (clears t n))

  -- From every session that is reached from a new connection, if R's garbage collector takes all
  -- results and then the connection, no statement is open, the connection object is destroyed once,
  -- its handle was closed exactly once, and no R object is preserved.
  pub collect_lem :
      (open_v2 : OpenV2) (args : Arguments) (s t : Session Stmt)
      → connection_connect open_v2 args ≡ ok s
      → Reached sq rt boost s t
      → let end = forget_connection (collect_results (length t.results) t) in
        (end.statements ≡ 0)
        × ((end.destroyed ≡ 1) × ((end.con.closed ≡ 1) × (end.con.preserved ≡ 0)))
  collect_lem open_v2 args s t e r =
      let collected : Session Stmt = collect_results (length t.results) t in
      let reached : Reached sq rt boost s (forget_connection collected) =
        also (Reached-collect (length t.results) t r) (forgets collected) in
      let (gone, same) = forget_lem collected in
      ended_lem (forget_connection collected)
        (Reached-IsShared sq rt boost open_v2 args s (forget_connection collected) e reached) gone
        (ap live same
          ∙ live-collect (length t.results) t
          ∙ live-drop (length t.results) t.results (omega arith))

  -- In every session that is reached from a new connection and whose connection is valid,
  -- connection_release warns exactly if a result is not released; the connection is invalid
  -- afterwards, so that no result can be made and a second call warns, but the results and their
  -- statements are as before.
  pub connection_release_lem :
      (open_v2 : OpenV2) (args : Arguments) (s t : Session Stmt) (sql : List ℕ)
      → connection_connect open_v2 args ≡ ok s
      → Reached sq rt boost s t
      → connection_valid t ≡ true
      → let next = (connection_release t).1 in
        ((connection_release t).0 ≡ ltb 0 (live t.results))
        × ((connection_valid next ≡ false)
            × (((result_create sq sql next).0 ≡ stop invalid_connection)
                × ((connection_release next ≡ (true, next))
                    × ((next.results ≡ t.results) × (next.statements ≡ t.statements)))))
  connection_release_lem open_v2 args s t sql e r v =
      let shut : (disconnect t.con).handle ≡ false = handle-disconnect t.con in
      let (refused, again) = refused_lem sq (record t { con = disconnect t.con }) sql shut in
      rw (released_lem t (Reached-IsShared sq rt boost open_v2 args s t e r) v) (
        refl,
        (invalid_lem (record t { con = disconnect t.con }) shut, (refused, (again, (refl, refl)))),
      )
