-- ===== src/Session/Newest.antt =====
-- The newest result of a session: how it is made, called and released.
use rsqlite.Prelude.{
  ℕ, suc, ◌-◌, ◌<◌, ◌≡◌, refl, ap, ◌∙◌, Bool, true, false, Option, none, some, List, [], ◌∷◌, ◌++◌,
  length, ◌==◌, if-true, if-false, if◌then◌else◌, arith,
}
use rsqlite.Outcome.{Result, ok, stop, ◌>>=◌, Error, invalid_result}
use rsqlite.Connection.{conn, check_connection}
use rsqlite.ResultImpl.{Sqlite, ResultImpl, new_result}
use rsqlite.Session.{
  Session, lookup, put, acquire, unwind, let_go, delete_result, with_result, new_sqlite_result,
  wrapped, result_create, result_release,
}

module _ {A : Type 0} where
  lookup-append : (os : List (Option A)) (o : Option A) → lookup (length os) (os ++ o ∷ []) ≡ o
  unfolding lookup
  lookup-append [] o = refl
  lookup-append (x ∷ os) o = lookup-append os o

  put-append :
      (os : List (Option A)) (o new : Option A)
      → put (length os) new (os ++ o ∷ []) ≡ os ++ new ∷ []
  unfolding put
  put-append [] o new = refl
  put-append (x ∷ os) o new = ap (λ xs. x ∷ xs) (put-append os o new)

module _ {Stmt : Type 0} where
  -- The session with one more result, and with one more that was released.
  abbrev pub with_new : Session Stmt → Option (ResultImpl Stmt) → Session Stmt
  with_new s o = record s {
    uses = suc s.uses;
    statements = suc s.statements;
    results = s.results ++ o ∷ [];
  }

  abbrev pub with_released : Session Stmt → Session Stmt
  with_released s = record s { results = s.results ++ none ∷ [] }

  found_release :
      (i : ℕ) (t : Session Stmt) (r : ResultImpl Stmt)
      → lookup i t.results ≡ some r
      → result_release i t ≡ delete_result (record t { results = put i none t.results })
  unfolding result_release
  found_release i t r e =
      ap
        (λ (o : Option (ResultImpl Stmt)). elim o as (λ x. Session Stmt) [
          | none ↦ t
          | some q ↦ delete_result (record t { results = put i none t.results })
        ])
        e

  -- The last reference but one goes.
  delete_new :
      (s : Session Stmt) (os : List (Option (ResultImpl Stmt)))
      → 0 < s.uses
      → delete_result (record s { uses = suc s.uses; statements = suc s.statements; results = os })
        ≡ record s { results = os }
  unfolding delete_result let_go
  delete_new s os used =
      let others : (suc s.uses == 1) ≡ false = ground arith in
      if-false others _
      ∙ (λ i. record s { uses = same_uses i; statements = same_statements i; results = os })
    where
      same_uses : suc s.uses - 1 ≡ s.uses
      same_uses = omega arith

      same_statements : suc s.statements - 1 ≡ s.statements
      same_statements = omega arith

  pub release_new :
      (s : Session Stmt) (r : ResultImpl Stmt)
      → 0 < s.uses
      → result_release (length s.results) (with_new s (some r)) ≡ with_released s
  release_new s r used =
      found_release (length s.results) (with_new s (some r)) r (lookup-append s.results (some r))
      ∙ ap (λ os. delete_result (record (with_new s (some r)) { results = os }))
          (put-append s.results (some r) none)
      ∙ delete_new s (s.results ++ none ∷ []) used

  module _ {A : Type 0} (method : ResultImpl Stmt → Result A × ResultImpl Stmt) where
    found_method :
        (i : ℕ) (t : Session Stmt) (r : ResultImpl Stmt)
        → lookup i t.results ≡ some r
        → with_result i method t
          ≡ ((method r).0, record t { results = put i (some (method r).1) t.results })
    unfolding with_result
    found_method i t r e =
        ap
          (λ (o : Option (ResultImpl Stmt)). elim o as (λ x. Result A × Session Stmt) [
            | none ↦ (stop invalid_result, t)
            | some q ↦ ((method q).0, record t { results = put i (some (method q).1) t.results })
          ])
          e

    pub with_result-new :
        (s : Session Stmt) (r : ResultImpl Stmt)
        → with_result (length s.results) method (with_new s (some r))
          ≡ ((method r).0, with_new s (some (method r).1))
    with_result-new s r =
        found_method (length s.results) (with_new s (some r)) r (lookup-append s.results (some r))
        ∙ ap (λ os. ((method r).0, record (with_new s (some r)) { results = os }))
            (put-append s.results (some r) (some (method r).1))

pass :
    {A : Type 0} {b : Bool} (e : Error)
    → b ≡ true
    → (y : Result A) → ((if b then ok (tt {0}) else stop e) >>= λ u. y) ≡ y
pass {b = true} e h y = refl
pass {b = false} e h y = absurd (cc h)

module _ {Stmt : Type 0} (sq : Sqlite Stmt) where
  made_of :
      (s : Session Stmt) (sql : List ℕ)
      → s.con.handle ≡ true
      → (check_connection s.con >>= λ u. conn s.con >>= λ u. new_result sq sql s.con.with_alt_types)
        ≡ new_result sq sql s.con.with_alt_types
  unfolding check_connection conn
  made_of s sql valid = pass _ valid _ ∙ pass _ valid _

  checked_create :
      (s : Session Stmt) (sql : List ℕ)
      → s.con.handle ≡ true
      → result_create sq sql s ≡ wrapped sq (new_sqlite_result sq sql s)
  unfolding result_create
  checked_create s sql valid =
      let checked : check_connection s.con ≡ ok tt = unfold check_connection in if-true valid _ in
      ap
        (λ x. elim x as (λ y. Result ℕ × Session Stmt) [
          | stop e ↦ (stop e, s)
          | ok u ↦ wrapped sq (new_sqlite_result sq sql s)
        ])
        checked

  pub create_new :
      (s : Session Stmt) (sql : List ℕ) (r : ResultImpl Stmt) (rest : List ℕ)
      → s.con.handle ≡ true
      → new_result sq sql s.con.with_alt_types ≡ ok (r, rest)
      → result_create sq sql s ≡ (ok (length s.results), with_new s (some r))
  create_new s sql r rest valid e =
      checked_create s sql valid
      ∙ ap (wrapped sq) (prepared ∙ ap constructs (made_of s sql valid ∙ e))
      ∙ (unfold wrapped acquire in refl)
    where
      constructs : Result (ResultImpl Stmt × List ℕ) → Result (ResultImpl Stmt) × Session Stmt
      constructs (stop e) = unwind (stop e, acquire s)
      constructs (ok (q, tail)) = (ok q, record (acquire s) { statements = suc s.statements })

      prepared :
          new_sqlite_result sq sql s
          ≡ constructs (
              check_connection s.con >>= λ u.
              conn s.con >>= λ u. new_result sq sql s.con.with_alt_types)
      prepared = unfold new_sqlite_result in refl
