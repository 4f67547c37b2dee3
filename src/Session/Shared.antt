-- ===== src/Session/Shared.antt =====
-- Whatever R does, the connection lives exactly as long as something refers to it.
use rsqlite.Prelude.{
  ℕ, suc, ◌+◌, ◌-◌, ◌<◌, ◌≡◌, refl, ap, Bool, true, false, Option-cases, none, some, List, ◌==◌,
  inl, inr, if◌then◌else◌, arith,
}
use mathlib.Core.Path.{subst}
use rsqlite.Outcome.{Result, ok, stop, ◌>>=◌}
use rsqlite.Exec.{Exec}
use rsqlite.Storage.Blocks.{All}
use rsqlite.Connection.{DbConnection, destroy, check_connection, conn}
use rsqlite.Connection.Lifetime.{IsBalanced, destroy_lem}
use rsqlite.ResultImpl.{Sqlite, ResultImpl, new_result}
use rsqlite.Session.{
  Session, lookup, put, acquire, let_go, unwind, forget_connection, delete_result, result_release,
  with_result, new_sqlite_result, wrapped, result_create,
}
use rsqlite.Session.Fitting.{Fitted, Made, new_result-Made}
use rsqlite.Session.Counting.{
  live, held_by, FitsIfThere, live-append, live-put, append-FitsIfThere, put-FitsIfThere,
  lookup-FitsIfThere,
}

-- The connection object: alive with one balanced handle, or destroyed once with its handle closed
-- once and no R object kept.
abbrev pub Object : Bool → ℕ → DbConnection → Type 0
Object true destroyed c = (destroyed ≡ 1) × ((c.closed ≡ 1) × (c.preserved ≡ 0))
Object false destroyed c = (destroyed ≡ 0) × IsBalanced c

-- `owed` references are counted that nobody has any more.
pub record Counted {Stmt : Type 0} (owed : ℕ) (s : Session Stmt) : Type 0 where
  pub count : s.uses ≡ owed + (held_by s.pointer + live s.results)
  pub statements : s.statements ≡ live s.results
  pub object : Object (s.uses == 0) s.destroyed s.con
  pub fits : All FitsIfThere s.results

abbrev pub IsShared : {Stmt : Type 0} → Session Stmt → Type 0
IsShared s = Counted 0 s

one : (n : ℕ) → (n == 1) ≡ true → n ≡ 1
one n h = ground arith

more_than_one : (n : ℕ) → (n == 1) ≡ false → 0 < n → (n - 1 == 0) ≡ false
more_than_one n h k = ground arith

some_uses : (n : ℕ) → 0 < n → (n == 0) ≡ false
some_uses n k = ground arith

module _ {Stmt : Type 0} where
  either-IsShared :
      (b : Bool) (x y : Session Stmt)
      → (b ≡ true → IsShared x)
      → (b ≡ false → IsShared y)
      → IsShared (if b then x else y)
  either-IsShared true x y h k = h refl
  either-IsShared false x y h k = k refl

  pub alive :
      {owed : ℕ} (s : Session Stmt)
      → Counted owed s
      → 0 < s.uses
      → ((s.uses == 0) ≡ false) × Object false s.destroyed s.con
  alive s c h =
      (some_uses s.uses h, subst (λ b. Object b s.destroyed s.con) (some_uses s.uses h) c.object)

  -- The last reference that goes destroys the object, and no other one does.
  let_go-IsShared : (s : Session Stmt) → Counted 1 s → IsShared (let_go s)
  unfolding let_go
  let_go-IsShared s c =
      let left : Session Stmt = record s { uses = s.uses - 1 } in
      let (some_left, (zero_times, balanced)) = alive s c (omega (arith, c.count)) in
      either-IsShared (s.uses == 1)
        (record left { con = destroy s.con; destroyed = suc s.destroyed }) left
        (λ e.
          let last : s.uses ≡ 1 = one s.uses e in
          record {
            count = omega (arith, last, c.count);
            statements = c.statements;
            object = rw last (ap suc zero_times, destroy_lem s.con balanced);
            fits = c.fits;
          })
        (λ e. record {
          count = omega (arith, c.count);
          statements = c.statements;
          object = rw (more_than_one s.uses e (omega (arith, c.count))) (zero_times, balanced);
          fits = c.fits;
        })

  pub forget-IsShared : (s : Session Stmt) → IsShared s → IsShared (forget_connection s)
  unfolding forget_connection
  forget-IsShared s c =
      either-IsShared s.pointer (let_go (record s { pointer = false })) s
        (λ e.
          let_go-IsShared (record s { pointer = false })
            (record {
              count = omega (arith, c.count, ap held_by e);
              statements = c.statements;
              object = c.object;
              fits = c.fits;
            }))
        (λ e. c)

  pub release-IsShared : (i : ℕ) (s : Session Stmt) → IsShared s → IsShared (result_release i s)
  unfolding result_release delete_result
  release-IsShared i s c = elim (Option-cases (lookup i s.results)) [
    | inl e ↦ rw (e, result_release) c
    | inr (r, e) ↦
        rw (e, result_release)
          (let_go-IsShared
            (record s { statements = s.statements - 1; results = put i none s.results })
            (record {
              count = omega (arith, c.count, live-put i r none s.results e);
              statements = omega (arith, c.statements, live-put i r none s.results e);
              object = c.object;
              fits = put-FitsIfThere i none s.results c.fits tt;
            }))
  ]

  pub method-IsShared :
      {A : Type 0} (i : ℕ) (method : Exec (ResultImpl Stmt) A) (s : Session Stmt)
      → Fitted method
      → IsShared s
      → IsShared (with_result i method s).1
  unfolding with_result
  method-IsShared i method s fitted c = elim (Option-cases (lookup i s.results)) [
    | inl e ↦ rw (e, with_result) c
    | inr (r, e) ↦
        rw (e, with_result)
          (record {
            count = omega (arith, c.count, live-put i r (some (method r).1) s.results e);
            statements = omega (arith, c.statements, live-put i r (some (method r).1) s.results e);
            object = c.object;
            fits =
                put-FitsIfThere i (some (method r).1) s.results c.fits
                  (fitted r (subst FitsIfThere e (lookup-FitsIfThere i s.results c.fits)));
          })
  ]

  -- A change of the connection object by who has a reference.
  pub object-IsShared :
      (c : DbConnection) (s : Session Stmt)
      → s.pointer ≡ true
      → (IsBalanced s.con → IsBalanced c)
      → IsShared s
      → IsShared (record s { con = c })
  object-IsShared c s p h k =
      let (some_left, (zero_times, balanced)) = alive s k (omega (arith, k.count, ap held_by p)) in
      record {
        count = k.count;
        statements = k.statements;
        object = rw some_left (zero_times, h balanced);
        fits = k.fits;
      }

module _ {Stmt : Type 0} (sq : Sqlite Stmt) where
  -- A constructor that fails gives its reference back.
  failed-IsShared :
      (s : Session Stmt) → s.pointer ≡ true → IsShared s → IsShared (let_go (acquire s))
  unfolding acquire
  failed-IsShared s p c = let_go-IsShared (acquire s) (record {
    count = omega (arith, c.count);
    statements = c.statements;
    object =
        rw (some_uses (suc s.uses) (omega arith))
          (alive s c (omega (arith, c.count, ap held_by p))).1;
    fits = c.fits;
  })

  created-IsShared :
      (made : Result (ResultImpl Stmt × List ℕ)) (s : Session Stmt)
      → Made sq made
      → s.pointer ≡ true
      → IsShared s
      → IsShared
          (wrapped sq (elim made as (λ x. Result (ResultImpl Stmt) × Session Stmt) [
            | stop e ↦ unwind (stop e, acquire s)
            | ok (r, tail) ↦ (ok r, record (acquire s) { statements = suc s.statements })
          ])).1
  unfolding wrapped unwind acquire
  created-IsShared (stop e) s m p c = failed-IsShared s p c
  created-IsShared (ok (r, tail)) s m p c = record {
    count = omega (arith, c.count, live-append s.results r);
    statements = omega (arith, c.statements, live-append s.results r);
    object =
        rw (some_uses (suc s.uses) (omega arith))
          (alive s c (omega (arith, c.count, ap held_by p))).1;
    fits = append-FitsIfThere s.results r c.fits m;
  }

  guarded-Made :
      (x : Result (Unit {0})) (y : Result (ResultImpl Stmt × List ℕ))
      → Made sq y
      → Made sq (x >>= λ u. y)
  guarded-Made (ok u) y h = h
  guarded-Made (stop e) y h = tt

  pub create-IsShared :
      (sql : List ℕ) (s : Session Stmt)
      → s.pointer ≡ true
      → IsShared s
      → IsShared (result_create sq sql s).1
  unfolding result_create new_sqlite_result
  create-IsShared sql s p c = by_check (check_connection s.con)
    where
      made : Result (ResultImpl Stmt × List ℕ)
      made =
          check_connection s.con >>= λ u. conn s.con >>= λ u. new_result sq sql s.con.with_alt_types

      by_check :
          (x : Result (Unit {0}))
          → IsShared
              (elim x as (λ y. Result ℕ × Session Stmt) [
                | stop e ↦ (stop e, s)
                | ok u ↦ wrapped sq (new_sqlite_result sq sql s)
              ]).1
      by_check (stop e) = c
      by_check (ok u) =
          created-IsShared made s
            (guarded-Made (check_connection s.con)
              (conn s.con >>= λ u. new_result sq sql s.con.with_alt_types)
              (guarded-Made (conn s.con) (new_result sq sql s.con.with_alt_types)
                (new_result-Made sq sql s.con.with_alt_types)))
            p c
