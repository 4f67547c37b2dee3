-- ===== src/Session/Reaching.antt =====
-- The sessions that R can reach from a new connection, in any order of its calls.
use rsqlite.Prelude.{ℕ, ◌≡◌, refl, ℤ, String, Bool, true, false, Option, List, [], if◌then◌else◌}
use mathlib.Core.Path.{subst}
use rsqlite.Outcome.{Result, ok, stop, ◌>>=◌}
use rsqlite.Runtime.{Runtime, SexpType}
use rsqlite.SqliteSource.{Boost}
use rsqlite.Params.{Param}
use rsqlite.Connection
use rsqlite.Connection.{OpenV2, Arguments, open_rc, Callback, DbConnection, connect}
use rsqlite.Connection.Lifetime.{release-IsBalanced, set-IsBalanced, opened-IsBalanced}
use rsqlite.ResultImpl.{Sqlite}
use rsqlite.DbResult
use rsqlite.Session.{
  Session, connection_connect, connection_valid, connection_release, set_busy_handler,
  forget_connection, result_release, result_create, result_bind, result_fetch, result_column_info,
}
use rsqlite.Session.Fitting.{bind-Fitted, fetch-Fitted, column_info-Fitted}
use rsqlite.Session.Shared.{
  IsShared, object-IsShared, forget-IsShared, release-IsShared, method-IsShared, create-IsShared,
}

-- A call of R, or of its garbage collector. R makes results and sets handlers only by the external
-- pointer to the connection.
pub data Step {Stmt : Type 0} (sq : Sqlite Stmt) (rt : Runtime) (boost : Boost)
    : Session Stmt → Session Stmt → Type 0 where
  creates :
      (s : Session Stmt) (sql : List ℕ)
      → s.pointer ≡ true
      → Step sq rt boost s (result_create sq sql s).1
  binds :
      (s : Session Stmt) (i : ℕ) (params : List Param)
      → Step sq rt boost s (result_bind sq i params s).1
  fetches :
      (s : Session Stmt) (interrupt : ℕ → Bool) (fuel i : ℕ) (n : ℤ)
      → Step sq rt boost s (result_fetch sq rt boost interrupt fuel i n s).1
  asks :
      (s : Session Stmt) (type2char : SexpType → String) (i : ℕ)
      → Step sq rt boost s (result_column_info sq rt boost type2char i s).1
  clears : (s : Session Stmt) (i : ℕ) → Step sq rt boost s (result_release i s)
  handles :
      (s : Session Stmt) (f : Option Callback)
      → s.pointer ≡ true
      → Step sq rt boost s (set_busy_handler f s).1
  disconnects : (s : Session Stmt) → Step sq rt boost s (connection_release s).1
  forgets : (s : Session Stmt) → Step sq rt boost s (forget_connection s)

pub data Reached {Stmt : Type 0} (sq : Sqlite Stmt) (rt : Runtime) (boost : Boost)
    (s : Session Stmt) : Session Stmt → Type 0 where
  start : Reached sq rt boost s s
  also :
      {t u : Session Stmt}
      → Reached sq rt boost s t
      → Step sq rt boost t u
      → Reached sq rt boost s u

either-IsShared :
    {A Stmt : Type 0} (b : Bool) (x y : A × Session Stmt)
    → (b ≡ true → IsShared x.1)
    → IsShared y.1
    → IsShared (if b then x else y).1
either-IsShared true x y h k = h refl
either-IsShared false x y h k = k

pub first_holds : (a b : Bool) → (if a then b else false) ≡ true → a ≡ true
first_holds true b h = refl
first_holds false b h = absurd (cc h)

module _ {Stmt : Type 0} (sq : Sqlite Stmt) (rt : Runtime) (boost : Boost) where
  disconnects-IsShared : (s : Session Stmt) → IsShared s → IsShared (connection_release s).1
  unfolding connection_release connection_valid
  disconnects-IsShared s c =
      let (warns, con) = Connection.connection_release s.uses s.con in
      either-IsShared (if s.pointer then s.con.handle else false) (warns, record s { con = con })
        (true, s)
        (λ e.
          object-IsShared con s (first_holds s.pointer s.con.handle e)
            (release-IsBalanced s.uses s.con) c)
        c

  Step-IsShared : {s t : Session Stmt} → Step sq rt boost s t → IsShared s → IsShared t
  unfolding result_bind result_fetch result_column_info set_busy_handler
  Step-IsShared (creates s sql p) c = create-IsShared sq sql s p c
  Step-IsShared (binds s i params) c =
      method-IsShared i (DbResult.bind sq params) s (bind-Fitted sq params) c
  Step-IsShared (fetches s interrupt fuel i n) c =
      method-IsShared i (DbResult.fetch sq rt boost interrupt fuel n) s
        (fetch-Fitted sq rt boost interrupt fuel n) c
  Step-IsShared (asks s type2char i) c =
      method-IsShared i (DbResult.get_column_info sq rt boost type2char) s
        (column_info-Fitted sq rt boost type2char) c
  Step-IsShared (clears s i) c = release-IsShared i s c
  Step-IsShared (handles s f p) c =
      object-IsShared (Connection.set_busy_handler f s.con).1 s p (set-IsBalanced f s.con) c
  Step-IsShared (disconnects s) c = disconnects-IsShared s c
  Step-IsShared (forgets s) c = forget-IsShared s c

  connected-IsShared :
      (open_v2 : OpenV2) (args : Arguments) (s : Session Stmt)
      → connection_connect open_v2 args ≡ ok s
      → IsShared s
  unfolding connection_connect
  connected-IsShared open_v2 args s e = by_connection (connect open_v2 args) refl e
    where
      fresh : DbConnection → Session Stmt
      fresh c = record {
        con = c;
        uses = 1;
        destroyed = 0;
        pointer = true;
        results = [];
        statements = 0;
      }

      by_connection :
          (x : Result DbConnection)
          → connect open_v2 args ≡ x
          → (x >>= λ c. ok (fresh c)) ≡ ok s
          → IsShared s
      by_connection (ok c) opened k =
          let same : fresh c ≡ s = cc k in
          subst IsShared same (record {
            count = refl;
            statements = refl;
            object = (refl, opened-IsBalanced open_v2 args c opened);
            fits = tt;
          })
      by_connection (stop d) opened k = absurd (cc k)

  -- If a session is reached from a new connection, by any calls in any order, then the shared
  -- pointers to the connection are counted right, one for R's external pointer and one for each
  -- result that is not released; a statement is open for each of these results; the connection
  -- object is destroyed once these pointers are gone, with its handle closed exactly once and no R
  -- object preserved, and not before; and the parameters of each result fit.
  pub Reached-IsShared :
      (open_v2 : OpenV2) (args : Arguments) (s t : Session Stmt)
      → connection_connect open_v2 args ≡ ok s
      → Reached sq rt boost s t
      → IsShared t
  Reached-IsShared open_v2 args s t e start = connected-IsShared open_v2 args s e
  Reached-IsShared open_v2 args s t e (also r step) =
      Step-IsShared step (Reached-IsShared open_v2 args s _ e r)
