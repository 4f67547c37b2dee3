-- ===== src/Connection/Lifetime.antt =====
-- Whatever R does with a connection, it gives back what it holds.
use rsqlite.Prelude.{
  ℕ, suc, ◌+◌, ◌≡◌, refl, sym, ◌==◌, ltb, ap, ◌∙◌, Bool, true, false, Option, none, some, List, [],
  ◌∷◌, if◌then◌else◌, arith,
}
use mathlib.Core.Path.{subst}
use rsqlite.Outcome.{cannot_connect, ok, stop, invalid_connection}
use rsqlite.Connection.{
  OpenV2, Arguments, open_rc, opened, DbConnection, Callback, disconnect, destroy, keep, connect,
  handler_of, release_data, release_callback_data, set_busy_handler, connection_release,
}

-- The calls that change a connection.
pub data Call : Type 0 where
  set : Option Callback → Call
  release : ℕ → Call

unfoldable pub run : List Call → DbConnection → DbConnection
run [] c = c
run (set f ∷ calls) c = run calls (set_busy_handler f c).1
run (release n ∷ calls) c = run calls (connection_release n c).1

abbrev pub held : Option Callback → ℕ
held none = 0
held (some f) = 1

abbrev open_count : Bool → ℕ
open_count true = 1
open_count false = 0

-- One R object is preserved exactly while there is a callback, and the handle is open or was closed
-- once.
pub record IsBalanced (c : DbConnection) : Type 0 where
  pub callback : c.preserved ≡ held c.busy_callback
  pub once : c.closed + open_count c.handle ≡ 1

-- What release_callback_data leaves of a connection.
record Released (c d : DbConnection) : Type 0 where
  preserved : d.preserved ≡ 0
  callback : d.busy_callback ≡ none
  handle : d.handle ≡ c.handle
  closed : d.closed ≡ c.closed

release_data-Released :
    (o : Option Callback) (c : DbConnection)
    → c.busy_callback ≡ o
    → c.preserved ≡ held o
    → Released c (release_data o c)
unfolding release_data
release_data-Released none c e h = record {
  preserved = h;
  callback = e;
  handle = refl;
  closed = refl;
}
release_data-Released (some f) c e h = record {
  preserved = omega (arith, h);
  callback = refl;
  handle = refl;
  closed = refl;
}

release-Released :
    (c : DbConnection) → c.preserved ≡ held c.busy_callback → Released c (release_callback_data c)
unfolding release_callback_data
release-Released c h = release_data-Released c.busy_callback c refl h

disconnect-IsBalanced :
    (c : DbConnection) → IsBalanced c → c.handle ≡ true → IsBalanced (disconnect c)
unfolding disconnect
disconnect-IsBalanced c b e =
    let r = release-Released (record c { handle = false; closed = suc c.closed }) b.callback in
    record {
      callback = r.preserved ∙ sym (ap held r.callback);
      once = omega (arith, r.closed, ap open_count r.handle, ap open_count e, b.once);
    }

-- A callback that is kept in a connection without one.
keep-IsBalanced :
    (f : Option Callback) (c d : DbConnection) → IsBalanced c → Released c d → IsBalanced (keep f d)
unfolding keep
keep-IsBalanced none c d b r = record {
  callback = r.preserved ∙ sym (ap held r.callback);
  once = omega (arith, r.closed, ap open_count r.handle, b.once);
}
keep-IsBalanced (some f) c d b r = record {
  callback = omega (arith, r.preserved);
  once = omega (arith, r.closed, ap open_count r.handle, b.once);
}

either-IsBalanced :
    {A : Type 0} (v : Bool) (x y : A × DbConnection)
    → (v ≡ true → IsBalanced x.1)
    → IsBalanced y.1
    → IsBalanced (if v then x else y).1
either-IsBalanced true x y bx by = bx refl
either-IsBalanced false x y bx by = by

pub set-IsBalanced :
    (f : Option Callback) (c : DbConnection) → IsBalanced c → IsBalanced (set_busy_handler f c).1
unfolding set_busy_handler
set-IsBalanced f c b =
    let next : DbConnection = keep f (release_callback_data c) in
    let kept : IsBalanced next =
      keep-IsBalanced f c (release_callback_data c) b (release-Released c b.callback) in
    either-IsBalanced c.handle (ok tt, record next { handler = handler_of next.busy_callback })
      (stop invalid_connection, c) (λ e. record { callback = kept.callback; once = kept.once }) b

pub release-IsBalanced :
    (n : ℕ) (c : DbConnection) → IsBalanced c → IsBalanced (connection_release n c).1
unfolding connection_release
release-IsBalanced n c b =
    either-IsBalanced c.handle (ltb 1 n, disconnect c) (true, c) (disconnect-IsBalanced c b) b

run-IsBalanced : (calls : List Call) (c : DbConnection) → IsBalanced c → IsBalanced (run calls c)
unfolding run
run-IsBalanced [] c b = b
run-IsBalanced (set f ∷ calls) c b = run-IsBalanced calls _ (set-IsBalanced f c b)
run-IsBalanced (release n ∷ calls) c b = run-IsBalanced calls _ (release-IsBalanced n c b)

pub opened_lem :
    (open_v2 : OpenV2) (args : Arguments) (c : DbConnection)
    → connect open_v2 args ≡ ok c
    → opened args ≡ c
unfolding connect
opened_lem open_v2 args c = by_code (open_rc open_v2 args == 0)
  where
    by_code :
        (b : Bool) → (if b then ok (opened args) else stop cannot_connect) ≡ ok c → opened args ≡ c
    by_code true e = cc e
    by_code false e = absurd (cc e)

pub opened-IsBalanced :
    (open_v2 : OpenV2) (args : Arguments) (c : DbConnection)
    → connect open_v2 args ≡ ok c
    → IsBalanced c
opened-IsBalanced open_v2 args c e =
    subst IsBalanced (opened_lem open_v2 args c e) (record { callback = refl; once = refl })

-- A shut connection that lets go of its callback.
shut_lem :
    (d : DbConnection)
    → IsBalanced d
    → d.handle ≡ false
    → ((release_callback_data d).closed ≡ 1) × ((release_callback_data d).preserved ≡ 0)
shut_lem d b e =
    let r = release-Released d b.callback in
    (omega (arith, r.closed, ap open_count e, b.once), r.preserved)

pub destroy_lem :
    (d : DbConnection) → IsBalanced d → ((destroy d).closed ≡ 1) × ((destroy d).preserved ≡ 0)
unfolding destroy
destroy_lem d b = by_valid d.handle refl
  where
    disconnected-shut : d.handle ≡ true → (disconnect d).handle ≡ false
    disconnected-shut e =
        unfold disconnect in
        (release-Released (record d { handle = false; closed = suc d.closed }) b.callback).handle

    by_valid :
        (v : Bool)
        → d.handle ≡ v
        → ((release_callback_data (if v then disconnect d else d)).closed ≡ 1)
          × ((release_callback_data (if v then disconnect d else d)).preserved ≡ 0)
    by_valid true e = shut_lem (disconnect d) (disconnect-IsBalanced d b e) (disconnected-shut e)
    by_valid false e = shut_lem d b e

-- If a connection was opened, then whatever sequence of busy handlers is set and of releases is
-- asked for, after its destructor the handle was closed exactly once, and no R object is preserved.
pub destroy-run :
    (open_v2 : OpenV2) (args : Arguments) (c : DbConnection) (calls : List Call)
    → connect open_v2 args ≡ ok c
    → ((destroy (run calls c)).closed ≡ 1) × ((destroy (run calls c)).preserved ≡ 0)
destroy-run open_v2 args c calls e =
    destroy_lem (run calls c) (run-IsBalanced calls c (opened-IsBalanced open_v2 args c e))
