-- ===== src/Connection/Handling.antt =====
-- Which busy handler SQLite has, against the last one that R asked for.
use rsqlite.Prelude.{
  ℕ, ◌≡◌, refl, sym, ap, ◌∙◌, Bool, true, false, if-true, if-false, suc, Option, none, some, List,
  [], ◌∷◌,
}
use mathlib.Core.Path.{subst}
use rsqlite.Outcome.{Result, ok}
use rsqlite.Connection.{
  OpenV2, Arguments, DbConnection, Callback, millis, function, Handler, no_handler, timeout, helper,
  handler_of, keep, release_data, release_callback_data, disconnect, set_busy_handler,
  connection_release, connect,
}
use rsqlite.Connection.Lifetime.{
  Call, set, release, run, IsBalanced, held, opened_lem, opened-IsBalanced, set-IsBalanced,
}

-- The last handler that was set; `none` if there was none.
abbrev pub last_set : Option (Option Callback) → List Call → Option (Option Callback)
last_set o [] = o
last_set o (set f ∷ calls) = last_set (some f) calls
last_set o (release n ∷ calls) = last_set o calls

-- What SQLite should have then: no handler, a timeout of the milliseconds, or the helper with the
-- function, and after a NULL the helper with the null pointer.
abbrev pub handler_for : Option (Option Callback) → Handler
handler_for none = no_handler
handler_for (some none) = helper none
handler_for (some (some (millis n))) = timeout n
handler_for (some (some (function k))) = helper (some (function k))

set_as_asked : (f : Option Callback) → handler_of f ≡ handler_for (some f)
set_as_asked none = refl
set_as_asked (some (millis n)) = refl
set_as_asked (some (function k)) = refl

abbrev pub callback_for : Option (Option Callback) → Option Callback
callback_for none = none
callback_for (some f) = f

-- SQLite has the handler for `o`, and the connection keeps its R object.
pub record IsHandled (o : Option (Option Callback)) (c : DbConnection) : Type 0 where
  pub handler : c.handler ≡ handler_for o
  pub callback : c.busy_callback ≡ callback_for o
  pub preserved : c.preserved ≡ held (callback_for o)

release_data-handle :
    (o : Option Callback) (c : DbConnection) → (release_data o c).handle ≡ c.handle
unfolding release_data
release_data-handle none c = refl
release_data-handle (some f) c = refl

release_data-none :
    (o : Option Callback) (c : DbConnection)
    → c.busy_callback ≡ o
    → (release_data o c).busy_callback ≡ none
unfolding release_data
release_data-none none c e = e
release_data-none (some f) c e = refl

keep_lem :
    (f : Option Callback) (c : DbConnection) → c.busy_callback ≡ none → (keep f c).busy_callback ≡ f
unfolding keep
keep_lem none c e = e
keep_lem (some f) c e = refl

keep-handle : (f : Option Callback) (c : DbConnection) → (keep f c).handle ≡ c.handle
unfolding keep
keep-handle none c = refl
keep-handle (some f) c = refl

refused : (f : Option Callback) (c : DbConnection) → c.handle ≡ false → (set_busy_handler f c).1 ≡ c
unfolding set_busy_handler
refused f c e = ap (λ (o : Result (Unit {0}) × DbConnection). o.1) (if-false e _)

accepted :
    (f : Option Callback) (c : DbConnection)
    → c.handle ≡ true
    → let next = keep f (release_callback_data c) in
      (set_busy_handler f c).1 ≡ record next { handler = handler_of next.busy_callback }
unfolding set_busy_handler
accepted f c e = ap (λ (o : Result (Unit {0}) × DbConnection). o.1) (if-true e _)

released_already : (n : ℕ) (c : DbConnection) → c.handle ≡ false → (connection_release n c).1 ≡ c
unfolding connection_release
released_already n c e = ap (λ (o : Bool × DbConnection). o.1) (if-false e _)

-- A connection that is not valid stays so.
shut-run : (calls : List Call) (c : DbConnection) → c.handle ≡ false → (run calls c).handle ≡ false
unfolding run
shut-run [] c e = e
shut-run (set f ∷ calls) c e =
    shut-run calls (set_busy_handler f c).1
      (ap (λ (d : DbConnection). d.handle) (refused f c e) ∙ e)
shut-run (release n ∷ calls) c e =
    shut-run calls (connection_release n c).1
      (ap (λ (d : DbConnection). d.handle) (released_already n c e) ∙ e)

release-shuts :
    (n : ℕ) (c : DbConnection) → c.handle ≡ true → (connection_release n c).1.handle ≡ false
unfolding connection_release disconnect release_callback_data
release-shuts n c e =
    ap (λ (o : Bool × DbConnection). o.1.handle) (if-true e _)
    ∙ release_data-handle c.busy_callback (record c { handle = false; closed = suc c.closed })

set-handle :
    (f : Option Callback) (c : DbConnection)
    → c.handle ≡ true
    → (set_busy_handler f c).1.handle ≡ true
unfolding release_callback_data
set-handle f c e =
    ap (λ (d : DbConnection). d.handle) (accepted f c e)
    ∙ keep-handle f (release_callback_data c)
    ∙ release_data-handle c.busy_callback c
    ∙ e

set-IsHandled :
    (f : Option Callback) (c : DbConnection)
    → c.handle ≡ true
    → IsBalanced c
    → IsHandled (some f) (set_busy_handler f c).1
unfolding release_callback_data
set-IsHandled f c e b =
    let kept : (keep f (release_callback_data c)).busy_callback ≡ f =
      keep_lem f (release_callback_data c) (release_data-none c.busy_callback c refl) in
    let callback : (set_busy_handler f c).1.busy_callback ≡ f =
      ap (λ (d : DbConnection). d.busy_callback) (accepted f c e) ∙ kept in
    record {
      handler =
          ap (λ (d : DbConnection). d.handler) (accepted f c e)
          ∙ ap handler_of kept
          ∙ set_as_asked f;
      callback = callback;
      preserved = (set-IsBalanced f c b).callback ∙ ap held callback;
    }

run-IsHandled :
    (calls : List Call) (o : Option (Option Callback)) (c : DbConnection)
    → c.handle ≡ true
    → IsBalanced c
    → IsHandled o c
    → (run calls c).handle ≡ true
    → IsHandled (last_set o calls) (run calls c)
unfolding run
run-IsHandled [] o c e b h ends = h
run-IsHandled (set f ∷ calls) o c e b h ends =
    run-IsHandled calls (some f) (set_busy_handler f c).1 (set-handle f c e) (set-IsBalanced f c b)
      (set-IsHandled f c e b) ends
run-IsHandled (release n ∷ calls) o c e b h ends =
    let shut = shut-run calls (connection_release n c).1 (release-shuts n c e) in
    absurd (cc (shut, ends))

-- If a connection was opened, then as long as it is valid, whatever sequence of busy handlers was
-- set: SQLite has the handler for the last one, a timeout for a number, the helper with that
-- function for a function, and the helper with the null pointer for NULL, and none if none was set;
-- and exactly the object of the last one is preserved, no object after NULL.
pub handler_of_last :
    (open_v2 : OpenV2) (args : Arguments) (c : DbConnection) (calls : List Call)
    → connect open_v2 args ≡ ok c
    → (run calls c).handle ≡ true
    → IsHandled (last_set none calls) (run calls c)
handler_of_last open_v2 args c calls e ends =
    let valid : c.handle ≡ true =
      sym (ap (λ (d : DbConnection). d.handle) (opened_lem open_v2 args c e)) in
    run-IsHandled calls none c valid (opened-IsBalanced open_v2 args c e)
      (subst (IsHandled none) (opened_lem open_v2 args c e)
        (record { handler = refl; callback = refl; preserved = refl }))
      ends
