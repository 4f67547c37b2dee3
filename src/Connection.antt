-- ===== src/Connection.antt =====
-- src/DbConnection.cpp and .h, and src/connection.cpp: a connection, with what it holds outside of
-- itself: `preserved` counts the R objects that it keeps from the garbage collector, `closed` how
-- often sqlite3_close_v2 got its handle, and `handler` is the busy handler that SQLite has.
pub mod Lifetime
pub mod Handling
use rsqlite.Prelude.{
  ℕ, suc, ◌-◌, ℤ, Bool, true, false, ◌&&◌, Option, none, some, List, [], ◌∷◌, ◌==◌, ltb,
  if◌then◌else◌, bit_or,
}
use rsqlite.Outcome.{
  Result, ok, stop, disconnected, invalid_connection, cannot_connect, copy_failed, copy_unfinished,
  null_pointer, invalid_result, out_of_bounds, wrong_vector_type,
}

-- What R passes as the busy handler: an integer vector, by its first entry, or a function.
pub data Callback : Type 0 where
  millis : ℤ → Callback
  function : ℕ → Callback

-- `busy_callback_helper` with its data, where `none` is the null pointer.
pub data Handler : Type 0 where
  no_handler : Handler
  timeout : ℤ → Handler
  helper : Option Callback → Handler

-- `handle` says that pConn_ is not null, and `extensions` that SQLite may load extensions.
pub record DbConnection : Type 0 where
  pub handle : Bool
  pub with_alt_types : Bool
  pub extensions : Bool
  pub busy_callback : Option Callback
  pub preserved : ℕ
  pub closed : ℕ
  pub handler : Handler

-- The arguments of the constructor.
pub record Arguments : Type 0 where
  pub path : List ℕ
  pub allow_ext : Bool
  pub flags : ℕ
  pub vfs : List ℕ
  pub with_alt_types : Bool

-- The code of sqlite3_open_v2, by the path, the flags and the name of the VFS, where `none` is the
-- null pointer.
abbrev pub OpenV2 : Type 0
OpenV2 = List ℕ → ℕ → Option (List ℕ) → ℕ

-- A connection with a handle and no busy handler, after sqlite3_enable_load_extension if that is
-- allowed.
abbrev pub opened : Arguments → DbConnection
opened args = record {
  handle = true;
  with_alt_types = args.with_alt_types;
  extensions = args.allow_ext;
  busy_callback = none;
  preserved = 0;
  closed = 0;
  handler = no_handler;
}

abbrev vfs_name : List ℕ → Option (List ℕ)
vfs_name [] = none
vfs_name vfs = some vfs

-- SQLITE_OPEN_URI is 0x40.
abbrev pub open_rc : OpenV2 → Arguments → ℕ
open_rc open_v2 args = open_v2 args.path (bit_or args.flags 0x40) (vfs_name args.vfs)

-- The constructor; SQLITE_OK is 0.
unfoldable pub connect : OpenV2 → Arguments → Result DbConnection
connect open_v2 args = if open_rc open_v2 args == 0 then ok (opened args) else stop cannot_connect

abbrev pub is_valid : DbConnection → Bool
is_valid c = c.handle

unfoldable pub conn : DbConnection → Result (Unit {0})
conn c = if is_valid c then ok tt else stop disconnected

unfoldable pub check_connection : DbConnection → Result (Unit {0})
check_connection c = if is_valid c then ok tt else stop invalid_connection

-- R_ReleaseObject, unless the member is the null pointer.
unfoldable pub release_data : Option Callback → DbConnection → DbConnection
release_data none c = c
release_data (some f) c = record c { preserved = c.preserved - 1; busy_callback = none }

unfoldable pub release_callback_data : DbConnection → DbConnection
release_callback_data c = release_data c.busy_callback c

unfoldable pub disconnect : DbConnection → DbConnection
disconnect c = release_callback_data (record c { handle = false; closed = suc c.closed })

-- The destructor.
unfoldable pub destroy : DbConnection → DbConnection
destroy c = release_callback_data (if is_valid c then disconnect c else c)

-- R_PreserveObject and the member; R's NULL is `none`.
unfoldable pub keep : Option Callback → DbConnection → DbConnection
keep none c = c
keep (some f) c = record c { preserved = suc c.preserved; busy_callback = some f }

abbrev pub handler_of : Option Callback → Handler
handler_of (some (millis n)) = timeout n
handler_of f = helper f

-- An invalid connection raises an error and stays as it is.
unfoldable pub set_busy_handler : Option Callback → DbConnection → Result (Unit {0}) × DbConnection
set_busy_handler f c =
    let next = keep f (release_callback_data c) in
    if is_valid c
    then (ok tt, record next { handler = handler_of next.busy_callback })
    else (stop invalid_connection, c)

-- connection_release, by the number of references; the result says whether it warns.
unfoldable pub connection_release : ℕ → DbConnection → Bool × DbConnection
connection_release uses c = if is_valid c then (ltb 1 uses, disconnect c) else (true, c)

-- copy_to, for what SQLite does with the backup: whether sqlite3_backup_init gives an object, which
-- it does not for a database and itself, and the codes of sqlite3_backup_step, whose SQLITE_DONE is
-- 101, and of sqlite3_backup_finish. The number is that of the backup objects that are not
-- finished.
unfoldable pub backup : ℕ → ℕ → Result (Unit {0}) × ℕ
backup step_rc finish_rc =
    if step_rc == 101
    then (if finish_rc == 0 then ok tt else stop copy_unfinished, 0)
    else (stop copy_failed, 1)

unfoldable pub copy_to : Bool → ℕ → ℕ → DbConnection → DbConnection → Result (Unit {0}) × ℕ
unfolding backup conn
copy_to started step_rc finish_rc from dest = elim (conn dest) [
  | stop e ↦ (stop e, 0)
  | ok u ↦ if from.handle && started then backup step_rc finish_rc else (stop null_pointer, 0)
]

-- The copy changes neither connection.
unfoldable pub connection_copy_database :
    Bool → ℕ → ℕ → DbConnection → DbConnection → Result (Unit {0}) × ℕ
unfolding copy_to
connection_copy_database started step_rc finish_rc from to =
    copy_to started step_rc finish_rc from to

-- in_transaction, by sqlite3_get_autocommit, which uses its handle without a test
unfoldable pub in_transaction : ℕ → DbConnection → Result Bool
in_transaction status c = if c.handle then ok (status == 0) else stop null_pointer

unfoldable pub connection_in_transaction : ℕ → DbConnection → Result Bool
unfolding in_transaction
connection_in_transaction status c = in_transaction status c

-- The text of SQLite's last error is `errmsg`.
unfoldable pub get_exception : List ℕ → DbConnection → List ℕ
get_exception errmsg c = if is_valid c then errmsg else []

-- A connection does not know its results, and takes every one as its current one.
unfoldable pub set_current_result : DbConnection → DbConnection
set_current_result c = c

unfoldable pub reset_current_result : DbConnection → DbConnection
reset_current_result c = c

unfoldable pub is_current_result : DbConnection → Bool
is_current_result c = true

-- The object behind an external pointer, `none` if that is null.
unfoldable pub as_cpp : Option DbConnection → Result DbConnection
as_cpp none = stop invalid_result
as_cpp (some c) = ok c

-- The first entry of the vector that R's function returns, which is not asked for its length.
abbrev first_entry : List ℤ → Result ℤ
first_entry [] = stop out_of_bounds
first_entry (x ∷ xs) = ok x

-- busy_callback_helper(data, num); `rfun f num` is what the R function `f` returns.
unfoldable pub busy_callback_helper : (ℕ → ℤ → List ℤ) → Option Callback → ℤ → Result ℤ
busy_callback_helper rfun none num = stop null_pointer
busy_callback_helper rfun (some (function f)) num = first_entry (rfun f num)
busy_callback_helper rfun (some (millis n)) num = stop wrong_vector_type
