-- ===== src/ResultImpl.antt =====
-- src/SqliteResultImpl.cpp and .h: a prepared statement with its parameters, and how far it is run.
-- SQLite itself is the record Sqlite, over a type of statements: a call returns the statement as it
-- is after the call. A method returns the object beside its result, also when it raises an error.
pub mod Fetch
pub mod Kept
pub mod Stepping
pub mod Binding
pub mod Fetching
pub mod Peeking
pub mod Unlimited
pub mod Answers
pub mod Running
pub mod Starting
pub mod Showing
pub mod Rounds
pub mod Delivering
pub mod Keeping
pub mod Serving
pub mod Typing
use rsqlite.Prelude.{
  ℕ, zero, suc, ◌-◌, ◌^◌, min, ℤ, pos, negsuc, eqb_ℤ, ltb_ℤ, String, Bool, true, false, not, ◌&&◌,
  ◌||◌, Option, none, some, List, [], ◌∷◌, ◌++◌, map, ◌==◌, ltb, leb, length, replicate,
  if◌then◌else◌,
}
use rsqlite.Outcome.{
  Result, ok, stop, needs_no_parameters, wrong_parameter_count, not_bound, sqlite_error,
  out_of_fuel,
}
use rsqlite.Exec.{Exec, pure, raise, lift, continue, ◌>>=◌, ◌>>◌, modify}
use rsqlite.DataType.{DataType}
use rsqlite.Runtime.{SexpType, Runtime, na_integer}
use rsqlite.Source.{Warning}
use rsqlite.Storage.{sexptype_from_datatype}
use rsqlite.DataFrame.{
  Row, DbDataFrame, FrameData, new_data_frame, set_col_values, advance, get_ncols, get_data,
}
use rsqlite.SqliteSource.{SqliteColumn, Boost, sqlite_source}
use rsqlite.Params.{Param, BoundValue, bind_value, param_length}

-- The codes of the library's header.
abbrev pub sqlite_row : ℕ
sqlite_row = 100

abbrev pub sqlite_done : ℕ
sqlite_done = 101

-- sqlite3_prepare_v2 of a text and a number of bytes, with its code, the statement, and the unread
-- text unless that pointer is null; sqlite3_step (with its code), _reset, _clear_bindings, _bind_…,
-- _column_count, _column_name, _bind_parameter_count, _bind_parameter_name, sqlite3_total_changes
-- of the statement's connection, and what is asked of one column.
pub record Sqlite (Stmt : Type 0) : Type 0 where
  pub prepare_v2 : List ℕ → ℕ → ℕ × Stmt × Option (List ℕ)
  pub step : Stmt → ℕ × Stmt
  pub reset : Stmt → Stmt
  pub clear_bindings : Stmt → Stmt
  pub bind : Stmt → ℕ → BoundValue → Stmt
  pub column_count : Stmt → ℕ
  pub column_name : Stmt → ℕ → String
  pub bind_parameter_count : Stmt → ℕ
  pub bind_parameter_name : Stmt → ℕ → Option (List ℕ)
  pub total_changes : Stmt → ℕ
  pub column : Stmt → ℕ → SqliteColumn

-- The members but conn, which the statement has; `cache.ncols_` is the length of `names`.
pub record ResultImpl (Stmt : Type 0) : Type 0 where
  pub stmt : Stmt
  pub names : List String
  pub nparams : ℕ
  pub complete : Bool
  pub ready : Bool
  pub nrows : ℕ
  pub total_changes_start : ℕ
  pub params : List Param
  pub group : ℕ
  pub groups : ℕ
  pub types : List DataType
  pub with_alt_types : Bool

-- What fetch() gives: the frame, the warnings of the cells, and whether it warns that the query is
-- no SELECT.
pub record Fetched : Type 0 where
  pub frame_data : FrameData
  pub warnings : List Warning
  pub no_select : Bool

-- C's isspace
abbrev is_space : ℕ → Bool
is_space c = (c == 32) || (leb 9 c && leb c 13)

-- What remains of the query after the white space; a warning shows it unless it is empty.
unfoldable pub skip_space : List ℕ → List ℕ
skip_space [] = []
skip_space (c ∷ tail) = if is_space c then skip_space tail else c ∷ tail

-- get_initial_field_types
unfoldable pub get_initial_field_types : ℕ → List DataType
get_initial_field_types ncols = replicate ncols DataType.unknown

-- raise_sqlite_exception; the message is not kept.
abbrev pub raise_sqlite_exception : {A : Type 0} → Result A
raise_sqlite_exception = stop sqlite_error

-- What prepare() does with the text that SQLite did not read.
abbrev pub unread : Option (List ℕ) → List ℕ
unread none = []
unread (some tail) = skip_space tail

-- The difference of two counters as an `int`.
abbrev difference : ℕ → ℕ → ℤ
difference a b = if leb b a then pos (a - b) else negsuc (b - a - 1)

-- Rf_length(params[0]); bind() is not called for no parameters.
abbrev pub first_length : List Param → ℕ
first_length [] = 0
first_length (p ∷ params) = param_length p

module _ {Stmt : Type 0} where
  -- init(params_have_rows)
  unfoldable pub init : Bool → ResultImpl Stmt → ResultImpl Stmt
  init params_have_rows r = record r { ready = true; nrows = 0; complete = not params_have_rows }

module _ {Stmt : Type 0} (sq : Sqlite Stmt) where
  -- The loop over the parameters of bind_row(), from the position `j`.
  unfoldable pub bind_params : ℕ → List Param → Exec (ResultImpl Stmt) (Unit {0})
  bind_params j [] r = (ok tt, r)
  bind_params j (p ∷ params) r = elim (bind_value p r.group) [
    | ok v ↦ bind_params (suc j) params (record r { stmt = sq.bind r.stmt j v })
    | stop e ↦ (stop e, r)
  ]

  unfoldable pub bind_row : Exec (ResultImpl Stmt) Bool
  bind_row r =
      if leb r.groups r.group
      then (ok false, r)
      else (bind_params 1 r.params >> pure true)
          (record r { stmt = sq.clear_bindings (sq.reset r.stmt) })

  unfoldable pub step_done : Exec (ResultImpl Stmt) Bool
  step_done = do
    modify (λ r. record r { group = suc r.group })
    more_params ← bind_row
    modify (λ r. if more_params then r else record r { complete = true })
    pure more_params

  unfoldable pub step_run : Exec (ResultImpl Stmt) Bool
  step_run r =
      let (rc, stmt) = sq.step r.stmt in
      let stepped = record r { stmt = stmt } in
      if rc == sqlite_done
      then step_done stepped
      else if rc == sqlite_row
      then (ok false, stepped)
      else (raise_sqlite_exception, stepped)

  -- The loop of step(). Each round but the last begins another row of the parameters.
  unfoldable pub step_loop : ℕ → Exec (ResultImpl Stmt) (Unit {0})
  step_loop zero = raise out_of_fuel
  step_loop (suc f) = do again ← step_run; elim again [ true ↦ step_loop f | false ↦ pure tt ]

  unfoldable pub step : Exec (ResultImpl Stmt) (Unit {0})
  step r = step_loop (suc (r.groups - r.group)) r

  unfoldable pub after_bind : Bool → Exec (ResultImpl Stmt) (Unit {0})
  after_bind params_have_rows = do
    modify (init params_have_rows)
    if params_have_rows then step else pure tt

  -- set_params
  abbrev set_params : List Param → ResultImpl Stmt → ResultImpl Stmt
  set_params params r = record r { params = params }

  -- The members that bind() sets before it binds the first row.
  unfoldable pub with_params : List Param → ResultImpl Stmt → ResultImpl Stmt
  with_params params r = record (set_params params r) {
    groups = first_length params;
    group = 0;
    total_changes_start = sq.total_changes r.stmt;
  }

  -- bind(params)
  unfoldable pub bind : List Param → Exec (ResultImpl Stmt) (Unit {0})
  bind params r =
      if r.nparams == 0
      then (stop needs_no_parameters, r)
      else if length params == r.nparams
      then (bind_row >>= after_bind) (with_params params r)
      else (stop (wrong_parameter_count r.nparams (length params)), r)

  unfoldable pub n_rows_affected : ResultImpl Stmt → ℤ
  n_rows_affected r =
      if r.ready then difference (sq.total_changes r.stmt) r.total_changes_start else na_integer

  abbrev placeholder_name : Option (List ℕ) → List ℕ
  placeholder_name none = []
  placeholder_name (some []) = []
  placeholder_name (some (c ∷ name)) = name

  -- The names of the parameters `j` to `j + n - 1`, without the first character of each.
  unfoldable pub names_from : ℕ → ℕ → Stmt → List (List ℕ)
  names_from zero j stmt = []
  names_from (suc n) j stmt =
      placeholder_name (sq.bind_parameter_name stmt j) ∷ names_from n (suc j) stmt

  unfoldable pub get_placeholder_names : ResultImpl Stmt → List (List ℕ)
  get_placeholder_names r = names_from (sq.bind_parameter_count r.stmt) 1 r.stmt

  -- prepare(conn, sql): the statement, and the rest of the query that a warning shows unless it is
  -- empty. The number of bytes is at most INT_MAX.
  unfoldable pub prepare : List ℕ → Result (Stmt × List ℕ)
  prepare sql =
      let (rc, stmt, tail) = sq.prepare_v2 sql (min (suc (length sql)) (2 ^ 31 - 1)) in
      if rc == 0 then ok (stmt, unread tail) else raise_sqlite_exception

  -- The loop of get_column_names(), from the column `j`, and its `n` names.
  unfoldable pub columns_from : ℕ → ℕ → Stmt → List String
  columns_from zero j stmt = []
  columns_from (suc n) j stmt = sq.column_name stmt j ∷ columns_from n (suc j) stmt

  unfoldable pub get_column_names : Stmt → List String
  unfolding columns_from
  get_column_names stmt = columns_from (sq.column_count stmt) 0 stmt

  -- The members as the constructor sets them first, with those of the cache.
  unfoldable pub fresh : Stmt → Bool → ResultImpl Stmt
  unfolding get_column_names
  fresh stmt with_alt_types =
      let names = get_column_names stmt in
      record {
        stmt = stmt;
        names = names;
        nparams = sq.bind_parameter_count stmt;
        complete = false;
        ready = false;
        nrows = 0;
        total_changes_start = sq.total_changes stmt;
        params = [];
        group = 0;
        groups = 0;
        types = get_initial_field_types (length names);
        with_alt_types = with_alt_types;
      }

  -- What the body of the constructor leaves; an error destroys the object.
  unfoldable pub created :
      List ℕ → Result (Unit {0}) × ResultImpl Stmt → Result (ResultImpl Stmt × List ℕ)
  created rest (ok u, r) = ok (r, rest)
  created rest (stop e, r) = stop e

  -- The constructor behind prepare().
  unfoldable pub constructed : Bool → Result (Stmt × List ℕ) → Result (ResultImpl Stmt × List ℕ)
  unfolding created fresh
  constructed with_alt_types (stop e) = stop e
  constructed with_alt_types (ok (stmt, rest)) =
      let r = fresh stmt with_alt_types in
      created rest (if r.nparams == 0 then after_bind true r else (ok tt, r))

  -- The constructor: the object and the rest of the query that is ignored. An error finalizes the
  -- statement and leaves no object.
  unfoldable pub new_result : List ℕ → Bool → Result (ResultImpl Stmt × List ℕ)
  unfolding prepare constructed
  new_result sql with_alt_types = constructed with_alt_types (prepare sql)
