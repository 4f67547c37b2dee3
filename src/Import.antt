-- ===== src/Import.antt =====
-- RS_sqlite_import of src/import-file.c, and connection_import_file of src/connection.cpp. SQLite
-- is the record Database over a type of databases, and an allocation that may fail is a Boolean of
-- the record Memory; malloc() in RS_sqlite_getline does not fail. `Held` says what is open or
-- allocated and was not yet given back.
pub mod Line
pub mod Fields
pub mod Command
pub mod Reading
pub mod Ending
pub mod Splitting
pub mod Lossless
pub mod Inserting
pub mod Whole
pub mod Holding
pub mod Resources
use rsqlite.Prelude.{
  ℕ, zero, suc, ◌+◌, ◌*◌, ℤ, pos, ltb_ℤ, Bool, true, false, not, ◌||◌, Option, none, some, List, [],
  ◌∷◌, ◌++◌, map, ◌==◌, length, codes, if◌then◌else◌,
}
use rsqlite.Outcome.{
  Result, ok, stop, no_separator, null_file, wrong_columns, sqlite_error, out_of_fuel,
}
use rsqlite.Exec.{Exec, pure, raise, lift, ◌>>=◌, ◌>>◌, modify}
use rsqlite.Params.{BoundValue}
use rsqlite.ResultImpl.{sqlite_done}
use rsqlite.Connection.{DbConnection, conn}
use rsqlite.Import.Line.{Bytes, getline}
use rsqlite.Import.Command.{select_sql, insert_sql}
use rsqlite.Import.Fields.{Columns, split_columns, bind_text}

abbrev sqlite_ok : ℕ
sqlite_ok = 0

abbrev sqlite_schema : ℕ
sqlite_schema = 17

-- sqlite3_prepare_v2 of a query with sqlite3_column_count of it, where `none` is an error, and of a
-- command; sqlite3_step and then sqlite3_reset of the command with its bound values, by their
-- codes; and the conversion %q of sqlite3_mprintf.
pub record Database (Db : Type 0) : Type 0 where
  pub column_count : Bytes → Db → Option ℕ
  pub prepares : Bytes → Db → Bool
  pub step : Bytes → List BoundValue → Db → ℕ × Db
  pub reset : Bytes → List BoundValue → Db → ℕ
  pub quoted : Bytes → Bytes

-- The three allocations whose failure is tested.
pub record Memory : Type 0 where
  pub mprintf : Bool
  pub sql : Bool
  pub columns : Bool

pub record Held : Type 0 where
  pub stmt : Bool
  pub file : Bool
  pub columns : Bool
  pub line : Bool

pub record Run (Db : Type 0) : Type 0 where
  pub db : Db
  pub held : Held

-- What is passed, with the content of the file, if it can be opened.
pub record Call : Type 0 where
  pub table : Bytes
  pub content : Option Bytes
  pub separator : Bytes
  pub eol : Bytes
  pub skip : ℤ

module _ {Db : Type 0} (database : Database Db) where
  unfoldable pub release_line : Exec (Run Db) (Unit {0})
  release_line = modify (λ r. record r { held = record r.held { line = false } })

  -- free(azCol), fclose(in) and sqlite3_finalize(pStmt)
  unfoldable pub release_all : Exec (Run Db) (Unit {0})
  release_all = modify (λ r. record r {
    held = record { stmt = false; file = false; columns = false; line = r.held.line };
  })

  -- sqlite3_reset, which returns the code of the step before.
  unfoldable pub reset_row : Bytes → List BoundValue → Exec (Run Db) (Unit {0})
  unfolding release_line release_all
  reset_row sql values r =
      (release_line
          >> (if database.reset sql values r.db == sqlite_ok
              then pure tt
              else release_all >> raise sqlite_error))
        r

  -- sqlite3_step and sqlite3_reset: each refusal gives everything back.
  unfoldable pub insert_row : Bytes → List BoundValue → Exec (Run Db) (Unit {0})
  unfolding reset_row release_line release_all
  insert_row sql values r =
      let (rc, db) = database.step sql values r.db in
      let stepped = record r { db = db } in
      if (rc == sqlite_done) || (rc == sqlite_schema)
      then reset_row sql values stepped
      else (release_line >> release_all >> raise sqlite_error) stepped

  -- One line that is not skipped.
  unfoldable pub import_line : Bytes → ℕ → Bytes → ℕ → Bytes → Exec (Run Db) (Unit {0})
  unfolding insert_row
  import_line sql nCol separator lineno line =
      let columns = split_columns separator nCol line in
      if suc columns.i == nCol
      then insert_row sql (map bind_text columns.texts)
      else release_line >> release_all >> raise (wrong_columns lineno nCol (suc columns.i))

  -- The loop over the lines, after `lineno` lines. A call of getline takes at least one byte, or
  -- ends the loop.
  unfoldable pub import_loop :
      (ℕ → Bytes) → Call → Bytes → ℕ → ℕ → Bytes → ℕ → Exec (Run Db) (Unit {0})
  unfolding import_line
  import_loop junk call sql nCol zero file lineno = raise out_of_fuel
  import_loop junk call sql nCol (suc f) file lineno =
      lift (getline junk call.eol file) >>= λ (found, rest). elim found [
        | none ↦ pure tt
        | some line ↦
            modify (λ r. record r { held = record r.held { line = true } })
            >> ((if ltb_ℤ call.skip (pos (suc lineno))
                  then import_line sql nCol call.separator (suc lineno) line
                  else release_line)
                >> import_loop junk call sql nCol f rest (suc lineno))
      ]

  -- The part after the file is opened.
  unfoldable pub import_file : (ℕ → Bytes) → Bool → Call → Bytes → ℕ → Bytes → Exec (Run Db) ℕ
  unfolding import_loop release_all
  import_file junk has_columns call sql nCol content = do
    modify (λ r. record r { held = record r.held { file = true } })
    elim has_columns [
      | false ↦ pure 0
      | true ↦
          modify (λ r. record r { held = record r.held { columns = true } })
          >> (import_loop junk call sql nCol (suc (length content)) content 0
              >> (release_all >> pure 1))
    ]

  -- RS_sqlite_import, on a table with `nCol` columns
  unfoldable pub import_into : (ℕ → Bytes) → Memory → Call → ℕ → Exec (Run Db) ℕ
  unfolding import_file insert_sql
  import_into junk memory call zero = pure 0
  import_into junk memory call (suc n) =
      let sql = insert_sql (database.quoted call.table) (suc n) in
      if memory.sql
      then (λ r.
          if database.prepares sql r.db
          then (modify (λ r. record r { held = record r.held { stmt = true } })
                >> elim call.content [
                  | none ↦ raise null_file
                  | some content ↦ import_file junk memory.columns call sql (suc n) content
                ])
              r
          else (stop sqlite_error, r))
      else pure 0

  unfoldable pub rs_sqlite_import : (ℕ → Bytes) → Memory → Call → Exec (Run Db) ℕ
  unfolding import_into select_sql
  rs_sqlite_import junk memory call r =
      if length call.separator == 0
      then (stop no_separator, r)
      else if memory.mprintf
      then elim (database.column_count (select_sql (database.quoted call.table)) r.db) [
        | none ↦ (stop sqlite_error, r)
        | some nCol ↦ import_into junk memory call nCol r
      ]
      else (ok 0, r)

  -- connection_import_file
  unfoldable pub connection_import_file :
      (ℕ → Bytes) → Memory → Call → DbConnection → Exec (Run Db) Bool
  unfolding rs_sqlite_import
  connection_import_file junk memory call c =
      lift (conn c) >> (rs_sqlite_import junk memory call >>= λ n. pure (not (n == 0)))
