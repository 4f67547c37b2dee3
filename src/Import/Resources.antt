-- ===== src/Import/Resources.antt =====
-- What RS_sqlite_import holds when it ends, whatever the file and the database are.
use rsqlite.Prelude.{
  ℕ, zero, suc, ◌≤◌, ◌<◌, ◌≡◌, refl, sym, ap, pos, ltb_ℤ, Bool, true, false, not, Option, none,
  some, List, [], ◌∷◌, map, ◌==◌, ◌||◌, length, inl, inr, Bool-cases, if◌then◌else◌, arith,
}
use mathlib.Core.Path.{subst}
use rsqlite.Outcome.{Error, Result, ok, stop, sqlite_error, no_separator, wrong_columns, null_file}
use rsqlite.Exec.{Exec, continue, modify, raise, pure, ◌>>◌}
use rsqlite.Params.{BoundValue}
use rsqlite.Connection.{DbConnection, conn}
use rsqlite.Import.Line.{Bytes, Line, getline}
use rsqlite.Import.Command.{select_sql, insert_sql}
use rsqlite.Import.Fields.{Columns, split_columns, bind_text}
use rsqlite.Import.Ending.{Leaves, getline-Leaves, getline_at_end}
use rsqlite.Import.Inserting.{holding, running}
use rsqlite.Import.{
  Database, Memory, Held, Run, Call, release_line, release_all, reset_row, insert_row, import_line,
  import_loop, import_file, import_into, rs_sqlite_import, connection_import_file,
}
use rsqlite.Import.Holding.{Settled, Holds, continue-Holds, if-Holds, choose-Holds, busy}

module _ {Db : Type 0} (database : Database Db) (eols : ℕ) where
  -- Both cleanups together give everything back.
  give_back-Holds :
      (e : Error) (line : Bool) (r : Run Db)
      → r.held ≡ busy line
      → Settled eols e (holding false)
      → Holds {A = Unit {0}} eols
          (busy false)
          ((release_line database >> release_all database >> raise e) r)
  unfolding release_line release_all
  give_back-Holds e line r h s = s

  reset_row-Holds :
      (sql : Bytes) (values : List BoundValue) (r : Run Db)
      → r.held ≡ busy true
      → Holds eols (busy false) (reset_row database sql values r)
  unfolding reset_row release_line release_all
  reset_row-Holds sql values r h =
      choose-Holds eols (busy false) (database.reset sql values r.db == 0) (pure tt)
        (release_all database >> raise sqlite_error)
        (record r { held = record r.held { line = false } })
        (ap {A = Held} (λ k. record k { line = false }) h)
        (ap {A = Held} (λ k. record { stmt = false; file = false; columns = false; line = false })
          h)

  insert_row-Holds :
      (sql : Bytes) (values : List BoundValue) (r : Run Db)
      → r.held ≡ busy true
      → Holds eols (busy false) (insert_row database sql values r)
  unfolding insert_row
  insert_row-Holds sql values r h =
      let stepped : Run Db = record r { db = (database.step sql values r.db).1 } in
      let rc : ℕ = (database.step sql values r.db).0 in
      if-Holds eols (busy false) ((rc == 101) || (rc == 17)) (reset_row database sql values stepped)
        ((release_line database >> release_all database >> raise sqlite_error) stepped)
        (reset_row-Holds sql values stepped h) (give_back-Holds sqlite_error true stepped h refl)

  import_line-Holds :
      (sql : Bytes) (nCol : ℕ) (separator : Bytes) (lineno : ℕ) (line : Bytes) (r : Run Db)
      → r.held ≡ busy true
      → Holds eols (busy false) (import_line database sql nCol separator lineno line r)
  unfolding import_line
  import_line-Holds sql nCol separator lineno line r h =
      let columns : Columns = split_columns separator nCol line in
      choose-Holds eols (busy false) (suc columns.i == nCol)
        (insert_row database sql (map bind_text columns.texts))
        (release_line database
          >> release_all database
          >> raise (wrong_columns lineno nCol (suc columns.i)))
        r (insert_row-Holds sql (map bind_text columns.texts) r h)
        (give_back-Holds (wrong_columns lineno nCol (suc columns.i)) true r h refl)

  module _ (junk : ℕ → Bytes) (call : Call) (sql : Bytes) (nCol : ℕ) where
    -- One line: read, or the loop ends.
    round-Holds :
        (f lineno : ℕ) (x : Result Line) (m : ℕ) (r : Run Db)
        → r.held ≡ busy false
        → Leaves eols m x
        → ((rest : Bytes) (next : Run Db)
            → length rest ≤ m
            → next.held ≡ busy false
            → Holds eols
                (busy false)
                (import_loop database junk call sql nCol f rest (suc lineno) next))
        → Holds eols (busy false) (
            continue x
              (λ (found, rest). elim found [
                | none ↦ pure tt
                | some line ↦
                    modify (λ k. record k { held = record k.held { line = true } })
                    >> ((if ltb_ℤ call.skip (pos (suc lineno))
                          then import_line database sql nCol call.separator (suc lineno) line
                          else release_line database)
                        >> import_loop database junk call sql nCol f rest (suc lineno))
              ])
              r)
    unfolding release_line
    round-Holds f lineno (stop e) m r h left go =
        subst (λ e'. Settled eols e' r.held) (sym left.0) (h, left.1)
    round-Holds f lineno (ok (none, rest)) m r h left go = h
    round-Holds f lineno (ok (some line, rest)) m r h left go =
        let reading : Run Db = record r { held = record r.held { line = true } } in
        let here : reading.held ≡ busy true = ap {A = Held} (λ k. record k { line = true }) h in
        let handle : Exec (Run Db) (Unit {0}) =
          if ltb_ℤ call.skip (pos (suc lineno))
          then import_line database sql nCol call.separator (suc lineno) line
          else release_line database in
        continue-Holds eols (busy false) (busy false) (handle reading)
          (λ u. import_loop database junk call sql nCol f rest (suc lineno))
          (choose-Holds eols (busy false) (ltb_ℤ call.skip (pos (suc lineno)))
            (import_line database sql nCol call.separator (suc lineno) line) (release_line database)
            reading (import_line-Holds sql nCol call.separator (suc lineno) line reading here)
            (ap {A = Held} (λ k. record k { line = false }) here))
          (λ u next. go rest next left)

module _ {Db : Type 0} (database : Database Db) where
  module _ (junk : ℕ → Bytes) (call : Call) (sql : Bytes) (nCol : ℕ) where
    import_loop-Holds :
        (f : ℕ) (file : Bytes) (lineno : ℕ) (r : Run Db)
        → length file < f
        → r.held ≡ busy false
        → Holds
            (length call.eol)
            (busy false)
            (import_loop database junk call sql nCol f file lineno r)
    unfolding import_loop
    import_loop-Holds zero file lineno r enough h = absurd (omega arith)
    import_loop-Holds (suc f) [] lineno r enough h = elim (getline_at_end junk call.eol) [
      | inl e ↦ rw e h
      | inr e ↦ rw e.0 (h, e.1)
    ]
    import_loop-Holds (suc f) (c ∷ file) lineno r enough h =
        round-Holds database (length call.eol) junk call sql nCol f lineno
          (getline junk call.eol (c ∷ file)) (length file) r h (getline-Leaves junk call.eol c file)
          (λ rest next left held. import_loop-Holds f rest (suc lineno) next (omega arith) held)

  import_file-Holds :
      (junk : ℕ → Bytes) (call : Call) (sql : Bytes) (nCol : ℕ) (content : Bytes) (r : Run Db)
      → r.held ≡ record (holding false) { stmt = true }
      → Holds
          (length call.eol)
          (holding false)
          (import_file database junk true call sql nCol content r)
  unfolding import_file release_all
  import_file-Holds junk call sql nCol content r h =
      let opened : Run Db = record r { held = record r.held { file = true; columns = true } } in
      continue-Holds (length call.eol) (busy false) (holding false)
        (import_loop database junk call sql nCol (suc (length content)) content 0 opened)
        (λ u. release_all database >> pure 1)
        (import_loop-Holds junk call sql nCol (suc (length content)) content 0 opened (omega arith)
          (ap {A = Held} (λ k. record k { file = true; columns = true }) h))
        (λ u next held.
          ap {A = Held} (λ k. record { stmt = false; file = false; columns = false; line = k.line })
            held)

  content-Holds :
      (junk : ℕ → Bytes) (columns : Bool) (call : Call) (sql : Bytes) (nCol : ℕ)
      (content : Option Bytes) (r : Run Db)
      → columns ≡ true
      → r.held ≡ record (holding false) { stmt = true }
      → (bytes : Bytes) → content ≡ some bytes
      → Holds (length call.eol) (holding false) (
          (elim content as (λ x. Exec (Run Db) ℕ) [
            | none ↦ raise null_file
            | some bytes ↦ import_file database junk columns call sql nCol bytes
          ])
            r)
  content-Holds junk columns call sql nCol none r m h file k = absurd (cc k)
  content-Holds junk columns call sql nCol (some bytes) r m h file k =
      rw m (import_file-Holds junk call sql nCol bytes r h)

  import_into-Holds :
      (junk : ℕ → Bytes) (memory : Memory) (call : Call) (nCol : ℕ) (r : Run Db)
      → memory.columns ≡ true
      → r.held ≡ holding false
      → (bytes : Bytes) → call.content ≡ some bytes
      → Holds (length call.eol) (holding false) (import_into database junk memory call nCol r)
  unfolding import_into
  import_into-Holds junk memory call zero r m h file k = h
  import_into-Holds junk memory call (suc n) r m h file k =
      let sql : Bytes = insert_sql (database.quoted call.table) (suc n) in
      let prepared : Run Db = record r { held = record r.held { stmt = true } } in
      elim (Bool-cases memory.sql) [
        | inr e ↦ rw e h
        | inl e ↦ rw e (elim (Bool-cases (database.prepares sql r.db)) [
          | inr e' ↦ rw e' h
          | inl e' ↦ rw e' (
              content-Holds junk memory.columns call sql (suc n) call.content prepared m
                (ap {A = Held} (λ k. record k { stmt = true }) h) file k)
        ])
      ]

  rs_sqlite_import-Holds :
      (junk : ℕ → Bytes) (memory : Memory) (call : Call) (db : Db) (bytes : Bytes)
      → memory.columns ≡ true
      → call.content ≡ some bytes
      → Holds
          (length call.eol)
          (holding false)
          (rs_sqlite_import database junk memory call (running false db))
  unfolding rs_sqlite_import
  rs_sqlite_import-Holds junk memory call db file m k =
      let count : Option ℕ = database.column_count (select_sql (database.quoted call.table)) db in
      if-Holds (length call.eol) (holding false) (length call.separator == 0)
        (stop no_separator, running false db) _ refl
        (if-Holds (length call.eol) (holding false) memory.mprintf _ (ok 0, running false db)
          (by_count count) refl)
    where
      by_count :
          (count : Option ℕ)
          → Holds (length call.eol) (holding false) (elim count as (λ x. Result ℕ × Run Db) [
            | none ↦ (stop sqlite_error, running false db)
            | some nCol ↦ import_into database junk memory call nCol (running false db)
          ])
      by_count none = refl
      by_count (some nCol) =
          import_into-Holds junk memory call nCol (running false db) m refl file k

  -- If the table of columns can be allocated and the file can be opened, then whatever the
  -- connection, the database, the bytes of the file and the other arguments are,
  -- connection_import_file ends after at most as many lines as the file has bytes, and one more.
  -- When it returns or raises an error, the statement is finalized, the file is closed, and the
  -- columns and the line are freed. The only other end is the fault of a read before an array, which
  -- needs a line end that is not one byte; then the statement, the file and the columns are held.
  pub import_gives_back :
      (junk : ℕ → Bytes) (memory : Memory) (call : Call) (c : DbConnection) (db : Db)
      (bytes : Bytes)
      → memory.columns ≡ true
      → call.content ≡ some bytes
      → Holds
          (length call.eol)
          (holding false)
          (connection_import_file database junk memory call c (running false db))
  unfolding connection_import_file conn
  import_gives_back junk memory call c db file m k = elim (Bool-cases c.handle) [
    | inr e ↦ rw e refl
    | inl e ↦ rw e (
        continue-Holds (length call.eol) (holding false) (holding false)
          (rs_sqlite_import database junk memory call (running false db)) (λ n. pure (not (n == 0)))
          (rs_sqlite_import-Holds junk memory call db file m k) (λ n r held. held))
  ]
