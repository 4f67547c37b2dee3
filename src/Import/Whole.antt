-- ===== src/Import/Whole.antt =====
-- RS_sqlite_import on a file as a whole.
use rsqlite.Prelude.{
  ℕ, suc, ◌+◌, ◌-◌, ◌≤◌, ◌≡◌, ◌≢◌, refl, ap, ◌∙◌, true, false, some, List, [], ◌∷◌, ◌++◌, length,
  drop, ◌==◌, arith,
}
use rsqlite.Outcome.{ok, stop, wrong_columns}
use rsqlite.Exec.{continue, pure, ◌>>◌}
use rsqlite.Storage.Blocks.{All}
use rsqlite.Import.Line.{Bytes, getline}
use rsqlite.Import.Command.{select_sql, insert_sql}
use rsqlite.Import.Fields.{split_columns}
use rsqlite.Import.Reading.{Lacks, getline-append}
use rsqlite.Import.Inserting.{
  Accepts, running, inserted, Format, separator_of, eol_of, IsFormat, IsRow, lines, call_of,
  as_line-some, length-lines, loop, loop_rows, loop_wrong, loop_end,
}
use rsqlite.Import.{Database, Memory, release_all, rs_sqlite_import}

abbrev pub enough_memory : Memory
enough_memory = record { mprintf = true; sql = true; columns = true }

nonempty : (k : ℕ) → (suc k == 0) ≡ false
nonempty k = ground arith

-- The table is there, with `n + 1` columns, and the INSERT is a valid command.
pub record IsOpen {Db : Type 0} (database : Database Db) (table : Bytes) (n : ℕ) (db : Db)
    : Type 0 where
  pub count : database.column_count (select_sql (database.quoted table)) db ≡ some (suc n)
  pub prepared : database.prepares (insert_sql (database.quoted table) (suc n)) db ≡ true

abbrev pub sql_of : {Db : Type 0} → Database Db → Bytes → ℕ → Bytes
sql_of database table n = insert_sql (database.quoted table) (suc n)

module _ (junk : ℕ → Bytes) (fmt : Format) (good : IsFormat fmt) {Db : Type 0}
    (database : Database Db) (table : Bytes) (n : ℕ)
    (accepts : Accepts database (sql_of database table n)) where
  -- Where the table can be written to, the import is the loop over the file.
  import-loop :
      (skip : ℕ) (content : Bytes) (db : Db)
      → IsOpen database table n db
      → let out =
          loop junk fmt good database table content
            (sql_of database table n)
            n
            accepts
            skip
            (suc (length content))
            content
            0
            db in
        rs_sqlite_import database junk enough_memory
          (call_of fmt table skip content)
          (running false db)
        ≡ continue out.0 (λ u. release_all database >> pure 1) out.1
  unfolding rs_sqlite_import
  import-loop skip content db o = rw (nonempty (length fmt.separator), o.count, o.prepared) refl

  loop_whole :
      (skip : ℕ) (content : Bytes) (rows : List (List Bytes)) (db : Db)
      → All (IsRow fmt n) rows
      → length rows ≤ length content
      → loop junk fmt good database table content
          (sql_of database table n)
          n
          accepts
          skip
          (suc (length content))
          (lines fmt rows [])
          0
          db
        ≡ (ok tt, running true (inserted database (sql_of database table n) (drop skip rows) db))
  loop_whole skip content rows db h short =
      let sql : Bytes = sql_of database table n in
      let fuel : suc (length content) ≡ length rows + suc (length content - length rows) =
        omega arith in
      ap
        (λ f.
          loop junk fmt good database table content sql n accepts skip f (lines fmt rows []) 0 db)
        fuel
      ∙ loop_rows junk fmt good database table content sql n accepts skip 0
          (suc (length content - length rows)) skip rows [] db h (omega arith)
      ∙ ap
          (λ lineno.
            loop junk fmt good database table content sql n accepts skip
              (suc (length content - length rows)) [] lineno
              (inserted database sql (drop skip rows) db))
          (omega arith)
      ∙ loop_end junk fmt good database table content sql n accepts skip (length rows)
          (length content - length rows) _

  loop_until :
      (skip : ℕ) (content : Bytes) (rows : List (List Bytes)) (line rest : Bytes) (db : Db)
      → All (IsRow fmt n) rows
      → length rows ≤ length content
      → skip ≤ length rows
      → line ≢ []
      → Lacks 0 line
      → Lacks fmt.e line
      → (split_columns (separator_of fmt) (suc n) line).i ≢ n
      → loop junk fmt good database table content
          (sql_of database table n)
          n
          accepts
          skip
          (suc (length content))
          (lines fmt rows (line ++ (fmt.pre ++ fmt.e ∷ rest)))
          0
          db
        ≡ (
          stop (
              wrong_columns
                (suc (length rows))
                (suc n)
                (suc (split_columns (separator_of fmt) (suc n) line).i)),
          running false (inserted database (sql_of database table n) (drop skip rows) db),
        )
  loop_until skip content rows line rest db h short late some_line text one_line wrong =
      let sql : Bytes = sql_of database table n in
      let more : Bytes = line ++ (fmt.pre ++ fmt.e ∷ rest) in
      let fuel : suc (length content) ≡ length rows + suc (length content - length rows) =
        omega arith in
      let read : getline junk (eol_of fmt) more ≡ ok (some line, rest) =
        getline-append junk fmt.pre fmt.e line rest good.ascii good.once one_line text
        ∙ ap (λ l. ok (l, rest)) (as_line-some line some_line) in
      ap
        (λ f.
          loop junk fmt good database table content sql n accepts skip f (lines fmt rows more) 0 db)
        fuel
      ∙ loop_rows junk fmt good database table content sql n accepts skip 0
          (suc (length content - length rows)) skip rows more db h (omega arith)
      ∙ ap
          (λ lineno.
            loop junk fmt good database table content sql n accepts skip
              (suc (length content - length rows)) more lineno
              (inserted database sql (drop skip rows) db))
          (omega arith)
      ∙ loop_wrong junk fmt good database table content sql n accepts skip (length rows)
          (length content - length rows) line rest _ late read wrong

  -- If the memory suffices, the table has `n + 1` columns and its INSERT is a valid command, if the
  -- separator ends no line, the line end has its last byte, an ASCII byte, only there, every row has
  -- one text for each column of the table, without NUL, line end or first byte of the separator, and
  -- no row is an empty line, and if SQLite takes every row, then the import of the file of the rows
  -- returns 1, has inserted the rows after the first `skip`, in order, each as bind_text gives its
  -- texts, and gives everything back.
  pub import_of_rows :
      (skip : ℕ) (rows : List (List Bytes)) (db : Db)
      → IsOpen database table n db
      → All (IsRow fmt n) rows
      → rs_sqlite_import database junk enough_memory
          (call_of fmt table skip (lines fmt rows []))
          (running false db)
        ≡ (ok 1, running false (inserted database (sql_of database table n) (drop skip rows) db))
  unfolding release_all
  import_of_rows skip rows db o h =
      import-loop skip (lines fmt rows []) db o
      ∙ ap (λ out. continue out.0 (λ u. release_all database >> pure 1) out.1)
          (loop_whole skip (lines fmt rows []) rows db h (length-lines fmt rows []))

  -- If the memory suffices, the table has `n + 1` columns and its INSERT is a valid command, if the
  -- separator ends no line, the line end has its last byte, an ASCII byte, only there, every row has
  -- one text for each column of the table, without NUL, line end or first byte of the separator, and
  -- no row is an empty line, if SQLite takes every row, and if at most as many lines are skipped as
  -- there are rows, then for a line behind the rows that is not empty, has no NUL and no last byte
  -- of the line end, and splits into another number of columns, the import raises an error with the
  -- number of this line and of its columns, whatever comes after it; the rows that were not skipped
  -- stay inserted, and everything is given back.
  pub import_of_wrong_line :
      (skip : ℕ) (rows : List (List Bytes)) (line rest : Bytes) (db : Db)
      → IsOpen database table n db
      → All (IsRow fmt n) rows
      → skip ≤ length rows
      → line ≢ []
      → Lacks 0 line
      → Lacks fmt.e line
      → (split_columns (separator_of fmt) (suc n) line).i ≢ n
      → rs_sqlite_import database junk enough_memory
          (call_of fmt table skip (lines fmt rows (line ++ (fmt.pre ++ fmt.e ∷ rest))))
          (running false db)
        ≡ (
          stop (
              wrong_columns
                (suc (length rows))
                (suc n)
                (suc (split_columns (separator_of fmt) (suc n) line).i)),
          running false (inserted database (sql_of database table n) (drop skip rows) db),
        )
  unfolding release_all
  import_of_wrong_line skip rows line rest db o h late some_line text one_line wrong =
      let more : Bytes = line ++ (fmt.pre ++ fmt.e ∷ rest) in
      import-loop skip (lines fmt rows more) db o
      ∙ ap (λ out. continue out.0 (λ u. release_all database >> pure 1) out.1)
          (loop_until skip (lines fmt rows more) rows line rest db h (length-lines fmt rows more)
            late some_line text one_line wrong)
