-- ===== src/Examples/Imports.antt =====
-- A file of three lines that is imported into a database that keeps the rows it gets.
use rsqlite.Prelude.{
  ℕ, suc, ◌≡◌, ◌≢◌, refl, ap, Bool, true, false, not, ◌==◌, if◌then◌else◌, some, List, [], ◌∷◌,
  ◌++◌, ◌+◌, ◌≤◌, length, codes, arith,
}
use rsqlite.Outcome.{ok, stop, wrong_columns}
use rsqlite.Params.{BoundValue, null_value, text_value}
use rsqlite.Examples.Connections.{plain_connection}
use rsqlite.Import.{Database, Memory, Call, connection_import_file, rs_sqlite_import}
use rsqlite.Import.Line.{Bytes, getline}
use rsqlite.Import.Fields.{Columns, split_columns}
use rsqlite.Import.Command.{placeholders, insert_sql, sql_size}
use rsqlite.Import.Reading.{Lacks, getline-append}
use rsqlite.Import.Splitting.{join, split_columns-join}
use rsqlite.Import.Lossless.{join-split_columns}
use rsqlite.Import.Inserting.{
  Accepts, Format, IsFormat, IsRow, holding, running, lines, call_of, separator_of,
}
use rsqlite.Import.Whole.{IsOpen, enough_memory, sql_of, import_of_rows, import_of_wrong_line}
use rsqlite.Import.Resources.{import_gives_back}
use rsqlite.Import.Holding.{Holds}
use rsqlite.Import.Command.{insert_sql-fits}

abbrev Rows : Type 0
Rows = List (List BoundValue)

abbrev keeper : Database Rows
keeper = record {
  column_count = λ sql rows. some 2;
  prepares = λ sql rows. true;
  step = λ sql values rows. (101, rows ++ values ∷ []);
  reset = λ sql values rows. 0;
  quoted = λ name. name;
}

keeper-Accepts : (sql : Bytes) → Accepts keeper sql
keeper-Accepts sql = record { steps = λ values rows. refl; resets = λ values rows. refl }

abbrev noise : ℕ → Bytes
noise i = []

-- Commas, and Windows line ends.
abbrev csv : Format
csv = record { s = b','; separator = []; pre = b'\r' ∷ []; e = b'\n' }

csv-IsFormat : IsFormat csv
csv-IsFormat = record { ascii = omega arith; once = (omega arith, tt); opens = refl }

abbrev table : Bytes
table = codes "t"

abbrev row : List Bytes
row = codes "a" ∷ codes "\\N" ∷ []

abbrev head_row : List Bytes
head_row = codes "" ∷ codes "y" ∷ []

abbrev every : (ℕ → Bool) → Bytes → Bool
every p [] = true
every p (c ∷ s) = if p c then every p s else false

other : (a b : ℕ) → (a == b) ≡ false → a ≢ b
other a b h = ground arith

lacks : (e : ℕ) (s : Bytes) → every (λ c. not (c == e)) s ≡ true → Lacks e s
lacks e [] h = tt
lacks e (c ∷ s) h = first (c == e) refl h (lacks e s)
  where
    first :
        (b : Bool)
        → (c == e) ≡ b
        → (if not b then every (λ d. not (d == e)) s else false) ≡ true
        → (every (λ d. not (d == e)) s ≡ true → Lacks e s)
        → Lacks e (c ∷ s)
    first true q k more = absurd (cc k)
    first false q k more = (other c e q, more k)

row-IsRow : IsRow csv 1 row
row-IsRow = record {
  count = refl;
  plain = (((omega arith, refl), tt), (((omega arith, refl), ((omega arith, refl), tt)), tt));
  text = lacks 0 (join (separator_of csv) row) refl;
  one_line = lacks b'\n' (join (separator_of csv) row) refl;
  something = λ e. absurd (omega (arith, ap length e));
}

head_row-IsRow : IsRow csv 1 head_row
head_row-IsRow = record {
  count = refl;
  plain = (tt, (((omega arith, refl), tt), tt));
  text = lacks 0 (join (separator_of csv) head_row) refl;
  one_line = lacks b'\n' (join (separator_of csv) head_row) refl;
  something = λ e. absurd (omega (arith, ap length e));
}

empty-IsOpen : IsOpen keeper table 1 []
empty-IsOpen = record { count = refl; prepared = refl }

-- The head is skipped, and `\N` is NULL.
import_of_rows_example :
    rs_sqlite_import keeper noise enough_memory
      (call_of csv table 1 (lines csv (head_row ∷ row ∷ []) []))
      (running false [])
    ≡ (ok 1, running false ((text_value (codes "a") ∷ null_value ∷ []) ∷ []))
unfolding rsqlite.Import.Fields.bind_text
import_of_rows_example =
    import_of_rows noise csv csv-IsFormat keeper table 1 (keeper-Accepts (sql_of keeper table 1)) 1
      (head_row ∷ row ∷ []) [] empty-IsOpen (head_row-IsRow, (row-IsRow, tt))

import_of_wrong_line_example :
    rs_sqlite_import keeper noise enough_memory
      (call_of csv table 1
        (lines csv (head_row ∷ row ∷ []) (codes "x" ++ (csv.pre ++ csv.e ∷ codes "y,z"))))
      (running false [])
    ≡ (stop (wrong_columns 3 2 1), running false ((text_value (codes "a") ∷ null_value ∷ []) ∷ []))
unfolding rsqlite.Import.Fields.bind_text split_columns
import_of_wrong_line_example =
    import_of_wrong_line noise csv csv-IsFormat keeper table 1
      (keeper-Accepts (sql_of keeper table 1)) 1 (head_row ∷ row ∷ []) (codes "x") (codes "y,z") []
      empty-IsOpen (head_row-IsRow, (row-IsRow, tt)) (omega arith)
      (λ e. absurd (omega (arith, ap length e))) (omega arith, tt) (omega arith, tt)
      (λ e. absurd (omega (arith, e)))

getline-append_example :
    getline noise (codes "\r\n") (codes "a,b" ++ (codes "\r" ++ b'\n' ∷ codes "c"))
    ≡ ok (some (codes "a,b"), codes "c")
getline-append_example =
    getline-append noise (codes "\r") b'\n' (codes "a,b") (codes "c") (omega arith)
      (omega arith, tt) (lacks b'\n' (codes "a,b") refl) (lacks 0 (codes "a,b") refl)

split_columns-join_example :
    split_columns (codes "||") 2 (join (codes "||") (codes "a" ∷ codes "b" ∷ []))
    ≡ record { i = 1; texts = codes "a" ∷ codes "b" ∷ [] }
split_columns-join_example =
    split_columns-join b'|' (codes "|") (codes "a") (codes "b" ∷ []) refl
      (((omega arith, refl), tt), (((omega arith, refl), tt), tt))

-- A carriage return ends the search for separators.
join-split_columns_example :
    (length (split_columns (codes ",") 4 (codes "a,b\rc,d")).texts
      ≡ suc (split_columns (codes ",") 4 (codes "a,b\rc,d")).i)
    × (join (codes ",") (split_columns (codes ",") 4 (codes "a,b\rc,d")).texts ≡ codes "a,b\rc,d")
join-split_columns_example =
    join-split_columns (codes ",") 4 (codes "a,b\rc,d") (unfold split_columns in omega arith)

insert_sql-fits_example :
    (insert_sql (codes "it''s") 3
      ≡ codes "INSERT INTO '"
        ++ (codes "it''s" ++ (codes "' VALUES(?" ++ (placeholders 2 ++ codes ")"))))
    × (length (insert_sql (codes "it''s") 3) + 1 ≤ sql_size (codes "it''s") 3)
insert_sql-fits_example = insert_sql-fits (codes "it''s") 2

import_gives_back_example : Holds 2 (holding false) (
    connection_import_file keeper noise enough_memory
      (call_of csv table 0 (codes "a,b\r\nc,d"))
      plain_connection
      (running false []))
import_gives_back_example =
    import_gives_back keeper noise enough_memory (call_of csv table 0 (codes "a,b\r\nc,d"))
      plain_connection [] (codes "a,b\r\nc,d") refl refl
