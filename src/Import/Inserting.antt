-- ===== src/Import/Inserting.antt =====
-- A file of rows is inserted row by row, up to the first line with a wrong number of columns.
use rsqlite.Prelude.{
  ℕ, zero, suc, ◌+◌, ◌-◌, ◌≤◌, ◌<◌, ◌≡◌, ◌≢◌, refl, sym, ap, ◌∙◌, pos, ltb_ℤ, Bool, true, false,
  some, List, [], ◌∷◌, ◌++◌, map, ◌==◌, ==_refl, length-append, lt→ltb, length, drop, arith,
}
use mathlib.Core.Path.{ap₂}
use rsqlite.Outcome.{Result, ok, stop, wrong_columns}
use rsqlite.Params.{BoundValue}
use rsqlite.Storage.Blocks.{All}
use rsqlite.Import.Line.{Bytes, as_line, getline}
use rsqlite.Import.Fields.{ends_line, split_columns, bind_text}
use rsqlite.Import.Reading.{Lacks, getline-append, getline_end}
use rsqlite.Import.Splitting.{IsPlain, join, split_columns-join}
use rsqlite.Import.{Database, Held, Run, Call, import_loop}

-- A database that takes every row.
pub record Accepts {Db : Type 0} (database : Database Db) (sql : Bytes) : Type 0 where
  pub steps : (values : List BoundValue) (db : Db) → (database.step sql values db).0 ≡ 101
  pub resets : (values : List BoundValue) (db : Db) → database.reset sql values db ≡ 0

abbrev pub holding : Bool → Held
holding held = record { stmt = held; file = held; columns = held; line = false }

abbrev pub running : {Db : Type 0} → Bool → Db → Run Db
running held db = record { db = db; held = holding held }

-- The database after the rows.
abbrev pub inserted : {Db : Type 0} → Database Db → Bytes → List (List Bytes) → Db → Db
inserted database sql [] db = db
inserted database sql (row ∷ rows) db =
    inserted database sql rows (database.step sql (map bind_text row) db).1

module _ {Db : Type 0} (database : Database Db) (junk : ℕ → Bytes) (call : Call) (sql : Bytes)
    (n : ℕ) (accepts : Accepts database sql) where
  loop_line :
      (f lineno : ℕ) (file line rest : Bytes) (row : List Bytes) (db : Db)
      → getline junk call.eol file ≡ ok (some line, rest)
      → ltb_ℤ call.skip (pos (suc lineno)) ≡ true
      → split_columns call.separator (suc n) line ≡ record { i = n; texts = row }
      → import_loop database junk call sql (suc n) (suc f) file lineno (running true db)
        ≡ import_loop database junk call sql
            (suc n)
            f
            rest
            (suc lineno)
            (running true (database.step sql (map bind_text row) db).1)
  unfolding import_loop
  loop_line f lineno file line rest row db read late split =
      rw (read, late, split, ==_refl (suc n), accepts.steps (map bind_text row) db, accepts.resets)
        refl

  loop_skipped :
      (f lineno : ℕ) (file line rest : Bytes) (db : Db)
      → getline junk call.eol file ≡ ok (some line, rest)
      → ltb_ℤ call.skip (pos (suc lineno)) ≡ false
      → import_loop database junk call sql (suc n) (suc f) file lineno (running true db)
        ≡ import_loop database junk call sql (suc n) f rest (suc lineno) (running true db)
  unfolding import_loop
  loop_skipped f lineno file line rest db read early = rw (read, early) refl

-- A separator that begins with `s`, and a line end `pre` and then `e`.
pub record Format : Type 0 where
  pub s : ℕ
  pub separator : Bytes
  pub pre : Bytes
  pub e : ℕ

abbrev pub separator_of : Format → Bytes
separator_of fmt = fmt.s ∷ fmt.separator

abbrev pub eol_of : Format → Bytes
eol_of fmt = fmt.pre ++ fmt.e ∷ []

-- The last byte of the line end is an ASCII byte that it has once, and the separator ends no line.
pub record IsFormat (fmt : Format) : Type 0 where
  pub ascii : fmt.e < 128
  pub once : Lacks fmt.e fmt.pre
  pub opens : ends_line fmt.s ≡ false

-- A row of `n + 1` columns that can be read back: it makes a line of its own that is not empty.
pub record IsRow (fmt : Format) (n : ℕ) (row : List Bytes) : Type 0 where
  pub count : length row ≡ suc n
  pub plain : All (IsPlain fmt.s) row
  pub text : Lacks 0 (join (separator_of fmt) row)
  pub one_line : Lacks fmt.e (join (separator_of fmt) row)
  pub something : join (separator_of fmt) row ≢ []

-- The lines of the rows, with more bytes behind.
abbrev pub lines : Format → List (List Bytes) → Bytes → Bytes
lines fmt [] more = more
lines fmt (row ∷ rows) more =
    join (separator_of fmt) row ++ (fmt.pre ++ fmt.e ∷ lines fmt rows more)

abbrev pub call_of : Format → Bytes → ℕ → Bytes → Call
call_of fmt table skip content = record {
  table = table;
  content = some content;
  separator = separator_of fmt;
  eol = eol_of fmt;
  skip = pos skip;
}

pub as_line-some : (s : Bytes) → s ≢ [] → as_line s ≡ some s
as_line-some [] h = absurd (h refl)
as_line-some (c ∷ s) h = refl

drop-nil : {A : Type 0} (k : ℕ) → drop {A = A} k [] ≡ []
drop-nil zero = refl
drop-nil (suc k) = refl

-- What one row adds, of which `k` are still to be skipped.
abbrev take_row : ℕ → List Bytes → List (List Bytes)
take_row zero row = row ∷ []
take_row (suc k) row = []

differ : (i n : ℕ) → i ≢ n → (suc i == suc n) ≡ false
differ i n h = ground arith

pub length-lines :
    (fmt : Format) (rows : List (List Bytes)) (more : Bytes)
    → length rows ≤ length (lines fmt rows more)
length-lines fmt [] more = omega arith
length-lines fmt (row ∷ rows) more = omega (
  arith,
  length-lines fmt rows more,
  length-append (join (separator_of fmt) row) (fmt.pre ++ fmt.e ∷ lines fmt rows more),
  length-append fmt.pre (fmt.e ∷ lines fmt rows more),
)

module _ (junk : ℕ → Bytes) (fmt : Format) (good : IsFormat fmt) where
  getline_row :
      (n : ℕ) (row : List Bytes) (rest : Bytes)
      → IsRow fmt n row
      → getline junk (eol_of fmt) (join (separator_of fmt) row ++ (fmt.pre ++ fmt.e ∷ rest))
        ≡ ok (some (join (separator_of fmt) row), rest)
  getline_row n row rest r =
      getline-append junk fmt.pre fmt.e (join (separator_of fmt) row) rest good.ascii good.once
        r.one_line r.text
      ∙ ap (λ l. ok (l, rest)) (as_line-some (join (separator_of fmt) row) r.something)

  split_row :
      (n : ℕ) (row : List Bytes)
      → IsRow fmt n row
      → split_columns (separator_of fmt) (suc n) (join (separator_of fmt) row)
        ≡ record { i = n; texts = row }
  split_row n [] r = absurd (omega (arith, r.count))
  split_row n (t ∷ row) r =
      ap (λ k. split_columns (separator_of fmt) k (join (separator_of fmt) (t ∷ row))) (sym r.count)
      ∙ split_columns-join fmt.s fmt.separator t row good.opens r.plain
      ∙ ap (λ k. record { i = k; texts = t ∷ row }) (omega (arith, r.count))

  module _ {Db : Type 0} (database : Database Db) (table content sql : Bytes) (n : ℕ)
      (accepts : Accepts database sql) where
    abbrev pub loop : ℕ → ℕ → Bytes → ℕ → Db → Result (Unit {0}) × Run Db
    loop skip f file lineno db =
        import_loop database junk (call_of fmt table skip content) sql (suc n) f file lineno
          (running true db)

    -- One row more, skipped or not.
    loop_row :
        (skip lineno f k : ℕ) (row : List Bytes) (rows : List (List Bytes)) (more : Bytes) (db : Db)
        → IsRow fmt n row
        → k ≡ skip - lineno
        → loop skip (suc f) (lines fmt (row ∷ rows) more) lineno db
          ≡ loop skip f
              (lines fmt rows more)
              (suc lineno)
              (inserted database sql (take_row k row) db)
    loop_row skip lineno f zero row rows more db r e =
        loop_line database junk (call_of fmt table skip content) sql n accepts f lineno _ _
          (lines fmt rows more) row db (getline_row n row (lines fmt rows more) r)
          (lt→ltb skip (suc lineno) (omega arith)) (split_row n row r)
    loop_row skip lineno f (suc k) row rows more db r e =
        loop_skipped database junk (call_of fmt table skip content) sql n accepts f lineno _ _
          (lines fmt rows more) db (getline_row n row (lines fmt rows more) r) (ground arith)

    -- The loop over rows, of which the first ones may be skipped.
    pub loop_rows :
        (skip lineno f k : ℕ) (rows : List (List Bytes)) (more : Bytes) (db : Db)
        → All (IsRow fmt n) rows
        → k ≡ skip - lineno
        → loop skip (length rows + f) (lines fmt rows more) lineno db
          ≡ loop skip f more (lineno + length rows) (inserted database sql (drop k rows) db)
    loop_rows skip lineno f k [] more db h e =
        ap₂ (λ g l. loop skip g more l db) (omega arith) (omega arith)
        ∙ ap (λ l. loop skip f more (lineno + 0) (inserted database sql l db)) (sym (drop-nil k))
    loop_rows skip lineno f zero (row ∷ rows) more db h e =
        ap (λ g. loop skip g (lines fmt (row ∷ rows) more) lineno db) (omega arith)
        ∙ loop_row skip lineno (length rows + f) zero row rows more db h.0 e
        ∙ loop_rows skip (suc lineno) f zero rows more _ h.1 (omega arith)
        ∙ ap
            (λ l.
              loop skip f more l
                (inserted database sql (drop 0 rows) (inserted database sql (take_row 0 row) db)))
            (omega arith)
    loop_rows skip lineno f (suc k) (row ∷ rows) more db h e =
        ap (λ g. loop skip g (lines fmt (row ∷ rows) more) lineno db) (omega arith)
        ∙ loop_row skip lineno (length rows + f) (suc k) row rows more db h.0 e
        ∙ loop_rows skip (suc lineno) f k rows more db h.1 (omega arith)
        ∙ ap (λ l. loop skip f more l (inserted database sql (drop k rows) db)) (omega arith)

    -- A line with a wrong number of columns ends the loop, and gives everything back.
    pub loop_wrong :
        (skip lineno f : ℕ) (line rest : Bytes) (db : Db)
        → skip ≤ lineno
        → getline junk (eol_of fmt) (line ++ (fmt.pre ++ fmt.e ∷ rest)) ≡ ok (some line, rest)
        → (split_columns (separator_of fmt) (suc n) line).i ≢ n
        → loop skip (suc f) (line ++ (fmt.pre ++ fmt.e ∷ rest)) lineno db ≡ (
          stop (
              wrong_columns
                (suc lineno)
                (suc n)
                (suc (split_columns (separator_of fmt) (suc n) line).i)),
          running false db,
        )
    unfolding import_loop
    loop_wrong skip lineno f line rest db late read wrong =
        rw
          (
            read,
            lt→ltb skip (suc lineno) (omega arith),
            differ (split_columns (separator_of fmt) (suc n) line).i n wrong,
          )
          refl

    pub loop_end :
        (skip lineno f : ℕ) (db : Db) → loop skip (suc f) [] lineno db ≡ (ok tt, running true db)
    unfolding import_loop
    loop_end skip lineno f db = rw (getline_end junk fmt.pre fmt.e) refl
