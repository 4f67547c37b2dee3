-- ===== src/Import/Command.antt =====
-- The two commands of RS_sqlite_import in src/import-file.c, of the name of the table as %q gives
-- it, and the memory for the second.
use rsqlite.Prelude.{
  ℕ, zero, suc, ◌+◌, ◌-◌, ◌*◌, ◌≤◌, ◌≡◌, refl, ap, ◌∙◌, [], ◌∷◌, ◌++◌, append_assoc, length,
  length-append, take, codes, arith,
}
use rsqlite.Import.Line.{Bytes}

-- ",?" for each further column
unfoldable pub placeholders : ℕ → Bytes
placeholders zero = []
placeholders (suc n) = b',' ∷ b'?' ∷ placeholders n

unfoldable pub select_sql : Bytes → Bytes
select_sql quoted = codes "SELECT * FROM '" ++ (quoted ++ codes "'")

abbrev insert_start : Bytes → Bytes
insert_start quoted = codes "INSERT INTO '" ++ (quoted ++ codes "' VALUES(?")

-- sqlite3_snprintf writes at most its first argument less one byte, and a NUL.
abbrev pub snprintf : ℕ → Bytes → Bytes
snprintf n text = take (n - 1) text

unfoldable pub insert_sql : Bytes → ℕ → Bytes
unfolding placeholders select_sql
insert_sql quoted nCol =
    snprintf (length (select_sql quoted) + 20) (insert_start quoted)
    ++ (placeholders (nCol - 1) ++ codes ")")

-- What malloc() is asked for.
unfoldable pub sql_size : Bytes → ℕ → ℕ
unfolding select_sql
sql_size quoted nCol = length (select_sql quoted) + 20 + nCol * 2

take_enough : (s : Bytes) (k : ℕ) → length s ≤ k → take k s ≡ s
take_enough [] zero h = refl
take_enough [] (suc k) h = refl
take_enough (c ∷ s) zero h = absurd (omega arith)
take_enough (c ∷ s) (suc k) h = ap (λ z. c ∷ z) (take_enough s k (omega arith))

length-placeholders : (n : ℕ) → length (placeholders n) ≡ n * 2
unfolding placeholders
length-placeholders zero = refl
length-placeholders (suc n) = omega (arith, length-placeholders n)

length-insert_start : (quoted : Bytes) → length (insert_start quoted) ≡ 23 + length quoted
length-insert_start quoted = omega (arith, length-append quoted (codes "' VALUES(?"))

length-select_sql : (quoted : Bytes) → length (select_sql quoted) ≡ 16 + length quoted
unfolding select_sql
length-select_sql quoted = omega (arith, length-append quoted (codes "'"))

whole_start :
    (quoted : Bytes)
    → snprintf (length (select_sql quoted) + 20) (insert_start quoted) ≡ insert_start quoted
whole_start quoted =
    take_enough (insert_start quoted) (length (select_sql quoted) + 20 - 1)
      (omega (arith, length-insert_start quoted, length-select_sql quoted))

insert_sql-whole :
    (quoted : Bytes) (n : ℕ)
    → insert_sql quoted (suc n) ≡ insert_start quoted ++ (placeholders n ++ codes ")")
unfolding insert_sql
insert_sql-whole quoted n =
    let one_less : suc n - 1 ≡ n = omega arith in
    ap
      (λ k.
        snprintf (length (select_sql quoted) + 20) (insert_start quoted)
        ++ (placeholders k ++ codes ")"))
      one_less
    ∙ ap (λ z. z ++ (placeholders n ++ codes ")")) (whole_start quoted)

-- For every name of the table and number of columns, which is not 0, the INSERT is not cut off, and
-- with its NUL it fits into the memory that was allocated for it.
pub insert_sql-fits :
    (quoted : Bytes) (n : ℕ)
    → (insert_sql quoted (suc n)
        ≡ codes "INSERT INTO '"
          ++ (quoted ++ (codes "' VALUES(?" ++ (placeholders n ++ codes ")"))))
      × (length (insert_sql quoted (suc n)) + 1 ≤ sql_size quoted (suc n))
unfolding sql_size
insert_sql-fits quoted n =
    let values : Bytes = placeholders n ++ codes ")" in
    (
      insert_sql-whole quoted n
          ∙ ap (λ z. codes "INSERT INTO '" ++ z) (append_assoc quoted (codes "' VALUES(?") values),
      omega (
        arith,
        ap length (insert_sql-whole quoted n),
        length-append (insert_start quoted) values,
        length-append (placeholders n) (codes ")"),
        length-placeholders n,
        length-insert_start quoted,
        length-select_sql quoted,
      ),
    )
