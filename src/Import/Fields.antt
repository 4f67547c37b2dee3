-- ===== src/Import/Fields.antt =====
-- The columns of one line: the loop of RS_sqlite_import in src/import-file.c that puts a NUL in the
-- place of each separator and remembers where the columns begin, and the values that are bound.
use rsqlite.Prelude.{
  ℕ, zero, suc, ◌-◌, Bool, true, false, ◌&&◌, ◌||◌, List, [], ◌∷◌, ◌++◌, ltb, ◌==◌, length,
  if◌then◌else◌,
}
use rsqlite.Params.{BoundValue, null_value, text_value}
use rsqlite.Import.Line.{Bytes}

-- `i` at the end of the loop, and the texts of azCol[0], azCol[1] and so on.
pub record Columns : Type 0 where
  pub i : ℕ
  pub texts : List Bytes

-- strncmp(z, separator, nSep) == 0
unfoldable pub starts_with : Bytes → Bytes → Bool
starts_with [] z = true
starts_with (s ∷ separator) [] = false
starts_with (s ∷ separator) (c ∷ z) = c == s && starts_with separator z

-- *z == separator[0] && strncmp(z, separator, nSep) == 0
abbrev pub at_separator : Bytes → Bytes → Bool
at_separator [] z = false
at_separator (s ∷ separator) [] = false
at_separator (s ∷ separator) (c ∷ z) = c == s && starts_with (s ∷ separator) (c ∷ z)

abbrev pub ends_line : ℕ → Bool
ends_line c = c == b'\n' || c == b'\r'

module _ (separator : Bytes) (nCol : ℕ) where
  -- The loop over `z`. `cur` is the text of the present column up to `z`, `done` are the texts
  -- before, and `skip` bytes are jumped over. At a line end the loop stops, and the rest of the
  -- line stays in the present column. Beyond the last column no text begins.
  unfoldable pub scan : ℕ → ℕ → Bytes → List Bytes → Bytes → Columns
  unfolding starts_with
  scan skip i cur done [] = record { i = i; texts = done ++ cur ∷ [] }
  scan (suc skip) i cur done (c ∷ z) = scan skip i cur done z
  scan zero i cur done (c ∷ z) =
      let next = scan (length separator - 1) (suc i) [] (done ++ cur ∷ []) z in
      let beyond = scan zero (suc i) [] (done ++ cur ∷ []) z in
      let more = scan zero i (cur ++ c ∷ []) done z in
      if ends_line c
      then record { i = i; texts = done ++ (cur ++ c ∷ z) ∷ [] }
      else if at_separator separator (c ∷ z)
      then if ltb (suc i) nCol then next else beyond
      else more

  unfoldable pub split_columns : Bytes → Columns
  unfolding scan
  split_columns line = scan zero 0 [] [] line

-- `\N` at the start of a text is NULL, whatever follows.
unfoldable pub bind_text : Bytes → BoundValue
bind_text [] = text_value []
bind_text (c ∷ []) = text_value (c ∷ [])
bind_text (c ∷ d ∷ text) = if c == b'\\' && d == b'N' then null_value else text_value (c ∷ d ∷ text)
