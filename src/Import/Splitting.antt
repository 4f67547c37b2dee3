-- ===== src/Import/Splitting.antt =====
-- Texts that are joined by the separator are split into these texts.
use rsqlite.Prelude.{
  ℕ, zero, suc, ◌+◌, ◌-◌, ◌<◌, ◌≡◌, ◌≢◌, refl, ap, ◌∙◌, true, false, List, [], ◌∷◌, ◌++◌,
  append_assoc, append-nil, ◌==◌, ==_refl, lt→ltb, length, arith,
}
use mathlib.Core.Path.{ap₂}
use rsqlite.Storage.Blocks.{All}
use rsqlite.Import.Line.{Bytes}
use rsqlite.Import.Fields.{Columns, starts_with, ends_line, scan, split_columns}

-- The texts behind one another, with the separator before each.
abbrev pub behind : Bytes → List Bytes → Bytes
behind separator [] = []
behind separator (t ∷ texts) = separator ++ (t ++ behind separator texts)

-- The texts with the separator between them.
abbrev pub join : Bytes → List Bytes → Bytes
join separator [] = []
join separator (t ∷ texts) = t ++ behind separator texts

-- A text that has neither the first byte of the separator nor the end of a line.
abbrev pub IsPlain : ℕ → Bytes → Type 0
IsPlain s t = All (λ c. (c ≢ s) × (ends_line c ≡ false)) t

starts_with-append : (p z : Bytes) → starts_with p (p ++ z) ≡ true
unfolding starts_with
starts_with-append [] z = refl
starts_with-append (c ∷ p) z = ground (arith, starts_with-append p z)

module _ (s : ℕ) (separator : Bytes) (nCol : ℕ) where
  scan_skip :
      (p z : Bytes) (i : ℕ) (cur : Bytes) (done : List Bytes)
      → scan (s ∷ separator) nCol (length p) i cur done (p ++ z)
        ≡ scan (s ∷ separator) nCol zero i cur done z
  unfolding scan
  scan_skip [] z i cur done = refl
  scan_skip (c ∷ p) z i cur done = scan_skip p z i cur done

  scan_plain :
      (c : ℕ) (z : Bytes) (i : ℕ) (cur : Bytes) (done : List Bytes)
      → c ≢ s
      → ends_line c ≡ false
      → scan (s ∷ separator) nCol zero i cur done (c ∷ z)
        ≡ scan (s ∷ separator) nCol zero i (cur ++ c ∷ []) done z
  unfolding scan
  scan_plain c z i cur done h k = let other : (c == s) ≡ false = ground arith in rw (k, other) refl

  scan-append :
      (t z : Bytes) (i : ℕ) (cur : Bytes) (done : List Bytes)
      → IsPlain s t
      → scan (s ∷ separator) nCol zero i cur done (t ++ z)
        ≡ scan (s ∷ separator) nCol zero i (cur ++ t) done z
  scan-append [] z i cur done h = rw append-nil refl
  scan-append (c ∷ t) z i cur done h =
      scan_plain c (t ++ z) i cur done h.0.0 h.0.1
      ∙ scan-append t z i (cur ++ c ∷ []) done h.1
      ∙ ap (λ l. scan (s ∷ separator) nCol zero i l done z) (append_assoc cur (c ∷ []) t)

  scan_at_separator :
      (z : Bytes) (i : ℕ) (cur : Bytes) (done : List Bytes)
      → ends_line s ≡ false
      → suc i < nCol
      → scan (s ∷ separator) nCol zero i cur done ((s ∷ separator) ++ z)
        ≡ scan (s ∷ separator) nCol zero (suc i) [] (done ++ cur ∷ []) z
  unfolding scan
  scan_at_separator z i cur done h lt =
      let size : suc (length separator) - 1 ≡ length separator = omega arith in
      rw (h, ==_refl, starts_with-append separator z, lt→ltb (suc i) nCol lt)
        (ap (λ k. scan (s ∷ separator) nCol k (suc i) [] (done ++ cur ∷ []) (separator ++ z)) size
          ∙ scan_skip separator z (suc i) [] (done ++ cur ∷ []))

  -- Plain columns behind one another, of which there is room for all.
  scan-behind :
      (texts : List Bytes) (i : ℕ) (cur : Bytes) (done : List Bytes)
      → ends_line s ≡ false
      → All (IsPlain s) texts
      → i + length texts < nCol
      → scan (s ∷ separator) nCol zero i cur done (behind (s ∷ separator) texts)
        ≡ record { i = i + length texts; texts = done ++ (cur ∷ texts) }
  scan-behind [] i cur done h k lt =
      unfold scan in ap (λ n. record { i = n; texts = done ++ cur ∷ [] }) (omega arith)
  scan-behind (t ∷ texts) i cur done h k lt =
      scan_at_separator (t ++ behind (s ∷ separator) texts) i cur done h (omega arith)
      ∙ scan-append t (behind (s ∷ separator) texts) (suc i) [] (done ++ cur ∷ []) k.0
      ∙ scan-behind texts (suc i) t (done ++ cur ∷ []) h k.1 (omega arith)
      ∙ ap₂ columns (omega arith) (append_assoc done (cur ∷ []) (t ∷ texts))
    where
      columns : ℕ → List Bytes → Columns
      columns n l = record { i = n; texts = l }

-- If the first byte of the separator ends no line and stands in none of the texts, and the texts
-- have no end of a line, then the texts with the separator between them are split into these texts.
pub split_columns-join :
    (s : ℕ) (separator t : Bytes) (texts : List Bytes)
    → ends_line s ≡ false
    → All (IsPlain s) (t ∷ texts)
    → split_columns (s ∷ separator) (length (t ∷ texts)) (join (s ∷ separator) (t ∷ texts))
      ≡ record { i = length texts; texts = t ∷ texts }
unfolding split_columns
split_columns-join s separator t texts h k =
    scan-append s separator (length (t ∷ texts)) t (behind (s ∷ separator) texts) 0 [] [] k.0
    ∙ scan-behind s separator (length (t ∷ texts)) texts 0 t [] h k.1 (omega arith)
    ∙ ap (λ n. record { i = n; texts = t ∷ texts }) (omega arith)
