-- ===== src/Import/Lossless.antt =====
-- The split into columns loses no byte of a line that has fewer separators than there are columns.
use rsqlite.Prelude.{
  ℕ, zero, suc, ◌+◌, ◌-◌, ◌≤◌, ◌<◌, ◌≡◌, refl, sym, ap, ◌∙◌, Bool, true, false, List, [], ◌∷◌, ◌++◌,
  append_assoc, append-nil, ltb, ◌==◌, length, length-append, arith, if◌then◌else◌, ◌&&◌,
}
use mathlib.Core.Path.{ap₂, subst}
use rsqlite.Import.Line.{Bytes}
use rsqlite.Import.Fields.{Columns, starts_with, at_separator, ends_line, scan, split_columns}
use rsqlite.Import.Splitting.{behind, join}

and_true : (a b : Bool) → (a && b) ≡ true → (a ≡ true) × (b ≡ true)
and_true true b h = (refl, h)
and_true false b h = absurd (cc)

starts_with-split : (p z : Bytes) → starts_with p z ≡ true → (rest : Bytes) × (z ≡ p ++ rest)
unfolding starts_with
starts_with-split [] z h = (z, refl)
starts_with-split (s ∷ p) [] h = absurd (cc)
starts_with-split (s ∷ p) (c ∷ z) h =
    let (same, more) = and_true (c == s) (starts_with p z) h in
    let (rest, e) = starts_with-split p z more in
    let first : c ≡ s = ground arith in (rest, ap₂ ◌∷◌ first e)

behind-append :
    (separator : Bytes) (xs ys : List Bytes)
    → behind separator (xs ++ ys) ≡ behind separator xs ++ behind separator ys
behind-append separator [] ys = refl
behind-append separator (x ∷ xs) ys = simp (behind-append separator xs ys, append_assoc)

-- Two columns at the end, or one that holds the separator.
join_last :
    (separator : Bytes) (done : List Bytes) (a b : Bytes)
    → join separator ((done ++ a ∷ []) ++ b ∷ [])
      ≡ join separator (done ++ (a ++ (separator ++ b)) ∷ [])
join_last separator [] a b = simp append-nil
join_last separator (d ∷ done) a b = simp (behind-append, append-nil, append_assoc)

-- The four ways of one round.
round_cases :
    (P : Columns → Type 0) (ends here room : Bool) (w x y z : Columns)
    → P w
    → (here ≡ true → room ≡ true → P x)
    → (here ≡ true → room ≡ false → P y)
    → P z
    → P (if ends then w else if here then if room then x else y else z)
round_cases P true here room w x y z pw px py pz = pw
round_cases P false true true w x y z pw px py pz = px refl refl
round_cases P false true false w x y z pw px py pz = py refl refl
round_cases P false false room w x y z pw px py pz = pz

at-starts_with :
    (separator z : Bytes) → at_separator separator z ≡ true → starts_with separator z ≡ true
at-starts_with [] z h = absurd (cc)
at-starts_with (s ∷ separator) [] h = absurd (cc)
at-starts_with (s ∷ separator) (c ∷ z) h = (and_true (c == s) _ h).1

at-split :
    (separator : Bytes) (c : ℕ) (z : Bytes)
    → at_separator separator (c ∷ z) ≡ true
    → (p : Bytes) × (rest : Bytes) × (separator ≡ c ∷ p) × (z ≡ p ++ rest)
at-split [] c z h = absurd (cc)
at-split (s ∷ p) c z h =
    let (rest, e) = starts_with-split (s ∷ p) (c ∷ z) (at-starts_with (s ∷ p) (c ∷ z) h) in
    (p, rest, ap (λ x. x ∷ p) (cc e), cc e)

module _ (separator : Bytes) (nCol : ℕ) where
  abbrev scanned : ℕ → ℕ → Bytes → List Bytes → Bytes → Columns
  scanned = scan separator nCol

  -- The separators are counted on from `i`, and there is one text more.
  abbrev Counted : ℕ → List Bytes → Columns → Type 0
  Counted i done r = (i ≤ r.i) × (length r.texts + i ≡ suc (length done) + r.i)

  one_text :
      (i : ℕ) (done : List Bytes) (t : Bytes)
      → Counted i done (record { i = i; texts = done ++ t ∷ [] })
  one_text i done t = (omega arith, omega (arith, length-append done (t ∷ [])))

  Counted-next :
      (i : ℕ) (done : List Bytes) (t : Bytes) (r : Columns)
      → Counted (suc i) (done ++ t ∷ []) r
      → Counted i done r
  Counted-next i done t r h = (omega (arith, h.0), omega (arith, h.1, length-append done (t ∷ [])))

  scan-Counted :
      (skip i : ℕ) (cur : Bytes) (done : List Bytes) (z : Bytes)
      → Counted i done (scanned skip i cur done z)
  unfolding scan
  scan-Counted skip i cur done [] = one_text i done cur
  scan-Counted (suc skip) i cur done (c ∷ z) = scan-Counted skip i cur done z
  scan-Counted zero i cur done (c ∷ z) =
      let next = scan-Counted (length separator - 1) (suc i) [] (done ++ cur ∷ []) z in
      let beyond = scan-Counted zero (suc i) [] (done ++ cur ∷ []) z in
      let more = scan-Counted zero i (cur ++ c ∷ []) done z in
      round_cases (Counted i done) (ends_line c) (at_separator separator (c ∷ z)) (ltb (suc i) nCol)
        _ _ _ _ (one_text i done (cur ++ c ∷ z)) (λ h k. Counted-next i done cur _ next)
        (λ h k. Counted-next i done cur _ beyond) more

  abbrev Joins : Bytes → List Bytes → Columns → Type 0
  Joins text done r = r.i < nCol → join separator r.texts ≡ join separator (done ++ text ∷ [])

  scan_past :
      (p z : Bytes) (i : ℕ) (cur : Bytes) (done : List Bytes)
      → scanned (length p) i cur done (p ++ z) ≡ scanned zero i cur done z
  unfolding scan
  scan_past [] z i cur done = refl
  scan_past (c ∷ p) z i cur done = scan_past p z i cur done

  after_separator :
      (c i : ℕ) (cur : Bytes) (done : List Bytes) (z : Bytes)
      → at_separator separator (c ∷ z) ≡ true
      → (rest : Bytes) × (length rest ≤ length z)
        × (separator ++ rest ≡ c ∷ z)
        × (scanned (length separator - 1) (suc i) [] (done ++ cur ∷ []) z
            ≡ scanned zero (suc i) [] (done ++ cur ∷ []) rest)
  after_separator c i cur done z h =
      let (p, rest, e, f) = at-split separator c z h in
      let size : length separator - 1 ≡ length p = omega (arith, ap length e) in
      (
        rest,
        omega (arith, ap length f, length-append p rest),
        ap (λ l. l ++ rest) e ∙ ap (◌∷◌ c) (sym f),
        ap₂ (λ k l. scanned k (suc i) [] (done ++ cur ∷ []) l) size f
            ∙ scan_past p rest (suc i) [] (done ++ cur ∷ []),
      )

  scan-Joins :
      (n i : ℕ) (cur : Bytes) (done : List Bytes) (z : Bytes)
      → length z ≤ n
      → Joins (cur ++ z) done (scanned zero i cur done z)
  unfolding scan
  scan-Joins n i cur done [] len =
      λ lt. ap (λ l. join separator (done ++ l ∷ [])) (sym (append-nil cur))
  scan-Joins zero i cur done (c ∷ z) len = absurd (omega arith)
  scan-Joins (suc n) i cur done (c ∷ z) len =
      round_cases (Joins (cur ++ c ∷ z) done) (ends_line c) (at_separator separator (c ∷ z))
        (ltb (suc i) nCol) _ _ _ _ (λ lt. refl)
        (λ h k.
          let (rest, size, whole, same) = after_separator c i cur done z h in
          subst (Joins (cur ++ c ∷ z) done) (sym same) (λ lt.
            scan-Joins n (suc i) [] (done ++ cur ∷ []) rest (omega (arith, size)) lt
            ∙ join_last separator done cur rest
            ∙ ap (λ l. join separator (done ++ (cur ++ l) ∷ [])) whole))
        (λ h k lt.
          absurd
            (omega (arith, (scan-Counted zero (suc i) [] (done ++ cur ∷ []) z).0, not_below k)))
        (λ lt.
          scan-Joins n i (cur ++ c ∷ []) done z (omega arith) lt
          ∙ ap (λ l. join separator (done ++ l ∷ [])) (append_assoc cur (c ∷ []) z))
    where
      not_below : ltb (suc i) nCol ≡ false → nCol ≤ suc i
      not_below h = ground arith

-- Whatever the line: if the code counts fewer separators than there are columns, then it finds one
-- text more than it counts, and the texts with the separator between them are the line.
pub join-split_columns :
    (separator : Bytes) (nCol : ℕ) (line : Bytes)
    → (split_columns separator nCol line).i < nCol
    → (length (split_columns separator nCol line).texts ≡ suc (split_columns separator nCol line).i)
      × (join separator (split_columns separator nCol line).texts ≡ line)
unfolding split_columns
join-split_columns separator nCol line lt = (
  omega (arith, (scan-Counted separator nCol zero 0 [] [] line).1),
  scan-Joins separator nCol (length line) 0 [] [] line (omega arith) lt ∙ append-nil line,
)
