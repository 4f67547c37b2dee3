-- ===== src/Affinity/Table.antt =====
-- The scan agrees with the table of substrings in the comment above sqlite3AffinityType.
use rsqlite.Prelude.{
  ℕ, ◌<◌, ◌≡◌, refl, ap, ◌∙◌, Bool, true, false, ◌&&◌, ◌||◌, List, [], ◌∷◌, map, ◌==◌, some, codes,
  if◌then◌else◌, arith,
}
use rsqlite.Affinity.{
  Affinity, blob, text, numeric, integer, real, to_lower, shift_in, word4, affinity_type,
}
use rsqlite.Affinity.Hash.{
  hash_of, AllBytes, hash_of-shift_in, ends3, ends4, ends3-hash, ends4-hash, to_lower-lt,
}
use rsqlite.Affinity.Scanning.{is_text, is_blob, is_real, is_int, choose, any, scan_lem}

-- A text in lower case contains `w`.
unfoldable pub starts : List ℕ → List ℕ → Bool
starts [] zs = true
starts (x ∷ w) [] = false
starts (x ∷ w) (c ∷ zs) = (c == x) && starts w zs

unfoldable pub contains : List ℕ → List ℕ → Bool
contains w [] = false
contains w (c ∷ zs) = starts w (c ∷ zs) || contains w zs

-- What the rolling hash sees at each byte, by the text read so far.
occurs : (List ℕ → Bool) → List ℕ → List ℕ → Bool
occurs p seen [] = false
occurs p seen (c ∷ zIn) = p (to_lower c ∷ seen) || occurs p (to_lower c ∷ seen) zIn

any-occurs :
    (p : ℕ → Bool) (q : List ℕ → Bool)
    → ((s : List ℕ) → AllBytes s → p (hash_of s) ≡ q s)
    → (zIn seen : List ℕ) → AllBytes seen
    → any p (hash_of seen) zIn ≡ occurs q seen zIn
unfolding any occurs
any-occurs p q same [] seen h = refl
any-occurs p q same (c ∷ zIn) seen h =
    rw (hash_of-shift_in seen c h, same (to_lower c ∷ seen) (to_lower-lt c, h))
      (ap (◌||◌ (q (to_lower c ∷ seen)))
        (any-occurs p q same zIn (to_lower c ∷ seen) (to_lower-lt c, h)))

module _ (w x y z : ℕ) where
  abbrev word : List ℕ
  word = w ∷ x ∷ y ∷ z ∷ []

  occurs4-window :
      (zIn older : List ℕ) (a b c : ℕ)
      → occurs (λ s. ends4 s w x y z) (c ∷ b ∷ a ∷ older) zIn
        ≡ contains word (a ∷ b ∷ c ∷ map to_lower zIn)
  unfolding occurs contains starts
  occurs4-window [] older a b c = ground arith
  occurs4-window (d ∷ zIn) older a b c =
      ground (arith, occurs4-window zIn (a ∷ older) b c (to_lower d))

  occurs4-contains :
      (zIn : List ℕ) → occurs (λ s. ends4 s w x y z) [] zIn ≡ contains word (map to_lower zIn)
  unfolding occurs contains starts
  occurs4-contains [] = refl
  occurs4-contains (a ∷ []) = ground arith
  occurs4-contains (a ∷ b ∷ []) = ground arith
  occurs4-contains (a ∷ b ∷ c ∷ zIn) = occurs4-window zIn [] (to_lower a) (to_lower b) (to_lower c)

module _ (x y z : ℕ) where
  occurs3-window :
      (zIn older : List ℕ) (a b : ℕ)
      → occurs (λ s. ends3 s x y z) (b ∷ a ∷ older) zIn
        ≡ contains (x ∷ y ∷ z ∷ []) (a ∷ b ∷ map to_lower zIn)
  unfolding occurs contains starts
  occurs3-window [] older a b = ground arith
  occurs3-window (d ∷ zIn) older a b = ground (arith, occurs3-window zIn (a ∷ older) b (to_lower d))

  occurs3-contains :
      (zIn : List ℕ)
      → occurs (λ s. ends3 s x y z) [] zIn ≡ contains (x ∷ y ∷ z ∷ []) (map to_lower zIn)
  unfolding occurs contains starts
  occurs3-contains [] = refl
  occurs3-contains (a ∷ []) = ground arith
  occurs3-contains (a ∷ b ∷ zIn) = occurs3-window zIn [] (to_lower a) (to_lower b)

occurs-or :
    (p q : List ℕ → Bool) (zIn seen : List ℕ)
    → occurs (λ s. p s || q s) seen zIn ≡ (occurs p seen zIn || occurs q seen zIn)
unfolding occurs
occurs-or p q [] seen = refl
occurs-or p q (c ∷ zIn) seen = ground (arith, occurs-or p q zIn (to_lower c ∷ seen))

-- The table of the comment, its upper rows first.
unfoldable pub by_table : List ℕ → Affinity
by_table t =
    if contains (codes "int") t
    then integer
    else if contains (codes "char") t || contains (codes "clob") t || contains (codes "text") t
    then text
    else if contains (codes "blob") t
    then blob
    else if contains (codes "real") t || contains (codes "floa") t || contains (codes "doub") t
    then real
    else numeric

-- One word of the table: the test on the hash, at every byte, finds the word in the text.
any4 :
    (w x y z : ℕ) (zIn : List ℕ)
    → (0 < w) × (w < 256) × (x < 256) × (y < 256) × (z < 256)
    → any (λ h. h == word4 w x y z) 0 zIn ≡ contains (w ∷ x ∷ y ∷ z ∷ []) (map to_lower zIn)
any4 w x y z zIn k =
    any-occurs (λ h. h == word4 w x y z) (λ s. ends4 s w x y z) (λ s h. ends4-hash s w x y z h k)
      zIn [] tt
    ∙ occurs4-contains w x y z zIn

any_int : (zIn : List ℕ) → any is_int 0 zIn ≡ contains (codes "int") (map to_lower zIn)
unfolding is_int
any_int zIn =
    any-occurs is_int (λ s. ends3 s b'i' b'n' b't')
      (λ s h. ends3-hash s b'i' b'n' b't' h (omega arith)) zIn [] tt
    ∙ occurs3-contains b'i' b'n' b't' zIn

any-or :
    (p q : ℕ → Bool) (zIn : List ℕ) (h : ℕ)
    → any (λ k. p k || q k) h zIn ≡ (any p h zIn || any q h zIn)
unfolding any
any-or p q [] h = refl
any-or p q (c ∷ zIn) h = ground (arith, any-or p q zIn (shift_in h c))

three_words :
    (p q r : ℕ → Bool) (zIn : List ℕ) {a b c : Bool}
    → any p 0 zIn ≡ a
    → any q 0 zIn ≡ b
    → any r 0 zIn ≡ c
    → any (λ k. p k || q k || r k) 0 zIn ≡ (a || b || c)
three_words p q r zIn ea eb ec =
    any-or (λ k. p k || q k) r zIn 0 ∙ rw (any-or p q zIn 0, ea, eb, ec)

any_text :
    (zIn : List ℕ)
    → any is_text 0 zIn ≡ (
        contains (codes "char") (map to_lower zIn)
        || contains (codes "clob") (map to_lower zIn)
        || contains (codes "text") (map to_lower zIn))
unfolding is_text
any_text zIn =
    three_words (λ h. h == word4 b'c' b'h' b'a' b'r') (λ h. h == word4 b'c' b'l' b'o' b'b')
      (λ h. h == word4 b't' b'e' b'x' b't') zIn (any4 b'c' b'h' b'a' b'r' zIn (omega arith))
      (any4 b'c' b'l' b'o' b'b' zIn (omega arith)) (any4 b't' b'e' b'x' b't' zIn (omega arith))

any_blob : (zIn : List ℕ) → any is_blob 0 zIn ≡ contains (codes "blob") (map to_lower zIn)
unfolding is_blob
any_blob zIn = any4 b'b' b'l' b'o' b'b' zIn (omega arith)

any_real :
    (zIn : List ℕ)
    → any is_real 0 zIn ≡ (
        contains (codes "real") (map to_lower zIn)
        || contains (codes "floa") (map to_lower zIn)
        || contains (codes "doub") (map to_lower zIn))
unfolding is_real
any_real zIn =
    three_words (λ h. h == word4 b'r' b'e' b'a' b'l') (λ h. h == word4 b'f' b'l' b'o' b'a')
      (λ h. h == word4 b'd' b'o' b'u' b'b') zIn (any4 b'r' b'e' b'a' b'l' zIn (omega arith))
      (any4 b'f' b'l' b'o' b'a' zIn (omega arith)) (any4 b'd' b'o' b'u' b'b' zIn (omega arith))

choose_numeric :
    (i t b r : Bool)
    → choose numeric i t b r
      ≡ (if i then integer else if t then text else if b then blob else if r then real else numeric)
unfolding choose
choose_numeric i t b r = ground arith

-- For every declared type the scan gives the affinity that the table gives for the text in lower
-- case.
pub affinity_type-by_table : (zIn : List ℕ) → affinity_type (some zIn) ≡ by_table (map to_lower zIn)
unfolding affinity_type by_table
affinity_type-by_table zIn =
    scan_lem zIn 0 numeric
    ∙ rw (any_int zIn, any_text zIn, any_blob zIn, any_real zIn)
        (choose_numeric (contains (codes "int") (map to_lower zIn)) _ _ _)
