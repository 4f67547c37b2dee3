-- ===== src/Affinity/Scanning.antt =====
-- The scan of sqlite3AffinityType, by the groups of substrings that it meets.
use rsqlite.Prelude.{
  ℕ, ◌%◌, ◌^◌, ◌≡◌, refl, ◌∙◌, Bool, true, false, ◌&&◌, ◌||◌, List, [], ◌∷◌, ◌==◌, Bool-cases, inl,
  inr, Option, none, some, if◌then◌else◌, arith,
}
use rsqlite.Affinity.{
  Affinity, blob, text, numeric, integer, real, same_affinity, shift_in, word4, word3,
  next_affinity, scan,
}

-- The groups of substrings with one affinity, by the hash.
unfoldable pub is_text : ℕ → Bool
is_text h =
    (h == word4 b'c' b'h' b'a' b'r')
    || (h == word4 b'c' b'l' b'o' b'b')
    || (h == word4 b't' b'e' b'x' b't')

unfoldable pub is_blob : ℕ → Bool
is_blob h = h == word4 b'b' b'l' b'o' b'b'

unfoldable pub is_real : ℕ → Bool
is_real h =
    (h == word4 b'r' b'e' b'a' b'l')
    || (h == word4 b'f' b'l' b'o' b'a')
    || (h == word4 b'd' b'o' b'u' b'b')

unfoldable pub is_int : ℕ → Bool
is_int h = h % 2 ^ 24 == word3 b'i' b'n' b't'

-- The rows of the table from the top; an affinity that is there already yields to those above it.
unfoldable pub choose : Affinity → Bool → Bool → Bool → Bool → Affinity
choose aff int_found text_found blob_found real_found =
    if int_found
    then integer
    else if text_found
    then text
    else if blob_found && (same_affinity aff numeric || same_affinity aff real)
    then blob
    else if real_found && same_affinity aff numeric
    then real
    else aff

unfoldable pub any : (ℕ → Bool) → ℕ → List ℕ → Bool
any p h [] = false
any p h (c ∷ zIn) = p (shift_in h c) || any p (shift_in h c) zIn

-- The four groups exclude one another at one place, and decide the step.
data Step (aff : Affinity) (h : ℕ) : Type 0 where
  at_text : is_int h ≡ false → is_text h ≡ true → next_affinity aff h ≡ some text → Step aff h
  at_blob :
      is_int h ≡ false
      → is_text h ≡ false
      → is_blob h ≡ true
      → is_real h ≡ false
      → next_affinity aff h
        ≡ some (if same_affinity aff numeric || same_affinity aff real then blob else aff)
      → Step aff h
  at_real :
      is_int h ≡ false
      → is_text h ≡ false
      → is_blob h ≡ false
      → is_real h ≡ true
      → next_affinity aff h ≡ some (if same_affinity aff numeric then real else aff)
      → Step aff h
  at_int : is_int h ≡ true → next_affinity aff h ≡ none → Step aff h
  elsewhere :
      is_int h ≡ false
      → is_text h ≡ false
      → is_blob h ≡ false
      → is_real h ≡ false
      → next_affinity aff h ≡ some aff
      → Step aff h

next_Step : (aff : Affinity) (h : ℕ) → Step aff h
unfolding next_affinity is_text is_blob is_real is_int
next_Step aff h = elim (Bool-cases (is_text h)) [
  | inl t ↦ at_text (ground arith) t (ground arith)
  | inr t ↦ elim (Bool-cases (is_blob h)) [
    | inl b ↦ at_blob (ground arith) t b (ground arith) (ground arith)
    | inr b ↦ elim (Bool-cases (is_real h)) [
      | inl r ↦ at_real (ground arith) t b r (ground arith)
      | inr r ↦ elim (Bool-cases (is_int h)) [
        | inl i ↦ at_int i (ground arith)
        | inr i ↦ elsewhere i t b r (ground arith)
      ]
    ]
  ]
]

after_next : Option Affinity → Bool → Bool → Bool → Bool → Affinity
after_next none i t b r = integer
after_next (some aff) i t b r = choose aff i t b r

choose-Step :
    (aff : Affinity) (h : ℕ) (i t b r : Bool)
    → Step aff h
    → after_next (next_affinity aff h) i t b r
      ≡ choose aff (is_int h || i) (is_text h || t) (is_blob h || b) (is_real h || r)
unfolding after_next choose
choose-Step aff h i t b r (at_text ni et e) = rw (e, ni, et) (ground arith)
choose-Step aff h i t b r (at_blob ni nt eb nr e) = rw (e, ni, nt, eb, nr) (ground arith)
choose-Step aff h i t b r (at_real ni nt nb er e) = rw (e, ni, nt, nb, er) (ground arith)
choose-Step aff h i t b r (at_int ei e) = rw (e, ei)
choose-Step aff h i t b r (elsewhere ni nt nb nr e) = rw (e, ni, nt, nb, nr)

scan_next :
    (o : Option Affinity) (h : ℕ) (zIn : List ℕ) (i t b r : Bool)
    → ((aff : Affinity) → scan h aff zIn ≡ choose aff i t b r)
    → elim o as (λ x. Affinity) [ none ↦ integer | some aff' ↦ scan h aff' zIn ]
      ≡ after_next o i t b r
unfolding after_next
scan_next none h zIn i t b r ih = refl
scan_next (some aff) h zIn i t b r ih = ih aff

pub scan_lem :
    (zIn : List ℕ) (h : ℕ) (aff : Affinity)
    → scan h aff zIn
      ≡ choose aff (any is_int h zIn) (any is_text h zIn) (any is_blob h zIn) (any is_real h zIn)
unfolding scan any
scan_lem [] h aff = unfold choose in refl
scan_lem (c ∷ zIn) h aff =
    let h' = shift_in h c in
    scan_next (next_affinity aff h') h' zIn (any is_int h' zIn) (any is_text h' zIn)
      (any is_blob h' zIn) (any is_real h' zIn) (λ aff'. scan_lem zIn h' aff')
    ∙ choose-Step aff h' (any is_int h' zIn) (any is_text h' zIn) (any is_blob h' zIn)
        (any is_real h' zIn) (next_Step aff h')
