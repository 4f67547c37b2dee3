-- ===== src/Affinity/Hash.antt =====
-- The rolling hash holds the last four bytes, in lower case.
use rsqlite.Prelude.{
  ℕ, zero, suc, ◌+◌, ◌*◌, ◌%◌, ◌^◌, ◌<◌, ◌≡◌, refl, Bool, true, false, ◌&&◌, List, [], ◌∷◌, ◌==◌,
  ltb, get_or, arith,
}
use rsqlite.Affinity.{upper_to_lower, to_lower, shift_in, word4, word3}

are_bytes : List ℕ → Bool
are_bytes [] = true
are_bytes (entry ∷ table) = ltb entry 256 && are_bytes table

get_or-lt : (table : List ℕ) (i : ℕ) → are_bytes table ≡ true → get_or table i 0 < 256
unfolding are_bytes
get_or-lt [] i h = omega arith
get_or-lt (entry ∷ table) zero h = ground arith
get_or-lt (entry ∷ table) (suc i) h = get_or-lt table i (ground arith)

table_bytes : are_bytes upper_to_lower ≡ true
unfolding are_bytes upper_to_lower
table_bytes = refl

pub to_lower-lt : (c : ℕ) → to_lower c < 256
unfolding to_lower
to_lower-lt c = get_or-lt upper_to_lower (c % 256) table_bytes

-- The last bytes, newest first; before the text there are zeros.
abbrev pub hash_of : List ℕ → ℕ
hash_of [] = 0
hash_of (d ∷ []) = d
hash_of (d ∷ c ∷ []) = c * 2 ^ 8 + d
hash_of (d ∷ c ∷ b ∷ []) = word3 b c d
hash_of (d ∷ c ∷ b ∷ a ∷ older) = word4 a b c d

abbrev pub AllBytes : List ℕ → Type 0
AllBytes [] = Unit {0}
AllBytes (c ∷ cs) = (c < 256) × AllBytes cs

pub hash_of-shift_in :
    (seen : List ℕ) (c : ℕ)
    → AllBytes seen
    → shift_in (hash_of seen) c ≡ hash_of (to_lower c ∷ seen)
unfolding shift_in
hash_of-shift_in [] c h = omega (arith, to_lower-lt c)
hash_of-shift_in (d ∷ []) c h = omega (arith, to_lower-lt c)
hash_of-shift_in (d ∷ e ∷ []) c h = omega (arith, to_lower-lt c)
hash_of-shift_in (d ∷ e ∷ f ∷ []) c h = omega (arith, to_lower-lt c)
hash_of-shift_in (d ∷ e ∷ f ∷ g ∷ older) c h = omega (arith, to_lower-lt c)

-- The text read last ends in these letters.
abbrev pub ends3 : List ℕ → ℕ → ℕ → ℕ → Bool
ends3 (d ∷ c ∷ b ∷ older) x y z = (b == x) && (c == y) && (d == z)
ends3 _ x y z = false

abbrev pub ends4 : List ℕ → ℕ → ℕ → ℕ → ℕ → Bool
ends4 (d ∷ c ∷ b ∷ a ∷ older) w x y z = (a == w) && (b == x) && (c == y) && (d == z)
ends4 _ w x y z = false

pub ends4-hash :
    (seen : List ℕ) (w x y z : ℕ)
    → AllBytes seen
    → (0 < w) × (w < 256) × (x < 256) × (y < 256) × (z < 256)
    → (hash_of seen == word4 w x y z) ≡ ends4 seen w x y z
ends4-hash [] w x y z h k = ground arith
ends4-hash (d ∷ []) w x y z h k = ground arith
ends4-hash (d ∷ c ∷ []) w x y z h k = ground arith
ends4-hash (d ∷ c ∷ b ∷ []) w x y z h k = ground arith
ends4-hash (d ∷ c ∷ b ∷ a ∷ older) w x y z h k = ground arith

pub ends3-hash :
    (seen : List ℕ) (x y z : ℕ)
    → AllBytes seen
    → (0 < x) × (x < 256) × (y < 256) × (z < 256)
    → ((hash_of seen) % 2 ^ 24 == word3 x y z) ≡ ends3 seen x y z
ends3-hash [] x y z h k = ground arith
ends3-hash (d ∷ []) x y z h k = ground arith
ends3-hash (d ∷ c ∷ []) x y z h k = ground arith
ends3-hash (d ∷ c ∷ b ∷ []) x y z h k = ground arith
ends3-hash (d ∷ c ∷ b ∷ a ∷ older) x y z h k = ground arith
