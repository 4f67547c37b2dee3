-- ===== src/Import/Ending.antt =====
-- Reading a file ends: each call takes a byte, or is at the end of the file.
use rsqlite.Prelude.{
  ℕ, zero, suc, ◌-◌, ◌≤◌, ◌<◌, ◌≡◌, ◌≢◌, ◌⊎◌, refl, ap, Bool, true, false, Option, none, some, [],
  ◌∷◌, ◌++◌, ltb, ◌==◌, lt→ltb, length, length-append, get_elem?, arith, inl, inr, if◌then◌else◌,
}
use rsqlite.Outcome.{Error, Result, ok, stop, out_of_bounds, ◌>>=◌}
use rsqlite.Import.Line.{
  Bytes, Line, read_back, is_eol_byte, found_eol, grow, last_line, getline_loop, getline,
}
use rsqlite.Import.Reading.{grow_room}

-- An error is a read past an end of an array, and comes only if the line end is not one byte.
abbrev pub IsFault : ℕ → Error → Type 0
IsFault m e = (e ≡ out_of_bounds) × (m ≢ 1)

abbrev pub Bounded {ℓ} : {A : Type ℓ} → ℕ → Result A → Type 0
Bounded m (ok a) = Unit {0}
Bounded m (stop e) = IsFault m e

bind-Bounded :
    {A B : Type 0} (m : ℕ) (x : Result A) (f : A → Result B)
    → Bounded m x
    → ((a : A) → Bounded m (f a))
    → Bounded m (x >>= f)
bind-Bounded m (ok a) f h k = k a
bind-Bounded m (stop e) f h k = h

if-Bounded :
    {A : Type 0} (m : ℕ) (b : Bool) (x y : Result A)
    → Bounded m x
    → Bounded m y
    → Bounded m (if b then x else y)
if-Bounded m true x y h k = h
if-Bounded m false x y h k = k

read_back-Bounded : (m : ℕ) (s : Bytes) (j : ℕ) → m ≢ 1 → Bounded m (read_back s j)
read_back-Bounded m s j h =
    if-Bounded m (ltb j (length s)) _ _ (by_option (get_elem? s (length s - 1 - j))) (refl, h)
  where
    by_option :
        (o : Option ℕ)
        → Bounded m (elim o as (λ p. Result ℕ) [ none ↦ stop out_of_bounds | some x ↦ ok x ])
    by_option none = (refl, h)
    by_option (some x) = tt

-- The last byte of a line end of one byte is there.
last-Bounded : (eol : Bytes) → Bounded (length eol) (read_back eol 0)
last-Bounded [] = (refl, λ e. absurd (omega (arith, e)))
last-Bounded (c ∷ []) = tt
last-Bounded (c ∷ d ∷ eol) = read_back-Bounded (length (c ∷ d ∷ eol)) (c ∷ d ∷ eol) 0 (omega arith)

found_eol-Bounded : (m j : ℕ) (eol buf : Bytes) → (0 < j → m ≢ 1) → Bounded m (found_eol j eol buf)
unfolding found_eol
found_eol-Bounded m zero eol buf h = tt
found_eol-Bounded m (suc j) eol buf h =
    let long : m ≢ 1 = h (omega arith) in
    let rest = found_eol-Bounded m j eol buf (λ k. long) in
    bind-Bounded m (read_back buf (suc j)) _ (read_back-Bounded m buf (suc j) long) (λ b.
      bind-Bounded m (read_back eol (suc j)) _ (read_back-Bounded m eol (suc j) long)
        (λ e. if-Bounded m (b == e) (found_eol j eol buf) (ok false) rest tt))

-- What a call leaves unread, unless it errs.
abbrev pub Leaves : ℕ → ℕ → Result Line → Type 0
Leaves eols n (ok (line, rest)) = length rest ≤ n
Leaves eols n (stop e) = IsFault eols e

Leaves-le : (eols m n : ℕ) (x : Result Line) → m ≤ n → Leaves eols m x → Leaves eols n x
Leaves-le eols m n (ok (line, rest)) h k = omega (arith, k)
Leaves-le eols m n (stop e) h k = k

-- A round takes one byte, and goes on or not.
round-Leaves :
    (eols n : ℕ) (x : Result Bool) (line : Option Bytes) (file : Bytes) (more : Result Line)
    → Bounded eols x
    → length file ≤ n
    → Leaves eols n more
    → Leaves eols n (x >>= λ found. if found then ok (line, file) else more)
round-Leaves eols n (ok true) line file more b h k = h
round-Leaves eols n (ok false) line file more b h k = k
round-Leaves eols n (stop e) line file more b h k = b

module _ (junk : ℕ → Bytes) (eol : Bytes) (e : ℕ) where
  first_round :
      (c : ℕ) (file buf : Bytes) (nc : ℕ)
      → length buf ≤ nc
      → 0 < nc
      → Leaves
          (length eol)
          (length file)
          (getline_loop junk eol e (grow nc (length buf)) (buf ++ c ∷ []) file)
      → Leaves (length eol) (length file) (getline_loop junk eol e nc buf (c ∷ file))
  unfolding getline_loop
  first_round c file buf nc fits room more =
      let tested =
        if-Bounded (length eol) (is_eol_byte e c) (found_eol (length eol - 1) eol (buf ++ c ∷ []))
          (ok false)
          (found_eol-Bounded (length eol) (length eol - 1) eol (buf ++ c ∷ [])
            (λ k. omega (arith, k)))
          tt in
      rw (lt→ltb (length buf) (grow nc (length buf)) (grow_room nc (length buf) fits room))
        (round-Leaves (length eol) (length file) _ _ file _ tested (omega arith) more)

  loop-Leaves :
      (file buf : Bytes) (nc : ℕ)
      → length buf ≤ nc
      → 0 < nc
      → Leaves (length eol) (length file) (getline_loop junk eol e nc buf file)
  loop-Leaves [] buf nc fits room = unfold getline_loop in omega arith
  loop-Leaves (c ∷ file) buf nc fits room =
      Leaves-le (length eol) (length file) (suc (length file)) _ (omega arith) (
        first_round c file buf nc fits room (
          loop-Leaves file (buf ++ c ∷ []) (grow nc (length buf))
            (omega (arith, length-append buf (c ∷ []), grow_room nc (length buf) fits room))
            (omega (arith, grow_room nc (length buf) fits room))))

pub getline-Leaves :
    (junk : ℕ → Bytes) (eol : Bytes) (c : ℕ) (file : Bytes)
    → Leaves (length eol) (length file) (getline junk eol (c ∷ file))
unfolding getline
getline-Leaves junk eol c file = by_last (read_back eol 0) (last-Bounded eol)
  where
    by_last :
        (x : Result ℕ)
        → Bounded (length eol) x
        → Leaves (length eol) (length file) (x >>= λ e. getline_loop junk eol e 1024 [] (c ∷ file))
    by_last (ok e) b =
        first_round junk eol e c file [] 1024 (omega arith) (omega arith)
          (loop-Leaves junk eol e file (c ∷ []) 1024 (omega arith) (omega arith))
    by_last (stop e) b = b

-- At the end of the file there is no line.
pub getline_at_end :
    (junk : ℕ → Bytes) (eol : Bytes)
    → (getline junk eol [] ≡ ok (none, []))
      ⊎ ((getline junk eol [] ≡ stop out_of_bounds) × (length eol ≢ 1))
unfolding getline getline_loop last_line
getline_at_end junk eol = by_last (read_back eol 0) (last-Bounded eol)
  where
    by_last :
        (x : Result ℕ)
        → Bounded (length eol) x
        → ((x >>= λ e. getline_loop junk eol e 1024 [] []) ≡ ok (none, []))
          ⊎ (((x >>= λ e. getline_loop junk eol e 1024 [] []) ≡ stop out_of_bounds)
              × (length eol ≢ 1))
    by_last (ok e) b = inl refl
    by_last (stop e) b = inr (ap stop b.0, b.1)
