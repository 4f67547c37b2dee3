-- ===== src/Params.antt =====
-- bind_parameter_pos of src/SqliteResultImpl.cpp and validate_params of src/DbResult.cpp: the
-- vectors that R supplies as parameters, and the value that one row of them binds.
pub mod Bounds
use rsqlite.Prelude.{
  ℕ, zero, suc, ◌+◌, ◌%◌, ◌^◌, ℤ, Bool, true, false, not, ◌&&◌, ◌||◌, none, some, List, [], ◌∷◌,
  eqb_ℤ, ◌==◌, ltb, length, get_elem?, if◌then◌else◌,
}
use rsqlite.Outcome.{
  Result, ok, stop, ◌>>=◌, out_of_bounds, only_raw_vectors, unknown_parameter_type,
  wrong_parameter_length,
}
use rsqlite.Runtime.{
  SexpType, Chars, na_string, chars, Element, null, raw, other, na_integer, na_integer64, na_real,
}

-- `int64` is a REALSXP of class integer64; `others` is a vector of a type that is not known, with
-- its length.
pub data Param : Type 0 where
  lgl : List ℤ → Param
  int64 : List ℤ → Param
  int : List ℤ → Param
  real : List ℕ → Param
  str : List Chars → Param
  list : List Element → Param
  others : ℕ → Param

-- What the code passes to sqlite3_bind_…().
pub data BoundValue : Type 0 where
  null_value : BoundValue
  int_value : ℤ → BoundValue
  int64_value : ℤ → BoundValue
  double_value : ℕ → BoundValue
  text_value : List ℕ → BoundValue
  blob_value : List ℕ → BoundValue

-- C's `==` on doubles, by their bits: a NaN equals nothing, and the two zeros are equal.
unfoldable pub is_nan : ℕ → Bool
is_nan x = ltb 0x7FF0000000000000 (x % 2 ^ 63)

unfoldable pub double_eq : ℕ → ℕ → Bool
unfolding is_nan
double_eq x y =
    not (is_nan x) && not (is_nan y) && ((x == y) || ((x % 2 ^ 63 == 0) && (y % 2 ^ 63 == 0)))

-- Rf_length
abbrev pub param_length : Param → ℕ
param_length (lgl xs) = length xs
param_length (int64 xs) = length xs
param_length (int xs) = length xs
param_length (real xs) = length xs
param_length (str xs) = length xs
param_length (list xs) = length xs
param_length (others n) = n

abbrev pub element {ℓ} : {A : Type ℓ} → List A → ℕ → Result A
element xs i = elim (get_elem? xs i) [ none ↦ stop out_of_bounds | some x ↦ ok x ]

abbrev pub bind_chars : Chars → BoundValue
bind_chars na_string = null_value
bind_chars (chars s) = text_value s

abbrev pub bind_element : Element → Result BoundValue
bind_element null = ok null_value
bind_element (raw bytes) = ok (blob_value bytes)
bind_element (other t) = stop only_raw_vectors

-- The value at the row `group`.
unfoldable pub bind_value : Param → ℕ → Result BoundValue
unfolding double_eq
bind_value (lgl xs) group = do
  value ← element xs group
  ok (if eqb_ℤ value na_integer then null_value else int_value value)
bind_value (int64 xs) group = do
  value ← element xs group
  ok (if eqb_ℤ value na_integer64 then null_value else int64_value value)
bind_value (int xs) group = do
  value ← element xs group
  ok (if eqb_ℤ value na_integer then null_value else int_value value)
bind_value (real xs) group = do
  value ← element xs group
  ok (if double_eq value na_real then null_value else double_value value)
bind_value (str xs) group = do value ← element xs group; ok (bind_chars value)
bind_value (list xs) group = element xs group >>= bind_element
bind_value (others n) group = stop unknown_parameter_type

-- The loop over the parameters after the first, whose number of rows is `n`.
unfoldable pub same_lengths : ℕ → ℕ → List Param → Result (Unit {0})
same_lengths n j [] = ok tt
same_lengths n j (p ∷ params) =
    if param_length p == n then same_lengths n (suc j) params else stop (wrong_parameter_length j n)

-- validate_params
unfoldable pub validate_params : List Param → Result (Unit {0})
unfolding same_lengths
validate_params [] = ok tt
validate_params (p ∷ params) = same_lengths (param_length p) 2 params
