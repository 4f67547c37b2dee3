-- ===== src/Runtime.antt =====
-- R's vectors as the package uses them, the missing values, and the calls into R and its packages.
-- A slot of a REALSXP holds 64 bits, which src/integer64.h also reads as an `int64_t`: a slot here
-- remembers by which view it was written. A double is the number of its 64 bits.
use rsqlite.Prelude.{ℕ, ◌+◌, ◌-◌, ◌^◌, ℤ, negsuc, ◌≡◌, String, List, [], length, Bool, false}

pub data SexpType : Type 0 where
  nilsxp lglsxp intsxp realsxp strsxp vecsxp rawsxp : SexpType
  othersxp : ℕ → SexpType

-- A number for each type, by which two of them are compared.
abbrev pub sexp_code : SexpType → ℕ
sexp_code nilsxp = 0
sexp_code lglsxp = 1
sexp_code intsxp = 2
sexp_code realsxp = 3
sexp_code strsxp = 4
sexp_code vecsxp = 5
sexp_code rawsxp = 6
sexp_code (othersxp n) = 7 + n

-- The entry of a character vector: NA_STRING or bytes in UTF-8.
pub data Chars : Type 0 where
  na_string : Chars
  chars : List ℕ → Chars

-- The entry of a list: R_NilValue, a raw vector, or anything else.
pub data Element : Type 0 where
  null : Element
  raw : List ℕ → Element
  other : SexpType → Element

pub data Slot : Type 0 where
  unset : Slot
  lgl : ℤ → Slot
  int : ℤ → Slot
  int64 : ℤ → Slot
  real : ℕ → Slot
  str : Chars → Slot
  elt : Element → Slot

pub data Attribute : Type 0 where
  class_ : List String → Attribute
  tzone : String → Attribute

pub record Sexp : Type 0 where
  pub type : SexpType
  pub slots : List Slot
  pub attributes : List Attribute

abbrev pub na_integer : ℤ
na_integer = negsuc (2 ^ 31 - 1)

-- src/integer64.h
abbrev pub na_integer64 : ℤ
na_integer64 = negsuc (2 ^ 63 - 1)

-- R's NA_real_: a NaN with the payload 1954.
abbrev pub na_real : ℕ
na_real = 0x7FF00000000007A2

-- What the package calls and does not implement: R's allocator, the constructors of the packages
-- blob and hms, its test `R_IsNA`, and the conversions of an `int` and an `int64_t` to a double.
pub record Runtime : Type 0 where
  pub alloc_vector : SexpType → ℕ → List Slot
  pub new_blob : Sexp → Sexp
  pub new_hms : Sexp → Sexp
  pub double_of_int : ℤ → ℕ
  pub double_of_int64 : ℤ → ℕ
  pub is_na : ℕ → Bool

-- Documented: Rf_allocVector gives NULL for NILSXP and else the length that was asked for; the two
-- constructors add attributes to a vector; a converted integer is a number, so R_IsNA is false of
-- it.
pub record IsRuntime (rt : Runtime) : Type 0 where
  pub alloc_nil : (n : ℕ) → rt.alloc_vector nilsxp n ≡ []
  pub alloc_length :
      (t : SexpType) (n : ℕ) → (t ≡ nilsxp → n ≡ 0) → length (rt.alloc_vector t n) ≡ n
  pub blob_type : (x : Sexp) → (rt.new_blob x).type ≡ x.type
  pub blob_slots : (x : Sexp) → (rt.new_blob x).slots ≡ x.slots
  pub hms_type : (x : Sexp) → (rt.new_hms x).type ≡ x.type
  pub hms_slots : (x : Sexp) → (rt.new_hms x).slots ≡ x.slots
  pub is_na_of_int64 : (z : ℤ) → rt.is_na (rt.double_of_int64 z) ≡ false
