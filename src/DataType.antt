-- ===== src/DataType.antt =====
-- src/DbColumnDataType.h: the types of a result column. `code` is the value of the enumerator,
-- by which `==` compares and `std::set` sorts.
use rsqlite.Prelude.{ℕ, Bool, true, false, ◌==◌, ◌≡◌, ◌≢◌, ◌⊎◌, ◌↔◌, inl, inr, refl, arith}

pub data DataType : Type 0 where
  unknown bool int int64 real string blob date datetime datetimetz time : DataType

abbrev pub code : DataType → ℕ
code unknown = 0
code bool = 1
code int = 2
code int64 = 3
code real = 4
code string = 5
code blob = 6
code date = 7
code datetime = 8
code datetimetz = 9
code time = 10

abbrev pub same_type : DataType → DataType → Bool
same_type a b = code a == code b

pub unknown-cases : (dt : DataType) → (dt ≡ unknown) ⊎ (dt ≢ unknown)
unknown-cases unknown = inl refl
unknown-cases dt = inr (λ e. cc)

pub same_type_iff : (a b : DataType) → (same_type a b ≡ true) ↔ (a ≡ b)
same_type_iff a b = ground arith

pub not-unknown : (dt : DataType) → dt ≢ unknown → same_type dt unknown ≡ false
not-unknown unknown h = absurd (h refl)
not-unknown dt h = refl
