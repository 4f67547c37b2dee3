-- ===== src/Storage/Blocks.antt =====
-- What a block means: its rows, the values that each type of column shows for them, and when a
-- block is well formed. None of this speaks of capacities or of how the code walks a block.
use rsqlite.Prelude.{
  ◌-◌, ◌≡◌, ◌≢◌, refl, eqb_ℤ, Bool, false, true, Option, none, some, List, [], ◌∷◌, ◌++◌, map,
  length, take, replicate, if◌then◌else◌, arith,
}
use rsqlite.DataType.{DataType, same_type}
use rsqlite.Runtime.{
  Slot, unset, lgl, int, int64, real, str, elt, na_string, null, na_integer, na_integer64, na_real,
  Runtime,
}
use rsqlite.Source.{DataSource, Warning}
use rsqlite.Storage.{Storage, sexptype_from_datatype}

abbrev pub All {ℓ κ} : {A : Type ℓ} → (A → Type κ) → List A → Type κ
All P [] = Unit
All P (x ∷ xs) = P x × All P xs

-- The type of a block after a value of type `new_dt`: the first value decides, and an integer block
-- gives way to 64-bit integers and to doubles.
unfoldable pub next_type : DataType → DataType → DataType
next_type DataType.unknown new_dt = new_dt
next_type DataType.int DataType.int64 = DataType.int64
next_type DataType.int DataType.real = DataType.real
next_type dt _ = dt

-- A column of type `final` can hold blocks of these types.
unfoldable pub fits : DataType → DataType → Bool
fits DataType.unknown final = true
fits DataType.int DataType.int64 = true
fits DataType.int DataType.real = true
fits dt final = same_type dt final

unfoldable pub has_view : DataType → Slot → Bool
has_view DataType.bool (lgl v) = true
has_view DataType.int (int v) = true
has_view DataType.int64 (int64 v) = true
has_view DataType.real (real v) = true
has_view DataType.string (str v) = true
has_view DataType.blob (elt v) = true
has_view DataType.date (real v) = true
has_view DataType.datetime (real v) = true
has_view DataType.datetimetz (real v) = true
has_view DataType.time (real v) = true
has_view _ _ = false

-- the missing value of each type
unfoldable pub na_slot : DataType → Slot
na_slot DataType.bool = lgl na_integer
na_slot DataType.int = int na_integer
na_slot DataType.int64 = int64 na_integer64
na_slot DataType.string = str na_string
na_slot DataType.blob = elt null
na_slot DataType.unknown = unset
na_slot _ = real na_real

-- the value of a cell, fetched as type `dt`, and the warnings of the conversion
unfoldable pub value_slot : DataType → DataSource → Slot
value_slot DataType.bool src = lgl src.fetch_bool
value_slot DataType.int src = int src.fetch_int
value_slot DataType.int64 src = int64 src.fetch_int64
value_slot DataType.real src = real src.fetch_real
value_slot DataType.string src = str src.fetch_string
value_slot DataType.blob src = elt src.fetch_blob
value_slot DataType.date src = real src.fetch_date.0
value_slot DataType.datetime src = real src.fetch_datetime_local.0
value_slot DataType.datetimetz src = real src.fetch_datetime
value_slot DataType.time src = real src.fetch_time.0
value_slot DataType.unknown src = unset

unfoldable pub value_warnings : DataType → DataSource → List Warning
value_warnings DataType.date src = src.fetch_date.1
value_warnings DataType.datetime src = src.fetch_datetime_local.1
value_warnings DataType.time src = src.fetch_time.1
value_warnings _ src = []

-- an integer shown in a column of 64-bit integers or of doubles; the missing value stays missing
unfoldable pub widen : Runtime → DataType → Slot → Slot
widen rt DataType.int64 (int v) = int64 (if eqb_ℤ v na_integer then na_integer64 else v)
widen rt DataType.real (int v) = real (if eqb_ℤ v na_integer then na_real else rt.double_of_int v)
widen rt _ s = s

unfoldable pub shown : Runtime → DataType → Option Slot → Slot
unfolding widen na_slot
shown rt final none = na_slot final
shown rt final (some s) = widen rt final s

-- The rows of a block in order: those in its vector, then those that came when it was full.
unfoldable pub rows : Storage → List (Option Slot)
rows st = map some (take st.i st.block.slots) ++ replicate (st.i - length st.block.slots) none

pub record IsBlock (st : Storage) : Type 0 where
  pub kind : st.block.type ≡ sexptype_from_datatype st.dt
  pub views : All (λ s. has_view st.dt s ≡ true) (take st.i st.block.slots)
  pub empty : st.dt ≡ DataType.unknown → st.block.slots ≡ []

-- A cell that is not NULL has a type.
abbrev pub IsTyped : DataSource → Type 0
IsTyped src = src.is_null ≡ false → src.get_data_type ≢ DataType.unknown

pub fits_self : (dt : DataType) → fits dt dt ≡ true
unfolding fits
fits_self DataType.unknown = refl
fits_self dt = refl

pub fits-unknown : (dt : DataType) → fits DataType.unknown dt ≡ true
unfolding fits
fits-unknown dt = refl

pub fits-next_type :
    (a dt new_dt : DataType) → fits a dt ≡ true → fits a (next_type dt new_dt) ≡ true
unfolding fits next_type
fits-next_type DataType.unknown dt new_dt h = refl
fits-next_type a DataType.unknown new_dt h = ground arith
fits-next_type a DataType.int new_dt h = ground arith
fits-next_type a _ new_dt h = h

-- What a type can be shown as, so can each type that gives way to it.
pub fits_trans : (a b c : DataType) → fits a b ≡ true → fits b c ≡ true → fits a c ≡ true
unfolding fits
fits_trans DataType.unknown b c h k = refl
fits_trans a DataType.unknown c h k = ground arith
fits_trans a b c h k = ground arith

pub next_type-ne-unknown :
    (dt new_dt : DataType) → new_dt ≢ DataType.unknown → next_type dt new_dt ≢ DataType.unknown
unfolding next_type
next_type-ne-unknown DataType.unknown new_dt h e = h e
next_type-ne-unknown DataType.int new_dt h e = ground arith
next_type-ne-unknown dt new_dt h e = cc

pub widen-na_slot :
    (rt : Runtime) (dt final : DataType)
    → dt ≢ DataType.unknown
    → fits dt final ≡ true
    → widen rt final (na_slot dt) ≡ na_slot final
unfolding fits widen na_slot
widen-na_slot rt DataType.unknown final h k = absurd (h refl)
widen-na_slot rt dt final h k = ground arith

pub has_view-na_slot : (dt : DataType) → dt ≢ DataType.unknown → has_view dt (na_slot dt) ≡ true
unfolding has_view na_slot
has_view-na_slot DataType.unknown h = absurd (h refl)
has_view-na_slot dt h = refl

pub has_view-value_slot :
    (dt : DataType) (src : DataSource)
    → dt ≢ DataType.unknown
    → has_view dt (value_slot dt src) ≡ true
unfolding has_view value_slot
has_view-value_slot DataType.unknown src h = absurd (h refl)
has_view-value_slot dt src h = refl
