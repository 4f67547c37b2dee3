-- ===== src/Storage.antt =====
-- src/DbColumnStorage.cpp and .h: one block of a column's values. A method that may fail returns a
-- `Result`; a method that returns `this` or a new block returns an `Appended`. The reference
-- `source` is the argument `src`, the cell of the current row. The counters do not wrap.
pub mod Blocks
pub mod Writing
pub mod Appending
pub mod Copy
pub mod Widening
pub mod Growth
pub mod Layout
pub mod Loops
pub mod Rendering
pub mod Shape
use rsqlite.Prelude.{
  ℕ, zero, suc, ◌-◌, ◌*◌, max, ℤ, pos, pos_part, ltb_ℤ, String, Bool, true, false, ◌&&◌, List, [],
  ◌∷◌, ltb, leb, length, if◌then◌else◌,
}
use rsqlite.Outcome.{Result, ok, stop, ◌>>=◌, nyi, out_of_fuel}
use rsqlite.DataType
use rsqlite.DataType.{DataType, same_type}
use rsqlite.Runtime.{
  SexpType, nilsxp, lglsxp, intsxp, realsxp, strsxp, vecsxp, Slot, lgl, int, int64, real, str, elt,
  class_, tzone, Sexp, Runtime,
}
use rsqlite.Slots.{put_slot, fill_default_value}
use rsqlite.Source.{DataSource, Warning}

pub record Storage : Type 0 where
  pub block : Sexp
  pub i : ℕ
  pub dt : DataType
  pub n_max : ℤ

pub record Appended : Type 0 where
  pub is_new : Bool
  pub storage : Storage
  pub warnings : List Warning

-- sexptype_from_datatype; its `default` serves no enumerator
unfoldable pub sexptype_from_datatype : DataType → SexpType
sexptype_from_datatype DataType.unknown = nilsxp
sexptype_from_datatype DataType.bool = lglsxp
sexptype_from_datatype DataType.int = intsxp
sexptype_from_datatype DataType.int64 = realsxp
sexptype_from_datatype DataType.real = realsxp
sexptype_from_datatype DataType.string = strsxp
sexptype_from_datatype DataType.blob = vecsxp
sexptype_from_datatype DataType.date = realsxp
sexptype_from_datatype DataType.datetime = realsxp
sexptype_from_datatype DataType.datetimetz = realsxp
sexptype_from_datatype DataType.time = realsxp

unfoldable pub class_from_datatype : DataType → List String
class_from_datatype DataType.int64 = "integer64" ∷ []
class_from_datatype DataType.date = "Date" ∷ []
class_from_datatype DataType.datetime = "POSIXct" ∷ "POSIXt" ∷ []
class_from_datatype DataType.datetimetz = "POSIXct" ∷ "POSIXt" ∷ []
class_from_datatype _ = []

-- no class is R_NilValue, which sets no attribute
unfoldable pub set_class : List String → Sexp → Sexp
set_class [] x = x
set_class (c ∷ cs) x = record x { attributes = class_ (c ∷ cs) ∷ x.attributes }

abbrev pub get_capacity : Storage → ℕ
get_capacity st = length st.block.slots

-- The minimum is 100 rows where the number of rows is not known, and 1 where it is.
unfoldable pub get_new_capacity : ℤ → ℕ → ℕ
get_new_capacity n_max desired = if ltb_ℤ n_max (pos 0) then max desired 100 else max desired 1

-- The slot and the warnings of source.fetch_…() by the type of the block.
abbrev pub quiet : SexpType → Slot → Result (SexpType × Slot × List Warning)
quiet t s = ok (t, s, [])

unfoldable pub fetched : DataType → DataSource → Result (SexpType × Slot × List Warning)
fetched DataType.bool src = quiet lglsxp (lgl src.fetch_bool)
fetched DataType.int src = quiet intsxp (int src.fetch_int)
fetched DataType.int64 src = quiet realsxp (int64 src.fetch_int64)
fetched DataType.real src = quiet realsxp (real src.fetch_real)
fetched DataType.string src = quiet strsxp (str src.fetch_string)
fetched DataType.blob src = quiet vecsxp (elt src.fetch_blob)
fetched DataType.date src = ok (realsxp, real src.fetch_date.0, src.fetch_date.1)
fetched DataType.datetime src =
    ok (realsxp, real src.fetch_datetime_local.0, src.fetch_datetime_local.1)
fetched DataType.datetimetz src = quiet realsxp (real src.fetch_datetime)
fetched DataType.time src = ok (realsxp, real src.fetch_time.0, src.fetch_time.1)
fetched DataType.unknown src = stop nyi

-- fetch_value(): the block with its slot `i` written
unfoldable pub fetch_value : Storage → DataSource → Result (Storage × List Warning)
fetch_value st src = do
  (t, v, warnings) ← fetched st.dt src
  x ← put_slot t st.block st.i v
  ok (record st { block = x }, warnings)

abbrev pub this : Storage → List Warning → Appended
this st warnings = record { is_new = false; storage = st; warnings = warnings }

unfoldable pub append_null : Storage → Result Appended
append_null st =
    if ltb st.i (get_capacity st)
    then (fill_default_value st.block st.dt st.i >>= λ x.
        ok (this (record st { block = x; i = suc st.i }) []))
    else ok (this (record st { i = suc st.i }) [])

-- R_xlen_t desired_capacity = (n_max < 0) ? (get_capacity() * 2) : (n_max - i); a difference below
-- zero is raised to the minimum like zero.
unfoldable pub desired_capacity : Storage → ℕ
desired_capacity st =
    if ltb_ℤ st.n_max (pos 0) then get_capacity st * 2 else pos_part st.n_max - st.i

abbrev pub as_new : Appended → Appended
as_new a = record a { is_new = true }

module _ (rt : Runtime) where
  -- set_attribs_from_datatype
  unfoldable pub set_attribs_from_datatype : Sexp → DataType → Sexp
  set_attribs_from_datatype x DataType.blob = rt.new_blob x
  set_attribs_from_datatype x DataType.time = rt.new_hms x
  set_attribs_from_datatype x DataType.datetime = record x {
    attributes = tzone "UTC" ∷ x.attributes;
  }
  set_attribs_from_datatype x _ = x

  unfoldable pub allocate : ℕ → DataType → Sexp
  unfolding sexptype_from_datatype class_from_datatype set_class set_attribs_from_datatype
  allocate n dt =
      let type = sexptype_from_datatype dt in
      let ret : Sexp = record { type = type; slots = rt.alloc_vector type n; attributes = [] } in
      set_attribs_from_datatype (set_class (class_from_datatype dt) ret) dt

  -- the constructor
  unfoldable pub new_storage : DataType → ℕ → ℤ → Storage
  unfolding allocate get_new_capacity
  new_storage dt capacity n_max = record {
    block = allocate (get_new_capacity n_max capacity) dt;
    i = 0;
    dt = dt;
    n_max = n_max;
  }

  -- `rec` is append_data() of the new block.
  unfoldable pub append_data_to_new :
      (Storage → Result Appended) → Storage → DataType → DataSource → Result Appended
  append_data_to_new rec st new_dt src = do
    let dt = if same_type new_dt DataType.unknown then src.get_data_type else new_dt
    a ← rec (new_storage dt (desired_capacity st) st.n_max)
    ok (as_new a)

  -- append_data(); `rec` is append_data() of a block that it makes.
  unfoldable pub append_data_with :
      (Storage → Result Appended) → Storage → DataSource → Result Appended
  append_data_with rec st src =
      let new_dt = src.get_data_type in
      if same_type st.dt DataType.unknown
      then append_data_to_new rec st st.dt src
      else if leb (get_capacity st) st.i
      then append_data_to_new rec st st.dt src
      else if same_type st.dt DataType.int && same_type new_dt DataType.int64
      then append_data_to_new rec st DataType.int64 src
      else if same_type st.dt DataType.int && same_type new_dt DataType.real
      then append_data_to_new rec st DataType.real src
      else (fetch_value st src >>= λ (written, warnings).
          ok (this (record written { i = suc written.i }) warnings))

  -- The fuel bounds how many blocks one value makes.
  unfoldable pub append_data : ℕ → Storage → DataSource → Result Appended
  append_data zero st src = stop out_of_fuel
  append_data (suc f) st src = append_data_with (λ s. append_data f s src) st src

  -- Three blocks at most: the present one, a full one's successor, and one of a wider type.
  unfoldable pub append_col : Storage → DataSource → Result Appended
  append_col st src = if src.is_null then append_null st else append_data 3 st src

unfoldable pub get_item_data_type : DataSource → DataType
get_item_data_type src = src.get_data_type

unfoldable pub get_data_type : Storage → DataSource → DataType
get_data_type st src = if same_type st.dt DataType.unknown then src.get_decl_data_type else st.dt
