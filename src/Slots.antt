-- ===== src/Slots.antt =====
-- The slots of R's vectors: INTEGER(x)[k], SET_STRING_ELT and the like, and
-- fill_default_value(data, dt, i) of src/DbColumnStorage.cpp.
use rsqlite.Prelude.{ℕ, ℤ, none, some, ltb, ◌==◌, length, get_elem?, set, if◌then◌else◌}
use rsqlite.Outcome.{
  Result, ok, stop, value_for_unknown, wrong_vector_type, out_of_bounds, wrong_view,
}
use rsqlite.DataType.{DataType}
use rsqlite.Runtime.{
  SexpType, lglsxp, intsxp, realsxp, strsxp, vecsxp, Chars, na_string, Element, null, Slot, lgl,
  int, int64, real, str, elt, Sexp, na_integer, na_integer64, na_real, sexp_code,
}

-- INTEGER(x)[k] = v and the like: the accessor checks the type of the vector.
unfoldable pub put_slot : SexpType → Sexp → ℕ → Slot → Result Sexp
put_slot t x k v =
    if sexp_code t == sexp_code x.type
    then if ltb k (length x.slots)
      then ok (record x { slots = set x.slots k v })
      else stop out_of_bounds
    else stop wrong_vector_type

-- Reading: the type of the vector, the bound, and then the view under which the slot was written.
unfoldable pub get_slot : SexpType → Sexp → ℕ → Result Slot
get_slot t x k =
    if sexp_code t == sexp_code x.type
    then elim (get_elem? x.slots k) [ none ↦ stop out_of_bounds | some s ↦ ok s ]
    else stop wrong_vector_type

abbrev pub as_lgl : Slot → Result ℤ
as_lgl (lgl v) = ok v
as_lgl _ = stop wrong_view

abbrev pub as_int : Slot → Result ℤ
as_int (int v) = ok v
as_int _ = stop wrong_view

abbrev pub as_int64 : Slot → Result ℤ
as_int64 (int64 v) = ok v
as_int64 _ = stop wrong_view

abbrev pub as_real : Slot → Result ℕ
as_real (real v) = ok v
as_real _ = stop wrong_view

abbrev pub as_str : Slot → Result Chars
as_str (str v) = ok v
as_str _ = stop wrong_view

abbrev pub as_elt : Slot → Result Element
as_elt (elt v) = ok v
as_elt _ = stop wrong_view

-- the static fill_default_value(data, dt, i)
unfoldable pub fill_default_value : Sexp → DataType → ℕ → Result Sexp
unfolding put_slot
fill_default_value x DataType.bool k = put_slot lglsxp x k (lgl na_integer)
fill_default_value x DataType.int k = put_slot intsxp x k (int na_integer)
fill_default_value x DataType.int64 k = put_slot realsxp x k (int64 na_integer64)
fill_default_value x DataType.real k = put_slot realsxp x k (real na_real)
fill_default_value x DataType.date k = put_slot realsxp x k (real na_real)
fill_default_value x DataType.datetime k = put_slot realsxp x k (real na_real)
fill_default_value x DataType.datetimetz k = put_slot realsxp x k (real na_real)
fill_default_value x DataType.time k = put_slot realsxp x k (real na_real)
fill_default_value x DataType.string k = put_slot strsxp x k (str na_string)
fill_default_value x DataType.blob k = put_slot vecsxp x k (elt null)
fill_default_value x DataType.unknown k = stop value_for_unknown
