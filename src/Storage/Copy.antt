-- ===== src/Storage/Copy.antt =====
-- copy_value and copy_to of src/DbColumnStorage.cpp.
use rsqlite.Prelude.{ℕ, zero, suc, eqb_ℤ, ◌&&◌, ltb, ◌==◌, length, if◌then◌else◌}
use rsqlite.Outcome.{Result, ok, stop, ◌>>=◌, nyi_default, out_of_fuel}
use rsqlite.DataType.{DataType}
use rsqlite.Runtime.{
  SexpType, nilsxp, lglsxp, intsxp, realsxp, strsxp, vecsxp, lgl, int, int64, real, str, elt, Sexp,
  na_integer, na_integer64, na_real, Runtime, sexp_code,
}
use rsqlite.Slots.{
  put_slot, get_slot, fill_default_value, as_lgl, as_int, as_int64, as_real, as_str, as_elt,
}
use rsqlite.Storage.{Storage, get_capacity}

-- the arms of the switch on TYPEOF(data), which has no default: another type leaves `x` as it is
unfoldable pub copy_int64 : Runtime → SexpType → Storage → Sexp → ℕ → ℕ → Result Sexp
unfolding put_slot get_slot
copy_int64 rt intsxp st x tgt src = do
  s ← get_slot intsxp st.block src
  v ← as_int s
  put_slot realsxp x tgt (int64 (if eqb_ℤ v na_integer then na_integer64 else v))
copy_int64 rt realsxp st x tgt src = do
  s ← get_slot realsxp st.block src
  v ← as_int64 s
  put_slot realsxp x tgt (int64 (if rt.is_na (rt.double_of_int64 v) then na_integer64 else v))
copy_int64 rt _ st x tgt src = ok x

unfoldable pub copy_real : Runtime → SexpType → Storage → Sexp → ℕ → ℕ → Result Sexp
unfolding put_slot get_slot
copy_real rt intsxp st x tgt src = do
  s ← get_slot intsxp st.block src
  v ← as_int s
  put_slot realsxp x tgt (real (if eqb_ℤ v na_integer then na_real else rt.double_of_int v))
copy_real rt realsxp st x tgt src = do
  s ← get_slot realsxp st.block src
  v ← as_real s
  put_slot realsxp x tgt (real v)
copy_real rt _ st x tgt src = ok x

-- REAL(x)[tgt] = REAL(data)[src], for dates and times
unfoldable pub copy_double : Storage → Sexp → ℕ → ℕ → Result Sexp
unfolding put_slot get_slot
copy_double st x tgt src = do
  s ← get_slot realsxp st.block src
  v ← as_real s
  put_slot realsxp x tgt (real v)

-- the switch on the type of the column
unfoldable pub copy_as : Runtime → DataType → Storage → Sexp → ℕ → ℕ → Result Sexp
unfolding copy_int64 copy_real copy_double
copy_as rt DataType.bool st x tgt src = do
  s ← get_slot lglsxp st.block src
  v ← as_lgl s
  put_slot lglsxp x tgt (lgl v)
copy_as rt DataType.int st x tgt src = do
  s ← get_slot intsxp st.block src
  v ← as_int s
  put_slot intsxp x tgt (int v)
copy_as rt DataType.int64 st x tgt src = copy_int64 rt st.block.type st x tgt src
copy_as rt DataType.real st x tgt src = copy_real rt st.block.type st x tgt src
copy_as rt DataType.string st x tgt src = do
  s ← get_slot strsxp st.block src
  v ← as_str s
  put_slot strsxp x tgt (str v)
copy_as rt DataType.blob st x tgt src = do
  s ← get_slot vecsxp st.block src
  v ← as_elt s
  put_slot vecsxp x tgt (elt v)
copy_as rt DataType.date st x tgt src = copy_double st x tgt src
copy_as rt DataType.datetime st x tgt src = copy_double st x tgt src
copy_as rt DataType.datetimetz st x tgt src = copy_double st x tgt src
copy_as rt DataType.time st x tgt src = copy_double st x tgt src
copy_as rt DataType.unknown st x tgt src = stop nyi_default

unfoldable pub copy_value : Runtime → Storage → Sexp → DataType → ℕ → ℕ → Result Sexp
unfolding copy_as fill_default_value
copy_value rt st x dt tgt src =
    if sexp_code st.block.type == sexp_code nilsxp
    then fill_default_value x dt tgt
    else copy_as rt dt st x tgt src

-- The first loop copies while the block has values, the second fills in what lies past its end. The
-- result is (src, tgt, x) at the loop's exit; each round raises `src`, so `i` bounds the rounds.
unfoldable pub copy_loop : Runtime → ℕ → Storage → DataType → ℕ → ℕ → Sexp → Result (ℕ × ℕ × Sexp)
unfolding copy_value
copy_loop rt zero st dt src tgt x = stop out_of_fuel
copy_loop rt (suc f) st dt src tgt x =
    let rest =
      copy_value rt st x dt tgt src >>= λ x'. copy_loop rt f st dt (suc src) (suc tgt) x' in
    if ltb src (get_capacity st) && (ltb src st.i && ltb tgt (length x.slots))
    then rest
    else ok (src, tgt, x)

unfoldable pub fill_loop : ℕ → Storage → DataType → ℕ → ℕ → Sexp → Result (ℕ × ℕ × Sexp)
unfolding fill_default_value
fill_loop zero st dt src tgt x = stop out_of_fuel
fill_loop (suc f) st dt src tgt x =
    let rest = fill_default_value x dt tgt >>= λ x'. fill_loop f st dt (suc src) (suc tgt) x' in
    if ltb src st.i && ltb tgt (length x.slots) then rest else ok (src, tgt, x)

-- copy_to: the vector, which the code changes in place, and the returned `src`
unfoldable pub copy_to : Runtime → Storage → Sexp → DataType → ℕ → Result (Sexp × ℕ)
copy_to rt st x dt pos = do
  (src, tgt, copied) ← copy_loop rt (suc st.i) st dt 0 pos x
  (last, _, filled) ← fill_loop (suc st.i) st dt src tgt copied
  ok (filled, last)
