-- ===== src/Storage/Rendering.antt =====
-- copy_to writes the rows of a block, as the column's type shows them, at the place that it is
-- given.
use rsqlite.Prelude.{
  ℕ, ◌<◌, ◌≡◌, ◌≢◌, refl, false, true, some, length, get_elem?, set, ◌==◌, lt→ltb, arith,
}
use rsqlite.Outcome.{ok}
use rsqlite.DataType.{DataType}
use rsqlite.Runtime.{Slot, int64, Sexp, SexpType, nilsxp, Runtime, IsRuntime, sexp_code}
use rsqlite.Slots.{put_slot, fill_default_value}
use rsqlite.Storage.{Storage, sexptype_from_datatype}
use rsqlite.Storage.Blocks.{fits, has_view, na_slot, widen}
use rsqlite.Storage.Copy.{copy_value, copy_as}

abbrev pub written : Sexp → ℕ → Slot → Sexp
written x k v = record x { slots = set x.slots k v }

pub fill_default_value_lem :
    (x : Sexp) (dt : DataType) (k : ℕ)
    → dt ≢ DataType.unknown
    → x.type ≡ sexptype_from_datatype dt
    → k < length x.slots
    → fill_default_value x dt k ≡ ok (written x k (na_slot dt))
unfolding fill_default_value put_slot na_slot sexptype_from_datatype
fill_default_value_lem x DataType.unknown k h t b = absurd (h refl)
fill_default_value_lem x dt k h t b = rw (t, lt→ltb k (length x.slots) b)

-- Reading by a view and writing as the column's type is `widen`.
copy_as_lem :
    (rt : Runtime) (laws : IsRuntime rt) (st : Storage) (a dt : DataType) (x : Sexp) (s : Slot)
    (tgt src : ℕ)
    → st.block.type ≡ sexptype_from_datatype a
    → x.type ≡ sexptype_from_datatype dt
    → get_elem? st.block.slots src ≡ some s
    → has_view a s ≡ true
    → a ≢ DataType.unknown
    → fits a dt ≡ true
    → tgt < length x.slots
    → copy_as rt dt st x tgt src ≡ ok (written x tgt (widen rt dt s))
unfolding copy_as fits has_view widen sexptype_from_datatype
copy_as_lem rt laws st a DataType.int64 x (int64 z) tgt src ta tx e v na f b =
    ground (arith, laws.is_na_of_int64 z)
copy_as_lem rt laws st a dt x s tgt src ta tx e v na f b = ground arith

sexptype-ne-nil :
    (a : DataType) (t : SexpType)
    → a ≢ DataType.unknown
    → t ≡ sexptype_from_datatype a
    → (sexp_code t == sexp_code nilsxp) ≡ false
unfolding sexptype_from_datatype
sexptype-ne-nil DataType.unknown t h e = absurd (h refl)
sexptype-ne-nil a t h e = rw e

pub copy_value_lem :
    (rt : Runtime) (laws : IsRuntime rt) (st : Storage) (dt : DataType) (x : Sexp) (s : Slot)
    (tgt src : ℕ)
    → st.block.type ≡ sexptype_from_datatype st.dt
    → x.type ≡ sexptype_from_datatype dt
    → get_elem? st.block.slots src ≡ some s
    → has_view st.dt s ≡ true
    → st.dt ≢ DataType.unknown
    → fits st.dt dt ≡ true
    → tgt < length x.slots
    → copy_value rt st x dt tgt src ≡ ok (written x tgt (widen rt dt s))
unfolding copy_value
copy_value_lem rt laws st dt x s tgt src ta tx e v na f b =
    rw (sexptype-ne-nil st.dt st.block.type na ta)
      (copy_as_lem rt laws st st.dt dt x s tgt src ta tx e v na f b)
