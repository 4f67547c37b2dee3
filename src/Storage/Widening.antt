-- ===== src/Storage/Widening.antt =====
-- Which values fit a block, and which types widen it.
use rsqlite.Prelude.{
  ℕ, suc, ◌<◌, ◌≡◌, ◌≢◌, refl, ◌⊎◌, inl, inr, Bool, false, true, ◌&&◌, length, lt→ltb, ==_refl,
  arith,
}
use rsqlite.Outcome.{ok}
use rsqlite.DataType.{DataType, same_type}
use rsqlite.Runtime.{Slot, Sexp, SexpType, sexp_code}
use rsqlite.Source.{DataSource}
use rsqlite.Slots.{put_slot}
use rsqlite.Storage.{Storage, sexptype_from_datatype, get_capacity, fetched, fetch_value}
use rsqlite.Storage.Blocks.{next_type, value_slot, value_warnings}
use rsqlite.Storage.Rendering.{written}

-- The block after a value went into its vector.
abbrev pub stored : Storage → DataSource → Storage
stored st src = record st { block = written st.block st.i (value_slot st.dt src); i = suc st.i }

fetched_lem :
    (dt : DataType) (src : DataSource)
    → dt ≢ DataType.unknown
    → fetched dt src ≡ ok (sexptype_from_datatype dt, value_slot dt src, value_warnings dt src)
unfolding fetched sexptype_from_datatype value_slot value_warnings
fetched_lem DataType.unknown src known = absurd (known refl)
fetched_lem dt src known = refl

put_slot_lem :
    (t : SexpType) (x : Sexp) (k : ℕ) (v : Slot)
    → x.type ≡ t
    → k < length x.slots
    → put_slot t x k v ≡ ok (written x k v)
unfolding put_slot
put_slot_lem t x k v e h = rw (e, ==_refl (sexp_code t), lt→ltb k (length x.slots) h)

pub fetch_value_lem :
    (st : Storage) (src : DataSource)
    → st.dt ≢ DataType.unknown
    → st.block.type ≡ sexptype_from_datatype st.dt
    → st.i < get_capacity st
    → fetch_value st src
      ≡ ok (
        record st { block = written st.block st.i (value_slot st.dt src) },
        value_warnings st.dt src,
      )
unfolding fetch_value
fetch_value_lem st src known kind h = rw (
  fetched_lem st.dt src known,
  put_slot_lem (sexptype_from_datatype st.dt) st.block st.i (value_slot st.dt src) kind h,
)

abbrev widens : DataType → DataType → DataType → Bool
widens dt new_dt wide = same_type dt DataType.int && same_type new_dt wide

-- The two tests for a wider type, by what `next_type` says.
pub stays :
    (dt new_dt : DataType)
    → next_type dt new_dt ≡ dt
    → dt ≢ DataType.unknown
    → (widens dt new_dt DataType.int64 ≡ false) × (widens dt new_dt DataType.real ≡ false)
unfolding next_type
stays DataType.unknown new_dt e h = absurd (h refl)
stays DataType.int new_dt e h = ground arith
stays dt new_dt e h = (refl, refl)

pub next_type-cases :
    (dt new_dt : DataType)
    → dt ≢ DataType.unknown
    → (next_type dt new_dt ≡ dt)
      ⊎ ((dt ≡ DataType.int) × (new_dt ≡ DataType.int64) × (next_type dt new_dt ≡ new_dt))
      ⊎ ((dt ≡ DataType.int) × (new_dt ≡ DataType.real) × (next_type dt new_dt ≡ new_dt))
unfolding next_type
next_type-cases DataType.unknown new_dt h = absurd (h refl)
next_type-cases DataType.int DataType.int64 h = inr (inl (refl, refl, refl))
next_type-cases DataType.int DataType.real h = inr (inr (refl, refl, refl))
next_type-cases DataType.int new_dt h = inl refl
next_type-cases dt new_dt h = inl refl

pub is_unknown : (dt : DataType) → dt ≡ DataType.unknown → same_type dt DataType.unknown ≡ true
is_unknown dt e = rw e

pub next_unknown : (dt new_dt : DataType) → dt ≡ DataType.unknown → next_type dt new_dt ≡ new_dt
unfolding next_type
next_unknown dt new_dt e = rw e

pub next_type_self : (dt : DataType) → next_type dt dt ≡ dt
unfolding next_type
next_type_self DataType.unknown = refl
next_type_self DataType.int = refl
next_type_self dt = refl

pub int-known : (dt : DataType) → dt ≡ DataType.int → dt ≢ DataType.unknown
int-known dt e u = cc

pub widens-int64 :
    (dt new_dt : DataType)
    → dt ≡ DataType.int
    → new_dt ≡ DataType.int64
    → widens dt new_dt DataType.int64 ≡ true
widens-int64 dt new_dt e w = rw (e, w)

pub widens-real :
    (dt new_dt : DataType)
    → dt ≡ DataType.int
    → new_dt ≡ DataType.real
    → (widens dt new_dt DataType.int64 ≡ false) × (widens dt new_dt DataType.real ≡ true)
widens-real dt new_dt e w = (rw (e, w), rw (e, w))
