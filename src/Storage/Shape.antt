-- ===== src/Storage/Shape.antt =====
-- Copying a block into a vector changes the vector's slots, never its type, length or attributes.
use rsqlite.Prelude.{
  ℕ, zero, suc, ◌≡◌, refl, ◌∙◌, Bool, true, false, ◌&&◌, ltb, ◌==◌, length, length-set,
  if◌then◌else◌,
}
use rsqlite.Outcome.{Error, Result, ok, stop, ◌>>=◌}
use rsqlite.DataType.{DataType}
use rsqlite.Runtime.{SexpType, nilsxp, intsxp, realsxp, Slot, Sexp, Runtime, sexp_code}
use rsqlite.Slots.{put_slot, fill_default_value}
use rsqlite.Storage.{Storage, get_capacity}
use rsqlite.Storage.Copy.{copy_int64, copy_real, copy_as, copy_value, copy_loop, fill_loop, copy_to}

-- Every result that is no error satisfies `P`.
pub data IfOk {ℓ} {A : Type ℓ} (P : A → Type 0) : Result A → Type ℓ where
  gave : {a : A} → P a → IfOk P (ok a)
  failed : {e : Error} → IfOk P (stop e)

module _ {ℓ κ} {A : Type ℓ} {B : Type κ} {Q : B → Type 0} where
  pub bind-IfOk :
      {P : A → Type 0} {r : Result A} {f : A → Result B}
      → IfOk P r
      → ((a : A) → P a → IfOk Q (f a))
      → IfOk Q (r >>= f)
  bind-IfOk (gave h) g = g _ h
  bind-IfOk failed g = failed

  pub then-IfOk : (r : Result A) {f : A → Result B} → ((a : A) → IfOk Q (f a)) → IfOk Q (r >>= f)
  then-IfOk (ok a) g = g a
  then-IfOk (stop e) g = failed

pub IfOk-map {ℓ} :
    {A : Type ℓ} {P Q : A → Type 0} {r : Result A} → IfOk P r → ((a : A) → P a → Q a) → IfOk Q r
IfOk-map (gave h) g = gave (g _ h)
IfOk-map failed g = failed

either-IfOk {ℓ} :
    {A : Type ℓ} {P : A → Type 0} (b : Bool) {x y : Result A}
    → IfOk P x
    → IfOk P y
    → IfOk P (if b then x else y)
either-IfOk true h g = h
either-IfOk false h g = g

-- `y` is `x` but for what is in the slots.
pub record IsShaped (x y : Sexp) : Type 0 where
  pub type : y.type ≡ x.type
  pub len : length y.slots ≡ length x.slots
  pub attributes : y.attributes ≡ x.attributes

pub IsShaped-refl : (x : Sexp) → IsShaped x x
IsShaped-refl x = record { type = refl; len = refl; attributes = refl }

pub IsShaped-trans : (x y z : Sexp) → IsShaped x y → IsShaped y z → IsShaped x z
IsShaped-trans x y z a b = record {
  type = b.type ∙ a.type;
  len = b.len ∙ a.len;
  attributes = b.attributes ∙ a.attributes;
}

put_slot-IsShaped :
    (t : SexpType) (x : Sexp) (k : ℕ) (v : Slot) → IfOk (IsShaped x) (put_slot t x k v)
unfolding put_slot
put_slot-IsShaped t x k v =
    either-IfOk (sexp_code t == sexp_code x.type)
      (either-IfOk (ltb k (length x.slots))
        (gave (record { type = refl; len = length-set x.slots k v; attributes = refl })) failed)
      failed

fill_default_value-IsShaped :
    (x : Sexp) (dt : DataType) (k : ℕ) → IfOk (IsShaped x) (fill_default_value x dt k)
unfolding fill_default_value
fill_default_value-IsShaped x DataType.unknown k = failed
fill_default_value-IsShaped x DataType.bool k = search put_slot-IsShaped
fill_default_value-IsShaped x DataType.int k = search put_slot-IsShaped
fill_default_value-IsShaped x DataType.int64 k = search put_slot-IsShaped
fill_default_value-IsShaped x DataType.real k = search put_slot-IsShaped
fill_default_value-IsShaped x DataType.date k = search put_slot-IsShaped
fill_default_value-IsShaped x DataType.datetime k = search put_slot-IsShaped
fill_default_value-IsShaped x DataType.datetimetz k = search put_slot-IsShaped
fill_default_value-IsShaped x DataType.time k = search put_slot-IsShaped
fill_default_value-IsShaped x DataType.string k = search put_slot-IsShaped
fill_default_value-IsShaped x DataType.blob k = search put_slot-IsShaped

copy_int64-IsShaped :
    (rt : Runtime) (t : SexpType) (st : Storage) (x : Sexp) (tgt src : ℕ)
    → IfOk (IsShaped x) (copy_int64 rt t st x tgt src)
unfolding copy_int64
copy_int64-IsShaped rt intsxp st x tgt src = search (then-IfOk, put_slot-IsShaped)
copy_int64-IsShaped rt realsxp st x tgt src = search (then-IfOk, put_slot-IsShaped)
copy_int64-IsShaped rt _ st x tgt src = gave (IsShaped-refl x)

copy_real-IsShaped :
    (rt : Runtime) (t : SexpType) (st : Storage) (x : Sexp) (tgt src : ℕ)
    → IfOk (IsShaped x) (copy_real rt t st x tgt src)
unfolding copy_real
copy_real-IsShaped rt intsxp st x tgt src = search (then-IfOk, put_slot-IsShaped)
copy_real-IsShaped rt realsxp st x tgt src = search (then-IfOk, put_slot-IsShaped)
copy_real-IsShaped rt _ st x tgt src = gave (IsShaped-refl x)

copy_as-IsShaped :
    (rt : Runtime) (dt : DataType) (st : Storage) (x : Sexp) (tgt src : ℕ)
    → IfOk (IsShaped x) (copy_as rt dt st x tgt src)
unfolding copy_as
copy_as-IsShaped rt DataType.unknown st x tgt src = failed
copy_as-IsShaped rt DataType.bool st x tgt src = search (then-IfOk, put_slot-IsShaped)
copy_as-IsShaped rt DataType.int st x tgt src = search (then-IfOk, put_slot-IsShaped)
copy_as-IsShaped rt DataType.int64 st x tgt src = copy_int64-IsShaped rt st.block.type st x tgt src
copy_as-IsShaped rt DataType.real st x tgt src = copy_real-IsShaped rt st.block.type st x tgt src
copy_as-IsShaped rt DataType.date st x tgt src = search (then-IfOk, put_slot-IsShaped)
copy_as-IsShaped rt DataType.datetime st x tgt src = search (then-IfOk, put_slot-IsShaped)
copy_as-IsShaped rt DataType.datetimetz st x tgt src = search (then-IfOk, put_slot-IsShaped)
copy_as-IsShaped rt DataType.time st x tgt src = search (then-IfOk, put_slot-IsShaped)
copy_as-IsShaped rt DataType.string st x tgt src = search (then-IfOk, put_slot-IsShaped)
copy_as-IsShaped rt DataType.blob st x tgt src = search (then-IfOk, put_slot-IsShaped)

copy_value-IsShaped :
    (rt : Runtime) (st : Storage) (x : Sexp) (dt : DataType) (tgt src : ℕ)
    → IfOk (IsShaped x) (copy_value rt st x dt tgt src)
unfolding copy_value
copy_value-IsShaped rt st x dt tgt src =
    either-IfOk (sexp_code st.block.type == sexp_code nilsxp) (fill_default_value-IsShaped x dt tgt)
      (copy_as-IsShaped rt dt st x tgt src)

-- The vector that a loop leaves, by the vector it starts with.
abbrev Leaves : Sexp → ℕ × ℕ × Sexp → Type 0
Leaves x (src, tgt, y) = IsShaped x y

Leaves-trans : (x y : Sexp) (z : ℕ × ℕ × Sexp) → IsShaped x y → Leaves y z → Leaves x z
Leaves-trans x y (src, tgt, z) h g = IsShaped-trans x y z h g

copy_loop-Leaves :
    (rt : Runtime) (f : ℕ) (st : Storage) (dt : DataType) (src tgt : ℕ) (x : Sexp)
    → IfOk (Leaves x) (copy_loop rt f st dt src tgt x)
unfolding copy_loop
copy_loop-Leaves rt zero st dt src tgt x = failed
copy_loop-Leaves rt (suc f) st dt src tgt x =
    either-IfOk (ltb src (get_capacity st) && (ltb src st.i && ltb tgt (length x.slots)))
      (bind-IfOk (copy_value-IsShaped rt st x dt tgt src) (λ y h.
        IfOk-map (copy_loop-Leaves rt f st dt (suc src) (suc tgt) y) (λ z. Leaves-trans x y z h)))
      (gave (IsShaped-refl x))

fill_loop-Leaves :
    (f : ℕ) (st : Storage) (dt : DataType) (src tgt : ℕ) (x : Sexp)
    → IfOk (Leaves x) (fill_loop f st dt src tgt x)
unfolding fill_loop
fill_loop-Leaves zero st dt src tgt x = failed
fill_loop-Leaves (suc f) st dt src tgt x =
    either-IfOk (ltb src st.i && ltb tgt (length x.slots))
      (bind-IfOk (fill_default_value-IsShaped x dt tgt) (λ y h.
        IfOk-map (fill_loop-Leaves f st dt (suc src) (suc tgt) y) (λ z. Leaves-trans x y z h)))
      (gave (IsShaped-refl x))

pub copy_to-IsShaped :
    (rt : Runtime) (st : Storage) (x : Sexp) (dt : DataType) (pos : ℕ)
    → IfOk (λ (y, n). IsShaped x y) (copy_to rt st x dt pos)
unfolding copy_to
copy_to-IsShaped rt st x dt pos =
    bind-IfOk (copy_loop-Leaves rt (suc st.i) st dt 0 pos x) (λ (src, tgt, y) h.
      bind-IfOk (fill_loop-Leaves (suc st.i) st dt src tgt y)
        (λ (last, end, z) g. gave (IsShaped-trans x y z h g)))
