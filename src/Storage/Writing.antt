-- ===== src/Storage/Writing.antt =====
-- What one row is in a column, and a block after a write at its end.
use rsqlite.Prelude.{
  ℕ, suc, ◌-◌, ◌≤◌, ◌<◌, ◌≡◌, ◌≢◌, sym, ap, Bool, false, true, none, some, Option, List, [], ◌∷◌,
  ◌++◌, map, append_assoc, append-nil, length, length-set, set, take, take-set, take-all, replicate,
  replicate-snoc, if◌then◌else◌, arith,
}
use mathlib.Core.List.{map-append}
use rsqlite.DataType.{DataType}
use rsqlite.Runtime.{Slot, Runtime}
use rsqlite.Source.{DataSource, Warning}
use rsqlite.Storage.{Storage, Appended, get_capacity}
use rsqlite.Storage.Blocks.{
  All, IsBlock, next_type, fits, has_view, na_slot, value_slot, value_warnings, widen, shown, rows,
}
use rsqlite.Storage.Rendering.{written}

-- What one row is in a column of type `final`, if it was stored as type `dt`.
unfoldable pub cell : Runtime → DataType → DataType → DataSource → Slot
cell rt final dt src = if src.is_null then na_slot final else widen rt final (value_slot dt src)

unfoldable pub type_after : DataType → DataSource → DataType
type_after dt src = if src.is_null then dt else next_type dt src.get_data_type

unfoldable pub cell_warnings : DataType → DataSource → List Warning
cell_warnings dt src = if src.is_null then [] else value_warnings dt src

abbrev pub shown_rows : Runtime → DataType → Storage → List Slot
shown_rows rt final st = map (shown rt final) (rows st)

abbrev earlier : Runtime → DataType → Storage → Bool → List Slot
earlier rt final st is_new = if is_new then [] else shown_rows rt final st

pub record IsAppended (rt : Runtime) (st : Storage) (src : DataSource) (a : Appended) : Type 0 where
  pub block : IsBlock a.storage
  pub type : a.storage.dt ≡ type_after st.dt src
  pub warnings : a.warnings ≡ cell_warnings (type_after st.dt src) src
  pub rows :
      (final : DataType)
      → fits (type_after st.dt src) final ≡ true
      → shown_rows rt final a.storage
        ≡ (if a.is_new then [] else shown_rows rt final st)
          ++ (cell rt final (type_after st.dt src) src ∷ [])

pub type_after-value :
    (dt : DataType) (src : DataSource)
    → src.is_null ≡ false
    → type_after dt src ≡ next_type dt src.get_data_type
unfolding type_after
type_after-value dt src value = ap (λ b. if b then dt else next_type dt src.get_data_type) value

pub cell_warnings-value :
    (dt : DataType) (src : DataSource)
    → src.is_null ≡ false
    → cell_warnings dt src ≡ value_warnings dt src
unfolding cell_warnings
cell_warnings-value dt src value = ap (λ b. if b then [] else value_warnings dt src) value

pub All-append {ℓ κ} :
    {A : Type ℓ} (P : A → Type κ) (xs ys : List A) → All P xs → All P ys → All P (xs ++ ys)
All-append P [] ys hx hy = hy
All-append P (x ∷ xs) ys hx hy = (hx.0, All-append P xs ys hx.1 hy)

-- A block after a write at its end.
abbrev pub put_last : Storage → Slot → Storage
put_last st v = record st { block = written st.block st.i v; i = suc st.i }

pub no_overflow : (n m : ℕ) → n ≤ m → replicate {A = Option Slot} (n - m) none ≡ []
no_overflow n m h = let e : n - m ≡ 0 = omega arith in rw e

pub rows-put_last :
    (st : Storage) (v : Slot)
    → st.i < get_capacity st
    → rows (put_last st v) ≡ rows st ++ (some v ∷ [])
unfolding rows
rows-put_last st v h = rw (
  take-set st.i st.block.slots v h,
  no_overflow st.i (length st.block.slots) (omega arith),
  no_overflow (suc st.i) (length (set st.block.slots st.i v))
      (omega (arith, length-set st.block.slots st.i v)),
  map-append,
  append-nil,
  append-nil,
)

pub put_last-IsBlock :
    (st : Storage) (v : Slot)
    → IsBlock st
    → st.dt ≢ DataType.unknown
    → st.i < get_capacity st
    → has_view st.dt v ≡ true
    → IsBlock (put_last st v)
put_last-IsBlock st v good known h view = record {
  kind = good.kind;
  views = rw (take-set st.i st.block.slots v h) (
      All-append (λ s. has_view st.dt s ≡ true) (take st.i st.block.slots) (v ∷ []) good.views
        (view, tt));
  empty = λ e. absurd (known e);
}

abbrev pub past_end : Storage → Storage
past_end st = record st { i = suc st.i }

pub rows-past_end :
    (st : Storage) → get_capacity st ≤ st.i → rows (past_end st) ≡ rows st ++ (none ∷ [])
unfolding rows
rows-past_end st h =
    let over : suc st.i - length st.block.slots ≡ suc (st.i - length st.block.slots) =
      omega arith in
    rw
      (
        take-all (suc st.i) st.block.slots (omega arith),
        take-all st.i st.block.slots h,
        over,
        replicate-snoc {A = Option Slot} (st.i - length st.block.slots) none,
      )
      (sym (append_assoc (map some st.block.slots) _ (none ∷ [])))

pub past_end-IsBlock : (st : Storage) → IsBlock st → get_capacity st ≤ st.i → IsBlock (past_end st)
past_end-IsBlock st good h = record {
  kind = good.kind;
  views =
      rw (take-all (suc st.i) st.block.slots (omega arith))
        (rw (take-all st.i st.block.slots h) at good.views);
  empty = good.empty;
}
