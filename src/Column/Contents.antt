-- ===== src/Column/Contents.antt =====
-- A column holds one row for each call of set_col_value, in order, and hands them all to R.
use rsqlite.Prelude.{
  ◌≡◌, refl, sym, ap, ◌∙◌, inl, inr, Bool-cases, false, true, List, [], ◌∷◌, ◌++◌, append_assoc,
  append-nil, if◌then◌else◌, arith,
}
use mathlib.Core.Path.{ap₂, subst}
use rsqlite.Outcome.{ok}
use rsqlite.DataType.{DataType}
use rsqlite.Runtime.{Slot, Runtime, IsRuntime}
use rsqlite.Source.{DataSource}
use rsqlite.Storage.{Storage, Appended, get_item_data_type}
use rsqlite.Storage.Blocks.{All, IsBlock, IsTyped, fits, fits_self, fits-next_type}
use rsqlite.Storage.Appending.{append_col_lem}
use rsqlite.Storage.Writing.{cell, type_after, cell_warnings, shown_rows, IsAppended, All-append}
use rsqlite.Column.{DbColumn, insert, push_back, set_col_value}

-- The rows of the blocks, as a column of type `final` shows them.
abbrev pub shown_blocks : Runtime → DataType → List Storage → List Slot
shown_blocks rt final [] = []
shown_blocks rt final (st ∷ sts) = shown_rows rt final st ++ shown_blocks rt final sts

abbrev pub contents : Runtime → DataType → DbColumn → List Slot
contents rt final col = shown_blocks rt final col.front ++ shown_rows rt final col.last

-- Every block is well formed, and the last one's type takes in the others'.
pub record IsColumn (col : DbColumn) : Type 0 where
  pub blocks : All IsBlock col.front
  pub last_block : IsBlock col.last
  pub types : All (λ (st : Storage). fits st.dt col.last.dt ≡ true) col.front

pub shown_blocks-snoc :
    (rt : Runtime) (final : DataType) (sts : List Storage) (st : Storage)
    → shown_blocks rt final (sts ++ (st ∷ [])) ≡ shown_blocks rt final sts ++ shown_rows rt final st
shown_blocks-snoc rt final [] st = append-nil _
shown_blocks-snoc rt final (s ∷ sts) st =
    ap (◌++◌ (shown_rows rt final s)) (shown_blocks-snoc rt final sts st)
    ∙ sym (append_assoc (shown_rows rt final s) _ _)

pub fits-type_after :
    (a dt : DataType) (src : DataSource) → fits a dt ≡ true → fits a (type_after dt src) ≡ true
unfolding type_after
fits-type_after a dt src h = ground (arith, fits-next_type a dt src.get_data_type)

pub All-fits :
    (sts : List Storage) (a b : DataType)
    → ((c : DataType) → fits c a ≡ true → fits c b ≡ true)
    → All (λ (st : Storage). fits st.dt a ≡ true) sts
    → All (λ (st : Storage). fits st.dt b ≡ true) sts
All-fits [] a b h k = tt
All-fits (st ∷ sts) a b h k = (h st.dt k.0, All-fits sts a b h k.1)

-- What set_col_value leaves.
pub record IsExtended (rt : Runtime) (col : DbColumn) (src : DataSource) (next : DbColumn)
    : Type 0 where
  pub good : IsColumn next
  pub index : next.j ≡ col.j
  pub type : next.last.dt ≡ type_after col.last.dt src
  pub rows :
      (final : DataType)
      → fits (type_after col.last.dt src) final ≡ true
      → contents rt final next
        ≡ contents rt final col ++ (cell rt final (type_after col.last.dt src) src ∷ [])

-- The two results of push_back.
abbrev with_new : DbColumn → Storage → DbColumn
with_new col st = record col { front = col.front ++ (col.last ∷ []); last = st }

abbrev with_last : DbColumn → Storage → DbColumn
with_last col st = record col { last = st }

module _ (rt : Runtime) (col : DbColumn) (src : DataSource) (a : Appended) (good : IsColumn col)
    (r : IsAppended rt col.last src a) where
  still_fits : All (λ (st : Storage). fits st.dt a.storage.dt ≡ true) col.front
  still_fits =
      All-fits col.front col.last.dt a.storage.dt
        (λ c h. rw r.type (fits-type_after c col.last.dt src h)) good.types

  with_new-IsExtended : a.is_new ≡ true → IsExtended rt col src (with_new col a.storage)
  with_new-IsExtended e = record {
    good = record {
      blocks = All-append IsBlock col.front (col.last ∷ []) good.blocks (good.last_block, tt);
      last_block = r.block;
      types =
          All-append (λ (st : Storage). fits st.dt a.storage.dt ≡ true) col.front (col.last ∷ [])
            still_fits
            (rw r.type (fits-type_after col.last.dt col.last.dt src (fits_self col.last.dt)), tt);
    };
    index = refl;
    type = r.type;
    rows = λ final fit. ap₂ ◌++◌ (shown_blocks-snoc rt final col.front col.last) (
        r.rows final fit
        ∙ ap
            (λ b.
              (if b then [] else shown_rows rt final col.last)
              ++ (cell rt final (type_after col.last.dt src) src ∷ []))
            e);
  }

  with_last-IsExtended : a.is_new ≡ false → IsExtended rt col src (with_last col a.storage)
  with_last-IsExtended e = record {
    good = record { blocks = good.blocks; last_block = r.block; types = still_fits };
    index = refl;
    type = r.type;
    rows = λ final fit.
        ap (◌++◌ (shown_blocks rt final col.front)) (
          r.rows final fit
          ∙ ap
              (λ b.
                (if b then [] else shown_rows rt final col.last)
                ++ (cell rt final (type_after col.last.dt src) src ∷ []))
              e)
        ∙ sym (append_assoc (shown_blocks rt final col.front) (shown_rows rt final col.last) _);
  }

  push_back-IsExtended : IsExtended rt col src (push_back col a)
  unfolding push_back
  push_back-IsExtended = elim (Bool-cases a.is_new) [
    | inl e ↦
        subst (IsExtended rt col src)
          (sym (ap (λ b. if b then with_new col a.storage else with_last col a.storage) e))
          (with_new-IsExtended e)
    | inr e ↦
        subst (IsExtended rt col src)
          (sym (ap (λ b. if b then with_new col a.storage else with_last col a.storage) e))
          (with_last-IsExtended e)
  ]

-- set_col_value never fails; the column gets one row, and the warnings are the cell's.
pub set_col_value_lem :
    (rt : Runtime) (laws : IsRuntime rt) (col : DbColumn) (src : DataSource)
    → IsColumn col
    → IsTyped src
    → (next : DbColumn) × (set_col_value rt col src
        ≡ ok (next, cell_warnings (type_after col.last.dt src) src))
      × IsExtended rt col src next
unfolding set_col_value
set_col_value_lem rt laws col src good typed =
    let (a, e, r) = append_col_lem rt laws col.last src good.last_block typed in
    let seen = record col {
      data_types_seen = insert (get_item_data_type src) col.data_types_seen;
    } in
    let ext =
      push_back-IsExtended rt seen src a
        (record { blocks = good.blocks; last_block = good.last_block; types = good.types }) r in
    (
      push_back seen a,
      rw (e, r.warnings),
      record { good = ext.good; index = ext.index; type = ext.type; rows = ext.rows },
    )

-- For a well-formed column and a cell that has a type if it is not NULL, set_col_value does not
-- fail. The column stays well formed and keeps its index, has the type that the cell leads to, and
-- shows, in a vector of any type that takes this one in, its contents of before and then the cell;
-- the warnings are those of the conversion.
pub set_col_value-row :
    (rt : Runtime) (laws : IsRuntime rt) (col : DbColumn) (src : DataSource) (final : DataType)
    → IsColumn col
    → IsTyped src
    → fits (type_after col.last.dt src) final ≡ true
    → (next : DbColumn) × (set_col_value rt col src
        ≡ ok (next, cell_warnings (type_after col.last.dt src) src))
      × IsColumn next
      × (next.j ≡ col.j)
      × (next.last.dt ≡ type_after col.last.dt src)
      × (contents rt final next
          ≡ contents rt final col ++ (cell rt final (type_after col.last.dt src) src ∷ []))
set_col_value-row rt laws col src final good typed fit =
    let (next, e, ext) = set_col_value_lem rt laws col src good typed in
    (next, e, ext.good, ext.index, ext.type, ext.rows final fit)
