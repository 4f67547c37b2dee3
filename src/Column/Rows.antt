-- ===== src/Column/Rows.antt =====
-- A column from its first row to R's vector, against a description that knows of no blocks.
use rsqlite.Prelude.{
  ℕ, ◌+◌, ◌≡◌, ◌≢◌, refl, sym, ap, ◌∙◌, ℤ, true, List, [], ◌∷◌, ◌++◌, append_assoc, append-nil,
  length, length-append, length-map, take, drop, take-append-drop, length-take, length-drop,
  if◌then◌else◌, arith,
}
use mathlib.Core.Path.{ap₂}
use rsqlite.Outcome.{ok}
use rsqlite.DataType.{DataType, same_type}
use rsqlite.Runtime.{Slot, Sexp, Runtime, IsRuntime}
use rsqlite.Source.{DataSource}
use rsqlite.Storage
use rsqlite.Storage.{Storage, new_storage, sexptype_from_datatype, allocate}
use rsqlite.Storage.Blocks.{All, IsBlock, IsTyped, fits, fits_self, fits_trans, rows, shown}
use rsqlite.Storage.Appending.{new_storage-rows}
use rsqlite.Storage.Writing.{cell, type_after, shown_rows, All-append}
use rsqlite.Storage.Growth.{new_storage-IsBlock, allocate-type, length-allocate}
use rsqlite.Storage.Layout.{copy_to_lem, length-rows}
use rsqlite.Storage.Loops.{with_slots}
use rsqlite.Column.{
  DbColumn, new_column, initial_type, set_rows, copy_blocks, to_sexp, get_type, finalize,
}
use rsqlite.Column.Contents.{
  IsColumn, contents, shown_blocks, shown_blocks-snoc, set_col_value_lem, All-fits,
}
use rsqlite.Column.Reference.{
  type_of_rows, final_type, final_type-fits, final_type-known, cells, warnings_of_rows,
  fits-type_of_rows, length-cells,
}

module _ (rt : Runtime) (laws : IsRuntime rt) where
  -- After the rows, the column's contents are those of before and the cells.
  pub set_rows_lem :
      (col : DbColumn) (srcs : List DataSource)
      → IsColumn col
      → All IsTyped srcs
      → (end : DbColumn) × (set_rows rt col srcs ≡ ok (end, warnings_of_rows col.last.dt srcs))
        × IsColumn end
        × (end.last.dt ≡ type_of_rows col.last.dt srcs)
        × ((final : DataType)
            → fits (type_of_rows col.last.dt srcs) final ≡ true
            → contents rt final end ≡ contents rt final col ++ cells rt final col.last.dt srcs)
  unfolding set_rows warnings_of_rows type_of_rows cells
  set_rows_lem col [] good typed = (col, refl, good, refl, λ final fit. sym (append-nil _))
  set_rows_lem col (src ∷ srcs) good typed =
      let (next, e, ext) = set_col_value_lem rt laws col src good typed.0 in
      let (end, run, good', type', rows') = set_rows_lem next srcs ext.good typed.1 in
      (
        end,
        rw (e, run, ext.type),
        good',
        type' ∙ ap (λ d. type_of_rows d srcs) ext.type,
        λ final fit.
            rows' final (rw ext.type fit)
            ∙ ap (λ l. l ++ cells rt final next.last.dt srcs)
                (ext.rows final (
                  fits_trans (type_after col.last.dt src)
                    (type_of_rows (type_after col.last.dt src) srcs) final
                    (fits-type_of_rows (type_after col.last.dt src) (type_after col.last.dt src)
                      srcs (fits_self (type_after col.last.dt src)))
                    fit))
            ∙ append_assoc (contents rt final col)
                (cell rt final (type_after col.last.dt src) src ∷ [])
                (cells rt final next.last.dt srcs)
            ∙ ap
                (λ d.
                  contents rt final col
                  ++ (cell rt final (type_after col.last.dt src) src ∷ cells rt final d srcs))
                ext.type,
      )

  -- All blocks, written one behind the other.
  copy_blocks_lem :
      (sts : List Storage) (dt : DataType) (x : Sexp) (p gap : List Slot) (pos : ℕ)
      → dt ≢ DataType.unknown
      → All IsBlock sts
      → All (λ (st : Storage). fits st.dt dt ≡ true) sts
      → x.type ≡ sexptype_from_datatype dt
      → x.slots ≡ p ++ gap
      → length p ≡ pos
      → length gap ≡ length (shown_blocks rt dt sts)
      → copy_blocks rt sts x dt pos ≡ ok (with_slots x (p ++ shown_blocks rt dt sts))
  unfolding copy_blocks
  copy_blocks_lem [] dt x p [] pos known blocks fit tx ex np len = ap (λ s. ok (with_slots x s)) ex
  copy_blocks_lem [] dt x p (g ∷ gap) pos known blocks fit tx ex np len = absurd (omega arith)
  copy_blocks_lem (st ∷ sts) dt x p gap pos known blocks fit tx ex np len =
      rw
        (copy_to_lem rt laws st dt blocks.0 fit.0 pos x p (take st.i gap) (drop st.i gap) known tx
          (ex ∙ ap (◌++◌ p) (sym (take-append-drop st.i gap))) np
          (omega (arith, total, length-take st.i gap)))
        (copy_blocks_lem sts dt (with_slots x (p ++ (shown_rows rt dt st ++ drop st.i gap)))
            (p ++ shown_rows rt dt st) (drop st.i gap) (pos + st.i) known blocks.1 fit.1 tx
            (sym (append_assoc p (shown_rows rt dt st) (drop st.i gap)))
            (omega (arith, length-append p (shown_rows rt dt st), here))
            (omega (arith, total, length-drop st.i gap))
          ∙ ap (λ s. ok (with_slots x s))
              (append_assoc p (shown_rows rt dt st) (shown_blocks rt dt sts)))
    where
      here : length (shown_rows rt dt st) ≡ st.i
      here = length-map (rows st) (shown rt dt) ∙ length-rows st

      total : length gap ≡ st.i + length (shown_blocks rt dt sts)
      total = omega (arith, len, length-append (shown_rows rt dt st) (shown_blocks rt dt sts), here)

  -- The vector for R: of the column's type, and with the rows as this type shows them.
  pub to_sexp_lem :
      (col : DbColumn) (src : DataSource) (final : DataType)
      → IsColumn col
      → get_type col src ≡ final
      → final ≢ DataType.unknown
      → fits col.last.dt final ≡ true
      → length (contents rt final col) ≡ col.n
      → (v : Sexp) × (to_sexp rt col src ≡ ok v)
        × (v.type ≡ sexptype_from_datatype final)
        × (v.slots ≡ contents rt final col)
  unfolding to_sexp
  to_sexp_lem col src final good type known fit len = (
    with_slots (allocate rt col.n final) (contents rt final col),
    rw type (
        copy_blocks_lem (col.front ++ (col.last ∷ [])) final (allocate rt col.n final) []
          (allocate rt col.n final).slots 0 known
          (All-append IsBlock col.front (col.last ∷ []) good.blocks (good.last_block, tt))
          (All-append (λ (st : Storage). fits st.dt final ≡ true) col.front (col.last ∷ [])
            (All-fits col.front col.last.dt final (λ c h. fits_trans c col.last.dt final h fit)
              good.types)
            (fit, tt))
          (allocate-type rt laws col.n final) refl refl
          (length-allocate rt laws col.n final known ∙ sym len ∙ sym (ap length all))
        ∙ ap (λ s. ok (with_slots (allocate rt col.n final) s)) all),
    allocate-type rt laws col.n final,
    refl,
  )
    where
      all : shown_blocks rt final (col.front ++ (col.last ∷ [])) ≡ contents rt final col
      all = shown_blocks-snoc rt final col.front col.last

  pub new_column-IsColumn :
      (dt : DataType) (n_max : ℤ) (j : ℕ) → IsColumn (new_column rt dt n_max j)
  unfolding new_column
  new_column-IsColumn dt n_max j = record {
    blocks = tt;
    last_block = new_storage-IsBlock rt laws (initial_type dt) 0 n_max;
    types = tt;
  }

  new_column-contents :
      (final dt : DataType) (n_max : ℤ) (j : ℕ) → contents rt final (new_column rt dt n_max j) ≡ []
  unfolding new_column
  new_column-contents final dt n_max j = new_storage-rows rt final (initial_type dt) 0 n_max

  pub new_column-type :
      (dt : DataType) (n_max : ℤ) (j : ℕ) → (new_column rt dt n_max j).last.dt ≡ initial_type dt
  unfolding new_column new_storage
  new_column-type dt n_max j = refl

  -- If every cell that is not NULL has a type, and the declared type is not DT_UNKNOWN, then
  -- filling a new column with one row after another and handing it to R does not fail, whatever the
  -- number of rows and the limit n_max. The vector has the type that the values seen decide, or the
  -- declared one if they decide none, and its k-th slot is the k-th cell, read as the column's type
  -- at that row and shown as the final type. The warnings are those of the cells' conversions, in
  -- order.
  pub column_of_rows :
      (dt : DataType) (n_max : ℤ) (j : ℕ) (srcs : List DataSource) (now : DataSource)
      → All IsTyped srcs
      → now.get_decl_data_type ≢ DataType.unknown
      → let final = final_type (initial_type dt) srcs now in
        (col : DbColumn) × (v : Sexp) × (set_rows rt (new_column rt dt n_max j) srcs
          ≡ ok (col, warnings_of_rows (initial_type dt) srcs))
        × (to_sexp rt (finalize col (length srcs)) now ≡ ok v)
        × (v.type ≡ sexptype_from_datatype final)
        × (v.slots ≡ cells rt final (initial_type dt) srcs)
  unfolding finalize get_type
  column_of_rows dt n_max j srcs now typed declared =
      let (col, run, good, type, rows) =
        set_rows_lem (new_column rt dt n_max j) srcs (new_column-IsColumn dt n_max j) typed in
      let full : contents rt final col ≡ cells rt final (initial_type dt) srcs =
        rows final (rw new_column-type (final_type-fits (initial_type dt) srcs now))
        ∙ ap₂ ◌++◌ (new_column-contents final dt n_max j)
            (ap (λ d. cells rt final d srcs) (new_column-type dt n_max j)) in
      let (v, e, t, s) =
        to_sexp_lem (finalize col (length srcs)) now final
          (record { blocks = good.blocks; last_block = good.last_block; types = good.types })
          (get_type-final col now
            (type ∙ ap (λ d. type_of_rows d srcs) (new_column-type dt n_max j)))
          (final_type-known (initial_type dt) srcs now declared)
          (rw (type, new_column-type) (final_type-fits (initial_type dt) srcs now))
          (ap length full ∙ length-cells rt final (initial_type dt) srcs) in
      (
        col,
        v,
        run ∙ ap (λ d. ok (col, warnings_of_rows d srcs)) (new_column-type dt n_max j),
        e,
        t,
        s ∙ full,
      )
    where
      final : DataType
      final = final_type (initial_type dt) srcs now

      get_type-final :
          (col : DbColumn) (now : DataSource)
          → col.last.dt ≡ type_of_rows (initial_type dt) srcs
          → get_type col now ≡ final_type (initial_type dt) srcs now
      get_type-final col now e =
          unfold get_type Storage.get_data_type final_type in
          ap (λ d. if same_type d DataType.unknown then now.get_decl_data_type else d) e
