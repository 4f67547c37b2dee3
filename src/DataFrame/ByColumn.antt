-- ===== src/DataFrame/ByColumn.antt =====
-- Filling a frame row by row is filling each of its columns on its own.
use rsqlite.Prelude.{
  ℕ, suc, ◌≡◌, ◌≢◌, refl, sym, ap, ◌∙◌, ℤ, List, [], ◌∷◌, ◌++◌, map, length, length-map,
}
use mathlib.Core.Path.{ap₂}
use rsqlite.Outcome.{ok}
use rsqlite.DataType.{DataType}
use rsqlite.Runtime.{Slot, Sexp, Runtime, IsRuntime}
use rsqlite.Source.{DataSource, Warning}
use rsqlite.Storage.Blocks.{All, IsTyped}
use rsqlite.Storage.Writing.{type_after, cell_warnings}
use rsqlite.Column.{DbColumn, new_column, initial_type, set_col_value, set_rows, to_sexp, finalize}
use rsqlite.Column.Contents.{IsColumn, set_col_value_lem}
use rsqlite.Column.Rows.{column_of_rows, new_column-IsColumn}
use rsqlite.Column.Reference.{cells, final_type}
use rsqlite.DataFrame.{Row, new_columns, set_columns, set_all_rows, to_sexps}

abbrev pub IsTypedRow : Row → Type 0
IsTypedRow row = (j : ℕ) → IsTyped (row j)

-- The cells of one column.
abbrev pub cells_at : ℕ → List Row → List DataSource
cells_at j rows = map (λ (row : Row). row j) rows

pub All-cells_at : (j : ℕ) (rows : List Row) → All IsTypedRow rows → All IsTyped (cells_at j rows)
All-cells_at j [] h = tt
All-cells_at j (row ∷ rows) h = (h.0 j, All-cells_at j rows h.1)

module _ (rt : Runtime) (laws : IsRuntime rt) where
  -- Each column of `ends` is what its own rows make of the column of `columns`.
  abbrev pub ByColumn : List Row → List DbColumn → List DbColumn → Type 0
  ByColumn rows [] [] = Unit {0}
  ByColumn rows [] (e ∷ ends) = ⊥
  ByColumn rows (c ∷ columns) [] = ⊥
  ByColumn rows (c ∷ columns) (e ∷ ends) =
      ((w : List Warning) × (set_rows rt c (cells_at c.j rows) ≡ ok (e, w)))
      × (e.j ≡ c.j)
      × ByColumn rows columns ends

  -- One row, for each column.
  abbrev Stepped : Row → List DbColumn → List DbColumn → Type 0
  Stepped row [] [] = Unit {0}
  Stepped row [] (e ∷ ends) = ⊥
  Stepped row (c ∷ columns) [] = ⊥
  Stepped row (c ∷ columns) (e ∷ ends) =
      (((w : List Warning) × (set_col_value rt c (row c.j) ≡ ok (e, w))) × (e.j ≡ c.j))
      × Stepped row columns ends

  pub set_columns_lem :
      (columns : List DbColumn) (row : Row)
      → All IsColumn columns
      → IsTypedRow row
      → (next : List DbColumn) × (w : List Warning) × (set_columns rt columns row ≡ ok (next, w))
        × All IsColumn next
        × Stepped row columns next
  unfolding set_columns
  set_columns_lem [] row good typed = ([], [], refl, tt, tt)
  set_columns_lem (c ∷ columns) row good typed =
      let (e, run, ext) = set_col_value_lem rt laws c (row c.j) good.0 (typed c.j) in
      let (rest, w, run', good', stepped) = set_columns_lem columns row good.1 typed in
      (
        e ∷ rest,
        cell_warnings (type_after c.last.dt (row c.j)) (row c.j) ++ w,
        rw (run, run'),
        (ext.good, good'),
        (((cell_warnings (type_after c.last.dt (row c.j)) (row c.j), run), ext.index), stepped),
      )

  pub ByColumn-nil : (columns : List DbColumn) → ByColumn [] columns columns
  ByColumn-nil [] = tt
  ByColumn-nil (c ∷ columns) = (([], unfold set_rows in refl), refl, ByColumn-nil columns)

  pub ByColumn-step :
      (row : Row) (rows : List Row) (columns next ends : List DbColumn)
      → Stepped row columns next
      → ByColumn rows next ends
      → ByColumn (row ∷ rows) columns ends
  ByColumn-step row rows [] [] [] s b = tt
  ByColumn-step row rows [] [] (e ∷ ends) s b = b
  ByColumn-step row rows [] (n ∷ next) ends s b = absurd s
  ByColumn-step row rows (c ∷ columns) [] ends s b = absurd s
  ByColumn-step row rows (c ∷ columns) (n ∷ next) [] s b = b
  ByColumn-step row rows (c ∷ columns) (n ∷ next) (e ∷ ends) s b = (
    (
      s.0.0.0 ++ b.0.0,
      unfold set_rows in
          rw s.0.0.1 (rw ((ap (λ j. set_rows rt n (cells_at j rows)) (sym s.0.1)) ∙ b.0.1)),
    ),
    b.1 ∙ s.0.1,
    ByColumn-step row rows columns next ends s.1 b.2,
  )

  -- For well-formed columns, and cells that have a type if they are not NULL, the loop over the
  -- rows does not fail, and leaves in each column what set_col_value makes of it from its own
  -- cells.
  pub set_all_rows-ByColumn :
      (columns : List DbColumn) (rows : List Row)
      → All IsColumn columns
      → All IsTypedRow rows
      → (ends : List DbColumn) × (w : List Warning) × (set_all_rows rt columns rows ≡ ok (ends, w))
        × ByColumn rows columns ends
  unfolding set_all_rows
  set_all_rows-ByColumn columns [] good typed = (columns, [], refl, ByColumn-nil columns)
  set_all_rows-ByColumn columns (row ∷ rows) good typed =
      let (next, w, run, good', stepped) = set_columns_lem columns row good typed.0 in
      let (ends, w', run', by) = set_all_rows-ByColumn next rows good' typed.1 in
      (ends, w ++ w', rw (run, run'), ByColumn-step row rows columns next ends stepped by)

  -- The columns that R should see: column `j` has the cells of index `j`.
  unfoldable pub frame_cells : ℕ → List DataType → List Row → Row → List (List Slot)
  frame_cells j [] rows now = []
  frame_cells j (dt ∷ types) rows now =
      cells rt (final_type (initial_type dt) (cells_at j rows) (now j)) (initial_type dt)
        (cells_at j rows)
      ∷ frame_cells (suc j) types rows now

  pub new_columns-IsColumn :
      (n_max : ℤ) (j : ℕ) (types : List DataType) → All IsColumn (new_columns rt n_max j types)
  unfolding new_columns
  new_columns-IsColumn n_max j [] = tt
  new_columns-IsColumn n_max j (dt ∷ types) =
      (new_column-IsColumn rt laws dt n_max j, new_columns-IsColumn n_max (suc j) types)

  to_sexps_lem :
      (n_max : ℤ) (types : List DataType) (rows : List Row) (now : Row) (j : ℕ)
      (ends : List DbColumn)
      → All IsTypedRow rows
      → ((k : ℕ) → (now k).get_decl_data_type ≢ DataType.unknown)
      → ByColumn rows (new_columns rt n_max j types) ends
      → (vs : List Sexp) × (to_sexps rt (map (λ c. finalize c (length rows)) ends) now ≡ ok vs)
        × (map (λ (v : Sexp). v.slots) vs ≡ frame_cells j types rows now)
  unfolding to_sexps frame_cells new_columns new_column finalize
  to_sexps_lem n_max [] rows now j [] typed declared by = ([], refl, refl)
  to_sexps_lem n_max [] rows now j (e ∷ ends) typed declared by = absurd by
  to_sexps_lem n_max (dt ∷ types) rows now j [] typed declared by = absurd by
  to_sexps_lem n_max (dt ∷ types) rows now j (e ∷ ends) typed declared by =
      let (col, v, run, out, t, slots) =
        column_of_rows rt laws dt n_max j (cells_at j rows) (now j) (All-cells_at j rows typed)
          (declared j) in
      let (vs, outs, all) = to_sexps_lem n_max types rows now (suc j) ends typed declared by.2 in
      (
        v ∷ vs,
        rw (same_sexp e col v (same_column e col by.0 run) by.1 out, outs),
        ap₂ ◌∷◌ slots all,
      )
    where
      same_column :
          (e col : DbColumn)
          → (w : List Warning) × (set_rows rt
                (new_column rt dt n_max j)
                (cells_at (new_column rt dt n_max j).j rows)
              ≡ ok (e, w))
          → {w : List Warning}
          → set_rows rt (new_column rt dt n_max j) (cells_at j rows) ≡ ok (col, w)
          → e ≡ col
      same_column e col (w, a) b = cc (a, b)

      same_sexp :
          (e col : DbColumn) (v : Sexp)
          → e ≡ col
          → e.j ≡ (new_column rt dt n_max j).j
          → to_sexp rt (finalize col (length (cells_at j rows))) (now j) ≡ ok v
          → to_sexp rt (finalize e (length rows)) (now (finalize e (length rows)).j) ≡ ok v
      same_sexp e col v p q out =
          let len : length rows ≡ length (cells_at j rows) =
            sym (length-map rows (λ (row : Row). row j)) in
          (λ i. to_sexp rt (finalize (p i) (len i)) (now (q i))) ∙ out

  -- If every cell that is not NULL has a type, and no declared type is DT_UNKNOWN, then a new frame
  -- that takes in rows does not fail and hands R, for each column, the cells of that column, one
  -- for each row and in order, shown as the column's final type.
  pub frame_of_rows :
      (n_max : ℤ) (types : List DataType) (rows : List Row) (now : Row)
      → All IsTypedRow rows
      → ((k : ℕ) → (now k).get_decl_data_type ≢ DataType.unknown)
      → (ends : List DbColumn) × (w : List Warning) × (vs : List Sexp) × (set_all_rows rt
            (new_columns rt n_max 0 types)
            rows
          ≡ ok (ends, w))
        × (to_sexps rt (map (λ c. finalize c (length rows)) ends) now ≡ ok vs)
        × (map (λ (v : Sexp). v.slots) vs ≡ frame_cells 0 types rows now)
  frame_of_rows n_max types rows now typed declared =
      let (ends, w, run, by) =
        set_all_rows-ByColumn (new_columns rt n_max 0 types) rows
          (new_columns-IsColumn n_max 0 types) typed in
      let (vs, out, slots) = to_sexps_lem n_max types rows now 0 ends typed declared by in
      (ends, w, vs, run, out, slots)
