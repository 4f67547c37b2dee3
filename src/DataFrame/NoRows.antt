-- ===== src/DataFrame/NoRows.antt =====
-- A frame that has taken in rows but does not count them hands R no rows.
use rsqlite.Prelude.{
  ℕ, suc, ◌+◌, ◌≡◌, ◌≢◌, refl, sym, ap, ◌∙◌, ℤ, Bool, false, ◌&&◌, ltb, List, [], ◌∷◌, ◌++◌, map,
  length, arith, if◌then◌else◌,
}
use mathlib.Core.Path.{ap₂}
use rsqlite.Outcome.{ok}
use rsqlite.DataType.{DataType, same_type}
use rsqlite.Runtime.{Sexp, Runtime, IsRuntime}
use rsqlite.Source.{DataSource, Warning}
use rsqlite.Storage
use rsqlite.Storage.{Storage, allocate, get_capacity}
use rsqlite.Storage.Copy.{copy_to, copy_loop, fill_loop}
use rsqlite.Storage.Blocks.{All, IsTyped}
use rsqlite.Storage.Growth.{length-allocate}
use rsqlite.Column.{
  DbColumn, new_column, initial_type, set_rows, copy_blocks, to_sexp, finalize, get_type,
}
use rsqlite.Column.Rows.{set_rows_lem, new_column-IsColumn, new_column-type}
use rsqlite.Column.Reference.{final_type, final_type-known, type_of_rows}
use rsqlite.DataFrame.{Row, new_columns, to_sexps}
use rsqlite.DataFrame.ByColumn.{IsTypedRow, cells_at, All-cells_at, ByColumn}

-- The types that the columns have after the rows.
unfoldable pub final_types : ℕ → List DataType → List Row → Row → List DataType
final_types j [] rows now = []
final_types j (dt ∷ types) rows now =
    final_type (initial_type dt) (cells_at j rows) (now j) ∷ final_types (suc j) types rows now

no_room : (a b : Bool) (n t : ℕ) → n ≡ 0 → (a && (b && ltb t n)) ≡ false
no_room a b n t h = ground arith

no_place : (b : Bool) (n t : ℕ) → n ≡ 0 → (b && ltb t n) ≡ false
no_place b n t h = ground arith

no_slots : {A : Type 0} (xs : List A) → length xs ≡ 0 → xs ≡ []
no_slots [] h = refl
no_slots (x ∷ xs) h = absurd (omega (arith, h))

module _ (rt : Runtime) (laws : IsRuntime rt) where
  copy_to-no_slots :
      (st : Storage) (x : Sexp) (dt : DataType) (pos : ℕ)
      → length x.slots ≡ 0
      → copy_to rt st x dt pos ≡ ok (x, 0)
  unfolding copy_to copy_loop fill_loop
  copy_to-no_slots st x dt pos h =
      rw
        (
          no_room (ltb 0 (get_capacity st)) (ltb 0 st.i) (length x.slots) pos h,
          no_place (ltb 0 st.i) (length x.slots) pos h,
        )
        refl

  copy_blocks-no_slots :
      (sts : List Storage) (x : Sexp) (dt : DataType) (pos : ℕ)
      → length x.slots ≡ 0
      → copy_blocks rt sts x dt pos ≡ ok x
  unfolding copy_blocks
  copy_blocks-no_slots [] x dt pos h = refl
  copy_blocks-no_slots (st ∷ sts) x dt pos h =
      rw (copy_to-no_slots st x dt pos h) (copy_blocks-no_slots sts x dt (pos + 0) h)

  -- A column whose type is known, cut to no rows.
  to_sexp-no_rows :
      (col : DbColumn) (src : DataSource)
      → get_type col src ≢ DataType.unknown
      → (v : Sexp) × (to_sexp rt (finalize col 0) src ≡ ok v) × (v.slots ≡ [])
  unfolding to_sexp finalize get_type
  to_sexp-no_rows col src known =
      let x : Sexp = allocate rt 0 (get_type col src) in
      let none : length x.slots ≡ 0 = length-allocate rt laws 0 (get_type col src) known in
      (
        x,
        copy_blocks-no_slots (col.front ++ (col.last ∷ [])) x (get_type col src) 0 none,
        no_slots x.slots none,
      )

  get_type_lem :
      (dt : DataType) (n_max : ℤ) (j : ℕ) (srcs : List DataSource) (now : DataSource)
      (col : DbColumn) (w : List Warning)
      → All IsTyped srcs
      → set_rows rt (new_column rt dt n_max j) srcs ≡ ok (col, w)
      → get_type col now ≡ final_type (initial_type dt) srcs now
  unfolding get_type Storage.get_data_type final_type
  get_type_lem dt n_max j srcs now col w typed run =
      let (end, run', good, type, rows) =
        set_rows_lem rt laws (new_column rt dt n_max j) srcs
          (new_column-IsColumn rt laws dt n_max j) typed in
      let same : col ≡ end = cc (run, run') in
      let seen : col.last.dt ≡ type_of_rows (initial_type dt) srcs =
        ap (λ (c : DbColumn). c.last.dt) same
        ∙ type
        ∙ ap (λ d. type_of_rows d srcs) (new_column-type rt laws dt n_max j) in
      ap (λ d. if same_type d DataType.unknown then now.get_decl_data_type else d) seen

  pub no_rows_lem :
      (n_max : ℤ) (types : List DataType) (rows : List Row) (now : Row) (j : ℕ)
      (ends : List DbColumn)
      → All IsTypedRow rows
      → ((k : ℕ) → (now k).get_decl_data_type ≢ DataType.unknown)
      → ByColumn rt laws rows (new_columns rt n_max j types) ends
      → (vs : List Sexp) × (to_sexps rt (map (λ c. finalize c 0) ends) now ≡ ok vs)
        × (map (λ (v : Sexp). v.slots) vs ≡ map (λ dt. []) types)
        × (map (λ (c : DbColumn). get_type c (now c.j)) (map (λ c. finalize c 0) ends)
            ≡ final_types j types rows now)
  unfolding to_sexps new_columns new_column finalize final_types get_type
  no_rows_lem n_max [] rows now j [] typed declared by = ([], refl, refl, refl)
  no_rows_lem n_max [] rows now j (e ∷ ends) typed declared by = absurd by
  no_rows_lem n_max (dt ∷ types) rows now j [] typed declared by = absurd by
  no_rows_lem n_max (dt ∷ types) rows now j (e ∷ ends) typed declared by =
      let type : get_type e (now e.j) ≡ final_type (initial_type dt) (cells_at j rows) (now j) =
        ap (λ k. get_type e (now k)) by.1
        ∙ get_type_lem dt n_max j (cells_at j rows) (now j) e by.0.0 (All-cells_at j rows typed)
            by.0.1 in
      let (v, out, none) = to_sexp-no_rows e (now e.j) (λ h.
        final_type-known (initial_type dt) (cells_at j rows) (now j) (declared j) (sym type ∙ h)) in
      let (vs, outs, all, later) =
        no_rows_lem n_max types rows now (suc j) ends typed declared by.2 in
      (v ∷ vs, rw (out, outs) refl, ap₂ ◌∷◌ none all, ap₂ ◌∷◌ type later)
