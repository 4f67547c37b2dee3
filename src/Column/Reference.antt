-- ===== src/Column/Reference.antt =====
-- A description of a column that knows of no blocks: its type and its cells.
use rsqlite.Prelude.{
  suc, ◌≡◌, ◌≢◌, refl, ap, inl, inr, true, List, [], ◌∷◌, ◌++◌, length, if◌then◌else◌,
}
use rsqlite.DataType.{DataType, same_type, unknown-cases, not-unknown}
use rsqlite.Runtime.{Slot, Runtime}
use rsqlite.Source.{DataSource, Warning}
use rsqlite.Storage.Blocks.{fits, fits_self, fits-unknown}
use rsqlite.Storage.Writing.{cell, type_after, cell_warnings}
use rsqlite.Column.Contents.{fits-type_after}

-- The type after all rows, and the cells: each as the type that the column had when it was read.
unfoldable pub type_of_rows : DataType → List DataSource → DataType
type_of_rows dt [] = dt
type_of_rows dt (src ∷ srcs) = type_of_rows (type_after dt src) srcs

-- The type of the column that R gets; `now` is the cell at that time, whose declaration counts.
unfoldable pub final_type : DataType → List DataSource → DataSource → DataType
final_type dt srcs now =
    let seen = type_of_rows dt srcs in
    if same_type seen DataType.unknown then now.get_decl_data_type else seen

pub final_type-fits :
    (dt : DataType) (srcs : List DataSource) (now : DataSource)
    → fits (type_of_rows dt srcs) (final_type dt srcs now) ≡ true
unfolding final_type
final_type-fits dt srcs now = elim (unknown-cases (type_of_rows dt srcs)) [
  | inl e ↦ rw e (fits-unknown now.get_decl_data_type)
  | inr known ↦ rw (not-unknown (type_of_rows dt srcs) known) (fits_self (type_of_rows dt srcs))
]

pub final_type-known :
    (dt : DataType) (srcs : List DataSource) (now : DataSource)
    → now.get_decl_data_type ≢ DataType.unknown
    → final_type dt srcs now ≢ DataType.unknown
unfolding final_type
final_type-known dt srcs now h = elim (unknown-cases (type_of_rows dt srcs)) [
  | inl e ↦ rw e h
  | inr known ↦ rw (not-unknown (type_of_rows dt srcs) known) known
]

unfoldable pub cells : Runtime → DataType → DataType → List DataSource → List Slot
cells rt final dt [] = []
cells rt final dt (src ∷ srcs) =
    cell rt final (type_after dt src) src ∷ cells rt final (type_after dt src) srcs

unfoldable pub warnings_of_rows : DataType → List DataSource → List Warning
warnings_of_rows dt [] = []
warnings_of_rows dt (src ∷ srcs) =
    cell_warnings (type_after dt src) src ++ warnings_of_rows (type_after dt src) srcs

pub fits-type_of_rows :
    (a dt : DataType) (srcs : List DataSource)
    → fits a dt ≡ true
    → fits a (type_of_rows dt srcs) ≡ true
unfolding type_of_rows
fits-type_of_rows a dt [] h = h
fits-type_of_rows a dt (src ∷ srcs) h =
    fits-type_of_rows a (type_after dt src) srcs (fits-type_after a dt src h)

pub length-cells :
    (rt : Runtime) (final dt : DataType) (srcs : List DataSource)
    → length (cells rt final dt srcs) ≡ length srcs
unfolding cells
length-cells rt final dt [] = refl
length-cells rt final dt (src ∷ srcs) = ap suc (length-cells rt final (type_after dt src) srcs)
