-- ===== src/Column.antt =====
-- src/DbColumn.cpp and .h: a column of a result as a sequence of blocks. The vector `storage`, to
-- which the constructor adds the first block, is `front` and the block `last` at its end. The type
-- std::set is a list that ascends by the enumerators' values. A message is the texts that the code
-- writes to its stream.
pub mod Contents
pub mod Reference
pub mod Rows
pub mod Seen
pub mod Conflicts
pub mod Message
pub mod Mixed
use rsqlite.Prelude.{
  ℕ, ◌+◌, ℤ, String, Bool, true, false, Option, none, some, List, [], ◌∷◌, ◌++◌, ltb, ◌==◌,
  if◌then◌else◌,
}
use rsqlite.Outcome.{Result, ok, ◌>>=◌}
use rsqlite.DataType.{DataType, code, same_type}
use rsqlite.Runtime.{Sexp, Runtime}
use rsqlite.Source.{DataSource, Warning}
use rsqlite.Storage
use rsqlite.Storage.{Storage, Appended, allocate, new_storage, append_col, get_item_data_type}
use rsqlite.Storage.Copy.{copy_to}

pub record DbColumn : Type 0 where
  pub j : ℕ
  pub front : List Storage
  pub last : Storage
  pub n : ℕ
  pub data_types_seen : List DataType

-- std::set::insert and erase
unfoldable pub insert : DataType → List DataType → List DataType
insert dt [] = dt ∷ []
insert dt (s ∷ seen) =
    if ltb (code dt) (code s)
    then dt ∷ s ∷ seen
    else if same_type dt s
    then s ∷ seen
    else s ∷ insert dt seen

unfoldable pub erase : DataType → List DataType → List DataType
erase dt [] = []
erase dt (s ∷ seen) = if same_type dt s then seen else s ∷ erase dt seen

unfoldable pub format_data_type : DataType → String
format_data_type DataType.unknown = "unknown"
format_data_type DataType.bool = "boolean"
format_data_type DataType.int = "integer"
format_data_type DataType.int64 = "integer64"
format_data_type DataType.real = "real"
format_data_type DataType.string = "string"
format_data_type DataType.blob = "blob"
format_data_type _ = "<unknown type>"

-- The loop over the set: `first` says that no text stands before.
unfoldable pub list_types : Bool → List DataType → List String
list_types first [] = []
list_types first (t ∷ types) =
    (if first then [] else ", " ∷ []) ++ (format_data_type t ∷ list_types false types)

unfoldable pub get_type : DbColumn → DataSource → DataType
get_type col src = Storage.get_data_type col.last src

-- The types in `data_types_seen` that the column's type does not take in.
unfoldable pub conflicting_types : DataType → List DataType → List DataType
conflicting_types dt seen = erase dt (erase DataType.bool (erase DataType.unknown (without_int dt)))
  where
    without_int : DataType → List DataType
    without_int DataType.real = erase DataType.int seen
    without_int DataType.int64 = erase DataType.int seen
    without_int _ = seen

-- The warning, if there is one.
unfoldable pub warn_type_conflicts : DbColumn → DataSource → String → Option (List String)
warn_type_conflicts col src name =
    let dt = get_type col src in
    elim (conflicting_types dt col.data_types_seen) [
      | [] ↦ none
      | t ∷ types ↦ some (
          "Column `"
          ∷ name
          ∷ "`: "
          ∷ "mixed type, first seen values of type "
          ∷ format_data_type dt
          ∷ ", "
          ∷ "coercing other values of type "
          ∷ list_types true (t ∷ types))
    ]

unfoldable pub finalize : DbColumn → ℕ → DbColumn
finalize col n_ = record col { n = n_ }

-- The declared type DT_BOOL, of a column with no declaration, is no type to start with.
unfoldable pub initial_type : DataType → DataType
initial_type dt = if same_type dt DataType.bool then DataType.unknown else dt

-- A block that append_col() returned: in the place of the last one, or behind it.
unfoldable pub push_back : DbColumn → Appended → DbColumn
push_back col a =
    if a.is_new
    then record col { front = col.front ++ (col.last ∷ []); last = a.storage }
    else record col { last = a.storage }

module _ (rt : Runtime) where
  unfoldable pub new_column : DataType → ℤ → ℕ → DbColumn
  new_column dt n_max j = record {
    j = j;
    front = [];
    last = new_storage rt (initial_type dt) 0 n_max;
    n = 0;
    data_types_seen = [];
  }

  unfoldable pub set_col_value : DbColumn → DataSource → Result (DbColumn × List Warning)
  set_col_value col src = do
    let seen = insert (get_item_data_type src) col.data_types_seen
    a ← append_col rt col.last src
    ok (push_back (record col { data_types_seen = seen }) a, a.warnings)

  -- One call of set_col_value for each row of `srcs`.
  unfoldable pub set_rows : DbColumn → List DataSource → Result (DbColumn × List Warning)
  set_rows col [] = ok (col, [])
  set_rows col (src ∷ srcs) = do
    (next, warnings) ← set_col_value col src
    (end, more) ← set_rows next srcs
    ok (end, warnings ++ more)

  -- the loop `pos += current.copy_to(ret, dt, pos)`
  unfoldable pub copy_blocks : List Storage → Sexp → DataType → ℕ → Result Sexp
  copy_blocks [] ret dt pos = ok ret
  copy_blocks (current ∷ storage) ret dt pos =
      copy_to rt current ret dt pos >>= λ (ret', copied). copy_blocks storage ret' dt (pos + copied)

  -- operator SEXP
  unfoldable pub to_sexp : DbColumn → DataSource → Result Sexp
  to_sexp col src =
      let dt = get_type col src in
      copy_blocks (col.front ++ (col.last ∷ [])) (allocate rt col.n dt) dt 0
