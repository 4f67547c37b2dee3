-- ===== src/SqliteSource/Types.antt =====
-- What the types of a SQLite cell guarantee to the column that reads it.
use rsqlite.Prelude.{
  ℕ, ◌-◌, ◌^◌, ◌≤◌, ◌≡◌, ◌≢◌, refl, sym, ◌↔◌, ◌⊎◌, inl, inr, ◌∙◌, ap, Bool-cases, codes, ◌||◌,
  if◌then◌else◌, ℤ, pos, negsuc, ◌≤ℤ◌, Bool, false, Option, none, some, List, map, arith,
}
use mathlib.Core.Path.{subst}
use rsqlite.DataType.{DataType}
use rsqlite.Runtime.{Slot, int, int64, Runtime}
use rsqlite.Affinity.{Affinity, affinity_type, to_lower}
use rsqlite.Affinity.Table.{contains, by_table, affinity_type-by_table}
use rsqlite.Storage.Blocks.{IsTyped, widen, na_slot, value_slot}
use rsqlite.Storage.Writing.{cell}
use rsqlite.SqliteSource
use rsqlite.SqliteSource.{
  SqliteColumn, Boost, sqlite_integer, sqlite_null, needs_64_bit, type_of_affinity,
  datatype_from_decltype, get_decl_data_type, type_of_value, sqlite_source,
}

-- Documented of SQLite: five codes; sqlite3_column_int is the value itself if it fits 32 bits.
pub record IsSqliteColumn (c : SqliteColumn) : Type 0 where
  pub type_code : (1 ≤ c.column_type) × (c.column_type ≤ 5)
  pub narrow :
      negsuc (2 ^ 31 - 1) ≤ℤ c.column_int64
      → c.column_int64 ≤ℤ pos (2 ^ 31 - 1)
      → c.column_int ≡ c.column_int64

-- needs_64_bit is false exactly for what a 32-bit integer holds.
needs_64_bit_iff :
    (z : ℤ) → (needs_64_bit z ≡ false) ↔ ((negsuc (2 ^ 31 - 1) ≤ℤ z) × (z ≤ℤ pos (2 ^ 31 - 1)))
unfolding needs_64_bit
needs_64_bit_iff (pos n) = ground arith
needs_64_bit_iff (negsuc n) = ground arith

type_of_affinity-known : (a : Affinity) → type_of_affinity a ≢ DataType.unknown
unfolding type_of_affinity
type_of_affinity-known Affinity.integer e = cc
type_of_affinity-known a e = cc

decltype-known :
    (boost : Boost) (decl : Option (List ℕ)) (alt : Bool)
    → datatype_from_decltype boost decl alt ≢ DataType.unknown
unfolding datatype_from_decltype
decltype-known boost none alt e = cc
decltype-known boost (some d) alt e =
    ground (arith, type_of_affinity-known (affinity_type (some d)))

-- A declaration always gives a type; a column with none gives DT_BOOL.
pub decl_type-known :
    (boost : Boost) (alt : Bool) (c : SqliteColumn)
    → (sqlite_source boost alt c).get_decl_data_type ≢ DataType.unknown
unfolding sqlite_source get_decl_data_type
decl_type-known boost alt c = decltype-known boost c.column_decltype alt

-- If SQLite reports one of its five type codes, a cell that is not NULL has a type, with and
-- without the extended types.
pub sqlite_source-IsTyped :
    (boost : Boost) (alt : Bool) (c : SqliteColumn)
    → IsSqliteColumn c
    → IsTyped (sqlite_source boost alt c)
unfolding sqlite_source SqliteSource.get_data_type type_of_value
sqlite_source-IsTyped boost alt c laws value e =
    ground (arith, laws.type_code, decl_type-known boost alt c)

-- The type that a column should have by the text of its declaration in lower case: by the table of
-- affinities, an integer, a text, a blob, and a double for all else.
unfoldable pub declared_type : List ℕ → DataType
declared_type t =
    if contains (codes "int") t
    then DataType.int
    else if contains (codes "char") t || contains (codes "clob") t || contains (codes "text") t
    then DataType.string
    else if contains (codes "blob") t
    then DataType.blob
    else DataType.real

type_of_affinity-by_table : (t : List ℕ) → type_of_affinity (by_table t) ≡ declared_type t
unfolding type_of_affinity by_table declared_type
type_of_affinity-by_table t = ground arith

-- Without the extended types the declared type of a column is an integer if its declaration, in
-- lower case, contains "int", else a text if it contains "char", "clob" or "text", else a blob if it
-- contains "blob", and else a double.
pub decltype-by_table :
    (boost : Boost) (decl : List ℕ)
    → datatype_from_decltype boost (some decl) false ≡ declared_type (map to_lower decl)
unfolding datatype_from_decltype
decltype-by_table boost decl =
    ap type_of_affinity (affinity_type-by_table decl)
    ∙ type_of_affinity-by_table (map to_lower decl)

-- What a cell of type INTEGER with the value `z` should be: an integer of 32 bits if it is one, and
-- else one of 64 bits, with this value.
abbrev pub IsShownAs : ℤ → DataType → Slot → Type 0
IsShownAs z dt shown =
    ((dt ≡ DataType.int)
      × ((shown ≡ int z) × ((negsuc (2 ^ 31 - 1) ≤ℤ z) × (z ≤ℤ pos (2 ^ 31 - 1)))))
    ⊎ ((dt ≡ DataType.int64)
        × ((shown ≡ int64 z) × ¬ ((negsuc (2 ^ 31 - 1) ≤ℤ z) × (z ≤ℤ pos (2 ^ 31 - 1)))))

abbrev pub IsNaValue : ℤ → Type 0
IsNaValue z = (z ≡ negsuc (2 ^ 31 - 1)) ⊎ (z ≡ negsuc (2 ^ 63 - 1))

low : negsuc (2 ^ 31 - 1) ≤ℤ negsuc (2 ^ 63 - 1) → ⊥
low h = omega (arith, h)

narrow_na : (z : ℤ) → negsuc (2 ^ 31 - 1) ≤ℤ z → (int z ≡ na_slot DataType.int) ↔ IsNaValue z
unfolding na_slot
narrow_na z h = (
  (λ e. inl (cc e)),
  (λ k. elim k [
    | inl e ↦ ap int e
    | inr e ↦ absurd (low (subst (λ y. negsuc (2 ^ 31 - 1) ≤ℤ y) e h))
  ]),
)

least_fits :
    (negsuc (2 ^ 31 - 1) ≤ℤ negsuc (2 ^ 31 - 1)) × (negsuc (2 ^ 31 - 1) ≤ℤ pos (2 ^ 31 - 1))
least_fits = (omega arith, omega arith)

wide_na :
    (z : ℤ)
    → ¬ ((negsuc (2 ^ 31 - 1) ≤ℤ z) × (z ≤ℤ pos (2 ^ 31 - 1)))
    → (int64 z ≡ na_slot DataType.int64) ↔ IsNaValue z
unfolding na_slot
wide_na z h = (
  (λ e. inr (cc e)),
  (λ k. elim k [
    | inl e ↦
        absurd
          (h (subst (λ y. (negsuc (2 ^ 31 - 1) ≤ℤ y) × (y ≤ℤ pos (2 ^ 31 - 1))) (sym e) least_fits))
    | inr e ↦ ap int64 e
  ]),
)

-- Without the extended types, and if sqlite3_column_int keeps what fits 32 bits, an INTEGER cell of
-- 32 bits is typed and shown as one with its value, every other one as one of 64 bits with its
-- value, each in a column of its type; and R sees a missing value exactly for the values -2^31
-- and -2^63.
pub int_cell :
    (rt : Runtime) (boost : Boost) (c : SqliteColumn)
    → IsSqliteColumn c
    → c.column_type ≡ sqlite_integer
    → let dt = (sqlite_source boost false c).get_data_type in
      let shown = cell rt dt dt (sqlite_source boost false c) in
      IsShownAs c.column_int64 dt shown × ((shown ≡ na_slot dt) ↔ IsNaValue c.column_int64)
unfolding cell widen value_slot sqlite_source SqliteSource.get_data_type type_of_value
int_cell rt boost c laws is_int = elim (Bool-cases (needs_64_bit c.column_int64)) [
  | inr e ↦
      let fits = (needs_64_bit_iff c.column_int64).0 e in
      rw (is_int, e, laws.narrow fits.0 fits.1)
        (inl (refl, (refl, fits)), narrow_na c.column_int64 fits.0)
  | inl e ↦
      let wide : ¬ (
          (negsuc (2 ^ 31 - 1) ≤ℤ c.column_int64) × (c.column_int64 ≤ℤ pos (2 ^ 31 - 1))) =
        λ fits. cc ((needs_64_bit_iff c.column_int64).1 fits, e) in
      rw (is_int, e) (inr (refl, (refl, wide)), wide_na c.column_int64 wide)
]
