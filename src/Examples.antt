-- ===== src/Examples.antt =====
-- A concrete R, a concrete Boost, cells, and the theorems on them.
pub mod Cells
pub mod Columns
pub mod Results
pub mod Connections
pub mod Imports
pub mod Sessions
use rsqlite.Prelude.{
  ℕ, zero, suc, ◌+◌, ◌*◌, ◌^◌, ◌≤◌, ◌<◌, ◌≡◌, ◌≢◌, ◌↔◌, refl, sym, ℤ, pos, negsuc, Bool, true,
  false, Option, none, some, List, [], ◌∷◌, ◌++◌, map, length, replicate, length-replicate, eqb_ℤ,
  if◌then◌else◌, codes, arith,
}
use rsqlite.Outcome.{ok, stop, out_of_bounds}
use rsqlite.DataType.{DataType}
use rsqlite.Runtime.{
  SexpType, nilsxp, lglsxp, intsxp, realsxp, strsxp, vecsxp, rawsxp, othersxp, Slot, unset, Sexp,
  Runtime, IsRuntime, chars, na_string,
}
use rsqlite.Source.{DataSource, Warning}
use rsqlite.SqliteSource.{SqliteColumn, Boost, sqlite_source}
use rsqlite.SqliteSource.Types.{IsSqliteColumn}

-- Vectors that R allocates hold nothing yet.
abbrev alloc : SexpType → ℕ → List Slot
alloc nilsxp n = []
alloc lglsxp n = replicate n unset
alloc intsxp n = replicate n unset
alloc realsxp n = replicate n unset
alloc strsxp n = replicate n unset
alloc vecsxp n = replicate n unset
alloc rawsxp n = replicate n unset
alloc (othersxp t) n = replicate n unset

-- The double of 7, which the examples use, and 0 for other integers.
abbrev some_doubles : ℤ → ℕ
some_doubles z = if eqb_ℤ z (pos 7) then 0x401C000000000000 else 0

abbrev pub plain_r : Runtime
plain_r = record {
  alloc_vector = alloc;
  new_blob = λ x. x;
  new_hms = λ x. x;
  double_of_int = some_doubles;
  double_of_int64 = some_doubles;
  is_na = λ x. false;
}

length-alloc : (t : SexpType) (n : ℕ) → (t ≡ nilsxp → n ≡ 0) → length (alloc t n) ≡ n
length-alloc nilsxp n h = sym (h refl)
length-alloc lglsxp n h = length-replicate n _
length-alloc intsxp n h = length-replicate n _
length-alloc realsxp n h = length-replicate n _
length-alloc strsxp n h = length-replicate n _
length-alloc vecsxp n h = length-replicate n _
length-alloc rawsxp n h = length-replicate n _
length-alloc (othersxp t) n h = length-replicate n _

pub plain_r-IsRuntime : IsRuntime plain_r
plain_r-IsRuntime = record {
  alloc_nil = λ n. refl;
  alloc_length = length-alloc;
  blob_type = λ x. refl;
  blob_slots = λ x. refl;
  hms_type = λ x. refl;
  hms_slots = λ x. refl;
  is_na_of_int64 = λ z. refl;
}

-- A Boost that compares bytes and parses nothing.
abbrev pub plain_boost : Boost
plain_boost = record {
  iequals = λ a b. false;
  from_simple_string = λ s. none;
  parse_delimited_time = λ s. none;
  duration_from_string = λ s. none;
  double_of_long = some_doubles;
  times_1e_6 = some_doubles;
}

-- Cells of a column that is declared INTEGER: the values 7 and 2^40, 1.0, the text "a" and NULL.
abbrev pub seven : SqliteColumn
seven = record {
  column_type = 1;
  column_int = pos 7;
  column_int64 = pos 7;
  column_double = 0x401C000000000000;
  column_text = codes "7";
  column_blob = codes "7";
  column_decltype = some (codes "INTEGER");
}

abbrev pub big : SqliteColumn
big = record {
  column_type = 1;
  column_int = pos 0;
  column_int64 = pos (2 ^ 40);
  column_double = 0x4270000000000000;
  column_text = codes "1099511627776";
  column_blob = codes "1099511627776";
  column_decltype = some (codes "INTEGER");
}

abbrev pub missing : SqliteColumn
missing = record {
  column_type = 5;
  column_int = pos 0;
  column_int64 = pos 0;
  column_double = 0;
  column_text = [];
  column_blob = [];
  column_decltype = some (codes "INTEGER");
}

abbrev pub word : SqliteColumn
word = record {
  column_type = 3;
  column_int = pos 0;
  column_int64 = pos 0;
  column_double = 0;
  column_text = codes "abc";
  column_blob = codes "abc";
  column_decltype = some (codes "INTEGER");
}

pub word-IsSqliteColumn : IsSqliteColumn word
word-IsSqliteColumn = record { type_code = (omega arith, omega arith); narrow = λ h k. refl }

pub seven-IsSqliteColumn : IsSqliteColumn seven
seven-IsSqliteColumn = record { type_code = (omega arith, omega arith); narrow = λ h k. refl }

pub big-IsSqliteColumn : IsSqliteColumn big
big-IsSqliteColumn = record {
  type_code = (omega arith, omega arith);
  narrow = λ h k. absurd (omega (arith, k));
}

pub missing-IsSqliteColumn : IsSqliteColumn missing
missing-IsSqliteColumn = record { type_code = (omega arith, omega arith); narrow = λ h k. refl }

abbrev pub source : SqliteColumn → DataSource
source c = sqlite_source plain_boost false c
