-- ===== src/SqliteSource.antt =====
-- src/SqliteColumnDataSource.cpp and .h: a cell of the current row of a statement, as the library
-- SQLite reports it, behind the interface of src/DbColumnDataSource.h. What the code asks of SQLite
-- is the record SqliteColumn, what it asks of Boost the record Boost.
pub mod Types
use rsqlite.Prelude.{
  ℕ, ◌-◌, ◌^◌, ℤ, pos, negsuc, ltb_ℤ, Bool, true, false, ◌&&◌, ◌||◌, Option, none, some, List, [],
  ◌∷◌, ◌==◌, codes, if◌then◌else◌,
}
use rsqlite.DataType.{DataType, same_type}
use rsqlite.Runtime.{Chars, chars, Element, raw, na_real}
use rsqlite.Source.{DataSource, Warning, unknown_string_format, cannot_convert_blob}
use rsqlite.Affinity.{Affinity, affinity_type}

-- sqlite3_column_type, _int, _int64, _double, _text, _blob and _decltype at one column. The blob is
-- as long as sqlite3_column_bytes says.
pub record SqliteColumn : Type 0 where
  pub column_type : ℕ
  pub column_int : ℤ
  pub column_int64 : ℤ
  pub column_double : ℕ
  pub column_text : List ℕ
  pub column_blob : List ℕ
  pub column_decltype : Option (List ℕ)

-- The type codes of the library's header.
abbrev pub sqlite_integer : ℕ
sqlite_integer = 1

abbrev pub sqlite_float : ℕ
sqlite_float = 2

abbrev pub sqlite_text : ℕ
sqlite_text = 3

abbrev pub sqlite_blob : ℕ
sqlite_blob = 4

abbrev pub sqlite_null : ℕ
sqlite_null = 5

-- Boost's parsers give the days, or the microseconds, since 1970-01-01 or of a duration; `none` is
-- an exception. The last two are the processor's: a number of days as a double, and a product with
-- 1e-6.
pub record Boost : Type 0 where
  pub iequals : List ℕ → List ℕ → Bool
  pub from_simple_string : List ℕ → Option ℤ
  pub parse_delimited_time : List ℕ → Option ℤ
  pub duration_from_string : List ℕ → Option ℤ
  pub double_of_long : ℤ → ℕ
  pub times_1e_6 : ℤ → ℕ

unfoldable pub needs_64_bit : ℤ → Bool
needs_64_bit ret = ltb_ℤ ret (negsuc (2 ^ 31 - 1)) || ltb_ℤ (pos (2 ^ 31 - 1)) ret

unfoldable pub type_of_affinity : Affinity → DataType
type_of_affinity Affinity.integer = DataType.int
type_of_affinity Affinity.numeric = DataType.real
type_of_affinity Affinity.real = DataType.real
type_of_affinity Affinity.text = DataType.string
type_of_affinity Affinity.blob = DataType.blob

-- A parsed text, or the warning and NA.
abbrev parsed : Option ℕ → ℕ × List Warning
parsed none = (na_real, unknown_string_format ∷ [])
parsed (some x) = (x, [])

abbrev map_option : (ℤ → ℕ) → Option ℤ → Option ℕ
map_option f none = none
map_option f (some z) = some (f z)

-- The three ways of fetch_date(), fetch_datetime_local() and fetch_time().
unfoldable pub fetch_parsed : ℕ → Option ℕ → ℕ → ℕ × List Warning
fetch_parsed column_type text number =
    if column_type == sqlite_text
    then parsed text
    else if column_type == sqlite_blob
    then (na_real, cannot_convert_blob ∷ [])
    else (number, [])

-- the switch on the column's type
unfoldable pub type_of_value : SqliteColumn → DataType
type_of_value c =
    if c.column_type == sqlite_integer
    then if needs_64_bit c.column_int64 then DataType.int64 else DataType.int
    else if c.column_type == sqlite_float
    then DataType.real
    else if c.column_type == sqlite_text
    then DataType.string
    else if c.column_type == sqlite_blob
    then DataType.blob
    else DataType.unknown

module _ (boost : Boost) where
  unfoldable pub datatype_from_decltype : Option (List ℕ) → Bool → DataType
  datatype_from_decltype none with_alt_types = DataType.bool
  datatype_from_decltype (some decl_type) with_alt_types =
      let of_affinity = type_of_affinity (affinity_type (some decl_type)) in
      if with_alt_types
      then if boost.iequals decl_type (codes "datetime")
          || boost.iequals decl_type (codes "timestamp")
        then DataType.datetime
        else if boost.iequals decl_type (codes "date")
        then DataType.date
        else if boost.iequals decl_type (codes "time")
        then DataType.time
        else of_affinity
      else of_affinity

  unfoldable pub get_decl_data_type : Bool → SqliteColumn → DataType
  get_decl_data_type with_alt_types c = datatype_from_decltype c.column_decltype with_alt_types

  unfoldable pub get_data_type : Bool → SqliteColumn → DataType
  get_data_type with_alt_types c =
      let decl_dt = get_decl_data_type with_alt_types c in
      if with_alt_types
        && (same_type decl_dt DataType.date
            || same_type decl_dt DataType.datetime
            || same_type decl_dt DataType.time)
      then decl_dt
      else type_of_value c

  unfoldable pub fetch_date : SqliteColumn → ℕ × List Warning
  fetch_date c =
      fetch_parsed c.column_type
        (map_option boost.double_of_long (boost.from_simple_string c.column_text))
        (boost.double_of_long c.column_int)

  unfoldable pub fetch_datetime_local : SqliteColumn → ℕ × List Warning
  fetch_datetime_local c =
      fetch_parsed c.column_type
        (map_option boost.times_1e_6 (boost.parse_delimited_time c.column_text)) c.column_double

  unfoldable pub fetch_time : SqliteColumn → ℕ × List Warning
  fetch_time c =
      fetch_parsed c.column_type
        (map_option boost.times_1e_6 (boost.duration_from_string c.column_text)) c.column_double

  -- The virtual functions, in one value.
  unfoldable pub sqlite_source : Bool → SqliteColumn → DataSource
  sqlite_source with_alt_types c = record {
    get_data_type = get_data_type with_alt_types c;
    get_decl_data_type = get_decl_data_type with_alt_types c;
    is_null = c.column_type == sqlite_null;
    fetch_bool = pos 0;
    fetch_int = c.column_int;
    fetch_int64 = c.column_int64;
    fetch_real = c.column_double;
    fetch_string = chars c.column_text;
    fetch_blob = raw c.column_blob;
    fetch_date = fetch_date c;
    fetch_datetime_local = fetch_datetime_local c;
    fetch_datetime = 0;
    fetch_time = fetch_time c;
  }
