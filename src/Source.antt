-- ===== src/Source.antt =====
-- src/DbColumnDataSource.h: the interface by which a column reads its cell of the current row. The
-- three conversions that parse text may raise R warnings, which they return beside the double.
use rsqlite.Prelude.{ℕ, ℤ, Bool, List}
use rsqlite.DataType.{DataType}
use rsqlite.Runtime.{Chars, Element}

pub data Warning : Type 0 where
  unknown_string_format cannot_convert_blob : Warning

pub record DataSource : Type 0 where
  pub get_data_type : DataType
  pub get_decl_data_type : DataType
  pub is_null : Bool
  pub fetch_bool : ℤ
  pub fetch_int : ℤ
  pub fetch_int64 : ℤ
  pub fetch_real : ℕ
  pub fetch_string : Chars
  pub fetch_blob : Element
  pub fetch_date : ℕ × List Warning
  pub fetch_datetime_local : ℕ × List Warning
  pub fetch_datetime : ℕ
  pub fetch_time : ℕ × List Warning
