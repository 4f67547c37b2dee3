-- ===== src/Extensions.antt =====
-- src/extensions.cpp, src/has_http_vfs.cpp, src/httpvfs_stats.cpp and src/rsqlite.cpp: what R asks
-- of SQLite's extensions, of its file systems and of its version.
use rsqlite.Prelude.{
  ℕ, ℤ, pos, String, Bool, not, ◌||◌, Option, none, some, List, ◌==◌, eqb_ℤ, if◌then◌else◌,
}
use rsqlite.Outcome.{Result, ok, stop, ◌>>=◌, load_failed, null_pointer}
use rsqlite.Connection.{DbConnection, conn}

-- The message of an error; the code makes a text of the pointer without a test.
unfoldable pub load_error : Option (List ℕ) → Result (Unit {0})
load_error none = stop null_pointer
load_error (some message) = stop (load_failed message)

-- extension_load; `load file entry` is the code and the message of sqlite3_load_extension.
unfoldable pub extension_load :
    (List ℕ → List ℕ → ℕ × Option (List ℕ)) → DbConnection → List ℕ → List ℕ → Result (Unit {0})
unfolding load_error conn
extension_load load con file entry_point = conn con >>= λ u.
    let (rc, message) = load file entry_point in if rc == 0 then ok tt else load_error message

-- sqlite_has_http_vfs; `vfs_find name` says that sqlite3_vfs_find gives no null pointer.
unfoldable pub sqlite_has_http_vfs : (String → Bool) → Bool
sqlite_has_http_vfs vfs_find = vfs_find "http" || vfs_find "httpvfs" || vfs_find "httpfs"

-- sqlite_httpvfs_compiled, for whether the macro RSQLITE_ENABLE_HTTPVFS is defined.
unfoldable pub sqlite_httpvfs_compiled : Bool → Bool
sqlite_httpvfs_compiled enabled = enabled

-- The list that R gets, under its names.
pub record HttpStats : Type 0 where
  pub bytes_fetched : ℤ
  pub range_requests : ℤ
  pub full_download : Bool

-- sqlite_http_stats, for the macro and what sqlite3_http_stats writes.
unfoldable pub sqlite_http_stats : Bool → ℤ × ℤ × ℤ → HttpStats
sqlite_http_stats enabled stats =
    let (bytes, ranges, fulldl) = if enabled then stats else (pos 0, pos 0, pos 0) in
    record {
      bytes_fetched = bytes;
      range_requests = ranges;
      full_download = not (eqb_ℤ fulldl (pos 0));
    }

-- The two texts, under their names.
pub record Version : Type 0 where
  pub header : String
  pub library : String

-- rsqliteVersion, for SQLITE_VERSION and sqlite3_libversion.
unfoldable pub rsqlite_version : String → String → Version
rsqlite_version header library = record { header = header; library = library }
