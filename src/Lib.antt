-- ===== src/Lib.antt =====
-- RSQLite: how the results of a query become an R data frame.
--
-- The package binds R to SQLite. A query's rows arrive one by one and their types are not known in
-- advance: SQLite types each value by itself, R each column as a whole. The C++ code of the package
-- reads each cell through an interface, collects each column in blocks that are replaced when they
-- are full or when a value needs a wider type, and at the end copies the blocks to one vector.
--
-- Which file is about what:
--   DataType       src/DbColumnDataType.h, the types of a column
--   Runtime        R's vectors and missing values, src/integer64.h; what R does is the record
--                  Runtime with its laws IsRuntime
--   Slots          the accessors of a vector's slots and fill_default_value
--   Source         src/DbColumnDataSource.h, the interface by which a column reads a cell
--   Storage        src/DbColumnStorage.cpp, one block of a column; Storage/Copy has copy_to.
--                  Storage/Blocks says what a block means; Rendering, Widening, Growth, Writing
--                  and Appending follow append_col, Loops, Layout and Shape follow copy_to
--   Column         src/DbColumn.cpp, a column of blocks; Column/Contents follows one row,
--                  Column/Reference and Rows all rows, Column/Seen, Conflicts, Message and Mixed
--                  the warning on mixed types
--   DataFrame      src/DbDataFrame.cpp (and src/SqliteDataFrame.cpp); DataFrame/ByColumn, NoRows
--                  and Typing
--   Affinity       src/affinity.c; Affinity/Hash, Scanning and Table compare it with the table of
--                  substrings in its comment
--   SqliteSource   src/SqliteColumnDataSource.cpp, a cell of SQLite; SqliteSource/Types
--   Params         the parameters of a query: bind_parameter_pos of src/SqliteResultImpl.cpp and
--                  validate_params of src/DbResult.cpp; Params/Bounds
--   ResultImpl     src/SqliteResultImpl.cpp, a statement with its parameters; SQLite is the record
--                  Sqlite. ResultImpl/Fetch has fetch(); Kept, Stepping, Binding and Fetching
--                  follow step(), bind() and fetch_rows(), Peeking peek_first_row(), Unlimited a
--                  fetch without a limit. Answers says, independent of the loops, what SQLite
--                  answers to a query; Running, Starting, Showing, Rounds, Delivering, Keeping and
--                  Serving compare the rows that R gets with it. Typing is about their types
--   DbResult       src/DbResult.cpp, but for its constructor and destructor
--   Connection     src/DbConnection.cpp and src/connection.cpp, a connection with what it holds;
--                  Connection/Lifetime follows it to its end, Handling the busy handler
--   Extensions     src/extensions.cpp, src/has_http_vfs.cpp, src/httpvfs_stats.cpp, src/rsqlite.cpp
--   Session        src/result.cpp, src/connection.cpp, src/SqliteResult.cpp and the rest of
--                  src/DbResult.cpp: the connection and the results that R has of it. Fitting and
--                  Counting are its lemmas, Shared and Reaching the invariant of all calls, Closing
--                  the end of a connection, Calling the calls on a result, Newest, Query
--                  and BoundQuery a query from its text to its data frame
--   Import         src/import-file.c, the import of a file into a table: Import/Line has
--                  RS_sqlite_getline, Fields the split of a line, Command the SQL. Reading,
--                  Ending, Splitting and Lossless are about lines and columns, Inserting and Whole
--                  about a file of rows, Holding and Resources about what is held
--   Exec           methods that change their object and may raise an R error
--   Prelude, Outcome   shared helpers, and results that may be an R error
--   Examples       a concrete R and concrete cells, on which the theorems are applied
-- Paths are relative to the repository's root. The functions keep the names of the code; a method
-- that changes its object takes it as an argument and returns it.
--
-- Bounds. An append makes at most two new blocks, so append_data runs on the fuel 3. The loops of
-- copy_to raise `src` in every round and stop at `i`, so `suc i` rounds are enough; that no loop
-- runs out is part of the theorems. The `int` counters do not wrap in the model: a frame has fewer
-- than 2^31 rows. A double is the number of its 64 bits, a slot of a vector remembers under which
-- view (double or int64_t) it was written, and the model stops with an error where C++ would read
-- a slot of another view, a vector of another type or a slot past the end.
--
-- What sqlite3_open_v2 answers to the path, the flags and the name of the VFS is an argument of the
-- constructor of a connection, as are the answers of the other functions of SQLite that it calls.
--
-- A session has one connection; connections share nothing but what connection_copy_database copies.
-- boost::shared_ptr is its count, and an external pointer deletes its object once.
--
-- A step of a result has at most one round for each row of parameters that is left, and that many
-- are its fuel; a fetch without a limit may have rows without end, so its fuel is an argument;
-- as many rounds as the query has rows are enough.
--
-- A call of RS_sqlite_getline takes at least one byte or finds the end of the file, so the bytes of
-- the file and one more are the fuel of the loop of RS_sqlite_import. What strlen() finds behind the
-- bytes that were written to a buffer is an argument, `junk`. malloc() and realloc() in
-- RS_sqlite_getline do not fail.
--
-- Not modelled: the vendored copies of SQLite, its extensions and Boost, and cpp11, of which only
-- the calls are parameters; the generated bindings; the R code; R's garbage collector
-- (PROTECT/UNPROTECT); the texts of SQLite's error messages, but for those of extensions. Warnings
-- come back with a result, and are dropped from the model where an error follows them.
pub mod Prelude
pub mod Outcome
pub mod DataType
pub mod Runtime
pub mod Slots
pub mod Source
pub mod Storage
pub mod Column
pub mod DataFrame
pub mod Affinity
pub mod SqliteSource
pub mod Exec
pub mod Params
pub mod ResultImpl
pub mod DbResult
pub mod Connection
pub mod Session
pub mod Import
pub mod Examples
pub mod Extensions
