-- ===== src/Database.antt =====
-- src/cdbmanager.cpp, src/cpgdatabase.cpp: the table of database sections.
pub mod Connect
use smarty_appserver.Errors.{Result, ok, throw, sql_error}
use smarty_appserver.Prelude.{
  map, Bool, true, ◌≡◌, [], ◌∷◌, c_str, Option, none, some, List, Text, insert, lookup,
}

-- CPgDatabase: the connection string, and whether m_connection is set; pqxx has the connection.
pub record Database : Type 0 where
  pub connect_string : Text
  pub connected : Bool

-- dbMap: a section has no connection (nullptr) until `connectDBs`.
abbrev pub DbMap : Type 0
DbMap = List (Text × Option Database)

-- addDBSection
unfoldable pub add_db_section : Text → DbMap → DbMap
add_db_section section m = insert section none m

abbrev or_null {ℓ} : {A : Type ℓ} → Option (Option A) → Option A
or_null none = none
or_null (some o) = o

-- getDatabase: nullptr for an unknown section too.
unfoldable pub get_database : Text → DbMap → Option Database
get_database section m = or_null (lookup section m)

-- What a query needs: `query` reads through the pointer, and through m_connection.
abbrev pub IsConnected : DbMap → Text → Type 0
IsConnected m section =
    (db : Database) × ((get_database section m ≡ some db) × (db.connected ≡ true))

-- What pqxx answers: an SQL error is thrown; no row, or the columns of the first row.
pub data QueryResult : Type 0 where
  sql_failed : QueryResult
  no_rows : QueryResult
  first_row : List (Option Text) → QueryResult

-- An empty field is stored as a null pointer, as a NULL is.
abbrev pub column : Option Text → Option Text
column none = none
column (some []) = none
column (some (c ∷ s)) = some (c_str (c ∷ s))

-- CPgDatabase::query: a null result for no rows or no columns.
unfoldable pub query_row : QueryResult → Result (Option (List (Option Text)))
query_row sql_failed = throw sql_error
query_row no_rows = ok none
query_row (first_row []) = ok none
query_row (first_row (f ∷ fs)) = ok (some (map column (f ∷ fs)))
