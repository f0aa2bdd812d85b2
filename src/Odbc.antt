-- ===== src/Odbc.antt =====
-- The database plugin: the loops that copy a row into the script's buffer in ODBC2/sqlite.cpp,
-- ODBC2/Cmysql.cpp and ODBC2/ODBC1.cpp, and the statements of ODBC2/sqlite.cpp (`Execute`, `Fetch`).
-- A row is the list of its columns, `none` for NULL; a buffer is the bytes written so far, so that
-- its length is `totalbytes`. Lengths are taken to stay below 2^32, and columns read by ODBC below
-- MAX_DATA, with a length that the driver knows (no SQL_NO_TOTAL). The database library is a parameter.
pub mod Rows
pub mod Cursor
mod Tests
use nwnx2_windows.Prelude.{
  ℕ, zero, suc, ◌+◌, ◌-◌, ◌*◌, ◌%◌, ◌^◌, Bool, true, false, ◌&&◌, not, Option, none, some, List, [],
  ◌∷◌, ◌++◌, Text, codes, starts_with, ltb, ◌==◌, if◌then◌else◌, length, Outcome, done, fault,
}

abbrev pub Row : Type 0
Row = List (Option Text)

-- the byte between two columns
abbrev pub separator : ℕ
separator = 0xAC

-- `memcpy` of the column, where the code's test lets it through
abbrev pub append_if : Bool → Text → Text → Text
append_if b buffer text = if b then buffer ++ text else buffer

-- ODBC2/sqlite.cpp: one column
unfoldable pub sqlite_column : ℕ → Text → Option Text → Text
sqlite_column size buffer none = buffer
sqlite_column size buffer (some text) =
    append_if (ltb (length buffer + length text) size && ltb 0 (length text)) buffer text

-- ODBC2/Cmysql.cpp: one column; the length of NULL is 0
unfoldable pub mysql_column : ℕ → Text → Option Text → Text
mysql_column size buffer none = append_if (ltb 0 0 && ltb (length buffer + 0) size) buffer []
mysql_column size buffer (some text) =
    append_if (ltb 0 (length text) && ltb (length buffer + length text) size) buffer text

-- ODBC2/ODBC1.cpp: one column; `cbData` is SQL_NULL_DATA for NULL
unfoldable pub odbc_column : ℕ → Text → Option Text → Text
odbc_column size buffer none = buffer
odbc_column size buffer (some text) =
    append_if (ltb (length buffer + length text) size && true) buffer text

-- the separator behind a column that is not the last
unfoldable pub separate : ℕ → Text → Row → Text
separate size buffer [] = buffer
separate size buffer (_ ∷ _) = append_if (ltb (length buffer + 1) size) buffer (separator ∷ [])

-- the loop over the columns
unfoldable pub columns_loop : (ℕ → Text → Option Text → Text) → ℕ → Text → Row → Text
unfolding separate
columns_loop copy size buffer [] = buffer
columns_loop copy size buffer (column ∷ row) =
    columns_loop copy size (separate size (copy size buffer column) row) row

-- the bytes in front of the terminating zero
unfoldable pub sqlite_row : ℕ → Row → Text
sqlite_row size row = columns_loop sqlite_column size [] row

unfoldable pub mysql_row : ℕ → Row → Text
mysql_row size row = columns_loop mysql_column size [] row

unfoldable pub odbc_row : ℕ → Row → Text
odbc_row size row = columns_loop odbc_column size [] row

-- the results of `sqlite3_step`
pub data Code : Type 0 where
  is_done : Code
  is_row : Code
  is_error : Code
  is_other : Code

-- the SQLite library: statements with `sqlite3_prepare`, `sqlite3_step` and the columns of the
-- current row
pub record Library (S : Type 0) : Type 0 where
  pub prepare : Text → Option S
  pub step : S → Code × S
  pub columns : S → Row

-- `CSQLite`: `pStmt`, `firstFetch`, and whether `lastError` was written
pub record Sqlite (S : Type 0) : Type 0 where
  pub statement : Option S
  pub first_fetch : Bool
  pub has_error : Bool

-- what `Fetch` leaves: the text in the buffer, where it wrote it, and the number that it returns
pub record Fetched (S : Type 0) : Type 0 where
  pub db : Sqlite S
  pub text : Option Text
  pub count : ℕ

module _ {S : Type 0} (library : Library S) where
  abbrev finalize_statement : Sqlite S → Sqlite S
  finalize_statement db = record db { statement = none }

  executed : Sqlite S → Code × S → Sqlite S × Bool
  executed db (is_done, s) = (finalize_statement db, true)
  executed db (is_row, s) = (record db { statement = some s; first_fetch = true }, true)
  executed db (is_error, s) = (finalize_statement (record db { has_error = true }), false)
  executed db (is_other, s) = (record db { statement = some s }, true)

  unfoldable pub execute : Sqlite S → Text → Sqlite S × Bool
  unfolding executed
  execute db query = elim (library.prepare query) [
    | none ↦ (record db { statement = none; has_error = true }, false)
    | some s ↦ executed db (library.step s)
  ]

  -- `sqlite3_step(pStmt)`; a NULL statement is a misuse, which is none of the codes tested
  abbrev step_statement : Option S → Code × Option S
  step_statement none = (is_other, none)
  step_statement (some s) = let (code, s') = library.step s in (code, some s')

  -- a NULL statement has no columns
  abbrev statement_columns : Option S → Row
  statement_columns none = []
  statement_columns (some s) = library.columns s

  fetched : Sqlite S → ℕ → Code → Fetched S
  fetched db size is_row =
      let text = sqlite_row size (statement_columns db.statement) in
      record { db = db; text = some text; count = length text }
  fetched db size is_error = record {
    db = finalize_statement (record db { has_error = true });
    text = none;
    count = 2 ^ 32 - 1;
  }
  fetched db size is_done = record { db = finalize_statement db; text = none; count = 0 }
  fetched db size is_other = record { db = finalize_statement db; text = none; count = 0 }

  unfoldable pub fetch : Sqlite S → ℕ → Fetched S
  unfolding fetched
  fetch db size =
      let (code, statement) = step_statement db.statement in
      if db.first_fetch
      then fetched (record db { first_fetch = false }) size is_row
      else fetched (record db { statement = statement }) size code

-- `CNWNXODBC`: the database, the statement for campaign objects, and the count of requests
pub record Plugin (S : Type 0) : Type 0 where
  pub db : Sqlite S
  pub scorco_sql : Text
  pub request_counter : ℕ

-- MAXSQL
abbrev pub max_sql : ℕ
max_sql = 1024

module _ {S : Type 0} (library : Library S) where
  -- `CNWNXODBC::Fetch`: the buffer is emptied first
  fetch_into : Plugin S → ℕ → Plugin S × Text
  fetch_into p size =
      let r = fetch library p.db size in
      (record p { db = r.db }, elim r.text [ none ↦ [] | some text ↦ text ])

  -- the new statement and its terminating zero must fit in the block of MAXSQL bytes
  set_scorco_sql : Plugin S → Text → Outcome (Plugin S × Text)
  set_scorco_sql p request =
      if ltb (length request) max_sql
      then done (record p { scorco_sql = request }, request)
      else fault

  -- `CNWNXODBC::OnRequest` with SQLite: the plugin, and the variable's buffer afterwards
  unfoldable pub on_request : Plugin S → Text → Text → Outcome (Plugin S × Text)
  unfolding fetch_into set_scorco_sql
  on_request p request parameters =
      if starts_with (codes "EXEC") request
      then done (
        record p {
          db = (execute library p.db parameters).0;
          request_counter = (p.request_counter + 1) % 2 ^ 32;
        },
        parameters,
      )
      else if starts_with (codes "FETCH") request
      then done (fetch_into p (length parameters))
      else if starts_with (codes "SETSCORCOSQL") request
      then set_scorco_sql p parameters
      else done (p, parameters)
