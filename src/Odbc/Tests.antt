-- ===== src/Odbc/Tests.antt =====
-- A table of two rows on a concrete library.
use nwnx2_windows.Prelude.{
  Returns, inr, ◌≤◌, ◌≡◌, refl, true, false, none, some, List, [], ◌∷◌, ◌++◌, codes, length, map,
  arith,
}
use nwnx2_windows.Odbc.{
  columns_loop, sqlite_column, Row, Code, is_done, is_row, Library, Sqlite, Plugin, on_request,
  sqlite_row, mysql_row, odbc_row, execute,
}
use nwnx2_windows.Odbc.Rows.{joined, length-row, sqlite_row-joined}
use nwnx2_windows.Odbc.Cursor.{no_more, one_more, fetch_all, execute-fetch_all, length-on_request}

abbrev first_row : Row
first_row = some (codes "Drow") ∷ none ∷ some (codes "7") ∷ []

abbrev second_row : Row
second_row = some (codes "Elf") ∷ []

-- a statement is the current row and the rows left
abbrev step : Row × List Row → Code × (Row × List Row)
step (row, []) = (is_done, (row, []))
step (row, next ∷ rows) = (is_row, (next, rows))

abbrev library : Library (Row × List Row)
library = record {
  prepare = λ query. some ([], first_row ∷ second_row ∷ []);
  step = step;
  columns = λ s. s.0;
}

abbrev closed : Sqlite (Row × List Row)
closed = record { statement = none; first_fetch = false; has_error = false }

sqlite_row_example : sqlite_row 20 first_row ≡ codes "Drow" ++ 0xAC ∷ 0xAC ∷ codes "7"
unfolding sqlite_row columns_loop sqlite_column
sqlite_row_example = refl

length-row_example :
    (length (sqlite_row 6 first_row) ≤ 5)
    × (length (mysql_row 6 first_row) ≤ 5)
    × (length (odbc_row 6 first_row) ≤ 5)
length-row_example = length-row 6 first_row

sqlite_row-joined_example : sqlite_row 20 first_row ≡ joined first_row
sqlite_row-joined_example = sqlite_row-joined 20 first_row (omega arith)

execute-fetch_all_example :
    ((execute library closed (codes "SELECT")).1 ≡ true)
    × (fetch_all library 3 (execute library closed (codes "SELECT")).0 20
        ≡ map (sqlite_row 20) (first_row ∷ second_row ∷ []))
execute-fetch_all_example =
    execute-fetch_all library closed (codes "SELECT") ([], first_row ∷ second_row ∷ [])
      (first_row, second_row ∷ []) 20 2 refl refl (one_more refl (no_more refl)) (omega arith)

abbrev plugin : Plugin (Row × List Row)
plugin = record {
  db = record {
    statement = some (first_row, second_row ∷ []);
    first_fetch = true;
    has_error = false;
  };
  scorco_sql = [];
  request_counter = 1;
}

length-on_request_example :
    Returns
      (on_request library plugin (codes "FETCH") (codes "spacer"))
      (λ r. length r.1 ≤ length (codes "spacer"))
length-on_request_example =
    length-on_request library plugin (codes "FETCH") (codes "spacer") (inr (omega arith))
