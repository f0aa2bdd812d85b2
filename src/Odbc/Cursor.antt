-- ===== src/Odbc/Cursor.antt =====
-- A statement that is executed and fetched row by row.
use nwnx2_windows.Prelude.{
  ℕ, zero, suc, ◌-◌, ◌≤◌, ◌<◌, ◌≡◌, refl, ap, ◌∙◌, Bool, true, false, Option, none, some, List, [],
  ◌∷◌, Text, if◌then◌else◌, length, map, codes, starts_with, arith, Returns-if, Returns, ◌⊎◌, ltb,
}
use nwnx2_windows.Odbc.Rows.{length-row}
use nwnx2_windows.Odbc.{
  set_scorco_sql, Row, Code, is_done, is_row, is_error, is_other, Library, Sqlite, Fetched,
  sqlite_row, executed, execute, step_statement, fetched, fetch, Plugin, fetch_into, on_request,
}

module _ {S : Type 0} (library : Library S) where
  -- the statement gives these rows, and then it is done
  pub data Yields : S → List Row → Type 0 where
    no_more : {s s' : S} → library.step s ≡ (is_done, s') → Yields s []
    one_more :
        {s s' : S} {rows : List Row}
        → library.step s ≡ (is_row, s')
        → Yields s' rows
        → Yields s (library.columns s' ∷ rows)

  -- the script's loop: fetch until nothing comes, on fuel
  pub fetch_all : ℕ → Sqlite S → ℕ → List Text
  fetch_all zero db size = []
  fetch_all (suc n) db size =
      let r = fetch library db size in
      let rest = fetch_all n r.db size in elim r.text [ none ↦ [] | some text ↦ text ∷ rest ]

  -- a database with an open statement
  abbrev open_at : S → Bool → Bool → Sqlite S
  open_at s first error = record { statement = some s; first_fetch = first; has_error = error }

  fetch-done :
      (s s' : S) (error : Bool) (size : ℕ)
      → library.step s ≡ (is_done, s')
      → (fetch library (open_at s false error) size).text ≡ none
  unfolding fetch fetched
  fetch-done s s' error size e = rw e refl

  fetch-next :
      (s s' : S) (error : Bool) (size : ℕ)
      → library.step s ≡ (is_row, s')
      → fetch library (open_at s false error) size ≡ record {
        db = open_at s' false error;
        text = some (sqlite_row size (library.columns s'));
        count = length (sqlite_row size (library.columns s'));
      }
  unfolding fetch fetched
  fetch-next s s' error size e = rw e refl

  -- what is left of the loop after the first round's result
  continue_with : ℕ → ℕ → Fetched S → List Text
  continue_with n size r =
      let rest = fetch_all n r.db size in elim r.text [ none ↦ [] | some text ↦ text ∷ rest ]

  fetch_all-rest :
      (n : ℕ) (error : Bool) (size : ℕ) (s : S) {rows : List Row}
      → Yields s rows
      → length rows < n
      → fetch_all n (open_at s false error) size ≡ map (sqlite_row size) rows
  unfolding fetch_all continue_with
  fetch_all-rest zero error size s yields h = absurd (omega arith)
  fetch_all-rest (suc n) error size s (no_more {s' = s'} e) h =
      ap
        (λ o. elim o [
          | none ↦ []
          | some text ↦ text ∷ fetch_all n (fetch library (open_at s false error) size).db size
        ])
        (fetch-done s s' error size e)
  fetch_all-rest (suc n) error size s (one_more {s' = s'} e yields) h =
      ap (continue_with n size) (fetch-next s s' error size e)
      ∙ ap (λ rest. sqlite_row size (library.columns s') ∷ rest)
          (fetch_all-rest n error size s' yields (omega arith))

  execute-row :
      (db : Sqlite S) (query : Text) (s s' : S)
      → library.prepare query ≡ some s
      → library.step s ≡ (is_row, s')
      → execute library db query ≡ (open_at s' true db.has_error, true)
  unfolding execute executed
  execute-row db query s s' prepared stepped = rw (execute, prepared, stepped) refl

  -- A query whose first step gives a row: `Execute` succeeds, and fetching then hands out the rows
  -- of the query, each once and in order, from the first on, and stops.
  pub execute-fetch_all :
      (db : Sqlite S) (query : Text) (s s' : S) {rows : List Row} (size n : ℕ)
      → library.prepare query ≡ some s
      → library.step s ≡ (is_row, s')
      → Yields s' rows
      → length rows < n
      → ((execute library db query).1 ≡ true)
        × (fetch_all (suc n) (execute library db query).0 size
            ≡ map (sqlite_row size) (library.columns s' ∷ rows))
  unfolding fetch_all fetch fetched
  execute-fetch_all db query s s' size n prepared stepped yields h =
      rw (execute-row db query s s' prepared stepped) (
        refl,
        ap (λ rest. sqlite_row size (library.columns s') ∷ rest)
            (fetch_all-rest n db.has_error size s' yields h),
      )

  -- the text that a fetch leaves
  abbrev left_text : Option Text → Text
  left_text none = []
  left_text (some text) = text

  length-fetched :
      (db : Sqlite S) (size : ℕ) (code : Code)
      → length (left_text (fetched library db size code).text) ≤ size - 1
  unfolding fetched
  length-fetched db size is_row = (length-row size _).0
  length-fetched db size is_error = omega arith
  length-fetched db size is_done = omega arith
  length-fetched db size is_other = omega arith

  length-fetch :
      (db : Sqlite S) (size : ℕ) → length (left_text (fetch library db size).text) ≤ size - 1
  unfolding fetch
  length-fetch db size =
      choose db.first_fetch _ _ (length-fetched (record db { first_fetch = false }) size is_row) (
        length-fetched (record db { statement = (step_statement library db.statement).1 }) size
          (step_statement library db.statement).0)
    where
      choose :
          (b : Bool) (r r' : Fetched S)
          → length (left_text r.text) ≤ size - 1
          → length (left_text r'.text) ≤ size - 1
          → length (left_text (if b then r else r').text) ≤ size - 1
      choose true r r' h h' = h
      choose false r r' h h' = h'

  length-fetch_into : (p : Plugin S) (size : ℕ) → length (fetch_into library p size).1 ≤ size
  unfolding fetch_into
  length-fetch_into p size = below (fetch library p.db size).text (length-fetch p.db size)
    where
      below :
          (o : Option Text)
          → length (left_text o) ≤ size - 1
          → length (elim o as (λ x. Text) [ none ↦ [] | some text ↦ text ]) ≤ size
      below none h = omega arith
      below (some text) h = omega arith

  -- With SQLite every request but a statement for campaign objects that has no room in its 1024 bytes
  -- ends normally, and the variable's text gets no longer.
  pub length-on_request :
      (p : Plugin S) (request parameters : Text)
      → (starts_with (codes "SETSCORCOSQL") request ≡ false) ⊎ (length parameters < 1024)
      → Returns (on_request library p request parameters) (λ r. length r.1 ≤ length parameters)
  unfolding on_request set_scorco_sql
  length-on_request p request parameters room =
      Returns-if (λ r. length r.1 ≤ length parameters) (starts_with (codes "EXEC") request) _ _
        (λ e. (_, refl, omega arith))
        (λ e.
          Returns-if (λ r. length r.1 ≤ length parameters) (starts_with (codes "FETCH") request) _ _
            (λ e. (_, refl, length-fetch_into p (length parameters)))
            (λ e.
              Returns-if (λ r. length r.1 ≤ length parameters)
                (starts_with (codes "SETSCORCOSQL") request) _ _
                (λ e.
                  let fits : ltb (length parameters) 1024 ≡ true = ground arith in
                  rw fits (_, refl, omega arith))
                (λ e. (_, refl, omega arith))))
