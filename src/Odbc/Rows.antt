-- ===== src/Odbc/Rows.antt =====
-- What the loops over the columns leave in the buffer.
use nwnx2_windows.Prelude.{
  ℕ, ◌+◌, ◌-◌, ◌≤◌, ◌<◌, ◌≡◌, refl, sym, ap, ◌∙◌, Bool, true, false, ◌&&◌, Option, none, some, [],
  ◌∷◌, ◌++◌, Text, ltb, length, length-append, fun_ext, arith,
}
use nwnx2_windows.Odbc.{
  Row, separator, append_if, sqlite_column, mysql_column, odbc_column, separate, columns_loop,
  sqlite_row, mysql_row, odbc_row,
}

append_nil : (t : Text) → t ++ [] ≡ t
append_nil [] = refl
append_nil (c ∷ t) = ap (λ r. c ∷ r) (append_nil t)

append_separator : (s t u : Text) → ((s ++ t) ++ separator ∷ []) ++ u ≡ s ++ (t ++ separator ∷ u)
append_separator [] [] u = refl
append_separator [] (c ∷ t) u = ap (λ r. c ∷ r) (append_separator [] t u)
append_separator (c ∷ s) t u = ap (λ r. c ∷ r) (append_separator s t u)

append_if_nil : (b : Bool) (buffer : Text) → append_if b buffer [] ≡ buffer
append_if_nil true buffer = append_nil buffer
append_if_nil false buffer = refl

length-append_if :
    (b : Bool) (buffer text : Text) (size : ℕ)
    → length buffer ≤ size - 1
    → (b ≡ true → length buffer + length text < size)
    → length (append_if b buffer text) ≤ size - 1
length-append_if true buffer text size h g = omega (arith, length-append buffer text, g refl)
length-append_if false buffer text size h g = h

length-sqlite_column :
    (size : ℕ) (buffer : Text) (column : Option Text)
    → length buffer ≤ size - 1
    → length (sqlite_column size buffer column) ≤ size - 1
unfolding sqlite_column
length-sqlite_column size buffer none h = h
length-sqlite_column size buffer (some text) h =
    length-append_if _ buffer text size h (λ e. ground arith)

length-separate :
    (size : ℕ) (buffer : Text) (row : Row)
    → length buffer ≤ size - 1
    → length (separate size buffer row) ≤ size - 1
unfolding separate
length-separate size buffer [] h = h
length-separate size buffer (c ∷ row) h =
    length-append_if _ buffer (separator ∷ []) size h (λ e. ground arith)

length-columns_loop :
    (size : ℕ) (buffer : Text) (row : Row)
    → length buffer ≤ size - 1
    → length (columns_loop sqlite_column size buffer row) ≤ size - 1
unfolding columns_loop
length-columns_loop size buffer [] h = h
length-columns_loop size buffer (column ∷ row) h =
    length-columns_loop size (separate size (sqlite_column size buffer column) row) row
      (length-separate size _ row (length-sqlite_column size buffer column h))

mysql_column-sqlite_column :
    (size : ℕ) (buffer : Text) (column : Option Text)
    → mysql_column size buffer column ≡ sqlite_column size buffer column
unfolding mysql_column sqlite_column
mysql_column-sqlite_column size buffer none = refl
mysql_column-sqlite_column size buffer (some text) = ground arith

odbc_column-sqlite_column :
    (size : ℕ) (buffer : Text) (column : Option Text)
    → odbc_column size buffer column ≡ sqlite_column size buffer column
unfolding odbc_column sqlite_column
odbc_column-sqlite_column size buffer none = refl
odbc_column-sqlite_column size buffer (some []) =
    append_if_nil (ltb (length buffer + 0) size && true) buffer
    ∙ sym (append_if_nil (ltb (length buffer + 0) size && false) buffer)
odbc_column-sqlite_column size buffer (some (c ∷ text)) = ground arith

-- The three databases fill the buffer alike.
pub mysql_row-odbc_row :
    (size : ℕ) (row : Row)
    → (mysql_row size row ≡ sqlite_row size row) × (odbc_row size row ≡ sqlite_row size row)
unfolding mysql_row odbc_row sqlite_row
mysql_row-odbc_row size row = (
  ap (λ copy. columns_loop copy size [] row)
      (fun_ext λ s. fun_ext λ b. fun_ext λ c. mysql_column-sqlite_column s b c),
  ap (λ copy. columns_loop copy size [] row)
      (fun_ext λ s. fun_ext λ b. fun_ext λ c. odbc_column-sqlite_column s b c),
)

-- Every database writes fewer bytes than the buffer's size, so that the terminating zero has room,
-- and none where the size is 0.
pub length-row :
    (size : ℕ) (row : Row)
    → (length (sqlite_row size row) ≤ size - 1)
      × (length (mysql_row size row) ≤ size - 1)
      × (length (odbc_row size row) ≤ size - 1)
unfolding sqlite_row
length-row size row =
    let w = length-columns_loop size [] row (omega arith) in
    let (m, o) = mysql_row-odbc_row size row in (w, rw m w, rw o w)

-- the columns with separators between them
abbrev pub column_text : Option Text → Text
column_text none = []
column_text (some text) = text

abbrev pub joined : Row → Text
joined [] = []
joined (column ∷ []) = column_text column
joined (column ∷ next ∷ row) = column_text column ++ separator ∷ joined (next ∷ row)

sqlite_column-fits :
    (size : ℕ) (buffer : Text) (column : Option Text)
    → length buffer + length (column_text column) < size
    → sqlite_column size buffer column ≡ buffer ++ column_text column
unfolding sqlite_column
sqlite_column-fits size buffer none h = sym (append_nil buffer)
sqlite_column-fits size buffer (some []) h =
    append_if_nil (ltb (length buffer + 0) size && false) buffer ∙ sym (append_nil buffer)
sqlite_column-fits size buffer (some (c ∷ text)) h = ground arith

separate-fits :
    (size : ℕ) (buffer : Text) (next : Option Text) (row : Row)
    → length buffer + 1 < size
    → separate size buffer (next ∷ row) ≡ buffer ++ separator ∷ []
unfolding separate
separate-fits size buffer next row h = ground arith

-- where the first column and its separator end
extended-lem :
    (size : ℕ) (buffer : Text) (column next : Option Text) (row : Row)
    → length buffer + length (joined (column ∷ next ∷ row)) < size
    → separate size (sqlite_column size buffer column) (next ∷ row)
      ≡ (buffer ++ column_text column) ++ separator ∷ []
extended-lem size buffer column next row h =
    let w = length-append (column_text column) (separator ∷ joined (next ∷ row)) in
    let v = length-append buffer (column_text column) in
    ap (λ b. separate size b (next ∷ row))
      (sqlite_column-fits size buffer column (omega (arith, w)))
    ∙ separate-fits size (buffer ++ column_text column) next row (omega (arith, w, v))

length-extended :
    (size : ℕ) (buffer : Text) (column next : Option Text) (row : Row)
    → length buffer + length (joined (column ∷ next ∷ row)) < size
    → length ((buffer ++ column_text column) ++ separator ∷ []) + length (joined (next ∷ row))
      < size
length-extended size buffer column next row h = omega (
  arith,
  length-append (column_text column) (separator ∷ joined (next ∷ row)),
  length-append buffer (column_text column),
  length-append (buffer ++ column_text column) (separator ∷ []),
)

columns_loop-joined :
    (size : ℕ) (buffer : Text) (row : Row)
    → length buffer + length (joined row) < size
    → columns_loop sqlite_column size buffer row ≡ buffer ++ joined row
unfolding columns_loop
columns_loop-joined size buffer [] h = sym (append_nil buffer)
columns_loop-joined size buffer (column ∷ []) h = sqlite_column-fits size buffer column h
columns_loop-joined size buffer (column ∷ next ∷ row) h =
    ap (λ b. columns_loop sqlite_column size b (next ∷ row))
      (extended-lem size buffer column next row h)
    ∙ columns_loop-joined size ((buffer ++ column_text column) ++ separator ∷ []) (next ∷ row)
        (length-extended size buffer column next row h)
    ∙ append_separator buffer (column_text column) (joined (next ∷ row))

-- Where the columns, with a separator between each two, fit into the buffer with the terminating
-- zero, the buffer holds them all, in order.
pub sqlite_row-joined :
    (size : ℕ) (row : Row) → length (joined row) < size → sqlite_row size row ≡ joined row
unfolding sqlite_row
sqlite_row-joined size row h = columns_loop-joined size [] row (omega arith)
