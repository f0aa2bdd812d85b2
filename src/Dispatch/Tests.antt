-- ===== src/Dispatch/Tests.antt =====
-- Requests on concrete names, with one plugin loaded.
use nwnx2_windows.Prelude.{
  ℕ, ◌+◌, ◌≡◌, ◌↔◌, refl, false, true, none, some, [], ◌∷◌, ◌++◌, Text, codes, done, ltb,
  if◌then◌else◌, length, arith,
}
use nwnx2_windows.HashTable
use nwnx2_windows.HashTable.{HashTable}
use nwnx2_windows.Dispatch.{prefix, parse_name, request, Variable, Response, is_legacy, pay_load}
use nwnx2_windows.Dispatch.Names.{HasNoBang, parse_name-request}
use nwnx2_windows.Dispatch.Answers.{pay_load-text}

abbrev libraries : HashTable ℕ
libraries = record {
  items = some (some (record { key = codes "ODBC"; payload = 7 }) ∷ []);
  table_size = 1;
  item_count = 1;
}

-- a plugin that answers "row"
abbrev on_request : ℕ → ℕ → Text → Text → Response
on_request plugin object function value = record { buffer = value; result = some (codes "row") }

abbrev variable : Variable
variable = record { text = codes "12"; len = 2 }

found : HashTable.lookup libraries (codes "ODBC") ≡ done (some 7)
unfolding HashTable.lookup HashTable.hash
found = refl

found_legacy : HashTable.lookup libraries (codes "HASHSET") ≡ done (some 7)
unfolding HashTable.lookup HashTable.hash
found_legacy = refl

is_modern : is_legacy (codes "ODBC" ++ b'!' ∷ codes "FETCH") ≡ false
unfolding is_legacy
is_modern = refl

is_old : is_legacy (codes "HASHSET" ++ b'!' ∷ codes "GET") ≡ true
unfolding is_legacy
is_old = refl

odbc_no_bang : HasNoBang (codes "ODBC")
odbc_no_bang = (
  λ e. absurd (omega arith),
  (λ e. absurd (omega arith), (λ e. absurd (omega arith), (λ e. absurd (omega arith), tt))),
)

hashset_no_bang : HasNoBang (codes "HASHSET")
hashset_no_bang = (
  λ e. absurd (omega arith),
  (
    λ e. absurd (omega arith),
    (
      λ e. absurd (omega arith),
      (
        λ e. absurd (omega arith),
        (λ e. absurd (omega arith), (λ e. absurd (omega arith), (λ e. absurd (omega arith), tt))),
      ),
    ),
  ),
)

parse_name_example : parse_name (codes "NWNX!ODBC!FETCH") ≡ request (codes "ODBC") (codes "FETCH")
unfolding parse_name
parse_name_example = refl

parse_name-request_example :
    (parse_name (codes "NWNX!ODBC!FETCH") ≡ request (codes "ODBC") (codes "FETCH")) ↔ (
      (codes "NWNX!ODBC!FETCH" ≡ prefix ++ codes "ODBC" ++ b'!' ∷ codes "FETCH")
      × HasNoBang (codes "ODBC"))
parse_name-request_example =
    parse_name-request (codes "NWNX!ODBC!FETCH") (codes "ODBC") (codes "FETCH")

pay_load-text_example :
    pay_load on_request libraries 0x80000001
      (some (prefix ++ codes "ODBC" ++ b'!' ∷ codes "FETCH"))
      (some variable)
    ≡ done (
      some (record {
        text = codes "row";
        len = if ltb (length (codes "12")) (length (codes "row")) then length (codes "row") else 2;
      }),
      [],
    )
pay_load-text_example =
    pay_load-text on_request libraries 7 (codes "ODBC") (codes "FETCH") odbc_no_bang found
      0x80000001 variable (codes "row") is_modern refl

no_request :
    (library function : Text)
    → parse_name (codes "myVariable") ≡ request library function
    → HashTable.lookup libraries library ≡ done none
unfolding parse_name
no_request library function e = cc

abbrev on_request_object : ℕ → ℕ → Text → ℕ
on_request_object plugin object function = 0x8000 + plugin
