-- ===== src/HashTable/Tests.antt =====
-- The plugin table on concrete inputs.
use nwnx2_windows.Prelude.{
  ℕ, ◌+◌, ◌≡◌, ◌↔◌, refl, true, ◌&&◌, Option, none, some, [], ◌∷◌, codes, done, Returns, ◌==◌,
  if◌then◌else◌, length, replicate, arith,
}
use nwnx2_windows.HashTable.{Item, HashTable, hash, construct, create, insert, lookup}
use nwnx2_windows.HashTable.Slots.{Cells, Holds, home}
use nwnx2_windows.HashTable.Storage.{create-Holds}
use nwnx2_windows.HashTable.Plugins.{lookup-insert}
use nwnx2_windows.HashTable.Walk.{payloads, walk, walk-payloads}

abbrev table : HashTable ℕ
table = record {
  items = some (none ∷ some (record { key = codes "ODBC"; payload = 7 }) ∷ none ∷ []);
  table_size = 3;
  item_count = 1;
}

abbrev cells : Cells ℕ
cells = none ∷ some (record { key = codes "ODBC"; payload = 7 }) ∷ none ∷ []

table-Holds : Holds table cells
table-Holds = record { points = refl; size = refl; positive = omega arith; counted = refl }

-- "\xffA" holds a byte that is negative as a `char`
hash_example : hash (255 ∷ 65 ∷ []) ≡ 4294967166
unfolding hash
hash_example = refl

hash_name_example : (hash (codes "ODBC") ≡ 1886)
unfolding hash
hash_name_example = refl

lookup-insert_example : Returns (insert table (codes "CHAT") 9) λ r.
    ((r.1 ≡ true) ↔ (lookup table (codes "CHAT") ≡ done none))
    × (lookup r.0 (codes "ODBC") ≡ (
        if r.1 && (home cells (codes "CHAT") == home cells (codes "ODBC"))
        then done (some 9)
        else lookup table (codes "ODBC")))
lookup-insert_example = lookup-insert table-Holds (codes "CHAT") (codes "ODBC") 9

one-Holds : Holds (create construct 1).0 (replicate {A = Option (Item ℕ)} 1 none)
unfolding construct
one-Holds = create-Holds construct 1 (omega arith) refl

lookup_empty : lookup (create {D = ℕ} construct 1).0 (codes "ODBC") ≡ done none
unfolding lookup create construct hash
lookup_empty = refl

walk-payloads_example : walk table (1 + length cells) ≡ done (payloads cells)
walk-payloads_example = walk-payloads table-Holds
