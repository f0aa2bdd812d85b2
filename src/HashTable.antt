-- ===== src/HashTable.antt =====
-- NWNXdll/HashTable.h and NWNXdll/HashTable.cpp: the table of loaded plugins. A key has one slot and
-- the table keeps no chains. `new` is taken to succeed; `int` sizes are not negative.
pub mod Slots
pub mod Storage
pub mod Plugins
pub mod Walk
mod Tests
use nwnx2_windows.Prelude.{
  ℕ, zero, suc, ◌+◌, ◌-◌, ◌*◌, ◌%◌, ◌^◌, bit_xor, Bool, true, false, Option, none, some, List, [],
  ◌∷◌, Text, Outcome, done, fault, ◌>>=◌, ltb, ◌==◌, if◌then◌else◌, get_elem?, set, replicate,
}

-- `CHashTable::CItem`
pub record Item {ℓ} (D : Type ℓ) : Type ℓ where
  pub key : Text
  pub payload : D

-- `CHashTable`; the table pointer is `none` where it is NULL
pub record HashTable {ℓ} (D : Type ℓ) : Type ℓ where
  pub items : Option (List (Option (Item D)))
  pub table_size : ℕ
  pub item_count : ℕ

-- what `Delete` returns, what it hands to `delete`, and the table that it leaves
pub record Deleted {ℓ} (D : Type ℓ) : Type ℓ where
  pub returned : Option D
  pub freed : Option D
  pub table : HashTable D

-- the 32-bit pattern of a plain (signed) `char` that is converted to `int`
unfoldable pub sign_extend : ℕ → ℕ
sign_extend c = if ltb c 128 then c else c + 2 ^ 32 - 256

hash_loop : ℕ → Text → ℕ
hash_loop code [] = code
hash_loop code (ch ∷ key) = hash_loop (bit_xor code (sign_extend ch) * 2 % 2 ^ 32) key

unfoldable pub hash : Text → ℕ
unfolding hash_loop sign_extend
hash key = hash_loop 0 key

module _ {ℓ} {D : Type ℓ} where
  -- the constructor
  unfoldable pub construct : HashTable D
  construct = record { items = none; table_size = 0; item_count = 0 }

  unfoldable pub create : HashTable D → ℕ → HashTable D × Bool
  create t size = (record t { items = some (replicate size none); table_size = size }, true)

  -- `Hash(Key) % m_iTableSize`
  unfoldable pub index : HashTable D → Text → Outcome ℕ
  index t key = if t.table_size == 0 then fault else done (hash key % t.table_size)

  -- `m_Items[i]`
  unfoldable pub read_slot : HashTable D → ℕ → Outcome (Option (Item D))
  read_slot t i = elim t.items [
    | none ↦ fault
    | some cells ↦ elim (get_elem? cells i) [ none ↦ fault | some s ↦ done s ]
  ]

  -- `m_Items[i] = s`
  unfoldable pub write_slot : HashTable D → ℕ → Option (Item D) → HashTable D
  write_slot t i s = record t {
    items = elim t.items [ none ↦ none | some cells ↦ some (set cells i s) ];
  }

  insert_at : HashTable D → ℕ → Text → D → Option (Item D) → Outcome (HashTable D × Bool)
  unfolding write_slot
  insert_at t i key d (some _) = done (t, false)
  insert_at t i key d none =
      let t' = write_slot t i (some (record { key = key; payload = d })) in
      done (record t' { item_count = t.item_count + 1 }, true)

  unfoldable pub insert : HashTable D → Text → D → Outcome (HashTable D × Bool)
  unfolding index read_slot insert_at
  insert t key d = do i ← index t key; s ← read_slot t i; insert_at t i key d s

  abbrev pub payload_of : Option (Item D) → Option D
  payload_of none = none
  payload_of (some it) = some it.payload

  unfoldable pub lookup : HashTable D → Text → Outcome (Option D)
  unfolding index read_slot
  lookup t key = do i ← index t key; s ← read_slot t i; done (payload_of s)

  delete_at : HashTable D → ℕ → Option (Item D) → Outcome (Deleted D)
  unfolding write_slot
  delete_at t i none = done (record { returned = none; freed = none; table = t })
  delete_at t i (some it) =
      let t' = write_slot t i none in
      done (record {
        returned = none;
        freed = some it.payload;
        table = record t' { item_count = t.item_count - 1 };
      })

  unfoldable pub delete : HashTable D → Text → Outcome (Deleted D)
  unfolding index read_slot delete_at
  delete t key = do i ← index t key; s ← read_slot t i; delete_at t i s

  unfoldable pub delete_all : HashTable D → HashTable D
  unfolding construct
  delete_all t = elim t.items [ none ↦ t | some _ ↦ construct ]

  unfoldable pub get_count : HashTable D → ℕ
  get_count t = t.item_count

  -- the search of both iterators: `n` more slots from slot `i` on; `none` is -1
  first_from : HashTable D → ℕ → ℕ → Outcome (Option ℕ)
  unfolding read_slot
  first_from t zero i = done none
  first_from t (suc n) i =
      let rest = first_from t n (i + 1) in
      read_slot t i >>= λ s. elim s [ none ↦ rest | some _ ↦ done (some i) ]

  unfoldable pub get_first_item : HashTable D → Outcome (Option ℕ)
  unfolding first_from
  get_first_item t = first_from t t.table_size 0

  -- the new position, and the payload of the remembered item
  unfoldable pub get_next_item : HashTable D → ℕ → Outcome (Option ℕ × D)
  unfolding first_from
  get_next_item t pos = do
    pos' ← first_from t (t.table_size - (pos + 1)) (pos + 1)
    s ← read_slot t pos
    elim s [ none ↦ fault | some it ↦ done (pos', it.payload) ]
