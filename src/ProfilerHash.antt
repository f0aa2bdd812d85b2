-- ===== src/ProfilerHash.antt =====
-- Profiler/hash.h and Profiler/hash.cpp: the chained hash table in which the profiler keeps one
-- entry for each script. A chain of `bucket`s is the list of its nodes, head first; `void *` data is
-- a type `D` of pointers that are not NULL. `ub4` is `unsigned long`, of 32 bits.
-- `malloc` is a parameter: `table_given` and `node_given` say whether it gives memory.
pub mod Chains
pub mod Laws
pub mod Rounds
mod Tests
use nwnx2_windows.Prelude.{
  ℕ, zero, suc, ◌+◌, ◌-◌, ◌*◌, ◌/◌, ◌%◌, ◌^◌, bit_xor, Bool, true, false, Option, none, some, List,
  [], ◌∷◌, ◌++◌, Text, text_eq, Outcome, done, fault, ◌>>=◌, ltb, leb, ◌==◌, if◌then◌else◌, length,
  get_elem?, get_or, set, drop, replicate,
}

-- `bucket`, without `next`
pub record Bucket {ℓ} (D : Type ℓ) : Type ℓ where
  pub key : Text
  pub data_of : D

-- `hash_table`; the table pointer is `none` where it is NULL
pub record Table {ℓ} (D : Type ℓ) : Type ℓ where
  pub size : ℕ
  pub table : Option (List (List (Bucket D)))

-- the three words of the hash's internal state
pub record Words : Type 0 where
  pub a : ℕ
  pub b : ℕ
  pub c : ℕ

-- `x -= y` and `x += y` on `ub4`
unfoldable pub minus32 : ℕ → ℕ → ℕ
minus32 x y = (x + 2 ^ 32 - y) % 2 ^ 32

unfoldable pub plus32 : ℕ → ℕ → ℕ
plus32 x y = (x + y) % 2 ^ 32

-- the lines of `mix` on one word: `x -= y; x -= z; x ^= (z >> n)` and the same with `<<`
unfoldable pub mix_right : ℕ → ℕ → ℕ → ℕ → ℕ
mix_right x y z n = bit_xor (minus32 (minus32 x y) z) (z / 2 ^ n)

unfoldable pub mix_left : ℕ → ℕ → ℕ → ℕ → ℕ
mix_left x y z n = bit_xor (minus32 (minus32 x y) z) (z * 2 ^ n % 2 ^ 32)

unfoldable pub mix : Words → Words
unfolding mix_right mix_left minus32
mix w =
    let a₁ = mix_right w.a w.b w.c 13 in
    let b₁ = mix_left w.b w.c a₁ 8 in
    let c₁ = mix_right w.c a₁ b₁ 13 in
    let a₂ = mix_right a₁ b₁ c₁ 12 in
    let b₂ = mix_left b₁ c₁ a₂ 16 in
    let c₂ = mix_right c₁ a₂ b₂ 5 in
    let a₃ = mix_right a₂ b₂ c₂ 3 in
    let b₃ = mix_left b₂ c₂ a₃ 10 in
    let c₃ = mix_right c₂ a₃ b₃ 15 in record { a = a₃; b = b₃; c = c₃ }

-- four bytes of the key from index `i`, the lowest first
unfoldable pub key_word : Text → ℕ → ℕ
key_word k i =
    get_or k i 0
    + get_or k (i + 1) 0 * 2 ^ 8
    + get_or k (i + 2) 0 * 2 ^ 16
    + get_or k (i + 3) 0 * 2 ^ 24

unfoldable pub hash_round : Text → Words → Words
unfolding mix key_word plus32
hash_round k w = mix (record {
  a = plus32 w.a (key_word k 0);
  b = plus32 w.b (key_word k 4);
  c = plus32 w.c (key_word k 8);
})

-- `while (len >= 12)`, on fuel: the words, and the rest of the key
unfoldable pub hash_rounds : ℕ → Text → Words → Words × Text
unfolding hash_round
hash_rounds zero k w = (w, k)
hash_rounds (suc n) k w =
    let rest = hash_rounds n (drop 12 k) (hash_round k w) in
    if ltb (length k) 12 then (w, k) else rest

-- `case i`: the byte at index `i - 1`, shifted, where the rest of the key is that long
unfoldable pub case_byte : Text → ℕ → ℕ → ℕ
case_byte k i shift = if leb i (length k) then get_or k (i - 1) 0 * 2 ^ shift else 0

-- the `switch` on the last 11 bytes, whose cases fall through, and the last `mix`
unfoldable pub hash_last : Words → Text → ℕ
unfolding case_byte mix plus32
hash_last w k =
    (mix (record {
      a =
          plus32
            (plus32 (plus32 (plus32 w.a (case_byte k 4 24)) (case_byte k 3 16)) (case_byte k 2 8))
            (case_byte k 1 0);
      b =
          plus32
            (plus32 (plus32 (plus32 w.b (case_byte k 8 24)) (case_byte k 7 16)) (case_byte k 6 8))
            (case_byte k 5 0);
      c =
          plus32 (plus32 (plus32 (plus32 w.c (length k)) (case_byte k 11 24)) (case_byte k 10 16))
            (case_byte k 9 8);
    })).c

unfoldable pub hash : Text → ℕ → ℕ
unfolding hash_rounds hash_last
hash key initval =
    let (w, k) =
      hash_rounds (length key) key (record { a = 0x9e3779b9; b = 0x9e3779b9; c = initval }) in
    hash_last w k

module _ {ℓ} {D : Type ℓ} where
  unfoldable pub construct_table : Bool → ℕ → Table D
  construct_table table_given size =
      if table_given
      then record { size = size; table = some (replicate size []) }
      else record { size = 0; table = none }

  -- `hash(key, 42) % table->size`
  unfoldable pub slot : Table D → Text → Outcome ℕ
  slot t key = if t.size == 0 then fault else done (hash key 42 % t.size)

  -- `(table->table)[val]`
  unfoldable pub chain_at : Table D → ℕ → Outcome (List (Bucket D))
  chain_at t val = elim t.table [
    | none ↦ fault
    | some chains ↦ elim (get_elem? chains val) [ none ↦ fault | some chain ↦ done chain ]
  ]

  -- the table with the chain at `val` replaced
  unfoldable pub with_chain : Table D → ℕ → List (Bucket D) → Table D
  with_chain t val chain = record t {
    table = elim t.table [ none ↦ none | some chains ↦ some (set chains val chain) ];
  }

  -- the loop of `insert`: the data of the first node with the key, and the chain with it replaced
  unfoldable pub replace : Text → D → List (Bucket D) → Option (D × List (Bucket D))
  replace key d [] = none
  replace key d (node ∷ chain) =
      let rest = replace key d chain in
      if text_eq key node.key
      then some (node.data_of, record node { data_of = d } ∷ chain)
      else elim rest [ none ↦ none | some (old, chain') ↦ some (old, node ∷ chain') ]

  -- the chain after an insertion, and what `insert` returns
  unfoldable pub insert_chain : Bool → Text → D → List (Bucket D) → List (Bucket D) × Option D
  unfolding replace
  insert_chain node_given key d [] =
      if node_given then (record { key = key; data_of = d } ∷ [], some d) else ([], none)
  insert_chain node_given key d (node ∷ chain) = elim (replace key d (node ∷ chain)) [
    | some (old, chain') ↦ (chain', some old)
    | none ↦
        if node_given
        then (record { key = key; data_of = d } ∷ node ∷ chain, some d)
        else (node ∷ chain, none)
  ]

  unfoldable pub insert : Bool → Text → D → Table D → Outcome (Table D × Option D)
  unfolding slot chain_at with_chain insert_chain
  insert node_given key d t = do
    val ← slot t key
    chain ← chain_at t val
    done (
      with_chain t val (insert_chain node_given key d chain).0,
      (insert_chain node_given key d chain).1,
    )

  -- the loop of `lookup`
  unfoldable pub find : Text → List (Bucket D) → Option D
  find key [] = none
  find key (node ∷ chain) =
      let rest = find key chain in if text_eq key node.key then some node.data_of else rest

  unfoldable pub lookup : Text → Table D → Outcome (Option D)
  unfolding slot chain_at find
  lookup key t = do val ← slot t key; chain ← chain_at t val; done (find key chain)

  -- the loop of `del`: the chain without the first node that has the key, and that node's data
  unfoldable pub unlink : Text → List (Bucket D) → List (Bucket D) × Option D
  unlink key [] = ([], none)
  unlink key (node ∷ chain) =
      let rest = unlink key chain in
      if text_eq key node.key then (chain, some node.data_of) else (node ∷ rest.0, rest.1)

  unfoldable pub del : Text → Table D → Outcome (Table D × Option D)
  unfolding slot chain_at with_chain unlink
  del key t = do
    val ← slot t key
    chain ← chain_at t val
    done (with_chain t val (unlink key chain).0, (unlink key chain).1)

  -- the calls of `func` that `enumerate` makes, where `func` leaves the table alone
  abbrev pub chain_calls : List (Bucket D) → List (Text × D)
  chain_calls [] = []
  chain_calls (node ∷ chain) = (node.key, node.data_of) ∷ chain_calls chain

  abbrev pub all_calls : List (List (Bucket D)) → List (Text × D)
  all_calls [] = []
  all_calls (chain ∷ chains) = chain_calls chain ++ all_calls chains

  unfoldable pub enumerate : Table D → Outcome (List (Text × D))
  enumerate t = elim t.table [
    | none ↦ if t.size == 0 then done [] else fault
    | some chains ↦ done (all_calls chains)
  ]

  -- `enumerate` with `free_node`, which frees the node whose `next` the loop reads afterwards: with
  -- one node or more this is a read of freed memory.
  unfoldable pub free_table : Table D → Outcome (Table D)
  unfolding enumerate
  free_table t = enumerate t >>= λ calls. elim calls [
    | [] ↦ done (record { size = 0; table = none })
    | _ ∷ _ ↦ fault
  ]
