-- ===== src/ProfilerHash/Laws.antt =====
-- The profiler's table as a map from keys to data.
use nwnx2_windows.Prelude.{
  ℕ, zero, suc, ◌%◌, ◌<◌, ◌≡◌, refl, sym, ap, ◌∙◌, Bool, true, false, inl, inr, Option, none, some,
  List, [], ◌∷◌, ◌++◌, Text, text_eq, eq_of_text_eq, done, fault, ◌>>=◌, Returns, ◌==◌, ==_iff,
  if◌then◌else◌, length, get_elem?, get_or, set, replicate, length-set, length-replicate,
  get_or-replicate, get_or-set, Bool-cases, arith,
}
use nwnx2_windows.ProfilerHash.{
  Bucket, Table, hash, construct_table, slot, chain_at, with_chain, insert_chain, insert, find,
  lookup, unlink, del, chain_calls, all_calls, enumerate, free_table,
}
use nwnx2_windows.ProfilerHash.Chains.{
  Distinct, returned_data, kept_data, insert_chain-Put, unlink-Cut,
}

abbrev pub Chains {ℓ} : Type ℓ → Type ℓ
Chains D = List (List (Bucket D))

module _ {ℓ} {D : Type ℓ} where
  -- a constructed table: `chains` are its chains, and no key stands twice in one
  pub record Holds (t : Table D) (chains : Chains D) : Type ℓ where
    pub points : t.table ≡ some chains
    pub width : t.size ≡ length chains
    pub positive : 0 < length chains
    pub distinct : (i : ℕ) → Distinct (get_or chains i [])

  -- the chain of a key
  abbrev pub home : Chains D → Text → ℕ
  home chains k = hash k 42 % length chains

  abbrev pub chain_of : Chains D → Text → List (Bucket D)
  chain_of chains k = get_or chains (home chains k) []

  get_elem?-get_or :
      (chains : Chains D) (i : ℕ)
      → i < length chains
      → get_elem? chains i ≡ some (get_or chains i [])
  get_elem?-get_or [] i h = absurd (omega arith)
  get_elem?-get_or (c ∷ chains) zero h = refl
  get_elem?-get_or (c ∷ chains) (suc i) h = get_elem?-get_or chains i (omega arith)

  home-lt : (chains : Chains D) (k : Text) → 0 < length chains → home chains k < length chains
  home-lt chains k h = omega arith

  -- A table of at least one chain is empty and well formed.
  pub construct_table-Holds : (n : ℕ) → 0 < n → Holds (construct_table true n) (replicate n [])
  unfolding construct_table
  construct_table-Holds n h = record {
    points = refl;
    width = sym (length-replicate n []);
    positive = let w = length-replicate {ℓ} {A = List (Bucket D)} n [] in omega (arith, w);
    distinct = λ i. rw (get_or-replicate {ℓ} {A = List (Bucket D)} n i []) tt;
  }

  module _ {t : Table D} {chains : Chains D} (is : Holds t chains) where
    slot_lem : (k : Text) → slot t k ≡ done (home chains k)
    unfolding slot
    slot_lem k = rw is.width (ground (arith, is.positive))

    chain_at_lem : (i : ℕ) → i < length chains → chain_at t i ≡ done (get_or chains i [])
    unfolding chain_at
    chain_at_lem i h = ground (arith, is.points, get_elem?-get_or chains i h)

    pub lookup_lem : (k : Text) → lookup k t ≡ done (find k (chain_of chains k))
    unfolding lookup
    lookup_lem k = rw (slot_lem k, chain_at_lem (home chains k) (home-lt chains k is.positive)) refl

    with_chain-Holds :
        (i : ℕ) (chain : List (Bucket D))
        → i < length chains
        → Distinct chain
        → Holds (with_chain t i chain) (set chains i chain)
    unfolding with_chain
    with_chain-Holds i chain inside new = record {
      points = rw is.points refl;
      width = is.width ∙ sym (length-set chains i chain);
      positive = omega (arith, is.positive, length-set {ℓ} chains i chain);
      distinct = λ j.
          rw (get_or-set chains i j chain [] inside)
            (pick (i == j) chain (get_or chains j []) new (is.distinct j));
    }
      where
        pick :
            (b : Bool) (x y : List (Bucket D))
            → Distinct x
            → Distinct y
            → Distinct (if b then x else y)
        pick true x y p q = p
        pick false x y p q = q

  -- one chain is replaced by a chain in which only the key `k` reads something else
  find-set :
      (chains : Chains D) (k q : Text) (chain : List (Bucket D)) (x : Option D)
      → 0 < length chains
      → ((q : Text) → find q chain ≡ (if text_eq k q then x else find q (chain_of chains k)))
      → find q (chain_of (set chains (home chains k) chain) q)
        ≡ (if text_eq k q then x else find q (chain_of chains q))
  find-set chains k q chain x h reads =
      rw
        (
          length-set,
          get_or-set chains (home chains k) (home chains q) chain [] (home-lt chains k h),
        )
        (elim (Bool-cases (home chains k == home chains q)) [
          | inl same ↦
              let e = (==_iff (home chains k) (home chains q)).0 same in
              rw same (reads q ∙ ap (λ i. if text_eq k q then x else find q (get_or chains i [])) e)
          | inr other ↦ rw other (elim (Bool-cases (text_eq k q)) [
            | inl kq ↦ absurd (apart (eq_of_text_eq k q kq) other)
            | inr not_kq ↦ rw not_kq refl
          ])
        ])
    where
      apart : k ≡ q → (home chains k == home chains q) ≡ false → ⊥
      apart e h = clash (rw e ((==_iff (home chains q) (home chains q)).1 refl)) h
        where
          clash : {b : Bool} → b ≡ true → b ≡ false → ⊥
          clash h g = cc

module _ {ℓ} {D : Type ℓ} {t : Table D} {chains : Chains D} (is : Holds t chains) where
  done_if : (b : Bool) (x y : Option D) → done (if b then x else y) ≡ (if b then done x else done y)
  done_if true x y = refl
  done_if false x y = refl

  -- On a constructed table an insertion ends normally and leaves a well-formed table. A key that read
  -- data before is given the new data, and the old data are returned. For a key that read NULL the
  -- new data are entered and returned if malloc gives a node; if it gives none, NULL is returned and
  -- the key goes on reading NULL. Every other key reads what it read before.
  pub lookup-insert_chained :
      (given : Bool) (k q : Text) (d : D)
      → Returns (insert given k d t) λ r.
        ((chains' : Chains D) × Holds r.0 chains' × (length chains' ≡ length chains))
        × (lookup k t >>= (λ old. done (returned_data given d old)) ≡ done r.1)
        × (lookup q r.0 ≡ (
            if text_eq k q
            then lookup k t >>= (λ old. done (kept_data given d old))
            else lookup q t))
  unfolding insert
  lookup-insert_chained given k q d =
      let old = find k (chain_of chains k) in
      let x = kept_data given d old in
      let w = insert_chain-Put given k d (chain_of chains k) in
      let inside = home-lt chains k is.positive in
      let chain' = (insert_chain given k d (chain_of chains k)).0 in
      let holds = with_chain-Holds is (home chains k) chain' inside (w.keeps (is.distinct _)) in
      (
        (with_chain t (home chains k) chain', (insert_chain given k d (chain_of chains k)).1),
        rw (slot_lem is k, chain_at_lem is (home chains k) inside) refl,
        (
          (set chains (home chains k) chain', holds, length-set chains (home chains k) chain'),
          rw (lookup_lem is k) (ap done (sym w.returns)),
          lookup_lem holds q
              ∙ ap done (find-set chains k q chain' x is.positive w.reads)
              ∙ done_if (text_eq k q) x (find q (chain_of chains q))
              ∙ rw (lookup_lem is k, lookup_lem is q) refl,
        ),
      )

  -- On a constructed table a deletion ends normally and leaves a well-formed table. It returns what
  -- the key read before; afterwards the key reads NULL, and every other key what it read before.
  pub lookup-del :
      (k q : Text)
      → Returns (del k t) λ r.
        ((chains' : Chains D) × Holds r.0 chains' × (length chains' ≡ length chains))
        × (lookup k t ≡ done r.1)
        × (lookup q r.0 ≡ (if text_eq k q then done none else lookup q t))
  unfolding del
  lookup-del k q =
      let w = unlink-Cut k (chain_of chains k) (is.distinct _) in
      let inside = home-lt chains k is.positive in
      let chain' = (unlink k (chain_of chains k)).0 in
      let holds = with_chain-Holds is (home chains k) chain' inside w.keeps in
      (
        (with_chain t (home chains k) chain', (unlink k (chain_of chains k)).1),
        rw (slot_lem is k, chain_at_lem is (home chains k) inside) refl,
        (
          (set chains (home chains k) chain', holds, length-set chains (home chains k) chain'),
          lookup_lem is k ∙ ap done (sym w.returns),
          lookup_lem holds q
              ∙ ap done (find-set chains k q chain' none is.positive w.reads)
              ∙ done_if (text_eq k q) none (find q (chain_of chains q))
              ∙ ap (λ x. if text_eq k q then done none else x) (sym (lookup_lem is q)),
        ),
      )

  some_call :
      (chains : Chains D) (i : ℕ) (k : Text) (d : D)
      → find k (get_or chains i []) ≡ some d
      → (c : Text × D) × (cs : List (Text × D)) × (all_calls chains ≡ c ∷ cs)
  unfolding find
  some_call [] i k d e = cc
  some_call ([] ∷ chains) zero k d e = cc
  some_call ((node ∷ chain) ∷ chains) i k d e =
      ((node.key, node.data_of), chain_calls chain ++ all_calls chains, refl)
  some_call ([] ∷ chains) (suc i) k d e = some_call chains i k d e

  -- Freeing a constructed table in which some key reads data is a read of freed memory.
  pub free_table-fault : (k : Text) (d : D) → lookup k t ≡ done (some d) → free_table t ≡ fault
  unfolding free_table enumerate
  free_table-fault k d there =
      let (c, cs, e) =
        some_call chains (home chains k) k d (un_done (sym (lookup_lem is k) ∙ there)) in
      rw (is.points, e) refl
    where
      un_done : {x y : Option D} → done x ≡ done y → x ≡ y
      un_done h = cc
