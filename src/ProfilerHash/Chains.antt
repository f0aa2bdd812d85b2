-- ===== src/ProfilerHash/Chains.antt =====
-- The loops over one chain: what a key reads before and after.
use nwnx2_windows.Prelude.{
  ◌≡◌, refl, sym, ap, ◌∙◌, Bool, true, false, ◌⊎◌, inl, inr, Option, none, some, List, [], ◌∷◌,
  Text, text_eq, text_eq_refl, eq_of_text_eq, if◌then◌else◌, Bool-cases, arith,
}
use nwnx2_windows.ProfilerHash.{Bucket, replace, insert_chain, find, unlink}

clash : {b : Bool} → b ≡ true → b ≡ false → ⊥
clash h g = cc

text_eq-false : (k q : Text) → (k ≡ q → ⊥) → text_eq k q ≡ false
text_eq-false k q h = elim (Bool-cases (text_eq k q)) [
  | inl same ↦ absurd (h (eq_of_text_eq k q same))
  | inr other ↦ other
]

text_eq_of_eq : (k q : Text) → k ≡ q → text_eq k q ≡ true
text_eq_of_eq k q e = rw e (text_eq_refl q)

-- two keys are the same or not, in both orders of comparison
pub Same : Text → Text → Type 0
Same k q =
    ((k ≡ q) × (text_eq k q ≡ true) × (text_eq q k ≡ true))
    ⊎ ((text_eq k q ≡ false) × (text_eq q k ≡ false))

pub Same-cases : (k q : Text) → Same k q
unfolding Same
Same-cases k q = elim (Bool-cases (text_eq k q)) [
  | inl same ↦ let e = eq_of_text_eq k q same in inl (e, same, text_eq_of_eq q k (sym e))
  | inr other ↦ inr (other, text_eq-false q k (λ e. clash (text_eq_of_eq k q (sym e)) other))
]

module _ {ℓ} {D : Type ℓ} where
  -- no key stands twice in the chain
  abbrev pub Distinct : List (Bucket D) → Type ℓ
  Distinct [] = Unit
  Distinct (node ∷ chain) = (find node.key chain ≡ none) × Distinct chain

  -- a new or replaced entry
  abbrev pub put : Text → Text → D → Option D → Option D
  put k q d old = if text_eq k q then some d else old

  find_cons_same :
      (k : Text) (node : Bucket D) (chain : List (Bucket D))
      → text_eq k node.key ≡ true
      → find k (node ∷ chain) ≡ some node.data_of
  unfolding find
  find_cons_same k node chain h = rw h refl

  find_cons_other :
      (k : Text) (node : Bucket D) (chain : List (Bucket D))
      → text_eq k node.key ≡ false
      → find k (node ∷ chain) ≡ find k chain
  unfolding find
  find_cons_other k node chain h = rw h refl

  -- the head's key leads the chain
  find_cons_put :
      (k q : Text) (d : D) (chain : List (Bucket D))
      → find q (record { key = k; data_of = d } ∷ chain) ≡ put k q d (find q chain)
  unfolding find Same
  find_cons_put k q d chain = elim (Same-cases k q) [
    | inl (e, kq, qk) ↦ rw (kq, qk) refl
    | inr (kq, qk) ↦ rw (kq, qk) refl
  ]

  -- what `replace` finds, and what it leaves
  data Replaced (k : Text) (d : D) (chain : List (Bucket D))
      : Option (D × List (Bucket D)) → Type ℓ where
    missing : find k chain ≡ none → Replaced k d chain none
    found :
        {old : D} {chain' : List (Bucket D)}
        → find k chain ≡ some old
        → ((q : Text) → find q chain' ≡ put k q d (find q chain))
        → (Distinct chain → Distinct chain')
        → Replaced k d chain (some (old, chain'))

  put-put : (k q : Text) (d e : D) (o : Option D) → put k q d (put k q e o) ≡ put k q d o
  put-put k q d e o = ground arith

  put_swap :
      (k k' q : Text) (x : Option D) (e : D) (o : Option D)
      → text_eq k k' ≡ false
      → (if text_eq k q then x else put k' q e o) ≡ put k' q e (if text_eq k q then x else o)
  put_swap k k' q x e o h = elim (Bool-cases (text_eq k q)) [
    | inl kq ↦ elim (Bool-cases (text_eq k' q)) [
      | inl kq' ↦
          absurd
            (clash (text_eq_of_eq k k' (eq_of_text_eq k q kq ∙ sym (eq_of_text_eq k' q kq'))) h)
      | inr other ↦ rw (kq, other) refl
    ]
    | inr other ↦ rw other refl
  ]

  -- the head has the key
  Replaced-head :
      (k : Text) (d : D) (node : Bucket D) (chain : List (Bucket D))
      → text_eq k node.key ≡ true
      → Replaced k d (node ∷ chain) (some (node.data_of, record node { data_of = d } ∷ chain))
  Replaced-head k d node chain h =
      let e = eq_of_text_eq k node.key h in
      found (find_cons_same k node chain h)
        (λ q.
          find_cons_put node.key q d chain
          ∙ sym (put-put node.key q d node.data_of (find q chain))
          ∙ ap (put node.key q d) (sym (find_cons_put node.key q node.data_of chain))
          ∙ ap (λ x. put x q d (find q (node ∷ chain))) (sym e))
        (λ distinct. distinct)

  -- the head has another key
  Replaced-tail :
      (k : Text) (d : D) (node : Bucket D) (chain : List (Bucket D))
      (o : Option (D × List (Bucket D)))
      → text_eq k node.key ≡ false
      → Replaced k d chain o
      → Replaced k d
          (node ∷ chain)
          (elim o [ none ↦ none | some (old, chain') ↦ some (old, node ∷ chain') ])
  Replaced-tail k d node chain none h (missing e) = missing (find_cons_other k node chain h ∙ e)
  Replaced-tail k d node chain (some (old, chain')) h (found e reads keeps) =
      found (find_cons_other k node chain h ∙ e) (λ q. cons_reads q)
        (λ (absent, distinct). (reads node.key ∙ rw h absent, keeps distinct))
    where
      cons_reads : (q : Text) → find q (node ∷ chain') ≡ put k q d (find q (node ∷ chain))
      cons_reads q =
          find_cons_put node.key q node.data_of chain'
          ∙ ap (put node.key q node.data_of) (reads q)
          ∙ sym (put_swap k node.key q (some d) node.data_of (find q chain) h)
          ∙ ap (put k q d) (sym (find_cons_put node.key q node.data_of chain))

  replace-Replaced :
      (k : Text) (d : D) (chain : List (Bucket D)) → Replaced k d chain (replace k d chain)
  unfolding replace find
  replace-Replaced k d [] = missing refl
  replace-Replaced k d (node ∷ chain) = elim (Bool-cases (text_eq k node.key)) [
    | inl same ↦ rw same (Replaced-head k d node chain same)
    | inr other ↦
        rw other
          (Replaced-tail k d node chain (replace k d chain) other (replace-Replaced k d chain))
  ]

  -- what `insert` returns and what its key reads afterwards, if it read `old` before
  abbrev pub returned_data : Bool → D → Option D → Option D
  returned_data node_given d old = elim old [
    | none ↦ if node_given then some d else none
    | some x ↦ some x
  ]

  abbrev pub kept_data : Bool → D → Option D → Option D
  kept_data node_given d old = elim old [
    | none ↦ if node_given then some d else none
    | some x ↦ some d
  ]

  -- what `insert` leaves of a chain, and what it returns
  pub record Put (node_given : Bool) (k : Text) (d : D) (chain : List (Bucket D))
      (r : List (Bucket D) × Option D) : Type ℓ where
    pub returns : r.1 ≡ returned_data node_given d (find k chain)
    pub reads :
        (q : Text)
        → find q r.0 ≡ (if text_eq k q then kept_data node_given d (find k chain) else find q chain)
    pub keeps : Distinct chain → Distinct r.0

  Put-added :
      (k : Text) (d : D) (chain : List (Bucket D))
      → find k chain ≡ none
      → Put true k d chain (record { key = k; data_of = d } ∷ chain, some d)
  Put-added k d chain e = record {
    returns = rw e refl;
    reads = λ q. rw e (find_cons_put k q d chain);
    keeps = λ distinct. (e, distinct);
  }

  Put-refused :
      (k : Text) (d : D) (chain : List (Bucket D))
      → find k chain ≡ none
      → Put false k d chain (chain, none)
  Put-refused k d chain e = record {
    returns = rw e refl;
    reads = λ q. rw e (elim (Bool-cases (text_eq k q)) [
      | inl same ↦ rw same (ap (λ x. find x chain) (sym (eq_of_text_eq k q same)) ∙ e)
      | inr other ↦ rw other refl
    ]);
    keeps = λ distinct. distinct;
  }

  Put-of_Replaced :
      (given : Bool) (k : Text) (d : D) (chain : List (Bucket D)) (o : Option (D × List (Bucket D)))
      → Replaced k d chain o
      → Put given k d chain (elim o [
        | some (old, chain') ↦ (chain', some old)
        | none ↦ if given then (record { key = k; data_of = d } ∷ chain, some d) else (chain, none)
      ])
  Put-of_Replaced true k d chain none (missing e) = Put-added k d chain e
  Put-of_Replaced false k d chain none (missing e) = Put-refused k d chain e
  Put-of_Replaced given k d chain (some (old, chain')) (found e reads keeps) = record {
    returns = rw e refl;
    reads = λ q. rw e (reads q);
    keeps = keeps;
  }

  pub insert_chain-Put :
      (given : Bool) (k : Text) (d : D) (chain : List (Bucket D))
      → Put given k d chain (insert_chain given k d chain)
  unfolding insert_chain find
  insert_chain-Put true k d [] = Put-added k d [] refl
  insert_chain-Put false k d [] = Put-refused k d [] refl
  insert_chain-Put given k d (node ∷ chain) =
      Put-of_Replaced given k d (node ∷ chain) (replace k d (node ∷ chain))
        (replace-Replaced k d (node ∷ chain))

  -- what `del` leaves of a chain without repeated keys, and what it returns
  pub record Cut (k : Text) (chain : List (Bucket D)) (r : List (Bucket D) × Option D)
      : Type ℓ where
    pub returns : r.1 ≡ find k chain
    pub reads : (q : Text) → find q r.0 ≡ (if text_eq k q then none else find q chain)
    pub keeps : Distinct r.0

  Cut-tail :
      (k : Text) (node : Bucket D) (chain : List (Bucket D)) (r : List (Bucket D) × Option D)
      → text_eq k node.key ≡ false
      → find node.key chain ≡ none
      → Cut k chain r
      → Cut k (node ∷ chain) (node ∷ r.0, r.1)
  Cut-tail k node chain r h absent w = record {
    returns = w.returns ∙ sym (find_cons_other k node chain h);
    reads = λ q.
        find_cons_put node.key q node.data_of r.0
        ∙ ap (put node.key q node.data_of) (w.reads q)
        ∙ sym (put_swap k node.key q none node.data_of (find q chain) h)
        ∙ ap (λ x. if text_eq k q then none else x)
            (sym (find_cons_put node.key q node.data_of chain));
    keeps = (w.reads node.key ∙ rw h absent, w.keeps);
  }

  Cut-head :
      (k : Text) (node : Bucket D) (chain : List (Bucket D))
      → text_eq k node.key ≡ true
      → Distinct (node ∷ chain)
      → Cut k (node ∷ chain) (chain, some node.data_of)
  Cut-head k node chain h (absent, distinct) = record {
    returns = sym (find_cons_same k node chain h);
    reads = λ q. elim (Bool-cases (text_eq k q)) [
      | inl kq ↦
          let e = sym (eq_of_text_eq k q kq) ∙ eq_of_text_eq k node.key h in
          rw kq (ap (λ x. find x chain) e ∙ absent)
      | inr other ↦ rw other (
          sym (
            find_cons_put node.key q node.data_of chain
            ∙ rw (ap (λ x. text_eq x q) (sym (eq_of_text_eq k node.key h)) ∙ other) refl))
    ];
    keeps = distinct;
  }

  pub unlink-Cut :
      (k : Text) (chain : List (Bucket D)) → Distinct chain → Cut k chain (unlink k chain)
  unfolding unlink find
  unlink-Cut k [] distinct = record { returns = refl; reads = λ q. ground arith; keeps = tt }
  unlink-Cut k (node ∷ chain) distinct = elim (Bool-cases (text_eq k node.key)) [
    | inl same ↦ rw same (Cut-head k node chain same distinct)
    | inr other ↦
        rw other
          (Cut-tail k node chain (unlink k chain) other distinct.0 (unlink-Cut k chain distinct.1))
  ]
