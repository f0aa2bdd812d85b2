-- ===== src/ExoArrayList/DelValue.antt =====
-- The loop of `delfeatvalue`.
use nwnx2_windows.Prelude.{
  ℕ, zero, suc, ◌+◌, ◌<◌, ◌≤◌, ◌≡◌, ◌≢◌, refl, sym, ap, ◌∙◌, false, inl, inr, ltb, leb, ◌==◌,
  ==_iff, if◌then◌else◌, get_or, Bool-cases, arith,
}
use nwnx2_windows.ExoArrayList.{ArrayList, delfeatindex, delfeatvalue_from, delfeatvalue}
use nwnx2_windows.ExoArrayList.Items.{Valid, items, count, is_one, get_inside, delfeatindex-count}

-- what a deletion may change: elements with the value `val` only
pub record Thinned (val : ℕ) (list list' : ArrayList) : Type 0 where
  pub valid : Valid list'
  pub shorter : list'.len ≤ list.len
  pub others : (v : ℕ) → v ≢ val → count v (items list') ≡ count v (items list)
  pub fewer : count val (items list') ≤ count val (items list)

Thinned-refl : (val : ℕ) (list : ArrayList) → Valid list → Thinned val list list
Thinned-refl val list is = record {
  valid = is;
  shorter = omega arith;
  others = λ v h. refl;
  fewer = omega arith;
}

Thinned-trans :
    (val : ℕ) (list list' list'' : ArrayList)
    → Thinned val list list'
    → Thinned val list' list''
    → Thinned val list list''
Thinned-trans val list list' list'' s t = record {
  valid = t.valid;
  shorter = omega (arith, s.shorter, t.shorter);
  others = λ v h. t.others v h ∙ s.others v h;
  fewer = omega (arith, s.fewer, t.fewer);
}

delfeatindex-shorter : (list : ArrayList) (i : ℕ) → (delfeatindex list i).0.len ≤ list.len
unfolding delfeatindex
delfeatindex-shorter list i = elim (Bool-cases (leb list.len i)) [
  | inl outside ↦ rw outside (omega arith)
  | inr inside ↦ rw inside (omega arith)
]

delfeatindex-Thinned :
    (list : ArrayList) (val i : ℕ)
    → Valid list
    → i < list.len
    → get_or list.data_of i 0 ≡ val
    → Thinned val list (delfeatindex list i).0
delfeatindex-Thinned list val i is inside here =
    let (valid, returns, counted) = delfeatindex-count list i is inside in
    let e = get_inside list i inside ∙ here in
    record {
      valid = valid;
      shorter = delfeatindex-shorter list i;
      others = λ v h. other v h (counted v) e;
      fewer = omega (arith, counted val);
    }
  where
    other : (v : ℕ) {a b x : ℕ} → v ≢ val → a + is_one v x ≡ b → x ≡ val → a ≡ b
    other v h g e = ground arith

delfeatvalue_from-Thinned :
    (n : ℕ) (list : ArrayList) (val i : ℕ)
    → Valid list
    → Thinned val list (delfeatvalue_from n list val i)
unfolding delfeatvalue_from
delfeatvalue_from-Thinned zero list val i is = Thinned-refl val list is
delfeatvalue_from-Thinned (suc n) list val i is = elim (Bool-cases (ltb i list.len)) [
  | inr done_here ↦ rw done_here (Thinned-refl val list is)
  | inl inside ↦ elim (Bool-cases (get_or list.data_of i 0 == val)) [
    | inr other ↦ rw (inside, other) (delfeatvalue_from-Thinned n list val (i + 1) is)
    | inl here ↦
        let less : i < list.len = ground (arith, inside) in
        let thin =
          delfeatindex-Thinned list val i is less ((==_iff (get_or list.data_of i 0) val).0 here) in
        rw (inside, here)
          (Thinned-trans val list (delfeatindex list i).0 _ thin
            (delfeatvalue_from-Thinned n (delfeatindex list i).0 val (i + 1) thin.valid))
  ]
]

-- The loop is over after one round for each element: more fuel changes nothing.
delfeatvalue_from-enough :
    (n : ℕ) (list : ArrayList) (val i : ℕ)
    → list.len ≤ i + n
    → delfeatvalue_from (suc n) list val i ≡ delfeatvalue_from n list val i
unfolding delfeatvalue_from
delfeatvalue_from-enough zero list val i h =
    let e : ltb i list.len ≡ false = ground (arith, h) in rw e refl
delfeatvalue_from-enough (suc n) list val i h =
    ap (λ r. if ltb i list.len then r else list)
      (delfeatvalue_from-enough n (round list val i) val (i + 1) (shorter list val i h))
  where
    round : ArrayList → ℕ → ℕ → ArrayList
    round list val i = if get_or list.data_of i 0 == val then (delfeatindex list i).0 else list

    shorter :
        (list : ArrayList) (val i : ℕ) → list.len ≤ i + suc n → (round list val i).len ≤ i + 1 + n
    shorter list val i h = elim (Bool-cases (get_or list.data_of i 0 == val)) [
      | inl here ↦ rw (round, here) (omega (arith, delfeatindex-shorter list i))
      | inr other ↦ rw (round, other) (omega arith)
    ]

-- On a valid array `delfeatvalue` leaves a valid array, returns its length, takes away no element but
-- of the value, and one round for each element is enough for its loop.
pub delfeatvalue-Thinned :
    (list : ArrayList) (val : ℕ)
    → Valid list
    → Thinned val list (delfeatvalue list val).0
      × ((delfeatvalue list val).1 ≡ (delfeatvalue list val).0.len)
      × ((delfeatvalue list val).0 ≡ delfeatvalue_from (suc list.len) list val 0)
unfolding delfeatvalue
delfeatvalue-Thinned list val is = (
  delfeatvalue_from-Thinned list.len list val 0 is,
  refl,
  sym (delfeatvalue_from-enough list.len list val 0 (omega arith)),
)
