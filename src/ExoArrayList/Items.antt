-- ===== src/ExoArrayList/Items.antt =====
-- The array as the sequence, or the bag, of its elements.
use nwnx2_windows.Prelude.{
  ℕ, zero, suc, ◌+◌, ◌-◌, ◌<◌, ◌≤◌, ◌≡◌, ◌≢◌, refl, sym, ap, ◌∙◌, Bool, true, false, inl, inr,
  Option, none, some, List, [], ◌∷◌, ◌++◌, Returns, ltb, leb, ◌==◌, ==_iff, if◌then◌else◌, length,
  get_or, set, take, length-set, length-append, Bool-cases, arith,
}
use nwnx2_windows.ExoArrayList.{ArrayList, store, add, delfeatindex, contains_from, contains, get}

pub record Valid (list : ArrayList) : Type 0 where
  pub width : length list.data_of ≡ list.alloc
  pub fits : list.len ≤ list.alloc

abbrev pub items : ArrayList → List ℕ
items list = take list.len list.data_of

abbrev pub is_one : ℕ → ℕ → ℕ
is_one v x = if x == v then 1 else 0

-- how often a value stands in a list
abbrev pub count : ℕ → List ℕ → ℕ
count v [] = 0
count v (x ∷ xs) = is_one v x + count v xs

take-set : (xs : List ℕ) (n v : ℕ) → n < length xs → take (suc n) (set xs n v) ≡ take n xs ++ v ∷ []
take-set [] n v h = absurd (omega arith)
take-set (x ∷ xs) zero v h = refl
take-set (x ∷ xs) (suc n) v h = ap (λ r. x ∷ r) (take-set xs n v (omega arith))

take-append : (xs ys : List ℕ) (n : ℕ) → n ≤ length xs → take n (xs ++ ys) ≡ take n xs
take-append xs ys zero h = refl
take-append [] ys (suc n) h = absurd (omega arith)
take-append (x ∷ xs) ys (suc n) h = ap (λ r. x ∷ r) (take-append xs ys n (omega arith))

count-take :
    (v : ℕ) (xs : List ℕ) (n : ℕ)
    → n < length xs
    → count v (take (suc n) xs) ≡ count v (take n xs) + is_one v (get_or xs n 0)
count-take v [] n h = absurd (omega arith)
count-take v (x ∷ xs) zero h = omega arith
count-take v (x ∷ xs) (suc n) h = omega (arith, count-take v xs n (omega arith))

count-set :
    (v : ℕ) (xs : List ℕ) (n i w : ℕ)
    → i < n
    → n ≤ length xs
    → count v (take n (set xs i w)) + is_one v (get_or xs i 0) ≡ count v (take n xs) + is_one v w
count-set v [] n i w h g = absurd (omega arith)
count-set v (x ∷ xs) zero i w h g = absurd (omega arith)
count-set v (x ∷ xs) (suc n) zero w h g = omega arith
count-set v (x ∷ xs) (suc n) (suc i) w h g =
    omega (arith, count-set v xs n i w (omega arith) (omega arith))

store-Valid :
    (list : ArrayList) (val : ℕ)
    → Valid list
    → list.len < list.alloc
    → Returns
        (store list val)
        λ r. Valid r.0 × (items r.0 ≡ items list ++ val ∷ []) × (r.1 ≡ some (list.len + 1))
unfolding store
store-Valid list val is room =
    let e : ltb list.len (length list.data_of) ≡ true = ground (arith, is.width, room) in
    let next : list.len + 1 ≡ suc list.len = omega arith in
    (
      (
        record list { data_of = set list.data_of list.len val; len = list.len + 1 },
        some (list.len + 1),
      ),
      rw e refl,
      (
        record {
          width = length-set list.data_of list.len val ∙ is.width;
          fits = omega (arith, room);
        },
        rw next (take-set list.data_of list.len val (omega (arith, is.width))),
        refl,
      ),
    )

-- Adding to a valid array appends the value, returns the new length, and leaves a valid array, where
-- the memory, if it is full, grows by one cell at least.
pub add-Valid :
    (list : ArrayList) (val cell : ℕ) (cells : List ℕ)
    → Valid list
    → Returns
        (add list val (some (cell ∷ cells)))
        λ r. Valid r.0 × (items r.0 ≡ items list ++ val ∷ []) × (r.1 ≡ some (list.len + 1))
unfolding add
add-Valid list val cell cells is = elim (Bool-cases (list.len == list.alloc)) [
  | inr room ↦ rw room (store-Valid list val is (ground (arith, room, is.fits)))
  | inl full ↦
      let bigger = record list {
        data_of = list.data_of ++ cell ∷ cells;
        alloc = list.alloc + length (cell ∷ cells);
      } in
      let valid : Valid bigger = record {
        width =
            length-append list.data_of (cell ∷ cells)
            ∙ ap (λ n. n + length (cell ∷ cells)) is.width;
        fits = omega (arith, is.fits);
      } in
      let (r, run, (v, appended, count)) = store-Valid bigger val valid (omega (arith, is.fits)) in
      (
        r,
        rw full run,
        (
          v,
          appended
              ∙ ap (λ xs. xs ++ val ∷ [])
                  (take-append list.data_of (cell ∷ cells) list.len
                    (omega (arith, is.fits, is.width))),
          count,
        ),
      )
]

-- the last element moves to the index
abbrev swapped : List ℕ → ℕ → ℕ → List ℕ
swapped xs idx n = if ltb idx n then set xs idx (get_or xs n 0) else xs

length-swapped : (xs : List ℕ) (idx n : ℕ) → length (swapped xs idx n) ≡ length xs
length-swapped xs idx n = choose (ltb idx n)
  where
    choose : (b : Bool) → length (if b then set xs idx (get_or xs n 0) else xs) ≡ length xs
    choose true = length-set xs idx (get_or xs n 0)
    choose false = refl

count-swapped :
    (v : ℕ) (xs : List ℕ) (idx n : ℕ)
    → idx ≤ n
    → n < length xs
    → count v (take n (swapped xs idx n)) + is_one v (get_or xs idx 0) ≡ count v (take (suc n) xs)
count-swapped v xs idx n h g = elim (Bool-cases (ltb idx n)) [
  | inl before ↦ rw before (
      count-set v xs n idx (get_or xs n 0) (ground (arith, before)) (omega arith)
      ∙ sym (count-take v xs n g))
  | inr other ↦
      let last : n ≡ idx = ground (arith, other, h) in
      rw other (
        ap (λ i. count v (take n xs) + is_one v (get_or xs i 0)) (sym last)
        ∙ sym (count-take v xs n g))
]

delfeatindex_inside :
    (list : ArrayList) (idx : ℕ)
    → idx < list.len
    → delfeatindex list idx ≡ (
      record list { data_of = swapped list.data_of idx (list.len - 1); len = list.len - 1 },
      some (list.len - 1),
    )
unfolding delfeatindex
delfeatindex_inside list idx h = let e : leb list.len idx ≡ false = ground (arith, h) in rw e refl

pub get_inside :
    (list : ArrayList) (idx : ℕ) → idx < list.len → get list idx ≡ get_or list.data_of idx 0
unfolding get
get_inside list idx h = let e : leb list.len idx ≡ false = ground (arith, h) in rw e refl

-- Deleting an index of a valid array takes away one of the element at the index and nothing else,
-- though the order may change; it returns the new length and leaves a valid array.
pub delfeatindex-count :
    (list : ArrayList) (idx : ℕ)
    → Valid list
    → idx < list.len
    → Valid (delfeatindex list idx).0
      × ((delfeatindex list idx).1 ≡ some (list.len - 1))
      × ((v : ℕ)
          → count v (items (delfeatindex list idx).0) + is_one v (get list idx)
            ≡ count v (items list))
delfeatindex-count list idx is inside =
    let e : suc (list.len - 1) ≡ list.len = omega (arith, inside) in
    rw (delfeatindex_inside list idx inside, get_inside list idx inside)
      (
        record {
          width = length-swapped list.data_of idx (list.len - 1) ∙ is.width;
          fits = omega (arith, is.fits);
        },
        refl,
        λ v.
            count-swapped v list.data_of idx (list.len - 1) (omega (arith, inside))
              (omega (arith, inside, is.fits, is.width))
            ∙ ap (λ n. count v (take n list.data_of)) e,
      )

-- where a search for a value, from `i` for `n` more indices, ends
pub data Searched (xs : List ℕ) (val i n : ℕ) : Option ℕ → Type 0 where
  absent : ((j : ℕ) → i ≤ j → j < i + n → get_or xs j 0 ≢ val) → Searched xs val i n none
  present :
      {k : ℕ}
      → i ≤ k
      → k < i + n
      → get_or xs k 0 ≡ val
      → ((j : ℕ) → i ≤ j → j < k → get_or xs j 0 ≢ val)
      → Searched xs val i n (some k)

-- one index more at the front
extend :
    (xs : List ℕ) (val i k : ℕ)
    → get_or xs i 0 ≢ val
    → ((j : ℕ) → i + 1 ≤ j → j < k → get_or xs j 0 ≢ val)
    → (j : ℕ) → i ≤ j
    → j < k
    → get_or xs j 0 ≢ val
extend xs val i k h away j lo hi = elim (Bool-cases (i == j)) [
  | inl same ↦ λ e. h (ap (λ m. get_or xs m 0) ((==_iff i j).0 same) ∙ e)
  | inr other ↦ away j (ground (arith, other)) hi
]

step_search :
    (xs : List ℕ) (val i n : ℕ) (o : Option ℕ)
    → get_or xs i 0 ≢ val
    → Searched xs val (i + 1) n o
    → Searched xs val i (suc n) o
step_search xs val i n none h (absent away) =
    absent (extend xs val i (i + suc n) h (λ j lo hi. away j lo (omega arith)))
step_search xs val i n (some k) h (present lo hi here away) =
    present (omega arith) (omega arith) here (extend xs val i k h away)

contains_from-Searched :
    (list : ArrayList) (val n i : ℕ) → Searched list.data_of val i n (contains_from list val n i)
unfolding contains_from
contains_from-Searched list val zero i = absent (λ j lo hi. absurd (omega arith))
contains_from-Searched list val (suc n) i = elim (Bool-cases (get_or list.data_of i 0 == val)) [
  | inl here ↦ rw here (
      present (omega arith) (omega arith) ((==_iff (get_or list.data_of i 0) val).0 here)
        (λ j lo hi. absurd (omega arith)))
  | inr other ↦ rw other (
      step_search list.data_of val i n (contains_from list val n (i + 1))
        (differ (get_or list.data_of i 0) val other) (contains_from-Searched list val n (i + 1)))
]
  where
    differ : (a b : ℕ) → (a == b) ≡ false → a ≢ b
    differ a b h = ground arith

-- A search gives the lowest index in use at which the value stands, and -1 exactly where the value
-- stands at none.
pub contains-Searched :
    (list : ArrayList) (val : ℕ) → Searched list.data_of val 0 list.len (contains list val)
unfolding contains
contains-Searched list val = contains_from-Searched list val list.len 0
