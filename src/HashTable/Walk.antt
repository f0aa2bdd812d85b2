-- ===== src/HashTable/Walk.antt =====
-- `GetFirstItem` and `GetNextItem`: the iteration visits every item once, in slot order.
use nwnx2_windows.Prelude.{
  ℕ, zero, suc, ◌+◌, ◌-◌, ◌≤◌, ◌<◌, ◌≡◌, refl, ap, ◌∙◌, inl, inr, Option, none, some, List, [], ◌∷◌,
  Outcome, done, fault, ◌>>=◌, get_or, drop, length, Option-cases, arith,
}
use nwnx2_windows.HashTable.{Item, HashTable, first_from, get_first_item, get_next_item}
use nwnx2_windows.HashTable.Slots.{Cells, Holds, read_slot_lem}

module _ {ℓ} {D : Type ℓ} where
  -- the payloads in slot order
  abbrev pub payloads : Cells D → List D
  payloads [] = []
  payloads (none ∷ cells) = payloads cells
  payloads (some it ∷ cells) = it.payload ∷ payloads cells

  drop-cons :
      (cells : Cells D) (i : ℕ)
      → i < length cells
      → drop i cells ≡ get_or cells i none ∷ drop (suc i) cells
  drop-cons [] i h = absurd (omega arith)
  drop-cons (c ∷ cells) zero h = refl
  drop-cons (c ∷ cells) (suc i) h = drop-cons cells i (omega arith)

  drop-length : (cells : Cells D) (i : ℕ) → length cells ≤ i → drop i cells ≡ []
  drop-length [] zero h = refl
  drop-length [] (suc i) h = refl
  drop-length (c ∷ cells) zero h = absurd (omega arith)
  drop-length (c ∷ cells) (suc i) h = drop-length cells i (omega arith)

  payloads-drop :
      (cells : Cells D) (i : ℕ) (s : Option (Item D))
      → i < length cells
      → get_or cells i none ≡ s
      → payloads (drop i cells) ≡ payloads (s ∷ drop (i + 1) cells)
  payloads-drop cells i s h e =
      let next : i + 1 ≡ suc i = omega arith in rw (drop-cons cells i h, e, next)

  -- The client loop `for (pos = GetFirstItem(); pos != -1;) GetNextItem(pos)`, on fuel; it reports
  -- a fault where the fuel runs out.
  walk_from : HashTable D → ℕ → Option ℕ → Outcome (List D)
  walk_from t fuel none = done []
  walk_from t zero (some pos) = fault
  walk_from t (suc fuel) (some pos) = do
    (pos', d) ← get_next_item t pos
    rest ← walk_from t fuel pos'
    done (d ∷ rest)

  pub walk : HashTable D → ℕ → Outcome (List D)
  unfolding walk_from
  walk t fuel = get_first_item t >>= walk_from t fuel

  -- where the first item stands, and that nothing is skipped before it
  data Found (cells : Cells D) (i : ℕ) : Option ℕ → Type ℓ where
    none_left : payloads (drop i cells) ≡ [] → Found cells i none
    next_at :
        (j : ℕ) (it : Item D)
        → i ≤ j
        → j < length cells
        → get_or cells j none ≡ some it
        → payloads (drop i cells) ≡ it.payload ∷ payloads (drop (j + 1) cells)
        → Found cells i (some j)

  skip :
      {cells : Cells D} {i : ℕ} {o : Option ℕ}
      → payloads (drop i cells) ≡ payloads (drop (i + 1) cells)
      → Found cells (i + 1) o
      → Found cells i o
  skip h (none_left e) = none_left (h ∙ e)
  skip h (next_at j it lo hi e p) = next_at j it (omega arith) hi e (h ∙ p)

  module _ {t : HashTable D} {cells : Cells D} (is : Holds t cells) where
    first_from-Found :
        (n i : ℕ)
        → i + n ≡ length cells
        → (o : Option ℕ) × (first_from t n i ≡ done o) × Found cells i o
    unfolding first_from
    first_from-Found zero i h =
        (none, refl, none_left (ap payloads (drop-length cells i (omega arith))))
    first_from-Found (suc n) i h =
        let inside : i < length cells = omega arith in
        let (o, run, found) = first_from-Found n (i + 1) (omega arith) in
        elim (Option-cases (get_or cells i none)) [
          | inl e ↦ (
            o,
            rw (read_slot_lem is i inside, e, run),
            skip (payloads-drop cells i none inside e) found,
          )
          | inr (it, e) ↦ (
            some i,
            rw (read_slot_lem is i inside, e),
            next_at i it (omega arith) inside e (payloads-drop cells i (some it) inside e),
          )
        ]

    get_next_item_lem :
        (j : ℕ) (it : Item D)
        → j < length cells
        → get_or cells j none ≡ some it
        → (o : Option ℕ) × (get_next_item t j ≡ done (o, it.payload)) × Found cells (j + 1) o
    unfolding get_next_item
    get_next_item_lem j it hi e =
        let (o, run, found) =
          first_from-Found (t.table_size - (j + 1)) (j + 1) (omega (arith, is.size)) in
        (o, rw (run, read_slot_lem is j hi, e), found)

    walk_from-Found :
        (fuel i : ℕ) {o : Option ℕ}
        → length cells < fuel + i
        → Found cells i o
        → walk_from t fuel o ≡ done (payloads (drop i cells))
    unfolding walk_from
    walk_from-Found fuel i h (none_left e) = rw e
    walk_from-Found zero i h (next_at j it lo hi e p) = absurd (omega arith)
    walk_from-Found (suc fuel) i h (next_at j it lo hi e p) =
        let (o, run, found) = get_next_item_lem j it hi e in
        rw (run, walk_from-Found fuel (j + 1) (omega arith) found, p)

    -- On a created table the iteration ends normally, with one round to spare for each slot, and
    -- hands out the payload of every item once, in the order of the slots.
    pub walk-payloads : walk t (suc (length cells)) ≡ done (payloads cells)
    unfolding walk get_first_item
    walk-payloads =
        let (o, run, found) = first_from-Found t.table_size 0 (omega (arith, is.size)) in
        rw (run, walk_from-Found (suc (length cells)) 0 (omega arith) found)
