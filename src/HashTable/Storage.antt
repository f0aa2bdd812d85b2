-- ===== src/HashTable/Storage.antt =====
-- `Create`, `Insert`, `Lookup`, `Delete` and `DeleteAll` against what the slots of the table hold.
use nwnx2_windows.Prelude.{
  ℕ, ◌+◌, ◌-◌, ◌<◌, ◌≡◌, refl, sym, ◌∙◌, Bool, true, false, ◌&&◌, inl, inr, ◌↔◌, Option, none, some,
  Text, done, Returns, ◌==◌, if◌then◌else◌, set, replicate, length, length-set, length-replicate,
  get_or-set, Option-cases, Bool-cases, ==_iff, arith,
}
use nwnx2_windows.HashTable.{
  Item, HashTable, create, write_slot, insert, payload_of, lookup, Deleted, delete,
}
use nwnx2_windows.HashTable.Slots.{
  Cells, occupied, Holds, home, slot_of, home-lt, occupied-replicate, occupied-set-some,
  occupied-set-none, index_lem, read_slot_lem, write_slot_lem,
}

module _ {ℓ} {D : Type ℓ} where
  pub create-Holds :
      (t : HashTable D) (n : ℕ) → 0 < n → t.item_count ≡ 0 → Holds (create t n).0 (replicate n none)
  unfolding create
  create-Holds t n h e = record {
    points = refl;
    size = sym (length-replicate n none);
    positive = let w = length-replicate {ℓ} {A = Option (Item D)} n none in omega (arith, w);
    counted = e ∙ sym (occupied-replicate D n);
  }

  pub lookup_lem :
      {t : HashTable D} {cells : Cells D}
      → Holds t cells
      → (q : Text) → lookup t q ≡ done (payload_of (slot_of cells q))
  unfolding lookup
  lookup_lem {cells} is q =
      rw (index_lem is q, read_slot_lem is (home cells q) (home-lt cells q is.positive))

  -- one slot is replaced
  pub slot_of-set :
      (cells : Cells D) (k q : Text) (s : Option (Item D))
      → 0 < length cells
      → slot_of (set cells (home cells k) s) q
        ≡ (if home cells k == home cells q then s else slot_of cells q)
  slot_of-set cells k q s h =
      rw (length-set, get_or-set cells (home cells k) (home cells q) s none (home-lt cells k h))

  write_slot-Holds :
      {t : HashTable D} {cells : Cells D}
      → Holds t cells
      → (i n : ℕ) (s : Option (Item D)) → n ≡ occupied (set cells i s)
      → Holds (record (write_slot t i s) { item_count = n }) (set cells i s)
  unfolding write_slot
  write_slot-Holds {cells} is i n s e = record {
    points = write_slot_lem is i s;
    size = is.size ∙ sym (length-set cells i s);
    positive = omega (arith, is.positive, length-set {ℓ} cells i s);
    counted = e;
  }

  -- what `Insert` leaves behind: `stored` says that the slot was free
  pub record Inserted (cells : Cells D) (k : Text) (d : D) (r : HashTable D × Bool) : Type ℓ where
    pub cells' : Cells D
    pub holds : Holds r.0 cells'
    pub width : length cells' ≡ length cells
    pub free : (r.1 ≡ true) ↔ (slot_of cells k ≡ none)
    pub reads :
        (q : Text)
        → payload_of (slot_of cells' q)
          ≡ (if r.1 && (home cells k == home cells q) then some d else payload_of (slot_of cells q))
    pub refused : r.1 ≡ false → cells' ≡ cells

  -- On a created table `Insert` ends normally and leaves a created table of the same size, whose
  -- counter counts the slots in use. It reports success exactly where the key's slot was free, and
  -- otherwise changes no slot; on success every key of the slot reads the new payload, and every
  -- other key what it read before.
  pub insert-Inserted :
      {t : HashTable D} {cells : Cells D}
      → Holds t cells
      → (k : Text) (d : D) → Returns (insert t k d) (Inserted cells k d)
  unfolding insert
  insert-Inserted {t} {cells} is k d = elim (Option-cases (slot_of cells k)) [
    | inr (old, e) ↦ (
      (t, false),
      rw (index_lem is k, read_slot_lem is (home cells k) (home-lt cells k is.positive), e),
      record {
        cells' = cells;
        holds = is;
        width = refl;
        free = (λ h. cc, λ h. cc);
        reads = λ q. refl;
        refused = λ h. refl;
      },
    )
    | inl e ↦ (
      (
        record (write_slot t (home cells k) (some (record { key = k; payload = d }))) {
          item_count = t.item_count + 1;
        },
        true,
      ),
      rw (index_lem is k, read_slot_lem is (home cells k) (home-lt cells k is.positive), e),
      record {
        cells' = set cells (home cells k) (some (record { key = k; payload = d }));
        holds = write_slot-Holds is (home cells k) _ _ (
            omega (
              arith,
              is.counted,
              occupied-set-some cells (home cells k) _ (home-lt cells k is.positive) e,
            ));
        width = length-set cells _ _;
        free = (λ h. e, λ h. refl);
        reads = λ q. rw (slot_of-set cells k q _ is.positive) (ground arith);
        refused = λ h. cc;
      },
    )
  ]

  -- what `Delete` leaves behind
  pub record Removed (cells : Cells D) (k : Text) (r : Deleted D) : Type ℓ where
    pub cells' : Cells D
    pub holds : Holds r.table cells'
    pub width : length cells' ≡ length cells
    pub returned : r.returned ≡ none
    pub freed : r.freed ≡ payload_of (slot_of cells k)
    pub reads :
        (q : Text)
        → payload_of (slot_of cells' q)
          ≡ (if home cells k == home cells q then none else payload_of (slot_of cells q))

  -- On a created table `Delete` ends normally, returns NULL, and leaves a created table of the same
  -- size, whose counter counts the slots in use. The payload that the key read is freed, every key
  -- of its slot reads NULL, and every other key what it read before.
  pub delete-Removed :
      {t : HashTable D} {cells : Cells D}
      → Holds t cells
      → (k : Text) → Returns (delete t k) (Removed cells k)
  unfolding delete
  delete-Removed {t} {cells} is k = elim (Option-cases (slot_of cells k)) [
    | inl e ↦ (
      record { returned = none; freed = none; table = t },
      rw (index_lem is k, read_slot_lem is (home cells k) (home-lt cells k is.positive), e),
      record {
        cells' = cells;
        holds = is;
        width = refl;
        returned = refl;
        freed = rw e;
        reads = λ q. elim (Bool-cases (home cells k == home cells q)) [
          | inl same ↦ rw (same, ← (==_iff (home cells k) (home cells q)).0 same, e)
          | inr other ↦ rw other
        ];
      },
    )
    | inr (old, e) ↦ (
      record {
        returned = none;
        freed = some old.payload;
        table = record (write_slot t (home cells k) none) { item_count = t.item_count - 1 };
      },
      rw (index_lem is k, read_slot_lem is (home cells k) (home-lt cells k is.positive), e),
      record {
        cells' = set cells (home cells k) none;
        holds =
            write_slot-Holds is (home cells k) _ _
              (omega (arith, is.counted, occupied-set-none cells (home cells k) old e));
        width = length-set cells _ _;
        returned = refl;
        freed = rw e;
        reads = λ q. rw (slot_of-set cells k q _ is.positive) (ground arith);
      },
    )
  ]
