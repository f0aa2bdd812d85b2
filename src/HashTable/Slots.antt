-- ===== src/HashTable/Slots.antt =====
-- What the slots of a table hold, and how every operation changes them.
use nwnx2_windows.Prelude.{
  ℕ, zero, suc, ◌%◌, ◌<◌, ◌≡◌, refl, ap, Option, none, some, List, [], ◌∷◌, Text, done, get_elem?,
  get_or, set, replicate, length, arith,
}
use nwnx2_windows.HashTable.{Item, HashTable, hash, index, read_slot, write_slot}

abbrev pub Cells {ℓ} : Type ℓ → Type ℓ
Cells D = List (Option (Item D))

module _ {ℓ} {D : Type ℓ} where
  -- how many slots are in use
  abbrev pub occupied : Cells D → ℕ
  occupied [] = 0
  occupied (none ∷ cells) = occupied cells
  occupied (some _ ∷ cells) = suc (occupied cells)

  -- a created table: `cells` are its slots, and the counter counts those in use
  pub record Holds (t : HashTable D) (cells : Cells D) : Type ℓ where
    pub points : t.items ≡ some cells
    pub size : t.table_size ≡ length cells
    pub positive : 0 < length cells
    pub counted : t.item_count ≡ occupied cells

  -- the slot of a key, and what it holds
  abbrev pub home : Cells D → Text → ℕ
  home cells k = hash k % length cells

  abbrev pub slot_of : Cells D → Text → Option (Item D)
  slot_of cells k = get_or cells (home cells k) none

  get_elem?-get_or :
      (cells : Cells D) (i : ℕ) → i < length cells → get_elem? cells i ≡ some (get_or cells i none)
  get_elem?-get_or [] i h = absurd (omega arith)
  get_elem?-get_or (c ∷ cells) zero h = refl
  get_elem?-get_or (c ∷ cells) (suc i) h = get_elem?-get_or cells i (omega arith)

  pub home-lt : (cells : Cells D) (k : Text) → 0 < length cells → home cells k < length cells
  home-lt cells k h = omega arith

  pub occupied-set-some :
      (cells : Cells D) (i : ℕ) (it : Item D)
      → i < length cells
      → get_or cells i none ≡ none
      → occupied (set cells i (some it)) ≡ suc (occupied cells)
  occupied-set-some [] i it h e = absurd (omega arith)
  occupied-set-some (c ∷ cells) zero it h e = ground arith
  occupied-set-some (none ∷ cells) (suc i) it h e = occupied-set-some cells i it (omega arith) e
  occupied-set-some (some x ∷ cells) (suc i) it h e =
      ap suc (occupied-set-some cells i it (omega arith) e)

  pub occupied-set-none :
      (cells : Cells D) (i : ℕ) (it : Item D)
      → get_or cells i none ≡ some it
      → suc (occupied (set cells i none)) ≡ occupied cells
  occupied-set-none [] i it e = cc
  occupied-set-none (c ∷ cells) zero it e = ground arith
  occupied-set-none (none ∷ cells) (suc i) it e = occupied-set-none cells i it e
  occupied-set-none (some x ∷ cells) (suc i) it e = ap suc (occupied-set-none cells i it e)

  module _ {t : HashTable D} {cells : Cells D} (is : Holds t cells) where
    pub index_lem : (k : Text) → index t k ≡ done (home cells k)
    unfolding index
    index_lem k = rw is.size (ground (arith, is.positive))

    pub read_slot_lem : (i : ℕ) → i < length cells → read_slot t i ≡ done (get_or cells i none)
    unfolding read_slot
    read_slot_lem i h = ground (arith, is.points, get_elem?-get_or cells i h)

    pub write_slot_lem :
        (i : ℕ) (s : Option (Item D)) → (write_slot t i s).items ≡ some (set cells i s)
    unfolding write_slot
    write_slot_lem i s = rw is.points

pub occupied-replicate {ℓ} : (D : Type ℓ) (n : ℕ) → occupied {D = D} (replicate n none) ≡ 0
occupied-replicate D zero = refl
occupied-replicate D (suc n) = occupied-replicate D n
