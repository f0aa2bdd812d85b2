-- ===== src/Memory.antt =====
-- The bytes of the process at their addresses, and 32-bit little-endian words in them.
use nwnx2_windows.Prelude.{
  ℕ, ◌+◌, ◌*◌, ◌/◌, ◌%◌, ◌^◌, ◌≡◌, ◌<◌, ◌≤◌, ◌≢◌, ◌⊎◌, ◌==◌, if◌then◌else◌, arith,
}

abbrev pub Memory : Type 0
Memory = ℕ → ℕ

-- one byte
unfoldable pub write : Memory → ℕ → ℕ → Memory
write mem a v x = if x == a then v else mem x

-- `*((unsigned long *) a) = v`
unfoldable pub write32 : Memory → ℕ → ℕ → Memory
unfolding write
write32 mem a v =
    write (write (write (write mem a (v % 256)) (a + 1) (v / 256 % 256)) (a + 2) (v / 65536 % 256))
      (a + 3) (v / 16777216 % 256)

-- four bytes as a word
unfoldable pub read32 : Memory → ℕ → ℕ
read32 mem a = mem a + 256 * mem (a + 1) + 65536 * mem (a + 2) + 16777216 * mem (a + 3)

pub write_self : (mem : Memory) (a v : ℕ) → write mem a v a ≡ v
unfolding write
write_self mem a v = ground arith

pub write_other : (mem : Memory) (a v x : ℕ) → x ≢ a → write mem a v x ≡ mem x
unfolding write
write_other mem a v x h = ground arith

pub write32_other : (mem : Memory) (a v x : ℕ) → (x < a) ⊎ (a + 4 ≤ x) → write32 mem a v x ≡ mem x
unfolding write32
write32_other mem a v x h = ground arith

pub write32_bytes :
    (mem : Memory) (a v : ℕ)
    → (write32 mem a v a ≡ v % 256)
      × (write32 mem a v (a + 1) ≡ v / 256 % 256)
      × (write32 mem a v (a + 2) ≡ v / 65536 % 256)
      × (write32 mem a v (a + 3) ≡ v / 16777216 % 256)
unfolding write32
write32_bytes mem a v = (ground arith, ground arith, ground arith, ground arith)

pub read32-write32 : (mem : Memory) (a v : ℕ) → v < 2 ^ 32 → read32 (write32 mem a v) a ≡ v
unfolding read32
read32-write32 mem a v h = let bytes = write32_bytes mem a v in omega (arith, bytes)
