-- ===== src/Hook/Jump.antt =====
-- The jump that `make_jmp` writes, and the bytes that it saves.
use nwnx2_windows.Prelude.{
  ℕ, zero, suc, ◌+◌, ◌-◌, ◌^◌, ◌≡◌, ◌≢◌, ◌<◌, ◌≤◌, ◌⊎◌, inl, inr, refl, ap, ◌∙◌, Bool, true, List,
  [], ◌∷◌, length, get_or, Bool-cases, ◌==◌, ==_iff, arith,
}
use nwnx2_windows.Memory.{
  Memory, write, write32, write32, read32, write_self, write_other, write32_other, read32-write32,
}
use nwnx2_windows.Hook.{Machine, Jumped, displacement, clobber_loop, make_jmp}

-- the bytes at `n` addresses from `a` on
abbrev pub bytes : Memory → ℕ → ℕ → List ℕ
bytes mem a zero = []
bytes mem a (suc n) = mem a ∷ bytes mem (a + 1) n

pub length-bytes : (mem : Memory) (a n : ℕ) → length (bytes mem a n) ≡ n
length-bytes mem a zero = refl
length-bytes mem a (suc n) = ap suc (length-bytes mem (a + 1) n)

pub get_or-bytes : (mem : Memory) (a n i : ℕ) → i < n → get_or (bytes mem a n) i 0 ≡ mem (a + i)
get_or-bytes mem a zero i h = absurd (omega arith)
get_or-bytes mem a (suc n) zero h = let e : a ≡ a + 0 = omega arith in ap mem e
get_or-bytes mem a (suc n) (suc i) h =
    let e : a + 1 + i ≡ a + suc i = omega arith in
    get_or-bytes mem (a + 1) n i (omega arith) ∙ ap mem e

pub bytes-same :
    (mem mem' : Memory) (a n : ℕ)
    → ((x : ℕ) → a ≤ x → x < a + n → mem' x ≡ mem x)
    → bytes mem' a n ≡ bytes mem a n
bytes-same mem mem' a zero h = refl
bytes-same mem mem' a (suc n) h =
    rw
      (
        h a (omega arith) (omega arith),
        bytes-same mem mem' (a + 1) n (λ x lo hi. h x (omega arith) (omega arith)),
      )
      refl

-- a write below the range does not show in it
bytes-write : (mem : Memory) (x v a n : ℕ) → x < a → bytes (write mem x v) a n ≡ bytes mem a n
bytes-write mem x v a zero h = refl
bytes-write mem x v a (suc n) h =
    rw
      (
        write_other mem x v a (λ e. absurd (omega arith)),
        bytes-write mem x v (a + 1) n (omega arith),
      )
      refl

clobber_loop-saved : (mem : Memory) (c i n : ℕ) → (clobber_loop mem c i n).0 ≡ bytes mem (c + i) n
unfolding clobber_loop
clobber_loop-saved mem c i zero = refl
clobber_loop-saved mem c i (suc n) =
    let e : c + (i + 1) ≡ c + i + 1 = omega arith in
    rw
      (
        clobber_loop-saved (write mem (c + i) 0x90) c (i + 1) n,
        e,
        bytes-write mem (c + i) 0x90 (c + i + 1) n (omega arith),
      )
      refl

clobber_loop-outside :
    (mem : Memory) (c i n x : ℕ)
    → (x < c + i) ⊎ (c + i + n ≤ x)
    → (clobber_loop mem c i n).1 x ≡ mem x
unfolding clobber_loop
clobber_loop-outside mem c i zero x h = refl
clobber_loop-outside mem c i (suc n) x h =
    clobber_loop-outside (write mem (c + i) 0x90) c (i + 1) n x (ground arith)
    ∙ write_other mem (c + i) 0x90 x (λ e. ground arith)

clobber_loop-nop :
    (mem : Memory) (c i n x : ℕ) → c + i ≤ x → x < c + i + n → (clobber_loop mem c i n).1 x ≡ 0x90
unfolding clobber_loop
clobber_loop-nop mem c i zero x lo hi = absurd (omega arith)
clobber_loop-nop mem c i (suc n) x lo hi = elim (Bool-cases (x == c + i)) [
  | inl first ↦
      clobber_loop-outside (write mem (c + i) 0x90) c (i + 1) n x (inl (ground arith))
      ∙ ap (write mem (c + i) 0x90) ((==_iff x (c + i)).0 first)
      ∙ write_self mem (c + i) 0x90
  | inr other ↦ clobber_loop-nop (write mem (c + i) 0x90) c (i + 1) n x (ground arith) (omega arith)
]

displacement-lt : (c d : ℕ) → displacement c d < 2 ^ 32
unfolding displacement
displacement-lt c d = omega arith

saves_lem :
    (mem : Memory) (c n : ℕ)
    → 1 ≤ n
    → mem c ∷ (clobber_loop (write mem c 0xE9) c 1 (n - 1)).0 ≡ bytes mem c n
saves_lem mem c zero h = absurd (omega arith)
saves_lem mem c (suc n) h =
    let e : suc n - 1 ≡ n = omega arith in
    rw e (
      ap (λ r. mem c ∷ r)
        (clobber_loop-saved (write mem c 0xE9) c 1 n
          ∙ bytes-write mem c 0xE9 (c + 1) n (omega arith)))

frame_parts :
    (c n x : ℕ)
    → 5 ≤ n
    → (x < c) ⊎ (c + n ≤ x)
    → ((x < c + 1) ⊎ (c + 1 + 4 ≤ x)) × ((x < c + 1) ⊎ (c + 1 + (n - 1) ≤ x)) × (x ≢ c)
frame_parts c n x h (inl o) = (inl (omega arith), inl (omega arith), λ e. absurd (omega arith))
frame_parts c n x h (inr o) = (inr (omega arith), inr (omega arith), λ e. absurd (omega arith))

write32-narrow : (mem : Memory) (a v x : ℕ) → a ≤ x → x < a + 4 → write32 mem a v x < 256
unfolding write32
write32-narrow mem a v x lo hi = ground arith

-- what `make_jmp` leaves behind when Windows lets it write: the jump reaches its destination, the
-- old bytes are saved, the bytes behind the jump do nothing, and no other byte changes
pub record Patched (mem : Memory) (clobber destination savelen : ℕ) (r : Jumped) : Type 0 where
  pub succeeds : r.ok ≡ true
  pub opcode : r.machine.memory clobber ≡ 0xE9
  pub operand : read32 r.machine.memory (clobber + 1) ≡ displacement clobber destination
  pub narrow : (x : ℕ) → clobber + 1 ≤ x → x < clobber + 5 → r.machine.memory x < 256
  pub saves : r.saved ≡ bytes mem clobber savelen
  pub pads : (x : ℕ) → clobber + 5 ≤ x → x < clobber + savelen → r.machine.memory x ≡ 0x90
  pub frame : (x : ℕ) → (x < clobber) ⊎ (clobber + savelen ≤ x) → r.machine.memory x ≡ mem x

-- Where both calls of VirtualProtect succeed, `make_jmp` over at least five bytes returns 1, saves
-- the bytes that it replaces, leaves a jump with the displacement of its destination, then NOPs up
-- to `savelen`, and changes no other byte.
pub make_jmp-Patched :
    (virtual_protect : ℕ → Bool)
    → ((n : ℕ) → virtual_protect n ≡ true)
    → (m : Machine) (clobber destination savelen : ℕ) → 5 ≤ savelen
    → Patched m.memory clobber destination savelen
        (make_jmp virtual_protect m clobber destination savelen)
unfolding make_jmp
make_jmp-Patched vp granted m c d n h =
    let opened = granted m.calls in
    let closed = granted (m.calls + 1) in
    let mem₁ = write m.memory c 0xE9 in
    let looped = clobber_loop mem₁ c 1 (n - 1) in
    rw opened (record {
      succeeds = closed;
      opcode =
          write32_other looped.1 (c + 1) (displacement c d) c (inl (omega arith))
          ∙ clobber_loop-outside mem₁ c 1 (n - 1) c (inl (omega arith))
          ∙ write_self m.memory c 0xE9;
      operand = read32-write32 looped.1 (c + 1) (displacement c d) (displacement-lt c d);
      narrow = λ x lo hi. write32-narrow looped.1 (c + 1) (displacement c d) x lo (omega arith);
      saves = saves_lem m.memory c n (omega arith);
      pads = λ x lo hi.
          write32_other looped.1 (c + 1) (displacement c d) x (inr (omega arith))
          ∙ clobber_loop-nop mem₁ c 1 (n - 1) x (omega arith) (omega arith);
      frame = λ x away.
          let (w, l, o) = frame_parts c n x h away in
          write32_other looped.1 (c + 1) (displacement c d) x w
          ∙ clobber_loop-outside mem₁ c 1 (n - 1) x l
          ∙ write_other m.memory c 0xE9 x o;
    })
