-- ===== src/Hook/Bridge.antt =====
-- A hooked function: its bytes lead to the hook, and its bridge leads back behind them.
use nwnx2_windows.Prelude.{
  ℕ, zero, suc, ◌+◌, ◌-◌, ◌*◌, ◌%◌, ◌^◌, ◌≡◌, ◌≢◌, ◌<◌, ◌≤◌, ◌⊎◌, inl, inr, refl, ◌∙◌, Bool, true,
  false, some, List, [], ◌∷◌, Returns, ltb, length, get_or, Bool-cases, ◌==◌, arith,
}
use nwnx2_windows.Memory.{
  Memory, write, read32, write_self, write_other, write32, write32_bytes, write32_other,
}
use nwnx2_windows.Hook.{
  windows_library, Machine, Bridged, displacement, fill_loop, frame_stores, zero_memory,
  return_address, saved_length, create_stack_frame, bridge_frame, bridge_fill, fill_bridge,
  interpret_offset, interpret_address,
}
use nwnx2_windows.Hook.Jump.{bytes, bytes-same, make_jmp-Patched}

fill_loop-outside :
    (mem : Memory) (p i : ℕ) (fill : List ℕ) (x : ℕ)
    → (x < p + i) ⊎ (p + i + length fill ≤ x)
    → fill_loop mem p i fill x ≡ mem x
unfolding fill_loop
fill_loop-outside mem p i [] x h = refl
fill_loop-outside mem p i (c ∷ fill) x h =
    fill_loop-outside (write mem (p + i) c) p (i + 1) fill x (ground arith)
    ∙ write_other mem (p + i) c x (λ e. ground arith)

fill_loop-inside :
    (mem : Memory) (p i : ℕ) (fill : List ℕ) (k : ℕ)
    → k < length fill
    → fill_loop mem p i fill (p + i + k) ≡ get_or fill k 0
unfolding fill_loop
fill_loop-inside mem p i [] k h = absurd (omega arith)
fill_loop-inside mem p i (c ∷ fill) zero h =
    let e : p + i + 0 ≡ p + i = omega arith in
    rw (e, fill_loop-outside (write mem (p + i) c) p (i + 1) fill (p + i) (inl (omega arith)))
      (write_self mem (p + i) c)
fill_loop-inside mem p i (c ∷ fill) (suc k) h =
    let e : p + i + suc k ≡ p + (i + 1) + k = omega arith in
    rw e (fill_loop-inside (write mem (p + i) c) p (i + 1) fill k (omega arith))

frame_stores-outside :
    (mem : Memory) (p : ℕ) (lib : Bool) (x : ℕ)
    → (x < p) ⊎ (p + 8 ≤ x)
    → frame_stores mem p lib x ≡ mem x
unfolding frame_stores
frame_stores-outside mem p true x h =
    write32_other _ (p + 3) 0xEC8B x (ground arith)
    ∙ write32_other _ (p + 2) 0x55 x (ground arith)
    ∙ write32_other mem p 0xFF89 x (ground arith)
frame_stores-outside mem p false x h =
    write32_other _ (p + 4) 0x90 x (ground arith)
    ∙ write32_other _ (p + 3) 0x90 x (ground arith)
    ∙ write32_other _ (p + 2) 0x58 x (ground arith)
    ∙ write32_other mem p 0x9090 x (ground arith)

-- the first five bytes of a bridge: `mov edi, edi; push ebp; mov ebp, esp` for a Windows library,
-- `nop; nop; pop eax; nop; nop` otherwise
abbrev pub prologue_bytes : Bool → List ℕ
prologue_bytes true = 0x89 ∷ 0xFF ∷ 0x55 ∷ 0x8B ∷ 0xEC ∷ []
prologue_bytes false = 0x90 ∷ 0x90 ∷ 0x58 ∷ 0x90 ∷ 0x90 ∷ []

bytes-frame_stores :
    (mem : Memory) (p : ℕ) (lib : Bool) → bytes (frame_stores mem p lib) p 5 ≡ prologue_bytes lib
unfolding frame_stores
bytes-frame_stores mem p true =
    let m₁ = write32 mem p 0xFF89 in
    let m₂ = write32 m₁ (p + 2) 0x55 in
    let m₃ = write32 m₂ (p + 3) 0xEC8B in
    let two : p + 1 + 1 ≡ p + 2 = omega arith in
    let three : p + 2 + 1 ≡ p + 3 = omega arith in
    let b₀ : m₃ p ≡ 0x89 =
      write32_other m₂ (p + 3) 0xEC8B p (inl (omega arith))
      ∙ write32_other m₁ (p + 2) 0x55 p (inl (omega arith))
      ∙ (write32_bytes mem p 0xFF89).0 in
    let b₁ : m₃ (p + 1) ≡ 0xFF =
      write32_other m₂ (p + 3) 0xEC8B (p + 1) (inl (omega arith))
      ∙ write32_other m₁ (p + 2) 0x55 (p + 1) (inl (omega arith))
      ∙ (write32_bytes mem p 0xFF89).1 in
    let b₂ : m₃ (p + 2) ≡ 0x55 =
      write32_other m₂ (p + 3) 0xEC8B (p + 2) (inl (omega arith))
      ∙ (write32_bytes m₁ (p + 2) 0x55).0 in
    let last = write32_bytes m₂ (p + 3) 0xEC8B in rw (two, three, b₀, b₁, b₂, last.0, last.1) refl
bytes-frame_stores mem p false =
    let m₁ = write32 mem p 0x9090 in
    let m₂ = write32 m₁ (p + 2) 0x58 in
    let m₃ = write32 m₂ (p + 3) 0x90 in
    let m₄ = write32 m₃ (p + 4) 0x90 in
    let two : p + 1 + 1 ≡ p + 2 = omega arith in
    let three : p + 2 + 1 ≡ p + 3 = omega arith in
    let four : p + 3 + 1 ≡ p + 4 = omega arith in
    let b₀ : m₄ p ≡ 0x90 =
      write32_other m₃ (p + 4) 0x90 p (inl (omega arith))
      ∙ write32_other m₂ (p + 3) 0x90 p (inl (omega arith))
      ∙ write32_other m₁ (p + 2) 0x58 p (inl (omega arith))
      ∙ (write32_bytes mem p 0x9090).0 in
    let b₁ : m₄ (p + 1) ≡ 0x90 =
      write32_other m₃ (p + 4) 0x90 (p + 1) (inl (omega arith))
      ∙ write32_other m₂ (p + 3) 0x90 (p + 1) (inl (omega arith))
      ∙ write32_other m₁ (p + 2) 0x58 (p + 1) (inl (omega arith))
      ∙ (write32_bytes mem p 0x9090).1 in
    let b₂ : m₄ (p + 2) ≡ 0x58 =
      write32_other m₃ (p + 4) 0x90 (p + 2) (inl (omega arith))
      ∙ write32_other m₂ (p + 3) 0x90 (p + 2) (inl (omega arith))
      ∙ (write32_bytes m₁ (p + 2) 0x58).0 in
    let b₃ : m₄ (p + 3) ≡ 0x90 =
      write32_other m₃ (p + 4) 0x90 (p + 3) (inl (omega arith))
      ∙ (write32_bytes m₂ (p + 3) 0x90).0 in
    rw (two, three, four, b₀, b₁, b₂, b₃, (write32_bytes m₃ (p + 4) 0x90).0) refl

pub zero_memory-outside :
    (mem : Memory) (p n x : ℕ) → (x < p) ⊎ (p + n ≤ x) → zero_memory mem p n x ≡ mem x
unfolding zero_memory
zero_memory-outside mem p n x h = ground arith

word_lem :
    (m₁ m₂ m₃ m₄ at d : ℕ)
    → m₁ < 256
    → m₂ < 256
    → m₃ < 256
    → m₄ < 256
    → d < 2 ^ 32
    → at < 2 ^ 32
    → m₁ + 256 * m₂ + 65536 * m₃ + 16777216 * m₄ ≡ (d + 2 ^ 33 - (at + 1) - 4) % 2 ^ 32
    → (((m₄ * 2 ^ 8 % 2 ^ 32 + m₃) * 2 ^ 8 % 2 ^ 32 + m₂) * 2 ^ 8 % 2 ^ 32 + m₁ + at + 5) % 2 ^ 32
      ≡ d
word_lem m₁ m₂ m₃ m₄ at d h₁ h₂ h₃ h₄ hd ha e = omega arith

-- a displacement of a jump is read back as the jump's destination
decode_lem :
    (mem : Memory) (p alignment at destination : ℕ)
    → 4 ≤ interpret_offset alignment
    → p + (interpret_offset alignment - 4) ≡ at
    → at < 2 ^ 32
    → destination < 2 ^ 32
    → ((x : ℕ) → at + 1 ≤ x → x < at + 5 → mem x < 256)
    → read32 mem (at + 1) ≡ displacement at destination
    → interpret_address mem p alignment ≡ destination
unfolding interpret_address read32 displacement
decode_lem mem p al at d h e la ld small r =
    let e₄ : p + interpret_offset al ≡ at + 1 + 3 = omega arith in
    let e₃ : p + (interpret_offset al - 1) ≡ at + 1 + 2 = omega arith in
    let e₂ : p + (interpret_offset al - 2) ≡ at + 1 + 1 = omega arith in
    let e₁ : p + (interpret_offset al - 3) ≡ at + 1 = omega arith in
    rw (e₄, e₃, e₂, e₁, e)
      (word_lem (mem (at + 1)) (mem (at + 1 + 1)) (mem (at + 1 + 2)) (mem (at + 1 + 3)) at d
        (small _ (omega arith) (omega arith)) (small _ (omega arith) (omega arith))
        (small _ (omega arith) (omega arith)) (small _ (omega arith) (omega arith)) ld la r)

-- how far behind the bridge's start the jump back stands
abbrev pub jump_offset : ℕ → ℕ
jump_offset alignment = interpret_offset alignment - 4

-- what the bridge holds, once it is built
pub record Built (mem : Memory) (b fn alignment : ℕ) (fill : List ℕ) (r : Bridged) : Type 0 where
  pub succeeds : r.ok ≡ true
  pub points : r.pointer ≡ b
  pub prologue : bytes r.machine.memory b 5 ≡ prologue_bytes (alignment == windows_library)
  pub opcode : r.machine.memory (b + jump_offset alignment) ≡ 0xE9
  pub back : interpret_address r.machine.memory b alignment ≡ return_address fn alignment
  pub copies :
      (i : ℕ)
      → alignment ≢ windows_library
      → i < length fill
      → r.machine.memory (b + 5 + i) ≡ get_or fill i 0
  pub frame : (x : ℕ) → (x < b) ⊎ (b + 10 + length fill ≤ x) → r.machine.memory x ≡ mem x

-- the bridge's bytes before the jump back is written
abbrev filled : Memory → ℕ → ℕ → List ℕ → Memory
filled mem b alignment fill =
    (bridge_fill (frame_stores mem b (alignment == windows_library)) b 5 alignment (some fill)).0

bridge_fill-offset :
    (mem : Memory) (b alignment : ℕ) (fill : List ℕ)
    → length fill ≡ saved_length alignment
    → (bridge_fill mem b 5 alignment (some fill)).1 ≡ jump_offset alignment
unfolding bridge_fill interpret_offset saved_length
bridge_fill-offset mem b al fill h = elim (Bool-cases (al == windows_library)) [
  | inl lib ↦ rw lib (omega arith)
  | inr other ↦ let e : length fill ≡ al + 5 = h ∙ rw other in rw (other, e) (omega arith)
]

filled-outside :
    (mem : Memory) (b alignment : ℕ) (fill : List ℕ) (x : ℕ)
    → 5 ≤ length fill
    → (x < b) ⊎ (b + 10 + length fill ≤ x)
    → filled mem b alignment fill x ≡ mem x
unfolding bridge_fill
filled-outside mem b al fill x long away = elim (Bool-cases (al == windows_library)) [
  | inl lib ↦ rw (filled, lib) (frame_stores-outside mem b true x (ground arith))
  | inr other ↦
      rw (filled, other)
        (fill_loop-outside (frame_stores mem b false) (b + 5) 0 fill x (ground arith)
          ∙ frame_stores-outside mem b false x (ground arith))
]

bytes-filled :
    (mem : Memory) (b alignment : ℕ) (fill : List ℕ)
    → bytes (filled mem b alignment fill) b 5 ≡ prologue_bytes (alignment == windows_library)
unfolding bridge_fill
bytes-filled mem b al fill = elim (Bool-cases (al == windows_library)) [
  | inl lib ↦ rw (filled, lib) (bytes-frame_stores mem b true)
  | inr other ↦
      rw (filled, other)
        (bytes-same (frame_stores mem b false) _ b 5 (λ x lo hi.
            fill_loop-outside (frame_stores mem b false) (b + 5) 0 fill x (inl (omega arith)))
          ∙ bytes-frame_stores mem b false)
]

filled-inside :
    (mem : Memory) (b alignment : ℕ) (fill : List ℕ) (i : ℕ)
    → alignment ≢ windows_library
    → i < length fill
    → filled mem b alignment fill (b + 5 + i) ≡ get_or fill i 0
unfolding bridge_fill
filled-inside mem b al fill i h inside =
    let other : (al == windows_library) ≡ false = ground arith in
    let e : b + 5 + i ≡ b + 5 + 0 + i = omega arith in
    rw (filled, other, e) (fill_loop-inside (frame_stores mem b false) (b + 5) 0 fill i inside)

return_address-lt :
    (fn alignment : ℕ) → fn + saved_length alignment < 2 ^ 32 → return_address fn alignment < 2 ^ 32
unfolding saved_length return_address
return_address-lt fn al h = ground arith

jump_offset-bounds :
    (alignment : ℕ) (fill : List ℕ)
    → length fill ≡ saved_length alignment
    → (4 ≤ interpret_offset alignment)
      × (jump_offset alignment + 5 ≤ 10 + length fill)
      × (5 ≤ length fill)
      × (5 ≤ jump_offset alignment)
      × (alignment ≢ windows_library → jump_offset alignment ≡ 5 + length fill)
unfolding saved_length interpret_offset
jump_offset-bounds al fill h =
    (ground arith, ground arith, ground arith, ground arith, λ n. ground arith)

module _ (virtual_protect : ℕ → Bool) (granted : (n : ℕ) → virtual_protect n ≡ true) where
  pub fill_bridge-Built :
      (m : Machine) (b size fn alignment : ℕ) (fill : List ℕ)
      → jump_offset alignment + 5 ≤ size
      → length fill ≡ saved_length alignment
      → fn + saved_length alignment < 2 ^ 32
      → b + 10 + length fill < 2 ^ 32
      → Returns
          (fill_bridge virtual_protect m b size fn (some fill) alignment true)
          (Built m.memory b fn alignment fill)
  unfolding fill_bridge bridge_frame create_stack_frame
  fill_bridge-Built m b size fn al fill fits h room_fn room =
      let mem = filled m.memory b al fill in
      let at = b + jump_offset al in
      let (lo, hi, long, front, exact) = jump_offset-bounds al fill h in
      let jumped =
        make_jmp-Patched virtual_protect granted
          (record { memory = mem; calls = m.calls + 1 + 1 + 1 }) at (return_address fn al) 5
          (omega arith) in
      let short : ltb size (jump_offset al) ≡ false = ground (arith, fits) in
      let inside : ltb size (jump_offset al + 5) ≡ false = ground (arith, fits) in
      rw
        (
          granted m.calls,
          granted (m.calls + 1),
          granted (m.calls + 1 + 1),
          granted (m.calls + 1 + 1 + 1),
          bridge_fill-offset (frame_stores m.memory b (al == windows_library)) b al fill h,
          short,
          inside,
        )
        (
          _,
          refl,
          record {
            succeeds = jumped.succeeds;
            points = refl;
            prologue =
                bytes-same mem _ b 5 (λ x low high. jumped.frame x (inl (omega (arith, front))))
                ∙ bytes-filled m.memory b al fill;
            opcode = jumped.opcode;
            back =
                decode_lem _ b al at (return_address fn al) lo refl (omega arith)
                  (return_address-lt fn al room_fn) jumped.narrow jumped.operand;
            copies = λ i other inside.
                jumped.frame (b + 5 + i) (inl (omega (arith, exact other)))
                ∙ filled-inside m.memory b al fill i other inside;
            frame = λ x away.
                jumped.frame x (ground arith) ∙ filled-outside m.memory b al fill x long away;
          },
        )
