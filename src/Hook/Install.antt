-- ===== src/Hook/Install.antt =====
-- `HookFunction` and `HookFunction_Stdcall` as a whole.
use nwnx2_windows.Prelude.{
  ℕ, ◌+◌, ◌%◌, ◌^◌, ◌≡◌, ◌≢◌, ◌<◌, ◌≤◌, ◌⊎◌, refl, sym, ap, ◌∙◌, ◌==◌, Bool, true, if◌then◌else◌,
  Returns, Option, none, some, length, get_or, arith,
}
use nwnx2_windows.Memory.{Memory, read32}
use nwnx2_windows.Hook.{
  windows_library, Machine, Bridged, displacement, zero_memory, return_address, saved_length,
  make_jmp, size_desired, create_general_bridge, hook_function_general, interpret_address,
  interpret_offset,
}
use nwnx2_windows.Hook.Jump.{bytes, length-bytes, get_or-bytes, make_jmp-Patched}
use nwnx2_windows.Hook.Bridge.{prologue_bytes, jump_offset, zero_memory-outside, fill_bridge-Built}

-- A hook from `target` to `filter`, with its bridge at `b`: the target's bytes jump to the filter;
-- the bridge begins with its prologue; behind it stand the bytes that the jump replaced, except for
-- a Windows library, whose first instructions the prologue is; then a jump leads back behind the
-- replaced bytes; no other byte changes.
pub record Hooked (mem : Memory) (filter b target alignment : ℕ) (r : Bridged) : Type 0 where
  pub succeeds : r.ok ≡ true
  pub points : r.pointer ≡ b
  pub opcode : r.machine.memory target ≡ 0xE9
  pub leads : (target + 5 + read32 r.machine.memory (target + 1)) % 2 ^ 32 ≡ filter
  pub prologue : bytes r.machine.memory b 5 ≡ prologue_bytes (alignment == windows_library)
  pub copies :
      (i : ℕ)
      → alignment ≢ windows_library
      → i < alignment + 5
      → r.machine.memory (b + 5 + i) ≡ mem (target + i)
  pub bridge_opcode :
      r.machine.memory (b + (if alignment == windows_library then 5 else alignment + 10)) ≡ 0xE9
  pub back : interpret_address r.machine.memory b alignment ≡ target + saved_length alignment
  pub frame :
      (x : ℕ)
      → (x < target) ⊎ (target + saved_length alignment ≤ x)
      → (x < b) ⊎ (b + 10 + saved_length alignment ≤ x)
      → r.machine.memory x ≡ mem x

saved_length-bounds :
    (al : ℕ) → (5 ≤ saved_length al) × (al ≢ windows_library → saved_length al ≡ al + 5)
unfolding saved_length
saved_length-bounds al = (ground arith, λ h. ground arith)

jump_offset-behind : (al : ℕ) → jump_offset al ≡ (if al == windows_library then 5 else al + 10)
unfolding interpret_offset
jump_offset-behind al = ground arith

jump_offset-fits : (al : ℕ) → (al ≡ 0) ⊎ (al ≡ windows_library) → jump_offset al + 5 ≤ 15
unfolding interpret_offset
jump_offset-fits al h = ground arith

return_address-saved : (fn al : ℕ) → return_address fn al ≡ fn + saved_length al
unfolding return_address saved_length
return_address-saved fn al = ground arith

displacement-reaches : (c d : ℕ) → c < 2 ^ 32 → d < 2 ^ 32 → (c + 5 + displacement c d) % 2 ^ 32 ≡ d
unfolding displacement
displacement-reaches c d hc hd = omega arith

read32-same :
    (mem mem' : Memory) (a : ℕ)
    → ((x : ℕ) → a ≤ x → x < a + 4 → mem' x ≡ mem x)
    → read32 mem' a ≡ read32 mem a
unfolding read32
read32-same mem mem' a h =
    rw
      (
        h a (omega arith) (omega arith),
        h (a + 1) (omega arith) (omega arith),
        h (a + 2) (omega arith) (omega arith),
        h (a + 3) (omega arith) (omega arith),
      )
      refl

module _ (virtual_protect : ℕ → Bool) (granted : (n : ℕ) → virtual_protect n ≡ true)
    (heap_alloc : ℕ → Option ℕ) (m : Machine) (filter pointer target alignment : ℕ) where
  -- With the alignment 0 or that of a Windows library, where Windows grants every call and the heap
  -- gives fifteen bytes at `b`, and the target's bytes and the bridge's do not overlap and lie below
  -- 2^32, hooking stays inside its block and returns 1: the target jumps to the filter; the bridge
  -- has its five bytes of prologue, the replaced bytes unless the target is of a Windows library, and
  -- a jump back behind the replaced bytes; no other byte changes.
  pub hook_function_general-Hooked :
      (b : ℕ)
      → (alignment ≡ 0) ⊎ (alignment ≡ windows_library)
      → heap_alloc 15 ≡ some b
      → filter < 2 ^ 32
      → target + saved_length alignment < 2 ^ 32
      → b + 10 + saved_length alignment < 2 ^ 32
      → (target + saved_length alignment ≤ b) ⊎ (b + 10 + saved_length alignment ≤ target)
      → Returns
          (hook_function_general virtual_protect true heap_alloc m filter pointer target alignment)
          (Hooked m.memory filter b target alignment)
  unfolding hook_function_general create_general_bridge size_desired
  hook_function_general-Hooked b small given room_f room_t room_b apart =
      let (long, exact) = saved_length-bounds alignment in
      let jumped = make_jmp virtual_protect m target filter (saved_length alignment) in
      let patched =
        make_jmp-Patched virtual_protect granted m target filter (saved_length alignment) long in
      let wide : length jumped.saved ≡ saved_length alignment =
        ap length patched.saves ∙ length-bytes m.memory target (saved_length alignment) in
      let zeroed = zero_memory jumped.machine.memory b 15 in
      let (bridged, run, built) =
        fill_bridge-Built virtual_protect granted (record jumped.machine { memory = zeroed }) b 15
          target alignment jumped.saved (jump_offset-fits alignment small) wide room_t
          (omega (arith, wide)) in
      let old = λ (x : ℕ) (away : (x < b) ⊎ (b + 10 + saved_length alignment ≤ x)).
        built.frame x (ground (arith, wide))
        ∙ zero_memory-outside jumped.machine.memory b 15 x (ground arith) in
      rw (given, patched.succeeds, run)
        (
          _,
          refl,
          record {
            succeeds = refl;
            points = built.points;
            opcode = old target (ground arith) ∙ patched.opcode;
            leads =
                ap (λ w. (target + 5 + w) % 2 ^ 32)
                  (read32-same jumped.machine.memory _ (target + 1)
                      (λ x lo hi. old x (ground arith))
                    ∙ patched.operand)
                ∙ displacement-reaches target filter (omega arith) room_f;
            prologue = built.prologue;
            copies = λ i other inside.
                built.copies i other (omega (arith, wide, exact other))
                ∙ ap (λ l. get_or l i 0) patched.saves
                ∙ get_or-bytes m.memory target (saved_length alignment) i
                    (omega (arith, exact other));
            bridge_opcode =
                ap (λ o. bridged.machine.memory (b + o)) (sym (jump_offset-behind alignment))
                ∙ built.opcode;
            back = built.back ∙ return_address-saved target alignment;
            frame = λ x far away. old x away ∙ patched.frame x far;
          },
        )

  -- Where the heap gives no memory for the bridge, hooking ends and returns 1 all the same: the target jumps
  -- to the filter, and the pointer through which the original would be called is NULL.
  pub hook_function_general-null :
      heap_alloc 15 ≡ none
      → filter < 2 ^ 32
      → target < 2 ^ 32
      → Returns
          (hook_function_general virtual_protect true heap_alloc m filter pointer target alignment)
          λ r.
            (r.ok ≡ true)
            × (r.pointer ≡ 0)
            × ((target + 5 + read32 r.machine.memory (target + 1)) % 2 ^ 32 ≡ filter)
  unfolding hook_function_general create_general_bridge size_desired
  hook_function_general-null refused room_f room_t =
      let patched =
        make_jmp-Patched virtual_protect granted m target filter (saved_length alignment)
          (saved_length-bounds alignment).0 in
      rw (refused, patched.succeeds)
        (
          _,
          refl,
          (
            refl,
            refl,
            ap (λ w. (target + 5 + w) % 2 ^ 32) patched.operand
                ∙ displacement-reaches target filter room_t room_f,
          ),
        )
