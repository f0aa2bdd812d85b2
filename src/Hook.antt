-- ===== src/Hook.antt =====
-- NWNXdll/hook_funcs.cpp: a jump is written over the first bytes of an engine function, and the
-- bytes that it replaces move to a bridge, from which the original can still be called.
-- Windows is a parameter: `virtual_protect n` is the result of the n-th call of VirtualProtect,
-- `process_heap` that of GetProcessHeap, and `heap_alloc` the address that HeapAlloc gives for a
-- size, `none` for NULL. Page protections are not modelled, `malloc` is taken to succeed, and the
-- ranges of addresses are taken not to wrap. A store behind the block that HeapAlloc gave is a
-- fault. The macros CREATE_FRAME, SAVE_PREVIOUS and
-- CREATE_FRAME_FIRST have the value TRUE that the file gives them.
pub mod Jump
pub mod Bridge
pub mod Install
mod Tests
use nwnx2_windows.Prelude.{
  ℕ, zero, suc, ◌+◌, ◌-◌, ◌*◌, ◌%◌, ◌^◌, Bool, true, false, ◌&&◌, ◌||◌, not, Option, Outcome, done,
  fault, ◌>>=◌, none, some, List, [], ◌∷◌, ◌==◌, ltb, leb, if◌then◌else◌, length,
}
use nwnx2_windows.Memory.{Memory, write, write32}

-- `WINDOWS_LIBRARY`
abbrev pub windows_library : ℕ
windows_library = 99

-- the memory, and the number of calls of VirtualProtect so far
pub record Machine : Type 0 where
  pub memory : Memory
  pub calls : ℕ

-- what `make_jmp` leaves behind: `saved` are the bytes written to `save_bytes`
pub record Jumped : Type 0 where
  pub machine : Machine
  pub saved : List ℕ
  pub ok : Bool

-- what a function that sets a bridge pointer leaves behind
pub record Bridged : Type 0 where
  pub machine : Machine
  pub pointer : ℕ
  pub ok : Bool

-- `(unsigned long) (destination - (clobber + 1) - 4)`, of 32 bits
unfoldable pub displacement : ℕ → ℕ → ℕ
displacement clobber destination = (destination + 2 ^ 33 - (clobber + 1) - 4) % 2 ^ 32

-- the loop from index `i`, for `n` more bytes: the bytes saved, and the memory
unfoldable pub clobber_loop : Memory → ℕ → ℕ → ℕ → List ℕ × Memory
clobber_loop mem clobber i zero = ([], mem)
clobber_loop mem clobber i (suc n) =
    let rest = clobber_loop (write mem (clobber + i) 0x90) clobber (i + 1) n in
    (mem (clobber + i) ∷ rest.0, rest.1)

-- the loop that copies `fill`, from index `i`, to `c_bridge + offset`
unfoldable pub fill_loop : Memory → ℕ → ℕ → List ℕ → Memory
fill_loop mem to i [] = mem
fill_loop mem to i (c ∷ fill) = fill_loop (write mem (to + i) c) to (i + 1) fill

-- the stores of `CreateStackFrame`, which overlap
unfoldable pub frame_stores : Memory → ℕ → Bool → Memory
frame_stores mem p windowslib =
    if windowslib
    then write32 (write32 (write32 mem p 0xFF89) (p + 2) 0x55) (p + 3) 0xEC8B
    else write32 (write32 (write32 (write32 mem p 0x9090) (p + 2) 0x58) (p + 3) 0x90) (p + 4) 0x90

-- HEAP_ZERO_MEMORY
unfoldable pub zero_memory : Memory → ℕ → ℕ → Memory
zero_memory mem p size x = if leb p x && ltb x (p + size) then 0 else mem x

-- the address to which the bridge jumps back
unfoldable pub return_address : ℕ → ℕ → ℕ
return_address fn alignment = if alignment == windows_library then fn + 5 else fn + alignment + 5

unfoldable pub saved_length : ℕ → ℕ
saved_length alignment = if alignment == windows_library then 5 else alignment + 5

-- `size_desired`
unfoldable pub size_desired : Option (List ℕ) → Bool → ℕ
size_desired fill create_stackframe =
    5 + (if create_stackframe then 5 else 0) + elim fill [ none ↦ 0 | some _ ↦ 5 ]

-- the saved bytes, and the offset behind them
unfoldable pub bridge_fill : Memory → ℕ → ℕ → ℕ → Option (List ℕ) → Memory × ℕ
bridge_fill mem b offset alignment none = (mem, offset)
bridge_fill mem b offset alignment (some fill) =
    if alignment == windows_library
    then (mem, offset)
    else (fill_loop mem (b + offset) 0 fill, offset + length fill)

module _ (virtual_protect : ℕ → Bool) where
  -- the result of a call of VirtualProtect, and the machine after it
  abbrev pub protect : Machine → Bool × Machine
  protect m = (virtual_protect m.calls, record m { calls = m.calls + 1 })

  -- `savelen` is at least 1
  unfoldable pub make_jmp : Machine → ℕ → ℕ → ℕ → Jumped
  make_jmp m clobber destination savelen =
      let (opened, m₁) = protect m in
      let looped = clobber_loop (write m₁.memory clobber 0xE9) clobber 1 (savelen - 1) in
      let (closed, m₂) = protect (record m₁ {
        memory = write32 looped.1 (clobber + 1) (displacement clobber destination);
      }) in
      if opened
      then record { machine = m₂; saved = m₁.memory clobber ∷ looped.0; ok = closed }
      else record { machine = m₁; saved = []; ok = false }

  unfoldable pub create_stack_frame : Machine → ℕ → Bool → Machine × Bool
  create_stack_frame m p windowslib =
      let (opened, m₁) = protect m in
      let (closed, m₂) = protect (record m₁ { memory = frame_stores m₁.memory p windowslib }) in
      if opened then (m₂, closed) else (m₁, false)

  -- the frame, when one is wanted, and the offset behind it
  unfoldable pub bridge_frame : Machine → ℕ → ℕ → Bool → Machine × Bool × ℕ
  bridge_frame m b alignment false = (m, true, 0)
  bridge_frame m b alignment true =
      let (m', ok) = create_stack_frame m b (alignment == windows_library) in (m', ok, 5)

  -- from the allocated bridge of `size` bytes on; `behind` bytes are written before the jump, and
  -- five more where VirtualProtect lets `make_jmp` write
  unfoldable pub fill_bridge : Machine → ℕ → ℕ → ℕ → Option (List ℕ) → ℕ → Bool → Outcome Bridged
  fill_bridge m b size fn fill alignment create_stackframe =
      let (opened, m₁) = protect m in
      let (m₂, framed, offset) = bridge_frame m₁ b alignment create_stackframe in
      let (mem, behind) = bridge_fill m₂.memory b offset alignment fill in
      let jumped =
        make_jmp (record m₂ { memory = mem }) (b + behind) (return_address fn alignment) 5 in
      if opened
      then (if framed
          then (if ltb size behind || virtual_protect m₂.calls && ltb size (behind + 5)
              then fault
              else done (record { machine = jumped.machine; pointer = b; ok = jumped.ok }))
          else done (record { machine = m₂; pointer = b; ok = false }))
      else done (record { machine = m₁; pointer = b; ok = false })

module _ (virtual_protect : ℕ → Bool) (process_heap : Bool) (heap_alloc : ℕ → Option ℕ) where
  unfoldable pub create_general_bridge :
      Machine → ℕ → ℕ → Option (List ℕ) → ℕ → Bool → Outcome Bridged
  create_general_bridge m pointer fn fill alignment create_stackframe =
      if process_heap
      then (let size = size_desired fill create_stackframe in
          elim (heap_alloc size) [
            | none ↦ done (record { machine = m; pointer = 0; ok = false })
            | some b ↦
                fill_bridge virtual_protect (record m { memory = zero_memory m.memory b size }) b
                  size fn fill alignment create_stackframe
          ])
      else done (record { machine = m; pointer = pointer; ok = false })

  -- the result of `CreateGeneralBridge` is dropped
  unfoldable pub hook_function_general : Machine → ℕ → ℕ → ℕ → ℕ → Outcome Bridged
  hook_function_general m filter pointer target alignment =
      let jumped = make_jmp virtual_protect m target filter (saved_length alignment) in
      let built =
        create_general_bridge jumped.machine pointer target (some jumped.saved) alignment true in
      if jumped.ok
      then (do
        bridged ← built
        done (record { machine = bridged.machine; pointer = bridged.pointer; ok = true }))
      else done (record { machine = jumped.machine; pointer = pointer; ok = false })

  unfoldable pub hook_function_stdcall : Machine → ℕ → ℕ → ℕ → Outcome Bridged
  hook_function_stdcall m filter pointer target =
      hook_function_general m filter pointer target windows_library

  unfoldable pub hook_function : Machine → ℕ → ℕ → ℕ → ℕ → Outcome Bridged
  hook_function m filter pointer target alignment =
      hook_function_general m filter pointer target alignment

-- the index of the last byte of the displacement in a bridge
unfoldable pub interpret_offset : ℕ → ℕ
interpret_offset alignment = if alignment == windows_library then 9 else 4 + (alignment + 5) + 5

-- `dbg` and `ptr[offset]` are unsigned 32-bit words
unfoldable pub interpret_address : Memory → ℕ → ℕ → ℕ
unfolding interpret_offset
interpret_address mem p alignment =
    let offset = interpret_offset alignment in
    let d₁ = mem (p + offset) * 2 ^ 8 % 2 ^ 32 in
    let d₂ = (d₁ + mem (p + (offset - 1))) * 2 ^ 8 % 2 ^ 32 in
    let d₃ = (d₂ + mem (p + (offset - 2))) * 2 ^ 8 % 2 ^ 32 in
    (d₃ + mem (p + (offset - 3)) + (p + (offset - 4)) + 5) % 2 ^ 32
