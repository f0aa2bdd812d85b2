-- ===== src/Hook/Tests.antt =====
-- Hooks on a concrete memory.
use nwnx2_windows.Prelude.{
  ℕ, ◌+◌, ◌*◌, ◌%◌, ◌^◌, ◌≡◌, ◌<◌, ◌≤◌, refl, inl, true, some, fault, Returns, arith,
}
use nwnx2_windows.Hook.{
  Machine, saved_length, hook_function_general, create_general_bridge, size_desired, make_jmp,
  clobber_loop, fill_bridge, bridge_frame, create_stack_frame, bridge_fill,
}
use nwnx2_windows.Hook.Install.{Hooked, hook_function_general-Hooked}

abbrev machine : Machine
machine = record { memory = λ x. (x * 7 + 3) % 256; calls = 0 }

length_lem : saved_length 0 ≡ 5
unfolding saved_length
length_lem = refl

room : (a : ℕ) → a + 5 < 2 ^ 32 → a + saved_length 0 < 2 ^ 32
room a h = rw length_lem h

below : (a : ℕ) → a + 5 ≤ 0x20000000 → a + saved_length 0 ≤ 0x20000000
below a h = rw length_lem h

hook_function_general-Hooked_example :
    Returns
      (hook_function_general
        (λ n. true)
        true
        (λ n. some 0x20000000)
        machine
        0x10001000
        0
        0x401000
        0)
      (Hooked machine.memory 0x10001000 0x20000000 0x401000 0)
hook_function_general-Hooked_example =
    hook_function_general-Hooked (λ n. true) (λ n. refl) (λ n. some 0x20000000) machine 0x10001000 0
      0x401000 0 0x20000000 (inl refl) refl (omega arith) (room 0x401000 (omega arith))
      (room 0x2000000A (omega arith)) (inl (below 0x401000 (omega arith)))

-- The bridge of an alignment of 2 is longer than its block.
overrun :
    hook_function_general (λ n. true) true (λ n. some 0x20000000) machine 0x10001000 0 0x401000 2
    ≡ fault
unfolding hook_function_general create_general_bridge size_desired make_jmp clobber_loop fill_bridge
    bridge_frame create_stack_frame bridge_fill saved_length
overrun = refl
