-- ===== src/Scan.antt =====
-- The byte-pattern searches by which the plugins find the engine's functions in the process image,
-- 0x400000 to 0x600000: in NWNXdll/NWNXdll.cpp, NWNX_Chat/HookChat.cpp, ODBC2/scorcohook.cpp and
-- Profiler/HookRunScript.cpp. A pattern lists offsets with the byte that must stand there; every
-- search is the same loop.
pub mod First
mod Tests
use nwnx2_windows.Memory.{Memory}
use nwnx2_windows.Prelude.{ℕ, zero, suc, ◌+◌, Bool, true, ◌&&◌, List, [], ◌∷◌, ◌==◌, if◌then◌else◌}

abbrev pub Pattern : Type 0
Pattern = List (ℕ × ℕ)

-- the conjunction of the tests `ptr[offset] == (char) byte`
unfoldable pub matches : Pattern → Memory → ℕ → Bool
matches [] mem ptr = true
matches ((offset, byte) ∷ pattern) mem ptr = mem (ptr + offset) == byte && matches pattern mem ptr

-- the `while` loop, for `n` more addresses; NULL is 0
pub scan : Pattern → ℕ → Memory → ℕ → ℕ
unfolding matches
scan pattern zero mem ptr = 0
scan pattern (suc n) mem ptr =
    let rest = scan pattern n mem (ptr + 1) in if matches pattern mem ptr then ptr else rest

pub find_in_image : Pattern → Memory → ℕ
find_in_image pattern mem = scan pattern 0x200000 mem 0x400000

-- NWNXdll/NWNXdll.cpp: `FindHook`
abbrev pub hook_pattern : Pattern
hook_pattern =
    (0, 0x8b)
    ∷ (1, 0x44)
    ∷ (2, 0x24)
    ∷ (3, 0x04)
    ∷ (4, 0x6a)
    ∷ (5, 0x01)
    ∷ (6, 0x6a)
    ∷ (7, 0x03)
    ∷ []

unfoldable pub find_hook : Memory → ℕ
find_hook mem = find_in_image hook_pattern mem

-- NWNXdll/NWNXdll.cpp: `FindObjectHook`
abbrev pub object_hook_pattern : Pattern
object_hook_pattern =
    (0, 0x8b)
    ∷ (1, 0x44)
    ∷ (2, 0x24)
    ∷ (3, 0x04)
    ∷ (4, 0x56)
    ∷ (11, 0x6a)
    ∷ (12, 0x00)
    ∷ (13, 0x6a)
    ∷ (14, 0x04)
    ∷ []

unfoldable pub find_object_hook : Memory → ℕ
find_object_hook mem = find_in_image object_hook_pattern mem

-- NWNX_Chat/HookChat.cpp: `FindChat`
abbrev pub chat_pattern : Pattern
chat_pattern =
    (0, 0x6a)
    ∷ (1, 0xff)
    ∷ (2, 0x68)
    ∷ (106, 0xfc)
    ∷ (107, 0x00)
    ∷ (108, 0x00)
    ∷ (109, 0x00)
    ∷ (114, 0x80)
    ∷ (115, 0x7c)
    ∷ (116, 0x24)
    ∷ (117, 0x4c)
    ∷ (118, 0x02)
    ∷ []

unfoldable pub find_chat : Memory → ℕ
find_chat mem = find_in_image chat_pattern mem

-- NWNX_Chat/HookChat.cpp: `FindGetPCobjByOID`
abbrev pub get_pc_obj_by_oid_pattern : Pattern
get_pc_obj_by_oid_pattern =
    (0, 0x53)
    ∷ (1, 0x8b)
    ∷ (2, 0x5c)
    ∷ (3, 0x24)
    ∷ (4, 0x08)
    ∷ (5, 0x81)
    ∷ (6, 0xfb)
    ∷ (7, 0x00)
    ∷ (8, 0x00)
    ∷ (9, 0x00)
    ∷ (10, 0x7f)
    ∷ (11, 0x56)
    ∷ (12, 0x57)
    ∷ (13, 0x8b)
    ∷ (14, 0xf9)
    ∷ (15, 0x74)
    ∷ (16, 0x57)
    ∷ (45, 0x2f)
    ∷ []

unfoldable pub find_get_pc_obj_by_oid : Memory → ℕ
find_get_pc_obj_by_oid mem = find_in_image get_pc_obj_by_oid_pattern mem

-- NWNX_Chat/HookChat.cpp: `FindRunScript`, first loop
abbrev pub run_script_pattern : Pattern
run_script_pattern =
    (0, 0x53)
    ∷ (1, 0x55)
    ∷ (2, 0x56)
    ∷ (3, 0x57)
    ∷ (4, 0x8b)
    ∷ (5, 0x7c)
    ∷ (6, 0x24)
    ∷ (7, 0x14)
    ∷ (8, 0x8b)
    ∷ (9, 0xf1)
    ∷ (10, 0x8b)
    ∷ (11, 0xcf)
    ∷ (12, 0xe8)
    ∷ (17, 0x85)
    ∷ (18, 0xc0)
    ∷ []

-- NWNX_Chat/HookChat.cpp: `FindRunScript`, second loop
abbrev pub run_script_fallback_pattern : Pattern
run_script_fallback_pattern =
    (0, 0x64)
    ∷ (1, 0xa1)
    ∷ (2, 0x00)
    ∷ (3, 0x00)
    ∷ (4, 0x00)
    ∷ (5, 0x00)
    ∷ (6, 0x6a)
    ∷ (7, 0xff)
    ∷ (8, 0x68)
    ∷ (13, 0x50)
    ∷ (14, 0x64)
    ∷ (15, 0x89)
    ∷ (16, 0x25)
    ∷ (17, 0x00)
    ∷ (18, 0x00)
    ∷ (19, 0x00)
    ∷ (20, 0x00)
    ∷ (21, 0x83)
    ∷ (22, 0xec)
    ∷ (23, 0x1c)
    ∷ (24, 0x53)
    ∷ (25, 0x8b)
    ∷ (26, 0x5c)
    ∷ (27, 0x24)
    ∷ (28, 0x30)
    ∷ (59, 0x8d)
    ∷ (60, 0x8e)
    ∷ (61, 0x70)
    ∷ (62, 0x01)
    ∷ (63, 0x00)
    ∷ []

unfoldable pub find_run_script : Memory → ℕ
find_run_script mem =
    let first = find_in_image run_script_pattern mem in
    if first == 0 then find_in_image run_script_fallback_pattern mem else first

-- ODBC2/scorcohook.cpp: `FindHookSCO`
abbrev pub hook_sco_pattern : Pattern
hook_sco_pattern = (0, 0x8b) ∷ (1, 0x09) ∷ (2, 0x85) ∷ (3, 0xc9) ∷ (4, 0x74) ∷ (5, 0x26) ∷ []

unfoldable pub find_hook_sco : Memory → ℕ
find_hook_sco mem = find_in_image hook_sco_pattern mem

-- ODBC2/scorcohook.cpp: `FindHookRCO`
abbrev pub hook_rco_pattern : Pattern
hook_rco_pattern = (0, 0x8b) ∷ (1, 0x09) ∷ (2, 0x85) ∷ (3, 0xc9) ∷ (4, 0x74) ∷ (5, 0x21) ∷ []

unfoldable pub find_hook_rco : Memory → ℕ
find_hook_rco mem = find_in_image hook_rco_pattern mem

-- Profiler/HookRunScript.cpp: `FindHookRunScript`
abbrev pub hook_run_script_pattern : Pattern
hook_run_script_pattern =
    (24, 0x53)
    ∷ (25, 0x55)
    ∷ (26, 0x56)
    ∷ (27, 0x8b)
    ∷ (28, 0xf1)
    ∷ (29, 0x8b)
    ∷ (30, 0x86)
    ∷ (35, 0x8b)
    ∷ (36, 0xae)
    ∷ (41, 0x57)
    ∷ (42, 0xc7)
    ∷ (43, 0x06)
    ∷ (44, 0x00)
    ∷ []

unfoldable pub find_hook_run_script : Memory → ℕ
find_hook_run_script mem = find_in_image hook_run_script_pattern mem

-- Profiler/HookRunScript.cpp: `FindHookCrossAreaPathFind`
abbrev pub hook_cross_area_path_find_pattern : Pattern
hook_cross_area_path_find_pattern =
    (0, 0x83)
    ∷ (1, 0xec)
    ∷ (3, 0x53)
    ∷ (4, 0x8b)
    ∷ (5, 0x5c)
    ∷ (6, 0x24)
    ∷ (8, 0x55)
    ∷ (9, 0x56)
    ∷ (10, 0x8b)
    ∷ (11, 0x74)
    ∷ (12, 0x24)
    ∷ (14, 0x8b)
    ∷ (15, 0x86)
    ∷ (20, 0x8b)
    ∷ (21, 0xe9)
    ∷ (22, 0x8b)
    ∷ (23, 0x0c)
    ∷ (24, 0x98)
    ∷ (25, 0x3b)
    ∷ (26, 0x4e)
    ∷ []

unfoldable pub find_hook_cross_area_path_find : Memory → ℕ
find_hook_cross_area_path_find mem = find_in_image hook_cross_area_path_find_pattern mem

-- Profiler/HookRunScript.cpp: `FindHookPathFind`
abbrev pub hook_path_find_pattern : Pattern
hook_path_find_pattern =
    (0, 0x83)
    ∷ (1, 0xec)
    ∷ (2, 0x10)
    ∷ (3, 0x53)
    ∷ (4, 0x55)
    ∷ (5, 0x56)
    ∷ (6, 0x57)
    ∷ (7, 0x8b)
    ∷ (8, 0xf9)
    ∷ (9, 0x8b)
    ∷ (10, 0x47)
    ∷ (12, 0x85)
    ∷ (13, 0xc0)
    ∷ (14, 0x75)
    ∷ (15, 0x0f)
    ∷ (16, 0x8b)
    ∷ (17, 0x87)
    ∷ (22, 0x85)
    ∷ (23, 0xc0)
    ∷ (24, 0x75)
    ∷ (25, 0x05)
    ∷ (26, 0xe8)
    ∷ (31, 0xa1)
    ∷ (36, 0xd9)
    ∷ (37, 0x44)
    ∷ (38, 0x24)
    ∷ (40, 0x8b)
    ∷ (41, 0x97)
    ∷ (46, 0x8b)
    ∷ (47, 0x74)
    ∷ (48, 0x24)
    ∷ (50, 0x8b)
    ∷ (51, 0x8f)
    ∷ (56, 0x8b)
    ∷ (57, 0x6c)
    ∷ (58, 0x24)
    ∷ []

unfoldable pub find_hook_path_find : Memory → ℕ
find_hook_path_find mem = find_in_image hook_path_find_pattern mem
