-- ===== src/Scan/Tests.antt =====
-- The searches on a concrete image.
use nwnx2_windows.Prelude.{◌-◌, ◌≡◌, refl, true, false, [], ◌∷◌, get_or}
use nwnx2_windows.Memory.{Memory}
use nwnx2_windows.Scan.{
  matches, find_hook, hook_pattern, find_object_hook, object_hook_pattern, find_chat, chat_pattern,
  find_get_pc_obj_by_oid, get_pc_obj_by_oid_pattern, find_hook_sco, hook_sco_pattern, find_hook_rco,
  hook_rco_pattern, find_hook_run_script, hook_run_script_pattern, find_hook_cross_area_path_find,
  hook_cross_area_path_find_pattern, find_hook_path_find, hook_path_find_pattern,
}
use nwnx2_windows.Scan.First.{InImage, finders-First}

-- the bytes of SetLocalString at 0x401000, zeros elsewhere
abbrev image : Memory
image x = get_or (0 ∷ 0x8b ∷ 0x44 ∷ 0x24 ∷ 0x04 ∷ 0x6a ∷ 0x01 ∷ 0x6a ∷ 0x03 ∷ []) (x - 0x400fff) 0

matches_example :
    (matches hook_pattern image 0x401000 ≡ true) × (matches hook_pattern image 0x401001 ≡ false)
unfolding matches
matches_example = (refl, refl)

finders-First_example :
    InImage hook_pattern image (find_hook image)
    × InImage object_hook_pattern image (find_object_hook image)
    × InImage chat_pattern image (find_chat image)
    × InImage get_pc_obj_by_oid_pattern image (find_get_pc_obj_by_oid image)
    × InImage hook_sco_pattern image (find_hook_sco image)
    × InImage hook_rco_pattern image (find_hook_rco image)
    × InImage hook_run_script_pattern image (find_hook_run_script image)
    × InImage hook_cross_area_path_find_pattern image (find_hook_cross_area_path_find image)
    × InImage hook_path_find_pattern image (find_hook_path_find image)
finders-First_example = finders-First image
