-- ===== src/Areas.antt =====
-- NWNX_Functions/CNssAreas.cpp: the script functions that list the module's areas, and the flag of an
-- area against resting. The module's areas are a list, of fewer than 2^31 ids, as the code counts them
-- in an `int`. GetSurfaceMaterial, which reckons with floats, is left out.
pub mod Listed
mod Tests
use nwnx2_windows.Prelude.{
  ℕ, ◌+◌, ◌-◌, leb, map, Bool, true, false, Option, none, some, List, [], ◌∷◌, ◌==◌, if◌then◌else◌,
  length, get_or, Text, codes, ℤ, pos, negsuc, print_nat, print_int, signed32, pad_left, print_hex,
  magnitude,
}
use nwnx2_windows.Params.{int_target, unsigned_target, extract_p1}

-- OBJECT_INVALID
abbrev pub object_invalid : ℕ
object_invalid = 0x7F000000

abbrev pub capital : ℕ → ℕ
capital c = if leb b'a' c then c - 32 else c

-- `%08X`
unfoldable pub print_object : ℕ → Text
print_object id = map capital (pad_left 8 b'0' (print_hex id))

unfoldable pub get_area_by_pos : List ℕ → ℤ → ℕ
get_area_by_pos areas (negsuc n) = object_invalid
get_area_by_pos areas (pos i) = get_or areas i object_invalid

-- the text of the parameters, and the value returned
abbrev pub Answer : Type 0
Answer = Text × ℕ

-- no areas where the module is NULL
unfoldable pub get_area_count : Option (List ℕ) → Answer
get_area_count none = (codes "-1", 0)
get_area_count (some areas) = (print_nat (length areas), 1)

unfoldable pub get_area_by_position : List ℕ → Text → Answer
get_area_by_position areas parameters =
    (print_object (get_area_by_pos areas (extract_p1 parameters int_target (pos 0))), 1)

-- the index where the last answer was an area, and -1 otherwise
abbrev pub kept_index : ℤ → ℕ → ℤ
kept_index index id = if id == object_invalid then negsuc 0 else index

-- the index that is kept, and the answer
unfoldable pub get_first_area : List ℕ → ℤ × Text × ℕ
unfolding get_area_by_pos
get_first_area areas =
    let id = get_area_by_pos areas (pos 0) in (kept_index (pos 0) id, print_object id, 1)

unfoldable pub get_next_area : List ℕ → ℤ → ℤ × Text × ℕ
unfolding get_area_by_pos
get_next_area areas (negsuc n) = (negsuc n, print_object object_invalid, 1)
get_next_area areas (pos i) =
    let id = get_area_by_pos areas (pos (i + 1)) in
    (kept_index (pos (i + 1)) id, print_object id, 1)

-- the flag of an area, none for another object; the new text, none where it stays; and the value
-- returned
unfoldable pub set_no_rest_flag : Option ℕ → Text → Option ℕ × Option Text × ℕ
set_no_rest_flag none parameters = (none, some (codes "-1"), 0)
set_no_rest_flag (some flag) parameters =
    (some (magnitude (extract_p1 parameters unsigned_target (pos 0))), none, 1)

unfoldable pub get_no_rest_flag : Option ℕ → Answer
get_no_rest_flag none = (codes "-1", 0)
get_no_rest_flag (some flag) = (print_int (signed32 flag), 1)
