-- ===== src/Areas/Tests.antt =====
-- Runs of the list of areas, and the theorem at a concrete module.
use nwnx2_windows.Prelude.{ℕ, ◌≡◌, refl, List, [], ◌∷◌, arith, codes, print_hex}
use nwnx2_windows.Areas.{print_object, get_first_area}
use nwnx2_windows.Areas.Listed.{next_areas, listing, get_first_area-listing}

abbrev module_areas : List ℕ
module_areas = 0x80000001 ∷ 0x8000000A ∷ []

printed_object : print_object 0xA ≡ codes "0000000A"
unfolding print_object print_hex
printed_object = refl

get_first_area-listing_example :
    (get_first_area module_areas).1 ∷ next_areas module_areas (get_first_area module_areas).0 3
    ≡ listing module_areas 4
get_first_area-listing_example =
    get_first_area-listing module_areas 3 (omega arith, (omega arith, tt))
