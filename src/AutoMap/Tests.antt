-- ===== src/AutoMap/Tests.antt =====
-- Runs of the map functions, and the theorems at concrete maps.
use mathlib.Core.Path.{subst}
use nwnx2_windows.Prelude.{
  ℕ, suc, ◌+◌, ◌-◌, ◌≡◌, refl, ap, ◌∙◌, Option, none, some, List, [], ◌∷◌, ◌++◌, done, Returns,
  arith, take,
}
use nwnx2_windows.ExoArrayList.{ArrayList, contains}
use nwnx2_windows.ExoArrayList.Items.{Valid, items, contains-Searched, Searched}
use nwnx2_windows.AutoMap.{
  CreatureMaps, TurdMaps, new_map, cells_of, copy_others, copy, add_area, remove_area,
  delete_mini_maps, delete_areas,
}
use nwnx2_windows.AutoMap.Arrays.{without, length-without, take-without}
use nwnx2_windows.AutoMap.Creature
use nwnx2_windows.AutoMap.Turd
use nwnx2_windows.AutoMap.Turd.{first_index}

abbrev map_a : Option (List ℕ)
map_a = some (1 ∷ [])

abbrev map_b : Option (List ℕ)
map_b = some (2 ∷ [])

abbrev maps : CreatureMaps
maps = record {
  mini_map = some (map_a ∷ map_b ∷ []);
  areas = record { data_of = 100 ∷ 200 ∷ []; len = 2; alloc = 2 };
  mini_map_count = 2;
}

maps-Paired : Creature.Paired maps
maps-Paired = record {
  list = record { width = refl; fits = omega arith };
  areas = refl;
  maps = refl;
}

-- A function that removes as the engine's does.
remove_first : ArrayList → ℕ → ArrayList
unfolding without
remove_first list area = elim (contains list area) [
  | none ↦ list
  | some i ↦ record { data_of = without i list.data_of; len = list.len - 1; alloc = list.alloc - 1 }
]

remove_first-removes :
    (list : ArrayList) (area i : ℕ)
    → Valid list
    → contains list area ≡ some i
    → Searched list.data_of area 0 list.len (some i)
    → Valid (remove_first list area)
      × ((remove_first list area).len + 1 ≡ list.len)
      × (items (remove_first list area) ≡ without i (items list))
unfolding remove_first
remove_first-removes list area i valid found (Searched.present low high at first) =
    let shorter = length-without i list.data_of (omega (arith, valid.width, valid.fits)) in
    let last : suc (list.len - 1) ≡ list.len = omega arith in
    rw (found, remove_first)
      (
        record { width = omega (arith, shorter, valid.width); fits = omega (arith, valid.fits) },
        omega arith,
        take-without i (list.len - 1) list.data_of (omega arith)
            ∙ ap (λ n. without i (take n list.data_of)) last,
      )

removes :
    (list : ArrayList) (area i : ℕ)
    → Valid list
    → contains list area ≡ some i
    → Valid (remove_first list area)
      × ((remove_first list area).len + 1 ≡ list.len)
      × (items (remove_first list area) ≡ without i (items list))
removes list area i valid found =
    remove_first-removes list area i valid found
      (subst (Searched list.data_of area 0 list.len) found (contains-Searched list area))

removed :
    remove_area remove_first maps 100
    ≡ done (record {
      mini_map = some (map_b ∷ []);
      areas = record { data_of = 200 ∷ []; len = 1; alloc = 1 };
      mini_map_count = 1;
    })
unfolding remove_area remove_first contains copy_others without
removed = refl

copied : copy 2 (map_a ∷ map_b ∷ none ∷ []) ≡ done (map_a ∷ map_b ∷ [])
unfolding copy
copied = refl

deleted : delete_mini_maps (delete_areas maps) ≡ record {
  mini_map = none;
  areas = record { data_of = []; len = 0; alloc = 0 };
  mini_map_count = 0;
}
unfolding delete_mini_maps delete_areas
deleted = refl

add_area-Paired_example : Returns (add_area maps 300 (some (0 ∷ []))) (λ c'.
    Creature.Paired c'
    × (items c'.areas ≡ items maps.areas ++ (300 ∷ []))
    × (cells_of c'.mini_map ≡ cells_of maps.mini_map ++ (some new_map ∷ [])))
add_area-Paired_example = Creature.add_area-Paired maps 300 0 [] maps-Paired

remove_area-Paired_example : Returns (remove_area remove_first maps 100) (λ c'.
    Creature.Paired c'
    × (cells_of c'.mini_map ≡ Creature.dropped (contains maps.areas 100) (cells_of maps.mini_map))
    × (Creature.area_maps c'
        ≡ Creature.dropped (contains maps.areas 100) (Creature.area_maps maps)))
remove_area-Paired_example = Creature.remove_area-Paired remove_first removes maps 100 maps-Paired

abbrev left_maps : TurdMaps
left_maps = record {
  area_count = 2;
  areas = 100 ∷ 200 ∷ [];
  mini_map = map_a ∷ map_b ∷ [];
  mini_map_at = 0x10003000;
}

left_maps-Paired : Turd.Paired left_maps
left_maps-Paired = record { areas = refl; maps = refl }

first_area : first_index left_maps.areas 100 0 ≡ some 0
unfolding first_index
first_area = refl
