-- ===== src/AutoMap/Turd.antt =====
-- The maps of a player who left in RockLib/nwn_internals/CAutoMap.cpp.
use nwnx2_windows.Prelude.{
  ℕ, zero, suc, ◌+◌, ◌<◌, ◌≤◌, ◌^◌, ◌≡◌, refl, true, false, Option, none, some, List, [], ◌∷◌, ◌++◌,
  done, fault, Returns, arith, ltb, leb, ◌==◌, if◌then◌else◌, length, length-append,
}
use nwnx2_windows.AutoMap.Arrays.{
  without, write_at-take, resize-take, copy_areas-take, copy_others-without, length-without,
}
use nwnx2_windows.AutoMap.{
  TurdMaps, new_map, resize, search_areas, area_index, add_turd_area, remove_found,
  remove_turd_area,
}

-- As many areas and maps as counted.
pub record Paired (t : TurdMaps) : Type 0 where
  pub areas : length t.areas ≡ t.area_count
  pub maps : length t.mini_map ≡ t.area_count

-- To add an area to paired maps puts it at the end of the areas, with an empty map at the end of the
-- maps, and leaves paired maps.
pub add_turd_area-Paired :
    (t : TurdMaps) (area at : ℕ)
    → Paired t
    → Returns (add_turd_area t area at) (λ t'.
      Paired t'
      × (t'.areas ≡ t.areas ++ (area ∷ []))
      × (t'.mini_map ≡ t.mini_map ++ (some new_map ∷ [])))
unfolding add_turd_area
add_turd_area-Paired t area at p =
    let n = t.area_count in
    rw (resize-take n t.mini_map p.maps) (
      rw (write_at-take n t.mini_map none (some new_map) p.maps) (
        rw (copy_areas-take n t.areas p.areas) (
          rw (write_at-take n t.areas 0 area p.areas) (
            _,
            refl,
            (
              record {
                areas = omega (arith, length-append t.areas (area ∷ []), p.areas);
                maps = omega (arith, length-append t.mini_map (some new_map ∷ []), p.maps);
              },
              refl,
              refl,
            ),
          ))))

-- the index of the first element that is the area
unfoldable pub first_index : List ℕ → ℕ → ℕ → Option ℕ
first_index [] area i = none
first_index (a ∷ areas) area i = if a == area then some i else first_index areas area (i + 1)

search_areas-found :
    (areas : List ℕ) (area n i : ℕ) {k : ℕ}
    → length areas ≤ n
    → first_index areas area i ≡ some k
    → (search_areas areas area n i ≡ done (some k)) × (i ≤ k) × (k < i + length areas)
unfolding search_areas first_index
search_areas-found [] area n i h f = cc
search_areas-found (a ∷ areas) area zero i h f = absurd (omega arith)
search_areas-found (a ∷ areas) area (suc n) i {k} h f =
    ground (arith, search_areas-found areas area n (i + 1) {k = k})

search_areas-absent :
    (areas : List ℕ) (area n i : ℕ)
    → length areas < n
    → first_index areas area i ≡ none
    → search_areas areas area n i ≡ fault
unfolding search_areas first_index
search_areas-absent areas area zero i h f = absurd (omega arith)
search_areas-absent [] area (suc n) i h f = refl
search_areas-absent (a ∷ areas) area (suc n) i h f =
    ground (arith, search_areas-absent areas area n (i + 1))

-- The address of the maps, read as a length, is more than the number of areas and no negative
-- number.
abbrev pub Addressed : TurdMaps → Type 0
Addressed t = (t.area_count < t.mini_map_at) × (t.mini_map_at < 2 ^ 31)

area_index-search :
    (t : TurdMaps) (area : ℕ)
    → t.mini_map_at < 2 ^ 31
    → area_index t area ≡ search_areas t.areas area t.mini_map_at 0
unfolding area_index
area_index-search t area h =
    let low : ltb t.mini_map_at (2 ^ 31) ≡ true = ground arith in rw low refl

add_turd_area-short :
    (t : TurdMaps) (area at : ℕ)
    → leb t.area_count (length t.mini_map) ≡ false
    → add_turd_area t area at ≡ fault
unfolding add_turd_area resize
add_turd_area-short t area at h = rw h refl

-- To remove an area that is there takes it and its map away, but not from the count, so that the
-- next area cannot be added without a read behind the arrays.
add_turd_area-remove_turd_area :
    (t : TurdMaps) (area other at at' i : ℕ)
    → Paired t
    → Addressed t
    → first_index t.areas area 0 ≡ some i
    → Returns (remove_turd_area t area at) (λ t'.
      (t'.areas ≡ without i t.areas)
      × (t'.mini_map ≡ without i t.mini_map)
      × (t'.area_count ≡ t.area_count)
      × (add_turd_area t' other at' ≡ fault))
unfolding remove_turd_area remove_found
add_turd_area-remove_turd_area t area other at at' i p (low, high) found =
    let (search, _, inside) =
      search_areas-found t.areas area t.mini_map_at 0 (omega (arith, p.areas)) found in
    let index : i < t.area_count = omega (arith, p.areas) in
    let short : leb t.area_count (length (without i t.mini_map)) ≡ false =
      ground (arith, length-without i t.mini_map, p.maps) in
    rw (area_index-search t area high) (
      rw search (
        rw (copy_others-without i t.area_count t.mini_map index p.maps) (
          rw (copy_others-without i t.area_count t.areas index p.areas)
            (_, refl, (refl, refl, refl, add_turd_area-short _ other at' short)))))

-- To remove an area that is not there reads behind the array of areas.
pub remove_turd_area-fault :
    (t : TurdMaps) (area at : ℕ)
    → Paired t
    → Addressed t
    → first_index t.areas area 0 ≡ none
    → remove_turd_area t area at ≡ fault
unfolding remove_turd_area
remove_turd_area-fault t area at p (low, high) absent =
    rw (area_index-search t area high)
      (rw (search_areas-absent t.areas area t.mini_map_at 0 (omega (arith, p.areas)) absent) refl)
