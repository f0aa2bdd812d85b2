-- ===== src/AutoMap/Creature.antt =====
-- The maps of a creature in RockLib/nwn_internals/CAutoMap.cpp: each area has its map, at the same
-- index.
use nwnx2_windows.Prelude.{
  ℕ, zero, suc, ◌+◌, ◌<◌, ◌≡◌, refl, ap, ◌∙◌, Option, none, some, List, [], ◌∷◌, ◌++◌, done,
  Returns, arith, length, length-append, length-take,
}
use nwnx2_windows.ExoArrayList.{ArrayList, contains}
use nwnx2_windows.ExoArrayList.Items.{Valid, items, add-Valid, contains-Searched, Searched}
use nwnx2_windows.AutoMap.Arrays.{
  without, write_at-take, resize-take, copy_others-without, length-without,
}
use nwnx2_windows.AutoMap.{
  MiniMapData, CreatureMaps, cells_of, new_map, add_map, add_area, remove_area,
}

-- As many maps as areas, in arrays that fit.
pub record Paired (c : CreatureMaps) : Type 0 where
  pub list : Valid c.areas
  pub areas : c.areas.len ≡ c.mini_map_count
  pub maps : length (cells_of c.mini_map) ≡ c.mini_map_count

-- The elements but the one at an index that was found.
abbrev pub dropped {ℓ} : {A : Type ℓ} → Option ℕ → List A → List A
dropped none xs = xs
dropped (some i) xs = without i xs

-- Each element with the one at its index in another list.
abbrev pub pairs {ℓ κ} : {A : Type ℓ} {B : Type κ} → List A → List B → List (A × B)
pairs [] ys = []
pairs (x ∷ xs) [] = []
pairs (x ∷ xs) (y ∷ ys) = (x, y) ∷ pairs xs ys

-- The areas with their maps.
abbrev pub area_maps : CreatureMaps → List (ℕ × Option MiniMapData)
area_maps c = pairs (items c.areas) (cells_of c.mini_map)

pairs-without {ℓ κ} :
    {A : Type ℓ} {B : Type κ} (i : ℕ) (xs : List A) (ys : List B)
    → length xs ≡ length ys
    → pairs (without i xs) (without i ys) ≡ without i (pairs xs ys)
unfolding without
pairs-without i [] [] h = refl
pairs-without i [] (y ∷ ys) h = absurd (omega arith)
pairs-without i (x ∷ xs) [] h = absurd (omega arith)
pairs-without zero (x ∷ xs) (y ∷ ys) h = refl
pairs-without (suc i) (x ∷ xs) (y ∷ ys) h =
    ap (λ r. (x, y) ∷ r) (pairs-without i xs ys (omega arith))

add_map_lem :
    (c : CreatureMaps)
    → length (cells_of c.mini_map) ≡ c.mini_map_count
    → add_map c
      ≡ done (record c {
        mini_map = some (cells_of c.mini_map ++ (some new_map ∷ []));
        mini_map_count = c.mini_map_count + 1;
      })
unfolding add_map
add_map_lem c h =
    let n = c.mini_map_count in
    let cells = cells_of c.mini_map in
    rw (resize-take n cells h) (rw (write_at-take n cells none (some new_map) h) refl)

length-items : (list : ArrayList) → Valid list → length (items list) ≡ list.len
length-items list v = length-take list.len list.data_of (omega (arith, v.width, v.fits))

-- To add an area to paired maps puts it at the end of the areas, with an empty map at the end of the
-- maps, and leaves paired maps, where the memory of the areas, if it is full, grows by a cell at
-- least.
pub add_area-Paired :
    (c : CreatureMaps) (area cell : ℕ) (fresh : List ℕ)
    → Paired c
    → Returns (add_area c area (some (cell ∷ fresh))) (λ c'.
      Paired c'
      × (items c'.areas ≡ items c.areas ++ (area ∷ []))
      × (cells_of c'.mini_map ≡ cells_of c.mini_map ++ (some new_map ∷ [])))
unfolding add_area
add_area-Paired c area cell fresh p =
    let (r, run, (valid, appended, count)) = add-Valid c.areas area cell fresh p.list in
    rw (add_map_lem c p.maps) (
      rw run (
        _,
        refl,
        (
          record {
            list = valid;
            areas = omega (
              arith,
              length-items r.0 valid,
              length-items c.areas p.list,
              ap length appended,
              length-append (items c.areas) (area ∷ []),
              p.areas,
            );
            maps = omega (arith, length-append (cells_of c.mini_map) (some new_map ∷ []), p.maps);
          },
          appended,
          refl,
        ),
      ))

module _ (engine_remove : ArrayList → ℕ → ArrayList)
    (removes : (list : ArrayList) (area i : ℕ)
      → Valid list
      → contains list area ≡ some i
      → Valid (engine_remove list area)
        × ((engine_remove list area).len + 1 ≡ list.len)
        × (items (engine_remove list area) ≡ without i (items list))) where
  -- If the engine's function removes the first of a value from a valid array and keeps the others in
  -- their order, then to remove an area from paired maps ends normally and leaves paired maps: the
  -- maps are the old ones in their order but for the one at the area's index, and the areas with
  -- their maps are the old ones but for that area with its map. An area that is not there changes
  -- nothing.
  pub remove_area-Paired :
      (c : CreatureMaps) (area : ℕ)
      → Paired c
      → Returns (remove_area engine_remove c area) (λ c'.
        Paired c'
        × (cells_of c'.mini_map ≡ dropped (contains c.areas area) (cells_of c.mini_map))
        × (area_maps c' ≡ dropped (contains c.areas area) (area_maps c)))
  unfolding remove_area
  remove_area-Paired c area p =
      removing (contains c.areas area) refl (contains-Searched c.areas area)
    where
      removing :
          (o : Option ℕ)
          → contains c.areas area ≡ o
          → Searched c.areas.data_of area 0 c.areas.len o
          → Returns (remove_area engine_remove c area) (λ c'.
            Paired c'
            × (cells_of c'.mini_map ≡ dropped o (cells_of c.mini_map))
            × (area_maps c' ≡ dropped o (area_maps c)))
      removing none found s = rw (found, remove_area) (c, refl, (p, refl, refl))
      removing (some i) found (Searched.present low high at first) =
          let (valid, fewer, kept) = removes c.areas area i p.list found in
          let inside : i < c.mini_map_count = omega (arith, p.areas) in
          let same : length (items c.areas) ≡ length (cells_of c.mini_map) =
            omega (arith, length-items c.areas p.list, p.areas, p.maps) in
          rw (found, remove_area)
            (rw (copy_others-without i c.mini_map_count (cells_of c.mini_map) inside p.maps) (
              _,
              refl,
              (
                record {
                  list = valid;
                  areas = omega (arith, fewer, p.areas);
                  maps = omega (arith, length-without i (cells_of c.mini_map), p.maps);
                },
                refl,
                ap (λ xs. pairs xs (without i (cells_of c.mini_map))) kept
                    ∙ pairs-without i (items c.areas) (cells_of c.mini_map) same,
              ),
            ))
