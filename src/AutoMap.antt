-- ===== src/AutoMap.antt =====
-- RockLib/nwn_internals/CAutoMap.cpp: the explored areas of a creature (CCreatureMaps) and of a player
-- who left (CTURDMaps), each area with a map of 0x80 bytes. A cell of a pointer array is `none` until
-- it is written. What `realloc` gives, the addresses of new arrays and the engine's own removal of a
-- value from an array are arguments.
mod Arrays
pub mod Creature
pub mod Turd
mod Tests
use nwnx2_windows.Prelude.{
  ℕ, zero, suc, ◌+◌, ◌-◌, ◌^◌, Bool, true, false, Option, none, some, List, [], ◌∷◌, ◌++◌, Outcome,
  done, fault, ◌>>=◌, ◌&&◌, ltb, leb, ◌==◌, if◌then◌else◌, length, take, set, replicate, Text,
}
use nwnx2_windows.ExoArrayList.{ArrayList, add, contains}

-- `CMiniMapData`, the bytes of a map
abbrev pub MiniMapData : Type 0
MiniMapData = Text

unfoldable pub new_map : MiniMapData
new_map = replicate 0x80 0

abbrev pub Cells : Type 0
Cells = List (Option MiniMapData)

-- `new` of `n` cells, into which the first `count` of the old ones are copied
unfoldable pub resize : Cells → ℕ → ℕ → Outcome Cells
resize cells count n =
    if leb count (length cells) && leb count n
    then done (take count cells ++ replicate (n - count) none)
    else fault

-- a write to an index of an array; behind the array it is a fault
unfoldable pub write_at {ℓ} : {A : Type ℓ} → List A → ℕ → A → Outcome (List A)
write_at xs i x = if ltb i (length xs) then done (set xs i x) else fault

-- `Map[j++] = x` into an array of `size` elements, of which `out` are written
unfoldable pub push {ℓ} : {A : Type ℓ} → ℕ → List A → A → Outcome (List A)
push size out x = if ltb (length out) size then done (out ++ (x ∷ [])) else fault

-- the loop from index `i`, for `n` more rounds, over the rest of the old array
unfoldable pub copy_loop {ℓ} : {A : Type ℓ} → ℕ → ℕ → List A → ℕ → ℕ → List A → Outcome (List A)
copy_loop size index out i zero xs = done out
copy_loop size index out i (suc n) [] = fault
copy_loop size index out i (suc n) (x ∷ xs) = do
  out' ← if i == index then done out else push size out x
  copy_loop size index out' (i + 1) n xs

-- a new array of `count - 1`, for which there is no memory where `count` is 0, and the loop
unfoldable pub copy_others {ℓ} : {A : Type ℓ} → ℕ → ℕ → List A → Outcome (List A)
unfolding copy_loop push
copy_others index count xs = if count == 0 then fault else copy_loop (count - 1) index [] 0 count xs

-- `new` and `memcpy` of the first `n` maps
unfoldable pub copy : ℕ → Cells → Outcome Cells
copy zero cells = done []
copy (suc n) [] = fault
copy (suc n) (none ∷ cells) = fault
copy (suc n) (some m ∷ cells) = do rest ← copy n cells; done (some m ∷ rest)

pub record CreatureMaps : Type 0 where
  pub mini_map : Option Cells
  pub areas : ArrayList
  pub mini_map_count : ℕ

abbrev pub cells_of : Option Cells → Cells
cells_of none = []
cells_of (some cells) = cells

unfoldable pub delete_mini_maps : CreatureMaps → CreatureMaps
delete_mini_maps c = elim c.mini_map [
  | none ↦ record c { mini_map_count = 0 }
  | some cells ↦
      if ltb 0 c.mini_map_count
      then record c { mini_map = none; mini_map_count = 0 }
      else record c { mini_map_count = 0 }
]

-- `areas` with no memory
unfoldable pub delete_areas : CreatureMaps → CreatureMaps
delete_areas c = record c { areas = record { data_of = []; len = 0; alloc = 0 } }

unfoldable pub add_map : CreatureMaps → Outcome CreatureMaps
unfolding resize write_at
add_map c = do
  cells ← resize (cells_of c.mini_map) c.mini_map_count (c.mini_map_count + 1)
  cells' ← write_at cells c.mini_map_count (some new_map)
  done (record c { mini_map = some cells'; mini_map_count = c.mini_map_count + 1 })

-- the array's result, also a failure, is not looked at
unfoldable pub add_area : CreatureMaps → ℕ → Option (List ℕ) → Outcome CreatureMaps
unfolding add_map
add_area c area fresh = do
  c' ← add_map c
  (areas, result) ← add c'.areas area fresh
  done (record c' { areas = areas })

module _ (engine_remove : ArrayList → ℕ → ArrayList) where
  unfoldable pub remove_area : CreatureMaps → ℕ → Outcome CreatureMaps
  unfolding copy_others
  remove_area c area = elim (contains c.areas area) [
    | none ↦ done c
    | some i ↦ do
      cells ← copy_others i c.mini_map_count (cells_of c.mini_map)
      done (record {
        mini_map = some cells;
        areas = engine_remove c.areas area;
        mini_map_count = c.mini_map_count - 1;
      })
  ]

-- `mini_map_at` is the address of `mini_map`
pub record TurdMaps : Type 0 where
  pub area_count : ℕ
  pub areas : List ℕ
  pub mini_map : Cells
  pub mini_map_at : ℕ

-- The code takes `Areas` for an array of the engine: the word behind the pointer, which holds the
-- address of the maps, is then its length. A negative length ends the search at once, and a search
-- past the array is a fault.
unfoldable pub search_areas : List ℕ → ℕ → ℕ → ℕ → Outcome (Option ℕ)
search_areas areas area zero i = done none
search_areas [] area (suc n) i = fault
search_areas (a ∷ areas) area (suc n) i =
    if a == area then done (some i) else search_areas areas area n (i + 1)

unfoldable pub area_index : TurdMaps → ℕ → Outcome (Option ℕ)
area_index t area =
    if ltb t.mini_map_at (2 ^ 31) then search_areas t.areas area t.mini_map_at 0 else done none

-- `CopyAreas`: `memcpy` of the areas in use into a new array; the new words are 0 until written
unfoldable pub copy_areas : List ℕ → ℕ → ℕ → Outcome (List ℕ)
copy_areas areas count n =
    if leb count (length areas) && leb count n
    then done (take count areas ++ replicate (n - count) 0)
    else fault

-- `at` is the address of the new array of maps
unfoldable pub add_turd_area : TurdMaps → ℕ → ℕ → Outcome TurdMaps
unfolding resize write_at copy_areas
add_turd_area t area at = do
  cells ← resize t.mini_map t.area_count (t.area_count + 1)
  cells' ← write_at cells t.area_count (some new_map)
  areas ← copy_areas t.areas t.area_count (t.area_count + 1)
  areas' ← write_at areas t.area_count area
  done (record {
    area_count = t.area_count + 1;
    areas = areas';
    mini_map = cells';
    mini_map_at = at;
  })

abbrev remove_found : TurdMaps → ℕ → Option ℕ → Outcome TurdMaps
unfolding copy_others
remove_found t at none = done t
remove_found t at (some i) = do
  cells ← copy_others i t.area_count t.mini_map
  areas ← copy_others i t.area_count t.areas
  done (record t { mini_map = cells; areas = areas; mini_map_at = at })

unfoldable pub remove_turd_area : TurdMaps → ℕ → ℕ → Outcome TurdMaps
unfolding remove_found
remove_turd_area t area at = do found ← area_index t area; remove_found t at found
