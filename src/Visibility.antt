-- ===== src/Visibility.antt =====
-- NWNX_Functions/CVisibility.h and CVisibility.cpp: which objects a player sees. The engine is a
-- parameter: what GetGameObject gives for an object, with the variable NWNXFUNCS_VIS and whether it
-- is a dungeon master's creature. A `std::map` is an association list, in which the first entry of a
-- key counts.
pub mod Decision
mod Tests
use nwnx2_windows.Prelude.{
  ℕ, Bool, true, false, ◌&&◌, not, Option, none, some, List, [], ◌∷◌, ◌==◌, if◌then◌else◌,
}

pub data OverrideType : Type 0 where
  default : OverrideType
  always_visible : OverrideType
  always_invisible : OverrideType

-- `map<unsigned int, ...>`
abbrev pub Map : Type 0 → Type 0
Map A = List (ℕ × A)

pub record ObjectEntry : Type 0 where
  pub override_type : OverrideType
  pub vismap : Map ℕ

-- what the engine knows of an object
pub record GameObject : Type 0 where
  pub is_dm : Bool
  pub vis_variable : ℕ

module _ {A : Type 0} where
  unfoldable pub find : Map A → ℕ → Option A
  find [] k = none
  find ((k', a) ∷ m) k = let rest = find m k in if k' == k then some a else rest

  -- the entry of a key is replaced, or added
  unfoldable pub assign : Map A → ℕ → A → Map A
  assign [] k a = (k, a) ∷ []
  assign ((k', a') ∷ m) k a =
      let rest = assign m k a in if k' == k then (k, a) ∷ m else (k', a') ∷ rest

-- `objects[o]` of a new key: the zero-initialised entry
abbrev new_entry : ObjectEntry
new_entry = record { override_type = default; vismap = [] }

abbrev pub entry_of : Option ObjectEntry → ObjectEntry
entry_of none = new_entry
entry_of (some entry) = entry

unfoldable pub set_visibility_override : Map ObjectEntry → ℕ → OverrideType → Map ObjectEntry
set_visibility_override objects o type =
    assign objects o (record (entry_of (find objects o)) { override_type = type })

unfoldable pub set_visibility : Map ObjectEntry → ℕ → ℕ → ℕ → Map ObjectEntry
set_visibility objects o o' value =
    let entry = entry_of (find objects o) in
    assign objects o (record entry { vismap = assign entry.vismap o' value })

abbrev pub type_of : Option ObjectEntry → OverrideType
type_of none = default
type_of (some entry) = entry.override_type

unfoldable pub get_visibility_override : Map ObjectEntry → ℕ → OverrideType
get_visibility_override objects o = type_of (find objects o)

abbrev pub number_of : Option ℕ → ℕ
number_of none = 0
number_of (some value) = value

abbrev pub value_of : Option ObjectEntry → ℕ → ℕ
value_of none o' = 0
value_of (some entry) o' = number_of (find entry.vismap o')

unfoldable pub get_visibility : Map ObjectEntry → ℕ → ℕ → ℕ
get_visibility objects o o' = value_of (find objects o) o'

-- the `switch`
unfoldable pub by_override : OverrideType → Option ℕ
by_override default = none
by_override always_visible = some 1
by_override always_invisible = some 0

unfoldable pub by_entry : Option ObjectEntry → ℕ → Option ℕ
unfolding by_override
by_entry none o' = none
by_entry (some entry) o' = elim (find entry.vismap o') [
  | none ↦ by_override entry.override_type
  | some value ↦ some value
]

-- `none` where it returns 0 and leaves `nResult` alone, `some` of `nResult` where it returns 1
unfoldable pub test_visibility : (ℕ → Option GameObject) → Map ObjectEntry → ℕ → ℕ → Option ℕ
unfolding by_entry
test_visibility game objects o o' = elim (game o) [
  | none ↦ none
  | some viewer ↦ elim (game o') [
    | none ↦ none
    | some seen ↦
        if seen.is_dm
        then some 1
        else if not (viewer.vis_variable == 0) && (viewer.vis_variable == seen.vis_variable)
        then some 1
        else by_entry (find objects o) o'
  ]
]
