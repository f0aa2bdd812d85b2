-- ===== src/Objects.antt =====
-- NWNX_Functions/CNssObject.cpp: the script functions for every kind of object. An object holds the
-- fields of the classes that the code casts it to. The engine's functions are arguments: the casts and
-- searches that may give NULL, StripNonAlphaNumeric, GetDamageImmunityByFlags, the module's table of
-- tags and GetFactionOfObject. A call of the engine's SetScriptName is part of the result. Words of 32
-- bits are natural numbers below 2^32; log lines are left out.
pub mod Regenerating
pub mod Talking
pub mod Events
mod Tests
use nwnx2_windows.Prelude.{
  ℕ, ◌+◌, ◌-◌, ◌%◌, ◌^◌, Bool, true, false, Option, none, some, List, [], ◌∷◌, ◌++◌, Outcome, done,
  fault, ◌>>=◌, ◌&&◌, ◌||◌, ltb, leb, ◌==◌, if◌then◌else◌, length, take, replicate, at_index, Text,
  codes, text_eq, ℤ, pos, negsuc, magnitude, print_nat, print_int, signed32, atoi, split_first,
}
use nwnx2_windows.Params.{char_target, int_target, extract_p1}

-- the tables of virtual functions by which the code tells the classes apart
pub data ObjectType : Type 0 where
  module_type item_type area_type creature_type waypoint_type placeable_type trigger_type
        area_of_effect_type encounter_type store_type door_type player_turd_type unknown_type :
      ObjectType

pub record GameEffect : Type 0 where
  pub eff_type : ℕ
  pub eff_dursubtype : ℕ
  pub eff_integers : List ℕ

-- `conv` and `events` stand for the fields of each class; of a creature, `plc_bodybag` is the byte that
-- stands where a placeable has its field. The text of an event's script may be NULL.
pub record ScriptObject : Type 0 where
  pub obj_type : ObjectType
  pub obj_type2 : ℕ
  pub obj_id : ℕ
  pub obj_tag : Text
  pub are_tag : Text
  pub obj_effects : List GameEffect
  pub conv : List ℕ
  pub cre_bodybag : ℕ
  pub plc_bodybag : ℕ
  pub events : List (Option Text)

-- the new text of the parameters, `none` where they stay, and the value returned
abbrev pub Answer : Type 0
Answer = Option Text × ℕ

-- a type and the name of a script, which is cut to 16 bytes
unfoldable pub event_script_info : (Text → Option Text) → ℕ → Text → Outcome (ℤ × Text)
event_script_info strip most parameters = elim (split_first b' ' parameters) [
  | none ↦ done (atoi parameters, [])
  | some (number, []) ↦ done (atoi parameters, [])
  | some (number, c ∷ script) ↦ elim (atoi number) [
    | negsuc n ↦ done (atoi parameters, [])
    | pos n ↦
        if leb n most
        then elim (strip (c ∷ script)) [ none ↦ fault | some name ↦ done (pos n, take 16 name) ]
        else done (atoi parameters, [])
  ]
]

-- the last event of a type of object
abbrev pub last_event : ObjectType → Option ℕ
last_event module_type = some 17
last_event area_type = some 3
last_event creature_type = some 13
last_event placeable_type = some 15
last_event trigger_type = some 6
last_event area_of_effect_type = some 3
last_event encounter_type = some 4
last_event store_type = some 1
last_event door_type = some 14
last_event _ = none

-- The call of SetScriptName, if any. `found` says that the server knows the object by its id.
unfoldable pub set_event :
    (Text → Option Text) → Bool → ScriptObject → Text → Outcome (Option (ℤ × Text) × ℕ)
unfolding event_script_info
set_event strip found object parameters = elim (last_event object.obj_type) [
  | none ↦ done (none, 1)
  | some most ↦ elim found [
    | false ↦ done (none, 1)
    | true ↦ do call ← event_script_info strip most parameters; done (some call, 1)
  ]
]

-- the number of the events that can be asked for
abbrev pub event_count : ObjectType → Option ℕ
event_count module_type = some 18
event_count area_type = some 4
event_count creature_type = some 16
event_count placeable_type = some 17
event_count trigger_type = some 7
event_count area_of_effect_type = some 4
event_count encounter_type = some 5
event_count store_type = some 2
event_count door_type = some 15
event_count _ = none

-- `%s` prints NULL as `(null)`
abbrev pub printed_event : Option Text → Text
printed_event none = codes "(null)"
printed_event (some name) = name

abbrev pub unless_null : Text → Text
unless_null text = if text_eq text (codes "(null)") then [] else text

-- what is printed for a number, with -1 for a number that is no event's
unfoldable pub event_text : Bool → List (Option Text) → ℕ → ℤ → Outcome Text
event_text cast events count (negsuc n) = done (codes "-1")
event_text cast events count (pos n) =
    if cast && ltb n count
    then (do event ← at_index events n; done (printed_event event))
    else done (codes "-1")

-- The parameters are overwritten by `-1` before the number is read off them. `cast` says that the
-- object is of its type's class.
unfoldable pub get_event : Bool → ScriptObject → Text → Outcome Answer
get_event cast object parameters =
    let overwritten = codes "-1" in
    elim (event_count object.obj_type) [
      | none ↦ done (some (codes "-1"), 0)
      | some count ↦ do
        text ← event_text cast object.events count (extract_p1 overwritten int_target (pos 0))
        done (some (unless_null text), 1)
    ]

-- The object is a creature, a placeable or a door. The engine's answer is a 32-bit word.
unfoldable pub get_damage_immunity : (ScriptObject → ℕ → ℕ) → Option ScriptObject → Text → Answer
get_damage_immunity immunity none parameters = (some (codes "-1"), 0)
get_damage_immunity immunity (some object) parameters =
    if object.obj_type2 == 5 || object.obj_type2 == 9 || object.obj_type2 == 10
    then (
      some (
          print_int
            (signed32 (immunity object (magnitude (extract_p1 parameters char_target (pos 0)))))),
      1,
    )
    else (some (codes "-1"), 0)

-- Whether a duration is asked for: all with 1, 3 and above with 2, below 3 with 3.
abbrev pub is_asked : ℤ → ℕ → Bool
is_asked (pos n) duration = n == 1 || n == 2 && leb 3 duration || n == 3 && ltb duration 3
is_asked (negsuc n) duration = false

-- `regen += eff_integers[0]`
unfoldable pub regenerated : ℤ → ℕ → GameEffect → Outcome ℕ
unfolding at_index
regenerated kind regen effect =
    if effect.eff_type == 7 && is_asked kind (effect.eff_dursubtype % 8)
    then (do amount ← at_index effect.eff_integers 0; done ((regen + amount) % 2 ^ 32))
    else done regen

-- up to the first effect of a later type
unfoldable pub regeneration_loop : ℤ → ℕ → List GameEffect → Outcome ℕ
regeneration_loop kind regen [] = done regen
regeneration_loop kind regen (effect ∷ effects) = elim (ltb 7 effect.eff_type) [
  | true ↦ done regen
  | false ↦ do regen' ← regenerated kind regen effect; regeneration_loop kind regen' effects
]

unfoldable pub get_regeneration : ScriptObject → Text → Outcome Answer
unfolding regeneration_loop
get_regeneration object parameters = do
  regen ← regeneration_loop (extract_p1 parameters int_target (pos 0)) 0 object.obj_effects
  done (some (print_int (signed32 regen)), 1)

-- The module's table of tags is a `W`. The object is none where the cast gives NULL.
unfoldable pub set_tag :
    {W : Type 0}
    → (Text → ℕ → W → W)
    → (Text → ℕ → W → W)
    → Option ScriptObject
    → W
    → Text
    → Outcome (ScriptObject × W × ℕ)
set_tag remove add none w parameters = fault
set_tag remove add (some object) w parameters =
    if leb 4 object.obj_type2
    then done (
      if object.obj_type2 == 4
          then record object { are_tag = parameters }
          else record object { obj_tag = parameters },
      add parameters object.obj_id (remove object.obj_tag object.obj_id w),
      1,
    )
    else done (object, w, 1)

abbrev pub at_most_16 : ℕ → ℕ
at_most_16 n = if ltb 16 n then 16 else n

-- creatures and placeables
abbrev pub talks : ObjectType → Bool
talks creature_type = true
talks placeable_type = true
talks _ = false

-- 16 bytes, with zeros behind a shorter text
unfoldable pub set_conversation : ScriptObject → Text → ScriptObject × Option Text × ℕ
set_conversation object parameters =
    let len = at_most_16 (length parameters) in
    if talks object.obj_type
    then (record object { conv = take len parameters ++ replicate (16 - len) 0 }, none, 1)
    else (object, some (codes "-1"), 0)

-- the text in front of the first zero
unfoldable pub until_zero : List ℕ → Text
until_zero [] = []
until_zero (c ∷ s) = let rest = until_zero s in if c == 0 then [] else c ∷ rest

-- no more bytes than the parameters have
unfoldable pub get_conversation : ScriptObject → Text → Answer
get_conversation object parameters =
    let len = at_most_16 (length parameters) in
    if talks object.obj_type
    then (some (until_zero (take len object.conv)), 1)
    else (some (codes "-1"), 0)

unfoldable pub set_body_bag : ScriptObject → Text → ScriptObject × Option Text × ℕ
set_body_bag object parameters =
    let bodybag = magnitude (extract_p1 parameters char_target (pos 0)) in
    elim object.obj_type [
      | creature_type ↦ (record object { cre_bodybag = bodybag }, none, 1)
      | placeable_type ↦ (record object { plc_bodybag = bodybag }, none, 1)
      | _ ↦ (object, some (codes "-1"), 1)
    ]

-- The texts that the switch prints, one over the other: no case ends with a break.
unfoldable pub body_bag_writes : ScriptObject → List Text
body_bag_writes object = elim object.obj_type [
  | creature_type ↦ print_nat object.cre_bodybag ∷ print_nat object.plc_bodybag ∷ codes "-1" ∷ []
  | placeable_type ↦ print_nat object.plc_bodybag ∷ codes "-1" ∷ []
  | _ ↦ codes "-1" ∷ []
]

abbrev pub last_text : Text → List Text → Text
last_text text [] = text
last_text text (next ∷ texts) = last_text next texts

unfoldable pub get_body_bag : ScriptObject → Text → Answer
unfolding body_bag_writes
get_body_bag object parameters = (some (last_text (codes "-1") (body_bag_writes object)), 1)

-- The engine may write the faction of the object, which is the word of -1 before.
unfoldable pub get_faction_id : (ℕ → ℕ → ℕ) → ScriptObject → Text → Answer
get_faction_id faction object parameters =
    (some (print_int (signed32 (faction object.obj_id (2 ^ 32 - 1)))), 1)

unfoldable pub set_faction_id : ScriptObject → Text → ScriptObject × Option Text × ℕ
set_faction_id object parameters = (object, some (codes "-1"), 0)
