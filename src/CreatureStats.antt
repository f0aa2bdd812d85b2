-- ===== src/CreatureStats.antt =====
-- NWNX_Functions/CNssCreatureStats.cpp: the script functions for a creature's statistics. Numbers of 8,
-- 16 and 32 bits are natural numbers below 2^8, 2^16 and 2^32, a `char` too, whose sign is read where it
-- is printed. The numbers that CParams reads off the parameters are arguments, of these kinds; an `int`
-- is an integer. The creature has its statistics. Of the engine's functions SetSTRBase to SetCHABase
-- nothing is known: together they are an argument.
pub mod Levels
pub mod Gained
pub mod Armour
pub mod Skills
pub mod Classes
mod Tests
use nwnx2_windows.Prelude.{
  ℕ, ◌+◌, ◌-◌, ◌%◌, ◌^◌, Bool, true, false, Option, none, some, List, [], ◌∷◌, Outcome, done, ◌>>=◌,
  ◌&&◌, ltb, leb, ◌==◌, if◌then◌else◌, get_or, Text, codes, ℤ, pos, negsuc, print_nat, print_int,
  signed32, bits32, negate, is_nonzero,
}
use nwnx2_windows.ExoArrayList.{ArrayList}

pub record CreatureClass : Type 0 where
  pub cl_class : ℕ
  pub cl_level : ℕ
  pub cl_specialist : ℕ
  pub cl_domain_1 : ℕ
  pub cl_domain_2 : ℕ

pub record LevelStats : Type 0 where
  pub ls_spells_known : List ArrayList
  pub ls_featlist : ArrayList
  pub ls_skilllist : List ℕ
  pub ls_skillpoints : ℕ
  pub ls_ability : ℕ
  pub ls_hp : ℕ
  pub ls_class : ℕ

-- `abilities` are the six base scores, strength first.
pub record CreatureStats : Type 0 where
  pub cs_levelstat : List LevelStats
  pub cs_age : ℕ
  pub cs_gender : ℕ
  pub cs_xp : ℕ
  pub cs_classes_len : ℕ
  pub cs_classes : List CreatureClass
  pub cs_race : ℕ
  pub abilities : List ℕ
  pub cs_ac_natural_base : ℕ
  pub cs_ac_armour_base : ℕ
  pub cs_ac_shield_base : ℕ
  pub cs_ac_armour_bonus : ℕ
  pub cs_ac_armour_penalty : ℕ
  pub cs_ac_deflection_bonus : ℕ
  pub cs_ac_deflection_penalty : ℕ
  pub cs_ac_shield_bonus : ℕ
  pub cs_ac_shield_penalty : ℕ
  pub cs_ac_natural_bonus : ℕ
  pub cs_ac_natural_penalty : ℕ
  pub cs_ac_dodge_bonus : ℕ
  pub cs_ac_dodge_penalty : ℕ
  pub cs_override_bab : ℕ
  pub cs_skill_points : ℕ
  pub cs_skills : List ℕ
  pub cs_acp_armor : ℕ
  pub cs_acp_shield : ℕ
  pub cs_movement_rate : ℕ
  pub cs_save_fort : ℕ
  pub cs_save_will : ℕ
  pub cs_save_reflex : ℕ
  pub cs_acomp_type : ℕ
  pub cs_famil_type : ℕ

pub record StatsCreature : Type 0 where
  pub cre_is_pc : Bool
  pub obj_hp_cur : ℕ
  pub obj_hp_max : ℕ
  pub cre_stats : CreatureStats

-- the creature, the new text of the parameters, `none` where they stay, and the value returned
abbrev pub Changed : Type 0
Changed = StatsCreature × Option Text × ℕ

-- `-1` for an object that is no creature
unfoldable pub if_creature :
    Option StatsCreature
    → (StatsCreature → Outcome Changed)
    → Outcome (Option StatsCreature × Option Text × ℕ)
if_creature none operation = done (none, some (codes "-1"), 0)
if_creature (some c) operation = do (c', text, value) ← operation c; done (some c', text, value)

abbrev pub rejected : StatsCreature → Changed
rejected c = (c, some (codes "-1"), 0)

abbrev pub printed : StatsCreature → ℕ → Changed
printed c n = (c, some (print_nat n), 1)

abbrev pub with_stats : StatsCreature → CreatureStats → Changed
with_stats c stats = (record c { cre_stats = stats }, none, 1)

-- the number that 8 bits stand for
unfoldable pub signed8 : ℕ → ℤ
signed8 n = if ltb n (2 ^ 7) then pos n else negate (2 ^ 8 - n)

-- The sum of two bytes wraps around before the test against 3; the one against 255 never holds.
unfoldable pub ability_score : ℤ → Bool → ℕ → ℕ
ability_score score add old =
    let byte = bits32 score % 2 ^ 8 in
    let sum = if add then (byte + old) % 2 ^ 8 else byte in if ltb sum 3 then 3 else sum

-- The byte that is read for an ability that there is not is not used.
unfoldable pub set_ability_score :
    (ℕ → ℕ → CreatureStats → CreatureStats) → StatsCreature → ℤ → ℤ → ℤ → Changed
unfolding ability_score
set_ability_score engine_set c (negsuc n) score add = (c, none, 1)
set_ability_score engine_set c (pos ability) score add =
    let value = ability_score score (is_nonzero add) (get_or c.cre_stats.abilities ability 0) in
    if ltb ability 6 then with_stats c (engine_set ability value c.cre_stats) else (c, none, 1)

unfoldable pub set_bab_override : StatsCreature → ℕ → ℕ → Changed
set_bab_override c bab add = with_stats c (record c.cre_stats {
  cs_override_bab = if add == 0 then bab else (bab + c.cre_stats.cs_override_bab) % 2 ^ 8;
})

unfoldable pub get_bab_override : StatsCreature → Changed
get_bab_override c = printed c c.cre_stats.cs_override_bab

unfoldable pub set_xp : StatsCreature → ℕ → Changed
set_xp c xp = with_stats c (record c.cre_stats { cs_xp = xp })

unfoldable pub set_race : StatsCreature → ℕ → Changed
set_race c race = with_stats c (record c.cre_stats { cs_race = race })

unfoldable pub set_age : StatsCreature → ℤ → Changed
set_age c age =
    (record c { cre_stats = record c.cre_stats { cs_age = bits32 age } }, some (codes "1"), 1)

unfoldable pub set_gender : StatsCreature → ℕ → Changed
set_gender c gender = with_stats c (record c.cre_stats { cs_gender = gender })

-- the types of armour class: AC_DODGE, AC_NATURAL, AC_ARMOUR, AC_SHIELD, AC_DEFLECTION
unfoldable pub get_base_ac : StatsCreature → ℤ → Changed
get_base_ac c (negsuc n) = printed c 0
get_base_ac c (pos type) =
    let s = c.cre_stats in
    printed c (
      if type == 1
      then s.cs_ac_natural_base
      else if type == 2
      then s.cs_ac_armour_base
      else if type == 3
      then s.cs_ac_shield_base
      else 0)

unfoldable pub set_base_ac : StatsCreature → ℕ → ℤ → Changed
set_base_ac c ac (negsuc n) = (c, none, 1)
set_base_ac c ac (pos type) =
    let s = c.cre_stats in
    with_stats c (
      if type == 1
      then record s { cs_ac_natural_base = ac }
      else if type == 2
      then record s { cs_ac_armour_base = ac }
      else if type == 3
      then record s { cs_ac_shield_base = ac }
      else s)

unfoldable pub get_bonus_ac : StatsCreature → ℤ → Changed
get_bonus_ac c (negsuc n) = printed c 0
get_bonus_ac c (pos type) =
    let s = c.cre_stats in
    printed c (
      if type == 1
      then s.cs_ac_natural_bonus
      else if type == 2
      then s.cs_ac_armour_bonus
      else if type == 3
      then s.cs_ac_shield_bonus
      else if type == 4
      then s.cs_ac_deflection_bonus
      else if type == 0
      then s.cs_ac_dodge_bonus
      else 0)

unfoldable pub set_bonus_ac : StatsCreature → ℕ → ℤ → Changed
set_bonus_ac c ac (negsuc n) = (c, none, 1)
set_bonus_ac c ac (pos type) =
    let s = c.cre_stats in
    with_stats c (
      if type == 1
      then record s { cs_ac_natural_bonus = ac }
      else if type == 2
      then record s { cs_ac_armour_bonus = ac }
      else if type == 3
      then record s { cs_ac_shield_bonus = ac }
      else if type == 4
      then record s { cs_ac_deflection_bonus = ac }
      else if type == 0
      then record s { cs_ac_dodge_bonus = ac }
      else s)

unfoldable pub get_penalty_ac : StatsCreature → ℤ → Changed
get_penalty_ac c (negsuc n) = printed c 0
get_penalty_ac c (pos type) =
    let s = c.cre_stats in
    printed c (
      if type == 1
      then s.cs_ac_natural_penalty
      else if type == 2
      then s.cs_ac_armour_penalty
      else if type == 3
      then s.cs_ac_shield_penalty
      else if type == 4
      then s.cs_ac_deflection_penalty
      else if type == 0
      then s.cs_ac_dodge_penalty
      else 0)

unfoldable pub set_penalty_ac : StatsCreature → ℕ → ℤ → Changed
set_penalty_ac c ac (negsuc n) = (c, none, 1)
set_penalty_ac c ac (pos type) =
    let s = c.cre_stats in
    with_stats c (
      if type == 1
      then record s { cs_ac_natural_penalty = ac }
      else if type == 2
      then record s { cs_ac_armour_penalty = ac }
      else if type == 3
      then record s { cs_ac_shield_penalty = ac }
      else if type == 4
      then record s { cs_ac_deflection_penalty = ac }
      else if type == 0
      then record s { cs_ac_dodge_penalty = ac }
      else s)

unfoldable pub get_armor_check_penalty : StatsCreature → ℤ → Changed
unfolding signed8
get_armor_check_penalty c (negsuc n) = (c, some (print_int (signed8 0)), 1)
get_armor_check_penalty c (pos type) =
    let s = c.cre_stats in
    let acp = if type == 2 then s.cs_acp_armor else if type == 3 then s.cs_acp_shield else 0 in
    (c, some (print_int (signed8 acp)), 1)

unfoldable pub set_armor_check_penalty : StatsCreature → ℕ → ℤ → Changed
set_armor_check_penalty c penalty (negsuc n) = (c, none, 1)
set_armor_check_penalty c penalty (pos type) =
    let s = c.cre_stats in
    with_stats c (
      if type == 2
      then record s { cs_acp_armor = penalty }
      else if type == 3
      then record s { cs_acp_shield = penalty }
      else s)

unfoldable pub get_movement_rate : StatsCreature → Changed
get_movement_rate c = (c, some (print_int (signed32 c.cre_stats.cs_movement_rate)), 1)

unfoldable pub set_movement_rate : StatsCreature → ℕ → Changed
set_movement_rate c rate = with_stats c (record c.cre_stats { cs_movement_rate = rate })

unfoldable pub set_current_hit_points : StatsCreature → ℕ → Changed
set_current_hit_points c hp = (record c { obj_hp_cur = hp }, none, 1)

unfoldable pub set_max_hit_points : StatsCreature → ℕ → Changed
set_max_hit_points c hp = (record c { obj_hp_max = hp }, none, 1)

unfoldable pub set_familiar_type : StatsCreature → ℕ → Changed
set_familiar_type c type = with_stats c (record c.cre_stats { cs_famil_type = type })

unfoldable pub set_companion_type : StatsCreature → ℕ → Changed
set_companion_type c type = with_stats c (record c.cre_stats { cs_acomp_type = type })

-- What is written from a case on: no case ends with a break.
unfoldable pub bonus_writes : CreatureStats → ℤ → List Text
unfolding signed8
bonus_writes s save =
    let error = codes "-1" ∷ [] in
    let will = print_int (signed8 s.cs_save_will) ∷ error in
    let reflex = print_int (signed8 s.cs_save_reflex) ∷ will in
    let fort = print_int (signed8 s.cs_save_fort) ∷ reflex in
    elim save [
      | negsuc n ↦ error
      | pos n ↦ if n == 1 then fort else if n == 2 then reflex else if n == 3 then will else error
    ]

-- the text that is written last
abbrev pub last_of : Text → List Text → Text
last_of text [] = text
last_of text (t ∷ texts) = last_of t texts

unfoldable pub get_saving_throw_bonus : StatsCreature → ℤ → Changed
unfolding bonus_writes
get_saving_throw_bonus c save = (c, some (last_of [] (bonus_writes c.cre_stats save)), 1)

abbrev pub saved : ℕ → ℕ → Bool → ℕ
saved old value add = if add then (old + value) % 2 ^ 8 else value

unfoldable pub set_saving_throw_bonus : StatsCreature → ℤ → ℕ → ℤ → Changed
set_saving_throw_bonus c (negsuc n) value add = (c, some (codes "-1"), 1)
set_saving_throw_bonus c (pos save) value add =
    let s = c.cre_stats in
    let plus = is_nonzero add in
    if save == 1
    then with_stats c (record s { cs_save_fort = saved s.cs_save_fort value plus })
    else if save == 2
    then with_stats c (record s { cs_save_reflex = saved s.cs_save_reflex value plus })
    else if save == 3
    then with_stats c (record s { cs_save_will = saved s.cs_save_will value plus })
    else (c, some (codes "-1"), 1)
