-- ===== src/CreatureStats/Tests.antt =====
-- Runs of the functions for a creature's statistics, and the theorems at a concrete creature.
use nwnx2_windows.Prelude.{
  ℕ, ◌≡◌, refl, true, false, none, some, List, [], ◌∷◌, done, fault, Returns, arith, codes, pos,
  replicate, print_nat, print_int, bits32,
}
use nwnx2_windows.ExoArrayList.{ArrayList}
use nwnx2_windows.CreatureStats.{
  CreatureClass, LevelStats, StatsCreature, if_creature, ability_score, get_saving_throw_bonus,
  get_armor_check_penalty,
}
use nwnx2_windows.CreatureStats.Levels.{
  set_class_by_level, set_class_level, zero_all_skills, find_class, get_wizard_specialization,
}
use nwnx2_windows.CreatureStats.Gained.{get_spells_gained_at_level, get_stats_gained_at_level}
use nwnx2_windows.CreatureStats.Armour.{bonus, get_ac, set_ac, get_ac-set_ac}
use nwnx2_windows.CreatureStats.Skills.{Reset, zero_all_skills-Reset}

abbrev no_list : ArrayList
no_list = record { data_of = []; len = 0; alloc = 0 }

abbrev first_level : LevelStats
first_level = record {
  ls_spells_known = replicate 10 no_list;
  ls_featlist = no_list;
  ls_skilllist = 4 ∷ 3 ∷ 2 ∷ [];
  ls_skillpoints = 8;
  ls_ability = 255;
  ls_hp = 10;
  ls_class = 2;
}

abbrev cleric : CreatureClass
cleric = record { cl_class = 2; cl_level = 2; cl_specialist = 0; cl_domain_1 = 5; cl_domain_2 = 9 }

abbrev priest : StatsCreature
priest = record {
  cre_is_pc = false;
  obj_hp_cur = 17;
  obj_hp_max = 20;
  cre_stats = record {
    cs_levelstat = first_level ∷ record first_level { ls_hp = 7 } ∷ [];
    cs_age = 30;
    cs_gender = 1;
    cs_xp = 1000;
    cs_classes_len = 1;
    cs_classes = cleric ∷ replicate 2 (record cleric { cl_class = 255 });
    cs_race = 6;
    abilities = 10 ∷ 12 ∷ 14 ∷ 8 ∷ 18 ∷ 10 ∷ [];
    cs_ac_natural_base = 1;
    cs_ac_armour_base = 2;
    cs_ac_shield_base = 3;
    cs_ac_armour_bonus = 4;
    cs_ac_armour_penalty = 0;
    cs_ac_deflection_bonus = 5;
    cs_ac_deflection_penalty = 0;
    cs_ac_shield_bonus = 0;
    cs_ac_shield_penalty = 0;
    cs_ac_natural_bonus = 0;
    cs_ac_natural_penalty = 0;
    cs_ac_dodge_bonus = 0;
    cs_ac_dodge_penalty = 0;
    cs_override_bab = 0;
    cs_skill_points = 12;
    cs_skills = 6 ∷ 100 ∷ 4 ∷ [];
    cs_acp_armor = 253;
    cs_acp_shield = 0;
    cs_movement_rate = 4;
    cs_save_fort = 3;
    cs_save_will = 5;
    cs_save_reflex = 0;
    cs_acomp_type = 0;
    cs_famil_type = 0;
  };
}

no_creature :
    if_creature none (λ c. done (get_saving_throw_bonus c (pos 1)))
    ≡ done (none, some (codes "-1"), 0)
unfolding if_creature
no_creature = refl

-- 250 and 18 wrap around to 12.
wrapped_score : ability_score (pos 250) true 18 ≡ 12
unfolding ability_score bits32
wrapped_score = refl

negative_penalty : (get_armor_check_penalty priest (pos 2)).1 ≡ some (codes "-3")
unfolding get_armor_check_penalty print_int print_nat
negative_penalty = refl

-- The class 1 is taken for the level, and the level 40 becomes the class.
swapped :
    (set_class_by_level priest 1 (pos 40)).0.cre_stats.cs_levelstat
    ≡ record first_level { ls_class = 40 } ∷ record first_level { ls_hp = 7 } ∷ []
unfolding set_class_by_level bits32
swapped = refl

player :
    set_class_level (record priest { cre_is_pc = true }) 1 5
    ≡ done (record priest { cre_is_pc = true }, some (codes "-1"), 0)
unfolding set_class_level
player = refl

gained : get_stats_gained_at_level priest (pos 2) ≡ done (priest, some (codes "255|2|7|8"), 1)
unfolding get_stats_gained_at_level print_nat
gained = refl

no_tenth_spells : get_spells_gained_at_level priest (pos 1) (pos 10) ≡ fault
unfolding get_spells_gained_at_level
no_tenth_spells = refl

no_wizard : get_wizard_specialization priest ≡ done (priest, some (codes "-1"), 1)
unfolding get_wizard_specialization find_class
no_wizard = refl

get_ac-set_ac_example :
    (get_ac bonus (set_ac bonus priest 7 (pos 4)).0 (pos 4)).1 ≡ some (print_nat 7)
get_ac-set_ac_example = get_ac-set_ac priest bonus bonus 7 4 4 refl

zero_all_skills-Reset_example : Returns (zero_all_skills 2 priest) (λ r.
    Reset 2 (6 ∷ 100 ∷ 4 ∷ []) r.0.cre_stats.cs_skills
    × (list : List ℕ) × Reset 2 (4 ∷ 3 ∷ 2 ∷ []) list
    × (r.0.cre_stats.cs_levelstat
        ≡ record first_level { ls_skilllist = list } ∷ record first_level { ls_hp = 7 } ∷ []))
zero_all_skills-Reset_example =
    zero_all_skills-Reset 2 priest first_level (record first_level { ls_hp = 7 } ∷ []) refl
      (omega arith) (omega arith)
