-- ===== src/Objects/Tests.antt =====
-- Runs of the functions for objects, and the theorems at concrete objects.
use nwnx2_windows.Prelude.{
  ℕ, ◌%◌, ◌^◌, ◌≡◌, true, refl, none, some, List, [], ◌∷◌, done, arith, replicate, Text, codes, pos,
  clamp, print_nat, print_int, signed32,
}
use nwnx2_windows.Params.{int_target, extract_p1}
use nwnx2_windows.Objects.{
  GameEffect, ScriptObject, creature_type, set_event, get_conversation, set_conversation,
  get_body_bag, set_tag, get_regeneration,
}
use nwnx2_windows.Objects.Regenerating.{total, get_regeneration-Ascending}
use nwnx2_windows.Objects.Talking.{get_conversation-set_conversation}
use nwnx2_windows.Objects.Events.{set_event-written}

abbrev haste : GameEffect
haste = record { eff_type = 1; eff_dursubtype = 9; eff_integers = 0 ∷ [] }

abbrev ring : GameEffect
ring = record { eff_type = 7; eff_dursubtype = 11; eff_integers = 3 ∷ 0 ∷ [] }

abbrev potion : GameEffect
potion = record { eff_type = 7; eff_dursubtype = 9; eff_integers = 5 ∷ [] }

abbrev later : GameEffect
later = record { eff_type = 12; eff_dursubtype = 9; eff_integers = 1 ∷ [] }

abbrev troll : ScriptObject
troll = record {
  obj_type = creature_type;
  obj_type2 = 5;
  obj_id = 0x80000001;
  obj_tag = codes "TROLL";
  are_tag = [];
  obj_effects = haste ∷ ring ∷ potion ∷ later ∷ [];
  conv = replicate 16 0;
  cre_bodybag = 2;
  plc_bodybag = 0;
  events = replicate 13 none;
}

-- The bag of a creature is never told.
no_bag : get_body_bag troll [] ≡ (some (codes "-1"), 1)
unfolding get_body_bag
no_bag = refl

-- A tag is put into the module's table under the object's id.
tagged :
    (set_tag {W = List (ℕ × Text × ℕ)}
      (λ tag id w. (1, tag, id) ∷ w)
      (λ tag id w. (0, tag, id) ∷ w)
      (some troll)
      []
      (codes "OGRE"))
    ≡ done (
      record troll { obj_tag = codes "OGRE" },
      (0, codes "OGRE", 0x80000001) ∷ (1, codes "TROLL", 0x80000001) ∷ [],
      1,
    )
unfolding set_tag
tagged = refl

get_regeneration-Ascending_example :
    get_regeneration troll (codes "2")
    ≡ done (
      some (
          print_int (
            signed32
              (total (extract_p1 (codes "2") int_target (pos 0)) troll.obj_effects % 2 ^ 32))),
      1,
    )
get_regeneration-Ascending_example =
    get_regeneration-Ascending troll (codes "2")
      (
        (omega arith, (omega arith, (omega arith, tt))),
        ((omega arith, (omega arith, tt)), ((omega arith, tt), (tt, tt))),
      )
      (omega arith, (omega arith, (omega arith, (omega arith, tt))))

get_conversation-set_conversation_example :
    get_conversation (set_conversation troll (codes "nw_g_troll")).0 (codes "00000000000000000000")
    ≡ (some (codes "nw_g_troll"), 1)
get_conversation-set_conversation_example =
    get_conversation-set_conversation troll (codes "nw_g_troll") (codes "00000000000000000000") refl
      (
        omega arith,
        (
          omega arith,
          (
            omega arith,
            (
              omega arith,
              (
                omega arith,
                (omega arith, (omega arith, (omega arith, (omega arith, (omega arith, tt))))),
              ),
            ),
          ),
        ),
      )

set_event-written_example :
    set_event some true troll (codes "40 on_death") ≡ done (some (pos 40, []), 1)
unfolding print_int print_nat clamp
set_event-written_example =
    set_event-written some troll 13 (pos 40) b'o' (codes "n_death") (codes "on_death") refl refl
      refl
