-- ===== src/Spells/Tests.antt =====
-- Runs of the spell functions, and the theorems at a concrete creature.
use nwnx2_windows.Prelude.{
  at_index, ℕ, ◌≡◌, refl, Option, none, some, List, [], ◌∷◌, done, fault, Returns, arith, codes,
  pos, negsuc, replicate, print_nat, print_int, signed32, scan_decimal,
}
use nwnx2_windows.ExoArrayList.{ArrayList, contains}
use nwnx2_windows.Feats.{word, join_feats, size_needed}
use nwnx2_windows.Spells.{
  StatsSpell, SpellClass, SpellStats, on_creature, spell_level, each_class, first_class, knows,
  find_spell, knows_in_class, knows_loop, get_knows_spell, clear_class, remove_all_spells,
}
use nwnx2_windows.Spells.Slots.{
  read_slots, get_remaining_spell_slots, pack_spell, get_spell, memorized_loop,
  get_memorized_spell_slot, restore_memorized_spells, get_known_spells, known_spells, list_spells,
  short_numbers,
}
use nwnx2_windows.Spells.Knowing.{Formed}
use nwnx2_windows.Spells.Ready.{SlotsFormed, Restored, restore_memorized_spells-Restored}

abbrev no_spells : ArrayList
no_spells = record { data_of = []; len = 0; alloc = 0 }

abbrev two_spells : ArrayList
two_spells = record { data_of = 107 ∷ 16 ∷ []; len = 2; alloc = 2 }

abbrev web : StatsSpell
web = record { sp_id = 192; sp_meta = 0; sp_ready = 0; sp_domain = 0 }

-- a bard, class 1, with two spells of the first level and one memorized
abbrev bard : SpellClass
bard = record {
  cl_class = 1;
  cl_spells_known = no_spells ∷ two_spells ∷ replicate 8 no_spells;
  cl_spells_left = 2 ∷ 1 ∷ replicate 8 0;
  cl_spells_max = 3 ∷ 2 ∷ replicate 8 0;
  cl_spells_bonus = replicate 10 0;
  cl_spells_mem = [] ∷ (some web ∷ none ∷ []) ∷ replicate 8 [];
}

abbrev singer : SpellStats
singer = record {
  cs_classes = bard ∷ [];
  cs_levelstat = record { ls_class = 1; ls_spells_known = replicate 10 no_spells } ∷ [];
}

abbrev grows : ArrayList → Option (List ℕ)
grows list = some (0 ∷ [])

grows_always :
    (list : ArrayList) → (cell : ℕ) × (fresh : List ℕ) × (grows list ≡ some (cell ∷ fresh))
grows_always list = (0, [], refl)

singer-Formed : Formed singer.cs_classes
singer-Formed = ((refl, omega arith), tt)

singer-SlotsFormed : SlotsFormed singer.cs_classes
singer-SlotsFormed = ((refl, refl), tt)

no_creature :
    on_creature none (λ stats. get_knows_spell stats (codes "1 16 1"))
    ≡ done (none, some (codes "-1"), 0)
unfolding on_creature
no_creature = refl

known : knows_loop 1 16 (negsuc 0) singer.cs_classes ≡ done (codes "2")
unfolding knows_loop knows_in_class find_spell knows contains print_nat
known = refl

no_tenth_level : knows_loop 1 16 (pos 10) singer.cs_classes ≡ fault
unfolding knows_loop knows_in_class at_index
no_tenth_level = refl

-- The slots are read for the class whose number is the spell level.
other_class : get_remaining_spell_slots singer 1 (pos 0) ≡ done (singer, some (codes "0"), 1)
unfolding get_remaining_spell_slots spell_level read_slots first_class print_nat
other_class = refl

listed : get_known_spells singer (codes "1 1 , ......") ≡ done (singer, some (codes "107,16"), 1)
unfolding get_known_spells known_spells list_spells short_numbers scan_decimal word size_needed
    join_feats spell_level first_class at_index print_nat signed32
listed = refl

packed : get_memorized_spell_slot singer 1 (pos 1) (pos 0) ≡ done (singer, some (codes "192"), 1)
unfolding get_memorized_spell_slot spell_level memorized_loop get_spell pack_spell at_index
    print_int signed32
packed = refl

forgotten : remove_all_spells singer 1 10 3 0 ≡ fault
unfolding remove_all_spells each_class clear_class at_index
forgotten = refl

restore_memorized_spells-Restored_example :
    Returns (restore_memorized_spells singer 1 (pos 0) (pos 1)) (λ r.
      Restored 1 0 1 singer.cs_classes r.0.cs_classes × (r.0.cs_levelstat ≡ singer.cs_levelstat))
restore_memorized_spells-Restored_example =
    restore_memorized_spells-Restored singer 1 0 1 (omega arith) (omega arith) singer-SlotsFormed
