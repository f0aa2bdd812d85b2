-- ===== src/QuickSlots/Tests.antt =====
-- Runs of the quick slots, and the theorem at a concrete bar.
use nwnx2_windows.Prelude.{◌≡◌, refl, none, List, [], ◌∷◌, fault, replicate, codes}
use nwnx2_windows.QuickSlots.{
  Button, set_quick_slot, sprintf_s, quickbar_of, freed_string, new_button,
}

abbrev blank : Button
blank = record {
  qb_type = 0;
  qb_class = 0;
  qb_resref = [];
  qb_label = freed_string;
  qb_command = freed_string;
  qb_label2 = freed_string;
  qb_id = 0;
  qb_metamagic = 0;
}

abbrev bar : List Button
bar = replicate 36 blank

-- For an object that is no player's the block must hold three bytes.
too_short : set_quick_slot none (codes "12") ≡ fault
unfolding set_quick_slot sprintf_s quickbar_of
too_short = refl

-- A type of 257 is no item's, and is stored as an item's.
item : (new_button (0 ∷ 257 ∷ 0 ∷ 0 ∷ 0 ∷ 0 ∷ []) ([], []) blank).qb_type ≡ 1
unfolding new_button
item = refl
