-- ===== src/Visibility/Tests.antt =====
-- Two players and a monster.
use nwnx2_windows.Prelude.{ℕ, false, Option, some, [], ◌∷◌, ◌==◌, if◌then◌else◌}
use nwnx2_windows.Visibility.{always_invisible, Map, ObjectEntry, GameObject}

abbrev objects : Map ObjectEntry
objects = (5, record { override_type = always_invisible; vismap = (6, 1) ∷ [] }) ∷ []

abbrev viewer : GameObject
viewer = record { is_dm = false; vis_variable = 3 }

abbrev seen : GameObject
seen = record { is_dm = false; vis_variable = 0 }

abbrev game : ℕ → Option GameObject
game o = if o == 5 then some viewer else some seen
