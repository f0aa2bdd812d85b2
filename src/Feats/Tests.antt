-- ===== src/Feats/Tests.antt =====
-- Runs of the feat functions, and the theorems at a concrete creature.
use nwnx2_windows.Prelude.{
  ℕ, ◌≤◌, ◌≡◌, refl, true, false, none, some, [], ◌∷◌, ◌++◌, done, Returns, arith, codes, length,
  print_nat, split_first,
}
use nwnx2_windows.ExoArrayList.{ArrayList, contains, delfeatindex}
use nwnx2_windows.ExoArrayList.Items.{Valid}
use nwnx2_windows.Feats.{
  Stats, add_feat_at_level, remove_general, remove_level, find_level, remove_feat, get_feat_known,
  word, join_feats, size_needed, listed, get_all_known_feats, clear_feat_list, get_feat_count,
}
use nwnx2_windows.Feats.Listing.{listing, get_all_known_feats-listing}
use nwnx2_windows.Feats.Removing.{remove_feat-levels}

abbrev general : ArrayList
general = record { data_of = 28 ∷ 3 ∷ 408 ∷ 0 ∷ []; len = 3; alloc = 4 }

abbrev first_level : ArrayList
first_level = record { data_of = 3 ∷ 28 ∷ []; len = 2; alloc = 2 }

abbrev bard : Stats
bard = record { cs_feats = general; levels = first_level ∷ [] }

general-Valid : Valid general
general-Valid = record { width = refl; fits = omega arith }

-- the engine's function, here one that adds at the end of a list with room
abbrev appends : ArrayList → ℕ → ArrayList
appends list feat = record list { data_of = list.data_of ++ (feat ∷ []) }

no_such_level : (add_feat_at_level appends appends (some bard) 2 5).text ≡ some (codes "-1")
unfolding add_feat_at_level
no_such_level = refl

-- The feat at index 0 stays.
first_stays : (remove_feat (some bard) 28 false).stats ≡ some bard
unfolding remove_feat remove_general contains
first_stays = refl

-- The index of the feat in the level's list, 0, is deleted in the general list.
other_goes :
    (remove_feat (some bard) 3 true).stats
    ≡ some (record bard {
      cs_feats = record { data_of = 408 ∷ 408 ∷ 408 ∷ 0 ∷ []; len = 1; alloc = 4 };
    })
unfolding remove_feat remove_general remove_level find_level contains delfeatindex
other_goes = refl

known : (get_feat_known (some bard) 408).value ≡ 3
unfolding get_feat_known contains
known = refl

all_known :
    get_all_known_feats (some bard) (codes ", ................")
    ≡ done (record { stats = some bard; text = some (codes "28,3,408"); value = 1 })
unfolding get_all_known_feats split_first listed word size_needed join_feats print_nat
all_known = refl

cleared : clear_feat_list (some bard) true ≡ record {
  stats = some (record {
    cs_feats = record general { len = 0 };
    levels = record first_level { len = 0 } ∷ [];
  });
  text = none;
  value = 1;
}
unfolding clear_feat_list
cleared = refl

counted : (get_feat_count (some bard)).text ≡ some (codes "3")
unfolding get_feat_count print_nat
counted = refl

get_all_known_feats-listing_example :
    Returns (get_all_known_feats (some bard) (codes "," ++ (b' ' ∷ codes "..............."))) (λ a.
      (a.stats ≡ some bard)
      × (a.text ≡ some (listing bard (codes ",") (codes "," ++ (b' ' ∷ codes "..............."))))
      × (length (listing bard (codes ",") (codes "," ++ (b' ' ∷ codes "...............")))
          ≤ length (codes "," ++ (b' ' ∷ codes "..............."))))
get_all_known_feats-listing_example =
    get_all_known_feats-listing bard (codes ",") (codes "...............") (cc) (refl, tt)
      general-Valid (omega arith) (omega arith) (omega arith)

remove_feat-levels_example :
    (stats' : Stats) × ((remove_feat (some bard) 28 true).stats ≡ some stats')
    × (stats'.levels ≡ bard.levels)
remove_feat-levels_example = remove_feat-levels bard 28 true
