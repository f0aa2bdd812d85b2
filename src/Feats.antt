-- ===== src/Feats.antt =====
-- NWNX_Functions/CNssFeats.cpp, over the engine's arrays: the script functions for a creature's
-- feats. `none` is an object that is no creature. The numbers that CParams reads off the parameters
-- by the streams of the C++ library are arguments; a negative level counts as 0. The engine's two
-- functions AddFeat are arguments as well. An answer is the new text of the parameters, `none` where
-- they stay, with the value returned.
pub mod Listing
pub mod Removing
mod Tests
use nwnx2_windows.Prelude.{
  ℕ, zero, suc, ◌+◌, ◌-◌, ◌*◌, ◌%◌, ◌^◌, Bool, true, false, Option, none, some, List, [], ◌∷◌, ◌++◌,
  Outcome, done, fault, ◌>>=◌, ◌||◌, ltb, leb, ◌==◌, if◌then◌else◌, length, get_elem?, set, take,
  map, Text, codes, split_first, skip_blanks, is_blank, print_nat,
}
use nwnx2_windows.ExoArrayList.{ArrayList, contains, delfeatindex}

-- `cs_feats`, and `ls_featlist` of each level
pub record Stats : Type 0 where
  pub cs_feats : ArrayList
  pub levels : List ArrayList

pub record Answered : Type 0 where
  pub stats : Option Stats
  pub text : Option Text
  pub value : ℕ

abbrev failed : Option Stats → Answered
failed stats = record { stats = stats; text = some (codes "-1"); value = 0 }

abbrev succeeded : Stats → Answered
succeeded stats = record { stats = some stats; text = none; value = 1 }

-- levels are counted from 1
unfoldable pub get_level_stats : Stats → ℕ → Option ArrayList
get_level_stats stats level =
    if ltb level 1 || ltb (length stats.levels) level
    then none
    else get_elem? stats.levels (level - 1)

module _ (engine_add engine_add_level : ArrayList → ℕ → ArrayList) where
  unfoldable pub add_feat : Option Stats → ℕ → Answered
  add_feat none feat = failed none
  add_feat (some stats) feat =
      succeeded (record stats { cs_feats = engine_add stats.cs_feats feat })

  unfoldable pub add_feat_at_level : Option Stats → ℕ → ℕ → Answered
  unfolding get_level_stats
  add_feat_at_level none level feat = failed none
  add_feat_at_level (some stats) level feat = elim (get_level_stats stats level) [
    | none ↦ failed (some stats)
    | some list ↦ succeeded (record {
      cs_feats = engine_add stats.cs_feats feat;
      levels = set stats.levels (level - 1) (engine_add_level list feat);
    })
  ]

-- the search in the general list, which passes over index 0
unfoldable pub remove_general : ArrayList → ℕ → ArrayList
remove_general feats feat = elim (contains feats feat) [
  | none ↦ feats
  | some i ↦ if ltb 0 i then (delfeatindex feats i).0 else feats
]

-- the index that the first level with the feat has for it; `n` rounds from the level above `level`
unfoldable pub find_level : Stats → ℕ → ℕ → ℕ → Option ℕ
unfolding get_level_stats
find_level stats feat zero level = none
find_level stats feat (suc n) level =
    let rest = find_level stats feat n (level + 1) in
    elim (get_level_stats stats (level + 1)) [
      | none ↦ none
      | some list ↦ elim (contains list feat) [ none ↦ rest | some i ↦ some i ]
    ]

-- what the loop over the levels does: the index found in a level's list is deleted in the general one
unfoldable pub remove_level : Stats → ℕ → Stats
remove_level stats feat = elim (find_level stats feat (length stats.levels + 1) 0) [
  | none ↦ stats
  | some i ↦ record stats { cs_feats = (delfeatindex stats.cs_feats i).0 }
]

unfoldable pub remove_feat : Option Stats → ℕ → Bool → Answered
remove_feat none feat by_level = failed none
remove_feat (some stats) feat by_level =
    let stats' : Stats = record stats { cs_feats = remove_general stats.cs_feats feat } in
    succeeded (if by_level then remove_level stats' feat else stats')

-- `contains + 1`, where `contains` is -1 for a feat that is not there
unfoldable pub position : Option ℕ → ℕ
position none = 0
position (some i) = i + 1

unfoldable pub get_feat_known : Option Stats → ℕ → Answered
unfolding position print_nat
get_feat_known none feat = failed none
get_feat_known (some stats) feat =
    let place = position (contains stats.cs_feats feat) in
    record { stats = some stats; text = some (print_nat place); value = place }

-- `%s`: the first word
unfoldable pub word : Text → Text
word [] = []
word (c ∷ s) = let rest = word s in if is_blank c then [] else c ∷ rest

-- `strcat` of the delimiter and a feat, for the feats behind the first
unfoldable pub append_feats : Text → List ℕ → Text
append_feats delimiter [] = []
append_feats delimiter (feat ∷ feats) =
    (delimiter ++ print_nat feat) ++ append_feats delimiter feats

unfoldable pub join_feats : Text → List ℕ → Text
unfolding append_feats
join_feats delimiter [] = []
join_feats delimiter (feat ∷ feats) = print_nat feat ++ append_feats delimiter feats

-- the size asked for, in 32 bits
unfoldable pub size_needed : ℕ → ℕ → ℕ
size_needed n delimiter = (n * 5 + (n + 2 ^ 32 - 1) % 2 ^ 32 * delimiter + 1) % 2 ^ 32

-- the delimiter is copied into a block of twice the bytes before the first blank
unfoldable pub listed : Stats → Text → Text → Text → Outcome Answered
listed stats parameters before delimiter =
    if leb (2 * length before) (length delimiter)
    then fault
    else if ltb (length parameters) (size_needed stats.cs_feats.len (length delimiter))
    then done (failed (some stats))
    else done (record {
      stats = some stats;
      text = some (join_feats delimiter (take stats.cs_feats.len stats.cs_feats.data_of));
      value = 1;
    })

-- without a blank the size of the block is taken from a NULL pointer
unfoldable pub get_all_known_feats : Option Stats → Text → Outcome Answered
get_all_known_feats none parameters = done (failed none)
get_all_known_feats (some stats) parameters = elim (split_first b' ' parameters) [
  | none ↦ fault
  | some (before, after) ↦ listed stats parameters before (word (skip_blanks parameters))
]

unfoldable pub clear : ArrayList → ArrayList
clear list = record list { len = 0 }

unfoldable pub clear_feat_list : Option Stats → Bool → Answered
unfolding clear
clear_feat_list none levels = failed none
clear_feat_list (some stats) levels = succeeded (record {
  cs_feats = clear stats.cs_feats;
  levels = if levels then map clear stats.levels else stats.levels;
})

unfoldable pub get_feat_count : Option Stats → Answered
get_feat_count none = failed none
get_feat_count (some stats) = record {
  stats = some stats;
  text = some (print_nat stats.cs_feats.len);
  value = 1;
}
