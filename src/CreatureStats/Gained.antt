-- ===== src/CreatureStats/Gained.antt =====
-- NWNX_Functions/CNssCreatureStats.cpp: what was gained at a character level, written into the
-- parameters. A number that is too long for the block of six bytes behind it is a fault; whether the
-- text fits the parameters the code does not look at.
use nwnx2_windows.Prelude.{
  at_index, ℕ, none, some, [], ◌∷◌, Outcome, done, fault, ◌>>=◌, ltb, leb, if◌then◌else◌, length,
  take, Text, codes, ℤ, pos, negsuc,
}
use nwnx2_windows.Feats.{join_feats}
use nwnx2_windows.Spells.Slots.{short_numbers}
use nwnx2_windows.CreatureStats.{LevelStats, StatsCreature, Changed, rejected}
use nwnx2_windows.CreatureStats.Levels.{level_of}

-- the answer about a level, `-1` if there is no such level
unfoldable pub about_level : StatsCreature → ℤ → (LevelStats → Outcome Text) → Outcome Changed
unfolding level_of
about_level c level answer = elim (level_of c.cre_stats.cs_levelstat level) [
  | none ↦ done (rejected c)
  | some ls ↦ do text ← answer ls; done (c, some text, 1)
]

unfoldable pub get_feats_gained_at_level : StatsCreature → ℤ → Outcome Changed
unfolding about_level join_feats
get_feats_gained_at_level c level =
    about_level c level
      (λ ls. done (join_feats (codes "|") (take ls.ls_featlist.len ls.ls_featlist.data_of)))

-- the first skill is read also where there is none
unfoldable pub get_skill_ranks_gained_at_level : ℕ → StatsCreature → ℤ → Outcome Changed
unfolding about_level join_feats
get_skill_ranks_gained_at_level n_skill c level =
    let n = if ltb n_skill 1 then 1 else n_skill in
    about_level c level (λ ls.
      if leb n (length ls.ls_skilllist)
      then done (join_feats (codes "|") (take n ls.ls_skilllist))
      else fault)

-- a spell level outside 0 to 9 reads behind the ten arrays
unfoldable pub spells_at : LevelStats → ℤ → Outcome Text
unfolding at_index short_numbers join_feats
spells_at ls (negsuc n) = fault
spells_at ls (pos n) = do
  list ← at_index ls.ls_spells_known n
  let spells = take list.len list.data_of
  if short_numbers spells then done (join_feats (codes "|") spells) else fault

unfoldable pub get_spells_gained_at_level : StatsCreature → ℤ → ℤ → Outcome Changed
unfolding about_level spells_at
get_spells_gained_at_level c level spell_level =
    about_level c level (λ ls. spells_at ls spell_level)

unfoldable pub get_stats_gained_at_level : StatsCreature → ℤ → Outcome Changed
unfolding about_level join_feats
get_stats_gained_at_level c level = about_level c level (λ ls.
    done (join_feats (codes "|") (ls.ls_ability ∷ ls.ls_class ∷ ls.ls_hp ∷ ls.ls_skillpoints ∷ [])))
