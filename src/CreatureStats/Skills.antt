-- ===== src/CreatureStats/Skills.antt =====
-- The skill functions of NWNX_Functions/CNssCreatureStats.cpp: which skills are reset, and what adding
-- to a skill does.
use nwnx2_windows.Prelude.{
  at_index-get_or, ℕ, zero, suc, ◌+◌, ◌%◌, ◌<◌, ◌≤◌, ◌≡◌, ◌≢◌, refl, ap, ◌∙◌, true, false, List, [],
  ◌∷◌, ◌&&◌, Returns, arith, ltb, leb, if◌then◌else◌, length, length-set, get_or, get_or-set, set,
  ℤ, is_nonzero,
}
use nwnx2_windows.CreatureStats.{LevelStats, StatsCreature}
use nwnx2_windows.CreatureStats.Levels.{
  skill_value, set_skill, zero_down, zero_levels, zero_all_skills,
}

-- The skills from 1 to `n` are 0, the others, number 0 among them, are what they were.
abbrev pub Reset : ℕ → List ℕ → List ℕ → Type 0
Reset n old new =
    (length new ≡ length old)
    × ((j : ℕ) → get_or new j 0 ≡ (if leb 1 j && leb j n then 0 else get_or old j 0))

zero_down-Reset :
    (n : ℕ) (xs : List ℕ) → n < length xs → Returns (zero_down n xs) (λ xs'. Reset n xs xs')
unfolding zero_down
zero_down-Reset zero xs h = (xs, refl, (refl, λ j. ground arith))
zero_down-Reset (suc n) xs h =
    let inside : ltb (suc n) (length xs) ≡ true = ground arith in
    let same = length-set xs (suc n) 0 in
    let (xs', run, (size, reads)) = zero_down-Reset n (set xs (suc n) 0) (omega (arith, same)) in
    rw inside (xs', run, (size ∙ same, λ j. ground (arith, reads j, get_or-set xs (suc n) j 0 0 h)))

-- To reset again changes nothing.
Reset-Reset : (n : ℕ) (a b d : List ℕ) → Reset n a b → Reset n b d → Reset n a d
Reset-Reset n a b d (size, reads) (size', reads') =
    (size' ∙ size, λ j. ground (arith, reads j, reads' j))

zero_levels-Reset :
    (n : ℕ) (skills : List ℕ) (ls : LevelStats) (levels : List LevelStats)
    → n < length skills
    → Returns
        (zero_levels n false skills (ls ∷ levels))
        (λ p. Reset n skills p.0 × (p.1 ≡ ls ∷ levels))
unfolding zero_levels
zero_levels-Reset n skills ls [] h =
    let (skills', run, reset) = zero_down-Reset n skills h in rw run (_, refl, (reset, refl))
zero_levels-Reset n skills ls (ls' ∷ levels) h =
    let (skills', run, reset) = zero_down-Reset n skills h in
    let (p, runs, (reset', same)) =
      zero_levels-Reset n skills' ls' levels (omega (arith, reset.0)) in
    rw run
      (rw runs (_, refl, (Reset-Reset n skills skills' p.0 reset reset', ap (λ l. ls ∷ l) same)))

-- Where the lists have more than the configured number of skills, ZeroAllSkills ends normally. The
-- creature's skills are reset but for number 0, and so are those of the first level; the other levels
-- keep theirs.
pub zero_all_skills-Reset :
    (n : ℕ) (c : StatsCreature) (ls : LevelStats) (levels : List LevelStats)
    → c.cre_stats.cs_levelstat ≡ ls ∷ levels
    → n < length c.cre_stats.cs_skills
    → n < length ls.ls_skilllist
    → Returns (zero_all_skills n c) (λ r.
      Reset n c.cre_stats.cs_skills r.0.cre_stats.cs_skills
      × (list : List ℕ) × Reset n ls.ls_skilllist list
      × (r.0.cre_stats.cs_levelstat ≡ record ls { ls_skilllist = list } ∷ levels))
unfolding zero_all_skills zero_levels
zero_all_skills-Reset n c ls [] is h h' =
    let (skills, run, reset) = zero_down-Reset n c.cre_stats.cs_skills h in
    let (list, run', reset') = zero_down-Reset n ls.ls_skilllist h' in
    rw is (rw run (rw run' (_, refl, (reset, list, reset', refl))))
zero_all_skills-Reset n c ls (ls' ∷ levels) is h h' =
    let (skills, run, reset) = zero_down-Reset n c.cre_stats.cs_skills h in
    let (list, run', reset') = zero_down-Reset n ls.ls_skilllist h' in
    let (p, runs, (again, same)) = zero_levels-Reset n skills ls' levels (omega (arith, reset.0)) in
    rw is (
      rw run (
        rw run' (
          rw runs (
            _,
            refl,
            (
              Reset-Reset n c.cre_stats.cs_skills skills p.0 reset again,
              list,
              reset',
              ap (λ l. record ls { ls_skilllist = list } ∷ l) same,
            ),
          ))))

-- To add a value to a skill of at most 127, where the sum is over 255: SetSkill reports success and
-- leaves the skill lower than it was, and every other skill alone.
set_skill-lowers :
    (n_skill : ℕ) (c : StatsCreature) (skill value : ℕ) (add : ℤ)
    → skill ≤ n_skill
    → skill < length c.cre_stats.cs_skills
    → get_or c.cre_stats.cs_skills skill 0 ≤ 127
    → value < 256
    → 255 < value + get_or c.cre_stats.cs_skills skill 0
    → is_nonzero add ≡ true
    → Returns (set_skill n_skill c skill value add) (λ r.
      (r.2 ≡ 1)
      × (get_or r.0.cre_stats.cs_skills skill 0 < get_or c.cre_stats.cs_skills skill 0)
      × ((j : ℕ)
          → j ≢ skill
          → get_or r.0.cre_stats.cs_skills j 0 ≡ get_or c.cre_stats.cs_skills j 0))
unfolding set_skill skill_value
set_skill-lowers n_skill c skill value add le low bound byte over adds =
    let skills = c.cre_stats.cs_skills in
    let old = get_or skills skill 0 in
    let allowed : ltb n_skill skill ≡ false = ground arith in
    let wrapped : ltb 127 ((value + old) % 256) ≡ false = ground arith in
    rw allowed (
      rw (at_index-get_or skills skill 0 low) (
        rw adds (
          rw wrapped (
            _,
            refl,
            (
              refl,
              ground (arith, get_or-set skills skill skill ((value + old) % 256) 0 low),
              λ j other. ground (arith, get_or-set skills skill j ((value + old) % 256) 0 low),
            ),
          ))))
