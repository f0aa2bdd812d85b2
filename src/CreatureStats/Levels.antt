-- ===== src/CreatureStats/Levels.antt =====
-- NWNX_Functions/CNssCreatureStats.cpp: skills, classes, character levels, domains. `n_skill` is the
-- number of skills that the configuration gives to the constructor.
use nwnx2_windows.Prelude.{
  at_index, update_at, ℕ, zero, suc, ◌+◌, ◌-◌, ◌%◌, ◌^◌, Bool, true, false, Option, none, some,
  List, [], ◌∷◌, Outcome, done, fault, ◌>>=◌, ◌&&◌, ◌||◌, ltb, leb, ◌==◌, if◌then◌else◌, length,
  get_elem?, set, codes, ℤ, pos, negsuc, is_nonzero, bits32,
}
use nwnx2_windows.CreatureStats.{
  CreatureClass, LevelStats, CreatureStats, StatsCreature, Changed, rejected, printed, with_stats,
}

-- GetLevelStats: levels are counted from 1
unfoldable pub level_of : List LevelStats → ℤ → Option LevelStats
level_of levels (negsuc n) = none
level_of levels (pos n) =
    if ltb n 1 || ltb (length levels) n then none else get_elem? levels (n - 1)

abbrev pub index_of : ℤ → ℕ
index_of (pos n) = n - 1
index_of (negsuc n) = 0

-- a change of the level, if it is there
unfoldable pub with_level : StatsCreature → ℤ → (LevelStats → LevelStats) → Option StatsCreature
unfolding level_of
with_level c level change = elim (level_of c.cre_stats.cs_levelstat level) [
  | none ↦ none
  | some ls ↦ some (record c {
    cre_stats = record c.cre_stats {
      cs_levelstat = set c.cre_stats.cs_levelstat (index_of level) (change ls);
    };
  })
]

unfoldable pub get_saved_skill_points : StatsCreature → ℤ → Changed
unfolding level_of
get_saved_skill_points c level =
    if is_nonzero level
    then elim (level_of c.cre_stats.cs_levelstat level) [
      | none ↦ (c, none, 1)
      | some ls ↦ printed c ls.ls_skillpoints
    ]
    else printed c c.cre_stats.cs_skill_points

abbrev pub is_positive : ℤ → Bool
is_positive (pos n) = ltb 0 n
is_positive (negsuc n) = false

abbrev pub or_same : StatsCreature → Option StatsCreature → Changed
or_same c none = (c, none, 1)
or_same c (some c') = (c', none, 1)

unfoldable pub set_saved_skill_points : StatsCreature → ℕ → ℤ → ℤ → Changed
unfolding with_level
set_saved_skill_points c points add level =
    let s = c.cre_stats in
    if is_positive level
    then or_same c (
        with_level c level (λ ls. record ls {
          ls_skillpoints = if is_nonzero add then (ls.ls_skillpoints + points) % 2 ^ 8 else points;
        }))
    else with_stats c (record s {
      cs_skill_points = if is_nonzero add then (s.cs_skill_points + points) % 2 ^ 16 else points;
    })

abbrev pub at_most_127 : ℕ → ℕ
at_most_127 n = if ltb 127 n then 127 else n

-- the sum of two bytes wraps around before it is cut
unfoldable pub skill_value : ℕ → ℤ → ℕ → ℕ
skill_value value add old = at_most_127 (if is_nonzero add then (value + old) % 2 ^ 8 else value)

unfoldable pub set_skill : ℕ → StatsCreature → ℕ → ℕ → ℤ → Outcome Changed
unfolding skill_value at_index
set_skill n_skill c skill value add = if ltb n_skill skill then done (rejected c) else (do
  old ← at_index c.cre_stats.cs_skills skill
  done (
      with_stats c (record c.cre_stats {
        cs_skills = set c.cre_stats.cs_skills skill (skill_value value add old);
      })))

-- the skill of the creature is computed in an `int`, that of the level in a byte
unfoldable pub set_skill_by_level : ℕ → StatsCreature → ℕ → ℕ → ℤ → ℤ → Outcome Changed
unfolding skill_value at_index with_level level_of
set_skill_by_level n_skill c skill value level add =
    if ltb n_skill skill
    then done (rejected c)
    else elim (level_of c.cre_stats.cs_levelstat level) [
      | none ↦ done (rejected c)
      | some ls ↦ do
        old ← at_index c.cre_stats.cs_skills skill
        rank ← at_index ls.ls_skilllist skill
        let whole = at_most_127 (if is_nonzero add then value + old else value)
        done (
            with_stats c (record c.cre_stats {
              cs_skills = set c.cre_stats.cs_skills skill whole;
              cs_levelstat = set c.cre_stats.cs_levelstat (index_of level) (record ls {
                ls_skilllist = set ls.ls_skilllist skill (skill_value value add rank);
              });
            }))
    ]

unfoldable pub set_class_by_position : StatsCreature → ℤ → ℕ → Outcome Changed
unfolding update_at
set_class_by_position c (negsuc n) kind = done (rejected c)
set_class_by_position c (pos n) kind =
    if leb 1 n && leb n 3
    then (do
      classes ← update_at c.cre_stats.cs_classes (n - 1) (λ k. done (record k { cl_class = kind }))
      done (with_stats c (record c.cre_stats { cs_classes = classes })))
    else done (rejected c)

abbrev pub or_rejected : StatsCreature → Option StatsCreature → Changed
or_rejected c none = rejected c
or_rejected c (some c') = (c', none, 1)

-- the class is taken for the level and the level for the class, of which a byte is kept
unfoldable pub set_class_by_level : StatsCreature → ℕ → ℤ → Changed
unfolding with_level
set_class_by_level c kind level =
    or_rejected c (with_level c (pos kind) (λ ls. record ls { ls_class = bits32 level % 2 ^ 8 }))

-- a position above 127 is negative
unfoldable pub set_class_level : StatsCreature → ℕ → ℕ → Outcome Changed
unfolding update_at
set_class_level c position level =
    if c.cre_is_pc
    then done (rejected c)
    else if leb 1 position && leb position 3 && (leb 1 level && leb level 60)
    then (if ltb (position - 1) c.cre_stats.cs_classes_len
        then (do
          classes ←
              update_at c.cre_stats.cs_classes (position - 1)
                (λ k. done (record k { cl_level = level }))
          done (with_stats c (record c.cre_stats { cs_classes = classes })))
        else done (c, none, 1))
    else done (rejected c)

-- the index of the first class of a kind among the first `n`, from `i` on
unfoldable pub find_class : ℕ → ℕ → ℕ → List CreatureClass → Outcome (Option ℕ)
find_class kind i zero classes = done none
find_class kind i (suc n) [] = fault
find_class kind i (suc n) (k ∷ classes) =
    let rest = find_class kind (i + 1) n classes in
    if k.cl_class == kind then done (some i) else rest

-- a change of the first class of a kind
unfoldable pub change_first :
    ℕ → (CreatureClass → CreatureClass) → CreatureStats → Outcome CreatureStats
unfolding find_class
change_first kind change s = do
  found ← find_class kind 0 s.cs_classes_len s.cs_classes
  elim found [
    | none ↦ done s
    | some i ↦ do
      classes ← update_at s.cs_classes i (λ k. done (change k))
      done (record s { cs_classes = classes })
  ]

unfoldable pub replace_levels : ℕ → ℕ → List LevelStats → List LevelStats
replace_levels old new [] = []
replace_levels old new (ls ∷ levels) =
    (if ls.ls_class == old then record ls { ls_class = new } else ls)
    ∷ replace_levels old new levels

unfoldable pub replace_class : StatsCreature → ℕ → ℕ → Outcome Changed
unfolding replace_levels change_first
replace_class c old new = do
  s ←
      change_first old (λ k. record k { cl_class = new })
        (record c.cre_stats { cs_levelstat = replace_levels old new c.cre_stats.cs_levelstat })
  done (with_stats c s)

unfoldable pub set_hit_points_by_level : StatsCreature → ℕ → ℤ → ℤ → Changed
unfolding with_level
set_hit_points_by_level c hp level add = or_rejected c (
    with_level c level
      (λ ls. record ls { ls_hp = if is_nonzero add then (ls.ls_hp + hp) % 2 ^ 8 else hp }))

-- zeros from an index down to 1
unfoldable pub zero_down : ℕ → List ℕ → Outcome (List ℕ)
zero_down zero xs = done xs
zero_down (suc n) xs = if ltb (suc n) (length xs) then zero_down n (set xs (suc n) 0) else fault

-- The skills of the creature, once for every level, and those of the first level.
unfoldable pub zero_levels :
    ℕ → Bool → List ℕ → List LevelStats → Outcome (List ℕ × List LevelStats)
unfolding zero_down
zero_levels n_skill first skills [] = done (skills, [])
zero_levels n_skill first skills (ls ∷ levels) = do
  skills' ← zero_down n_skill skills
  list ← if first then zero_down n_skill ls.ls_skilllist else done ls.ls_skilllist
  (skills'', levels') ← zero_levels n_skill false skills' levels
  done (skills'', record ls { ls_skilllist = list } ∷ levels')

unfoldable pub zero_all_skills : ℕ → StatsCreature → Outcome Changed
unfolding zero_levels
zero_all_skills n_skill c = do
  (skills, levels) ← zero_levels n_skill true c.cre_stats.cs_skills c.cre_stats.cs_levelstat
  done (with_stats c (record c.cre_stats { cs_skills = skills; cs_levelstat = levels }))

abbrev pub is_one_or_two : ℤ → Bool
is_one_or_two (pos n) = n == 1 || n == 2
is_one_or_two (negsuc n) = false

abbrev pub is_first : ℤ → Bool
is_first (pos n) = n == 1
is_first (negsuc n) = false

-- of a cleric, class 2
unfoldable pub set_domain : StatsCreature → ℤ → ℕ → Outcome Changed
unfolding change_first
set_domain c which domain =
    if is_one_or_two which
    then (do
      s ←
          change_first 2
            (λ k.
              if is_first which
              then record k { cl_domain_1 = domain }
              else record k { cl_domain_2 = domain })
            c.cre_stats
      done (with_stats c s))
    else done (c, none, 0)

unfoldable pub get_domain : StatsCreature → ℤ → Outcome Changed
get_domain c which =
    if is_one_or_two which
    then (do
      found ← find_class 2 0 c.cre_stats.cs_classes_len c.cre_stats.cs_classes
      elim found [
        | none ↦ done (c, none, 1)
        | some i ↦ do
          k ← at_index c.cre_stats.cs_classes i
          done (printed c (if is_first which then k.cl_domain_1 else k.cl_domain_2))
      ])
    else done (c, none, 0)

-- of a wizard, class 10
unfoldable pub set_wizard_specialization : StatsCreature → ℕ → Outcome Changed
unfolding change_first
set_wizard_specialization c spec = if ltb 8 spec then done (rejected c) else (do
  s ← change_first 10 (λ k. record k { cl_specialist = spec }) c.cre_stats
  done (with_stats c s))

unfoldable pub get_wizard_specialization : StatsCreature → Outcome Changed
get_wizard_specialization c = do
  found ← find_class 10 0 c.cre_stats.cs_classes_len c.cre_stats.cs_classes
  elim found [
    | none ↦ done (c, some (codes "-1"), 1)
    | some i ↦ do k ← at_index c.cre_stats.cs_classes i; done (printed c k.cl_specialist)
  ]
