-- ===== src/Spells.antt =====
-- NWNX_Functions/CNssSpells.cpp: the script functions for the spells that a creature knows. Each class
-- and each character level has ten arrays of known spells, one for each spell level. The numbers that
-- CParams reads off the parameters by the streams of the C++ library are arguments. What `realloc`
-- gives for an array is an argument, `none` for NULL. A read behind one of the ten arrays is a fault.
pub mod Slots
pub mod Knowing
pub mod Ready
mod Tests
use nwnx2_windows.Prelude.{
  magnitude, get_or, at_index, update_at, ℕ, zero, suc, ◌+◌, ◌-◌, Bool, true, false, Option, none,
  some, List, [], ◌∷◌, Outcome, done, fault, ◌>>=◌, ◌&&◌, ◌||◌, ltb, leb, ◌==◌, if◌then◌else◌,
  length, get_elem?, set, map, Text, codes, ℤ, pos, negsuc, print_nat,
}
use nwnx2_windows.Params.{char_target, unsigned_target, int_target, extract}
use nwnx2_windows.ExoArrayList.{ArrayList, add, contains, delfeatindex}

-- a memorized spell
pub record StatsSpell : Type 0 where
  pub sp_id : ℕ
  pub sp_meta : ℕ
  pub sp_ready : ℕ
  pub sp_domain : ℕ

pub record SpellClass : Type 0 where
  pub cl_class : ℕ
  pub cl_spells_known : List ArrayList
  pub cl_spells_left : List ℕ
  pub cl_spells_max : List ℕ
  pub cl_spells_bonus : List ℕ
  pub cl_spells_mem : List (List (Option StatsSpell))

pub record StatsLevel : Type 0 where
  pub ls_class : ℕ
  pub ls_spells_known : List ArrayList

pub record SpellStats : Type 0 where
  pub cs_classes : List SpellClass
  pub cs_levelstat : List StatsLevel

-- the creature, the new text of the parameters, `none` where they stay, and the value returned
abbrev pub Reply : Type 0
Reply = Outcome (SpellStats × Option Text × ℕ)

-- `-1` for an object that is no creature
unfoldable pub on_creature :
    Option SpellStats → (SpellStats → Reply) → Outcome (Option SpellStats × Option Text × ℕ)
on_creature none operation = done (none, some (codes "-1"), 0)
on_creature (some stats) operation = do
  (stats', text, value) ← operation stats
  done (some stats', text, value)

abbrev pub refused : SpellStats → Reply
refused stats = done (stats, some (codes "-1"), 0)

-- a spell level from 0 to 9
unfoldable pub spell_level : ℤ → Option ℕ
spell_level (pos n) = if ltb 9 n then none else some n
spell_level (negsuc n) = none

-- the loop over the classes, with what it carries from one to the next
unfoldable pub each_class {ℓ} :
    {S : Type ℓ}
    → ℕ
    → (S → SpellClass → Outcome (S × SpellClass))
    → S
    → List SpellClass
    → Outcome (S × List SpellClass)
each_class sp_class step s [] = done (s, [])
each_class sp_class step s (c ∷ classes) = do
  (s', c') ← if c.cl_class == sp_class then step s c else done (s, c)
  (s'', classes') ← each_class sp_class step s' classes
  done (s'', c' ∷ classes')

-- the loop that breaks after the first class of the kind
unfoldable pub first_class {ℓ} :
    {A : Type ℓ}
    → ℕ
    → A
    → (SpellClass → Outcome (A × SpellClass))
    → List SpellClass
    → Outcome (A × List SpellClass)
first_class sp_class default step [] = done (default, [])
first_class sp_class default step (c ∷ classes) =
    if c.cl_class == sp_class
    then (do (a, c') ← step c; done (a, c' ∷ classes))
    else (do (a, classes') ← first_class sp_class default step classes; done (a, c ∷ classes'))

-- an array without memory is made empty
unfoldable pub fresh_array : ArrayList → ArrayList
fresh_array list =
    if ltb list.alloc 1 then record { data_of = []; len = 0; alloc = list.alloc } else list

module _ (realloc : ArrayList → Option (List ℕ)) where
  -- `add`, whose result is not looked at
  unfoldable pub append_spell : ℕ → ArrayList → Outcome ArrayList
  append_spell spell list = do (list', result) ← add list spell (realloc list); done list'

  -- the addition to the list of a character level that there is
  unfoldable pub add_at_level : ℕ → ℕ → ℕ → List StatsLevel → Outcome (List StatsLevel)
  add_at_level level spell at levels = elim (get_elem? levels (at - 1)) [
    | none ↦ done levels
    | some ls ↦ if at == 0 then done levels else (do
      known ← update_at ls.ls_spells_known level (append_spell spell)
      done (set levels (at - 1) (record ls { ls_spells_known = known })))
  ]

  -- `list` is the array at the level, and the index of the spell in it is given
  unfoldable pub add_unless_known :
      ℕ
      → ℕ
      → ℕ
      → List StatsLevel
      → SpellClass
      → ArrayList
      → Option ℕ
      → Outcome (List StatsLevel × SpellClass)
  add_unless_known level spell at levels c list (some i) =
      done (levels, record c { cl_spells_known = set c.cl_spells_known level list })
  add_unless_known level spell at levels c list none = do
    list' ← append_spell spell list
    levels' ← add_at_level level spell at levels
    done (levels', record c { cl_spells_known = set c.cl_spells_known level list' })

  -- the body of the loop; it carries the levels
  unfoldable pub add_to_class :
      ℕ → ℕ → ℕ → List StatsLevel → SpellClass → Outcome (List StatsLevel × SpellClass)
  add_to_class level spell at levels c = do
    list ← at_index c.cl_spells_known level
    add_unless_known level spell at levels c (fresh_array list) (contains (fresh_array list) spell)

  -- outside 0 to 9 the parameters stay; a negative `at` counts as 0
  unfoldable pub add_known_spell : SpellStats → ℕ → ℤ → ℕ → ℕ → Reply
  add_known_spell stats sp_class level spell at = elim (spell_level level) [
    | none ↦ done (stats, none, 0)
    | some n ↦ do
      (levels, classes) ←
          each_class sp_class (add_to_class n spell at) stats.cs_levelstat stats.cs_classes
      done (record { cs_classes = classes; cs_levelstat = levels }, none, 1)
  ]

-- a spell goes from an array in use that has it
unfoldable pub remove_spell : ℕ → ArrayList → ArrayList
remove_spell spell list =
    if ltb 0 list.len
    then elim (contains list spell) [ none ↦ list | some i ↦ (delfeatindex list i).0 ]
    else list

-- the body of the loop over the classes; it carries `sp_level`, at which the test before the inner
-- loop looks
unfoldable pub change_class : (ArrayList → ArrayList) → ℕ → SpellClass → Outcome (ℕ × SpellClass)
change_class change sp_level c = do
  list ← at_index c.cl_spells_known sp_level
  if ltb 0 list.len
      then done (10, record c { cl_spells_known = map change c.cl_spells_known })
      else done (sp_level, c)

unfoldable pub change_levels : ℕ → (ArrayList → ArrayList) → List StatsLevel → List StatsLevel
change_levels sp_class change [] = []
change_levels sp_class change (ls ∷ levels) =
    (if ls.ls_class == sp_class
      then record ls { ls_spells_known = map change ls.ls_spells_known }
      else ls)
    ∷ change_levels sp_class change levels

-- `levels` tells whether the character levels are searched
unfoldable pub change_known : (ArrayList → ArrayList) → SpellStats → ℕ → Bool → Reply
change_known change stats sp_class levels = do
  (sp_level, classes) ← each_class sp_class (change_class change) 0 stats.cs_classes
  done (
    record {
      cs_classes = classes;
      cs_levelstat =
          if levels then change_levels sp_class change stats.cs_levelstat else stats.cs_levelstat;
    },
    none,
    1,
  )

unfoldable pub remove_known_spell : SpellStats → ℕ → ℕ → ℕ → Reply
remove_known_spell stats sp_class spell at =
    change_known (remove_spell spell) stats sp_class (ltb 0 at)

-- a spell is overwritten where it is first found
unfoldable pub replace_spell : ℕ → ℕ → ArrayList → ArrayList
replace_spell spell new list =
    if ltb 0 list.len
    then elim (contains list spell) [
      | none ↦ list
      | some i ↦ record list { data_of = set list.data_of i new }
    ]
    else list

unfoldable pub replace_known_spell : SpellStats → ℕ → ℕ → ℕ → Reply
replace_known_spell stats sp_class spell new =
    change_known (replace_spell spell new) stats sp_class true

unfoldable pub knows : ℕ → ArrayList → Bool
knows spell list =
    if ltb 0 list.len then elim (contains list spell) [ none ↦ false | some i ↦ true ] else false

-- the first spell level, from `level` on, that has the spell
unfoldable pub find_spell : ℕ → ℕ → List ArrayList → Option ℕ
find_spell spell level [] = none
find_spell spell level (list ∷ lists) =
    if knows spell list then some level else find_spell spell (level + 1) lists

-- what a class of the kind answers, and the spell level with which the loop goes on
unfoldable pub knows_in_class : ℕ → SpellClass → ℤ → Outcome (Option Text × ℤ)
knows_in_class spell c (pos n) = do
  list ← at_index c.cl_spells_known n
  done (if knows spell list then some (codes "1") else none, pos n)
knows_in_class spell c (negsuc n) = elim (find_spell spell 0 c.cl_spells_known) [
  | some level ↦ done (some (print_nat (level + 1)), negsuc n)
  | none ↦ done (none, pos 10)
]

unfoldable pub knows_loop : ℕ → ℕ → ℤ → List SpellClass → Outcome Text
knows_loop sp_class spell level [] = done (codes "-1")
knows_loop sp_class spell level (c ∷ classes) = do
  (answer, level') ←
      if c.cl_class == sp_class then knows_in_class spell c level else done (none, level)
  elim answer [ some text ↦ done text | none ↦ knows_loop sp_class spell level' classes ]

-- The parameters are overwritten by `0` before the class, the spell and the level are read off them.
unfoldable pub get_knows_spell : SpellStats → Text → Reply
get_knows_spell stats parameters =
    let overwritten = codes "0" in
    let numbers =
      extract overwritten b' '
        ((char_target, pos 0) ∷ (unsigned_target, pos 0) ∷ (int_target, pos 0) ∷ []) in
    do
      text ←
          knows_loop (magnitude (get_or numbers 0 (pos 0))) (magnitude (get_or numbers 1 (pos 0)))
            (get_or numbers 2 (pos 0)) stats.cs_classes
      done (stats, some text, 1)

-- `len = 0`, and the memory is freed if `free_mem` says so
unfoldable pub clear_spells : Bool → ArrayList → ArrayList
clear_spells free_mem list =
    if free_mem then record { data_of = []; len = 0; alloc = 0 } else record list { len = 0 }

-- the arrays from `level` on, as many as `n`
unfoldable pub clear_range : Bool → ℕ → ℕ → List ArrayList → Outcome (List ArrayList)
clear_range free_mem level zero lists = done lists
clear_range free_mem level (suc n) [] = fault
clear_range free_mem zero (suc n) (list ∷ lists) = do
  lists' ← clear_range free_mem 0 n lists
  done (clear_spells free_mem list ∷ lists')
clear_range free_mem (suc level) (suc n) (list ∷ lists) = do
  lists' ← clear_range free_mem level (suc n) lists
  done (list ∷ lists')

unfoldable pub clear_class : Bool → ℕ → ℕ → ℕ → SpellClass → Outcome (ℕ × SpellClass)
clear_class free_mem from to sp_level c = do
  list ← at_index c.cl_spells_known sp_level
  if ltb 0 list.len
      then (do
        known ← clear_range free_mem from (to + 1 - from) c.cl_spells_known
        done (if ltb to from then from else to + 1, record c { cl_spells_known = known }))
      else done (sp_level, c)

unfoldable pub clear_levels : Bool → ℕ → ℕ → List StatsLevel → Outcome (List StatsLevel)
clear_levels free_mem from to [] = done []
clear_levels free_mem from to (ls ∷ levels) = do
  known ← clear_range free_mem from (to + 1 - from) ls.ls_spells_known
  levels' ← clear_levels free_mem from to levels
  done (record ls { ls_spells_known = known } ∷ levels')

unfoldable pub remove_all_spells : SpellStats → ℕ → ℕ → ℕ → ℕ → Reply
remove_all_spells stats sp_class from to free_mem = if ltb 9 to then refused stats else (do
  (sp_level, classes) ←
      each_class sp_class (clear_class (free_mem == 1) from to) from stats.cs_classes
  levels ← clear_levels (free_mem == 1) from to stats.cs_levelstat
  done (record { cs_classes = classes; cs_levelstat = levels }, none, 1))
