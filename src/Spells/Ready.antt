-- ===== src/Spells/Ready.antt =====
-- Spell slots and memorized spells of NWNX_Functions/CNssSpells.cpp: what is written is read back, and
-- what is restored.
use nwnx2_windows.Prelude.{
  update_at, at_index-get_or, at_index-set, ℕ, zero, suc, ◌+◌, ◌-◌, ◌<◌, ◌≤◌, ◌≡◌, ◌≢◌, refl, ap,
  ◌∙◌, Bool, true, false, Option, none, some, List, [], ◌∷◌, done, ◌>>=◌, ◌&&◌, Returns, arith, ltb,
  leb, ◌==◌, if◌then◌else◌, length, length-set, get_or, get_or-set, set, map, Bool-cases, ==_iff,
  inl, inr, pos, print_nat,
}
use nwnx2_windows.Spells.{StatsSpell, SpellClass, SpellStats, each_class, first_class}
use nwnx2_windows.Spells.Knowing.{has_class, spell_level_low}
use nwnx2_windows.Spells.Slots.{
  read_slots, write_slots, most_slots, set_most, get_max_spell_slots, set_max_spell_slots, bounded,
  restore_spell, restore_all, restore_levels, restore_class, restore_memorized_spells,
}

-- Every class has ten numbers of slots, and ten arrays of memorized spells.
abbrev pub SlotsFormed : List SpellClass → Type 0
SlotsFormed [] = Unit
SlotsFormed (c ∷ classes) =
    ((length c.cl_spells_max ≡ 10) × (length c.cl_spells_mem ≡ 10)) × SlotsFormed classes

set_most_lem :
    (n slots : ℕ) (c : SpellClass)
    → n < length c.cl_spells_max
    → set_most n slots c ≡ done (record c { cl_spells_max = set c.cl_spells_max n slots })
unfolding set_most update_at
set_most_lem n slots c low = rw (at_index-get_or c.cl_spells_max n 0 low) refl

most_slots-set :
    (n slots : ℕ) (c : SpellClass)
    → n < length c.cl_spells_max
    → slots ≢ 0
    → most_slots n (record c { cl_spells_max = set c.cl_spells_max n slots }) ≡ done slots
unfolding most_slots
most_slots-set n slots c low some_slots =
    let test : (slots == 0) ≡ false = ground arith in
    rw (at_index-set c.cl_spells_max n slots low) (rw test refl)

first_class-most :
    (sp_class n slots : ℕ) (classes : List SpellClass)
    → n < 10
    → slots ≢ 0
    → SlotsFormed classes
    → has_class sp_class classes ≡ true
    → Returns
        (first_class sp_class false (λ c. do c' ← set_most n slots c; done (true, c')) classes)
        (λ p.
          first_class sp_class 0 (λ c. do k ← most_slots n c; done (k, c)) p.1 ≡ done (slots, p.1))
unfolding first_class
first_class-most sp_class n slots [] low s formed there = cc
first_class-most sp_class n slots (c ∷ classes) low s ((ten, ten'), formed) there =
    elim (Bool-cases (c.cl_class == sp_class)) [
      | inl same ↦
          let inside : n < length c.cl_spells_max = omega arith in
          rw same (
            rw (set_most_lem n slots c inside)
              (_, refl, (rw same (rw (most_slots-set n slots c inside s) refl))))
      | inr other ↦
          let (p, run, reads) =
            first_class-most sp_class n slots classes low s formed (rw other at there) in
          rw other (rw run (_, refl, (rw other (rw reads refl))))
    ]

-- A maximum of spell slots other than 0, set for a class that there is at a level from 0 to 9, is the
-- one that is read afterwards.
pub get_max_spell_slots-set_max_spell_slots :
    (stats : SpellStats) (sp_class n slots : ℕ)
    → n < 10
    → slots ≢ 0
    → SlotsFormed stats.cs_classes
    → has_class sp_class stats.cs_classes ≡ true
    → Returns
        (set_max_spell_slots stats sp_class (pos n) slots)
        (λ r. get_max_spell_slots r.0 sp_class (pos n) ≡ done (r.0, some (print_nat slots), 1))
unfolding set_max_spell_slots get_max_spell_slots write_slots read_slots
get_max_spell_slots-set_max_spell_slots stats sp_class n slots low s formed there =
    let (p, run, reads) = first_class-most sp_class n slots stats.cs_classes low s formed there in
    rw (spell_level_low n low, set_max_spell_slots)
      (rw run (_, refl, (rw (spell_level_low n low, get_max_spell_slots) (rw reads refl))))

-- A memorized spell that can be cast.
abbrev pub ready : Option StatsSpell → Option StatsSpell
ready none = none
ready (some sp) = some (record sp { sp_ready = 1 })

restore_all-map : (spells : List (Option StatsSpell)) → restore_all spells ≡ map ready spells
unfolding restore_all restore_spell
restore_all-map [] = refl
restore_all-map (none ∷ spells) = ap (λ r. none ∷ r) (restore_all-map spells)
restore_all-map (some sp ∷ spells) =
    ap (λ r. some (record sp { sp_ready = 1 }) ∷ r) (restore_all-map spells)

-- One more level at the lower end of a range.
extend :
    {X : Type 0} (f : X → X) (level n j : ℕ) (x y : X)
    → (level ≡ j → x ≡ y)
    → (if leb (level + 1) j && ltb j (level + 1 + n)
        then f (if level == j then f x else y)
        else if level == j
        then f x
        else y)
      ≡ (if leb level j && ltb j (level + suc n) then f y else y)
extend f level n j x y same = elim (Bool-cases (level == j)) [
  | inl e ↦
      let at : level ≡ j = (==_iff level j).0 e in
      let above : leb (level + 1) j ≡ false = ground arith in
      let inside : leb level j ≡ true = ground arith in
      let below : ltb j (level + suc n) ≡ true = ground arith in
      rw e (rw above (rw inside (rw below (ap f (same at)))))
  | inr other ↦
      let low : leb (level + 1) j ≡ leb level j = ground arith in
      let high : level + 1 + n ≡ level + suc n = omega arith in rw other (rw low (rw high refl))
]

restore_levels-get_or :
    (level n : ℕ) (mem : List (List (Option StatsSpell)))
    → level + n ≤ length mem
    → Returns (restore_levels level n mem) (λ mem'.
      (j : ℕ)
      → get_or mem' j [] ≡ (
          if leb level j && ltb j (level + n)
          then map ready (get_or mem j [])
          else get_or mem j []))
unfolding restore_levels update_at
restore_levels-get_or level zero mem h = (mem, refl, λ j. ground arith)
restore_levels-get_or level (suc n) mem h =
    let spells = get_or mem level [] in
    let mem1 = set mem level (restore_all spells) in
    let (mem', run, reads) =
      restore_levels-get_or (level + 1) n mem1
        (omega (arith, length-set mem level (restore_all spells))) in
    rw (at_index-get_or mem level [] (omega arith)) (
      mem',
      run,
      λ j.
          reads j
          ∙ ap (λ y. if leb (level + 1) j && ltb j (level + 1 + n) then map ready y else y)
              (get_or-set mem level j (restore_all spells) [] (omega arith)
                ∙ ap (λ r. if level == j then r else get_or mem j []) (restore_all-map spells))
          ∙ extend (map ready) level n j spells (get_or mem j [])
              (λ e. ap (λ k. get_or mem k []) e),
    )

-- What becomes of a class: the spells from one level to another can be cast if it is of the kind.
abbrev pub Restored : ℕ → ℕ → ℕ → List SpellClass → List SpellClass → Type 0
Restored sp_class from to [] [] = Unit
Restored sp_class from to [] (c' ∷ classes') = ⊥
Restored sp_class from to (c ∷ classes) [] = ⊥
Restored sp_class from to (c ∷ classes) (c' ∷ classes') =
    ((c' ≡ record c { cl_spells_mem = c'.cl_spells_mem })
      × ((j : ℕ)
          → get_or c'.cl_spells_mem j [] ≡ (
              if (c.cl_class == sp_class) && (leb from j && leb j to)
              then map ready (get_or c.cl_spells_mem j [])
              else get_or c.cl_spells_mem j [])))
    × Restored sp_class from to classes classes'

each_class-Restored :
    (sp_class from to : ℕ) (classes : List SpellClass)
    → from ≤ to
    → to < 10
    → SlotsFormed classes
    → Returns
        (each_class sp_class
          (λ (u : Bool) c. do c' ← restore_class from to c; done (u, c'))
          true
          classes)
        (λ p. Restored sp_class from to classes p.1)
unfolding each_class restore_class
each_class-Restored sp_class from to [] le low formed = (_, refl, tt)
each_class-Restored sp_class from to (c ∷ classes) le low ((ten, ten'), formed) =
    let (p, runs, later) = each_class-Restored sp_class from to classes le low formed in
    elim (Bool-cases (c.cl_class == sp_class)) [
      | inl same ↦
          let (mem', run, reads) =
            restore_levels-get_or from (to + 1 - from) c.cl_spells_mem (omega arith) in
          rw same (rw run (rw runs (_, refl, ((refl, λ j. rw same (reads j ∙ in_range j)), later))))
      | inr other ↦ rw other (rw runs (_, refl, ((refl, λ j. rw other refl), later)))
    ]
  where
    in_range :
        (j : ℕ)
        → (if leb from j && ltb j (from + (to + 1 - from))
            then map ready (get_or c.cl_spells_mem j [])
            else get_or c.cl_spells_mem j [])
          ≡ (if leb from j && leb j to
              then map ready (get_or c.cl_spells_mem j [])
              else get_or c.cl_spells_mem j [])
    in_range j = let same : ltb j (from + (to + 1 - from)) ≡ leb j to = ground arith in rw same refl

-- To restore the spells of a class from one level to another, each between 0 and 9 and in order, makes
-- every memorized spell of these levels one that can be cast, in every class of the kind, and changes
-- nothing else.
pub restore_memorized_spells-Restored :
    (stats : SpellStats) (sp_class from to : ℕ)
    → from ≤ to
    → to < 10
    → SlotsFormed stats.cs_classes
    → Returns (restore_memorized_spells stats sp_class (pos from) (pos to)) (λ r.
      Restored sp_class from to stats.cs_classes r.0.cs_classes
      × (r.0.cs_levelstat ≡ stats.cs_levelstat))
unfolding restore_memorized_spells bounded
restore_memorized_spells-Restored stats sp_class from to le low formed =
    let (p, run, restored) = each_class-Restored sp_class from to stats.cs_classes le low formed in
    let first : ltb 9 from ≡ false = ground arith in
    let last : ltb 9 to ≡ false = ground arith in
    let ordered : ltb to from ≡ false = ground arith in
    rw first (rw last (rw ordered (rw run (_, refl, (restored, refl)))))
