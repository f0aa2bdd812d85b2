-- ===== src/Spells/Knowing.antt =====
-- What the functions of NWNX_Functions/CNssSpells.cpp for known spells do to one another.
use nwnx2_windows.Prelude.{
  Text, ℤ, at_index, at_index-set, ℕ, zero, suc, ◌+◌, ◌<◌, ◌≡◌, refl, sym, ap, ◌∙◌, Bool, true,
  false, Option, none, some, List, [], ◌∷◌, ◌++◌, done, Returns, arith, ltb, ◌==◌, if◌then◌else◌,
  length, length-append, length-take, get_or, take, Bool-cases, inl, inr, codes, pos, split_first,
  bits32,
}
use nwnx2_windows.Params.{
  char_target, unsigned_target, int_target, extract, extract_one, next_piece,
}
use nwnx2_windows.ExoArrayList.{ArrayList, contains}
use nwnx2_windows.ExoArrayList.Items.{Valid, items, add-Valid, contains-Searched, Searched}
use nwnx2_windows.Spells.{
  SpellClass, StatsLevel, SpellStats, spell_level, each_class, fresh_array, append_spell,
  add_at_level, add_unless_known, add_to_class, add_known_spell, change_class, change_known,
  remove_spell, remove_known_spell, knows, knows_in_class, knows_loop, get_knows_spell,
}

-- Every array of a list is valid.
abbrev pub AllValid : List ArrayList → Type 0
AllValid [] = Unit
AllValid (list ∷ lists) = Valid list × AllValid lists

-- Every class has ten arrays, which are valid.
abbrev pub Formed : List SpellClass → Type 0
Formed [] = Unit
Formed (c ∷ classes) =
    ((length c.cl_spells_known ≡ 10) × AllValid c.cl_spells_known) × Formed classes

-- Some class is of the kind.
abbrev pub has_class : ℕ → List SpellClass → Bool
has_class sp_class [] = false
has_class sp_class (c ∷ classes) =
    if c.cl_class == sp_class then true else has_class sp_class classes

get_or-take : (n : ℕ) (xs : List ℕ) (j : ℕ) → j < n → get_or (take n xs) j 0 ≡ get_or xs j 0
get_or-take zero xs j h = absurd (omega arith)
get_or-take (suc n) [] j h = refl
get_or-take (suc n) (x ∷ xs) zero h = refl
get_or-take (suc n) (x ∷ xs) (suc j) h = get_or-take n xs j (omega arith)

get_or-append : (xs : List ℕ) (v : ℕ) → get_or (xs ++ (v ∷ [])) (length xs) 0 ≡ v
get_or-append [] v = refl
get_or-append (x ∷ xs) v = get_or-append xs v

-- A value at an index in use is found, so that the list knows the spell.
knows-at :
    (list : ArrayList) (spell j : ℕ)
    → j < list.len
    → get_or list.data_of j 0 ≡ spell
    → (o : Option ℕ) → contains list spell ≡ o
    → Searched list.data_of spell 0 list.len o
    → knows spell list ≡ true
unfolding knows
knows-at list spell j inside at none found (Searched.absent nowhere) =
    absurd (nowhere j (omega arith) (omega arith) at)
knows-at list spell j inside at (some i) found s =
    let used : ltb 0 list.len ≡ true = ground arith in rw used (rw (found, knows) refl)

knows-found :
    (list : ArrayList) (spell i : ℕ)
    → contains list spell ≡ some i
    → Searched list.data_of spell 0 list.len (some i)
    → knows spell list ≡ true
knows-found list spell i found (Searched.present low high at first) =
    knows-at list spell i (omega arith) at (some i) found (Searched.present low high at first)

fresh_array-Valid : (list : ArrayList) → Valid list → Valid (fresh_array list)
unfolding fresh_array
fresh_array-Valid list v = elim (Bool-cases (ltb list.alloc 1)) [
  | inl empty ↦ rw empty (record { width = ground arith; fits = omega arith })
  | inr kept ↦ rw kept v
]

length-items : (list : ArrayList) → Valid list → length (items list) ≡ list.len
length-items list v = length-take list.len list.data_of (omega (arith, v.width, v.fits))

-- Adding to a list that grows where it is full.
append_spell-knows :
    (realloc : ArrayList → Option (List ℕ)) (list : ArrayList) (spell cell : ℕ) (fresh : List ℕ)
    → realloc list ≡ some (cell ∷ fresh)
    → Valid list
    → Returns (append_spell realloc spell list) (λ list'. knows spell list' ≡ true)
unfolding append_spell
append_spell-knows realloc list spell cell fresh room v =
    let (r, run, (v', appended, count)) = add-Valid list spell cell fresh v in
    let list' = r.0 in
    let size = length-items list v in
    let size' = length-items list' v' in
    let longer : list'.len ≡ list.len + 1 =
      omega (arith, size, size', ap length appended, length-append (items list) (spell ∷ [])) in
    let at : get_or list'.data_of list.len 0 ≡ spell =
      sym (get_or-take list'.len list'.data_of list.len (omega (arith, longer)))
      ∙ ap (λ xs. get_or xs list.len 0) appended
      ∙ ap (λ n. get_or (items list ++ (spell ∷ [])) n 0) (sym size)
      ∙ get_or-append (items list) spell in
    rw room (
      rw run (
        list',
        refl,
        knows-at list' spell list.len (omega (arith, longer)) at _ refl
            (contains-Searched list' spell),
      ))

pub spell_level_low : (n : ℕ) → n < 10 → spell_level (pos n) ≡ some n
unfolding spell_level
spell_level_low n h = let inside : ltb 9 n ≡ false = ground arith in rw inside refl

AllValid-at_index :
    (lists : List ArrayList) (i : ℕ)
    → i < length lists
    → AllValid lists
    → Returns (at_index lists i) (λ list. Valid list)
unfolding at_index
AllValid-at_index [] i h v = absurd (omega arith)
AllValid-at_index (list ∷ lists) zero h v = (list, refl, v.0)
AllValid-at_index (list ∷ lists) (suc i) h v = AllValid-at_index lists i (omega arith) v.1

-- The class is of the same kind, and knows the spell at the level.
abbrev Taught : ℕ → ℕ → SpellClass → SpellClass → Type 0
Taught n spell c c' =
    (c'.cl_class ≡ c.cl_class)
    × (list : ArrayList) × (at_index c'.cl_spells_known n ≡ done list)
    × (knows spell list ≡ true)

module _ (realloc : ArrayList → Option (List ℕ))
    (memory : (list : ArrayList)
      → (cell : ℕ) × (fresh : List ℕ) × (realloc list ≡ some (cell ∷ fresh))) where
  -- A level of 0 changes no character level.
  add_at_level-zero :
      (n spell : ℕ) (levels : List StatsLevel) → add_at_level realloc n spell 0 levels ≡ done levels
  unfolding add_at_level
  add_at_level-zero n spell [] = refl
  add_at_level-zero n spell (ls ∷ levels) = refl

  add_unless_known-Taught :
      (n spell : ℕ) (levels : List StatsLevel) (c : SpellClass) (list : ArrayList) (o : Option ℕ)
      → n < length c.cl_spells_known
      → Valid list
      → contains list spell ≡ o
      → Searched list.data_of spell 0 list.len o
      → Returns (add_unless_known realloc n spell 0 levels c list o) (λ p. Taught n spell c p.1)
  unfolding add_unless_known
  add_unless_known-Taught n spell levels c list (some i) low v found s = (
    _,
    refl,
    (refl, list, at_index-set c.cl_spells_known n list low, knows-found list spell i found s),
  )
  add_unless_known-Taught n spell levels c list none low v found s =
      let (cell, fresh, room) = memory list in
      let (list', run, known) = append_spell-knows realloc list spell cell fresh room v in
      rw run (
        rw (add_at_level-zero n spell levels)
          (_, refl, (refl, list', at_index-set c.cl_spells_known n list' low, known)))

  add_to_class-Taught :
      (n spell : ℕ) (levels : List StatsLevel) (c : SpellClass)
      → n < 10
      → length c.cl_spells_known ≡ 10
      → AllValid c.cl_spells_known
      → Returns (add_to_class realloc n spell 0 levels c) (λ p. Taught n spell c p.1)
  unfolding add_to_class
  add_to_class-Taught n spell levels c low ten valid =
      let (list, at, v) = AllValid-at_index c.cl_spells_known n (omega arith) valid in
      rw at (
        add_unless_known-Taught n spell levels c (fresh_array list) _ (omega arith)
          (fresh_array-Valid list v) refl (contains-Searched (fresh_array list) spell))

  -- Where a class of the kind comes, the loop over the changed classes answers 1.
  each_class-knows :
      (sp_class n spell : ℕ) (levels : List StatsLevel) (classes : List SpellClass)
      → n < 10
      → Formed classes
      → Returns (each_class sp_class (add_to_class realloc n spell 0) levels classes) (λ p.
        has_class sp_class classes ≡ true
        → knows_loop sp_class spell (pos n) p.1 ≡ done (codes "1"))
  unfolding each_class knows_loop knows_in_class
  each_class-knows sp_class n spell levels [] low formed = (_, refl, λ h. absurd (cc h))
  each_class-knows sp_class n spell levels (c ∷ classes) low ((ten, valid), formed) =
      elim (Bool-cases (c.cl_class == sp_class)) [
        | inl same ↦
            let (p, run, (kind, list, at, known)) =
              add_to_class-Taught n spell levels c low ten valid in
            let (q, runs, later) = each_class-knows sp_class n spell p.0 classes low formed in
            rw same (rw run (rw runs (_, refl, λ h. rw kind (rw same (rw at (rw known refl))))))
        | inr other ↦
            let (q, runs, later) = each_class-knows sp_class n spell levels classes low formed in
            rw other (rw runs (_, refl, λ h. rw other (later h)))
      ]

  -- A spell added at a level from 0 to 9 to a creature with a class of the kind, whose arrays are
  -- valid and grow where they are full, is found afterwards by the search of GetKnowsSpell for that
  -- class, spell and level.
  knows_loop-add_known_spell :
      (stats : SpellStats) (sp_class n spell : ℕ)
      → n < 10
      → Formed stats.cs_classes
      → has_class sp_class stats.cs_classes ≡ true
      → Returns
          (add_known_spell realloc stats sp_class (pos n) spell 0)
          (λ r. (r.2 ≡ 1) × (knows_loop sp_class spell (pos n) r.0.cs_classes ≡ done (codes "1")))
  unfolding add_known_spell
  knows_loop-add_known_spell stats sp_class n spell low formed there =
      let (p, run, known) =
        each_class-knows sp_class n spell stats.cs_levelstat stats.cs_classes low formed in
      rw (spell_level_low n low, add_known_spell) (rw run (_, refl, (refl, known there)))

knows_loop-has_class :
    (sp_class spell : ℕ) (level : ℤ) (classes : List SpellClass)
    → has_class sp_class classes ≡ false
    → knows_loop sp_class spell level classes ≡ done (codes "-1")
unfolding knows_loop
knows_loop-has_class sp_class spell level [] h = refl
knows_loop-has_class sp_class spell level (c ∷ classes) h =
    elim (Bool-cases (c.cl_class == sp_class)) [
      | inl same ↦ cc (rw same at h)
      | inr other ↦ rw other (knows_loop-has_class sp_class spell level classes (rw other at h))
    ]

-- The parameters that the code has overwritten.
zeros :
    extract
      (codes "0")
      b' '
      ((char_target, pos 0) ∷ (unsigned_target, pos 0) ∷ (int_target, pos 0) ∷ [])
    ≡ pos 0 ∷ pos 0 ∷ pos 0 ∷ []
unfolding extract next_piece extract_one split_first bits32
zeros = refl

-- Whatever class, spell and level the parameters name, and whatever spells the creature knows,
-- GetKnowsSpell answers `-1` and reports success for a creature without the class 0.
get_knows_spell-minus_one :
    (stats : SpellStats) (parameters : Text)
    → has_class 0 stats.cs_classes ≡ false
    → get_knows_spell stats parameters ≡ done (stats, some (codes "-1"), 1)
unfolding get_knows_spell
get_knows_spell-minus_one stats parameters h =
    rw zeros (rw (knows_loop-has_class 0 0 (pos 0) stats.cs_classes h) refl)

-- No class of the kind has a spell in its first array.
abbrev pub LacksCantrips : ℕ → List SpellClass → Type 0
LacksCantrips sp_class [] = Unit
LacksCantrips sp_class (c ∷ classes) =
    ((list : ArrayList) × (at_index c.cl_spells_known 0 ≡ done list) × (list.len ≡ 0))
    × LacksCantrips sp_class classes

unchanged :
    (change : ArrayList → ArrayList) (sp_class : ℕ) (classes : List SpellClass)
    → LacksCantrips sp_class classes
    → each_class sp_class (change_class change) 0 classes ≡ done (0, classes)
unfolding each_class change_class
unchanged change sp_class [] h = refl
unchanged change sp_class (c ∷ classes) ((list, at, empty), h) =
    elim (Bool-cases (c.cl_class == sp_class)) [
      | inl same ↦
          let unused : ltb 0 list.len ≡ false = ground arith in
          rw same (rw at (rw unused (rw (unchanged change sp_class classes h) refl)))
      | inr other ↦ rw other (rw (unchanged change sp_class classes h) refl)
    ]

-- To remove a spell without the character levels changes nothing where the first array of every
-- class is empty, whatever spells the other arrays hold.
pub remove_known_spell-LacksCantrips :
    (stats : SpellStats) (sp_class spell : ℕ)
    → LacksCantrips sp_class stats.cs_classes
    → remove_known_spell stats sp_class spell 0 ≡ done (stats, none, 1)
unfolding remove_known_spell change_known
remove_known_spell-LacksCantrips stats sp_class spell h =
    rw (unchanged (remove_spell spell) sp_class stats.cs_classes h) refl
