-- ===== src/Spells/Slots.antt =====
-- NWNX_Functions/CNssSpells.cpp: spell slots, memorized spells, and the lists of known spells. What
-- `calloc` gives is an argument.
use nwnx2_windows.Prelude.{
  at_index, update_at, ℕ, zero, suc, ◌+◌, ◌-◌, ◌*◌, ◌/◌, ◌%◌, ◌^◌, Bool, true, false, Option, none,
  some, List, [], ◌∷◌, Outcome, done, fault, ◌>>=◌, ◌&&◌, ltb, leb, ◌==◌, if◌then◌else◌, length,
  get_elem?, set, take, Text, codes, ℤ, pos, negsuc, print_nat, print_int, signed32, scan_decimal,
  skip_blanks,
}
use nwnx2_windows.Feats.{word, join_feats, size_needed}
use nwnx2_windows.Spells.{
  StatsSpell, SpellClass, SpellStats, Reply, refused, spell_level, each_class, first_class,
}

-- the answer of a function that reads one number from the first class of a kind, 0 without one
unfoldable pub read_slots : SpellStats → ℕ → (SpellClass → Outcome ℕ) → Reply
read_slots stats sp_class read = do
  (slots, classes) ← first_class sp_class 0 (λ c. do n ← read c; done (n, c)) stats.cs_classes
  done (stats, some (print_nat slots), 1)

-- the class is compared with the spell level
unfoldable pub get_remaining_spell_slots : SpellStats → ℕ → ℤ → Reply
get_remaining_spell_slots stats sp_class level = elim (spell_level level) [
  | none ↦ refused stats
  | some n ↦ read_slots stats n (λ c. at_index c.cl_spells_left n)
]

abbrev pub lesser : ℕ → ℕ → ℕ
lesser a b = if ltb b a then b else a

-- the first class of a kind changed
unfoldable pub write_slots : SpellStats → ℕ → (SpellClass → Outcome SpellClass) → Reply
write_slots stats sp_class write = do
  (found, classes) ←
      first_class sp_class false (λ c. do c' ← write c; done (true, c')) stats.cs_classes
  done (record stats { cs_classes = classes }, none, 1)

unfoldable pub set_left : ℕ → ℕ → SpellClass → Outcome SpellClass
set_left level slots c = do
  most ← at_index c.cl_spells_max level
  left ← update_at c.cl_spells_left level (λ old. done (lesser slots most))
  done (record c { cl_spells_left = left })

unfoldable pub set_remaining_spell_slots : SpellStats → ℕ → ℤ → ℕ → Reply
set_remaining_spell_slots stats sp_class level slots = elim (spell_level level) [
  | none ↦ refused stats
  | some n ↦ if ltb 99 slots then refused stats else write_slots stats sp_class (set_left n slots)
]

-- where there is no maximum, the number of memorized spells
unfoldable pub most_slots : ℕ → SpellClass → Outcome ℕ
most_slots level c = do
  most ← at_index c.cl_spells_max level
  if most == 0
      then (do memorized ← at_index c.cl_spells_mem level; done (length memorized))
      else done most

unfoldable pub get_max_spell_slots : SpellStats → ℕ → ℤ → Reply
get_max_spell_slots stats sp_class level = elim (spell_level level) [
  | none ↦ refused stats
  | some n ↦ read_slots stats sp_class (most_slots n)
]

unfoldable pub get_bonus_spell_slots : SpellStats → ℕ → ℤ → Reply
get_bonus_spell_slots stats sp_class level = elim (spell_level level) [
  | none ↦ refused stats
  | some n ↦ read_slots stats sp_class (λ c. at_index c.cl_spells_bonus n)
]

unfoldable pub set_most : ℕ → ℕ → SpellClass → Outcome SpellClass
set_most level slots c = do
  most ← update_at c.cl_spells_max level (λ old. done slots)
  done (record c { cl_spells_max = most })

unfoldable pub set_max_spell_slots : SpellStats → ℕ → ℤ → ℕ → Reply
set_max_spell_slots stats sp_class level slots = elim (spell_level level) [
  | none ↦ refused stats
  | some n ↦ write_slots stats sp_class (set_most n slots)
]

-- the word for a memorized spell
unfoldable pub pack_spell : StatsSpell → ℕ
pack_spell sp = (sp.sp_id % 2 ^ 16 + sp.sp_meta % 2 ^ 8 * 2 ^ 16 + sp.sp_ready * 2 ^ 24) % 2 ^ 32

-- the spell at an index, `none` for NULL and outside the array
unfoldable pub get_spell : List (Option StatsSpell) → ℤ → Option StatsSpell
get_spell memorized (negsuc n) = none
get_spell memorized (pos n) = elim (get_elem? memorized n) [ none ↦ none | some sp ↦ sp ]

unfoldable pub memorized_loop : ℕ → ℕ → ℤ → ℕ → List SpellClass → Outcome ℕ
memorized_loop sp_class level index ret [] = done ret
memorized_loop sp_class level index ret (c ∷ classes) =
    if c.cl_class == sp_class
    then (do
      memorized ← at_index c.cl_spells_mem level
      elim (get_spell memorized index) [
        | none ↦ done ret
        | some sp ↦ memorized_loop sp_class level index (pack_spell sp) classes
      ])
    else memorized_loop sp_class level index ret classes

unfoldable pub get_memorized_spell_slot : SpellStats → ℕ → ℤ → ℤ → Reply
get_memorized_spell_slot stats sp_class level index = elim (spell_level level) [
  | none ↦ refused stats
  | some n ↦ do
    ret ← memorized_loop sp_class n index (2 ^ 32 - 1) stats.cs_classes
    done (stats, some (print_int (signed32 ret)), 1)
]

-- the domain is read off a bit that has been masked away
unfoldable pub unpack_spell : ℕ → StatsSpell
unpack_spell word = record {
  sp_id = word % 2 ^ 16;
  sp_meta = word / 2 ^ 16 % 2 ^ 7;
  sp_ready = word / 2 ^ 24 % 2;
  sp_domain = 0;
}

-- The cell that is read is the one of the class's number at the spell level; a new spell is put at
-- the spell level's own. `calloc` tells whether there is memory.
unfoldable pub memorize : Bool → ℕ → ℕ → SpellClass → Outcome SpellClass
memorize calloc level data_word c = do
  memorized ← at_index c.cl_spells_mem level
  if leb (length memorized) level then done c else (do
    of_class ← at_index c.cl_spells_mem c.cl_class
    cell ← at_index of_class level
    elim cell [
      | some sp ↦ done (record c {
        cl_spells_mem =
            set c.cl_spells_mem c.cl_class (set of_class level (some (unpack_spell data_word)));
      })
      | none ↦
          if calloc
          then done (record c {
            cl_spells_mem =
                set c.cl_spells_mem level (set memorized level (some (unpack_spell data_word)));
          })
          else done c
    ])

unfoldable pub set_memorized_spell : Bool → SpellStats → ℕ → ℤ → ℤ → ℕ → Reply
set_memorized_spell calloc stats sp_class level (negsuc index) data_word = refused stats
set_memorized_spell calloc stats sp_class level (pos index) data_word = elim (spell_level level) [
  | none ↦ refused stats
  | some n ↦ write_slots stats sp_class (memorize calloc n data_word)
]

-- a level outside 0 to 9 is moved to the nearer end
unfoldable pub bounded : ℤ → ℕ
bounded (pos n) = if ltb 9 n then 9 else n
bounded (negsuc n) = 0

unfoldable pub restore_spell : Option StatsSpell → Option StatsSpell
restore_spell none = none
restore_spell (some sp) = some (record sp { sp_ready = 1 })

unfoldable pub restore_all : List (Option StatsSpell) → List (Option StatsSpell)
restore_all [] = []
restore_all (sp ∷ spells) = restore_spell sp ∷ restore_all spells

-- the spell levels from `level` on, as many as `n`
unfoldable pub restore_levels :
    ℕ → ℕ → List (List (Option StatsSpell)) → Outcome (List (List (Option StatsSpell)))
restore_levels level zero mem = done mem
restore_levels level (suc n) mem = do
  mem' ← update_at mem level (λ spells. done (restore_all spells))
  restore_levels (level + 1) n mem'

unfoldable pub restore_class : ℕ → ℕ → SpellClass → Outcome SpellClass
restore_class from to c = do
  mem ← restore_levels from (to + 1 - from) c.cl_spells_mem
  done (record c { cl_spells_mem = mem })

unfoldable pub restore_memorized_spells : SpellStats → ℕ → ℤ → ℤ → Reply
restore_memorized_spells stats sp_class from to =
    let first = bounded from in
    let last = if ltb (bounded to) first then first else bounded to in
    do
      (u, classes) ←
          each_class sp_class (λ (u : Bool) c. do c' ← restore_class first last c; done (u, c'))
            true stats.cs_classes
      done (record stats { cs_classes = classes }, some (codes "0"), 1)

unfoldable pub get_known_spell_count : SpellStats → ℕ → ℤ → Reply
get_known_spell_count stats sp_class level = elim (spell_level level) [
  | none ↦ refused stats
  | some n ↦ do
    (text, classes) ←
        first_class sp_class none
          (λ c. do list ← at_index c.cl_spells_known n; done (some (print_nat list.len), c))
          stats.cs_classes
    done (stats, text, 1)
]

-- a number of more than five characters does not fit the block for one behind the first
unfoldable pub short_numbers : List ℕ → Bool
short_numbers [] = true
short_numbers (x ∷ xs) = ltb (length (print_nat x)) 6 && short_numbers xs

abbrev pub rest_of : List ℕ → List ℕ
rest_of [] = []
rest_of (x ∷ xs) = xs

-- the texts of the classes of the kind one after another, of which the last stays; `room` is the
-- length of the parameters
unfoldable pub list_spells : ℕ → ℕ → ℕ → Text → Text → List SpellClass → Outcome Text
list_spells room sp_class level delimiter text [] = done text
list_spells room sp_class level delimiter text (c ∷ classes) =
    if c.cl_class == sp_class
    then (do
      list ← at_index c.cl_spells_known level
      let spells = take list.len list.data_of
      let listed = join_feats delimiter spells
      let rest = list_spells room sp_class level delimiter listed classes
      let same = list_spells room sp_class level delimiter text classes
      (if ltb 0 list.len
          then (if short_numbers (rest_of spells) && leb (length listed) room then rest else fault)
          else same))
    else list_spells room sp_class level delimiter text classes

unfoldable pub known_spells : SpellStats → Text → ℕ → ℤ → Text → Reply
known_spells stats parameters sp_class level delimiter = elim (spell_level level) [
  | none ↦ refused stats
  | some n ↦ do
    (count, classes) ←
        first_class sp_class 0 (λ c. do list ← at_index c.cl_spells_known n; done (list.len, c))
          stats.cs_classes
    if ltb (length parameters) (size_needed count (length delimiter)) then refused stats else (do
      text ← list_spells (length parameters) sp_class n delimiter (codes "-1") stats.cs_classes
      done (stats, some text, 1))
]

-- `sscanf(Params, "%d %d %s", …)`: what is not read is not set, and the delimiter has nine bytes
unfoldable pub get_known_spells : SpellStats → Text → Reply
get_known_spells stats parameters = elim (scan_decimal parameters) [
  | none ↦ fault
  | some (sp_class, rest) ↦ elim (scan_decimal rest) [
    | none ↦ fault
    | some (level, rest') ↦
        let delimiter = word (skip_blanks rest') in
        if ltb 0 (length delimiter) && ltb (length delimiter) 10
        then known_spells stats parameters sp_class (signed32 level) delimiter
        else fault
  ]
]
