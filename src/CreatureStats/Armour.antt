-- ===== src/CreatureStats/Armour.antt =====
-- The armour class functions of NWNX_Functions/CNssCreatureStats.cpp as independent cells.
use nwnx2_windows.Prelude.{
  ℕ, ◌≡◌, refl, Bool, true, false, some, ◌&&◌, leb, ltb, ◌==◌, if◌then◌else◌, Bool-cases, inl, inr,
  arith, codes, ℤ, pos, negsuc, print_nat,
}
use nwnx2_windows.CreatureStats.{
  StatsCreature, Changed, get_base_ac, set_base_ac, get_bonus_ac, set_bonus_ac, get_penalty_ac,
  set_penalty_ac, get_saving_throw_bonus, bonus_writes,
}

pub data AcKind : Type 0 where
  base bonus penalty : AcKind

abbrev pub get_ac : AcKind → StatsCreature → ℤ → Changed
get_ac base c type = get_base_ac c type
get_ac bonus c type = get_bonus_ac c type
get_ac penalty c type = get_penalty_ac c type

abbrev pub set_ac : AcKind → StatsCreature → ℕ → ℤ → Changed
set_ac base c ac type = set_base_ac c ac type
set_ac bonus c ac type = set_bonus_ac c ac type
set_ac penalty c ac type = set_penalty_ac c ac type

-- The types that a kind of armour class has.
abbrev pub has_cell : AcKind → ℕ → Bool
has_cell base type = leb 1 type && leb type 3
has_cell bonus type = ltb type 5
has_cell penalty type = ltb type 5

abbrev pub same_kind : AcKind → AcKind → Bool
same_kind base base = true
same_kind base bonus = false
same_kind base penalty = false
same_kind bonus base = false
same_kind bonus bonus = true
same_kind bonus penalty = false
same_kind penalty base = false
same_kind penalty bonus = false
same_kind penalty penalty = true

-- What is read of a kind and type after a value was set for a kind and type that there is: the value
-- where both are the same, and otherwise what was read before.
pub get_ac-set_ac :
    (c : StatsCreature) (k k' : AcKind) (ac type type' : ℕ)
    → has_cell k type ≡ true
    → (get_ac k' (set_ac k c ac (pos type)).0 (pos type')).1 ≡ (
        if same_kind k k' && type == type'
        then some (print_nat ac)
        else (get_ac k' c (pos type')).1)
unfolding get_base_ac set_base_ac get_bonus_ac set_bonus_ac get_penalty_ac set_penalty_ac
get_ac-set_ac c base base ac type type' h = ground arith
get_ac-set_ac c base bonus ac type type' h = ground arith
get_ac-set_ac c base penalty ac type type' h = ground arith
get_ac-set_ac c bonus base ac type type' h = ground arith
get_ac-set_ac c bonus bonus ac type type' h = ground arith
get_ac-set_ac c bonus penalty ac type type' h = ground arith
get_ac-set_ac c penalty base ac type type' h = ground arith
get_ac-set_ac c penalty bonus ac type type' h = ground arith
get_ac-set_ac c penalty penalty ac type type' h = ground arith

-- Whatever saving throw is asked for, and whatever the creature's bonus is, the answer is `-1`.
pub get_saving_throw_bonus-minus_one :
    (c : StatsCreature) (save : ℤ) → get_saving_throw_bonus c save ≡ (c, some (codes "-1"), 1)
unfolding get_saving_throw_bonus bonus_writes
get_saving_throw_bonus-minus_one c (negsuc n) = refl
get_saving_throw_bonus-minus_one c (pos n) = elim (Bool-cases (n == 1)) [
  | inl fort ↦ rw fort refl
  | inr other ↦ elim (Bool-cases (n == 2)) [
    | inl reflex ↦ rw other (rw reflex refl)
    | inr other' ↦ elim (Bool-cases (n == 3)) [
      | inl will ↦ rw other (rw other' (rw will refl))
      | inr none_of ↦ rw other (rw other' (rw none_of refl))
    ]
  ]
]
