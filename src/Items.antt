-- ===== src/Items.antt =====
-- NWNX_Functions/CNssItems.cpp and CNssLock.cpp: the script functions for an item's weight, values and
-- charges, and for a lock's key. The engine's GetGameObject is an argument, and a call of its
-- UpdateEncumbranceState is part of the result. Variables that the code does not set before it reads
-- the parameters are arguments too.
pub mod Values
use nwnx2_windows.Prelude.{
  ℕ, Bool, true, false, Option, none, some, List, [], ◌∷◌, Outcome, done, fault, ◌>>=◌, ◌==◌,
  if◌then◌else◌, get_or, Text, codes, ℤ, pos, negsuc, print_nat, print_int, signed32, magnitude,
  is_nonzero,
}
use nwnx2_windows.Params.{char_target, int_target, unsigned_target, extract_p1, extract}
use nwnx2_windows.Objects.{ObjectType, item_type, creature_type}

pub record ServerItem : Type 0 where
  pub it_charges : ℕ
  pub it_cost_ided : ℕ
  pub it_cost_unided : ℕ
  pub it_cost_add : ℕ
  pub it_weight : ℕ
  pub it_container_obj : ℕ

-- an object that may hold the item; `container` is the `it_container_obj` of an item
pub record Possessor : Type 0 where
  pub obj_type : ObjectType
  pub obj_id : ℕ
  pub container : ℕ

-- the creature whose encumbrance is reckoned anew
abbrev pub creature_of : Option Possessor → Outcome (Option ℕ)
creature_of none = fault
creature_of (some possessor) = elim possessor.obj_type [
  | creature_type ↦ done (some possessor.obj_id)
  | _ ↦ done none
]

-- the possessor, or where it is an item the possessor of that one, which may be NULL
unfoldable pub encumbered : (ℕ → Option Possessor) → ℕ → Outcome (Option ℕ)
encumbered get_game_object id = elim (get_game_object id) [
  | none ↦ done none
  | some possessor ↦ elim possessor.obj_type [
    | item_type ↦ creature_of (get_game_object possessor.container)
    | _ ↦ creature_of (some possessor)
  ]
]

-- the item, the new text of the parameters, none where they stay, and the value returned
abbrev pub ItemAnswer : Type 0
ItemAnswer = Option ServerItem × Option Text × ℕ

unfoldable pub set_item_weight :
    (ℕ → Option Possessor) → Option ServerItem → Text → Outcome (ItemAnswer × Option ℕ)
unfolding encumbered
set_item_weight get_game_object none parameters = done ((none, some (codes "-1"), 0), none)
set_item_weight get_game_object (some item) parameters = do
  let weight = magnitude (extract_p1 parameters unsigned_target (pos 0))
  creature ← encumbered get_game_object item.it_container_obj
  done ((some (record item { it_weight = weight }), none, 1), creature)

-- the switch over the kind of value
unfoldable pub store_value : ℕ → ℕ → Bool → ServerItem → ServerItem
store_value value kind zero_additional item =
    if kind == 1
    then if zero_additional
      then record item { it_cost_ided = value; it_cost_add = 0 }
      else record item { it_cost_ided = value }
    else if kind == 2
    then record item { it_cost_unided = value }
    else if kind == 3
    then record item { it_cost_add = value }
    else item

-- `old` are the three variables before
unfoldable pub set_item_value : ℤ × ℤ × ℤ → Option ServerItem → Text → ItemAnswer
unfolding store_value
set_item_value old none parameters = (none, some (codes "-1"), 0)
set_item_value old (some item) parameters =
    let numbers =
      extract parameters b' '
        ((unsigned_target, old.0) ∷ (unsigned_target, old.1) ∷ (unsigned_target, old.2) ∷ []) in
    (
      some (
          store_value (magnitude (get_or numbers 0 (pos 0))) (magnitude (get_or numbers 1 (pos 0)))
            (is_nonzero (get_or numbers 2 (pos 0))) item),
      none,
      1,
    )

unfoldable pub set_item_charges : Option ServerItem → Text → ItemAnswer
set_item_charges none parameters = (none, some (codes "-1"), 0)
set_item_charges (some item) parameters = (
  some (record item { it_charges = magnitude (extract_p1 parameters char_target (pos 0)) }),
  none,
  1,
)

-- the value of a kind, and -1 for any other kind
unfoldable pub kind_value : ServerItem → ℤ → ℤ
kind_value item (negsuc n) = negsuc 0
kind_value item (pos kind) =
    if kind == 1
    then signed32 item.it_cost_ided
    else if kind == 2
    then signed32 item.it_cost_unided
    else if kind == 3
    then signed32 item.it_cost_add
    else negsuc 0

-- The parameters are overwritten by `-1` before the kind is read off them.
unfoldable pub get_item_value : Option ServerItem → Text → Text × ℕ
get_item_value none parameters = (codes "-1", 0)
get_item_value (some item) parameters =
    let overwritten = codes "-1" in
    (print_int (kind_value item (extract_p1 overwritten int_target (pos 0))), 1)

-- A door or another object; of another object, `plc_auto_remove_key` is the byte where a placeable has its
-- flag.
pub record Lock : Type 0 where
  pub obj_type2 : ℕ
  pub door_remove_key : ℕ
  pub plc_auto_remove_key : ℕ

-- What is no door is made a placeable, since the code assigns the type. `as_placeable` says that the
-- engine's cast then gives the object, and not NULL.
unfoldable pub get_auto_remove_key : Bool → Lock → Outcome (Lock × Text × ℕ)
get_auto_remove_key as_placeable lock =
    if lock.obj_type2 == 10
    then done (lock, print_nat lock.door_remove_key, 1)
    else if as_placeable
    then done (record lock { obj_type2 = 9 }, print_nat lock.plc_auto_remove_key, 1)
    else fault

unfoldable pub set_auto_remove_key : Bool → Lock → Text → Outcome (Lock × ℕ)
set_auto_remove_key as_placeable lock parameters =
    let remove = magnitude (extract_p1 parameters char_target (pos 0)) in
    if lock.obj_type2 == 10
    then done (record lock { door_remove_key = remove }, 1)
    else if as_placeable
    then done (record lock { obj_type2 = 9; plc_auto_remove_key = remove }, 1)
    else fault
