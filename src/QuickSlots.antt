-- ===== src/QuickSlots.antt =====
-- NWNX_Functions/CNssPlayer.cpp: SetQuickSlot and GetQuickSlot, which write and read the 36 buttons of a
-- player's quick bar. The parameters stand in a block of their own length, into which `sprintf_s`
-- writes: a text that does not fit with its zero ends the program, which is a fault. `malloc` gives
-- its block. A class of -2^31, where `qb_class--` overflows, counts as a negative one.
pub mod Buttons
mod Tests
use nwnx2_windows.Prelude.{
  ℕ, zero, suc, ◌+◌, ◌-◌, ◌%◌, ◌^◌, Bool, true, false, Option, none, some, List, [], ◌∷◌, ◌++◌,
  Outcome, done, fault, ◌>>=◌, ◌&&◌, ◌||◌, not, ltb, leb, ◌==◌, if◌then◌else◌, length, take, get_or,
  set, at_index, Text, codes, ℤ, pos, negsuc, print_nat, print_int, signed32, split_first,
  scan_decimal,
}
use nwnx2_windows.ExoString.{ExoString}
use nwnx2_windows.Params.{int_target, extract_p1}

pub record Button : Type 0 where
  pub qb_type : ℕ
  pub qb_class : ℕ
  pub qb_resref : Text
  pub qb_label : ExoString
  pub qb_command : ExoString
  pub qb_label2 : ExoString
  pub qb_id : ℕ
  pub qb_metamagic : ℕ

-- the quick bar is none where its pointer is NULL
pub record Player : Type 0 where
  pub cre_is_pc : Bool
  pub cre_quickbar : Option (List Button)

-- the new text of the parameters, `none` where they stay; whether UpdateQuickBar was called; and the
-- value returned
pub record SlotReply : Type 0 where
  pub text : Option Text
  pub updated : Bool
  pub value : ℕ

abbrev pub refusal : Text → SlotReply
refusal text = record { text = some text; updated = false; value = 0 }

-- `sprintf_s(Params, strlen(Params), …)`
unfoldable pub sprintf_s : Text → Text → Outcome Text
sprintf_s parameters text = if ltb (length text) (length parameters) then done text else fault

-- what `n` conversions `%d` read, none where one of them fails
unfoldable pub scan_numbers : ℕ → Text → Option (List ℕ)
scan_numbers zero s = some []
scan_numbers (suc n) s = elim (scan_decimal s) [
  | none ↦ none
  | some (word, rest) ↦ elim (scan_numbers n rest) [
    | none ↦ none
    | some words ↦ some (word ∷ words)
  ]
]

-- the numbers, in front of the first delimiter
unfoldable pub slot_numbers : Text → Option (List ℕ)
unfolding scan_numbers
slot_numbers s = elim (split_first 0xac s) [
  | none ↦ scan_numbers 6 s
  | some (numbers, texts) ↦ scan_numbers 6 numbers
]

-- The two texts behind the numbers, label and command; with one delimiter both are the text behind
-- it.
unfoldable pub slot_texts : Text → Text × Text
slot_texts s = elim (split_first 0xac s) [
  | none ↦ ([], [])
  | some (numbers, texts) ↦ elim (split_first 0xac texts) [
    | none ↦ (texts, texts)
    | some (label, command) ↦ (label, command)
  ]
]

abbrev pub is_creator : ℕ → Bool
is_creator n = leb 11 n && leb n 17

abbrev pub freed_string : ExoString
freed_string = record { text = none; len = 0 }

-- the texts of the old button
unfoldable pub free_texts : Button → Button
free_texts button =
    if button.qb_type == 18
    then record button { qb_label = freed_string; qb_command = freed_string }
    else if is_creator button.qb_type
    then record button { qb_label2 = freed_string }
    else button

-- `len = length + 1`, in a block of as many bytes
unfoldable pub filled_string : Text → ExoString
filled_string s = record {
  text = some (record { size = length s + 1; chars = s });
  len = length s + 1;
}

-- `qb_class--`, kept between 0 and 2
unfoldable pub class_index : ℤ → ℕ
class_index (negsuc n) = 0
class_index (pos n) = if ltb n 2 then 0 else if ltb 2 (n - 1) then 2 else n - 1

-- the last stores, of the class, the number and the metamagic, as the type says
unfoldable pub store_numbers : ℕ → ℕ → ℕ → ℕ → Button → Button
unfolding class_index
store_numbers type class id meta button = record button {
  qb_type = type % 2 ^ 8;
  qb_class = class_index (signed32 class);
  qb_id = id;
  qb_metamagic = meta;
}

-- A type that needs texts becomes 0, with all its numbers, where one of them is empty.
unfoldable pub new_button : List ℕ → Text × Text → Button → Button
unfolding store_numbers filled_string
new_button numbers (label, command) button =
    let type = get_or numbers 1 0 in
    let there = ltb 0 (length command) && ltb 0 (length label) in
    let kept = store_numbers type (get_or numbers 2 0) (get_or numbers 3 0) (get_or numbers 4 0) in
    if type == 18
    then if there
      then kept
          (record button { qb_label = filled_string label; qb_command = filled_string command })
      else store_numbers 0 0 0 0 button
    else if is_creator type
    then if there
      then kept (record button { qb_label2 = filled_string label; qb_resref = take 16 command })
      else store_numbers 0 0 0 0 button
    else kept button

-- the bar of a player's creature
unfoldable pub quickbar_of : Option Player → Option (List Button)
quickbar_of none = none
quickbar_of (some player) = if player.cre_is_pc then player.cre_quickbar else none

-- A word is a slot's number; a negative one is not below 36.
unfoldable pub set_button : List Button → List ℕ → Text × Text → Outcome (List Button)
unfolding free_texts new_button
set_button buttons numbers texts = do
  button ← at_index buttons (get_or numbers 0 0)
  done (set buttons (get_or numbers 0 0) (new_button numbers texts (free_texts button)))

-- the player, none for no creature, and the reply
unfoldable pub set_quick_slot : Option Player → Text → Outcome (Option (List Button) × SlotReply)
unfolding quickbar_of
set_quick_slot player parameters = elim (quickbar_of player) [
  | none ↦ do text ← sprintf_s parameters (codes "-1"); done (none, refusal text)
  | some buttons ↦ elim (slot_numbers parameters) [
    | none ↦ done (some buttons, refusal (codes "-2"))
    | some numbers ↦
        if leb 36 (get_or numbers 0 0)
        then done (some buttons, refusal (codes "-2"))
        else if get_or numbers 1 0 == 1
        then done (some buttons, refusal (codes "-1"))
        else (do
          buttons' ← set_button buttons numbers (slot_texts parameters)
          done (
            some buttons',
            record { text = none; updated = not (get_or numbers 5 0 == 0); value = 1 },
          ))
  ]
]

-- `%s` of an engine string
abbrev pub printed_string : ExoString → Text
printed_string e = elim e.text [ none ↦ codes "(null)" | some block ↦ block.chars ]

abbrev pub joined_parts : List Text → Text
joined_parts [] = []
joined_parts (s ∷ []) = s
joined_parts (s ∷ t ∷ ts) = s ++ 0xac ∷ joined_parts (t ∷ ts)

unfoldable pub button_text : ℕ → Button → Text
button_text slot button =
    let zeros = codes "0" in
    let start : List Text → Text =
      λ rest. joined_parts (print_nat slot ∷ print_nat button.qb_type ∷ rest) in
    if button.qb_type == 18
    then start (
        zeros
        ∷ zeros
        ∷ zeros
        ∷ printed_string button.qb_label
        ∷ printed_string button.qb_command
        ∷ [])
    else if is_creator button.qb_type
    then start (zeros ∷ zeros ∷ zeros ∷ printed_string button.qb_label2 ∷ button.qb_resref ∷ [])
    else start (
        print_nat button.qb_class
        ∷ print_int (signed32 button.qb_id)
        ∷ print_int (signed32 button.qb_metamagic)
        ∷ [])

-- the text and the value returned; an item is not told
unfoldable pub answer_button : Text → ℕ → Button → Outcome (Text × ℕ)
unfolding button_text sprintf_s
answer_button parameters slot button =
    if button.qb_type == 1
    then done (codes "-1", 0)
    else (do text ← sprintf_s parameters (button_text slot button); done (text, 1))

unfoldable pub get_button : List Button → ℤ → Text → Outcome (Text × ℕ)
unfolding answer_button
get_button buttons (negsuc n) parameters = done (codes "-1", 0)
get_button buttons (pos slot) parameters =
    if leb 36 slot
    then done (codes "-1", 0)
    else (do button ← at_index buttons slot; answer_button parameters slot button)

unfoldable pub get_quick_slot : Option Player → Text → Outcome (Text × ℕ)
unfolding quickbar_of
get_quick_slot player parameters =
    let slot = extract_p1 parameters int_target (pos 0) in
    elim (quickbar_of player) [
      | none ↦ done (codes "-1", 0)
      | some buttons ↦ get_button buttons slot parameters
    ]
