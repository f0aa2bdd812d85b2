-- ===== src/QuickSlots/Buttons.antt =====
-- NWNX_Functions/CNssPlayer.cpp: GetQuickSlot tells what SetQuickSlot stored.
use nwnx2_windows.Prelude.{
  ℕ, ◌^◌, ◌<◌, ◌≡◌, ◌≢◌, true, false, some, List, [], ◌∷◌, ◌++◌, ◌==◌, length, take, Text, codes,
  pos, print_nat, print_int, signed32, Lacks,
}
use nwnx2_windows.QuickSlots.{
  Button, Player, is_creator, class_index, slot_numbers, slot_texts, joined_parts, button_text,
}

-- What can be put on a button: numbers, a command with its label, or what a dungeon master's creator
-- makes, with its label and its resource.
pub data Content : Type 0 where
  plain : (type class id meta : ℕ) → Content
  command : (label text : Text) → Content
  creator : (type : ℕ) (label resource : Text) → Content

-- Numbers in decimal, a blank in front of each.
abbrev pub spaced : List ℕ → Text
spaced [] = []
spaced (n ∷ ns) = b' ' ∷ (print_nat n ++ spaced ns)

abbrev pub numbers_of : ℕ → ℕ → Content → List ℕ
numbers_of slot update (plain type class id meta) = slot ∷ type ∷ class ∷ id ∷ meta ∷ update ∷ []
numbers_of slot update (command label text) = slot ∷ 18 ∷ 0 ∷ 0 ∷ 0 ∷ update ∷ []
numbers_of slot update (creator type label resource) = slot ∷ type ∷ 0 ∷ 0 ∷ 0 ∷ update ∷ []

abbrev pub texts_of : Content → Text × Text
texts_of (plain type class id meta) = ([], [])
texts_of (command label text) = (label, text)
texts_of (creator type label resource) = (label, resource)

abbrev pub behind : Content → Text
behind (plain type class id meta) = []
behind (command label text) = 0xac ∷ (label ++ (0xac ∷ text))
behind (creator type label resource) = 0xac ∷ (label ++ (0xac ∷ resource))

-- The parameters of SetQuickSlot.
abbrev pub request : ℕ → ℕ → Content → Text
request slot update content = spaced (numbers_of slot update content) ++ behind content

-- What GetQuickSlot is to answer; the class is one less, and the resource is cut to 16 bytes.
abbrev pub told : ℕ → Content → Text
told slot (plain type class id meta) = joined_parts (
    print_nat slot
    ∷ print_nat type
    ∷ print_nat (class_index (pos class))
    ∷ print_int (signed32 id)
    ∷ print_int (signed32 meta)
    ∷ [])
told slot (command label text) =
    joined_parts
      (print_nat slot ∷ codes "18" ∷ codes "0" ∷ codes "0" ∷ codes "0" ∷ label ∷ text ∷ [])
told slot (creator type label resource) = joined_parts (
    print_nat slot
    ∷ print_nat type
    ∷ codes "0"
    ∷ codes "0"
    ∷ codes "0"
    ∷ label
    ∷ take 16 resource
    ∷ [])

-- A text in front of a delimiter.
abbrev pub Label : Text → Type 0
Label s = (0 < length s) × Lacks 0xac s

-- The types are those of the button, but no item; the numbers fit.
abbrev pub Possible : Content → Type 0
Possible (plain type class id meta) =
    ((type < 2 ^ 8) × (type ≢ 1) × (type ≢ 18) × (is_creator type ≡ false))
    × (class < 2 ^ 31)
    × (id < 2 ^ 32)
    × (meta < 2 ^ 32)
Possible (command label text) = Label label × (0 < length text)
Possible (creator type label resource) =
    (is_creator type ≡ true) × Label label × (0 < length resource)

abbrev WordsFit : List ℕ → Type 0
WordsFit [] = Unit
WordsFit (n ∷ ns) = (n < 2 ^ 32) × WordsFit ns

-- The words and the texts of the parameters.
abbrev Carries : Text → List ℕ → Text × Text → Type 0
Carries s numbers texts = (slot_numbers s ≡ some numbers) × (slot_texts s ≡ texts)

-- The button is no item, and its text is the content's.
abbrev Shows : ℕ → Content → Button → Type 0
Shows slot content button =
    ((button.qb_type == 1) ≡ false) × (button_text slot button ≡ told slot content)

abbrev pub with_bar : List Button → Player
with_bar buttons = record { cre_is_pc = true; cre_quickbar = some buttons }
