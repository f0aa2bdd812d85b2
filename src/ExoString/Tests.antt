-- ===== src/ExoString/Tests.antt =====
-- Runs of the string class, and the theorems at concrete strings.
use nwnx2_windows.Prelude.{
  ◌≡◌, refl, true, false, none, some, ◌++◌, done, fault, Returns, arith, codes, print_int, negsuc,
}
use nwnx2_windows.ExoString.{ExoString, construct_int, assign, concat, concat_text, construct_empty}
use nwnx2_windows.ExoString.Contents.{content, Assigned, Fresh, assign-Assigned, concat-Fresh}

-- "sword" in a block that once held a longer text
abbrev sword : ExoString
sword = record { text = some (record { size = 12; chars = codes "sword" }); len = 12 }

abbrev of_ice : ExoString
of_ice = record { text = some (record { size = 8; chars = codes " of ice" }); len = 8 }

one_text :
    concat sword of_ice
    ≡ done (record { text = some (record { size = 13; chars = codes "sword of ice" }); len = 13 })
unfolding concat
one_text = refl

shorter :
    assign false of_ice sword
    ≡ done (record { text = some (record { size = 8; chars = codes "sword" }); len = 8 })
unfolding assign
shorter = refl

cleared : assign false sword construct_empty ≡ done construct_empty
unfolding assign construct_empty
cleared = refl

null_operand : concat_text sword none ≡ fault
unfolding concat_text
null_operand = refl

number :
    construct_int (negsuc 41)
    ≡ done (record { text = some (record { size = 4; chars = codes "-42" }); len = 4 })
unfolding construct_int print_int
number = refl

assign-Assigned_example :
    Returns (assign false sword of_ice) (Assigned sword (content of_ice))
    × (assign true sword of_ice ≡ done sword)
assign-Assigned_example = assign-Assigned sword of_ice (omega arith)

concat-Fresh_example : Returns (concat sword of_ice) (Fresh (content sword ++ content of_ice))
concat-Fresh_example = concat-Fresh sword of_ice (omega arith) (omega arith)
