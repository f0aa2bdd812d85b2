-- ===== src/LocalVariables/Tests.antt =====
-- Runs of the functions for local variables, and the theorems at a concrete object.
use nwnx2_windows.Prelude.{
  ◌≡◌, refl, none, some, [], ◌∷◌, ◌++◌, done, fault, codes, pos, arith, print_nat, print_int,
  signed32, bits32, split_first, atoi, clamp, read_int,
}
use nwnx2_windows.LocalVariables.{
  ScriptVariable, VarTable, GameObject, construct_variables, get_var_table, variable_text,
  get_local_variable_count, get_has_local_variable, get_local_variable_by_position,
  print_local_vars, int_line, string_line,
}
use nwnx2_windows.LocalVariables.Walk.{run_first, cursor, get_first_local_variable-cursor}

abbrev hits : ScriptVariable
hits = record { var_name = some (codes "hits"); var_type = 1; var_value = 12 }

abbrev title : ScriptVariable
title = record { var_name = some (codes "title"); var_type = 3; var_value = 0x1000 }

abbrev no_variables : VarTable
no_variables = record { vt_list = none; vt_len = 0 }

abbrev two_variables : VarTable
two_variables = record { vt_list = some (hits ∷ title ∷ []); vt_len = 2 }

abbrev chest : GameObject
chest = record {
  obj_id = 7;
  obj_type = 9;
  area_vartable = none;
  mod_vartable = no_variables;
  obj_vartable = two_variables;
}

abbrev stone : GameObject
stone = record {
  obj_id = 8;
  obj_type = 9;
  area_vartable = none;
  mod_vartable = no_variables;
  obj_vartable = no_variables;
}

counted : get_local_variable_count chest ≡ done (codes "2", 1)
unfolding get_local_variable_count print_int signed32 print_nat
counted = refl

by_index : get_local_variable_by_position chest (pos 1) ≡ done (codes "3" ++ 172 ∷ codes "title", 1)
unfolding get_local_variable_by_position variable_text print_int signed32 print_nat
by_index = refl

-- A name that starts with a digit is taken for a type as well.
digit_name :
    get_has_local_variable
      (record chest {
        obj_vartable = record {
          vt_list = some (record hits { var_name = some (codes "5th") } ∷ []);
          vt_len = 1;
        };
      })
      (codes "5th")
    ≡ done (codes "0", 1)
unfolding get_has_local_variable bits32 atoi clamp read_int split_first
digit_name = refl

logged :
    print_local_vars (λ address. done (some (codes "old"))) (λ address. fault) chest
    ≡ done (
      int_line (codes "INT") (some (codes "hits")) 12
          ∷ string_line (codes "STR") (some (codes "title")) (some (codes "old"))
          ∷ [],
      1,
    )
unfolding print_local_vars
logged = refl

-- The list of an area is read where no area is.
no_area : get_local_variable_count (record chest { obj_type = 0x634388 }) ≡ fault
unfolding get_local_variable_count
no_area = refl

get_first_local_variable-cursor_example :
    run_first construct_variables chest (chest ∷ stone ∷ chest ∷ [])
    ≡ done (cursor 7 (hits ∷ title ∷ []) (chest ∷ chest ∷ stone ∷ chest ∷ []))
unfolding get_var_table
get_first_local_variable-cursor_example =
    get_first_local_variable-cursor two_variables (hits ∷ title ∷ []) refl refl construct_variables
      chest (chest ∷ stone ∷ chest ∷ []) refl
      ((λ e. refl), ((λ e. absurd (omega arith)), ((λ e. refl), tt)))
