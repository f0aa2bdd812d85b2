-- ===== src/LocalVariables.antt =====
-- NWNX_Functions/CNssLocalVariables.cpp: the script functions that list an object's local variables.
-- The object's tables are those of the engine. The number of variables is taken to be below 2^31, as
-- the code keeps it in an `int`; the index that CParams reads off the parameters is an argument. A
-- pointer to a text may be NULL (`none`), which `strcmp` does not stand and `%s` prints as `(null)`.
pub mod Walk
pub mod Named
mod Tests
use nwnx2_windows.Prelude.{
  ℕ, zero, suc, ◌+◌, ◌-◌, Bool, true, false, Option, none, some, List, [], ◌∷◌, ◌++◌, Outcome, done,
  fault, ◌>>=◌, ◌&&◌, ◌||◌, ltb, ◌==◌, if◌then◌else◌, get_elem?, Text, codes, ℤ, pos, negsuc,
  print_nat, print_int, signed32, bits32, split_first, text_eq, atoi,
}

pub record ScriptVariable : Type 0 where
  pub var_name : Option Text
  pub var_type : ℕ
  pub var_value : ℕ

-- `vt_list` may be NULL
pub record VarTable : Type 0 where
  pub vt_list : Option (List ScriptVariable)
  pub vt_len : ℕ

-- An object, with the table that stands where an area, a module or another object has its own;
-- `AsNWSArea` may give NULL.
pub record GameObject : Type 0 where
  pub obj_id : ℕ
  pub obj_type : ℕ
  pub area_vartable : Option VarTable
  pub mod_vartable : VarTable
  pub obj_vartable : VarTable

-- the cursor of the last `GetFirstLocalVariable`
pub record LocalVariables : Type 0 where
  pub get_first_next_var_index : ℤ
  pub get_first_next_var_obj : ℕ

unfoldable pub construct_variables : LocalVariables
construct_variables = record {
  get_first_next_var_index = negsuc 0;
  get_first_next_var_obj = 0x7FFFFFFF;
}

unfoldable pub get_var_table : GameObject → Outcome VarTable
get_var_table object =
    if object.obj_type == 0x634388
    then elim object.area_vartable [ none ↦ fault | some table ↦ done table ]
    else if object.obj_type == 0x633BF8
    then done object.mod_vartable
    else done object.obj_vartable

unfoldable pub get_script_var_type : ℕ → Text
get_script_var_type i =
    if i == 1
    then codes "INT"
    else if i == 2
    then codes "FLT"
    else if i == 3
    then codes "STR"
    else if i == 4
    then codes "OID"
    else if i == 5
    then codes "LOC"
    else codes "unknown"

-- an index below the number of variables
unfoldable pub by_position : VarTable → ℕ → Outcome (Option ScriptVariable)
by_position table i = elim table.vt_list [
  | none ↦ done none
  | some list ↦
      if ltb i table.vt_len
      then elim (get_elem? list i) [ none ↦ fault | some v ↦ done (some v) ]
      else done none
]

-- a negative index counts as 0
abbrev pub not_negative : ℤ → ℕ
not_negative (pos n) = n
not_negative (negsuc n) = 0

unfoldable pub get_local_var_by_position : GameObject → ℤ → Outcome (Option ScriptVariable)
unfolding get_var_table by_position
get_local_var_by_position object index = do
  table ← get_var_table object
  by_position table (not_negative index)

-- `%d¬%s`
unfoldable pub variable_text : ScriptVariable → Text
variable_text v =
    print_int (signed32 v.var_type)
    ++ 172 ∷ elim v.var_name [ none ↦ codes "(null)" | some name ↦ name ]

-- the text of the parameters afterwards, and the value returned
abbrev pub Listed : Type 0
Listed = Text × ℕ

unfoldable pub get_local_variable_count : GameObject → Outcome Listed
unfolding get_var_table
get_local_variable_count object = do
  table ← get_var_table object
  done (print_int (signed32 table.vt_len), 1)

-- the loop over the variables, as many as `n`
unfoldable pub has_loop : Text → ℕ → ℕ → List ScriptVariable → Outcome (Option ℕ)
has_loop name type zero list = done none
has_loop name type (suc n) [] = fault
has_loop name type (suc n) (v ∷ list) =
    let rest = has_loop name type n list in
    elim v.var_name [
      | none ↦ fault
      | some text ↦
          if text_eq name text && (type == 0 || type == v.var_type)
          then done (some v.var_type)
          else rest
    ]

-- the name before the first blank and the number behind it; without a blank both are the whole text
unfoldable pub split_name : Text → Text × Text
split_name parameters = elim (split_first b' ' parameters) [
  | none ↦ (parameters, parameters)
  | some (name, rest) ↦ (name, rest)
]

abbrev pub listed_of : Option (List ScriptVariable) → List ScriptVariable
listed_of none = []
listed_of (some list) = list

unfoldable pub get_has_local_variable : GameObject → Text → Outcome Listed
unfolding get_var_table split_name has_loop
get_has_local_variable object parameters = do
  table ← get_var_table object
  found ←
      has_loop (split_name parameters).0 (bits32 (atoi (split_name parameters).1)) table.vt_len
        (listed_of table.vt_list)
  elim found [ none ↦ done (codes "0", 1) | some type ↦ done (print_int (signed32 type), 1) ]

unfoldable pub get_local_variable_by_position : GameObject → ℤ → Outcome Listed
unfolding get_local_var_by_position
get_local_variable_by_position object index = do
  found ← get_local_var_by_position object index
  elim found [ none ↦ done ([], 0) | some v ↦ done (variable_text v, 1) ]

unfoldable pub get_first_local_variable :
    LocalVariables → GameObject → Outcome (LocalVariables × Listed)
unfolding get_local_var_by_position
get_first_local_variable s object = do
  found ← get_local_var_by_position object (pos 0)
  elim found [
    | none ↦ done (
      record { get_first_next_var_index = negsuc 0; get_first_next_var_obj = object.obj_id },
      ([], 0),
    )
    | some v ↦ done (
      record { get_first_next_var_index = pos 0; get_first_next_var_obj = object.obj_id },
      (variable_text v, 1),
    )
  ]

-- the step of a cursor that stands at `i`
unfoldable pub step_from : LocalVariables → GameObject → ℕ → Outcome (LocalVariables × Listed)
unfolding get_local_var_by_position
step_from s object i =
    if object.obj_id == s.get_first_next_var_obj
    then (do
      found ← get_local_var_by_position object (pos (i + 1))
      elim found [
        | none ↦ done (record s { get_first_next_var_index = negsuc 0 }, ([], 0))
        | some v ↦ done (record s { get_first_next_var_index = pos (i + 1) }, (variable_text v, 1))
      ])
    else done (s, ([], 0))

unfoldable pub get_next_local_variable :
    LocalVariables → GameObject → Outcome (LocalVariables × Listed)
unfolding step_from
get_next_local_variable s object = elim s.get_first_next_var_index [
  | negsuc n ↦ done (s, ([], 0))
  | pos i ↦ step_from s object i
]

-- a line of the log: the type and the name, with the value as it is printed
pub data VariableLine : Type 0 where
  int_line float_line object_line : Text → Option Text → ℕ → VariableLine
  string_line : Text → Option Text → Option Text → VariableLine
  location_line : Text → Option Text → ℕ × ℕ × ℕ → VariableLine

-- What a value points to, if it is a string or a location, is an argument.
module _ (string_at : ℕ → Outcome (Option Text)) (vector_at : ℕ → Outcome (ℕ × ℕ × ℕ)) where
  unfoldable pub print_variable : ScriptVariable → Outcome (List VariableLine)
  unfolding get_script_var_type
  print_variable v =
      let type = get_script_var_type v.var_type in
      if v.var_type == 1
      then done (int_line type v.var_name v.var_value ∷ [])
      else if v.var_type == 2
      then done (float_line type v.var_name v.var_value ∷ [])
      else if v.var_type == 3
      then (do text ← string_at v.var_value; done (string_line type v.var_name text ∷ []))
      else if v.var_type == 4
      then done (object_line type v.var_name v.var_value ∷ [])
      else if v.var_type == 5
      then (do p ← vector_at v.var_value; done (location_line type v.var_name p ∷ []))
      else done []

  unfoldable pub print_loop : ℕ → List ScriptVariable → Outcome (List VariableLine)
  unfolding print_variable
  print_loop zero list = done []
  print_loop (suc n) [] = fault
  print_loop (suc n) (v ∷ list) = do
    line ← print_variable v
    lines ← print_loop n list
    done (line ++ lines)

  unfoldable pub print_local_vars : GameObject → Outcome (List VariableLine × ℕ)
  unfolding print_loop get_var_table
  print_local_vars object = do
    table ← get_var_table object
    lines ← print_loop table.vt_len (listed_of table.vt_list)
    done (lines, 1)
