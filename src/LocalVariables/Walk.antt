-- ===== src/LocalVariables/Walk.antt =====
-- GetFirstLocalVariable and GetNextLocalVariable of NWNX_Functions/CNssLocalVariables.cpp as a cursor.
use nwnx2_windows.Prelude.{
  ℕ, zero, suc, ◌+◌, ◌≡◌, refl, ap, true, false, none, some, List, [], ◌∷◌, Outcome, done, ◌>>=◌,
  ◌⊎◌, inl, inr, arith, ltb, ◌==◌, ==_iff, if◌then◌else◌, Bool-cases, length, get_elem?, drop, pos,
  negsuc,
}
use nwnx2_windows.LocalVariables.{
  ScriptVariable, VarTable, GameObject, LocalVariables, Listed, get_var_table, by_position,
  get_local_var_by_position, variable_text, get_first_local_variable, step_from,
  get_next_local_variable,
}

-- The requests for the next variable of these objects, one after another, with their answers.
abbrev pub run_next : LocalVariables → List GameObject → Outcome (List Listed)
run_next s [] = done []
run_next s (object ∷ objects) = do
  (s', answer) ← get_next_local_variable s object
  answers ← run_next s' objects
  done (answer ∷ answers)

-- The first variable of an object is asked for, and then the next one of these objects.
abbrev pub run_first : LocalVariables → GameObject → List GameObject → Outcome (List Listed)
run_first s object objects = do
  (s', answer) ← get_first_local_variable s object
  answers ← run_next s' objects
  done (answer ∷ answers)

-- The first of the variables that are left, and those behind it.
abbrev pub taken : List ScriptVariable → Listed
taken [] = ([], 0)
taken (v ∷ vs) = (variable_text v, 1)

-- What a cursor answers that hands out the variables left to one object and nothing to others.
abbrev pub cursor : ℕ → List ScriptVariable → List GameObject → List Listed
cursor id vs [] = []
cursor id vs (object ∷ objects) =
    if object.obj_id == id
    then taken vs ∷ cursor id (drop 1 vs) objects
    else ([], 0) ∷ cursor id vs objects

-- An object's id tells its table.
abbrev pub OneTable : ℕ → VarTable → List GameObject → Type 0
OneTable id table [] = Unit
OneTable id table (object ∷ objects) =
    (object.obj_id ≡ id → get_var_table object ≡ done table) × OneTable id table objects

-- Reading at an index, and what is left there.
elem-drop :
    (i : ℕ) (vs : List ScriptVariable)
    → ((drop i vs ≡ []) × (ltb i (length vs) ≡ false))
      ⊎ ((v : ScriptVariable) × (drop i vs ≡ v ∷ drop (i + 1) vs)
          × (get_elem? vs i ≡ some v)
          × (ltb i (length vs) ≡ true))
elem-drop zero [] = inl (refl, refl)
elem-drop zero (v ∷ vs) = inr (v, refl, refl, ground arith)
elem-drop (suc i) [] = inl (refl, ground arith)
elem-drop (suc i) (v ∷ vs) = elim (elem-drop i vs) [
  | inl (nothing, above) ↦ inl (nothing, ground arith)
  | inr (w, left, read, below) ↦ inr (
    w,
    rw left (ap (λ k. w ∷ drop k (v ∷ vs)) {x = suc (i + 1)} (omega arith)),
    read,
    ground arith,
  )
]

-- A cursor that has ended stays so.
run_next_ended :
    (n o id : ℕ) (objects : List GameObject)
    → run_next (record { get_first_next_var_index = negsuc n; get_first_next_var_obj = o }) objects
      ≡ done (cursor id [] objects)
unfolding get_next_local_variable
run_next_ended n o id [] = refl
run_next_ended n o id (object ∷ objects) = elim (Bool-cases (object.obj_id == id)) [
  | inl same ↦ rw (run_next_ended n o id objects) (rw same refl)
  | inr other ↦ rw (run_next_ended n o id objects) (rw other refl)
]

module _ (table : VarTable) (vars : List ScriptVariable) (is : table.vt_list ≡ some vars)
    (count : table.vt_len ≡ length vars) where
  by_position-none : (i : ℕ) → ltb i (length vars) ≡ false → by_position table i ≡ done none
  unfolding by_position
  by_position-none i above = rw (is, by_position) (rw count (rw above refl))

  by_position-some :
      (i : ℕ) (v : ScriptVariable)
      → ltb i (length vars) ≡ true
      → get_elem? vars i ≡ some v
      → by_position table i ≡ done (some v)
  unfolding by_position
  by_position-some i v below read =
      rw (is, by_position) (rw count (rw below (rw (read, by_position) refl)))

  run_next-cursor :
      (i id : ℕ) (objects : List GameObject)
      → OneTable id table objects
      → run_next (record { get_first_next_var_index = pos i; get_first_next_var_obj = id }) objects
        ≡ done (cursor id (drop (i + 1) vars) objects)
  unfolding get_next_local_variable step_from get_local_var_by_position
  run_next-cursor i id [] one = refl
  run_next-cursor i id (object ∷ objects) (its, one) = elim (Bool-cases (object.obj_id == id)) [
    | inr other ↦ rw other (rw (run_next-cursor i id objects one) refl)
    | inl same ↦
        let found = its ((==_iff object.obj_id id).0 same) in
        elim (elem-drop (i + 1) vars) [
          | inl (nothing, above) ↦ rw same (
              rw (found, get_local_var_by_position)
                (rw (by_position-none (i + 1) above)
                  (rw nothing (rw (run_next_ended 0 id id objects) refl))))
          | inr (v, left, read, below) ↦ rw same (
              rw (found, get_local_var_by_position)
                (rw (by_position-some (i + 1) v below read)
                  (rw left (rw (run_next-cursor (i + 1) id objects one) refl))))
        ]
  ]

  -- The answers to GetFirstLocalVariable for an object and the GetNextLocalVariable requests for
  -- any objects after it are those of a cursor over the object's variables: each request for the
  -- object gets the next variable, the last one included, then nothing; requests for others get
  -- nothing and do not disturb it.
  pub get_first_local_variable-cursor :
      (s : LocalVariables) (object : GameObject) (objects : List GameObject)
      → get_var_table object ≡ done table
      → OneTable object.obj_id table objects
      → run_first s object objects ≡ done (cursor object.obj_id vars (object ∷ objects))
  unfolding get_first_local_variable get_local_var_by_position
  get_first_local_variable-cursor s object objects found one =
      let id = object.obj_id in
      let same : (id == id) ≡ true = ground arith in
      elim (elem-drop 0 vars) [
        | inl (nothing, above) ↦
            rw (found, get_local_var_by_position)
              (rw (by_position-none 0 above)
                (rw same (rw nothing (rw (run_next_ended 0 id id objects) refl))))
        | inr (v, left, read, below) ↦
            rw (found, get_local_var_by_position)
              (rw (by_position-some 0 v below read)
                (rw same (rw (run_next-cursor 0 id objects one) (rw left refl))))
      ]
