-- ===== src/LocalVariables/Named.antt =====
-- GetHasLocalVariable of NWNX_Functions/CNssLocalVariables.cpp: which variable it finds.
use nwnx2_windows.Prelude.{
  ℕ, zero, suc, ◌<◌, ◌^◌, ◌≡◌, refl, sym, ap, ◌∙◌, true, false, Option, none, some, List, [], ◌∷◌,
  ◌++◌, done, ◌⊎◌, inl, inr, ◌&&◌, ◌||◌, arith, ltb, ◌==◌, ==_iff, Bool-cases, length, get_elem?,
  Text, codes, pos, print_int, signed32, bits32, atoi, clamp, read_int-printed, EndsNumber, Lacks,
  split_first-append, text_eq, text_eq_iff,
}
use nwnx2_windows.LocalVariables.{
  ScriptVariable, VarTable, GameObject, Listed, get_var_table, has_loop, split_name, listed_of,
  get_has_local_variable,
}

-- The variable has the name, and the type unless this is 0.
abbrev pub Matches : Text → ℕ → ScriptVariable → Type 0
Matches name type v = (v.var_name ≡ some name) × ((type ≡ 0) ⊎ (type ≡ v.var_type))

-- The first variable that matches, or none.
pub data FirstNamed (name : Text) (type : ℕ) (vars : List ScriptVariable) (o : Option ℕ)
    : Type 0 where
  nowhere :
      o ≡ none
      → ((i : ℕ) (v : ScriptVariable) → get_elem? vars i ≡ some v → ¬ Matches name type v)
      → FirstNamed name type vars o
  first_at :
      (i : ℕ) (v : ScriptVariable)
      → o ≡ some v.var_type
      → get_elem? vars i ≡ some v
      → Matches name type v
      → ((j : ℕ) (w : ScriptVariable) → j < i → get_elem? vars j ≡ some w → ¬ Matches name type w)
      → FirstNamed name type vars o

-- Every variable has a text for its name.
abbrev pub AllNamed : List ScriptVariable → Type 0
AllNamed [] = Unit
AllNamed (v ∷ vars) = ((text : Text) × (v.var_name ≡ some text)) × AllNamed vars

-- The test of the loop decides the match.
test-Matches :
    (name text : Text) (type : ℕ) (v : ScriptVariable)
    → v.var_name ≡ some text
    → (text_eq name text && (type == 0 || type == v.var_type)) ≡ true
    → Matches name type v
test-Matches name text type v named test =
    let equal : name ≡ text = ground (arith, text_eq_iff name text) in
    (
      named ∙ ap (λ k. some k) (sym equal),
      elim (Bool-cases (type == 0)) [
        | inl any ↦ inl ((==_iff type 0).0 any)
        | inr kind ↦ inr (ground arith)
      ],
    )

not-Matches :
    (name text : Text) (type : ℕ) (v : ScriptVariable)
    → v.var_name ≡ some text
    → (text_eq name text && (type == 0 || type == v.var_type)) ≡ false
    → ¬ Matches name type v
not-Matches name text type v named test (same, kind) =
    let equal : name ≡ text = cc in
    let yes_text : text_eq name text ≡ true = (text_eq_iff name text).1 equal in
    elim kind [ inl any ↦ ground arith | inr e ↦ ground arith ]

-- One more variable in front, which does not match.
FirstNamed-skip :
    {name : Text} {type : ℕ} {vars : List ScriptVariable} {o : Option ℕ} (v : ScriptVariable)
    → ¬ Matches name type v
    → FirstNamed name type vars o
    → FirstNamed name type (v ∷ vars) o
FirstNamed-skip {name} {type} {vars} v fails (nowhere e none_of) = nowhere e go
  where
    go : (i : ℕ) (w : ScriptVariable) → get_elem? (v ∷ vars) i ≡ some w → ¬ Matches name type w
    go zero w read m = let same : w ≡ v = cc in fails (rw same at m)
    go (suc i) w read m = none_of i w read m
FirstNamed-skip {name} {type} {vars} v fails (first_at i w e read m before) =
    first_at (suc i) w e read m go
  where
    go :
        (j : ℕ) (u : ScriptVariable)
        → j < suc i
        → get_elem? (v ∷ vars) j ≡ some u
        → ¬ Matches name type u
    go zero u lt at k = let same : u ≡ v = cc in fails (rw same at k)
    go (suc j) u lt at k = before j u (omega arith) at k

has_loop-FirstNamed :
    (name : Text) (type : ℕ) (vars : List ScriptVariable)
    → AllNamed vars
    → (o : Option ℕ) × (has_loop name type (length vars) vars ≡ done o)
      × FirstNamed name type vars o
unfolding has_loop
has_loop-FirstNamed name type [] all = (none, refl, nowhere refl (λ i v read m. cc))
has_loop-FirstNamed name type (v ∷ vars) ((text, named), all) =
    elim (Bool-cases (text_eq name text && (type == 0 || type == v.var_type))) [
      | inl hit ↦ (
        some v.var_type,
        rw (named, has_loop) (rw hit refl),
        first_at 0 v refl refl (test-Matches name text type v named hit)
            (λ j w lt read m. absurd (omega arith)),
      )
      | inr miss ↦
          let (o, run, found) = has_loop-FirstNamed name type vars all in
          (
            o,
            rw (named, has_loop) (rw miss run),
            FirstNamed-skip v (not-Matches name text type v named miss) found,
          )
    ]

-- The answer for a variable that was found, or not.
abbrev pub answer_of : Option ℕ → Listed
answer_of none = (codes "0", 1)
answer_of (some type) = (print_int (signed32 type), 1)

atoi_printed :
    (n : ℕ) (s : Text) → n < 2 ^ 31 → EndsNumber s → bits32 (atoi (print_int (pos n) ++ s)) ≡ n
unfolding atoi clamp bits32
atoi_printed n s h end =
    let small : ltb n (2 ^ 31) ≡ true = ground arith in
    rw (read_int-printed (pos n) s end) (rw small (omega arith))

-- Asked for a name without blanks and, behind a blank, a type written in decimal, of an object whose
-- variables all have names, GetHasLocalVariable answers the type of the first variable with the name
-- and the type, where type 0 stands for any, and `0` where there is none.
get_has_local_variable-FirstNamed :
    (object : GameObject) (table : VarTable) (name s : Text) (type : ℕ)
    → get_var_table object ≡ done table
    → table.vt_len ≡ length (listed_of table.vt_list)
    → AllNamed (listed_of table.vt_list)
    → Lacks b' ' name
    → type < 2 ^ 31
    → EndsNumber s
    → (o : Option ℕ) × (get_has_local_variable object (name ++ b' ' ∷ (print_int (pos type) ++ s))
        ≡ done (answer_of o))
      × FirstNamed name type (listed_of table.vt_list) o
unfolding get_has_local_variable split_name
get_has_local_variable-FirstNamed object table name s type found count all plain small end =
    let (o, run, first) = has_loop-FirstNamed name type (listed_of table.vt_list) all in
    (
      o,
      rw found (
          rw (split_first-append b' ' name (print_int (pos type) ++ s) plain, split_name)
            (rw (atoi_printed type s small end) (rw count (rw run (answered o))))),
      first,
    )
  where
    answered :
        (o : Option ℕ)
        → (elim o [ none ↦ done (codes "0", 1) | some t ↦ done (print_int (signed32 t), 1) ])
          ≡ done (answer_of o)
    answered none = refl
    answered (some t) = refl
