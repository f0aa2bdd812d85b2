-- ===== src/Objects/Regenerating.antt =====
-- NWNX_Functions/CNssObject.cpp, GetRegeneration: the sum that its loop finds.
use nwnx2_windows.Prelude.{
  ℕ, ◌+◌, ◌%◌, ◌^◌, ◌<◌, ◌≤◌, ◌≡◌, refl, ap, ◌∙◌, false, some, List, [], ◌∷◌, done, ◌&&◌, arith,
  ltb, ◌==◌, if◌then◌else◌, length, get_or, Bool-cases, inl, inr, at_index-get_or, Text, ℤ, pos,
  print_int, signed32,
}
use nwnx2_windows.Params.{int_target, extract_p1}
use nwnx2_windows.Objects.{
  GameEffect, ScriptObject, is_asked, regenerated, regeneration_loop, get_regeneration,
}

-- No effect of an earlier type than `n`.
abbrev pub AtLeast : ℕ → List GameEffect → Type 0
AtLeast n [] = Unit
AtLeast n (effect ∷ effects) = (n ≤ effect.eff_type) × AtLeast n effects

-- The engine keeps the effects in the order of their types.
abbrev pub Ascending : List GameEffect → Type 0
Ascending [] = Unit
Ascending (effect ∷ effects) = AtLeast effect.eff_type effects × Ascending effects

-- Every effect has an integer.
abbrev pub Measured : List GameEffect → Type 0
Measured [] = Unit
Measured (effect ∷ effects) = (0 < length effect.eff_integers) × Measured effects

-- The regeneration of the effects of the kind, all of them.
abbrev pub total : ℤ → List GameEffect → ℕ
total kind [] = 0
total kind (effect ∷ effects) =
    if effect.eff_type == 7 && is_asked kind (effect.eff_dursubtype % 8)
    then get_or effect.eff_integers 0 0 + total kind effects
    else total kind effects

total-AtLeast :
    (kind : ℤ) (n : ℕ) (effects : List GameEffect)
    → 7 < n
    → AtLeast n effects
    → total kind effects ≡ 0
total-AtLeast kind n [] h later = refl
total-AtLeast kind n (effect ∷ effects) h (first, later) =
    let other : (effect.eff_type == 7) ≡ false = ground arith in
    rw other (total-AtLeast kind n effects h later)

regeneration_loop-Ascending :
    (kind : ℤ) (regen : ℕ) (effects : List GameEffect)
    → regen < 2 ^ 32
    → Ascending effects
    → Measured effects
    → regeneration_loop kind regen effects ≡ done ((regen + total kind effects) % 2 ^ 32)
unfolding regeneration_loop regenerated
regeneration_loop-Ascending kind regen [] h order numbers = ap done (omega arith)
regeneration_loop-Ascending kind regen (effect ∷ effects) h (later, order) (number, numbers) =
    elim (Bool-cases (ltb 7 effect.eff_type)) [
      | inl behind ↦
          let other : (effect.eff_type == 7) ≡ false = ground arith in
          let none_left = total-AtLeast kind effect.eff_type effects (ground arith) later in
          rw (behind, regeneration_loop) (rw other (rw none_left (ap done (omega arith))))
      | inr within ↦
          elim (Bool-cases (effect.eff_type == 7 && is_asked kind (effect.eff_dursubtype % 8))) [
            | inl asked ↦
                let amount = get_or effect.eff_integers 0 0 in
                rw (within, regeneration_loop)
                  (rw asked (
                    rw (at_index-get_or effect.eff_integers 0 0 number) (
                      regeneration_loop-Ascending kind ((regen + amount) % 2 ^ 32) effects
                        (omega arith) order numbers
                      ∙ ap done (omega arith))))
            | inr skipped ↦
                rw (within, regeneration_loop)
                  (rw skipped (regeneration_loop-Ascending kind regen effects h order numbers))
          ]
    ]

-- On an object whose effects stand in the order of their types, each with an integer,
-- GetRegeneration prints the 32-bit sum of all regeneration effects whose duration is of the kind
-- that the parameters ask for.
pub get_regeneration-Ascending :
    (object : ScriptObject) (parameters : Text)
    → Ascending object.obj_effects
    → Measured object.obj_effects
    → get_regeneration object parameters
      ≡ done (
        some (
            print_int (
              signed32
                (total (extract_p1 parameters int_target (pos 0)) object.obj_effects % 2 ^ 32))),
        1,
      )
unfolding get_regeneration
get_regeneration-Ascending object parameters order numbers =
    let kind = extract_p1 parameters int_target (pos 0) in
    let run : regeneration_loop kind 0 object.obj_effects
        ≡ done (total kind object.obj_effects % 2 ^ 32) =
      regeneration_loop-Ascending kind 0 object.obj_effects (omega arith) order numbers
      ∙ ap done (omega arith) in
    rw run refl
