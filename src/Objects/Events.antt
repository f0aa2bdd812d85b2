-- ===== src/Objects/Events.antt =====
-- NWNX_Functions/CNssObject.cpp: what SetEvent hands to the engine, and what GetEvent and GetBodyBag
-- answer.
use mathlib.Core.List.{append-nil}
use nwnx2_windows.Prelude.{
  ℕ, ◌≡◌, refl, sym, ap, ◌∙◌, Bool, true, false, Option, some, [], ◌∷◌, ◌++◌, done, arith, leb,
  if◌then◌else◌, take, Bool-cases, inl, inr, Text, ℤ, pos, negsuc, print_int, clamp, atoi, codes,
  read_int-printed, EndsNumber, split_first, split_first-append,
}
use nwnx2_windows.Params.ReadBack.{minus_one, print_int-Lacks}
use nwnx2_windows.Objects.{
  ScriptObject, last_event, event_count, event_text, event_script_info, set_event, get_event,
}

-- A number from 0 to `most`.
abbrev pub is_event : ℕ → ℤ → Bool
is_event most (pos n) = leb n most
is_event most (negsuc n) = false

atoi-print_int : (z : ℤ) (s : Text) → clamp z ≡ z → EndsNumber s → atoi (print_int z ++ s) ≡ z
unfolding atoi
atoi-print_int z s fits end = ap clamp (read_int-printed z s end) ∙ fits

atoi-alone : (z : ℤ) → clamp z ≡ z → atoi (print_int z) ≡ z
atoi-alone z fits = ap atoi (sym (append-nil (print_int z))) ∙ atoi-print_int z [] fits tt

split_written :
    (z : ℤ) (s : Text) → split_first b' ' (print_int z ++ (b' ' ∷ s)) ≡ some (print_int z, s)
split_written z s =
    split_first-append b' ' (print_int z) s
      (print_int-Lacks b' ' z (refl, λ e. absurd (omega arith)))

event_script_info-written :
    (strip : Text → Option Text) (most : ℕ) (z : ℤ) (c : ℕ) (script name : Text)
    → clamp z ≡ z
    → strip (c ∷ script) ≡ some name
    → event_script_info strip most (print_int z ++ (b' ' ∷ c ∷ script))
      ≡ done (z, if is_event most z then take 16 name else [])
unfolding event_script_info
event_script_info-written strip most (negsuc n) c script name fits text =
    rw (split_written (negsuc n) (c ∷ script), event_script_info)
      (rw (atoi-alone (negsuc n) fits)
        (rw (atoi-print_int (negsuc n) (b' ' ∷ c ∷ script) fits refl) refl))
event_script_info-written strip most (pos n) c script name fits text =
    rw (split_written (pos n) (c ∷ script), event_script_info)
      (rw (atoi-alone (pos n) fits) (elim (Bool-cases (leb n most)) [
        | inl event ↦ rw event (rw text refl)
        | inr other ↦ rw other (rw (atoi-print_int (pos n) (b' ' ∷ c ∷ script) fits refl) refl)
      ]))

-- For an object that has events and that the server knows, SetEvent calls SetScriptName with any
-- 32-bit number that is written before a blank and a name, also one that is no event of the object:
-- for an event with the stripped name cut to 16 bytes, for any other number with the empty name.
pub set_event-written :
    (strip : Text → Option Text) (object : ScriptObject) (most : ℕ) (z : ℤ) (c : ℕ)
    (script name : Text)
    → last_event object.obj_type ≡ some most
    → clamp z ≡ z
    → strip (c ∷ script) ≡ some name
    → set_event strip true object (print_int z ++ (b' ' ∷ c ∷ script))
      ≡ done (some (z, if is_event most z then take 16 name else []), 1)
unfolding set_event
set_event-written strip object most z c script name events fits text =
    rw (events, set_event)
      (rw (event_script_info-written strip most z c script name fits text) refl)

-- On an object that has events, GetEvent answers `-1` and reports success, whatever event the
-- parameters name and whatever scripts the object has.
get_event-minus_one :
    (cast : Bool) (object : ScriptObject) (count : ℕ) (parameters : Text)
    → event_count object.obj_type ≡ some count
    → get_event cast object parameters ≡ done (some (codes "-1"), 1)
unfolding get_event event_text
get_event-minus_one cast object count parameters events = rw (events, get_event) (rw minus_one refl)
