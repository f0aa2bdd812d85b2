-- ===== src/Prelude/Strings.antt =====
-- C strings as lists of bytes, without the terminator.
use Prim.Native.Char.{code}
use Prim.Native.Nat.{ℕ}
use Prim.Native.String.{String}
use mathlib.Core.Bool.{Bool, true, false, ◌&&◌}
use mathlib.Core.List.{List, [], ◌∷◌, ◌++◌}
use mathlib.Core.Logic.{◌≢◌}
use mathlib.Core.Option.{Option, none, some}
use mathlib.Core.Path.{◌≡◌, refl}
use native.Mathlib.Omega.{arith}
use nwnx2_windows.Prelude.Tests.{◌==◌, if◌then◌else◌}

abbrev pub Text : Type 0
Text = List ℕ

-- The bytes of an ASCII literal.
abbrev pub codes : String → Text
codes String.[] = []
codes (String.◌∷◌ c s) = code c ∷ codes s

-- `strcmp(s, t) == 0`
abbrev pub text_eq : Text → Text → Bool
text_eq [] [] = true
text_eq [] (d ∷ t) = false
text_eq (c ∷ s) [] = false
text_eq (c ∷ s) (d ∷ t) = c == d && text_eq s t

-- `strncmp(t, p, strlen(p)) == 0`
abbrev pub starts_with : Text → Text → Bool
starts_with [] t = true
starts_with (c ∷ p) [] = false
starts_with (c ∷ p) (d ∷ t) = c == d && starts_with p t

-- `strchr`: the text before and behind the first `d`.
unfoldable pub split_first : ℕ → Text → Option (Text × Text)
split_first d [] = none
split_first d (c ∷ text) =
    if c == d
    then some ([], text)
    else elim (split_first d text) [ none ↦ none | some (before, after) ↦ some (c ∷ before, after) ]

-- no `d` in the text
abbrev pub Lacks : ℕ → Text → Type 0
Lacks d [] = Unit
Lacks d (c ∷ text) = (c ≢ d) × Lacks d text

pub split_first-append :
    (d : ℕ) (s t : Text) → Lacks d s → split_first d (s ++ (d ∷ t)) ≡ some (s, t)
unfolding split_first
split_first-append d [] t h = ground arith
split_first-append d (c ∷ s) t h = rw (split_first-append d s t h.1) (ground arith)

pub split_first-Lacks : (d : ℕ) (s : Text) → Lacks d s → split_first d s ≡ none
unfolding split_first
split_first-Lacks d [] h = refl
split_first-Lacks d (c ∷ s) h = rw (split_first-Lacks d s h.1) (ground arith)

-- `strrchr`: the text before and behind the last `d`.
unfoldable pub split_last : ℕ → Text → Option (Text × Text)
split_last d [] = none
split_last d (c ∷ text) = elim (split_last d text) [
  | some (before, after) ↦ some (c ∷ before, after)
  | none ↦ if c == d then some ([], text) else none
]

pub split_last-Lacks : (d : ℕ) (t : Text) → Lacks d t → split_last d t ≡ none
unfolding split_last
split_last-Lacks d [] h = refl
split_last-Lacks d (c ∷ t) h = rw (split_last-Lacks d t h.1) (ground arith)

pub split_last-append : (d : ℕ) (s t : Text) → Lacks d t → split_last d (s ++ (d ∷ t)) ≡ some (s, t)
unfolding split_last
split_last-append d [] t h = rw (split_last-Lacks d t h) (ground arith)
split_last-append d (c ∷ s) t h = rw (split_last-append d s t h) refl

pub text_eq_refl : (s : Text) → text_eq s s ≡ true
text_eq_refl [] = refl
text_eq_refl (c ∷ s) = ground (arith, text_eq_refl s)

pub eq_of_text_eq : (s t : Text) → text_eq s t ≡ true → s ≡ t
eq_of_text_eq [] [] h = refl
eq_of_text_eq [] (d ∷ t) h = cc
eq_of_text_eq (c ∷ s) [] h = cc
eq_of_text_eq (c ∷ s) (d ∷ t) h = ground (arith, eq_of_text_eq s t)
