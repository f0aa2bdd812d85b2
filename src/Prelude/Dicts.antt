-- ===== src/Prelude/Dicts.antt =====
-- `std::map` and `hash_map` with texts as keys: association lists, each key at most once.
use mathlib.Core.Bool.{true}
use mathlib.Core.List.{List, [], ◌∷◌}
use mathlib.Core.Logic.{◌↔◌}
use mathlib.Core.Option.{Option, none, some}
use mathlib.Core.Path.{◌≡◌}
use native.Mathlib.Omega.{arith}
use nwnx2_windows.Prelude.Tests.{if◌then◌else◌}
use nwnx2_windows.Prelude.Strings.{Text, text_eq, text_eq_refl, eq_of_text_eq}

abbrev pub Dict {ℓ} : Type ℓ → Type ℓ
Dict V = List (Text × V)

pub text_eq_iff : (s t : Text) → (text_eq s t ≡ true) ↔ (s ≡ t)
text_eq_iff s t = (eq_of_text_eq s t, λ e. rw e (text_eq_refl t))

module _ {ℓ} {V : Type ℓ} where
  unfoldable pub search_key : Text → Dict V → Option V
  search_key k [] = none
  search_key k ((j, v) ∷ m) = if text_eq j k then some v else search_key k m

  -- `m[k] = v`
  unfoldable pub put : Text → V → Dict V → Dict V
  put k v [] = (k, v) ∷ []
  put k v ((j, w) ∷ m) = let rest = put k v m in if text_eq j k then (k, v) ∷ m else (j, w) ∷ rest

  unfoldable pub erase : Text → Dict V → Dict V
  erase k [] = []
  erase k ((j, w) ∷ m) = let rest = erase k m in if text_eq j k then rest else (j, w) ∷ rest

  pub search_key-put :
      (k j : Text) (v : V) (m : Dict V)
      → search_key j (put k v m) ≡ (if text_eq k j then some v else search_key j m)
  unfolding search_key put
  search_key-put k j v [] = ground (arith, text_eq_iff k j)
  search_key-put k j v ((i, w) ∷ m) =
      ground (arith, search_key-put k j v m, text_eq_iff i k, text_eq_iff i j, text_eq_iff k j)

  pub search_key-erase :
      (k j : Text) (m : Dict V)
      → search_key j (erase k m) ≡ (if text_eq k j then none else search_key j m)
  unfolding search_key erase
  search_key-erase k j [] = ground arith
  search_key-erase k j ((i, w) ∷ m) =
      ground (arith, search_key-erase k j m, text_eq_iff i k, text_eq_iff i j, text_eq_iff k j)
