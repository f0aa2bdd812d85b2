-- ===== src/Prelude/Indexing.antt =====
-- Arrays of C: an element behind the end is a fault.
use Prim.Native.Nat.{ℕ, zero, suc, ◌<◌}
use mathlib.Core.List.{List, [], ◌∷◌}
use mathlib.Core.Option.{none, some}
use mathlib.Core.Path.{◌≡◌, refl}
use native.Mathlib.Omega.{arith}
use nwnx2_windows.Prelude.Lists.{length, get_elem?, get_or, set}
use nwnx2_windows.Prelude.Results.{Outcome, done, fault, ◌>>=◌}

-- an element of an array; behind it is a fault
unfoldable pub at_index {ℓ} : {A : Type ℓ} → List A → ℕ → Outcome A
at_index xs i = elim (get_elem? xs i) [ none ↦ fault | some x ↦ done x ]

unfoldable pub update_at {ℓ} : {A : Type ℓ} → List A → ℕ → (A → Outcome A) → Outcome (List A)
unfolding at_index
update_at xs i f = do x ← at_index xs i; x' ← f x; done (set xs i x')

pub at_index-get_or {ℓ} :
    {A : Type ℓ} (xs : List A) (i : ℕ) (d : A)
    → i < length xs
    → at_index xs i ≡ done (get_or xs i d)
unfolding at_index
at_index-get_or [] i d h = absurd (omega arith)
at_index-get_or (x ∷ xs) zero d h = refl
at_index-get_or (x ∷ xs) (suc i) d h = at_index-get_or xs i d (omega arith)

module _ {ℓ} {A : Type ℓ} where
  pub at_index-set :
      (xs : List A) (i : ℕ) (x : A) → i < length xs → at_index (set xs i x) i ≡ done x
  unfolding at_index
  at_index-set [] i x h = absurd (omega arith)
  at_index-set (y ∷ xs) zero x h = refl
  at_index-set (y ∷ xs) (suc i) x h = at_index-set xs i x (omega arith)

  pub at_index_lem :
      (xs : List A) (i : ℕ) {x : A} → get_elem? xs i ≡ some x → at_index xs i ≡ done x
  unfolding at_index
  at_index_lem xs i h = rw (h, at_index) refl

  pub update_at_lem :
      (xs : List A) (i : ℕ) (f : A → Outcome A) {x : A}
      → get_elem? xs i ≡ some x
      → update_at xs i f ≡ (f x >>= λ x'. done (set xs i x'))
  unfolding update_at
  update_at_lem xs i f h = rw (at_index_lem xs i h) refl
