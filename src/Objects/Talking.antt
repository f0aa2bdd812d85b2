-- ===== src/Objects/Talking.antt =====
-- NWNX_Functions/CNssObject.cpp: what SetConversation stores and GetConversation reads.
use nwnx2_windows.Prelude.{
  ℕ, zero, suc, ◌-◌, ◌≤◌, ◌≡◌, refl, ap, ◌∙◌, true, false, some, [], ◌∷◌, ◌++◌, arith, ltb, ◌==◌,
  length, take, replicate, Bool-cases, inl, inr, Text, Lacks,
}
use nwnx2_windows.Objects.{
  ScriptObject, talks, at_most_16, until_zero, set_conversation, get_conversation,
}

until_zero-replicate : (n m : ℕ) → until_zero (take n (replicate m 0)) ≡ []
unfolding until_zero
until_zero-replicate zero m = refl
until_zero-replicate (suc n) zero = refl
until_zero-replicate (suc n) (suc m) = refl

until_zero-take :
    (n m : ℕ) (s : Text) → Lacks 0 s → until_zero (take n (s ++ replicate m 0)) ≡ take n s
unfolding until_zero
until_zero-take zero m s h = refl
until_zero-take (suc n) m [] h = until_zero-replicate (suc n) m
until_zero-take (suc n) m (c ∷ s) h =
    let other : (c == 0) ≡ false = ground arith in
    rw other (ap (λ t. c ∷ t) (until_zero-take n m s h.1))

Lacks-take : (d n : ℕ) (s : Text) → Lacks d s → Lacks d (take n s)
Lacks-take d zero s h = tt
Lacks-take d (suc n) [] h = tt
Lacks-take d (suc n) (c ∷ s) h = (h.0, Lacks-take d n s h.1)

take-take : (k n : ℕ) (s : Text) → k ≤ n → take k (take n s) ≡ take k s
take-take zero n s h = refl
take-take (suc k) zero s h = absurd (omega arith)
take-take (suc k) (suc n) [] h = refl
take-take (suc k) (suc n) (c ∷ s) h = ap (λ t. c ∷ t) (take-take k n s (omega arith))

take-length : (s : Text) → take (length s) s ≡ s
take-length [] = refl
take-length (c ∷ s) = ap (λ t. c ∷ t) (take-length s)

take-at_most_16 : (k : ℕ) (s : Text) → k ≤ 16 → take k (take (at_most_16 (length s)) s) ≡ take k s
take-at_most_16 k s h = elim (Bool-cases (ltb 16 (length s))) [
  | inl long ↦ rw long (take-take k 16 s h)
  | inr short ↦ rw short (ap (take k) (take-length s))
]

-- What SetConversation stores in a creature or placeable, a C string, is what GetConversation gives
-- back, cut to 16 bytes and to the length of the parameters into which it is read.
pub get_conversation-set_conversation :
    (object : ScriptObject) (s parameters : Text)
    → talks object.obj_type ≡ true
    → Lacks 0 s
    → get_conversation (set_conversation object s).0 parameters
      ≡ (some (take (at_most_16 (length parameters)) s), 1)
unfolding get_conversation set_conversation
get_conversation-set_conversation object s parameters h k =
    let n = at_most_16 (length s) in
    let len = at_most_16 (length parameters) in
    rw h (
      rw h (
        ap (λ t. (some t, 1))
          (until_zero-take len (16 - n) (take n s) (Lacks-take 0 n s k)
            ∙ take-at_most_16 len s (ground arith))))
