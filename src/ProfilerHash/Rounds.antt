-- ===== src/ProfilerHash/Rounds.antt =====
-- The loop of the profiler's `hash` over blocks of twelve bytes.
use nwnx2_windows.Prelude.{
  ℕ, zero, suc, ◌+◌, ◌-◌, ◌%◌, ◌≤◌, ◌≡◌, refl, ap, ◌∙◌, false, inl, inr, [], ◌∷◌, Text, ltb, length,
  drop, Bool-cases, arith,
}
use nwnx2_windows.ProfilerHash.{Words, hash_round, hash_rounds}

length-drop : (n : ℕ) (k : Text) → length (drop n k) ≡ length k - n
length-drop zero k = omega arith
length-drop (suc n) [] = omega arith
length-drop (suc n) (c ∷ k) = omega (arith, length-drop n k)

drop-drop : (n m : ℕ) (k : Text) → drop m (drop n k) ≡ drop (n + m) k
drop-drop zero m k = let e : m ≡ 0 + m = omega arith in ap (λ x. drop x k) e
drop-drop (suc n) zero [] = let e : suc n + zero ≡ suc n = omega arith in rw e refl
drop-drop (suc n) (suc m) [] = let e : suc n + suc m ≡ suc (n + suc m) = omega arith in rw e refl
drop-drop (suc n) m (c ∷ k) =
    let e : suc n + m ≡ suc (n + m) = omega arith in rw e (drop-drop n m k)

at_least : (k : Text) → ltb (length k) 12 ≡ false → 12 ≤ length k
at_least k h = ground arith

together :
    (k : Text)
    → ltb (length k) 12 ≡ false
    → length (drop 12 k) ≡ length k - 12
    → 12 + (length (drop 12 k) - length (drop 12 k) % 12) ≡ length k - length k % 12
together k h l = omega (arith, at_least k h)

-- With as much fuel as the key has bytes, the loop ends as the code's does: it leaves less than
-- twelve bytes, the remainder of the length by twelve, and these are the end of the key.
pub hash_rounds-left :
    (n : ℕ) (k : Text) (w : Words)
    → length k ≤ n
    → (length (hash_rounds n k w).1 ≡ length k % 12)
      × ((hash_rounds n k w).1 ≡ drop (length k - length k % 12) k)
unfolding hash_rounds
hash_rounds-left zero [] w h = (omega arith, refl)
hash_rounds-left zero (c ∷ k) w h = absurd (omega arith)
hash_rounds-left (suc n) k w h = elim (Bool-cases (ltb (length k) 12)) [
  | inl short ↦
      let e : length k - length k % 12 ≡ 0 = ground arith in rw (short, e) (ground arith, refl)
  | inr long ↦
      let l = length-drop 12 k in
      let (a, b) = hash_rounds-left n (drop 12 k) (hash_round k w) (ground arith) in
      rw long (
        omega (arith, a, l, at_least k long),
        b ∙ drop-drop 12 _ k ∙ ap (λ m. drop m k) (together k long l),
      )
]
