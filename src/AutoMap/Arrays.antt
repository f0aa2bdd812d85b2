-- ===== src/AutoMap/Arrays.antt =====
-- The arrays of RockLib/nwn_internals/CAutoMap.cpp that grow by one element and lose one.
use mathlib.Core.List.{append-nil, append_assoc}
use nwnx2_windows.Prelude.{
  sym, ◌∙◌, false, ◌==◌, ℕ, zero, suc, ◌+◌, ◌-◌, ◌<◌, ◌≤◌, ◌≡◌, refl, ap, true, none, List, [], ◌∷◌,
  ◌++◌, done, arith, ltb, leb, length, length-append, take, set, replicate,
}
use nwnx2_windows.AutoMap.{Cells, resize, write_at, push, copy_loop, copy_others, copy_areas}

take-all {ℓ} : {A : Type ℓ} (n : ℕ) (xs : List A) → length xs ≡ n → take n xs ≡ xs
take-all zero [] h = refl
take-all (suc n) [] h = refl
take-all zero (x ∷ xs) h = absurd (omega arith)
take-all (suc n) (x ∷ xs) h = ap (λ r. x ∷ r) (take-all n xs (omega arith))

set-append {ℓ} :
    {A : Type ℓ} (n : ℕ) (xs : List A) (a b : A)
    → length xs ≡ n
    → set (xs ++ (a ∷ [])) n b ≡ xs ++ (b ∷ [])
set-append zero [] a b h = refl
set-append (suc n) [] a b h = absurd (omega arith)
set-append zero (x ∷ xs) a b h = absurd (omega arith)
set-append (suc n) (x ∷ xs) a b h = ap (λ r. x ∷ r) (set-append n xs a b (omega arith))

-- The new array after the write of one more element.
pub write_at-take {ℓ} :
    {A : Type ℓ} (n : ℕ) (xs : List A) (d x : A)
    → length xs ≡ n
    → write_at (take n xs ++ replicate (n + 1 - n) d) n x ≡ done (xs ++ (x ∷ []))
unfolding write_at
write_at-take n xs d x h =
    let one : n + 1 - n ≡ suc zero = omega arith in
    let inside : ltb n (length (xs ++ (d ∷ []))) ≡ true =
      ground (arith, length-append xs (d ∷ [])) in
    rw one (rw (take-all n xs h) (rw inside (ap done (set-append n xs d x h))))

pub resize-take :
    (n : ℕ) (cells : Cells)
    → length cells ≡ n
    → resize cells n (n + 1) ≡ done (take n cells ++ replicate (n + 1 - n) none)
unfolding resize
resize-take n cells h =
    let old : leb n (length cells) ≡ true = ground arith in
    let new : leb n (n + 1) ≡ true = ground arith in rw old (rw new refl)

pub copy_areas-take :
    (n : ℕ) (areas : List ℕ)
    → length areas ≡ n
    → copy_areas areas n (n + 1) ≡ done (take n areas ++ replicate (n + 1 - n) 0)
unfolding copy_areas
copy_areas-take n areas h =
    let old : leb n (length areas) ≡ true = ground arith in
    let new : leb n (n + 1) ≡ true = ground arith in rw old (rw new refl)

-- The elements but the one at an index.
unfoldable pub without {ℓ} : {A : Type ℓ} → ℕ → List A → List A
without i [] = []
without zero (x ∷ xs) = xs
without (suc i) (x ∷ xs) = x ∷ without i xs

push-room {ℓ} :
    {A : Type ℓ} (size : ℕ) (out : List A) (x : A)
    → length out < size
    → push size out x ≡ done (out ++ (x ∷ []))
unfolding push
push-room size out x h = let room : ltb (length out) size ≡ true = ground arith in rw room refl

-- Behind the index the loop copies all that is left.
copy_loop-behind {ℓ} :
    {A : Type ℓ} (size index : ℕ) (out : List A) (i : ℕ) (xs : List A)
    → index < i
    → length out + length xs ≤ size
    → copy_loop size index out i (length xs) xs ≡ done (out ++ xs)
unfolding copy_loop
copy_loop-behind size index out i [] h room = ap done (sym (append-nil out))
copy_loop-behind size index out i (x ∷ xs) h room =
    let other : (i == index) ≡ false = ground arith in
    let longer = length-append out (x ∷ []) in
    rw other (
      rw (push-room size out x (omega arith)) (
        copy_loop-behind size index (out ++ (x ∷ [])) (i + 1) xs (omega arith)
          (omega (arith, longer))
        ∙ ap done (append_assoc out (x ∷ []) xs)))

copy_loop-without {ℓ} :
    {A : Type ℓ} (size index : ℕ) (out : List A) (i k : ℕ) (xs : List A)
    → index ≡ i + k
    → k < length xs
    → length out + length xs ≤ size + 1
    → copy_loop size index out i (length xs) xs ≡ done (out ++ without k xs)
unfolding copy_loop without
copy_loop-without size index out i k [] e h room = absurd (omega arith)
copy_loop-without size index out i zero (x ∷ xs) e h room =
    let here : (i == index) ≡ true = ground arith in
    rw here (copy_loop-behind size index out (i + 1) xs (omega arith) (omega arith))
copy_loop-without size index out i (suc k) (x ∷ xs) e h room =
    let other : (i == index) ≡ false = ground arith in
    let longer = length-append out (x ∷ []) in
    rw other (
      rw (push-room size out x (omega arith)) (
        copy_loop-without size index (out ++ (x ∷ [])) (i + 1) k xs (omega arith) (omega arith)
          (omega (arith, longer))
        ∙ ap done (append_assoc out (x ∷ []) (without k xs))))

pub copy_others-without {ℓ} :
    {A : Type ℓ} (i n : ℕ) (xs : List A)
    → i < n
    → length xs ≡ n
    → copy_others i n xs ≡ done (without i xs)
unfolding copy_others
copy_others-without i n xs h e =
    let some_maps : (n == 0) ≡ false = ground arith in
    rw some_maps (
      ap (λ k. copy_loop (n - 1) i [] 0 k xs) (sym e)
      ∙ copy_loop-without (n - 1) i [] 0 i xs (omega arith) (omega (arith, e)) (omega (arith, e)))

pub length-without {ℓ} :
    {A : Type ℓ} (i : ℕ) (xs : List A) → i < length xs → length (without i xs) + 1 ≡ length xs
unfolding without
length-without i [] h = absurd (omega arith)
length-without zero (x ∷ xs) h = omega arith
length-without (suc i) (x ∷ xs) h = omega (arith, length-without i xs (omega arith))

pub take-without {ℓ} :
    {A : Type ℓ} (i n : ℕ) (xs : List A)
    → i ≤ n
    → take n (without i xs) ≡ without i (take (suc n) xs)
unfolding without
take-without i zero [] h = refl
take-without i (suc n) [] h = refl
take-without zero n (x ∷ xs) h = refl
take-without (suc i) zero (x ∷ xs) h = absurd (omega arith)
take-without (suc i) (suc n) (x ∷ xs) h = ap (λ r. x ∷ r) (take-without i n xs (omega arith))
