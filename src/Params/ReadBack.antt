-- ===== src/Params/ReadBack.antt =====
-- What is written in decimal with delimiters is read back by RockLib/CNss/CParams.h.
use mathlib.Core.List.{append-nil, append_assoc}
use nwnx2_windows.Prelude.{
  codes, ℕ, zero, suc, ◌+◌, ◌/◌, ◌%◌, ◌<◌, ◌≡◌, ◌≢◌, refl, sym, ap, ◌∙◌, false, some, List, [], ◌∷◌,
  ◌++◌, arith, ltb, ◌==◌, Bool-cases, inl, inr, length, length-append, drop, Text, ℤ, pos, negsuc,
  negate, is_blank, is_digit, take_sign, starts_decimal, read_decimal, Lacks, split_first,
  split_first-append, digits, print_nat, print_int, StartsNumber, digits-StartsNumber,
  read_decimal-digits, read_decimal-end,
}
use nwnx2_windows.Params.{
  int_target, extract_p1, Target, stream_number, fitting, extract_one, next_piece, extract_loop,
  extract,
}

pub Lacks-append : (d : ℕ) (s t : Text) → Lacks d s → Lacks d t → Lacks d (s ++ t)
Lacks-append d [] t h k = k
Lacks-append d (c ∷ s) t h k = (h.0, Lacks-append d s t h.1 k)

pub digits-Lacks : (d fuel n : ℕ) → is_digit d ≡ false → Lacks d (digits fuel n)
unfolding digits
digits-Lacks d zero n h = tt
digits-Lacks d (suc fuel) n h = elim (Bool-cases (ltb n 10)) [
  | inl small ↦ rw small (ground arith, tt)
  | inr large ↦ rw large (
      Lacks-append d (digits fuel (n / 10)) ((b'0' + n % 10) ∷ []) (digits-Lacks d fuel (n / 10) h)
        (ground arith, tt))
]

-- A delimiter that stands in no number.
abbrev pub Delimits : ℕ → Type 0
Delimits d = (is_digit d ≡ false) × (d ≢ b'-')

pub print_int-Lacks : (d : ℕ) (z : ℤ) → Delimits d → Lacks d (print_int z)
unfolding print_int print_nat
print_int-Lacks d (pos n) h = digits-Lacks d (suc n) n h.0
print_int-Lacks d (negsuc n) h = (λ e. h.1 (sym e), digits-Lacks d (suc (suc n)) (suc n) h.0)

stream_number-StartsNumber :
    (s : Text)
    → StartsNumber s
    → stream_number s ≡ (some (pos (read_decimal 0 s).0), (read_decimal 0 s).1)
unfolding stream_number take_sign starts_decimal
stream_number-StartsNumber [] h = elim h [ ]
stream_number-StartsNumber (c ∷ s) h =
    let blank : is_blank c ≡ false = ground arith in
    let minus : (c == b'-') ≡ false = ground arith in
    let plus : (c == b'+') ≡ false = ground arith in rw blank (rw minus (rw plus (rw h refl)))

read_decimal-printed : (fuel n : ℕ) → n < fuel → read_decimal 0 (digits fuel n) ≡ (n, [])
read_decimal-printed fuel n h =
    ap (read_decimal 0) (sym (append-nil (digits fuel n)))
    ∙ read_decimal-digits fuel n [] h
    ∙ read_decimal-end n [] tt

stream_number-minus :
    (s : Text)
    → StartsNumber s
    → stream_number (b'-' ∷ s) ≡ (some (negate (read_decimal 0 s).0), (read_decimal 0 s).1)
unfolding stream_number take_sign starts_decimal
stream_number-minus [] h = elim h [ ]
stream_number-minus (c ∷ s) h = rw h refl

stream_number-print_int : (z : ℤ) → stream_number (print_int z) ≡ (some z, [])
unfolding print_int print_nat
stream_number-print_int (pos n) =
    stream_number-StartsNumber (digits (suc n) n) (digits-StartsNumber (suc n) n (omega arith))
    ∙ ap (λ r. (some (pos r.0), r.1)) (read_decimal-printed (suc n) n (omega arith))
stream_number-print_int (negsuc n) =
    stream_number-minus (digits (suc (suc n)) (suc n))
      (digits-StartsNumber (suc (suc n)) (suc n) (omega arith))
    ∙ ap (λ r. (some (negate r.0), r.1)) (read_decimal-printed (suc (suc n)) (suc n) (omega arith))

-- The variables take the values.
abbrev pub AllFit : List (Target × ℤ) → List ℤ → Type 0
AllFit [] [] = Unit
AllFit [] (z ∷ zs) = ⊥
AllFit ((t, old) ∷ targets) [] = ⊥
AllFit ((t, old) ∷ targets) (z ∷ zs) = (fitting t z ≡ some z) × AllFit targets zs

extract_one-print_int :
    (t : Target) (old z : ℤ) → fitting t z ≡ some z → extract_one t old (print_int z) ≡ (z, [])
unfolding extract_one
extract_one-print_int t old z h = rw (stream_number-print_int z) (rw h refl)

-- The numbers in decimal, a delimiter between each two.
abbrev pub written : ℕ → List ℤ → Text
written d [] = []
written d (z ∷ []) = print_int z
written d (z ∷ y ∷ zs) = print_int z ++ d ∷ written d (y ∷ zs)

-- The same with a delimiter behind each.
abbrev terminated : ℕ → List ℤ → Text
terminated d [] = []
terminated d (z ∷ zs) = print_int z ++ d ∷ terminated d zs

written-terminated :
    (d : ℕ) (z : ℤ) (zs : List ℤ) → written d (z ∷ zs) ++ d ∷ [] ≡ terminated d (z ∷ zs)
written-terminated d z [] = refl
written-terminated d z (y ∷ zs) =
    append_assoc (print_int z) (d ∷ written d (y ∷ zs)) (d ∷ [])
    ∙ ap (λ s. print_int z ++ d ∷ s) (written-terminated d y zs)

drop-append : (p s : Text) → drop (length p) (p ++ s) ≡ s
drop-append [] s = refl
drop-append (c ∷ p) s = drop-append p s

next_piece-print_int :
    (d : ℕ) (p : Text) (z : ℤ) (rest : Text)
    → Delimits d
    → next_piece d (p ++ (print_int z ++ d ∷ rest)) (length p)
      ≡ (print_int z, length p + length (print_int z) + 1)
unfolding next_piece
next_piece-print_int d p z rest h =
    let found : split_first d (drop (length p) (p ++ (print_int z ++ d ∷ rest)))
        ≡ some (print_int z, rest) =
      ap (split_first d) (drop-append p (print_int z ++ d ∷ rest))
      ∙ split_first-append d (print_int z) rest (print_int-Lacks d z h) in
    rw (found, next_piece) refl

extract_loop-terminated :
    (d : ℕ) (p : Text) (targets : List (Target × ℤ)) (zs : List ℤ)
    → Delimits d
    → AllFit targets zs
    → extract_loop d (p ++ terminated d zs) (length p) [] targets ≡ zs
unfolding extract_loop
extract_loop-terminated d p [] [] h fit = refl
extract_loop-terminated d p [] (z ∷ zs) h fit = elim fit [ ]
extract_loop-terminated d p ((t, old) ∷ targets) [] h fit = elim fit [ ]
extract_loop-terminated d p ((t, old) ∷ targets) (z ∷ zs) h (fits, fit) =
    let rest = terminated d zs in
    let p' = p ++ (print_int z ++ d ∷ []) in
    let moved : p ++ (print_int z ++ d ∷ rest) ≡ p' ++ rest = sym (
      append_assoc p (print_int z ++ d ∷ []) rest
      ∙ ap (λ s. p ++ s) (append_assoc (print_int z) (d ∷ []) rest)) in
    let count : length p + length (print_int z) + 1 ≡ length p' =
      omega
        (arith, length-append p (print_int z ++ d ∷ []), length-append (print_int z) (d ∷ [])) in
    rw (next_piece-print_int d p z rest h) (
      rw (extract_one-print_int t old z fits) (
        ap (λ vs. z ∷ vs)
          (ap (λ s. extract_loop d s (length p + length (print_int z) + 1) [] targets) moved
            ∙ ap (λ k. extract_loop d (p' ++ rest) k [] targets) count
            ∙ extract_loop-terminated d p' targets zs h fit)))

-- Numbers that are written in decimal, with a delimiter between each two that is no digit and no
-- minus sign, are the numbers read by as many variables whose types they fit.
pub extract-written :
    (d : ℕ) (targets : List (Target × ℤ)) (z : ℤ) (zs : List ℤ)
    → Delimits d
    → AllFit targets (z ∷ zs)
    → extract (written d (z ∷ zs)) d targets ≡ z ∷ zs
unfolding extract
extract-written d targets z zs h fit =
    ap (λ s. extract_loop d s 0 [] targets) (written-terminated d z zs)
    ∙ extract_loop-terminated d [] targets (z ∷ zs) h fit

-- The text that some functions write over their parameters before they read them.
pub minus_one : extract_p1 (codes "-1") int_target (pos 0) ≡ negsuc 0
unfolding extract_p1 extract_one stream_number fitting
minus_one = refl
