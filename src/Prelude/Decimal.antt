-- ===== src/Prelude/Decimal.antt =====
-- `printf` of an integer by `%d`, and `atoi`, on texts without the terminator.
use Prim.Native.Nat.{ℕ, zero, suc, ◌+◌, ◌-◌, ◌*◌, ◌/◌, ◌%◌, ◌<◌, ◌≤◌}
use mathlib.Core.Bool.{Bool, true, false, ◌&&◌, ◌||◌}
use mathlib.Core.List.{[], ◌∷◌, ◌++◌, append_assoc}
use mathlib.Core.Path.{◌≡◌, refl, ◌∙◌, ap}
use mathlib.Core.Logic.{inl, inr}
use native.Mathlib.Omega.{arith}
use nwnx2_windows.Prelude.Tests.{ltb, leb, ◌==◌, if◌then◌else◌, Bool-cases}
use nwnx2_windows.Prelude.Lists.{length, replicate, length-append}
use nwnx2_windows.Prelude.Strings.{Text}
use nwnx2_windows.Prelude.Int.{ℤ, pos, negsuc, magnitude}

-- The digits of a number, on fuel above the number.
unfoldable pub digits : ℕ → ℕ → Text
digits zero n = []
digits (suc fuel) n =
    let rest = digits fuel (n / 10) in
    if ltb n 10 then (b'0' + n) ∷ [] else rest ++ (b'0' + n % 10) ∷ []

unfoldable pub print_nat : ℕ → Text
unfolding digits
print_nat n = digits (suc n) n

-- `%d`
unfoldable pub print_int : ℤ → Text
unfolding print_nat
print_int (pos n) = print_nat n
print_int (negsuc n) = b'-' ∷ print_nat (suc n)

-- A width: filled up on the left.
abbrev pub pad_left : ℕ → ℕ → Text → Text
pad_left width c s = replicate (width - length s) c ++ s

abbrev pub is_digit : ℕ → Bool
is_digit c = leb b'0' c && leb c b'9'

-- The number that the leading digits spell behind `n`.
unfoldable pub read_nat : ℕ → Text → ℕ
read_nat n [] = n
read_nat n (c ∷ s) = if is_digit c then read_nat (n * 10 + (c - b'0')) s else n

-- `isspace`
abbrev pub is_blank : ℕ → Bool
is_blank c = c == b' ' || leb 9 c && leb c 13

abbrev pub skip_blanks : Text → Text
skip_blanks [] = []
skip_blanks (c ∷ s) = let rest = skip_blanks s in if is_blank c then rest else c ∷ s

abbrev pub negate : ℕ → ℤ
negate zero = pos 0
negate (suc n) = negsuc n

abbrev pub read_sign : Text → ℤ
unfolding read_nat
read_sign [] = pos 0
read_sign (c ∷ s) =
    if c == b'-'
    then negate (read_nat 0 s)
    else if c == b'+'
    then pos (read_nat 0 s)
    else pos (read_nat 0 (c ∷ s))

-- The integer at the head of a text, 0 if there is none.
unfoldable pub read_int : Text → ℤ
unfolding read_sign read_nat
read_int s = read_sign (skip_blanks s)

-- The text starts with no digit.
abbrev pub EndsNumber : Text → Type 0
EndsNumber [] = Unit
EndsNumber (c ∷ s) = is_digit c ≡ false

read_nat-end : (n : ℕ) (s : Text) → EndsNumber s → read_nat n s ≡ n
unfolding read_nat
read_nat-end n [] h = refl
read_nat-end n (c ∷ s) h = rw h

read_nat_digit :
    (n d : ℕ) (s : Text) → d < 10 → read_nat n ((b'0' + d) ∷ s) ≡ read_nat (n * 10 + d) s
unfolding read_nat
read_nat_digit n d s h =
    let e : b'0' + d - b'0' ≡ d = omega arith in
    let t : is_digit (b'0' + d) ≡ true = ground arith in rw t (rw e refl)

read_nat-digits :
    (fuel n : ℕ) (s : Text) → n < fuel → read_nat 0 (digits fuel n ++ s) ≡ read_nat n s
unfolding digits
read_nat-digits zero n s h = absurd (omega arith)
read_nat-digits (suc fuel) n s h = elim (Bool-cases (ltb n 10)) [
  | inl small ↦
      rw small (read_nat_digit 0 n s (ground arith) ∙ ap (λ k. read_nat k s) (omega arith))
  | inr large ↦ rw large (
      ap (read_nat 0) (append_assoc (digits fuel (n / 10)) ((b'0' + n % 10) ∷ []) s)
      ∙ read_nat-digits fuel (n / 10) ((b'0' + n % 10) ∷ s) (ground arith)
      ∙ read_nat_digit (n / 10) (n % 10) s (omega arith)
      ∙ ap (λ k. read_nat k s) (omega arith))
]

-- A digit comes first.
abbrev pub StartsNumber : Text → Type 0
StartsNumber [] = ⊥
StartsNumber (c ∷ s) = is_digit c ≡ true

pub StartsNumber-append : (s t : Text) → StartsNumber s → StartsNumber (s ++ t)
StartsNumber-append [] t h = elim h [ ]
StartsNumber-append (c ∷ s) t h = h

pub digits-StartsNumber : (fuel n : ℕ) → n < fuel → StartsNumber (digits fuel n)
unfolding digits
digits-StartsNumber zero n h = absurd (omega arith)
digits-StartsNumber (suc fuel) n h = elim (Bool-cases (ltb n 10)) [
  | inl small ↦ rw small (ground arith)
  | inr large ↦ rw large (
      StartsNumber-append (digits fuel (n / 10)) _
        (digits-StartsNumber fuel (n / 10) (ground arith)))
]

read_int-StartsNumber : (s : Text) → StartsNumber s → read_int s ≡ pos (read_nat 0 s)
unfolding read_int read_sign
read_int-StartsNumber [] h = elim h [ ]
read_int-StartsNumber (c ∷ s) h = ground arith

skip_blanks-replicate : (n : ℕ) (s : Text) → skip_blanks (replicate n b' ' ++ s) ≡ skip_blanks s
skip_blanks-replicate zero s = refl
skip_blanks-replicate (suc n) s = skip_blanks-replicate n s

read_int-replicate : (n : ℕ) (s : Text) → read_int (replicate n b' ' ++ s) ≡ read_int s
unfolding read_int
read_int-replicate n s = ap read_sign (skip_blanks-replicate n s)

read_nat-print_nat : (n : ℕ) (s : Text) → EndsNumber s → read_nat 0 (print_nat n ++ s) ≡ n
unfolding print_nat
read_nat-print_nat n s h = read_nat-digits (suc n) n s (omega arith) ∙ read_nat-end n s h

print_nat-StartsNumber : (n : ℕ) (s : Text) → StartsNumber (print_nat n ++ s)
unfolding print_nat
print_nat-StartsNumber n s =
    StartsNumber-append (digits (suc n) n) s (digits-StartsNumber (suc n) n (omega arith))

pub read_int-printed : (z : ℤ) (s : Text) → EndsNumber s → read_int (print_int z ++ s) ≡ z
unfolding print_int read_int
read_int-printed (pos n) s h =
    read_int-StartsNumber (print_nat n ++ s) (print_nat-StartsNumber n s)
    ∙ ap pos (read_nat-print_nat n s h)
read_int-printed (negsuc n) s h = ap negate (read_nat-print_nat (suc n) s h)

-- `atoi` reads back what `%d` printed, with blanks before it and a text behind it that does not go
-- on with a digit.
pub read_int-print_int :
    (width : ℕ) (z : ℤ) (s : Text)
    → EndsNumber s
    → read_int (pad_left width b' ' (print_int z) ++ s) ≡ z
read_int-print_int width z s h =
    ap read_int (append_assoc (replicate (width - length (print_int z)) b' ') (print_int z) s)
    ∙ read_int-replicate (width - length (print_int z)) (print_int z ++ s)
    ∙ read_int-printed z s h

abbrev pub pow10 : ℕ → ℕ
pow10 zero = 1
pow10 (suc k) = 10 * pow10 k

length-digits-le : (fuel k n : ℕ) → n < fuel → n < pow10 (suc k) → length (digits fuel n) ≤ suc k
unfolding digits
length-digits-le zero k n h b = absurd (omega arith)
length-digits-le (suc fuel) zero n h b = ground arith
length-digits-le (suc fuel) (suc k) n h b = ground (
  arith,
  length-append (digits fuel (n / 10)) ((b'0' + n % 10) ∷ []),
  length-digits-le fuel k (n / 10),
)

-- A number below 10 ^ (k + 1) has at most k + 1 digits.
pub length-print_nat-le : (k n : ℕ) → n < pow10 (suc k) → length (print_nat n) ≤ suc k
unfolding print_nat
length-print_nat-le k n h = length-digits-le (suc n) k n (omega arith) h

pub length-print_int-le :
    (k : ℕ) (z : ℤ) → magnitude z < pow10 (suc k) → length (print_int z) ≤ suc k + 1
unfolding print_int
length-print_int-le k (pos n) h = omega (arith, length-print_nat-le k n h)
length-print_int-le k (negsuc n) h = omega (arith, length-print_nat-le k (suc n) h)

read_nat-replicate : (k : ℕ) (s : Text) → read_nat 0 (replicate k b'0' ++ s) ≡ read_nat 0 s
unfolding read_nat
read_nat-replicate zero s = refl
read_nat-replicate (suc k) s = read_nat-replicate k s

zeros-StartsNumber : (k : ℕ) (s : Text) → StartsNumber s → StartsNumber (replicate k b'0' ++ s)
zeros-StartsNumber zero s h = h
zeros-StartsNumber (suc k) s h = refl

-- The same for a number that is filled up with zeros.
pub read_int-print_nat :
    (width n : ℕ) (s : Text)
    → EndsNumber s
    → read_int (pad_left width b'0' (print_nat n) ++ s) ≡ pos n
read_int-print_nat width n s h =
    let k = width - length (print_nat n) in
    ap read_int (append_assoc (replicate k b'0') (print_nat n) s)
    ∙ read_int-StartsNumber (replicate k b'0' ++ (print_nat n ++ s))
        (zeros-StartsNumber k (print_nat n ++ s) (print_nat-StartsNumber n s))
    ∙ ap pos (read_nat-replicate k (print_nat n ++ s) ∙ read_nat-print_nat n s h)
