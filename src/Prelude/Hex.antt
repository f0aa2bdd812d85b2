-- ===== src/Prelude/Hex.antt =====
-- Hexadecimal print, and that `%x` and `%d` of `sscanf` read back what was printed.
use Prim.Native.Nat.{ℕ, zero, suc, ◌+◌, ◌-◌, ◌*◌, ◌/◌, ◌%◌, ◌^◌, ◌<◌}
use mathlib.Core.Bool.{true, false}
use mathlib.Core.List.{[], ◌∷◌, ◌++◌, append_assoc, cons-ne-nil}
use mathlib.Core.Logic.{inl, inr, ◌≢◌}
use mathlib.Core.Option.{none, some}
use mathlib.Core.Path.{◌≡◌, refl, ap, ◌∙◌}
use native.Mathlib.Omega.{arith}
use nwnx2_windows.Prelude.Tests.{ltb, if◌then◌else◌, Bool-cases}
use nwnx2_windows.Prelude.Strings.{Text}
use nwnx2_windows.Prelude.Decimal.{
  digits, print_nat, is_blank, is_digit, skip_blanks, EndsNumber, StartsNumber, digits-StartsNumber,
  StartsNumber-append,
}
use nwnx2_windows.Prelude.Scanning.{
  bits32, hex_value, read_hex, read_decimal, take_sign, drop_prefix, starts_hex, starts_decimal,
  converted, scan_hex, scan_decimal,
}

unfoldable pub hex_char : ℕ → ℕ
hex_char d = if ltb d 10 then b'0' + d else b'a' + (d - 10)

pub hex_digits : ℕ → ℕ → Text
hex_digits zero n = []
hex_digits (suc fuel) n =
    let rest = hex_digits fuel (n / 16) in
    if ltb n 16 then hex_char n ∷ [] else rest ++ hex_char (n % 16) ∷ []

-- `%x`
unfoldable pub print_hex : ℕ → Text
unfolding hex_digits hex_char
print_hex n = hex_digits (suc n) n

-- A text that goes on with no digit of base 16.
abbrev pub EndsHex : Text → Type 0
EndsHex [] = Unit
EndsHex (c ∷ s) = hex_value c ≡ none

hex_value-hex_char : (d : ℕ) → d < 16 → hex_value (hex_char d) ≡ some d
unfolding hex_value hex_char
hex_value-hex_char d h = ground arith

read_hex_digit :
    (n d : ℕ) (s : Text) → d < 16 → read_hex n (hex_char d ∷ s) ≡ read_hex (n * 16 + d) s
unfolding read_hex
read_hex_digit n d s h = rw (hex_value-hex_char d h, read_hex) refl

read_hex-end : (n : ℕ) (s : Text) → EndsHex s → read_hex n s ≡ (n, s)
unfolding read_hex
read_hex-end n [] h = refl
read_hex-end n (c ∷ s) h = rw (h, read_hex) refl

read_hex-hex_digits :
    (fuel n : ℕ) (s : Text) → n < fuel → read_hex 0 (hex_digits fuel n ++ s) ≡ read_hex n s
unfolding hex_digits
read_hex-hex_digits zero n s h = absurd (omega arith)
read_hex-hex_digits (suc fuel) n s h = elim (Bool-cases (ltb n 16)) [
  | inl small ↦
      rw small (read_hex_digit 0 n s (ground arith) ∙ ap (λ k. read_hex k s) (omega arith))
  | inr large ↦ rw large (
      ap (read_hex 0) (append_assoc (hex_digits fuel (n / 16)) (hex_char (n % 16) ∷ []) s)
      ∙ read_hex-hex_digits fuel (n / 16) (hex_char (n % 16) ∷ s) (ground arith)
      ∙ read_hex_digit (n / 16) (n % 16) s (omega arith)
      ∙ ap (λ k. read_hex k s) (omega arith))
]

-- Every byte is a digit of base 16.
abbrev HexText : Text → Type 0
HexText [] = Unit
HexText (c ∷ s) = (starts_hex (c ∷ []) ≡ true) × HexText s

HexText-append : (s t : Text) → HexText s → HexText t → HexText (s ++ t)
HexText-append [] t h k = k
HexText-append (c ∷ s) t h k = (h.0, HexText-append s t h.1 k)

starts_hex-hex_char : (d : ℕ) → d < 16 → starts_hex (hex_char d ∷ []) ≡ true
unfolding starts_hex
starts_hex-hex_char d h = rw (hex_value-hex_char d h, starts_hex) refl

hex_digits-HexText : (fuel n : ℕ) → HexText (hex_digits fuel n)
unfolding hex_digits
hex_digits-HexText zero n = tt
hex_digits-HexText (suc fuel) n = elim (Bool-cases (ltb n 16)) [
  | inl small ↦ rw small (starts_hex-hex_char n (ground arith), tt)
  | inr large ↦ rw large (
      HexText-append (hex_digits fuel (n / 16)) (hex_char (n % 16) ∷ [])
        (hex_digits-HexText fuel (n / 16)) (starts_hex-hex_char (n % 16) (omega arith), tt))
]

-- A digit of base 16 is no blank and no sign, and not the letter of the prefix.
hex_byte :
    (c : ℕ)
    → starts_hex (c ∷ []) ≡ true
    → (is_blank c ≡ false) × (c ≢ b'-') × (c ≢ b'+') × (c ≢ b'x') × (c ≢ b'X')
unfolding starts_hex hex_value
hex_byte c h = ground arith

-- What follows a number: no digit, and no `x`.
abbrev pub EndsWord : Text → Type 0
EndsWord [] = Unit
EndsWord (c ∷ s) = (hex_value c ≡ none) × (c ≢ b'x') × (c ≢ b'X')

drop_prefix-HexText : (p s : Text) → HexText p → p ≢ [] → EndsWord s → drop_prefix (p ++ s) ≡ p ++ s
unfolding drop_prefix
drop_prefix-HexText [] s h k w = absurd (k refl)
drop_prefix-HexText (c ∷ []) [] h k w = refl
drop_prefix-HexText (c ∷ []) (d ∷ s) h k w = ground arith
drop_prefix-HexText (c ∷ d ∷ p) s h k w = let byte = hex_byte d h.1.0 in ground arith

take_sign-HexText :
    (p s : Text) → HexText p → p ≢ [] → take_sign (skip_blanks (p ++ s)) ≡ (false, p ++ s)
unfolding take_sign
take_sign-HexText [] s h k = absurd (k refl)
take_sign-HexText (c ∷ p) s h k = let byte = hex_byte c h.0 in ground arith

starts_hex-HexText : (p s : Text) → HexText p → p ≢ [] → starts_hex (p ++ s) ≡ true
unfolding starts_hex
starts_hex-HexText [] s h k = absurd (k refl)
starts_hex-HexText (c ∷ p) s h k = h.0

scan_hex-HexText :
    (p s : Text)
    → HexText p
    → p ≢ []
    → EndsWord s
    → scan_hex (p ++ s) ≡ converted false (read_hex 0 (p ++ s))
unfolding scan_hex
scan_hex-HexText p s h k w =
    rw (take_sign-HexText p s h k)
      (rw (drop_prefix-HexText p s h k w) (rw (starts_hex-HexText p s h k) refl))

append-ne-nil : (s : Text) (c : ℕ) → (s ++ c ∷ []) ≢ []
append-ne-nil [] c = cons-ne-nil c []
append-ne-nil (d ∷ s) c = cons-ne-nil d (s ++ c ∷ [])

hex_digits-ne-nil : (fuel n : ℕ) → n < fuel → hex_digits fuel n ≢ []
unfolding hex_digits
hex_digits-ne-nil zero n h = absurd (omega arith)
hex_digits-ne-nil (suc fuel) n h = elim (Bool-cases (ltb n 16)) [
  | inl small ↦ rw small (cons-ne-nil (hex_char n) [])
  | inr large ↦ rw large (append-ne-nil (hex_digits fuel (n / 16)) (hex_char (n % 16)))
]

EndsWord-EndsHex : (s : Text) → EndsWord s → EndsHex s
EndsWord-EndsHex [] w = tt
EndsWord-EndsHex (c ∷ s) w = w.0

-- `%x` reads back a word that was printed in base 16.
pub scan_hex-print_hex :
    (n : ℕ) (s : Text) → n < 2 ^ 32 → EndsWord s → scan_hex (print_hex n ++ s) ≡ some (n, s)
unfolding print_hex converted bits32
scan_hex-print_hex n s fits w =
    let p = hex_digits (suc n) n in
    scan_hex-HexText p s (hex_digits-HexText (suc n) n) (hex_digits-ne-nil (suc n) n (omega arith))
      w
    ∙ ap (converted false)
        (read_hex-hex_digits (suc n) n s (omega arith) ∙ read_hex-end n s (EndsWord-EndsHex s w))
    ∙ ap (λ k. some (k, s)) (omega arith)

pub read_decimal-end : (n : ℕ) (s : Text) → EndsNumber s → read_decimal n s ≡ (n, s)
unfolding read_decimal
read_decimal-end n [] h = refl
read_decimal-end n (c ∷ s) h = rw h refl

read_decimal_digit :
    (n d : ℕ) (s : Text) → d < 10 → read_decimal n ((b'0' + d) ∷ s) ≡ read_decimal (n * 10 + d) s
unfolding read_decimal
read_decimal_digit n d s h =
    let e : b'0' + d - b'0' ≡ d = omega arith in
    let t : is_digit (b'0' + d) ≡ true = ground arith in rw t (rw e refl)

pub read_decimal-digits :
    (fuel n : ℕ) (s : Text) → n < fuel → read_decimal 0 (digits fuel n ++ s) ≡ read_decimal n s
unfolding digits
read_decimal-digits zero n s h = absurd (omega arith)
read_decimal-digits (suc fuel) n s h = elim (Bool-cases (ltb n 10)) [
  | inl small ↦
      rw small (read_decimal_digit 0 n s (ground arith) ∙ ap (λ k. read_decimal k s) (omega arith))
  | inr large ↦ rw large (
      ap (read_decimal 0) (append_assoc (digits fuel (n / 10)) ((b'0' + n % 10) ∷ []) s)
      ∙ read_decimal-digits fuel (n / 10) ((b'0' + n % 10) ∷ s) (ground arith)
      ∙ read_decimal_digit (n / 10) (n % 10) s (omega arith)
      ∙ ap (λ k. read_decimal k s) (omega arith))
]

scan_decimal-StartsNumber :
    (s : Text) → StartsNumber s → scan_decimal s ≡ converted false (read_decimal 0 s)
unfolding scan_decimal take_sign starts_decimal
scan_decimal-StartsNumber [] h = elim h [ ]
scan_decimal-StartsNumber (c ∷ s) h = ground arith

-- `%d` reads back a number that was printed in base 10.
pub scan_decimal-print_nat :
    (n : ℕ) (s : Text) → n < 2 ^ 32 → EndsNumber s → scan_decimal (print_nat n ++ s) ≡ some (n, s)
unfolding print_nat converted bits32
scan_decimal-print_nat n s fits h =
    scan_decimal-StartsNumber (digits (suc n) n ++ s)
      (StartsNumber-append (digits (suc n) n) s (digits-StartsNumber (suc n) n (omega arith)))
    ∙ ap (converted false) (read_decimal-digits (suc n) n s (omega arith) ∙ read_decimal-end n s h)
    ∙ ap (λ k. some (k, s)) (omega arith)
