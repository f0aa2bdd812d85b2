-- ===== src/Prelude/Scanning.antt =====
-- `strtol` in base 16, `atoi`, and the conversions `%x` and `%d` of `sscanf` into 32 bits.
use Prim.Native.Nat.{ℕ, ◌+◌, ◌-◌, ◌*◌, ◌%◌, ◌^◌}
use mathlib.Core.Bool.{Bool, true, false, ◌&&◌, ◌||◌}
use mathlib.Core.List.{[], ◌∷◌}
use mathlib.Core.Option.{Option, none, some}
use nwnx2_windows.Prelude.Tests.{ltb, leb, ◌==◌, if◌then◌else◌}
use nwnx2_windows.Prelude.Strings.{Text}
use nwnx2_windows.Prelude.Int.{ℤ, pos, negsuc}
use nwnx2_windows.Prelude.Decimal.{is_digit, skip_blanks, read_int, negate}

-- An integer out of range becomes the largest or the smallest `int`.
unfoldable pub clamp : ℤ → ℤ
clamp (pos n) = if ltb n (2 ^ 31) then pos n else pos (2 ^ 31 - 1)
clamp (negsuc n) = if ltb n (2 ^ 31) then negsuc n else negsuc (2 ^ 31 - 1)

unfoldable pub atoi : Text → ℤ
unfolding read_int clamp
atoi s = clamp (read_int s)

-- The integer that 32 bits stand for, and its bits.
unfoldable pub signed32 : ℕ → ℤ
signed32 n = if ltb n (2 ^ 31) then pos n else negate (2 ^ 32 - n)

unfoldable pub bits32 : ℤ → ℕ
bits32 (pos n) = n % 2 ^ 32
bits32 (negsuc n) = 2 ^ 32 - 1 - n % 2 ^ 32

unfoldable pub hex_value : ℕ → Option ℕ
hex_value c =
    if is_digit c
    then some (c - b'0')
    else if leb b'a' c && leb c b'f'
    then some (c - b'a' + 10)
    else if leb b'A' c && leb c b'F'
    then some (c - b'A' + 10)
    else none

-- The number that the leading digits spell behind `n`, and the rest.
unfoldable pub read_hex : ℕ → Text → ℕ × Text
unfolding hex_value
read_hex n [] = (n, [])
read_hex n (c ∷ s) = elim (hex_value c) [ none ↦ (n, c ∷ s) | some d ↦ read_hex (n * 16 + d) s ]

unfoldable pub read_decimal : ℕ → Text → ℕ × Text
read_decimal n [] = (n, [])
read_decimal n (c ∷ s) = if is_digit c then read_decimal (n * 10 + (c - b'0')) s else (n, c ∷ s)

-- A sign, and the text behind it.
unfoldable pub take_sign : Text → Bool × Text
take_sign [] = (false, [])
take_sign (c ∷ s) =
    if c == b'-' then (true, s) else if c == b'+' then (false, s) else (false, c ∷ s)

-- `0x` at the head is left out.
unfoldable pub drop_prefix : Text → Text
drop_prefix [] = []
drop_prefix (c ∷ []) = c ∷ []
drop_prefix (c ∷ d ∷ s) = if c == b'0' && (d == b'x' || d == b'X') then s else c ∷ d ∷ s

abbrev pub with_sign : Bool → ℕ → ℤ
with_sign true n = negate n
with_sign false n = pos n

-- `strtol(s, NULL, 16)`
unfoldable pub strtol16 : Text → ℤ
unfolding clamp take_sign drop_prefix read_hex
strtol16 s =
    let (negative, t) = take_sign (skip_blanks s) in
    clamp (with_sign negative (read_hex 0 (drop_prefix t)).0)

unfoldable pub starts_hex : Text → Bool
unfolding hex_value
starts_hex [] = false
starts_hex (c ∷ s) = elim (hex_value c) [ none ↦ false | some d ↦ true ]

unfoldable pub starts_decimal : Text → Bool
starts_decimal [] = false
starts_decimal (c ∷ s) = is_digit c

unfoldable pub converted : Bool → ℕ × Text → Option (ℕ × Text)
unfolding bits32
converted negative (n, rest) = some (bits32 (with_sign negative n), rest)

-- `%x`: the word read and the rest, or `none` if there is no number
unfoldable pub scan_hex : Text → Option (ℕ × Text)
unfolding take_sign drop_prefix starts_hex converted read_hex
scan_hex s =
    let (negative, t) = take_sign (skip_blanks s) in
    let u = drop_prefix t in if starts_hex u then converted negative (read_hex 0 u) else none

-- `%d`
unfoldable pub scan_decimal : Text → Option (ℕ × Text)
unfolding take_sign starts_decimal converted read_decimal
scan_decimal s =
    let (negative, t) = take_sign (skip_blanks s) in
    if starts_decimal t then converted negative (read_decimal 0 t) else none

-- A byte of the format that must come next.
unfoldable pub scan_byte : ℕ → Text → Option Text
scan_byte d [] = none
scan_byte d (c ∷ s) = if c == d then some s else none
