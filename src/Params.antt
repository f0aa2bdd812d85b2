-- ===== src/Params.antt =====
-- RockLib/CNss/CParams.h: the numbers that the Functions plugin reads off its parameters, by a string
-- stream of the C++ library, of which the conversion of decimal numbers is modelled. A conversion that
-- fails, because there is no number or it does not fit, leaves the variable as it was.
pub mod ReadBack
mod Tests
use nwnx2_windows.Prelude.{
  ℕ, ◌+◌, ◌-◌, ◌%◌, ◌^◌, Bool, true, false, Option, none, some, List, [], ◌∷◌, ◌++◌, ltb,
  if◌then◌else◌, length, drop, Text, ℤ, pos, negsuc, skip_blanks, take_sign, starts_decimal,
  read_decimal, with_sign, split_first, bits32,
}

-- the type of the variable that is read
pub data Target : Type 0 where
  char_target int_target unsigned_target short_target unsigned_short_target : Target

-- the number at the head of the stream, and what is left there
unfoldable pub stream_number : Text → Option ℤ × Text
unfolding take_sign starts_decimal read_decimal
stream_number s =
    let (negative, t) = take_sign (skip_blanks s) in
    let (n, rest) = read_decimal 0 t in
    if starts_decimal t then (some (with_sign negative n), rest) else (none, t)

-- numbers from -n to n - 1
abbrev pub within : ℕ → ℤ → Option ℤ
within n (pos m) = if ltb m n then some (pos m) else none
within n (negsuc m) = if ltb m n then some (negsuc m) else none

-- numbers below n
abbrev pub natural_below : ℕ → ℤ → Option ℤ
natural_below n (pos m) = if ltb m n then some (pos m) else none
natural_below n (negsuc m) = none

abbrev pub or_zero : Option ℤ → ℤ
or_zero none = pos 0
or_zero (some z) = z

-- What the variable gets; a `char` is read as an `int` that was 0, and cut to 8 bits. A negative number
-- for an `unsigned int` wraps around.
unfoldable pub fitting : Target → ℤ → Option ℤ
fitting char_target z = some (pos (bits32 (or_zero (within (2 ^ 31) z)) % 2 ^ 8))
fitting int_target z = within (2 ^ 31) z
fitting unsigned_target (pos n) = natural_below (2 ^ 32) (pos n)
fitting unsigned_target (negsuc n) =
    if ltb (n + 1) (2 ^ 32) then some (pos (2 ^ 32 - (n + 1))) else none
fitting short_target z = within (2 ^ 15) z
fitting unsigned_short_target z = natural_below (2 ^ 16) z

abbrev pub kept_or : ℤ → Option ℤ → ℤ
kept_or old none = old
kept_or old (some z) = z

-- the value without a number
abbrev pub unread : Target → ℤ → ℤ
unread char_target old = pos 0
unread int_target old = old
unread unsigned_target old = old
unread short_target old = old
unread unsigned_short_target old = old

-- the value of a variable, and the rest of the stream
unfoldable pub extract_one : Target → ℤ → Text → ℤ × Text
unfolding stream_number fitting
extract_one t old stream =
    let (number, rest) = stream_number stream in
    (elim number [ none ↦ unread t old | some z ↦ kept_or old (fitting t z) ], rest)

unfoldable pub extract_p1 : Text → Target → ℤ → ℤ
unfolding extract_one
extract_p1 parameters t old = (extract_one t old parameters).0

-- The piece from an index up to the next delimiter, and where the next one starts: without a delimiter
-- the piece is all that is left, and `npos + 1` is 0.
unfoldable pub next_piece : ℕ → Text → ℕ → Text × ℕ
next_piece delim s start = elim (split_first delim (drop start s)) [
  | none ↦ (drop start s, 0)
  | some (piece, after) ↦ (piece, start + length piece + 1)
]

-- what is left in the stream of one piece stands before the next
unfoldable pub extract_loop : ℕ → Text → ℕ → Text → List (Target × ℤ) → List ℤ
extract_loop delim s start stream [] = []
extract_loop delim s start stream ((t, old) ∷ targets) =
    let (piece, next) = next_piece delim s start in
    let (value, rest) = extract_one t old (stream ++ piece) in
    value ∷ extract_loop delim s next rest targets

-- ExtractP2, ExtractP3 and ExtractP4
unfoldable pub extract : Text → ℕ → List (Target × ℤ) → List ℤ
unfolding extract_loop
extract parameters delim targets = extract_loop delim (parameters ++ delim ∷ []) 0 [] targets
