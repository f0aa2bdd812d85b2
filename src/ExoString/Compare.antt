-- ===== src/ExoString/Compare.antt =====
-- The comparisons of RockLib/nwn_internals/CExoString.cpp, and the text of an integer.
use mathlib.Core.List.{append-nil}
use nwnx2_windows.Prelude.{
  zero, suc, sym, ap, ◌∙◌, ℕ, ◌+◌, ◌<◌, ◌≤◌, ◌^◌, ◌≡◌, refl, ◌≢◌, true, false, none, some, [], ◌∷◌,
  Returns, arith, ltb, not, length, text_eq, ℤ, magnitude, print_int, read_int, length-print_int-le,
  read_int-printed,
}
use nwnx2_windows.ExoString.{
  Block, CString, ExoString, fill_new, construct_int, c_str, chars_of, is_filled, ne_text, ne,
  eq_text, eq, construct_prefix, construct_empty,
}
use nwnx2_windows.ExoString.Contents.{content, Holds, fill_new-Holds, strcpy_s_lem}

-- No block holds an empty text.
abbrev pub Canonical : CString → Type 0
Canonical none = Unit {0}
Canonical (some s) = s ≢ []

eq_text-chars_of :
    (p q : CString) → Canonical p → Canonical q → eq_text p q ≡ text_eq (chars_of p) (chars_of q)
unfolding eq_text chars_of
eq_text-chars_of none none h k = refl
eq_text-chars_of none (some []) h k = absurd (k refl)
eq_text-chars_of none (some (d ∷ t)) h k = refl
eq_text-chars_of (some []) none h k = absurd (h refl)
eq_text-chars_of (some (c ∷ s)) none h k = refl
eq_text-chars_of (some s) (some t) h k = refl

ne_text-chars_of : (p q : CString) → ne_text p q ≡ not (text_eq (chars_of p) (chars_of q))
unfolding ne_text chars_of is_filled
ne_text-chars_of none none = refl
ne_text-chars_of none (some []) = refl
ne_text-chars_of none (some (d ∷ t)) = ground arith
ne_text-chars_of (some []) none = refl
ne_text-chars_of (some (c ∷ s)) none = ground arith
ne_text-chars_of (some s) (some t) = refl

-- Where neither string has a block with an empty text, `==` compares the texts, with NULL for the
-- empty one, and `!=` is its negation.
pub eq-ne :
    (e comp : ExoString)
    → Canonical (c_str e)
    → Canonical (c_str comp)
    → (eq e comp ≡ text_eq (content e) (content comp)) × (ne e comp ≡ not (eq e comp))
unfolding ne eq content
eq-ne e comp h k =
    let equal = eq_text-chars_of (c_str e) (c_str comp) h k in
    (equal, ne_text-chars_of (c_str e) (c_str comp) ∙ ap not (sym equal))

-- The prefix of an empty text is kept in a block: the string is neither `==` nor `!=` to one that
-- was built from nothing.
pub eq-ne-construct_prefix :
    (n : ℕ)
    → 0 < n
    → Returns
        (construct_prefix (some []) n)
        (λ e. (eq e construct_empty ≡ false) × (ne e construct_empty ≡ false))
unfolding construct_prefix fill_new eq ne ne_text c_str construct_empty
eq-ne-construct_prefix zero h = absurd (omega arith)
eq-ne-construct_prefix (suc n) h =
    let test : ltb 0 (suc n) ≡ true = ground arith in
    let b : Block = record { size = suc n + 1; chars = [] } in
    rw test (rw (strcpy_s_lem b (suc n + 1) [] (omega arith) (omega arith)) (_, refl, (refl, refl)))

-- The string made of a 32-bit integer is sound and has its decimal text, from which `atoi` reads
-- the integer.
pub construct_int-read_int :
    (z : ℤ)
    → magnitude z ≤ 2 ^ 31
    → Returns (construct_int z) (λ e. Holds (print_int z) e × (read_int (content e) ≡ z))
unfolding construct_int
construct_int-read_int z h =
    let b : length (print_int z) ≤ 11 = length-print_int-le 9 z (omega arith) in
    let c : Block = record { size = 32; chars = [] } in
    let (e, run, (v, text)) =
      fill_new-Holds (length (print_int z) + 1) (print_int z) (omega arith) in
    rw (strcpy_s_lem c 31 (print_int z) (omega arith) (omega arith)) (
      e,
      run,
      ((v, text), ap read_int (text ∙ sym (append-nil (print_int z))) ∙ read_int-printed z [] tt),
    )
