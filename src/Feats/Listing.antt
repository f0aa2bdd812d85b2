-- ===== src/Feats/Listing.antt =====
-- What GetAllKnownFeats of NWNX_Functions/CNssFeats.cpp writes, and that it has room.
use mathlib.Core.Path.{subst}
use mathlib.Core.List.{append-nil, append_assoc}
use nwnx2_windows.Prelude.{
  ℕ, suc, ◌+◌, ◌-◌, ◌*◌, ◌%◌, ◌^◌, ◌<◌, ◌≤◌, ◌≡◌, ◌≢◌, refl, ap, false, some, List, [], ◌∷◌, ◌++◌,
  Returns, arith, ltb, leb, if◌then◌else◌, length, length-append, length-take, Bool-cases, inl, inr,
  Text, map, ◌∙◌, codes, split_first-append, Lacks, skip_blanks, is_blank, print_nat,
  length-print_nat-le,
}
use nwnx2_windows.ExoArrayList.Items.{Valid, items}
use nwnx2_windows.Feats.{
  Stats, word, append_feats, join_feats, size_needed, listed, get_all_known_feats,
}

-- Every feat is a 16-bit number.
abbrev pub Words16 : List ℕ → Type 0
Words16 [] = Unit
Words16 (x ∷ xs) = (x < 65536) × Words16 xs

length-append_feats-le :
    (delimiter : Text) (feats : List ℕ)
    → Words16 feats
    → length (append_feats delimiter feats) ≤ length feats * (length delimiter + 5)
unfolding append_feats
length-append_feats-le delimiter [] h = omega arith
length-append_feats-le delimiter (x ∷ xs) h =
    let rest = length-append_feats-le delimiter xs h.1 in
    let number = length-print_nat-le 4 x (omega arith) in
    let inner = length-append delimiter (print_nat x) in
    let outer = length-append (delimiter ++ print_nat x) (append_feats delimiter xs) in grind arith

length-join_feats-le :
    (delimiter : Text) (feats : List ℕ)
    → Words16 feats
    → length (join_feats delimiter feats) ≤ length feats * 5 + (length feats - 1) * length delimiter
unfolding join_feats
length-join_feats-le delimiter [] h = omega arith
length-join_feats-le delimiter (x ∷ xs) h =
    let rest = length-append_feats-le delimiter xs h.1 in
    let number = length-print_nat-le 4 x (omega arith) in
    let outer = length-append (print_nat x) (append_feats delimiter xs) in
    let e : suc (length xs) - 1 ≡ length xs = omega arith in rw e (grind arith)

-- No blank in the text.
abbrev pub OneWord : Text → Type 0
OneWord [] = Unit
OneWord (c ∷ s) = (is_blank c ≡ false) × OneWord s

OneWord-Lacks : (s : Text) → OneWord s → Lacks b' ' s
OneWord-Lacks [] h = tt
OneWord-Lacks (c ∷ s) h = (ground arith, OneWord-Lacks s h.1)

word-append : (s t : Text) → OneWord s → word (s ++ (b' ' ∷ t)) ≡ s
unfolding word
word-append [] t h = refl
word-append (c ∷ s) t h = rw h.0 (ap (λ r. c ∷ r) (word-append s t h.1))

word-skip_blanks : (s t : Text) → s ≢ [] → OneWord s → word (skip_blanks (s ++ (b' ' ∷ t))) ≡ s
word-skip_blanks [] t n h = absurd (n refl)
word-skip_blanks (c ∷ s) t n h = rw h.0 (word-append (c ∷ s) t h)

size_needed_exact :
    (n d : ℕ)
    → 0 < n
    → n * 5 + (n - 1) * d + 1 < 2 ^ 32
    → n < 2 ^ 32
    → size_needed n d ≡ n * 5 + (n - 1) * d + 1
unfolding size_needed
size_needed_exact n d pos fits small =
    let e : (n + 2 ^ 32 - 1) % 2 ^ 32 ≡ n - 1 = omega arith in rw e (omega arith)

twice : (s : Text) → s ≢ [] → leb (2 * length s) (length s) ≡ false
twice [] n = absurd (n refl)
twice (c ∷ s) n = ground arith

-- Texts with a delimiter between each two.
abbrev pub separated : Text → List Text → Text
separated delimiter [] = []
separated delimiter (t ∷ []) = t
separated delimiter (t ∷ u ∷ ts) = t ++ (delimiter ++ separated delimiter (u ∷ ts))

append_feats-separated :
    (delimiter : Text) (t : Text) (feats : List ℕ)
    → t ++ append_feats delimiter feats ≡ separated delimiter (t ∷ map print_nat feats)
unfolding append_feats
append_feats-separated delimiter t [] = append-nil t
append_feats-separated delimiter t (x ∷ xs) =
    ap (λ r. t ++ r)
      (append_assoc delimiter (print_nat x) (append_feats delimiter xs)
        ∙ ap (λ r. delimiter ++ r) (append_feats-separated delimiter (print_nat x) xs))

join_feats-separated :
    (delimiter : Text) (feats : List ℕ)
    → join_feats delimiter feats ≡ separated delimiter (map print_nat feats)
unfolding join_feats
join_feats-separated delimiter [] = refl
join_feats-separated delimiter (x ∷ xs) = append_feats-separated delimiter (print_nat x) xs

-- What the parameters become: the feats in order, with the delimiter between each two, or `-1` where
-- the parameters have too few bytes for feats of five digits.
abbrev pub listing : Stats → Text → Text → Text
listing stats delimiter parameters =
    let n = stats.cs_feats.len in
    if ltb (length parameters) (n * 5 + (n - 1) * length delimiter + 1)
    then codes "-1"
    else separated delimiter (map print_nat (items stats.cs_feats))

abbrev spaced : Text → Text → Text
spaced delimiter spacer = delimiter ++ (b' ' ∷ spacer)

length-listing-le :
    (stats : Stats) (delimiter spacer : Text)
    → delimiter ≢ []
    → Valid stats.cs_feats
    → Words16 (items stats.cs_feats)
    → length (listing stats delimiter (spaced delimiter spacer)) ≤ length (spaced delimiter spacer)
length-listing-le stats [] spacer ne v w = absurd (ne refl)
length-listing-le stats (c ∷ d) spacer ne v w =
    let delimiter = c ∷ d in
    let n = stats.cs_feats.len in
    let size : length (items stats.cs_feats) ≡ n =
      length-take n stats.cs_feats.data_of (omega (arith, v.width, v.fits)) in
    let joined = separated delimiter (map print_nat (items stats.cs_feats)) in
    let long : length joined ≤ n * 5 + (n - 1) * length delimiter =
      subst (λ k. length joined ≤ k * 5 + (k - 1) * length delimiter) size
        (subst
          (λ t.
            length t
            ≤ length (items stats.cs_feats) * 5
              + (length (items stats.cs_feats) - 1) * length delimiter)
          (join_feats-separated delimiter (items stats.cs_feats))
          (length-join_feats-le delimiter (items stats.cs_feats) w)) in
    let room = length-append delimiter (b' ' ∷ spacer) in
    elim (Bool-cases
      (ltb (length (spaced delimiter spacer)) (n * 5 + (n - 1) * length delimiter + 1))) [
        | inl short ↦ rw short (omega arith)
        | inr wide ↦ rw wide (ground arith)
      ]

-- For a creature with a feat and feats of 16 bits, and parameters that are a delimiter, a blank and
-- filling: the answer is the feats in order with the delimiter between, or -1 where the parameters
-- are shorter than that could be; it is no longer than the parameters, and the creature stays.
pub get_all_known_feats-listing :
    (stats : Stats) (delimiter spacer : Text)
    → delimiter ≢ []
    → OneWord delimiter
    → Valid stats.cs_feats
    → Words16 (items stats.cs_feats)
    → 0 < stats.cs_feats.len
    → stats.cs_feats.len * 5 + (stats.cs_feats.len - 1) * length delimiter + 1 < 2 ^ 32
    → Returns (get_all_known_feats (some stats) (delimiter ++ (b' ' ∷ spacer))) (λ a.
      (a.stats ≡ some stats)
      × (a.text ≡ some (listing stats delimiter (delimiter ++ (b' ' ∷ spacer))))
      × (length (listing stats delimiter (delimiter ++ (b' ' ∷ spacer)))
          ≤ length (delimiter ++ (b' ' ∷ spacer))))
unfolding get_all_known_feats listed
get_all_known_feats-listing stats delimiter spacer ne one v w pos fits =
    let size = size_needed_exact stats.cs_feats.len (length delimiter) pos fits (omega arith) in
    let buffer : leb (2 * length delimiter) (length delimiter) ≡ false = twice delimiter ne in
    let bound = length-listing-le stats delimiter spacer ne v w in
    rw (split_first-append b' ' delimiter spacer (OneWord-Lacks delimiter one), get_all_known_feats)
      (rw (word-skip_blanks delimiter spacer ne one) (
        rw buffer (
          rw size
            (elim (Bool-cases (
              ltb (length (spaced delimiter spacer))
                (stats.cs_feats.len * 5 + (stats.cs_feats.len - 1) * length delimiter + 1))) [
                  | inl short ↦ rw short (_, refl, (refl, refl, (rw short at bound)))
                  | inr wide ↦ rw wide (
                    _,
                    refl,
                    (
                      refl,
                      ap some (join_feats-separated delimiter (items stats.cs_feats)),
                      (rw wide at bound),
                    ),
                  )
                ]))))
