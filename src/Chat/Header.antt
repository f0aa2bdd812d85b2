-- ===== src/Chat/Header.antt =====
-- The text that NWNX_Chat/NWNXChat.cpp keeps of a message: two digits for the mode, ten characters for
-- the recipient, then the message.
use mathlib.Core.List.{append_assoc, append-nil}
use nwnx2_windows.Prelude.{
  ℕ, ◌+◌, ◌-◌, ◌≤◌, ◌<◌, ◌≡◌, refl, sym, ap, ◌∙◌, true, false, List, [], ◌∷◌, ◌++◌, done, fault,
  Returns, arith, ltb, length, length-append, length-replicate, take, drop, replicate, Text, pos,
  print_nat, print_int, pad_left, read_int, signed32, length-print_nat-le, Bool-cases, inl, inr,
  read_int-print_nat, read_int-print_int, length-take-le, length-take,
}
use nwnx2_windows.Chat.{header, stored, copy_out}

take-append {ℓ} : {A : Type ℓ} (xs ys : List A) → take (length xs) (xs ++ ys) ≡ xs
take-append [] ys = refl
take-append (x ∷ xs) ys = ap (λ zs. x ∷ zs) (take-append xs ys)

drop-append {ℓ} : {A : Type ℓ} (xs ys : List A) → drop (length xs) (xs ++ ys) ≡ ys
drop-append [] ys = refl
drop-append (x ∷ xs) ys = drop-append xs ys

length-pad_left : (width c : ℕ) (s : Text) → length s ≤ width → length (pad_left width c s) ≡ width
length-pad_left width c s h =
    omega (
      arith,
      length-append (replicate (width - length s) c) s,
      length-replicate (width - length s) c,
    )

-- The recipient's number has at most ten characters.
abbrev pub Short : ℕ → Type 0
Short to = length (print_int (signed32 to)) ≤ 10

take-append-eq {ℓ} : {A : Type ℓ} (n : ℕ) (xs ys : List A) → length xs ≡ n → take n (xs ++ ys) ≡ xs
take-append-eq n xs ys e = ap (λ k. take k (xs ++ ys)) (sym e) ∙ take-append xs ys

drop-append-eq {ℓ} : {A : Type ℓ} (n : ℕ) (xs ys : List A) → length xs ≡ n → drop n (xs ++ ys) ≡ ys
drop-append-eq n xs ys e = ap (λ k. drop k (xs ++ ys)) (sym e) ∙ drop-append xs ys

abbrev mode_field : ℕ → Text
mode_field mode = pad_left 2 b'0' (print_nat mode)

abbrev to_field : ℕ → Text
to_field to = pad_left 10 b' ' (print_int (signed32 to))

length-mode_field : (mode : ℕ) → mode < 100 → length (mode_field mode) ≡ 2
length-mode_field mode h =
    length-pad_left 2 b'0' (print_nat mode) (length-print_nat-le 1 mode (omega arith))

pub length-header : (mode to : ℕ) → mode < 100 → Short to → length (header mode to) ≡ 12
unfolding header
length-header mode to h k = omega (
  arith,
  length-append (mode_field mode) (to_field to),
  length-mode_field mode h,
  length-pad_left 10 b' ' (print_int (signed32 to)) k,
)

pub stored-done :
    (limit mode : ℕ) (msg : Text) (to : ℕ)
    → mode < 100
    → Short to
    → stored limit mode msg to ≡ done (header mode to ++ take limit msg)
unfolding stored copy_out
stored-done limit mode msg to h k =
    let size = length-header mode to h k in
    let first : ltb (length (header mode to)) (limit + 13) ≡ true = ground arith in
    let second : ltb (length (header mode to ++ take limit msg)) (limit + 13) ≡ true =
      ground (arith, length-append (header mode to) (take limit msg), length-take-le limit msg) in
    rw first (rw second refl)

read_mode : (mode : ℕ) → read_int (mode_field mode) ≡ pos mode
read_mode mode = ap read_int (sym (append-nil (mode_field mode))) ∙ read_int-print_nat 2 mode [] tt

read_to : (to : ℕ) → read_int (to_field to) ≡ signed32 to
read_to to =
    ap read_int (sym (append-nil (to_field to))) ∙ read_int-print_int 10 (signed32 to) [] tt

-- For a mode of two digits and a recipient of at most ten characters the text is always stored, and
-- gives back all three: the first two bytes the mode, the next ten the recipient, and the others the
-- message, up to the configured length.
pub stored-fields :
    (limit mode : ℕ) (msg : Text) (to : ℕ)
    → mode < 100
    → Short to
    → Returns (stored limit mode msg to) (λ text.
      (read_int (take 2 text) ≡ pos mode)
      × (read_int (take 10 (drop 2 text)) ≡ signed32 to)
      × (drop 12 text ≡ take limit msg))
unfolding header
stored-fields limit mode msg to h k =
    let a = mode_field mode in
    let b = to_field to in
    let m = take limit msg in
    let size-a = length-mode_field mode h in
    let size-b = length-pad_left 10 b' ' (print_int (signed32 to)) k in
    (
      header mode to ++ m,
      stored-done limit mode msg to h k,
      (
        ap read_int (ap (take 2) (append_assoc a b m) ∙ take-append-eq 2 a (b ++ m) size-a)
            ∙ read_mode mode,
        ap read_int (
              ap (take 10) (ap (drop 2) (append_assoc a b m) ∙ drop-append-eq 2 a (b ++ m) size-a)
              ∙ take-append-eq 10 b m size-b)
            ∙ read_to to,
        drop-append-eq 12 (header mode to) m (length-header mode to h k),
      ),
    )

-- For a mode of three digits and a recipient of ten or eleven characters a message of the configured
-- length or more does not fit.
pub stored-fault :
    (limit mode : ℕ) (msg : Text) (to : ℕ)
    → 13 ≤ length (header mode to)
    → limit ≤ length msg
    → stored limit mode msg to ≡ fault
unfolding stored copy_out
stored-fault limit mode msg to h k =
    let full : length (take limit msg) ≡ limit = length-take limit msg k in
    elim (Bool-cases (ltb (length (header mode to)) (limit + 13))) [
      | inl room ↦
          let second : ltb (length (header mode to ++ take limit msg)) (limit + 13) ≡ false =
            ground (arith, length-append (header mode to) (take limit msg)) in
          rw room (rw second refl)
      | inr none_left ↦ rw none_left refl
    ]
