-- ===== src/Params/Tests.antt =====
-- Runs of CParams, and the theorem at concrete numbers.
use nwnx2_windows.Prelude.{◌≡◌, refl, [], ◌∷◌, codes, pos, negsuc, arith, split_first, bits32}
use nwnx2_windows.Params.{
  char_target, int_target, unsigned_target, extract_p1, extract, extract_one, fitting, next_piece,
}
use nwnx2_windows.Params.ReadBack.{written, extract-written}

first_only : extract_p1 (codes "12 7") int_target (pos 0) ≡ pos 12
unfolding extract_p1
first_only = refl

-- What is left of a fraction stands before the next number.
fraction :
    extract (codes "1.5 2") b' ' ((int_target, pos 0) ∷ (int_target, pos 9) ∷ [])
    ≡ pos 1 ∷ pos 9 ∷ []
unfolding extract next_piece extract_one split_first
fraction = refl

-- A third variable is read from the start again where there are no more pieces.
again :
    extract (codes "4") b' ' ((char_target, pos 0) ∷ (int_target, pos 0) ∷ (int_target, pos 0) ∷ [])
    ≡ pos 4 ∷ pos 0 ∷ pos 4 ∷ []
unfolding extract next_piece extract_one split_first bits32
again = refl

extract-written_example :
    extract
      (written b' ' (pos 200 ∷ negsuc 4 ∷ pos 70000 ∷ []))
      b' '
      ((char_target, pos 0) ∷ (int_target, pos 0) ∷ (unsigned_target, pos 0) ∷ [])
    ≡ pos 200 ∷ negsuc 4 ∷ pos 70000 ∷ []
unfolding fitting bits32
extract-written_example =
    extract-written b' '
      ((char_target, pos 0) ∷ (int_target, pos 0) ∷ (unsigned_target, pos 0) ∷ []) (pos 200)
      (negsuc 4 ∷ pos 70000 ∷ []) (refl, omega arith) (refl, (refl, (refl, tt)))
