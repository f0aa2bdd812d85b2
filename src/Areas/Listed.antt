-- ===== src/Areas/Listed.antt =====
-- NWNX_Functions/CNssAreas.cpp: what a script hears that asks for the first area and then for the next
-- ones.
use nwnx2_windows.Prelude.{
  ℕ, zero, suc, ◌+◌, ◌≡◌, ◌≢◌, refl, ap, ◌∙◌, false, List, [], ◌∷◌, arith, ◌==◌, get_or, drop, Text,
  ℤ, pos, negsuc,
}
use nwnx2_windows.Areas.{
  object_invalid, print_object, get_area_by_pos, get_first_area, get_next_area,
}

-- No area has the id of no object.
abbrev pub Real : List ℕ → Type 0
Real [] = Unit
Real (area ∷ areas) = (area ≢ object_invalid) × Real areas

-- The answers to GetNextArea, as often as `n`.
abbrev pub next_areas : List ℕ → ℤ → ℕ → List Text
unfolding get_next_area get_area_by_pos
next_areas areas index zero = []
next_areas areas index (suc n) =
    let (index', text, value) = get_next_area areas index in text ∷ next_areas areas index' n

-- The areas in order, and the id of no object behind them.
abbrev pub listing : List ℕ → ℕ → List Text
listing areas zero = []
listing [] (suc n) = print_object object_invalid ∷ listing [] n
listing (area ∷ areas) (suc n) = print_object area ∷ listing areas n

get_or-drop : (xs : List ℕ) (k d : ℕ) → get_or xs k d ≡ get_or (drop k xs) 0 d
get_or-drop xs zero d = refl
get_or-drop [] (suc k) d = refl
get_or-drop (x ∷ xs) (suc k) d = get_or-drop xs k d

drop-suc : (xs : List ℕ) (k : ℕ) → drop (suc k) xs ≡ drop 1 (drop k xs)
drop-suc xs zero = refl
drop-suc [] (suc k) = refl
drop-suc (x ∷ xs) (suc k) = drop-suc xs k

next_areas-ended : (areas : List ℕ) (n : ℕ) → next_areas areas (negsuc 0) n ≡ listing [] n
unfolding next_areas get_next_area
next_areas-ended areas zero = refl
next_areas-ended areas (suc n) =
    ap (λ ts. print_object object_invalid ∷ ts) (next_areas-ended areas n)

get_or-rest :
    (areas rest : List ℕ) (i : ℕ)
    → drop (suc i) areas ≡ rest
    → get_or areas (i + 1) object_invalid ≡ get_or rest 0 object_invalid
get_or-rest areas rest i e =
    ap (λ k. get_or areas k object_invalid) (omega arith)
    ∙ get_or-drop areas (suc i) object_invalid
    ∙ ap (λ xs. get_or xs 0 object_invalid) e

next_areas-listing :
    (areas rest : List ℕ) (i n : ℕ)
    → drop (suc i) areas ≡ rest
    → Real rest
    → next_areas areas (pos i) n ≡ listing rest n
unfolding next_areas get_next_area get_area_by_pos
next_areas-listing areas rest i zero e h = refl
next_areas-listing areas [] i (suc n) e h =
    rw (get_or-rest areas [] i e)
      (ap (λ ts. print_object object_invalid ∷ ts) (next_areas-ended areas n))
next_areas-listing areas (area ∷ rest) i (suc n) e (there, h) =
    let real : (area == object_invalid) ≡ false = ground arith in
    let next : i + 1 ≡ suc i = omega arith in
    rw (get_or-rest areas (area ∷ rest) i e) (
      rw real (
        ap (λ ts. print_object area ∷ ts)
          (ap (λ k. next_areas areas (pos k) n) next
            ∙ next_areas-listing areas rest (suc i) n (drop-suc areas (suc i) ∙ ap (drop 1) e) h)))

-- The answers to GetFirstArea and to any number of GetNextArea after it are the module's areas, each
-- once and in order, and from then on the id of no object, which no area has.
pub get_first_area-listing :
    (areas : List ℕ) (n : ℕ)
    → Real areas
    → (get_first_area areas).1 ∷ next_areas areas (get_first_area areas).0 n ≡ listing areas (suc n)
unfolding get_first_area get_area_by_pos
get_first_area-listing [] n h = ap (λ ts. print_object object_invalid ∷ ts) (next_areas-ended [] n)
get_first_area-listing (area ∷ areas) n (there, h) =
    let real : (area == object_invalid) ≡ false = ground arith in
    rw real (ap (λ ts. print_object area ∷ ts) (next_areas-listing (area ∷ areas) areas 0 n refl h))
