-- ===== src/Scan/First.antt =====
-- A search finds the lowest address at which its pattern stands, or none.
use nwnx2_windows.Memory.{Memory}
use nwnx2_windows.Prelude.{
  ℕ, zero, suc, ◌+◌, ◌≤◌, ◌<◌, ◌≡◌, ◌≢◌, refl, sym, ◌⊎◌, inl, inr, true, false, ◌==◌, Bool-cases,
  ==_iff, arith,
}
use nwnx2_windows.Scan.{
  Pattern, matches, scan, find_in_image, find_hook, hook_pattern, find_object_hook,
  object_hook_pattern, find_chat, chat_pattern, find_get_pc_obj_by_oid, get_pc_obj_by_oid_pattern,
  find_run_script, run_script_pattern, run_script_fallback_pattern, find_hook_sco, hook_sco_pattern,
  find_hook_rco, hook_rco_pattern, find_hook_run_script, hook_run_script_pattern,
  find_hook_cross_area_path_find, hook_cross_area_path_find_pattern, find_hook_path_find,
  hook_path_find_pattern,
}

-- the pattern stands at none of the addresses from `lo` to `hi`
abbrev pub Absent : Pattern → Memory → ℕ → ℕ → Type 0
Absent pattern mem lo hi = (p : ℕ) → lo ≤ p → p < hi → matches pattern mem p ≡ false

-- the result of a search from `lo` to `hi`
pub data First (pattern : Pattern) (mem : Memory) (lo hi : ℕ) : ℕ → Type 0 where
  nowhere : Absent pattern mem lo hi → First pattern mem lo hi 0
  at :
      {p : ℕ}
      → lo ≤ p
      → p < hi
      → matches pattern mem p ≡ true
      → Absent pattern mem lo p
      → First pattern mem lo hi p

abbrev pub InImage : Pattern → Memory → ℕ → Type 0
InImage pattern mem r = First pattern mem 0x400000 0x600000 r

extend :
    (pattern : Pattern) (mem : Memory) (ptr hi : ℕ)
    → matches pattern mem ptr ≡ false
    → Absent pattern mem (ptr + 1) hi
    → Absent pattern mem ptr hi
extend pattern mem ptr hi miss gone p lo below = elim (Bool-cases (p == ptr)) [
  | inl same ↦ rw ((==_iff p ptr).0 same) miss
  | inr other ↦ gone p (ground arith) below
]

-- the first address did not match
later :
    {pattern : Pattern} {mem : Memory} {ptr hi r : ℕ}
    → matches pattern mem ptr ≡ false
    → First pattern mem (ptr + 1) hi r
    → First pattern mem ptr hi r
later {pattern} {mem} {ptr} {hi} miss (nowhere gone) = nowhere (extend pattern mem ptr hi miss gone)
later {pattern} {mem} {ptr} miss (at {p} lo below here gone) =
    at (omega arith) below here (extend pattern mem ptr p miss gone)

scan-First :
    (pattern : Pattern) (n : ℕ) (mem : Memory) (ptr hi : ℕ)
    → ptr + n ≡ hi
    → First pattern mem ptr hi (scan pattern n mem ptr)
unfolding scan
scan-First pattern zero mem ptr hi e = nowhere (λ p lo below. absurd (omega arith))
scan-First pattern (suc n) mem ptr hi e = elim (Bool-cases (matches pattern mem ptr)) [
  | inl here ↦ rw here (at (omega arith) (omega arith) here (λ p lo below. absurd (omega arith)))
  | inr not_here ↦
      rw not_here (later not_here (scan-First pattern n mem (ptr + 1) hi (omega arith)))
]

find_in_image-First :
    (pattern : Pattern) (mem : Memory) → InImage pattern mem (find_in_image pattern mem)
unfolding find_in_image
find_in_image-First pattern mem = scan-First pattern 0x200000 mem 0x400000 0x600000 refl

-- The nine searches with one loop return the lowest address of the image at which their pattern
-- stands, and NULL exactly where it stands nowhere in the image.
pub finders-First :
    (mem : Memory)
    → InImage hook_pattern mem (find_hook mem)
      × InImage object_hook_pattern mem (find_object_hook mem)
      × InImage chat_pattern mem (find_chat mem)
      × InImage get_pc_obj_by_oid_pattern mem (find_get_pc_obj_by_oid mem)
      × InImage hook_sco_pattern mem (find_hook_sco mem)
      × InImage hook_rco_pattern mem (find_hook_rco mem)
      × InImage hook_run_script_pattern mem (find_hook_run_script mem)
      × InImage hook_cross_area_path_find_pattern mem (find_hook_cross_area_path_find mem)
      × InImage hook_path_find_pattern mem (find_hook_path_find mem)
unfolding find_hook find_object_hook find_chat find_get_pc_obj_by_oid find_hook_sco find_hook_rco
    find_hook_run_script find_hook_cross_area_path_find find_hook_path_find
finders-First mem = (
  find_in_image-First hook_pattern mem,
  find_in_image-First object_hook_pattern mem,
  find_in_image-First chat_pattern mem,
  find_in_image-First get_pc_obj_by_oid_pattern mem,
  find_in_image-First hook_sco_pattern mem,
  find_in_image-First hook_rco_pattern mem,
  find_in_image-First hook_run_script_pattern mem,
  find_in_image-First hook_cross_area_path_find_pattern mem,
  find_in_image-First hook_path_find_pattern mem,
)

-- the two patterns differ in the byte at offset 5
conflict :
    (mem : Memory) (p : ℕ)
    → matches hook_sco_pattern mem p ≡ true
    → matches hook_rco_pattern mem p ≡ true
    → ⊥
unfolding matches
conflict mem p s r = ground arith

First-matches :
    (pattern : Pattern) (mem : Memory) {lo hi r : ℕ}
    → First pattern mem lo hi r
    → r ≢ 0
    → matches pattern mem r ≡ true
First-matches pattern mem (nowhere gone) h = absurd (h refl)
First-matches pattern mem (at lo below here gone) h = here

-- The ODBC2 searches for the functions that store and that retrieve a campaign object never return
-- the same address, unless they return NULL.
pub find_hook_sco-find_hook_rco :
    (mem : Memory) → (find_hook_sco mem ≡ 0) ⊎ (find_hook_sco mem ≢ find_hook_rco mem)
unfolding find_hook_sco find_hook_rco
find_hook_sco-find_hook_rco mem = elim (Bool-cases (find_in_image hook_sco_pattern mem == 0)) [
  | inl null ↦ inl ((==_iff _ 0).0 null)
  | inr found ↦
      let there : find_in_image hook_sco_pattern mem ≢ 0 = λ e. absurd (not_null _ found e) in
      inr (λ same. absurd (
        conflict mem (find_in_image hook_sco_pattern mem)
          (First-matches hook_sco_pattern mem (find_in_image-First hook_sco_pattern mem) there)
          (rw same (
            First-matches hook_rco_pattern mem (find_in_image-First hook_rco_pattern mem)
              (rw (← same) there)))))
]
  where
    not_null : (n : ℕ) → (n == 0) ≡ false → n ≡ 0 → ⊥
    not_null n h e = ground arith

as_null :
    (pattern : Pattern) (mem : Memory) (r : ℕ)
    → InImage pattern mem r
    → r ≡ 0
    → InImage pattern mem 0
as_null pattern mem r first e = rw (sym e) first

-- The Chat search for RunScript returns the lowest address of its first pattern where that pattern
-- stands in the image, else the lowest address of its second pattern, else NULL.
pub find_run_script-First :
    (mem : Memory)
    → ((find_run_script mem ≢ 0) × InImage run_script_pattern mem (find_run_script mem))
      ⊎ (InImage run_script_pattern mem 0
          × InImage run_script_fallback_pattern mem (find_run_script mem))
unfolding find_run_script
find_run_script-First mem = elim (Bool-cases (find_in_image run_script_pattern mem == 0)) [
  | inl null ↦ rw null (
      inr (
        as_null run_script_pattern mem _ (find_in_image-First run_script_pattern mem)
            ((==_iff (find_in_image run_script_pattern mem) 0).0 null),
        find_in_image-First run_script_fallback_pattern mem,
      ))
  | inr found ↦ rw found (inl (λ e. ground arith, find_in_image-First run_script_pattern mem))
]
