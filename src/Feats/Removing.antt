-- ===== src/Feats/Removing.antt =====
-- What RemoveFeat of NWNX_Functions/CNssFeats.cpp takes away.
use nwnx2_windows.Prelude.{
  ℕ, zero, suc, ◌+◌, ◌≡◌, refl, sym, ap, ◌∙◌, Bool, true, false, Option, none, some, arith, ltb,
  Option-cases, inl, inr, length,
}
use nwnx2_windows.ExoArrayList.{ArrayList, contains, delfeatindex, get}
use nwnx2_windows.ExoArrayList.Items.{
  Valid, items, count, is_one, delfeatindex-count, contains-Searched, Searched, get_inside,
}
use nwnx2_windows.Feats.{Stats, find_level, remove_general, remove_level, remove_feat}

-- How many of the value `v` go with a feat whose first index is given: none for index 0.
abbrev pub taken : ℕ → ℕ → Option ℕ → ℕ
taken feat v none = 0
taken feat v (some zero) = 0
taken feat v (some (suc i)) = is_one v feat

remove_general-count :
    (feats : ArrayList) (feat v : ℕ) (o : Option ℕ)
    → Valid feats
    → contains feats feat ≡ o
    → Searched feats.data_of feat 0 feats.len o
    → Valid (remove_general feats feat)
      × (count v (items (remove_general feats feat)) + taken feat v o ≡ count v (items feats))
unfolding remove_general
remove_general-count feats feat v none valid found s =
    rw (found, remove_general) (valid, omega arith)
remove_general-count feats feat v (some zero) valid found s =
    rw (found, remove_general) (valid, omega arith)
remove_general-count feats feat v (some (suc i)) valid found (Searched.present low high at first) =
    let positive : ltb 0 (suc i) ≡ true = ground arith in
    let (valid', _, counts) = delfeatindex-count feats (suc i) valid (omega arith) in
    let value : get feats (suc i) ≡ feat = get_inside feats (suc i) (omega arith) ∙ at in
    rw (found, remove_general)
      (rw positive (
        valid',
        ap (λ x. count v (items (delfeatindex feats (suc i)).0) + is_one v x) (sym value)
            ∙ counts v,
      ))

-- Without the levels: of a creature whose general list is valid one of the feat goes, unless its
-- first index is 0, and nothing else; the list stays valid, and the levels are as before.
pub remove_feat-count :
    (stats : Stats) (feat v : ℕ)
    → Valid stats.cs_feats
    → (stats' : Stats) × ((remove_feat (some stats) feat false).stats ≡ some stats')
      × Valid stats'.cs_feats
      × (count v (items stats'.cs_feats) + taken feat v (contains stats.cs_feats feat)
          ≡ count v (items stats.cs_feats))
      × (stats'.levels ≡ stats.levels)
unfolding remove_feat
remove_feat-count stats feat v valid =
    let (valid', counts) =
      remove_general-count stats.cs_feats feat v _ valid refl
        (contains-Searched stats.cs_feats feat) in
    (_, refl, valid', counts, refl)

remove_level-levels : (stats : Stats) (feat : ℕ) → (remove_level stats feat).levels ≡ stats.levels
unfolding remove_level
remove_level-levels stats feat =
    elim (Option-cases (find_level stats feat (length stats.levels + 1) 0)) [
      | inl nowhere ↦ rw (nowhere, remove_level) refl
      | inr (i, there) ↦ rw (there, remove_level) refl
    ]

-- With or without the levels no list of a level changes, although the feat may stand in one.
pub remove_feat-levels :
    (stats : Stats) (feat : ℕ) (by_level : Bool)
    → (stats' : Stats) × ((remove_feat (some stats) feat by_level).stats ≡ some stats')
      × (stats'.levels ≡ stats.levels)
unfolding remove_feat
remove_feat-levels stats feat true = (_, refl, remove_level-levels _ feat)
remove_feat-levels stats feat false = (_, refl, refl)
