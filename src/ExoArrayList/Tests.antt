-- ===== src/ExoArrayList/Tests.antt =====
-- Arrays with concrete elements.
use nwnx2_windows.Prelude.{◌≡◌, refl, [], ◌∷◌, arith}
use nwnx2_windows.ExoArrayList.{ArrayList, delfeatvalue_from, delfeatvalue}
use nwnx2_windows.ExoArrayList.DelValue.{Thinned, delfeatvalue-Thinned}
use nwnx2_windows.ExoArrayList.Items.{Valid}

-- a full array
abbrev feats : ArrayList
feats = record { data_of = 4 ∷ 28 ∷ 4 ∷ 7 ∷ []; len = 4; alloc = 4 }

feats-Valid : Valid feats
feats-Valid = record { width = refl; fits = omega arith }

-- the element that moves to a deleted index is not looked at
delfeatvalue_twice :
    delfeatvalue (record { data_of = 4 ∷ 4 ∷ []; len = 2; alloc = 2 }) 4
    ≡ (record { data_of = 4 ∷ 4 ∷ []; len = 1; alloc = 2 }, 1)
unfolding delfeatvalue
delfeatvalue_twice = refl

delfeatvalue-Thinned_example :
    Thinned 4 feats (delfeatvalue feats 4).0
    × ((delfeatvalue feats 4).1 ≡ (delfeatvalue feats 4).0.len)
    × ((delfeatvalue feats 4).0 ≡ delfeatvalue_from 5 feats 4 0)
delfeatvalue-Thinned_example = delfeatvalue-Thinned feats 4 feats-Valid
