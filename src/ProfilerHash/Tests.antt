-- ===== src/ProfilerHash/Tests.antt =====
-- The profiler's table on concrete inputs.
use nwnx2_windows.Prelude.{
  ℕ, zero, suc, get_or, true, ◌^◌, ◌%◌, ◌≡◌, refl, none, some, [], ◌∷◌, codes, text_eq, done, ◌>>=◌,
  Returns, if◌then◌else◌, length, replicate, arith,
}
use nwnx2_windows.ProfilerHash.{Table, hash, construct_table, insert, lookup, del}
use nwnx2_windows.ProfilerHash.Chains.{Distinct, returned_data, kept_data}
use nwnx2_windows.ProfilerHash.Laws.{
  Chains, Holds, construct_table-Holds, lookup-insert_chained, lookup-del,
}

abbrev chains : Chains ℕ
chains =
    (record { key = codes "nw_c2_default1"; data_of = 7 }
      ∷ record { key = codes "nw_o0_death"; data_of = 8 }
      ∷ [])
    ∷ []

abbrev table : Table ℕ
table = record { size = 1; table = some chains }

table-Holds : Holds table chains
unfolding lookup
table-Holds = record { points = refl; width = refl; positive = omega arith; distinct = distinct }
  where
    distinct : (i : ℕ) → Distinct (get_or chains i [])
    distinct zero = (refl, (refl, tt))
    distinct (suc i) = tt

-- a key of two blocks
hash_example : hash (codes "nw_c2_default1") 42 % 2 ^ 32 ≡ hash (codes "nw_c2_default1") 42
unfolding hash
hash_example = refl

construct_table-Holds_example : Holds (construct_table {D = ℕ} true 100) (replicate 100 [])
construct_table-Holds_example = construct_table-Holds 100 (omega arith)

lookup-insert_chained_example : Returns (insert true (codes "nw_o0_death") 9 table) λ r.
    ((chains' : Chains ℕ) × Holds r.0 chains' × (length chains' ≡ length chains))
    × (lookup (codes "nw_o0_death") table >>= (λ old. done (returned_data true 9 old)) ≡ done r.1)
    × (lookup (codes "nw_c2_default1") r.0 ≡ (
        if text_eq (codes "nw_o0_death") (codes "nw_c2_default1")
        then lookup (codes "nw_o0_death") table >>= (λ old. done (kept_data true 9 old))
        else lookup (codes "nw_c2_default1") table))
lookup-insert_chained_example =
    lookup-insert_chained table-Holds true (codes "nw_o0_death") (codes "nw_c2_default1") 9

lookup-del_example : Returns (del (codes "nw_o0_death") table) λ r.
    ((chains' : Chains ℕ) × Holds r.0 chains' × (length chains' ≡ length chains))
    × (lookup (codes "nw_o0_death") table ≡ done r.1)
    × (lookup (codes "nw_c2_default1") r.0 ≡ (
        if text_eq (codes "nw_o0_death") (codes "nw_c2_default1")
        then done none
        else lookup (codes "nw_c2_default1") table))
lookup-del_example = lookup-del table-Holds (codes "nw_o0_death") (codes "nw_c2_default1")

there : lookup (codes "nw_o0_death") table ≡ done (some 8)
unfolding lookup hash
there = refl
