-- ===== src/Profiler/Tables.antt =====
-- Writing the statistics changes no figure of the profiler's table.
use nwnx2_windows.Prelude.{
  ℕ, zero, suc, ◌-◌, ◌≡◌, refl, sym, ap, ◌∙◌, Bool, true, false, inl, inr, Option, none, some, List,
  [], ◌∷◌, Text, text_eq, Outcome, done, ◌>>=◌, if◌then◌else◌, ltb, length, get_or, Bool-cases,
  arith,
}
use nwnx2_windows.ProfilerHash
use nwnx2_windows.ProfilerHash.{Bucket, Table, find}
use nwnx2_windows.ProfilerHash.Chains.{Distinct}
use nwnx2_windows.ProfilerHash.Laws.{Chains, Holds, home, chain_of, lookup_lem}
use nwnx2_windows.Profiler.{
  ScriptData, Profile, unmark_chain, unmark_chains, flush_chains, flush_statistics, close_call,
  in_units,
}

-- the calls and the time of a script
abbrev pub figures : Option ScriptData → Option (ℕ × ℕ)
figures none = none
figures (some script) = some (script.calls, script.elapsed)

abbrev pub figures_of : Table ScriptData → Text → Outcome (Option (ℕ × ℕ))
figures_of t name = ProfilerHash.lookup name t >>= λ script. done (figures script)

find-unmark_chain :
    (k : Text) (chain : List (Bucket ScriptData))
    → figures (find k (unmark_chain chain)) ≡ figures (find k chain)
unfolding find
find-unmark_chain k [] = refl
find-unmark_chain k (node ∷ chain) = elim (Bool-cases (text_eq k node.key)) [
  | inl same ↦ rw same refl
  | inr other ↦ rw other (find-unmark_chain k chain)
]

figures-none : (o : Option ScriptData) → figures o ≡ none → o ≡ none
figures-none none h = refl
figures-none (some script) h = cc

Distinct-unmark_chain :
    (chain : List (Bucket ScriptData)) → Distinct chain → Distinct (unmark_chain chain)
Distinct-unmark_chain [] distinct = tt
Distinct-unmark_chain (node ∷ chain) (absent, distinct) = (
  figures-none (find node.key (unmark_chain chain))
      (find-unmark_chain node.key chain ∙ ap figures absent),
  Distinct-unmark_chain chain distinct,
)

length-unmark_chains : (chains : Chains ScriptData) → length (unmark_chains chains) ≡ length chains
length-unmark_chains [] = refl
length-unmark_chains (chain ∷ chains) = ap suc (length-unmark_chains chains)

get_or-unmark_chains :
    (chains : Chains ScriptData) (i : ℕ)
    → get_or (unmark_chains chains) i [] ≡ unmark_chain (get_or chains i [])
get_or-unmark_chains [] i = refl
get_or-unmark_chains (chain ∷ chains) zero = refl
get_or-unmark_chains (chain ∷ chains) (suc i) = get_or-unmark_chains chains i

-- the table of `q` is well formed and has the figures of `t`
pub record SameFigures (t t' : Table ScriptData) (chains : Chains ScriptData) : Type 0 where
  pub chains' : Chains ScriptData
  pub holds : Holds t' chains'
  pub width : length chains' ≡ length chains
  pub figures_same : (k : Text) → figures_of t' k ≡ figures_of t k

figures_of_lem :
    {t : Table ScriptData} {chains : Chains ScriptData}
    → Holds t chains
    → (k : Text) → figures_of t k ≡ done (figures (find k (chain_of chains k)))
figures_of_lem is k = rw (lookup_lem is k) refl

unmark-SameFigures :
    {t : Table ScriptData} {chains : Chains ScriptData}
    → Holds t chains
    → SameFigures t (record { size = t.size; table = some (unmark_chains chains) }) chains
unmark-SameFigures {t} {chains} is =
    let holds : Holds (record { size = t.size; table = some (unmark_chains chains) })
        (unmark_chains chains) =
      record {
        points = refl;
        width = is.width ∙ sym (length-unmark_chains chains);
        positive = omega (arith, is.positive, length-unmark_chains chains);
        distinct = λ i.
            rw (get_or-unmark_chains chains i)
              (Distinct-unmark_chain (get_or chains i []) (is.distinct i));
      } in
    record {
      chains' = unmark_chains chains;
      holds = holds;
      width = length-unmark_chains chains;
      figures_same = λ k.
          figures_of_lem holds k
          ∙ ap done (
              rw (length-unmark_chains chains, get_or-unmark_chains chains (home chains k))
                (find-unmark_chain k (chain_of chains k)))
          ∙ sym (figures_of_lem is k);
    }

-- what the end of `StopTimer` leaves
pub record Closed (p : Profile) (chains : Chains ScriptData) (q : Profile) : Type 0 where
  pub table : SameFigures p.script_hash q.script_hash chains
  pub depth : q.depth ≡ p.depth - 1
  pub names : q.script_name ≡ p.script_name
  pub times : q.last ≡ p.last
  pub script : q.empty_script ≡ p.empty_script
  pub clock : q.frequency ≡ p.frequency

flush_chains-Closed :
    (p : Profile) {chains : Chains ScriptData} (again : ℕ) (o : Option (Chains ScriptData))
    → Holds p.script_hash chains
    → o ≡ some chains
    → Closed p chains
        (record (flush_chains (record p { last_statistic = again }) o) { depth = p.depth - 1 })
unfolding flush_chains
flush_chains-Closed p again none is e = cc
flush_chains-Closed p {chains} again (some cs) is e =
    let same : cs ≡ chains = cc in
    rw same (record {
      table = unmark-SameFigures is;
      depth = refl;
      names = refl;
      times = refl;
      script = refl;
      clock = refl;
    })

flush_statistics-Closed :
    (p : Profile) {chains : Chains ScriptData} (again : ℕ)
    → Holds p.script_hash chains
    → Closed p chains
        (record (flush_statistics (record p { last_statistic = again })) { depth = p.depth - 1 })
unfolding flush_statistics
flush_statistics-Closed p again is = flush_chains-Closed p again p.script_hash.table is is.points

quiet-Closed :
    (p : Profile) {chains : Chains ScriptData}
    → Holds p.script_hash chains
    → Closed p chains (record p { depth = p.depth - 1 })
quiet-Closed p {chains} is = record {
  table = record { chains' = chains; holds = is; width = refl; figures_same = λ k. refl };
  depth = refl;
  names = refl;
  times = refl;
  script = refl;
  clock = refl;
}

pub close_call-Closed :
    (p : Profile) {chains : Chains ScriptData} (now again : ℕ)
    → Holds p.script_hash chains
    → Closed p chains (close_call p now again)
unfolding close_call
close_call-Closed p {chains} now again is =
    choose (ltb 10000 (in_units 1000 now p.last_statistic p.frequency)) _ _
      (flush_statistics-Closed p again is) (quiet-Closed p is)
  where
    choose :
        (b : Bool) (q q' : Profile)
        → Closed p chains q
        → Closed p chains q'
        → Closed p chains (if b then q else q')
    choose true q q' w w' = w
    choose false q q' w w' = w'
