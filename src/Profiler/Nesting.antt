-- ===== src/Profiler/Nesting.antt =====
-- One call that is opened or closed: the profiler stays ready, and one entry of its table changes.
use nwnx2_windows.Prelude.{
  ℕ, ◌+◌, ◌-◌, ◌%◌, ◌^◌, ◌<◌, ◌≤◌, ◌≡◌, refl, sym, ap, ◌∙◌, true, false, inl, inr, Option, none,
  some, [], Text, text_eq, done, ◌>>=◌, Returns, ◌==◌, if◌then◌else◌, length, get_or, length-set,
  replicate, Bool-cases, arith,
}
use nwnx2_windows.ProfilerHash.Chains.{kept_data}
use nwnx2_windows.ProfilerHash
use nwnx2_windows.ProfilerHash.{Bucket, Table, find}
use nwnx2_windows.ProfilerHash.Laws.{
  Chains, Holds, chain_of, lookup_lem, lookup-insert_chained, construct_table-Holds,
}
use nwnx2_windows.Profiler.{
  max_call_depth, ScriptData, Profile, hook_run_script, enter, close_call, timed, in_units, leave,
}
use nwnx2_windows.Profiler.Tables.{figures, figures_of, close_call-Closed}

-- the profiler between two events
pub record Ready (p : Profile) : Type 0 where
  pub chains : Chains ScriptData
  pub holds : Holds p.script_hash chains
  pub deep : p.depth ≤ max_call_depth
  pub names : length p.script_name ≡ max_call_depth
  pub times : length p.last ≡ max_call_depth
  pub clock : 0 < p.frequency

-- The profiler is ready when its hooks are installed on a machine with a clock.
pub hook_run_script-Ready :
    (frequency now : ℕ) → 0 < frequency → Ready (hook_run_script frequency now)
unfolding hook_run_script
hook_run_script-Ready frequency now h = record {
  chains = replicate 2048 [];
  holds = construct_table-Holds 2048 (omega arith);
  deep = omega arith;
  names = refl;
  times = refl;
  clock = h;
}

pub enter-Ready : (p : Profile) (name : Text) (now : ℕ) → Ready p → Ready (enter p name now)
unfolding enter
enter-Ready p name now is = record {
  chains = is.chains;
  holds = is.holds;
  deep = ground (arith, is.deep);
  names = length-set p.script_name _ name ∙ is.names;
  times = length-set p.last _ now ∙ is.times;
  clock = is.clock;
}

-- one more call of a script, which took this long
abbrev pub one_more : Option (ℕ × ℕ) → ℕ → Option (ℕ × ℕ)
one_more none elapsed = some (1, elapsed)
one_more (some (calls, total)) elapsed = some ((calls + 1) % 2 ^ 32, (total + elapsed) % 2 ^ 32)

figures-timed :
    (old : Option ScriptData) (elapsed : ℕ)
    → some ((timed old elapsed).calls, (timed old elapsed).elapsed) ≡ one_more (figures old) elapsed
unfolding timed
figures-timed none elapsed = refl
figures-timed (some script) elapsed = refl

-- what a call that ends leaves behind
pub record Left (p : Profile) (name : Text) (elapsed : ℕ) (q : Profile) : Type 0 where
  pub ready : Ready q
  pub depth : q.depth ≡ p.depth - 1
  pub script : q.empty_script ≡ p.empty_script
  pub names : q.script_name ≡ p.script_name
  pub times : q.last ≡ p.last
  pub counted :
      (k : Text)
      → figures_of q.script_hash k ≡ (
          if text_eq name k
          then figures_of p.script_hash name >>= (λ old. done (one_more old elapsed))
          else figures_of p.script_hash k)

un_done : {r r' : Table ScriptData × Option ScriptData} → done r ≡ done r' → r ≡ r'
un_done h = cc

-- the figures in the table with the new entry
stored_given : (d : ScriptData) (old : Option ScriptData) → kept_data true d old ≡ some d
stored_given d none = refl
stored_given d (some x) = refl

stored_figures :
    {p : Profile} (is : Ready p) (name k : Text) (elapsed : ℕ)
    (stored : Table ScriptData × Option ScriptData)
    → ProfilerHash.insert true name
        (timed (find name (chain_of is.chains name)) elapsed)
        p.script_hash
      ≡ done stored
    → figures_of stored.0 k ≡ (
        if text_eq name k
        then figures_of p.script_hash name >>= (λ old. done (one_more old elapsed))
        else figures_of p.script_hash k)
stored_figures {p} is name k elapsed stored run =
    let old = find name (chain_of is.chains name) in
    let (stored', run', w) = lookup-insert_chained is.holds true name k (timed old elapsed) in
    let same : stored' ≡ stored = un_done (sym run' ∙ run) in
    ap (λ r. figures_of r.0 k) (sym same)
    ∙ ap (λ found. found >>= λ script. done (figures script)) w.2
    ∙ elim (Bool-cases (text_eq name k)) [
      | inl equal ↦
          rw (equal, lookup_lem is.holds name, stored_given (timed old elapsed) old)
            (ap done (figures-timed old elapsed))
      | inr other ↦ rw other refl
    ]

pub leave-Left :
    (p : Profile) (now again : ℕ)
    → Ready p
    → 0 < p.depth
    → Returns (leave p now again) (
        Left p
          (get_or p.script_name (p.depth - 1) [])
          (in_units 1000000 now (get_or p.last (p.depth - 1) 0) p.frequency))
unfolding leave
leave-Left p now again is opened =
    let name = get_or p.script_name (p.depth - 1) [] in
    let elapsed = in_units 1000000 now (get_or p.last (p.depth - 1) 0) p.frequency in
    let old = find name (chain_of is.chains name) in
    let (stored, run, w) = lookup-insert_chained is.holds true name name (timed old elapsed) in
    let p' = record p { script_hash = stored.0 } in
    let closed = close_call-Closed p' now again w.0.1 in
    let deep : (p.depth == 0) ≡ false = ground (arith, opened) in
    let ticking : (p.frequency == 0) ≡ false = ground (arith, is.clock) in
    (
      close_call p' now again,
      rw (deep, ticking, lookup_lem is.holds name, run) refl,
      record {
        ready = record {
          chains = closed.table.chains';
          holds = closed.table.holds;
          deep = omega (arith, closed.depth, is.deep);
          names = ap length closed.names ∙ is.names;
          times = ap length closed.times ∙ is.times;
          clock = omega (arith, closed.clock, is.clock);
        };
        depth = closed.depth;
        script = closed.script;
        names = closed.names;
        times = closed.times;
        counted = λ k. closed.table.figures_same k ∙ stored_figures is name k elapsed stored run;
      },
    )
