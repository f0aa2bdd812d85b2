-- ===== src/Profiler.antt =====
-- Profiler/HookRunScript.cpp: the timers around scripts and path finding. The hooks call
-- `myRunScript`, `myRunScriptPart`, `MyCrossArea` or `MyPathfind` before the engine's function and
-- `StopTimer` after it.
-- `depth` is `iCallDepth + 1`, the number of open calls. The counter of the clock is an argument of
-- every function that reads it, and `frequency` its frequency.
-- The table holds the `sScriptData` itself in
-- place of the pointer to it, which nothing else keeps. What only writes to the log is left out.
pub mod Tables
pub mod Nesting
pub mod Scripts
mod Tests
use nwnx2_windows.Prelude.{
  ℕ, zero, suc, ◌+◌, ◌-◌, ◌*◌, ◌/◌, ◌%◌, ◌^◌, Bool, true, false, Option, none, some, List, [], ◌∷◌,
  ◌++◌, map, Text, Outcome, done, fault, ◌>>=◌, ltb, ◌==◌, if◌then◌else◌, get_or, set, take,
  replicate, bits32,
}
use nwnx2_windows.Time.{as_signed, divide}
use nwnx2_windows.ProfilerHash
use nwnx2_windows.ProfilerHash.{Bucket, Table, construct_table}

-- `MAX_CALLDEPTH`
abbrev pub max_call_depth : ℕ
max_call_depth = 128

-- `sScriptData`
pub record ScriptData : Type 0 where
  pub calls : ℕ
  pub elapsed : ℕ
  pub updated : Bool

-- the global variables
pub record Profile : Type 0 where
  pub script_hash : Table ScriptData
  pub depth : ℕ
  pub script_counter : ℕ
  pub total_last : ℕ
  pub empty_script : Bool
  pub script_name : List Text
  pub last : List ℕ
  pub last_statistic : ℕ
  pub frequency : ℕ

-- the variables as `HookRunScript` leaves them
unfoldable pub hook_run_script : ℕ → ℕ → Profile
hook_run_script frequency now = record {
  script_hash = construct_table true 2048;
  depth = 0;
  script_counter = 0;
  total_last = 0;
  empty_script = false;
  script_name = replicate max_call_depth [];
  last = replicate max_call_depth 0;
  last_statistic = now;
  frequency = frequency;
}

-- what the four functions share: a new call with this name
unfoldable pub enter : Profile → Text → ℕ → Profile
enter p name now =
    let depth = if ltb p.depth max_call_depth then p.depth + 1 else p.depth in
    record p {
      depth = depth;
      empty_script = false;
      script_name = set p.script_name (depth - 1) name;
      script_counter = (p.script_counter + 1) % 2 ^ 32;
      last = set p.last (depth - 1) now;
    }

unfoldable pub enter_named : (Text → Text) → Profile → Option Text → ℕ → Profile
unfolding enter
enter_named shorten p none now = record p { empty_script = true }
enter_named shorten p (some str) now = enter p (shorten str) now

unfoldable pub my_run_script : Profile → Option Text → ℕ → Profile
unfolding enter_named
my_run_script p str now = enter_named (λ s. take 16 s) p str now

unfoldable pub my_run_script_part : Profile → Option Text → ℕ → Profile
unfolding enter_named
my_run_script_part p str now = enter_named (λ s. b'>' ∷ take 15 s) p str now

unfoldable pub my_cross_area : Profile → Option Text → ℕ → Profile
unfolding enter_named
my_cross_area p tag now = enter_named (λ s. b'@' ∷ take 15 s) p tag now

unfoldable pub my_pathfind : Profile → Option Text → ℕ → Profile
unfolding enter_named
my_pathfind p tag now = enter_named (λ s. b'$' ∷ take 15 s) p tag now

-- `(int) dwElapsedTime / 1000`, as a 32-bit pattern
unfoldable pub milliseconds : ℕ → ℕ
milliseconds elapsed =
    if ltb elapsed (2 ^ 31) then elapsed / 1000 else (2 ^ 32 - (2 ^ 32 - elapsed) / 1000) % 2 ^ 32

-- `printer` on the nodes of a chain: `updated` is reset
abbrev pub unmark : Bucket ScriptData → Bucket ScriptData
unmark node = record node { data_of = record node.data_of { updated = false } }

abbrev pub unmark_chain : List (Bucket ScriptData) → List (Bucket ScriptData)
unmark_chain [] = []
unmark_chain (node ∷ chain) = unmark node ∷ unmark_chain chain

abbrev pub unmark_chains : List (List (Bucket ScriptData)) → List (List (Bucket ScriptData))
unmark_chains [] = []
unmark_chains (chain ∷ chains) = unmark_chain chain ∷ unmark_chains chains

-- `iTotalRuntime` after the calls of `printer`
unfoldable pub total_runtime : ℕ → List (Text × ScriptData) → ℕ
unfolding milliseconds
total_runtime total [] = total
total_runtime total ((name, script) ∷ calls) =
    total_runtime ((total + milliseconds script.elapsed) % 2 ^ 32) calls

flush_chains : Profile → Option (List (List (Bucket ScriptData))) → Profile
unfolding total_runtime
flush_chains p none = record p { total_last = 0 }
flush_chains p (some chains) = record p {
  script_hash = record { size = p.script_hash.size; table = some (unmark_chains chains) };
  total_last = total_runtime 0 (ProfilerHash.all_calls chains);
}

-- `FlushStatistics`
unfoldable pub flush_statistics : Profile → Profile
unfolding flush_chains
flush_statistics p = flush_chains p p.script_hash.table

-- the figures of a script after one more call
unfoldable pub timed : Option ScriptData → ℕ → ScriptData
timed none elapsed = record { calls = 1; elapsed = elapsed; updated = true }
timed (some script) elapsed = record {
  calls = (script.calls + 1) % 2 ^ 32;
  elapsed = (script.elapsed + elapsed) % 2 ^ 32;
  updated = true;
}

-- `(DWORD) ((now - last) * scale / frequency)`: the difference and the product are LONGLONGs, which
-- wrap around, and the division is that of signed numbers
unfoldable pub in_units : ℕ → ℕ → ℕ → ℕ → ℕ
unfolding as_signed divide bits32
in_units scale now last frequency =
    bits32 (divide (as_signed ((now + 2 ^ 64 - last) % 2 ^ 64 * scale % 2 ^ 64)) frequency)

-- the end of `StopTimer`: the log is written every ten seconds, and the call is closed
unfoldable pub close_call : Profile → ℕ → ℕ → Profile
unfolding flush_statistics in_units
close_call p now again =
    if ltb 10000 (in_units 1000 now p.last_statistic p.frequency)
    then record (flush_statistics (record p { last_statistic = again })) { depth = p.depth - 1 }
    else record p { depth = p.depth - 1 }

-- `StopTimer` with a script. At depth 0 it reads in front of its arrays.
unfoldable pub leave : Profile → ℕ → ℕ → Outcome Profile
unfolding timed in_units close_call
leave p now again =
    let name = get_or p.script_name (p.depth - 1) [] in
    let elapsed = in_units 1000000 now (get_or p.last (p.depth - 1) 0) p.frequency in
    let closed = (do
      old ← ProfilerHash.lookup name p.script_hash
      stored ← ProfilerHash.insert true name (timed old elapsed) p.script_hash
      done (close_call (record p { script_hash = stored.0 }) now again)) in
    if p.depth == 0 then fault else if p.frequency == 0 then fault else closed

-- `StopTimer`: `now` and `again` are the two readings of the clock
unfoldable pub stop_timer : Profile → ℕ → ℕ → Outcome Profile
unfolding leave
stop_timer p now again = if p.empty_script then done p else leave p now again
