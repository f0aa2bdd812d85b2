-- ===== src/Profiler/Tests.antt =====
-- The timers on a concrete run.
use nwnx2_windows.Prelude.{
  ℕ, ◌-◌, ◌*◌, ◌/◌, ◌%◌, ◌^◌, ◌≡◌, refl, false, some, List, [], ◌∷◌, Text, codes, text_eq, done,
  fault, ◌>>=◌, Returns, if◌then◌else◌, take, replicate, arith,
}
use nwnx2_windows.Profiler.{Profile, hook_run_script, my_run_script, stop_timer}
use nwnx2_windows.Profiler.Tables.{figures_of}
use nwnx2_windows.Profiler.Nesting.{Ready, one_more, hook_run_script-Ready}
use nwnx2_windows.Profiler.Scripts.{
  enter_all, stop_all, stop_timer-my_run_script, stop_all-enter_all, stop_all-enter_all_too_deep,
}

-- the profiler at the start, on a clock of 3579545 ticks a second
unfoldable fresh : Profile
unfolding hook_run_script
fresh = hook_run_script 3579545 1000

fresh-Ready : Ready fresh
unfolding fresh
fresh-Ready = hook_run_script-Ready 3579545 1000 (omega arith)

fresh-depth : fresh.depth ≡ 0
unfolding fresh
fresh-depth = refl

fresh-script : fresh.empty_script ≡ false
unfolding fresh
fresh-script = refl

hook_run_script-Ready_example : Ready (hook_run_script 3579545 1000)
hook_run_script-Ready_example = hook_run_script-Ready 3579545 1000 (omega arith)

stop_timer-my_run_script_example :
    Returns (stop_timer (my_run_script fresh (some (codes "nw_c2_default1")) 2000) 9000 9001) λ r.
      Ready r
      × (r.depth ≡ fresh.depth)
      × ((k : Text)
          → figures_of r.script_hash k ≡ (
              if text_eq (take 16 (codes "nw_c2_default1")) k
              then figures_of fresh.script_hash (take 16 (codes "nw_c2_default1")) >>= (λ old.
                done (one_more old ((9000 - 2000) * 1000000 / fresh.frequency % 2 ^ 32)))
              else figures_of fresh.script_hash k))
stop_timer-my_run_script_example =
    stop_timer-my_run_script fresh (codes "nw_c2_default1") 2000 9000 9001 fresh-Ready
      (omega (arith, fresh-depth)) (omega arith) (omega arith)

abbrev calls : List (Text × ℕ)
calls = (codes "nw_c2_default1", 2000) ∷ (codes "nw_o0_death", 2100) ∷ []

abbrev stops : List (ℕ × ℕ)
stops = (2500, 2501) ∷ (3000, 3001) ∷ []

stop_all-enter_all_example :
    Returns (stop_all (enter_all fresh calls) stops) λ r. Ready r × (r.depth ≡ fresh.depth)
stop_all-enter_all_example =
    stop_all-enter_all fresh calls stops fresh-Ready fresh-script refl (omega (arith, fresh-depth))

-- a script that calls itself 129 times
abbrev deep_calls : List (Text × ℕ)
deep_calls = replicate 129 (codes "loop", 2000)

abbrev deep_stops : List (ℕ × ℕ)
deep_stops = replicate 129 (3000, 3001)

stop_all-enter_all_too_deep_example : stop_all (enter_all fresh deep_calls) deep_stops ≡ fault
stop_all-enter_all_too_deep_example =
    stop_all-enter_all_too_deep fresh deep_calls deep_stops fresh-Ready fresh-script refl
      (omega arith)
