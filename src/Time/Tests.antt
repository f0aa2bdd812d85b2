-- ===== src/Time/Tests.antt =====
-- Runs of the timers, and the theorems at concrete requests.
use nwnx2_windows.Prelude.{
  ℕ, ◌≡◌, refl, Option, none, some, List, [], ◌∷◌, done, fault, Returns, arith, codes, split_first,
  search_key, print_int, print_nat, Text,
}
use nwnx2_windows.Time.{NwnxTime, on_request, on_release}
use nwnx2_windows.Time.Timing.{run, to, microseconds, query-start, Untouched, changes}

-- a counter that runs at 1 MHz times three
abbrev plugin : NwnxTime
plugin = record { timers = []; frequency = 3000000 }

abbrev boss : Text
boss = codes "boss"

abbrev others : List (ℕ × Option Text)
others =
    (20, to "START" (codes "door"))
    ∷ (25, none)
    ∷ (26, some (codes "STOP"))
    ∷ (30, to "STOP" (codes "door"))
    ∷ []

others-Untouched : Untouched boss others
unfolding changes split_first
others-Untouched = (refl, (refl, (refl, (refl, tt))))

wraps :
    on_request (record { timers = (boss, 9) ∷ []; frequency = 1 }) 6 (to "QUERY" boss)
    ≡ done (record { timers = (boss, 9) ∷ []; frequency = 1 }, some (codes "-3000000"))
unfolding on_request split_first search_key print_int
wraps = refl

no_frequency :
    on_request (record { timers = (boss, 9) ∷ []; frequency = 0 }) 6 (to "STOP" boss) ≡ fault
unfolding on_request split_first search_key
no_frequency = refl

released : on_release (record { timers = (boss, 9) ∷ []; frequency = 3000000 }) ≡ plugin
unfolding on_release
released = refl

query-start_example : Returns (run plugin ((10, to "START" boss) ∷ others)) (λ p.
    on_request p.0 40 (to "QUERY" boss) ≡ done (p.0, some (print_nat (microseconds 3000000 10 40))))
query-start_example =
    query-start plugin boss 10 40 others (omega arith) (omega arith) (omega arith) others-Untouched
