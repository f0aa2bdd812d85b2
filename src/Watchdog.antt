-- ===== src/Watchdog.antt =====
-- NWNX2/watchdog.h, watchdoggamespy.h and .cpp, watchdogprocess.cpp: the threads of the launcher that
-- watch the server and start it again. What a round of a thread finds in the shared data and hears from
-- Windows and the server is its input; what it does is a list of events. `int` counters are taken not
-- to overflow: that takes 2^31 rounds of a second at least.
pub mod Restarts
mod Tests
use nwnx2_windows.Prelude.{
  ℕ, ◌+◌, ◌-◌, ◌%◌, ◌^◌, Bool, true, false, not, ◌&&◌, List, [], ◌∷◌, ◌++◌, ltb, ◌==◌,
  if◌then◌else◌, Text, codes, ℤ, pos, negsuc,
}

-- `sWatchdogThreadData` with `sWatchdogThreadDataExtra`, less the pointers
pub record ThreadData : Type 0 where
  pub interval : ℕ
  pub thread_running : Bool
  pub do_sleep : Bool
  pub port : ℕ
  pub retries_max : ℤ
  pub old_gamespy_protocol : Bool

unfoldable pub construct_watchdog : ThreadData
construct_watchdog = record {
  interval = 5000;
  thread_running = false;
  do_sleep = false;
  port = 5121;
  retries_max = pos 5;
  old_gamespy_protocol = false;
}

pub data Message : Type 0 where
  gamespy_state_checking gamespy_state_none restarted_gamespy restarted_gamespy_lockup : Message
  process_state_checking process_state_none restarted_process : Message

pub data Event : Type 0 where
  sleep : ℕ → Event
  post : Message → Event
  send : Text → Event
  kill_server start_server start_watching stop_watching : Event

-- StartThread and StopThread
unfoldable pub start_thread : ThreadData → ThreadData × List Event
start_thread d =
    if d.thread_running then (d, []) else (record d { thread_running = true }, start_watching ∷ [])

unfoldable pub stop_thread : ThreadData → ThreadData × List Event
stop_thread d =
    if d.thread_running then (record d { thread_running = false }, stop_watching ∷ []) else (d, [])

abbrev pub udp_wait : ℕ
udp_wait = 1000

-- `Sleep(interval - n)`: a difference below 0 is a large DWORD
unfoldable pub sleep_rest : ℕ → ℕ → Event
sleep_rest interval n = sleep ((interval + 2 ^ 32 - n) % 2 ^ 32)

pub data WatchdogState : Type 0 where
  state_none state_waiting state_restarting : WatchdogState

abbrev pub is_none : WatchdogState → Bool
is_none state_none = true
is_none state_waiting = false
is_none state_restarting = false

abbrev pub is_restarting : WatchdogState → Bool
is_restarting state_none = false
is_restarting state_waiting = false
is_restarting state_restarting = true

pub record Gamespy : Type 0 where
  pub watchdog_state : WatchdogState
  pub retries : ℕ

-- what a round finds: the shared data, whether the server has answered, whether its process is active
pub record Seen : Type 0 where
  pub shared : ThreadData
  pub answered : Bool
  pub active : Bool

-- the state before the request
unfoldable pub begin_check : Gamespy → Gamespy × List Event
begin_check g =
    if is_none g.watchdog_state
    then (record { watchdog_state = state_waiting; retries = 0 }, post gamespy_state_checking ∷ [])
    else (g, [])

unfoldable pub request_event : ThreadData → Event
request_event d = if d.old_gamespy_protocol then send (codes "\\status\\") else send (codes "BNLM")

unfoldable pub hear : Seen → Gamespy → Gamespy × List Event
unfolding sleep_rest
hear seen g =
    if seen.answered
    then (
      record { watchdog_state = state_none; retries = 0 },
      post gamespy_state_none ∷ sleep_rest seen.shared.interval udp_wait ∷ [],
    )
    else (record g { retries = g.retries + 1 }, sleep seen.shared.interval ∷ [])

-- `retries > max`
abbrev pub exceeds : ℕ → ℤ → Bool
exceeds n (pos m) = ltb m n
exceeds n (negsuc m) = true

unfoldable pub restart : Seen → Gamespy → Gamespy × List Event
restart seen g =
    if exceeds g.retries seen.shared.retries_max && not (is_restarting g.watchdog_state)
    then (
      record g { watchdog_state = state_restarting },
      (if seen.active
            then kill_server ∷ post restarted_gamespy_lockup ∷ []
            else post restarted_gamespy ∷ [])
          ++ start_server ∷ [],
    )
    else (g, [])

-- a round that does not sleep
unfoldable pub check : Seen → Gamespy → Gamespy × List Event
unfolding begin_check request_event hear restart
check seen g =
    let (g1, begun) = begin_check g in
    let (g2, heard) = hear seen g1 in
    let (g3, restarted) = restart seen g2 in
    (g3, begun ++ (request_event seen.shared ∷ sleep udp_wait ∷ (heard ++ restarted)))

unfoldable pub gamespy_round : Seen → Gamespy → Gamespy × List Event
unfolding check
gamespy_round seen g = if seen.shared.do_sleep then (g, sleep 1000 ∷ []) else check seen g

-- the loop, which ends where the thread is no longer to run; the list is of what the rounds find
unfoldable pub gamespy_loop : Gamespy → List Seen → List Event
unfolding gamespy_round
gamespy_loop g [] = []
gamespy_loop g (seen ∷ rounds) =
    let rest = gamespy_loop (gamespy_round seen g).0 rounds in
    (gamespy_round seen g).1
    ++ (if seen.shared.thread_running then rest else post gamespy_state_none ∷ [])

-- the number of retries is not set at first
unfoldable pub gamespy_thread : ℕ → List Seen → List Event
unfolding gamespy_loop
gamespy_thread garbage rounds =
    sleep 10000 ∷ gamespy_loop (record { watchdog_state = state_none; retries = garbage }) rounds

-- a round of the thread that watches the process
unfoldable pub process_round : Seen → List Event
unfolding sleep_rest
process_round seen =
    (if seen.shared.do_sleep
      then sleep 1000 ∷ []
      else post process_state_checking
        ∷ (if seen.active
            then sleep 250 ∷ post process_state_none ∷ []
            else start_server ∷ post restarted_process ∷ []))
    ++ sleep_rest seen.shared.interval 250 ∷ []

unfoldable pub process_loop : List Seen → List Event
unfolding process_round
process_loop [] = []
process_loop (seen ∷ rounds) =
    let rest = process_loop rounds in
    process_round seen
    ++ (if seen.shared.thread_running then rest else post process_state_none ∷ [])

unfoldable pub process_thread : List Seen → List Event
unfolding process_loop
process_thread rounds = sleep 10000 ∷ process_loop rounds
