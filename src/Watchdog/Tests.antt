-- ===== src/Watchdog/Tests.antt =====
-- Runs of the watchdogs, and the theorems at concrete rounds.
use nwnx2_windows.Prelude.{◌≡◌, ◌≤◌, ◌+◌, refl, true, false, [], ◌∷◌, codes, pos}
use nwnx2_windows.Watchdog.{
  ThreadData, construct_watchdog, sleep, post, send, start_server, gamespy_state_checking,
  gamespy_state_none, restarted_gamespy, start_thread, Seen, gamespy_thread,
}
use nwnx2_windows.Watchdog.Restarts.{starts, answers, starts-gamespy_thread}

abbrev impatient : ThreadData
impatient = record {
  interval = 5000;
  thread_running = true;
  do_sleep = false;
  port = 5121;
  retries_max = pos 1;
  old_gamespy_protocol = false;
}

abbrev no_answer : Seen
no_answer = record { shared = impatient; answered = false; active = false }

abbrev last_answer : Seen
last_answer = record {
  shared = record impatient { interval = 500; thread_running = false };
  answered = true;
  active = true;
}

started_once : (start_thread (start_thread construct_watchdog).0).1 ≡ []
unfolding start_thread construct_watchdog
started_once = refl

-- The second round without an answer starts the server; an interval below a second makes the last
-- pause one of weeks.
restarted :
    gamespy_thread 9 (no_answer ∷ no_answer ∷ last_answer ∷ [])
    ≡ sleep 10000
      ∷ post gamespy_state_checking
      ∷ send (codes "BNLM")
      ∷ sleep 1000
      ∷ sleep 5000
      ∷ send (codes "BNLM")
      ∷ sleep 1000
      ∷ sleep 5000
      ∷ post restarted_gamespy
      ∷ start_server
      ∷ send (codes "BNLM")
      ∷ sleep 1000
      ∷ post gamespy_state_none
      ∷ sleep 4294966796
      ∷ post gamespy_state_none
      ∷ []
unfolding gamespy_thread
restarted = refl

starts-gamespy_thread_example :
    starts (gamespy_thread 9 (no_answer ∷ no_answer ∷ last_answer ∷ []))
    ≤ answers (no_answer ∷ no_answer ∷ last_answer ∷ []) + 1
starts-gamespy_thread_example = starts-gamespy_thread 9 (no_answer ∷ no_answer ∷ last_answer ∷ [])
