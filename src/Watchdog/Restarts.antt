-- ===== src/Watchdog/Restarts.antt =====
-- When the watchdogs of NWNX2/watchdoggamespy.cpp and watchdogprocess.cpp start the server.
use nwnx2_windows.Prelude.{
  ℕ, suc, ◌+◌, ◌≤◌, ◌≡◌, refl, ap, Bool, true, false, not, ◌&&◌, List, [], ◌∷◌, ◌++◌, arith,
  if◌then◌else◌, Bool-cases, inl, inr, pos,
}
use nwnx2_windows.Watchdog.{
  ThreadData, gamespy_state_none, process_state_none, Event, sleep, post, send, kill_server,
  start_server, start_watching, stop_watching, state_none, state_waiting, state_restarting,
  is_restarting, Gamespy, Seen, begin_check, request_event, hear, exceeds, restart, check,
  gamespy_round, gamespy_loop, gamespy_thread, sleep_rest, process_round, process_loop,
}

-- How often the server is started.
abbrev pub starts : List Event → ℕ
starts [] = 0
starts (start_server ∷ events) = suc (starts events)
starts (sleep n ∷ events) = starts events
starts (post m ∷ events) = starts events
starts (send t ∷ events) = starts events
starts (kill_server ∷ events) = starts events
starts (start_watching ∷ events) = starts events
starts (stop_watching ∷ events) = starts events

starts-append : (a b : List Event) → starts (a ++ b) ≡ starts a + starts b
starts-append [] b = omega arith
starts-append (start_server ∷ a) b = omega (arith, starts-append a b)
starts-append (sleep n ∷ a) b = starts-append a b
starts-append (post m ∷ a) b = starts-append a b
starts-append (send t ∷ a) b = starts-append a b
starts-append (kill_server ∷ a) b = starts-append a b
starts-append (start_watching ∷ a) b = starts-append a b
starts-append (stop_watching ∷ a) b = starts-append a b

abbrev pub one_if : Bool → ℕ
one_if true = 1
one_if false = 0

one_if-le : (b : Bool) → one_if b ≤ 1
one_if-le true = omega arith
one_if-le false = omega arith

-- The rounds in which the thread is awake and the server answers.
abbrev pub answers : List Seen → ℕ
answers [] = 0
answers (seen ∷ rounds) = one_if (not seen.shared.do_sleep && seen.answered) + answers rounds

starts-begin_check :
    (g : Gamespy)
    → (starts (begin_check g).1 ≡ 0)
      × (is_restarting (begin_check g).0.watchdog_state ≡ is_restarting g.watchdog_state)
unfolding begin_check
starts-begin_check g =
    elim g.watchdog_state
      as (λ w.
        (starts (begin_check (record g { watchdog_state = w })).1 ≡ 0)
        × (is_restarting (begin_check (record g { watchdog_state = w })).0.watchdog_state
            ≡ is_restarting w)) [
              | state_none ↦ (refl, refl)
              | state_waiting ↦ (refl, refl)
              | state_restarting ↦ (refl, refl)
            ]

starts-hear :
    (seen : Seen) (g : Gamespy)
    → (starts (hear seen g).1 ≡ 0)
      × (one_if (is_restarting g.watchdog_state)
          ≤ one_if seen.answered + one_if (is_restarting (hear seen g).0.watchdog_state))
unfolding hear sleep_rest
starts-hear seen g = elim (Bool-cases seen.answered) [
  | inl yes_answer ↦ rw yes_answer (refl, omega (arith, one_if-le (is_restarting g.watchdog_state)))
  | inr no_answer ↦ rw no_answer (refl, omega arith)
]

starts-restart :
    (seen : Seen) (g : Gamespy)
    → starts (restart seen g).1 + one_if (is_restarting g.watchdog_state)
      ≡ one_if (is_restarting (restart seen g).0.watchdog_state)
unfolding restart
starts-restart seen g =
    elim (Bool-cases
      (exceeds g.retries seen.shared.retries_max && not (is_restarting g.watchdog_state))) [
        | inr stays ↦ rw stays (omega arith)
        | inl restarts ↦ elim (Bool-cases seen.active) [
          | inl locked ↦ rw restarts (rw locked (ground arith))
          | inr dead ↦ rw restarts (rw dead (ground arith))
        ]
      ]

starts-request_event :
    (d : ThreadData) (events : List Event) → starts (request_event d ∷ events) ≡ starts events
unfolding request_event
starts-request_event d events = elim (Bool-cases d.old_gamespy_protocol) [
  | inl e ↦ rw e refl
  | inr e ↦ rw e refl
]

-- A round that starts the server leaves the state for that, and one that comes from there without an
-- answer does not start it.
starts-gamespy_round :
    (seen : Seen) (g : Gamespy)
    → starts (gamespy_round seen g).1 + one_if (is_restarting g.watchdog_state)
      ≤ one_if (not seen.shared.do_sleep && seen.answered)
        + one_if (is_restarting (gamespy_round seen g).0.watchdog_state)
unfolding gamespy_round check
starts-gamespy_round seen g = elim (Bool-cases seen.shared.do_sleep) [
  | inl asleep ↦ rw asleep (omega arith)
  | inr awake ↦
      let g1 = (begin_check g).0 in
      let g2 = (hear seen g1).0 in
      let (quiet, same) = starts-begin_check g in
      let (quiet', le) = starts-hear seen g1 in
      let restarted = starts-restart seen g2 in
      rw awake (
        omega (
          arith,
          starts-append (begin_check g).1
              (request_event seen.shared ∷ sleep 1000 ∷ ((hear seen g1).1 ++ (restart seen g2).1)),
          starts-request_event seen.shared (sleep 1000 ∷ ((hear seen g1).1 ++ (restart seen g2).1)),
          starts-append (hear seen g1).1 (restart seen g2).1,
          ap one_if same,
        ))
]

starts-gamespy_loop :
    (g : Gamespy) (rounds : List Seen)
    → starts (gamespy_loop g rounds) + one_if (is_restarting g.watchdog_state) ≤ answers rounds + 1
unfolding gamespy_loop
starts-gamespy_loop g [] = omega (arith, one_if-le (is_restarting g.watchdog_state))
starts-gamespy_loop g (seen ∷ rounds) = elim (Bool-cases seen.shared.thread_running) [
  | inl runs ↦ rw runs (
      omega (
        arith,
        starts-append (gamespy_round seen g).1 (gamespy_loop (gamespy_round seen g).0 rounds),
        starts-gamespy_round seen g,
        starts-gamespy_loop (gamespy_round seen g).0 rounds,
      ))
  | inr ends ↦ rw ends (
      omega (
        arith,
        starts-append (gamespy_round seen g).1 (post gamespy_state_none ∷ []),
        starts-gamespy_round seen g,
        one_if-le (is_restarting (gamespy_round seen g).0.watchdog_state),
      ))
]

-- Whatever the thread finds in its rounds, it starts the server at most once more than the server has
-- answered: after a start it waits for an answer.
pub starts-gamespy_thread :
    (garbage : ℕ) (rounds : List Seen) → starts (gamespy_thread garbage rounds) ≤ answers rounds + 1
unfolding gamespy_thread
starts-gamespy_thread garbage rounds =
    omega (
      arith,
      starts-gamespy_loop (record { watchdog_state = state_none; retries = garbage }) rounds,
    )

-- Rounds in which the thread is awake and goes on, and the server does not answer.
abbrev pub Unanswered : ℕ → List Seen → Type 0
Unanswered most [] = Unit
Unanswered most (seen ∷ rounds) =
    ((seen.shared.do_sleep ≡ false)
      × (seen.shared.thread_running ≡ true)
      × (seen.answered ≡ false)
      × (seen.shared.retries_max ≡ pos most))
    × Unanswered most rounds

-- The rounds in which the thread that watches the process is awake and finds none.
abbrev pub missing : List Seen → ℕ
missing [] = 0
missing (seen ∷ rounds) =
    one_if (not seen.shared.do_sleep && not seen.active)
    + (if seen.shared.thread_running then missing rounds else 0)

starts-process_round :
    (seen : Seen)
    → starts (process_round seen) ≡ one_if (not seen.shared.do_sleep && not seen.active)
unfolding process_round sleep_rest
starts-process_round seen = elim (Bool-cases seen.shared.do_sleep) [
  | inl asleep ↦ rw asleep refl
  | inr awake ↦ elim (Bool-cases seen.active) [
    | inl there ↦ rw awake (rw there refl)
    | inr gone ↦ rw awake (rw gone refl)
  ]
]

-- The thread that watches the process starts the server once for every round in which it is awake and
-- finds no process, up to the round in which it is told to end.
pub starts-process_loop : (rounds : List Seen) → starts (process_loop rounds) ≡ missing rounds
unfolding process_loop
starts-process_loop [] = refl
starts-process_loop (seen ∷ rounds) = elim (Bool-cases seen.shared.thread_running) [
  | inl runs ↦ rw runs (
      omega (
        arith,
        starts-append (process_round seen) (process_loop rounds),
        starts-process_round seen,
        starts-process_loop rounds,
      ))
  | inr ends ↦ rw ends (
      omega (
        arith,
        starts-append (process_round seen) (post process_state_none ∷ []),
        starts-process_round seen,
      ))
]
