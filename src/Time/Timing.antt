-- ===== src/Time/Timing.antt =====
-- What the requests of Time/NWNXTime.cpp answer over a sequence of requests.
use Prim.Native.String.{String}
use nwnx2_windows.Prelude.{
  ℕ, ◌-◌, ◌*◌, ◌/◌, ◌^◌, ◌<◌, ◌≤◌, ◌≡◌, refl, sym, ap, ◌∙◌, Bool, true, false, Option, none, some,
  List, [], ◌∷◌, ◌++◌, ◌&&◌, ◌||◌, Outcome, done, ◌>>=◌, Returns, arith, ltb, ◌==◌, Text, codes,
  get_elem?, text_eq_refl, text_eq, split_first, split_first-append, Lacks, ℤ, pos, print_int,
  print_nat, search_key, erase, search_key-put, search_key-erase, Bool-cases, Option-cases, inl,
  inr,
}
use nwnx2_windows.Time.{
  NwnxTime, as_signed, scaled, divide, start_timer, elapsed, peek_timer, stop_timer, perform,
  on_request,
}

-- A sequence of requests, each with the counter at its time.
unfoldable pub run : NwnxTime → List (ℕ × Option Text) → Outcome (NwnxTime × List (Option Text))
unfolding on_request
run t [] = done (t, [])
run t ((now, request) ∷ rest) = do
  (t', answer) ← on_request t now request
  (t'', answers) ← run t' rest
  done (t'', answer ∷ answers)

abbrev pub is_change : Text → Text → Text → Bool
is_change name function n =
    text_eq n name && (text_eq function (codes "START") || text_eq function (codes "STOP"))

-- Whether a request starts or stops the timer `name`.
unfoldable pub changes : Text → Option Text → Bool
changes name none = false
changes name (some request) = elim (split_first b'!' request) [
  | none ↦ false
  | some (function, n) ↦ is_change name function n
]

-- No request of a sequence starts or stops the timer.
abbrev pub Untouched : Text → List (ℕ × Option Text) → Type 0
Untouched name [] = Unit
Untouched name ((now, request) ∷ rest) = (changes name request ≡ false) × Untouched name rest

-- The same frequency, and the same start of the timer `name`.
abbrev Keeps : Text → NwnxTime → NwnxTime → Type 0
Keeps name t t' =
    (t'.frequency ≡ t.frequency) × (search_key name t'.timers ≡ search_key name t.timers)

elapsed-done :
    (start : Option ℕ) (f now : ℕ) → 0 < f → Returns (elapsed start f now) (λ _. Unit {0})
unfolding elapsed
elapsed-done none f now h = (pos 0, refl, tt)
elapsed-done (some last) f now h =
    let test : (f == 0) ≡ false = ground arith in rw test (_, refl, tt)

put-Keeps :
    (t : NwnxTime) (now : ℕ) (n name : Text)
    → text_eq n name ≡ false
    → Keeps name t (start_timer t now n)
unfolding start_timer
put-Keeps t now n name h = (refl, search_key-put n name now t.timers ∙ rw h refl)

erase-Keeps :
    (t : NwnxTime) (n name : Text)
    → text_eq n name ≡ false
    → Keeps name t (record t { timers = erase n t.timers })
erase-Keeps t n name h = (refl, search_key-erase n name t.timers ∙ rw h refl)

perform-Keeps :
    (t : NwnxTime) (now : ℕ) (function n name : Text)
    → 0 < t.frequency
    → is_change name function n ≡ false
    → Returns (perform t now function n) (λ p. Keeps name t p.0)
unfolding perform peek_timer stop_timer
perform-Keeps t now function n name h k = elim (Bool-cases (text_eq function (codes "START"))) [
  | inl start ↦
      let other : text_eq n name ≡ false = ground arith in
      rw start (_, refl, put-Keeps t now n name other)
  | inr no_start ↦
      let (result, peek, _) = elapsed-done (search_key n t.timers) t.frequency now h in
      rw no_start (elim (Bool-cases (text_eq function (codes "QUERY"))) [
        | inl query ↦ rw query (rw peek (_, refl, (refl, refl)))
        | inr no_query ↦ rw no_query (elim (Bool-cases (text_eq function (codes "STOP"))) [
          | inl stop ↦
              let other : text_eq n name ≡ false = ground arith in
              rw stop (rw peek (_, refl, erase-Keeps t n name other))
          | inr no_stop ↦ rw no_stop (_, refl, (refl, refl))
        ])
      ])
]

changes-some :
    (name request function n : Text)
    → split_first b'!' request ≡ some (function, n)
    → changes name (some request) ≡ is_change name function n
unfolding changes
changes-some name request function n parts = rw (parts, changes) refl

on_request-Keeps :
    (t : NwnxTime) (now : ℕ) (request : Option Text) (name : Text)
    → 0 < t.frequency
    → changes name request ≡ false
    → Returns (on_request t now request) (λ p. Keeps name t p.0)
unfolding on_request changes
on_request-Keeps t now none name h k = (_, refl, (refl, refl))
on_request-Keeps t now (some request) name h k = elim (Option-cases (split_first b'!' request)) [
  | inl whole ↦ rw (whole, on_request) (_, refl, (refl, refl))
  | inr ((function, n), parts) ↦
      let unchanged : is_change name function n ≡ false =
        sym (changes-some name request function n parts) ∙ k in
      rw (parts, on_request) (perform-Keeps t now function n name h unchanged)
]

run-Keeps :
    (t : NwnxTime) (requests : List (ℕ × Option Text)) (name : Text)
    → 0 < t.frequency
    → Untouched name requests
    → Returns (run t requests) (λ p. Keeps name t p.0)
unfolding run
run-Keeps t [] name h u = (_, refl, (refl, refl))
run-Keeps t ((now, request) ∷ rest) name h u =
    let (p, first, (f, s)) = on_request-Keeps t now request name h u.0 in
    let (q, others, (f', s')) = run-Keeps p.0 rest name (omega arith) u.1 in
    rw first (rw others (_, refl, (f' ∙ f, s' ∙ s)))

-- The request that consists of a function's name and a timer's name.
abbrev pub to : String → Text → Option Text
to function name = some (codes function ++ (b'!' ∷ name))

on_request-to :
    (t : NwnxTime) (now : ℕ) (function : String) (name : Text)
    → Lacks b'!' (codes function)
    → on_request t now (to function name) ≡ perform t now (codes function) name
unfolding on_request
on_request-to t now function name h =
    rw (split_first-append b'!' (codes function) name h, on_request) refl

-- The time between two values of the counter, in millionths of a second.
abbrev pub microseconds : ℕ → ℕ → ℕ → ℕ
microseconds frequency last now = (now - last) * 1000000 / frequency

scaled_exact :
    (now last : ℕ)
    → last ≤ now
    → (now - last) * 1000000 < 2 ^ 63
    → scaled now last ≡ (now - last) * 1000000
unfolding scaled
scaled_exact now last le fits = omega arith

elapsed_exact :
    (f last now : ℕ)
    → 0 < f
    → last ≤ now
    → (now - last) * 1000000 < 2 ^ 63
    → elapsed (some last) f now ≡ done (pos (microseconds f last now))
unfolding elapsed as_signed scaled divide
elapsed_exact f last now h le fits =
    let test : (f == 0) ≡ false = ground arith in
    let difference : scaled now last ≡ (now - last) * 1000000 = scaled_exact now last le fits in
    let small : ltb ((now - last) * 1000000) (2 ^ 63) ≡ true = ground arith in
    rw test (rw difference (rw (small, as_signed) refl))

start_lem :
    (t : NwnxTime) (now : ℕ) (name : Text)
    → on_request t now (to "START" name) ≡ done (start_timer t now name, none)
unfolding perform
start_lem t now name = on_request-to t now "START" name (omega arith) ∙ refl

pub query_lem :
    (t : NwnxTime) (now : ℕ) (name : Text) {result : ℤ}
    → elapsed (search_key name t.timers) t.frequency now ≡ done result
    → on_request t now (to "QUERY" name) ≡ done (t, some (print_int result))
unfolding perform peek_timer
query_lem t now name e = on_request-to t now "QUERY" name (omega arith) ∙ rw e refl

started_at :
    (t : NwnxTime) (now : ℕ) (name : Text)
    → search_key name (start_timer t now name).timers ≡ some now
unfolding start_timer
started_at t now name = search_key-put name name now t.timers ∙ rw (text_eq_refl name) refl

-- A timer that was started and neither started nor stopped since, whatever other requests came
-- between, answers a query with the time since its start in microseconds, as long as the counter
-- does not run backwards and a million times the difference fits in 63 bits.
pub query-start :
    (t : NwnxTime) (name : Text) (t0 t1 : ℕ) (between : List (ℕ × Option Text))
    → 0 < t.frequency
    → t0 ≤ t1
    → (t1 - t0) * 1000000 < 2 ^ 63
    → Untouched name between
    → Returns (run t ((t0, to "START" name) ∷ between)) (λ p.
      on_request p.0 t1 (to "QUERY" name)
      ≡ done (p.0, some (print_nat (microseconds t.frequency t0 t1))))
unfolding run print_int
query-start t name t0 t1 between h le fits u =
    let t' = start_timer t t0 name in
    let started : search_key name t'.timers ≡ some t0 = started_at t t0 name in
    let (p, others, (same, kept)) = run-Keeps t' between name h u in
    let answer : elapsed (search_key name p.0.timers) p.0.frequency t1
        ≡ done (pos (microseconds t.frequency t0 t1)) =
      ap (λ k. elapsed k p.0.frequency t1) (kept ∙ started)
      ∙ ap (λ f. elapsed (some t0) f t1) same
      ∙ elapsed_exact t.frequency t0 t1 h le fits in
    rw (start_lem t t0 name) (rw others (_, refl, query_lem p.0 t1 name answer))

stop_lem :
    (t : NwnxTime) (now : ℕ) (name : Text) {result : ℤ}
    → elapsed (search_key name t.timers) t.frequency now ≡ done result
    → on_request t now (to "STOP" name)
      ≡ done (record t { timers = erase name t.timers }, some (print_int result))
unfolding perform peek_timer stop_timer
stop_lem t now name e = on_request-to t now "STOP" name (omega arith) ∙ rw e refl

erased : (t : NwnxTime) (name : Text) → search_key name (erase name t.timers) ≡ none
erased t name = search_key-erase name name t.timers ∙ rw (text_eq_refl name) refl

-- A request to stop a timer is answered as a query at that moment is; a later query of the timer is
-- answered 0, unless a request between starts or stops the timer again.
pub query-stop :
    (t : NwnxTime) (name : Text) (t0 t1 : ℕ) (between : List (ℕ × Option Text))
    → 0 < t.frequency
    → Untouched name between
    → Returns (run t ((t0, to "QUERY" name) ∷ (t0, to "STOP" name) ∷ between)) (λ p.
      (get_elem? p.1 0 ≡ get_elem? p.1 1)
      × (on_request p.0 t1 (to "QUERY" name) ≡ done (p.0, some (codes "0"))))
unfolding run elapsed print_int print_nat
query-stop t name t0 t1 between h u =
    let (result, peek, _) = elapsed-done (search_key name t.timers) t.frequency t0 h in
    let t' : NwnxTime = record t { timers = erase name t.timers } in
    let (p, others, (same, kept)) = run-Keeps t' between name h u in
    let answer : elapsed (search_key name p.0.timers) p.0.frequency t1 ≡ done (pos 0) =
      ap (λ k. elapsed k p.0.frequency t1) (kept ∙ erased t name) in
    rw (query_lem t t0 name peek)
      (rw (stop_lem t t0 name peek) (rw others (_, refl, (refl, query_lem p.0 t1 name answer))))
