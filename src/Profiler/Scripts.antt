-- ===== src/Profiler/Scripts.antt =====
-- Calls that nest: what a script's entry shows after it has ended, and how deep calls may go.
use nwnx2_windows.Prelude.{
  ℕ, ◌+◌, ◌-◌, ◌*◌, ◌/◌, ◌%◌, ◌^◌, ◌<◌, ◌≤◌, ◌≡◌, refl, sym, ap, ◌∙◌, Bool, true, false, inl, inr,
  none, some, List, [], ◌∷◌, Text, text_eq, Outcome, done, fault, ◌>>=◌, Returns, ltb, ◌==◌,
  if◌then◌else◌, length, get_or, take, get_or-set, Bool-cases, arith, bits32,
}
use nwnx2_windows.Profiler.{
  max_call_depth, Profile, enter, my_run_script, my_cross_area, in_units, leave, stop_timer,
}
use nwnx2_windows.Time.{as_signed, divide}
use nwnx2_windows.Profiler.Tables.{figures_of}
use nwnx2_windows.Profiler.Nesting.{Ready, enter-Ready, one_more, Left, leave-Left}

stop_timer-leave :
    (p : Profile) (now again : ℕ)
    → p.empty_script ≡ false
    → stop_timer p now again ≡ leave p now again
unfolding stop_timer
stop_timer-leave p now again h = rw h refl

renamed :
    (q r : Profile) {name name' : Text} {elapsed elapsed' : ℕ}
    → name ≡ name'
    → elapsed ≡ elapsed'
    → Left q name elapsed r
    → Left q name' elapsed' r
renamed q r e f left = rw (sym e, sym f) left

stop_timer-idle :
    (p : Profile) (now again : ℕ) → p.empty_script ≡ true → stop_timer p now again ≡ done p
unfolding stop_timer
stop_timer-idle p now again h = choose p.empty_script h (leave p now again)
  where
    choose : (b : Bool) → b ≡ true → (o : Outcome Profile) → (if b then done p else o) ≡ done p
    choose true h o = refl
    choose false h o = cc

-- the slot that a new call writes
enter-slot :
    (p : Profile) (name : Text) (now : ℕ)
    → Ready p
    → p.depth < max_call_depth
    → ((enter p name now).depth ≡ p.depth + 1)
      × (get_or (enter p name now).script_name ((enter p name now).depth - 1) [] ≡ name)
      × (get_or (enter p name now).last ((enter p name now).depth - 1) 0 ≡ now)
unfolding enter
enter-slot p name now is h =
    let e : ltb p.depth max_call_depth ≡ true = ground (arith, h) in
    let i : p.depth + 1 - 1 ≡ p.depth = omega arith in
    let here : (p.depth == p.depth) ≡ true = ground arith in
    rw
      (
        e,
        i,
        get_or-set p.script_name p.depth p.depth name [] (omega (arith, is.names)),
        get_or-set p.last p.depth p.depth now 0 (omega (arith, is.times)),
        here,
      )
      (refl, refl, refl)

in_units_exact :
    (now last frequency : ℕ)
    → last ≤ now
    → (now - last) * 1000000 < 2 ^ 63
    → in_units 1000000 now last frequency ≡ (now - last) * 1000000 / frequency % 2 ^ 32
unfolding in_units as_signed divide bits32
in_units_exact now last frequency le fits =
    let difference : (now + 2 ^ 64 - last) % 2 ^ 64 * 1000000 % 2 ^ 64 ≡ (now - last) * 1000000 =
      omega arith in
    let small : ltb ((now - last) * 1000000) (2 ^ 63) ≡ true = ground arith in
    rw difference (rw small refl)

-- A script that is entered below the maximum depth and ends at a time that is not earlier, where the
-- ticks between times 1000000 stay below 2^63: the depth is what it was, the script's entry, under
-- the first 16 bytes of its name, counts one call more and the microseconds between, modulo 2^32,
-- and no other entry counts anything.
pub stop_timer-my_run_script :
    (p : Profile) (str : Text) (start now again : ℕ)
    → Ready p
    → p.depth < max_call_depth
    → start ≤ now
    → (now - start) * 1000000 < 2 ^ 63
    → Returns (stop_timer (my_run_script p (some str) start) now again) λ r.
      Ready r
      × (r.depth ≡ p.depth)
      × ((k : Text)
          → figures_of r.script_hash k ≡ (
              if text_eq (take 16 str) k
              then figures_of p.script_hash (take 16 str)
                >>= (λ old. done (one_more old ((now - start) * 1000000 / p.frequency % 2 ^ 32)))
              else figures_of p.script_hash k))
unfolding my_run_script enter
stop_timer-my_run_script p str start now again is h later fits =
    let name = take 16 str in
    let q = enter p name start in
    let exact = in_units_exact now start p.frequency later fits in
    let (deeper, named, started) = enter-slot p name start is h in
    let (r, run, left) =
      leave-Left q now again (enter-Ready p name start is) (omega (arith, deeper)) in
    let left' =
      renamed q r named (ap (λ t. in_units 1000000 now t p.frequency) started ∙ exact) left in
    (
      r,
      stop_timer-leave q now again refl ∙ run,
      (left'.ready, omega (arith, left'.depth, deeper), left'.counted),
    )

-- calls with the readings of the clock, the outermost first
abbrev pub enter_all : Profile → List (Text × ℕ) → Profile
enter_all p [] = p
enter_all p ((name, now) ∷ calls) = enter_all (my_run_script p (some name) now) calls

-- the ends of calls, with the readings of the clock
abbrev pub stop_all : Profile → List (ℕ × ℕ) → Outcome Profile
stop_all p [] = done p
stop_all p ((now, again) ∷ stops) = stop_timer p now again >>= λ q. stop_all q stops

my_run_script-Ready :
    (p : Profile) (name : Text) (now : ℕ) → Ready p → Ready (my_run_script p (some name) now)
unfolding my_run_script
my_run_script-Ready p name now is = enter-Ready p (take 16 name) now is

my_run_script-script :
    (p : Profile) (name : Text) (now : ℕ) → (my_run_script p (some name) now).empty_script ≡ false
unfolding my_run_script enter
my_run_script-script p name now = refl

my_run_script-depth :
    (p : Profile) (name : Text) (now : ℕ)
    → p.depth < max_call_depth
    → (my_run_script p (some name) now).depth ≡ p.depth + 1
unfolding my_run_script enter
my_run_script-depth p name now h =
    let e : ltb p.depth max_call_depth ≡ true = ground (arith, h) in rw e refl

enter_all-Ready :
    (p : Profile) (calls : List (Text × ℕ))
    → Ready p
    → p.empty_script ≡ false
    → Ready (enter_all p calls) × ((enter_all p calls).empty_script ≡ false)
enter_all-Ready p [] is script = (is, script)
enter_all-Ready p ((name, now) ∷ calls) is script =
    enter_all-Ready (my_run_script p (some name) now) calls (my_run_script-Ready p name now is)
      (my_run_script-script p name now)

enter_all-depth :
    (p : Profile) (calls : List (Text × ℕ))
    → p.depth + length calls ≤ max_call_depth
    → (enter_all p calls).depth ≡ p.depth + length calls
enter_all-depth p [] h = omega arith
enter_all-depth p ((name, now) ∷ calls) h =
    let e = my_run_script-depth p name now (omega arith) in
    omega (arith, e, enter_all-depth (my_run_script p (some name) now) calls (omega (arith, e)))

stop_all-depth :
    (p : Profile) (stops : List (ℕ × ℕ))
    → Ready p
    → p.empty_script ≡ false
    → length stops ≤ p.depth
    → Returns (stop_all p stops) λ r. Ready r × (r.depth ≡ p.depth - length stops)
stop_all-depth p [] is script h = (p, refl, (is, omega arith))
stop_all-depth p ((now, again) ∷ stops) is script h =
    let (q, run, left) = leave-Left p now again is (omega arith) in
    let (r, run', (ready, depth)) =
      stop_all-depth q stops left.ready (left.script ∙ script) (omega (arith, left.depth)) in
    (
      r,
      rw (stop_timer-leave p now again script, run) run',
      (ready, omega (arith, left.depth, depth)),
    )

stop_all-fault :
    (p : Profile) (stops : List (ℕ × ℕ))
    → Ready p
    → p.empty_script ≡ false
    → p.depth < length stops
    → stop_all p stops ≡ fault
unfolding leave
stop_all-fault p [] is script h = absurd (omega arith)
stop_all-fault p ((now, again) ∷ stops) is script h = elim (Bool-cases (p.depth == 0)) [
  | inl outside ↦ rw (stop_timer-leave p now again script, outside) refl
  | inr inside ↦
      let below : 0 < p.depth = ground (arith, inside) in
      let (q, run, left) = leave-Left p now again is below in
      rw (stop_timer-leave p now again script, run)
        (stop_all-fault q stops left.ready (left.script ∙ script)
          (omega (arith, left.depth, below)))
]

-- Scripts that nest up to the maximum depth and then all end: the timers end normally, the profiler
-- is ready, and the depth is what it was.
pub stop_all-enter_all :
    (p : Profile) (calls : List (Text × ℕ)) (stops : List (ℕ × ℕ))
    → Ready p
    → p.empty_script ≡ false
    → length stops ≡ length calls
    → p.depth + length calls ≤ max_call_depth
    → Returns (stop_all (enter_all p calls) stops) λ r. Ready r × (r.depth ≡ p.depth)
stop_all-enter_all p calls stops is script same room =
    let (ready, script') = enter_all-Ready p calls is script in
    let deeper = enter_all-depth p calls room in
    let (r, run, (ready', depth)) =
      stop_all-depth (enter_all p calls) stops ready script' (omega (arith, deeper)) in
    (r, run, (ready', omega (arith, depth, deeper)))

-- Scripts that nest deeper than the maximum depth and then all end: the last timers read in front of
-- their arrays.
pub stop_all-enter_all_too_deep :
    (p : Profile) (calls : List (Text × ℕ)) (stops : List (ℕ × ℕ))
    → Ready p
    → p.empty_script ≡ false
    → length stops ≡ length calls
    → max_call_depth < length calls
    → stop_all (enter_all p calls) stops ≡ fault
stop_all-enter_all_too_deep p calls stops is script same deep =
    let (ready, script') = enter_all-Ready p calls is script in
    stop_all-fault (enter_all p calls) stops ready script' (omega (arith, ready.deep))

-- A path search without a tag inside a script, below the maximum depth: neither its end nor the
-- script's closes the script's call.
pub stop_timer-my_cross_area :
    (p : Profile) (str : Text) (start t : ℕ) (stops : List (ℕ × ℕ))
    → p.depth < max_call_depth
    → Returns
        (stop_all (my_cross_area (my_run_script p (some str) start) none t) stops)
        λ r. (r.depth ≡ p.depth + 1) × (r.empty_script ≡ true)
unfolding my_cross_area
stop_timer-my_cross_area p str start t stops h =
    let q = record (my_run_script p (some str) start) { empty_script = true } in
    (q, idle q stops refl, (my_run_script-depth p str start h, refl))
  where
    idle : (q : Profile) (stops : List (ℕ × ℕ)) → q.empty_script ≡ true → stop_all q stops ≡ done q
    idle q [] e = refl
    idle q ((now, again) ∷ stops) e =
        ap (λ o. o >>= λ r. stop_all r stops) (stop_timer-idle q now again e) ∙ idle q stops e
