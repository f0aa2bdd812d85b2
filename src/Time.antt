-- ===== src/Time.antt =====
-- Time/NWNXTime.cpp: the plugin that measures times on named timers. The counter and its frequency
-- are 64-bit integers that Windows gives; the counter's value at a request is an argument. The
-- script's variable is taken to have the 256 bytes that `sprintf_s` is told. The log is left out.
pub mod Timing
mod Tests
use nwnx2_windows.Prelude.{
  ℕ, suc, ◌+◌, ◌-◌, ◌*◌, ◌/◌, ◌%◌, ◌^◌, Bool, Option, none, some, List, [], ◌∷◌, Outcome, done,
  fault, ◌>>=◌, ltb, ◌==◌, if◌then◌else◌, Text, codes, text_eq, split_first, ℤ, pos, negsuc, negate,
  print_int, Dict, search_key, put, erase,
}

-- `m_Timers` and `liFrequency`
pub record NwnxTime : Type 0 where
  pub timers : Dict ℕ
  pub frequency : ℕ

-- the integer that 64 bits stand for
unfoldable pub as_signed : ℕ → ℤ
as_signed n = if ltb n (2 ^ 63) then pos n else negate (2 ^ 64 - n)

-- `(current - last) * 1000000`, which wraps around
unfoldable pub scaled : ℕ → ℕ → ℕ
scaled current last = (current + 2 ^ 64 - last) % 2 ^ 64 * 1000000 % 2 ^ 64

-- the division rounds towards zero
unfoldable pub divide : ℤ → ℕ → ℤ
divide (pos n) d = pos (n / d)
divide (negsuc n) d = negate (suc n / d)

unfoldable pub start_timer : NwnxTime → ℕ → Text → NwnxTime
start_timer t now name = record t { timers = put name now t.timers }

unfoldable pub elapsed : Option ℕ → ℕ → ℕ → Outcome ℤ
unfolding as_signed scaled divide
elapsed none frequency now = done (pos 0)
elapsed (some last) frequency now =
    if frequency == 0 then fault else done (divide (as_signed (scaled now last)) frequency)

unfoldable pub peek_timer : NwnxTime → ℕ → Text → Outcome ℤ
unfolding elapsed
peek_timer t now name = elapsed (search_key name t.timers) t.frequency now

unfoldable pub stop_timer : NwnxTime → ℕ → Text → Outcome (NwnxTime × ℤ)
unfolding peek_timer
stop_timer t now name = do
  result ← peek_timer t now name
  done (record t { timers = erase name t.timers }, result)

-- `none` leaves the parameters as they are
unfoldable pub perform : NwnxTime → ℕ → Text → Text → Outcome (NwnxTime × Option Text)
unfolding start_timer peek_timer stop_timer
perform t now function name =
    if text_eq function (codes "START")
    then done (start_timer t now name, none)
    else (if text_eq function (codes "QUERY")
        then (do result ← peek_timer t now name; done (t, some (print_int result)))
        else (if text_eq function (codes "STOP")
            then (do (t', result) ← stop_timer t now name; done (t', some (print_int result)))
            else done (t, none)))

-- `none` is a request that is NULL
unfoldable pub on_request : NwnxTime → ℕ → Option Text → Outcome (NwnxTime × Option Text)
unfolding perform
on_request t now none = done (t, none)
on_request t now (some request) = elim (split_first b'!' request) [
  | none ↦ done (t, none)
  | some (function, name) ↦ perform t now function name
]

unfoldable pub on_release : NwnxTime → NwnxTime
on_release t = record t { timers = [] }
