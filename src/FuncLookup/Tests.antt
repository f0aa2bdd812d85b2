-- ===== src/FuncLookup/Tests.antt =====
-- Runs of the function table, and the theorem at concrete entries.
use nwnx2_windows.Prelude.{
  ℕ, ◌+◌, ◌≡◌, refl, Option, none, some, List, [], ◌∷◌, ◌++◌, Outcome, done, Text, codes,
  search_key, put, split_first, scan_hex,
}
use nwnx2_windows.FuncLookup.{
  add_function, execute, or_failed, on_request, split_request, block_size, read_object,
  object_answer, on_request_object,
}
use nwnx2_windows.FuncLookup.Calls.{add_all, answered, on_request-add_all}

-- A function is the text that it answers; the world counts the calls.
abbrev calls : Text → ℕ → Option ℕ → Text → Outcome (ℕ × Text)
calls f w object parameters = done (w + 1, f)

abbrev probes : ℕ → Outcome ℕ
probes w = done w

abbrev entries : List (Text × Text)
entries =
    (codes "GETFEATCOUNT", codes "12")
    ∷ (codes "GETAREA", codes "80000001")
    ∷ (codes "GETAREA", codes "7f000000")
    ∷ []

first_wins :
    on_request calls probes (add_all [] entries) 0 (some 5) (codes "GETAREA") []
    ≡ done (1, codes "80000001")
unfolding on_request add_all add_function put search_key execute or_failed
first_wins = refl

object_read :
    on_request_object calls probes
      (add_all [] entries)
      0
      (some 5)
      (codes "GETAREA" ++ (0xac ∷ codes "x"))
    ≡ done (1, 0x80000001)
unfolding on_request_object split_request split_first block_size object_answer read_object scan_hex
    add_all add_function put search_key execute
object_read = refl

unknown_object :
    on_request_object calls probes (add_all [] entries) 0 (some 5) (codes "GETDOOR")
    ≡ done (0, 0x7f000000)
unfolding on_request_object split_request split_first object_answer add_all add_function put
    search_key execute
unknown_object = refl

on_request-add_all_example :
    (on_request calls probes (add_all [] entries) 0 (some 5) (codes "GETFEATCOUNT") []
      ≡ answered calls (search_key (codes "GETFEATCOUNT") entries) 0 5 [])
    × (on_request calls probes (add_all [] entries) 0 none (codes "GETFEATCOUNT") [] ≡ done (0, []))
on_request-add_all_example =
    on_request-add_all calls probes entries 0 5 (codes "GETFEATCOUNT") [] refl
