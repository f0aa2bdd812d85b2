-- ===== src/FuncLookup.antt =====
-- RockLib/CNss/CFuncLookup.cpp, the table of the script functions, and OnRequest and OnRequestObject
-- of NWNX_Functions/nwnx_funcs.cpp, which call them by name. A function entered with its object is a
-- value of `F`; `call` says what it does to the world `W` and to the parameters. The request TEST,
-- which only reads a weapon's properties, is `probe`.
pub mod Calls
mod Tests
use nwnx2_windows.Prelude.{
  ℕ, ◌+◌, Bool, true, false, Option, none, some, List, [], ◌∷◌, Outcome, done, fault, ◌>>=◌, ltb,
  if◌then◌else◌, length, take, Text, codes, text_eq, split_first, skip_blanks, scan_hex, Dict,
  search_key, put,
}

module _ {F : Type 0} where
  -- a second function under one name is refused
  unfoldable pub add_function : Dict F → Text → F → Dict F
  add_function functions name f = elim (search_key name functions) [
    | none ↦ put name f functions
    | some g ↦ functions
  ]

unfoldable pub or_failed : {W : Type 0} → W × Text × Bool → W × Text
or_failed (w, answer, true) = (w, answer)
or_failed (w, answer, false) = (w, codes "-1")

-- the name and the parameters of a request, split at the delimiter
unfoldable pub split_request : Text → Text × Text
split_request request = elim (split_first 0xac request) [
  | none ↦ (request, [])
  | some (name, parameters) ↦ (name, parameters)
]

-- the size of the block for the parameters
unfoldable pub block_size : Text → ℕ
block_size parameters = if ltb (length parameters) 20 then 21 else length parameters + 1

-- `sscanf(…, "%08X", &ret)`
unfoldable pub read_object : Text → ℕ
read_object s = elim (scan_hex (take 8 (skip_blanks s))) [
  | none ↦ 0x7f000000
  | some (object, rest) ↦ object
]

module _ {F W : Type 0} (call : F → W → Option ℕ → Text → Outcome (W × Text))
    (probe : W → Outcome W) where
  -- the world, the parameters, and whether the function was found
  unfoldable pub execute : Dict F → W → Text → Option ℕ → Text → Outcome (W × Text × Bool)
  execute functions w name object parameters = elim (search_key name functions) [
    | none ↦ done (w, parameters, false)
    | some f ↦ do (w', answer) ← call f w object parameters; done (w', answer, true)
  ]

  unfoldable pub on_request : Dict F → W → Option ℕ → Text → Text → Outcome (W × Text)
  on_request functions w none request parameters = done (w, [])
  on_request functions w (some object) request parameters =
      if text_eq request (codes "TEST")
      then (do w' ← probe w; done (w', parameters))
      else (do r ← execute functions w request (some object) parameters; done (or_failed r))

  -- an answer that does not fit the block is written behind it
  unfoldable pub object_answer : ℕ → W × Text × Bool → Outcome (W × ℕ)
  object_answer size (w, answer, true) =
      if ltb (length answer) size then done (w, read_object answer) else fault
  object_answer size (w, answer, false) = done (w, 0x7f000000)

  unfoldable pub on_request_object : Dict F → W → Option ℕ → Text → Outcome (W × ℕ)
  on_request_object functions w object request =
      let (name, parameters) = split_request request in
      do r ← execute functions w name object parameters; object_answer (block_size parameters) r
