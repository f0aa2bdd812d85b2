-- ===== src/Dispatch/Answers.antt =====
-- What a request does to the script's variable.
use nwnx2_windows.Prelude.{
  ℕ, zero, suc, ◌≤◌, ◌≡◌, refl, ap, ◌∙◌, inl, inr, true, false, Option, none, some, List, [], ◌∷◌,
  ◌++◌, Text, done, ◌>>=◌, ltb, if◌then◌else◌, length, take, drop, Bool-cases, arith,
}
use nwnx2_windows.HashTable
use nwnx2_windows.HashTable.{HashTable}
use nwnx2_windows.Dispatch.{
  prefix, parse_name, Parsed, not_for_us, no_function, request, Variable, Response, LogLine,
  function_not_specified, library_does_not_exist, is_legacy, store_result, answer, dispatch,
  pay_load, ObjectReply, dispatch_object, object_pay_load,
}
use nwnx2_windows.Dispatch.Names.{HasNoBang, parse_name-request}

take-length : (t : Text) → take (length t) t ≡ t
take-length [] = refl
take-length (c ∷ t) = ap (λ r. c ∷ r) (take-length t)

take_all : (n : ℕ) (t : Text) → length t ≤ n → take n t ≡ t
take_all n [] h = take_nil n
  where
    take_nil : (n : ℕ) → take {A = ℕ} n [] ≡ []
    take_nil zero = refl
    take_nil (suc n) = refl
take_all zero (c ∷ t) h = absurd (omega arith)
take_all (suc n) (c ∷ t) h = ap (λ r. c ∷ r) (take_all n t (omega arith))

store_result-new :
    (library : Text) (v : Variable) (n : ℕ) (res : Text)
    → is_legacy library ≡ false
    → store_result library n v res
      ≡ record { text = res; len = if ltb n (length res) then length res else v.len }
unfolding store_result
store_result-new library v n res h = elim (Bool-cases (ltb n (length res))) [
  | inl longer ↦ rw (h, longer)
  | inr fits ↦ rw (h, fits, take-length res)
]

store_result-legacy :
    (library : Text) (v : Variable) (n : ℕ) (res : Text)
    → is_legacy library ≡ true
    → store_result library n v res ≡ record v { text = take n res }
unfolding store_result
store_result-legacy library v n res h = elim (Bool-cases (ltb n (length res))) [
  | inl longer ↦ rw (h, longer)
  | inr fits ↦ rw (h, fits, take-length res, take_all n res (ground arith))
]

module _ {D O : Type 0} (on_request : D → O → Text → Text → Response) (libraries : HashTable D)
    (plugin : D) (library function : Text) (no_bang : HasNoBang library)
    (found : HashTable.lookup libraries library ≡ done (some plugin)) (object : O)
    (v : Variable) where
  -- a request reaches the plugin, with the function's name and the variable's text
  pay_load-request :
      pay_load on_request libraries object (some (prefix ++ library ++ b'!' ∷ function)) (some v)
      ≡ done (
        some (
            answer on_request
              (library ++ b'!' ∷ function)
              v
              (on_request plugin object function v.text)),
        [],
      )
  unfolding pay_load
  pay_load-request = rw (
    (parse_name-request (prefix ++ library ++ b'!' ∷ function) library function).1 (refl, no_bang),
    dispatch,
    found,
  )

  -- A request `NWNX!LIBRARY!FUNCTION` to a loaded plugin other than LETO and HASHSET, which gets the
  -- function's name and the variable's text: what it returns becomes the variable's text, whatever
  -- its length, and the length word follows only where the result is longer than the old text.
  pub pay_load-text :
      (res : Text)
      → is_legacy (library ++ b'!' ∷ function) ≡ false
      → (on_request plugin object function v.text).result ≡ some res
      → pay_load on_request libraries object (some (prefix ++ library ++ b'!' ∷ function)) (some v)
        ≡ done (
          some (record {
            text = res;
            len = if ltb (length v.text) (length res) then length res else v.len;
          }),
          [],
        )
  unfolding answer
  pay_load-text res modern replied =
      pay_load-request
      ∙ ap (λ x. done (some x, []))
          (rw replied (
            store_result-new (library ++ b'!' ∷ function)
              (record v { text = (on_request plugin object function v.text).buffer })
              (length v.text) res modern))

  -- A request to LETO or HASHSET: the variable's text becomes what the plugin returns, cut to the
  -- length of the old text, and the length word stays.
  pub pay_load-legacy :
      (res : Text)
      → is_legacy (library ++ b'!' ∷ function) ≡ true
      → (on_request plugin object function v.text).result ≡ some res
      → pay_load on_request libraries object (some (prefix ++ library ++ b'!' ∷ function)) (some v)
        ≡ done (some (record v { text = take (length v.text) res }), [])
  unfolding answer
  pay_load-legacy res legacy replied =
      pay_load-request
      ∙ ap (λ x. done (some x, []))
          (rw replied (
            store_result-legacy (library ++ b'!' ∷ function)
              (record v { text = (on_request plugin object function v.text).buffer })
              (length v.text) res legacy))

-- A name that is not a request, or a request to a library that is not loaded: the variable is left
-- alone.
pub pay_load-unanswered :
    {D O : Type 0} (on_request : D → O → Text → Text → Response) (libraries : HashTable D)
    (object : O) (name : Text) (v : Variable)
    → ((library function : Text)
        → parse_name name ≡ request library function
        → HashTable.lookup libraries library ≡ done none)
    → (log : List LogLine) × (pay_load on_request libraries object (some name) (some v)
        ≡ done (some v, log))
unfolding pay_load
pay_load-unanswered {D} {O} on_request libraries object name v absent = go (parse_name name) absent
  where
    go :
        (p : Parsed)
        → ((library function : Text)
            → p ≡ request library function
            → HashTable.lookup libraries library ≡ done none)
        → (log : List LogLine) × (◌>>=◌ {B = Option Variable × List LogLine}
              (dispatch on_request libraries object (drop 5 name) v p)
              (λ (v', log). done (some v', log))
            ≡ done (some v, log))
    go not_for_us h = ([], refl)
    go no_function h = (function_not_specified ∷ [], refl)
    go (request library function) h =
        (library_does_not_exist (drop 5 name) ∷ [], rw (h library function refl))

-- The hook on GetLocalObject answers itself exactly when the name is a request to a loaded plugin:
-- then the answer is the plugin's, and otherwise the engine's own function is to be called.
pub object_pay_load-found :
    {D O : Type 0} (on_request_object : D → O → Text → ℕ) (libraries : HashTable D) (plugin : D)
    (library function : Text)
    → HasNoBang library
    → HashTable.lookup libraries library ≡ done (some plugin)
    → (object : O) (reply : ObjectReply)
    → object_pay_load on_request_object libraries object
        (some (prefix ++ library ++ b'!' ∷ function))
        reply
      ≡ done (record { res = on_request_object plugin object function; ret = true }, [])
unfolding object_pay_load
object_pay_load-found f libraries plugin library function no_bang found object reply = rw (
  (parse_name-request (prefix ++ library ++ b'!' ∷ function) library function).1 (refl, no_bang),
  dispatch_object,
  found,
)

-- A request to a library that is not loaded changes neither the variable nor the object's answer, and
-- is logged.
pub pay_load-missing :
    {D O : Type 0} (on_request : D → O → Text → Text → Response)
    (on_request_object : D → O → Text → ℕ) (libraries : HashTable D) (library function : Text)
    → HasNoBang library
    → HashTable.lookup libraries library ≡ done none
    → (object : O) (v : Variable) (reply : ObjectReply)
    → (pay_load on_request libraries object (some (prefix ++ library ++ b'!' ∷ function)) (some v)
        ≡ done (some v, library_does_not_exist (library ++ b'!' ∷ function) ∷ []))
      × (object_pay_load on_request_object libraries object
            (some (prefix ++ library ++ b'!' ∷ function))
            reply
          ≡ done (reply, library_does_not_exist (library ++ b'!' ∷ function) ∷ []))
unfolding pay_load object_pay_load
pay_load-missing f g libraries library function no_bang absent object v reply =
    let parsed =
      (parse_name-request (prefix ++ library ++ b'!' ∷ function) library function).1
        (refl, no_bang) in
    (rw (parsed, dispatch, absent) refl, rw (parsed, dispatch_object, absent) refl)
