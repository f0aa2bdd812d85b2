-- ===== src/Dispatch.antt =====
-- NWNXdll/NWNXdll.cpp: `PayLoad` and `ObjectPayLoad`, which the hooks on SetLocalString and
-- GetLocalObject call. A variable name `NWNX!LIBRARY!FUNCTION` is a request for a plugin.
-- The virtual calls `OnRequest` and `OnRequestObject` are parameters. The prints of debug level 3 are
-- left out.
pub mod Names
pub mod Answers
mod Tests
use nwnx2_windows.Prelude.{
  ℕ, ◌+◌, Bool, true, false, ◌||◌, Option, none, some, List, [], ◌∷◌, Text, codes, starts_with,
  Outcome, done, ◌>>=◌, ltb, ◌==◌, if◌then◌else◌, length, take, drop,
}
use nwnx2_windows.HashTable
use nwnx2_windows.HashTable.{HashTable}

-- `strchr(text, '!')`: what stands before the first '!' and what stands after it
unfoldable pub split_bang : Text → Option (Text × Text)
split_bang [] = none
split_bang (c ∷ text) =
    if c == b'!'
    then some ([], text)
    else elim (split_bang text) [ none ↦ none | some (before, after) ↦ some (c ∷ before, after) ]

abbrev pub prefix : Text
prefix = codes "NWNX!"

-- What the code reads off a name: it is not for us, it has no function, or it is a request.
pub data Parsed : Type 0 where
  not_for_us : Parsed
  no_function : Parsed
  request : (library function : Text) → Parsed

unfoldable pub parse_name : Text → Parsed
unfolding split_bang
parse_name name =
    if starts_with prefix name
    then elim (split_bang (drop 5 name)) [
      | none ↦ no_function
      | some (library, function) ↦ request library function
    ]
    else not_for_us

-- The engine's string at `ppvalue`: the text, and the length word behind the pointer.
pub record Variable : Type 0 where
  pub text : Text
  pub len : ℕ

pub data LogLine : Type 0 where
  function_not_specified : LogLine
  library_does_not_exist : Text → LogLine

-- What `OnRequest` leaves in the value's own buffer, and the string that it returns.
pub record Response : Type 0 where
  pub buffer : Text
  pub result : Option Text

-- `strncmp(library, "LETO", 4) == 0 || strncmp(library, "HASHSET", 7) == 0`, where `library` is the
-- rest of the name behind the prefix
unfoldable pub is_legacy : Text → Bool
is_legacy library = starts_with (codes "LETO") library || starts_with (codes "HASHSET") library

-- The copy of a result into the variable.
unfoldable pub store_result : Text → ℕ → Variable → Text → Variable
unfolding is_legacy
store_result library value_length v res =
    if is_legacy library
    then (if ltb value_length (length res)
        then record v { text = take value_length res }
        else record v { text = take (length res) res })
    else (if ltb value_length (length res)
        then record { text = res; len = length res }
        else record v { text = take (length res) res })

module _ {D O : Type 0} (on_request : D → O → Text → Text → Response) where
  answer : Text → Variable → Response → Variable
  unfolding store_result
  answer library v r = elim r.result [
    | none ↦ record v { text = r.buffer }
    | some res ↦ store_result library (length v.text) (record v { text = r.buffer }) res
  ]

  handle : O → Text → Variable → Text → Text → Option D → Variable × List LogLine
  unfolding answer
  handle object rest v library function none = (v, library_does_not_exist rest ∷ [])
  handle object rest v library function (some plugin) =
      (answer rest v (on_request plugin object function v.text), [])

  dispatch : HashTable D → O → Text → Variable → Parsed → Outcome (Variable × List LogLine)
  unfolding handle
  dispatch libraries object rest v not_for_us = done (v, [])
  dispatch libraries object rest v no_function = done (v, function_not_specified ∷ [])
  dispatch libraries object rest v (request library function) =
      HashTable.lookup libraries library >>= λ found.
      done (handle object rest v library function found)

  -- `none` stands for a NULL name, value or pointer to it
  unfoldable pub pay_load :
      HashTable D → O → Option Text → Option Variable → Outcome (Option Variable × List LogLine)
  unfolding dispatch parse_name
  pay_load libraries object none value = done (value, [])
  pay_load libraries object (some name) none = done (none, [])
  pay_load libraries object (some name) (some v) = do
    (v', log) ← dispatch libraries object (drop 5 name) v (parse_name name)
    done (some v', log)

-- The globals `oRes` and `ObjRet`.
pub record ObjectReply : Type 0 where
  pub res : ℕ
  pub ret : Bool

module _ {D O : Type 0} (on_request_object : D → O → Text → ℕ) where
  handle_object : O → ObjectReply → Text → Text → Option D → ObjectReply × List LogLine
  handle_object object reply rest function none = (reply, library_does_not_exist rest ∷ [])
  handle_object object reply rest function (some plugin) =
      (record { res = on_request_object plugin object function; ret = true }, [])

  dispatch_object :
      HashTable D → O → Text → ObjectReply → Parsed → Outcome (ObjectReply × List LogLine)
  unfolding handle_object
  dispatch_object libraries object rest reply not_for_us = done (reply, [])
  dispatch_object libraries object rest reply no_function =
      done (reply, function_not_specified ∷ [])
  dispatch_object libraries object rest reply (request library function) =
      HashTable.lookup libraries library >>= λ found.
      done (handle_object object reply rest function found)

  unfoldable pub object_pay_load :
      HashTable D → O → Option Text → ObjectReply → Outcome (ObjectReply × List LogLine)
  unfolding dispatch_object parse_name
  object_pay_load libraries object none reply = done (reply, [])
  object_pay_load libraries object (some name) reply =
      dispatch_object libraries object (drop 5 name) reply (parse_name name)
