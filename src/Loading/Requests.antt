-- ===== src/Loading/Requests.antt =====
-- From LoadLibraries to the hooks on SetLocalString and GetLocalObject, NWNXdll/NWNXdll.cpp: which
-- file's plugin answers a script's request.
use nwnx2_windows.Prelude.{
  ℕ, ◌≡◌, ap, ◌∙◌, false, true, none, some, List, [], ◌∷◌, ◌++◌, Text, done, Returns, ltb,
  if◌then◌else◌, length,
}
use nwnx2_windows.HashTable.{HashTable}
use nwnx2_windows.Dispatch.{
  prefix, Variable, Response, library_does_not_exist, is_legacy, pay_load, ObjectReply,
  object_pay_load,
}
use nwnx2_windows.Dispatch.Names.{HasNoBang}
use nwnx2_windows.Dispatch.Answers.{pay_load-text, pay_load-missing, object_pay_load-found}
use nwnx2_windows.Loading.{Loaded, load_libraries}
use nwnx2_windows.Loading.Order.{AllNamed, first_plugin, load_libraries-first}

-- The library and the function of a request.
abbrev pub asked : Text → Text → Text
asked library function = library ++ b'!' ∷ function

-- What the plugin returned, with the length that goes with it.
abbrev pub stored_text : Variable → Text → Variable
stored_text v res = record {
  text = res;
  len = if ltb (length v.text) (length res) then length res else v.len;
}

module _ {D O : Type 0} (on_request : D → O → Text → Text → Response)
    (on_request_object : D → O → Text → ℕ) (t : HashTable D) (files : List (Text × Loaded D))
    (library function : Text) (object : O) (v : Variable) (reply : ObjectReply) where
  -- After the libraries were loaded into an empty table from files that all have module names, a
  -- request to a library other than LETO and HASHSET goes to the plugin of the first file, in the
  -- order of the search, that could be created and has the library name's slot among 211, where there
  -- is one. It answers for an object as for a string: the text that it returns for the string becomes
  -- the variable's text, the length word follows where that is longer, and nothing is logged.
  pub pay_load-load_libraries :
      (plugin : D) (res : Text)
      → t.item_count ≡ 0
      → AllNamed files
      → HasNoBang library
      → first_plugin 211 files library ≡ some plugin
      → is_legacy (asked library function) ≡ false
      → (on_request plugin object function v.text).result ≡ some res
      → Returns (load_libraries t files) (λ r.
        (pay_load on_request r.0 object (some (prefix ++ asked library function)) (some v)
          ≡ done (some (stored_text v res), []))
        × (object_pay_load on_request_object r.0 object
              (some (prefix ++ asked library function))
              reply
            ≡ done (record { res = on_request_object plugin object function; ret = true }, [])))
  pay_load-load_libraries plugin res empty named no_bang first modern replied =
      let (r, run, reads) = load_libraries-first t files empty named in
      let found = reads library ∙ ap done first in
      (
        r,
        run,
        (
          pay_load-text on_request r.0 plugin library function no_bang found object v res modern
              replied,
          object_pay_load-found on_request_object r.0 plugin library function no_bang found object
              reply,
        ),
      )

  -- Without such a file the variable and the object's answer stay, and the library is logged as
  -- missing.
  pay_load-unloaded :
      t.item_count ≡ 0
      → AllNamed files
      → HasNoBang library
      → first_plugin 211 files library ≡ none
      → Returns (load_libraries t files) (λ r.
        (pay_load on_request r.0 object (some (prefix ++ asked library function)) (some v)
          ≡ done (some v, library_does_not_exist (asked library function) ∷ []))
        × (object_pay_load on_request_object r.0 object
              (some (prefix ++ asked library function))
              reply
            ≡ done (reply, library_does_not_exist (asked library function) ∷ [])))
  pay_load-unloaded empty named no_bang missing =
      let (r, run, reads) = load_libraries-first t files empty named in
      (
        r,
        run,
        pay_load-missing on_request on_request_object r.0 library function no_bang
            (reads library ∙ ap done missing) object v reply,
      )
