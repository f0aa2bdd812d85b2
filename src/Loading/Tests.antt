-- ===== src/Loading/Tests.antt =====
-- Three files in one directory.
use nwnx2_windows.Prelude.{
  ℕ, ◌+◌, ◌++◌, some, false, arith, ◌≡◌, refl, true, [], ◌∷◌, List, Text, codes, done, Returns,
}
use nwnx2_windows.HashTable
use nwnx2_windows.HashTable.{HashTable}
use nwnx2_windows.Loading.{module_name, upper, Loaded, no_library, created, load_libraries}
use nwnx2_windows.Dispatch.{Response, is_legacy, prefix, pay_load, object_pay_load}
use nwnx2_windows.Loading.Requests.{asked, stored_text, pay_load-load_libraries}
use nwnx2_windows.Loading.Order.{AllNamed, first_plugin, load_libraries-first}

abbrev files : List (Text × Loaded ℕ)
files =
    (codes "nwnx_chat.dll", created 1 true)
    ∷ (codes "nwnx_broken.dll", no_library)
    ∷ (codes "nwnx_odbc2.dll", created 2 true)
    ∷ []

files-AllNamed : AllNamed files
unfolding module_name
files-AllNamed = ((codes "chat", refl), ((codes "broken", refl), ((codes "odbc2", refl), tt)))

upper_example : upper (codes "odbc2") ≡ codes "ODBC2"
unfolding upper
upper_example = refl

construct-empty : (HashTable.construct {D = ℕ}).item_count ≡ 0
unfolding HashTable.construct
construct-empty = refl

load_libraries-first_example :
    Returns
      (load_libraries (HashTable.construct {D = ℕ}) files)
      λ r. (q : Text) → HashTable.lookup r.0 q ≡ done (first_plugin 211 files q)
load_libraries-first_example =
    load_libraries-first HashTable.construct files construct-empty files-AllNamed

abbrev on_request : ℕ → ℕ → Text → Text → Response
on_request plugin object function value = record { buffer = value; result = some (codes "ready") }

abbrev on_request_object : ℕ → ℕ → Text → ℕ
on_request_object plugin object function = plugin + object

chat-first : first_plugin 211 files (codes "CHAT") ≡ some 1
unfolding module_name upper HashTable.hash
chat-first = refl

chat_modern : is_legacy (asked (codes "CHAT") (codes "INIT")) ≡ false
unfolding is_legacy
chat_modern = refl

pay_load-load_libraries_example : Returns (load_libraries (HashTable.construct {D = ℕ}) files) (λ r.
    (pay_load on_request r.0 5
        (some (prefix ++ asked (codes "CHAT") (codes "INIT")))
        (some (record { text = codes "1"; len = 1 }))
      ≡ done (some (stored_text (record { text = codes "1"; len = 1 }) (codes "ready")), []))
    × (object_pay_load on_request_object r.0 5
          (some (prefix ++ asked (codes "CHAT") (codes "INIT")))
          (record { res = 0; ret = false })
        ≡ done (record { res = on_request_object 1 5 (codes "INIT"); ret = true }, [])))
pay_load-load_libraries_example =
    pay_load-load_libraries on_request on_request_object HashTable.construct files (codes "CHAT")
      (codes "INIT") 5 (record { text = codes "1"; len = 1 }) (record { res = 0; ret = false }) 1
      (codes "ready") construct-empty files-AllNamed
      (omega arith, (omega arith, (omega arith, (omega arith, tt)))) chat-first chat_modern refl
