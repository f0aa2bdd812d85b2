-- ===== src/Loading.antt =====
-- NWNXdll/NWNXdll.cpp: `LoadLibraries`, which loads every nwnx_*.dll and inserts the plugins into the
-- table that the requests go to. The files that FindFirstFile and FindNextFile give, with what
-- becomes of each in LoadLibraryA, GetProcAddress, GetClassObject and OnCreate, are an argument; file
-- names are below MAX_PATH.
pub mod Order
pub mod Requests
mod Tests
use nwnx2_windows.Prelude.{
  ℕ, ◌-◌, Bool, true, false, ◌&&◌, Option, none, some, List, [], ◌∷◌, map, Text, Outcome, done,
  fault, ◌>>=◌, ltb, leb, ◌==◌, if◌then◌else◌,
}
use nwnx2_windows.HashTable
use nwnx2_windows.HashTable.{HashTable}

-- `strchr(text, c)`: what stands before the first `c` and what stands after it
unfoldable pub split_char : ℕ → Text → Option (Text × Text)
split_char c [] = none
split_char c (d ∷ text) =
    let rest = split_char c text in
    if d == c
    then some ([], text)
    else elim rest [ none ↦ none | some (before, after) ↦ some (d ∷ before, after) ]

-- what stands between the first '_' and the next '.'; the code dereferences NULL where there is none
unfoldable pub module_name : Text → Option Text
unfolding split_char
module_name file = elim (split_char b'_' file) [
  | none ↦ none
  | some (before, after) ↦ elim (split_char b'.' after) [
    | none ↦ none
    | some (name, extension) ↦ some name
  ]
]

-- `_strupr`
unfoldable pub upper : Text → Text
upper text = map (λ c. if leb b'a' c && leb c b'z' then c - 32 else c) text

-- what becomes of a file
pub data Loaded (D : Type 0) : Type 0 where
  no_library : Loaded D
  no_creation_function : Loaded D
  no_instance : Loaded D
  created : (plugin : D) (on_create : Bool) → Loaded D

pub data LoadLine : Type 0 where
  cannot_load : Text → LoadLine
  cannot_find_creation_function : Text → LoadLine
  cannot_create : Text → LoadLine
  on_create_failed : Text → LoadLine
  is_loaded : Text → LoadLine

module _ {D : Type 0} where
  -- the result of `Insert` is dropped
  load_module : HashTable D → Text → Text → Loaded D → Outcome (HashTable D × LoadLine)
  unfolding upper
  load_module t file name no_library = done (t, cannot_load name)
  load_module t file name no_creation_function = done (t, cannot_find_creation_function file)
  load_module t file name no_instance = done (t, cannot_create name)
  load_module t file name (created plugin on_create) = do
    (t', stored) ← HashTable.insert t (upper name) plugin
    done (t', if on_create then is_loaded name else on_create_failed name)

  unfoldable pub load_file : HashTable D → Text → Loaded D → Outcome (HashTable D × LoadLine)
  unfolding load_module module_name
  load_file t file loaded = elim (module_name file) [
    | none ↦ fault
    | some name ↦ load_module t file name loaded
  ]

  unfoldable pub load_files :
      HashTable D → List (Text × Loaded D) → Outcome (HashTable D × List LoadLine)
  unfolding load_file
  load_files t [] = done (t, [])
  load_files t ((file, loaded) ∷ files) = do
    (t', line) ← load_file t file loaded
    (t'', lines) ← load_files t' files
    done (t'', line ∷ lines)

  -- 211 is the default size of `Create`
  unfoldable pub load_libraries :
      HashTable D → List (Text × Loaded D) → Outcome (HashTable D × List LoadLine)
  unfolding load_files
  load_libraries libraries files = load_files (HashTable.create libraries 211).0 files
