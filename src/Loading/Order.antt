-- ===== src/Loading/Order.antt =====
-- Which plugin a request reaches after loading.
use nwnx2_windows.Prelude.{
  or_else, or_else-none, or_else_assoc, ℕ, ◌%◌, ◌≡◌, refl, sym, ap, ◌∙◌, Bool, true, false, ◌&&◌,
  ◌↔◌, ==_iff, get_or-replicate, Option, none, some, List, [], ◌∷◌, Text, done, Returns, ◌==◌,
  if◌then◌else◌, length, replicate, length-replicate, arith,
}
use nwnx2_windows.HashTable
use nwnx2_windows.HashTable.{Item, HashTable, payload_of}
use nwnx2_windows.HashTable.Slots.{Cells, Holds, home, slot_of}
use nwnx2_windows.HashTable.Storage.{create-Holds, lookup_lem, Inserted, insert-Inserted}
use nwnx2_windows.Loading.{
  module_name, upper, Loaded, no_library, no_creation_function, no_instance, created, cannot_load,
  cannot_find_creation_function, cannot_create, on_create_failed, is_loaded, load_module, load_file,
  load_files, load_libraries,
}

-- every file has a module name
abbrev pub AllNamed : {D : Type 0} → List (Text × Loaded D) → Type 0
AllNamed [] = Unit
AllNamed ((file, loaded) ∷ files) =
    ((name : Text) × (module_name file ≡ some name)) × AllNamed files

module _ {D : Type 0} where
  -- the plugin of a file, where its name has the same slot, among `size`, as `q`
  abbrev pub plugin_for : ℕ → Text → Option Text → Loaded D → Option D
  plugin_for size q (some name) (created plugin on_create) =
      if HashTable.hash (upper name) % size == HashTable.hash q % size then some plugin else none
  plugin_for size q (some name) no_library = none
  plugin_for size q (some name) no_creation_function = none
  plugin_for size q (some name) no_instance = none
  plugin_for size q none loaded = none

  -- the first of the files with such a plugin
  abbrev pub first_plugin : ℕ → List (Text × Loaded D) → Text → Option D
  first_plugin size [] q = none
  first_plugin size ((file, loaded) ∷ files) q =
      or_else (plugin_for size q (module_name file) loaded) (first_plugin size files q)

  -- a table whose keys read what stood there before, or else what was loaded
  record Filled (size : ℕ) (cells : Cells D) (loaded : Text → Option D) (t : HashTable D)
      : Type 0 where
    cells' : Cells D
    holds : Holds t cells'
    width : length cells' ≡ size
    reads :
        (q : Text)
        → payload_of (slot_of cells' q) ≡ or_else (payload_of (slot_of cells q)) (loaded q)

  unchanged :
      {size : ℕ} {t : HashTable D} {cells : Cells D}
      → Holds t cells
      → length cells ≡ size
      → Filled size cells (λ q. none) t
  unchanged {cells = cells} is w = record {
    cells' = cells;
    holds = is;
    width = w;
    reads = λ q. sym (or_else-none (payload_of (slot_of cells q)));
  }

  -- the slot was free exactly where the insertion succeeded
  stored_reads :
      (stored same : Bool) (s : Option (Item D)) (d : D)
      → (same ≡ true → (stored ≡ true) ↔ (s ≡ none))
      → (if stored && same then some d else payload_of s)
        ≡ or_else (payload_of s) (if same then some d else none)
  stored_reads true true none d h = refl
  stored_reads true true (some it) d h = let e = (h refl).0 refl in cc
  stored_reads false true none d h = let e = (h refl).1 refl in cc
  stored_reads false true (some it) d h = refl
  stored_reads true false s d h = sym (or_else-none (payload_of s))
  stored_reads false false s d h = sym (or_else-none (payload_of s))

  Inserted-Filled :
      (size : ℕ) {cells : Cells D} (k : Text) (d : D) (r : HashTable D × Bool)
      → length cells ≡ size
      → Inserted cells k d r
      → Filled size cells
          (λ q. if HashTable.hash k % size == HashTable.hash q % size then some d else none)
          r.0
  Inserted-Filled size {cells} k d r e w = record {
    cells' = w.cells';
    holds = w.holds;
    width = w.width ∙ e;
    reads = λ q.
        w.reads q
        ∙ stored_reads r.1 (home cells k == home cells q) (slot_of cells q) d
            (λ same. let at = (==_iff (home cells k) (home cells q)).0 same in rw (sym at) w.free)
        ∙ ap
            (λ n.
              or_else (payload_of (slot_of cells q))
                (if HashTable.hash k % n == HashTable.hash q % n then some d else none))
            e;
  }

  load_module-Filled :
      (size : ℕ) {t : HashTable D} {cells : Cells D} (file name : Text) (loaded : Loaded D)
      → Holds t cells
      → length cells ≡ size
      → Returns
          (load_module t file name loaded)
          λ r. Filled size cells (λ q. plugin_for size q (some name) loaded) r.0
  unfolding load_module
  load_module-Filled size {t} file name no_library is w =
      ((t, cannot_load name), refl, unchanged is w)
  load_module-Filled size {t} file name no_creation_function is w =
      ((t, cannot_find_creation_function file), refl, unchanged is w)
  load_module-Filled size {t} file name no_instance is w =
      ((t, cannot_create name), refl, unchanged is w)
  load_module-Filled size file name (created plugin on_create) is w =
      let (r, run, inserted) = insert-Inserted is (upper name) plugin in
      (
        (r.0, if on_create then is_loaded name else on_create_failed name),
        rw run refl,
        Inserted-Filled size (upper name) plugin r w inserted,
      )

  load_file-Filled :
      (size : ℕ) {t : HashTable D} {cells : Cells D} (file name : Text) (loaded : Loaded D)
      → module_name file ≡ some name
      → Holds t cells
      → length cells ≡ size
      → Returns
          (load_file t file loaded)
          λ r. Filled size cells (λ q. plugin_for size q (module_name file) loaded) r.0
  unfolding load_file
  load_file-Filled size file name loaded named is w =
      let (r, run, filled) = load_module-Filled size file name loaded is w in
      (r, rw (load_file, named) run, rw named filled)

  load_files-Filled :
      (size : ℕ) (files : List (Text × Loaded D)) {t : HashTable D} {cells : Cells D}
      → AllNamed files
      → Holds t cells
      → length cells ≡ size
      → Returns (load_files t files) λ r. Filled size cells (first_plugin size files) r.0
  unfolding load_files
  load_files-Filled size [] {t} named is w = ((t, []), refl, unchanged is w)
  load_files-Filled size ((file, loaded) ∷ files) {t} {cells} ((name, e), named) is w =
      let (r, run, filled) = load_file-Filled size file name loaded e is w in
      let (r', run', filled') = load_files-Filled size files named filled.holds filled.width in
      (
        (r'.0, r.1 ∷ r'.1),
        rw (run, run') refl,
        record {
          cells' = filled'.cells';
          holds = filled'.holds;
          width = filled'.width;
          reads = λ q.
              filled'.reads q
              ∙ ap (λ o. or_else o (first_plugin size files q)) (filled.reads q)
              ∙ or_else_assoc (payload_of (slot_of cells q)) _ _;
        },
      )

  empty_reads :
      (n : ℕ) (q : Text) → payload_of (slot_of (replicate {A = Option (Item D)} n none) q) ≡ none
  empty_reads n q =
      rw (get_or-replicate {A = Option (Item D)} n (home (replicate n none) q) none) refl

  -- Where every file has a module name, `LoadLibraries` ends normally, and a library name then finds
  -- the plugin of the first file, in the order of the search, that could be created and whose name
  -- in capitals has the library name's slot among 211; it finds none where there is no such file.
  pub load_libraries-first :
      (t : HashTable D) (files : List (Text × Loaded D))
      → t.item_count ≡ 0
      → AllNamed files
      → Returns
          (load_libraries t files)
          λ r. (q : Text) → HashTable.lookup r.0 q ≡ done (first_plugin 211 files q)
  unfolding load_libraries
  load_libraries-first t files empty named =
      let is = create-Holds t 211 (omega arith) empty in
      let (r, run, filled) =
        load_files-Filled 211 files named is (length-replicate {A = Option (Item D)} 211 none) in
      (
        r,
        run,
        λ q.
            lookup_lem filled.holds q
            ∙ ap done (
                filled.reads q
                ∙ ap (λ o. or_else o (first_plugin 211 files q)) (empty_reads 211 q)),
      )
