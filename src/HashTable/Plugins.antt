-- ===== src/HashTable/Plugins.antt =====
-- The table as a map from keys to payloads: exact where the keys have different slots, wrong where
-- two of them share one.
use nwnx2_windows.Prelude.{
  ◌≡◌, refl, sym, ap, ◌∙◌, Bool, true, false, ◌&&◌, ◌↔◌, Option, none, some, Text, done, Returns,
  ◌==◌, ==_iff, if◌then◌else◌, Bool-cases, inl, inr,
}
use nwnx2_windows.HashTable.{Item, HashTable, insert, payload_of, lookup, delete}
use nwnx2_windows.HashTable.Slots.{Cells, Holds, home, slot_of}
use nwnx2_windows.HashTable.Storage.{lookup_lem, Inserted, insert-Inserted, delete-Removed}

module _ {ℓ} {D : Type ℓ} where
  eq_none_of_payload : (s : Option (Item D)) → done (payload_of s) ≡ done none → s ≡ none
  eq_none_of_payload none h = refl
  eq_none_of_payload (some it) h = cc

  done_if : (b : Bool) (x y : Option D) → done (if b then x else y) ≡ (if b then done x else done y)
  done_if true x y = refl
  done_if false x y = refl

  -- On a created table an insertion ends normally. It reports success exactly when the key's slot
  -- read NULL; then every key of that slot reads the new payload, and every other key what it read
  -- before. Where it reports failure, every key reads what it read before.
  pub lookup-insert :
      {t : HashTable D} {cells : Cells D}
      → Holds t cells
      → (k q : Text) (d : D)
      → Returns (insert t k d) λ r.
        ((r.1 ≡ true) ↔ (lookup t k ≡ done none))
        × (lookup r.0 q
            ≡ (if r.1 && (home cells k == home cells q) then done (some d) else lookup t q))
  lookup-insert {t} {cells} is k q d =
      let (r, run, w) = insert-Inserted is k d in
      (
        r,
        run,
        (
          (
            λ h. rw (lookup_lem is k, w.free.0 h),
            λ h. w.free.1 (eq_none_of_payload _ (sym (lookup_lem is k) ∙ h)),
          ),
          lookup_lem w.holds q
              ∙ ap done (w.reads q)
              ∙ done_if (r.1 && (home cells k == home cells q)) _ _
              ∙ ap (λ x. if r.1 && (home cells k == home cells q) then done (some d) else x)
                  (sym (lookup_lem is q)),
        ),
      )

  -- On a created table a deletion ends normally. It returns NULL, it frees what the key read, every
  -- key of the same slot reads NULL afterwards, and every other key what it read before.
  lookup-delete :
      {t : HashTable D} {cells : Cells D}
      → Holds t cells
      → (k q : Text)
      → Returns (delete t k) λ r.
        (r.returned ≡ none)
        × (lookup t k ≡ done r.freed)
        × (lookup r.table q ≡ (if home cells k == home cells q then done none else lookup t q))
  lookup-delete {t} {cells} is k q =
      let (r, run, w) = delete-Removed is k in
      (
        r,
        run,
        (
          w.returned,
          rw (lookup_lem is k, w.freed),
          lookup_lem w.holds q
              ∙ ap done (w.reads q)
              ∙ done_if (home cells k == home cells q) _ _
              ∙ ap (λ x. if home cells k == home cells q then done none else x)
                  (sym (lookup_lem is q)),
        ),
      )

  still_taken :
      {cells : Cells D} {q : Text} {d e : D} {r : HashTable D × Bool}
      → payload_of (slot_of cells q) ≡ some d
      → Inserted cells q e r
      → r.1 ≡ false
  still_taken {cells} {q} {r} first w = elim (Bool-cases r.1) [
    | inl stored ↦ let gone = w.free.0 stored in absurd (clash (slot_of cells q) first gone)
    | inr other ↦ other
  ]
    where
      clash : {d : D} (s : Option (Item D)) → payload_of s ≡ some d → s ≡ none → ⊥
      clash none h g = cc
      clash (some it) h g = cc

  -- Two names that share a slot: the second insertion is refused, and the second name then reads the
  -- payload of the first, whether or not the names are the same.
  pub lookup-collision :
      {t : HashTable D} {cells : Cells D}
      → Holds t cells
      → (k q : Text) (d e : D) → home cells k ≡ home cells q
      → lookup t k ≡ done none
      → Returns
          (insert t k d)
          λ r. Returns (insert r.0 q e) λ r'. (r'.1 ≡ false) × (lookup r'.0 q ≡ done (some d))
  lookup-collision {t} {cells} is k q d e same vacant =
      let (r, run, w) = insert-Inserted is k d in
      let (r', run', w') = insert-Inserted w.holds q e in
      let stored : r.1 ≡ true = w.free.1 (eq_none_of_payload _ (sym (lookup_lem is k) ∙ vacant)) in
      let hit : (home cells k == home cells q) ≡ true = (==_iff _ _).1 same in
      let first : payload_of (slot_of w.cells' q) ≡ some d = w.reads q ∙ rw (stored, hit) in
      let refused = still_taken first w' in
      (
        r,
        run,
        (r', run', (refused, lookup_lem w'.holds q ∙ ap done (w'.reads q ∙ rw (refused, first)))),
      )
