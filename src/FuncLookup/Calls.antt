-- ===== src/FuncLookup/Calls.antt =====
-- Which function a request to the Functions plugin reaches.
use nwnx2_windows.Prelude.{
  or_else, or_else-none, ℕ, ◌≡◌, refl, sym, ap, ◌∙◌, Bool, true, false, Option, none, some, List,
  [], ◌∷◌, Outcome, done, fault, ◌>>=◌, if◌then◌else◌, Text, codes, text_eq, Dict, search_key,
  search_key-put, Option-cases, Bool-cases, text_eq_iff, inl, inr,
}
use nwnx2_windows.FuncLookup.{add_function, execute, or_failed, on_request}

module _ {F : Type 0} where
  -- The functions entered one after another, as the constructors of the classes do.
  unfoldable pub add_all : Dict F → List (Text × F) → Dict F
  add_all functions [] = functions
  add_all functions ((name, f) ∷ rest) = add_all (add_function functions name f) rest

  search_key-add_function :
      (functions : Dict F) (k : Text) (f : F) (name : Text)
      → search_key name (add_function functions k f)
        ≡ or_else (search_key name functions) (if text_eq k name then some f else none)
  unfolding add_function
  search_key-add_function functions k f name = elim (Option-cases (search_key k functions)) [
    | inl new ↦
        rw (new, add_function)
          (search_key-put k name f functions ∙ entered (text_eq_iff k name).0 new)
    | inr (g, old) ↦ rw (old, add_function) (kept (text_eq_iff k name).0 old)
  ]
    where
      entered :
          (text_eq k name ≡ true → k ≡ name)
          → search_key k functions ≡ none
          → (if text_eq k name then some f else search_key name functions)
            ≡ or_else (search_key name functions) (if text_eq k name then some f else none)
      entered same new = elim (Bool-cases (text_eq k name)) [
        | inl e ↦ rw e (rw (ap (λ n. search_key n functions) (sym (same e)) ∙ new) refl)
        | inr e ↦ rw e (sym (or_else-none (search_key name functions)))
      ]

      kept :
          {g : F}
          → (text_eq k name ≡ true → k ≡ name)
          → search_key k functions ≡ some g
          → search_key name functions
            ≡ or_else (search_key name functions) (if text_eq k name then some f else none)
      kept same old = elim (Bool-cases (text_eq k name)) [
        | inl e ↦ rw e (rw (ap (λ n. search_key n functions) (sym (same e)) ∙ old) refl)
        | inr e ↦ rw e (sym (or_else-none (search_key name functions)))
      ]

  or_else-if :
      (a : Option F) (b : Bool) (f : F) (c : Option F)
      → or_else (or_else a (if b then some f else none)) c ≡ or_else a (if b then some f else c)
  or_else-if (some g) b f c = refl
  or_else-if none true f c = refl
  or_else-if none false f c = refl

  search_key-add_all :
      (functions : Dict F) (entries : List (Text × F)) (name : Text)
      → search_key name (add_all functions entries)
        ≡ or_else (search_key name functions) (search_key name entries)
  unfolding add_all search_key
  search_key-add_all functions [] name = sym (or_else-none (search_key name functions))
  search_key-add_all functions ((k, f) ∷ rest) name =
      search_key-add_all (add_function functions k f) rest name
      ∙ ap (λ o. or_else o (search_key name rest)) (search_key-add_function functions k f name)
      ∙ or_else-if (search_key name functions) (text_eq k name) f (search_key name rest)

  -- The first of the entries with the name.
  search_key-add_all_nil :
      (entries : List (Text × F)) (name : Text)
      → search_key name (add_all [] entries) ≡ search_key name entries
  unfolding search_key
  search_key-add_all_nil entries name = search_key-add_all [] entries name ∙ refl

-- What a request makes of the function that was found for it.
abbrev pub answered :
    {F W : Type 0}
    → (F → W → Option ℕ → Text → Outcome (W × Text))
    → Option F
    → W
    → ℕ
    → Text
    → Outcome (W × Text)
answered call none w object parameters = done (w, codes "-1")
answered call (some f) w object parameters = call f w (some object) parameters

module _ {F W : Type 0} (call : F → W → Option ℕ → Text → Outcome (W × Text))
    (probe : W → Outcome W) where
  done-or_failed :
      (o : Outcome (W × Text))
      → (do r ← (do (w, answer) ← o; done (w, answer, true)); done (or_failed r)) ≡ o
  unfolding or_failed
  done-or_failed (done (w, answer)) = refl
  done-or_failed fault = refl

  -- A request other than TEST to a table that was filled from empty is answered by the first
  -- function that was entered under its name, and by -1 if there is none; without an object the
  -- answer is the empty text, and no function is called.
  pub on_request-add_all :
      (entries : List (Text × F)) (w : W) (object : ℕ) (request parameters : Text)
      → text_eq request (codes "TEST") ≡ false
      → (on_request call probe (add_all [] entries) w (some object) request parameters
          ≡ answered call (search_key request entries) w object parameters)
        × (on_request call probe (add_all [] entries) w none request parameters ≡ done (w, []))
  unfolding on_request execute or_failed
  on_request-add_all entries w object request parameters other = (
    rw other (by_name (search_key request entries) (search_key-add_all_nil entries request)),
    refl,
  )
    where
      by_name :
          (o : Option F)
          → search_key request (add_all [] entries) ≡ o
          → (do
            r ← execute call probe (add_all [] entries) w request (some object) parameters
            done (or_failed r))
            ≡ answered call o w object parameters
      by_name none e = rw (e, execute) refl
      by_name (some f) e = rw (e, execute) (done-or_failed (call f w (some object) parameters))
