-- ===== src/Visibility/Decision.antt =====
-- What the setters change, and what decides whether an object is seen.
use nwnx2_windows.Prelude.{
  ℕ, ◌≡◌, refl, sym, ap, ◌∙◌, Bool, true, false, ◌&&◌, inl, inr, Option, none, some, [], ◌∷◌, ◌==◌,
  ==_iff, if◌then◌else◌, Bool-cases, arith,
}
use nwnx2_windows.Visibility.{
  OverrideType, Map, ObjectEntry, find, assign, entry_of, type_of, number_of, value_of,
  set_visibility_override, set_visibility, get_visibility_override, get_visibility,
}

find_cons :
    {A : Type 0} (m : Map A) (k q : ℕ) (a : A)
    → find ((k, a) ∷ m) q ≡ (if k == q then some a else find m q)
unfolding find
find_cons m k q a = refl

again :
    {A : Type 0} (k q : ℕ) (a a' : A) (o : Option A)
    → (if k == q then some a else o) ≡ (if k == q then some a else (if k == q then some a' else o))
again k q a a' o = ground arith

apart :
    {A : Type 0} (k k' q : ℕ) (a a' : A) (o : Option A)
    → (k' == k) ≡ false
    → (if k' == q then some a' else (if k == q then some a else o))
      ≡ (if k == q then some a else (if k' == q then some a' else o))
apart k k' q a a' o h = ground arith

find-assign :
    {A : Type 0} (m : Map A) (k q : ℕ) (a : A)
    → find (assign m k a) q ≡ (if k == q then some a else find m q)
unfolding assign
find-assign [] k q a = find_cons [] k q a
find-assign ((k', a') ∷ m) k q a = elim (Bool-cases (k' == k)) [
  | inl same ↦
      let e : k ≡ k' = sym ((==_iff k' k).0 same) in
      rw same (
        find_cons m k q a
        ∙ again k q a a' (find m q)
        ∙ ap (λ x. if k == q then some a else x)
            (ap (λ j. if j == q then some a' else find m q) e ∙ sym (find_cons m k' q a')))
  | inr other ↦ rw other (
      find_cons (assign m k a) k' q a'
      ∙ ap (λ x. if k' == q then some a' else x) (find-assign m k q a)
      ∙ apart k k' q a a' (find m q) other
      ∙ ap (λ x. if k == q then some a else x) (sym (find_cons m k' q a')))
]

value_of-entry_of :
    (o : Option ObjectEntry) (p' : ℕ) → value_of o p' ≡ number_of (find (entry_of o).vismap p')
unfolding find
value_of-entry_of none p' = refl
value_of-entry_of (some entry) p' = refl

type_of-entry_of : (o : Option ObjectEntry) → type_of o ≡ (entry_of o).override_type
type_of-entry_of none = refl
type_of-entry_of (some entry) = refl

number_of_if :
    (b : Bool) (value : ℕ) (o : Option ℕ)
    → number_of (if b then some value else o) ≡ (if b then value else number_of o)
number_of_if true value o = refl
number_of_if false value o = refl

-- what an entry reads that was written at `o`
read_entry :
    {C : Type 0} (f : Option ObjectEntry → C) (objects : Map ObjectEntry) (o p : ℕ)
    (entry : ObjectEntry) (x : C)
    → f (some entry) ≡ x
    → f (find (assign objects o entry) p) ≡ (if o == p then x else f (find objects p))
read_entry f objects o p entry x e =
    ap f (find-assign objects o p entry)
    ∙ elim (Bool-cases (o == p)) [ inl same ↦ rw same e | inr other ↦ rw other refl ]

-- a value written where the same stands, or stands under the same key, is not seen
kept :
    {C : Type 0} (f : Option ObjectEntry → C) (objects : Map ObjectEntry) (o p : ℕ)
    → (if o == p then f (find objects o) else f (find objects p)) ≡ f (find objects p)
kept f objects o p = elim (Bool-cases (o == p)) [
  | inl same ↦ rw same (ap (λ k. f (find objects k)) ((==_iff o p).0 same))
  | inr other ↦ rw other refl
]

-- After `SetVisibility` the pair reads the new value, every other pair what it read before, and
-- every override type is what it was.
pub get_visibility-set_visibility :
    (objects : Map ObjectEntry) (o o' p p' value : ℕ)
    → (get_visibility (set_visibility objects o o' value) p p'
        ≡ (if (o == p) && (o' == p') then value else get_visibility objects p p'))
      × (get_visibility_override (set_visibility objects o o' value) p
          ≡ get_visibility_override objects p)
unfolding get_visibility set_visibility get_visibility_override
get_visibility-set_visibility objects o o' p p' value =
    let entry = entry_of (find objects o) in
    let entry' = record entry { vismap = assign entry.vismap o' value } in
    (
      read_entry (λ e. value_of e p') objects o p entry' _
            (ap number_of (find-assign entry.vismap o' p' value)
              ∙ number_of_if (o' == p') value (find entry.vismap p')
              ∙ ap (λ n. if o' == p' then value else n)
                  (sym (value_of-entry_of (find objects o) p')))
          ∙ both objects o p o' p' value,
      read_entry type_of objects o p entry' _ (sym (type_of-entry_of (find objects o)))
          ∙ kept type_of objects o p,
    )
  where
    both :
        (objects : Map ObjectEntry) (o p o' p' value : ℕ)
        → (if o == p
            then (if o' == p' then value else value_of (find objects o) p')
            else value_of (find objects p) p')
          ≡ (if (o == p) && (o' == p') then value else value_of (find objects p) p')
    both objects o p o' p' value = elim (Bool-cases (o' == p')) [
      | inl same ↦ rw same (choose (o == p) _)
      | inr other ↦ rw other (kept (λ e. value_of e p') objects o p ∙ rest (o == p) _)
    ]
      where
        choose : (b : Bool) (y : ℕ) → (if b then value else y) ≡ (if b && true then value else y)
        choose true y = refl
        choose false y = refl

        rest : (b : Bool) (y : ℕ) → y ≡ (if b && false then value else y)
        rest true y = refl
        rest false y = refl

-- After `SetVisibilityOverride` the object has the new type, every other object the type that it
-- had, and every pair reads what it read before.
pub get_visibility_override-set_visibility_override :
    (objects : Map ObjectEntry) (o p p' : ℕ) (type : OverrideType)
    → (get_visibility_override (set_visibility_override objects o type) p
        ≡ (if o == p then type else get_visibility_override objects p))
      × (get_visibility (set_visibility_override objects o type) p p' ≡ get_visibility objects p p')
unfolding get_visibility set_visibility_override get_visibility_override
get_visibility_override-set_visibility_override objects o p p' type =
    let entry' = record (entry_of (find objects o)) { override_type = type } in
    (
      read_entry type_of objects o p entry' type refl,
      read_entry (λ e. value_of e p') objects o p entry' _
            (sym (value_of-entry_of (find objects o) p'))
          ∙ kept (λ e. value_of e p') objects o p,
    )

-- A value that is set for a pair, and an override type that is set for an object, are what is read
-- there; every other pair and every other object reads what it read before.
pub get_visibility-set :
    (objects : Map ObjectEntry) (o o' p p' value : ℕ) (type : OverrideType)
    → (get_visibility (set_visibility objects o o' value) p p'
        ≡ (if (o == p) && (o' == p') then value else get_visibility objects p p'))
      × (get_visibility_override (set_visibility objects o o' value) p
          ≡ get_visibility_override objects p)
      × (get_visibility_override (set_visibility_override objects o type) p
          ≡ (if o == p then type else get_visibility_override objects p))
      × (get_visibility (set_visibility_override objects o type) p p' ≡ get_visibility objects p p')
get_visibility-set objects o o' p p' value type =
    let (value_read, type_kept) = get_visibility-set_visibility objects o o' p p' value in
    let (type_read, value_kept) =
      get_visibility_override-set_visibility_override objects o p p' type in
    (value_read, type_kept, type_read, value_kept)
