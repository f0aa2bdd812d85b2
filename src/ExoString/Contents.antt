-- ===== src/ExoString/Contents.antt =====
-- What the constructors, the assignments and the sums of RockLib/nwn_internals/CExoString.cpp leave
-- in a string, and that none of them writes past its block.
use mathlib.Core.List.{append-nil}
use nwnx2_windows.Prelude.{
  ℕ, zero, suc, ◌+◌, ◌<◌, ◌≤◌, ◌≡◌, refl, sym, ap, ◌∙◌, true, false, Option, none, some, [], ◌∷◌,
  ◌++◌, done, Returns, arith, ltb, if◌then◌else◌, length, length-append, take, length-take-le, Text,
  Bool-cases, inl, inr, eq_of_text_eq,
}
use nwnx2_windows.ExoString.{
  Block, CString, ExoString, strcpy_s, strcat_s, construct_empty, fill_new, construct_text, c_str,
  construct_copy, construct_prefix, release, refill, destroy, assign_steps, assign, holds_already,
  assign_text, kept_length, chars_of, join, concat_parts, concat, concat_text,
}

-- The kept size is that of the block, and the string with its zero fits in it.
abbrev pub Fits : Option Block → ℕ → Type 0
Fits none n = n ≡ 0
Fits (some b) n = (b.size ≡ n) × (length b.chars < n)

abbrev pub Valid : ExoString → Type 0
Valid e = Fits e.text e.len

unfoldable pub content : ExoString → Text
unfolding c_str chars_of
content e = chars_of (c_str e)

-- A sound string with the text `s`.
abbrev pub Holds : Text → ExoString → Type 0
Holds s e = Valid e × (content e ≡ s)

pub strcpy_s_lem :
    (b : Block) (n : ℕ) (s : Text)
    → length s < n
    → length s < b.size
    → strcpy_s b n s ≡ done (record b { chars = s })
unfolding strcpy_s
strcpy_s_lem b n s h k = ground arith

fill_new_lem :
    (n : ℕ) (s : Text)
    → length s < n
    → fill_new n s ≡ done (record { text = some (record { size = n; chars = s }); len = n })
unfolding fill_new
fill_new_lem n s h = rw (strcpy_s_lem (record { size = n; chars = [] }) n s h h) refl

construct_empty-Holds : Holds [] construct_empty
unfolding construct_empty content
construct_empty-Holds = (refl, refl)

pub fill_new-Holds : (n : ℕ) (s : Text) → length s < n → Returns (fill_new n s) (Holds s)
unfolding content
fill_new-Holds n s h = (_, fill_new_lem n s h, ((refl, h), refl))

-- Of a text the string holds a copy.
pub construct_text-Holds : (p : CString) → Returns (construct_text p) (Holds (chars_of p))
unfolding construct_text chars_of
construct_text-Holds none = (construct_empty, refl, construct_empty-Holds)
construct_text-Holds (some []) = (construct_empty, refl, construct_empty-Holds)
construct_text-Holds (some (c ∷ s)) =
    let test : ltb 0 (length (c ∷ s)) ≡ true = ground arith in
    rw test (fill_new-Holds _ (c ∷ s) (omega arith))

pub construct_copy-Holds : (e : ExoString) → Returns (construct_copy e) (Holds (content e))
unfolding construct_copy content
construct_copy-Holds e = construct_text-Holds (c_str e)

join_lem :
    (n : ℕ) (s : Text) (m : ℕ) (t : Text)
    → length s ≤ n
    → length t ≤ m
    → join (n + m + 1) n s m t ≡ done (record { size = n + m + 1; chars = s ++ t })
unfolding join strcpy_s strcat_s
join_lem n [] m [] h k = ground arith
join_lem n (c ∷ s) m [] h k = ground (arith, append-nil (c ∷ s))
join_lem n [] m (d ∷ t) h k = ground arith
join_lem n (c ∷ s) m (d ∷ t) h k = ground (arith, length-append (c ∷ s) (d ∷ t))

-- The size that a block needs for a text, where it does not shrink.
abbrev pub grown : ℕ → Text → ℕ
grown n s = if ltb n (length s + 1) then length s + 1 else n

refill-release :
    (o : Option Block) (n : ℕ) (s : Text)
    → Fits o n
    → refill (release (record { text = o; len = n }) (some s)) s
      ≡ done (record { text = some (record { size = grown n s; chars = s }); len = grown n s })
unfolding refill release strcpy_s fill_new
refill-release none n s v = ground arith
refill-release (some b) n s v = ground arith

destroy-release :
    (o : Option Block) (n : ℕ) (p : CString)
    → Fits o n
    → destroy (release (record { text = o; len = n }) p) ≡ record { text = none; len = 0 }
unfolding destroy release
destroy-release none n p v = ground arith
destroy-release (some b) n none v = refl
destroy-release (some b) n (some s) v = ground arith

-- What an assignment of the text `s` leaves: the text, in a block that has not become smaller.
abbrev pub Assigned : ExoString → Text → ExoString → Type 0
Assigned e s e' = Holds s e' × (e'.len ≡ (if ltb 0 (length s) then grown e.len s else 0))

lt-grown : (n : ℕ) (s : Text) → length s < grown n s
lt-grown n s = ground arith

assign_steps-Assigned :
    (e : ExoString) (p : CString) → Valid e → Returns (assign_steps e p) (Assigned e (chars_of p))
unfolding assign_steps content c_str chars_of
assign_steps-Assigned e none v =
    (_, ap done (destroy-release e.text e.len none v), ((refl, refl), refl))
assign_steps-Assigned e (some []) v =
    (_, ap done (destroy-release e.text e.len (some []) v), ((refl, refl), refl))
assign_steps-Assigned e (some (c ∷ s)) v =
    let test : ltb 1 (length (c ∷ s) + 1) ≡ true = ground arith in
    let test' : ltb 0 (length (c ∷ s)) ≡ true = ground arith in
    rw test (
      rw test'
        (_, refill-release e.text e.len (c ∷ s) v, (((refl, lt-grown e.len (c ∷ s)), refl), refl)))

-- After `e = op` the string `e` has the text of `op`, with a sound block that is not smaller than
-- before unless the text is empty; assigned to itself it stays as it is.
pub assign-Assigned :
    (e op : ExoString)
    → Valid e
    → Returns (assign false e op) (Assigned e (content op)) × (assign true e op ≡ done e)
unfolding assign content
assign-Assigned e op v = (assign_steps-Assigned e (c_str op) v, refl)

chars_of-holds_already : (p q : CString) → holds_already p q ≡ true → chars_of q ≡ chars_of p
unfolding holds_already chars_of
chars_of-holds_already none q h = cc
chars_of-holds_already (some s) none h = cc
chars_of-holds_already (some s) (some t) h = sym (eq_of_text_eq s t h)

-- The text of a C string is assigned, unless it is there already.
pub assign_text-Holds :
    (e : ExoString) (p : CString) → Valid e → Returns (assign_text e p) (Holds (chars_of p))
unfolding assign_text content chars_of
assign_text-Holds e p v = elim (Bool-cases (holds_already p (c_str e))) [
  | inl there ↦ rw there (e, refl, (v, chars_of-holds_already p (c_str e) there))
  | inr new ↦ rw new (let (e', run, (holds, _)) = assign_steps-Assigned e p v in (e', run, holds))
]

-- A new string with the text `s`, in a block that fits it exactly.
abbrev pub Fresh : Text → ExoString → Type 0
Fresh s e = Holds s e × (e.len ≡ (if ltb 0 (length s) then length s + 1 else 0))

grown_zero : (s : Text) → grown 0 s ≡ length s + 1
grown_zero s = ground arith

assign_text-construct_empty : (s : Text) → Returns (assign_text construct_empty (some s)) (Fresh s)
unfolding assign_text construct_empty c_str holds_already chars_of
assign_text-construct_empty s =
    let (e, run, (holds, size)) =
      assign_steps-Assigned (record { text = none; len = 0 }) (some s) refl in
    (e, run, (holds, size ∙ ap (λ k. if ltb 0 (length s) then k else 0) (grown_zero s)))

construct_empty-Fresh :
    (s t : Text) → length s ≤ 0 → length t ≤ 0 → Returns (done construct_empty) (Fresh (s ++ t))
unfolding construct_empty
construct_empty-Fresh [] [] h k = (construct_empty, refl, (construct_empty-Holds, refl))
construct_empty-Fresh (c ∷ s) t h k = absurd (omega arith)
construct_empty-Fresh [] (d ∷ t) h k = absurd (omega arith)

concat_parts-Fresh :
    (n : ℕ) (s : Text) (m : ℕ) (t : Text)
    → length s ≤ n
    → length t ≤ m
    → Returns (concat_parts n s m t) (Fresh (s ++ t))
unfolding concat_parts
concat_parts-Fresh n s m t h k = elim (Bool-cases (ltb 0 (n + m))) [
  | inl some_text ↦ rw some_text (rw (join_lem n s m t h k) (assign_text-construct_empty (s ++ t)))
  | inr no_text ↦ rw no_text (construct_empty-Fresh s t (ground arith) (ground arith))
]

length-content-le :
    (o : Option Block) (n : ℕ)
    → Fits o n
    → length (content (record { text = o; len = n })) ≤ kept_length (record { text = o; len = n })
unfolding content c_str chars_of kept_length
length-content-le none n v = omega arith
length-content-le (some b) n v = omega arith

-- The sum of two strings is a new string with the one text behind the other, in a block that fits
-- it exactly, also where the sizes kept by the two are larger than their texts.
pub concat-Fresh :
    (e op : ExoString)
    → Valid e
    → Valid op
    → Returns (concat e op) (Fresh (content e ++ content op))
unfolding concat content
concat-Fresh e op v w =
    concat_parts-Fresh (kept_length e) (content e) (kept_length op) (content op)
      (length-content-le e.text e.len v) (length-content-le op.text op.len w)

-- So is the sum of a string and a C string that is not NULL.
pub concat_text-Fresh :
    (e : ExoString) (s : Text) → Valid e → Returns (concat_text e (some s)) (Fresh (content e ++ s))
unfolding concat_text content
concat_text-Fresh e s v =
    concat_parts-Fresh (kept_length e) (content e) (length s) s (length-content-le e.text e.len v)
      (omega arith)

-- The first `n` bytes of a text, or all of a shorter one.
pub construct_prefix-Holds :
    (s : Text) (n : ℕ) → Returns (construct_prefix (some s) n) (Holds (take n s))
unfolding construct_prefix
construct_prefix-Holds s zero = (construct_empty, refl, construct_empty-Holds)
construct_prefix-Holds s (suc n) =
    let test : ltb 0 (suc n) ≡ true = ground arith in
    rw test (fill_new-Holds _ (take (suc n) s) (omega (arith, length-take-le (suc n) s)))
