-- ===== src/ExoString.antt =====
-- RockLib/nwn_internals/CExoString.cpp: the string class of the engine. `text` is a pointer to a heap
-- block that holds a zero-terminated string; `len` is the size that the class keeps for the block.
-- AsTAG and StripNonAlphaNumeric call the engine and are left out. An argument that points into the
-- string's own block occurs only as the object itself (`same`).
pub mod Contents
pub mod Compare
mod Tests
use nwnx2_windows.Prelude.{
  ℕ, ◌+◌, ◌-◌, Bool, true, false, Option, none, some, List, [], ◌∷◌, ◌++◌, Outcome, done, fault,
  ◌>>=◌, ltb, ◌&&◌, ◌||◌, not, if◌then◌else◌, length, take, Text, text_eq, ℤ, print_int,
}

-- A block of `size` bytes and the string in it.
pub record Block : Type 0 where
  pub size : ℕ
  pub chars : Text

-- `char const *`
abbrev pub CString : Type 0
CString = Option Text

pub record ExoString : Type 0 where
  pub text : Option Block
  pub len : ℕ

-- `strcpy_s(block, n, s)`: a string that does not fit in `n` bytes ends the program; one that does
-- not fit in the block would be written behind it
unfoldable pub strcpy_s : Block → ℕ → Text → Outcome Block
strcpy_s b n s =
    if ltb (length s) n && ltb (length s) b.size then done (record b { chars = s }) else fault

unfoldable pub strcat_s : Block → ℕ → Text → Outcome Block
unfolding strcpy_s
strcat_s b n s = strcpy_s b n (b.chars ++ s)

unfoldable pub construct_empty : ExoString
construct_empty = record { text = none; len = 0 }

-- `len = n; text = new char[len]; strcpy_s(text, len, s)`
unfoldable pub fill_new : ℕ → Text → Outcome ExoString
unfolding strcpy_s
fill_new n s = do
  b ← strcpy_s (record { size = n; chars = [] }) n s
  done (record { text = some b; len = n })

unfoldable pub construct_text : CString → Outcome ExoString
unfolding construct_empty fill_new
construct_text none = done construct_empty
construct_text (some s) =
    if ltb 0 (length s) then fill_new (length s + 1) s else done construct_empty

-- `text` as the C string that it points to
unfoldable pub c_str : ExoString → CString
c_str e = elim e.text [ none ↦ none | some b ↦ some b.chars ]

unfoldable pub construct_copy : ExoString → Outcome ExoString
unfolding construct_text c_str
construct_copy source = construct_text (c_str source)

-- A length below 1 is 0. `strncpy_s` copies at most that many bytes, and ends the program at NULL.
unfoldable pub construct_prefix : CString → ℕ → Outcome ExoString
unfolding construct_empty fill_new
construct_prefix source n =
    if ltb 0 n
    then elim source [ none ↦ fault | some s ↦ fill_new (n + 1) (take n s) ]
    else done construct_empty

-- `sprintf_s(c, 31, …)` ends the program if the text does not fit
unfoldable pub construct_int : ℤ → Outcome ExoString
unfolding strcpy_s fill_new
construct_int number = do
  c ← strcpy_s (record { size = 32; chars = [] }) 31 (print_int number)
  fill_new (length c.chars + 1) c.chars

unfoldable pub destroy : ExoString → ExoString
destroy e = elim e.text [ none ↦ e | some b ↦ record { text = none; len = 0 } ]

-- `c && *c`
unfoldable pub is_filled : CString → Bool
is_filled none = false
is_filled (some s) = ltb 0 (length s)

unfoldable pub ne_text : CString → CString → Bool
unfolding is_filled
ne_text (some s) (some t) = not (text_eq s t)
ne_text none t = is_filled none || is_filled t
ne_text (some s) none = is_filled (some s) || is_filled none

unfoldable pub ne : ExoString → ExoString → Bool
unfolding ne_text c_str
ne e comp = ne_text (c_str e) (c_str comp)

unfoldable pub eq_text : CString → CString → Bool
eq_text none none = true
eq_text none (some t) = false
eq_text (some s) none = false
eq_text (some s) (some t) = text_eq s t

unfoldable pub eq : ExoString → ExoString → Bool
unfolding eq_text c_str
eq e comp = eq_text (c_str e) (c_str comp)

-- the first `if` of both assignments: a block that is too small is freed
unfoldable pub release : ExoString → CString → ExoString
release e op = elim e.text [
  | none ↦ e
  | some b ↦ elim op [
    | none ↦ record { text = none; len = 0 }
    | some s ↦ if ltb e.len (length s + 1) then record { text = none; len = 0 } else e
  ]
]

-- the second `if`: the copy, into a new block where there is none
unfoldable pub refill : ExoString → Text → Outcome ExoString
unfolding fill_new strcpy_s
refill e s = elim e.text [
  | none ↦ fill_new (length s + 1) s
  | some b ↦ do b' ← strcpy_s b e.len s; done (record e { text = some b' })
]

unfoldable pub assign_steps : ExoString → CString → Outcome ExoString
unfolding release refill is_filled destroy
assign_steps e none = done (destroy (release e none))
assign_steps e (some s) =
    if ltb 1 (length s + 1)
    then refill (release e (some s)) s
    else done (destroy (release e (some s)))

-- `this = op`; `same` tells whether both are one object
unfoldable pub assign : Bool → ExoString → ExoString → Outcome ExoString
unfolding assign_steps c_str
assign same e op = if same then done e else assign_steps e (c_str op)

-- `Op && text && strcmp(Op, text) == 0`
unfoldable pub holds_already : CString → CString → Bool
holds_already none t = false
holds_already (some s) none = false
holds_already (some s) (some t) = text_eq s t

unfoldable pub assign_text : ExoString → CString → Outcome ExoString
unfolding holds_already assign_steps c_str
assign_text e op = if holds_already op (c_str e) then done e else assign_steps e op

-- `text ? len - 1 : 0`; only a positive value counts
unfoldable pub kept_length : ExoString → ℕ
kept_length e = elim e.text [ none ↦ 0 | some b ↦ e.len - 1 ]

unfoldable pub chars_of : CString → Text
chars_of none = []
chars_of (some s) = s

-- the copies into the new block `c` of `size` bytes, which is zero at first; `n` and `m` are the
-- lengths of the two parts
unfoldable pub join : ℕ → ℕ → Text → ℕ → Text → Outcome Block
unfolding strcpy_s strcat_s
join size n s m t =
    let c : Block = record { size = size; chars = [] } in
    if ltb 0 n && ltb 0 m
    then (do b ← strcpy_s c size s; strcat_s b size t)
    else (if ltb 0 n then strcpy_s c size s else (if ltb 0 m then strcpy_s c size t else done c))

-- the result of both operators +; the block `c` is never freed
unfoldable pub concat_parts : ℕ → Text → ℕ → Text → Outcome ExoString
unfolding join construct_empty assign_text
concat_parts n s m t =
    if ltb 0 (n + m)
    then (do c ← join (n + m + 1) n s m t; assign_text construct_empty (some c.chars))
    else done construct_empty

unfoldable pub concat : ExoString → ExoString → Outcome ExoString
unfolding concat_parts kept_length chars_of c_str
concat e op =
    concat_parts (kept_length e) (chars_of (c_str e)) (kept_length op) (chars_of (c_str op))

-- `strlen(Op)` of NULL is a fault
unfoldable pub concat_text : ExoString → CString → Outcome ExoString
unfolding concat_parts kept_length chars_of c_str
concat_text e none = fault
concat_text e (some s) = concat_parts (kept_length e) (chars_of (c_str e)) (length s) s
