-- ===== src/Dispatch/Names.antt =====
-- Which names are requests.
use nwnx2_windows.Prelude.{
  ◌≡◌, ◌≢◌, ◌↔◌, refl, ap, ◌∙◌, Bool, true, false, Option, none, some, [], ◌∷◌, ◌++◌, Text,
  starts_with, if◌then◌else◌, drop, length, arith,
}
use nwnx2_windows.Dispatch.{split_bang, prefix, not_for_us, no_function, request, parse_name}

-- no '!' in the text
abbrev pub HasNoBang : Text → Type 0
HasNoBang [] = Unit
HasNoBang (c ∷ text) = (c ≢ b'!') × HasNoBang text

split_bang-append : (l f : Text) → HasNoBang l → split_bang (l ++ b'!' ∷ f) ≡ some (l, f)
unfolding split_bang
split_bang-append [] f h = refl
split_bang-append (c ∷ l) f h = rw (split_bang-append l f h.1) (ground arith)

split_bang_sound : (t l f : Text) → split_bang t ≡ some (l, f) → (t ≡ l ++ b'!' ∷ f) × HasNoBang l
unfolding split_bang
split_bang_sound [] l f h = cc
split_bang_sound (c ∷ t) [] f h = ground arith
split_bang_sound (c ∷ t) (d ∷ l) f h = ground (arith, split_bang_sound t l f)

starts_with-append : (p t : Text) → starts_with p (p ++ t) ≡ true
starts_with-append [] t = refl
starts_with-append (c ∷ p) t = ground (arith, starts_with-append p t)

starts_with_sound : (p t : Text) → starts_with p t ≡ true → t ≡ p ++ drop (length p) t
starts_with_sound [] t h = refl
starts_with_sound (c ∷ p) [] h = cc
starts_with_sound (c ∷ p) (d ∷ t) h = ground (arith, starts_with_sound p t)

request_parts :
    (b : Bool) (o : Option (Text × Text)) (l f : Text)
    → (if b
        then elim o [ none ↦ no_function | some (library, function) ↦ request library function ]
        else not_for_us)
      ≡ request l f
    → (b ≡ true) × (o ≡ some (l, f))
request_parts false o l f h = cc
request_parts true none l f h = cc
request_parts true (some (library, function)) l f h = (refl, ground arith)

-- A name is a request for a function of a library exactly when it is `NWNX!`, the library's name
-- without a '!', a '!', and the function's name.
pub parse_name-request :
    (name library function : Text)
    → (parse_name name ≡ request library function)
      ↔ ((name ≡ prefix ++ library ++ b'!' ∷ function) × HasNoBang library)
unfolding parse_name
parse_name-request name l f = (forwards, backwards)
  where
    forwards : parse_name name ≡ request l f → (name ≡ prefix ++ l ++ b'!' ∷ f) × HasNoBang l
    forwards h =
        let (own, parts) =
          request_parts (starts_with prefix name) (split_bang (drop 5 name)) l f h in
        let (e, no_bang) = split_bang_sound (drop 5 name) l f parts in
        (starts_with_sound prefix name own ∙ ap (λ rest. prefix ++ rest) e, no_bang)

    backwards : (name ≡ prefix ++ l ++ b'!' ∷ f) × HasNoBang l → parse_name name ≡ request l f
    backwards (e, h) = rw (e, split_bang-append l f h)
