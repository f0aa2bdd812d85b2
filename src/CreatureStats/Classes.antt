-- ===== src/CreatureStats/Classes.antt =====
-- The class functions of NWNX_Functions/CNssCreatureStats.cpp: which class is found, changed and read.
use nwnx2_windows.Prelude.{
  at_index, at_index_lem, at_index-set, update_at_lem, ℕ, zero, suc, ◌+◌, ◌<◌, ◌≤◌, ◌≡◌, ◌≢◌, refl,
  ap, ◌∙◌, true, false, none, some, List, [], ◌∷◌, done, Returns, arith, ◌==◌, ==_iff,
  if◌then◌else◌, length, get_elem?, set, Bool-cases, inl, inr, pos,
}
use nwnx2_windows.CreatureStats.{CreatureClass, LevelStats, CreatureStats, StatsCreature, printed}
use nwnx2_windows.CreatureStats.Levels.{
  find_class, change_first, replace_levels, replace_class, set_domain, get_domain, is_one_or_two,
  is_first,
}

-- The search has found nothing among the first `n` classes, or the first class of the kind, at whose
-- index it stays while the class there keeps its kind.
pub data Searched (kind i n : ℕ) (classes : List CreatureClass) : Type 0 where
  no_class :
      find_class kind i n classes ≡ done none
      → ((j : ℕ) (k : CreatureClass) → j < n → get_elem? classes j ≡ some k → k.cl_class ≢ kind)
      → Searched kind i n classes
  class_at :
      (j : ℕ) (k : CreatureClass)
      → find_class kind i n classes ≡ done (some (i + j))
      → j < n
      → get_elem? classes j ≡ some k
      → k.cl_class ≡ kind
      → ((k' : CreatureClass)
          → k'.cl_class ≡ kind
          → find_class kind i n (set classes j k') ≡ done (some (i + j)))
      → Searched kind i n classes

find_class-Searched :
    (kind i n : ℕ) (classes : List CreatureClass) → n ≤ length classes → Searched kind i n classes
unfolding find_class
find_class-Searched kind i zero classes h = no_class refl (λ j k lt. absurd (omega arith))
find_class-Searched kind i (suc n) [] h = absurd (omega arith)
find_class-Searched kind i (suc n) (k ∷ classes) h = elim (Bool-cases (k.cl_class == kind)) [
  | inl same ↦
      class_at 0 k (rw same (ap (λ j. done (some j)) (omega arith))) (omega arith) refl
        ((==_iff k.cl_class kind).0 same)
        (λ k' e.
          let test : (k'.cl_class == kind) ≡ true = ground arith in
          rw test (ap (λ j. done (some j)) (omega arith)))
  | inr other ↦ behind other (find_class-Searched kind (i + 1) n classes (omega arith))
]
  where
    behind :
        (k.cl_class == kind) ≡ false
        → Searched kind (i + 1) n classes
        → Searched kind i (suc n) (k ∷ classes)
    behind other (no_class run none_of) = no_class (rw other run) go
      where
        go :
            (j : ℕ) (w : CreatureClass)
            → j < suc n
            → get_elem? (k ∷ classes) j ≡ some w
            → w.cl_class ≢ kind
        go zero w lt at e = let same : w ≡ k = cc in ground (arith, ap (λ x. x.cl_class) same)
        go (suc j) w lt at e = none_of j w (omega arith) at e
    behind other (class_at j w run lt at e stays) =
        class_at (suc j) w (rw other (run ∙ ap (λ x. done (some x)) (omega arith))) (omega arith) at
          e (λ k' e'. rw other (stays k' e' ∙ ap (λ x. done (some x)) (omega arith)))

-- What becomes of the statistics: the first class of the kind is changed, if there is one.
pub data FirstChanged (kind : ℕ) (change : CreatureClass → CreatureClass) (s s' : CreatureStats)
    : Type 0 where
  kept :
      s' ≡ s
      → ((j : ℕ) (k : CreatureClass)
          → j < s.cs_classes_len
          → get_elem? s.cs_classes j ≡ some k
          → k.cl_class ≢ kind)
      → FirstChanged kind change s s'
  changed :
      (j : ℕ) (k : CreatureClass)
      → s' ≡ record s { cs_classes = set s.cs_classes j (change k) }
      → j < s.cs_classes_len
      → get_elem? s.cs_classes j ≡ some k
      → k.cl_class ≡ kind
      → find_class kind 0 s.cs_classes_len s.cs_classes ≡ done (some j)
      → ((k' : CreatureClass)
          → k'.cl_class ≡ kind
          → find_class kind 0 s.cs_classes_len (set s.cs_classes j k') ≡ done (some j))
      → FirstChanged kind change s s'

pub change_first-FirstChanged :
    (kind : ℕ) (change : CreatureClass → CreatureClass) (s : CreatureStats)
    → s.cs_classes_len ≤ length s.cs_classes
    → Returns (change_first kind change s) (λ s'. FirstChanged kind change s s')
unfolding change_first
change_first-FirstChanged kind change s h =
    go (find_class-Searched kind 0 s.cs_classes_len s.cs_classes h)
  where
    go :
        Searched kind 0 s.cs_classes_len s.cs_classes
        → Returns (change_first kind change s) (λ s'. FirstChanged kind change s s')
    go (no_class run none_of) = rw (run, change_first) (s, refl, kept refl none_of)
    go (class_at j k run lt at e stays) =
        let found : find_class kind 0 s.cs_classes_len s.cs_classes ≡ done (some j) =
          run ∙ ap (λ x. done (some x)) (omega arith) in
        rw (found, change_first)
          (rw (update_at_lem s.cs_classes j (λ x. done (change x)) at) (
            _,
            refl,
            changed j k refl lt at e found
                (λ k' e'. stays k' e' ∙ ap (λ x. done (some x)) (omega arith)),
          ))

below_length :
    (j : ℕ) (classes : List CreatureClass) {k : CreatureClass}
    → get_elem? classes j ≡ some k
    → j < length classes
below_length j [] h = cc
below_length zero (x ∷ classes) h = omega arith
below_length (suc j) (x ∷ classes) h = omega (arith, below_length j classes h)

-- Some class among the first is a cleric.
abbrev pub HasCleric : CreatureStats → Type 0
HasCleric s =
    (j : ℕ) × (k : CreatureClass) × (j < s.cs_classes_len)
    × (get_elem? s.cs_classes j ≡ some k)
    × (k.cl_class ≡ 2)

-- The domain of a class, and the class with a domain set.
abbrev pub domain_of : ℕ → CreatureClass → ℕ
domain_of which k = if which == 1 then k.cl_domain_1 else k.cl_domain_2

get_domain-at :
    (c : StatsCreature) (which j : ℕ) (k : CreatureClass)
    → is_one_or_two (pos which) ≡ true
    → find_class 2 0 c.cre_stats.cs_classes_len c.cre_stats.cs_classes ≡ done (some j)
    → at_index c.cre_stats.cs_classes j ≡ done k
    → get_domain c (pos which) ≡ done (printed c (domain_of which k))
unfolding get_domain
get_domain-at c which j k valid found at = rw valid (rw found (rw at refl))

-- The class with a domain set, as the code sets it.
abbrev with_domain : ℕ → ℕ → CreatureClass → CreatureClass
with_domain which domain k =
    if is_first (pos which)
    then record k { cl_domain_1 = domain }
    else record k { cl_domain_2 = domain }

with_domain_kind :
    (which domain : ℕ) (k : CreatureClass) → (with_domain which domain k).cl_class ≡ k.cl_class
with_domain_kind which domain k = elim (Bool-cases (which == 1)) [
  | inl e ↦ rw e refl
  | inr e ↦ rw e refl
]

domain_of-with_domain :
    (which other domain : ℕ) (k : CreatureClass)
    → is_one_or_two (pos which) ≡ true
    → is_one_or_two (pos other) ≡ true
    → domain_of other (with_domain which domain k)
      ≡ (if which == other then domain else domain_of other k)
domain_of-with_domain which other domain k h h' = elim (Bool-cases (which == 1)) [
  | inl e ↦ rw e (ground arith)
  | inr e ↦ rw e (ground arith)
]

-- For a creature with a cleric's class among its classes, setting the first or second domain succeeds;
-- then the domain that was set is read, and the other one is read as before.
get_domain-set_domain :
    (c : StatsCreature) (which other domain : ℕ)
    → is_one_or_two (pos which) ≡ true
    → is_one_or_two (pos other) ≡ true
    → c.cre_stats.cs_classes_len ≤ length c.cre_stats.cs_classes
    → HasCleric c.cre_stats
    → Returns (set_domain c (pos which) domain) (λ r.
      (n : ℕ) × (get_domain c (pos other) ≡ done (printed c n))
      × (get_domain r.0 (pos other) ≡ done (printed r.0 (if which == other then domain else n))))
unfolding set_domain
get_domain-set_domain c which other domain first second h (j0, k0, lt0, at0, e0) =
    let s = c.cre_stats in
    let (s', run, is) = change_first-FirstChanged 2 (with_domain which domain) s h in
    rw first (rw run (_, refl, go s' is))
  where
    go :
        (s' : CreatureStats)
        → FirstChanged 2 (with_domain which domain) c.cre_stats s'
        → (n : ℕ) × (get_domain c (pos other) ≡ done (printed c n))
          × (get_domain (record c { cre_stats = s' }) (pos other)
              ≡ done (printed (record c { cre_stats = s' }) (if which == other then domain else n)))
    go s' (kept same none_of) = absurd (none_of j0 k0 lt0 at0 e0)
    go s' (changed j k same lt at e found stays) =
        let k' = with_domain which domain k in
        let s1 : CreatureStats = record c.cre_stats {
          cs_classes = set c.cre_stats.cs_classes j k';
        } in
        let c1 : StatsCreature = record c { cre_stats = s1 } in
        (
          domain_of other k,
          get_domain-at c other j k second found (at_index_lem c.cre_stats.cs_classes j at),
          rw same (
              get_domain-at c1 other j k' second (stays k' (with_domain_kind which domain k ∙ e)) (
                at_index-set c.cre_stats.cs_classes j k' (below_length j c.cre_stats.cs_classes at))
              ∙ ap (λ n. done (printed c1 n))
                  (domain_of-with_domain which other domain k first second)),
        )

-- No level is of the class.
abbrev pub NoLevel : ℕ → List LevelStats → Type 0
NoLevel old [] = Unit
NoLevel old (ls ∷ levels) = (ls.ls_class ≢ old) × NoLevel old levels

replace_levels-NoLevel :
    (old new : ℕ) (levels : List LevelStats)
    → new ≢ old
    → NoLevel old (replace_levels old new levels)
unfolding replace_levels
replace_levels-NoLevel old new [] h = tt
replace_levels-NoLevel old new (ls ∷ levels) h = elim (Bool-cases (ls.ls_class == old)) [
  | inl same ↦ rw same (h, replace_levels-NoLevel old new levels h)
  | inr other ↦ rw other (ground arith, replace_levels-NoLevel old new levels h)
]

-- After ReplaceClass with another class no character level is of the old one, and of the creature's
-- classes the first of the old kind is changed.
pub replace_class-NoLevel :
    (c : StatsCreature) (old new : ℕ)
    → new ≢ old
    → c.cre_stats.cs_classes_len ≤ length c.cre_stats.cs_classes
    → Returns (replace_class c old new) (λ r.
      NoLevel old r.0.cre_stats.cs_levelstat
      × FirstChanged old
          (λ k. record k { cl_class = new })
          (record c.cre_stats { cs_levelstat = replace_levels old new c.cre_stats.cs_levelstat })
          r.0.cre_stats)
unfolding replace_class
replace_class-NoLevel c old new other h =
    let s : CreatureStats = record c.cre_stats {
      cs_levelstat = replace_levels old new c.cre_stats.cs_levelstat;
    } in
    let (s', run, is) = change_first-FirstChanged old (λ k. record k { cl_class = new }) s h in
    rw run (_, refl, (levels_of s' is, is))
  where
    levels_of :
        (s' : CreatureStats)
        → FirstChanged old
            (λ k. record k { cl_class = new })
            (record c.cre_stats { cs_levelstat = replace_levels old new c.cre_stats.cs_levelstat })
            s'
        → NoLevel old s'.cs_levelstat
    levels_of s' (kept same none_of) =
        rw same (replace_levels-NoLevel old new c.cre_stats.cs_levelstat other)
    levels_of s' (changed j k same lt at e found stays) =
        rw same (replace_levels-NoLevel old new c.cre_stats.cs_levelstat other)
