-- ===== src/ExoArrayList.antt =====
-- RockLib/include/CExoArrayList.h: the engine's growing array, at an unsigned integer type. `data` is
-- the memory of the array, `alloc` cells of which the first `len` are in use. What `realloc` gives is
-- an argument: the new cells with what stands in them, or `none` for NULL. An index is not negative;
-- the code treats a negative one as one behind the end. `delindex` and `delvalue`, which the file
-- says not to use, are left out.
pub mod Items
pub mod DelValue
mod Tests
use nwnx2_windows.Prelude.{
  ℕ, zero, suc, ◌+◌, ◌-◌, Bool, true, false, Option, none, some, List, [], ◌∷◌, ◌++◌, Outcome, done,
  fault, ltb, leb, ◌==◌, if◌then◌else◌, length, get_or, set,
}

pub record ArrayList : Type 0 where
  pub data_of : List ℕ
  pub len : ℕ
  pub alloc : ℕ

-- `list->data[list->len++] = val; return list->len`; a write behind the memory is a fault
unfoldable pub store : ArrayList → ℕ → Outcome (ArrayList × Option ℕ)
store list val =
    if ltb list.len (length list.data_of)
    then done (
      record list { data_of = set list.data_of list.len val; len = list.len + 1 },
      some (list.len + 1),
    )
    else fault

-- `none` is -1
unfoldable pub add : ArrayList → ℕ → Option (List ℕ) → Outcome (ArrayList × Option ℕ)
unfolding store
add list val fresh =
    if list.len == list.alloc
    then elim fresh [
      | none ↦ done (list, none)
      | some cells ↦
          store (record list { data_of = list.data_of ++ cells; alloc = list.alloc + length cells })
            val
    ]
    else store list val

unfoldable pub delfeatindex : ArrayList → ℕ → ArrayList × Option ℕ
delfeatindex list idx = if leb list.len idx then (list, none) else (
  record list {
    data_of =
        if ltb idx (list.len - 1)
        then set list.data_of idx (get_or list.data_of (list.len - 1) 0)
        else list.data_of;
    len = list.len - 1;
  },
  some (list.len - 1),
)

-- the loop from index `i`, for `n` more indices
unfoldable pub contains_from : ArrayList → ℕ → ℕ → ℕ → Option ℕ
contains_from list val zero i = none
contains_from list val (suc n) i =
    let rest = contains_from list val n (i + 1) in
    if get_or list.data_of i 0 == val then some i else rest

unfoldable pub contains : ArrayList → ℕ → Option ℕ
unfolding contains_from
contains list val = contains_from list val list.len 0

-- the loop from index `i`, on fuel; the length shrinks while it runs
unfoldable pub delfeatvalue_from : ℕ → ArrayList → ℕ → ℕ → ArrayList
unfolding delfeatindex
delfeatvalue_from zero list val i = list
delfeatvalue_from (suc n) list val i =
    let list' = if get_or list.data_of i 0 == val then (delfeatindex list i).0 else list in
    let rest = delfeatvalue_from n list' val (i + 1) in if ltb i list.len then rest else list

-- one round for each element is enough, since `i` grows in every round
unfoldable pub delfeatvalue : ArrayList → ℕ → ArrayList × ℕ
unfolding delfeatvalue_from
delfeatvalue list val = let list' = delfeatvalue_from list.len list val 0 in (list', list'.len)

unfoldable pub get : ArrayList → ℕ → ℕ
get list idx = if leb list.len idx then 0 else get_or list.data_of idx 0
