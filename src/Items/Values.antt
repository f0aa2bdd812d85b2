-- ===== src/Items/Values.antt =====
-- NWNX_Functions/CNssItems.cpp and CNssLock.cpp: what GetItemValue answers, and a lock's key.
use nwnx2_windows.Prelude.{
  ◌≡◌, refl, true, some, Returns, ◌==◌, Bool-cases, inl, inr, Text, codes, pos, magnitude,
  print_nat, print_int,
}
use nwnx2_windows.Params.{char_target, extract_p1}
use nwnx2_windows.Params.ReadBack.{minus_one}
use nwnx2_windows.Items.{
  ServerItem, Lock, kind_value, get_item_value, set_auto_remove_key, get_auto_remove_key,
}

-- GetItemValue answers -1 for every item, whatever value the parameters ask for.
get_item_value-minus_one :
    (item : ServerItem) (parameters : Text)
    → get_item_value (some item) parameters ≡ (codes "-1", 1)
unfolding get_item_value kind_value print_int print_nat
get_item_value-minus_one item parameters = rw minus_one refl

-- What SetAutoRemoveKey stores is what GetAutoRemoveKey answers, for any object.
get_auto_remove_key-set_auto_remove_key :
    (lock : Lock) (parameters : Text)
    → Returns (set_auto_remove_key true lock parameters) (λ r.
      Returns
        (get_auto_remove_key true r.0)
        (λ answer. answer.1 ≡ print_nat (magnitude (extract_p1 parameters char_target (pos 0)))))
unfolding set_auto_remove_key get_auto_remove_key
get_auto_remove_key-set_auto_remove_key lock parameters = elim (Bool-cases (lock.obj_type2 == 10)) [
  | inl door ↦ rw door (_, refl, rw door (_, refl, refl))
  | inr other ↦ rw other (_, refl, (_, refl, refl))
]
