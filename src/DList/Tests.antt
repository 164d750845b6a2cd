-- ===== src/DList/Tests.antt =====
-- The operations of libs/list.h on a list of two entries, 10 and 20, with the head at 0.
use nku_os_ucore.Common.{ℕ, ◌≡◌, ◌↔◌, refl, true, List, [], ◌∷◌, arith}
use nku_os_ucore.DList.{Links, update, list_add, list_add_before, list_del, list_empty}
use nku_os_ucore.DList.Ring.{
  Ring, list_add_at-Ring, list_add_before-Ring, list_del-Ring, list_empty-Ring,
}

abbrev two_entries : Links
two_entries = record {
  prev = update (update (update (λ x. x) 0 20) 10 0) 20 10;
  next = update (update (update (λ x. x) 0 10) 10 20) 20 0;
}

two_entries-Ring : Ring two_entries 0 (10 ∷ 20 ∷ [])
two_entries-Ring = record {
  linked = (refl, refl, (refl, refl, (refl, refl)));
  distinct = omega arith;
}

list_add_at-Ring_example : Ring (list_add 10 15 two_entries) 0 (10 ∷ 15 ∷ 20 ∷ [])
list_add_at-Ring_example =
    list_add_at-Ring two_entries 0 15 (10 ∷ []) (20 ∷ []) two_entries-Ring (omega arith)
      (omega arith)

list_add_before-Ring_example : Ring (list_add_before 20 15 two_entries) 0 (10 ∷ 15 ∷ 20 ∷ [])
list_add_before-Ring_example =
    list_add_before-Ring two_entries 0 15 (10 ∷ []) (20 ∷ []) two_entries-Ring (omega arith)
      (omega arith)

list_del-Ring_example : Ring (list_del 10 two_entries) 0 (20 ∷ [])
list_del-Ring_example = list_del-Ring two_entries 0 10 [] (20 ∷ []) two_entries-Ring

list_empty-Ring_example : (list_empty 0 two_entries ≡ true) ↔ (◌≡◌ {A = List ℕ} (10 ∷ 20 ∷ []) [])
list_empty-Ring_example = list_empty-Ring two_entries 0 (10 ∷ 20 ∷ []) two_entries-Ring
