-- ===== src/Skew/Tests.antt =====
-- Concrete runs of lab8/libs/skew_heap.h: the entry 1 with the key 5 over the entry 2 with the key
-- 9; the entry 3 has the key 7.
use nku_os_ucore.Common.{
  ℕ, ◌≡◌, refl, Bool-cases, ltb, ◌==◌, if◌then◌else◌, arith, ok, ℤ, pos, negsuc, inl, inr,
}
use nku_os_ucore.Skew.{Entry, skew_heap_insert, skew_heap_remove}
use nku_os_ucore.Skew.Tree.{Tree, leaf, node, root, merge, remove}
use nku_os_ucore.Skew.Merge.{less}
use nku_os_ucore.Skew.Order.{Reads}
use nku_os_ucore.Skew.Heap.{
  Heap, Inserted, Without, single_tree, skew_heap_insert-Inserted, skew_heap_remove-Without,
}

abbrev key : ℕ → ℕ
key x = if x == 1 then 5 else if x == 2 then 9 else 7

abbrev comp : ℕ → ℕ → ℤ
comp x y = if ltb (key x) (key y) then negsuc 0 else pos 1

abbrev Any : ℕ → Type 0
Any x = Unit {0}

comp-Reads : Reads (less comp) key Any
comp-Reads x y p q = elim (Bool-cases (ltb (key x) (key y))) [
  | inl e ↦ rw e refl
  | inr e ↦ rw e refl
]

abbrev entries : ℕ → Entry
entries x =
    if x == 1
    then record { parent = 0; left = 2; right = 0 }
    else if x == 2
    then record { parent = 1; left = 0; right = 0 }
    else record { parent = 8; left = 8; right = 8 }

abbrev pair : Tree
pair = node (node leaf 2 leaf) 1 leaf

pair-Heap : Heap key Any entries 1 pair
pair-Heap = record {
  lies = (refl, omega arith, refl, tt, (refl, omega arith, tt, tt, refl, refl), refl);
  under = refl;
  single = ((omega arith, tt, tt), tt, (tt, tt, tt), (tt, tt, tt, tt, tt), tt);
  ordered = ((omega arith, tt, tt), tt, (tt, tt, tt, tt), tt);
  each = (tt, (tt, tt, tt), tt);
}

skew_heap_insert-Inserted_example :
    (m' : ℕ → Entry) × (skew_heap_insert comp 4 1 3 entries
      ≡ ok (root (merge (less comp) pair (single_tree 3)), m'))
    × Inserted key Any entries m' 3
        (root (merge (less comp) pair (single_tree 3)))
        pair
        (merge (less comp) pair (single_tree 3))
skew_heap_insert-Inserted_example =
    skew_heap_insert-Inserted comp key Any 4 1 3 entries pair comp-Reads pair-Heap (omega arith)
      (omega arith) (omega arith, (omega arith, tt, tt), tt) tt

skew_heap_remove-Without_example :
    (m' : ℕ → Entry) × (skew_heap_remove comp 2 1 2 entries
      ≡ ok (root (remove (less comp) 2 pair), m'))
    × Without key Any entries m' 2
        (root (remove (less comp) 2 pair))
        pair
        (remove (less comp) 2 pair)
skew_heap_remove-Without_example =
    skew_heap_remove-Without comp key Any 2 1 2 entries pair comp-Reads pair-Heap (omega arith)
      (inr (inl (inl refl)))
