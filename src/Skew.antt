-- ===== src/Skew.antt =====
-- lab8/libs/skew_heap.h: heaps of `skew_heap_entry_t` by address, where 0 is the null pointer. The
-- comparison is a parameter on addresses; it does not change while an operation runs.
pub mod Tree
pub mod Order
pub mod Shape
pub mod Merge
pub mod Detach
pub mod Remove
pub mod Bag
pub mod Heap
mod Tests
use nku_os_ucore.Common.{
  ℕ, zero, suc, Bool, true, false, ◌==◌, if◌then◌else◌, Outcome, ok, out_of_fuel, ◌>>=◌, ℤ, pos,
  negsuc,
}

pub record Entry : Type 0 where
  pub parent : ℕ
  pub left : ℕ
  pub right : ℕ

abbrev pub put_entry : (ℕ → Entry) → ℕ → Entry → ℕ → Entry
put_entry m a e x = if x == a then e else m x

-- The value of the comparison is -1.
abbrev pub is_less : ℤ → Bool
is_less (pos n) = false
is_less (negsuc n) = n == 0

-- `if (l) l->parent = a;`
unfoldable pub adopt_root : ℕ → ℕ → (ℕ → Entry) → ℕ → Entry
adopt_root l a m = if l == 0 then m else put_entry m l (record (m l) { parent = a })

unfoldable pub skew_heap_init : ℕ → (ℕ → Entry) → ℕ → Entry
skew_heap_init a m = put_entry m a (record { parent = 0; left = 0; right = 0 })

-- The heap under `a` gets `l` as its left and `r` as its right heap.
unfoldable pub attach : ℕ → ℕ → ℕ → (ℕ → Entry) → ℕ → Entry
attach a l r m = adopt_root l a (put_entry m a (record (m a) { left = l; right = r }))

-- The child `b` of `p` becomes `rep`.
unfoldable pub put_child : ℕ → ℕ → ℕ → (ℕ → Entry) → ℕ → Entry
put_child p b rep m =
    put_entry m p
      (if (m p).left == b then record (m p) { left = rep } else record (m p) { right = rep })

-- What `skew_heap_remove` does with the merged heap `rep`.
unfoldable pub replace : ℕ → ℕ → ℕ → ℕ → (ℕ → Entry) → ℕ × (ℕ → Entry)
replace a b p rep m =
    let m1 = adopt_root rep p m in if p == 0 then (rep, m1) else (a, put_child p b rep m1)

module _ (comp : ℕ → ℕ → ℤ) where
  unfoldable pub skew_heap_merge : ℕ → ℕ → ℕ → (ℕ → Entry) → Outcome (ℕ × (ℕ → Entry))
  skew_heap_merge zero a b m = out_of_fuel
  skew_heap_merge (suc f) a b m =
      let into_a =
        skew_heap_merge f (m a).right b m >>= λ done. ok (a, attach a done.0 (m a).left done.1) in
      let into_b =
        skew_heap_merge f a (m b).right m >>= λ done. ok (b, attach b done.0 (m b).left done.1) in
      if a == 0
      then ok (b, m)
      else if b == 0
      then ok (a, m)
      else if is_less (comp a b)
      then into_a
      else into_b

  unfoldable pub skew_heap_insert : ℕ → ℕ → ℕ → (ℕ → Entry) → Outcome (ℕ × (ℕ → Entry))
  skew_heap_insert fuel a b m = skew_heap_merge fuel a b (skew_heap_init b m)

  unfoldable pub skew_heap_remove : ℕ → ℕ → ℕ → (ℕ → Entry) → Outcome (ℕ × (ℕ → Entry))
  skew_heap_remove fuel a b m = skew_heap_merge fuel (m b).left (m b).right m >>= λ done.
      ok (replace a b (m b).parent done.0 done.1)
