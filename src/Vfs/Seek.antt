-- ===== src/Vfs/Seek.antt =====
-- The walk over the table of devices of lab8/kern/fs/vfs/vfsdev.c.
use nku_os_ucore.Common.{
  ℕ, zero, suc, ◌<◌, ◌≡◌, ◌≢◌, refl, Bool, false, Bool-cases, ◌==◌, inl, inr, List, [], ◌∷◌, map,
  length, arith, ok,
}
use nku_os_ucore.Common.Distinct.{NotIn}
use nku_os_ucore.DList.{Links}
use nku_os_ucore.DList.Ring.{Linked, Ring}
use nku_os_ucore.Vfs.{Vfs, vdev_list, seek}
use nku_os_ucore.Vfs.Names.{first_of, Unique}

-- The entries of the table, with their names.
pub record Table {W : Type 0} (s : Vfs W) (xs : List ℕ) (ns : List (List ℕ)) : Type 0 where
  pub ring : Ring s.links vdev_list xs
  pub names : map (λ x. s.text (s.vdev x).devname) xs ≡ ns
  pub unique : Unique ns

seek_linked :
    (fuel : ℕ) (found : ℕ → Bool) (le : ℕ) (l : Links) (xs : List ℕ)
    → length xs < fuel
    → NotIn vdev_list xs
    → Linked l le xs vdev_list
    → seek fuel found le l ≡ ok (first_of found xs)
unfolding seek
seek_linked zero found le l xs f n k = absurd (omega arith)
seek_linked (suc fuel) found le l [] f n k = rw k.0 refl
seek_linked (suc fuel) found le l (x ∷ xs) f n k = elim (Bool-cases (found x)) [
  | inl e ↦ rw (k.0, other x n.0, e) refl
  | inr e ↦ rw (k.0, other x n.0, e) (seek_linked fuel found x l xs (omega arith) n.1 k.2)
]
  where
    other : (x : ℕ) → vdev_list ≢ x → (x == vdev_list) ≡ false
    other x h = ground arith

pub seek-first_of :
    (fuel : ℕ) (found : ℕ → Bool) (l : Links) (xs : List ℕ)
    → length xs < fuel
    → Ring l vdev_list xs
    → seek fuel found vdev_list l ≡ ok (first_of found xs)
seek-first_of fuel found l xs f r = seek_linked fuel found vdev_list l xs f r.distinct.0 r.linked
