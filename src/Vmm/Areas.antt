-- ===== src/Vmm/Areas.antt =====
-- The areas of an `mm_struct` as a sequence: the invariant of lab3/kern/mm/vmm.c.
use nku_os_ucore.Common.{
  ℕ, ◌≤◌, ◌<◌, ◌≡◌, ◌⊎◌, false, List, [], ◌∷◌, Option, none, some, arith, length, All,
}
use nku_os_ucore.Common.Distinct.{NotIn}
use nku_os_ucore.DList.Ring.{Ring}
use nku_os_ucore.Vmm.{Vma, Mm, mmap_list, store, holds}

-- The areas are not empty, rise, and do not overlap.
abbrev pub Ordered : (ℕ → Vma) → ℕ → List ℕ → Type 0
Ordered m lo [] = Unit {0}
Ordered m lo (x ∷ xs) =
    (lo ≤ (m x).vm_start) × ((m x).vm_start < (m x).vm_end) × Ordered m (m x).vm_end xs

abbrev pub IsIn : ℕ → List ℕ → Type 0
IsIn a [] = ⊥
IsIn a (x ∷ xs) = (a ≡ x) ⊎ IsIn a xs

abbrev pub CacheIn : Option ℕ → List ℕ → Type 0
CacheIn none xs = Unit {0}
CacheIn (some c) xs = IsIn c xs

pub record Inv (s : Mm) (xs : List ℕ) : Type 0 where
  pub ring : Ring s.links mmap_list xs
  pub ordered : Ordered s.vma 0 xs
  pub cache : CacheIn s.mmap_cache xs
  pub counted : s.map_count ≡ length xs

-- An area apart from every area of the list.
abbrev pub Apart : (ℕ → Vma) → Vma → List ℕ → Type 0
Apart m v xs = All (λ x. ((m x).vm_end ≤ v.vm_start) ⊎ (v.vm_end ≤ (m x).vm_start)) xs

pub Ordered-store :
    (m : ℕ → Vma) (a : ℕ) (v : Vma) (lo : ℕ) (xs : List ℕ)
    → NotIn a xs
    → Ordered m lo xs
    → Ordered (store m a v) lo xs
Ordered-store m a v lo [] h s = tt
Ordered-store m a v lo (x ∷ xs) h s = ground (arith, Ordered-store m a v (m x).vm_end xs h.1 s.2)

pub Ordered-above :
    (m : ℕ → Vma) (lo addr : ℕ) (xs : List ℕ)
    → addr < lo
    → Ordered m lo xs
    → All (λ x. holds (m x) addr ≡ false) xs
Ordered-above m lo addr [] h s = tt
Ordered-above m lo addr (x ∷ xs) h s =
    (ground arith, Ordered-above m (m x).vm_end addr xs (omega arith) s.2)
