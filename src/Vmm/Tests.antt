-- ===== src/Vmm/Tests.antt =====
-- The areas 10 (0x1000 to 0x3000) and 20 (0x5000 to 0x6000), and a new one at 30.
use nku_os_ucore.Common.{
  ℕ, ◌≡◌, refl, inl, inr, Option, some, [], ◌∷◌, arith, ok, if◌then◌else◌, ◌==◌,
}
use nku_os_ucore.DList.{update}
use nku_os_ucore.Vmm.{Vma, Mm, find_vma, insert_vma_struct, remember}
use nku_os_ucore.Vmm.Areas.{Inv}
use nku_os_ucore.Vmm.Find.{Holds, find_vma-Holds}
use nku_os_ucore.Vmm.Insert.{Inserted, insert_vma_struct-Inserted}

abbrev area : ℕ → ℕ → Vma
area a b = record { vm_mm = some 7; vm_start = a; vm_end = b; vm_flags = 3 }

abbrev two_areas : Mm
two_areas = record {
  self = 7;
  vma = λ x.
      if x == 10
      then area 0x1000 0x3000
      else if x == 20
      then area 0x5000 0x6000
      else area 0x3000 0x4000;
  links = record {
    prev = update (update (update (λ x. x) 0 20) 10 0) 20 10;
    next = update (update (update (λ x. x) 0 10) 10 20) 20 0;
  };
  mmap_cache = some 20;
  map_count = 2;
}

two_areas-Inv : Inv two_areas (10 ∷ 20 ∷ [])
two_areas-Inv = record {
  ring = record { linked = (refl, refl, (refl, refl, (refl, refl))); distinct = omega arith };
  ordered = (omega arith, omega arith, (omega arith, omega arith, tt));
  cache = inr (inl refl);
  counted = refl;
}

find_vma-Holds_example :
    (r : Option ℕ) × (find_vma 3 (some two_areas) 0x2000 ≡ ok (r, some (remember r two_areas)))
    × Holds two_areas.vma (10 ∷ 20 ∷ []) 0x2000 r
    × Inv (remember r two_areas) (10 ∷ 20 ∷ [])
find_vma-Holds_example =
    find_vma-Holds 3 two_areas (10 ∷ 20 ∷ []) 0x2000 two_areas-Inv (omega arith)

insert_vma_struct-Inserted_example :
    Inserted two_areas 30 (10 ∷ 20 ∷ []) (insert_vma_struct 3 30 two_areas)
insert_vma_struct-Inserted_example =
    insert_vma_struct-Inserted 3 30 two_areas (10 ∷ 20 ∷ []) two_areas-Inv (omega arith)
      (omega arith) (omega arith)
