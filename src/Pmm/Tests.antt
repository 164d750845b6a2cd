-- ===== src/Pmm/Tests.antt =====
-- The allocators of lab2/kern/mm on a free area of two blocks: 4 pages at 10 and 6 pages at 20.
use nku_os_ucore.Common.{ℕ, ◌≡◌, refl, true, false, inl, inr, [], ◌∷◌, ok, some, arith}
use nku_os_ucore.DList.{Links, update}
use nku_os_ucore.Pmm.{Page, FreeArea, store}
use nku_os_ucore.Pmm.Blocks.{Inv, is_free, in_range}
use nku_os_ucore.Pmm.FirstFit.{
  default_init, default_init_memmap, default_alloc_pages, default_free_pages,
}
use nku_os_ucore.Pmm.FirstFit.Alloc.{Allocated, default_alloc_pages-Allocated}
use nku_os_ucore.Pmm.FirstFit.Init.{default_init_memmap-Inv}
use nku_os_ucore.Pmm.FirstFit.Insert.{under}
use nku_os_ucore.Pmm.FirstFit.Free.{Released, default_free_pages-Released}
use nku_os_ucore.Pmm.FirstFit.Twice.{free_at_end-alloc_twice}
use nku_os_ucore.Pmm.BestFit.{best_fit_alloc_pages}
use nku_os_ucore.Pmm.BestFit.Alloc.{BestAllocated, best_fit_alloc_pages-BestAllocated}

abbrev in_use : Page
in_use = record { ref = 1; reserved = false; head = false; property = 0 }

abbrev block_of : ℕ → Page
block_of n = record { ref = 0; reserved = false; head = true; property = n }

abbrev two_links : Links
two_links = record {
  prev = update (update (update (λ x. x) 0 20) 10 0) 20 10;
  next = update (update (update (λ x. x) 0 10) 10 20) 20 0;
}

abbrev two_blocks : FreeArea
two_blocks = record {
  page = store (store (λ x. in_use) 10 (block_of 4)) 20 (block_of 6);
  links = two_links;
  nr_free = 10;
}

two_blocks-Inv : Inv two_blocks (10 ∷ 20 ∷ [])
two_blocks-Inv = record {
  ring = record { linked = (refl, refl, (refl, refl, (refl, refl))); distinct = omega arith };
  sorted = (omega arith, omega arith, refl, (omega arith, omega arith, refl, tt));
  counted = refl;
  small = omega arith;
}

abbrev boot : FreeArea
boot = record {
  page = λ x. record { ref = 7; reserved = true; head = true; property = 9 };
  links = record { prev = λ x. 5; next = λ x. 6 };
  nr_free = 3;
}

default_alloc_pages-Allocated_example :
    Allocated 5 two_blocks (10 ∷ 20 ∷ []) (default_alloc_pages 3 5 two_blocks)
default_alloc_pages-Allocated_example =
    default_alloc_pages-Allocated 3 5 two_blocks (10 ∷ 20 ∷ []) two_blocks-Inv (omega arith)
      (omega arith)

-- The pages 14 to 19 close the gap between the blocks.
default_free_pages-Released_example :
    (t : FreeArea) × (default_free_pages 3 14 6 two_blocks ≡ ok t)
    × Released two_blocks 14 6 (10 ∷ 20 ∷ []) t
default_free_pages-Released_example =
    default_free_pages-Released 3 14 6 two_blocks (10 ∷ []) (20 ∷ []) two_blocks-Inv
      (under (10 ∷ []) 20 [] (omega arith, tt) (omega arith))
      (refl, refl, (refl, refl, (refl, refl, (refl, refl, (refl, refl, (refl, refl, tt))))))
      (inl (omega arith), (inr (omega arith), tt)) (omega arith) (omega arith) (omega arith)
      (omega arith)

free_at_end-alloc_twice_example :
    (t u w : FreeArea) × (default_free_pages 9 30 16 two_blocks ≡ ok t)
    × (default_alloc_pages 9 8 t ≡ ok (some 30, u))
    × (default_alloc_pages 9 8 u ≡ ok (some 30, w))
free_at_end-alloc_twice_example =
    free_at_end-alloc_twice 9 30 16 two_blocks 10 (20 ∷ []) two_blocks-Inv
      (omega arith, (omega arith, tt))
      (
        refl,
        refl,
        (
          refl,
          refl,
          (
            refl,
            refl,
            (
              refl,
              refl,
              (
                refl,
                refl,
                (
                  refl,
                  refl,
                  (
                    refl,
                    refl,
                    (
                      refl,
                      refl,
                      (
                        refl,
                        refl,
                        (
                          refl,
                          refl,
                          (
                            refl,
                            refl,
                            (
                              refl,
                              refl,
                              (refl, refl, (refl, refl, (refl, refl, (refl, refl, tt)))),
                            ),
                          ),
                        ),
                      ),
                    ),
                  ),
                ),
              ),
            ),
          ),
        ),
      )
      (inl (omega arith), (inl (omega arith), tt)) (omega arith) (omega arith) (omega arith) 8
      (omega arith) (omega arith) (omega arith, (omega arith, tt))

best_fit_alloc_pages-BestAllocated_example :
    BestAllocated 5 two_blocks (10 ∷ 20 ∷ []) (best_fit_alloc_pages 3 5 two_blocks)
best_fit_alloc_pages-BestAllocated_example =
    best_fit_alloc_pages-BestAllocated 3 5 two_blocks (10 ∷ 20 ∷ []) two_blocks-Inv (omega arith)
      (omega arith) (omega arith)

default_init_memmap-Inv_example :
    (t : FreeArea) × (default_init_memmap 1 4 2 (default_init boot) ≡ ok t)
    × Inv t (4 ∷ [])
    × (t.nr_free ≡ 2)
    × ((q : ℕ) → is_free t.page (4 ∷ []) q ≡ in_range 4 2 q)
default_init_memmap-Inv_example =
    default_init_memmap-Inv 1 4 2 boot (refl, (refl, tt)) (omega arith) (omega arith) (omega arith)
      (omega arith)
