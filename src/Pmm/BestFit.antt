-- ===== src/Pmm/BestFit.antt =====
-- lab2/kern/mm/best_fit_pmm.c: the best-fit allocator. Where its text is that of default_pmm.c (the
-- loops over pages, the insertion, the removal of a block, the merges), the steps are those of FirstFit.
pub mod Alloc
use nku_os_ucore.Common.{
  ℕ, zero, suc, ◌+◌, ◌&&◌, ◌==◌, ltb, leb, if◌then◌else◌, Outcome, ok, out_of_fuel, ◌>>=◌, ◌>>◌,
  assert, u32, Option, none, some,
}
use nku_os_ucore.DList.{list_init}
use nku_os_ucore.Pmm.{FreeArea, free_list}
use nku_os_ucore.Pmm.FirstFit.{init_pages, add_block, taken, clear_pages, merge_prev, merge_next}

unfoldable pub best_fit_init : FreeArea → FreeArea
best_fit_init s = record s { links = list_init free_list s.links; nr_free = 0 }

unfoldable pub best_fit_init_memmap : ℕ → ℕ → ℕ → FreeArea → Outcome FreeArea
best_fit_init_memmap fuel base n s = do
  assert (ltb 0 n)
  m ← init_pages n base s.page
  add_block fuel base n (record s { page = m })

-- The walk over the whole list; `page` and `min_size` are the best block so far and its size.
unfoldable pub find_best : ℕ → ℕ → ℕ → Option ℕ → ℕ → FreeArea → Outcome (Option ℕ)
find_best zero n le page min_size s = out_of_fuel
find_best (suc f) n le page min_size s =
    let p = s.links.next le in
    let size = (s.page p).property in
    let better = leb n size && ltb size min_size in
    let rest =
      find_best f n p (if better then some p else page) (if better then size else min_size) s in
    if p == free_list then ok page else rest

unfoldable pub best_fit_alloc_pages : ℕ → ℕ → FreeArea → Outcome (Option ℕ × FreeArea)
best_fit_alloc_pages fuel n s = do
  assert (ltb 0 n)
  let found = find_best fuel n free_list none (u32 (s.nr_free + 1)) s
  if ltb s.nr_free n then ok (none, s) else found >>= λ r. ok (taken r n s)

unfoldable pub best_fit_free_pages : ℕ → ℕ → ℕ → FreeArea → Outcome FreeArea
best_fit_free_pages fuel base n s = do
  assert (ltb 0 n)
  m ← clear_pages n base s.page
  s' ← add_block fuel base n (record s { page = m })
  let merged = merge_prev base s'
  ok (merge_next merged.0 merged.1)

unfoldable pub best_fit_nr_free_pages : FreeArea → ℕ
best_fit_nr_free_pages s = s.nr_free
