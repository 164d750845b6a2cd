-- ===== src/Pmm/FirstFit/Init.antt =====
-- The start of the free area: default_init and default_init_memmap of lab2/kern/mm/default_pmm.c.
use nku_os_ucore.Common.{ℕ, zero, suc, ◌+◌, ◌^◌, ◌<◌, ◌≡◌, refl, [], ◌∷◌, true, arith, ok, ltb_pos}
use nku_os_ucore.DList.Ring.{list_init-Ring}
use nku_os_ucore.Pmm.{Page, FreeArea, store, free_list, cleared}
use nku_os_ucore.Pmm.Blocks.{Inv, is_free, in_range}
use nku_os_ucore.Pmm.FirstFit.{init_pages, add_block, default_init, default_init_memmap}
use nku_os_ucore.Pmm.FirstFit.Insert.{alone, Added, add_block-Added}
use nku_os_ucore.Pmm.FirstFit.Merge.{Placed-Inv}

default_init-Inv : (s : FreeArea) → Inv (default_init s) []
unfolding default_init
default_init-Inv s = record {
  ring = list_init-Ring s.links free_list;
  sorted = tt;
  counted = refl;
  small = omega arith;
}

-- Each of the `n` pages from `p` on is reserved.
abbrev pub Reserved : (ℕ → Page) → ℕ → ℕ → Type 0
Reserved m p zero = Unit {0}
Reserved m p (suc k) = ((m p).reserved ≡ true) × Reserved m (p + 1) k

Reserved-store :
    (m : ℕ → Page) (a : ℕ) (v : Page) (p k : ℕ)
    → a < p
    → Reserved m p k
    → Reserved (store m a v) p k
Reserved-store m a v p zero h l = tt
Reserved-store m a v p (suc k) h l =
    (let e = l.0 in ground arith, Reserved-store m a v (p + 1) k (omega arith) l.1)

init_pages_lem :
    (n p : ℕ) (m : ℕ → Page) → Reserved m p n → (m' : ℕ → Page) × (init_pages n p m ≡ ok m')
unfolding init_pages
init_pages_lem zero p m l = (m, refl)
init_pages_lem (suc k) p m l =
    let m1 = store m p (record (cleared (m p)) { property = 0 }) in
    let (m', e) = init_pages_lem k (p + 1) m1 (Reserved-store m p _ (p + 1) k (omega arith) l.1) in
    (m', rw l.0 e)

module _ (fuel base n : ℕ) (s : FreeArea) (reserved : Reserved s.page base n) (pb : 0 < base)
    (pn : 0 < n) (room : n < 2 ^ 32) (f : 0 < fuel) where
  abbrev ready : FreeArea
  ready = record (default_init s) { page = (init_pages_lem n base s.page reserved).0 }

  ready-Inv : Inv ready []
  ready-Inv =
      let i = default_init-Inv s in
      record { ring = i.ring; sorted = tt; counted = i.counted; small = i.small }

  ready-nr_free : ready.nr_free ≡ 0
  unfolding default_init
  ready-nr_free = refl

  same_page : (default_init s).page ≡ s.page
  unfolding default_init
  same_page = refl

  first : (t : FreeArea) × (add_block fuel base n ready ≡ ok t) × Added ready base n [] [] t
  first =
      add_block-Added fuel base n ready [] [] alone ready-Inv tt pb pn
        (omega (arith, ready-nr_free)) (omega arith)

  -- After `default_init`, `default_init_memmap` of `n > 0` reserved pages at `base`, where `n`
  -- fits 32 bits, returns a well-formed free area of one block in which exactly these pages are
  -- free, and `nr_free` is `n`.
  pub default_init_memmap-Inv :
      (t : FreeArea) × (default_init_memmap fuel base n (default_init s) ≡ ok t)
      × Inv t (base ∷ [])
      × (t.nr_free ≡ n)
      × ((q : ℕ) → is_free t.page (base ∷ []) q ≡ in_range base n q)
  unfolding default_init_memmap
  default_init_memmap-Inv =
      let (t, e, a) = first in
      (
        t,
        rw (ltb_pos n pn, same_page, (init_pages_lem n base s.page reserved).1) e,
        Placed-Inv t [] base [] a.placed pb tt,
        omega (arith, a.count, ready-nr_free),
        a.covers,
      )
