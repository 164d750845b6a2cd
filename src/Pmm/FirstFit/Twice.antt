-- ===== src/Pmm/FirstFit/Twice.antt =====
-- What follows in lab2/kern/mm/default_pmm.c from a release behind the last free block.
use nku_os_ucore.Common.{
  ℕ, ◌+◌, ◌^◌, ◌≤◌, ◌<◌, ◌≡◌, ◌≢◌, List, [], ◌∷◌, false, ◌==◌, arith, length, ok, All, ltb_pos,
  some, u32, true,
}
use nku_os_ucore.Common.Distinct.{NotIn, last, NotIn-last}
use nku_os_ucore.DList.{list_empty}
use nku_os_ucore.DList.Ring.{next-last_end}
use nku_os_ucore.Pmm.{Page, FreeArea, store, free_list}
use nku_os_ucore.Pmm.Blocks.{Clear, Inv}
use nku_os_ucore.Pmm.FirstFit.{
  insert_block, add_block, merge_prev, merge_next, default_alloc_pages, default_free_pages,
  take_block,
}
use nku_os_ucore.Pmm.FirstFit.Clear.{Loose, Agree, clear_pages_lem, ClearedTo-Agree}
use nku_os_ucore.Pmm.FirstFit.Insert.{Clear-NotIn, not_empty}
use nku_os_ucore.Pmm.FirstFit.AtEnd.{
  twisted, Twisted, insert_loop_end, twisted-Twisted, twisted-next, take_block-Twisted,
  take_block-property, take_block-nr_free, small_after, alloc-Twisted,
}

-- The free area after a release of `n` pages at `base`, behind the last block.
abbrev appended : (ℕ → Page) → ℕ → ℕ → ℕ → FreeArea → FreeArea
appended m base n end s = record {
  page = store m base (record (m base) { head = true; property = u32 n });
  links = twisted end base s.links;
  nr_free = u32 (s.nr_free + n);
}

Agree-small :
    (m m' : ℕ → Page) (base n k : ℕ) (v : Page) (xs : List ℕ)
    → Agree m m' xs
    → NotIn base xs
    → All (λ y. (m y).property < k) xs
    → All (λ y. (store m' base v y).property < k) xs
Agree-small m m' base n k v [] a b c = tt
Agree-small m m' base n k v (x ∷ xs) a b c = (
  let e = a.0 in let f = c.0 in let g = b.0 in ground arith,
  Agree-small m m' base n k v xs a.1 b.1 c.1,
)

z_test : (b : ℕ) → b ≢ free_list → (b == free_list) ≡ false
z_test b h = ground arith

grows_test : (b n : ℕ) → 0 < n → (b + n == b) ≡ false
grows_test b n h = ground arith

-- A block linked to itself has no neighbour to merge with.
merge_prev_self :
    (b : ℕ) (t : FreeArea)
    → t.links.prev b ≡ b
    → b ≢ free_list
    → 0 < (t.page b).property
    → merge_prev b t ≡ (b, t)
unfolding merge_prev
merge_prev_self b t e h p = rw (e, z_test b h, grows_test b (t.page b).property p)

module _ (fuel base n : ℕ) (s : FreeArea) (x : ℕ) (xs : List ℕ) (v : Inv s (x ∷ xs))
    (above : All (λ y. y ≤ base) (x ∷ xs)) (loose : Loose s.page base n)
    (clear : Clear s.page base n (x ∷ xs)) (pn : 0 < n) (room : s.nr_free + n < 2 ^ 32)
    (f : length xs + 3 ≤ fuel) where
  pb : 0 < base
  pb = omega (arith, above.0, v.sorted.0)

  fresh : NotIn base (x ∷ xs)
  fresh = Clear-NotIn s.page base n 0 (x ∷ xs) pn v.sorted clear

  abbrev after : FreeArea
  after = appended (clear_pages_lem n base s.page loose).0 base n (last x xs) s

  nonzero : base ≢ free_list
  nonzero = omega (arith, pb)

  tail_end : after.links.next base ≡ free_list
  tail_end =
      twisted-next s.links base (last x xs)
        (next-last_end s.links free_list (x ∷ xs) free_list v.ring.linked) nonzero
        (NotIn-last base x xs fresh.0 fresh.1)

  after-Twisted : Twisted after.links base (x ∷ xs)
  after-Twisted = twisted-Twisted s.links base x xs v.ring.linked v.ring.distinct (nonzero, fresh)

  size : (after.page base).property ≡ n
  size = ground arith

  settled : merge_prev base after ≡ (base, after)
  settled = merge_prev_self base after after-Twisted.selfish nonzero (omega (arith, size))

  free_at_end : default_free_pages fuel base n s ≡ ok after
  unfolding default_free_pages add_block insert_block list_empty merge_next
  free_at_end = rw (
    ltb_pos n pn,
    (clear_pages_lem n base s.page loose).1,
    not_empty s.links [] x xs v.ring.linked v.ring.distinct.0,
    insert_loop_end fuel base free_list x s.links xs f v.ring.linked v.ring.distinct.0 above pb
        fresh,
    settled,
    tail_end,
  )

  counted : after.nr_free ≡ s.nr_free + n
  counted = omega arith

  module _ (k : ℕ) (pk : 0 < k) (room_twice : k + k ≤ n)
      (small : All (λ y. (s.page y).property < k) (x ∷ xs)) where
    once : FreeArea
    once = take_block base k after

    small_before : All (λ y. (after.page y).property < k) (x ∷ xs)
    small_before =
        let c = clear_pages_lem n base s.page loose in
        Agree-small s.page c.0 base n k _ (x ∷ xs)
          (ClearedTo-Agree s.page c.0 base n 0 (x ∷ xs) c.2 v.sorted clear) fresh small

    -- Let a well-formed free area hold the blocks `x ∷ xs`, none above `base`, and release `n >
    -- 0` pages at `base` that lie outside them and are neither reserved nor marked, where
    -- `nr_free + n` fits 32 bits. For any `k > 0` with `k + k ≤ n`, larger than all the blocks,
    -- the release returns, and two requests for `k` pages after it both return the page `base`:
    -- the second hands out pages that are in use.
    pub free_at_end-alloc_twice :
        (t u w : FreeArea) × (default_free_pages fuel base n s ≡ ok t)
        × (default_alloc_pages fuel k t ≡ ok (some base, u))
        × (default_alloc_pages fuel k u ≡ ok (some base, w))
    free_at_end-alloc_twice = (
      after,
      take_block base k after,
      take_block base k (take_block base k after),
      free_at_end,
      alloc-Twisted fuel base k after (x ∷ xs) (omega arith) v.ring.distinct.0 pb pk small_before
          (omega (arith, size)) (omega (arith, counted)) after-Twisted,
      alloc-Twisted fuel base k (take_block base k after) (x ∷ xs) (omega arith) v.ring.distinct.0
          pb pk (small_after after base k (x ∷ xs) pk above small_before)
          (omega (arith, size, take_block-property after base k base (omega arith) pk))
          (omega (arith, counted, take_block-nr_free after base k))
          (take_block-Twisted after base k (x ∷ xs) pb pk fresh above after-Twisted),
    )
