-- ===== src/Pmm/BestFit/Alloc.antt =====
-- What best_fit_alloc_pages of lab2/kern/mm/best_fit_pmm.c does to a sorted free area.
use nku_os_ucore.Common.{
  ℕ, zero, suc, ◌+◌, ◌^◌, ◌≤◌, ◌<◌, ◌≡◌, ◌⊎◌, inl, inr, refl, sym, ap, ◌∙◌, subst, List, [], ◌∷◌,
  ◌++◌, Bool-cases, ltb, leb, ◌&&◌, not, ltb_pos, ok, Option, none, some, arith, Outcome, length,
  All, u32,
}
use nku_os_ucore.Common.Distinct.{NotIn}
use nku_os_ucore.DList.Ring.{Linked}
use nku_os_ucore.Pmm.{Page, FreeArea, free_list}
use nku_os_ucore.Pmm.Blocks.{small_of_total, total, Inv, is_free, in_range}
use nku_os_ucore.Pmm.FirstFit.{take_block, taken}
use nku_os_ucore.Pmm.FirstFit.Take.{remainder, take_block-Inv, take_block-is_free}
use nku_os_ucore.Pmm.BestFit.{find_best, best_fit_alloc_pages}

-- Among the blocks `xs` those before `p` are too small or larger than `k`, those behind it too small
-- or at least `k`.
abbrev pub Best : (ℕ → Page) → ℕ → List ℕ → ℕ → List ℕ → List ℕ → Type 0
Best m n xs p pre post =
    (xs ≡ pre ++ p ∷ post)
    × (n ≤ (m p).property)
    × All (λ x. ((m x).property < n) ⊎ ((m p).property < (m x).property)) pre
    × All (λ x. ((m x).property < n) ⊎ ((m p).property ≤ (m x).property)) post

data Search (m : ℕ → Page) (n : ℕ) (xs : List ℕ) (page : Option ℕ) (min : ℕ)
    : Option ℕ → Type 0 where
  kept : All (λ x. ((m x).property < n) ⊎ (min ≤ (m x).property)) xs → Search m n xs page min page
  found :
      (p : ℕ) (pre post : List ℕ)
      → (m p).property < min
      → Best m n xs p pre post
      → Search m n xs page min (some p)

Search-better :
    (m : ℕ → Page) (n x : ℕ) (xs : List ℕ) (page r : Option ℕ) (min : ℕ)
    → n ≤ (m x).property
    → (m x).property < min
    → Search m n xs (some x) (m x).property r
    → Search m n (x ∷ xs) page min r
Search-better m n x xs page r min h k (kept a) = found x [] xs k (refl, h, tt, a)
Search-better m n x xs page r min h k (found p pre post l (e, a, b, c)) =
    found p (x ∷ pre) post (omega arith) (ap (◌∷◌ x) e, a, (inr l, b), c)

Search-worse :
    (m : ℕ → Page) (n x : ℕ) (xs : List ℕ) (page r : Option ℕ) (min : ℕ)
    → ((m x).property < n) ⊎ (min ≤ (m x).property)
    → Search m n xs page min r
    → Search m n (x ∷ xs) page min r
Search-worse m n x xs page r min h (kept a) = kept (h, a)
Search-worse m n x xs page r min h (found p pre post l (e, a, b, c)) =
    found p (x ∷ pre) post l (ap (◌∷◌ x) e, a, (omega arith, b), c)

find_best_lem :
    (fuel n a : ℕ) (page : Option ℕ) (min : ℕ) (s : FreeArea) (xs : List ℕ)
    → length xs < fuel
    → NotIn free_list xs
    → Linked s.links a xs free_list
    → (r : Option ℕ) × (find_best fuel n a page min s ≡ ok r) × Search s.page n xs page min r
unfolding find_best
find_best_lem zero n a page min s xs h k l = absurd (omega arith)
find_best_lem (suc f) n a page min s [] h k l = (page, ground arith, kept tt)
find_best_lem (suc f) n a page min s (x ∷ xs) h k l =
    elim (Bool-cases (leb n (s.page x).property && ltb (s.page x).property min)) [
      | inl t ↦
          let (r, e, w) =
            find_best_lem f n x (some x) (s.page x).property s xs (omega arith) k.1 l.2 in
          (
            r,
            rw (l.0, t) (let z = k.0 in ground (arith, e)),
            Search-better s.page n x xs page r min (ground arith) (ground arith) w,
          )
      | inr t ↦
          let (r, e, w) = find_best_lem f n x page min s xs (omega arith) k.1 l.2 in
          (
            r,
            rw (l.0, t) (let z = k.0 in ground (arith, e)),
            Search-worse s.page n x xs page r min (ground arith) w,
          )
    ]

-- What a request for `n` pages comes to: a null page, or the first of the smallest blocks that are
-- large enough, whose first `n` pages leave the free area.
pub data BestAllocated (n : ℕ) (s : FreeArea) (xs : List ℕ)
    : Outcome (Option ℕ × FreeArea) → Type 0 where
  refused : All (λ x. (s.page x).property < n) xs → BestAllocated n s xs (ok (none, s))
  granted :
      (pre post : List ℕ) (p : ℕ) (t : FreeArea)
      → Best s.page n xs p pre post
      → Inv t (pre ++ (remainder p n (s.page p).property ++ post))
      → t.nr_free + n ≡ s.nr_free
      → ((q : ℕ)
          → is_free t.page (pre ++ (remainder p n (s.page p).property ++ post)) q
            ≡ (is_free s.page xs q && not (in_range p n q)))
      → BestAllocated n s xs (ok (some p, t))

none_kept :
    (m : ℕ → Page) (n min : ℕ) (xs : List ℕ)
    → total m xs < min
    → All (λ x. ((m x).property < n) ⊎ (min ≤ (m x).property)) xs
    → All (λ x. (m x).property < n) xs
none_kept m n min [] h a = tt
none_kept m n min (x ∷ xs) h a = (omega (arith, a.0), none_kept m n min xs (omega arith) a.1)

BestAllocated-found :
    (n min : ℕ) (s : FreeArea) (xs : List ℕ)
    → Inv s xs
    → 0 < n
    → total s.page xs < min
    → (r : Option ℕ) → Search s.page n xs none min r
    → BestAllocated n s xs (ok (taken r n s))
BestAllocated-found n min s xs v h k none (kept a) = refused (none_kept s.page n min xs k a)
BestAllocated-found n min s xs v h k (some p) (found _ pre post l b) =
    let v' = subst (Inv s) b.0 v in
    let i = take_block-Inv s pre post p n v' h b.1 in
    granted pre post p (take_block p n s) b i.0 i.1 (λ q.
      take_block-is_free s pre post p n v' h b.1 q
      ∙ ap (λ z. is_free s.page z q && not (in_range p n q)) (sym b.0))

-- On a well-formed free area that holds the blocks `xs`, where `nr_free + 1` fits 32 bits, with
-- fuel for a walk over them, `best_fit_alloc_pages` for `n > 0` pages returns: a null page and
-- the area as it was, and then every block is smaller than `n`; or the first of the smallest
-- blocks that have `n` pages, and then the area is well-formed again, `nr_free` is less by `n`,
-- and exactly the `n` pages from that block's start are not free any more.
pub best_fit_alloc_pages-BestAllocated :
    (fuel n : ℕ) (s : FreeArea) (xs : List ℕ)
    → Inv s xs
    → s.nr_free + 1 < 2 ^ 32
    → 0 < n
    → length xs < fuel
    → BestAllocated n s xs (best_fit_alloc_pages fuel n s)
unfolding best_fit_alloc_pages
best_fit_alloc_pages-BestAllocated fuel n s xs v room h k =
    let (r, e, w) =
      find_best_lem fuel n free_list none (u32 (s.nr_free + 1)) s xs k v.ring.distinct.0
        v.ring.linked in
    rw (ltb_pos n h) (elim (Bool-cases (ltb s.nr_free n)) [
      | inl few ↦ rw few (refused (small_of_total s.page n xs (ground arith)))
      | inr enough ↦
          rw (enough, e)
            (BestAllocated-found n (u32 (s.nr_free + 1)) s xs v h (omega (arith, v.counted)) r w)
    ])
