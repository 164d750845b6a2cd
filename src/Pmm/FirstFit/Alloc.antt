-- ===== src/Pmm/FirstFit/Alloc.antt =====
-- What default_alloc_pages of lab2/kern/mm/default_pmm.c does to a sorted free area.
use nku_os_ucore.Common.{
  ℕ, zero, suc, ◌+◌, ◌≤◌, ◌<◌, ◌≡◌, inl, inr, refl, ◌∷◌, List, [], ◌++◌, ok, Option, none, some,
  arith, ltb, length, All, ap, dec_lt, Bool-cases, ltb_pos, ◌&&◌, not, sym, ◌∙◌, subst, Outcome,
}
use nku_os_ucore.Common.Distinct.{NotIn}
use nku_os_ucore.DList.Ring.{Linked}
use nku_os_ucore.Pmm.{Page, FreeArea, free_list}
use nku_os_ucore.Pmm.Blocks.{small_of_total, is_free, in_range, Inv}
use nku_os_ucore.Pmm.FirstFit.Take.{remainder, take_block-Inv, take_block-is_free}
use nku_os_ucore.Pmm.FirstFit.{find_first, take_block, default_alloc_pages, taken}

-- The first block of at least `n` pages: all before it are smaller.
abbrev pub FirstFit : (ℕ → Page) → ℕ → List ℕ → Option ℕ → Type 0
FirstFit m n xs none = All (λ x. (m x).property < n) xs
FirstFit m n xs (some p) =
    (pre : List ℕ) × (post : List ℕ) × (xs ≡ pre ++ p ∷ post)
    × All (λ x. (m x).property < n) pre
    × (n ≤ (m p).property)

FirstFit-cons :
    (m : ℕ → Page) (n x : ℕ) (xs : List ℕ) (r : Option ℕ)
    → (m x).property < n
    → FirstFit m n xs r
    → FirstFit m n (x ∷ xs) r
FirstFit-cons m n x xs none h f = (h, f)
FirstFit-cons m n x xs (some p) h (pre, post, e, a, b) = (x ∷ pre, post, ap (◌∷◌ x) e, (h, a), b)

pub find_first_lem :
    (fuel n a : ℕ) (s : FreeArea) (xs : List ℕ)
    → length xs < fuel
    → NotIn free_list xs
    → Linked s.links a xs free_list
    → (r : Option ℕ) × (find_first fuel n a s ≡ ok r) × FirstFit s.page n xs r
unfolding find_first
find_first_lem zero n a s xs h k l = absurd (omega arith)
find_first_lem (suc f) n a s [] h k l = (none, ground arith, tt)
find_first_lem (suc f) n a s (x ∷ xs) h k l = elim (dec_lt (s.page x).property n) [
  | yes small ↦
      let (r, e, ff) = find_first_lem f n x s xs (omega arith) k.1 l.2 in
      (r, ground (arith, k.0), FirstFit-cons s.page n x xs r small ff)
  | no fits ↦ (some x, ground arith, ([], xs, refl, tt, omega arith))
]

-- What a request for `n` pages comes to: a null page, or the first block that fits, whose first `n`
-- pages leave the free area.
pub data Allocated (n : ℕ) (s : FreeArea) (xs : List ℕ)
    : Outcome (Option ℕ × FreeArea) → Type 0 where
  refused : All (λ x. (s.page x).property < n) xs → Allocated n s xs (ok (none, s))
  granted :
      (pre post : List ℕ) (p : ℕ) (t : FreeArea)
      → xs ≡ pre ++ p ∷ post
      → All (λ x. (s.page x).property < n) pre
      → n ≤ (s.page p).property
      → Inv t (pre ++ (remainder p n (s.page p).property ++ post))
      → t.nr_free + n ≡ s.nr_free
      → ((q : ℕ)
          → is_free t.page (pre ++ (remainder p n (s.page p).property ++ post)) q
            ≡ (is_free s.page xs q && not (in_range p n q)))
      → Allocated n s xs (ok (some p, t))

Allocated-found :
    (n : ℕ) (s : FreeArea) (xs : List ℕ)
    → Inv s xs
    → 0 < n
    → (r : Option ℕ) → FirstFit s.page n xs r
    → Allocated n s xs (ok (taken r n s))
Allocated-found n s xs v h none f = refused f
Allocated-found n s xs v h (some p) (pre, post, e, a, b) =
    let v' = subst (Inv s) e v in
    let i = take_block-Inv s pre post p n v' h b in
    granted pre post p (take_block p n s) e a b i.0 i.1 (λ q.
      take_block-is_free s pre post p n v' h b q
      ∙ ap (λ z. is_free s.page z q && not (in_range p n q)) (sym e))

-- On a free area that holds the sorted, marked blocks `xs`, with fuel for a walk over them,
-- `default_alloc_pages` for `n > 0` pages returns: a null page and the area as it was, and then
-- every block is smaller than `n`; or the first block of at least `n` pages, and then the area
-- is well-formed again, with the rest of that block in its place, `nr_free` is less by `n`, and
-- exactly the `n` pages from that block's start are not free any more.
pub default_alloc_pages-Allocated :
    (fuel n : ℕ) (s : FreeArea) (xs : List ℕ)
    → Inv s xs
    → 0 < n
    → length xs < fuel
    → Allocated n s xs (default_alloc_pages fuel n s)
unfolding default_alloc_pages
default_alloc_pages-Allocated fuel n s xs v h k =
    let (r, e, f) = find_first_lem fuel n free_list s xs k v.ring.distinct.0 v.ring.linked in
    rw (ltb_pos n h) (elim (Bool-cases (ltb s.nr_free n)) [
      | inl few ↦ rw few (refused (small_of_total s.page n xs (ground arith)))
      | inr enough ↦ rw (enough, e) (Allocated-found n s xs v h r f)
    ])
