-- ===== src/Pmm/FirstFit/Take.antt =====
-- Taking the first pages of a block: the second half of default_alloc_pages, lab2/kern/mm/default_pmm.c.
use nku_os_ucore.Common.{
  ℕ, ◌+◌, ◌-◌, ◌≤◌, ◌<◌, ◌≡◌, inl, inr, ◌∷◌, List, [], ◌++◌, arith, ltb, if◌then◌else◌, Bool-cases,
  ◌&&◌, ◌||◌, Bool, not, true, false,
}
use nku_os_ucore.Common.Distinct.{
  NotIn, last, NotIn-append, NotIn-append_left, NotIn-append_right, NotIn-remove, NotIn-insert,
  Distinct-middle,
}
use nku_os_ucore.DList.Ring.{Ring, Linked-split, prev-last, list_del-Ring, list_add_at-Ring}
use nku_os_ucore.Pmm.{Page, FreeArea, store, free_list}
use nku_os_ucore.Pmm.Blocks.{
  is_free, in_range, is_free-append, Clear-is_free, is_free-store, Sorted, total, Clear, Inv,
  Sorted-NotIn_inside, Sorted-remove, Sorted-shrink, Sorted-store, total-store, total-append,
  Clear-store, Sorted-middle, Clear-append, Clear-mono, Sorted-Clear,
}
use nku_os_ucore.Pmm.FirstFit.{split_block, take_block}

-- What is left of a block of `k` pages at `p` when its first `n` are taken.
abbrev pub remainder : ℕ → ℕ → ℕ → List ℕ
remainder p n k = if ltb n k then (p + n) ∷ [] else []

split_free :
    (b c : Bool) (p n k q : ℕ)
    → n < k
    → (b && in_range p n q) ≡ false
    → (c && in_range p n q) ≡ false
    → (b || (in_range (p + n) (k - n) q || c))
      ≡ ((b || (in_range p k q || c)) && not (in_range p n q))
split_free b c p n k q h x y = ground arith

whole_free :
    (b c : Bool) (p n k q : ℕ)
    → k ≡ n
    → (b && in_range p n q) ≡ false
    → (c && in_range p n q) ≡ false
    → (b || c) ≡ ((b || (in_range p k q || c)) && not (in_range p n q))
whole_free b c p n k q h x y = ground arith

module _ (s : FreeArea) (pre post : List ℕ) (p n : ℕ) (v : Inv s (pre ++ p ∷ post)) (pos : 0 < n)
    (fits : n ≤ (s.page p).property) where
  before : s.links.prev p ≡ last free_list pre
  before =
      prev-last s.links free_list pre p
        (Linked-split s.links free_list pre p post free_list v.ring.linked).0

  inside : n < (s.page p).property → NotIn (p + n) (pre ++ p ∷ post)
  inside h = Sorted-NotIn_inside s.page 0 pre p (p + n) post (omega arith) (omega arith) v.sorted

  others : NotIn p (pre ++ post)
  others = let d = Distinct-middle pre p post v.ring.distinct.1 in NotIn-append p pre post d.0 d.1

  take_block-Ring :
      Ring (take_block p n s).links free_list (pre ++ (remainder p n (s.page p).property ++ post))
  unfolding take_block split_block
  take_block-Ring =
      let out = list_del-Ring s.links free_list p pre post v.ring in
      elim (Bool-cases (ltb n (s.page p).property)) [
        | inl split ↦
            rw (split, before)
              (list_add_at-Ring _ free_list (p + n) pre post out (omega arith)
                (NotIn-remove (p + n) pre p post (inside (ground arith))))
        | inr whole ↦ rw whole out
      ]

  -- The remainder as a block of the page array.
  abbrev rest : Page
  rest = record (s.page (p + n)) { head = true; property = (s.page p).property - n }

  abbrev split_page : ℕ → Page
  split_page = store s.page (p + n) rest

  at_split : (split_page (p + n)).property ≡ (s.page p).property - n
  at_split = ground arith

  all_taken : (k : ℕ) → ltb n k ≡ false → k ≤ n
  all_taken k h = ground arith

  Clear-sides : Clear s.page p n pre × Clear s.page p n post
  Clear-sides =
      let m = Sorted-middle s.page 0 pre p post v.sorted in
      (
        Clear-mono s.page p n (s.page p).property pre fits m.4,
        Sorted-Clear s.page (p + (s.page p).property) p n post (omega arith) m.3,
      )

  split_page-Sorted : n < (s.page p).property → Sorted split_page 0 (pre ++ (p + n) ∷ post)
  split_page-Sorted h =
      Sorted-shrink split_page 0 pre p (p + n) post (omega arith) (ground arith) (ground arith)
        (ground arith) (Sorted-store s.page (p + n) _ 0 (pre ++ p ∷ post) (inside h) v.sorted)

  take_block-Sorted :
      Sorted (take_block p n s).page 0 (pre ++ (remainder p n (s.page p).property ++ post))
  unfolding take_block split_block
  take_block-Sorted = elim (Bool-cases (ltb n (s.page p).property)) [
    | inl split ↦ rw split (
        Sorted-store split_page p _ 0 (pre ++ (p + n) ∷ post)
          (NotIn-insert p pre (p + n) post (omega arith) others) (split_page-Sorted (ground arith)))
    | inr whole ↦ rw whole (
        Sorted-store s.page p _ 0 (pre ++ post) others (Sorted-remove s.page 0 pre p post v.sorted))
  ]

  take_block-total :
      total (take_block p n s).page (pre ++ (remainder p n (s.page p).property ++ post)) + n
      ≡ total s.page (pre ++ p ∷ post)
  unfolding take_block split_block
  take_block-total = elim (Bool-cases (ltb n (s.page p).property)) [
    | inl split ↦
        let away = inside (ground arith) in
        rw split (
          omega (
            arith,
            total-store split_page p (record (split_page p) { head = false })
                (pre ++ (p + n) ∷ post) (NotIn-insert p pre (p + n) post (omega arith) others),
            total-append split_page pre ((p + n) ∷ post),
            total-append s.page pre (p ∷ post),
            total-store s.page (p + n) rest pre (NotIn-append_left (p + n) pre (p ∷ post) away),
            total-store s.page (p + n) rest post (NotIn-append_right (p + n) pre (p ∷ post) away).1,
            at_split,
          ))
    | inr whole ↦ rw whole (
        omega (
          arith,
          total-store s.page p (record (s.page p) { head = false }) (pre ++ post) others,
          total-append s.page pre post,
          total-append s.page pre (p ∷ post),
          all_taken (s.page p).property whole,
        ))
  ]

  take_block-Clear :
      Clear (take_block p n s).page p n (pre ++ (remainder p n (s.page p).property ++ post))
  unfolding take_block split_block
  take_block-Clear = elim (Bool-cases (ltb n (s.page p).property)) [
    | inl split ↦
        let away = inside (ground arith) in
        rw split (
          Clear-store split_page p _ p n (pre ++ (p + n) ∷ post)
            (NotIn-insert p pre (p + n) post (omega arith) others)
            (Clear-append split_page p n pre ((p + n) ∷ post)
              (Clear-store s.page (p + n) rest p n pre
                (NotIn-append_left (p + n) pre (p ∷ post) away) Clear-sides.0)
              (
                inr (omega arith),
                Clear-store s.page (p + n) rest p n post
                    (NotIn-append_right (p + n) pre (p ∷ post) away).1 Clear-sides.1,
              )))
    | inr whole ↦ rw whole (
        Clear-store s.page p _ p n (pre ++ post) others
          (Clear-append s.page p n pre post Clear-sides.0 Clear-sides.1))
  ]

  -- With the remainder cut off, exactly the first `n` pages are not free any more.
  pub take_block-is_free :
      (q : ℕ)
      → is_free (take_block p n s).page (pre ++ (remainder p n (s.page p).property ++ post)) q
        ≡ (is_free s.page (pre ++ p ∷ post) q && not (in_range p n q))
  unfolding take_block split_block
  take_block-is_free q = elim (Bool-cases (ltb n (s.page p).property)) [
    | inl split ↦
        let away = inside (ground arith) in
        rw
          (
            split,
            is_free-store split_page p (record (split_page p) { head = false })
                (pre ++ (p + n) ∷ post) q (NotIn-insert p pre (p + n) post (omega arith) others),
            is_free-append split_page pre ((p + n) ∷ post) q,
            is_free-append s.page pre (p ∷ post) q,
            is_free-store s.page (p + n) rest pre q (NotIn-append_left (p + n) pre (p ∷ post) away),
            is_free-store s.page (p + n) rest post q
                (NotIn-append_right (p + n) pre (p ∷ post) away).1,
            at_split,
          )
          (split_free (is_free s.page pre q) (is_free s.page post q) p n (s.page p).property q
            (ground arith) (Clear-is_free s.page p n pre q Clear-sides.0)
            (Clear-is_free s.page p n post q Clear-sides.1))
    | inr whole ↦
        rw
          (
            whole,
            is_free-store s.page p (record (s.page p) { head = false }) (pre ++ post) q others,
            is_free-append s.page pre post q,
            is_free-append s.page pre (p ∷ post) q,
          )
          (whole_free (is_free s.page pre q) (is_free s.page post q) p n (s.page p).property q
            (omega (arith, fits, all_taken (s.page p).property whole))
            (Clear-is_free s.page p n pre q Clear-sides.0)
            (Clear-is_free s.page p n post q Clear-sides.1))
  ]

  nr_free-take_block : (take_block p n s).nr_free ≡ s.nr_free - n
  unfolding take_block split_block
  nr_free-take_block = ground arith

  -- Taking the first `n` pages of a block keeps the invariant, and hands out no page that is still free.
  pub take_block-Inv :
      Inv (take_block p n s) (pre ++ (remainder p n (s.page p).property ++ post))
      × ((take_block p n s).nr_free + n ≡ s.nr_free)
      × Clear (take_block p n s).page p n (pre ++ (remainder p n (s.page p).property ++ post))
  take_block-Inv = (
    record {
      ring = take_block-Ring;
      sorted = take_block-Sorted;
      counted = omega (arith, nr_free-take_block, take_block-total, v.counted);
      small = omega (arith, take_block-total, v.small);
    },
    omega (arith, nr_free-take_block, take_block-total, v.counted),
    take_block-Clear,
  )
