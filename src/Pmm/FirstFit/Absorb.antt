-- ===== src/Pmm/FirstFit/Absorb.antt =====
-- One merge of two neighbours in default_free_pages, lab2/kern/mm/default_pmm.c.
use nku_os_ucore.Common.{
  ℕ, ◌+◌, ◌^◌, ◌≤◌, ◌<◌, ◌≡◌, refl, ◌∙◌, subst, List, [], ◌∷◌, ◌++◌, true, false, arith,
  append_assoc, u32,
}
use nku_os_ucore.Common.Distinct.{NotIn, Distinct, Distinct-middle, NotIn-append_left}
use nku_os_ucore.DList.{list_del}
use nku_os_ucore.DList.Ring.{Ring, list_del-Ring}
use nku_os_ucore.Pmm.{Page, FreeArea, store, free_list}
use nku_os_ucore.Pmm.Blocks.{
  is_free, is_free-append, is_free-store, Sorted, total, reach, Touching, Touching-store,
  reach-store, Sorted-store, Sorted-split, total-store, total-append,
}
use nku_os_ucore.Pmm.FirstFit.{absorb}

-- The block at `b` stands in the list between `pre` and `post`, and may touch either side.
pub record Placed (s : FreeArea) (pre : List ℕ) (b : ℕ) (post : List ℕ) : Type 0 where
  pub ring : Ring s.links free_list (pre ++ b ∷ post)
  pub left : Sorted s.page 0 pre
  pub near : reach s.page 0 pre ≤ b
  pub filled : 0 < (s.page b).property
  pub marked : (s.page b).head ≡ true
  pub right : Touching s.page (b + (s.page b).property) post
  pub counted : s.nr_free ≡ total s.page (pre ++ b ∷ post)
  pub small : total s.page (pre ++ b ∷ post) < 2 ^ 32

module _ (s : FreeArea) (us : List ℕ) (a b : ℕ) (post : List ℕ) (v : Placed s (us ++ a ∷ []) b post)
    (e : a + (s.page a).property ≡ b) where
  -- The page array after the merge.
  abbrev joined : Page
  joined = record (s.page a) { property = u32 ((s.page a).property + (s.page b).property) }

  abbrev grown : ℕ → Page
  grown = store s.page a joined

  abbrev merged : ℕ → Page
  merged = store grown b (record (grown b) { head = false })

  sum :
      total s.page ((us ++ a ∷ []) ++ b ∷ post)
      ≡ total s.page us + (s.page a).property + (s.page b).property + total s.page post
  sum =
      omega (arith, total-append s.page (us ++ a ∷ []) (b ∷ post), total-append s.page us (a ∷ []))

  a_apart : NotIn a us × NotIn a (b ∷ post)
  a_apart =
      Distinct-middle us a (b ∷ post)
        (subst Distinct (append_assoc us (a ∷ []) (b ∷ post)) v.ring.distinct.1)

  b_apart : NotIn b (us ++ a ∷ []) × NotIn b post
  b_apart = Distinct-middle (us ++ a ∷ []) b post v.ring.distinct.1

  b_us : NotIn b us
  b_us = NotIn-append_left b us (a ∷ []) b_apart.0

  lower : Sorted s.page 0 us × Sorted s.page (reach s.page 0 us) (a ∷ [])
  lower = Sorted-split s.page 0 us (a ∷ []) v.left

  size : (merged a).property ≡ (s.page a).property + (s.page b).property
  size = let ne = a_apart.1.0 in let t = sum in let small = v.small in ground arith

  head_a : (merged a).head ≡ true
  head_a = let ne = a_apart.1.0 in let h = lower.1.2 in ground arith

  us_Sorted : Sorted merged 0 us
  us_Sorted = Sorted-store grown b _ 0 us b_us (Sorted-store s.page a joined 0 us a_apart.0 lower.0)

  us_reach : reach merged 0 us ≡ reach s.page 0 us
  us_reach = reach-store grown b _ 0 us b_us ∙ reach-store s.page a joined 0 us a_apart.0

  post_Touching : (lo : ℕ) → Touching s.page lo post → Touching merged lo post
  post_Touching lo t =
      Touching-store grown b _ lo post b_apart.1
        (Touching-store s.page a joined lo post a_apart.1.1 t)

  merged_total : total merged (us ++ a ∷ post) ≡ total s.page ((us ++ a ∷ []) ++ b ∷ post)
  merged_total = omega (
    arith,
    sum,
    size,
    total-append merged us (a ∷ post),
    total-store grown b (record (grown b) { head = false }) us b_us,
    total-store s.page a joined us a_apart.0,
    total-store grown b (record (grown b) { head = false }) post b_apart.1,
    total-store s.page a joined post a_apart.1.1,
  )

  -- `absorb a b` makes one block of two neighbours.
  pub absorb-Placed : Placed (absorb a b s) us a post × (reach (absorb a b s).page 0 us < a)
  unfolding absorb
  absorb-Placed = (
    record {
      ring =
          subst (λ z. Ring (list_del b s.links) free_list z) (append_assoc us (a ∷ []) post)
            (list_del-Ring s.links free_list b (us ++ a ∷ []) post v.ring);
      left = us_Sorted;
      near = omega (arith, us_reach, lower.1.0);
      filled = omega (arith, size, v.filled);
      marked = head_a;
      right =
          post_Touching _ (subst (λ k. Touching s.page k post) (omega (arith, size, e)) v.right);
      counted = omega (arith, merged_total, v.counted);
      small = omega (arith, merged_total, v.small);
    },
    omega (arith, us_reach, lower.1.0),
  )

  pub absorb-Sorted :
      Sorted s.page (b + (s.page b).property) post
      → Sorted (absorb a b s).page (a + ((absorb a b s).page a).property) post
  unfolding absorb
  absorb-Sorted t = Sorted-store grown b _ _ post b_apart.1 (
      Sorted-store s.page a joined _ post a_apart.1.1
        (subst (λ k. Sorted s.page k post) (omega (arith, size, e)) t))

  -- The merge frees no page and loses none.
  pub absorb-is_free :
      (q : ℕ)
      → is_free (absorb a b s).page (us ++ a ∷ post) q
        ≡ is_free s.page ((us ++ a ∷ []) ++ b ∷ post) q
  unfolding absorb
  absorb-is_free q =
      rw
        (
          is_free-append merged us (a ∷ post) q,
          is_free-append s.page (us ++ a ∷ []) (b ∷ post) q,
          is_free-append s.page us (a ∷ []) q,
          is_free-store grown b (record (grown b) { head = false }) us q b_us,
          is_free-store s.page a joined us q a_apart.0,
          is_free-store grown b (record (grown b) { head = false }) post q b_apart.1,
          is_free-store s.page a joined post q a_apart.1.1,
          size,
        )
        (ground arith)

pub absorb-count : (a b : ℕ) (s : FreeArea) → (absorb a b s).nr_free ≡ s.nr_free
unfolding absorb
absorb-count a b s = refl
