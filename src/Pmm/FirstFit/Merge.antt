-- ===== src/Pmm/FirstFit/Merge.antt =====
-- The two merges at the end of default_free_pages, lab2/kern/mm/default_pmm.c.
use nku_os_ucore.Common.{
  ℕ, ◌+◌, ◌≤◌, ◌<◌, ◌≡◌, ◌⊎◌, inl, inr, refl, sym, ap, ◌∙◌, subst, List, [], ◌∷◌, ◌++◌, false, ◌==◌,
  arith, append_assoc, Bool-cases,
}
use nku_os_ucore.Common.Distinct.{last}
use nku_os_ucore.DList.Ring.{Linked-split, prev-last}
use nku_os_ucore.Pmm.{Page, FreeArea, free_list}
use nku_os_ucore.Pmm.Blocks.{
  is_free, Sorted, Inv, reach, Touching, reach-append, Sorted-split, Sorted-join,
}
use nku_os_ucore.Pmm.FirstFit.{absorb, merge_prev, merge_next}
use nku_os_ucore.Pmm.FirstFit.Absorb.{
  Placed, absorb-Placed, absorb-Sorted, absorb-is_free, absorb-count,
}

snoc_cases : (xs : List ℕ) → (xs ≡ []) ⊎ ((us : List ℕ) × (a : ℕ) × (xs ≡ us ++ a ∷ []))
snoc_cases [] = inl refl
snoc_cases (x ∷ xs) = elim (snoc_cases xs) [
  | inl e ↦ inr ([], x, ap (◌∷◌ x) e)
  | inr (us, a, e) ↦ inr (x ∷ us, a, ap (◌∷◌ x) e)
]

last-append : (h : ℕ) (us : List ℕ) (a : ℕ) → last h (us ++ a ∷ []) ≡ a
last-append h [] a = refl
last-append h (x ∷ us) a = last-append x us a

-- What a merge leaves, seen from the blocks.
pub record Merged (s : FreeArea) (xs : List ℕ) (t : FreeArea) (ys : List ℕ) : Type 0 where
  pub same : (q : ℕ) → is_free t.page ys q ≡ is_free s.page xs q
  pub count : t.nr_free ≡ s.nr_free

-- What the first merge leaves: the block does not touch the one before it any more.
pub record Settled (s : FreeArea) (xs : List ℕ) (r : ℕ × FreeArea) (post : List ℕ) : Type 0 where
  pub us : List ℕ
  pub placed : Placed r.1 us r.0 post
  pub apart : reach r.1.page 0 us < r.0
  pub merged : Merged s xs r.1 (us ++ r.0 ∷ post)

merge_prev-first :
    (s : FreeArea) (b : ℕ) (post : List ℕ)
    → 0 < b
    → Placed s [] b post
    → Settled s (b ∷ post) (merge_prev b s) post
unfolding merge_prev
merge_prev-first s b post h v =
    rw v.ring.linked.1 (record {
      us = [];
      placed = v;
      apart = h;
      merged = record { same = λ q. refl; count = refl };
    })

merge_prev-behind :
    (s : FreeArea) (us : List ℕ) (a b : ℕ) (post : List ℕ)
    → Placed s (us ++ a ∷ []) b post
    → Settled s ((us ++ a ∷ []) ++ b ∷ post) (merge_prev b s) post
unfolding merge_prev
merge_prev-behind s us a b post v =
    let p : s.links.prev b ≡ a =
      prev-last s.links free_list (us ++ a ∷ []) b
        (Linked-split s.links free_list (us ++ a ∷ []) b post free_list v.ring.linked).0
      ∙ last-append free_list us a in
    let nz : (a == free_list) ≡ false =
      let w = (Sorted-split s.page 0 us (a ∷ []) v.left).1.0 in ground arith in
    rw (p, nz)
      (elim (Bool-cases (a + (s.page a).property == b)) [
        | inl touch ↦
            let e : a + (s.page a).property ≡ b = ground arith in
            let r = absorb-Placed s us a b post v e in
            rw touch (record {
              us = us;
              placed = r.0;
              apart = r.1;
              merged = record {
                same = absorb-is_free s us a b post v e;
                count = absorb-count a b s;
              };
            })
        | inr free ↦ rw free (record {
          us = us ++ a ∷ [];
          placed = v;
          apart = let w = v.near in ground (arith, reach-append s.page 0 us a);
          merged = record { same = λ q. refl; count = refl };
        })
      ])

pub merge_prev-Settled :
    (s : FreeArea) (pre : List ℕ) (b : ℕ) (post : List ℕ)
    → 0 < b
    → Placed s pre b post
    → Settled s (pre ++ b ∷ post) (merge_prev b s) post
merge_prev-Settled s pre b post h v = elim (snoc_cases pre) [
  | inl e ↦
      subst (λ z. Settled s (z ++ b ∷ post) (merge_prev b s) post) (sym e)
        (merge_prev-first s b post h (subst (λ z. Placed s z b post) e v))
  | inr (us, a, e) ↦
      subst (λ z. Settled s (z ++ b ∷ post) (merge_prev b s) post) (sym e)
        (merge_prev-behind s us a b post (subst (λ z. Placed s z b post) e v))
]

strict : (a b : ℕ) → a ≤ b → (a == b) ≡ false → a < b
strict a b h e = ground arith

Sorted-Touching : (m : ℕ → Page) (lo : ℕ) (xs : List ℕ) → Sorted m lo xs → Touching m lo xs
Sorted-Touching m lo [] s = tt
Sorted-Touching m lo (x ∷ xs) s = (omega arith, s.1, s.2, s.3)

-- The block that follows, seen from the one before it.
Placed-next :
    (s : FreeArea) (pre : List ℕ) (b y : ℕ) (ys : List ℕ)
    → Placed s pre b (y ∷ ys)
    → reach s.page 0 pre < b
    → Placed s (pre ++ b ∷ []) y ys
Placed-next s pre b y ys v h =
    let eq = append_assoc pre (b ∷ []) (y ∷ ys) in
    record {
      ring = rw eq v.ring;
      left = Sorted-join s.page 0 pre (b ∷ []) v.left (h, v.filled, v.marked, tt);
      near = rw (reach-append s.page 0 pre b) v.right.0;
      filled = v.right.1;
      marked = v.right.2;
      right = Sorted-Touching s.page _ ys v.right.3;
      counted = rw eq v.counted;
      small = rw eq v.small;
    }

-- Without neighbours that touch, the invariant is back.
pub Placed-Inv :
    (s : FreeArea) (pre : List ℕ) (b : ℕ) (post : List ℕ)
    → Placed s pre b post
    → reach s.page 0 pre < b
    → Sorted s.page (b + (s.page b).property) post
    → Inv s (pre ++ b ∷ post)
Placed-Inv s pre b post v h t = record {
  ring = v.ring;
  sorted = Sorted-join s.page 0 pre (b ∷ post) v.left (h, v.filled, v.marked, t);
  counted = v.counted;
  small = v.small;
}

pub merge_next-Inv :
    (s : FreeArea) (pre : List ℕ) (b : ℕ) (post : List ℕ)
    → Placed s pre b post
    → reach s.page 0 pre < b
    → (ys : List ℕ) × Inv (merge_next b s) ys × Merged s (pre ++ b ∷ post) (merge_next b s) ys
unfolding merge_next
merge_next-Inv s pre b [] v h =
    rw (Linked-split s.links free_list pre b [] free_list v.ring.linked).1.0
      (pre ++ b ∷ [], Placed-Inv s pre b [] v h tt, record { same = λ q. refl; count = refl })
merge_next-Inv s pre b (y ∷ ys) v h =
    let p : s.links.next b ≡ y =
      (Linked-split s.links free_list pre b (y ∷ ys) free_list v.ring.linked).1.0 in
    let nz : (y == free_list) ≡ false = let w = v.right.0 in let w' = v.filled in ground arith in
    rw (p, nz)
      (elim (Bool-cases (b + (s.page b).property == y)) [
        | inl touch ↦
            let e : b + (s.page b).property ≡ y = ground arith in
            let w = Placed-next s pre b y ys v h in
            let r = absorb-Placed s pre b y ys w e in
            rw touch (
              pre ++ b ∷ ys,
              Placed-Inv (absorb b y s) pre b ys r.0 r.1 (absorb-Sorted s pre b y ys w e v.right.3),
              record {
                same = rw (append_assoc pre (b ∷ []) (y ∷ ys)) at (absorb-is_free s pre b y ys w e);
                count = absorb-count b y s;
              },
            )
        | inr free ↦ rw free (
          pre ++ b ∷ y ∷ ys,
          Placed-Inv s pre b (y ∷ ys) v h
              (strict (b + (s.page b).property) y v.right.0 free, v.right.1, v.right.2, v.right.3),
          record { same = λ q. refl; count = refl },
        )
      ])
