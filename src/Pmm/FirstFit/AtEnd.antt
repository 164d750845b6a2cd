-- ===== src/Pmm/FirstFit/AtEnd.antt =====
-- The loops of lab2/kern/mm/default_pmm.c that insert a block do not stop after an insertion behind
-- the last block: the walk goes on from the new entry, and links it to itself.
use nku_os_ucore.Common.{
  ℕ, zero, suc, ◌+◌, ◌-◌, inl, inr, Bool-cases, ◌≤◌, ◌<◌, ◌≡◌, ◌≢◌, List, [], ◌∷◌, arith, length,
  ok, All, ltb, some,
}
use nku_os_ucore.Common.Distinct.{NotIn, Distinct, last, NotIn-last}
use nku_os_ucore.DList.{
  Links, set_next, set_prev, raw_list_add, raw_list_del, list_add, list_add_after, list_del,
}
use nku_os_ucore.DList.Ring.{Linked, next-last_end}
use nku_os_ucore.Pmm.{FreeArea, free_list}
use nku_os_ucore.Pmm.FirstFit.{
  insert_loop, find_first, take_block, split_block, default_alloc_pages,
}

-- The `next` fields lead from `a` through `xs` to `b`.
abbrev pub Forward : Links → ℕ → List ℕ → ℕ → Type 0
Forward l a [] b = l.next a ≡ b
Forward l a (x ∷ xs) b = (l.next a ≡ x) × Forward l x xs b

-- Two insertions, the second of an entry behind itself.
abbrev pub twisted : ℕ → ℕ → Links → Links
twisted end base l = list_add base base (list_add end base l)

pub insert_loop_end :
    (fuel base a x : ℕ) (l : Links) (xs : List ℕ)
    → length xs + 3 ≤ fuel
    → Linked l a (x ∷ xs) free_list
    → NotIn free_list (x ∷ xs)
    → All (λ y. y ≤ base) (x ∷ xs)
    → 0 < base
    → NotIn base (x ∷ xs)
    → insert_loop fuel base a l ≡ ok (twisted (last x xs) base l)
unfolding insert_loop list_add list_add_after raw_list_add set_next set_prev
insert_loop_end zero base a x l xs f k n b h m = absurd (omega arith)
insert_loop_end (suc zero) base a x l xs f k n b h m = absurd (omega arith)
insert_loop_end (suc (suc zero)) base a x l xs f k n b h m = absurd (omega arith)
insert_loop_end (suc (suc (suc f))) base a x l [] fu k n b h m =
    ground (arith, n.0, b.0, m.0, k.0, k.2.0)
insert_loop_end (suc (suc (suc f))) base a x l (y ∷ ys) fu k n b h m =
    let ih = insert_loop_end (suc (suc f)) base x y l ys (omega arith) k.2 n.1 b.1 h m.1 in
    ground (arith, n.0, n.1.0, b.0, k.0, k.2.0, ih)

Linked-Forward : (l : Links) (a : ℕ) (xs : List ℕ) (b : ℕ) → Linked l a xs b → Forward l a xs b
Linked-Forward l a [] b s = s.0
Linked-Forward l a (x ∷ xs) b s = (s.0, Linked-Forward l x xs b s.2)

Forward-set_next :
    (l : Links) (v w a : ℕ) (xs : List ℕ) (b : ℕ)
    → v ≢ a
    → NotIn v xs
    → Forward l a xs b
    → Forward (set_next v w l) a xs b
unfolding set_next
Forward-set_next l v w a [] b h k s = ground arith
Forward-set_next l v w a (x ∷ xs) b h k s =
    ground (arith, Forward-set_next l v w x xs b k.0 k.1 s.1)

Forward-set_prev :
    (l : Links) (v w a : ℕ) (xs : List ℕ) (b : ℕ)
    → Forward l a xs b
    → Forward (set_prev v w l) a xs b
unfolding set_prev
Forward-set_prev l v w a [] b s = s
Forward-set_prev l v w a (x ∷ xs) b s = (s.0, Forward-set_prev l v w x xs b s.1)

-- An entry added at or behind `b` is not met before `b`.
Forward-add :
    (l : Links) (v w a : ℕ) (xs : List ℕ) (b : ℕ)
    → v ≢ a
    → NotIn v xs
    → w ≢ a
    → NotIn w xs
    → Forward l a xs b
    → Forward (list_add v w l) a xs b
unfolding list_add list_add_after raw_list_add
Forward-add l v w a xs b h k h' k' s = Forward-set_prev _ w v a xs b (
    Forward-set_next _ w _ a xs b h' k'
      (Forward-set_next _ v w a xs b h k (Forward-set_prev l (l.next v) w a xs b s)))

-- Retargeting the last entry leads to the new one.
Forward-last :
    (l : Links) (e a : ℕ) (xs : List ℕ) (b : ℕ)
    → Distinct (a ∷ xs)
    → NotIn e (a ∷ xs)
    → Forward l a xs b
    → Forward (list_add (last a xs) e l) a xs e
unfolding list_add list_add_after raw_list_add set_next set_prev
Forward-last l e a [] b d k s = ground arith
Forward-last l e a (x ∷ xs) b d k s =
    ground (arith, Forward-last l e x xs b d.1 k.1 s.1, NotIn-last a x xs d.0.0 d.0.1)

list_add-prev : (v w : ℕ) (l : Links) → (list_add v w l).prev w ≡ v
unfolding list_add list_add_after raw_list_add set_next set_prev
list_add-prev v w l = ground arith

pub twisted-next :
    (l : Links) (base end : ℕ)
    → l.next end ≡ free_list
    → base ≢ free_list
    → base ≢ end
    → (twisted end base l).next base ≡ free_list
unfolding list_add list_add_after raw_list_add set_next set_prev
twisted-next l base end e h k = ground arith

-- The state of the links behind which `list_del base` does not take `base` out.
pub record Twisted (l : Links) (base : ℕ) (xs : List ℕ) : Type 0 where
  pub selfish : l.prev base ≡ base
  pub ahead : l.next base ≢ base
  pub forward : Forward l free_list xs base

pub twisted-Twisted :
    (l : Links) (base x : ℕ) (xs : List ℕ)
    → Linked l free_list (x ∷ xs) free_list
    → Distinct (free_list ∷ x ∷ xs)
    → NotIn base (free_list ∷ x ∷ xs)
    → Twisted (twisted (last x xs) base l) base (x ∷ xs)
twisted-Twisted l base x xs s d k = record {
  selfish = list_add-prev base base (list_add (last x xs) base l);
  ahead =
      let q =
        twisted-next l base (last x xs) (next-last_end l free_list (x ∷ xs) free_list s) k.0
          (NotIn-last base x xs k.1.0 k.1.1) in
      let w = k.0 in ground arith;
  forward = Forward-add _ base base free_list (x ∷ xs) base k.0 k.1 k.0 k.1 (
      Forward-last l base free_list (x ∷ xs) free_list d k
        (Linked-Forward l free_list (x ∷ xs) free_list s));
}

list_del-Twisted :
    (l : Links) (base : ℕ) (xs : List ℕ)
    → base ≢ free_list
    → NotIn base xs
    → Twisted l base xs
    → Twisted (list_del base l) base xs
unfolding list_del raw_list_del
list_del-Twisted l base xs h m t = rw t.selfish (record {
  selfish = let e = t.selfish in unfold set_next set_prev in ground arith;
  ahead = let e = t.ahead in unfold set_next set_prev in ground arith;
  forward =
      Forward-set_prev _ (l.next base) base free_list xs base
        (Forward-set_next l base (l.next base) free_list xs base h m t.forward);
})

list_add-Twisted :
    (l : Links) (base e : ℕ) (xs : List ℕ)
    → base ≢ free_list
    → NotIn base xs
    → e ≢ free_list
    → NotIn e xs
    → e ≢ base
    → Twisted l base xs
    → Twisted (list_add base e l) base xs
unfolding list_add list_add_after raw_list_add
list_add-Twisted l base e xs h m h' m' ne t = record {
  selfish = let q = t.selfish in let w = t.ahead in unfold set_next set_prev in ground arith;
  ahead = unfold set_next set_prev in ground arith;
  forward =
      unfold list_add list_add_after raw_list_add in
      Forward-add l base e free_list xs base h m h' m' t.forward;
}

NotIn-above : (e b : ℕ) (xs : List ℕ) → b < e → All (λ y. y ≤ b) xs → NotIn e xs
NotIn-above e b [] h a = tt
NotIn-above e b (x ∷ xs) h a = (omega (arith, a.0), NotIn-above e b xs h a.1)

-- With the entry linked to itself, `take_block` leaves the block where it was.
pub take_block-Twisted :
    (s : FreeArea) (base k : ℕ) (xs : List ℕ)
    → 0 < base
    → 0 < k
    → NotIn base xs
    → All (λ y. y ≤ base) xs
    → Twisted s.links base xs
    → Twisted (take_block base k s).links base xs
unfolding take_block split_block
take_block-Twisted s base k xs h p m b t =
    let d = list_del-Twisted s.links base xs (omega arith) m t in
    elim (Bool-cases (ltb k (s.page base).property)) [
      | inl split ↦
          rw (split, t.selfish)
            (list_add-Twisted _ base (base + k) xs (omega arith) m (omega arith)
              (NotIn-above (base + k) base xs (omega arith) b) (omega arith) d)
      | inr whole ↦ rw whole d
    ]

-- The search only reads `next`: it finds `base` behind blocks that are too small.
find_first-Forward :
    (fuel n a base : ℕ) (s : FreeArea) (xs : List ℕ)
    → length xs < fuel
    → NotIn free_list xs
    → base ≢ free_list
    → All (λ y. (s.page y).property < n) xs
    → n ≤ (s.page base).property
    → Forward s.links a xs base
    → find_first fuel n a s ≡ ok (some base)
unfolding find_first
find_first-Forward zero n a base s xs f k h b c w = absurd (omega arith)
find_first-Forward (suc f) n a base s [] fu k h b c w = ground arith
find_first-Forward (suc f) n a base s (x ∷ xs) fu k h b c w =
    ground (arith, k.0, b.0, find_first-Forward f n x base s xs (omega arith) k.1 h b.1 c w.1)

-- What a second request finds: the block again, with its old size.
pub take_block-property :
    (s : FreeArea) (base k y : ℕ)
    → y ≤ base
    → 0 < k
    → ((take_block base k s).page y).property ≡ (s.page y).property
unfolding take_block split_block
take_block-property s base k y h p = ground arith

pub take_block-nr_free : (s : FreeArea) (base k : ℕ) → (take_block base k s).nr_free ≡ s.nr_free - k
unfolding take_block split_block
take_block-nr_free s base k = ground arith

pub small_after :
    (s : FreeArea) (base k : ℕ) (xs : List ℕ)
    → 0 < k
    → All (λ y. y ≤ base) xs
    → All (λ y. (s.page y).property < k) xs
    → All (λ y. ((take_block base k s).page y).property < k) xs
small_after s base k [] p b a = tt
small_after s base k (x ∷ xs) p b a =
    (omega (arith, take_block-property s base k x b.0 p, a.0), small_after s base k xs p b.1 a.1)

-- One request over a twisted list.
pub alloc-Twisted :
    (fuel base k : ℕ) (s : FreeArea) (xs : List ℕ)
    → length xs < fuel
    → NotIn free_list xs
    → 0 < base
    → 0 < k
    → All (λ y. (s.page y).property < k) xs
    → k ≤ (s.page base).property
    → k ≤ s.nr_free
    → Twisted s.links base xs
    → default_alloc_pages fuel k s ≡ ok (some base, take_block base k s)
unfolding default_alloc_pages
alloc-Twisted fuel base k s xs f n h p small fits enough t =
    let e = find_first-Forward fuel k free_list base s xs f n (omega arith) small fits t.forward in
    ground (arith, e)
