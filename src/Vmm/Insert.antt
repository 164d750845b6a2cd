-- ===== src/Vmm/Insert.antt =====
-- What insert_vma_struct of lab3/kern/mm/vmm.c accepts, and where it puts an area.
use nku_os_ucore.Common.{
  ℕ, ◌+◌, ◌≤◌, ◌<◌, ◌≡◌, ◌≢◌, inl, inr, refl, sym, subst, true, false, Bool-cases, ltb, ◌==◌, List,
  [], ◌∷◌, ◌++◌, Option, none, some, arith, length, length-append, All, ok, panicked, Outcome,
  if◌then◌else◌, ◌>>=◌,
}
use nku_os_ucore.Common.Distinct.{NotIn, NotIn-append_left, NotIn-append_right, last, first}
use nku_os_ucore.DList.{list_add_after}
use nku_os_ucore.DList.Ring.{next-last, list_add_after-Ring}
use nku_os_ucore.Vmm.{Vma, Mm, mmap_list, store, find_prev, insert_vma_struct, check_vma_overlap}
use nku_os_ucore.Vmm.Areas.{Ordered, IsIn, CacheIn, Inv, Apart}
use nku_os_ucore.Vmm.Place.{
  find_prev_lem, Ordered-insert, Apart-join, Apart-left, Apart-right, Side, check_left, check_right,
}

-- `insert_vma_struct` accepts an area exactly if it is not empty and overlaps no other.
abbrev pub Fits : (ℕ → Vma) → Vma → List ℕ → Type 0
Fits m v xs = (v.vm_start < v.vm_end) × Apart m v xs

pub data Inserted (s : Mm) (v : ℕ) (xs : List ℕ) : Outcome Mm → Type 0 where
  accepted :
      (pre post : List ℕ) (t : Mm)
      → Fits s.vma (s.vma v) xs
      → xs ≡ pre ++ post
      → Inv t (pre ++ v ∷ post)
      → t.vma v ≡ record (s.vma v) { vm_mm = some s.self }
      → Inserted s v xs (ok t)
  rejected : ¬ Fits s.vma (s.vma v) xs → Inserted s v xs panicked

Ordered-same :
    (m : ℕ → Vma) (a : ℕ) (w : Vma) (lo : ℕ) (xs : List ℕ)
    → w.vm_start ≡ (m a).vm_start
    → w.vm_end ≡ (m a).vm_end
    → Ordered m lo xs
    → Ordered (store m a w) lo xs
Ordered-same m a w lo [] e f o = tt
Ordered-same m a w lo (x ∷ xs) e f o =
    let p : (store m a w x).vm_start ≡ (m x).vm_start = ground arith in
    let q : (store m a w x).vm_end ≡ (m x).vm_end = ground arith in
    rw (p, q) (o.0, o.1, Ordered-same m a w (m x).vm_end xs e f o.2)

lt_test : (a b : ℕ) → a < b → ltb a b ≡ true
lt_test a b h = ground arith

IsIn-insert :
    (a : ℕ) (xs : List ℕ) (v : ℕ) (ys : List ℕ) → IsIn a (xs ++ ys) → IsIn a (xs ++ v ∷ ys)
IsIn-insert a [] v ys i = inr i
IsIn-insert a (x ∷ xs) v ys (inl e) = inl e
IsIn-insert a (x ∷ xs) v ys (inr i) = inr (IsIn-insert a xs v ys i)

CacheIn-insert :
    (c : Option ℕ) (xs : List ℕ) (v : ℕ) (ys : List ℕ)
    → CacheIn c (xs ++ ys)
    → CacheIn c (xs ++ v ∷ ys)
CacheIn-insert none xs v ys i = tt
CacheIn-insert (some c) xs v ys i = IsIn-insert c xs v ys i

module _ (fuel v : ℕ) (s : Mm) (pre post : List ℕ) (i : Inv s (pre ++ post)) (nz : v ≢ mmap_list)
    (fresh : NotIn v (pre ++ post))
    (found : find_prev fuel (s.vma v).vm_start mmap_list mmap_list s ≡ ok (last mmap_list pre))
    (below : All (λ x. (s.vma x).vm_start ≤ (s.vma v).vm_start) pre)
    (above : All (λ x. (s.vma v).vm_start < (s.vma x).vm_start) post)
    (h : (s.vma v).vm_start < (s.vma v).vm_end) where
  abbrev entered : Mm
  entered = record s {
    vma = store s.vma v (record (s.vma v) { vm_mm = some s.self });
    links = list_add_after (last mmap_list pre) v s.links;
    map_count = s.map_count + 1;
  }

  entered-Inv : Apart s.vma (s.vma v) (pre ++ post) → Inv entered (pre ++ v ∷ post)
  entered-Inv a = record {
    ring = list_add_after-Ring s.links mmap_list v pre post i.ring nz fresh;
    ordered =
        Ordered-same s.vma v _ 0 (pre ++ v ∷ post) refl refl
          (Ordered-insert s.vma 0 v pre post h (omega arith) below above a i.ordered);
    cache = CacheIn-insert s.mmap_cache pre v post i.cache;
    counted = omega (arith, i.counted, length-append pre (v ∷ post), length-append pre post);
  }

  place :
      Side s.vma (s.vma v) pre (
        if last mmap_list pre == mmap_list
        then ok tt
        else check_vma_overlap (s.vma (last mmap_list pre)) (s.vma v))
      → Side s.vma (s.vma v) post (
          if first post mmap_list == mmap_list
          then ok tt
          else check_vma_overlap (s.vma v) (s.vma (first post mmap_list)))
      → Inserted s v (pre ++ post) (insert_vma_struct fuel v s)
  unfolding insert_vma_struct
  place l r =
      rw
        (
          lt_test (s.vma v).vm_start (s.vma v).vm_end h,
          found,
          next-last s.links mmap_list pre post mmap_list i.ring.linked,
        )
        (decide l r)
    where
      decide :
          Side s.vma (s.vma v) pre (
            if last mmap_list pre == mmap_list
            then ok tt
            else check_vma_overlap (s.vma (last mmap_list pre)) (s.vma v))
          → Side s.vma (s.vma v) post (
              if first post mmap_list == mmap_list
              then ok tt
              else check_vma_overlap (s.vma v) (s.vma (first post mmap_list)))
          → Inserted s v (pre ++ post) (
              (if last mmap_list pre == mmap_list
                then ok tt
                else check_vma_overlap (s.vma (last mmap_list pre)) (s.vma v))
              >>= λ _.
                  (if first post mmap_list == mmap_list
                    then ok tt
                    else check_vma_overlap (s.vma v) (s.vma (first post mmap_list)))
                  >>= λ _. ok entered)
      decide (inl (p, e)) (inl (q, f)) =
          rw (e, f)
            (accepted pre post entered (h, Apart-join s.vma (s.vma v) pre post p q) refl
              (entered-Inv (Apart-join s.vma (s.vma v) pre post p q)) (ground arith))
      decide (inl (p, e)) (inr (q, f)) =
          rw (e, f) (rejected (λ w. q (Apart-right s.vma (s.vma v) pre post w.1)))
      decide (inr (p, e)) r' = rw e (rejected (λ w. p (Apart-left s.vma (s.vma v) pre post w.1)))

-- The two parts of an ordered sequence; the second lies above some bound.
Ordered-cut :
    (m : ℕ → Vma) (lo : ℕ) (xs ys : List ℕ)
    → Ordered m lo (xs ++ ys)
    → Ordered m lo xs × (hi : ℕ) × Ordered m hi ys
Ordered-cut m lo [] ys o = (tt, lo, o)
Ordered-cut m lo (x ∷ xs) ys o =
    let r = Ordered-cut m (m x).vm_end xs ys o.2 in ((o.0, o.1, r.0), r.1, r.2)

Inserted-cut :
    (fuel v : ℕ) (s : Mm) (pre post : List ℕ)
    → Inv s (pre ++ post)
    → v ≢ mmap_list
    → NotIn v (pre ++ post)
    → find_prev fuel (s.vma v).vm_start mmap_list mmap_list s ≡ ok (last mmap_list pre)
    → All (λ x. (s.vma x).vm_start ≤ (s.vma v).vm_start) pre
    → All (λ x. (s.vma v).vm_start < (s.vma x).vm_start) post
    → (s.vma v).vm_start < (s.vma v).vm_end
    → Inserted s v (pre ++ post) (insert_vma_struct fuel v s)
Inserted-cut fuel v s pre post i nz fresh found below above h =
    let n = i.ring.distinct.0 in
    let o = Ordered-cut s.vma 0 pre post i.ordered in
    place fuel v s pre post i nz fresh found below above h
      (check_left s.vma pre (s.vma v) (NotIn-append_left mmap_list pre post n) o.0 below h)
      (check_right s.vma o.1 post (s.vma v) (NotIn-append_right mmap_list pre post n) o.2 above h)

no_area :
    (fuel v : ℕ) (s : Mm)
    → ltb (s.vma v).vm_start (s.vma v).vm_end ≡ false
    → insert_vma_struct fuel v s ≡ panicked
unfolding insert_vma_struct
no_area fuel v s h = rw h

-- For a process whose areas `xs` are ordered, not empty and apart, with fuel for a walk over
-- them, `insert_vma_struct` of an area `v` that is not in the list returns exactly if `v` is not
-- empty and overlaps no area of `xs`: then the areas with `v` among them are ordered and apart
-- again, `map_count` and the cache included, and `v` is unchanged but for `vm_mm`, its owner.
-- Otherwise an assertion fails.
pub insert_vma_struct-Inserted :
    (fuel v : ℕ) (s : Mm) (xs : List ℕ)
    → Inv s xs
    → v ≢ mmap_list
    → NotIn v xs
    → length xs < fuel
    → Inserted s v xs (insert_vma_struct fuel v s)
insert_vma_struct-Inserted fuel v s xs i nz fresh f =
    let (pre, post, e, c) =
      find_prev_lem fuel (s.vma v).vm_start mmap_list 0 s xs f i.ring.distinct.0 i.ring.linked
        i.ordered in
    elim (Bool-cases (ltb (s.vma v).vm_start (s.vma v).vm_end)) [
      | inl t ↦
          subst (λ z. Inserted s v z (insert_vma_struct fuel v s)) (sym c.0)
            (Inserted-cut fuel v s pre post (subst (Inv s) c.0 i) nz (subst (NotIn v) c.0 fresh) e
              c.1 c.2 (ground arith))
      | inr t ↦ rw (no_area fuel v s t) (rejected (λ w. let z = w.0 in ground arith))
    ]
