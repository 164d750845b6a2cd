-- ===== src/Vmm/Place.antt =====
-- The walk and the checks of insert_vma_struct of lab3/kern/mm/vmm.c.
use nku_os_ucore.Common.{
  ℕ, zero, suc, ◌≤◌, ◌<◌, ◌≡◌, ◌⊎◌, inl, inr, refl, ap, false, Bool-cases, ltb, leb, ◌==◌, List, [],
  ◌∷◌, ◌++◌, arith, length, All, ok, panicked, Outcome, if◌then◌else◌,
}
use nku_os_ucore.Common.Distinct.{NotIn, last, first}
use nku_os_ucore.DList.Ring.{Linked}
use nku_os_ucore.Vmm.{Vma, Mm, mmap_list, find_prev, check_vma_overlap}
use nku_os_ucore.Vmm.Areas.{Ordered, Apart}

-- The list at the place of a new area: `pre` starts at or below `start`, `post` above.
abbrev Cut : (ℕ → Vma) → ℕ → List ℕ → List ℕ → List ℕ → Type 0
Cut m start xs pre post =
    (xs ≡ pre ++ post)
    × All (λ x. (m x).vm_start ≤ start) pre
    × All (λ x. start < (m x).vm_start) post

Ordered-All :
    (m : ℕ → Vma) (lo start : ℕ) (xs : List ℕ)
    → start < lo
    → Ordered m lo xs
    → All (λ x. start < (m x).vm_start) xs
Ordered-All m lo start [] h o = tt
Ordered-All m lo start (x ∷ xs) h o =
    (omega (arith, o.0), Ordered-All m (m x).vm_end start xs (omega (arith, o.0, o.1)) o.2)

pub find_prev_lem :
    (fuel start a lo : ℕ) (s : Mm) (xs : List ℕ)
    → length xs < fuel
    → NotIn mmap_list xs
    → Linked s.links a xs mmap_list
    → Ordered s.vma lo xs
    → (pre : List ℕ) × (post : List ℕ) × (find_prev fuel start a a s ≡ ok (last a pre))
      × Cut s.vma start xs pre post
unfolding find_prev
find_prev_lem zero start a lo s xs f n l o = absurd (omega arith)
find_prev_lem (suc f) start a lo s [] fu n l o = ([], [], ground arith, (refl, tt, tt))
find_prev_lem (suc f) start a lo s (x ∷ xs) fu n l o =
    elim (Bool-cases (ltb start (s.vma x).vm_start)) [
      | inl t ↦ (
        [],
        x ∷ xs,
        let z = n.0 in ground arith,
        (
          refl,
          tt,
          (
            ground arith,
            Ordered-All s.vma (s.vma x).vm_end start xs (let z = o.1 in ground arith) o.2,
          ),
        ),
      )
      | inr t ↦
          let (pre, post, e, c) =
            find_prev_lem f start x (s.vma x).vm_end s xs (omega arith) n.1 l.2 o.2 in
          (
            x ∷ pre,
            post,
            let z = n.0 in ground (arith, e),
            (ap (◌∷◌ x) c.0, (ground arith, c.1), c.2),
          )
    ]

pub Ordered-insert :
    (m : ℕ → Vma) (lo v : ℕ) (pre post : List ℕ)
    → (m v).vm_start < (m v).vm_end
    → lo ≤ (m v).vm_start
    → All (λ x. (m x).vm_start ≤ (m v).vm_start) pre
    → All (λ x. (m v).vm_start < (m x).vm_start) post
    → Apart m (m v) (pre ++ post)
    → Ordered m lo (pre ++ post)
    → Ordered m lo (pre ++ v ∷ post)
Ordered-insert m lo v [] [] h k a b c o = (k, h, tt)
Ordered-insert m lo v [] (y ∷ ys) h k a b c o = (k, h, (omega (arith, c.0, b.0, o.1), o.1, o.2))
Ordered-insert m lo v (x ∷ pre) post h k a b c o =
    (o.0, o.1, Ordered-insert m (m x).vm_end v pre post h (omega (arith, c.0, a.0)) a.1 b c.1 o.2)

pub Apart-join :
    (m : ℕ → Vma) (v : Vma) (pre post : List ℕ)
    → Apart m v pre
    → Apart m v post
    → Apart m v (pre ++ post)
Apart-join m v [] post a b = b
Apart-join m v (x ∷ pre) post a b = (a.0, Apart-join m v pre post a.1 b)

pub Apart-left :
    (m : ℕ → Vma) (v : Vma) (pre post : List ℕ) → Apart m v (pre ++ post) → Apart m v pre
Apart-left m v [] post a = tt
Apart-left m v (x ∷ pre) post a = (a.0, Apart-left m v pre post a.1)

pub Apart-right :
    (m : ℕ → Vma) (v : Vma) (pre post : List ℕ) → Apart m v (pre ++ post) → Apart m v post
Apart-right m v [] post a = a
Apart-right m v (x ∷ pre) post a = Apart-right m v pre post a.1

-- What a check against one neighbour comes to, and what it says of all areas on that side.
abbrev pub Side : (ℕ → Vma) → Vma → List ℕ → Outcome (Unit {0}) → Type 0
Side m v xs r = (Apart m v xs × (r ≡ ok tt)) ⊎ ((¬ Apart m v xs) × (r ≡ panicked))

check_last :
    (m : ℕ → Vma) (lo x : ℕ) (xs : List ℕ) (v : Vma)
    → Ordered m lo (x ∷ xs)
    → All (λ y. (m y).vm_start ≤ v.vm_start) (x ∷ xs)
    → v.vm_start < v.vm_end
    → Side m v (x ∷ xs) (check_vma_overlap (m (last x xs)) v)
unfolding check_vma_overlap
check_last m lo x [] v o a h = elim (Bool-cases (leb (m x).vm_end v.vm_start)) [
  | inl t ↦ let z = o.1 in inl ((inl (ground arith), tt), ground arith)
  | inr t ↦ let z = o.1 in inr ((λ b. ground (arith, a.0, b.0)), ground arith)
]
check_last m lo x (y ∷ ys) v o a h = elim (check_last m (m x).vm_end y ys v o.2 a.1 h) [
  | inl (p, e) ↦ inl ((inl (omega (arith, o.2.0, a.1.0)), p), e)
  | inr (n, e) ↦ inr ((λ b. n b.1), e)
]

not_head : (x : ℕ) (xs : List ℕ) → NotIn mmap_list (x ∷ xs) → (last x xs == mmap_list) ≡ false
not_head x [] n = let z = n.0 in ground arith
not_head x (y ∷ ys) n = not_head y ys n.1

pub check_left :
    (m : ℕ → Vma) (pre : List ℕ) (v : Vma)
    → NotIn mmap_list pre
    → Ordered m 0 pre
    → All (λ y. (m y).vm_start ≤ v.vm_start) pre
    → v.vm_start < v.vm_end
    → Side m v pre (
        if last mmap_list pre == mmap_list
        then ok tt
        else check_vma_overlap (m (last mmap_list pre)) v)
check_left m [] v n o a h = inl (tt, refl)
check_left m (x ∷ xs) v n o a h = rw (not_head x xs n) (check_last m 0 x xs v o a h)

Ordered-Apart :
    (m : ℕ → Vma) (lo : ℕ) (v : Vma) (xs : List ℕ) → v.vm_end ≤ lo → Ordered m lo xs → Apart m v xs
Ordered-Apart m lo v [] h o = tt
Ordered-Apart m lo v (x ∷ xs) h o =
    (inr (omega (arith, o.0)), Ordered-Apart m (m x).vm_end v xs (omega (arith, o.0, o.1)) o.2)

pub check_right :
    (m : ℕ → Vma) (lo : ℕ) (post : List ℕ) (v : Vma)
    → NotIn mmap_list post
    → Ordered m lo post
    → All (λ y. v.vm_start < (m y).vm_start) post
    → v.vm_start < v.vm_end
    → Side m v post (
        if first post mmap_list == mmap_list
        then ok tt
        else check_vma_overlap v (m (first post mmap_list)))
unfolding check_vma_overlap
check_right m lo [] v n o a h = inl (tt, refl)
check_right m lo (y ∷ ys) v n o a h = elim (Bool-cases (leb v.vm_end (m y).vm_start)) [
  | inl t ↦
      let z = o.1 in
      inl (
        (inr (ground arith), Ordered-Apart m (m y).vm_end v ys (ground arith) o.2),
        let w = n.0 in ground arith,
      )
  | inr t ↦ let z = o.1 in inr ((λ b. ground (arith, a.0, b.0)), let w = n.0 in ground arith)
]
