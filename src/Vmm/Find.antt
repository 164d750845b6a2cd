-- ===== src/Vmm/Find.antt =====
-- What find_vma of lab3/kern/mm/vmm.c finds.
use nku_os_ucore.Common.{
  ℕ, zero, suc, ◌≤◌, ◌<◌, ◌≡◌, ◌⊎◌, inl, inr, refl, sym, subst, true, false, Bool-cases, List, [],
  ◌∷◌, Option, none, some, arith, length, All, ok,
}
use nku_os_ucore.Common.Distinct.{NotIn}
use nku_os_ucore.DList.Ring.{Linked}
use nku_os_ucore.Vmm.{Vma, Mm, mmap_list, holds, find_loop, find_vma, cached, remember}
use nku_os_ucore.Vmm.Areas.{Ordered, IsIn, CacheIn, Inv, Ordered-above}

-- `r` is the one area that holds `addr`, or null if there is none.
abbrev pub Holds : (ℕ → Vma) → List ℕ → ℕ → Option ℕ → Type 0
Holds m xs addr none = All (λ x. holds (m x) addr ≡ false) xs
Holds m xs addr (some p) =
    IsIn p xs × (holds (m p) addr ≡ true) × All (λ x. (x ≡ p) ⊎ (holds (m x) addr ≡ false)) xs

All-of_false :
    (m : ℕ → Vma) (p addr : ℕ) (xs : List ℕ)
    → All (λ x. holds (m x) addr ≡ false) xs
    → All (λ x. (x ≡ p) ⊎ (holds (m x) addr ≡ false)) xs
All-of_false m p addr [] a = tt
All-of_false m p addr (x ∷ xs) a = (inr a.0, All-of_false m p addr xs a.1)

Holds-here :
    (m : ℕ → Vma) (lo x addr : ℕ) (xs : List ℕ)
    → Ordered m lo (x ∷ xs)
    → holds (m x) addr ≡ true
    → Holds m (x ∷ xs) addr (some x)
Holds-here m lo x addr xs o h = (
  inl refl,
  h,
  (inl refl, All-of_false m x addr xs (Ordered-above m (m x).vm_end addr xs (ground arith) o.2)),
)

Holds-there :
    (m : ℕ → Vma) (x addr : ℕ) (xs : List ℕ) (r : Option ℕ)
    → holds (m x) addr ≡ false
    → Holds m xs addr r
    → Holds m (x ∷ xs) addr r
Holds-there m x addr xs none h k = (h, k)
Holds-there m x addr xs (some p) h k = (inr k.0, k.1, (inr h, k.2))

find_loop_lem :
    (fuel addr a lo : ℕ) (s : Mm) (xs : List ℕ)
    → length xs < fuel
    → NotIn mmap_list xs
    → Linked s.links a xs mmap_list
    → Ordered s.vma lo xs
    → (r : Option ℕ) × (find_loop fuel addr a s ≡ ok r) × Holds s.vma xs addr r
unfolding find_loop
find_loop_lem zero addr a lo s xs f n l o = absurd (omega arith)
find_loop_lem (suc f) addr a lo s [] fu n l o = (none, ground arith, tt)
find_loop_lem (suc f) addr a lo s (x ∷ xs) fu n l o = elim (Bool-cases (holds (s.vma x) addr)) [
  | inl t ↦ (some x, let z = n.0 in ground arith, Holds-here s.vma lo x addr xs o t)
  | inr t ↦
      let (r, e, h) = find_loop_lem f addr x (s.vma x).vm_end s xs (omega arith) n.1 l.2 o.2 in
      (r, let z = n.0 in ground (arith, e), Holds-there s.vma x addr xs r t h)
]

IsIn-start :
    (m : ℕ → Vma) (lo p : ℕ) (xs : List ℕ) → Ordered m lo xs → IsIn p xs → lo ≤ (m p).vm_start
IsIn-start m lo p [] o i = elim i [ ]
IsIn-start m lo p (x ∷ xs) o (inl e) = rw e o.0
IsIn-start m lo p (x ∷ xs) o (inr i) = omega (arith, IsIn-start m (m x).vm_end p xs o.2 i, o.0, o.1)

-- An area of the list that holds `addr` is the only one.
Holds-IsIn :
    (m : ℕ → Vma) (lo p addr : ℕ) (xs : List ℕ)
    → Ordered m lo xs
    → IsIn p xs
    → holds (m p) addr ≡ true
    → Holds m xs addr (some p)
Holds-IsIn m lo p addr [] o i h = elim i [ ]
Holds-IsIn m lo p addr (x ∷ xs) o (inl e) h =
    subst (λ z. Holds m (x ∷ xs) addr (some z)) (sym e)
      (Holds-here m lo x addr xs o (subst (λ z. holds (m z) addr ≡ true) e h))
Holds-IsIn m lo p addr (x ∷ xs) o (inr i) h =
    let low = IsIn-start m (m x).vm_end p xs o.2 i in
    Holds-there m x addr xs (some p) (ground arith) (Holds-IsIn m (m x).vm_end p addr xs o.2 i h)

-- The cache is only a shortcut.
cached-Holds :
    (s : Mm) (xs : List ℕ) (addr : ℕ) (c : Option ℕ)
    → Ordered s.vma 0 xs
    → CacheIn c xs
    → (elim c [ none ↦ false | some p ↦ holds (s.vma p) addr ]) ≡ true
    → Holds s.vma xs addr c
cached-Holds s xs addr none o i h = cc
cached-Holds s xs addr (some p) o i h = Holds-IsIn s.vma 0 p addr xs o i h

Holds-CacheIn :
    (m : ℕ → Vma) (xs : List ℕ) (addr : ℕ) (r : Option ℕ) → Holds m xs addr r → CacheIn r xs
Holds-CacheIn m xs addr none h = tt
Holds-CacheIn m xs addr (some p) h = h.0

remember-Inv :
    (s : Mm) (xs : List ℕ) (addr : ℕ) (r : Option ℕ)
    → Inv s xs
    → Holds s.vma xs addr r
    → Inv (remember r s) xs
remember-Inv s xs addr none v h = v
remember-Inv s xs addr (some p) v h = record {
  ring = v.ring;
  ordered = v.ordered;
  cache = h.0;
  counted = v.counted;
}

-- For a process whose areas `xs` are ordered, not empty and apart, and whose cache holds null or
-- one of them, with fuel for a walk over them, `find_vma` returns the one area of `xs` that holds
-- `addr` (from its start up to, but without, its end), or null if there is none; it writes the
-- area that it found to the cache, and the process stays well-formed.
pub find_vma-Holds :
    (fuel : ℕ) (s : Mm) (xs : List ℕ) (addr : ℕ)
    → Inv s xs
    → length xs < fuel
    → (r : Option ℕ) × (find_vma fuel (some s) addr ≡ ok (r, some (remember r s)))
      × Holds s.vma xs addr r
      × Inv (remember r s) xs
unfolding find_vma
find_vma-Holds fuel s xs addr v f = elim (Bool-cases (cached s addr)) [
  | inl hit ↦
      let h = cached-Holds s xs addr s.mmap_cache v.ordered v.cache hit in
      (s.mmap_cache, rw hit, h, remember-Inv s xs addr s.mmap_cache v h)
  | inr miss ↦
      let (r, e, h) =
        find_loop_lem fuel addr mmap_list 0 s xs f v.ring.distinct.0 v.ring.linked v.ordered in
      (r, rw (miss, e), h, remember-Inv s xs addr r v h)
]
