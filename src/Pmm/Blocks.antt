-- ===== src/Pmm/Blocks.antt =====
-- The free area seen as a sequence of blocks, and its invariant.
use nku_os_ucore.Common.{
  ℕ, ◌+◌, ◌^◌, ◌≤◌, ◌<◌, ◌≡◌, ◌⊎◌, inl, refl, Bool, true, false, ◌&&◌, ◌||◌, ltb, leb, List, [],
  ◌∷◌, ◌++◌, arith, All,
}
use nku_os_ucore.Common.Distinct.{NotIn}
use nku_os_ucore.DList.Ring.{Ring}
use nku_os_ucore.Pmm.{Page, FreeArea, store, free_list}

-- Above `lo` the blocks rise, none touches the next or `lo`, none is empty, and each is marked.
abbrev pub Sorted : (ℕ → Page) → ℕ → List ℕ → Type 0
Sorted m lo [] = Unit {0}
Sorted m lo (x ∷ xs) =
    (lo < x) × (0 < (m x).property) × ((m x).head ≡ true) × Sorted m (x + (m x).property) xs

abbrev pub total : (ℕ → Page) → List ℕ → ℕ
total m [] = 0
total m (x ∷ xs) = (m x).property + total m xs

-- Every block lies outside the pages `p` to `p + n`.
abbrev pub Clear : (ℕ → Page) → ℕ → ℕ → List ℕ → Type 0
Clear m p n [] = Unit {0}
Clear m p n (x ∷ xs) = ((x + (m x).property ≤ p) ⊎ (p + n ≤ x)) × Clear m p n xs

-- The free area holds the blocks that begin at `xs`, and counts their pages.
pub record Inv (s : FreeArea) (xs : List ℕ) : Type 0 where
  pub ring : Ring s.links free_list xs
  pub sorted : Sorted s.page 0 xs
  pub counted : s.nr_free ≡ total s.page xs
  pub small : total s.page xs < 2 ^ 32

pub Sorted-NotIn : (m : ℕ → Page) (lo a : ℕ) (xs : List ℕ) → a ≤ lo → Sorted m lo xs → NotIn a xs
Sorted-NotIn m lo a [] h s = tt
Sorted-NotIn m lo a (x ∷ xs) h s =
    (omega arith, Sorted-NotIn m (x + (m x).property) a xs (omega arith) s.3)

pub Sorted-mono :
    (m : ℕ → Page) (lo lo' : ℕ) (xs : List ℕ) → lo' ≤ lo → Sorted m lo xs → Sorted m lo' xs
Sorted-mono m lo lo' [] h s = tt
Sorted-mono m lo lo' (x ∷ xs) h s = (omega arith, s.1, s.2, s.3)

pub Sorted-store :
    (m : ℕ → Page) (a : ℕ) (v : Page) (lo : ℕ) (xs : List ℕ)
    → NotIn a xs
    → Sorted m lo xs
    → Sorted (store m a v) lo xs
Sorted-store m a v lo [] h s = tt
Sorted-store m a v lo (x ∷ xs) h s =
    ground (arith, Sorted-store m a v (x + (m x).property) xs h.1 s.3)

pub total-store :
    (m : ℕ → Page) (a : ℕ) (v : Page) (xs : List ℕ)
    → NotIn a xs
    → total (store m a v) xs ≡ total m xs
total-store m a v [] h = refl
total-store m a v (x ∷ xs) h = ground (arith, total-store m a v xs h.1)

pub Clear-store :
    (m : ℕ → Page) (a : ℕ) (v : Page) (p n : ℕ) (xs : List ℕ)
    → NotIn a xs
    → Clear m p n xs
    → Clear (store m a v) p n xs
Clear-store m a v p n [] h s = tt
Clear-store m a v p n (x ∷ xs) h s = ground (arith, Clear-store m a v p n xs h.1 s.1)

pub Sorted-Clear :
    (m : ℕ → Page) (lo p n : ℕ) (xs : List ℕ) → p + n ≤ lo → Sorted m lo xs → Clear m p n xs
Sorted-Clear m lo p n [] h s = tt
Sorted-Clear m lo p n (x ∷ xs) h s =
    (omega arith, Sorted-Clear m (x + (m x).property) p n xs (omega arith) s.3)

pub total-append : (m : ℕ → Page) (xs ys : List ℕ) → total m (xs ++ ys) ≡ total m xs + total m ys
total-append m [] ys = omega arith
total-append m (x ∷ xs) ys = omega (arith, total-append m xs ys)

-- The tail of a sorted sequence behind a block, and the block itself.
pub Sorted-middle :
    (m : ℕ → Page) (lo : ℕ) (xs : List ℕ) (p : ℕ) (ys : List ℕ)
    → Sorted m lo (xs ++ p ∷ ys)
    → (lo < p)
      × (0 < (m p).property)
      × ((m p).head ≡ true)
      × Sorted m (p + (m p).property) ys
      × Clear m p (m p).property xs
Sorted-middle m lo [] p ys s = (s.0, s.1, s.2, s.3, tt)
Sorted-middle m lo (x ∷ xs) p ys s =
    let r = Sorted-middle m (x + (m x).property) xs p ys s.3 in
    (omega arith, r.1, r.2, r.3, (inl (omega arith), r.4))

-- Taking a block out, or shrinking it to a part `q` of its pages, leaves a sorted sequence.
pub Sorted-remove :
    (m : ℕ → Page) (lo : ℕ) (xs : List ℕ) (p : ℕ) (ys : List ℕ)
    → Sorted m lo (xs ++ p ∷ ys)
    → Sorted m lo (xs ++ ys)
Sorted-remove m lo [] p ys s = Sorted-mono m (p + (m p).property) lo ys (omega arith) s.3
Sorted-remove m lo (x ∷ xs) p ys s =
    (s.0, s.1, s.2, Sorted-remove m (x + (m x).property) xs p ys s.3)

pub Sorted-shrink :
    (m : ℕ → Page) (lo : ℕ) (xs : List ℕ) (p q : ℕ) (ys : List ℕ)
    → p ≤ q
    → q + (m q).property ≤ p + (m p).property
    → 0 < (m q).property
    → (m q).head ≡ true
    → Sorted m lo (xs ++ p ∷ ys)
    → Sorted m lo (xs ++ q ∷ ys)
Sorted-shrink m lo [] p q ys a b c d s =
    (omega arith, c, d, Sorted-mono m (p + (m p).property) (q + (m q).property) ys b s.3)
Sorted-shrink m lo (x ∷ xs) p q ys a b c d s =
    (s.0, s.1, s.2, Sorted-shrink m (x + (m x).property) xs p q ys a b c d s.3)

-- No block begins inside another.
pub Sorted-NotIn_inside :
    (m : ℕ → Page) (lo : ℕ) (xs : List ℕ) (p q : ℕ) (ys : List ℕ)
    → p < q
    → q < p + (m p).property
    → Sorted m lo (xs ++ p ∷ ys)
    → NotIn q (xs ++ p ∷ ys)
Sorted-NotIn_inside m lo [] p q ys a b s =
    (omega arith, Sorted-NotIn m (p + (m p).property) q ys (omega arith) s.3)
Sorted-NotIn_inside m lo (x ∷ xs) p q ys a b s =
    let r = Sorted-middle m (x + (m x).property) xs p ys s.3 in
    (omega arith, Sorted-NotIn_inside m (x + (m x).property) xs p q ys a b s.3)

pub Clear-append :
    (m : ℕ → Page) (p n : ℕ) (xs ys : List ℕ)
    → Clear m p n xs
    → Clear m p n ys
    → Clear m p n (xs ++ ys)
Clear-append m p n [] ys h k = k
Clear-append m p n (x ∷ xs) ys h k = (h.0, Clear-append m p n xs ys h.1 k)

-- A part of a cleared range is clear.
pub Clear-mono : (m : ℕ → Page) (p n k : ℕ) (xs : List ℕ) → n ≤ k → Clear m p k xs → Clear m p n xs
Clear-mono m p n k [] h c = tt
Clear-mono m p n k (x ∷ xs) h c = (omega arith, Clear-mono m p n k xs h c.1)

-- Where the last of the blocks ends, or `lo`.
abbrev pub reach : (ℕ → Page) → ℕ → List ℕ → ℕ
reach m lo [] = lo
reach m lo (x ∷ xs) = reach m (x + (m x).property) xs

pub Sorted-join :
    (m : ℕ → Page) (lo : ℕ) (xs ys : List ℕ)
    → Sorted m lo xs
    → Sorted m (reach m lo xs) ys
    → Sorted m lo (xs ++ ys)
Sorted-join m lo [] ys s t = t
Sorted-join m lo (x ∷ xs) ys s t = (s.0, s.1, s.2, Sorted-join m (x + (m x).property) xs ys s.3 t)

pub Sorted-split :
    (m : ℕ → Page) (lo : ℕ) (xs ys : List ℕ)
    → Sorted m lo (xs ++ ys)
    → Sorted m lo xs × Sorted m (reach m lo xs) ys
Sorted-split m lo [] ys s = (tt, s)
Sorted-split m lo (x ∷ xs) ys s =
    let r = Sorted-split m (x + (m x).property) xs ys s.3 in ((s.0, s.1, s.2, r.0), r.1)

pub reach-append :
    (m : ℕ → Page) (lo : ℕ) (xs : List ℕ) (a : ℕ) → reach m lo (xs ++ a ∷ []) ≡ a + (m a).property
reach-append m lo [] a = refl
reach-append m lo (x ∷ xs) a = reach-append m (x + (m x).property) xs a

pub reach-store :
    (m : ℕ → Page) (a : ℕ) (v : Page) (lo : ℕ) (xs : List ℕ)
    → NotIn a xs
    → reach (store m a v) lo xs ≡ reach m lo xs
reach-store m a v lo [] h = refl
reach-store m a v lo (x ∷ xs) h =
    let e : (store m a v x).property ≡ (m x).property = ground arith in
    rw e (reach-store m a v (x + (m x).property) xs h.1)

-- Sorted above `lo`, but the first block may touch `lo`.
abbrev pub Touching : (ℕ → Page) → ℕ → List ℕ → Type 0
Touching m lo [] = Unit {0}
Touching m lo (x ∷ xs) =
    (lo ≤ x) × (0 < (m x).property) × ((m x).head ≡ true) × Sorted m (x + (m x).property) xs

pub Touching-store :
    (m : ℕ → Page) (a : ℕ) (v : Page) (lo : ℕ) (xs : List ℕ)
    → NotIn a xs
    → Touching m lo xs
    → Touching (store m a v) lo xs
Touching-store m a v lo [] h s = tt
Touching-store m a v lo (x ∷ xs) h s =
    ground (arith, Sorted-store m a v (x + (m x).property) xs h.1 s.3)

-- Whether page `q` lies in a free block.
abbrev pub in_range : ℕ → ℕ → ℕ → Bool
in_range p n q = leb p q && ltb q (p + n)

abbrev pub is_free : (ℕ → Page) → List ℕ → ℕ → Bool
is_free m [] q = false
is_free m (x ∷ xs) q = in_range x (m x).property q || is_free m xs q

pub is_free-append :
    (m : ℕ → Page) (xs ys : List ℕ) (q : ℕ)
    → is_free m (xs ++ ys) q ≡ (is_free m xs q || is_free m ys q)
is_free-append m [] ys q = refl
is_free-append m (x ∷ xs) ys q = ground (arith, is_free-append m xs ys q)

pub is_free-store :
    (m : ℕ → Page) (a : ℕ) (v : Page) (xs : List ℕ) (q : ℕ)
    → NotIn a xs
    → is_free (store m a v) xs q ≡ is_free m xs q
is_free-store m a v [] q h = refl
is_free-store m a v (x ∷ xs) q h =
    let e : (store m a v x).property ≡ (m x).property = ground arith in
    rw (e, is_free-store m a v xs q h.1)

-- No page of a range is free where every block lies outside.
pub Clear-is_free :
    (m : ℕ → Page) (p n : ℕ) (xs : List ℕ) (q : ℕ)
    → Clear m p n xs
    → (is_free m xs q && in_range p n q) ≡ false
Clear-is_free m p n [] q c = refl
Clear-is_free m p n (x ∷ xs) q c = ground (arith, Clear-is_free m p n xs q c.1)

pub small_of_total :
    (m : ℕ → Page) (n : ℕ) (xs : List ℕ) → total m xs < n → All (λ x. (m x).property < n) xs
small_of_total m n [] h = tt
small_of_total m n (x ∷ xs) h = (omega arith, small_of_total m n xs (omega arith))
