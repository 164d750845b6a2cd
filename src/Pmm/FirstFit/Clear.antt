-- ===== src/Pmm/FirstFit/Clear.antt =====
-- The loop of default_free_pages, lab2/kern/mm/default_pmm.c, that clears the released pages.
use nku_os_ucore.Common.{
  ℕ, zero, suc, ◌+◌, ◌≤◌, ◌<◌, ◌≡◌, inl, inr, refl, ◌∙◌, List, [], ◌∷◌, false, arith, ok, All,
}
use nku_os_ucore.Pmm.{Page, store, cleared}
use nku_os_ucore.Pmm.Blocks.{Sorted, Clear, total, is_free}
use nku_os_ucore.Pmm.FirstFit.{clear_pages}

-- None of the `n` pages from `p` on is reserved or the head of a free block.
abbrev pub Loose : (ℕ → Page) → ℕ → ℕ → Type 0
Loose m p zero = Unit {0}
Loose m p (suc k) = ((m p).reserved ≡ false) × ((m p).head ≡ false) × Loose m (p + 1) k

pub Loose-store :
    (m : ℕ → Page) (a : ℕ) (v : Page) (p k : ℕ) → a < p → Loose m p k → Loose (store m a v) p k
Loose-store m a v p zero h l = tt
Loose-store m a v p (suc k) h l = ground (arith, Loose-store m a v (p + 1) k (omega arith) l.2)

-- The loop ends, and leaves every page outside the range, and every `property`, as it was.
pub record ClearedTo (m : ℕ → Page) (p n : ℕ) (m' : ℕ → Page) : Type 0 where
  pub below : (x : ℕ) → x < p → m' x ≡ m x
  pub above : (x : ℕ) → p + n ≤ x → m' x ≡ m x

pub clear_pages_lem :
    (n p : ℕ) (m : ℕ → Page)
    → Loose m p n
    → (m' : ℕ → Page) × (clear_pages n p m ≡ ok m') × ClearedTo m p n m'
unfolding clear_pages
clear_pages_lem zero p m l = (m, refl, record { below = λ x h. refl; above = λ x h. refl })
clear_pages_lem (suc k) p m l =
    let m1 = store m p (cleared (m p)) in
    let (m', e, c) = clear_pages_lem k (p + 1) m1 (Loose-store m p _ (p + 1) k (omega arith) l.2) in
    (
      m',
      rw (l.0, l.1) e,
      record {
        below = λ x h. c.below x (omega arith) ∙ (ground arith);
        above = λ x h. c.above x (omega arith) ∙ (ground arith);
      },
    )

-- Blocks keep their place in an array that differs only where they are not.
abbrev pub Agree : (ℕ → Page) → (ℕ → Page) → List ℕ → Type 0
Agree m m' xs = All (λ x. m' x ≡ m x) xs

pub ClearedTo-Agree :
    (m m' : ℕ → Page) (p n lo : ℕ) (xs : List ℕ)
    → ClearedTo m p n m'
    → Sorted m lo xs
    → Clear m p n xs
    → Agree m m' xs
ClearedTo-Agree m m' p n lo [] c s d = tt
ClearedTo-Agree m m' p n lo (x ∷ xs) c s d = (
  elim d.0 [ inl h ↦ c.below x (omega arith) | inr h ↦ c.above x h ],
  ClearedTo-Agree m m' p n (x + (m x).property) xs c s.3 d.1,
)

pub Agree-Sorted :
    (m m' : ℕ → Page) (lo : ℕ) (xs : List ℕ) → Agree m m' xs → Sorted m lo xs → Sorted m' lo xs
Agree-Sorted m m' lo [] a s = tt
Agree-Sorted m m' lo (x ∷ xs) a s =
    rw a.0 (s.0, s.1, s.2, Agree-Sorted m m' (x + (m x).property) xs a.1 s.3)

pub Agree-total : (m m' : ℕ → Page) (xs : List ℕ) → Agree m m' xs → total m' xs ≡ total m xs
Agree-total m m' [] a = refl
Agree-total m m' (x ∷ xs) a = rw (a.0, Agree-total m m' xs a.1)

pub Agree-is_free :
    (m m' : ℕ → Page) (xs : List ℕ) (q : ℕ) → Agree m m' xs → is_free m' xs q ≡ is_free m xs q
Agree-is_free m m' [] q a = refl
Agree-is_free m m' (x ∷ xs) q a = rw (a.0, Agree-is_free m m' xs q a.1)

pub Agree-Clear :
    (m m' : ℕ → Page) (p n : ℕ) (xs : List ℕ) → Agree m m' xs → Clear m p n xs → Clear m' p n xs
Agree-Clear m m' p n [] a c = tt
Agree-Clear m m' p n (x ∷ xs) a c = rw a.0 (c.0, Agree-Clear m m' p n xs a.1 c.1)
