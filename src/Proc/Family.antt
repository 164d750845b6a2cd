-- ===== src/Proc/Family.antt =====
-- The children of a process as a sequence, youngest first; Lab5/kern/process/proc.c.
use nku_os_ucore.Common.{
  true, ℕ, ◌≡◌, ◌≢◌, refl, sym, ap, ◌∙◌, subst, List, [], ◌∷◌, arith, All, ◌==◌, if◌then◌else◌,
  Option, none, some,
}
use nku_os_ucore.Common.Distinct.{NotIn, Distinct}
use nku_os_ucore.Proc.{Proc, adopt_before, adopt}

-- From the pointer `o` on the `optr` fields lead through children of `q`, and the `yptr` fields lead
-- back; `young` is before the first.
abbrev pub Chain : (ℕ → Proc) → ℕ → Option ℕ → Option ℕ → List ℕ → Type 0
Chain m q young o [] = o ≡ none
Chain m q young o (c ∷ cs) =
    (o ≡ some c) × ((m c).yptr ≡ young) × ((m c).parent ≡ some q) × Chain m q (some c) (m c).optr cs

abbrev pub Children : (ℕ → Proc) → ℕ → List ℕ → Type 0
Children m q cs = Chain m q none (m q).cptr cs

-- The relations of `c` to its parent and its siblings are the same.
abbrev pub Same : (ℕ → Proc) → (ℕ → Proc) → ℕ → Type 0
Same m m' c =
    ((m' c).yptr ≡ (m c).yptr) × ((m' c).parent ≡ (m c).parent) × ((m' c).optr ≡ (m c).optr)

pub Chain-Same :
    (m m' : ℕ → Proc) (q : ℕ) (young o : Option ℕ) (cs : List ℕ)
    → All (Same m m') cs
    → Chain m q young o cs
    → Chain m' q young o cs
Chain-Same m m' q y o [] s h = h
Chain-Same m m' q y o (c ∷ cs) s h = (
  h.0,
  s.0.0 ∙ h.1,
  s.0.1 ∙ h.2,
  subst (λ z. Chain m' q (some c) z cs) (sym s.0.2)
      (Chain-Same m m' q (some c) (m c).optr cs s.1 h.3),
)

apart_some : (x y : ℕ) → some y ≢ some x → y ≢ x
apart_some x y h e = h (ap some e)

-- What `adopt` writes.
adopt_before-Same :
    (o : Option ℕ) (q p x : ℕ) (m : ℕ → Proc) → x ≢ p → o ≢ some x → Same m (adopt_before o q p m) x
unfolding adopt_before
adopt_before-Same none q p x m n h = (ground arith, ground arith, ground arith)
adopt_before-Same (some y) q p x m n h =
    let d = apart_some x y h in (ground arith, ground arith, ground arith)

pub adopt_before-cptr :
    (o : Option ℕ) (q p x : ℕ) (m : ℕ → Proc)
    → (adopt_before o q p m x).cptr ≡ (if x == q then some p else (m x).cptr)
unfolding adopt_before
adopt_before-cptr none q p x m = ground arith
adopt_before-cptr (some y) q p x m = ground arith

adopt_before-own :
    (o : Option ℕ) (q p : ℕ) (m : ℕ → Proc)
    → o ≢ some p
    → ((adopt_before o q p m p).yptr ≡ none)
      × ((adopt_before o q p m p).parent ≡ (m p).parent)
      × ((adopt_before o q p m p).optr ≡ o)
unfolding adopt_before
adopt_before-own none q p m n = (ground arith, ground arith, ground arith)
adopt_before-own (some y) q p m n =
    let d = apart_some p y n in (ground arith, ground arith, ground arith)

adopt_before-older :
    (q p y : ℕ) (m : ℕ → Proc)
    → y ≢ p
    → ((adopt_before (some y) q p m y).yptr ≡ some p)
      × ((adopt_before (some y) q p m y).parent ≡ (m y).parent)
      × ((adopt_before (some y) q p m y).optr ≡ (m y).optr)
unfolding adopt_before
adopt_before-older q p y m n = (ground arith, ground arith, ground arith)

Same-others :
    (o : Option ℕ) (q p : ℕ) (m : ℕ → Proc) (cs : List ℕ)
    → NotIn p cs
    → All (λ c. o ≢ some c) cs
    → All (Same m (adopt_before o q p m)) cs
Same-others o q p m [] n h = tt
Same-others o q p m (c ∷ cs) n h =
    (adopt_before-Same o q p c m (λ e. n.0 (sym e)) h.0, Same-others o q p m cs n.1 h.1)

equal : (c : ℕ) → (c == c) ≡ true
equal c = ground arith

new_cptr : (o : Option ℕ) (q p : ℕ) (m : ℕ → Proc) → (adopt_before o q p m q).cptr ≡ some p
new_cptr o q p m = adopt_before-cptr o q p q m ∙ rw (equal q) refl

not_some : (p : ℕ) → none ≢ some p
not_some p e = cc

unsome : (x y : ℕ) → x ≢ y → some x ≢ some y
unsome x y n e = n (cc)

others_than : (y : ℕ) (cs : List ℕ) → NotIn y cs → All (λ c. some y ≢ some c) cs
others_than y [] n = tt
others_than y (c ∷ cs) n = (unsome y c n.0, others_than y cs n.1)

-- A process with the parent `q` becomes the first of the children of `q`.
adopt_before-Children :
    (o : Option ℕ) (q p : ℕ) (m : ℕ → Proc) (cs : List ℕ)
    → Distinct (p ∷ cs)
    → (m p).parent ≡ some q
    → Chain m q none o cs
    → Children (adopt_before o q p m) q (p ∷ cs)
adopt_before-Children none q p m [] d h c =
    let w = adopt_before-own none q p m (not_some p) in (new_cptr none q p m, w.0, w.1 ∙ h, w.2)
adopt_before-Children (some y) q p m [] d h c = absurd (not_some y (sym c))
adopt_before-Children none q p m (y ∷ cs) d h c = absurd (not_some y c.0)
adopt_before-Children (some z) q p m (y ∷ cs) d h c =
    subst (λ z. Children (adopt_before (some z) q p m) q (p ∷ y ∷ cs)) (sym (unsome_eq z y c.0))
      (let w = adopt_before-own (some y) q p m (unsome y p (λ e. d.0.0 (sym e))) in
        let v = adopt_before-older q p y m (λ e. d.0.0 (sym e)) in
        (
          new_cptr (some y) q p m,
          w.0,
          w.1 ∙ h,
          (
            w.2,
            v.0,
            v.1 ∙ c.2,
            subst (λ o. Chain (adopt_before (some y) q p m) q (some y) o cs) (sym v.2)
                (Chain-Same m (adopt_before (some y) q p m) q (some y) (m y).optr cs
                  (Same-others (some y) q p m cs d.0.1 (others_than y cs d.1.0)) c.3),
          ),
        ))
  where
    unsome_eq : (a b : ℕ) → some a ≡ some b → a ≡ b
    unsome_eq a b e = cc

pub adopt-Children :
    (q p : ℕ) (m : ℕ → Proc) (cs : List ℕ)
    → Distinct (p ∷ cs)
    → (m p).parent ≡ some q
    → Children m q cs
    → Children (adopt q p m) q (p ∷ cs)
adopt-Children q p m cs d h c = adopt_before-Children (m q).cptr q p m cs d h c

-- The forward half of such a chain.
abbrev pub Older : (ℕ → Proc) → ℕ → Option ℕ → List ℕ → Type 0
Older m q o [] = o ≡ none
Older m q o (c ∷ cs) = (o ≡ some c) × ((m c).parent ≡ some q) × Older m q (m c).optr cs

abbrev pub Ahead : (ℕ → Proc) → (ℕ → Proc) → ℕ → Type 0
Ahead m m' c = ((m' c).parent ≡ (m c).parent) × ((m' c).optr ≡ (m c).optr)

pub Older-Ahead :
    (m m' : ℕ → Proc) (q : ℕ) (o : Option ℕ) (cs : List ℕ)
    → All (Ahead m m') cs
    → Older m q o cs
    → Older m' q o cs
Older-Ahead m m' q o [] s h = h
Older-Ahead m m' q o (c ∷ cs) s h = (
  h.0,
  s.0.0 ∙ h.1,
  subst (λ z. Older m' q z cs) (sym s.0.1) (Older-Ahead m m' q (m c).optr cs s.1 h.2),
)

pub adopt_before-Ahead :
    (o : Option ℕ) (q p x : ℕ) (m : ℕ → Proc) → x ≢ p → Ahead m (adopt_before o q p m) x
unfolding adopt_before
adopt_before-Ahead none q p x m n = (ground arith, ground arith)
adopt_before-Ahead (some y) q p x m n = (ground arith, ground arith)

-- The state of a process, what it waits for and its pid are not touched.
pub adopt_before-state :
    (o : Option ℕ) (q p x : ℕ) (m : ℕ → Proc)
    → ((adopt_before o q p m x).state ≡ (m x).state)
      × ((adopt_before o q p m x).wait_state ≡ (m x).wait_state)
      × ((adopt_before o q p m x).pid ≡ (m x).pid)
unfolding adopt_before
adopt_before-state none q p x m = (ground arith, ground arith, ground arith)
adopt_before-state (some y) q p x m = (ground arith, ground arith, ground arith)
