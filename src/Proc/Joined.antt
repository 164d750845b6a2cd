-- ===== src/Proc/Joined.antt =====
-- The writes of disown to the siblings, Lab5/kern/process/proc.c.
use nku_os_ucore.Common.{
  ℕ, ◌≡◌, ◌≢◌, refl, sym, ap, ◌∙◌, subst, List, [], ◌∷◌, arith, All, Option, none, some,
}
use nku_os_ucore.Proc.{Proc, set_yptr, close_gap, disown}
use nku_os_ucore.Proc.Family.{Chain}

-- What the writes of `disown` are: the neighbours of `p` are joined.
pub record Joined (p : ℕ) (m m' : ℕ → Proc) : Type 0 where
  pub older : (y : ℕ) → (m p).optr ≡ some y → (m' y).yptr ≡ (m p).yptr
  pub yptr : (x : ℕ) → (m p).optr ≢ some x → (m' x).yptr ≡ (m x).yptr
  pub younger : (x : ℕ) → (m p).yptr ≡ some x → (m' x).optr ≡ (m p).optr
  pub optr : (x : ℕ) → (m p).yptr ≢ some x → (m' x).optr ≡ (m x).optr
  pub parent : (x : ℕ) → (m' x).parent ≡ (m x).parent

-- The writes, by the two neighbours.
pub between : Option ℕ → Option ℕ → ℕ → (ℕ → Proc) → ℕ → Proc
between older younger q m = close_gap younger older q (set_yptr older younger m)

pub some-eq : (x y : ℕ) → some x ≡ some y → x ≡ y
some-eq x y e = cc

unsome : (x y : ℕ) → some x ≢ some y → x ≢ y
unsome x y n e = n (ap some e)

between-yptr_at :
    (o y : Option ℕ) (q z : ℕ) (m : ℕ → Proc) → o ≡ some z → (between o y q m z).yptr ≡ y
unfolding between
between-yptr_at none y q z m e = cc
between-yptr_at (some w) none q z m e = let d = some-eq w z e in ground arith
between-yptr_at (some w) (some v) q z m e = let d = some-eq w z e in ground arith

between-yptr :
    (o y : Option ℕ) (q x : ℕ) (m : ℕ → Proc) → o ≢ some x → (between o y q m x).yptr ≡ (m x).yptr
unfolding between
between-yptr none none q x m n = ground arith
between-yptr none (some v) q x m n = ground arith
between-yptr (some w) none q x m n = let d = unsome w x n in ground arith
between-yptr (some w) (some v) q x m n = let d = unsome w x n in ground arith

between-optr_at :
    (o y : Option ℕ) (q z : ℕ) (m : ℕ → Proc) → y ≡ some z → (between o y q m z).optr ≡ o
unfolding between
between-optr_at o none q z m e = cc
between-optr_at none (some v) q z m e = let d = some-eq v z e in ground arith
between-optr_at (some w) (some v) q z m e = let d = some-eq v z e in ground arith

between-optr :
    (o y : Option ℕ) (q x : ℕ) (m : ℕ → Proc) → y ≢ some x → (between o y q m x).optr ≡ (m x).optr
unfolding between
between-optr none none q x m n = ground arith
between-optr (some w) none q x m n = ground arith
between-optr none (some v) q x m n = let d = unsome v x n in ground arith
between-optr (some w) (some v) q x m n = let d = unsome v x n in ground arith

between-parent :
    (o y : Option ℕ) (q x : ℕ) (m : ℕ → Proc) → (between o y q m x).parent ≡ (m x).parent
unfolding between
between-parent none none q x m = ground arith
between-parent (some w) none q x m = ground arith
between-parent none (some v) q x m = ground arith
between-parent (some w) (some v) q x m = ground arith

-- The first child, after the process has left.
pub between-cptr :
    (o y : Option ℕ) (q : ℕ) (m : ℕ → Proc)
    → (between o y q m q).cptr ≡ elim y [ none ↦ o | some v ↦ (m q).cptr ]
unfolding between
between-cptr o none q m = ground arith
between-cptr none (some v) q m = ground arith
between-cptr (some w) (some v) q m = ground arith

-- `disown` makes these writes.
pub disown-between :
    (q p : ℕ) (m : ℕ → Proc)
    → (m p).optr ≢ some p
    → disown q p m ≡ between (m p).optr (m p).yptr q m
unfolding disown between
disown-between q p m n =
    ap (λ (y : Option ℕ). close_gap y (m1 p).optr q m1) (same_yptr (m p).optr n)
    ∙ ap (λ (o : Option ℕ). close_gap (m p).yptr o q m1) (same_optr (m p).optr)
  where
    m1 : ℕ → Proc
    m1 = set_yptr (m p).optr (m p).yptr m

    same_yptr : (o : Option ℕ) → o ≢ some p → (set_yptr o (m p).yptr m p).yptr ≡ (m p).yptr
    same_yptr none h = refl
    same_yptr (some w) h = let d = unsome w p h in ground arith

    same_optr : (o : Option ℕ) → (set_yptr o (m p).yptr m p).optr ≡ (m p).optr
    same_optr none = refl
    same_optr (some w) = ground arith

pub disown-Joined : (q p : ℕ) (m : ℕ → Proc) → (m p).optr ≢ some p → Joined p m (disown q p m)
disown-Joined q p m n = subst (Joined p m) (sym (disown-between q p m n)) (record {
  older = λ y e. between-yptr_at (m p).optr (m p).yptr q y m e;
  yptr = λ x h. between-yptr (m p).optr (m p).yptr q x m h;
  younger = λ x e. between-optr_at (m p).optr (m p).yptr q x m e;
  optr = λ x h. between-optr (m p).optr (m p).yptr q x m h;
  parent = λ x. between-parent (m p).optr (m p).yptr q x m;
})

-- Beyond the older sibling nothing changes.
pub Joined-far :
    (p q : ℕ) (m m' : ℕ → Proc) (y o : Option ℕ) (zs : List ℕ)
    → Joined p m m'
    → All (λ z. (m p).optr ≢ some z) zs
    → All (λ z. (m p).yptr ≢ some z) zs
    → Chain m q y o zs
    → Chain m' q y o zs
Joined-far p q m m' y o [] j a b c = c
Joined-far p q m m' y o (z ∷ zs) j a b c = (
  c.0,
  j.yptr z a.0 ∙ c.1,
  j.parent z ∙ c.2,
  subst (λ w. Chain m' q (some z) w zs) (sym (j.optr z b.0))
      (Joined-far p q m m' (some z) (m z).optr zs j a.1 b.1 c.3),
)
