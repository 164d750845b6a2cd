-- ===== src/Proc/Leave.antt =====
-- remove_links of Lab5/kern/process/proc.c takes a process out of the chain of its siblings.
use nku_os_ucore.Common.{
  ℕ, ◌≡◌, ◌≢◌, refl, sym, ap, ◌∙◌, subst, List, [], ◌∷◌, ◌++◌, arith, All, Option, none, some,
}
use nku_os_ucore.Common.Distinct.{last, NotIn, Distinct, NotIn-append_right, Distinct-middle}
use nku_os_ucore.Proc.{Proc, set_yptr, close_gap, disown}
use nku_os_ucore.Proc.Family.{Chain, Children}
use nku_os_ucore.Proc.Joined.{
  Joined, some-eq, between-cptr, disown-between, disown-Joined, Joined-far,
}

-- The older siblings of `p`, behind its younger one.
Joined-older :
    (p q : ℕ) (m m' : ℕ → Proc) (ys : List ℕ)
    → Joined p m m'
    → Distinct ys
    → All (λ z. (m p).yptr ≢ some z) ys
    → Chain m q (some p) (m p).optr ys
    → Chain m' q (m p).yptr (m p).optr ys
Joined-older p q m m' [] j d a c = c
Joined-older p q m m' (y ∷ ys) j d a c = (
  c.0,
  j.older y c.0,
  j.parent y ∙ c.2,
  subst (λ w. Chain m' q (some y) w ys) (sym (j.optr y a.0))
      (Joined-far p q m m' (some y) (m y).optr ys j (others ys d.0) a.1 c.3),
)
  where
    others : (zs : List ℕ) → NotIn y zs → All (λ z. (m p).optr ≢ some z) zs
    others [] n = tt
    others (z ∷ zs) n = ((λ e. n.0 (some-eq y z (sym c.0 ∙ e))), others zs n.1)

Chain-start :
    (m : ℕ → Proc) (q : ℕ) (y o : Option ℕ) (x : ℕ) (zs : List ℕ)
    → NotIn x zs
    → Chain m q y o zs
    → o ≢ some x
Chain-start m q y o x [] n c e = cc (sym c ∙ e)
Chain-start m q y o x (z ∷ zs) n c e = n.0 (some-eq x z (sym e ∙ c.0))

-- The younger sibling of `p`, and the chain of the older ones.
Chain-at :
    (m : ℕ → Proc) (q p : ℕ) (y o : Option ℕ) (xs ys : List ℕ)
    → Chain m q y o (xs ++ p ∷ ys)
    → ((m p).yptr ≡ elim xs [ [] ↦ y | x ∷ r ↦ some (last x r) ]) × Chain m q (some p) (m p).optr ys
Chain-at m q p y o [] ys c = (c.1, c.3)
Chain-at m q p y o (x ∷ []) ys c = Chain-at m q p (some x) (m x).optr [] ys c.3
Chain-at m q p y o (x ∷ x' ∷ xs) ys c = Chain-at m q p (some x) (m x).optr (x' ∷ xs) ys c.3

others_than : (y : ℕ) (cs : List ℕ) → NotIn y cs → All (λ c. some y ≢ some c) cs
others_than y [] n = tt
others_than y (c ∷ cs) n = ((λ e. n.0 (some-eq y c e)), others_than y cs n.1)

last_apart : (x x' : ℕ) (xs ys : List ℕ) (p : ℕ) → NotIn x (x' ∷ (xs ++ p ∷ ys)) → last x' xs ≢ x
last_apart x x' [] ys p n e = n.0 (sym e)
last_apart x x' (z ∷ xs) ys p n e = last_apart x z xs ys p n.1 e

-- The chain without `p`; `o'` is where it begins now.
Joined-Chain :
    (p q : ℕ) (m m' : ℕ → Proc) (y o : Option ℕ) (xs ys : List ℕ)
    → Joined p m m'
    → Distinct (xs ++ p ∷ ys)
    → All (λ z. y ≢ some z) (xs ++ p ∷ ys)
    → Chain m q y o (xs ++ p ∷ ys)
    → Chain m' q y (elim xs [ [] ↦ (m p).optr | x ∷ r ↦ o ]) (xs ++ ys)
Joined-Chain p q m m' y o [] ys j d a c =
    subst (λ w. Chain m' q w (m p).optr ys) c.1
      (Joined-older p q m m' ys j d.1 (subst (λ w. All (λ z. w ≢ some z) ys) (sym c.1) a.1) c.3)
Joined-Chain p q m m' y o (x ∷ []) ys j d a c =
    let far = Chain-start m q (some p) (m p).optr x ys (d.0.1) c.3.3 in
    (
      c.0,
      j.yptr x far ∙ c.1,
      j.parent x ∙ c.2,
      subst (λ w. Chain m' q (some x) w ys) (sym (j.younger x c.3.1))
          (Joined-Chain p q m m' (some x) (m x).optr [] ys j d.1 (others_than x (p ∷ ys) d.0) c.3),
    )
Joined-Chain p q m m' y o (x ∷ x' ∷ xs) ys j d a c =
    let s = Chain-at m q p (some x) (m x).optr (x' ∷ xs) ys c.3 in
    let far =
      Chain-start m q (some p) (m p).optr x ys (NotIn-append_right x (x' ∷ xs) (p ∷ ys) d.0).1
        s.1 in
    let near = λ (e : (m p).yptr ≡ some x).
      last_apart x x' xs ys p d.0 (some-eq (last x' xs) x (sym s.0 ∙ e)) in
    (
      c.0,
      j.yptr x far ∙ c.1,
      j.parent x ∙ c.2,
      subst (λ w. Chain m' q (some x) w (x' ∷ (xs ++ ys))) (sym (j.optr x near))
          (Joined-Chain p q m m' (some x) (m x).optr (x' ∷ xs) ys j d.1
            (others_than x (x' ∷ (xs ++ p ∷ ys)) d.0) c.3),
    )

disown-cptr :
    (q p : ℕ) (m : ℕ → Proc) (xs : List ℕ)
    → (m p).optr ≢ some p
    → (m p).yptr ≡ elim xs [ [] ↦ none | x ∷ r ↦ some (last x r) ]
    → (disown q p m q).cptr ≡ elim xs [ [] ↦ (m p).optr | x ∷ r ↦ (m q).cptr ]
disown-cptr q p m [] n e =
    ap (λ (f : ℕ → Proc). (f q).cptr) (disown-between q p m n)
    ∙ between-cptr (m p).optr (m p).yptr q m
    ∙ ap (λ (y : Option ℕ). elim y as (λ _. Option ℕ) [ none ↦ (m p).optr | some v ↦ (m q).cptr ]) e
disown-cptr q p m (x ∷ xs) n e =
    ap (λ (f : ℕ → Proc). (f q).cptr) (disown-between q p m n)
    ∙ between-cptr (m p).optr (m p).yptr q m
    ∙ ap (λ (y : Option ℕ). elim y as (λ _. Option ℕ) [ none ↦ (m p).optr | some v ↦ (m q).cptr ]) e

no_null : (cs : List ℕ) → All (λ c. none ≢ some c) cs
no_null [] = tt
no_null (c ∷ cs) = ((λ e. cc e), no_null cs)

-- If the children of `q` are `xs`, `p` and `ys`, then after `disown` they are `xs` and `ys`.
pub disown-Children :
    (q p : ℕ) (m : ℕ → Proc) (xs ys : List ℕ)
    → Distinct (xs ++ p ∷ ys)
    → Children m q (xs ++ p ∷ ys)
    → Children (disown q p m) q (xs ++ ys)
disown-Children q p m xs ys d c =
    let s = Chain-at m q p none (m q).cptr xs ys c in
    let n = Chain-start m q (some p) (m p).optr p ys (Distinct-middle xs p ys d).1 s.1 in
    subst (λ w. Chain (disown q p m) q none w (xs ++ ys)) (sym (disown-cptr q p m xs n s.0))
      (Joined-Chain p q m (disown q p m) none (m q).cptr xs ys (disown-Joined q p m n) d
        (no_null (xs ++ p ∷ ys)) c)

pub Chain-parent :
    (m : ℕ → Proc) (q p : ℕ) (y o : Option ℕ) (xs ys : List ℕ)
    → Chain m q y o (xs ++ p ∷ ys)
    → (m p).parent ≡ some q
Chain-parent m q p y o [] ys c = c.2
Chain-parent m q p y o (x ∷ xs) ys c = Chain-parent m q p (some x) (m x).optr xs ys c.3

set_yptr_kstack : (o y : Option ℕ) (x : ℕ) (m : ℕ → Proc) → (set_yptr o y m x).kstack ≡ (m x).kstack
set_yptr_kstack none y x m = refl
set_yptr_kstack (some w) y x m = ground arith

close_gap_kstack :
    (y o : Option ℕ) (q x : ℕ) (m : ℕ → Proc) → (close_gap y o q m x).kstack ≡ (m x).kstack
close_gap_kstack none o q x m = ground arith
close_gap_kstack (some v) o q x m = ground arith

pub disown-kstack : (q p x : ℕ) (m : ℕ → Proc) → (disown q p m x).kstack ≡ (m x).kstack
unfolding disown
disown-kstack q p x m =
    let m' = set_yptr (m p).optr (m p).yptr m in
    close_gap_kstack (m' p).yptr (m' p).optr q x m' ∙ set_yptr_kstack (m p).optr (m p).yptr x m
