-- ===== src/Skew/Shape.antt =====
-- How a tree lies in the entries of lab8/libs/skew_heap.h.
use nku_os_ucore.Common.{
  ℕ, ◌≡◌, ◌≢◌, refl, sym, ap, ◌∙◌, subst, false, Bool-cases, ◌==◌, inl, inr, arith,
}
use nku_os_ucore.Skew.{Entry, put_entry, adopt_root}
use nku_os_ucore.Skew.Tree.{Tree, leaf, node, root, Out, Each, Apart, Single, Each-map}

-- The root of the tree has this parent.
abbrev pub Under : (ℕ → Entry) → ℕ → Tree → Type 0
Under m p leaf = Unit {0}
Under m p (node l x r) = (m x).parent ≡ p

-- The tree `t` at the address `a`; nothing is said of the parent of its root.
abbrev pub Lies : (ℕ → Entry) → ℕ → Tree → Type 0
Lies m a leaf = a ≡ 0
Lies m a (node l x r) =
    (a ≡ x) × (x ≢ 0) × Under m x l × Under m x r × Lies m (m x).left l × Lies m (m x).right r

-- Outside of the tree nothing changes.
abbrev pub Same : (ℕ → Entry) → (ℕ → Entry) → Tree → Type 0
Same m m' t = Each (λ x. m' x ≡ m x) t

pub Under-Same : (m m' : ℕ → Entry) (p : ℕ) (t : Tree) → Same m m' t → Under m p t → Under m' p t
Under-Same m m' p leaf s h = tt
Under-Same m m' p (node l x r) s h = ap (λ e. e.parent) s.0 ∙ h

pub Lies-Same : (m m' : ℕ → Entry) (a : ℕ) (t : Tree) → Same m m' t → Lies m a t → Lies m' a t
Lies-Same m m' a leaf s h = h
Lies-Same m m' a (node l x r) s h = (
  h.0,
  h.1,
  Under-Same m m' x l s.1 h.2,
  Under-Same m m' x r s.2 h.3,
  subst (λ e. Lies m' e.left l) (sym s.0) (Lies-Same m m' (m x).left l s.1 h.4),
  subst (λ e. Lies m' e.right r) (sym s.0) (Lies-Same m m' (m x).right r s.2 h.5),
)

pub put_same : (m : ℕ → Entry) (a : ℕ) (e : Entry) (x : ℕ) → a ≢ x → put_entry m a e x ≡ m x
put_same m a e x h = ground arith

pub put_self : (m : ℕ → Entry) (a : ℕ) (e : Entry) → put_entry m a e a ≡ e
put_self m a e = ground arith

pub Same-put : (m : ℕ → Entry) (a : ℕ) (e : Entry) (t : Tree) → Out a t → Same m (put_entry m a e) t
Same-put m a e leaf o = tt
Same-put m a e (node l x r) o = (put_same m a e x o.0, Same-put m a e l o.1, Same-put m a e r o.2)

pub Lies-root : (m : ℕ → Entry) (a : ℕ) (t : Tree) → Lies m a t → a ≡ root t
Lies-root m a leaf h = h
Lies-root m a (node l x r) h = h.0

-- A new entry at `x` over two trees.
pub node-Lies :
    (m : ℕ → Entry) (e : Entry) (l : Tree) (x : ℕ) (r : Tree)
    → x ≢ 0
    → Out x l
    → Out x r
    → Under m x l
    → Under m x r
    → Lies m e.left l
    → Lies m e.right r
    → Lies (put_entry m x e) x (node l x r)
node-Lies m e l x r nz ol orr ul ur hl hr =
    let m' = put_entry m x e in
    let sl = Same-put m x e l ol in
    let sr = Same-put m x e r orr in
    let self = put_self m x e in
    (
      refl,
      nz,
      Under-Same m m' x l sl ul,
      Under-Same m m' x r sr ur,
      subst (λ v. Lies m' v.left l) (sym self) (Lies-Same m m' e.left l sl hl),
      subst (λ v. Lies m' v.right r) (sym self) (Lies-Same m m' e.right r sr hr),
    )

differ : (x : ℕ) → x ≢ 0 → (x == 0) ≡ false
differ x h = ground arith

pub adopt_root_put :
    (m : ℕ → Entry) (p x : ℕ)
    → x ≢ 0
    → adopt_root x p m ≡ put_entry m x (record (m x) { parent = p })
unfolding adopt_root
adopt_root_put m p x h = rw (differ x h) refl

-- A tree whose root gets another parent.
pub adopt_root-Lies :
    (m : ℕ → Entry) (p : ℕ) (t : Tree)
    → Single t
    → Lies m (root t) t
    → Lies (adopt_root (root t) p m) (root t) t × Under (adopt_root (root t) p m) p t
unfolding adopt_root
adopt_root-Lies m p leaf s h = (refl, tt)
adopt_root-Lies m p (node l x r) s h =
    let e : Entry = record (m x) { parent = p } in
    subst (λ n. Lies n x (node l x r) × Under n p (node l x r)) (sym (adopt_root_put m p x h.1))
      (node-Lies m e l x r h.1 s.0 s.1 h.2 h.3 h.4 h.5, ap (λ v. v.parent) (put_self m x e))

pub adopt_root_same :
    (m : ℕ → Entry) (p : ℕ) (t : Tree) (z : ℕ) → Out z t → adopt_root (root t) p m z ≡ m z
unfolding adopt_root
adopt_root_same m p leaf z o = refl
adopt_root_same m p (node l x r) z o = elim (Bool-cases (x == 0)) [
  | inl e ↦ rw (adopt_root, e) refl
  | inr e ↦ rw (adopt_root, e) (put_same m x (record (m x) { parent = p }) z (λ q. o.0 (sym q)))
]

pub adopt_root-Same :
    (m : ℕ → Entry) (p : ℕ) (t u : Tree) → Apart u t → Same m (adopt_root (root t) p m) u
adopt_root-Same m p t u a = Each-map u (λ z o. adopt_root_same m p t z o) a

pub Same-Apart :
    (m m' : ℕ → Entry) (t u l : Tree)
    → ((z : ℕ) → Out z t → Out z u → m' z ≡ m z)
    → Apart l t
    → Apart l u
    → Same m m' l
Same-Apart m m' t u leaf f a b = tt
Same-Apart m m' t u (node l x r) f a b =
    (f x a.0 b.0, Same-Apart m m' t u l f a.1 b.1, Same-Apart m m' t u r f a.2 b.2)
