-- ===== src/Skew/Merge.antt =====
-- skew_heap_merge and skew_heap_insert of lab8/libs/skew_heap.h.
use nku_os_ucore.Common.{
  ℕ, zero, suc, ◌+◌, ◌<◌, ◌≡◌, ◌≢◌, refl, sym, ap, ◌∙◌, subst, Bool, true, false, ◌==◌, arith, ok,
  Outcome, ℤ,
}
use nku_os_ucore.Skew.{Entry, put_entry, adopt_root, attach, is_less, skew_heap_merge}
use nku_os_ucore.Skew.Tree.{
  Tree, leaf, node, root, size, Out, Apart, Apart-sym, Single, merge, merge_cases, Out-merge,
  Each-merge, Single-merge,
}
use nku_os_ucore.Skew.Shape.{
  Same-Apart, Lies, Lies-root, Under, Same, Under-Same, Lies-Same, put_same, put_self, Same-put,
  adopt_root-Lies, adopt_root_same, adopt_root-Same,
}

-- `attach` puts the tree `w` and then the tree `l` under `x`.
attach-Lies :
    (m : ℕ → Entry) (x q : ℕ) (w l : Tree)
    → x ≢ 0
    → Single (node w x l)
    → Lies m (root w) w
    → Lies m q l
    → Under m x l
    → Lies (attach x (root w) q m) x (node w x l)
unfolding attach
attach-Lies m x q w l nz s hw hl u =
    let e : Entry = record (m x) { left = root w; right = q } in
    let m1 = put_entry m x e in
    let sw = Same-put m x e w s.0 in
    let sl = Same-put m x e l s.1 in
    let (lw, uw) = adopt_root-Lies m1 x w s.3 (Lies-Same m m1 (root w) w sw hw) in
    let m2 = adopt_root (root w) x m1 in
    let tl = adopt_root-Same m1 x w l (Apart-sym w l s.2) in
    let self = adopt_root_same m1 x w x s.0 ∙ put_self m x e in
    (
      refl,
      nz,
      uw,
      Under-Same m1 m2 x l tl (Under-Same m m1 x l sl u),
      subst (λ v. Lies m2 v.left w) (sym self) lw,
      subst (λ v. Lies m2 v.right l) (sym self) (Lies-Same m1 m2 q l tl (Lies-Same m m1 q l sl hl)),
    )

attach_same :
    (m : ℕ → Entry) (x q : ℕ) (w : Tree) (z : ℕ) → x ≢ z → Out z w → attach x (root w) q m z ≡ m z
unfolding attach
attach_same m x q w z n o =
    let e : Entry = record (m x) { left = root w; right = q } in
    adopt_root_same (put_entry m x e) x w z o ∙ put_same m x e z n

attach_parent :
    (m : ℕ → Entry) (x q : ℕ) (w : Tree) → Out x w → (attach x (root w) q m x).parent ≡ (m x).parent
unfolding attach
attach_parent m x q w o =
    let e : Entry = record (m x) { left = root w; right = q } in
    ap (λ v. v.parent) (adopt_root_same (put_entry m x e) x w x o ∙ put_self m x e)

-- What a merge leaves: the tree `v`, whose root keeps its parent, and all else.
pub record Merged (m : ℕ → Entry) (t u v : Tree) (r : Outcome (ℕ × (ℕ → Entry))) (m' : ℕ → Entry)
    : Type 0 where
  pub done : r ≡ ok (root v, m')
  pub lies : Lies m' (root v) v
  pub same : (z : ℕ) → Out z t → Out z u → m' z ≡ m z
  pub parent : (m' (root v)).parent ≡ (m (root v)).parent

-- Where both roots have the parent `p`, the root of the merged tree has it too.
pub Under-Merged :
    (cmp : ℕ → ℕ → Bool) (m m' : ℕ → Entry) (p : ℕ) (t u : Tree) (r : Outcome (ℕ × (ℕ → Entry)))
    → Merged m t u (merge cmp t u) r m'
    → Under m p t
    → Under m p u
    → Under m' p (merge cmp t u)
unfolding merge
Under-Merged cmp m m' p leaf leaf r g h k = tt
Under-Merged cmp m m' p leaf (node l y l') r g h k = g.parent ∙ k
Under-Merged cmp m m' p (node l x r') leaf r g h k = g.parent ∙ h
Under-Merged cmp m m' p (node l x r') (node l' y r'') r g h k =
    merge_cases cmp (λ v. (m' (root v)).parent ≡ (m (root v)).parent → Under m' p v) l x r' l' y r''
      (λ e q. q ∙ h) (λ e q. q ∙ k) g.parent

-- The step behind the recursive call, for either root.
record Grown (m m1 m2 : ℕ → Entry) (x : ℕ) (w l : Tree) : Type 0 where
  lies : Lies m2 x (node w x l)
  same : (z : ℕ) → x ≢ z → Out z w → m2 z ≡ m1 z
  parent : (m2 x).parent ≡ (m x).parent

attach-Grown :
    (m m1 : ℕ → Entry) (x : ℕ) (w l : Tree)
    → x ≢ 0
    → Single (node w x l)
    → Lies m1 (root w) w
    → Lies m (m x).left l
    → Under m x l
    → Same m m1 l
    → m1 x ≡ m x
    → Grown m m1 (attach x (root w) (m x).left m1) x w l
attach-Grown m m1 x w l nz s hw hl u sl e = record {
  lies =
      attach-Lies m1 x (m x).left w l nz s hw (Lies-Same m m1 (m x).left l sl hl)
        (Under-Same m m1 x l sl u);
  same = λ z n o. attach_same m1 x (m x).left w z n o;
  parent = attach_parent m1 x (m x).left w s.0 ∙ ap (λ v. v.parent) e;
}

differ : (x : ℕ) → x ≢ 0 → (x == 0) ≡ false
differ x h = ground arith

module _ (comp : ℕ → ℕ → ℤ) where
  -- The heap comes first by the comparison.
  abbrev pub less : ℕ → ℕ → Bool
  less x y = is_less (comp x y)

  into_a :
      (f x y : ℕ) (m : ℕ → Entry) (c : ℕ) (m1 : ℕ → Entry)
      → x ≢ 0
      → y ≢ 0
      → less x y ≡ true
      → skew_heap_merge comp f (m x).right y m ≡ ok (c, m1)
      → skew_heap_merge comp (suc f) x y m ≡ ok (x, attach x c (m x).left m1)
  unfolding skew_heap_merge
  into_a f x y m c m1 nx ny e k = rw (skew_heap_merge, differ x nx, differ y ny, e, k) refl

  into_b :
      (f x y : ℕ) (m : ℕ → Entry) (c : ℕ) (m1 : ℕ → Entry)
      → x ≢ 0
      → y ≢ 0
      → less x y ≡ false
      → skew_heap_merge comp f x (m y).right m ≡ ok (c, m1)
      → skew_heap_merge comp (suc f) x y m ≡ ok (y, attach y c (m y).left m1)
  unfolding skew_heap_merge
  into_b f x y m c m1 nx ny e k = rw (skew_heap_merge, differ x nx, differ y ny, e, k) refl

  -- A merge with the roots given.
  abbrev Met : ℕ → (ℕ → Entry) → Tree → Tree → Tree → Type 0
  Met f m t u v = (m' : ℕ → Entry) × Merged m t u v (skew_heap_merge comp f (root t) (root u) m) m'

  merge_into_a :
      (f : ℕ) (m : ℕ → Entry) (l : Tree) (x : ℕ) (r u : Tree)
      → Lies m x (node l x r)
      → root u ≢ 0
      → Single (node l x r)
      → Single u
      → Apart (node l x r) u
      → less x (root u) ≡ true
      → Met f m r u (merge less r u)
      → Met (suc f) m (node l x r) u (node (merge less r u) x l)
  merge_into_a f m l x r u h nu s su a e (m1, k) =
      let w = merge less r u in
      let whole : Single (node w x l) = (
        Out-merge less x r u s.1 a.0,
        s.0,
        Each-merge less (λ z. Out z l) r u (Apart-sym l r s.2) (Apart-sym l u a.1),
        Single-merge less r u s.4 su a.2,
        s.3,
      ) in
      let g =
        attach-Grown m m1 x w l h.1 whole k.lies h.4 h.2 (Same-Apart m m1 r u l k.same s.2 a.1)
          (k.same x s.1 a.0) in
      (
        attach x (root w) (m x).left m1,
        record {
          done = into_a f x (root u) m (root w) m1 h.1 nu e (
              ap (λ c. skew_heap_merge comp f c (root u) m) (Lies-root m (m x).right r h.5)
              ∙ k.done);
          lies = g.lies;
          same = λ z o p. g.same z (λ q. o.0 (sym q)) (Out-merge less z r u o.2 p) ∙ k.same z o.2 p;
          parent = g.parent;
        },
      )

  merge_into_b :
      (f : ℕ) (m : ℕ → Entry) (t l : Tree) (y : ℕ) (r : Tree)
      → Lies m y (node l y r)
      → root t ≢ 0
      → Single t
      → Single (node l y r)
      → Apart t (node l y r)
      → less (root t) y ≡ false
      → Met f m t r (merge less t r)
      → Met (suc f) m t (node l y r) (node (merge less t r) y l)
  merge_into_b f m t l y r h nt s su a e (m1, k) =
      let w = merge less t r in
      let b = Apart-sym t (node l y r) a in
      let whole : Single (node w y l) = (
        Out-merge less y t r b.0 su.1,
        su.0,
        Each-merge less (λ z. Out z l) t r (Apart-sym l t b.1) (Apart-sym l r su.2),
        Single-merge less t r s su.4 (Apart-sym r t b.2),
        su.3,
      ) in
      let g =
        attach-Grown m m1 y w l h.1 whole k.lies h.4 h.2 (Same-Apart m m1 t r l k.same b.1 su.2)
          (k.same y b.0 su.1) in
      (
        attach y (root w) (m y).left m1,
        record {
          done = into_b f (root t) y m (root w) m1 nt h.1 e (
              ap (λ c. skew_heap_merge comp f (root t) c m) (Lies-root m (m y).right r h.5)
              ∙ k.done);
          lies = g.lies;
          same = λ z o p. g.same z (λ q. p.0 (sym q)) (Out-merge less z t r o p.2) ∙ k.same z o p.2;
          parent = g.parent;
        },
      )

  at_root : (m : ℕ → Entry) (a : ℕ) (t : Tree) → Lies m a t → Lies m (root t) t
  at_root m a t h = subst (λ c. Lies m c t) (Lies-root m a t h) h

  merge_roots :
      (f : ℕ) (m : ℕ → Entry) (t u : Tree)
      → size t + size u < f
      → Lies m (root t) t
      → Lies m (root u) u
      → Single t
      → Single u
      → Apart t u
      → Met f m t u (merge less t u)
  unfolding skew_heap_merge merge
  merge_roots zero m t u f h k s su a = absurd (omega arith)
  merge_roots (suc f) m leaf u lt h k s su a =
      (m, record { done = refl; lies = k; same = λ z o p. refl; parent = refl })
  merge_roots (suc f) m (node l x r) leaf lt h k s su a =
      (m, record { done = rw (differ x h.1) refl; lies = h; same = λ z o p. refl; parent = refl })
  merge_roots (suc f) m (node l x r) (node l' y r') lt h k s su a =
      merge_cases less (Met (suc f) m (node l x r) (node l' y r')) l x r l' y r'
        (λ e. merge_into_a f m l x r (node l' y r') h k.1 s su a e (
          merge_roots f m r (node l' y r') (omega arith) (at_root m (m x).right r h.5) k s.4 su
            a.2))
        (λ e. merge_into_b f m (node l x r) l' y r' k h.1 s su a e (
          merge_roots f m (node l x r) r' (omega arith) h (at_root m (m y).right r' k.5) s su.4
            (Apart-sym r' (node l x r) (Apart-sym (node l x r) (node l' y r') a).2)))

  -- The addresses may be given as they stand in the entries.
  pub skew_heap_merge-Merged :
      (f a b : ℕ) (m : ℕ → Entry) (t u : Tree)
      → size t + size u < f
      → Lies m a t
      → Lies m b u
      → Single t
      → Single u
      → Apart t u
      → (m' : ℕ → Entry) × Merged m t u (merge less t u) (skew_heap_merge comp f a b m) m'
  skew_heap_merge-Merged f a b m t u lt h k s su ap' =
      let (m', g) = merge_roots f m t u lt (at_root m a t h) (at_root m b u k) s su ap' in
      (
        m',
        record {
          done =
              ap (λ c. skew_heap_merge comp f c b m) (Lies-root m a t h)
              ∙ ap (λ c. skew_heap_merge comp f (root t) c m) (Lies-root m b u k)
              ∙ g.done;
          lies = g.lies;
          same = g.same;
          parent = g.parent;
        },
      )
