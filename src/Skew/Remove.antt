-- ===== src/Skew/Remove.antt =====
-- skew_heap_remove of lab8/libs/skew_heap.h.
use nku_os_ucore.Common.{
  ℕ, ◌≤◌, ◌≡◌, ◌≢◌, refl, sym, ◌∙◌, subst, Bool, false, ◌==◌, inl, inr, arith, ==_refl, ℕ_discrete,
  ok, ℤ,
}
use nku_os_ucore.Skew.{Entry, adopt_root, replace, skew_heap_remove}
use nku_os_ucore.Skew.Tree.{
  Tree, leaf, node, root, size, Out, Apart, Apart-sym, Single, merge, remove, Out-merge,
  Single-merge,
}
use nku_os_ucore.Skew.Shape.{Lies, Lies-root, adopt_root-Lies, adopt_root_same, Under}
use nku_os_ucore.Skew.Merge.{less, skew_heap_merge-Merged}
use nku_os_ucore.Skew.Detach.{
  Inside, detach, Below, child_left, child_right, within_left, within_right, root-remove, Under-Cut,
}

pub Inside-Out : (b : ℕ) (t u : Tree) → Inside b t → Apart t u → Out b u
Inside-Out b leaf u i a = elim i [ ]
Inside-Out b (node l x r) u (inl e) a = subst (λ z. Out z u) e a.0
Inside-Out b (node l x r) u (inr (inl i)) a = Inside-Out b l u i a.1
Inside-Out b (node l x r) u (inr (inr i)) a = Inside-Out b r u i a.2

at_root : (m : ℕ → Entry) (a : ℕ) (t : Tree) → Lies m a t → Lies m (root t) t
at_root m a t h = subst (λ c. Lies m c t) (Lies-root m a t h) h

module _ (cmp : ℕ → ℕ → Bool) where
  abbrev Found : (ℕ → Entry) → ℕ → Tree → Type 0
  Found m b t = (bl : Tree) × (br : Tree) × Below cmp m b t bl br

  deeper_left :
      (m : ℕ → Entry) (b : ℕ) (l : Tree) (x : ℕ) (r : Tree)
      → Lies m x (node l x r)
      → Single (node l x r)
      → root l ≢ b
      → x ≢ b
      → Out b r
      → Found m b l
      → Found m b (node l x r)
  deeper_left m b l x r h s n nx o (bl, br, k) = (
    bl,
    br,
    record {
      left = k.left;
      right = k.right;
      single = k.single;
      parent = k.parent;
      less_size = omega (arith, k.less_size);
      out = λ z p. k.out z p.1;
      cut = λ m1 j.
          within_left cmp m (detach cmp (m b).parent b (merge cmp bl br) m1) b l x r h s n nx o
            (k.cut m1 j);
    },
  )

  deeper_right :
      (m : ℕ → Entry) (b : ℕ) (l : Tree) (x : ℕ) (r : Tree)
      → Lies m x (node l x r)
      → Single (node l x r)
      → root r ≢ b
      → x ≢ b
      → Out b l
      → Found m b r
      → Found m b (node l x r)
  deeper_right m b l x r h s n nx o (bl, br, k) = (
    bl,
    br,
    record {
      left = k.left;
      right = k.right;
      single = k.single;
      parent = k.parent;
      less_size = omega (arith, k.less_size);
      out = λ z p. k.out z p.2;
      cut = λ m1 j.
          within_right cmp m (detach cmp (m b).parent b (merge cmp bl br) m1) b l x r h s n nx o
            (k.cut m1 j);
    },
  )

  in_left :
      (m : ℕ → Entry) (b : ℕ) (l : Tree) (x : ℕ) (r : Tree)
      → Lies m x (node l x r)
      → Single (node l x r)
      → Inside b l
      → x ≢ b
      → (root l ≢ b → Found m b l)
      → Found m b (node l x r)
  in_left m b leaf x r h s i nx rec = elim i [ ]
  in_left m b (node ll y lr) x r h s i nx rec = elim (ℕ_discrete y b) [
    | yes e ↦
        subst (λ c. Found m c (node (node ll y lr) x r)) e
          (ll, lr, child_left cmp m y ll lr x r h s)
    | no n ↦
        deeper_left m b (node ll y lr) x r h s n nx (Inside-Out b (node ll y lr) r i s.2) (rec n)
  ]

  in_right :
      (m : ℕ → Entry) (b : ℕ) (l : Tree) (x : ℕ) (r : Tree)
      → Lies m x (node l x r)
      → Single (node l x r)
      → Inside b r
      → x ≢ b
      → (root r ≢ b → Found m b r)
      → Found m b (node l x r)
  in_right m b l x leaf h s i nx rec = elim i [ ]
  in_right m b l x (node rl y rr) h s i nx rec = elim (ℕ_discrete y b) [
    | yes e ↦
        subst (λ c. Found m c (node l x (node rl y rr))) e
          (rl, rr, child_right cmp m l x rl y rr h s)
    | no n ↦
        deeper_right m b l x (node rl y rr) h s n nx
          (Inside-Out b (node rl y rr) l i (Apart-sym l (node rl y rr) s.2)) (rec n)
  ]

  find_below :
      (m : ℕ → Entry) (b : ℕ) (t : Tree)
      → Lies m (root t) t
      → Single t
      → Inside b t
      → root t ≢ b
      → Found m b t
  find_below m b leaf h s i n = elim i [ ]
  find_below m b (node l x r) h s (inl e) n = absurd (n e)
  find_below m b (node l x r) h s (inr (inl i)) n =
      in_left m b l x r h s i n (find_below m b l (at_root m (m x).left l h.4) s.3 i)
  find_below m b (node l x r) h s (inr (inr i)) n =
      in_right m b l x r h s i n (find_below m b r (at_root m (m x).right r h.5) s.4 i)

-- What a removal leaves: the tree without `b`, under no parent, and all else.
pub record Removed (cmp : ℕ → ℕ → Bool) (m m' : ℕ → Entry) (b : ℕ) (t : Tree) : Type 0 where
  pub lies : Lies m' (root (remove cmp b t)) (remove cmp b t)
  pub under : Under m' 0 (remove cmp b t)
  pub same : (z : ℕ) → Out z t → m' z ≡ m z

-- The result of `skew_heap_remove`.
abbrev pub Gone : (ℕ → ℕ → ℤ) → ℕ → ℕ → ℕ → (ℕ → Entry) → Tree → Type 0
Gone comp f a b m t =
    (m' : ℕ → Entry) × (skew_heap_remove comp f a b m ≡ ok (root (remove (less comp) b t), m'))
    × Removed (less comp) m m' b t

module _ (comp : ℕ → ℕ → ℤ) where
  remove_root :
      (f : ℕ) (m : ℕ → Entry) (l : Tree) (b : ℕ) (r : Tree)
      → size (node l b r) ≤ f
      → Lies m b (node l b r)
      → Single (node l b r)
      → (m b).parent ≡ 0
      → Gone comp f b b m (node l b r)
  unfolding skew_heap_remove replace remove
  remove_root f m l b r lt h s p =
      let (m1, k) =
        skew_heap_merge-Merged comp f (m b).left (m b).right m l r (omega arith) h.4 h.5 s.3 s.4
          s.2 in
      let v = merge (less comp) l r in
      let (lv, uv) = adopt_root-Lies m1 0 v (Single-merge (less comp) l r s.3 s.4 s.2) k.lies in
      (
        adopt_root (root v) 0 m1,
        rw (k.done, p, ==_refl b) refl,
        record {
          lies = rw (==_refl b) lv;
          under = rw (==_refl b) uv;
          same = λ z o.
              adopt_root_same m1 0 v z (Out-merge (less comp) z l r o.1 o.2) ∙ k.same z o.1 o.2;
        },
      )

  remove_below :
      (f : ℕ) (m : ℕ → Entry) (b : ℕ) (t : Tree)
      → size t ≤ f
      → Lies m (root t) t
      → Single t
      → Under m 0 t
      → root t ≢ b
      → Found (less comp) m b t
      → Gone comp f (root t) b m t
  unfolding skew_heap_remove replace
  remove_below f m b t lt h s u n (bl, br, k) =
      let (m1, g) =
        skew_heap_merge-Merged comp f (m b).left (m b).right m bl br (omega (arith, k.less_size))
          k.left k.right k.single.0 k.single.1 k.single.2 in
      let c = k.cut m1 (record { lies = g.lies; same = g.same }) in
      let m3 = detach (less comp) (m b).parent b (merge (less comp) bl br) m1 in
      let top = root-remove (less comp) b t n in
      (
        m3,
        rw (g.done, differ (m b).parent k.parent, top) refl,
        record {
          lies = subst (λ a. Lies m3 a (remove (less comp) b t)) (sym top) c.lies;
          under = Under-Cut (less comp) m m3 b 0 t n c u;
          same = c.same;
        },
      )
    where
      differ : (x : ℕ) → x ≢ 0 → (x == 0) ≡ false
      differ x h = ground arith

  pub skew_heap_remove-Removed :
      (f a b : ℕ) (m : ℕ → Entry) (t : Tree)
      → size t ≤ f
      → Lies m a t
      → Single t
      → Under m 0 t
      → Inside b t
      → Gone comp f a b m t
  skew_heap_remove-Removed f a b m leaf lt h s u i = elim i [ ]
  skew_heap_remove-Removed f a b m (node l x r) lt h s u i =
      let k : Lies m x (node l x r) = subst (λ c. Lies m c (node l x r)) h.0 h in
      let here : Gone comp f x b m (node l x r) = elim (ℕ_discrete x b) [
        | yes e ↦ subst (λ c. Gone comp f x c m (node l x r)) e (remove_root f m l x r lt k s u)
        | no n ↦
            remove_below f m b (node l x r) lt k s u n
              (find_below (less comp) m b (node l x r) k s i n)
      ] in
      subst (λ c. Gone comp f c b m (node l x r)) (sym h.0) here
