-- ===== src/Skew/Detach.antt =====
-- The taking of an entry out of a tree, for skew_heap_remove of lab8/libs/skew_heap.h.
use nku_os_ucore.Common.{
  ℕ, ◌+◌, ◌<◌, ◌≡◌, ◌≢◌, ◌⊎◌, refl, sym, ap, ◌∙◌, subst, Bool, true, false, ◌==◌, arith, ==_refl,
}
use nku_os_ucore.Skew.{Entry, put_entry, adopt_root, put_child}
use nku_os_ucore.Skew.Tree.{
  Tree, leaf, node, root, size, Out, Apart, Apart-sym, Single, merge, remove, Out-merge,
  Single-merge,
}
use nku_os_ucore.Skew.Shape.{
  Same-Apart, Lies, Lies-root, Under, Same, Under-Same, Lies-Same, put_same, put_self, node-Lies,
  adopt_root-Lies, adopt_root_same,
}

-- The tree has the entry `b`.
abbrev pub Inside : ℕ → Tree → Type 0
Inside b leaf = ⊥
Inside b (node l x r) = (x ≡ b) ⊎ Inside b l ⊎ Inside b r

differ : (x b : ℕ) → x ≢ b → (x == b) ≡ false
differ x b h = ground arith

module _ (less : ℕ → ℕ → Bool) where
  pub remove-Out : (b : ℕ) (t : Tree) → Out b t → remove less b t ≡ t
  unfolding remove
  remove-Out b leaf o = refl
  remove-Out b (node l x r) o =
      rw (differ x b (λ q. o.0 (sym q)), remove-Out b l o.1, remove-Out b r o.2) refl

  -- The trees under `b` merged, and all else as before.
  pub record Joint (m m1 : ℕ → Entry) (bl br : Tree) : Type 0 where
    pub lies : Lies m1 (root (merge less bl br)) (merge less bl br)
    pub same : (z : ℕ) → Out z bl → Out z br → m1 z ≡ m z

  -- The entries behind the writes of `skew_heap_remove`.
  abbrev pub detach : ℕ → ℕ → Tree → (ℕ → Entry) → ℕ → Entry
  detach p b v m1 = put_child p b (root v) (adopt_root (root v) p m1)

  -- The tree without `b`, and all else as before.
  pub record Cut (m m3 : ℕ → Entry) (b : ℕ) (t : Tree) : Type 0 where
    pub lies : Lies m3 (root t) (remove less b t)
    pub same : (z : ℕ) → Out z t → m3 z ≡ m z
    pub parent : (m3 (root t)).parent ≡ (m (root t)).parent

  -- The entry `b` below the root of `t`, with its trees and its parent.
  pub record Below (m : ℕ → Entry) (b : ℕ) (t bl br : Tree) : Type 0 where
    pub left : Lies m (m b).left bl
    pub right : Lies m (m b).right br
    pub single : Single bl × Single br × Apart bl br
    pub parent : (m b).parent ≢ 0
    pub less_size : size bl + size br < size t
    pub out : (z : ℕ) → Out z t → (z ≢ (m b).parent) × Out z bl × Out z br
    pub cut :
        (m1 : ℕ → Entry)
        → Joint m m1 bl br
        → Cut m (detach (m b).parent b (merge less bl br) m1) b t

  -- The merged tree `v` under its new parent `x`.
  record Adopted (m m2 : ℕ → Entry) (v bl br : Tree) (x : ℕ) : Type 0 where
    lies : Lies m2 (root v) v
    under : Under m2 x v
    same : (z : ℕ) → Out z bl → Out z br → m2 z ≡ m z

  Joint-Adopted :
      (m m1 : ℕ → Entry) (bl br : Tree) (x : ℕ)
      → Single bl × Single br × Apart bl br
      → Joint m m1 bl br
      → Adopted m (adopt_root (root (merge less bl br)) x m1) (merge less bl br) bl br x
  Joint-Adopted m m1 bl br x s j =
      let v = merge less bl br in
      let (lv, uv) = adopt_root-Lies m1 x v (Single-merge less bl br s.0 s.1 s.2) j.lies in
      record {
        lies = lv;
        under = uv;
        same = λ z o p. adopt_root_same m1 x v z (Out-merge less z bl br o p) ∙ j.same z o p;
      }

  -- A put below `x` in the two trees.
  put_same_out :
      (m m2 : ℕ → Entry) (x z : ℕ) (e : Entry) → z ≢ x → m2 z ≡ m z → put_entry m2 x e z ≡ m z
  put_same_out m m2 x z e n q = put_same m2 x e z (λ p. n (sym p)) ∙ q

  leave_left :
      (m m1 : ℕ → Entry) (b : ℕ) (bl br : Tree) (x : ℕ) (r : Tree)
      → Lies m x (node (node bl b br) x r)
      → Single (node (node bl b br) x r)
      → Joint m m1 bl br
      → Cut m (detach x b (merge less bl br) m1) b (node (node bl b br) x r)
  unfolding remove put_child
  leave_left m m1 b bl br x r h s j =
      let v = merge less bl br in
      let m2 = adopt_root (root v) x m1 in
      let a = Joint-Adopted m m1 bl br x (s.3.3, s.3.4, s.3.2) j in
      let x2 = a.same x s.0.1 s.0.2 in
      let test : ((m2 x).left == b) ≡ true =
        ap (λ c. c == b) (ap (λ e. e.left) x2 ∙ h.4.0) ∙ ==_refl b in
      let sr = Same-Apart m m2 bl br r a.same (Apart-sym bl r s.2.1) (Apart-sym br r s.2.2) in
      let e : Entry = record (m2 x) { left = root v } in
      let lies =
        node-Lies m2 e v x r h.1 (Out-merge less x bl br s.0.1 s.0.2) s.1 a.under
          (Under-Same m m2 x r sr h.3) a.lies
          (subst (λ e. Lies m2 e.right r) (sym x2) (Lies-Same m m2 (m x).right r sr h.5)) in
      rw test (record {
        lies = rw (differ x b s.0.0, ==_refl b, remove-Out b r s.2.0) lies;
        same = λ z o. put_same_out m m2 x z e o.0 (a.same z o.1.1 o.1.2);
        parent = ap (λ v. v.parent) (put_self m2 x e) ∙ ap (λ v. v.parent) x2;
      })

  root_apart : (b : ℕ) (t : Tree) → b ≢ 0 → Out b t → root t ≢ b
  root_apart b leaf n o = λ e. n (sym e)
  root_apart b (node l x r) n o = λ e. o.0 (sym e)

  leave_right :
      (m m1 : ℕ → Entry) (l : Tree) (x : ℕ) (bl : Tree) (b : ℕ) (br : Tree)
      → Lies m x (node l x (node bl b br))
      → Single (node l x (node bl b br))
      → Joint m m1 bl br
      → Cut m (detach x b (merge less bl br) m1) b (node l x (node bl b br))
  unfolding remove put_child
  leave_right m m1 l x bl b br h s j =
      let v = merge less bl br in
      let m2 = adopt_root (root v) x m1 in
      let a = Joint-Adopted m m1 bl br x (s.4.3, s.4.4, s.4.2) j in
      let q = Apart-sym l (node bl b br) s.2 in
      let x2 = a.same x s.1.1 s.1.2 in
      let test : ((m2 x).left == b) ≡ false =
        ap (λ c. c == b) (ap (λ e. e.left) x2 ∙ Lies-root m (m x).left l h.4)
        ∙ differ (root l) b (root_apart b l h.5.1 q.0) in
      let sl = Same-Apart m m2 bl br l a.same (Apart-sym bl l q.1) (Apart-sym br l q.2) in
      let e : Entry = record (m2 x) { right = root v } in
      let lies =
        node-Lies m2 e l x v h.1 s.0 (Out-merge less x bl br s.1.1 s.1.2)
          (Under-Same m m2 x l sl h.2) a.under
          (subst (λ e. Lies m2 e.left l) (sym x2) (Lies-Same m m2 (m x).left l sl h.4)) a.lies in
      rw test (record {
        lies = rw (differ x b s.1.0, ==_refl b, remove-Out b l q.0) lies;
        same = λ z o. put_same_out m m2 x z e o.0 (a.same z o.2.1 o.2.2);
        parent = ap (λ v. v.parent) (put_self m2 x e) ∙ ap (λ v. v.parent) x2;
      })

  pub child_left :
      (m : ℕ → Entry) (b : ℕ) (bl br : Tree) (x : ℕ) (r : Tree)
      → Lies m x (node (node bl b br) x r)
      → Single (node (node bl b br) x r)
      → Below m b (node (node bl b br) x r) bl br
  child_left m b bl br x r h s = record {
    left = h.4.4;
    right = h.4.5;
    single = (s.3.3, s.3.4, s.3.2);
    parent = λ e. h.1 (sym h.2 ∙ e);
    less_size = omega arith;
    out = λ z o. ((λ e. o.0 (e ∙ h.2)), o.1.1, o.1.2);
    cut = λ m1 j.
        subst (λ p. Cut m (detach p b (merge less bl br) m1) b (node (node bl b br) x r)) (sym h.2)
          (leave_left m m1 b bl br x r h s j);
  }

  pub child_right :
      (m : ℕ → Entry) (l : Tree) (x : ℕ) (bl : Tree) (b : ℕ) (br : Tree)
      → Lies m x (node l x (node bl b br))
      → Single (node l x (node bl b br))
      → Below m b (node l x (node bl b br)) bl br
  child_right m l x bl b br h s = record {
    left = h.5.4;
    right = h.5.5;
    single = (s.4.3, s.4.4, s.4.2);
    parent = λ e. h.1 (sym h.3 ∙ e);
    less_size = omega arith;
    out = λ z o. ((λ e. o.0 (e ∙ h.3)), o.2.1, o.2.2);
    cut = λ m1 j.
        subst (λ p. Cut m (detach p b (merge less bl br) m1) b (node l x (node bl b br))) (sym h.3)
          (leave_right m m1 l x bl b br h s j);
  }

  -- The root of a tree stays, if another entry leaves.
  pub root-remove : (b : ℕ) (t : Tree) → root t ≢ b → root (remove less b t) ≡ root t
  unfolding remove
  root-remove b leaf n = refl
  root-remove b (node l x r) n = rw (differ x b n) refl

  pub Under-Cut :
      (m m3 : ℕ → Entry) (b p : ℕ) (t : Tree)
      → root t ≢ b
      → Cut m m3 b t
      → Under m p t
      → Under m3 p (remove less b t)
  unfolding remove
  Under-Cut m m3 b p leaf n c u = tt
  Under-Cut m m3 b p (node l x r) n c u = rw (differ x b n) (c.parent ∙ u)

  Same-Cut : (m m3 : ℕ → Entry) (b : ℕ) (t u : Tree) → Cut m m3 b t → Apart u t → Same m m3 u
  Same-Cut m m3 b t leaf c a = tt
  Same-Cut m m3 b t (node l x r) c a =
      (c.same x a.0, Same-Cut m m3 b t l c a.1, Same-Cut m m3 b t r c a.2)

  pub within_left :
      (m m3 : ℕ → Entry) (b : ℕ) (l : Tree) (x : ℕ) (r : Tree)
      → Lies m x (node l x r)
      → Single (node l x r)
      → root l ≢ b
      → x ≢ b
      → Out b r
      → Cut m m3 b l
      → Cut m m3 b (node l x r)
  unfolding remove
  within_left m m3 b l x r h s n nx o c =
      let sr = Same-Cut m m3 b l r c (Apart-sym l r s.2) in
      let x3 = c.same x s.0 in
      record {
        lies =
            rw (differ x b nx, remove-Out b r o)
              (
                refl,
                h.1,
                Under-Cut m m3 b x l n c h.2,
                Under-Same m m3 x r sr h.3,
                subst (λ a. Lies m3 a (remove less b l))
                    (sym (ap (λ e. e.left) x3 ∙ Lies-root m (m x).left l h.4)) c.lies,
                subst (λ e. Lies m3 e.right r) (sym x3) (Lies-Same m m3 (m x).right r sr h.5),
              );
        same = λ z o. c.same z o.1;
        parent = ap (λ e. e.parent) x3;
      }

  pub within_right :
      (m m3 : ℕ → Entry) (b : ℕ) (l : Tree) (x : ℕ) (r : Tree)
      → Lies m x (node l x r)
      → Single (node l x r)
      → root r ≢ b
      → x ≢ b
      → Out b l
      → Cut m m3 b r
      → Cut m m3 b (node l x r)
  unfolding remove
  within_right m m3 b l x r h s n nx o c =
      let sl = Same-Cut m m3 b r l c s.2 in
      let x3 = c.same x s.1 in
      record {
        lies =
            rw (differ x b nx, remove-Out b l o)
              (
                refl,
                h.1,
                Under-Same m m3 x l sl h.2,
                Under-Cut m m3 b x r n c h.3,
                subst (λ e. Lies m3 e.left l) (sym x3) (Lies-Same m m3 (m x).left l sl h.4),
                subst (λ a. Lies m3 a (remove less b r))
                    (sym (ap (λ e. e.right) x3 ∙ Lies-root m (m x).right r h.5)) c.lies,
              );
        same = λ z o. c.same z o.2;
        parent = ap (λ e. e.parent) x3;
      }
