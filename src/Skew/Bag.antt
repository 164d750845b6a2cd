-- ===== src/Skew/Bag.antt =====
-- The entries that the operations of lab8/libs/skew_heap.h leave in a tree.
use nku_os_ucore.Common.{
  ℕ, ◌+◌, ◌≤◌, ◌≡◌, ◌≢◌, sym, ◌∙◌, subst, Bool, false, ◌==◌, if◌then◌else◌, inl, inr, arith,
  ==_refl, ℕ_discrete,
}
use nku_os_ucore.Skew.Tree.{
  Tree, leaf, node, size, count, size-merge, Out, Each, Apart-sym, Single, remove, count-merge,
  Each-merge, Out-merge, Single-merge, Each-map,
}
use nku_os_ucore.Skew.Order.{Ordered, Reads, Ordered-merge}
use nku_os_ucore.Skew.Detach.{Inside, remove-Out}
use nku_os_ucore.Skew.Remove.{Inside-Out}

pub other : (x b : ℕ) (t : Tree) → Inside b t → Out x t → x ≢ b
other x b leaf i o = elim i [ ]
other x b (node l y r) (inl e) o = λ q. o.0 (q ∙ sym e)
other x b (node l y r) (inr (inl i)) o = other x b l i o.1
other x b (node l y r) (inr (inr i)) o = other x b r i o.2

module _ (less : ℕ → ℕ → Bool) where
  differ : (x b : ℕ) → x ≢ b → (x == b) ≡ false
  differ x b h = ground arith

  pub Each-remove {ℓ} : (P : ℕ → Type ℓ) (b : ℕ) (t : Tree) → Each P t → Each P (remove less b t)
  unfolding remove
  Each-remove P b leaf h = h
  Each-remove P b (node l x r) h = elim (ℕ_discrete x b) [
    | yes e ↦ rw (e, ==_refl b) (Each-merge less P l r h.1 h.2)
    | no n ↦ rw (differ x b n) (h.0, Each-remove P b l h.1, Each-remove P b r h.2)
  ]

  pub Ordered-remove :
      (key : ℕ → ℕ) (P : ℕ → Type 0)
      → Reads less key P
      → (b : ℕ) (t : Tree) → Each P t
      → Ordered key t
      → Ordered key (remove less b t)
  unfolding remove
  Ordered-remove key P a b leaf p h = h
  Ordered-remove key P a b (node l x r) p h = elim (ℕ_discrete x b) [
    | yes e ↦ rw (e, ==_refl b) (Ordered-merge less key P a l r p.1 p.2 h.2 h.3)
    | no n ↦ rw (differ x b n) (
      Each-remove (λ y. key x ≤ key y) b l h.0,
      Each-remove (λ y. key x ≤ key y) b r h.1,
      Ordered-remove key P a b l p.1 h.2,
      Ordered-remove key P a b r p.2 h.3,
    )
  ]

  pub count-remove :
      (z b : ℕ) (t : Tree)
      → Single t
      → Inside b t
      → count z (remove less b t) + (if z == b then 1 else 0) ≡ count z t
  unfolding remove
  count-remove z b leaf s i = elim i [ ]
  count-remove z b (node l x r) s (inl e) =
      subst
        (λ c.
          count z (remove less c (node l x r)) + (if z == c then 1 else 0) ≡ count z (node l x r))
        e (rw (==_refl x) (omega (arith, count-merge less z l r)))
  count-remove z b (node l x r) s (inr (inl i)) =
      let n : x ≢ b = other x b l i s.0 in
      rw (differ x b n, remove-Out less b r (Inside-Out b l r i s.2))
        (omega (arith, count-remove z b l s.3 i))
  count-remove z b (node l x r) s (inr (inr i)) =
      let n : x ≢ b = other x b r i s.1 in
      rw (differ x b n, remove-Out less b l (Inside-Out b r l i (Apart-sym l r s.2)))
        (omega (arith, count-remove z b r s.4 i))

  pub size-remove : (b : ℕ) (t : Tree) → Single t → Inside b t → size (remove less b t) + 1 ≡ size t
  unfolding remove
  size-remove b leaf s i = elim i [ ]
  size-remove b (node l x r) s (inl e) =
      subst (λ c. size (remove less c (node l x r)) + 1 ≡ size (node l x r)) e
        (rw (==_refl x) (omega (arith, size-merge less l r)))
  size-remove b (node l x r) s (inr (inl i)) =
      rw (differ x b (other x b l i s.0), remove-Out less b r (Inside-Out b l r i s.2))
        (omega (arith, size-remove b l s.3 i))
  size-remove b (node l x r) s (inr (inr i)) =
      rw
        (
          differ x b (other x b r i s.1),
          remove-Out less b l (Inside-Out b r l i (Apart-sym l r s.2)),
        )
        (omega (arith, size-remove b r s.4 i))

  Out-remove : (z b : ℕ) (t : Tree) → Out z t → Out z (remove less b t)
  unfolding remove
  Out-remove z b leaf o = o
  Out-remove z b (node l x r) o = elim (ℕ_discrete x b) [
    | yes e ↦ rw (e, ==_refl b) (Out-merge less z l r o.1 o.2)
    | no n ↦ rw (differ x b n) (o.0, Out-remove z b l o.1, Out-remove z b r o.2)
  ]

  pub Single-remove : (b : ℕ) (t : Tree) → Single t → Single (remove less b t)
  unfolding remove
  Single-remove b leaf s = s
  Single-remove b (node l x r) s = elim (ℕ_discrete x b) [
    | yes e ↦ rw (e, ==_refl b) (Single-merge less l r s.3 s.4 s.2)
    | no n ↦ rw (differ x b n) (
      Out-remove x b l s.0,
      Out-remove x b r s.1,
      Each-remove (λ z. Out z (remove less b r)) b l (Each-map l (λ z o. Out-remove z b r o) s.2),
      Single-remove b l s.3,
      Single-remove b r s.4,
    )
  ]
