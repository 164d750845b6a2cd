-- ===== src/Skew/Order.antt =====
-- The order in the trees of lab8/libs/skew_heap.h.
use nku_os_ucore.Common.{ℕ, ◌≤◌, ◌≡◌, sym, ◌∙◌, Bool, true, false, ltb, arith}
use nku_os_ucore.Skew.Tree.{Tree, leaf, node, Each, Each-map, merge, merge_cases, Each-merge}

-- Every entry of the tree comes at or behind `k`.
abbrev pub Least : (ℕ → ℕ) → ℕ → Tree → Type 0
Least key k t = Each (λ y. k ≤ key y) t

-- No entry comes behind an entry below it.
abbrev pub Ordered : (ℕ → ℕ) → Tree → Type 0
Ordered key leaf = Unit {0}
Ordered key (node l x r) = Least key (key x) l × Least key (key x) r × Ordered key l × Ordered key r

Least-weaken : (key : ℕ → ℕ) (a b : ℕ) (t : Tree) → a ≤ b → Least key b t → Least key a t
Least-weaken key a b t h k = Each-map t (λ x (q : b ≤ key x). le_trans' a b (key x) h q) k
  where
    le_trans' : (a b c : ℕ) → a ≤ b → b ≤ c → a ≤ c
    le_trans' a b c h k = omega arith

Least-node :
    (key : ℕ → ℕ) (k : ℕ) (l : Tree) (x : ℕ) (r : Tree)
    → k ≤ key x
    → Ordered key (node l x r)
    → Least key k (node l x r)
Least-node key k l x r h o =
    (h, Least-weaken key k (key x) l h o.0, Least-weaken key k (key x) r h o.1)

before : (a b : ℕ) → ltb a b ≡ true → a ≤ b
before a b h = ground arith

behind : (a b : ℕ) → ltb a b ≡ false → b ≤ a
behind a b h = ground arith

-- The comparison reads the keys of entries with the property `P`.
abbrev pub Reads : (ℕ → ℕ → Bool) → (ℕ → ℕ) → (ℕ → Type 0) → Type 0
Reads less key P = (x y : ℕ) → P x → P y → less x y ≡ ltb (key x) (key y)

pub Ordered-merge :
    (less : ℕ → ℕ → Bool) (key : ℕ → ℕ) (P : ℕ → Type 0)
    → Reads less key P
    → (t u : Tree) → Each P t
    → Each P u
    → Ordered key t
    → Ordered key u
    → Ordered key (merge less t u)
unfolding merge
Ordered-merge less key P agree leaf u p q h k = k
Ordered-merge less key P agree (node l x r) leaf p q h k = h
Ordered-merge less key P agree (node l x r) (node l' y r') p q h k =
    let a = agree x y p.0 q.0 in
    merge_cases less (Ordered key) l x r l' y r'
      (λ e. (
        Each-merge less (λ z. key x ≤ key z) r (node l' y r') h.1
            (Least-node key (key x) l' y r' (before (key x) (key y) (sym a ∙ e)) k),
        h.0,
        Ordered-merge less key P agree r (node l' y r') p.2 q h.3 k,
        h.2,
      ))
      (λ e. (
        Each-merge less (λ z. key y ≤ key z) (node l x r) r'
            (Least-node key (key y) l x r (behind (key x) (key y) (sym a ∙ e)) h) k.1,
        k.0,
        Ordered-merge less key P agree (node l x r) r' p q.2 h k.3,
        k.2,
      ))
