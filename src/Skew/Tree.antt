-- ===== src/Skew/Tree.antt =====
-- The trees that the heaps of lab8/libs/skew_heap.h are.
use nku_os_ucore.Common.{
  ℕ, ◌+◌, ◌≡◌, ◌≢◌, refl, sym, Bool, true, false, Bool-cases, ◌==◌, if◌then◌else◌, inl, inr, arith,
  subst,
}

pub data Tree : Type 0 where
  leaf : Tree
  node : Tree → ℕ → Tree → Tree

abbrev pub size : Tree → ℕ
size leaf = 0
size (node l x r) = size l + size r + 1

abbrev pub root : Tree → ℕ
root leaf = 0
root (node l x r) = x

-- How often the entry is in the tree.
abbrev pub count : ℕ → Tree → ℕ
count z leaf = 0
count z (node l x r) = (if z == x then 1 else 0) + count z l + count z r

-- The tree has not the entry `z`.
abbrev pub Out : ℕ → Tree → Type 0
Out z leaf = Unit {0}
Out z (node l x r) = (z ≢ x) × Out z l × Out z r

-- Every entry has the property.
abbrev pub Each {ℓ} : (ℕ → Type ℓ) → Tree → Type ℓ
Each P leaf = Unit
Each P (node l x r) = P x × Each P l × Each P r

-- No entry of the first tree is in the second.
abbrev pub Apart : Tree → Tree → Type 0
Apart t u = Each (λ x. Out x u) t

-- No entry stands twice.
abbrev pub Single : Tree → Type 0
Single leaf = Unit {0}
Single (node l x r) = Out x l × Out x r × Apart l r × Single l × Single r

pub Each-map {ℓ κ} :
    {P : ℕ → Type ℓ} {Q : ℕ → Type κ} (t : Tree) → ((x : ℕ) → P x → Q x) → Each P t → Each Q t
Each-map leaf f h = tt
Each-map (node l x r) f h = (f x h.0, Each-map l f h.1, Each-map r f h.2)

Apart-node :
    (t l : Tree) (x : ℕ) (r : Tree) → Out x t → Apart t l → Apart t r → Apart t (node l x r)
Apart-node leaf l x r o a b = tt
Apart-node (node u y v) l x r o a b =
    (((λ e. o.0 (sym e)), a.0, b.0), Apart-node u l x r o.1 a.1 b.1, Apart-node v l x r o.2 a.2 b.2)

Apart-leaf : (t : Tree) → Apart t leaf
Apart-leaf leaf = tt
Apart-leaf (node l x r) = (tt, Apart-leaf l, Apart-leaf r)

pub Apart-sym : (t u : Tree) → Apart t u → Apart u t
Apart-sym leaf u a = Apart-leaf u
Apart-sym (node l x r) u a = Apart-node u l x r a.0 (Apart-sym l u a.1) (Apart-sym r u a.2)

module _ (less : ℕ → ℕ → Bool) where
  unfoldable pub merge : Tree → Tree → Tree
  merge leaf u = u
  merge (node l x r) leaf = node l x r
  merge (node l x r) (node l' y r') = elim (less x y) [
    | true ↦ node (merge r (node l' y r')) x l
    | false ↦ node (merge (node l x r) r') y l'
  ]

  -- The tree without the entry.
  unfoldable pub remove : ℕ → Tree → Tree
  remove b leaf = leaf
  remove b (node l x r) = if x == b then merge l r else node (remove b l) x (remove b r)

  -- A statement on a merge of two trees, by their roots.
  pub merge_cases {ℓ} :
      (P : Tree → Type ℓ) (l : Tree) (x : ℕ) (r l' : Tree) (y : ℕ) (r' : Tree)
      → (less x y ≡ true → P (node (merge r (node l' y r')) x l))
      → (less x y ≡ false → P (node (merge (node l x r) r') y l'))
      → P (merge (node l x r) (node l' y r'))
  unfolding merge
  merge_cases P l x r l' y r' f g = elim (Bool-cases (less x y)) [
    | inl e ↦ subst P (rw (merge, e) refl) (f e)
    | inr e ↦ subst P (rw (merge, e) refl) (g e)
  ]

  pub Each-merge {ℓ} : (P : ℕ → Type ℓ) (t u : Tree) → Each P t → Each P u → Each P (merge t u)
  unfolding merge
  Each-merge P leaf u h k = k
  Each-merge P (node l x r) leaf h k = h
  Each-merge P (node l x r) (node l' y r') h k =
      merge_cases (Each P) l x r l' y r' (λ e. (h.0, Each-merge P r (node l' y r') h.2 k, h.1))
        (λ e. (k.0, Each-merge P (node l x r) r' h k.2, k.1))

  pub Out-merge : (z : ℕ) (t u : Tree) → Out z t → Out z u → Out z (merge t u)
  unfolding merge
  Out-merge z leaf u h k = k
  Out-merge z (node l x r) leaf h k = h
  Out-merge z (node l x r) (node l' y r') h k =
      merge_cases (Out z) l x r l' y r' (λ e. (h.0, Out-merge z r (node l' y r') h.2 k, h.1))
        (λ e. (k.0, Out-merge z (node l x r) r' h k.2, k.1))

  pub count-merge : (z : ℕ) (t u : Tree) → count z (merge t u) ≡ count z t + count z u
  unfolding merge
  count-merge z leaf u = omega arith
  count-merge z (node l x r) leaf = omega arith
  count-merge z (node l x r) (node l' y r') =
      merge_cases (λ v. count z v ≡ count z (node l x r) + count z (node l' y r')) l x r l' y r'
        (λ e. omega (arith, count-merge z r (node l' y r')))
        (λ e. omega (arith, count-merge z (node l x r) r'))

  pub size-merge : (t u : Tree) → size (merge t u) ≡ size t + size u
  unfolding merge
  size-merge leaf u = omega arith
  size-merge (node l x r) leaf = omega arith
  size-merge (node l x r) (node l' y r') =
      merge_cases (λ v. size v ≡ size (node l x r) + size (node l' y r')) l x r l' y r'
        (λ e. omega (arith, size-merge r (node l' y r')))
        (λ e. omega (arith, size-merge (node l x r) r'))

  pub Single-merge : (t u : Tree) → Single t → Single u → Apart t u → Single (merge t u)
  unfolding merge
  Single-merge leaf u h k a = k
  Single-merge (node l x r) leaf h k a = h
  Single-merge (node l x r) (node l' y r') h k a =
      let b = Apart-sym (node l x r) (node l' y r') a in
      merge_cases Single l x r l' y r'
        (λ e. (
          Out-merge x r (node l' y r') h.1 a.0,
          h.0,
          Each-merge (λ z. Out z l) r (node l' y r') (Apart-sym l r h.2)
              (Apart-sym l (node l' y r') a.1),
          Single-merge r (node l' y r') h.4 k a.2,
          h.3,
        ))
        (λ e. (
          Out-merge y (node l x r) r' b.0 k.1,
          k.0,
          Each-merge (λ z. Out z l') (node l x r) r' (Apart-sym l' (node l x r) b.1)
              (Apart-sym l' r' k.2),
          Single-merge (node l x r) r' h k.4 (Apart-sym r' (node l x r) b.2),
          k.3,
        ))
