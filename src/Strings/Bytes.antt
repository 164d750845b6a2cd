-- ===== src/Strings/Bytes.antt =====
-- Strings in memory, and what strlen, strcmp, strncmp and memcmp of lab2/libs/string.c say of them.
use nku_os_ucore.Common.{
  ℕ, zero, suc, ◌+◌, ◌-◌, ◌≤◌, ◌<◌, ◌≡◌, ◌⊎◌, inl, inr, refl, ap, true, false, Bool-cases, ◌&&◌,
  leb, ◌==◌, not, arith, List, [], ◌∷◌, length, ok, ℤ, pos, negsuc, ◌⊖◌,
}
use nku_os_ucore.Strings.{Memory, strcmp, strncmp, memcmp}

-- The bytes `xs`, none of them null, stand at `s`, and a null byte follows.
abbrev pub Str : Memory → ℕ → List ℕ → Type 0
Str m s [] = m s ≡ 0
Str m s (x ∷ xs) = (m s ≡ x) × (0 < x) × Str m (s + 1) xs

abbrev pub take : ℕ → List ℕ → List ℕ
take zero xs = []
take (suc n) [] = []
take (suc n) (x ∷ xs) = x ∷ take n xs

-- The `n` bytes at `s`.
abbrev pub bytes : ℕ → ℕ → Memory → List ℕ
bytes zero s m = []
bytes (suc n) s m = m s ∷ bytes n (s + 1) m

-- The order of the dictionary.
abbrev pub Lex : List ℕ → List ℕ → Type 0
Lex xs [] = 1 ≤ 0
Lex [] (y ∷ ys) = Unit
Lex (x ∷ xs) (y ∷ ys) = (x < y) ⊎ ((x ≡ y) × Lex xs ys)

-- `r` is zero for equal sequences, and else has the sign of their order.
pub data Compared : List ℕ → List ℕ → ℤ → Type 0 where
  same : (xs : List ℕ) → Compared xs xs (pos 0)
  below : (xs ys : List ℕ) (k : ℕ) → Lex xs ys → Compared xs ys (negsuc k)
  above : (xs ys : List ℕ) (k : ℕ) → Lex ys xs → Compared xs ys (pos (suc k))

Compared-cons : (x : ℕ) (xs ys : List ℕ) (r : ℤ) → Compared xs ys r → Compared (x ∷ xs) (x ∷ ys) r
Compared-cons x _ _ _ (same xs) = same (x ∷ xs)
Compared-cons x _ _ _ (below xs ys k l) = below (x ∷ xs) (x ∷ ys) k (inr (refl, l))
Compared-cons x _ _ _ (above xs ys k l) = above (x ∷ xs) (x ∷ ys) k (inr (refl, l))

⊖-below : (x y : ℕ) → x < y → x ⊖ y ≡ negsuc (y - x - 1)
⊖-below x y h = ground arith

leb-true : (x y : ℕ) → x < y → leb x y ≡ true
leb-true x y h = ground arith

⊖-above : (x y : ℕ) → y < x → x ⊖ y ≡ pos (suc (x - y - 1))
⊖-above x y h = rw (leb-true y x h) (ap pos (omega arith))

apart : (x y : ℕ) → (x == y) ≡ false → (x < y) ⊎ (y < x)
apart x y h = ground arith

-- The sign of the difference of two bytes orders what begins with them.
⊖-Compared : (x y : ℕ) (xs ys : List ℕ) → (x == y) ≡ false → Compared (x ∷ xs) (y ∷ ys) (x ⊖ y)
⊖-Compared x y xs ys n = elim (apart x y n) [
  | inl h ↦ rw (⊖-below x y h) (below (x ∷ xs) (y ∷ ys) (y - x - 1) (inl h))
  | inr h ↦ rw (⊖-above x y h) (above (x ∷ xs) (y ∷ ys) (x - y - 1) (inl h))
]

pub positive : (c : ℕ) → 0 < c → (c == 0) ≡ false
positive c h = ground arith

equal : (x y : ℕ) → (x == y) ≡ true → x ≡ y
equal x y h = ground arith

-- When the loops of `strcmp` and `strncmp` go on.
goes : (x y : ℕ) → 0 < x → (x == y) ≡ true → (not (x == 0) && x == y) ≡ true
goes x y h e = ground arith

parts : (x y : ℕ) → (x == y) ≡ false → (not (x == 0) && x == y) ≡ false
parts x y e = ground arith

stops : (x : ℕ) → (not (x == 0) && x == 0) ≡ false
stops x = ground arith

-- `memcmp` returns zero if the two blocks are equal, and else a number with the sign of their
-- order as sequences of unsigned bytes.
pub memcmp-Compared :
    (n v1 v2 : ℕ) (m : Memory) → Compared (bytes n v1 m) (bytes n v2 m) (memcmp v1 v2 n m)
unfolding memcmp
memcmp-Compared zero a b m = same []
memcmp-Compared (suc n) a b m = elim (Bool-cases (m a == m b)) [
  | inl t ↦
      let c =
        Compared-cons (m b) (bytes n (a + 1) m) (bytes n (b + 1) m) (memcmp (a + 1) (b + 1) n m)
          (memcmp-Compared n (a + 1) (b + 1) m) in
      rw (t, equal (m a) (m b) t) c
  | inr e ↦ rw e (⊖-Compared (m a) (m b) (bytes n (a + 1) m) (bytes n (b + 1) m) e)
]

-- `strncmp` compares the first `n` bytes of two strings: it returns zero if these are equal, and
-- else a number with the sign of their order in the dictionary.
pub strncmp-Compared :
    (n s1 s2 : ℕ) (m : Memory) (xs ys : List ℕ)
    → Str m s1 xs
    → Str m s2 ys
    → Compared (take n xs) (take n ys) (strncmp s1 s2 n m)
unfolding strncmp
strncmp-Compared zero a b m xs ys h k = same []
strncmp-Compared (suc n) a b m [] [] h k = rw (h, k) (same [])
strncmp-Compared (suc n) a b m [] (y ∷ ys) h k =
    rw (h, k.0, ⊖-below 0 y k.1) (below [] (y ∷ take n ys) (y - 0 - 1) tt)
strncmp-Compared (suc n) a b m (x ∷ xs) [] h k =
    rw (h.0, k, stops x) (rw (⊖-above x 0 h.1) (above (x ∷ take n xs) [] (x - 0 - 1) tt))
strncmp-Compared (suc n) a b m (x ∷ xs) (y ∷ ys) h k = elim (Bool-cases (x == y)) [
  | inl t ↦
      let c = strncmp-Compared n (a + 1) (b + 1) m xs ys h.2 k.2 in
      rw (h.0, k.0, goes x y h.1 t)
        (rw (equal x y t) (Compared-cons y (take n xs) (take n ys) (strncmp (a + 1) (b + 1) n m) c))
  | inr e ↦ rw (h.0, k.0, parts x y e) (⊖-Compared x y (take n xs) (take n ys) e)
]

-- `strcmp` on two strings, with fuel above the length of the first, returns zero if they are
-- equal, and else a number with the sign of their order in the dictionary.
pub strcmp-Compared :
    (fuel s1 s2 : ℕ) (m : Memory) (xs ys : List ℕ)
    → length xs < fuel
    → Str m s1 xs
    → Str m s2 ys
    → (r : ℤ) × (strcmp fuel s1 s2 m ≡ ok r) × Compared xs ys r
unfolding strcmp
strcmp-Compared zero a b m xs ys f h k = absurd (omega arith)
strcmp-Compared (suc f) a b m [] [] l h k = (pos 0, rw (h, k) refl, same [])
strcmp-Compared (suc f) a b m [] (y ∷ ys) l h k =
    (negsuc (y - 0 - 1), rw (h, k.0) (ap ok (⊖-below 0 y k.1)), below [] (y ∷ ys) (y - 0 - 1) tt)
strcmp-Compared (suc f) a b m (x ∷ xs) [] l h k = (
  pos (suc (x - 0 - 1)),
  rw (h.0, k, stops x) (ap ok (⊖-above x 0 h.1)),
  above (x ∷ xs) [] (x - 0 - 1) tt,
)
strcmp-Compared (suc f) a b m (x ∷ xs) (y ∷ ys) l h k = elim (Bool-cases (x == y)) [
  | inl t ↦
      let (r, e, c) = strcmp-Compared f (a + 1) (b + 1) m xs ys (omega arith) h.2 k.2 in
      (r, rw (h.0, k.0, goes x y h.1 t) e, rw (equal x y t) (Compared-cons y xs ys r c))
  | inr e ↦ (x ⊖ y, rw (h.0, k.0, parts x y e) refl, ⊖-Compared x y xs ys e)
]
