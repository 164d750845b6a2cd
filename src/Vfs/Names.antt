-- ===== src/Vfs/Names.antt =====
-- Names of devices: the comparison that lab8/kern/fs/vfs/vfsdev.c makes with strcmp.
use nku_os_ucore.Common.{
  ℕ, ◌≡◌, refl, Bool, true, false, not, Bool-cases, ◌==◌, ◌||◌, if◌then◌else◌, inl, inr, List, [],
  ◌∷◌, map, arith, Option, none, some,
}
use nku_os_ucore.Vfs.{same_text}

pub same_text_self : (xs : List ℕ) → same_text xs xs ≡ true
same_text_self [] = refl
same_text_self (x ∷ xs) = rw (equal x) (same_text_self xs)
  where
    equal : (c : ℕ) → (c == c) ≡ true
    equal c = ground arith

-- The name is among the names `ns`.
abbrev pub known : List ℕ → List (List ℕ) → Bool
known n [] = false
known n (m ∷ ms) = same_text n m || known n ms

-- No name occurs twice.
abbrev pub Unique : List (List ℕ) → Type 0
Unique [] = Unit {0}
Unique (n ∷ ns) = (known n ns ≡ false) × Unique ns

-- The first entry with the property.
abbrev pub first_of : (ℕ → Bool) → List ℕ → Option ℕ
first_of found [] = none
first_of found (x ∷ xs) = if found x then some x else first_of found xs

abbrev pub is_none : Option ℕ → Bool
is_none none = true
is_none (some x) = false

pub first_of-known :
    (name : ℕ → List ℕ) (n : List ℕ) (xs : List ℕ)
    → is_none (first_of (λ x. same_text n (name x)) xs) ≡ not (known n (map name xs))
first_of-known name n [] = refl
first_of-known name n (x ∷ xs) = elim (Bool-cases (same_text n (name x))) [
  | inl e ↦ rw e refl
  | inr e ↦ rw e (first_of-known name n xs)
]
