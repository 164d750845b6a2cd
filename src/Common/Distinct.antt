-- ===== src/Common/Distinct.antt =====
-- Lists of addresses without repetition.
use Prim.Native.Nat.{ℕ}
use mathlib.Core.Path.{sym}
use mathlib.Core.Logic.{◌≢◌}
use mathlib.Core.List.{List, [], ◌∷◌, ◌++◌}

abbrev pub NotIn : ℕ → List ℕ → Type 0
NotIn a [] = Unit {0}
NotIn a (x ∷ xs) = (a ≢ x) × NotIn a xs

abbrev pub Distinct : List ℕ → Type 0
Distinct [] = Unit {0}
Distinct (x ∷ xs) = NotIn x xs × Distinct xs

-- The last of a list that begins with `a`.
abbrev pub last : ℕ → List ℕ → ℕ
last a [] = a
last a (x ∷ xs) = last x xs

-- The first of a list, or else `b`.
abbrev pub first : List ℕ → ℕ → ℕ
first [] b = b
first (x ∷ xs) b = x

pub NotIn-last : (e a : ℕ) (xs : List ℕ) → e ≢ a → NotIn e xs → e ≢ last a xs
NotIn-last e a [] h k = h
NotIn-last e a (x ∷ xs) h k = NotIn-last e x xs k.0 k.1

pub NotIn-append : (e : ℕ) (xs ys : List ℕ) → NotIn e xs → NotIn e ys → NotIn e (xs ++ ys)
NotIn-append e [] ys h k = k
NotIn-append e (x ∷ xs) ys h k = (h.0, NotIn-append e xs ys h.1 k)

pub NotIn-append_left : (e : ℕ) (xs ys : List ℕ) → NotIn e (xs ++ ys) → NotIn e xs
NotIn-append_left e [] ys h = tt
NotIn-append_left e (x ∷ xs) ys h = (h.0, NotIn-append_left e xs ys h.1)

pub NotIn-append_right : (e : ℕ) (xs ys : List ℕ) → NotIn e (xs ++ ys) → NotIn e ys
NotIn-append_right e [] ys h = h
NotIn-append_right e (x ∷ xs) ys h = NotIn-append_right e xs ys h.1

pub Distinct-append_left : (xs ys : List ℕ) → Distinct (xs ++ ys) → Distinct xs
Distinct-append_left [] ys h = tt
Distinct-append_left (x ∷ xs) ys h = (NotIn-append_left x xs ys h.0, Distinct-append_left xs ys h.1)

pub Distinct-append_right : (xs ys : List ℕ) → Distinct (xs ++ ys) → Distinct ys
Distinct-append_right [] ys h = h
Distinct-append_right (x ∷ xs) ys h = Distinct-append_right xs ys h.1

-- An element of a list without repetition is neither before nor after itself.
pub Distinct-middle :
    (xs : List ℕ) (x : ℕ) (ys : List ℕ) → Distinct (xs ++ x ∷ ys) → NotIn x xs × NotIn x ys
Distinct-middle [] x ys h = (tt, h.0)
Distinct-middle (z ∷ xs) x ys h =
    let r = Distinct-middle xs x ys h.1 in
    (((λ e. (NotIn-append_right z xs (x ∷ ys) h.0).0 (sym e)), r.0), r.1)

pub Distinct-remove :
    (xs : List ℕ) (x : ℕ) (ys : List ℕ) → Distinct (xs ++ x ∷ ys) → Distinct (xs ++ ys)
Distinct-remove [] x ys h = h.1
Distinct-remove (z ∷ xs) x ys h = (
  NotIn-append z xs ys (NotIn-append_left z xs (x ∷ ys) h.0)
      (NotIn-append_right z xs (x ∷ ys) h.0).1,
  Distinct-remove xs x ys h.1,
)

pub Distinct-insert :
    (xs : List ℕ) (x : ℕ) (ys : List ℕ)
    → NotIn x (xs ++ ys)
    → Distinct (xs ++ ys)
    → Distinct (xs ++ x ∷ ys)
Distinct-insert [] x ys k h = (k, h)
Distinct-insert (z ∷ xs) x ys k h = (
  NotIn-append z xs (x ∷ ys) (NotIn-append_left z xs ys h.0)
      ((λ e. k.0 (sym e)), NotIn-append_right z xs ys h.0),
  Distinct-insert xs x ys k.1 h.1,
)

-- The last entry of a prefix is not met again.
pub NotIn-last_of_Distinct :
    (a : ℕ) (xs ys : List ℕ) → Distinct (a ∷ xs ++ ys) → NotIn (last a xs) ys
NotIn-last_of_Distinct a [] ys h = h.0
NotIn-last_of_Distinct a (x ∷ xs) ys h = NotIn-last_of_Distinct x xs ys h.1

pub NotIn-remove :
    (e : ℕ) (xs : List ℕ) (x : ℕ) (ys : List ℕ) → NotIn e (xs ++ x ∷ ys) → NotIn e (xs ++ ys)
NotIn-remove e [] x ys h = h.1
NotIn-remove e (z ∷ xs) x ys h = (h.0, NotIn-remove e xs x ys h.1)

pub NotIn-insert :
    (e : ℕ) (xs : List ℕ) (x : ℕ) (ys : List ℕ)
    → e ≢ x
    → NotIn e (xs ++ ys)
    → NotIn e (xs ++ x ∷ ys)
NotIn-insert e [] x ys n h = (n, h)
NotIn-insert e (z ∷ xs) x ys n h = (h.0, NotIn-insert e xs x ys n h.1)
