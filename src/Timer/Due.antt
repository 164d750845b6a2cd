-- ===== src/Timer/Due.antt =====
-- The timers of lab8/kern/schedule/sched.c with the time that each has left.
use nku_os_ucore.Common.{
  ℕ, ◌+◌, ◌≡◌, ◌≢◌, false, refl, sym, ap, List, [], ◌∷◌, arith, ltb, ◌==◌, if◌then◌else◌,
}
use nku_os_ucore.Common.Distinct.{NotIn}
use nku_os_ucore.Timer.{Timer, put}

-- Each timer with the sum of the `expires` fields up to it, from `acc` on.
abbrev pub dues : (ℕ → Timer) → ℕ → List ℕ → List (ℕ × ℕ)
dues m acc [] = []
dues m acc (x ∷ xs) = (x, acc + (m x).expires) ∷ dues m (acc + (m x).expires) xs

-- The place of a timer by its time, behind those with the same time.
abbrev pub insert_due : ℕ → ℕ → List (ℕ × ℕ) → List (ℕ × ℕ)
insert_due t e [] = (t, e) ∷ []
insert_due t e (d ∷ ds) = if ltb e d.1 then (t, e) ∷ d ∷ ds else d ∷ insert_due t e ds

pub dues-put :
    (m : ℕ → Timer) (t e acc : ℕ) (xs : List ℕ)
    → NotIn t xs
    → dues (put m t e) acc xs ≡ dues m acc xs
dues-put m t e acc [] n = refl
dues-put m t e acc (x ∷ xs) n =
    rw (other x t (λ q. n.0 (sym q)))
      (ap (λ ds. (x, acc + (m x).expires) ∷ ds) (dues-put m t e (acc + (m x).expires) xs n.1))
  where
    other : (x t : ℕ) → x ≢ t → (x == t) ≡ false
    other x t h = ground arith
