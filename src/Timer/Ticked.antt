-- ===== src/Timer/Ticked.antt =====
-- What a tick does to the timers and to the processes in lab8/kern/schedule/sched.c.
use nku_os_ucore.Common.{
  ℕ, ◌≡◌, refl, sym, ap, subst, true, false, Bool-cases, List, [], ◌∷◌, arith, ◌==◌, if◌then◌else◌,
  inl, inr, All, some,
}
use nku_os_ucore.Proc.{proc_runnable}
use nku_os_ucore.Timer.{Timer, Task, Sched, put}
use nku_os_ucore.Timer.Add.{Queue}
use nku_os_ucore.Timer.Wake.{is_dead, may_wake, Later}

-- The times after the expired timers.
abbrev pub later_dues : List (ℕ × ℕ) → List (ℕ × ℕ)
later_dues [] = []
later_dues (d ∷ ds) = if d.1 == 0 then later_dues ds else d ∷ ds

-- The expired timers.
abbrev pub expired : List (ℕ × ℕ) → List ℕ
expired [] = []
expired (d ∷ ds) = if d.1 == 0 then d.0 ∷ expired ds else []

-- The process of the timer `x` sleeps in a way that a timer may end.
abbrev pub Waits : {R : Type 0} → Sched R → ℕ → Type 0
Waits s x =
    (p : ℕ) × ((s.timer x).proc ≡ some p)
    × (may_wake (s.task p) ≡ true)
    × (is_dead (s.task p) ≡ false)

-- The process of the timer `x` of `s` can run in `s'`.
abbrev pub Runs : {R : Type 0} → Sched R → Sched R → ℕ → Type 0
Runs s s' x = (p : ℕ) × ((s.timer x).proc ≡ some p) × ((s'.task p).state ≡ proc_runnable)

-- The expired timers are off the list and their processes can run; no other process changes but
-- to run.
pub record Ticked {R : Type 0} (s s' : Sched R) (ds : List (ℕ × ℕ)) (xs : List ℕ) : Type 0 where
  pub queue : Queue s'.links s'.timer (later_dues ds) xs
  pub later : (x : ℕ) → Later (s.task x) (s'.task x)
  pub runs : All (Runs s s') (expired ds)

pub put-proc : (m : ℕ → Timer) (t e x : ℕ) → (put m t e x).proc ≡ (m x).proc
put-proc m t e x = elim (Bool-cases (x == t)) [
  | inl q ↦ rw q (ap (λ v. (m v).proc) (sym (same x t q)))
  | inr q ↦ rw q refl
]
  where
    same : (x t : ℕ) → (x == t) ≡ true → x ≡ t
    same x t q = ground arith

pub Later-trans : (a b c : Task) → Later a b → Later b c → Later a c
Later-trans a b c p (inr q) = inr q
Later-trans a b c p (inl q) = subst (Later a) (sym q) p

pub Later-may_wake : (a b : Task) → Later a b → may_wake a ≡ true → may_wake b ≡ true
Later-may_wake a b (inl q) h = rw q h
Later-may_wake a b (inr q) h = rw q.1 refl

pub Later-is_dead : (a b : Task) → Later a b → is_dead a ≡ false → is_dead b ≡ false
Later-is_dead a b (inl q) h = rw q h
Later-is_dead a b (inr q) h = rw q.0 refl

pub Later-runs : (a b : Task) → Later a b → a.state ≡ proc_runnable → b.state ≡ proc_runnable
Later-runs a b (inl q) h = rw q h
Later-runs a b (inr q) h = q.0
