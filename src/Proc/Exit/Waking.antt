-- ===== src/Proc/Exit/Waking.antt =====
-- The waking of initproc in the loop of do_exit, Lab5/kern/process/proc.c.
use nku_os_ucore.Common.{
  ℕ, ◌≡◌, refl, subst, Bool, true, false, Bool-cases, List, [], ◌∷◌, arith, inl, inr, ◌==◌, ok,
  Outcome,
}
use nku_os_ucore.Proc.{
  Status, proc_uninit, proc_sleeping, proc_runnable, proc_zombie, Kernel, set, wakeup_proc,
  wt_child,
}
use nku_os_ucore.Proc.Family.{Same}
use nku_os_ucore.Proc.Exit.{is_zombie, wakeup_waiting}

-- The children given away, the last one first, before those that `initproc` had.
abbrev pub onto : List ℕ → List ℕ → List ℕ
onto [] ds = ds
onto (c ∷ cs) ds = onto cs (c ∷ ds)

-- A process that is woken keeps its relations.
abbrev pub Kept : ℕ → Kernel → Outcome Kernel → Type 0
Kept q k r =
    (k' : Kernel) × (r ≡ ok k')
    × (k' ≡ record k { procs = k'.procs })
    × (is_zombie (k'.procs q) ≡ false)
    × ((x : ℕ) → Same k.procs k'.procs x × ((k'.procs x).cptr ≡ (k.procs x).cptr))

pub all-Kept : (q : ℕ) (k : Kernel) → is_zombie (k.procs q) ≡ false → Kept q k (ok k)
all-Kept q k z = (k, refl, refl, z, λ x. ((refl, refl, refl), refl))

abbrev woken : ℕ → Kernel → Kernel
woken q k = record k {
  procs = set k.procs q (record (k.procs q) { state = proc_runnable; wait_state = 0 });
}

woken-Kept : (q : ℕ) (k : Kernel) → Kept q k (ok (woken q k))
woken-Kept q k = (
  woken q k,
  refl,
  refl,
  rw (equal q) refl,
  λ x. ((ground arith, ground arith, ground arith), ground arith),
)
  where
    equal : (c : ℕ) → (c == c) ≡ true
    equal c = ground arith

wakeup_proc-Kept :
    (q : ℕ) (k : Kernel) (s : Status)
    → (k.procs q).state ≡ s
    → is_zombie (k.procs q) ≡ false
    → Kept q k (wakeup_proc q k)
unfolding wakeup_proc
wakeup_proc-Kept q k proc_zombie e z =
    cc (subst (λ s. (elim s as (λ _. Bool) [ proc_zombie ↦ true | other ↦ false ]) ≡ false) e z)
wakeup_proc-Kept q k proc_runnable e z =
    subst (Kept q k) {x = ok k} (rw (wakeup_proc, e) refl) (all-Kept q k z)
wakeup_proc-Kept q k proc_uninit e z =
    subst (Kept q k) {x = ok (woken q k)} (rw (wakeup_proc, e) refl) (woken-Kept q k)
wakeup_proc-Kept q k proc_sleeping e z =
    subst (Kept q k) {x = ok (woken q k)} (rw (wakeup_proc, e) refl) (woken-Kept q k)

pub wakeup_waiting-Kept :
    (q : ℕ) (k : Kernel) → is_zombie (k.procs q) ≡ false → Kept q k (wakeup_waiting q k)
unfolding wakeup_waiting
wakeup_waiting-Kept q k z = elim (Bool-cases ((k.procs q).wait_state == wt_child)) [
  | inl t ↦
      subst (Kept q k) {x = wakeup_proc q k} (rw (wakeup_waiting, t) refl)
        (wakeup_proc-Kept q k (k.procs q).state refl z)
  | inr t ↦ subst (Kept q k) {x = ok k} (rw (wakeup_waiting, t) refl) (all-Kept q k z)
]
