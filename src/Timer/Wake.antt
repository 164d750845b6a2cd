-- ===== src/Timer/Wake.antt =====
-- The waking of processes in lab8/kern/schedule/sched.c.
use nku_os_ucore.Common.{
  ℕ, ◌≡◌, refl, sym, ◌∙◌, subst, Bool, true, false, Bool-cases, arith, ◌==◌, ◌||◌, if◌then◌else◌,
  inl, inr, ◌⊎◌, some, ok, Outcome,
}
use nku_os_ucore.Proc.{
  Status, proc_uninit, proc_sleeping, proc_runnable, proc_zombie, interruptible,
}
use nku_os_ucore.Timer.{
  Task, SchedClass, Sched, put_task, is_task, sched_class_enqueue, wakeup_task, wakeup_of,
}

abbrev pub is_dead : Task → Bool
is_dead t = elim t.state [ proc_zombie ↦ true | other ↦ false ]

-- `run_timer_list` accepts the sleep of this process.
abbrev pub may_wake : Task → Bool
may_wake t = t.wait_state == 0 || interruptible t.wait_state

-- The process stays as it is, or can run now.
abbrev pub Later : Task → Task → Type 0
Later a b = (b ≡ a) ⊎ ((b.state ≡ proc_runnable) × (b.wait_state ≡ 0))

-- Only processes and the run queue change; the process `p` can run.
abbrev pub Woken : {R : Type 0} → ℕ → Sched R → Outcome (Sched R) → Type 0
Woken {R} p s r =
    (t : ℕ → Task) × (q : R) × (r ≡ ok (record s { task = t; rq = q }))
    × ((x : ℕ) → Later (s.task x) (t x))
    × ((t p).state ≡ proc_runnable)

abbrev roused : {R : Type 0} → ℕ → Sched R → Sched R
roused p s = record s {
  task = put_task s.task p (record (s.task p) { state = proc_runnable; wait_state = 0 });
}

roused-Later : {R : Type 0} (p x : ℕ) (s : Sched R) → Later (s.task x) ((roused p s).task x)
roused-Later p x s = elim (Bool-cases (x == p)) [
  | inl e ↦ inr (rw e refl, rw e refl)
  | inr e ↦ inl (rw e refl)
]

pub equal : (c : ℕ) → (c == c) ≡ true
equal c = ground arith

roused_runs : {R : Type 0} (p : ℕ) (s : Sched R) → ((roused p s).task p).state ≡ proc_runnable
roused_runs p s = rw (equal p) refl

roused-Woken :
    {R : Type 0} (class : SchedClass R) (p : ℕ) (s : Sched R)
    → Woken p s
        (ok (if is_task s.current p then roused p s else sched_class_enqueue class p (roused p s)))
unfolding sched_class_enqueue
roused-Woken class p s = elim (Bool-cases (is_task s.current p)) [
  | inl e ↦ ((roused p s).task, s.rq, rw e refl, (λ x. roused-Later p x s), roused_runs p s)
  | inr e ↦ elim (Bool-cases (p == s.idleproc)) [
    | inl i ↦ ((roused p s).task, s.rq, rw (e, i) refl, (λ x. roused-Later p x s), roused_runs p s)
    | inr i ↦ (
      (roused p s).task,
      class.enqueue p s.rq,
      rw (e, i) refl,
      (λ x. roused-Later p x s),
      roused_runs p s,
    )
  ]
]

dead : (t : Task) → t.state ≡ proc_zombie → is_dead t ≡ true
dead t e = rw e refl

wakeup_task-Woken :
    {R : Type 0} (class : SchedClass R) (p : ℕ) (s : Sched R) (st : Status)
    → (s.task p).state ≡ st
    → is_dead (s.task p) ≡ false
    → Woken p s (wakeup_task class p s)
unfolding wakeup_task
wakeup_task-Woken class p s proc_zombie e d = absurd (cc (sym (dead (s.task p) e) ∙ d))
wakeup_task-Woken class p s proc_runnable e d =
    subst (Woken p s) {x = ok s} (rw (wakeup_task, e) refl) (s.task, s.rq, refl, (λ x. inl refl), e)
wakeup_task-Woken class p s proc_uninit e d =
    subst (Woken p s) (rw (wakeup_task, e) refl) (roused-Woken class p s)
wakeup_task-Woken class p s proc_sleeping e d =
    subst (Woken p s) (rw (wakeup_task, e) refl) (roused-Woken class p s)

pub wakeup_of-Woken :
    {R : Type 0} (class : SchedClass R) (p : ℕ) (s : Sched R)
    → may_wake (s.task p) ≡ true
    → is_dead (s.task p) ≡ false
    → Woken p s (wakeup_of class (some p) s)
unfolding wakeup_of
wakeup_of-Woken class p s m d =
    subst (Woken p s) {x = wakeup_task class p s} (rw m refl)
      (wakeup_task-Woken class p s (s.task p).state refl d)
