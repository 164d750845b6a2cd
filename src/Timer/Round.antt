-- ===== src/Timer/Round.antt =====
-- A round of the loop over the expired timers in lab8/kern/schedule/sched.c.
use nku_os_ucore.Common.{
  ℕ, ◌+◌, ◌<◌, ◌^◌, ◌≡◌, refl, sym, ap, ◌∙◌, subst, Bool-cases, List, [], ◌∷◌, u32, ◌==◌, ◌||◌, inl,
  inr, All, ok,
}
use nku_os_ucore.DList.{list_empty}
use nku_os_ucore.Timer.{SchedClass, Sched, timer_list, pass_on, del_timer, wakeup_of}
use nku_os_ucore.Timer.Add.{Queue}
use nku_os_ucore.Timer.Del.{remove_due, del_timer-Queue}
use nku_os_ucore.Timer.Wake.{Later, equal, wakeup_of-Woken}
use nku_os_ucore.Timer.Ticked.{Waits, Runs, put-proc, Later-may_wake, Later-is_dead}

-- What `del_timer` leaves alone.
record Rest {R : Type 0} (s s' : Sched R) : Type 0 where
  task : (x : ℕ) → s'.task x ≡ s.task x
  pub proc : (x : ℕ) → (s'.timer x).proc ≡ (s.timer x).proc

pass_on-Rest : {R : Type 0} (t : ℕ) (s : Sched R) → Rest s (pass_on t s)
unfolding pass_on
pass_on-Rest t s = elim (Bool-cases ((s.timer t).expires == 0 || s.links.next t == timer_list)) [
  | inl e ↦ rw e (record { task = λ x. refl; proc = λ x. refl })
  | inr e ↦ rw e (record {
    task = λ x. refl;
    proc = λ x.
        put-proc s.timer (s.links.next t)
          (u32 ((s.timer (s.links.next t)).expires + (s.timer t).expires)) x;
  })
]

del_timer-Rest : {R : Type 0} (t : ℕ) (s : Sched R) → Rest s (del_timer t s)
unfolding del_timer
del_timer-Rest t s = elim (Bool-cases (list_empty t s.links)) [
  | inl e ↦ rw e (record { task = λ x. refl; proc = λ x. refl })
  | inr e ↦ let r = pass_on-Rest t s in rw e (record { task = r.task; proc = r.proc })
]

Waits-kept :
    {R : Type 0} (s s' : Sched R) (x : ℕ)
    → ((p : ℕ) → Later (s.task p) (s'.task p))
    → ((x : ℕ) → (s'.timer x).proc ≡ (s.timer x).proc)
    → Waits s x
    → Waits s' x
Waits-kept s s' x k e (p, q, m, d) = (
  p,
  e x ∙ q,
  Later-may_wake (s.task p) (s'.task p) (k p) m,
  Later-is_dead (s.task p) (s'.task p) (k p) d,
)

pub each_wait :
    {R : Type 0} (s s' : Sched R) (xs : List ℕ)
    → ((p : ℕ) → Later (s.task p) (s'.task p))
    → ((x : ℕ) → (s'.timer x).proc ≡ (s.timer x).proc)
    → All (Waits s) xs
    → All (Waits s') xs
each_wait s s' [] k e a = tt
each_wait s s' (x ∷ xs) k e a = (Waits-kept s s' x k e a.0, each_wait s s' xs k e a.1)

pub each_run :
    {R : Type 0} (s s1 s2 : Sched R) (xs : List ℕ)
    → ((x : ℕ) → (s1.timer x).proc ≡ (s.timer x).proc)
    → All (Runs s1 s2) xs
    → All (Runs s s2) xs
each_run s s1 s2 [] e a = tt
each_run s s1 s2 (x ∷ xs) e a = ((a.0.0, sym (e x) ∙ a.0.1, a.0.2), each_run s s1 s2 xs e a.1)

-- One round of the loop that removes the expired timer `t`.
pub record Round {R : Type 0} (class : SchedClass R) (s s2 : Sched R) (t : ℕ) (ds : List (ℕ × ℕ))
    (xs : List ℕ) : Type 0 where
  pub runs : (s1 : Sched R) × (wakeup_of class (s.timer t).proc s ≡ ok s1) × (del_timer t s1 ≡ s2)
  pub queue : Queue s2.links s2.timer ds xs
  pub later : (x : ℕ) → Later (s.task x) (s2.task x)
  pub proc : (x : ℕ) → (s2.timer x).proc ≡ (s.timer x).proc
  pub woken : Runs s s2 t

pub wake-Round :
    {R : Type 0} (class : SchedClass R) (t d : ℕ) (ds : List (ℕ × ℕ)) (xs : List ℕ) (s : Sched R)
    → Queue s.links s.timer ((t, d) ∷ ds) (t ∷ xs)
    → All (λ d. d.1 < 2 ^ 32) ((t, d) ∷ ds)
    → Waits s t
    → (s2 : Sched R) × Round class s s2 t ds xs
wake-Round class t d ds xs s q b (p, pe, m, dd) =
    let (tk, rq', e, k, r) = wakeup_of-Woken class p s m dd in
    let s1 = record s { task = tk; rq = rq' } in
    let u = del_timer-Rest t s1 in
    let removed : remove_due t ((t, d) ∷ ds) ≡ ds = rw (equal t) refl in
    (
      del_timer t s1,
      record {
        runs = (s1, rw pe e, refl);
        queue =
            subst (λ ds. Queue (del_timer t s1).links (del_timer t s1).timer ds xs) removed
              (del_timer-Queue t s1 [] xs ((t, d) ∷ ds) (record { ring = q.ring; times = q.times })
                b);
        later = λ x. subst (Later (s.task x)) (sym (u.task x)) (k x);
        proc = u.proc;
        woken = (p, pe, ap (λ v. v.state) (u.task p) ∙ r);
      },
    )
