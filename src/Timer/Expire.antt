-- ===== src/Timer/Expire.antt =====
-- The loop over the expired timers in lab8/kern/schedule/sched.c.
use nku_os_ucore.Common.{
  ℕ, zero, suc, ◌+◌, ◌<◌, ◌^◌, ◌≡◌, ◌≢◌, refl, sym, ◌∙◌, subst, true, false, Bool-cases, List, [],
  ◌∷◌, arith, length, ◌==◌, inl, inr, All, ok, Outcome,
}
use nku_os_ucore.DList.Ring.{Ring, next-first}
use nku_os_ucore.Timer.{SchedClass, Sched, timer_list, del_timer, wakeup_of, expire_loop}
use nku_os_ucore.Timer.Due.{dues}
use nku_os_ucore.Timer.Add.{Queue}
use nku_os_ucore.Timer.Ticked.{expired, Waits, Ticked, Later-trans, Later-runs}
use nku_os_ucore.Timer.Round.{each_wait, each_run, Round, wake-Round}

expired_now : (e : ℕ) → (e == 0) ≡ true → (0 + e == 0) ≡ true
expired_now e h = ground arith

expired_not : (e : ℕ) → (e == 0) ≡ false → (0 + e == 0) ≡ false
expired_not e h = ground arith

-- One round and then the others.
Ticked-trans :
    {R : Type 0} (class : SchedClass R) (s s2 s' : Sched R) (t d : ℕ) (ds : List (ℕ × ℕ))
    (xs xs' : List ℕ)
    → (d == 0) ≡ true
    → Round class s s2 t ds xs
    → Ticked s2 s' ds xs'
    → Ticked s s' ((t, d) ∷ ds) xs'
Ticked-trans class s s2 s' t d ds xs xs' z r k = record {
  queue = rw z k.queue;
  later = λ x. Later-trans (s.task x) (s2.task x) (s'.task x) (r.later x) (k.later x);
  runs =
      let (p, pe, pr) = r.woken in
      rw z (
        (p, pe, Later-runs (s2.task p) (s'.task p) (k.later p) pr),
        each_run s s2 s' (expired ds) r.proc k.runs,
      );
}

pub no_more : {R : Type 0} (s : Sched R) → Queue s.links s.timer [] [] → Ticked s s [] []
no_more s q = record { queue = q; later = λ x. inl refl; runs = tt }

pub not_head : (x : ℕ) → timer_list ≢ x → (x == timer_list) ≡ false
not_head x h = ground arith

-- What the loop does behind a round.
abbrev go_on : {R : Type 0} → SchedClass R → ℕ → ℕ → Sched R → Outcome (Sched R)
go_on class f le s = elim (le == timer_list) [ true ↦ ok s | false ↦ expire_loop class f le s ]

again :
    {R : Type 0} (class : SchedClass R) (f t : ℕ) (s s2 : Sched R)
    → ((s.timer t).expires == 0) ≡ true
    → (s1 : Sched R) × (wakeup_of class (s.timer t).proc s ≡ ok s1) × (del_timer t s1 ≡ s2)
    → expire_loop class (suc f) t s ≡ go_on class f (s.links.next t) s2
unfolding expire_loop
again class f t s s2 e (s1, w, d) = rw (expire_loop, e, w, ← d) refl

-- What the loop makes of the timer `t` and the timers `xs` behind it.
abbrev pub Looped : {R : Type 0} → Sched R → Outcome (Sched R) → List (ℕ × ℕ) → Type 0
Looped {R} s r ds = (s' : Sched R) × (xs' : List ℕ) × (r ≡ ok s') × Ticked s s' ds xs'

stop :
    {R : Type 0} (class : SchedClass R) (f t : ℕ) (s : Sched R) (xs : List ℕ)
    → ((s.timer t).expires == 0) ≡ false
    → Ring s.links timer_list (t ∷ xs)
    → Looped s (expire_loop class (suc f) t s) (dues s.timer 0 (t ∷ xs))
unfolding expire_loop
stop class f t s xs e r = (
  s,
  t ∷ xs,
  rw (expire_loop, e) refl,
  record {
    queue = rw (expired_not (s.timer t).expires e) (record { ring = r; times = refl });
    later = λ x. inl refl;
    runs = rw (expired_not (s.timer t).expires e) tt;
  },
)

-- A round and then what the rest of the loop does.
then_rest :
    {R : Type 0} (class : SchedClass R) (f t : ℕ) (s s2 : Sched R) (xs : List ℕ)
    → ((s.timer t).expires == 0) ≡ true
    → Round class s s2 t (dues s.timer (0 + (s.timer t).expires) xs) xs
    → Looped s2 (go_on class f (s.links.next t) s2) (dues s.timer (0 + (s.timer t).expires) xs)
    → Looped s (expire_loop class (suc f) t s) (dues s.timer 0 (t ∷ xs))
then_rest class f t s s2 xs e k (s', xs', p, h) =
    let d = 0 + (s.timer t).expires in
    (
      s',
      xs',
      again class f t s s2 e k.runs ∙ p,
      Ticked-trans class s s2 s' t d (dues s.timer d xs) xs xs' (expired_now (s.timer t).expires e)
          k h,
    )

pub expire_loop-Ticked :
    {R : Type 0} (class : SchedClass R) (fuel t : ℕ) (s : Sched R) (xs : List ℕ)
    → length xs < fuel
    → Ring s.links timer_list (t ∷ xs)
    → All (λ d. d.1 < 2 ^ 32) (dues s.timer 0 (t ∷ xs))
    → All (Waits s) (t ∷ xs)
    → Looped s (expire_loop class fuel t s) (dues s.timer 0 (t ∷ xs))
expire_loop-Ticked class zero t s xs f r b w = absurd (omega arith)
expire_loop-Ticked class (suc fuel) t s [] f r b w = elim (Bool-cases ((s.timer t).expires == 0)) [
  | inr e ↦ stop class fuel t s [] e r
  | inl e ↦
      let (s2, k) =
        wake-Round class t (0 + (s.timer t).expires) [] [] s (record { ring = r; times = refl }) b
          w.0 in
      then_rest class fuel t s s2 [] e k (
        subst (λ le. Looped s2 (go_on class fuel le s2) [])
          (sym (next-first s.links t [] timer_list r.linked.2)) (s2, [], refl, no_more s2 k.queue))
]
expire_loop-Ticked class (suc fuel) t s (x ∷ xs) f r b w =
    elim (Bool-cases ((s.timer t).expires == 0)) [
      | inr e ↦ stop class fuel t s (x ∷ xs) e r
      | inl e ↦
          let d = 0 + (s.timer t).expires in
          let ds = dues s.timer d (x ∷ xs) in
          let (s2, k) =
            wake-Round class t d ds (x ∷ xs) s (record { ring = r; times = refl }) b w.0 in
          let same = k.queue.times in
          let rest =
            expire_loop-Ticked class fuel x s2 xs (omega arith) k.queue.ring
              (subst (All (λ d. d.1 < 2 ^ 32)) (sym same) b.1)
              (each_wait s s2 (x ∷ xs) k.later k.proc w.1) in
          let rest1 : Looped s2 (expire_loop class fuel x s2) ds =
            subst (Looped s2 (expire_loop class fuel x s2)) same rest in
          then_rest class fuel t s s2 (x ∷ xs) e k (
            subst (λ le. Looped s2 (go_on class fuel le s2) ds)
              (sym (next-first s.links t (x ∷ xs) timer_list r.linked.2))
              (subst
                (λ c. Looped s2 (elim c [ true ↦ ok s2 | false ↦ expire_loop class fuel x s2 ]) ds)
                (sym (not_head x (λ q. r.distinct.0.1.0 q))) rest1))
    ]
