-- ===== src/Timer/Tick.antt =====
-- The timers that expire at a tick in lab8/kern/schedule/sched.c.
use nku_os_ucore.Common.{
  ℕ, ◌+◌, ◌-◌, ◌≤◌, ◌<◌, ◌^◌, ◌≡◌, refl, sym, ap, subst, false, List, [], ◌∷◌, arith, length, map,
  ◌==◌, inl, All, ok,
}
use nku_os_ucore.Common.Distinct.{NotIn}
use nku_os_ucore.DList.Ring.{Ring, next-first}
use nku_os_ucore.Timer.{
  Timer, SchedClass, Sched, put, timer_list, tick_timers, tick_current, run_timer_list,
}
use nku_os_ucore.Timer.Due.{dues, dues-put}
use nku_os_ucore.Timer.Add.{Queue, put-expires}
use nku_os_ucore.Timer.Ticked.{expired, Waits, Ticked, put-proc}
use nku_os_ucore.Timer.Round.{each_wait, each_run}
use nku_os_ucore.Timer.Expire.{no_more, not_head, Looped, expire_loop-Ticked}

-- The times a tick later.
abbrev pub earlier : ℕ × ℕ → ℕ × ℕ
earlier (t, e) = (t, e - 1)

dues-earlier :
    (m : ℕ → Timer) (a : ℕ) (xs : List ℕ) → 0 < a → dues m (a - 1) xs ≡ map earlier (dues m a xs)
dues-earlier m a [] h = refl
dues-earlier m a (x ∷ xs) h =
    let total : a - 1 + (m x).expires ≡ a + (m x).expires - 1 = omega arith in
    rw total (
      ap (λ ds. (x, a + (m x).expires - 1) ∷ ds)
        (dues-earlier m (a + (m x).expires) xs (omega arith)))

first-earlier :
    (m : ℕ → Timer) (t : ℕ) (xs : List ℕ)
    → 0 < (m t).expires
    → NotIn t xs
    → dues (put m t ((m t).expires - 1)) 0 (t ∷ xs) ≡ map earlier (dues m 0 (t ∷ xs))
first-earlier m t xs h n =
    let e = (m t).expires in
    let total : 0 + (e - 1) ≡ 0 + e - 1 = omega arith in
    rw (put-expires m t (e - 1), total, dues-put m t (e - 1) (0 + e - 1) xs n)
      (ap (λ ds. (t, 0 + e - 1) ∷ ds) (dues-earlier m (0 + e) xs (omega arith)))

not_zero : (e : ℕ) → 0 < e → (e == 0) ≡ false
not_zero e h = ground arith

bound-earlier :
    (ds : List (ℕ × ℕ)) → All (λ d. d.1 < 2 ^ 32) ds → All (λ d. d.1 < 2 ^ 32) (map earlier ds)
bound-earlier [] a = tt
bound-earlier (d ∷ ds) a = (omega (arith, a.0), bound-earlier ds a.1)

tick_timers-Looped :
    {R : Type 0} (class : SchedClass R) (fuel : ℕ) (s : Sched R) (xs : List ℕ)
    → Ring s.links timer_list xs
    → length xs ≤ fuel
    → All (λ d. 0 < d.1) (dues s.timer 0 xs)
    → All (λ d. d.1 < 2 ^ 32) (dues s.timer 0 xs)
    → All (Waits s) xs
    → Looped s (tick_timers class fuel s) (map earlier (dues s.timer 0 xs))
unfolding tick_timers
tick_timers-Looped class fuel s [] r f p b w = (
  s,
  [],
  rw (next-first s.links timer_list [] timer_list r.linked) refl,
  no_more s (record { ring = r; times = refl }),
)
tick_timers-Looped class fuel s (t ∷ xs) r f p b w =
    let e = (s.timer t).expires in
    let m = put s.timer t (e - 1) in
    let pos : 0 < (s.timer t).expires = omega (arith, p.0) in
    let s1 = record s { timer = m } in
    let now = first-earlier s.timer t xs pos r.distinct.1.0 in
    let b1 = bound-earlier (dues s.timer 0 (t ∷ xs)) b in
    let (s', xs', q, k) =
      expire_loop-Ticked class fuel t s1 xs (omega arith) r
        (subst (All (λ d. d.1 < 2 ^ 32)) (sym now) b1)
        (each_wait s s1 (t ∷ xs) (λ x. inl refl) (λ x. put-proc s.timer t (e - 1) x) w) in
    let k1 = subst (λ ds. Ticked s1 s' ds xs') now k in
    (
      s',
      xs',
      rw
          (
            next-first s.links timer_list (t ∷ xs) timer_list r.linked,
            not_head t r.distinct.0.0,
            not_zero e pos,
          )
          q,
      record {
        queue = k1.queue;
        later = k1.later;
        runs =
            each_run s s1 s' (expired (map earlier (dues s.timer 0 (t ∷ xs))))
              (λ x. put-proc s.timer t (e - 1) x) k1.runs;
      },
    )

-- Let the list of timers have the times `ds`, all of them from 1 to 2^32 - 1, and let each timer
-- have a process that is not a zombie and whose sleep may be interrupted or which has no reason to
-- sleep. Then `run_timer_list`, with fuel for each timer, ends without a failed assertion: it
-- calls the class's tick for `current` on a state in which all times are one less and the timers
-- that have reached 0 are off the list, in order; their processes can run, and each other process
-- is as it was or can run.
pub run_timer_list-Ticked :
    {R : Type 0} (class : SchedClass R) (fuel : ℕ) (s : Sched R) (xs : List ℕ) (ds : List (ℕ × ℕ))
    → Queue s.links s.timer ds xs
    → length xs ≤ fuel
    → All (λ d. 0 < d.1) ds
    → All (λ d. d.1 < 2 ^ 32) ds
    → All (Waits s) xs
    → (s' : Sched R) × (xs' : List ℕ) × (run_timer_list class fuel s ≡ ok (tick_current class s'))
      × Ticked s s' (map earlier ds) xs'
unfolding run_timer_list
run_timer_list-Ticked class fuel s xs ds q f p b w =
    let back = sym q.times in
    let (s', xs', e, k) =
      tick_timers-Looped class fuel s xs q.ring f (subst (All (λ d. 0 < d.1)) back p)
        (subst (All (λ d. d.1 < 2 ^ 32)) back b) w in
    (s', xs', rw e refl, subst (λ ds. Ticked s s' (map earlier ds) xs') q.times k)
