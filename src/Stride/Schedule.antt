-- ===== src/Stride/Schedule.antt =====
-- schedule of lab8/kern/schedule/sched.c with the stride scheduler as its class.
use nku_os_ucore.Common.{
  ℕ, ◌+◌, ◌^◌, ◌≤◌, ◌<◌, ◌≡◌, ◌≢◌, refl, ap, ◌∙◌, Bool, true, false, ◌==◌, if◌then◌else◌, arith, ok,
  Outcome, panicked, none, some, ◌>>=◌,
}
use nku_os_ucore.Proc.{proc_runnable}
use nku_os_ucore.Timer.{
  Task, Sched, put_task, is_runnable, sched_class_enqueue, sched_class_dequeue,
  sched_class_pick_next, start_next, choose_next, requeue, schedule,
}
use nku_os_ucore.Skew.Tree.{Tree, leaf, node, size, Out}
use nku_os_ucore.Stride.{RunQueue, default_sched_class, stride_enqueue}
use nku_os_ucore.Stride.Pool.{InWindow, Pool}
use nku_os_ucore.Stride.Enqueue.{Enqueued, stride_enqueue-Enqueued}
use nku_os_ucore.Stride.Pick.{Turn, stride_pick_next-Turn}

abbrev State : Type 0
State = Sched (Outcome RunQueue)

-- The process `p` leaves the queue `q` for the processor, with one more run.
pub record Chosen (s s' : Sched (Outcome RunQueue)) (q q' : RunQueue) (t t' : Tree) (v : ℕ → ℕ)
    (p : ℕ) : Type 0 where
  pub turn : Turn q q' t t' v p
  pub queue : s'.rq ≡ ok q'
  pub runs : (s'.task p).runs ≡ (s.task p).runs + 1
  pub current : s'.current ≡ s.current

-- What `schedule` does with this state: the process `p` goes on, or the processor goes to it.
abbrev pub given : (ℕ → State → State) → ℕ → ℕ → State → State
given proc_run c p s = if p == c then s else proc_run p s

put_task_self : (m : ℕ → Task) (p : ℕ) (t : Task) → put_task m p t p ≡ t
put_task_self m p t = ground arith

-- The state in which the next process is chosen.
abbrev waiting : ℕ → State → Outcome RunQueue → State
waiting c s r = record s {
  task = put_task s.task c (record (s.task c) { need_resched = false });
  rq = r;
}

task_kept :
    (m : ℕ → Task) (c x : ℕ) (b : Bool)
    → (put_task m c (record (m c) { need_resched = b }) x).runs ≡ (m x).runs
task_kept m c x b = ground arith

differ : (x b : ℕ) → x ≢ b → (x == b) ≡ false
differ x b h = ground arith

module _ (fuel : ℕ) (proc_run : ℕ → State → State) where
  choose_next-Chosen :
      (c : ℕ) (s : State) (q : RunQueue) (t : Tree) (v : ℕ → ℕ) (lo : ℕ)
      → s.rq ≡ ok q
      → Pool q t v lo
      → 0 < size t
      → size t ≤ fuel
      → (p : ℕ) × (s' : State) × (q' : RunQueue) × (t' : Tree) × (choose_next
            (default_sched_class fuel)
            proc_run
            c
            (sched_class_pick_next (default_sched_class fuel) s)
          ≡ given proc_run c p s')
        × Chosen s s' q q' t t' v p
  unfolding choose_next sched_class_pick_next start_next sched_class_dequeue
  choose_next-Chosen c s q leaf v lo e h n lt = absurd (omega arith)
  choose_next-Chosen c s q (node l p r) v lo e h n lt =
      let (q1, q', t', pick, take, turn) = stride_pick_next-Turn fuel p q l r v lo h lt in
      let s' : State = record s {
        task = put_task s.task p (record (s.task p) { runs = (s.task p).runs + 1 });
        rq = ok q';
      } in
      (
        p,
        s',
        q',
        t',
        rw (e, pick, take) refl,
        record {
          turn = turn;
          queue = refl;
          runs =
              ap (λ t. t.runs)
                (put_task_self s.task p (record (s.task p) { runs = (s.task p).runs + 1 }));
          current = refl;
        },
      )

  requeue_run :
      (c : ℕ) (s : State)
      → (c == s.idleproc) ≡ false
      → is_runnable (s.task c).state ≡ true
      → requeue (default_sched_class fuel) proc_run c s
        ≡ waiting c s (s.rq >>= stride_enqueue fuel c)
  unfolding requeue sched_class_enqueue
  requeue_run c s i r = rw (r, i) refl

  schedule_at :
      (c : ℕ) (s : State)
      → s.current ≡ some c
      → schedule (default_sched_class fuel) proc_run s
        ≡ ok (
            choose_next (default_sched_class fuel) proc_run c (
              sched_class_pick_next
                (default_sched_class fuel)
                (requeue (default_sched_class fuel) proc_run c s)))
  unfolding schedule
  schedule_at c s e =
      ap
        (λ o. elim o as (λ z. Outcome State) [
          | none ↦ panicked
          | some c ↦ ok (
              choose_next (default_sched_class fuel) proc_run c (
                sched_class_pick_next (default_sched_class fuel)
                  (requeue (default_sched_class fuel) proc_run c s)))
        ])
        e

-- Let the current process, not the idle one, be able to run, and lie with the processes of the
-- queue in one window of BIG_STRIDE. Then `schedule` with the stride class, with fuel for all,
-- enqueues the current process with its new time slice, and gives the processor (by `proc_run`, or
-- by going on) to a process `p` of least stride among them all; `runs` of `p` is one more, and `p`
-- leaves the queue, which holds all the others in order.
pub schedule-Chosen :
    (fuel : ℕ) (proc_run : ℕ → State → State) (c : ℕ) (s : State) (q : RunQueue) (t : Tree)
    (v : ℕ → ℕ) (lo : ℕ)
    → s.current ≡ some c
    → c ≢ s.idleproc
    → (s.task c).state ≡ proc_runnable
    → s.rq ≡ ok q
    → Pool q t v lo
    → c ≢ 0
    → Out c t
    → InWindow q.job v lo c
    → size t + 1 < fuel
    → size t + 1 < 2 ^ 32
    → (p : ℕ) × (s' : State) × (q1 : RunQueue) × (t1 : Tree) × (q' : RunQueue) × (t' : Tree)
      × (schedule (default_sched_class fuel) proc_run s ≡ ok (given proc_run c p s'))
      × Enqueued q q1 t t1 v lo c
      × Chosen s s' q1 q' t1 t' v p
schedule-Chosen fuel proc_run c s q t v lo sc ci run e h nz o w lt room =
    let (q1, t1, d, g) = stride_enqueue-Enqueued fuel c q t v lo h lt room nz o w in
    let s2 = waiting c s (ok q1) in
    let ready =
      requeue_run fuel proc_run c s (differ c s.idleproc ci) (ap is_runnable run)
      ∙ ap (waiting c s) (ap (λ r. r >>= stride_enqueue fuel c) e ∙ d) in
    let (p, s', q', t', k, ch) =
      choose_next-Chosen fuel proc_run c s2 q1 t1 v lo refl g.pool
        (omega (arith, g.pool.number, g.number))
        (omega (arith, g.pool.number, g.number, h.number)) in
    let go = λ (z : State). ok (
      choose_next (default_sched_class fuel) proc_run c
        (sched_class_pick_next (default_sched_class fuel) z)) in
    (
      p,
      s',
      q1,
      t1,
      q',
      t',
      schedule_at fuel proc_run c s sc ∙ ap go ready ∙ ap ok k,
      g,
      record {
        turn = ch.turn;
        queue = ch.queue;
        runs = ch.runs ∙ ap (λ n. n + 1) (task_kept s.task c p false);
        current = ch.current;
      },
    )
