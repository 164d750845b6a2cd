-- ===== src/Timer.antt =====
-- lab8/kern/schedule/sched.c: the scheduler's framework and the list of timers.
-- The address of a `timer_t` is a positive number and stands for its `timer_link` as well; the head
-- `timer_list` is address 0. The scheduling class is a parameter: a record of its functions.
pub mod Due
pub mod Add
pub mod Del
pub mod Wake
pub mod Ticked
pub mod Round
pub mod Expire
pub mod Tick
mod Tests
use nku_os_ucore.Common.{
  ℕ, zero, suc, ◌+◌, ◌-◌, Bool, true, false, not, ◌&&◌, ◌||◌, ◌==◌, ltb, if◌then◌else◌, Outcome, ok,
  panicked, out_of_fuel, ◌>>=◌, ◌>>◌, assert, u32, Option, none, some,
}
use nku_os_ucore.DList.{Links, list_init, list_add_before, list_del_init, list_empty}
use nku_os_ucore.Proc.{Status, proc_runnable, proc_zombie, interruptible}

pub record Timer : Type 0 where
  pub expires : ℕ
  pub proc : Option ℕ

-- The fields of a process that sched.c reads and writes.
pub record Task : Type 0 where
  pub state : Status
  pub wait_state : ℕ
  pub need_resched : Bool
  pub runs : ℕ

-- A `sched_class`, on a run queue with what the class keeps of each process. `proc_tick` also says
-- whether it asks for a new choice.
pub record SchedClass (R : Type 0) : Type 0 where
  pub init : R → R
  pub enqueue : ℕ → R → R
  pub dequeue : ℕ → R → R
  pub pick_next : R → Option ℕ × R
  pub proc_tick : ℕ → R → Bool × R

pub record Sched (R : Type 0) : Type 0 where
  pub timer : ℕ → Timer
  pub links : Links
  pub task : ℕ → Task
  pub rq : R
  pub current : Option ℕ
  pub idleproc : ℕ

abbrev pub max_time_slice : ℕ
max_time_slice = 5

abbrev pub timer_list : ℕ
timer_list = 0

abbrev pub put : (ℕ → Timer) → ℕ → ℕ → ℕ → Timer
put m t e x = if x == t then record (m t) { expires = e } else m x

abbrev pub put_task : (ℕ → Task) → ℕ → Task → ℕ → Task
put_task m p v x = if x == p then v else m x

abbrev pub is_task : Option ℕ → ℕ → Bool
is_task none p = false
is_task (some c) p = c == p

module _ {R : Type 0} (class : SchedClass R) where
  unfoldable pub sched_class_enqueue : ℕ → Sched R → Sched R
  sched_class_enqueue p s = if p == s.idleproc then s else record s { rq = class.enqueue p s.rq }

  unfoldable pub sched_class_dequeue : ℕ → Sched R → Sched R
  sched_class_dequeue p s = record s { rq = class.dequeue p s.rq }

  unfoldable pub sched_class_pick_next : Sched R → Option ℕ × Sched R
  sched_class_pick_next s = let (p, rq') = class.pick_next s.rq in (p, record s { rq = rq' })

  unfoldable pub sched_class_proc_tick : ℕ → Sched R → Sched R
  sched_class_proc_tick p s =
      if p == s.idleproc
      then record s { task = put_task s.task p (record (s.task p) { need_resched = true }) }
      else let (asks, rq') = class.proc_tick p s.rq in
        record s {
          rq = rq';
          task =
              put_task s.task p
                (record (s.task p) { need_resched = asks || (s.task p).need_resched });
        }

  -- `set_max` writes the field `max_time_slice` of the run queue.
  unfoldable pub sched_init : (ℕ → R → R) → Sched R → Sched R
  sched_init set_max s = record s {
    links = list_init timer_list s.links;
    rq = class.init (set_max max_time_slice s.rq);
  }

  unfoldable pub wakeup_task : ℕ → Sched R → Outcome (Sched R)
  wakeup_task p s = elim (s.task p).state [
    | proc_zombie ↦ panicked
    | proc_runnable ↦ ok s
    | other ↦
        let s1 = record s {
          task = put_task s.task p (record (s.task p) { state = proc_runnable; wait_state = 0 });
        } in
        ok (if is_task s.current p then s1 else sched_class_enqueue p s1)
  ]

abbrev pub is_runnable : Status → Bool
is_runnable st = elim st [ proc_runnable ↦ true | other ↦ false ]

module _ {R : Type 0} (class : SchedClass R) (proc_run : ℕ → Sched R → Sched R) where
  -- The process `next` gets the processor from the process `c`.
  unfoldable pub start_next : ℕ → ℕ → Sched R → Sched R
  start_next c next s =
      let t = s.task next in
      let s1 = record s { task = put_task s.task next (record t { runs = t.runs + 1 }) } in
      if next == c then s1 else proc_run next s1

  -- The choice of the process that runs next.
  unfoldable pub choose_next : ℕ → Option ℕ × Sched R → Sched R
  choose_next c (none, s) = start_next c s.idleproc s
  choose_next c (some next, s) = start_next c next (sched_class_dequeue class next s)

  -- The current process asks for nothing more, and waits for its turn if it can run.
  unfoldable pub requeue : ℕ → Sched R → Sched R
  requeue c s =
      let t = s.task c in
      let s1 = record s { task = put_task s.task c (record t { need_resched = false }) } in
      if is_runnable t.state then sched_class_enqueue class c s1 else s1

  -- `proc_run` is the switch to another process.
  unfoldable pub schedule : Sched R → Outcome (Sched R)
  schedule s = elim s.current [
    | none ↦ panicked
    | some c ↦ ok (choose_next c (sched_class_pick_next class (requeue c s)))
  ]

-- The walk of `add_timer` to the place of the timer `t`, which keeps what is left to wait.
unfoldable pub add_loop : ℕ → ℕ → ℕ → Links → (ℕ → Timer) → Outcome (ℕ × (ℕ → Timer))
add_loop zero t le l m = out_of_fuel
add_loop (suc f) t le l m =
    let e = (m t).expires in
    let d = (m le).expires in
    let rest = add_loop f t (l.next le) l (put m t (e - d)) in
    if le == timer_list then ok (le, m) else if ltb e d then ok (le, put m le (d - e)) else rest

abbrev pub is_some : Option ℕ → Bool
is_some none = false
is_some (some p) = true

module _ {R : Type 0} where
  unfoldable pub add_timer : ℕ → ℕ → Sched R → Outcome (Sched R)
  add_timer fuel t s = do
    assert (ltb 0 (s.timer t).expires && is_some (s.timer t).proc)
    assert (list_empty t s.links)
    r ← add_loop fuel t (s.links.next timer_list) s.links s.timer
    ok (record s { timer = r.1; links = list_add_before r.0 t s.links })

  -- What a deleted timer leaves to the next one.
  unfoldable pub pass_on : ℕ → Sched R → Sched R
  pass_on t s =
      let le = s.links.next t in
      if (s.timer t).expires == 0 || le == timer_list
      then s
      else record s { timer = put s.timer le (u32 ((s.timer le).expires + (s.timer t).expires)) }

  unfoldable pub del_timer : ℕ → Sched R → Sched R
  del_timer t s =
      if list_empty t s.links
      then s
      else let s1 = pass_on t s in record s1 { links = list_del_init t s1.links }

module _ {R : Type 0} (class : SchedClass R) where
  -- The waking of the process of an expired timer.
  unfoldable pub wakeup_of : Option ℕ → Sched R → Outcome (Sched R)
  wakeup_of none s = panicked
  wakeup_of (some p) s = do
    assert ((s.task p).wait_state == 0 || interruptible (s.task p).wait_state)
    wakeup_task class p s

  unfoldable pub expire_loop : ℕ → ℕ → Sched R → Outcome (Sched R)
  expire_loop zero t s = out_of_fuel
  expire_loop (suc f) t s = elim ((s.timer t).expires == 0) [
    | false ↦ ok s
    | true ↦
        let le = s.links.next t in
        wakeup_of (s.timer t).proc s >>= λ s1.
        let s2 = del_timer t s1 in
        elim (le == timer_list) [ true ↦ ok s2 | false ↦ expire_loop f le s2 ]
  ]

  -- One tick of the first timer, and all that expire with it.
  unfoldable pub tick_timers : ℕ → Sched R → Outcome (Sched R)
  tick_timers fuel s =
      let t = s.links.next timer_list in
      if t == timer_list then ok s else do
        assert (not ((s.timer t).expires == 0))
        expire_loop fuel t (record s { timer = put s.timer t ((s.timer t).expires - 1) })

  unfoldable pub tick_current : Sched R → Sched R
  tick_current s = elim s.current [ none ↦ s | some c ↦ sched_class_proc_tick class c s ]

  unfoldable pub run_timer_list : ℕ → Sched R → Outcome (Sched R)
  run_timer_list fuel s = do s1 ← tick_timers fuel s; ok (tick_current s1)
