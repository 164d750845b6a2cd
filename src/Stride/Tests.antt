-- ===== src/Stride/Tests.antt =====
-- Concrete runs of lab8/kern/schedule/default_sched_stride.c and of schedule in
-- lab8/kern/schedule/sched.c. The process 1 waits, with its stride just over an overflow; the
-- process 2 runs, with a stride just before it.
use nku_os_ucore.Common.{
  ℕ, ◌+◌, ◌-◌, ◌%◌, ◌^◌, ◌≡◌, refl, true, ◌==◌, if◌then◌else◌, arith, ok, none, some, Outcome,
}
use nku_os_ucore.Proc.{proc_runnable}
use nku_os_ucore.Skew.{is_less}
use nku_os_ucore.Skew.Tree.{Tree, leaf, node}
use nku_os_ucore.Timer.{Sched, schedule}
use nku_os_ucore.Stride.{
  RunQueue, default_sched_class, stride_comp, stride_pick_next, stride_dequeue,
}
use nku_os_ucore.Stride.Window.{stride_comp-window}
use nku_os_ucore.Stride.Pool.{Pool}
use nku_os_ucore.Stride.Enqueue.{Enqueued}
use nku_os_ucore.Stride.Pick.{Turn, stride_pick_next-Turn}
use nku_os_ucore.Stride.Schedule.{Chosen, given, schedule-Chosen}

abbrev low : ℕ
low = 2 ^ 32 - 5

abbrev strides : ℕ → ℕ
strides x = if x == 1 then low + 8 else low + 1

abbrev queue : RunQueue
queue = record {
  run_list = record { next = λ x. x; prev = λ x. x };
  proc_num = 1;
  max_time_slice = 5;
  pool = 1;
  entries = λ x. record { parent = 0; left = 0; right = 0 };
  job = λ x. record {
    stride = if x == 1 then 3 else low + 1;
    priority = 4;
    time_slice = 0;
    queued = true;
  };
}

abbrev one : Tree
one = node leaf 1 leaf

one-Pool : Pool queue one strides low
one-Pool = record {
  heap = record {
    lies = (refl, omega arith, tt, tt, refl, refl);
    under = refl;
    single = (tt, tt, tt, tt, tt);
    ordered = (tt, tt, tt, tt);
    each = (record { stride = refl; above = omega arith; below = omega arith }, tt, tt);
  };
  queued = (refl, tt, tt);
  number = refl;
  room = omega arith;
}

abbrev start : Sched (Outcome RunQueue)
start = record {
  timer = λ x. record { expires = 0; proc = none };
  links = record { next = λ x. x; prev = λ x. x };
  task = λ x. record { state = proc_runnable; wait_state = 0; need_resched = true; runs = 0 };
  rq = ok queue;
  current = some 2;
  idleproc = 9;
}

abbrev proc_run : ℕ → Sched (Outcome RunQueue) → Sched (Outcome RunQueue)
proc_run p s = record s { current = some p }

stride_comp-window_example : is_less (stride_comp ((low + 1) % 2 ^ 32) ((low + 8) % 2 ^ 32)) ≡ true
stride_comp-window_example =
    stride_comp-window low (low + 1) (low + 8) (omega arith) (omega arith) (omega arith)
      (omega arith)

stride_pick_next-Turn_example :
    (q1 : RunQueue) × (q' : RunQueue) × (t' : Tree) × (stride_pick_next queue ≡ (some 1, q1))
    × (stride_dequeue 1 1 q1 ≡ ok q')
    × Turn queue q' one t' strides 1
stride_pick_next-Turn_example =
    stride_pick_next-Turn 1 1 queue leaf leaf strides low one-Pool (omega arith)

schedule-Chosen_example :
    (p : ℕ) × (s' : Sched (Outcome RunQueue)) × (q1 : RunQueue) × (t1 : Tree) × (q' : RunQueue)
    × (t' : Tree) × (schedule (default_sched_class 3) proc_run start ≡ ok (given proc_run 2 p s'))
    × Enqueued queue q1 one t1 strides low 2
    × Chosen start s' q1 q' t1 t' strides p
schedule-Chosen_example =
    schedule-Chosen 3 proc_run 2 start queue one strides low refl (omega arith) refl refl one-Pool
      (omega arith) (omega arith, tt, tt)
      (record { stride = refl; above = omega arith; below = omega arith }) (omega arith)
      (omega arith)
