-- ===== src/Stride.antt =====
-- lab8/kern/schedule/default_sched_stride.c: the stride scheduler. The address of a process stands
-- for its `lab6_run_pool` as well. A stride and `proc_num` have 32 bits and wrap; the difference of
-- two strides is read as an `int32_t`.
pub mod Window
pub mod Pool
pub mod Enqueue
pub mod Pick
pub mod Schedule
mod Tests
use nku_os_ucore.Common.{
  ℕ, zero, suc, ◌+◌, ◌-◌, ◌/◌, ◌%◌, ◌^◌, Bool, true, false, ◌&&◌, ◌||◌, ◌==◌, ltb, if◌then◌else◌,
  Outcome, ok, panicked, out_of_fuel, ◌>>=◌, ◌>>◌, assert, Option, none, some, ℤ, pos, negsuc, u32,
}
use nku_os_ucore.DList.{Links, list_init}
use nku_os_ucore.Skew.{Entry, skew_heap_insert, skew_heap_remove}
use nku_os_ucore.Timer.{SchedClass}

-- The fields of a process that the scheduler reads and writes; `queued` is `proc->rq == rq`.
pub record Job : Type 0 where
  pub stride : ℕ
  pub priority : ℕ
  pub time_slice : ℕ
  pub queued : Bool

pub record RunQueue : Type 0 where
  pub run_list : Links
  pub proc_num : ℕ
  pub max_time_slice : ℕ
  pub pool : ℕ
  pub entries : ℕ → Entry
  pub job : ℕ → Job

abbrev pub big_stride : ℕ
big_stride = 2 ^ 30

abbrev pub put_job : (ℕ → Job) → ℕ → Job → ℕ → Job
put_job j p v x = if x == p then v else j x

-- The comparison of two strides, by the sign of their difference.
unfoldable pub stride_comp : ℕ → ℕ → ℤ
stride_comp a b =
    let c = (a + 2 ^ 32 - b) % 2 ^ 32 in
    if c == 0 then pos 0 else if ltb c (2 ^ 31) then pos 1 else negsuc 0

unfoldable pub proc_stride_comp_f : (ℕ → Job) → ℕ → ℕ → ℤ
proc_stride_comp_f j p q = stride_comp (j p).stride (j q).stride

unfoldable pub stride_init : RunQueue → RunQueue
stride_init q = record q { run_list = list_init 0 q.run_list; pool = 0; proc_num = 0 }

-- The time slice that a process gets.
abbrev pub new_slice : ℕ → ℕ → ℕ
new_slice max slice = if slice == 0 || ltb max slice then max else slice

unfoldable pub stride_enqueue : ℕ → ℕ → RunQueue → Outcome RunQueue
stride_enqueue fuel p q = do
  done ← skew_heap_insert (proc_stride_comp_f q.job) fuel q.pool p q.entries
  let j = q.job p
  ok (record q {
    pool = done.0;
    entries = done.1;
    job =
        put_job q.job p
          (record j { time_slice = new_slice q.max_time_slice j.time_slice; queued = true });
    proc_num = u32 (q.proc_num + 1);
  })

unfoldable pub stride_dequeue : ℕ → ℕ → RunQueue → Outcome RunQueue
stride_dequeue fuel p q = do
  assert ((q.job p).queued && ltb 0 q.proc_num)
  done ← skew_heap_remove (proc_stride_comp_f q.job) fuel q.pool p q.entries
  ok (record q { pool = done.0; entries = done.1; proc_num = q.proc_num - 1 })

-- What a turn adds to the stride.
unfoldable pub pass_of : ℕ → ℕ
pass_of priority = if priority == 0 then big_stride else big_stride / priority

unfoldable pub stride_pick_next : RunQueue → Option ℕ × RunQueue
stride_pick_next q =
    let p = q.pool in
    let j = q.job p in
    if p == 0 then (none, q) else (
      some p,
      record q {
        job = put_job q.job p (record j { stride = u32 (j.stride + pass_of j.priority) });
      },
    )

unfoldable pub stride_proc_tick : ℕ → RunQueue → Bool × RunQueue
stride_proc_tick p q =
    let j = q.job p in
    let left = j.time_slice - 1 in
    (left == 0, record q { job = put_job q.job p (record j { time_slice = left }) })

-- A failure stays.
abbrev pub pick_class : Outcome RunQueue → Option ℕ × Outcome RunQueue
pick_class (ok q) = let (p, q') = stride_pick_next q in (p, ok q')
pick_class panicked = (none, panicked)
pick_class out_of_fuel = (none, out_of_fuel)

abbrev pub tick_class : ℕ → Outcome RunQueue → Bool × Outcome RunQueue
tick_class p (ok q) = let (asks, q') = stride_proc_tick p q in (asks, ok q')
tick_class p panicked = (false, panicked)
tick_class p out_of_fuel = (false, out_of_fuel)

abbrev pub default_sched_class : ℕ → SchedClass (Outcome RunQueue)
default_sched_class fuel = record {
  init = λ r. r >>= λ q. ok (stride_init q);
  enqueue = λ p r. r >>= stride_enqueue fuel p;
  dequeue = λ p r. r >>= stride_dequeue fuel p;
  pick_next = pick_class;
  proc_tick = tick_class;
}
