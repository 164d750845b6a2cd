-- ===== src/Timer/Tests.antt =====
-- Concrete runs of lab8/kern/schedule/sched.c, with a first-in first-out class of processes. The
-- timer 1 wakes the process 11, and so on.
use nku_os_ucore.Common.{
  ℕ, ◌+◌, ◌≡◌, refl, false, List, [], ◌∷◌, ◌++◌, ◌==◌, if◌then◌else◌, arith, none, some, ok,
}
use nku_os_ucore.DList.{Links, list_empty}
use nku_os_ucore.DList.Ring.{Ring}
use nku_os_ucore.Proc.{proc_sleeping}
use nku_os_ucore.Timer.{
  SchedClass, Sched, timer_list, add_timer, del_timer, run_timer_list, tick_current,
}
use nku_os_ucore.Timer.Due.{insert_due}
use nku_os_ucore.Timer.Add.{Queue, add_timer-Queue}
use nku_os_ucore.Timer.Del.{remove_due, del_timer-Queue}
use nku_os_ucore.Timer.Ticked.{Ticked}
use nku_os_ucore.Timer.Tick.{run_timer_list-Ticked}

abbrev fifo : SchedClass (List ℕ)
fifo = record {
  init = λ r. [];
  enqueue = λ p r. r ++ p ∷ [];
  dequeue = λ p r. r;
  pick_next = λ r. (none, r);
  proc_tick = λ p r. (false, r);
}

-- The list holds the timers 1 and 2; the timer 3 is on its own.
abbrev links : Links
links = record {
  next = λ x. if x == 0 then 1 else if x == 1 then 2 else if x == 2 then 0 else x;
  prev = λ x. if x == 0 then 2 else if x == 2 then 1 else if x == 1 then 0 else x;
}

abbrev start : ℕ → ℕ → Sched (List ℕ)
start a b = record {
  timer =
      λ x. record { expires = if x == 1 then a else if x == 2 then b else 4; proc = some (x + 10) };
  links = links;
  task = λ x. record { state = proc_sleeping; wait_state = 0; need_resched = false; runs = 0 };
  rq = [];
  current = some 9;
  idleproc = 8;
}

links-Ring : Ring links timer_list (1 ∷ 2 ∷ [])
links-Ring = record {
  linked = (refl, refl, (refl, refl, (refl, refl)));
  distinct = ((omega arith, (omega arith, tt)), ((omega arith, tt), (tt, tt)));
}

add_timer-Queue_example :
    (s' : Sched (List ℕ)) × (xs' : List ℕ) × (add_timer 3 3 (start 3 2) ≡ ok s')
    × Queue s'.links s'.timer (insert_due 3 4 ((1, 3) ∷ (2, 5) ∷ [])) xs'
unfolding list_empty
add_timer-Queue_example =
    add_timer-Queue 3 3 4 (start 3 2) (1 ∷ 2 ∷ []) ((1, 3) ∷ (2, 5) ∷ [])
      (record { ring = links-Ring; times = refl }) (omega arith) refl (omega arith) refl refl
      (omega arith) (omega arith, (omega arith, tt))

del_timer-Queue_example :
    Queue
      (del_timer 1 (start 3 2)).links
      (del_timer 1 (start 3 2)).timer
      (remove_due 1 ((1, 3) ∷ (2, 5) ∷ []))
      (2 ∷ [])
del_timer-Queue_example =
    del_timer-Queue 1 (start 3 2) [] (2 ∷ []) ((1, 3) ∷ (2, 5) ∷ [])
      (record { ring = links-Ring; times = refl }) (omega arith, (omega arith, tt))

run_timer_list-Ticked_example :
    (s' : Sched (List ℕ)) × (xs' : List ℕ) × (run_timer_list fifo 2 (start 1 0)
      ≡ ok (tick_current fifo s'))
    × Ticked (start 1 0) s' ((1, 0) ∷ (2, 0) ∷ []) xs'
run_timer_list-Ticked_example =
    run_timer_list-Ticked fifo 2 (start 1 0) (1 ∷ 2 ∷ []) ((1, 1) ∷ (2, 1) ∷ [])
      (record { ring = links-Ring; times = refl }) (omega arith) (omega arith, (omega arith, tt))
      (omega arith, (omega arith, tt)) ((11, refl, refl, refl), ((12, refl, refl, refl), tt))
