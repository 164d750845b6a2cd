-- ===== src/Proc/Tests.antt =====
-- Concrete runs of Lab5/kern/process/proc.c. The idle process is at 1024, `initproc` at 1025; it has
-- the child 1026, which has the child 1027.
use nku_os_ucore.Common.{
  true, ℕ, ◌+◌, ◌≤◌, ◌<◌, ◌≡◌, ◌≢◌, inr, refl, ap, false, ◌==◌, if◌then◌else◌, arith, List, [], ◌∷◌,
  All, Option, none, some, ok, pos,
}
use nku_os_ucore.DList.{Links}
use nku_os_ucore.DList.Ring.{Ring}
use nku_os_ucore.Proc.{proc_runnable, proc_zombie, proc_sleeping, Proc, kfree, Kernel, proc_list}
use nku_os_ucore.Proc.Pid.{get_pid}
use nku_os_ucore.Proc.Pid.Window.{num, Window}
use nku_os_ucore.Proc.Pid.Fresh.{get_pid-fresh}
use nku_os_ucore.Proc.Sched.{schedule}
use nku_os_ucore.Proc.Sched.Round.{Scheduled, schedule-Scheduled}
use nku_os_ucore.Proc.Fork.{Answers, e_no_mem, do_fork}
use nku_os_ucore.Proc.Fork.Errors.{Untouched}
use nku_os_ucore.Proc.Fork.Failure.{do_fork-failure}
use nku_os_ucore.Proc.Exit.{reparent}
use nku_os_ucore.Proc.Exit.Orphans.{Adopted, reparent-Adopted}
use nku_os_ucore.Proc.Fork.Place.{Started}
use nku_os_ucore.Proc.Fork.Success.{Room, do_fork-Started}
use nku_os_ucore.Proc.Wait.{returned, do_wait}
use nku_os_ucore.Proc.Wait.Reaped.{Dead, Gone, do_wait-Gone}

abbrev someone : Proc
someone = record {
  state = proc_runnable;
  pid = pos 0;
  runs = 0;
  kstack = 0;
  need_resched = false;
  parent = none;
  mm = none;
  ra = 0;
  sp = 0;
  tf = 0;
  cr3 = 0;
  exiting = false;
  exit_code = pos 0;
  wait_state = 0;
  cptr = none;
  yptr = none;
  optr = none;
}

abbrev table : ℕ → Proc
table x =
    if x == 1025
    then record someone { state = proc_sleeping; pid = pos 1; parent = some 1024; cptr = some 1026 }
    else if x == 1026
    then record someone { pid = pos 2; parent = some 1025; cptr = some 1027 }
    else if x == 1027
    then record someone { state = proc_zombie; pid = pos 3; parent = some 1026 }
    else someone

-- The list of the processes: 1027, 1026, 1025.
abbrev links : Links
links = record {
  next = λ x. if x == 0 then 1027 else if x == 1027 then 1026 else if x == 1026 then 1025 else 0;
  prev = λ x. if x == 0 then 1025 else if x == 1025 then 1026 else if x == 1026 then 1027 else 0;
}

abbrev kernel : Kernel
kernel = record {
  procs = table;
  list = links;
  hash = links;
  nr_process = 4;
  last_pid = 3;
  next_safe = 8192;
  current = 1026;
  idleproc = 1024;
  initproc = 1025;
  mm_count = λ x. 0;
  pgdir = λ x. 0;
  frames = λ x. record { a0 = 0; gpr_sp = 0; others = 0 };
  released = [];
}

abbrev everyone : List ℕ
everyone = 1027 ∷ 1026 ∷ 1025 ∷ []

kernel-Ring : Ring links proc_list everyone
kernel-Ring = record { linked = omega arith; distinct = omega arith }

get_pid-fresh_example :
    (r : ℕ) × (n : ℕ) × (get_pid 20000 4 kernel
      ≡ ok (r, record kernel { last_pid = r; next_safe = n }))
    × (1 ≤ r)
    × (r < 8192)
    × All (λ x. num kernel x ≢ r) everyone
    × Window kernel (r + 1) n everyone
get_pid-fresh_example =
    get_pid-fresh 20000 4 kernel everyone kernel-Ring (omega arith) (omega arith) (omega arith)
      (omega arith)

schedule-Scheduled_example : (k' : Kernel) × (schedule 4 kernel ≡ ok k') × Scheduled kernel 1026 k'
schedule-Scheduled_example =
    schedule-Scheduled 4 kernel everyone (1025 ∷ 1027 ∷ 1026 ∷ []) kernel-Ring
      (inr (1027 ∷ [], 1025 ∷ [], (λ e. omega (arith, e)), refl, refl)) (omega arith)

abbrev no_stack : Answers
no_stack = record {
  kmalloc = some 1030;
  kstack_pages = none;
  mm_create = none;
  pgdir_page = none;
  dup_mmap = pos 0;
  paddr = λ x. x;
  boot_cr3 = 0;
  forkret = 0;
}

elsewhere : (p : ℕ) → some 1030 ≡ some p → p ≢ 1026
elsewhere p e h =
    let value : Option ℕ → ℕ = λ o. elim o [ none ↦ 0 | some x ↦ x ] in omega (arith, ap value e, h)

do_fork-failure_example :
    (k' : Kernel) × (do_fork no_stack 20000 4 false 0 (kernel.frames 0) kernel ≡ ok (e_no_mem, k'))
    × (k'.released ≡ kfree 1030 ∷ [])
    × Untouched no_stack kernel k'
do_fork-failure_example =
    do_fork-failure no_stack 20000 4 false 0 (kernel.frames 0) kernel e_no_mem (kfree 1030 ∷ [])
      refl (λ p e. elsewhere p e) refl

reparent-Adopted_example :
    (k' : Kernel) × (reparent 2 kernel ≡ ok k') × Adopted kernel (1027 ∷ 1026 ∷ []) k'
reparent-Adopted_example =
    reparent-Adopted 2 kernel (1027 ∷ []) (1026 ∷ []) (omega arith) (λ e. omega (arith, e)) refl
      (omega arith) (refl, refl, refl) (refl, refl, refl, refl)

abbrev good : Answers
good = record no_stack { kstack_pages = some 5000 }

room : Room 20000 4 1030 kernel everyone (1027 ∷ [])
room = record {
  awake = refl;
  ring = kernel-Ring;
  not_head = λ e. omega (arith, e);
  out = omega arith;
  not_current = λ e. omega (arith, e);
  distinct = omega arith;
  children = (refl, refl, refl, refl);
  enough_fuel = omega arith;
  few = omega arith;
  enough_rounds = omega arith;
  window = omega arith;
}

do_fork-Started_example :
    (r : ℕ) × (k2 : Kernel) × (do_fork good 20000 4 false 0 (kernel.frames 0) kernel
      ≡ ok (pos r, k2))
    × Started 1030 r kernel everyone (1027 ∷ []) k2
do_fork-Started_example =
    do_fork-Started good 20000 4 false 0 (kernel.frames 0) kernel everyone (1027 ∷ []) 1030 room
      refl refl

kernel-Dead : Dead 1027 kernel [] [] [] (1026 ∷ 1025 ∷ []) [] (1026 ∷ 1025 ∷ []) 0
kernel-Dead = record {
  children = (refl, refl, refl, refl);
  distinct = (tt, tt);
  living = tt;
  zombie = refl;
  not_idle = λ e. omega (arith, e);
  not_init = λ e. omega (arith, e);
  ring = kernel-Ring;
  hashed = kernel-Ring;
}

do_wait-Gone_example :
    (k' : Kernel) × (do_wait 1 1 (pos 0) (some true) (λ k. k) kernel
      ≡ ok (returned (pos 0) (some (pos 0)) k'))
    × Gone 1027 kernel [] [] [] (1026 ∷ 1025 ∷ []) [] (1026 ∷ 1025 ∷ []) 0 k'
do_wait-Gone_example =
    do_wait-Gone 1 1 1027 (λ k. k) kernel [] [] [] (1026 ∷ 1025 ∷ []) [] (1026 ∷ 1025 ∷ []) 0
      kernel-Dead (omega arith) (omega arith)
