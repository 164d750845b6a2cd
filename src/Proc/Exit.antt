-- ===== src/Proc/Exit.antt =====
-- do_exit and do_kill of Lab5/kern/process/proc.c.
pub mod Waking
pub mod Orphans
use nku_os_ucore.Common.{
  ℕ, zero, suc, ◌-◌, Bool, true, false, not, ◌&&◌, ◌==◌, if◌then◌else◌, Outcome, ok, panicked,
  out_of_fuel, ◌>>=◌, ◌>>◌, assert, Option, none, some, ℤ, pos, negsuc,
}
use nku_os_ucore.Proc.{
  Status, proc_uninit, proc_sleeping, proc_runnable, proc_zombie, Proc, Release, exit_mmap,
  put_pgdir, mm_destroy, Kernel, set, set_cptr, adopt, parent_of, release, wakeup_proc, wt_child,
  interruptible, find_proc,
}
use nku_os_ucore.Proc.Sched.{schedule}

abbrev pub is_zombie : Proc → Bool
is_zombie p = elim p.state [ proc_zombie ↦ true | other ↦ false ]

-- `if (proc->wait_state == WT_CHILD) wakeup_proc(proc)`
unfoldable pub wakeup_waiting : ℕ → Kernel → Outcome Kernel
wakeup_waiting proc k = if (k.procs proc).wait_state == wt_child then wakeup_proc proc k else ok k

-- The address space is left, and freed with its last user.
unfoldable pub leave_mm : Kernel → Kernel
leave_mm k = elim (k.procs k.current).mm [
  | none ↦ k
  | some mm ↦
      let count = k.mm_count mm - 1 in
      let k1 = record k { mm_count = λ m. if m == mm then count else k.mm_count m } in
      let k2 =
        if count == 0
        then release (mm_destroy mm) (release (put_pgdir (k1.pgdir mm)) (release (exit_mmap mm) k1))
        else k1 in
      record k2 { procs = set k2.procs k.current (record (k2.procs k.current) { mm = none }) }
]

-- One round of the loop over the children: the first child goes to `initproc`.
unfoldable pub give_away : ℕ → Kernel → Kernel
give_away proc k =
    let m1 = set_cptr k.current (k.procs proc).optr k.procs in
    let m2 = set m1 proc (record (m1 proc) { parent = some k.initproc }) in
    record k { procs = adopt k.initproc proc m2 }

unfoldable pub reparent : ℕ → Kernel → Outcome Kernel
reparent zero k = out_of_fuel
reparent (suc f) k = elim (k.procs k.current).cptr [
  | none ↦ ok k
  | some proc ↦
      let k1 = give_away proc k in
      (if is_zombie (k1.procs proc) then wakeup_waiting k1.initproc k1 else ok k1) >>= λ k2.
      reparent f k2
]

-- Up to the call of `schedule`, from which the process does not return.
unfoldable pub die : ℕ → ℤ → Kernel → Outcome Kernel
die fuel error_code k = do
  let k1 = leave_mm k
  let p = k1.procs k1.current
  let k2 = record k1 {
    procs = set k1.procs k1.current (record p { state = proc_zombie; exit_code = error_code });
  }
  k3 ← wakeup_waiting (parent_of p) k2
  reparent fuel k3

unfoldable pub do_exit : ℕ → ℤ → Kernel → Outcome Kernel
do_exit fuel error_code k = do
  assert (not (k.current == k.idleproc))
  assert (not (k.current == k.initproc))
  k1 ← die fuel error_code k
  schedule fuel k1

abbrev pub e_inval : ℤ
e_inval = negsuc 2

abbrev pub e_killed : ℤ
e_killed = negsuc 8

-- The flag is set, and the process woken if its sleep can be interrupted.
unfoldable pub mark_exiting : ℕ → Kernel → Outcome Kernel
mark_exiting proc k =
    let k1 = record k { procs = set k.procs proc (record (k.procs proc) { exiting = true }) } in
    if interruptible (k.procs proc).wait_state then wakeup_proc proc k1 else ok k1

unfoldable pub do_kill : ℕ → ℤ → Kernel → Outcome (ℤ × Kernel)
do_kill fuel pid k = find_proc fuel pid k >>= λ found. elim found [
  | none ↦ ok (e_inval, k)
  | some proc ↦
      if (k.procs proc).exiting
      then ok (e_killed, k)
      else mark_exiting proc k >>= λ k1. ok (pos 0, k1)
]
