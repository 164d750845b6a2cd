-- ===== src/Proc/Sched.antt =====
-- Lab5/kern/schedule/sched.c
pub mod Round
use nku_os_ucore.Common.{
  ℕ, zero, suc, ◌+◌, Bool, true, false, not, ◌&&◌, ◌==◌, if◌then◌else◌, Outcome, ok, out_of_fuel,
  ◌>>=◌, Option, none, some,
}
use nku_os_ucore.Proc.{
  Status, proc_uninit, proc_sleeping, proc_runnable, proc_zombie, Proc, Kernel, proc_list, set,
}

abbrev pub is_runnable : Proc → Bool
is_runnable p = elim p.state [ proc_runnable ↦ true | other ↦ false ]

-- The `do` loop: `next` is null until an entry is met, and then the last one met.
unfoldable pub sched_loop : ℕ → ℕ → ℕ → Option ℕ → Kernel → Outcome (Option ℕ)
sched_loop zero le last next k = out_of_fuel
sched_loop (suc f) le last next k =
    let le' = k.list.next le in
    let head = le' == proc_list in
    let next' = (if head then next else some le') in
    let rest = sched_loop f le' last next' k in
    if not head && is_runnable (k.procs le')
    then ok next'
    else if le' == last
    then ok next'
    else rest

-- `if (next == NULL || next->state != PROC_RUNNABLE) next = idleproc`
abbrev pub or_idle : Option ℕ → Kernel → ℕ
or_idle none k = k.idleproc
or_idle (some p) k = if is_runnable (k.procs p) then p else k.idleproc

-- `proc_run`: the switch of the registers and of the address space is that of `current`.
unfoldable pub proc_run : ℕ → Kernel → Kernel
proc_run proc k = if proc == k.current then k else record k { current = proc }

unfoldable pub schedule : ℕ → Kernel → Outcome Kernel
schedule fuel k = do
  let c = k.current
  let k1 = record k { procs = set k.procs c (record (k.procs c) { need_resched = false }) }
  let last = (if c == k.idleproc then proc_list else c)
  found ← sched_loop fuel last last none k1
  let next = or_idle found k1
  ok (
      proc_run next (record k1 {
        procs = set k1.procs next (record (k1.procs next) { runs = (k1.procs next).runs + 1 });
      }))
