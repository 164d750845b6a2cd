-- ===== src/Proc/Wait.antt =====
-- do_wait of Lab5/kern/process/proc.c.
pub mod Reaped
use nku_os_ucore.Common.{
  ℕ, zero, suc, Bool, true, false, ◌||◌, ◌==◌, if◌then◌else◌, Outcome, ok, panicked, out_of_fuel,
  ◌>>=◌, Option, none, some, ℤ, pos, negsuc,
}
use nku_os_ucore.Proc.{
  proc_sleeping, kfree, put_kstack, Kernel, set, release, wt_child, find_proc, unhash_proc,
  remove_links,
}
use nku_os_ucore.Proc.Sched.{schedule}
use nku_os_ucore.Proc.Fork.{is_zero}
use nku_os_ucore.Proc.Exit.{is_zombie, do_exit, e_inval, e_killed}

abbrev pub e_bad_proc : ℤ
e_bad_proc = negsuc 1

-- What the search for a child finds: one that is dead, only such as live, or none.
pub data Found : Type 0 where
  dead : ℕ → Found
  living nobody : Found

-- The `for` loop over the chain of children.
unfoldable pub scan_children : ℕ → Option ℕ → Bool → Kernel → Outcome Found
scan_children zero proc haskid k = out_of_fuel
scan_children (suc f) none haskid k = ok (if haskid then living else nobody)
scan_children (suc f) (some p) haskid k =
    let rest = scan_children f (k.procs p).optr true k in
    if is_zombie (k.procs p) then ok (dead p) else rest

abbrev pub is_child : Kernel → ℕ → Bool
is_child k p = elim (k.procs p).parent [ none ↦ false | some q ↦ q == k.current ]

-- From the label `repeat` to `found`.
unfoldable pub seek_child : ℕ → ℤ → Kernel → Outcome Found
seek_child fuel pid k =
    if is_zero pid
    then scan_children fuel (k.procs k.current).cptr false k
    else find_proc fuel pid k >>= λ found. elim found [
      | none ↦ ok nobody
      | some p ↦
          if is_child k p then ok (if is_zombie (k.procs p) then dead p else living) else ok nobody
    ]

-- From the label `found` on: the exit code, and the kernel without the process.
unfoldable pub reap : ℕ → Kernel → Outcome (ℤ × Kernel)
reap proc k =
    if proc == k.idleproc || proc == k.initproc
    then panicked
    else let k1 = remove_links proc (unhash_proc proc k) in
      ok (
        (k.procs proc).exit_code,
        release (kfree proc) (release (put_kstack (k1.procs proc).kstack) k1),
      )

-- How `do_wait` ends: it returns a number and perhaps stores an exit code, or the process was
-- killed in its sleep and has left by `do_exit`.
pub data Waited : Type 0 where
  returned : ℤ → Option ℤ → Kernel → Waited
  exited : Kernel → Waited

unfoldable pub fall_asleep : Kernel → Kernel
fall_asleep k = record k {
  procs =
      set k.procs k.current
        (record (k.procs k.current) { state = proc_sleeping; wait_state = wt_child });
}

-- `others` is what the other processes do until the scheduler comes back to this one.
unfoldable pub wait_loop : ℕ → ℕ → ℤ → Bool → (Kernel → Kernel) → Kernel → Outcome Waited
wait_loop zero fuel pid store others k = out_of_fuel
wait_loop (suc rounds) fuel pid store others k = seek_child fuel pid k >>= λ found. elim found [
  | nobody ↦ ok (returned e_bad_proc none k)
  | dead proc ↦ reap proc k >>= λ r. ok (returned (pos 0) (if store then some r.0 else none) r.1)
  | living ↦ schedule fuel (fall_asleep k) >>= λ k1.
      let k2 = others k1 in
      elim (k2.procs k2.current).exiting [
        | true ↦ do_exit fuel e_killed k2 >>= λ k3. ok (exited k3)
        | false ↦ wait_loop rounds fuel pid store others k2
      ]
]

-- `code_store` is null, or else the answer of `user_mem_check` for it.
unfoldable pub do_wait : ℕ → ℕ → ℤ → Option Bool → (Kernel → Kernel) → Kernel → Outcome Waited
do_wait rounds fuel pid none others k = wait_loop rounds fuel pid false others k
do_wait rounds fuel pid (some writable) others k =
    let rest = wait_loop rounds fuel pid true others k in
    if writable then rest else ok (returned e_inval none k)
