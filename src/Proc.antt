-- ===== src/Proc.antt =====
-- Lab5/kern/process/proc.c: the process structures, their lists and their relations.
-- The address of a `proc_struct` stands for its `list_link` and its `hash_link` as well. The head
-- `proc_list` is address 0 of the store of `list_link`s; the heads `hash_list[0 .. 1023]` are the
-- addresses 0 to 1023 of the store of `hash_link`s. So the structures have addresses from 1024 on.
pub mod Pid
pub mod Family
pub mod Joined
pub mod Leave
pub mod Sched
pub mod Fork
pub mod Exit
pub mod Wait
mod Tests
use nku_os_ucore.Common.{
  ℕ, zero, suc, ◌+◌, ◌-◌, ◌^◌, Bool, true, false, ◌&&◌, ◌==◌, ltb, leb, if◌then◌else◌, Outcome, ok,
  panicked, out_of_fuel, ◌>>=◌, Option, none, some, ℤ, pos, negsuc, List, ◌∷◌,
}
use nku_os_ucore.DList.{Links, list_add, list_del}
use nku_os_ucore.Hash.{hash32}

pub data Status : Type 0 where
  proc_uninit proc_sleeping proc_runnable proc_zombie : Status

-- `proc_struct`, but for its name; of `context` the two registers that are set, of `flags` the bit
-- PF_EXITING.
pub record Proc : Type 0 where
  pub state : Status
  pub pid : ℤ
  pub runs : ℕ
  pub kstack : ℕ
  pub need_resched : Bool
  pub parent : Option ℕ
  pub mm : Option ℕ
  pub ra : ℕ
  pub sp : ℕ
  pub tf : ℕ
  pub cr3 : ℕ
  pub exiting : Bool
  pub exit_code : ℤ
  pub wait_state : ℕ
  pub cptr : Option ℕ
  pub yptr : Option ℕ
  pub optr : Option ℕ

abbrev pub max_process : ℕ
max_process = 4096

abbrev pub max_pid : ℕ
max_pid = 8192

-- `WT_INTERRUPTED` is bit 31 of a `wait_state`.
abbrev pub wt_child : ℕ
wt_child = 2 ^ 31 + 1

abbrev pub interruptible : ℕ → Bool
interruptible wait_state = leb (2 ^ 31) wait_state

-- Of a `trapframe` the two registers that proc.c sets, and the rest.
pub record Frame : Type 0 where
  pub a0 : ℕ
  pub gpr_sp : ℕ
  pub others : ℕ

-- The calls that give something back: to the heap, the page allocator, or the memory manager.
pub data Release : Type 0 where
  kfree put_kstack exit_mmap put_pgdir mm_destroy : ℕ → Release

-- `mm_count` and `pgdir` are fields of the `mm_struct`s, by address; `frames` are the trap frames.
-- `released` lists the calls that gave something back, the last one first.
-- The variables of proc.c; `last_pid` and `next_safe` are static variables of `get_pid`.
pub record Kernel : Type 0 where
  pub procs : ℕ → Proc
  pub list : Links
  pub hash : Links
  pub nr_process : ℕ
  pub last_pid : ℕ
  pub next_safe : ℕ
  pub current : ℕ
  pub idleproc : ℕ
  pub initproc : ℕ
  pub mm_count : ℕ → ℕ
  pub pgdir : ℕ → ℕ
  pub frames : ℕ → Frame
  pub released : List Release

abbrev pub proc_list : ℕ
proc_list = 0

abbrev pub set : (ℕ → Proc) → ℕ → Proc → ℕ → Proc
set m a v x = if x == a then v else m x

-- `if (q != NULL) q->yptr = v` and `if (q != NULL) q->optr = v`
abbrev pub set_yptr : Option ℕ → Option ℕ → (ℕ → Proc) → ℕ → Proc
set_yptr none v m = m
set_yptr (some q) v m = set m q (record (m q) { yptr = v })

abbrev pub set_optr : Option ℕ → Option ℕ → (ℕ → Proc) → ℕ → Proc
set_optr none v m = m
set_optr (some q) v m = set m q (record (m q) { optr = v })

abbrev pub set_cptr : ℕ → Option ℕ → (ℕ → Proc) → ℕ → Proc
set_cptr q v m = set m q (record (m q) { cptr = v })

-- The writes by which `proc` becomes the youngest child of `parent`, before the child `older`.
unfoldable pub adopt_before : Option ℕ → ℕ → ℕ → (ℕ → Proc) → ℕ → Proc
adopt_before older parent proc m =
    let linked = set m proc (record (m proc) { yptr = none; optr = older }) in
    set_cptr parent (some proc) (set_yptr older (some proc) linked)

abbrev pub adopt : ℕ → ℕ → (ℕ → Proc) → ℕ → Proc
adopt parent proc m = adopt_before (m parent).cptr parent proc m

-- The younger sibling's `optr`, or the parent's `cptr` if there is none, goes to `older`.
abbrev pub close_gap : Option ℕ → Option ℕ → ℕ → (ℕ → Proc) → ℕ → Proc
close_gap none older parent m = set_cptr parent older m
close_gap (some younger) older parent m = set_optr (some younger) older m

-- The writes that take `proc` out of the chain of its siblings.
unfoldable pub disown : ℕ → ℕ → (ℕ → Proc) → ℕ → Proc
disown parent proc m =
    let m' = set_yptr (m proc).optr (m proc).yptr m in
    close_gap (m' proc).yptr (m' proc).optr parent m'

-- `proc->parent` of a process that has one.
abbrev pub parent_of : Proc → ℕ
parent_of p = elim p.parent [ none ↦ 0 | some q ↦ q ]

unfoldable pub set_links : ℕ → Kernel → Kernel
set_links proc k = record k {
  list = list_add proc_list proc k.list;
  procs = adopt (parent_of (k.procs proc)) proc k.procs;
  nr_process = k.nr_process + 1;
}

unfoldable pub remove_links : ℕ → Kernel → Kernel
remove_links proc k = record k {
  list = list_del proc k.list;
  procs = disown (parent_of (k.procs proc)) proc k.procs;
  nr_process = k.nr_process - 1;
}

-- A pid as the unsigned argument of `hash32`.
abbrev pub unsigned : ℤ → ℕ
unsigned (pos n) = n
unsigned (negsuc n) = 2 ^ 32 - 1 - n

abbrev pub pid_hashfn : ℤ → ℕ
pid_hashfn pid = hash32 (unsigned pid) 10

unfoldable pub hash_proc : ℕ → Kernel → Kernel
hash_proc proc k = record k { hash = list_add (pid_hashfn (k.procs proc).pid) proc k.hash }

unfoldable pub unhash_proc : ℕ → Kernel → Kernel
unhash_proc proc k = record k { hash = list_del proc k.hash }

-- `proc->pid == n`
abbrev pub is_pid : ℤ → ℕ → Bool
is_pid (pos p) n = p == n
is_pid (negsuc p) n = false

-- The walk of `find_proc` along the list with this head.
unfoldable pub find_loop : ℕ → ℕ → ℕ → ℕ → Kernel → Outcome (Option ℕ)
find_loop zero pid head le k = out_of_fuel
find_loop (suc f) pid head le k =
    let le' = k.hash.next le in
    let rest = find_loop f pid head le' k in
    if le' == head then ok none else if is_pid (k.procs le').pid pid then ok (some le') else rest

unfoldable pub find_proc : ℕ → ℤ → Kernel → Outcome (Option ℕ)
find_proc fuel (negsuc p) k = ok none
find_proc fuel (pos p) k =
    let head = pid_hashfn (pos p) in
    let found = find_loop fuel p head head k in if ltb 0 p && ltb p max_pid then found else ok none

unfoldable pub wakeup_proc : ℕ → Kernel → Outcome Kernel
wakeup_proc proc k = elim (k.procs proc).state [
  | proc_zombie ↦ panicked
  | proc_runnable ↦ ok k
  | other ↦ ok (record k {
    procs = set k.procs proc (record (k.procs proc) { state = proc_runnable; wait_state = 0 });
  })
]

abbrev pub release : Release → Kernel → Kernel
release r k = record k { released = r ∷ k.released }

-- `current->need_resched = 1`, and 0
unfoldable pub do_yield : Kernel → Kernel
do_yield k = record k {
  procs = set k.procs k.current (record (k.procs k.current) { need_resched = true });
}
