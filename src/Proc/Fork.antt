-- ===== src/Proc/Fork.antt =====
-- do_fork of Lab5/kern/process/proc.c and the functions that it calls.
pub mod Errors
pub mod Failure
pub mod Ready
pub mod Place
pub mod Success
use nku_os_ucore.Common.{
  ℕ, ◌+◌, ◌-◌, Bool, true, false, ◌==◌, leb, if◌then◌else◌, Outcome, ok, ◌>>=◌, ◌>>◌, assert,
  Option, none, some, ℤ, pos, negsuc,
}
use nku_os_ucore.Proc.{
  Status, proc_uninit, Proc, Frame, Release, kfree, put_kstack, exit_mmap, put_pgdir, mm_destroy,
  Kernel, max_process, set, release, hash_proc, set_links, wakeup_proc,
}
use nku_os_ucore.Proc.Pid.{get_pid}

-- What the allocators and the memory manager return, where `do_fork` asks them, the layout of
-- memory, and the addresses that the linker sets.
pub record Answers : Type 0 where
  pub kmalloc : Option ℕ
  pub kstack_pages : Option ℕ
  pub mm_create : Option ℕ
  pub pgdir_page : Option ℕ
  pub dup_mmap : ℤ
  pub paddr : ℕ → ℕ
  pub boot_cr3 : ℕ
  pub forkret : ℕ

-- The negative error numbers.
abbrev pub e_no_mem : ℤ
e_no_mem = negsuc 3

abbrev pub e_no_free_proc : ℤ
e_no_free_proc = negsuc 4

abbrev pub is_zero : ℤ → Bool
is_zero (pos n) = n == 0
is_zero (negsuc n) = false

-- The fields that `alloc_proc` sets.
abbrev pub fresh : ℕ → Proc → Proc
fresh boot_cr3 p = record p {
  state = proc_uninit;
  pid = negsuc 0;
  runs = 0;
  kstack = 0;
  need_resched = false;
  parent = none;
  mm = none;
  ra = 0;
  sp = 0;
  tf = 0;
  cr3 = boot_cr3;
  exiting = false;
  wait_state = 0;
  cptr = none;
  yptr = none;
  optr = none;
}

unfoldable pub alloc_proc : Answers → Kernel → Option ℕ × Kernel
alloc_proc a k = elim a.kmalloc [
  | none ↦ (none, k)
  | some p ↦ (some p, record k { procs = set k.procs p (fresh a.boot_cr3 (k.procs p)) })
]

unfoldable pub setup_kstack : Answers → ℕ → Kernel → ℤ × Kernel
setup_kstack a proc k = elim a.kstack_pages [
  | none ↦ (e_no_mem, k)
  | some page ↦
      (pos 0, record k { procs = set k.procs proc (record (k.procs proc) { kstack = page }) })
]

unfoldable pub setup_pgdir : Answers → ℕ → Kernel → ℤ × Kernel
setup_pgdir a mm k = elim a.pgdir_page [
  | none ↦ (e_no_mem, k)
  | some page ↦ (pos 0, record k { pgdir = λ m. if m == mm then page else k.pgdir m })
]

-- From the label `good_mm` on.
unfoldable pub good_mm : Answers → ℕ → ℕ → Kernel → ℤ × Kernel
good_mm a mm proc k = (
  pos 0,
  record k {
    mm_count = λ m. if m == mm then k.mm_count m + 1 else k.mm_count m;
    procs = set k.procs proc (record (k.procs proc) { mm = some mm; cr3 = a.paddr (k.pgdir mm) });
  },
)

-- `mm_create`, whose file is not in the repository, sets the count of a new structure to 0. A
-- structure that is given back keeps none.
abbrev pub new_count : ℕ → Kernel → Kernel
new_count mm k = record k { mm_count = λ m. if m == mm then 0 else k.mm_count m }

-- The copy of the address space, with the clean-up of its errors.
unfoldable pub duplicate_mm : Answers → ℕ → Kernel → ℤ × Kernel
duplicate_mm a proc k = elim a.mm_create [
  | none ↦ (e_no_mem, k)
  | some mm ↦
      let (r, k1) = setup_pgdir a mm k in
      if is_zero r
      then if is_zero a.dup_mmap then good_mm a mm proc (new_count mm k1) else (
        a.dup_mmap,
        release (mm_destroy mm) (release (put_pgdir (k1.pgdir mm)) (release (exit_mmap mm) k1)),
      )
      else (e_no_mem, release (mm_destroy mm) k1)
]

unfoldable pub copy_mm : Answers → Bool → ℕ → Kernel → ℤ × Kernel
copy_mm a share proc k = elim (k.procs k.current).mm [
  | none ↦ (pos 0, k)
  | some oldmm ↦ if share then good_mm a oldmm proc k else duplicate_mm a proc k
]

-- `KSTACKSIZE - sizeof(struct trapframe)`: two pages less 36 words of 8 bytes.
abbrev pub tf_offset : ℕ
tf_offset = 7904

unfoldable pub copy_thread : Answers → ℕ → ℕ → Frame → Kernel → Kernel
copy_thread a proc esp frame k =
    let p = k.procs proc in
    let at = p.kstack + tf_offset in
    record k {
      procs = set k.procs proc (record p { tf = at; ra = a.forkret; sp = at });
      frames = λ x.
          if x == at
          then record frame { a0 = 0; gpr_sp = if esp == 0 then at else esp }
          else k.frames x;
    }

-- The steps from `copy_thread` on, which do not fail.
unfoldable pub start_child : Answers → ℕ → ℕ → ℕ → ℕ → Frame → Kernel → Outcome (ℤ × Kernel)
start_child a rounds fuel proc stack frame k = do
  r ← get_pid rounds fuel (copy_thread a proc stack frame k)
  let k1 = r.1
  let k2 = record k1 { procs = set k1.procs proc (record (k1.procs proc) { pid = pos r.0 }) }
  k3 ← wakeup_proc proc (set_links proc (hash_proc proc k2))
  ok ((k3.procs proc).pid, k3)

-- The steps after `alloc_proc`.
unfoldable pub fork_child : Answers → ℕ → ℕ → Bool → ℕ → ℕ → Frame → Kernel → Outcome (ℤ × Kernel)
fork_child a rounds fuel share proc stack frame k = do
  let k1 = record k { procs = set k.procs proc (record (k.procs proc) { parent = some k.current }) }
  assert ((k1.procs k1.current).wait_state == 0)
  let stacked = setup_kstack a proc k1
  let copied = copy_mm a share proc stacked.1
  if is_zero stacked.0
      then if is_zero copied.0
        then start_child a rounds fuel proc stack frame copied.1
        else ok (
          e_no_mem,
          release (kfree proc) (release (put_kstack (copied.1.procs proc).kstack) copied.1),
        )
      else ok (e_no_mem, release (kfree proc) stacked.1)

-- What follows `alloc_proc`.
abbrev pub fork_with : Answers → ℕ → ℕ → Bool → ℕ → Frame → Option ℕ × Kernel → Outcome (ℤ × Kernel)
fork_with a rounds fuel share stack frame (none, k) = ok (e_no_mem, k)
fork_with a rounds fuel share stack frame (some proc, k) =
    fork_child a rounds fuel share proc stack frame k

unfoldable pub do_fork : Answers → ℕ → ℕ → Bool → ℕ → Frame → Kernel → Outcome (ℤ × Kernel)
do_fork a rounds fuel share stack frame k =
    if leb max_process k.nr_process
    then ok (e_no_free_proc, k)
    else fork_with a rounds fuel share stack frame (alloc_proc a k)
