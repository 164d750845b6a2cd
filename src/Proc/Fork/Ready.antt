-- ===== src/Proc/Fork/Ready.antt =====
-- The preparation of a new structure in do_fork, Lab5/kern/process/proc.c.
use nku_os_ucore.Common.{
  ℕ, ◌≡◌, ◌≢◌, refl, subst, ap, ◌∙◌, Bool, true, false, Bool-cases, Option-cases, List, [], ◌∷◌,
  arith, inl, inr, ◌==◌, if◌then◌else◌, Option, none, some, pos, All,
}
use nku_os_ucore.Common.Distinct.{NotIn}
use nku_os_ucore.Proc.{
  proc_uninit, Proc, Frame, Release, mm_destroy, put_pgdir, exit_mmap, Kernel, set,
}
use nku_os_ucore.Proc.Pid.Window.{num, Window}
use nku_os_ucore.Proc.Fork.{
  Answers, is_zero, setup_pgdir, good_mm, duplicate_mm, copy_mm, copy_thread,
}
use nku_os_ucore.Proc.Fork.Errors.{mm_error}

-- From `k` on only the new structure `p` has been prepared, among the processes and their lists.
pub record Ready (p : ℕ) (k k' : Kernel) : Type 0 where
  pub list : k'.list ≡ k.list
  pub nr_process : k'.nr_process ≡ k.nr_process
  pub last_pid : k'.last_pid ≡ k.last_pid
  pub next_safe : k'.next_safe ≡ k.next_safe
  pub current : k'.current ≡ k.current
  pub procs : (x : ℕ) → p ≢ x → k'.procs x ≡ k.procs x
  pub state : (k'.procs p).state ≡ proc_uninit
  pub parent : (k'.procs p).parent ≡ some k.current

pub set-same : (m : ℕ → Proc) (p : ℕ) (v : Proc) → set m p v p ≡ v
set-same m p v = ground arith

pub set-other : (m : ℕ → Proc) (p x : ℕ) (v : Proc) → p ≢ x → set m p v x ≡ m x
set-other m p x v n = ground arith

-- A write to the structure itself that keeps these two fields, and writes elsewhere.
Ready-set :
    (p : ℕ) (k k' : Kernel) (v : Proc) (count dirs : ℕ → ℕ) (frames : ℕ → Frame)
    → Ready p k k'
    → v.state ≡ proc_uninit
    → v.parent ≡ some k.current
    → Ready p k
        (record k' { procs = set k'.procs p v; mm_count = count; pgdir = dirs; frames = frames })
Ready-set p k k' v count dirs frames r s q = record {
  list = r.list;
  nr_process = r.nr_process;
  last_pid = r.last_pid;
  next_safe = r.next_safe;
  current = r.current;
  procs = λ x n. set-other k'.procs p x v n ∙ r.procs x n;
  state = ap (λ z. z.state) (set-same k'.procs p v) ∙ s;
  parent = ap (λ z. z.parent) (set-same k'.procs p v) ∙ q;
}

Ready-good_mm :
    (a : Answers) (mm p : ℕ) (k k' : Kernel)
    → Ready p k k'
    → (k2 : Kernel) × (good_mm a mm p k' ≡ (pos 0, k2)) × Ready p k k2
unfolding good_mm
Ready-good_mm a mm p k k' r = (
  (good_mm a mm p k').1,
  refl,
  Ready-set p k k' (record (k'.procs p) { mm = some mm; cr3 = a.paddr (k'.pgdir mm) }) _ _ _ r
      r.state r.parent,
)

abbrev pub MmDone : Answers → Bool → ℕ → Kernel → Kernel → Option (List Release) → Type 0
MmDone a share p k k' (some rs) = Unit {0}
MmDone a share p k k' none = (k2 : Kernel) × (copy_mm a share p k' ≡ (pos 0, k2)) × Ready p k k2

Ready-pgdir :
    (p : ℕ) (k k' : Kernel) (g c : ℕ → ℕ)
    → Ready p k k'
    → Ready p k (record k' { pgdir = g; mm_count = c })
Ready-pgdir p k k' g c r = record {
  list = r.list;
  nr_process = r.nr_process;
  last_pid = r.last_pid;
  next_safe = r.next_safe;
  current = r.current;
  procs = r.procs;
  state = r.state;
  parent = r.parent;
}

pub copy_mm-MmDone :
    (a : Answers) (share : Bool) (p : ℕ) (k k' : Kernel) (o : Option ℕ)
    → Ready p k k'
    → (k'.procs k'.current).mm ≡ o
    → MmDone a share p k k' (mm_error a share o)
unfolding copy_mm duplicate_mm setup_pgdir good_mm Ready-good_mm
copy_mm-MmDone a share p k k' none r m = (k', rw (copy_mm, m) refl, r)
copy_mm-MmDone a true p k k' (some old) r m =
    let (k2, e, r2) = Ready-good_mm a old p k k' r in (k2, rw (copy_mm, m) e, r2)
copy_mm-MmDone a false p k k' (some old) r m = elim (Option-cases a.mm_create) [
  | inl e ↦ subst (MmDone a false p k k') {x = some []} (rw e refl) tt
  | inr (mm, e) ↦ elim (Option-cases a.pgdir_page) [
    | inl f ↦ subst (MmDone a false p k k') {x = some (mm_destroy mm ∷ [])} (rw (e, f) refl) tt
    | inr (page, f) ↦ elim (Bool-cases (is_zero a.dup_mmap)) [
      | inl z ↦
          let k1 : Kernel = record k' {
            pgdir = λ x. if x == mm then page else k'.pgdir x;
            mm_count = λ x. if x == mm then 0 else k'.mm_count x;
          } in
          let (k2, q, r2) = Ready-good_mm a mm p k k1 (Ready-pgdir p k k' _ _ r) in
          subst (MmDone a false p k k') {x = none} (rw (e, f, z) refl)
            (k2, rw (copy_mm, m, duplicate_mm, e, setup_pgdir, f, z) q, r2)
      | inr z ↦
          subst (MmDone a false p k k')
            {x = some (mm_destroy mm ∷ put_pgdir page ∷ exit_mmap mm ∷ [])} (rw (e, f, z) refl) tt
    ]
  ]
]

-- The processes of the list keep their pids.
num-Ready : (p x : ℕ) (k k' : Kernel) → Ready p k k' → p ≢ x → num k' x ≡ num k x
num-Ready p x k k' r n = rw (r.procs x n) refl

pub Window-Ready :
    (p last next : ℕ) (k k' : Kernel) (xs : List ℕ)
    → Ready p k k'
    → NotIn p xs
    → Window k last next xs
    → Window k' last next xs
Window-Ready p last next k k' [] r n w = tt
Window-Ready p last next k k' (x ∷ xs) r n w =
    (rw (num-Ready p x k k' r n.0) w.0, Window-Ready p last next k k' xs r n.1 w.1)

pub All-Ready :
    (p q : ℕ) (k k' : Kernel) (xs : List ℕ)
    → Ready p k k'
    → NotIn p xs
    → All (λ x. num k' x ≢ q) xs
    → All (λ x. num k x ≢ q) xs
All-Ready p q k k' [] r n w = tt
All-Ready p q k k' (x ∷ xs) r n w =
    ((λ e. w.0 (num-Ready p x k k' r n.0 ∙ e)), All-Ready p q k k' xs r n.1 w.1)

pub Ready-copy_thread :
    (a : Answers) (p stack : ℕ) (frame : Frame) (k k' : Kernel)
    → Ready p k k'
    → Ready p k (copy_thread a p stack frame k')
unfolding copy_thread
Ready-copy_thread a p stack frame k k' r = Ready-set p k k' _ _ _ _ r r.state r.parent
