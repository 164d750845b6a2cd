-- ===== src/Proc/Fork/Failure.antt =====
-- The errors of do_fork, Lab5/kern/process/proc.c, and what they give back.
use nku_os_ucore.Common.{
  ℕ, ◌≡◌, ◌≢◌, refl, subst, ap, ◌∙◌, Bool, true, Bool-cases, Option-cases, List, [], ◌∷◌, ◌++◌,
  arith, inl, inr, leb, ◌==◌, Option, none, some, ok, ℤ, pos,
}
use nku_os_ucore.Proc.{Frame, Release, kfree, put_kstack, Kernel, max_process, set}
use nku_os_ucore.Proc.Fork.{
  Answers, e_no_mem, e_no_free_proc, fresh, alloc_proc, setup_kstack, fork_child, do_fork,
}
use nku_os_ucore.Proc.Fork.Errors.{
  mm_error, fork_error, Untouched, MmFailed, equal, copy_mm-MmFailed,
}

-- The kernel with the new structure, and then with its stack.
abbrev pub child : Answers → ℕ → Kernel → Kernel
child a p k =
    let m = set k.procs p (fresh a.boot_cr3 (k.procs p)) in
    record k { procs = set m p (record (m p) { parent = some k.current }) }

abbrev pub stacked : ℕ → ℕ → Kernel → Kernel
stacked p stack k = record k { procs = set k.procs p (record (k.procs p) { kstack = stack }) }

pub kept :
    (a : Answers) (p stack x : ℕ) (k : Kernel)
    → p ≢ x
    → ((child a p k).procs x ≡ k.procs x) × ((stacked p stack (child a p k)).procs x ≡ k.procs x)
kept a p stack x k h = (ground arith, ground arith)

own_stack :
    (a : Answers) (p stack : ℕ) (k : Kernel)
    → ((stacked p stack (child a p k)).procs p).kstack ≡ stack
own_stack a p stack k = rw (equal p) refl

Untouched-child :
    (a : Answers) (p stack : ℕ) (k : Kernel) (g : ℕ → ℕ) (rs : List Release)
    → a.kmalloc ≡ some p
    → Untouched a k (record (child a p k) { released = rs })
      × Untouched a k (record (stacked p stack (child a p k)) { pgdir = g; released = rs })
Untouched-child a p stack k g rs h = (
  record {
    list = refl;
    hash = refl;
    nr_process = refl;
    last_pid = refl;
    next_safe = refl;
    current = refl;
    mm_count = refl;
    frames = refl;
    procs = λ x n. (kept a p stack x k (λ e. n (h ∙ ap some e))).0;
  },
  record {
    list = refl;
    hash = refl;
    nr_process = refl;
    last_pid = refl;
    next_safe = refl;
    current = refl;
    mm_count = refl;
    frames = refl;
    procs = λ x n. (kept a p stack x k (λ e. n (h ∙ ap some e))).1;
  },
)

abbrev ForkFailed : Answers → ℕ → ℕ → Bool → ℕ → Frame → Kernel → Option (ℤ × List Release) → Type 0
ForkFailed a rounds fuel share stack frame k none = Unit {0}
ForkFailed a rounds fuel share stack frame k (some r) =
    (k' : Kernel) × (do_fork a rounds fuel share stack frame k ≡ ok (r.0, k'))
    × (k'.released ≡ r.1 ++ k.released)
    × Untouched a k k'

alloc_proc-none : (a : Answers) (k : Kernel) → a.kmalloc ≡ none → alloc_proc a k ≡ (none, k)
unfolding alloc_proc
alloc_proc-none a k e = rw (alloc_proc, e) refl

pub alloc_proc-some :
    (a : Answers) (k : Kernel) (p : ℕ)
    → a.kmalloc ≡ some p
    → alloc_proc a k ≡ (some p, record k { procs = set k.procs p (fresh a.boot_cr3 (k.procs p)) })
unfolding alloc_proc
alloc_proc-some a k p e = rw (alloc_proc, e) refl

setup_kstack-none :
    (a : Answers) (p : ℕ) (k : Kernel) → a.kstack_pages ≡ none → setup_kstack a p k ≡ (e_no_mem, k)
unfolding setup_kstack
setup_kstack-none a p k e = rw (setup_kstack, e) refl

pub setup_kstack-some :
    (a : Answers) (p stack : ℕ) (k : Kernel)
    → a.kstack_pages ≡ some stack
    → setup_kstack a p k ≡ (pos 0, stacked p stack k)
unfolding setup_kstack
setup_kstack-some a p stack k e = rw (setup_kstack, e) refl

module _ (a : Answers) (rounds fuel : ℕ) (share : Bool) (stack : ℕ) (frame : Frame) (k : Kernel)
    (awake : (k.procs k.current).wait_state ≡ 0)
    (unused : (p : ℕ) → a.kmalloc ≡ some p → p ≢ k.current) where
  all_same : Untouched a k k
  all_same = record {
    list = refl;
    hash = refl;
    nr_process = refl;
    last_pid = refl;
    next_safe = refl;
    current = refl;
    mm_count = refl;
    frames = refl;
    procs = λ x n. refl;
  }

  pub awake_child :
      (p : ℕ) → a.kmalloc ≡ some p → (((child a p k).procs k.current).wait_state == 0) ≡ true
  awake_child p e = rw ((kept a p 0 k.current k (unused p e)).0, awake) refl

  do_fork-ForkFailed : ForkFailed a rounds fuel share stack frame k (fork_error a share k)
  unfolding do_fork fork_child
  do_fork-ForkFailed = elim (Bool-cases (leb max_process k.nr_process)) [
    | inl t ↦
        subst (ForkFailed a rounds fuel share stack frame k) {x = some (e_no_free_proc, [])}
          (rw t refl) (k, rw (do_fork, t) refl, refl, all_same)
    | inr t ↦ elim (Option-cases a.kmalloc) [
      | inl e ↦
          subst (ForkFailed a rounds fuel share stack frame k) {x = some (e_no_mem, [])}
            (rw (t, e) refl) (k, rw (do_fork, t, alloc_proc-none a k e) refl, refl, all_same)
      | inr (p, e) ↦ elim (Option-cases a.kstack_pages) [
        | inl f ↦
            subst (ForkFailed a rounds fuel share stack frame k) {x = some (e_no_mem, kfree p ∷ [])}
              (rw (t, e, f) refl)
              (
                record (child a p k) { released = kfree p ∷ k.released },
                rw
                    (
                      do_fork,
                      t,
                      alloc_proc-some a k p e,
                      fork_child,
                      awake_child p e,
                      setup_kstack-none a p (child a p k) f,
                    )
                    refl,
                refl,
                (Untouched-child a p 0 k k.pgdir _ e).0,
              )
        | inr (st, f) ↦
            let o = (k.procs k.current).mm in
            let k3 = stacked p st (child a p k) in
            let same = (kept a p st k.current k (unused p e)).1 in
            let failed = copy_mm-MmFailed a share p k3 o (rw same refl) in
            elim (Option-cases (mm_error a share o)) [
              | inl g ↦
                  subst (ForkFailed a rounds fuel share stack frame k) {x = none}
                    (rw (t, e, f, g) refl) tt
              | inr (rs, g) ↦
                  let (r, pg, q, z) = subst (MmFailed a share p k3) g failed in
                  subst (ForkFailed a rounds fuel share stack frame k)
                    {x = some (e_no_mem, kfree p ∷ put_kstack st ∷ rs)} (rw (t, e, f, g) refl)
                    (
                      record k3 {
                        pgdir = pg;
                        released = kfree p ∷ put_kstack st ∷ (rs ++ k.released);
                      },
                      rw
                          (
                            do_fork,
                            t,
                            alloc_proc-some a k p e,
                            fork_child,
                            awake_child p e,
                            setup_kstack-some a p st (child a p k) f,
                            q,
                            z,
                          )
                          (ap
                            (λ q. ok (
                              e_no_mem,
                              record k3 {
                                pgdir = pg;
                                released = kfree p ∷ put_kstack q ∷ (rs ++ k.released);
                              },
                            ))
                            (own_stack a p st k)),
                      refl,
                      (Untouched-child a p st k pg _ e).1,
                    )
            ]
      ]
    ]
  ]

-- If the caller does not wait, `kmalloc` does not return its own structure, and too many processes
-- exist or one of the answers is an error, then `do_fork` returns the error number of the first
-- failure and gives back all that it had acquired before it, in reverse order, and nothing else.
-- The lists, the counters, `current` and all other processes are as they were.
pub do_fork-failure :
    (a : Answers) (rounds fuel : ℕ) (share : Bool) (stack : ℕ) (frame : Frame) (k : Kernel) (r : ℤ)
    (rs : List Release)
    → (k.procs k.current).wait_state ≡ 0
    → ((p : ℕ) → a.kmalloc ≡ some p → p ≢ k.current)
    → fork_error a share k ≡ some (r, rs)
    → (k' : Kernel) × (do_fork a rounds fuel share stack frame k ≡ ok (r, k'))
      × (k'.released ≡ rs ++ k.released)
      × Untouched a k k'
do_fork-failure a rounds fuel share stack frame k r rs awake unused e =
    subst (ForkFailed a rounds fuel share stack frame k) e
      (do_fork-ForkFailed a rounds fuel share stack frame k awake unused)
