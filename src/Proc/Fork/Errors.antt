-- ===== src/Proc/Fork/Errors.antt =====
-- The errors that do_fork of Lab5/kern/process/proc.c can meet, and the copy of the address space.
use nku_os_ucore.Common.{
  ℕ, ◌≡◌, ◌≢◌, refl, subst, Bool, true, false, Bool-cases, Option-cases, List, [], ◌∷◌, ◌++◌, arith,
  inl, inr, leb, ◌==◌, if◌then◌else◌, Option, none, some, ℤ,
}
use nku_os_ucore.Proc.{
  Release, kfree, put_kstack, exit_mmap, put_pgdir, mm_destroy, Kernel, max_process,
}
use nku_os_ucore.Proc.Fork.{
  Answers, e_no_mem, e_no_free_proc, is_zero, setup_pgdir, duplicate_mm, copy_mm,
}

-- What a failed copy of the address space has acquired, the last one first; none if it succeeds.
abbrev pub mm_error : Answers → Bool → Option ℕ → Option (List Release)
mm_error a share none = none
mm_error a true (some old) = none
mm_error a false (some old) = elim a.mm_create [
  | none ↦ some []
  | some mm ↦ elim a.pgdir_page [
    | none ↦ some (mm_destroy mm ∷ [])
    | some page ↦
        if is_zero a.dup_mmap
        then none
        else some (mm_destroy mm ∷ put_pgdir page ∷ exit_mmap mm ∷ [])
  ]
]

-- The error that `do_fork` meets, with what it has acquired until then; none if it meets none.
abbrev pub fork_error : Answers → Bool → Kernel → Option (ℤ × List Release)
fork_error a share k =
    if leb max_process k.nr_process then some (e_no_free_proc, []) else elim a.kmalloc [
      | none ↦ some (e_no_mem, [])
      | some p ↦ elim a.kstack_pages [
        | none ↦ some (e_no_mem, kfree p ∷ [])
        | some stack ↦ elim (mm_error a share (k.procs k.current).mm) [
          | none ↦ none
          | some rs ↦ some (e_no_mem, kfree p ∷ put_kstack stack ∷ rs)
        ]
      ]
    ]

-- Nothing has changed but the block that `kmalloc` returned and unused page directories.
pub record Untouched (a : Answers) (k k' : Kernel) : Type 0 where
  pub list : k'.list ≡ k.list
  pub hash : k'.hash ≡ k.hash
  pub nr_process : k'.nr_process ≡ k.nr_process
  pub last_pid : k'.last_pid ≡ k.last_pid
  pub next_safe : k'.next_safe ≡ k.next_safe
  pub current : k'.current ≡ k.current
  pub mm_count : k'.mm_count ≡ k.mm_count
  pub frames : k'.frames ≡ k.frames
  pub procs : (x : ℕ) → a.kmalloc ≢ some x → k'.procs x ≡ k.procs x

-- The copy of the address space fails with what it has acquired given back.
abbrev pub MmFailed : Answers → Bool → ℕ → Kernel → Option (List Release) → Type 0
MmFailed a share proc k none = Unit {0}
MmFailed a share proc k (some rs) =
    (r : ℤ) × (g : ℕ → ℕ) × (copy_mm a share proc k
      ≡ (r, record k { pgdir = g; released = rs ++ k.released }))
    × (is_zero r ≡ false)

pub equal : (c : ℕ) → (c == c) ≡ true
equal c = ground arith

pub copy_mm-MmFailed :
    (a : Answers) (share : Bool) (proc : ℕ) (k : Kernel) (o : Option ℕ)
    → (k.procs k.current).mm ≡ o
    → MmFailed a share proc k (mm_error a share o)
unfolding copy_mm duplicate_mm setup_pgdir
copy_mm-MmFailed a share proc k none m = tt
copy_mm-MmFailed a true proc k (some old) m = tt
copy_mm-MmFailed a false proc k (some old) m = elim (Option-cases a.mm_create) [
  | inl e ↦
      subst (MmFailed a false proc k) {x = some []} (rw e refl)
        (e_no_mem, k.pgdir, rw (copy_mm, m, duplicate_mm, e) refl, refl)
  | inr (mm, e) ↦ elim (Option-cases a.pgdir_page) [
    | inl f ↦
        subst (MmFailed a false proc k) {x = some (mm_destroy mm ∷ [])} (rw (e, f) refl)
          (e_no_mem, k.pgdir, rw (copy_mm, m, duplicate_mm, e, setup_pgdir, f) refl, refl)
    | inr (page, f) ↦ elim (Bool-cases (is_zero a.dup_mmap)) [
      | inl z ↦ subst (MmFailed a false proc k) {x = none} (rw (e, f, z) refl) tt
      | inr z ↦
          subst (MmFailed a false proc k)
            {x = some (mm_destroy mm ∷ put_pgdir page ∷ exit_mmap mm ∷ [])} (rw (e, f, z) refl)
            (
              a.dup_mmap,
              (λ x. if x == mm then page else k.pgdir x),
              rw (copy_mm, m, duplicate_mm, e, setup_pgdir, f, z, equal mm) refl,
              z,
            )
    ]
  ]
]
