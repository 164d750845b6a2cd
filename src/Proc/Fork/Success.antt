-- ===== src/Proc/Fork/Success.antt =====
-- What do_fork, Lab5/kern/process/proc.c, makes where it meets no error.
use nku_os_ucore.Common.{
  ℕ, ◌+◌, ◌<◌, ◌≡◌, ◌≢◌, refl, sym, subst, ap, ◌∙◌, Bool, Bool-cases, Option-cases, List, [], ◌∷◌,
  arith, inl, inr, leb, Option, none, some, ok, ℤ, pos, length,
}
use nku_os_ucore.Common.Distinct.{NotIn, Distinct}
use nku_os_ucore.DList.Ring.{Ring}
use nku_os_ucore.Proc.{Frame, Release, kfree, put_kstack, Kernel, max_process, proc_list}
use nku_os_ucore.Proc.Family.{Children}
use nku_os_ucore.Proc.Pid.Window.{Window}
use nku_os_ucore.Proc.Pid.Fresh.{get_pid-fresh}
use nku_os_ucore.Proc.Fork.{
  Answers, e_no_mem, e_no_free_proc, copy_thread, start_child, fork_child, do_fork,
}
use nku_os_ucore.Proc.Fork.Errors.{mm_error, fork_error}
use nku_os_ucore.Proc.Fork.Failure.{
  child, stacked, kept, alloc_proc-some, setup_kstack-some, awake_child,
}
use nku_os_ucore.Proc.Fork.Ready.{Ready, MmDone, copy_mm-MmDone, Window-Ready, Ready-copy_thread}
use nku_os_ucore.Proc.Fork.Place.{
  Started, woken, wakeup_proc-woken, placed, placed-state, woken-Started,
}

-- `start_child` from a state in which the structure is ready.
start_child-Started :
    (a : Answers) (rounds fuel p stack : ℕ) (frame : Frame) (k k' : Kernel) (xs cs : List ℕ)
    → Ready p k k'
    → Ring k.list proc_list xs
    → p ≢ proc_list
    → NotIn p xs
    → p ≢ k.current
    → Distinct (p ∷ cs)
    → Children k.procs k.current cs
    → length xs < fuel
    → length xs < 8191
    → 16384 < rounds
    → Window k (k.last_pid + 1) k.next_safe xs
    → (r : ℕ) × (k2 : Kernel) × (start_child a rounds fuel p stack frame k' ≡ ok (pos r, k2))
      × Started p r k xs cs k2
unfolding start_child
start_child-Started a rounds fuel p stack frame k k' xs cs ready ring p0 out pc d c f few enough w =
    let k4 = copy_thread a p stack frame k' in
    let r4 = Ready-copy_thread a p stack frame k k' ready in
    let ring4 = subst (λ l. Ring l proc_list xs) (sym r4.list) ring in
    let w4 = Window-Ready p (k.last_pid + 1) k.next_safe k k4 xs r4 out w in
    let w5 : Window k4 (k4.last_pid + 1) k4.next_safe xs = rw (r4.last_pid, r4.next_safe) w4 in
    let (r, n, e, r1, r8, new, v) = get_pid-fresh rounds fuel k4 xs ring4 f few enough w5 in
    let s = woken-Started p r n k k4 r4 xs cs ring p0 out pc d c r1 r8 new v in
    (
      r,
      woken p (placed p r n k k4 r4),
      rw (e, wakeup_proc-woken p (placed p r n k k4 r4) (placed-state p r n k k4 r4))
          (ap (λ z. ok (z, woken p (placed p r n k k4 r4))) s.pid),
      s,
    )

Ready-child : (a : Answers) (p stack : ℕ) (k : Kernel) → Ready p k (stacked p stack (child a p k))
Ready-child a p stack k = record {
  list = refl;
  nr_process = refl;
  last_pid = refl;
  next_safe = refl;
  current = refl;
  procs = λ x n. (kept a p stack x k n).1;
  state = ground arith;
  parent = ground arith;
}

abbrev ForkDone :
    Answers
    → ℕ
    → ℕ
    → Bool
    → ℕ
    → Frame
    → Kernel
    → List ℕ
    → List ℕ
    → ℕ
    → Option (ℤ × List Release)
    → Type 0
ForkDone a rounds fuel share stack frame k xs cs p (some r) = Unit {0}
ForkDone a rounds fuel share stack frame k xs cs p none =
    (r : ℕ) × (k2 : Kernel) × (do_fork a rounds fuel share stack frame k ≡ ok (pos r, k2))
    × Started p r k xs cs k2

-- The places of a new structure at `p`, and the bounds of the search for a pid.
pub record Room (rounds fuel p : ℕ) (k : Kernel) (xs cs : List ℕ) : Type 0 where
  pub awake : (k.procs k.current).wait_state ≡ 0
  pub ring : Ring k.list proc_list xs
  pub not_head : p ≢ proc_list
  pub out : NotIn p xs
  pub not_current : p ≢ k.current
  pub distinct : Distinct (p ∷ cs)
  pub children : Children k.procs k.current cs
  pub enough_fuel : length xs < fuel
  pub few : length xs < 8191
  pub enough_rounds : 16384 < rounds
  pub window : Window k (k.last_pid + 1) k.next_safe xs

some-eq : (x y : ℕ) → some x ≡ some y → x ≡ y
some-eq x y e = cc

do_fork-ForkDone :
    (a : Answers) (rounds fuel : ℕ) (share : Bool) (stack : ℕ) (frame : Frame) (k : Kernel)
    (xs cs : List ℕ) (p : ℕ)
    → Room rounds fuel p k xs cs
    → a.kmalloc ≡ some p
    → ForkDone a rounds fuel share stack frame k xs cs p (fork_error a share k)
unfolding do_fork fork_child
do_fork-ForkDone a rounds fuel share stack frame k xs cs p room e =
    elim (Bool-cases (leb max_process k.nr_process)) [
      | inl t ↦
          subst (ForkDone a rounds fuel share stack frame k xs cs p) {x = some (e_no_free_proc, [])}
            (rw t refl) tt
      | inr t ↦ elim (Option-cases a.kstack_pages) [
        | inl f ↦
            subst (ForkDone a rounds fuel share stack frame k xs cs p)
              {x = some (e_no_mem, kfree p ∷ [])} (rw (t, e, f) refl) tt
        | inr (st, f) ↦
            let o = (k.procs k.current).mm in
            let k3 = stacked p st (child a p k) in
            let same = (kept a p st k.current k room.not_current).1 in
            let done = copy_mm-MmDone a share p k k3 o (Ready-child a p st k) (rw same refl) in
            elim (Option-cases (mm_error a share o)) [
              | inr (rs, g) ↦
                  subst (ForkDone a rounds fuel share stack frame k xs cs p)
                    {x = some (e_no_mem, kfree p ∷ put_kstack st ∷ rs)} (rw (t, e, f, g) refl) tt
              | inl g ↦
                  let (k4, q, r4) = subst (MmDone a share p k k3) g done in
                  let (r, k5, q', s) =
                    start_child-Started a rounds fuel p stack frame k k4 xs cs r4 room.ring
                      room.not_head room.out room.not_current room.distinct room.children
                      room.enough_fuel room.few room.enough_rounds room.window in
                  let w =
                    awake_child a rounds fuel share stack frame k room.awake
                      (λ p' e' z. room.not_current (some-eq p p' (sym e ∙ e') ∙ z)) p e in
                  subst (ForkDone a rounds fuel share stack frame k xs cs p) {x = none}
                    (rw (t, e, f, g) refl)
                    (
                      r,
                      k5,
                      rw
                          (
                            do_fork,
                            t,
                            alloc_proc-some a k p e,
                            fork_child,
                            w,
                            setup_kstack-some a p st (child a p k) f,
                            q,
                          )
                          q',
                      s,
                    )
            ]
      ]
    ]

-- Let the caller not wait, `kmalloc` return a structure `p` that is on no list, the processes of
-- `proc_list` be fewer than 8191 with the window of `get_pid` free of their pids, and none of the
-- errors occur. Then `do_fork` returns a pid from 1 to 8191 that none of them has; the process `p`
-- has this pid, can run, is the first of `proc_list` and the youngest child of the caller, before
-- its other children; `nr_process` is one more, the caller goes on, and the window of `get_pid` is
-- free of all pids again.
pub do_fork-Started :
    (a : Answers) (rounds fuel : ℕ) (share : Bool) (stack : ℕ) (frame : Frame) (k : Kernel)
    (xs cs : List ℕ) (p : ℕ)
    → Room rounds fuel p k xs cs
    → a.kmalloc ≡ some p
    → fork_error a share k ≡ none
    → (r : ℕ) × (k2 : Kernel) × (do_fork a rounds fuel share stack frame k ≡ ok (pos r, k2))
      × Started p r k xs cs k2
do_fork-Started a rounds fuel share stack frame k xs cs p room e g =
    subst (ForkDone a rounds fuel share stack frame k xs cs p) g
      (do_fork-ForkDone a rounds fuel share stack frame k xs cs p room e)
