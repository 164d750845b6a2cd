-- ===== src/Proc/Fork/Place.antt =====
-- The new structure in its place: its pid, its links, and its waking; do_fork, Lab5/kern/process/proc.c.
use nku_os_ucore.Common.{
  ℕ, ◌+◌, ◌≤◌, ◌<◌, ◌≡◌, ◌≢◌, ◌⊎◌, refl, sym, subst, ap, ◌∙◌, List, [], ◌∷◌, arith, inl, Option,
  none, some, ok, pos, All,
}
use nku_os_ucore.Common.Distinct.{NotIn, Distinct}
use nku_os_ucore.DList.Ring.{Ring, list_add-Ring}
use nku_os_ucore.Proc.{
  proc_uninit, proc_runnable, Proc, Kernel, proc_list, set, adopt_before, set_links, hash_proc,
  wakeup_proc,
}
use nku_os_ucore.Proc.Family.{Children, Chain, Same, Chain-Same, adopt-Children, adopt_before-state}
use nku_os_ucore.Proc.Pid.{number}
use nku_os_ucore.Proc.Pid.Window.{num, Window}
use nku_os_ucore.Proc.Fork.Ready.{Ready, set-same, set-other, All-Ready}

-- The child in its place: the pid `r` is new, and the links are those of `p` before all others.
pub record Started (p r : ℕ) (k : Kernel) (xs cs : List ℕ) (k' : Kernel) : Type 0 where
  pub positive : 1 ≤ r
  pub below : r < 8192
  pub new : All (λ x. num k x ≢ r) xs
  pub pid : (k'.procs p).pid ≡ pos r
  pub state : (k'.procs p).state ≡ proc_runnable
  pub ring : Ring k'.list proc_list (p ∷ xs)
  pub children : Children k'.procs k.current (p ∷ cs)
  pub count : k'.nr_process ≡ k.nr_process + 1
  pub current : k'.current ≡ k.current
  pub window : Window k' (k'.last_pid + 1) k'.next_safe (p ∷ xs)

-- The kernel with the pid, linked, and woken.
abbrev numbered : ℕ → ℕ → ℕ → Kernel → Kernel
numbered p r n k = record k {
  procs = set k.procs p (record (k.procs p) { pid = pos r });
  last_pid = r;
  next_safe = n;
}

abbrev pub woken : ℕ → Kernel → Kernel
woken p k = record k {
  procs = set k.procs p (record (k.procs p) { state = proc_runnable; wait_state = 0 });
}

pub wakeup_proc-woken :
    (p : ℕ) (k : Kernel) → (k.procs p).state ≡ proc_uninit → wakeup_proc p k ≡ ok (woken p k)
unfolding wakeup_proc
wakeup_proc-woken p k e = rw (wakeup_proc, e) refl

module _ (p r n : ℕ) (k k' : Kernel) (ready : Ready p k k') where
  abbrev m : ℕ → Proc
  m = (numbered p r n k').procs

  abbrev linked : ℕ → Proc
  linked = adopt_before (m k.current).cptr k.current p m

  m-other : (x : ℕ) → p ≢ x → m x ≡ k.procs x
  m-other x h = set-other k'.procs p x _ h ∙ ready.procs x h

  m-own : ((m p).parent ≡ some k.current) × ((m p).state ≡ proc_uninit) × ((m p).pid ≡ pos r)
  m-own = (
    ap (λ z. z.parent) (set-same k'.procs p (record (k'.procs p) { pid = pos r })) ∙ ready.parent,
    ap (λ z. z.state) (set-same k'.procs p (record (k'.procs p) { pid = pos r })) ∙ ready.state,
    ap (λ z. z.pid) (set-same k'.procs p (record (k'.procs p) { pid = pos r })),
  )

  linked-own : ((linked p).state ≡ proc_uninit) × ((linked p).pid ≡ pos r)
  linked-own =
      let s = adopt_before-state (m k.current).cptr k.current p p m in
      (s.0 ∙ m-own.1, s.2 ∙ m-own.2)

  m-Same : (cs : List ℕ) → NotIn p cs → All (Same k.procs m) cs
  m-Same [] h = tt
  m-Same (c ∷ cs) h =
      let e = m-other c h.0 in
      ((ap (λ z. z.yptr) e, ap (λ z. z.parent) e, ap (λ z. z.optr) e), m-Same cs h.1)

  linked-Children :
      (cs : List ℕ)
      → p ≢ k.current
      → Distinct (p ∷ cs)
      → Children k.procs k.current cs
      → Children linked k.current (p ∷ cs)
  linked-Children cs h d c = adopt-Children k.current p m cs d m-own.0 (
      subst (λ o. Chain m k.current none o cs) (ap (λ z. z.cptr) (sym (m-other k.current h)))
        (Chain-Same k.procs m k.current none (k.procs k.current).cptr cs (m-Same cs d.0) c))

  -- The structure is woken.
  abbrev final : ℕ → Proc
  final = set linked p (record (linked p) { state = proc_runnable; wait_state = 0 })

  final-Same : (cs : List ℕ) → All (Same linked final) cs
  final-Same [] = tt
  final-Same (c ∷ cs) = ((ground arith, ground arith, ground arith), final-Same cs)

  final-cptr : (final k.current).cptr ≡ (linked k.current).cptr
  final-cptr = ground arith

  final-pid : (x : ℕ) → (final x).pid ≡ (m x).pid
  final-pid x = woken_pid linked x ∙ (adopt_before-state (m k.current).cptr k.current p x m).2
    where
      woken_pid :
          (l : ℕ → Proc) (x : ℕ)
          → (set l p (record (l p) { state = proc_runnable; wait_state = 0 }) x).pid ≡ (l x).pid
      woken_pid l x = ground arith

  final-Children :
      (cs : List ℕ)
      → p ≢ k.current
      → Distinct (p ∷ cs)
      → Children k.procs k.current cs
      → Children final k.current (p ∷ cs)
  final-Children cs h d c =
      subst (λ o. Chain final k.current none o (p ∷ cs)) (sym final-cptr)
        (Chain-Same linked final k.current none _ (p ∷ cs) (final-Same (p ∷ cs))
          (linked-Children cs h d c))

  -- The kernel after `set_links`.
  abbrev pub placed : Kernel
  placed = set_links p (hash_proc p (numbered p r n k'))

  placed-procs : placed.procs ≡ linked
  unfolding set_links hash_proc
  placed-procs =
      ap
        (λ (o : Option ℕ).
          let q : ℕ = elim o [ none ↦ 0 | some q ↦ q ] in adopt_before (m q).cptr q p m)
        m-own.0

  pub placed-state : (placed.procs p).state ≡ proc_uninit
  placed-state = ap (λ (f : ℕ → Proc). (f p).state) placed-procs ∙ linked-own.0

  woken-procs : (woken p placed).procs ≡ final
  woken-procs =
      ap (λ (f : ℕ → Proc). set f p (record (f p) { state = proc_runnable; wait_state = 0 }))
        placed-procs

  woken-pid : (x : ℕ) → ((woken p placed).procs x).pid ≡ (m x).pid
  woken-pid x = ap (λ (f : ℕ → Proc). (f x).pid) woken-procs ∙ final-pid x

  woken-Window :
      (last next : ℕ) (xs : List ℕ)
      → Window (numbered p r n k') last next xs
      → Window (woken p placed) last next xs
  woken-Window last next [] w = tt
  woken-Window last next (x ∷ xs) w = (
    subst (λ z. (number z < last) ⊎ (next ≤ number z)) (sym (woken-pid x)) w.0,
    woken-Window last next xs w.1,
  )

  numbered-Window :
      (last next : ℕ) (xs : List ℕ)
      → NotIn p xs
      → Window k' last next xs
      → Window (numbered p r n k') last next xs
  numbered-Window last next [] h w = tt
  numbered-Window last next (x ∷ xs) h w = (
    subst (λ z. (number z < last) ⊎ (next ≤ number z))
        (ap (λ z. z.pid) (sym (set-other k'.procs p x _ h.0))) w.0,
    numbered-Window last next xs h.1 w.1,
  )

  own_pid : number (m p).pid ≡ r
  own_pid = ap number m-own.2

  pub woken-Started :
      (xs cs : List ℕ)
      → Ring k.list proc_list xs
      → p ≢ proc_list
      → NotIn p xs
      → p ≢ k.current
      → Distinct (p ∷ cs)
      → Children k.procs k.current cs
      → 1 ≤ r
      → r < 8192
      → All (λ x. num k' x ≢ r) xs
      → Window k' (r + 1) n xs
      → Started p r k xs cs (woken p placed)
  unfolding set_links hash_proc
  woken-Started xs cs ring p0 out pc d c r1 r8 new w = record {
    positive = r1;
    below = r8;
    new = All-Ready p r k k' xs ready out new;
    pid = woken-pid p ∙ m-own.2;
    state =
        ap (λ z. z.state)
          (set-same placed.procs p
            (record (placed.procs p) { state = proc_runnable; wait_state = 0 }));
    ring =
        list_add-Ring k'.list proc_list p xs
          (subst (λ l. Ring l proc_list xs) (sym ready.list) ring) p0 out;
    children =
        subst (λ q. Children q k.current (p ∷ cs)) (sym woken-procs) (final-Children cs pc d c);
    count = ap (λ z. z + 1) ready.nr_process;
    current = ready.current;
    window =
        woken-Window (r + 1) n (p ∷ xs)
          (inl (omega (arith, own_pid)), numbered-Window (r + 1) n xs out w);
  }
