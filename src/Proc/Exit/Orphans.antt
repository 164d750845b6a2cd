-- ===== src/Proc/Exit/Orphans.antt =====
-- The loop of do_exit that gives the children of a process to initproc, Lab5/kern/process/proc.c.
use nku_os_ucore.Common.{
  ℕ, zero, suc, ◌<◌, ◌≡◌, ◌≢◌, refl, sym, ◌∙◌, subst, Bool, true, false, Bool-cases, List, [], ◌∷◌,
  arith, length, All, inl, inr, ◌==◌, if◌then◌else◌, none, some, ok,
}
use nku_os_ucore.Common.Distinct.{NotIn, Distinct}
use nku_os_ucore.Proc.{proc_zombie, Proc, Kernel, set, set_cptr, adopt}
use nku_os_ucore.Proc.Family.{
  Chain, Children, Same, Chain-Same, Older, Ahead, Older-Ahead, adopt-Children, adopt_before-Ahead,
  adopt_before-state, adopt_before-cptr,
}
use nku_os_ucore.Proc.Exit.{is_zombie, wakeup_waiting, give_away, reparent}
use nku_os_ucore.Proc.Exit.Waking.{onto, Kept, all-Kept, wakeup_waiting-Kept}

apart : (x y : ℕ) → x ≢ y → (x == y) ≡ false
apart x y h = ground arith

module _ (p : ℕ) (k : Kernel) (n : k.current ≢ k.initproc) where
  abbrev detached : ℕ → Proc
  detached = set_cptr k.current (k.procs p).optr k.procs

  abbrev claimed : ℕ → Proc
  claimed = set detached p (record (detached p) { parent = some k.initproc })

  abbrev after : ℕ → Proc
  after = adopt k.initproc p claimed

  claimed-Same : (x : ℕ) → x ≢ p → Same k.procs claimed x
  claimed-Same x h = (ground arith, ground arith, ground arith)

  claimed-All : (ds : List ℕ) → NotIn p ds → All (Same k.procs claimed) ds
  claimed-All [] h = tt
  claimed-All (x ∷ ds) h = (claimed-Same x (λ e. h.0 (sym e)), claimed-All ds h.1)

  claimed-cptr : (claimed k.initproc).cptr ≡ (k.procs k.initproc).cptr
  claimed-cptr = let n' = n in ground arith

  claimed-parent : (claimed p).parent ≡ some k.initproc
  claimed-parent = ground arith

  after-Children :
      (ds : List ℕ)
      → Distinct (p ∷ ds)
      → Children k.procs k.initproc ds
      → Children after k.initproc (p ∷ ds)
  after-Children ds d h = adopt-Children k.initproc p claimed ds d claimed-parent (
      subst (λ o. Chain claimed k.initproc none o ds) (sym claimed-cptr)
        (Chain-Same k.procs claimed k.initproc none (k.procs k.initproc).cptr ds
          (claimed-All ds d.0) h))

  after-Ahead : (cs : List ℕ) → NotIn p cs → All (Ahead k.procs after) cs
  after-Ahead [] h = tt
  after-Ahead (x ∷ cs) h =
      let s = claimed-Same x (λ e. h.0 (sym e)) in
      let a =
        adopt_before-Ahead (claimed k.initproc).cptr k.initproc p x claimed (λ e. h.0 (sym e)) in
      ((a.0 ∙ s.1, a.1 ∙ s.2), after-Ahead cs h.1)

  detached-cptr : (claimed k.current).cptr ≡ (k.procs p).optr
  detached-cptr = ground arith

  after-cptr : (after k.current).cptr ≡ (k.procs p).optr
  after-cptr =
      adopt_before-cptr (claimed k.initproc).cptr k.initproc p k.current claimed
      ∙ rw (apart k.current k.initproc n) detached-cptr

  after-Older :
      (cs : List ℕ)
      → NotIn p cs
      → Older k.procs k.current (k.procs p).optr cs
      → Older after k.current (after k.current).cptr cs
  after-Older cs h o =
      subst (λ z. Older after k.current z cs) (sym after-cptr)
        (Older-Ahead k.procs after k.current (k.procs p).optr cs (after-Ahead cs h) o)

Distinct-onto : (cs es : List ℕ) → Distinct (onto cs es) → Distinct es
Distinct-onto [] es d = d
Distinct-onto (c ∷ cs) es d = (Distinct-onto cs (c ∷ es) d).1

NotIn-onto : (cs es : List ℕ) → Distinct (onto cs es) → All (λ x. NotIn x cs) es
NotIn-onto [] es d = none_in es
  where
    none_in : (es : List ℕ) → All (λ x. NotIn x []) es
    none_in [] = tt
    none_in (e ∷ es) = (tt, none_in es)
NotIn-onto (c ∷ cs) es d = both es (NotIn-onto cs (c ∷ es) d).1 (Distinct-onto cs (c ∷ es) d).0
  where
    both : (es : List ℕ) → All (λ x. NotIn x cs) es → NotIn c es → All (λ x. NotIn x (c ∷ cs)) es
    both [] a n = tt
    both (e ∷ es) a n = (((λ q. n.0 (sym q)), a.0), both es a.1 n.1)

after-state : (p : ℕ) (k : Kernel) (x : ℕ) → ((give_away p k).procs x).state ≡ (k.procs x).state
unfolding give_away
after-state p k x =
    let m = set_cptr k.current (k.procs p).optr k.procs in
    let m' = set m p (record (m p) { parent = some k.initproc }) in
    (adopt_before-state (m' k.initproc).cptr k.initproc p x m').0 ∙ unclaimed p x k
  where
    unclaimed :
        (p x : ℕ) (k : Kernel)
        → let m = set_cptr k.current (k.procs p).optr k.procs in
          (set m p (record (m p) { parent = some k.initproc }) x).state ≡ (k.procs x).state
    unclaimed p x k = ground arith

same_zombie : (p p' : Proc) → p'.state ≡ p.state → is_zombie p ≡ false → is_zombie p' ≡ false
same_zombie p p' e z =
    subst (λ s. (elim s as (λ _. Bool) [ proc_zombie ↦ true | other ↦ false ]) ≡ false) (sym e) z

Same-Ahead :
    (m m' : ℕ → Proc) (cs : List ℕ)
    → ((x : ℕ) → Same m m' x × ((m' x).cptr ≡ (m x).cptr))
    → All (Ahead m m') cs × All (Same m m') cs
Same-Ahead m m' [] s = (tt, tt)
Same-Ahead m m' (c ∷ cs) s =
    let r = Same-Ahead m m' cs s in ((((s c).0.1, (s c).0.2), r.0), ((s c).0, r.1))

-- A process that is given away, and the waking of `initproc` if it is dead.
give_away-Kept :
    (p : ℕ) (k : Kernel)
    → is_zombie (k.procs k.initproc) ≡ false
    → let k1 = give_away p k in
      Kept k1.initproc k1 (if is_zombie (k1.procs p) then wakeup_waiting k1.initproc k1 else ok k1)
unfolding give_away
give_away-Kept p k z = elim (Bool-cases (is_zombie ((give_away p k).procs p))) [
  | inl t ↦
      subst (Kept k.initproc (give_away p k)) {x = wakeup_waiting k.initproc (give_away p k)}
        (rw t refl) (wakeup_waiting-Kept k.initproc (give_away p k) z1)
  | inr t ↦
      subst (Kept k.initproc (give_away p k)) {x = ok (give_away p k)} (rw t refl)
        (all-Kept k.initproc (give_away p k) z1)
]
  where
    z1 : is_zombie ((give_away p k).procs k.initproc) ≡ false
    z1 =
        same_zombie (k.procs k.initproc) ((give_away p k).procs k.initproc)
          (after-state p k k.initproc) z

-- What the loop leaves: `current` without children, and `initproc` with them.
abbrev pub Adopted : Kernel → List ℕ → Kernel → Type 0
Adopted k ds k' =
    (k' ≡ record k { procs = k'.procs })
    × ((k'.procs k.current).cptr ≡ none)
    × Children k'.procs k.initproc ds

reparent-step :
    (fuel c : ℕ) (k k2 : Kernel)
    → (k.procs k.current).cptr ≡ some c
    → (let k1 = give_away c k in
        (if is_zombie (k1.procs c) then wakeup_waiting k1.initproc k1 else ok k1) ≡ ok k2)
    → reparent (suc fuel) k ≡ reparent fuel k2
unfolding reparent
reparent-step fuel c k k2 o e = rw (reparent, o, e) refl

-- Let the `optr` fields lead from `current->cptr` through its children `cs`, and let `ds` be the
-- children of `initproc`, another process that is not a zombie, all of them distinct. Then the
-- loop of `do_exit`, with fuel above the length of `cs`, ends without a failed assertion;
-- `current` has no child left, `initproc` has those of `cs`, the last one first, before `ds`, well
-- linked in both directions, and only the processes have changed.
pub reparent-Adopted :
    (fuel : ℕ) (k : Kernel) (cs ds : List ℕ)
    → length cs < fuel
    → k.current ≢ k.initproc
    → is_zombie (k.procs k.initproc) ≡ false
    → Distinct (onto cs ds)
    → Older k.procs k.current (k.procs k.current).cptr cs
    → Children k.procs k.initproc ds
    → (k' : Kernel) × (reparent fuel k ≡ ok k') × Adopted k (onto cs ds) k'
unfolding reparent give_away
reparent-Adopted zero k cs ds f n z d o h = absurd (omega arith)
reparent-Adopted (suc fuel) k [] ds f n z d o h = (k, rw (reparent, o) refl, (refl, o, h))
reparent-Adopted (suc fuel) k (c ∷ cs) ds f n z d o h =
    let nc = (NotIn-onto cs (c ∷ ds) d).0 in
    let dc = Distinct-onto cs (c ∷ ds) d in
    let (k2, e2, shape, z2, same) = give_away-Kept c k z in
    let k3 : Kernel = record k { procs = k2.procs } in
    let ch = after-Children c k n ds dc h in
    let ol = after-Older c k n cs nc o.2 in
    let (k', e, a) =
      reparent-Adopted fuel k3 cs (c ∷ ds) (omega arith) n z2 d
        (subst (λ o. Older k2.procs k.current o cs) (sym (same k.current).1)
          (Older-Ahead (give_away c k).procs k2.procs k.current _ cs
            (Same-Ahead (give_away c k).procs k2.procs cs same).0 ol))
        (subst (λ o. Chain k2.procs k.initproc none o (c ∷ ds)) (sym (same k.initproc).1)
          (Chain-Same (give_away c k).procs k2.procs k.initproc none _ (c ∷ ds)
            (Same-Ahead (give_away c k).procs k2.procs (c ∷ ds) same).1 ch)) in
    (k', reparent-step fuel c k k2 o.0 e2 ∙ subst (λ q. reparent fuel q ≡ ok k') (sym shape) e, a)
