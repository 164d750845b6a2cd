-- ===== src/Proc/Wait/Reaped.antt =====
-- What do_wait of Lab5/kern/process/proc.c does with a dead child.
use nku_os_ucore.Common.{
  ℕ, zero, suc, ◌-◌, ◌<◌, ◌≡◌, ◌≢◌, refl, sym, ap, subst, Bool, List, [], ◌∷◌, ◌++◌, arith, length,
  All, ◌==◌, Option, none, some, true, false, ok, pos,
}
use nku_os_ucore.Common.Distinct.{Distinct}
use nku_os_ucore.DList.Ring.{Ring, list_del-Ring}
use nku_os_ucore.Proc.{
  kfree, put_kstack, Kernel, release, proc_list, parent_of, disown, unhash_proc, remove_links,
}
use nku_os_ucore.Proc.Family.{Chain, Children}
use nku_os_ucore.Proc.Leave.{disown-Children, Chain-parent, disown-kstack}
use nku_os_ucore.Proc.Exit.{is_zombie}
use nku_os_ucore.Proc.Wait.{
  dead, scan_children, seek_child, reap, returned, wait_loop, do_wait, e_bad_proc,
}

-- The scan stops at the first dead child.
scan_children-dead :
    (fuel q p : ℕ) (y o : Option ℕ) (b : Bool) (k : Kernel) (xs ys : List ℕ)
    → length xs < fuel
    → All (λ x. is_zombie (k.procs x) ≡ false) xs
    → is_zombie (k.procs p) ≡ true
    → Chain k.procs q y o (xs ++ p ∷ ys)
    → scan_children fuel o b k ≡ ok (dead p)
unfolding scan_children
scan_children-dead zero q p y o b k xs ys f a z c = absurd (omega arith)
scan_children-dead (suc fuel) q p y o b k [] ys f a z c = rw (c.0, z) refl
scan_children-dead (suc fuel) q p y o b k (x ∷ xs) ys f a z c =
    rw (c.0, a.0)
      (scan_children-dead fuel q p (some x) (k.procs x).optr true k xs ys (omega arith) a.1 z c.3)

-- A dead child that is in its place on both lists and among its siblings.
pub record Dead (p : ℕ) (k : Kernel) (xs ys us vs hs gs : List ℕ) (bucket : ℕ) : Type 0 where
  pub children : Children k.procs k.current (xs ++ p ∷ ys)
  pub distinct : Distinct (xs ++ p ∷ ys)
  pub living : All (λ x. is_zombie (k.procs x) ≡ false) xs
  pub zombie : is_zombie (k.procs p) ≡ true
  pub not_idle : p ≢ k.idleproc
  pub not_init : p ≢ k.initproc
  pub ring : Ring k.list proc_list (us ++ p ∷ vs)
  pub hashed : Ring k.hash bucket (hs ++ p ∷ gs)

-- The process has left its siblings and both lists, and its memory is given back.
pub record Gone (p : ℕ) (k : Kernel) (xs ys us vs hs gs : List ℕ) (bucket : ℕ) (k' : Kernel)
    : Type 0 where
  pub children : Children k'.procs k.current (xs ++ ys)
  pub ring : Ring k'.list proc_list (us ++ vs)
  pub hashed : Ring k'.hash bucket (hs ++ gs)
  pub count : k'.nr_process ≡ k.nr_process - 1
  pub released : k'.released ≡ kfree p ∷ put_kstack (k.procs p).kstack ∷ k.released

differ : (x y : ℕ) → x ≢ y → (x == y) ≡ false
differ x y h = ground arith

abbrev reaped : ℕ → Kernel → Kernel
reaped p k =
    let k1 = remove_links p (unhash_proc p k) in
    release (kfree p) (release (put_kstack (k1.procs p).kstack) k1)

reap-Gone :
    (p : ℕ) (k : Kernel) (xs ys us vs hs gs : List ℕ) (bucket : ℕ)
    → Dead p k xs ys us vs hs gs bucket
    → (k' : Kernel) × (reap p k ≡ ok ((k.procs p).exit_code, k'))
      × Gone p k xs ys us vs hs gs bucket k'
unfolding reap remove_links unhash_proc
reap-Gone p k xs ys us vs hs gs bucket d =
    let parent = Chain-parent k.procs k.current p none (k.procs k.current).cptr xs ys d.children in
    (
      reaped p k,
      rw (differ p k.idleproc d.not_idle, differ p k.initproc d.not_init) refl,
      record {
        children =
            subst
              (λ (o : Option ℕ).
                Children (disown (elim o as (λ _. ℕ) [ none ↦ 0 | some q ↦ q ]) p k.procs) k.current
                  (xs ++ ys))
              (sym parent) (disown-Children k.current p k.procs xs ys d.distinct d.children);
        ring = list_del-Ring k.list proc_list p us vs d.ring;
        hashed = list_del-Ring k.hash bucket p hs gs d.hashed;
        count = refl;
        released =
            ap (λ s. kfree p ∷ put_kstack s ∷ k.released)
              (disown-kstack (parent_of (k.procs p)) p p k.procs);
      },
    )

-- If the first dead child `p` of the caller is neither the idle process nor `initproc`,
-- `do_wait(0, code)` with a writable address returns 0 and stores its exit code. `p` is taken out
-- of the chain of its siblings, of `proc_list` and of its hash list, which keep their other
-- entries and their order; `nr_process` is one less, and the stack and the structure of `p` are
-- given back.
pub do_wait-Gone :
    (rounds fuel p : ℕ) (others : Kernel → Kernel) (k : Kernel) (xs ys us vs hs gs : List ℕ)
    (bucket : ℕ)
    → Dead p k xs ys us vs hs gs bucket
    → length xs < fuel
    → 0 < rounds
    → (k' : Kernel) × (do_wait rounds fuel (pos 0) (some true) others k
        ≡ ok (returned (pos 0) (some (k.procs p).exit_code) k'))
      × Gone p k xs ys us vs hs gs bucket k'
unfolding do_wait wait_loop seek_child
do_wait-Gone zero fuel p others k xs ys us vs hs gs bucket d f r = absurd (omega arith)
do_wait-Gone (suc rounds) fuel p others k xs ys us vs hs gs bucket d f r =
    let (k', e, g) = reap-Gone p k xs ys us vs hs gs bucket d in
    let s =
      scan_children-dead fuel k.current p none (k.procs k.current).cptr false k xs ys f d.living
        d.zombie d.children in
    (k', rw (s, e) refl, g)

-- If the caller has no children, `do_wait(0, NULL)` returns the error -E_BAD_PROC and changes
-- nothing.
pub do_wait-childless :
    (rounds fuel : ℕ) (others : Kernel → Kernel) (k : Kernel)
    → Children k.procs k.current []
    → 0 < fuel
    → 0 < rounds
    → do_wait rounds fuel (pos 0) none others k ≡ ok (returned e_bad_proc none k)
unfolding do_wait wait_loop seek_child scan_children
do_wait-childless zero fuel others k c f r = absurd (omega arith)
do_wait-childless (suc rounds) zero others k c f r = absurd (omega arith)
do_wait-childless (suc rounds) (suc fuel) others k c f r = rw c refl
