-- ===== src/Stride/Pick.antt =====
-- stride_pick_next and stride_dequeue of lab8/kern/schedule/default_sched_stride.c.
use nku_os_ucore.Common.{
  ℕ, ◌+◌, ◌-◌, ◌≤◌, ◌<◌, ◌≡◌, ◌≢◌, refl, sym, ap, ◌∙◌, subst, true, false, ltb, ◌==◌, if◌then◌else◌,
  arith, ok, u32, none, some, inl, ==_refl,
}
use nku_os_ucore.Skew.Tree.{
  Tree, leaf, node, root, size, count, size-merge, count-merge, Single-merge, Each, Each-merge, Out,
  Out-merge, merge, remove,
}
use nku_os_ucore.Skew.Shape.{Lies, Under}
use nku_os_ucore.Skew.Order.{Ordered, Least, Ordered-merge}
use nku_os_ucore.Skew.Merge.{less}
use nku_os_ucore.Skew.Remove.{skew_heap_remove-Removed}
use nku_os_ucore.Stride.{
  Job, RunQueue, put_job, pass_of, proc_stride_comp_f, stride_pick_next, stride_dequeue,
}
use nku_os_ucore.Stride.Window.{pass_of-le}
use nku_os_ucore.Stride.Pool.{InWindow, Pool, comp-Reads, put_job_other, put_job_self, Each-put_job}

-- The strides when the process `p` has had a turn.
abbrev pub advance : (ℕ → ℕ) → ℕ → ℕ → ℕ → ℕ
advance v p d x = if x == p then v p + d else v x

advance_other : (v : ℕ → ℕ) (p d x : ℕ) → p ≢ x → advance v p d x ≡ v x
advance_other v p d x h = ground arith

advance_self : (v : ℕ → ℕ) (p d : ℕ) → advance v p d p ≡ v p + d
advance_self v p d = ground arith

-- The turn of `p`: it has the least stride, leaves the queue and gets a new stride, with which it
-- may come back.
pub record Turn (q q' : RunQueue) (t t' : Tree) (v : ℕ → ℕ) (p : ℕ) : Type 0 where
  pub least : Each (λ x. v p ≤ v x) t
  pub pool : Pool q' t' (advance v p (pass_of (q.job p).priority)) (v p)
  pub counts : (z : ℕ) → count z t' + (if z == p then 1 else 0) ≡ count z t
  pub again : InWindow q'.job (advance v p (pass_of (q.job p).priority)) (v p) p
  pub others : (x : ℕ) → x ≢ p → q'.job x ≡ q.job x
  pub gone : Out p t'
  pub valid : p ≢ 0

pub stride_pick_next-none :
    (q : RunQueue) (v : ℕ → ℕ) (lo : ℕ) → Pool q leaf v lo → stride_pick_next q ≡ (none, q)
unfolding stride_pick_next
stride_pick_next-none q v lo h = rw h.heap.lies refl

-- Keys that agree on the tree order it alike.
Least-agree : (v w : ℕ → ℕ) (k : ℕ) (t : Tree) → Each (λ x. w x ≡ v x) t → Least v k t → Least w k t
Least-agree v w k leaf e h = tt
Least-agree v w k (node l x r) e h =
    (omega (arith, e.0, h.0), Least-agree v w k l e.1 h.1, Least-agree v w k r e.2 h.2)

Ordered-agree : (v w : ℕ → ℕ) (t : Tree) → Each (λ x. w x ≡ v x) t → Ordered v t → Ordered w t
Ordered-agree v w leaf e h = tt
Ordered-agree v w (node l x r) e h = (
  Least-agree v w (w x) l e.1 (subst (λ k. Least v k l) (sym e.0) h.0),
  Least-agree v w (w x) r e.2 (subst (λ k. Least v k r) (sym e.0) h.1),
  Ordered-agree v w l e.1 h.2,
  Ordered-agree v w r e.2 h.3,
)

advance-agree : (v : ℕ → ℕ) (p d : ℕ) (t : Tree) → Out p t → Each (λ x. advance v p d x ≡ v x) t
advance-agree v p d leaf o = tt
advance-agree v p d (node l x r) o =
    (advance_other v p d x o.0, advance-agree v p d l o.1, advance-agree v p d r o.2)

moved-InWindow :
    (q : RunQueue) (j : Job) (v : ℕ → ℕ) (lo p d x : ℕ)
    → p ≢ x
    → InWindow q.job v lo x
    → v p ≤ v x
    → lo ≤ v p
    → InWindow (put_job q.job p j) (advance v p d) (v p) x
moved-InWindow q j v lo p d x n w le lp = record {
  stride = rw (put_job_other q.job p x j n, advance_other v p d x n) w.stride;
  above = rw (advance_other v p d x n) le;
  below = rw (advance_other v p d x n) (omega (arith, w.below));
}

all_moved :
    (q : RunQueue) (j : Job) (v : ℕ → ℕ) (lo p d : ℕ) (t : Tree)
    → Out p t
    → lo ≤ v p
    → Each (InWindow q.job v lo) t
    → Least v (v p) t
    → Each (InWindow (put_job q.job p j) (advance v p d) (v p)) t
all_moved q j v lo p d leaf o lp w h = tt
all_moved q j v lo p d (node l x r) o lp w h = (
  moved-InWindow q j v lo p d x o.0 w.0 h.0 lp,
  all_moved q j v lo p d l o.1 lp w.1 h.1,
  all_moved q j v lo p d r o.2 lp w.2 h.2,
)

abbrev turned : RunQueue → ℕ → Job
turned q p = record (q.job p) { stride = u32 ((q.job p).stride + pass_of (q.job p).priority) }

turned-InWindow :
    (q : RunQueue) (v : ℕ → ℕ) (lo p : ℕ)
    → InWindow q.job v lo p
    → InWindow (put_job q.job p (turned q p)) (advance v p (pass_of (q.job p).priority)) (v p) p
turned-InWindow q v lo p w = record {
  stride =
      rw
        (put_job_self q.job p (turned q p), advance_self v p (pass_of (q.job p).priority), w.stride)
        (omega arith);
  above = rw (advance_self v p (pass_of (q.job p).priority)) (omega arith);
  below =
      rw (advance_self v p (pass_of (q.job p).priority))
        (omega (arith, pass_of-le (q.job p).priority));
}

turned_queued : (q : RunQueue) (p : ℕ) → (put_job q.job p (turned q p) p).queued ≡ (q.job p).queued
turned_queued q p = ap (λ j. j.queued) (put_job_self q.job p (turned q p))

not_null : (p : ℕ) → p ≢ 0 → (p == 0) ≡ false
not_null p h = ground arith

-- Let the run queue hold a tree of processes in order of their strides, these within a window of
-- BIG_STRIDE, overflows not counted. Then `stride_pick_next` returns its root, which has the least
-- of these strides, and `stride_dequeue` of it succeeds. The queue then holds the other processes,
-- still in order; with the new stride of the process in place, all strides lie in the window of
-- BIG_STRIDE that begins at the stride it had, so that it can be put back.
pub stride_pick_next-Turn :
    (fuel p : ℕ) (q : RunQueue) (l r : Tree) (v : ℕ → ℕ) (lo : ℕ)
    → Pool q (node l p r) v lo
    → size (node l p r) ≤ fuel
    → (q1 : RunQueue) × (q' : RunQueue) × (t' : Tree) × (stride_pick_next q ≡ (some p, q1))
      × (stride_dequeue fuel p q1 ≡ ok q')
      × Turn q q' (node l p r) t' v p
unfolding stride_pick_next stride_dequeue remove
stride_pick_next-Turn fuel p q l r v lo h lt =
    let t = node l p r in
    let d = pass_of (q.job p).priority in
    let v' = advance v p d in
    let q1 : RunQueue = record q { job = put_job q.job p (turned q p) } in
    let s = h.heap.single in
    let o = h.heap.ordered in
    let w = h.heap.each in
    let comp = proc_stride_comp_f q1.job in
    let t' = merge (less comp) l r in
    let (m', g, k) =
      skew_heap_remove-Removed comp fuel q.pool p q.entries t lt h.heap.lies s h.heap.under
        (inl refl) in
    let taken : remove (less comp) p t ≡ t' = rw (==_refl p) refl in
    let wl = all_moved q (turned q p) v lo p d l s.0 w.0.above w.1 o.0 in
    let wr = all_moved q (turned q p) v lo p d r s.1 w.0.above w.2 o.1 in
    let ol = Ordered-agree v v' l (advance-agree v p d l s.0) o.2 in
    let orr = Ordered-agree v v' r (advance-agree v p d r s.1) o.3 in
    let asked : (q1.job p).queued ≡ true = turned_queued q p ∙ h.queued.0 in
    let some_there : ltb 0 q.proc_num ≡ true = positive q.proc_num (omega (arith, h.number)) in
    let q' : RunQueue = record q1 { pool = root t'; entries = m'; proc_num = q.proc_num - 1 } in
    (
      q1,
      q',
      t',
      rw (h.heap.lies.0, not_null p h.heap.lies.1) refl,
      rw (asked, some_there, g, taken) refl,
      record {
        least = (omega arith, o.0, o.1);
        pool = record {
          heap = record {
            lies = subst (λ u. Lies m' (root u) u) taken k.lies;
            under = subst (λ u. Under m' 0 u) taken k.under;
            single = Single-merge (less comp) l r s.3 s.4 s.2;
            ordered =
                Ordered-merge (less comp) v' (InWindow q1.job v' (v p)) (comp-Reads q1.job v' (v p))
                  l r wl wr ol orr;
            each = Each-merge (less comp) (InWindow q1.job v' (v p)) l r wl wr;
          };
          queued =
              Each-merge (less comp) (λ x. (q1.job x).queued ≡ true) l r
                (Each-put_job (λ j x. j.queued ≡ true) q.job p (turned q p) l s.0 h.queued.1)
                (Each-put_job (λ j x. j.queued ≡ true) q.job p (turned q p) r s.1 h.queued.2);
          number = omega (arith, h.number, size-merge (less comp) l r);
          room = omega (arith, h.room, size-merge (less comp) l r);
        };
        counts = λ z. omega (arith, count-merge (less comp) z l r);
        again = turned-InWindow q v lo p w.0;
        others = λ x n. put_job_other q.job p x (turned q p) (λ e. n (sym e));
        gone = Out-merge (less comp) p l r s.0 s.1;
        valid = h.heap.lies.1;
      },
    )
  where
    positive : (n : ℕ) → 0 < n → ltb 0 n ≡ true
    positive n h = ground arith
