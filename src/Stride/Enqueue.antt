-- ===== src/Stride/Enqueue.antt =====
-- stride_enqueue of lab8/kern/schedule/default_sched_stride.c.
use nku_os_ucore.Common.{
  ℕ, ◌+◌, ◌^◌, ◌<◌, ◌≡◌, ◌≢◌, refl, sym, ap, ◌∙◌, true, ◌==◌, if◌then◌else◌, arith, ok, u32,
}
use nku_os_ucore.Skew.Tree.{Tree, root, size, count, size-merge, Each-map, Each-merge, Out, merge}
use nku_os_ucore.Skew.Merge.{less}
use nku_os_ucore.Skew.Heap.{single_tree, skew_heap_insert-Inserted}
use nku_os_ucore.Stride.{Job, RunQueue, put_job, new_slice, proc_stride_comp_f, stride_enqueue}
use nku_os_ucore.Stride.Pool.{InWindow, Pool, comp-Reads, put_job_other, put_job_self}

-- The queue `q'` with the tree `t'` has the process `p` besides those of `q`.
pub record Enqueued (q q' : RunQueue) (t t' : Tree) (v : ℕ → ℕ) (lo p : ℕ) : Type 0 where
  pub pool : Pool q' t' v lo
  pub counts : (z : ℕ) → count z t' ≡ count z t + (if z == p then 1 else 0)
  pub number : q'.proc_num ≡ q.proc_num + 1
  pub stride : (x : ℕ) → (q'.job x).stride ≡ (q.job x).stride
  pub slice : (q'.job p).time_slice ≡ new_slice q.max_time_slice (q.job p).time_slice
  pub others : (x : ℕ) → x ≢ p → q'.job x ≡ q.job x

abbrev entered : RunQueue → ℕ → Job
entered q p = record (q.job p) {
  time_slice = new_slice q.max_time_slice (q.job p).time_slice;
  queued = true;
}

entered_stride :
    (q : RunQueue) (p x : ℕ) → (put_job q.job p (entered q p) x).stride ≡ (q.job x).stride
entered_stride q p x = ground arith

entered-InWindow :
    (q : RunQueue) (v : ℕ → ℕ) (lo p x : ℕ)
    → InWindow q.job v lo x
    → InWindow (put_job q.job p (entered q p)) v lo x
entered-InWindow q v lo p x w = record {
  stride = entered_stride q p x ∙ w.stride;
  above = w.above;
  below = w.below;
}

entered_queued :
    (q : RunQueue) (p x : ℕ)
    → (q.job x).queued ≡ true
    → (put_job q.job p (entered q p) x).queued ≡ true
entered_queued q p x h = ground arith

pub stride_enqueue-Enqueued :
    (fuel p : ℕ) (q : RunQueue) (t : Tree) (v : ℕ → ℕ) (lo : ℕ)
    → Pool q t v lo
    → size t + 1 < fuel
    → size t + 1 < 2 ^ 32
    → p ≢ 0
    → Out p t
    → InWindow q.job v lo p
    → (q' : RunQueue) × (t' : Tree) × (stride_enqueue fuel p q ≡ ok q') × Enqueued q q' t t' v lo p
unfolding stride_enqueue
stride_enqueue-Enqueued fuel p q t v lo h lt room nz o w =
    let cmp = less (proc_stride_comp_f q.job) in
    let (m', d, g) =
      skew_heap_insert-Inserted (proc_stride_comp_f q.job) v (InWindow q.job v lo) fuel q.pool p
        q.entries t (comp-Reads q.job v lo) h.heap lt nz o w in
    let t' = merge cmp t (single_tree p) in
    let grown = size-merge cmp t (single_tree p) in
    (
      record q {
        pool = root t';
        entries = m';
        job = put_job q.job p (entered q p);
        proc_num = u32 (q.proc_num + 1);
      },
      t',
      rw d refl,
      record {
        pool = record {
          heap = record {
            lies = g.heap.lies;
            under = g.heap.under;
            single = g.heap.single;
            ordered = g.heap.ordered;
            each = Each-map t' (λ x k. entered-InWindow q v lo p x k) g.heap.each;
          };
          queued =
              Each-merge cmp (λ x. (put_job q.job p (entered q p) x).queued ≡ true) t
                (single_tree p) (Each-map t (λ x k. entered_queued q p x k) h.queued)
                (ap (λ j. j.queued) (put_job_self q.job p (entered q p)), tt, tt);
          number = omega (arith, grown, h.number);
          room = omega (arith, grown);
        };
        counts = g.counts;
        number = omega (arith, h.number);
        stride = λ x. entered_stride q p x;
        slice = ap (λ j. j.time_slice) (put_job_self q.job p (entered q p));
        others = λ x n. put_job_other q.job p x (entered q p) (λ e. n (sym e));
      },
    )
