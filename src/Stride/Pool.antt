-- ===== src/Stride/Pool.antt =====
-- The run queue of lab8/kern/schedule/default_sched_stride.c and its heap.
use nku_os_ucore.Common.{ℕ, ◌+◌, ◌%◌, ◌^◌, ◌≤◌, ◌<◌, ◌≡◌, ◌≢◌, true, arith}
use nku_os_ucore.Skew.Tree.{Tree, leaf, node, size, Each, Out}
use nku_os_ucore.Skew.Order.{Reads}
use nku_os_ucore.Skew.Heap.{Heap}
use nku_os_ucore.Skew.Merge.{less}
use nku_os_ucore.Stride.{Job, RunQueue, big_stride, put_job, proc_stride_comp_f}
use nku_os_ucore.Stride.Window.{stride_comp-window}

-- The stride of `x` is the number `v x` without its overflows, and this lies in the window that
-- begins at `lo`.
pub record InWindow (job : ℕ → Job) (v : ℕ → ℕ) (lo x : ℕ) : Type 0 where
  pub stride : (job x).stride ≡ v x % 2 ^ 32
  pub above : lo ≤ v x
  pub below : v x ≤ lo + big_stride

-- The queue holds the processes of the tree, ordered by their strides without overflow.
pub record Pool (q : RunQueue) (t : Tree) (v : ℕ → ℕ) (lo : ℕ) : Type 0 where
  pub heap : Heap v (InWindow q.job v lo) q.entries q.pool t
  pub queued : Each (λ x. (q.job x).queued ≡ true) t
  pub number : q.proc_num ≡ size t
  pub room : size t < 2 ^ 32

pub comp-Reads :
    (job : ℕ → Job) (v : ℕ → ℕ) (lo : ℕ)
    → Reads (less (proc_stride_comp_f job)) v (InWindow job v lo)
unfolding proc_stride_comp_f
comp-Reads job v lo x y p q =
    rw (p.stride, q.stride) (stride_comp-window lo (v x) (v y) p.above p.below q.above q.below)

pub put_job_other : (job : ℕ → Job) (p x : ℕ) (j : Job) → p ≢ x → put_job job p j x ≡ job x
put_job_other job p x j h = ground arith

pub put_job_self : (job : ℕ → Job) (p : ℕ) (j : Job) → put_job job p j p ≡ j
put_job_self job p j = ground arith

-- A write to a process outside of the tree.
pub Each-put_job :
    (P : Job → ℕ → Type 0) (job : ℕ → Job) (p : ℕ) (j : Job) (t : Tree)
    → Out p t
    → Each (λ x. P (job x) x) t
    → Each (λ x. P (put_job job p j x) x) t
Each-put_job P job p j leaf o h = tt
Each-put_job P job p j (node l x r) o h = (
  rw (put_job_other job p x j o.0) h.0,
  Each-put_job P job p j l o.1 h.1,
  Each-put_job P job p j r o.2 h.2,
)
