-- ===== src/Swap/Fifo/Queue.antt =====
-- The policy of lab3/kern/mm/swap_fifo.c is a queue of pages.
use mathlib.Core.List.{reverse, reverse-append, reverse-cons}
use nku_os_ucore.Common.{
  ℕ, ◌≡◌, ◌≢◌, refl, subst, Option, none, some, List, [], ◌∷◌, ◌++◌, arith, ok, ◌==◌, append-nil,
  false,
}
use nku_os_ucore.Common.Distinct.{NotIn, NotIn-append, NotIn-append_right}
use nku_os_ucore.DList.{list_del, list_add}
use nku_os_ucore.DList.Ring.{Ring, Linked-split, list_add-Ring, list_del-Ring, list_init-Ring}
use nku_os_ucore.Swap.{pra_list_head}
use nku_os_ucore.Swap.Fifo.{
  Fifo, Op, arrive, evict, fifo_init_mm, fifo_map_swappable, fifo_swap_out_victim, run,
}

-- The pages in the order of their arrival, the oldest first.
pub record Holds (s : Fifo) (q : List ℕ) : Type 0 where
  pub ring : Ring s.links pra_list_head (reverse q)
  pub ready : s.sm_priv ≡ some pra_list_head

NotIn-reverse : (a : ℕ) (q : List ℕ) → NotIn a q → NotIn a (reverse q)
NotIn-reverse a [] h = tt
NotIn-reverse a (x ∷ q) h =
    rw (reverse-cons x q) (NotIn-append a (reverse q) (x ∷ []) (NotIn-reverse a q h.1) (h.0, tt))

pub fifo_init_mm-Holds : (s : Fifo) → Holds (fifo_init_mm s) []
unfolding fifo_init_mm
fifo_init_mm-Holds s = record { ring = list_init-Ring s.links pra_list_head; ready = refl }

-- A page that arrives goes to the end of the queue.
fifo_map_swappable-Holds :
    (s : Fifo) (q : List ℕ) (p : ℕ)
    → Holds s q
    → p ≢ pra_list_head
    → NotIn p q
    → (t : Fifo) × (fifo_map_swappable p s ≡ ok t) × Holds t (q ++ p ∷ [])
unfolding fifo_map_swappable
fifo_map_swappable-Holds s q p v h k = (
  record s { links = list_add pra_list_head p s.links },
  rw v.ready,
  record {
    ring =
        rw (reverse-append q (p ∷ []))
          (list_add-Ring s.links pra_list_head p (reverse q) v.ring h (NotIn-reverse p q k));
    ready = v.ready;
  },
)

-- What the oldest page is, and what stays.
abbrev pub oldest : List ℕ → Option ℕ
oldest [] = none
oldest (x ∷ q) = some x

abbrev pub younger : List ℕ → List ℕ
younger [] = []
younger (x ∷ q) = q

fifo_swap_out_victim-Holds :
    (s : Fifo) (q : List ℕ)
    → Holds s q
    → (t : Fifo) × (fifo_swap_out_victim 0 s ≡ ok (oldest q, t)) × Holds t (younger q)
unfolding fifo_swap_out_victim
fifo_swap_out_victim-Holds s [] v = (s, rw (v.ready, v.ring.linked.1), v)
fifo_swap_out_victim-Holds s (x ∷ q) v =
    let r = subst (Ring s.links pra_list_head) (reverse-cons x q) v.ring in
    let p = (Linked-split s.links pra_list_head (reverse q) x [] pra_list_head r.linked).1 in
    let nz : (x == pra_list_head) ≡ false =
      let z = (NotIn-append_right pra_list_head (reverse q) (x ∷ []) r.distinct.0).0 in
      ground arith in
    (
      record s { links = list_del x s.links },
      rw (v.ready, p.1, nz),
      record {
        ring =
            subst (Ring (list_del x s.links) pra_list_head) (append-nil (reverse q))
              (list_del-Ring s.links pra_list_head x (reverse q) [] r);
        ready = v.ready;
      },
    )

-- The queue that a client sees.
unfoldable pub queue_run : List ℕ → List Op → List (Option ℕ)
queue_run q [] = []
queue_run q (arrive p ∷ ops) = queue_run (q ++ p ∷ []) ops
queue_run q (evict ∷ ops) = oldest q ∷ queue_run (younger q) ops

-- No page arrives that is in the queue already.
abbrev pub Fresh : List ℕ → List Op → Type 0
Fresh q [] = Unit {0}
Fresh q (arrive p ∷ ops) = (p ≢ pra_list_head) × NotIn p q × Fresh (q ++ p ∷ []) ops
Fresh q (evict ∷ ops) = Fresh (younger q) ops

-- From a state of the FIFO policy that holds the queue `q`, any sequence of arrivals and
-- evictions, in which no page arrives that is queued already, runs without a failed assertion
-- and names the victims that a queue names: the page that arrived first, or null for an empty
-- queue.
pub run_refines :
    (ops : List Op) (s : Fifo) (q : List ℕ)
    → Holds s q
    → Fresh q ops
    → run s ops ≡ ok (queue_run q ops)
unfolding run queue_run
run_refines [] s q v f = refl
run_refines (arrive p ∷ ops) s q v f =
    let (t, e, w) = fifo_map_swappable-Holds s q p v f.0 f.1 in
    rw e (run_refines ops t (q ++ p ∷ []) w f.2)
run_refines (evict ∷ ops) s q v f =
    let (t, e, w) = fifo_swap_out_victim-Holds s q v in rw (e, run_refines ops t (younger q) w f)
