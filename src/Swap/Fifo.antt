-- ===== src/Swap/Fifo.antt =====
-- lab3/kern/mm/swap_fifo.c: first in, first out.
pub mod Queue
use nku_os_ucore.Common.{
  ℕ, Bool, true, false, not, ◌==◌, if◌then◌else◌, Outcome, ok, ◌>>=◌, ◌>>◌, assert, Option, none,
  some, List, [], ◌∷◌,
}
use nku_os_ucore.DList.{Links, list_init, list_add, list_del}
use nku_os_ucore.Swap.{pra_list_head}

-- The list and `mm->sm_priv`, null before `_fifo_init_mm`.
pub record Fifo : Type 0 where
  pub links : Links
  pub sm_priv : Option ℕ

abbrev pub is_set : Option ℕ → Bool
is_set none = false
is_set (some h) = true

abbrev pub address : Option ℕ → ℕ
address none = 0
address (some h) = h

unfoldable pub fifo_init_mm : Fifo → Fifo
fifo_init_mm s = record { links = list_init pra_list_head s.links; sm_priv = some pra_list_head }

unfoldable pub fifo_map_swappable : ℕ → Fifo → Outcome Fifo
fifo_map_swappable page s = do
  assert (is_set s.sm_priv)
  ok (record s { links = list_add (address s.sm_priv) page s.links })

-- The page that goes through `ptr_page`, or null.
unfoldable pub fifo_swap_out_victim : ℕ → Fifo → Outcome (Option ℕ × Fifo)
fifo_swap_out_victim in_tick s = do
  assert (is_set s.sm_priv)
  assert (in_tick == 0)
  let head = address s.sm_priv
  let entry = s.links.prev head
  if entry == head
      then ok (none, s)
      else ok (some entry, record s { links = list_del entry s.links })

-- What the swap manager is asked for: to take a page in, or to name a victim.
pub data Op : Type 0 where
  arrive : ℕ → Op
  evict : Op

-- The victims of a sequence of requests.
unfoldable pub run : Fifo → List Op → Outcome (List (Option ℕ))
run s [] = ok []
run s (arrive p ∷ ops) = fifo_map_swappable p s >>= λ t. run t ops
run s (evict ∷ ops) = do r ← fifo_swap_out_victim 0 s; rest ← run r.1 ops; ok (r.0 ∷ rest)
