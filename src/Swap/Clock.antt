-- ===== src/Swap/Clock.antt =====
-- lab3/kern/mm/swap_clock.c: the clock policy.
pub mod Lap
use nku_os_ucore.Common.{
  ℕ, zero, suc, Bool, true, false, not, ◌==◌, if◌then◌else◌, Outcome, ok, out_of_fuel, ◌>>=◌, ◌>>◌,
  assert, Option, none, some,
}
use nku_os_ucore.DList.{Links, list_init, list_add_before, list_del}
use nku_os_ucore.Swap.{pra_list_head}

-- The list, `curr_ptr`, `mm->sm_priv`, and the `visited` flag of every page.
pub record Clock : Type 0 where
  pub links : Links
  pub curr_ptr : ℕ
  pub sm_priv : Option ℕ
  pub visited : ℕ → Bool

abbrev pub mark : (ℕ → Bool) → ℕ → Bool → ℕ → Bool
mark f p v x = if x == p then v else f x

unfoldable pub clock_init_mm : Clock → Clock
clock_init_mm s = record s {
  links = list_init pra_list_head s.links;
  curr_ptr = pra_list_head;
  sm_priv = some pra_list_head;
}

-- `curr_ptr` is the list head or an entry, and so not the null pointer.
unfoldable pub clock_map_swappable : ℕ → Clock → Outcome Clock
clock_map_swappable page s = do
  assert (not (page == 0))
  ok (record s {
    links = list_add_before pra_list_head page s.links;
    visited = mark s.visited page true;
  })

-- The entry behind `p`; the head is stepped over.
abbrev pub advance : Links → ℕ → ℕ
advance l p = let q = l.next p in if q == pra_list_head then l.next q else q

-- The loop `while (1)`
unfoldable pub clock_loop : ℕ → Clock → Outcome (ℕ × Clock)
clock_loop zero s = out_of_fuel
clock_loop (suc f) s =
    let page = advance s.links s.curr_ptr in
    let rest = clock_loop f (record s { curr_ptr = page; visited = mark s.visited page false }) in
    if s.visited page
    then rest
    else ok (page, record s { curr_ptr = page; links = list_del page s.links })

unfoldable pub clock_swap_out_victim : ℕ → ℕ → Clock → Outcome (ℕ × Clock)
clock_swap_out_victim fuel in_tick s = do
  assert (elim s.sm_priv [ none ↦ false | some h ↦ true ])
  assert (in_tick == 0)
  clock_loop fuel s
