-- ===== src/Pmm.antt =====
-- lab2/kern/mm: physical pages, the free area, and the steps that the allocators share.
-- A page pointer is a positive number, the page `p + k` is the pointer plus `k`, and the address of a
-- page's `page_link` is the pointer itself; address 0 is that of the list head `free_list`.
pub mod Blocks
pub mod FirstFit
pub mod BestFit
mod Tests
use nku_os_ucore.Common.{
  ℕ, zero, suc, ◌+◌, ◌-◌, Bool, true, false, not, ◌&&◌, ◌==◌, ltb, if◌then◌else◌, Outcome, ok,
  out_of_fuel, ◌>>=◌, ◌>>◌, assert, u32,
}
use nku_os_ucore.DList.{Links, list_init, list_add, list_add_before, list_empty}

-- `struct Page`; of `flags` the two bits that the allocators use, PG_reserved and PG_property.
pub record Page : Type 0 where
  pub ref : ℕ
  pub reserved : Bool
  pub head : Bool
  pub property : ℕ

-- The page array, the links of `page_link` and `free_list`, and `nr_free` (an `unsigned int`).
pub record FreeArea : Type 0 where
  pub page : ℕ → Page
  pub links : Links
  pub nr_free : ℕ

abbrev pub store : (ℕ → Page) → ℕ → Page → ℕ → Page
store m a v x = if x == a then v else m x

abbrev pub free_list : ℕ
free_list = 0

-- `p->flags = 0; set_page_ref(p, 0)`
abbrev pub cleared : Page → Page
cleared q = record q { ref = 0; reserved = false; head = false }
