-- ===== src/Swap.antt =====
-- lab3/kern/mm: the page replacement policies. The address of a page's `pra_page_link` is the page's
-- pointer, a positive number; address 0 is that of the list head `pra_list_head`.
pub mod Fifo
pub mod Clock
mod Tests
use nku_os_ucore.Common.{ℕ}

abbrev pub pra_list_head : ℕ
pra_list_head = 0
