-- ===== src/Lib.antt =====
-- A verification library for the kernel labs of this repository (ucore on RISC-V): the memory
-- managers and the data structures under them, the page tables, the processes, the schedulers
-- and timers, the table of devices and the standard input.
--
-- The parts and the files that model them:
--
-- DList, lab2/libs/list.h: circular doubly linked lists, on a store of `prev` and `next` fields
--   by address. `list_init`, `list_add`, `list_add_before`, `list_add_after`, `list_del`,
--   `list_del_init`, `list_empty`; `__list_add` and `__list_del` are `raw_list_add` and
--   `raw_list_del`. DList/Ring relates a list head to the sequence of its entries.
-- Pmm, lab2/kern/mm/memlayout.h: `struct Page` and `free_area_t`; Pmm/Blocks has the invariant
--   of the free area and the set of its free pages.
-- Pmm/FirstFit, lab2/kern/mm/default_pmm.c, under the names of the source. The loops and the
--   guarded parts of a function are definitions of their own: `init_pages`, `insert_loop`,
--   `insert_block`, `add_block`, `find_first`, `take_block`, `split_block`, `clear_pages`,
--   `merge_prev`, `merge_next`.
-- Pmm/BestFit, lab2/kern/mm/best_fit_pmm.c. Where its text is that of default_pmm.c it uses the
--   same steps.
-- Vmm, lab3/kern/mm/vmm.c: `vma_create`, `find_vma`, `check_vma_overlap`, `insert_vma_struct`.
-- Swap, lab3/kern/mm/swap_fifo.c and lab3/kern/mm/swap_clock.c, the leading `_` of the names
--   left out.
-- Strings, lab2/libs/string.c on a memory of bytes. Strings/Bytes says what a string in memory
--   is, and has the comparisons; Strings/Scan the searches; Strings/Copy the copies of strings;
--   Strings/Moving those of blocks; Strings/Number is about `strtol`.
-- Hash, Lab5/libs/hash.c: `hash32`.
-- Proc, Lab5/kern/process/proc.c, with the structures, the links between the processes and the
--   hash lists in Proc itself; Proc/Pid has `get_pid`, Proc/Fork `do_fork` and what it calls,
--   Proc/Exit `do_exit` and `do_kill`, Proc/Wait `do_wait`; Proc/Sched is
--   Lab5/kern/schedule/sched.c.
-- Timer, lab8/kern/schedule/sched.c: the timers, `wakeup_task` for its `wakeup_proc`, the tick,
--   and `schedule`.
-- Skew, lab8/libs/skew_heap.h: heaps of entries with `left`, `right` and `parent`; Skew/Shape
--   relates the pointers to a tree.
-- Stride, lab8/kern/schedule/default_sched_stride.c: the scheduling class that fills the record
--   of Timer, on the heaps of Skew.
-- PageTable, lab3/kern/mm/pmm.c, with the macros of mmu.h and pmm.h there: `get_pte` (in the
--   steps `next_table`, `alloc_table`, `new_table`, `last_table`), `get_page`, `page_insert`,
--   `page_remove`, `pgdir_alloc_page`; PageTable/Invariant has the map from addresses to entries
--   that a tree of tables stands for.
-- Vfs, lab8/kern/fs/vfs/vfsdev.c: the table of devices; `seek` is the walk that its lookups
--   share.
-- Stdin, lab8/kern/fs/devs/dev_stdin.c: the buffer of the standard input; `next_char` and
--   `read_loop` are the steps of `dev_stdin_read`.
--
-- How they interact: the allocators, the areas, the policies, the processes, the timers and the
-- devices all thread their structures on the lists of DList, and are modelled on the links
-- themselves, not on sequences: a link that is wrong is wrong in the model too. The sequences
-- stand only in the statements.
--
-- Conventions. The address of a `list_entry_t` within a structure is identified with the
-- structure's own pointer, and the list head of each component is address 0; so structures have
-- positive pointers and `le2page` and its like are the identity. In Proc the entries 0 to 1023
-- are the heads of the hash lists, 0 is `proc_list` too (its links are a store of their own),
-- and structures lie above. Of `Page.flags` the two bits that the code uses are modelled.
-- `property` and `nr_free` are 32 bits wide and wrap where the source adds to them; a `size_t`
-- that counts bytes wraps at 2^64, and a `long` is its two's complement in 64 bits; other
-- counters and all addresses are plain numbers. A `char` of this target is unsigned. `Outcome`
-- says how a function ends: with a value, in a failed assertion, or with its fuel used up.
--
-- What the kernel heap, the page tables and the user's memory answer to `do_fork`, `do_exit` and
-- `do_wait` are arguments of these functions (`Answers` for `do_fork`); what other processes do
-- while one sleeps is a function `others` on states. The scheduling class of Timer is a record
-- of functions on a type of run queues. In Vfs the functions of the file systems are a record of
-- functions, `kmalloc` and `strdup` are the addresses that they return, strings are sequences of
-- characters by address, and the semaphore is left out. The comparison is an argument of the
-- functions of Skew, and `proc_run`, whose file is not here, one of Timer's `schedule`. Strides
-- are 32 bits wide. In PageTable a frame is named by its page number, which stands for its
-- `struct Page` too, so that the offset between physical and kernel addresses does not occur; an
-- entry of the root may map memory itself, as the kernel's own does, and the addresses that are
-- mapped so have no part in the map from addresses to entries; `alloc_page` is the list of what
-- it returns, and the calls of `free_page` and `swap_map_swappable` are recorded; `ref` has the
-- bit pattern of the `int`. In Stdin the wait queue is an argument, and a read gets the list of
-- what happens in each of its sleeps, with one reader at a time. `timer_t.expires` is 32 bits
-- wide and wraps where the source adds to it.
--
-- Fuel. Each walk over a list or to the end of a string takes fuel, one for each step. The
-- theorems ask for more fuel than the list has entries (as much for the expired timers, two more
-- where an insertion extends the list under the walk), and then say that the function returns.
-- The search of `get_pid` starts over at most 16384 times and gets 16385 rounds. A merge of
-- heaps gets more fuel than both have entries together. Loops that count down a length are
-- recursive on it. The walk of the page tables has two steps and needs none, nor does a read of
-- the standard input, which goes through its sleeps.
--
-- Interrupts are off in the modelled functions, or their callers disable them, or a semaphore
-- keeps others out, so each runs to its end. Not modelled: the self-checks and the printing of
-- the modelled files; of proc.c `do_execve` with `load_icode`, the names and the first
-- processes; and the other parts of the repository: the buddy allocator, the set-up of the
-- memory, the swap core, the kernel heap, the rest of the file system, traps, drivers and user
-- programs.
pub mod Common
pub mod DList
pub mod Pmm
pub mod Vmm
pub mod Swap
pub mod Strings
pub mod Hash
pub mod Proc
pub mod Timer
pub mod Vfs
pub mod Skew
pub mod Stdin
pub mod Stride
pub mod PageTable
