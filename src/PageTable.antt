-- ===== src/PageTable.antt =====
-- The page tables of lab3/kern/mm/pmm.c, with the macros of lab3/kern/mm/mmu.h and pmm.h. A frame of
-- memory is named by its page number, which stands for its `struct Page` as well, and holds entries
-- of 64 bits. `ref` has the bit pattern of the `int`. What `alloc_page` returns is `supply`, in
-- order; when it is used up, the null page.
pub mod Entries
pub mod Invariant
pub mod Extended
pub mod Grown
pub mod Walk
pub mod Step
pub mod Put
pub mod Insert
pub mod Mapping
pub mod Space
pub mod Lookup
pub mod Remove
pub mod Taken
pub mod Fresh
mod Tests
use nku_os_ucore.Common.{
  ℕ, zero, suc, ◌+◌, ◌-◌, ◌*◌, ◌/◌, ◌%◌, ◌^◌, Bool, true, false, not, ◌&&◌, ◌==◌, ltb,
  if◌then◌else◌, Outcome, ok, panicked, ◌>>=◌, ◌>>◌, assert, Option, none, some, List, [], ◌∷◌, ℤ,
  pos, negsuc, u32,
}

pub record Machine : Type 0 where
  pub npage : ℕ
  pub entry : ℕ → ℕ → ℕ
  pub ref : ℕ → ℕ
  pub supply : List ℕ
  pub freed : List ℕ
  -- How often the translation buffer has been flushed.
  pub flushes : ℕ
  -- The calls of `swap_map_swappable`, with the address that becomes `pra_vaddr`.
  pub swappable : List (ℕ × ℕ)

abbrev pub pdx1 : ℕ → ℕ
pdx1 la = la / 2 ^ 30 % 512

abbrev pub pdx0 : ℕ → ℕ
pdx0 la = la / 2 ^ 21 % 512

abbrev pub ptx : ℕ → ℕ
ptx la = la / 2 ^ 12 % 512

-- `e & PTE_V`.
abbrev pub valid : ℕ → Bool
valid e = e % 2 == 1

-- PTE_ADDR, and the number of the frame at an address.
unfoldable pub pte_addr : ℕ → ℕ
pte_addr e = e / 2 ^ 10 * 2 ^ 12 % 2 ^ 64

unfoldable pub frame_of : ℕ → ℕ
unfolding pte_addr
frame_of e = pte_addr e / 2 ^ 12

-- The flags of `type`, below 2^10, are besides the number of the frame.
unfoldable pub pte_create : ℕ → ℕ → ℕ
pte_create ppn type = ppn * 2 ^ 10 % 2 ^ 64 + (if valid type then type else type + 1)

abbrev pub put_entry : (ℕ → ℕ → ℕ) → ℕ → ℕ → ℕ → ℕ → ℕ → ℕ
put_entry m f i e g j = if g == f && j == i then e else m g j

-- The frame is filled with zeros.
abbrev pub clear_frame : (ℕ → ℕ → ℕ) → ℕ → ℕ → ℕ → ℕ
clear_frame m f g j = if g == f then 0 else m g j

abbrev pub put_ref : (ℕ → ℕ) → ℕ → ℕ → ℕ → ℕ
put_ref r f n g = if g == f then n else r g

-- `KADDR(PDE_ADDR(e))` as a frame.
unfoldable pub follow : ℕ → Machine → Outcome (Option ℕ × Machine)
follow e s = do assert (ltb (frame_of e) s.npage); ok (some (frame_of e), s)

-- A new table in the frame `page`, for the entry `i` of the table `f`.
unfoldable pub new_table : ℕ → ℕ → ℕ → Machine → Outcome (Option ℕ × Machine)
new_table f i page s =
    let s1 = record s {
      ref = put_ref s.ref page 1;
      entry = put_entry (clear_frame s.entry page) f i (pte_create page 17);
    } in
    do assert (ltb page s.npage); follow (s1.entry f i) s1

-- The call of `alloc_page` for a new table.
abbrev pub alloc_table : ℕ → ℕ → List ℕ → Machine → Outcome (Option ℕ × Machine)
alloc_table f i [] s = ok (none, s)
alloc_table f i (page ∷ rest) s = new_table f i page (record s { supply = rest })

-- The table that the entry `i` of the table `f` names. The null pointer is `none`.
unfoldable pub next_table : Bool → ℕ → ℕ → Machine → Outcome (Option ℕ × Machine)
next_table create f i s =
    if valid (s.entry f i)
    then follow (s.entry f i) s
    else if not create
    then ok (none, s)
    else alloc_table f i s.supply s

-- The pointer to an entry is its frame and its index.
abbrev pub last_table : Bool → ℕ → Option ℕ × Machine → Outcome (Option (ℕ × ℕ) × Machine)
last_table create la (none, s) = ok (none, s)
last_table create la (some f, s) = next_table create f (pdx0 la) s >>= λ r.
    ok (elim r.0 [ none ↦ none | some l ↦ some (l, ptx la) ], r.1)

unfoldable pub get_pte : ℕ → ℕ → Bool → Machine → Outcome (Option (ℕ × ℕ) × Machine)
get_pte pgdir la create s = next_table create pgdir (pdx1 la) s >>= last_table create la

unfoldable pub pte2page : ℕ → Machine → Outcome ℕ
pte2page e s = do assert (valid e); assert (ltb (frame_of e) s.npage); ok (frame_of e)

-- The page, and the pointer for `ptep_store`.
unfoldable pub get_page : ℕ → ℕ → Machine → Outcome ((Option ℕ × Option (ℕ × ℕ)) × Machine)
get_page pgdir la s = get_pte pgdir la false s >>= λ r. elim r.0 [
  | none ↦ ok ((none, none), r.1)
  | some (f, k) ↦
      let found = pte2page (r.1.entry f k) r.1 >>= λ page. ok ((some page, some (f, k)), r.1) in
      if valid (r.1.entry f k) then found else ok ((none, some (f, k)), r.1)
]

unfoldable pub page_ref_inc : ℕ → Machine → Machine
page_ref_inc page s = record s { ref = put_ref s.ref page (u32 (s.ref page + 1)) }

unfoldable pub page_ref_dec : ℕ → Machine → Machine
page_ref_dec page s = record s { ref = put_ref s.ref page (u32 (s.ref page + 2 ^ 32 - 1)) }

unfoldable pub tlb_invalidate : Machine → Machine
tlb_invalidate s = record s { flushes = s.flushes + 1 }

-- A page without references is freed.
unfoldable pub drop_ref : ℕ → Machine → Machine
drop_ref page s =
    let s1 = page_ref_dec page s in
    if s1.ref page == 0 then record s1 { freed = page ∷ s1.freed } else s1

unfoldable pub page_remove_pte : ℕ → ℕ → Machine → Outcome Machine
page_remove_pte f k s =
    let removed = pte2page (s.entry f k) s >>= λ page.
    let s1 = drop_ref page s in
    ok (tlb_invalidate (record s1 { entry = put_entry s1.entry f k 0 })) in
    if valid (s.entry f k) then removed else ok s

unfoldable pub page_remove : ℕ → ℕ → Machine → Outcome Machine
page_remove pgdir la s = get_pte pgdir la false s >>= λ r. elim r.0 [
  | none ↦ ok r.1
  | some (f, k) ↦ page_remove_pte f k r.1
]

-- What `page_insert` does with an old mapping.
unfoldable pub unmap_old : ℕ → ℕ → ℕ → Machine → Outcome Machine
unmap_old f k page s =
    let replaced = pte2page (s.entry f k) s >>= λ p.
    if p == page then ok (page_ref_dec page s) else page_remove_pte f k s in
    if valid (s.entry f k) then replaced else ok s

abbrev pub e_no_mem : ℤ
e_no_mem = negsuc 3

unfoldable pub page_insert : ℕ → ℕ → ℕ → ℕ → Machine → Outcome (ℤ × Machine)
page_insert pgdir page la perm s = get_pte pgdir la true s >>= λ r. elim r.0 [
  | none ↦ ok (e_no_mem, r.1)
  | some (f, k) ↦ unmap_old f k page (page_ref_inc page r.1) >>= λ s1.
      ok (
        pos 0,
        tlb_invalidate (record s1 { entry = put_entry s1.entry f k (pte_create page perm) }),
      )
]

abbrev pub is_zero : ℤ → Bool
is_zero (pos n) = n == 0
is_zero (negsuc n) = false

-- The page that was allocated gets its mapping; `swap_init_ok` is a variable of swap.c.
unfoldable pub map_new_page : Bool → ℕ → ℕ → ℕ → ℕ → Machine → Outcome (Option ℕ × Machine)
map_new_page swap_init_ok pgdir page la perm s = page_insert pgdir page la perm s >>= λ r.
    let s1 = record r.1 { swappable = (page, la) ∷ r.1.swappable } in
    let checked = assert (r.1.ref page == 1) >> ok (some page, s1) in
    if not (is_zero r.0)
    then ok (none, record r.1 { freed = page ∷ r.1.freed })
    else if swap_init_ok
    then checked
    else ok (some page, r.1)

unfoldable pub pgdir_alloc_page : Bool → ℕ → ℕ → ℕ → Machine → Outcome (Option ℕ × Machine)
pgdir_alloc_page swap_init_ok pgdir la perm s = elim s.supply [
  | [] ↦ ok (none, s)
  | page ∷ rest ↦ map_new_page swap_init_ok pgdir page la perm (record s { supply = rest })
]
