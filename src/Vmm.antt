-- ===== src/Vmm.antt =====
-- lab3/kern/mm/vmm.c: the virtual memory areas of a process.
-- The address of a `vma_struct` is a positive number and stands for its `list_link` as well; address 0
-- is that of the list head `mmap_list`.
pub mod Areas
pub mod Find
pub mod Place
pub mod Insert
mod Tests
use nku_os_ucore.Common.{
  ℕ, zero, suc, ◌+◌, Bool, true, false, not, ◌&&◌, ◌==◌, ltb, leb, if◌then◌else◌, Outcome, ok,
  out_of_fuel, ◌>>=◌, ◌>>◌, assert, Option, none, some,
}
use nku_os_ucore.DList.{Links, update, list_add_after}

pub record Vma : Type 0 where
  pub vm_mm : Option ℕ
  pub vm_start : ℕ
  pub vm_end : ℕ
  pub vm_flags : ℕ

-- One `mm_struct`, at the address `self`, with the areas and the links of the store that it is in.
pub record Mm : Type 0 where
  pub self : ℕ
  pub vma : ℕ → Vma
  pub links : Links
  pub mmap_cache : Option ℕ
  pub map_count : ℕ

abbrev pub mmap_list : ℕ
mmap_list = 0

abbrev pub store : (ℕ → Vma) → ℕ → Vma → ℕ → Vma
store m a v x = if x == a then v else m x

-- `vma_create`: the first argument is what `kmalloc` returned.
unfoldable pub vma_create : Option ℕ → ℕ → ℕ → ℕ → Mm → Option ℕ × Mm
vma_create none vm_start vm_end vm_flags s = (none, s)
vma_create (some p) vm_start vm_end vm_flags s = (
  some p,
  record s {
    vma =
        store s.vma p
          (record (s.vma p) { vm_start = vm_start; vm_end = vm_end; vm_flags = vm_flags });
  },
)

-- `vma->vm_start <= addr && addr < vma->vm_end`
abbrev pub holds : Vma → ℕ → Bool
holds v addr = leb v.vm_start addr && ltb addr v.vm_end

-- The walk of `find_vma` over the list.
unfoldable pub find_loop : ℕ → ℕ → ℕ → Mm → Outcome (Option ℕ)
find_loop zero addr le s = out_of_fuel
find_loop (suc f) addr le s =
    let le' = s.links.next le in
    let rest = find_loop f addr le' s in
    if le' == mmap_list then ok none else if holds (s.vma le') addr then ok (some le') else rest

-- Whether the cached area serves.
abbrev pub cached : Mm → ℕ → Bool
cached s addr = elim s.mmap_cache [ none ↦ false | some c ↦ holds (s.vma c) addr ]

-- `if (vma != NULL) mm->mmap_cache = vma`
abbrev pub remember : Option ℕ → Mm → Mm
remember none s = s
remember (some p) s = record s { mmap_cache = some p }

unfoldable pub find_vma : ℕ → Option Mm → ℕ → Outcome (Option ℕ × Option Mm)
find_vma fuel none addr = ok (none, none)
find_vma fuel (some s) addr = do
  let walk = find_loop fuel addr mmap_list s
  r ← (if cached s addr then ok s.mmap_cache else walk)
  ok (r, some (remember r s))

-- The assertions of `check_vma_overlap`
unfoldable pub check_vma_overlap : Vma → Vma → Outcome (Unit {0})
check_vma_overlap prev next = do
  assert (ltb prev.vm_start prev.vm_end)
  assert (leb prev.vm_end next.vm_start)
  assert (ltb next.vm_start next.vm_end)

-- The walk of `insert_vma_struct`: the last entry that starts at or below `vm_start`.
unfoldable pub find_prev : ℕ → ℕ → ℕ → ℕ → Mm → Outcome ℕ
find_prev zero vm_start le le_prev s = out_of_fuel
find_prev (suc f) vm_start le le_prev s =
    let le' = s.links.next le in
    let rest = find_prev f vm_start le' le' s in
    if le' == mmap_list
    then ok le_prev
    else if ltb vm_start (s.vma le').vm_start
    then ok le_prev
    else rest

unfoldable pub insert_vma_struct : ℕ → ℕ → Mm → Outcome Mm
insert_vma_struct fuel v s = do
  assert (ltb (s.vma v).vm_start (s.vma v).vm_end)
  le_prev ← find_prev fuel (s.vma v).vm_start mmap_list mmap_list s
  let le_next = s.links.next le_prev
  if le_prev == mmap_list then ok tt else check_vma_overlap (s.vma le_prev) (s.vma v)
  if le_next == mmap_list then ok tt else check_vma_overlap (s.vma v) (s.vma le_next)
  ok (record s {
    vma = store s.vma v (record (s.vma v) { vm_mm = some s.self });
    links = list_add_after le_prev v s.links;
    map_count = s.map_count + 1;
  })
