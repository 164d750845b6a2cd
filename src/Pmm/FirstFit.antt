-- ===== src/Pmm/FirstFit.antt =====
-- lab2/kern/mm/default_pmm.c: the first-fit allocator.
pub mod Init
pub mod Clear
pub mod Insert
pub mod Twice
pub mod AtEnd
pub mod Take
pub mod Free
pub mod Absorb
pub mod Merge
pub mod Alloc
use nku_os_ucore.Common.{
  ℕ, zero, suc, ◌+◌, ◌-◌, Bool, true, false, not, ◌&&◌, ◌==◌, ltb, leb, if◌then◌else◌, Outcome, ok,
  out_of_fuel, ◌>>=◌, ◌>>◌, assert, u32, Option, none, some,
}
use nku_os_ucore.DList.{Links, list_init, list_add, list_add_before, list_empty, list_del}
use nku_os_ucore.Pmm.{Page, FreeArea, store, free_list, cleared}

unfoldable pub default_init : FreeArea → FreeArea
default_init s = record s { links = list_init free_list s.links; nr_free = 0 }

-- The loop over the pages of a new block: `k` pages are left, from `p` on.
unfoldable pub init_pages : ℕ → ℕ → (ℕ → Page) → Outcome (ℕ → Page)
init_pages zero p m = ok m
init_pages (suc k) p m = do
  assert (m p).reserved
  init_pages k (p + 1) (store m p (record (cleared (m p)) { property = 0 }))

-- The loop that looks for the place of `base` in a list that is not empty. It does not stop after an
-- insertion at the end: the walk goes on from the inserted entry.
unfoldable pub insert_loop : ℕ → ℕ → ℕ → Links → Outcome Links
insert_loop zero base le l = out_of_fuel
insert_loop (suc f) base le l =
    let le' = l.next le in
    let rest =
      insert_loop f base le' (if l.next le' == free_list then list_add le' base l else l) in
    if le' == free_list
    then ok l
    else if ltb base le'
    then ok (list_add_before le' base l)
    else rest

unfoldable pub insert_block : ℕ → ℕ → Links → Outcome Links
insert_block fuel base l =
    if list_empty free_list l
    then ok (list_add free_list base l)
    else insert_loop fuel base free_list l

-- `base->property = n; SetPageProperty(base); nr_free += n;` and the insertion.
unfoldable pub add_block : ℕ → ℕ → ℕ → FreeArea → Outcome FreeArea
add_block fuel base n s = do
  l ← insert_block fuel base s.links
  ok (record {
    page = store s.page base (record (s.page base) { head = true; property = u32 n });
    links = l;
    nr_free = u32 (s.nr_free + n);
  })

unfoldable pub default_init_memmap : ℕ → ℕ → ℕ → FreeArea → Outcome FreeArea
default_init_memmap fuel base n s = do
  assert (ltb 0 n)
  m ← init_pages n base s.page
  add_block fuel base n (record s { page = m })

-- The search for the first block of at least `n` pages.
unfoldable pub find_first : ℕ → ℕ → ℕ → FreeArea → Outcome (Option ℕ)
find_first zero n le s = out_of_fuel
find_first (suc f) n le s =
    let p = s.links.next le in
    let rest = find_first f n p s in
    if p == free_list then ok none else if leb n (s.page p).property then ok (some p) else rest

-- `if (page->property > n)`: the rest of the block goes back into the list, after `prev`.
unfoldable pub split_block : ℕ → ℕ → ℕ → FreeArea → FreeArea
split_block prev page n s =
    let p = page + n in
    let k = (s.page page).property in
    if ltb n k
    then record s {
      page = store s.page p (record (s.page p) { head = true; property = k - n });
      links = list_add prev p s.links;
    }
    else s

-- `if (page != NULL)`: the block leaves the list. (`nr_free -= n` runs only at `n <= nr_free`.)
unfoldable pub take_block : ℕ → ℕ → FreeArea → FreeArea
take_block page n s =
    let t = split_block (s.links.prev page) page n (record s { links = list_del page s.links }) in
    record t {
      nr_free = t.nr_free - n;
      page = store t.page page (record (t.page page) { head = false });
    }

abbrev pub taken : Option ℕ → ℕ → FreeArea → Option ℕ × FreeArea
taken none n s = (none, s)
taken (some page) n s = (some page, take_block page n s)

unfoldable pub default_alloc_pages : ℕ → ℕ → FreeArea → Outcome (Option ℕ × FreeArea)
default_alloc_pages fuel n s = do
  assert (ltb 0 n)
  let found = find_first fuel n free_list s
  if ltb s.nr_free n then ok (none, s) else found >>= λ r. ok (taken r n s)

-- The loop over the pages of a freed block.
unfoldable pub clear_pages : ℕ → ℕ → (ℕ → Page) → Outcome (ℕ → Page)
clear_pages zero p m = ok m
clear_pages (suc k) p m = do
  assert (not (m p).reserved && not (m p).head)
  clear_pages k (p + 1) (store m p (cleared (m p)))

-- The block `b` that begins where the block `a` ends becomes a part of it.
unfoldable pub absorb : ℕ → ℕ → FreeArea → FreeArea
absorb a b s =
    let size = u32 ((s.page a).property + (s.page b).property) in
    let grown = store s.page a (record (s.page a) { property = size }) in
    record s {
      page = store grown b (record (grown b) { head = false });
      links = list_del b s.links;
    }

-- Merging with the entry before `base`; the result is the new `base`.
unfoldable pub merge_prev : ℕ → FreeArea → ℕ × FreeArea
merge_prev base s =
    let p = s.links.prev base in
    if p == free_list
    then (base, s)
    else if p + (s.page p).property == base
    then (p, absorb p base s)
    else (base, s)

unfoldable pub merge_next : ℕ → FreeArea → FreeArea
merge_next base s =
    let p = s.links.next base in
    if p == free_list then s else if base + (s.page base).property == p then absorb base p s else s

unfoldable pub default_free_pages : ℕ → ℕ → ℕ → FreeArea → Outcome FreeArea
default_free_pages fuel base n s = do
  assert (ltb 0 n)
  m ← clear_pages n base s.page
  s' ← add_block fuel base n (record s { page = m })
  let merged = merge_prev base s'
  ok (merge_next merged.0 merged.1)

unfoldable pub default_nr_free_pages : FreeArea → ℕ
default_nr_free_pages s = s.nr_free
