-- ===== src/PageTable/Lookup.antt =====
-- get_page of lab3/kern/mm/pmm.c reads the map that page_insert writes.
use nku_os_ucore.Common.{
  ℕ, ◌^◌, ◌<◌, ◌≡◌, refl, ap, ◌∙◌, subst, true, false, Bool-cases, inl, inr, Option, none, some, [],
  ok, ◌>>=◌, pos, ◌⊎◌,
}
use nku_os_ucore.PageTable.{
  Machine, valid, frame_of, pte_create, pdx1, pdx0, ptx, next_table, last_table, get_pte, get_page,
  page_insert, e_no_mem,
}
use nku_os_ucore.PageTable.Entries.{pte_create-valid, frame_of-pte_create}
use nku_os_ucore.PageTable.Invariant.{
  Role, page, child, maps_memory, has_tables, table, named, leaf_of, leaf_under, Tables,
}
use nku_os_ucore.PageTable.Walk.{table_valid}
use nku_os_ucore.PageTable.Step.{follow-some}
use nku_os_ucore.PageTable.Insert.{pte2page_ok}
use nku_os_ucore.PageTable.Mapping.{Space, mapping, old_entry}
use nku_os_ucore.PageTable.Space.{page_insert-Inserted}

next_table-table :
    (f i : ℕ) (s : Machine) (g : ℕ) (role : ℕ → Role)
    → Tables s g role
    → has_tables (role f) ≡ true
    → maps_memory (s.entry f i) ≡ false
    → next_table false f i s ≡ ok (table s.entry f i, s)
unfolding next_table
next_table-table f i s g role t h k = elim (Bool-cases (valid (s.entry f i))) [
  | inl v ↦
      rw (v, k)
        (follow-some (s.entry f i) s
          (t.tables f i (frame_of (s.entry f i)) h (table_valid s.entry f i v k)).1)
  | inr v ↦ rw (v, k) refl
]

-- The entry that a walk without new tables finds.
abbrev pub Reached : ℕ → ℕ → Machine → Option (ℕ × ℕ) → Type 0
Reached g la s none = mapping s g la ≡ 0
Reached g la s (some (l, k)) =
    (k ≡ ptx la)
    × (m : ℕ) × (table s.entry g (pdx1 la) ≡ some m)
    × (table s.entry m (pdx0 la) ≡ some l)

-- Without new tables, a walk leaves the machine as it is.
pub get_pte-Reached :
    (g la : ℕ) (s : Machine) (role : ℕ → Role)
    → Tables s g role
    → maps_memory (s.entry g (pdx1 la)) ≡ false
    → (x : Option (ℕ × ℕ)) × (get_pte g la false s ≡ ok (x, s)) × Reached g la s x
unfolding get_pte
get_pte-Reached g la s role t k =
    let (x, q, r) = first (table s.entry g (pdx1 la)) refl in
    (
      x,
      ap (λ r. r >>= last_table false la)
            (next_table-table g (pdx1 la) s g role t (ap has_tables t.root) k)
          ∙ q,
      r,
    )
  where
    second :
        (m : ℕ) (o : Option ℕ)
        → table s.entry g (pdx1 la) ≡ some m
        → table s.entry m (pdx0 la) ≡ o
        → Reached g la s (elim o [ none ↦ none | some l ↦ some (l, ptx la) ])
    second m none e q =
        ap (leaf_under s.entry (pdx0 la) (ptx la)) e ∙ ap (leaf_of s.entry (ptx la)) q
    second m (some l) e q = (refl, m, e, q)

    first :
        (o : Option ℕ)
        → table s.entry g (pdx1 la) ≡ o
        → (x : Option (ℕ × ℕ)) × (last_table false la (o, s) ≡ ok (x, s)) × Reached g la s x
    first none e = (none, refl, ap (leaf_under s.entry (pdx0 la) (ptx la)) e)
    first (some m) e =
        let rm =
          (t.tables g (pdx1 la) m (ap has_tables t.root) e).0
          ∙ ap (λ z. child z (pdx1 la)) t.root in
        let o = table s.entry m (pdx0 la) in
        (
          elim o [ none ↦ none | some l ↦ some (l, ptx la) ],
          ap (λ r. r >>= λ r. ok (elim r.0 [ none ↦ none | some l ↦ some (l, ptx la) ], r.1))
              (next_table-table m (pdx0 la) s g role t (ap has_tables rm)
                (t.plain m (pdx1 la) (pdx0 la) rm)),
          second m o e refl,
        )

-- The page of the mapping is found, if there is one.
pub get_page-mapping :
    (g la : ℕ) (s : Machine) (role : ℕ → Role)
    → Space s g role
    → maps_memory (s.entry g (pdx1 la)) ≡ false
    → (x : Option (ℕ × ℕ)) × (get_page g la s ≡ ok ((named (mapping s g la), x), s))
unfolding get_page
get_page-mapping g la s role sp n =
    let (x, q, r) = get_pte-Reached g la s role sp.tables n in at x q r
  where
    at :
        (x : Option (ℕ × ℕ))
        → get_pte g la false s ≡ ok (x, s)
        → Reached g la s x
        → (y : Option (ℕ × ℕ)) × (get_page g la s ≡ ok ((named (mapping s g la), y), s))
    at none q r = (none, rw (q, r) refl)
    at (some (l, k)) q (e, m, first, second) =
        let old = old_entry g la m l s first second in
        elim (Bool-cases (valid (s.entry l (ptx la)))) [
          | inr v ↦ (some (l, k), rw (q, e, v, old) (rw v refl))
          | inl v ↦ (
            some (l, k),
            rw (q, e, old)
                (rw v (
                  rw
                    (pte2page_ok (s.entry l (ptx la)) s v (
                      subst (λ z. frame_of z < s.npage) old
                        (sp.in_use (pdx1 la) (pdx0 la) (ptx la) (ap valid old ∙ v)).1))
                    refl)),
          )
        ]

-- In such a space, for an address whose entry in the root does not map memory, if `page_insert` of
-- a page in use, with flags below 2^10, returns 0, then `get_page` for the address finds this page
-- and changes nothing; else `page_insert` returns -E_NO_MEM and `alloc_page` has nothing left.
pub get_page-page_insert :
    (g la p perm : ℕ) (s : Machine) (role : ℕ → Role)
    → Space s g role
    → maps_memory (s.entry g (pdx1 la)) ≡ false
    → role p ≡ page
    → p < s.npage
    → p < 2 ^ 44
    → perm < 2 ^ 10
    → (s' : Machine) × (((page_insert g p la perm s ≡ ok (pos 0, s'))
          × (x : Option (ℕ × ℕ)) × (get_page g la s' ≡ ok ((some p, x), s')))
        ⊎ ((page_insert g p la perm s ≡ ok (e_no_mem, s')) × (s'.supply ≡ [])))
get_page-page_insert g la p perm s role sp plain o inside small flags =
    let (s', role', sp', pages, roots, r) =
      page_insert-Inserted g la p perm s role sp plain o inside small flags in
    (
      s',
      elim r [
        | inr (q, refused) ↦ inr (q, refused.supply)
        | inl (q, mapped) ↦
            let (x, found) = get_page-mapping g la s' role' sp' (roots.plain (pdx1 la) plain) in
            inl (q, x, found ∙ ap (λ o. ok ((o, x), s')) (ap named mapped.here ∙ new_name))
      ],
    )
  where
    new_name : named (pte_create p perm) ≡ some p
    new_name = rw (pte_create-valid p perm) (ap some (frame_of-pte_create p perm small flags))
