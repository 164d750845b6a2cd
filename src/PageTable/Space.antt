-- ===== src/PageTable/Space.antt =====
-- The address space that the page tables of lab3/kern/mm/pmm.c stand for, under page_insert.
use nku_os_ucore.Common.{
  ℕ, ◌+◌, ◌^◌, ◌≤◌, ◌<◌, ◌≡◌, refl, sym, ap, ◌∙◌, subst, true, false, Bool-cases, inl, inr, arith,
  Option, none, some, List, [], Outcome, ok, ◌>>=◌, ℤ, pos, ◌⊎◌,
}
use nku_os_ucore.PageTable.{
  Machine, valid, frame_of, pte_create, pdx1, pdx0, ptx, put_entry, get_pte, page_ref_inc,
  tlb_invalidate, unmap_old, page_insert, e_no_mem,
}
use nku_os_ucore.PageTable.Invariant.{Role, page, maps_memory, named, leaf, some-eq}
use nku_os_ucore.PageTable.Walk.{Stepped}
use nku_os_ucore.PageTable.Step.{Found, get_pte-Got}
use nku_os_ucore.PageTable.Put.{Elsewhere}
use nku_os_ucore.PageTable.Insert.{refs_after, freed_after, unmap_old-Unmapped}
use nku_os_ucore.PageTable.Mapping.{
  Space, mapping, Stepped-Space, stored, stored_here, stored_root, stored_apart, stored-Space,
  old_entry,
}

-- The page `p` has the mapping for the address `la`; the other mappings are the old ones.
pub record Mapped (s s' : Machine) (g la p perm : ℕ) (role : ℕ → Role) : Type 0 where
  pub here : mapping s' g la ≡ pte_create p perm
  pub elsewhere :
      (i j k : ℕ)
      → Elsewhere (pdx1 la) (pdx0 la) (ptx la) i j k
      → leaf s'.entry g i j k ≡ leaf s.entry g i j k
  pub refs : (x : ℕ) → role x ≡ page → s'.ref x ≡ refs_after (named (mapping s g la)) p s.ref x
  pub freed : s'.freed ≡ freed_after (named (mapping s g la)) p s.ref s.freed
  pub flushed : s.flushes < s'.flushes

-- There was no frame for a table.
pub record Refused (s s' : Machine) (g : ℕ) (role : ℕ → Role) : Type 0 where
  pub supply : s'.supply ≡ []
  pub leaves : (i j k : ℕ) → leaf s'.entry g i j k ≡ leaf s.entry g i j k
  pub refs : (x : ℕ) → role x ≡ page → s'.ref x ≡ s.ref x
  pub freed : s'.freed ≡ s.freed

-- The entries of the root that map memory stay, and no other one becomes such an entry.
pub record Roots (s s' : Machine) (g : ℕ) : Type 0 where
  pub plain : (i : ℕ) → maps_memory (s.entry g i) ≡ false → maps_memory (s'.entry g i) ≡ false
  pub whole : (i : ℕ) → maps_memory (s.entry g i) ≡ true → s'.entry g i ≡ s.entry g i

abbrev pub Inserted : ℕ → ℕ → ℕ → ℕ → Machine → (ℕ → Role) → Outcome (ℤ × Machine) → Type 0
Inserted g p la perm s role r =
    (s' : Machine) × (role' : ℕ → Role) × Space s' g role'
    × ((x : ℕ) → role x ≡ page → role' x ≡ page)
    × Roots s s' g
    × (((r ≡ ok (pos 0, s')) × Mapped s s' g la p perm role)
        ⊎ ((r ≡ ok (e_no_mem, s')) × Refused s s' g role))

refs_after_cong :
    (o : Option ℕ) (p : ℕ) (r r' : ℕ → ℕ) (x : ℕ)
    → r p ≡ r' p
    → ((q : ℕ) → o ≡ some q → r q ≡ r' q)
    → r x ≡ r' x
    → refs_after o p r x ≡ refs_after o p r' x
refs_after_cong none p r r' x e f h = rw (e, h) refl
refs_after_cong (some q) p r r' x e f h = rw (e, f q refl, h) refl

freed_after_cong :
    (o : Option ℕ) (p : ℕ) (r r' : ℕ → ℕ) (fs : List ℕ)
    → r p ≡ r' p
    → ((q : ℕ) → o ≡ some q → r q ≡ r' q)
    → freed_after o p r fs ≡ freed_after o p r' fs
freed_after_cong none p r r' fs e f = refl
freed_after_cong (some q) p r r' fs e f = rw (e, f q refl) refl

-- The page of an old mapping.
named_in_use :
    (role : ℕ → Role) (n e q : ℕ)
    → (valid e ≡ true → (role (frame_of e) ≡ page) × (frame_of e < n))
    → named e ≡ some q
    → role q ≡ page
named_in_use role n e q h k = elim (Bool-cases (valid e)) [
  | inl v ↦ subst (λ z. role z ≡ page) (is_named v) (h v).0
  | inr v ↦ absurd (cc (sym k ∙ is_none v))
]
  where
    is_some : valid e ≡ true → named e ≡ some (frame_of e)
    is_some v = rw v refl

    is_none : valid e ≡ false → named e ≡ none
    is_none v = rw v refl

    is_named : valid e ≡ true → frame_of e ≡ q
    is_named v = some-eq (frame_of e) q (sym (is_some v) ∙ k)

later : (a b c : ℕ) → b ≡ a → b ≤ c → a < c + 1
later a b c e h = omega arith

-- The end of `page_insert`.
abbrev store : ℕ → ℕ → ℕ → ℕ → Machine → Outcome (ℤ × Machine)
store l k p perm s =
    ok (
      pos 0,
      record s { entry = put_entry s.entry l k (pte_create p perm); flushes = s.flushes + 1 },
    )

-- `page_insert` behind a walk that found the table.
insert_found :
    (g la p perm l : ℕ) (s s1 : Machine) (role role1 : ℕ → Role)
    → Space s g role
    → role p ≡ page
    → p < s.npage
    → p < 2 ^ 44
    → perm < 2 ^ 10
    → Stepped s s1 g role role1
    → Found true g la s1 role1 (some (l, ptx la))
    → (s' : Machine) × (role' : ℕ → Role) × Space s' g role'
      × ((x : ℕ) → role x ≡ page → role' x ≡ page)
      × Roots s s' g
      × ((unmap_old l (ptx la) p (page_ref_inc p s1) >>= store l (ptx la) p perm) ≡ ok (pos 0, s'))
      × Mapped s s' g la p perm role
insert_found g la p perm l s s1 role role1 sp o inside small flags st (k, m, first, second) =
    let sp1 = Stepped-Space s s1 g role role1 sp st in
    let e1 = old_entry g la m l s1 first second in
    let e0 = sym (st.leaves (pdx1 la) (pdx0 la) (ptx la)) ∙ e1 in
    let old_page = named_in_use role s.npage (mapping s g la) in
    let (s2, q, u) = unmap_old-Unmapped l (ptx la) p s1 (λ v.
      subst (λ z. frame_of z < s1.npage) e1
        (sp1.in_use (pdx1 la) (pdx0 la) (ptx la) (ap valid e1 ∙ v)).1) in
    let use1 = st.pages p o in
    let in1 = subst (λ z. p < z) (sym st.npage) inside in
    let root = stored_root g la p perm l m s1 s2 role1 sp1 use1 in1 small flags first second u in
    let same : (q : ℕ) → named (mapping s g la) ≡ some q → s1.ref q ≡ s.ref q =
      λ q n. st.refs q (old_page q (sp.in_use (pdx1 la) (pdx0 la) (ptx la)) n) in
    (
      stored g la p perm l m s1 s2 role1 sp1 use1 in1 small flags first second u,
      role1,
      stored-Space g la p perm l m s1 s2 role1 sp1 use1 in1 small flags first second u,
      st.pages,
      record {
        plain = λ i h. ap maps_memory (root i) ∙ st.plain i h;
        whole = λ i h. root i ∙ st.whole i h;
      },
      ap (λ r. r >>= store l (ptx la) p perm) q,
      record {
        here = stored_here g la p perm l m s1 s2 role1 sp1 use1 in1 small flags first second u;
        elsewhere = λ i j k w.
            stored_apart g la p perm l m s1 s2 role1 sp1 use1 in1 small flags first second u i j k w
            ∙ st.leaves i j k;
        refs = λ x h.
            u.ref x
            ∙ ap (λ z. refs_after (named z) p s1.ref x) (sym e0)
            ∙ refs_after_cong (named (mapping s g la)) p s1.ref s.ref x (st.refs p o) same
                (st.refs x h);
        freed =
            u.freed
            ∙ ap (λ z. freed_after (named z) p s1.ref s1.freed) (sym e0)
            ∙ freed_after_cong (named (mapping s g la)) p s1.ref s.ref s1.freed (st.refs p o) same
            ∙ ap (freed_after (named (mapping s g la)) p s.ref) st.freed;
        flushed = later s.flushes s1.flushes s2.flushes st.flushes u.flushes;
      },
    )

-- Let the root `g` hold a tree of page tables in which each table is named by one entry (entries
-- of the root may map 1 GiB of memory and lead to no table, as the last one of
-- `boot_page_table_sv39`), and let every page that has a mapping in these tables be in use and
-- every frame that `alloc_page` may return be unused (`Space`). Let the root's entry for the
-- address not be one that maps memory. For a page `p` in use and below `npage`, with flags below
-- 2^10, `page_insert` fails no assertion, a `Space` is left, and the entries of the root that map
-- memory stay. Either it returns 0: then the address has the entry of the page, all other mappings
-- are the old ones, the reference counts are those after one more reference to `p` and one less to
-- the page that had the address before, which is freed if it is another page without references
-- now, and the translation buffer has been flushed. Or it returns -E_NO_MEM: then `alloc_page` has
-- nothing left, and all mappings, the reference counts of the pages in use and the freed pages are
-- the old ones.
pub page_insert-Inserted :
    (g la p perm : ℕ) (s : Machine) (role : ℕ → Role)
    → Space s g role
    → maps_memory (s.entry g (pdx1 la)) ≡ false
    → role p ≡ page
    → p < s.npage
    → p < 2 ^ 44
    → perm < 2 ^ 10
    → Inserted g p la perm s role (page_insert g p la perm s)
unfolding page_insert tlb_invalidate
page_insert-Inserted g la p perm s role sp plain o inside small flags =
    let (x, s1, role1, q, st, found) = get_pte-Got true g la s role sp.tables plain in
    after x s1 role1 q st found
  where
    after :
        (x : Option (ℕ × ℕ)) (s1 : Machine) (role1 : ℕ → Role)
        → get_pte g la true s ≡ ok (x, s1)
        → Stepped s s1 g role role1
        → Found true g la s1 role1 x
        → Inserted g p la perm s role (page_insert g p la perm s)
    after none s1 role1 q st (empty, zeros) = (
      s1,
      role1,
      Stepped-Space s s1 g role role1 sp st,
      st.pages,
      record { plain = st.plain; whole = st.whole },
      inr (
        rw q refl,
        record { supply = empty; leaves = st.leaves; refs = st.refs; freed = st.freed },
      ),
    )
    after (some (l, k)) s1 role1 q st (e, m, first, second) =
        let (s', role', sp', pages, roots, r, mapped) =
          insert_found g la p perm l s s1 role role1 sp o inside small flags st
            (refl, m, first, second) in
        (s', role', sp', pages, roots, inl (rw (q, e) r, mapped))
