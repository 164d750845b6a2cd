-- ===== src/PageTable/Taken.antt =====
-- The page that alloc_page returned to pgdir_alloc_page of lab3/kern/mm/pmm.c.
use nku_os_ucore.Common.{
  ℕ, ◌+◌, ◌≡◌, ◌≢◌, sym, ap, ◌∙◌, subst, ℕ_discrete, true, Bool-cases, inl, inr, arith, some, List,
  ◌∷◌, All, u32,
}
use nku_os_ucore.Common.Distinct.{Distinct}
use nku_os_ucore.PageTable.{Machine, valid, frame_of, pdx1, pdx0, ptx, put_ref}
use nku_os_ucore.PageTable.Invariant.{
  Role, mid, page, child, has_tables, named, leaf, IsFree, Tables, give, give_self, give_other,
  give_tables, still_unused, child_not_other,
}
use nku_os_ucore.PageTable.Insert.{refs_after}
use nku_os_ucore.PageTable.Mapping.{Space, mapping}

-- The machine behind `alloc_page` that returned the first page.
abbrev pub taken : Machine → List ℕ → Machine
taken s rest = record s { supply = rest }

module _ (g p : ℕ) (rest : List ℕ) (s : Machine) (role : ℕ → Role) (sp : Space s g role)
    (e : s.supply ≡ p ∷ rest) where
  pub p-IsFree : IsFree s.npage role p
  p-IsFree = (subst (All (IsFree s.npage role)) e sp.tables.free).0

  -- A frame that a table names is not the page.
  not_taken : (f i l : ℕ) → has_tables (role f) ≡ true → role l ≡ child (role f) i → l ≢ p
  not_taken f i l h r q = child_not_other (role f) i h (sym r ∙ ap role q ∙ p-IsFree.unused)

  was_table : (f : ℕ) → has_tables (give role p page f) ≡ true → has_tables (role f) ≡ true
  was_table f h = elim (ℕ_discrete f p) [
    | yes q ↦ absurd (
        cc (
          sym h
          ∙ ap (λ z. has_tables (give role p page z)) q
          ∙ ap has_tables (give_self role p page)))
    | no n ↦ ap has_tables (sym (give_other role p page f n)) ∙ h
  ]

  was_mid : (f a : ℕ) → give role p page f ≡ mid a → role f ≡ mid a
  was_mid f a r = elim (ℕ_discrete f p) [
    | yes q ↦ absurd (cc (sym r ∙ ap (give role p page) q ∙ give_self role p page))
    | no n ↦ sym (give_other role p page f n) ∙ r
  ]

  taken-Tables : Tables (taken s rest) g (give role p page)
  taken-Tables = record {
    root =
        give_tables role p page g (ap has_tables sp.tables.root) p-IsFree.unused ∙ sp.tables.root;
    tables = λ f i l h q.
        let k = was_table f h in
        let (r, b) = sp.tables.tables f i l k q in
        (
          give_other role p page l (not_taken f i l k r)
              ∙ r
              ∙ ap (λ z. child z i) (sym (give_tables role p page f k p-IsFree.unused)),
          b,
        );
    plain = λ f a x r. sp.tables.plain f a x (was_mid f a r);
    free =
        still_unused s.npage role p page rest (subst Distinct e sp.tables.once).0
          (subst (All (IsFree s.npage role)) e sp.tables.free).1;
    once = (subst Distinct e sp.tables.once).1;
  }

  page_not_taken : (x : ℕ) → role x ≡ page → x ≢ p
  page_not_taken x h q = cc (sym h ∙ ap role q ∙ p-IsFree.unused)

  pub taken-Space : Space (taken s rest) g (give role p page)
  taken-Space = record {
    tables = taken-Tables;
    in_use = λ i j k v.
        let (a, b) = sp.in_use i j k v in
        (
          give_other role p page (frame_of (leaf s.entry g i j k))
                (page_not_taken (frame_of (leaf s.entry g i j k)) a)
              ∙ a,
          b,
        );
  }

  -- The references of the page behind `page_insert`.
  pub one_reference : (la : ℕ) → s.ref p ≡ 0 → refs_after (named (mapping s g la)) p s.ref p ≡ 1
  one_reference la z = elim (Bool-cases (valid (mapping s g la))) [
    | inr v ↦ rw v first
    | inl v ↦ rw v (
        second (frame_of (mapping s g la))
          (page_not_taken (frame_of (mapping s g la)) (sp.in_use (pdx1 la) (pdx0 la) (ptx la) v).0))
  ]
    where
      first : put_ref s.ref p (u32 (s.ref p + 1)) p ≡ 1
      first = rw z (ground arith)

      second : (q : ℕ) → q ≢ p → refs_after (some q) p s.ref p ≡ 1
      second q n = rw z (ground arith)

-- What the swap manager and `free_page` are told is no part of the address space.
pub Space-same :
    (s s' : Machine) (g : ℕ) (role : ℕ → Role)
    → s'.entry ≡ s.entry
    → s'.npage ≡ s.npage
    → s'.supply ≡ s.supply
    → Space s g role
    → Space s' g role
Space-same s s' g role e n p sp =
    subst (λ o. Space (record s' { supply = o }) g role) (sym p)
      (subst (λ m. Space (record s' { supply = s.supply; npage = m }) g role) (sym n)
        (subst (λ f. Space (record s' { supply = s.supply; npage = s.npage; entry = f }) g role)
          (sym e) (copy sp)))
  where
    copy :
        Space s g role
        → Space (record s' { supply = s.supply; npage = s.npage; entry = s.entry }) g role
    copy sp = record {
      tables = record {
        root = sp.tables.root;
        tables = sp.tables.tables;
        plain = sp.tables.plain;
        free = sp.tables.free;
        once = sp.tables.once;
      };
      in_use = sp.in_use;
    }
