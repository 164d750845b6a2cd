-- ===== src/PageTable/Mapping.antt =====
-- The map from addresses to entries behind the new entry of page_insert of lab3/kern/mm/pmm.c.
use nku_os_ucore.Common.{
  ℕ, ◌+◌, ◌^◌, ◌<◌, ◌≡◌, sym, ap, ◌∙◌, fun_ext, subst, true, inl, inr, some, ℕ_discrete, ◌⊎◌,
}
use nku_os_ucore.PageTable.{Machine, valid, frame_of, pte_create, pdx1, pdx0, ptx, put_entry}
use nku_os_ucore.PageTable.Entries.{frame_of-pte_create}
use nku_os_ucore.PageTable.Invariant.{Role, page, table, leaf, leaf_of, leaf_under, Tables}
use nku_os_ucore.PageTable.Walk.{Stepped}
use nku_os_ucore.PageTable.Put.{root_put, Elsewhere, leaf-put_here, leaf-put_apart, Tables-put}
use nku_os_ucore.PageTable.Insert.{Unmapped}

pub where_is : (i j k i' j' k' : ℕ) → Elsewhere i j k i' j' k' ⊎ ((i' ≡ i) × (j' ≡ j) × (k' ≡ k))
where_is i j k i' j' k' = elim (ℕ_discrete i' i) [
  | no n ↦ inl (inl n)
  | yes a ↦ elim (ℕ_discrete j' j) [
    | no n ↦ inl (inr (inl n))
    | yes b ↦ elim (ℕ_discrete k' k) [ no n ↦ inl (inr (inr n)) | yes c ↦ inr (a, b, c) ]
  ]
]

-- Every page that has a mapping is a page in use.
pub record Space (s : Machine) (g : ℕ) (role : ℕ → Role) : Type 0 where
  pub tables : Tables s g role
  pub in_use :
      (i j k : ℕ)
      → valid (leaf s.entry g i j k) ≡ true
      → (role (frame_of (leaf s.entry g i j k)) ≡ page)
        × (frame_of (leaf s.entry g i j k) < s.npage)

abbrev pub mapping : Machine → ℕ → ℕ → ℕ
mapping s g la = leaf s.entry g (pdx1 la) (pdx0 la) (ptx la)

pub lt_both : {a b c d : ℕ} → a ≡ c → b ≡ d → a < b → c < d
lt_both {a = a} {d = d} p q h = subst (λ z. z < d) p (subst (λ z. a < z) q h)

pub Stepped-Space :
    (s s' : Machine) (g : ℕ) (role role' : ℕ → Role)
    → Space s g role
    → Stepped s s' g role role'
    → Space s' g role'
Stepped-Space s s' g role role' sp st = record {
  tables = st.tables;
  in_use = λ i j k v.
      let e = st.leaves i j k in
      let (a, b) = sp.in_use i j k (ap valid (sym e) ∙ v) in
      (
        ap (λ z. role' (frame_of z)) e ∙ st.pages (frame_of (leaf s.entry g i j k)) a,
        lt_both (ap frame_of (sym e)) (sym st.npage) b,
      );
}

module _ (g la p perm l m : ℕ) (s s2 : Machine) (role : ℕ → Role) (sp : Space s g role)
    (in_use : role p ≡ page) (inside : p < s.npage) (small : p < 2 ^ 44) (flags : perm < 2 ^ 10)
    (first : table s.entry g (pdx1 la) ≡ some m) (second : table s.entry m (pdx0 la) ≡ some l)
    (u : Unmapped s s2 l (ptx la) p) where
  -- The machine with the new entry.
  abbrev pub stored : Machine
  stored = record s2 {
    entry = put_entry s2.entry l (ptx la) (pte_create p perm);
    flushes = s2.flushes + 1;
  }

  stored_entry : stored.entry ≡ put_entry s.entry l (ptx la) (pte_create p perm)
  stored_entry = fun_ext (λ f. fun_ext (λ i. u.entry (pte_create p perm) f i))

  pub stored_root : (i : ℕ) → stored.entry g i ≡ s.entry g i
  stored_root i =
      ap (λ z. z g i) stored_entry
      ∙ root_put s g role sp.tables (pdx1 la) (pdx0 la) m l (ptx la) (pte_create p perm) first
          second i

  pub stored_here : mapping stored g la ≡ pte_create p perm
  stored_here =
      ap (λ z. leaf z g (pdx1 la) (pdx0 la) (ptx la)) stored_entry
      ∙ leaf-put_here s g role sp.tables (pdx1 la) (pdx0 la) m l (ptx la) (pte_create p perm) first
          second

  pub stored_apart :
      (i j k : ℕ)
      → Elsewhere (pdx1 la) (pdx0 la) (ptx la) i j k
      → leaf stored.entry g i j k ≡ leaf s.entry g i j k
  stored_apart i j k w =
      ap (λ z. leaf z g i j k) stored_entry
      ∙ leaf-put_apart s g role sp.tables (pdx1 la) (pdx0 la) m l (ptx la) (pte_create p perm) first
          second i j k w

  new_in_use :
      (e : ℕ) → e ≡ pte_create p perm → (role (frame_of e) ≡ page) × (frame_of e < stored.npage)
  new_in_use e q =
      let f : frame_of e ≡ p = ap frame_of q ∙ frame_of-pte_create p perm small flags in
      (
        ap role f ∙ in_use,
        subst (λ a. a < s2.npage) (sym f) (subst (λ b. p < b) (sym u.npage) inside),
      )

  kept_in_use :
      (i j k : ℕ)
      → Elsewhere (pdx1 la) (pdx0 la) (ptx la) i j k
      → valid (leaf stored.entry g i j k) ≡ true
      → (role (frame_of (leaf stored.entry g i j k)) ≡ page)
        × (frame_of (leaf stored.entry g i j k) < stored.npage)
  kept_in_use i j k w v =
      let e = stored_apart i j k w in
      let (a, b) = sp.in_use i j k (ap valid (sym e) ∙ v) in
      (ap (λ z. role (frame_of z)) e ∙ a, lt_both (ap frame_of (sym e)) (sym u.npage) b)

  at_place :
      (i j k : ℕ)
      → i ≡ pdx1 la
      → j ≡ pdx0 la
      → k ≡ ptx la
      → leaf stored.entry g i j k ≡ pte_create p perm
  at_place i j k a b c =
      ap (λ z. leaf stored.entry g z j k) a
      ∙ ap (λ z. leaf stored.entry g (pdx1 la) z k) b
      ∙ ap (leaf stored.entry g (pdx1 la) (pdx0 la)) c
      ∙ stored_here

  pub stored-Space : Space stored g role
  stored-Space = record {
    tables =
        Tables-put s g role sp.tables (pdx1 la) (pdx0 la) m l (ptx la) (pte_create p perm) first
          second stored stored_entry u.npage u.supply;
    in_use = λ i j k v. elim (where_is (pdx1 la) (pdx0 la) (ptx la) i j k) [
      | inl w ↦ kept_in_use i j k w v
      | inr (a, b, c) ↦ new_in_use (leaf stored.entry g i j k) (at_place i j k a b c)
    ];
  }

pub old_entry :
    (g la m l : ℕ) (s : Machine)
    → table s.entry g (pdx1 la) ≡ some m
    → table s.entry m (pdx0 la) ≡ some l
    → mapping s g la ≡ s.entry l (ptx la)
old_entry g la m l s first second =
    ap (leaf_under s.entry (pdx0 la) (ptx la)) first ∙ ap (leaf_of s.entry (ptx la)) second
