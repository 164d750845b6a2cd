-- ===== src/PageTable/Put.antt =====
-- A write to the last tables of lab3/kern/mm/pmm.c is a write to the map from pages to entries.
use nku_os_ucore.Common.{
  ℕ, ◌≡◌, ◌≢◌, refl, sym, ap, ◌∙◌, subst, true, inl, inr, Option, none, some, ℕ_discrete, ◌⊎◌, All,
  ◌<◌,
}
use nku_os_ucore.Common.Distinct.{Distinct}
use nku_os_ucore.PageTable.{Machine, put_entry}
use nku_os_ucore.PageTable.Entries.{put_entry_self, put_entry_frame, put_entry_index}
use nku_os_ucore.PageTable.Invariant.{
  Role, mid, low, child, has_tables, table, linked, maps_memory, leaf, leaf_of, leaf_under, Tables,
  IsFree,
}

-- Another page: one of its three indices is another.
abbrev pub Elsewhere : ℕ → ℕ → ℕ → ℕ → ℕ → ℕ → Type 0
Elsewhere i j k i' j' k' = (i' ≢ i) ⊎ (j' ≢ j) ⊎ (k' ≢ k)

abbrev first_index : Role → ℕ
first_index r = elim r [ low i j ↦ i | rest ↦ 0 ]

abbrev second_index : Role → ℕ
second_index r = elim r [ low i j ↦ j | rest ↦ 0 ]

module _ (s : Machine) (g : ℕ) (role : ℕ → Role) (t : Tables s g role) (i j m l k v : ℕ)
    (first : table s.entry g i ≡ some m) (second : table s.entry m j ≡ some l) where
  mid_role : (i m : ℕ) → table s.entry g i ≡ some m → role m ≡ mid i
  mid_role i m e = (t.tables g i m (ap has_tables t.root) e).0 ∙ ap (λ z. child z i) t.root

  low_role :
      (i m j l : ℕ) → table s.entry g i ≡ some m → table s.entry m j ≡ some l → role l ≡ low i j
  low_role i m j l e q =
      (t.tables m j l (ap has_tables (mid_role i m e)) q).0 ∙ ap (λ z. child z j) (mid_role i m e)

  -- The tables above are not written.
  table_put :
      (f x : ℕ)
      → has_tables (role f) ≡ true
      → table (put_entry s.entry l k v) f x ≡ table s.entry f x
  table_put f x h = ap linked (
      put_entry_frame s.entry l k v f x (λ e.
        cc (
          sym h ∙ ap (λ z. has_tables (role z)) e ∙ ap has_tables (low_role i m j l first second))))

  pub root_put : (x : ℕ) → put_entry s.entry l k v g x ≡ s.entry g x
  root_put x = put_entry_frame s.entry l k v g x (λ e. cc (
      sym (ap has_tables t.root)
      ∙ ap (λ z. has_tables (role z)) e
      ∙ ap has_tables (low_role i m j l first second)))

  pub leaf-put_here : leaf (put_entry s.entry l k v) g i j k ≡ v
  leaf-put_here =
      ap (leaf_under (put_entry s.entry l k v) j k) (table_put g i (ap has_tables t.root) ∙ first)
      ∙ ap (leaf_of (put_entry s.entry l k v) k)
          (table_put m j (ap has_tables (mid_role i m first)) ∙ second)
      ∙ put_entry_self s.entry l k v

  entry_put :
      (i' m' j' k' : ℕ) (o : Option ℕ)
      → Elsewhere i j k i' j' k'
      → table s.entry g i' ≡ some m'
      → table s.entry m' j' ≡ o
      → leaf_of (put_entry s.entry l k v) k' o ≡ leaf_of s.entry k' o
  entry_put i' m' j' k' none w e q = refl
  entry_put i' m' j' k' (some l') w e q = elim (ℕ_discrete l' l) [
    | no n ↦ put_entry_frame s.entry l k v l' k' n
    | yes z ↦
        let roles = sym (low_role i' m' j' l' e q) ∙ ap role z ∙ low_role i m j l first second in
        put_entry_index s.entry l k v l' k'
          (not_here w (ap first_index roles) (ap second_index roles))
  ]
    where
      not_here : Elsewhere i j k i' j' k' → i' ≡ i → j' ≡ j → k' ≢ k
      not_here (inl a) p q = absurd (a p)
      not_here (inr (inl a)) p q = absurd (a q)
      not_here (inr (inr a)) p q = a

  under_put :
      (i' j' k' : ℕ) (o : Option ℕ)
      → Elsewhere i j k i' j' k'
      → table s.entry g i' ≡ o
      → leaf_under (put_entry s.entry l k v) j' k' o ≡ leaf_under s.entry j' k' o
  under_put i' j' k' none w e = refl
  under_put i' j' k' (some m') w e =
      ap (leaf_of (put_entry s.entry l k v) k') (table_put m' j' (ap has_tables (mid_role i' m' e)))
      ∙ entry_put i' m' j' k' (table s.entry m' j') w e refl

  pub leaf-put_apart :
      (i' j' k' : ℕ)
      → Elsewhere i j k i' j' k'
      → leaf (put_entry s.entry l k v) g i' j' k' ≡ leaf s.entry g i' j' k'
  leaf-put_apart i' j' k' w =
      ap (leaf_under (put_entry s.entry l k v) j' k') (table_put g i' (ap has_tables t.root))
      ∙ under_put i' j' k' (table s.entry g i') w refl

  -- A write to a last table keeps the tree of tables.
  pub Tables-put :
      (s' : Machine)
      → s'.entry ≡ put_entry s.entry l k v
      → s'.npage ≡ s.npage
      → s'.supply ≡ s.supply
      → Tables s' g role
  Tables-put s' e n p = record {
    root = t.root;
    tables = λ f x y h q. (
      (t.tables f x y h (sym (table_put f x h) ∙ sym (ap (λ z. table z f x) e) ∙ q)).0,
      subst (λ z. y < z) (sym n)
          (t.tables f x y h (sym (table_put f x h) ∙ sym (ap (λ z. table z f x) e) ∙ q)).1,
    );
    plain = λ f a x r.
        ap (λ z. maps_memory (z f x)) e
        ∙ ap maps_memory (
            put_entry_frame s.entry l k v f x
              (λ q. cc (sym r ∙ ap role q ∙ low_role i m j l first second)))
        ∙ t.plain f a x r;
    free =
        subst (λ z. All (IsFree z role) s'.supply) (sym n)
          (subst (All (IsFree s.npage role)) (sym p) t.free);
    once = subst Distinct (sym p) t.once;
  }
