-- ===== src/PageTable/Grown.antt =====
-- The entries and the map from addresses to them when get_pte of lab3/kern/mm/pmm.c makes a table.
use nku_os_ucore.Common.{
  ℕ, ◌^◌, ◌<◌, ◌≡◌, ◌⊎◌, refl, sym, ap, ◌∙◌, true, false, inl, inr, Option, none, some, ℕ_discrete,
}
use nku_os_ucore.PageTable.{Machine, pte_create, clear_frame}
use nku_os_ucore.PageTable.Entries.{clear_frame_self, put_entry_frame}
use nku_os_ucore.PageTable.Invariant.{
  Role, mid, low, other, child, has_tables, table, linked, maps_memory, leaf, leaf_under, leaf_of,
  IsFree, Tables, grown, by_role, grown_at, grown_new, grown_entry, grown_index,
}

-- An entry of a table when a new table is made: it is as before, or it was empty and names this.
pub entry_cases :
    (m : ℕ → ℕ → ℕ) (role : ℕ → Role) (f i p x j : ℕ)
    → role p ≡ other
    → p < 2 ^ 44
    → has_tables (role f) ≡ true
    → has_tables (role x) ≡ true
    → table m f i ≡ none
    → (grown m f i p x j ≡ m x j) ⊎ ((table m x j ≡ none) × (table (grown m f i p) x j ≡ some p))
entry_cases m role f i p x j o small hf hx e =
    let fp = by_role role f p hf o in
    let xp = by_role role x p hx o in
    elim (ℕ_discrete x f) [
      | no nf ↦ inl (grown_entry m f i p fp x j nf xp)
      | yes q ↦ elim (ℕ_discrete j i) [
        | no ni ↦
            inl (
              ap (λ z. grown m f i p z j) q ∙ grown_index m f i p fp j ni ∙ ap (λ z. m z j) (sym q))
        | yes k ↦ inr (
          ap (λ z. table m z j) q ∙ ap (λ z. table m f z) k ∙ e,
          ap (λ z. table (grown m f i p) z j) q
              ∙ ap (λ z. table (grown m f i p) f z) k
              ∙ grown_at m f i p fp small,
        )
      ]
    ]

module _ (s : Machine) (g : ℕ) (role : ℕ → Role) (t : Tables s g role) (f i p : ℕ)
    (free : IsFree s.npage role p) (hf : has_tables (role f) ≡ true)
    (e : table s.entry f i ≡ none) where
  new : ℕ → ℕ → ℕ
  new = grown s.entry f i p

  leaf_of_same :
      (m j k : ℕ)
      → role m ≡ mid j
      → (i' : ℕ) → (o : Option ℕ) → table s.entry m i' ≡ o
      → leaf_of new k o ≡ leaf_of s.entry k o
  unfolding new
  leaf_of_same m j k r i' none q = refl
  leaf_of_same m j k r i' (some l) q =
      let (rl, b) = t.tables m i' l (ap has_tables r) q in
      let low_role : role l ≡ low j i' = rl ∙ ap (λ z. child z i') r in
      grown_entry s.entry f i p (by_role role f p hf free.unused) l k
        (λ z. cc (sym hf ∙ ap (λ x. has_tables (role x)) (sym z) ∙ ap has_tables low_role))
        (λ z. cc (sym low_role ∙ ap role z ∙ free.unused))

  leaf_under_same :
      (i' j k : ℕ) (o : Option ℕ)
      → table s.entry g i' ≡ o
      → leaf_under new j k o ≡ leaf_under s.entry j k o
  unfolding new
  leaf_under_same i' j k none q = refl
  leaf_under_same i' j k (some m) q =
      let r : role m ≡ mid i' =
        (t.tables g i' m (ap has_tables t.root) q).0 ∙ ap (λ z. child z i') t.root in
      elim (entry_cases s.entry role f i p m j free.unused free.small hf (ap has_tables r) e) [
        | inl same ↦
            ap (λ z. leaf_of new k (linked z)) same
            ∙ leaf_of_same m i' k r j (table s.entry m j) refl
        | inr (old, now) ↦
            ap (leaf_of new k) now
            ∙ (put_entry_frame (clear_frame s.entry p) f i (pte_create p 17) p k
                  (λ z. by_role role f p hf free.unused (sym z))
                ∙ clear_frame_self s.entry p k)
            ∙ sym (ap (leaf_of s.entry k) old)
      ]

  pub leaf-grown : (i' j k : ℕ) → leaf (grown s.entry f i p) g i' j k ≡ leaf s.entry g i' j k
  unfolding new
  leaf-grown i' j k =
      elim (entry_cases s.entry role f i p g i' free.unused free.small hf (ap has_tables t.root)
        e) [
          | inl same ↦
              ap (λ z. leaf_under new j k (linked z)) same
              ∙ leaf_under_same i' j k (table s.entry g i') refl
          | inr (old, now) ↦
              ap (leaf_under new j k) now
              ∙ ap (leaf_of new k) (grown_new s.entry f i p (by_role role f p hf free.unused) j)
              ∙ sym (ap (leaf_under s.entry j k) old)
        ]

-- An entry that maps memory stays, as a new table is for another entry.
pub grown_whole :
    (m : ℕ → ℕ → ℕ) (role : ℕ → Role) (f i p x j : ℕ)
    → role p ≡ other
    → has_tables (role f) ≡ true
    → has_tables (role x) ≡ true
    → maps_memory (m f i) ≡ false
    → maps_memory (m x j) ≡ true
    → grown m f i p x j ≡ m x j
grown_whole m role f i p x j o hf hx k w =
    let fp = by_role role f p hf o in
    elim (ℕ_discrete x f) [
      | no nf ↦ grown_entry m f i p fp x j nf (by_role role x p hx o)
      | yes q ↦ elim (ℕ_discrete j i) [
        | no ni ↦
            ap (λ z. grown m f i p z j) q ∙ grown_index m f i p fp j ni ∙ ap (λ z. m z j) (sym q)
        | yes r ↦ absurd (
            cc
              (sym k ∙ sym (ap (λ z. maps_memory (m z j)) q ∙ ap (λ z. maps_memory (m f z)) r) ∙ w))
      ]
    ]
