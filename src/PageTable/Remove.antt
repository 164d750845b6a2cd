-- ===== src/PageTable/Remove.antt =====
-- page_remove of lab3/kern/mm/pmm.c.
use nku_os_ucore.Common.{
  ℕ, ◌+◌, ◌-◌, ◌^◌, ◌<◌, ◌≡◌, refl, sym, ap, ◌∙◌, subst, true, false, Bool-cases, ◌==◌,
  if◌then◌else◌, inl, inr, Option, none, some, List, ◌∷◌, ok, u32,
}
use nku_os_ucore.PageTable.{
  Machine, valid, frame_of, pdx1, pdx0, ptx, put_ref, get_pte, page_remove_pte, page_remove,
}
use nku_os_ucore.PageTable.Invariant.{Role, maps_memory, table, named, leaf}
use nku_os_ucore.PageTable.Put.{root_put, Elsewhere, leaf-put_here, leaf-put_apart, Tables-put}
use nku_os_ucore.PageTable.Insert.{lost, page_remove_pte-lost}
use nku_os_ucore.PageTable.Mapping.{Space, mapping, old_entry, where_is, lt_both}
use nku_os_ucore.PageTable.Lookup.{Reached, get_pte-Reached}

abbrev pub refs_removed : Option ℕ → (ℕ → ℕ) → ℕ → ℕ
refs_removed none r = r
refs_removed (some q) r = put_ref r q (u32 (r q + 2 ^ 32 - 1))

abbrev pub freed_removed : Option ℕ → (ℕ → ℕ) → List ℕ → List ℕ
freed_removed none r fs = fs
freed_removed (some q) r fs = if refs_removed (some q) r q == 0 then q ∷ fs else fs

-- The address `la` has no mapping; the other mappings are the old ones.
pub record Removed (s s' : Machine) (g la : ℕ) : Type 0 where
  pub here : named (mapping s' g la) ≡ none
  pub elsewhere :
      (i j k : ℕ)
      → Elsewhere (pdx1 la) (pdx0 la) (ptx la) i j k
      → leaf s'.entry g i j k ≡ leaf s.entry g i j k
  pub root : (i : ℕ) → s'.entry g i ≡ s.entry g i
  pub ref : s'.ref ≡ refs_removed (named (mapping s g la)) s.ref
  pub freed : s'.freed ≡ freed_removed (named (mapping s g la)) s.ref s.freed

not_removed : (l k : ℕ) (s : Machine) → valid (s.entry l k) ≡ false → page_remove_pte l k s ≡ ok s
unfolding page_remove_pte
not_removed l k s v = rw v refl

-- Without a mapping there is nothing to remove.
Removed-same : (s : Machine) (g la : ℕ) → named (mapping s g la) ≡ none → Removed s s g la
Removed-same s g la n = record {
  here = n;
  elsewhere = λ i j k w. refl;
  root = λ i. refl;
  ref = ap (λ o. refs_removed o s.ref) (sym n);
  freed = ap (λ o. freed_removed o s.ref s.freed) (sym n);
}

module _ (g la l m : ℕ) (s : Machine) (role : ℕ → Role) (sp : Space s g role)
    (first : table s.entry g (pdx1 la) ≡ some m) (second : table s.entry m (pdx0 la) ≡ some l)
    (v : valid (s.entry l (ptx la)) ≡ true) where
  abbrev unmapped : Machine
  unmapped = lost l (ptx la) (frame_of (s.entry l (ptx la))) s

  unmapped_here : mapping unmapped g la ≡ 0
  unmapped_here = leaf-put_here s g role sp.tables (pdx1 la) (pdx0 la) m l (ptx la) 0 first second

  unmapped_apart :
      (i j k : ℕ)
      → Elsewhere (pdx1 la) (pdx0 la) (ptx la) i j k
      → leaf unmapped.entry g i j k ≡ leaf s.entry g i j k
  unmapped_apart i j k w =
      leaf-put_apart s g role sp.tables (pdx1 la) (pdx0 la) m l (ptx la) 0 first second i j k w

  old_named : named (mapping s g la) ≡ some (frame_of (s.entry l (ptx la)))
  old_named = rw (old_entry g la m l s first second, v) refl

  unmapped-Removed : Removed s unmapped g la
  unmapped-Removed = record {
    here = ap named unmapped_here;
    elsewhere = unmapped_apart;
    root = root_put s g role sp.tables (pdx1 la) (pdx0 la) m l (ptx la) 0 first second;
    ref = ap (λ o. refs_removed o s.ref) (sym old_named);
    freed = ap (λ o. freed_removed o s.ref s.freed) (sym old_named);
  }

  unmapped-Space : Space unmapped g role
  unmapped-Space = record {
    tables =
        Tables-put s g role sp.tables (pdx1 la) (pdx0 la) m l (ptx la) 0 first second unmapped refl
          refl refl;
    in_use = λ i j k h. elim (where_is (pdx1 la) (pdx0 la) (ptx la) i j k) [
      | inl w ↦
          let e = unmapped_apart i j k w in
          let (a, b) = sp.in_use i j k (ap valid (sym e) ∙ h) in
          (ap (λ z. role (frame_of z)) e ∙ a, lt_both (ap frame_of (sym e)) refl b)
      | inr (a, b, c) ↦ absurd (cc (sym h ∙ ap valid (gone i j k a b c)))
    ];
  }
    where
      gone : (i j k : ℕ) → i ≡ pdx1 la → j ≡ pdx0 la → k ≡ ptx la → leaf unmapped.entry g i j k ≡ 0
      gone i j k a b c =
          ap (λ z. leaf unmapped.entry g z j k) a
          ∙ ap (λ z. leaf unmapped.entry g (pdx1 la) z k) b
          ∙ ap (leaf unmapped.entry g (pdx1 la) (pdx0 la)) c
          ∙ unmapped_here

-- In such a space, for an address whose entry in the root does not map memory, `page_remove` fails
-- no assertion and leaves such a space, with the same root, in which the address has no mapping
-- and all other mappings are the old ones; if the address had a mapping, its page has one
-- reference less, and is freed when none is left.
pub page_remove-Removed :
    (g la : ℕ) (s : Machine) (role : ℕ → Role)
    → Space s g role
    → maps_memory (s.entry g (pdx1 la)) ≡ false
    → (s' : Machine) × (page_remove g la s ≡ ok s') × Removed s s' g la × Space s' g role
unfolding page_remove
page_remove-Removed g la s role sp n =
    let (x, q, r) = get_pte-Reached g la s role sp.tables n in at x q r
  where
    at :
        (x : Option (ℕ × ℕ))
        → get_pte g la false s ≡ ok (x, s)
        → Reached g la s x
        → (s' : Machine) × (page_remove g la s ≡ ok s') × Removed s s' g la × Space s' g role
    at none q r = (s, rw q refl, Removed-same s g la (ap named r), sp)
    at (some (l, k)) q (e, m, first, second) =
        let old = old_entry g la m l s first second in
        elim (Bool-cases (valid (s.entry l (ptx la)))) [
          | inr v ↦ (
            s,
            rw (q, e) (not_removed l (ptx la) s v),
            Removed-same s g la (ap named old ∙ rw v refl),
            sp,
          )
          | inl v ↦ (
            unmapped g la l m s role sp first second v,
            rw (q, e)
                (page_remove_pte-lost l (ptx la) s v (
                  subst (λ z. frame_of z < s.npage) old
                    (sp.in_use (pdx1 la) (pdx0 la) (ptx la) (ap valid old ∙ v)).1)),
            unmapped-Removed g la l m s role sp first second v,
            unmapped-Space g la l m s role sp first second v,
          )
        ]
