-- ===== src/PageTable/Fresh.antt =====
-- pgdir_alloc_page of lab3/kern/mm/pmm.c.
use nku_os_ucore.Common.{
  ℕ, ◌^◌, ◌<◌, ◌≡◌, refl, ◌∙◌, subst, Bool, true, false, if◌then◌else◌, inl, inr, Option, none,
  some, List, [], ◌∷◌, All, Outcome, ok, pos, ◌⊎◌,
}
use nku_os_ucore.PageTable.{
  Machine, pte_create, pdx1, pdx0, ptx, page_insert, e_no_mem, map_new_page, pgdir_alloc_page,
}
use nku_os_ucore.PageTable.Invariant.{maps_memory, Role, page, leaf, give, give_self}
use nku_os_ucore.PageTable.Put.{Elsewhere}
use nku_os_ucore.PageTable.Mapping.{Space, mapping}
use nku_os_ucore.PageTable.Space.{Roots, page_insert-Inserted}
use nku_os_ucore.PageTable.Taken.{taken, p-IsFree, taken-Space, one_reference, Space-same}

-- A new page with one reference has the mapping for the address `la`, and no other one changes.
pub record Fresh (s s' : Machine) (g la perm p : ℕ) (role' : ℕ → Role) : Type 0 where
  pub in_use : role' p ≡ page
  pub here : mapping s' g la ≡ pte_create p perm
  pub elsewhere :
      (i j k : ℕ)
      → Elsewhere (pdx1 la) (pdx0 la) (ptx la) i j k
      → leaf s'.entry g i j k ≡ leaf s.entry g i j k
  pub ref : s'.ref p ≡ 1

abbrev pub Allocated : ℕ → ℕ → ℕ → Machine → Outcome (Option ℕ × Machine) → Type 0
Allocated g la perm s r =
    (s' : Machine) × (role' : ℕ → Role) × Space s' g role'
    × Roots s s' g
    × (((p : ℕ) × (r ≡ ok (some p, s')) × Fresh s s' g la perm p role')
        ⊎ ((r ≡ ok (none, s'))
            × (s'.supply ≡ [])
            × ((i j k : ℕ) → leaf s'.entry g i j k ≡ leaf s.entry g i j k)))

abbrev told : Bool → ℕ → ℕ → Machine → Machine
told b p la s = if b then record s { swappable = (p, la) ∷ s.swappable } else s

map_new_page-some :
    (b : Bool) (g la perm p : ℕ) (s s' : Machine)
    → page_insert g p la perm s ≡ ok (pos 0, s')
    → s'.ref p ≡ 1
    → map_new_page b g p la perm s ≡ ok (some p, told b p la s')
unfolding map_new_page
map_new_page-some true g la perm p s s' q r = rw (q, r) refl
map_new_page-some false g la perm p s s' q r = rw q refl

map_new_page-none :
    (b : Bool) (g la perm p : ℕ) (s s' : Machine)
    → page_insert g p la perm s ≡ ok (e_no_mem, s')
    → map_new_page b g p la perm s ≡ ok (none, record s' { freed = p ∷ s'.freed })
unfolding map_new_page
map_new_page-none b g la perm p s s' q = rw q refl

Fresh-told :
    (b : Bool) (s s' : Machine) (g la perm p : ℕ) (role' : ℕ → Role)
    → Fresh s s' g la perm p role'
    → Fresh s (told b p la s') g la perm p role'
Fresh-told true s s' g la perm p role' f = record {
  in_use = f.in_use;
  here = f.here;
  elsewhere = f.elsewhere;
  ref = f.ref;
}
Fresh-told false s s' g la perm p role' f = f

Space-told :
    (b : Bool) (s : Machine) (g la p : ℕ) (role : ℕ → Role)
    → Space s g role
    → Space (told b p la s) g role
Space-told true s g la p role sp = Space-same s (told true p la s) g role refl refl refl sp
Space-told false s g la p role sp = sp

Roots-told : (b : Bool) (s s' : Machine) (g la p : ℕ) → Roots s s' g → Roots s (told b p la s') g
Roots-told true s s' g la p r = record { plain = r.plain; whole = r.whole }
Roots-told false s s' g la p r = r

map_new_page-Allocated :
    (b : Bool) (g la perm p : ℕ) (rest : List ℕ) (s : Machine) (role : ℕ → Role)
    → Space s g role
    → s.supply ≡ p ∷ rest
    → s.ref p ≡ 0
    → maps_memory (s.entry g (pdx1 la)) ≡ false
    → perm < 2 ^ 10
    → Allocated g la perm s (map_new_page b g p la perm (taken s rest))
map_new_page-Allocated b g la perm p rest s role sp e z plain flags =
    let fr = p-IsFree g p rest s role sp e in
    let used = give_self role p page in
    let (s', role', sp', pages, roots, r) =
      page_insert-Inserted g la p perm (taken s rest) (give role p page)
        (taken-Space g p rest s role sp e) plain used fr.inside fr.small flags in
    elim r [
      | inl (q, mapped) ↦
          let one = mapped.refs p used ∙ one_reference g p rest s role sp e la z in
          let fresh : Fresh s s' g la perm p role' = record {
            in_use = pages p used;
            here = mapped.here;
            elsewhere = mapped.elsewhere;
            ref = one;
          } in
          (
            told b p la s',
            role',
            Space-told b s' g la p role' sp',
            Roots-told b s s' g la p (record { plain = roots.plain; whole = roots.whole }),
            inl (
              p,
              map_new_page-some b g la perm p (taken s rest) s' q one,
              Fresh-told b s s' g la perm p role' fresh,
            ),
          )
      | inr (q, refused) ↦ (
        record s' { freed = p ∷ s'.freed },
        role',
        Space-same s' (record s' { freed = p ∷ s'.freed }) g role' refl refl refl sp',
        record { plain = roots.plain; whole = roots.whole },
        inr (map_new_page-none b g la perm p (taken s rest) s' q, refused.supply, refused.leaves),
      )
    ]

-- In such a space, where the frames that `alloc_page` may return have no references, for an
-- address whose entry in the root does not map memory and flags below 2^10, `pgdir_alloc_page`
-- fails no assertion, also not the one that the new page has one reference, and leaves such a
-- space, with the entries of the root that map memory. Either it returns a page, which is in use,
-- has one reference and has the address, and all other mappings are the old ones; or it returns
-- the null pointer: then `alloc_page` has nothing left and all mappings are the old ones.
pub pgdir_alloc_page-Allocated :
    (b : Bool) (g la perm : ℕ) (s : Machine) (role : ℕ → Role)
    → Space s g role
    → All (λ p. s.ref p ≡ 0) s.supply
    → maps_memory (s.entry g (pdx1 la)) ≡ false
    → perm < 2 ^ 10
    → Allocated g la perm s (pgdir_alloc_page b g la perm s)
unfolding pgdir_alloc_page
pgdir_alloc_page-Allocated b g la perm s role sp zeros plain flags = at s.supply refl
  where
    at : (ps : List ℕ) → s.supply ≡ ps → Allocated g la perm s (pgdir_alloc_page b g la perm s)
    at [] e = (
      s,
      role,
      sp,
      record { plain = λ i h. h; whole = λ i h. refl },
      inr (rw e refl, e, λ i j k. refl),
    )
    at (p ∷ rest) e = subst (Allocated g la perm s) (rw e refl) (
        map_new_page-Allocated b g la perm p rest s role sp e
          (subst (All (λ q. s.ref q ≡ 0)) e zeros).0 plain flags)
