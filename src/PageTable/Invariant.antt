-- ===== src/PageTable/Invariant.antt =====
-- The tree of page tables of lab3/kern/mm/pmm.c.
use nku_os_ucore.Common.{
  ℕ, refl, ◌^◌, ◌<◌, ◌≡◌, ◌≢◌, sym, ap, ◌∙◌, Bool, true, false, not, Bool-cases, ◌/◌, ◌%◌, ◌==◌,
  if◌then◌else◌, arith, Option, none, some, inl, inr, List, [], ◌∷◌, All,
}
use nku_os_ucore.Common.Distinct.{Distinct, NotIn}
use nku_os_ucore.PageTable.{Machine, valid, frame_of, pte_create, put_entry, clear_frame, put_ref}
use nku_os_ucore.PageTable.Entries.{
  pte_create-valid, frame_of-pte_create, put_entry_self, put_entry_frame, put_entry_index,
  clear_frame_self, clear_frame_other,
}

-- What a frame is used for: the root, the table of an entry of the root, the table of an entry of
-- such a table, a page in use, or something else.
pub data Role : Type 0 where
  top : Role
  mid : ℕ → Role
  low : ℕ → ℕ → Role
  page : Role
  other : Role

abbrev pub child : Role → ℕ → Role
child top i = mid i
child (mid i) j = low i j
child (low i j) k = other
child page i = other
child other i = other

abbrev pub has_tables : Role → Bool
has_tables top = true
has_tables (mid i) = true
has_tables (low i j) = false
has_tables page = false
has_tables other = false

-- Whether a valid entry maps memory itself: it is readable, writable or executable. At the root it
-- maps 1 GiB, as the last entry of `boot_page_table_sv39` does.
abbrev pub maps_memory : ℕ → Bool
maps_memory e = not (e / 2 % 8 == 0)

-- The flags of the entry for a new table.
pub table_flags : (p : ℕ) → maps_memory (pte_create p 17) ≡ false
unfolding pte_create
table_flags p = ground arith

-- The page of an entry for a page.
abbrev pub named : ℕ → Option ℕ
named e = if valid e then some (frame_of e) else none

-- The table of an entry that leads to one.
abbrev pub linked : ℕ → Option ℕ
linked e = if maps_memory e then none else named e

pub linked-plain : (e l : ℕ) → linked e ≡ some l → maps_memory e ≡ false
linked-plain e l h = elim (Bool-cases (maps_memory e)) [
  | inr k ↦ k
  | inl k ↦ absurd (cc (sym (is_none k) ∙ h))
]
  where
    is_none : maps_memory e ≡ true → linked e ≡ none
    is_none k = rw k refl

-- The table that an entry names.
abbrev pub table : (ℕ → ℕ → ℕ) → ℕ → ℕ → Option ℕ
table m f i = linked (m f i)

-- A frame that may become a table.
pub record IsFree (npage : ℕ) (role : ℕ → Role) (p : ℕ) : Type 0 where
  pub unused : role p ≡ other
  pub inside : p < npage
  pub small : p < 2 ^ 44

-- Every frame has one role; each table has the role that the entry which names it gives it. The
-- entries of the second tables map no memory; those of the root may, and lead to no table then.
pub record Tables (s : Machine) (g : ℕ) (role : ℕ → Role) : Type 0 where
  pub root : role g ≡ top
  pub tables :
      (f i l : ℕ)
      → has_tables (role f) ≡ true
      → table s.entry f i ≡ some l
      → (role l ≡ child (role f) i) × (l < s.npage)
  pub plain : (m i j : ℕ) → role m ≡ mid i → maps_memory (s.entry m j) ≡ false
  pub free : All (IsFree s.npage role) s.supply
  pub once : Distinct s.supply

-- The entry for a page, 0 if there is no table for it.
abbrev pub leaf_of : (ℕ → ℕ → ℕ) → ℕ → Option ℕ → ℕ
leaf_of m k none = 0
leaf_of m k (some l) = m l k

abbrev pub leaf_under : (ℕ → ℕ → ℕ) → ℕ → ℕ → Option ℕ → ℕ
leaf_under m j k none = 0
leaf_under m j k (some f) = leaf_of m k (table m f j)

-- The map from pages to entries that the tables stand for.
abbrev pub leaf : (ℕ → ℕ → ℕ) → ℕ → ℕ → ℕ → ℕ → ℕ
leaf m g i j k = leaf_under m j k (table m g i)

-- The entries with a new table.
abbrev pub grown : (ℕ → ℕ → ℕ) → ℕ → ℕ → ℕ → ℕ → ℕ → ℕ
grown m f i p = put_entry (clear_frame m p) f i (pte_create p 17)

abbrev pub give : (ℕ → Role) → ℕ → Role → ℕ → Role
give role p r f = if f == p then r else role f

pub give_self : (role : ℕ → Role) (p : ℕ) (r : Role) → give role p r p ≡ r
give_self role p r = ground arith

pub give_other : (role : ℕ → Role) (p : ℕ) (r : Role) (f : ℕ) → f ≢ p → give role p r f ≡ role f
give_other role p r f h = ground arith

-- Frames with other roles are other frames.
pub by_role : (role : ℕ → Role) (a b : ℕ) → has_tables (role a) ≡ true → role b ≡ other → a ≢ b
by_role role a b h k = λ e. cc (sym h ∙ ap (λ x. has_tables (role x)) e ∙ ap has_tables k)

linked-pte_create : (p : ℕ) → p < 2 ^ 44 → linked (pte_create p 17) ≡ some p
linked-pte_create p h =
    rw (pte_create-valid p 17, table_flags p) (ap some (frame_of-pte_create p 17 h (omega arith)))

module _ (m : ℕ → ℕ → ℕ) (f i p : ℕ) (apart : f ≢ p) where
  pub grown_at : p < 2 ^ 44 → table (grown m f i p) f i ≡ some p
  grown_at h =
      ap linked (put_entry_self (clear_frame m p) f i (pte_create p 17)) ∙ linked-pte_create p h

  pub grown_empty : (j : ℕ) → grown m f i p p j ≡ 0
  grown_empty j =
      put_entry_frame (clear_frame m p) f i (pte_create p 17) p j (λ e. apart (sym e))
      ∙ clear_frame_self m p j

  pub grown_new : (j : ℕ) → table (grown m f i p) p j ≡ none
  grown_new j = ap linked (grown_empty j)

  pub grown_entry : (g j : ℕ) → g ≢ f → g ≢ p → grown m f i p g j ≡ m g j
  grown_entry g j h k =
      put_entry_frame (clear_frame m p) f i (pte_create p 17) g j h ∙ clear_frame_other m p g j k

  pub grown_index : (j : ℕ) → j ≢ i → grown m f i p f j ≡ m f j
  grown_index j h =
      put_entry_index (clear_frame m p) f i (pte_create p 17) f j h
      ∙ clear_frame_other m p f j apart

pub give_tables :
    (role : ℕ → Role) (p : ℕ) (r : Role) (f : ℕ)
    → has_tables (role f) ≡ true
    → role p ≡ other
    → give role p r f ≡ role f
give_tables role p r f h k = give_other role p r f (by_role role f p h k)

-- The frames that stay free.
pub still_unused :
    (npage : ℕ) (role : ℕ → Role) (p : ℕ) (r : Role) (ps : List ℕ)
    → NotIn p ps
    → All (IsFree npage role) ps
    → All (IsFree npage (give role p r)) ps
still_unused npage role p r [] n a = tt
still_unused npage role p r (q ∷ ps) n a = (
  record {
    unused = give_other role p r q (λ e. n.0 (sym e)) ∙ a.0.unused;
    inside = a.0.inside;
    small = a.0.small;
  },
  still_unused npage role p r ps n.1 a.1,
)

-- The machine after `new_table`.
abbrev pub extended : Machine → ℕ → ℕ → ℕ → List ℕ → Machine
extended s f i p rest = record s {
  supply = rest;
  ref = put_ref s.ref p 1;
  entry = grown s.entry f i p;
}

pub child_not_other : (r : Role) (i : ℕ) → has_tables r ≡ true → child r i ≢ other
child_not_other top i h = λ e. cc e
child_not_other (mid j) i h = λ e. cc e
child_not_other (low j k) i h = absurd (cc h)
child_not_other page i h = absurd (cc h)
child_not_other other i h = absurd (cc h)

pub some-eq : (x y : ℕ) → some x ≡ some y → x ≡ y
some-eq x y e = ap (λ o. elim o [ none ↦ 0 | some z ↦ z ]) e
