-- ===== src/PageTable/Walk.antt =====
-- get_pte of lab3/kern/mm/pmm.c: the map from pages to entries stays as it is.
use nku_os_ucore.Common.{
  ℕ, Bool-cases, ◌≡◌, ◌≢◌, ◌⊎◌, refl, sym, ap, ◌∙◌, subst, Bool, true, false, inl, inr, arith,
  Option, none, some, List, [], ◌∷◌, All, Outcome, ok,
}
use nku_os_ucore.PageTable.{Machine, valid, frame_of, put_ref}
use nku_os_ucore.PageTable.Invariant.{
  Role, page, other, child, has_tables, table, linked, linked-plain, maps_memory, leaf, IsFree,
  Tables, grown, give, give_other, by_role, extended,
}
use nku_os_ucore.PageTable.Extended.{extended-Tables}
use nku_os_ucore.PageTable.Grown.{entry_cases, leaf-grown, grown_whole}

-- What a walk may change: new tables appear, for frames that were free.
pub record Stepped (s s' : Machine) (g : ℕ) (role role' : ℕ → Role) : Type 0 where
  pub tables : Tables s' g role'
  pub leaves : (i j k : ℕ) → leaf s'.entry g i j k ≡ leaf s.entry g i j k
  pub kept :
      (f i l : ℕ)
      → has_tables (role f) ≡ true
      → table s.entry f i ≡ some l
      → table s'.entry f i ≡ some l
  pub roles : (x : ℕ) → has_tables (role x) ≡ true → role' x ≡ role x
  pub pages : (x : ℕ) → role x ≡ page → role' x ≡ page
  pub refs : (x : ℕ) → role x ≡ page → s'.ref x ≡ s.ref x
  pub plain : (i : ℕ) → maps_memory (s.entry g i) ≡ false → maps_memory (s'.entry g i) ≡ false
  pub whole : (i : ℕ) → maps_memory (s.entry g i) ≡ true → s'.entry g i ≡ s.entry g i
  pub npage : s'.npage ≡ s.npage
  pub freed : s'.freed ≡ s.freed
  pub flushes : s'.flushes ≡ s.flushes

pub Stepped-refl :
    (s : Machine) (g : ℕ) (role : ℕ → Role) → Tables s g role → Stepped s s g role role
Stepped-refl s g role t = record {
  tables = t;
  leaves = λ i j k. refl;
  kept = λ f i l h e. e;
  roles = λ x h. refl;
  pages = λ x h. h;
  refs = λ x h. refl;
  plain = λ i h. h;
  whole = λ i h. refl;
  npage = refl;
  freed = refl;
  flushes = refl;
}

pub Stepped-trans :
    (s s1 s2 : Machine) (g : ℕ) (role role1 role2 : ℕ → Role)
    → Stepped s s1 g role role1
    → Stepped s1 s2 g role1 role2
    → Stepped s s2 g role role2
Stepped-trans s s1 s2 g role role1 role2 a b = record {
  tables = b.tables;
  leaves = λ i j k. b.leaves i j k ∙ a.leaves i j k;
  kept = λ f i l h e. b.kept f i l (ap has_tables (a.roles f h) ∙ h) (a.kept f i l h e);
  roles = λ x h. b.roles x (ap has_tables (a.roles x h) ∙ h) ∙ a.roles x h;
  pages = λ x h. b.pages x (a.pages x h);
  refs = λ x h. b.refs x (a.pages x h) ∙ a.refs x h;
  plain = λ i h. b.plain i (a.plain i h);
  whole = λ i h. b.whole i (ap maps_memory (a.whole i h) ∙ h) ∙ a.whole i h;
  npage = b.npage ∙ a.npage;
  freed = b.freed ∙ a.freed;
  flushes = b.flushes ∙ a.flushes;
}

-- If a walk that may make tables ends with none, `alloc_page` has nothing left.
abbrev pub Ended : Bool → Option ℕ → Machine → Type 0
Ended true none s = s.supply ≡ []
Ended true (some l) s = Unit {0}
Ended false o s = Unit {0}

pub extended-Stepped :
    (s : Machine) (g : ℕ) (role : ℕ → Role) (f i p : ℕ) (rest : List ℕ)
    → Tables s g role
    → s.supply ≡ p ∷ rest
    → has_tables (role f) ≡ true
    → table s.entry f i ≡ none
    → maps_memory (s.entry f i) ≡ false
    → Stepped s (extended s f i p rest) g role (give role p (child (role f) i))
extended-Stepped s g role f i p rest t e h n k =
    let fr = (subst (All (IsFree s.npage role)) e t.free).0 in
    let r = child (role f) i in
    record {
      tables = extended-Tables s g role f i p rest t e h;
      leaves = leaf-grown s g role t f i p fr h n;
      kept = λ x j l a q. keep (entry_cases s.entry role f i p x j fr.unused fr.small h a n) q;
      roles = λ x a. give_other role p r x (by_role role x p a fr.unused);
      pages = λ x a. give_other role p r x (in_use x a fr.unused) ∙ a;
      refs = λ x a. put_ref_other s.ref p 1 x (in_use x a fr.unused);
      plain = λ j q.
          still_plain
            (entry_cases s.entry role f i p g j fr.unused fr.small h (ap has_tables t.root) n) q;
      whole = λ j q. grown_whole s.entry role f i p g j fr.unused h (ap has_tables t.root) k q;
      npage = refl;
      freed = refl;
      flushes = refl;
    }
  where
    still_plain :
        {x j : ℕ}
        → (grown s.entry f i p x j ≡ s.entry x j)
          ⊎ ((table s.entry x j ≡ none) × (table (grown s.entry f i p) x j ≡ some p))
        → maps_memory (s.entry x j) ≡ false
        → maps_memory (grown s.entry f i p x j) ≡ false
    still_plain (inl same) q = ap maps_memory same ∙ q
    still_plain {x = x} {j = j} (inr (old, now)) q = linked-plain (grown s.entry f i p x j) p now

    keep :
        {x j l : ℕ}
        → (grown s.entry f i p x j ≡ s.entry x j)
          ⊎ ((table s.entry x j ≡ none) × (table (grown s.entry f i p) x j ≡ some p))
        → table s.entry x j ≡ some l
        → table (grown s.entry f i p) x j ≡ some l
    keep (inl same) q = ap linked same ∙ q
    keep (inr (old, now)) q = absurd (cc (sym old ∙ q))

    put_ref_other : (m : ℕ → ℕ) (p v x : ℕ) → x ≢ p → put_ref m p v x ≡ m x
    put_ref_other m p v x h = ground arith

    in_use : (x : ℕ) → role x ≡ page → role p ≡ other → x ≢ p
    in_use x k o = λ q. cc (sym k ∙ ap role q ∙ o)

-- The result of `next_table`.
abbrev pub Next : Bool → ℕ → ℕ → ℕ → Machine → (ℕ → Role) → Outcome (Option ℕ × Machine) → Type 0
Next create g f i s role r =
    (s' : Machine) × (role' : ℕ → Role) × (r ≡ ok (table s'.entry f i, s'))
    × Stepped s s' g role role'
    × Ended create (table s'.entry f i) s'

pub table_invalid : (m : ℕ → ℕ → ℕ) (f i : ℕ) → valid (m f i) ≡ false → table m f i ≡ none
table_invalid m f i h = elim (Bool-cases (maps_memory (m f i))) [
  | inl k ↦ rw (h, k) refl
  | inr k ↦ rw (h, k) refl
]

pub table_valid :
    (m : ℕ → ℕ → ℕ) (f i : ℕ)
    → valid (m f i) ≡ true
    → maps_memory (m f i) ≡ false
    → table m f i ≡ some (frame_of (m f i))
table_valid m f i h k = rw (h, k) refl
