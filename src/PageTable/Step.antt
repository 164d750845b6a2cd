-- ===== src/PageTable/Step.antt =====
-- A step of get_pte of lab3/kern/mm/pmm.c, and the whole walk.
use nku_os_ucore.Common.{
  ℕ, ◌<◌, ◌≡◌, refl, sym, ap, ◌∙◌, subst, Bool, true, false, Bool-cases, ltb, inl, inr, arith,
  Option, none, some, List, [], ◌∷◌, All, Outcome, ok, ◌>>=◌,
}
use nku_os_ucore.PageTable.{
  Machine, valid, frame_of, pte_create, pdx1, pdx0, ptx, clear_frame, follow, new_table,
  alloc_table, next_table, last_table, get_pte,
}
use nku_os_ucore.PageTable.Entries.{frame_of-pte_create, put_entry_self}
use nku_os_ucore.PageTable.Invariant.{
  Role, mid, child, maps_memory, has_tables, table, leaf, leaf_of, leaf_under, IsFree, Tables, give,
  by_role, grown_at, extended,
}
use nku_os_ucore.PageTable.Walk.{
  Stepped, Stepped-refl, Stepped-trans, Ended, Next, extended-Stepped, table_valid, table_invalid,
}

Ended-some : (create : Bool) (l : ℕ) (s : Machine) → Ended create (some l) s
Ended-some true l s = tt
Ended-some false l s = tt

lt-ltb : (a b : ℕ) → a < b → ltb a b ≡ true
lt-ltb a b h = ground arith

pub follow-some :
    (e : ℕ) (s : Machine) → frame_of e < s.npage → follow e s ≡ ok (some (frame_of e), s)
unfolding follow
follow-some e s h = rw (lt-ltb (frame_of e) s.npage h) refl

new_table-extended :
    (f i p : ℕ) (rest : List ℕ) (s : Machine)
    → p < s.npage
    → frame_of ((extended s f i p rest).entry f i) ≡ p
    → new_table f i p (record s { supply = rest }) ≡ ok (some p, extended s f i p rest)
unfolding new_table
new_table-extended f i p rest s h e = rw (lt-ltb p s.npage h) (
    follow-some ((extended s f i p rest).entry f i) (extended s f i p rest)
      (subst (λ z. z < s.npage) (sym e) h)
    ∙ ap (λ z. ok (some z, extended s f i p rest)) e)

alloc_table-Next :
    (g f i : ℕ) (s : Machine) (role : ℕ → Role) (ps : List ℕ)
    → Tables s g role
    → has_tables (role f) ≡ true
    → table s.entry f i ≡ none
    → maps_memory (s.entry f i) ≡ false
    → s.supply ≡ ps
    → Next true g f i s role (alloc_table f i ps s)
alloc_table-Next g f i s role [] t h n k e = (
  s,
  role,
  ap (λ o. ok (o, s)) (sym n),
  Stepped-refl s g role t,
  subst (λ o. Ended true o s) (sym n) e,
)
alloc_table-Next g f i s role (p ∷ rest) t h n k e =
    let fr = (subst (All (IsFree s.npage role)) e t.free).0 in
    let s' = extended s f i p rest in
    let here = put_entry_self (clear_frame s.entry p) f i (pte_create p 17) in
    let names = grown_at s.entry f i p (by_role role f p h fr.unused) fr.small in
    (
      s',
      give role p (child (role f) i),
      new_table-extended f i p rest s fr.inside
            (ap frame_of here ∙ frame_of-pte_create p 17 fr.small (omega arith))
          ∙ ap (λ o. ok (o, s')) (sym names),
      extended-Stepped s g role f i p rest t e h n k,
      subst (λ o. Ended true o s') (sym names) tt,
    )

pub next_table-Next :
    (create : Bool) (g f i : ℕ) (s : Machine) (role : ℕ → Role)
    → Tables s g role
    → has_tables (role f) ≡ true
    → maps_memory (s.entry f i) ≡ false
    → Next create g f i s role (next_table create f i s)
unfolding next_table
next_table-Next create g f i s role t h k = elim (Bool-cases (valid (s.entry f i))) [
  | inl v ↦
      let names = table_valid s.entry f i v k in
      let inside = (t.tables f i (frame_of (s.entry f i)) h names).1 in
      (
        s,
        role,
        rw (v, k) (follow-some (s.entry f i) s inside),
        Stepped-refl s g role t,
        subst (λ o. Ended create o s) (sym names) (Ended-some create (frame_of (s.entry f i)) s),
      )
  | inr v ↦ missing create v (table_invalid s.entry f i v)
]
  where
    missing :
        (b : Bool)
        → valid (s.entry f i) ≡ false
        → table s.entry f i ≡ none
        → Next b g f i s role (next_table b f i s)
    missing true v n =
        subst (Next true g f i s role) (rw v refl)
          (alloc_table-Next g f i s role s.supply t h n k refl)
    missing false v n = (s, role, rw (v, k) refl, Stepped-refl s g role t, tt)

-- Where the pointer of `get_pte` leads: to the entry that the map from pages has.
abbrev pub Found : Bool → ℕ → ℕ → Machine → (ℕ → Role) → Option (ℕ × ℕ) → Type 0
Found create g la s role none =
    Ended create none s × ((k : ℕ) → leaf s.entry g (pdx1 la) (pdx0 la) k ≡ 0)
Found create g la s role (some (l, k)) =
    (k ≡ ptx la)
    × (m : ℕ) × (table s.entry g (pdx1 la) ≡ some m)
    × (table s.entry m (pdx0 la) ≡ some l)

-- The result of `get_pte`.
abbrev pub Got : Bool → ℕ → ℕ → Machine → (ℕ → Role) → Outcome (Option (ℕ × ℕ) × Machine) → Type 0
Got create g la s role r =
    (o : Option (ℕ × ℕ)) × (s' : Machine) × (role' : ℕ → Role) × (r ≡ ok (o, s'))
    × Stepped s s' g role role'
    × Found create g la s' role' o

-- The pointer behind the second table, or none.
abbrev pointer : ℕ → Option ℕ → Option (ℕ × ℕ)
pointer la o = elim o [ none ↦ none | some l ↦ some (l, ptx la) ]

second_found :
    (create : Bool) (g la m : ℕ) (s : Machine) (role : ℕ → Role) (o : Option ℕ)
    → Tables s g role
    → table s.entry g (pdx1 la) ≡ some m
    → role m ≡ mid (pdx1 la)
    → table s.entry m (pdx0 la) ≡ o
    → Ended create o s
    → Found create g la s role (pointer la o)
second_found create g la m s role none t e r q en =
    (en, λ k. ap (leaf_under s.entry (pdx0 la) k) e ∙ ap (leaf_of s.entry k) q)
second_found create g la m s role (some l) t e r q en = (refl, m, e, q)

second_step :
    (create : Bool) (g la m : ℕ) (s : Machine) (role : ℕ → Role)
    → Tables s g role
    → table s.entry g (pdx1 la) ≡ some m
    → Got create g la s role (last_table create la (some m, s))
second_step create g la m s role t e =
    let rm =
      (t.tables g (pdx1 la) m (ap has_tables t.root) e).0 ∙ ap (λ z. child z (pdx1 la)) t.root in
    let (s', role', q, st, en) =
      next_table-Next create g m (pdx0 la) s role t (ap has_tables rm)
        (t.plain m (pdx1 la) (pdx0 la) rm) in
    let o = table s'.entry m (pdx0 la) in
    (
      pointer la o,
      s',
      role',
      ap (λ r. r >>= λ r. ok (pointer la r.0, r.1)) q,
      st,
      second_found create g la m s' role' o st.tables
          (st.kept g (pdx1 la) m (ap has_tables t.root) e) (st.roles m (ap has_tables rm) ∙ rm) refl
          en,
    )

first_found :
    (create : Bool) (g la : ℕ) (s s1 : Machine) (role role1 : ℕ → Role) (o : Option ℕ)
    → Stepped s s1 g role role1
    → table s1.entry g (pdx1 la) ≡ o
    → Ended create o s1
    → Got create g la s role (last_table create la (o, s1))
first_found create g la s s1 role role1 none st q en =
    (none, s1, role1, refl, st, (en, λ k. ap (leaf_under s1.entry (pdx0 la) k) q))
first_found create g la s s1 role role1 (some m) st q en =
    let (o2, s2, role2, q2, st2, found) = second_step create g la m s1 role1 st.tables q in
    (o2, s2, role2, q2, Stepped-trans s s1 s2 g role role1 role2 st st2, found)

pub get_pte-Got :
    (create : Bool) (g la : ℕ) (s : Machine) (role : ℕ → Role)
    → Tables s g role
    → maps_memory (s.entry g (pdx1 la)) ≡ false
    → Got create g la s role (get_pte g la create s)
unfolding get_pte
get_pte-Got create g la s role t k =
    let (s1, role1, q, st, en) =
      next_table-Next create g g (pdx1 la) s role t (ap has_tables t.root) k in
    let o = table s1.entry g (pdx1 la) in
    let (o2, s2, role2, q2, st2, found) = first_found create g la s s1 role role1 o st refl en in
    (o2, s2, role2, ap (λ r. r >>= last_table create la) q ∙ q2, st2, found)
