-- ===== src/PageTable/Extended.antt =====
-- A new table keeps the tree of page tables of lab3/kern/mm/pmm.c.
use nku_os_ucore.Common.{
  ℕ, ◌<◌, ◌≡◌, ◌≢◌, sym, ap, ◌∙◌, subst, true, false, some, List, ◌∷◌, All, ℕ_discrete,
}
use nku_os_ucore.Common.Distinct.{Distinct}
use nku_os_ucore.PageTable.{Machine, pte_create, clear_frame}
use nku_os_ucore.PageTable.Entries.{put_entry_self}
use nku_os_ucore.PageTable.Invariant.{
  Role, other, child, has_tables, table, linked, IsFree, Tables, grown, give, give_self, give_other,
  by_role, grown_at, grown_new, grown_empty, maps_memory, mid, table_flags, grown_entry,
  grown_index, give_tables, still_unused, extended, child_not_other, some-eq,
}

-- What a table that was there before names.
old_table :
    (s : Machine) (g : ℕ) (role : ℕ → Role) (p : ℕ) (r : Role) (x j l : ℕ)
    → Tables s g role
    → role p ≡ other
    → has_tables (role x) ≡ true
    → table s.entry x j ≡ some l
    → (give role p r l ≡ child (give role p r x) j) × (l < s.npage)
old_table s g role p r x j l t o h tx =
    let (rl, b) = t.tables x j l h tx in
    let n : l ≢ p = λ e. child_not_other (role x) j h (sym rl ∙ ap role e ∙ o) in
    (give_other role p r l n ∙ rl ∙ ap (λ z. child z j) (sym (give_tables role p r x h o)), b)

new_entry :
    (s : Machine) (g : ℕ) (role : ℕ → Role) (f i p x j l : ℕ)
    → Tables s g role
    → IsFree s.npage role p
    → has_tables (role f) ≡ true
    → x ≢ p
    → has_tables (role x) ≡ true
    → table (grown s.entry f i p) x j ≡ some l
    → (give role p (child (role f) i) l ≡ child (give role p (child (role f) i) x) j)
      × (l < s.npage)
new_entry s g role f i p x j l t fr hf n hx tx =
    let r = child (role f) i in
    let fp = by_role role f p hf fr.unused in
    elim (ℕ_discrete x f) [
      | no nf ↦
          old_table s g role p r x j l t fr.unused hx
            (ap linked (sym (grown_entry s.entry f i p fp x j nf n)) ∙ tx)
      | yes q ↦ elim (ℕ_discrete j i) [
        | no ni ↦ old_table s g role p r x j l t fr.unused hx (
            ap linked (
              ap (λ z. s.entry z j) q
              ∙ sym (grown_index s.entry f i p fp j ni)
              ∙ ap (λ z. grown s.entry f i p z j) (sym q))
            ∙ tx)
        | yes k ↦
            let lp : l ≡ p = some-eq l p (
              sym tx
              ∙ ap (λ z. table (grown s.entry f i p) z j) q
              ∙ ap (λ z. table (grown s.entry f i p) f z) k
              ∙ grown_at s.entry f i p fp fr.small) in
            (
              ap (give role p r) lp
                  ∙ give_self role p r
                  ∙ ap (λ z. child (role z) i) (sym q)
                  ∙ ap (child (role x)) (sym k)
                  ∙ ap (λ z. child z j) (sym (give_tables role p r x hx fr.unused)),
              subst (λ z. z < s.npage) (sym lp) fr.inside,
            )
      ]
    ]

grown_plain :
    (s : Machine) (g : ℕ) (role : ℕ → Role) (f i p x a j : ℕ)
    → Tables s g role
    → role p ≡ other
    → has_tables (role f) ≡ true
    → x ≢ p
    → role x ≡ mid a
    → maps_memory (grown s.entry f i p x j) ≡ false
grown_plain s g role f i p x a j t o hf n rx =
    let fp = by_role role f p hf o in
    elim (ℕ_discrete x f) [
      | no nf ↦ ap maps_memory (grown_entry s.entry f i p fp x j nf n) ∙ t.plain x a j rx
      | yes q ↦ elim (ℕ_discrete j i) [
        | no ni ↦
            ap (λ z. maps_memory (grown s.entry f i p z j)) q
            ∙ ap maps_memory (grown_index s.entry f i p fp j ni)
            ∙ ap (λ z. maps_memory (s.entry z j)) (sym q)
            ∙ t.plain x a j rx
        | yes k ↦
            ap (λ z. maps_memory (grown s.entry f i p z j)) q
            ∙ ap (λ z. maps_memory (grown s.entry f i p f z)) k
            ∙ ap maps_memory (put_entry_self (clear_frame s.entry p) f i (pte_create p 17))
            ∙ table_flags p
      ]
    ]

pub extended-Tables :
    (s : Machine) (g : ℕ) (role : ℕ → Role) (f i p : ℕ) (rest : List ℕ)
    → Tables s g role
    → s.supply ≡ p ∷ rest
    → has_tables (role f) ≡ true
    → Tables (extended s f i p rest) g (give role p (child (role f) i))
extended-Tables s g role f i p rest t e h =
    let fr = subst (All (IsFree s.npage role)) e t.free in
    let ds = subst Distinct e t.once in
    let r = child (role f) i in
    let fp = by_role role f p h fr.0.unused in
    record {
      root = give_tables role p r g (ap has_tables t.root) fr.0.unused ∙ t.root;
      tables = λ x j l hx tx. elim (ℕ_discrete x p) [
        | yes q ↦ absurd (
            cc (
              sym (ap (λ z. table (grown s.entry f i p) z j) q ∙ grown_new s.entry f i p fp j)
              ∙ tx))
        | no n ↦
            new_entry s g role f i p x j l t fr.0 h n
              (ap has_tables (sym (give_other role p r x n)) ∙ hx) tx
      ];
      plain = λ x a j rx. elim (ℕ_discrete x p) [
        | yes q ↦
            ap maps_memory (ap (λ z. grown s.entry f i p z j) q ∙ grown_empty s.entry f i p fp j)
        | no n ↦
            grown_plain s g role f i p x a j t fr.0.unused h n (sym (give_other role p r x n) ∙ rx)
      ];
      free = still_unused s.npage role p r rest ds.0 fr.1;
      once = ds.1;
    }
