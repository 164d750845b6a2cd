-- ===== src/PageTable/Insert.antt =====
-- page_insert of lab3/kern/mm/pmm.c.
use nku_os_ucore.Common.{
  ℕ, ◌+◌, ◌-◌, ◌^◌, ◌≤◌, ◌<◌, ◌≡◌, refl, sym, ap, ◌∙◌, true, false, Bool-cases, ◌==◌, ltb,
  if◌then◌else◌, inl, inr, arith, Option, none, some, List, ◌∷◌, ok, u32,
}
use nku_os_ucore.PageTable.{
  Machine, valid, frame_of, put_entry, put_ref, pte2page, page_ref_inc, page_ref_dec,
  tlb_invalidate, drop_ref, page_remove_pte, unmap_old,
}
use nku_os_ucore.PageTable.Invariant.{named}

-- The references when the page `p` gets a mapping in the place of the page of the old entry.
abbrev pub refs_after : Option ℕ → ℕ → (ℕ → ℕ) → ℕ → ℕ
refs_after none p r = put_ref r p (u32 (r p + 1))
refs_after (some q) p r =
    let r1 = put_ref r p (u32 (r p + 1)) in put_ref r1 q (u32 (r1 q + 2 ^ 32 - 1))

-- The pages that are freed: the old page, if it was another one and has no reference left.
abbrev pub freed_after : Option ℕ → ℕ → (ℕ → ℕ) → List ℕ → List ℕ
freed_after none p r fs = fs
freed_after (some q) p r fs =
    if q == p then fs else if refs_after (some q) p r q == 0 then q ∷ fs else fs

-- The state behind `unmap_old` and the write of the new entry.
pub record Unmapped (s s' : Machine) (l k p : ℕ) : Type 0 where
  pub entry : (v : ℕ) (f i : ℕ) → put_entry s'.entry l k v f i ≡ put_entry s.entry l k v f i
  pub ref : (x : ℕ) → s'.ref x ≡ refs_after (named (s.entry l k)) p s.ref x
  pub freed : s'.freed ≡ freed_after (named (s.entry l k)) p s.ref s.freed
  pub flushes : s.flushes ≤ s'.flushes
  pub npage : s'.npage ≡ s.npage
  pub supply : s'.supply ≡ s.supply

lt-ltb : (a b : ℕ) → a < b → ltb a b ≡ true
lt-ltb a b h = ground arith

pub pte2page_ok :
    (e : ℕ) (s : Machine) → valid e ≡ true → frame_of e < s.npage → pte2page e s ≡ ok (frame_of e)
unfolding pte2page
pte2page_ok e s v h = rw (v, lt-ltb (frame_of e) s.npage h) refl

put_twice :
    (m : ℕ → ℕ → ℕ) (l k a v f i : ℕ)
    → put_entry (put_entry m l k a) l k v f i ≡ put_entry m l k v f i
put_twice m l k a v f i = ground arith

-- The result of `drop_ref`.
abbrev pub dropped : ℕ → Machine → Machine
dropped q s =
    let r = put_ref s.ref q (u32 (s.ref q + 2 ^ 32 - 1)) in
    record s { ref = r; freed = if r q == 0 then q ∷ s.freed else s.freed }

drop_ref-dropped : (q : ℕ) (s : Machine) → drop_ref q s ≡ dropped q s
unfolding drop_ref page_ref_dec
drop_ref-dropped q s = elim (Bool-cases ((page_ref_dec q s).ref q == 0)) [
  | inl z ↦ rw z refl
  | inr z ↦ rw z refl
]

-- The machine in which the page `q` has lost its mapping.
abbrev pub cleared : ℕ → ℕ → Machine → Machine
cleared l k s = record s { entry = put_entry s.entry l k 0; flushes = s.flushes + 1 }

abbrev pub lost : ℕ → ℕ → ℕ → Machine → Machine
lost l k q s = cleared l k (dropped q s)

pub page_remove_pte-lost :
    (l k : ℕ) (s : Machine)
    → valid (s.entry l k) ≡ true
    → frame_of (s.entry l k) < s.npage
    → page_remove_pte l k s ≡ ok (lost l k (frame_of (s.entry l k)) s)
unfolding page_remove_pte tlb_invalidate
page_remove_pte-lost l k s v h = rw v (
    rw (pte2page_ok (s.entry l k) s v h)
      (ap (λ s1. ok (cleared l k s1)) (drop_ref-dropped (frame_of (s.entry l k)) s)))

module _ (l k p : ℕ) (s : Machine) (v : valid (s.entry l k) ≡ true) where
  named_old : named (s.entry l k) ≡ some (frame_of (s.entry l k))
  named_old = rw v refl

  -- The page has a mapping at this place already.
  same_page :
      frame_of (s.entry l k) ≡ p
      → (frame_of (s.entry l k) == p) ≡ true
      → Unmapped s (page_ref_dec p (page_ref_inc p s)) l k p
  unfolding page_ref_inc page_ref_dec
  same_page e b = record {
    entry = λ v f i. refl;
    ref = λ x.
        ap (λ q. refs_after (some q) p s.ref x) (sym e)
        ∙ ap (λ o. refs_after o p s.ref x) (sym named_old);
    freed = sym (ap (λ o. freed_after o p s.ref s.freed) named_old ∙ rw b refl);
    flushes = omega arith;
    npage = refl;
    supply = refl;
  }

  other_page :
      (frame_of (s.entry l k) == p) ≡ false
      → Unmapped s (lost l k (frame_of (s.entry l k)) (page_ref_inc p s)) l k p
  unfolding page_ref_inc page_ref_dec
  other_page b = record {
    entry = λ v f i. put_twice s.entry l k 0 v f i;
    ref = λ x. sym (ap (λ o. refs_after o p s.ref x) named_old);
    freed = sym (ap (λ o. freed_after o p s.ref s.freed) named_old ∙ rw b refl);
    flushes = omega arith;
    npage = refl;
    supply = refl;
  }

unmap_old-other :
    (l k p : ℕ) (s : Machine)
    → valid (s.entry l k) ≡ true
    → frame_of (s.entry l k) < s.npage
    → (frame_of (s.entry l k) == p) ≡ false
    → unmap_old l k p s ≡ page_remove_pte l k s
unfolding unmap_old
unmap_old-other l k p s v h e = rw (v, pte2page_ok (s.entry l k) s v h, e) refl

pub unmap_old-Unmapped :
    (l k p : ℕ) (s : Machine)
    → (valid (s.entry l k) ≡ true → frame_of (s.entry l k) < s.npage)
    → (s' : Machine) × (unmap_old l k p (page_ref_inc p s) ≡ ok s') × Unmapped s s' l k p
unfolding unmap_old page_ref_inc
unmap_old-Unmapped l k p s fits = elim (Bool-cases (valid (s.entry l k))) [
  | inr v ↦ (
    page_ref_inc p s,
    rw v refl,
    record {
      entry = λ v f i. refl;
      ref = λ x. rw v refl;
      freed = rw v refl;
      flushes = omega arith;
      npage = refl;
      supply = refl;
    },
  )
  | inl v ↦
      let found = pte2page_ok (s.entry l k) (page_ref_inc p s) v (fits v) in
      elim (Bool-cases (frame_of (s.entry l k) == p)) [
        | inl e ↦ (
          page_ref_dec p (page_ref_inc p s),
          rw (v, found, e) refl,
          same_page l k p s v (ground arith) e,
        )
        | inr e ↦ (
          lost l k (frame_of (s.entry l k)) (page_ref_inc p s),
          unmap_old-other l k p (page_ref_inc p s) v (fits v) e
              ∙ page_remove_pte-lost l k (page_ref_inc p s) v (fits v),
          other_page l k p s v e,
        )
      ]
]
