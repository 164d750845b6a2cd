-- ===== src/PageTable/Tests/OnePage.antt =====
-- A page directory of lab3/kern/mm/pmm.c with one page, and the constants of the tests.
use nku_os_ucore.Common.{
  ℕ, ◌+◌, ◌*◌, ◌≢◌, ◌&&◌, ℕ_discrete, ◌<◌, ◌≡◌, refl, sym, ap, ◌∙◌, subst, Bool, true, false, none,
  ◌==◌, if◌then◌else◌, inl, inr, arith, some, [],
}
use nku_os_ucore.PageTable.{Machine, valid, frame_of}
use nku_os_ucore.PageTable.Invariant.{
  Role, top, mid, low, page, other, child, has_tables, some-eq, leaf, leaf_of, leaf_under, table,
  linked, maps_memory,
}
use nku_os_ucore.PageTable.Mapping.{Space, where_is}
use nku_os_ucore.PageTable.Put.{Elsewhere}

-- The frame of `boot_page_table_sv39`, the root of the kernel at its start, whose last entry maps
-- 1 GiB and whose others are empty.
abbrev pub boot_root : ℕ
boot_root = 524807

abbrev pub gigabyte : ℕ
gigabyte = 524288 * 1024 + 207

abbrev pub in_use_page : ℕ
in_use_page = 525315

abbrev pub is_mid : Role → Bool
is_mid r = elim r [ mid i ↦ true | rest ↦ false ]

-- The page has the mapping for the address 4096, with the tables 525312 and 525313.
abbrev pub one_page : Machine
one_page = record {
  npage = 557056;
  entry = λ f i.
      if f == boot_root && i == 511
      then gigabyte
      else if f == boot_root && i == 0
      then 525312 * 1024 + 17
      else if f == 525312 && i == 0
      then 525313 * 1024 + 17
      else if f == 525313 && i == 1
      then in_use_page * 1024 + 7
      else 0;
  ref = λ p. if p == in_use_page then 1 else 0;
  supply = [];
  freed = [];
  flushes = 0;
  swappable = [];
}

abbrev pub tree : ℕ → Role
tree f =
    if f == boot_root
    then top
    else if f == 525312
    then mid 0
    else if f == 525313
    then low 0 0
    else if f == in_use_page
    then page
    else other

-- An entry that leads from one table to the next.
link :
    (f0 i0 l0 f i l : ℕ)
    → f ≡ f0
    → i ≡ i0
    → table one_page.entry f0 i0 ≡ some l0
    → tree l0 ≡ child (tree f0) i0
    → l0 < 557056
    → table one_page.entry f i ≡ some l
    → (tree l ≡ child (tree f) i) × (l < 557056)
link f0 i0 l0 f i l a b n r h e =
    let q : l0 ≡ l = some-eq l0 l (
      sym n
      ∙ ap (table one_page.entry f0) (sym b)
      ∙ ap (λ z. table one_page.entry z i) (sym a)
      ∙ e) in
    (
      ap tree (sym q) ∙ r ∙ ap (child (tree f0)) (sym b) ∙ ap (λ z. child (tree z) i) (sym a),
      subst (λ z. z < 557056) q h,
    )

-- The other entries.
abbrev Unset : ℕ → ℕ → Type 0
Unset f i = (f ≡ boot_root → i ≢ 0) × (f ≡ 525312 → i ≢ 0) × (f ≡ 525313 → i ≢ 1)

empty_entry : (f i : ℕ) → Unset f i → (f ≡ boot_root → i ≢ 511) → one_page.entry f i ≡ 0
empty_entry f i (a, b, c) d = ground arith

no_link : (f i : ℕ) → Unset f i → table one_page.entry f i ≡ none
unfolding frame_of
no_link f i u = elim (ℕ_discrete f boot_root) [
  | no a ↦ ap linked (empty_entry f i u (λ z. absurd (a z)))
  | yes a ↦ elim (ℕ_discrete i 511) [
    | no b ↦ ap linked (empty_entry f i u (λ _. b))
    | yes b ↦ ap (λ z. table one_page.entry z i) a ∙ ap (table one_page.entry boot_root) b
  ]
]

one_page-tables :
    (f i l : ℕ)
    → has_tables (tree f) ≡ true
    → table one_page.entry f i ≡ some l
    → (tree l ≡ child (tree f) i) × (l < 557056)
unfolding frame_of
one_page-tables f i l h e = elim (ℕ_discrete f boot_root) [
  | yes a ↦ elim (ℕ_discrete i 0) [
    | yes b ↦ link boot_root 0 525312 f i l a b refl refl (omega arith) e
    | no b ↦ unset (λ _. b, λ z. absurd (omega arith), λ z. absurd (omega arith))
  ]
  | no a ↦ elim (ℕ_discrete f 525312) [
    | yes c ↦ elim (ℕ_discrete i 0) [
      | yes b ↦ link 525312 0 525313 f i l c b refl refl (omega arith) e
      | no b ↦ unset (λ z. absurd (a z), λ _. b, λ z. absurd (omega arith))
    ]
    | no c ↦ unset (λ z. absurd (a z), λ z. absurd (c z), λ z. absurd (no_table z))
  ]
]
  where
    unset : Unset f i → (tree l ≡ child (tree f) i) × (l < 557056)
    unset u = absurd (cc (sym (no_link f i u) ∙ e))

    no_table : f ≡ 525313 → ⊥
    no_table z = cc (sym h ∙ ap (λ x. has_tables (tree x)) z)

one_page-plain : (m i j : ℕ) → tree m ≡ mid i → maps_memory (one_page.entry m j) ≡ false
one_page-plain m i j r = elim (ℕ_discrete m 525312) [
  | yes a ↦ ap (λ z. maps_memory (one_page.entry z j)) a ∙ flags (j == 0)
  | no a ↦ absurd (cc (sym (not_mid m a) ∙ ap is_mid r))
]
  where
    flags : (b : Bool) → maps_memory (if b then 525313 * 1024 + 17 else 0) ≡ false
    flags true = refl
    flags false = refl

    not_mid : (m : ℕ) → m ≢ 525312 → is_mid (tree m) ≡ false
    not_mid m a = ground arith

one_page-leaf : (i j k : ℕ) → Elsewhere 0 0 1 i j k → leaf one_page.entry boot_root i j k ≡ 0
unfolding frame_of
one_page-leaf i j k w = elim (ℕ_discrete i 0) [
  | no a ↦
      ap (leaf_under one_page.entry j k)
        (no_link boot_root i (λ _. a, λ z. absurd (omega arith), λ z. absurd (omega arith)))
  | yes a ↦
      ap (λ z. leaf_under one_page.entry j k (table one_page.entry boot_root z)) a
      ∙ elim (ℕ_discrete j 0) [
        | no b ↦
            ap (leaf_of one_page.entry k)
              (no_link 525312 j (λ z. absurd (omega arith), λ _. b, λ z. absurd (omega arith)))
        | yes b ↦
            ap (λ z. leaf_of one_page.entry k (table one_page.entry 525312 z)) b
            ∙ empty_entry 525313 k
                (λ z. absurd (omega arith), λ z. absurd (omega arith), λ _. last_index w a b)
                (λ z. absurd (omega arith))
      ]
]
  where
    last_index : Elsewhere 0 0 1 i j k → i ≡ 0 → j ≡ 0 → k ≢ 1
    last_index (inl n) a b = absurd (n a)
    last_index (inr (inl n)) a b = absurd (n b)
    last_index (inr (inr n)) a b = n

one_page-page :
    (e : ℕ) → e ≡ in_use_page * 1024 + 7 → (tree (frame_of e) ≡ page) × (frame_of e < 557056)
unfolding frame_of
one_page-page e q =
    let f : frame_of e ≡ in_use_page = ap frame_of q in
    (ap tree f, subst (λ z. z < 557056) (sym f) (omega arith))

one_page-here :
    (i j k : ℕ)
    → i ≡ 0
    → j ≡ 0
    → k ≡ 1
    → leaf one_page.entry boot_root i j k ≡ in_use_page * 1024 + 7
unfolding frame_of
one_page-here i j k a b c =
    ap (λ z. leaf one_page.entry boot_root z j k) a
    ∙ ap (λ z. leaf one_page.entry boot_root 0 z k) b
    ∙ ap (leaf one_page.entry boot_root 0 0) c

pub one_page-Space : Space one_page boot_root tree
one_page-Space = record {
  tables = record {
    root = refl;
    tables = one_page-tables;
    plain = one_page-plain;
    free = tt;
    once = tt;
  };
  in_use = λ i j k v. elim (where_is 0 0 1 i j k) [
    | inl w ↦ absurd (cc (sym v ∙ ap valid (one_page-leaf i j k w)))
    | inr (a, b, c) ↦
        one_page-page (leaf one_page.entry boot_root i j k) (one_page-here i j k a b c)
  ];
}
