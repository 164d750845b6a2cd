-- ===== src/PageTable/Tests.antt =====
-- Runs of the page tables of lab3/kern/mm/pmm.c.
mod OnePage
use nku_os_ucore.Common.{
  ℕ, ◌≢◌, ◌&&◌, ◌⊎◌, ◌≡◌, refl, sym, ap, ◌∙◌, Bool, true, false, none, ◌==◌, if◌then◌else◌, arith,
  Option, some, [], ◌∷◌, ok, pos,
}
use nku_os_ucore.PageTable.{
  Machine, valid, page_insert, get_page, page_remove, pgdir_alloc_page, e_no_mem,
}
use nku_os_ucore.PageTable.Invariant.{Role, top, mid, page, other, leaf_under, table, linked}
use nku_os_ucore.PageTable.Mapping.{Space}
use nku_os_ucore.PageTable.Space.{Inserted, page_insert-Inserted}
use nku_os_ucore.PageTable.Lookup.{get_page-page_insert}
use nku_os_ucore.PageTable.Remove.{Removed, page_remove-Removed}
use nku_os_ucore.PageTable.Fresh.{Allocated, pgdir_alloc_page-Allocated}
use nku_os_ucore.PageTable.Tests.OnePage.{
  boot_root, gigabyte, in_use_page, is_mid, one_page, tree, one_page-Space,
}

-- The kernel's directory at its start. Of the machine's 128 MiB from 0x80000000 on, the three frames
-- that `alloc_page` returns stand for others; one more page is in use.
abbrev booted : Machine
booted = record {
  npage = 557056;
  entry = λ f i. if f == boot_root && i == 511 then gigabyte else 0;
  ref = λ p. 0;
  supply = 525312 ∷ 525313 ∷ 525314 ∷ [];
  freed = [];
  flushes = 0;
  swappable = [];
}

abbrev roles : ℕ → Role
roles f = if f == boot_root then top else if f == in_use_page then page else other

no_mid : (f i : ℕ) → roles f ≢ mid i
no_mid f i e = cc (sym (none_mid (f == boot_root) (f == in_use_page)) ∙ ap is_mid e)
  where
    none_mid : (a b : Bool) → is_mid (if a then top else if b then page else other) ≡ false
    none_mid true b = refl
    none_mid false true = refl
    none_mid false false = refl

booted-table : (f i : ℕ) → table booted.entry f i ≡ none
booted-table f i = none_at (f == boot_root && i == 511)
  where
    none_at : (b : Bool) → linked (if b then gigabyte else 0) ≡ none
    none_at true = refl
    none_at false = refl

booted-Space : Space booted boot_root roles
booted-Space = record {
  tables = record {
    root = refl;
    tables = λ f i l h e. absurd (cc (sym (booted-table f i) ∙ e));
    plain = λ f i j e. absurd (no_mid f i e);
    free = (
      record { unused = refl; inside = omega arith; small = omega arith },
      (
        record { unused = refl; inside = omega arith; small = omega arith },
        (record { unused = refl; inside = omega arith; small = omega arith }, tt),
      ),
    );
    once = ground arith;
  };
  in_use = λ i j k v.
      absurd
        (cc (sym v ∙ ap (λ o. valid (leaf_under booted.entry j k o)) (booted-table boot_root i)));
}

-- BEING_CHECK_VALID_VADDR, in the part of the addresses that the last entry does not map.
abbrev place : ℕ
place = 4096

get_page-page_insert_example :
    (s' : Machine) × (((page_insert boot_root in_use_page place 6 booted ≡ ok (pos 0, s'))
        × (x : Option (ℕ × ℕ)) × (get_page boot_root place s' ≡ ok ((some in_use_page, x), s')))
      ⊎ ((page_insert boot_root in_use_page place 6 booted ≡ ok (e_no_mem, s')) × (s'.supply ≡ [])))
get_page-page_insert_example =
    get_page-page_insert boot_root place in_use_page 6 booted roles booted-Space refl refl
      (omega arith) (omega arith) (omega arith)

page_insert-Inserted_example :
    Inserted boot_root in_use_page place 6 booted roles
      (page_insert boot_root in_use_page place 6 booted)
page_insert-Inserted_example =
    page_insert-Inserted boot_root place in_use_page 6 booted roles booted-Space refl refl
      (omega arith) (omega arith) (omega arith)

pgdir_alloc_page-Allocated_example :
    Allocated boot_root place 6 booted (pgdir_alloc_page true boot_root place 6 booted)
pgdir_alloc_page-Allocated_example =
    pgdir_alloc_page-Allocated true boot_root place 6 booted roles booted-Space
      (refl, (refl, (refl, tt))) refl (omega arith)

page_remove-Removed_example :
    (s' : Machine) × (page_remove boot_root place one_page ≡ ok s')
    × Removed one_page s' boot_root place
    × Space s' boot_root tree
page_remove-Removed_example = page_remove-Removed boot_root place one_page tree one_page-Space refl
