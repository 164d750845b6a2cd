-- ===== src/Vfs/Add.antt =====
-- vfs_do_add of lab8/kern/fs/vfs/vfsdev.c.
use nku_os_ucore.Common.{
  ℕ, ◌<◌, ◌≡◌, ◌≢◌, refl, ◌∙◌, ap, Bool, true, false, not, Bool-cases, ◌==◌, ◌&&◌, ◌||◌, ltb,
  if◌then◌else◌, inl, inr, List, [], ◌∷◌, ◌++◌, map, length, arith, Option, none, some, ok, ℤ, pos,
  All,
}
use nku_os_ucore.Common.Distinct.{NotIn}
use nku_os_ucore.DList.{list_add}
use nku_os_ucore.DList.Ring.{list_add-Ring}
use nku_os_ucore.Vfs.{
  VfsDev, Vfs, vdev_list, put_dev, named, fs_max_dname_len, e_too_big, e_no_mem, e_exists,
  check_devname_conflict, add_entry, vfs_do_add,
}
use nku_os_ucore.Vfs.Names.{known, is_none, first_of, first_of-known}
use nku_os_ucore.Vfs.Seek.{Table, seek-first_of}

-- What `vfs_do_add` says of a name, and what it gives back.
abbrev pub verdict : List ℕ → List (List ℕ) → ℕ → ℕ → ℤ × List ℕ
verdict n ns name p =
    if ltb fs_max_dname_len (length n)
    then (e_too_big, [])
    else if name == 0
    then (e_no_mem, [])
    else if p == 0
    then (e_no_mem, name ∷ [])
    else if known n ns
    then (e_exists, name ∷ p ∷ [])
    else (pos 0, [])

abbrev pub is_added : List ℕ → List (List ℕ) → ℕ → ℕ → Bool
is_added n ns name p =
    not (ltb fs_max_dname_len (length n)) && (not (name == 0) && (not (p == 0) && not (known n ns)))

-- The table behind `vfs_do_add`, with the new entry `v` at `p` if it is added.
pub record Added {W : Type 0} (s s' : Vfs W) (xs : List ℕ) (ns : List (List ℕ)) (n : List ℕ) (p : ℕ)
    (v : VfsDev) (new : Bool) (back : List ℕ) : Type 0 where
  pub table : Table s' (if new then p ∷ xs else xs) (if new then n ∷ ns else ns)
  pub vdev : (x : ℕ) → s'.vdev x ≡ (if new && x == p then v else s.vdev x)
  pub freed : s'.freed ≡ back ++ s.freed

-- The copy of the name does not touch the other names.
names_kept :
    (text text' : ℕ → List ℕ) (name : ℕ) (d d' : ℕ → VfsDev) (xs : List ℕ)
    → ((x : ℕ) → x ≢ name → text' x ≡ text x)
    → All (λ x. (d x).devname ≢ name) xs
    → All (λ x. d' x ≡ d x) xs
    → map (λ x. text' (d' x).devname) xs ≡ map (λ x. text (d x).devname) xs
names_kept text text' name d d' [] k a b = refl
names_kept text text' name d d' (x ∷ xs) k a b =
    rw (b.0, k (d x).devname a.0)
      (ap (◌∷◌ (text (d x).devname)) (names_kept text text' name d d' xs k a.1 b.1))

each_same : (d : ℕ → VfsDev) (xs : List ℕ) → All (λ x. d x ≡ d x) xs
each_same d [] = tt
each_same d (x ∷ xs) = (refl, each_same d xs)

put_others :
    (d : ℕ → VfsDev) (p : ℕ) (v : VfsDev) (xs : List ℕ)
    → NotIn p xs
    → All (λ x. put_dev d p v x ≡ d x) xs
put_others d p v [] n = tt
put_others d p v (x ∷ xs) n = (rw (other x p n.0) refl, put_others d p v xs n.1)
  where
    other : (x p : ℕ) → p ≢ x → (x == p) ≡ false
    other x p h = ground arith

check_devname_conflict-known :
    {W : Type 0} (fuel name : ℕ) (s : Vfs W) (xs : List ℕ) (ns : List (List ℕ))
    → Table s xs ns
    → length xs < fuel
    → check_devname_conflict fuel name s ≡ ok (not (known (s.text name) ns))
unfolding check_devname_conflict
check_devname_conflict-known fuel name s xs ns t f =
    rw (seek-first_of fuel (named name s) s.links xs f t.ring) (
      ap ok (
        free (first_of (named name s) xs)
        ∙ first_of-known (λ x. s.text (s.vdev x).devname) (s.text name) xs
        ∙ ap (λ ns. not (known (s.text name) ns)) t.names))
  where
    free : (r : Option ℕ) → elim r [ none ↦ true | some x ↦ false ] ≡ is_none r
    free none = refl
    free (some x) = refl

-- The state behind `strdup`.
abbrev copied : {W : Type 0} → ℕ → ℕ → Vfs W → Vfs W
copied name devname s = record s { text = λ x. if x == name then s.text devname else s.text x }

copied_other :
    (t : List ℕ) (text : ℕ → List ℕ) (name x : ℕ)
    → x ≢ name
    → (if x == name then t else text x) ≡ text x
copied_other t text name x h = rw (other x name h) refl
  where
    other : (x p : ℕ) → x ≢ p → (x == p) ≡ false
    other x p h = ground arith

equal : (c : ℕ) → (c == c) ≡ true
equal c = ground arith

copied-Table :
    {W : Type 0} (name devname : ℕ) (s : Vfs W) (xs : List ℕ) (ns : List (List ℕ))
    → Table s xs ns
    → All (λ x. (s.vdev x).devname ≢ name) xs
    → Table (copied name devname s) xs ns
copied-Table name devname s xs ns t a = record {
  ring = t.ring;
  names =
      names_kept s.text (copied name devname s).text name s.vdev s.vdev xs
        (λ x h. copied_other (s.text devname) s.text name x h) a (each_same s.vdev xs)
      ∙ t.names;
  unique = t.unique;
}

entered-Table :
    {W : Type 0} (p : ℕ) (v : VfsDev) (s : Vfs W) (xs : List ℕ) (nm : List ℕ) (ns : List (List ℕ))
    → Table s xs ns
    → NotIn p xs
    → p ≢ vdev_list
    → s.text v.devname ≡ nm
    → known nm ns ≡ false
    → Table
        (record s { vdev = put_dev s.vdev p v; links = list_add vdev_list p s.links })
        (p ∷ xs)
        (nm ∷ ns)
entered-Table p v s xs nm ns t n h e k = record {
  ring = list_add-Ring s.links vdev_list p xs t.ring h n;
  names =
      rw (equal p, e)
        (ap (◌∷◌ nm)
          (again s.vdev (put_dev s.vdev p v) s.text xs (put_others s.vdev p v xs n) ∙ t.names));
  unique = (k, t.unique);
}
  where
    again :
        (d d' : ℕ → VfsDev) (text : ℕ → List ℕ) (xs : List ℕ)
        → All (λ x. d' x ≡ d x) xs
        → map (λ x. text (d' x).devname) xs ≡ map (λ x. text (d x).devname) xs
    again d d' text [] a = refl
    again d d' text (x ∷ xs) a = rw a.0 (ap (◌∷◌ (text (d x).devname)) (again d d' text xs a.1))

conflict_copied :
    {W : Type 0} (fuel name devname : ℕ) (s : Vfs W) (xs : List ℕ) (ns : List (List ℕ)) (b : Bool)
    → Table (copied name devname s) xs ns
    → length xs < fuel
    → known (s.text devname) ns ≡ b
    → check_devname_conflict fuel name (copied name devname s) ≡ ok (not b)
conflict_copied fuel name devname s xs ns b t f k =
    let self : (copied name devname s).text name ≡ s.text devname = rw (equal name) refl in
    check_devname_conflict-known fuel name (copied name devname s) xs ns t f
    ∙ ap (λ n. ok (not (known n ns))) self
    ∙ ap (λ b. ok (not b)) k

some_place : (p : ℕ) → (p == 0) ≡ false → p ≢ vdev_list
some_place p h = ground arith

-- Let the table hold `xs` with the names `ns`, none of them twice, let the first two assertions
-- hold, and let `strdup` and `kmalloc` return addresses that the table does not use, or 0. Then
-- `vfs_do_add`, with fuel above the length of the table, ends. It returns the error of the first
-- failure - the name is longer than 31, no memory for the copy, no memory for the entry, or the
-- name is taken - gives back just what it had allocated, and leaves the table as it was; or it
-- returns 0, and the table has the new entry in front with the given fields and still no name
-- twice.
pub vfs_do_add-Added :
    {W : Type 0} (fuel : ℕ) (is_device : ℕ → Bool) (name p devname devnode fs : ℕ)
    (mountable : Bool) (s : Vfs W) (xs : List ℕ) (ns : List (List ℕ))
    → Table s xs ns
    → length xs < fuel
    → (devname == 0) ≡ false
    → (devnode == 0 && not mountable || not (devnode == 0) && is_device devnode) ≡ true
    → All (λ x. (s.vdev x).devname ≢ name) xs
    → NotIn p xs
    → (s' : Vfs W) × (vfs_do_add fuel is_device name p devname devnode fs mountable s
        ≡ ok ((verdict (s.text devname) ns name p).0, s'))
      × Added s s' xs ns
          (s.text devname)
          p
          (record { devname = name; devnode = devnode; fs = fs; mountable = mountable })
          (is_added (s.text devname) ns name p)
          (verdict (s.text devname) ns name p).1
unfolding vfs_do_add add_entry
vfs_do_add-Added fuel is_device name p devname devnode fs mountable s xs ns t f nz g a n =
    let s1 = copied name devname s in
    let t1 = copied-Table name devname s xs ns t a in
    let v : VfsDev = record { devname = name; devnode = devnode; fs = fs; mountable = mountable } in
    elim (Bool-cases (ltb fs_max_dname_len (length (s.text devname)))) [
      | inl c1 ↦
          (s, rw (nz, g, c1) refl, rw c1 (record { table = t; vdev = λ x. refl; freed = refl }))
      | inr c1 ↦ elim (Bool-cases (name == 0)) [
        | inl c2 ↦ (
          s,
          rw (nz, g, c1, c2) refl,
          rw (c1, c2) (record { table = t; vdev = λ x. refl; freed = refl }),
        )
        | inr c2 ↦ elim (Bool-cases (p == 0)) [
          | inl c3 ↦ (
            record s1 { freed = name ∷ s.freed },
            rw (nz, g, c1, c2, c3) refl,
            rw (c1, c2, c3)
                (record {
                  table = record { ring = t.ring; names = t1.names; unique = t.unique };
                  vdev = λ x. refl;
                  freed = refl;
                }),
          )
          | inr c3 ↦ elim (Bool-cases (known (s.text devname) ns)) [
            | inl c4 ↦ (
              record s1 { freed = name ∷ p ∷ s.freed },
              rw (nz, g, c1, c2, c3, conflict_copied fuel name devname s xs ns true t1 f c4, c4)
                  refl,
              rw (c1, c2, c3, c4)
                  (record {
                    table = record { ring = t.ring; names = t1.names; unique = t.unique };
                    vdev = λ x. refl;
                    freed = refl;
                  }),
            )
            | inr c4 ↦ (
              record s1 { vdev = put_dev s.vdev p v; links = list_add vdev_list p s.links },
              rw (nz, g, c1, c2, c3, conflict_copied fuel name devname s xs ns false t1 f c4, c4)
                  refl,
              rw (c1, c2, c3, c4)
                  (record {
                    table =
                        entered-Table p v s1 xs (s.text devname) ns t1 n (some_place p c3)
                          (rw (equal name) refl) c4;
                    vdev = λ x. refl;
                    freed = refl;
                  }),
            )
          ]
        ]
      ]
    ]
