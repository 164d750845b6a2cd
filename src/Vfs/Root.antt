-- ===== src/Vfs/Root.antt =====
-- vfs_get_root of lab8/kern/fs/vfs/vfsdev.c.
use nku_os_ucore.Common.{
  ℕ, ◌<◌, ◌≡◌, ◌≢◌, refl, ◌∙◌, sym, ap, subst, Bool, true, false, ◌==◌, ◌&&◌, ◌||◌, List, [], ◌∷◌,
  ◌++◌, map, length, arith, some, ◌+◌, Outcome, ok, ℤ, pos, if◌then◌else◌,
}
use nku_os_ucore.Common.Distinct.{first, NotIn}
use nku_os_ucore.DList.{list_empty}
use nku_os_ucore.DList.Ring.{next-first}
use nku_os_ucore.Vfs.{
  Vfs, VfsDev, FsOps, answer, e_na_dev, vdev_list, same_text, named, root_of, lookup_root,
  vfs_get_root,
}
use nku_os_ucore.Vfs.Names.{known, Unique, first_of, same_text_self}
use nku_os_ucore.Vfs.Seek.{Table, seek-first_of}

same_text_comm : (xs ys : List ℕ) → same_text xs ys ≡ same_text ys xs
same_text_comm [] [] = refl
same_text_comm [] (y ∷ ys) = refl
same_text_comm (x ∷ xs) [] = refl
same_text_comm (x ∷ xs) (y ∷ ys) =
    rw (same_text_comm xs ys) (ap (λ b. b && same_text ys xs) (turn x y))
  where
    turn : (x y : ℕ) → (x == y) ≡ (y == x)
    turn x y = ground arith

neither : (a b : Bool) → (a || b) ≡ false → (a ≡ false) × (b ≡ false)
neither true b h = absurd (cc h)
neither false b h = (refl, h)

known-member :
    (name : ℕ → List ℕ) (n : List ℕ) (ys : List ℕ) (x : ℕ) (zs : List ℕ)
    → known n (map name (ys ++ x ∷ zs)) ≡ false
    → same_text n (name x) ≡ false
known-member name n [] x zs h = (neither (same_text n (name x)) (known n (map name zs)) h).0
known-member name n (y ∷ ys) x zs h =
    known-member name n ys x zs
      (neither (same_text n (name y)) (known n (map name (ys ++ x ∷ zs))) h).1

-- The first entry with the name of `x` is `x`.
first_of_only :
    (name : ℕ → List ℕ) (ys : List ℕ) (x : ℕ) (zs : List ℕ)
    → Unique (map name (ys ++ x ∷ zs))
    → first_of (λ z. same_text (name x) (name z)) (ys ++ x ∷ zs) ≡ some x
first_of_only name [] x zs u = rw (same_text_self (name x)) refl
first_of_only name (y ∷ ys) x zs u =
    rw (same_text_comm (name x) (name y), known-member name (name y) ys x zs u.0)
      (first_of_only name ys x zs u.1)

not_empty :
    (ys : List ℕ) (x : ℕ) (zs : List ℕ)
    → NotIn vdev_list (ys ++ x ∷ zs)
    → first (ys ++ x ∷ zs) vdev_list ≢ vdev_list
not_empty [] x zs n = λ e. n.0 (sym e)
not_empty (y ∷ ys) x zs n = λ e. n.0 (sym e)

vfs_get_root-named :
    {W : Type 0} (ops : FsOps W) (fuel devname : ℕ) (s : Vfs W) (ys : List ℕ) (x : ℕ) (zs : List ℕ)
    (ns : List (List ℕ))
    → Table s (ys ++ x ∷ zs) ns
    → length (ys ++ x ∷ zs) < fuel
    → (devname == 0) ≡ false
    → s.text devname ≡ s.text (s.vdev x).devname
    → vfs_get_root ops fuel devname s ≡ root_of ops x s
unfolding vfs_get_root lookup_root list_empty
vfs_get_root-named ops fuel devname s ys x zs ns t f nz e =
    let name : ℕ → List ℕ = λ z. s.text (s.vdev z).devname in
    let u = first_of_only name ys x zs (subst Unique (sym t.names) t.unique) in
    let some_entry = other (s.links.next vdev_list) (λ q.
      not_empty ys x zs t.ring.distinct.0
        (sym (next-first s.links vdev_list (ys ++ x ∷ zs) vdev_list t.ring.linked) ∙ q)) in
    let found = seek-first_of fuel (named devname s) s.links (ys ++ x ∷ zs) f t.ring in
    let it : first_of (named devname s) (ys ++ x ∷ zs) ≡ some x =
      ap (λ n. first_of (λ z. same_text n (name z)) (ys ++ x ∷ zs)) e ∙ u in
    rw (nz, some_entry, found, it) refl
  where
    other : (c : ℕ) → c ≢ vdev_list → (c == vdev_list) ≡ false
    other c h = ground arith

-- The device's own inode is handed out: nothing but its count of references changes.
pub record Referred {W : Type 0} (s s' : Vfs W) (node : ℕ) : Type 0 where
  pub more : s'.refs node ≡ s.refs node + 1
  pub others : (n : ℕ) → n ≢ node → s'.refs n ≡ s.refs n
  pub vdev : s'.vdev ≡ s.vdev
  pub links : s'.links ≡ s.links
  pub text : s'.text ≡ s.text
  pub freed : s'.freed ≡ s.freed
  pub world : s'.world ≡ s.world

-- The answer of `vfs_get_root` for the device `d`, in each of its states.
pub record Answered {W : Type 0} (ops : FsOps W) (s : Vfs W) (d : VfsDev)
    (r : Outcome ((ℤ × ℕ) × Vfs W)) : Type 0 where
  pub mounted :
      (node : ℕ) (w : W)
      → d.fs ≢ 0
      → ops.get_root d.fs s.world ≡ (node, w)
      → node ≢ 0
      → r ≡ ok ((pos 0, node), record s { world = w })
  pub rootless :
      (w : W)
      → d.fs ≢ 0
      → ops.get_root d.fs s.world ≡ (0, w)
      → r ≡ ok ((e_na_dev, 0), record s { world = w })
  pub raw :
      d.fs ≡ 0
      → d.mountable ≡ false
      → d.devnode ≢ 0
      → (s' : Vfs W) × (r ≡ ok ((pos 0, d.devnode), s')) × Referred s s' d.devnode
  pub unmounted : d.fs ≡ 0 → d.mountable ≡ true → r ≡ ok ((e_na_dev, 0), s)

not_zero : (c : ℕ) → c ≢ 0 → (c == 0) ≡ false
not_zero c h = ground arith

is_null : (c : ℕ) → c ≡ 0 → (c == 0) ≡ true
is_null c h = ground arith

module _ {W : Type 0} (ops : FsOps W) (x : ℕ) (s : Vfs W) where
  root_of-mounted :
      (node : ℕ) (w : W)
      → (s.vdev x).fs ≢ 0
      → ops.get_root (s.vdev x).fs s.world ≡ (node, w)
      → root_of ops x s ≡ ok (answer node, record s { world = w })
  unfolding root_of
  root_of-mounted node w f g = rw (not_zero (s.vdev x).fs f, g) refl

  root_of-Answered : Answered ops s (s.vdev x) (root_of ops x s)
  unfolding root_of
  root_of-Answered = record {
    mounted = λ node w f g n.
        root_of-mounted node w f g
        ∙ ap (λ a. ok (a, record s { world = w })) (rw (not_zero node n) refl);
    rootless = λ w f g. root_of-mounted 0 w f g;
    raw = λ f m n. (
      record s { refs = λ k. if k == (s.vdev x).devnode then s.refs k + 1 else s.refs k },
      rw (is_null (s.vdev x).fs f, m, not_zero (s.vdev x).devnode n) refl,
      record {
        more = here s.refs (s.vdev x).devnode;
        others = λ k h. there s.refs (s.vdev x).devnode k h;
        vdev = refl;
        links = refl;
        text = refl;
        freed = refl;
        world = refl;
      },
    );
    unmounted = λ f m. rw (is_null (s.vdev x).fs f, m) refl;
  }
    where
      here : (r : ℕ → ℕ) (d : ℕ) → (if d == d then r d + 1 else r d) ≡ r d + 1
      here r d = ground arith

      there : (r : ℕ → ℕ) (d k : ℕ) → k ≢ d → (if k == d then r k + 1 else r k) ≡ r k
      there r d k h = ground arith

-- Let no name occur twice in the table, and let `devname` be the name of its entry `x`, wherever
-- that stands; fuel above the length of the table is enough. If a file system is mounted on the
-- device, `vfs_get_root` returns 0 with the root that the file system gives, or -E_NA_DEV if it
-- gives the null pointer, and changes nothing but what the file system does. If none is mounted
-- and the device is not mountable and has an inode, it returns 0 with this inode, which has one
-- more reference; nothing else changes. If none is mounted and the device is mountable, it returns
-- -E_NA_DEV and changes nothing.
pub vfs_get_root-Answered :
    {W : Type 0} (ops : FsOps W) (fuel devname : ℕ) (s : Vfs W) (ys : List ℕ) (x : ℕ) (zs : List ℕ)
    (ns : List (List ℕ))
    → Table s (ys ++ x ∷ zs) ns
    → length (ys ++ x ∷ zs) < fuel
    → (devname == 0) ≡ false
    → s.text devname ≡ s.text (s.vdev x).devname
    → Answered ops s (s.vdev x) (vfs_get_root ops fuel devname s)
vfs_get_root-Answered ops fuel devname s ys x zs ns t f nz e =
    subst (Answered ops s (s.vdev x))
      (sym (vfs_get_root-named ops fuel devname s ys x zs ns t f nz e)) (root_of-Answered ops x s)
