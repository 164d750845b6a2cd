-- ===== src/Vfs/Mount.antt =====
-- vfs_mount and vfs_unmount of lab8/kern/fs/vfs/vfsdev.c.
use nku_os_ucore.Common.{
  ℕ, ◌<◌, ◌≡◌, refl, ◌∙◌, sym, ap, Bool, true, false, Bool-cases, ◌==◌, ◌&&◌, if◌then◌else◌, inl,
  inr, List, [], ◌∷◌, length, arith, Option, none, some, ok, ℤ, pos,
}
use nku_os_ucore.DList.Ring.{Ring}
use nku_os_ucore.Vfs.{
  VfsDev, Vfs, FsOps, vdev_list, put_dev, named, e_busy, find_mount, mount_at, vfs_mount,
  sync_unmount, unmount_at, vfs_unmount,
}
use nku_os_ucore.Vfs.Names.{first_of}
use nku_os_ucore.Vfs.Seek.{Table, seek-first_of}

-- The first mountable device with the name.
abbrev pub target : {W : Type 0} → ℕ → Vfs W → List ℕ → Option ℕ
target devname s xs = first_of (λ x. (s.vdev x).mountable && named devname s x) xs

find_mount-target :
    {W : Type 0} (fuel devname : ℕ) (s : Vfs W) (xs : List ℕ)
    → Ring s.links vdev_list xs
    → length xs < fuel
    → (devname == 0) ≡ false
    → find_mount fuel devname s ≡ ok (target devname s xs)
unfolding find_mount
find_mount-target fuel devname s xs r f nz =
    rw nz (seek-first_of fuel (λ x. (s.vdev x).mountable && named devname s x) s.links xs f r)

-- A value in the field `fs` does not change what is found.
abbrev with_fs : {W : Type 0} → ℕ → ℕ → W → Vfs W → Vfs W
with_fs x fs w s = record s { vdev = put_dev s.vdev x (record (s.vdev x) { fs = fs }); world = w }

same_place : (x y : ℕ) → (x == y) ≡ true → y ≡ x
same_place x y e = ground arith

-- The other fields, all but `fs`.
with_fs-rest :
    {W : Type 0} (x fs : ℕ) (w : W) (s : Vfs W) (y : ℕ)
    → (((with_fs x fs w s).vdev y).mountable ≡ (s.vdev y).mountable)
      × (((with_fs x fs w s).vdev y).devname ≡ (s.vdev y).devname)
with_fs-rest x fs w s y = elim (Bool-cases (y == x)) [
  | inl e ↦
      let q = same_place y x e in
      (rw e (ap (λ z. (s.vdev z).mountable) q), rw e (ap (λ z. (s.vdev z).devname) q))
  | inr e ↦ (rw e refl, rw e refl)
]

target-with_fs :
    {W : Type 0} (devname x fs : ℕ) (w : W) (s : Vfs W) (xs : List ℕ)
    → target devname (with_fs x fs w s) xs ≡ target devname s xs
target-with_fs devname x fs w s [] = refl
target-with_fs devname x fs w s (y ∷ ys) =
    let (a, b) = with_fs-rest x fs w s y in rw (a, b, target-with_fs devname x fs w s ys) refl

some_value : (x y : ℕ) → some y ≡ some x → y ≡ x
some_value x y e = ap (λ o. elim o [ none ↦ 0 | some z ↦ z ]) e

first_of-found :
    (found : ℕ → Bool) (xs : List ℕ) (x : ℕ) → first_of found xs ≡ some x → found x ≡ true
first_of-found found [] x e = absurd (cc e)
first_of-found found (y ∷ ys) x e = go (found y) refl e (first_of-found found ys x)
  where
    go :
        (b : Bool)
        → found y ≡ b
        → (if b then some y else first_of found ys) ≡ some x
        → (first_of found ys ≡ some x → found x ≡ true)
        → found x ≡ true
    go true h e k = ap found (sym (some_value x y e)) ∙ h
    go false h e k = k e

both : (a b : Bool) → (a && b) ≡ true → a ≡ true
both true b h = refl
both false b h = h

mount_at-ok :
    {W : Type 0} (mountfunc : ℕ → W → ℤ × ℕ × W) (x fs : ℕ) (w : W) (s : Vfs W)
    → (s.vdev x).mountable ≡ true
    → ((s.vdev x).devname == 0) ≡ false
    → (s.vdev x).fs ≡ 0
    → mountfunc (s.vdev x).devnode s.world ≡ (pos 0, fs, w)
    → (fs == 0) ≡ false
    → mount_at mountfunc x s ≡ ok (pos 0, with_fs x fs w s)
unfolding mount_at
mount_at-ok mountfunc x fs w s m d z c nz = rw (m, d, z, c, nz) refl

mount_at-busy :
    {W : Type 0} (mountfunc : ℕ → W → ℤ × ℕ × W) (x : ℕ) (s : Vfs W)
    → ((s.vdev x).fs == 0) ≡ false
    → mount_at mountfunc x s ≡ ok (e_busy, s)
unfolding mount_at
mount_at-busy mountfunc x s b = rw b refl

unmount_at-ok :
    {W : Type 0} (ops : FsOps W) (x fs : ℕ) (w w' : W) (s : Vfs W)
    → (s.vdev x).mountable ≡ true
    → ((s.vdev x).devname == 0) ≡ false
    → (s.vdev x).fs ≡ fs
    → (fs == 0) ≡ false
    → ops.sync fs s.world ≡ (pos 0, w)
    → ops.unmount fs w ≡ (pos 0, w')
    → unmount_at ops x s ≡ ok (pos 0, with_fs x 0 w' s)
unfolding unmount_at sync_unmount
unmount_at-ok ops x fs w w' s m d z nz c u = rw (m, d, z, nz, c, u) refl

pub record Mounted {W : Type 0} (ops : FsOps W) (fuel devname : ℕ) (mountfunc : ℕ → W → ℤ × ℕ × W)
    (x fs : ℕ) (s m u : Vfs W) : Type 0 where
  pub mount : vfs_mount fuel devname mountfunc s ≡ ok (pos 0, m)
  pub mounted : (m.vdev x).fs ≡ fs
  pub again : vfs_mount fuel devname mountfunc m ≡ ok (e_busy, m)
  pub unmount : vfs_unmount ops fuel devname m ≡ ok (pos 0, u)
  pub vdev : (y : ℕ) → u.vdev y ≡ s.vdev y
  pub links : u.links ≡ s.links

equal : (c : ℕ) → (c == c) ≡ true
equal c = ground arith

-- A field written twice and back again.
put_back :
    (d : ℕ → VfsDev) (x fs y : ℕ)
    → (d x).fs ≡ 0
    → put_dev
        (put_dev d x (record (d x) { fs = fs }))
        x
        (record (put_dev d x (record (d x) { fs = fs }) x) { fs = 0 })
        y
      ≡ d y
put_back d x fs y z = elim (Bool-cases (y == x)) [
  | inl e ↦ rw (e, equal x) (unchanged (d x) z ∙ ap d (same_place y x e))
  | inr e ↦ rw e refl
]
  where
    unchanged : (v : VfsDev) → v.fs ≡ 0 → record v { fs = 0 } ≡ v
    unchanged v h = ap (λ n. record v { fs = n }) (sym h)

-- Let `x` be the first mountable device of the table with the name, with nothing mounted on it. If
-- the mount function returns 0 with a file system, `vfs_mount` returns 0 and mounts it on `x`; a
-- second `vfs_mount` returns -E_BUSY and changes nothing. If its `fsop_sync` and `fsop_unmount`
-- return 0, `vfs_unmount` then returns 0, and all entries and the links are as they were before
-- the mount.
pub vfs_mount-unmount :
    {W : Type 0} (ops : FsOps W) (fuel devname : ℕ) (mountfunc : ℕ → W → ℤ × ℕ × W) (x fs : ℕ)
    (w w1 w2 : W) (s : Vfs W) (xs : List ℕ) (ns : List (List ℕ))
    → Table s xs ns
    → length xs < fuel
    → (devname == 0) ≡ false
    → target devname s xs ≡ some x
    → ((s.vdev x).devname == 0) ≡ false
    → (s.vdev x).fs ≡ 0
    → mountfunc (s.vdev x).devnode s.world ≡ (pos 0, fs, w)
    → (fs == 0) ≡ false
    → ops.sync fs w ≡ (pos 0, w1)
    → ops.unmount fs w1 ≡ (pos 0, w2)
    → (m : Vfs W) × (u : Vfs W) × Mounted ops fuel devname mountfunc x fs s m u
unfolding vfs_mount vfs_unmount
vfs_mount-unmount ops fuel devname mountfunc x fs w w1 w2 s xs ns t f nz g d z c fz sy un =
    let m = with_fs x fs w s in
    let u = with_fs x 0 w2 m in
    let found = first_of-found (λ x. (s.vdev x).mountable && named devname s x) xs x g in
    let can = both (s.vdev x).mountable (named devname s x) found in
    let first = find_mount-target fuel devname s xs t.ring f nz ∙ ap ok g in
    let second =
      find_mount-target fuel devname m xs t.ring f nz
      ∙ ap ok (target-with_fs devname x fs w s xs ∙ g) in
    let kept = with_fs-rest x fs w s x in
    let now : (m.vdev x).fs ≡ fs = rw (equal x) refl in
    (
      m,
      u,
      record {
        mount = rw first (mount_at-ok mountfunc x fs w s can d z c fz);
        mounted = now;
        again = rw second (mount_at-busy mountfunc x m (ap (λ n. n == 0) now ∙ fz));
        unmount = rw second (
            unmount_at-ok ops x fs w1 w2 m (kept.0 ∙ can) (ap (λ n. n == 0) kept.1 ∙ d) now fz sy
              un);
        vdev = λ y. put_back s.vdev x fs y z;
        links = refl;
      },
    )
