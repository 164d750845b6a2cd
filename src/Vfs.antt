-- ===== src/Vfs.antt =====
-- lab8/kern/fs/vfs/vfsdev.c: the table of devices. The address of a `vfs_dev_t` is a positive number
-- and stands for its `vdev_link` as well; the head `vdev_list` is address 0. In the fields, 0 is the
-- null pointer. `text` has the string at each address. The semaphore of the table is left out: each
-- operation runs on its own. `W` is the state of the file systems, whose functions are parameters.
pub mod Names
pub mod Seek
pub mod Add
pub mod Root
pub mod Mount
mod Tests
use nku_os_ucore.Common.{
  ℕ, zero, suc, ◌+◌, Bool, true, false, not, ◌&&◌, ◌||◌, ◌==◌, ltb, if◌then◌else◌, Outcome, ok,
  out_of_fuel, panicked, ◌>>=◌, ◌>>◌, assert, Option, none, some, List, [], ◌∷◌, ℤ, pos, negsuc,
  length,
}
use nku_os_ucore.DList.{Links, list_init, list_add, list_empty}

pub record VfsDev : Type 0 where
  pub devname : ℕ
  pub devnode : ℕ
  pub fs : ℕ
  pub mountable : Bool

-- The functions of the file systems, by the address of the `struct fs`.
pub record FsOps (W : Type 0) : Type 0 where
  pub get_root : ℕ → W → ℕ × W
  pub sync : ℕ → W → ℤ × W
  pub unmount : ℕ → W → ℤ × W
  pub cleanup : ℕ → W → W

pub record Vfs (W : Type 0) : Type 0 where
  pub vdev : ℕ → VfsDev
  pub links : Links
  pub text : ℕ → List ℕ
  -- The number of references that `vop_ref_inc` has added to an inode.
  pub refs : ℕ → ℕ
  pub freed : List ℕ
  pub world : W

abbrev pub vdev_list : ℕ
vdev_list = 0

abbrev pub fs_max_dname_len : ℕ
fs_max_dname_len = 31

-- The negative error numbers.
abbrev pub e_inval : ℤ
e_inval = negsuc 2

abbrev pub e_no_mem : ℤ
e_no_mem = negsuc 3

abbrev pub e_too_big : ℤ
e_too_big = negsuc 11

abbrev pub e_no_dev : ℤ
e_no_dev = negsuc 12

abbrev pub e_na_dev : ℤ
e_na_dev = negsuc 13

abbrev pub e_busy : ℤ
e_busy = negsuc 14

abbrev pub e_exists : ℤ
e_exists = negsuc 22

abbrev pub is_zero : ℤ → Bool
is_zero (pos n) = n == 0
is_zero (negsuc n) = false

-- `strcmp` returns 0.
abbrev pub same_text : List ℕ → List ℕ → Bool
same_text [] [] = true
same_text [] (y ∷ ys) = false
same_text (x ∷ xs) [] = false
same_text (x ∷ xs) (y ∷ ys) = x == y && same_text xs ys

abbrev pub put_dev : (ℕ → VfsDev) → ℕ → VfsDev → ℕ → VfsDev
put_dev d p v x = if x == p then v else d x

-- The answer with the inode `node` for `node_store`.
abbrev pub answer : ℕ → ℤ × ℕ
answer node = if node == 0 then (e_na_dev, 0) else (pos 0, node)

-- The walk over the table to the first entry with the property, behind `le`.
unfoldable pub seek : ℕ → (ℕ → Bool) → ℕ → Links → Outcome (Option ℕ)
seek zero found le l = out_of_fuel
seek (suc f) found le l =
    let x = l.next le in
    let rest = seek f found x l in
    if x == vdev_list then ok none else if found x then ok (some x) else rest

module _ {W : Type 0} where
  -- The entry has this name.
  abbrev pub named : ℕ → Vfs W → ℕ → Bool
  named devname s x = same_text (s.text devname) (s.text (s.vdev x).devname)

  unfoldable pub vfs_devlist_init : Vfs W → Vfs W
  vfs_devlist_init s = record s { links = list_init vdev_list s.links }

  unfoldable pub vfs_get_devname : ℕ → ℕ → Vfs W → Outcome ℕ
  vfs_get_devname fuel fs s = do
    assert (not (fs == 0))
    r ← seek fuel (λ x. (s.vdev x).fs == fs) vdev_list s.links
    ok (elim r [ none ↦ 0 | some x ↦ (s.vdev x).devname ])

  -- Whether no device has the name.
  unfoldable pub check_devname_conflict : ℕ → ℕ → Vfs W → Outcome Bool
  check_devname_conflict fuel devname s = do
    r ← seek fuel (named devname s) vdev_list s.links
    ok (elim r [ none ↦ true | some x ↦ false ])

  unfoldable pub find_mount : ℕ → ℕ → Vfs W → Outcome (Option ℕ)
  find_mount fuel devname s = do
    assert (not (devname == 0))
    seek fuel (λ x. (s.vdev x).mountable && named devname s x) vdev_list s.links

  -- The part of `vfs_do_add` with both allocations, of the string `name` and the entry `p`.
  unfoldable pub add_entry : ℕ → ℕ → ℕ → ℕ → ℕ → Bool → Vfs W → Outcome (ℤ × Vfs W)
  add_entry fuel name p devnode fs mountable s = do
    free ← check_devname_conflict fuel name s
    ok (
        if free
        then (
          pos 0,
          record s {
            vdev =
                put_dev s.vdev p
                  (record { devname = name; devnode = devnode; fs = fs; mountable = mountable });
            links = list_add vdev_list p s.links;
          },
        )
        else (e_exists, record s { freed = name ∷ p ∷ s.freed }))

  -- `name` and `p` are what `strdup` and `kmalloc` return; `is_device` is `check_inode_type`.
  unfoldable pub vfs_do_add :
      ℕ → (ℕ → Bool) → ℕ → ℕ → ℕ → ℕ → ℕ → Bool → Vfs W → Outcome (ℤ × Vfs W)
  vfs_do_add fuel is_device name p devname devnode fs mountable s =
      let s1 = record s { text = λ x. if x == name then s.text devname else s.text x } in
      let rest = add_entry fuel name p devnode fs mountable s1 in
      let allocated =
        if name == 0
        then ok (e_no_mem, s)
        else if p == 0
        then ok (e_no_mem, record s1 { freed = name ∷ s.freed })
        else rest in
      do
        assert (not (devname == 0))
        assert (devnode == 0 && not mountable || not (devnode == 0) && is_device devnode)
        (if ltb fs_max_dname_len (length (s.text devname)) then ok (e_too_big, s) else allocated)

  unfoldable pub vfs_add_fs : ℕ → (ℕ → Bool) → ℕ → ℕ → ℕ → ℕ → Vfs W → Outcome (ℤ × Vfs W)
  vfs_add_fs fuel is_device name p devname fs s =
      vfs_do_add fuel is_device name p devname 0 fs false s

  unfoldable pub vfs_add_dev : ℕ → (ℕ → Bool) → ℕ → ℕ → ℕ → ℕ → Bool → Vfs W → Outcome (ℤ × Vfs W)
  vfs_add_dev fuel is_device name p devname devnode mountable s =
      vfs_do_add fuel is_device name p devname devnode 0 mountable s

  -- `mountfunc` gives its answer, and the value that `fs_store` has behind the call.
  unfoldable pub mount_at : (ℕ → W → ℤ × ℕ × W) → ℕ → Vfs W → Outcome (ℤ × Vfs W)
  mount_at mountfunc x s =
      let d = s.vdev x in
      let (r, fs, w) = mountfunc d.devnode s.world in
      if not (d.fs == 0) then ok (e_busy, s) else do
        assert (not (d.devname == 0) && d.mountable)
        assert (not (is_zero r) || not (fs == 0))
        ok (r, record s { vdev = put_dev s.vdev x (record d { fs = fs }); world = w })

  unfoldable pub vfs_mount : ℕ → ℕ → (ℕ → W → ℤ × ℕ × W) → Vfs W → Outcome (ℤ × Vfs W)
  vfs_mount fuel devname mountfunc s = find_mount fuel devname s >>= λ r. elim r [
    | none ↦ ok (e_no_dev, s)
    | some x ↦ mount_at mountfunc x s
  ]

module _ {W : Type 0} (ops : FsOps W) where
  unfoldable pub cleanup_loop : ℕ → ℕ → Vfs W → Outcome (Vfs W)
  cleanup_loop zero le s = out_of_fuel
  cleanup_loop (suc f) le s =
      let x = s.links.next le in
      let fs = (s.vdev x).fs in
      let rest =
        cleanup_loop f x (if fs == 0 then s else record s { world = ops.cleanup fs s.world }) in
      if x == vdev_list then ok s else rest

  unfoldable pub vfs_cleanup : ℕ → Vfs W → Outcome (Vfs W)
  vfs_cleanup fuel s = if list_empty vdev_list s.links then ok s else cleanup_loop fuel vdev_list s

  -- The inode of the device `x`, or the error. A reference to the null pointer is a fault.
  unfoldable pub root_of : ℕ → Vfs W → Outcome ((ℤ × ℕ) × Vfs W)
  root_of x s =
      let d = s.vdev x in
      let (root, w) = ops.get_root d.fs s.world in
      let raw = record s { refs = λ n. if n == d.devnode then s.refs n + 1 else s.refs n } in
      if not (d.fs == 0)
      then ok (answer root, record s { world = w })
      else if not d.mountable
      then if d.devnode == 0 then panicked else ok (answer d.devnode, raw)
      else ok ((e_na_dev, 0), s)

  -- The walk of `vfs_get_root`.
  unfoldable pub lookup_root : ℕ → ℕ → Vfs W → Outcome ((ℤ × ℕ) × Vfs W)
  lookup_root fuel devname s = seek fuel (named devname s) vdev_list s.links >>= λ r. elim r [
    | none ↦ ok ((e_no_dev, 0), s)
    | some x ↦ root_of x s
  ]

  unfoldable pub vfs_get_root : ℕ → ℕ → Vfs W → Outcome ((ℤ × ℕ) × Vfs W)
  vfs_get_root fuel devname s = do
    assert (not (devname == 0))
    (if list_empty vdev_list s.links then ok ((e_no_dev, 0), s) else lookup_root fuel devname s)

  -- The call of `fsop_sync`, and that of `fsop_unmount` if it succeeds.
  unfoldable pub sync_unmount : ℕ → Vfs W → ℤ × Vfs W
  sync_unmount x s =
      let d = s.vdev x in
      let (r, w) = ops.sync d.fs s.world in
      let (r2, w2) = ops.unmount d.fs w in
      if is_zero r
      then if is_zero r2
        then (r2, record s { vdev = put_dev s.vdev x (record d { fs = 0 }); world = w2 })
        else (r2, record s { world = w2 })
      else (r, record s { world = w })

  unfoldable pub unmount_at : ℕ → Vfs W → Outcome (ℤ × Vfs W)
  unmount_at x s =
      let d = s.vdev x in
      if d.fs == 0
      then ok (e_inval, s)
      else do assert (not (d.devname == 0) && d.mountable); ok (sync_unmount x s)

  unfoldable pub vfs_unmount : ℕ → ℕ → Vfs W → Outcome (ℤ × Vfs W)
  vfs_unmount fuel devname s = find_mount fuel devname s >>= λ r. elim r [
    | none ↦ ok (e_no_dev, s)
    | some x ↦ unmount_at x s
  ]

  unfoldable pub unmount_loop : ℕ → ℕ → Vfs W → Outcome (Vfs W)
  unmount_loop zero le s = out_of_fuel
  unmount_loop (suc f) le s =
      let x = s.links.next le in
      let d = s.vdev x in
      let rest =
        unmount_loop f x (if d.mountable && not (d.fs == 0) then (sync_unmount x s).1 else s) in
      if x == vdev_list then ok s else rest

  unfoldable pub vfs_unmount_all : ℕ → Vfs W → Outcome (Vfs W)
  vfs_unmount_all fuel s =
      if list_empty vdev_list s.links then ok s else unmount_loop fuel vdev_list s
