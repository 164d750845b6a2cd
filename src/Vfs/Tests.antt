-- ===== src/Vfs/Tests.antt =====
-- Concrete runs of lab8/kern/fs/vfs/vfsdev.c. The table has the entries 1, `disk0`, which can be
-- mounted, and 2, `stdin`, shortened to `d` and `s`. A state of the file systems is a counter of
-- calls.
use nku_os_ucore.Common.{
  ℕ, ◌+◌, ◌≡◌, refl, true, false, ◌==◌, if◌then◌else◌, [], ◌∷◌, arith, ok, ℤ, pos,
}
use nku_os_ucore.DList.{Links}
use nku_os_ucore.Vfs.{Vfs, FsOps, vfs_do_add, vfs_get_root}
use nku_os_ucore.Vfs.Seek.{Table}
use nku_os_ucore.Vfs.Add.{Added, vfs_do_add-Added}
use nku_os_ucore.Vfs.Root.{Answered, vfs_get_root-Answered}
use nku_os_ucore.Vfs.Mount.{Mounted, vfs_mount-unmount}

abbrev counting : FsOps ℕ
counting = record {
  get_root = λ f w. (f + 1, w + 1);
  sync = λ f w. (pos 0, w + 1);
  unmount = λ f w. (pos 0, w + 1);
  cleanup = λ f w. w + 1;
}

abbrev mountfunc : ℕ → ℕ → ℤ × ℕ × ℕ
mountfunc dev w = (pos 0, 70, w + 1)

abbrev links : Links
links = record {
  next = λ x. if x == 0 then 1 else if x == 1 then 2 else 0;
  prev = λ x. if x == 0 then 2 else if x == 1 then 0 else 1;
}

-- The strings at 41 and 42 are the names of the entries; 43 has `d` again, 44 has `o`.
abbrev start : Vfs ℕ
start = record {
  vdev = λ x.
      if x == 1
      then record { devname = 41; devnode = 51; fs = 0; mountable = true }
      else record { devname = 42; devnode = 52; fs = 0; mountable = false };
  links = links;
  text = λ a. if a == 42 then 115 ∷ [] else if a == 44 then 111 ∷ [] else 100 ∷ [];
  refs = λ n. 0;
  freed = [];
  world = 0;
}

start-Table : Table start (1 ∷ 2 ∷ []) ((100 ∷ []) ∷ (115 ∷ []) ∷ [])
start-Table = record {
  ring = record {
    linked = (refl, refl, (refl, refl, (refl, refl)));
    distinct = ((omega arith, (omega arith, tt)), ((omega arith, tt), (tt, tt)));
  };
  names = refl;
  unique = (refl, (refl, tt));
}

vfs_do_add-Added_example :
    (s' : Vfs ℕ) × (vfs_do_add 3 (λ n. true) 45 3 44 53 0 false start ≡ ok (pos 0, s'))
    × Added start s'
        (1 ∷ 2 ∷ [])
        ((100 ∷ []) ∷ (115 ∷ []) ∷ [])
        (111 ∷ [])
        3
        (record { devname = 45; devnode = 53; fs = 0; mountable = false })
        true
        []
vfs_do_add-Added_example =
    vfs_do_add-Added 3 (λ n. true) 45 3 44 53 0 false start (1 ∷ 2 ∷ [])
      ((100 ∷ []) ∷ (115 ∷ []) ∷ []) start-Table (omega arith) refl refl
      (omega arith, (omega arith, tt)) (omega arith, (omega arith, tt))

vfs_get_root-Answered_example :
    Answered counting start (start.vdev 2) (vfs_get_root counting 3 42 start)
vfs_get_root-Answered_example =
    vfs_get_root-Answered counting 3 42 start (1 ∷ []) 2 [] ((100 ∷ []) ∷ (115 ∷ []) ∷ [])
      start-Table (omega arith) refl refl

vfs_mount-unmount_example :
    (m : Vfs ℕ) × (u : Vfs ℕ) × Mounted counting 3 43 mountfunc 1 70 start m u
vfs_mount-unmount_example =
    vfs_mount-unmount counting 3 43 mountfunc 1 70 1 2 3 start (1 ∷ 2 ∷ [])
      ((100 ∷ []) ∷ (115 ∷ []) ∷ []) start-Table (omega arith) refl refl refl refl refl refl refl
      refl
