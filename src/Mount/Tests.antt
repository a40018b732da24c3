-- ===== src/Mount/Tests.antt =====
-- The mount table of core/vfs.c with a root, /proc and /dev.
use elf_sysv_nt.Common.{ℕ, ◌≤◌, ◌≡◌, refl, true, some, List, [], ◌∷◌, CString, codes, length}
use elf_sysv_nt.Common.{get_elem?}
use elf_sysv_nt.Mount.{Mount, MountType, mnt_host, mnt_proc, mnt_dev, mount_of, best_from, hits}
use elf_sysv_nt.Path.{starts_with}
use elf_sysv_nt.Common.Errno.{ok}
use elf_sysv_nt.Mount.{add_mount}
use elf_sysv_nt.Mount.Setup.{
  Volume, vfs_init, vfs_mount_host, vfs_release, release_mounts, vfs_init-mounted,
}
use elf_sysv_nt.Mount.Lookup.{mount_of-longest}

abbrev mount_on : MountType → CString → Mount
mount_on type point = record {
  type = type;
  point = point;
  root = 9;
  dev = 1;
  lx_capable = true;
  default_uid = 0;
  default_gid = 0;
}

abbrev table : List Mount
table =
    mount_on mnt_host (codes "/")
    ∷ mount_on mnt_proc (codes "/proc")
    ∷ mount_on mnt_dev (codes "/dev")
    ∷ []

proc_found : mount_of table (codes "/proc/self") ≡ some (1, mount_on mnt_proc (codes "/proc"))
unfolding mount_of best_from hits starts_with
proc_found = refl

root_found : mount_of table (codes "/process") ≡ some (0, mount_on mnt_host (codes "/"))
unfolding mount_of best_from hits starts_with
root_found = refl

root_hits : hits (codes "/proc/self") (codes "/") ≡ true
unfolding hits
root_hits = refl

mount_of-longest_example :
    (i : ℕ) × (best : Mount) × (mount_of table (codes "/proc/self") ≡ some (i, best))
    × (get_elem? table i ≡ some best)
    × (hits (codes "/proc/self") best.point ≡ true)
    × (1 ≤ length best.point)
mount_of-longest_example =
    mount_of-longest table (codes "/proc/self") 0 (mount_on mnt_host (codes "/")) refl root_hits

abbrev volume : Volume (List ℕ)
volume = record {
  open_root = λ path s. (ok 9, 9 ∷ s);
  serial = λ h s. 0;
  lx_capable = λ h s. true;
  set_case_sensitive = λ h s. s;
}

initialised : (vfs_init volume (codes "C:/root") []).0 ≡ ok tt
unfolding vfs_init vfs_mount_host add_mount
initialised = refl

released : (vfs_release (λ h s. h ∷ s) (vfs_init volume (codes "C:/root") []).1.0 []).1 ≡ 9 ∷ []
unfolding vfs_release release_mounts vfs_init vfs_mount_host add_mount
released = refl

vfs_init-mounted_example :
    (i : ℕ) × (m : Mount) × (mount_of (vfs_init volume (codes "C:/root") []).1.0.mounts (codes "/a")
      ≡ some (i, m))
vfs_init-mounted_example = vfs_init-mounted volume (codes "C:/root") (codes "/a") [] initialised
