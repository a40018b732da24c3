-- ===== src/Mount.antt =====
-- core/vfs.h and core/vfs.c: the mount table and the file-system half of a process.
pub mod Lookup
pub mod Setup
mod Tests
use elf_sysv_nt.Common.{
  ℕ, zero, suc, ◌+◌, ◌-◌, Bool, true, false, ◌&&◌, ◌||◌, Option, none, some, List, [], ◌∷◌, ◌++◌,
}
use elf_sysv_nt.Common.{CString, codes, str_eq, length, get_or, take, ltb, leb, ◌==◌, if◌then◌else◌}
use elf_sysv_nt.Common.Errno.{Result, ok, err, enomem}
use elf_sysv_nt.Stat.{Cred}
use elf_sysv_nt.Path.{starts_with, slash, path_max}

-- `MNT_*`
pub data MountType : Type 0 where
  mnt_host mnt_proc mnt_dev : MountType

pub record Mount : Type 0 where
  pub type : MountType
  pub point : CString
  pub root : ℕ
  pub dev : ℕ
  pub lx_capable : Bool
  pub default_uid : ℕ
  pub default_gid : ℕ

abbrev pub mnt_max : ℕ
mnt_max = 16

-- `struct fs_ctx`; the length of the list is `nmounts`.
pub record FsCtx : Type 0 where
  pub mounts : List Mount
  pub cwd : CString
  pub umask : ℕ
  pub cred : Cred

-- A path lies under a mount point.
unfoldable pub hits : CString → CString → Bool
hits abs point =
    if length point == 1
    then true
    else starts_with abs point
      && ((length abs == length point) || (get_or abs (length point) 0 == slash))

-- A mount with its index in the table, which stands for its address.
abbrev pub Seat : Type 0
Seat = ℕ × Mount

-- The loop of `mount_of` from index `i`, with the best seat so far and the length of its point.
unfoldable pub best_from : CString → List Mount → ℕ → Option Seat → ℕ → Option Seat
best_from abs [] i best bl = best
best_from abs (m ∷ ms) i best bl =
    let better = hits abs m.point && leb bl (length m.point) in
    best_from abs ms (suc i) (if better then some (i, m) else best)
      (if better then length m.point else bl)

unfoldable pub mount_of : List Mount → CString → Option Seat
mount_of ms abs = best_from abs ms 0 none 0

-- Whether `mount_at` finds a mount.
unfoldable pub mount_at : List Mount → CString → Bool
mount_at [] abs = false
mount_at (m ∷ ms) abs = str_eq m.point abs || mount_at ms abs

unfoldable pub add_mount : List Mount → MountType → CString → Result (List Mount)
add_mount ms type point =
    let m : Mount = record {
      type = type;
      point = take (path_max - 1) point;
      root = 0;
      dev = length ms + 1;
      lx_capable = false;
      default_uid = 0;
      default_gid = 0;
    } in
    if leb mnt_max (length ms) then err enomem else ok (ms ++ (m ∷ []))
