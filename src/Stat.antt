-- ===== src/Stat.antt =====
-- core/vfs.c, stat shaping and permission: what the kernel says of an object from what NTFS and the
-- LX attributes say of it, and Linux's discretionary check.
pub mod Perm
mod Tests
use elf_sysv_nt.Common.{
  ℕ, ◌+◌, ◌-◌, ◌*◌, ◌/◌, ◌%◌, ◌^◌, Bool, true, false, not, ◌&&◌, ◌||◌, Option, none, some,
}
use elf_sysv_nt.Common.{
  CString, codes, str_eq, length, drop, ltb, ◌==◌, if◌then◌else◌, has_bit, ℤ, pos,
}
use elf_sysv_nt.Common.Errno.{Result, ok, err, eacces}
use elf_sysv_nt.Host.{HostKind, HostStat}
use elf_sysv_nt.Host.HostKind.{file, dir, lxlink, fifo, chr, blk, sock, other, winlink}
use Prim.Native.Nat.{bit_and}

-- `struct kstat`
pub record KStat : Type 0 where
  pub dev : ℕ
  pub ino : ℕ
  pub mode : ℕ
  pub nlink : ℕ
  pub uid : ℕ
  pub gid : ℕ
  pub rdev_major : ℕ
  pub rdev_minor : ℕ
  pub size : ℕ
  pub blocks : ℕ
  pub atime : ℤ
  pub mtime : ℤ
  pub ctime : ℤ
  pub btime : ℤ
  pub blksize : ℕ

-- `S_IF*`, the type bits over 4096.
abbrev pub s_ififo : ℕ
s_ififo = 0o010000

abbrev pub s_ifchr : ℕ
s_ifchr = 0o020000

abbrev pub s_ifdir : ℕ
s_ifdir = 0o040000

abbrev pub s_ifblk : ℕ
s_ifblk = 0o060000

abbrev pub s_ifreg : ℕ
s_ifreg = 0o100000

abbrev pub s_iflnk : ℕ
s_iflnk = 0o120000

abbrev pub s_ifsock : ℕ
s_ifsock = 0o140000

-- `mode & S_IFMT`
abbrev pub type_of : ℕ → ℕ
type_of mode = mode / 4096 % 16 * 4096

abbrev pub is_dir : ℕ → Bool
is_dir mode = type_of mode == s_ifdir

abbrev pub is_link : ℕ → Bool
is_link mode = type_of mode == s_iflnk

unfoldable pub kind_type : HostKind → ℕ
kind_type dir = s_ifdir
kind_type lxlink = s_iflnk
kind_type winlink = s_iflnk
kind_type fifo = s_ififo
kind_type chr = s_ifchr
kind_type blk = s_ifblk
kind_type sock = s_ifsock
kind_type file = s_ifreg
kind_type other = s_ifreg

-- A name of more than four characters with a Windows program's suffix.
unfoldable pub is_program : Option CString → Bool
is_program none = false
is_program (some name) =
    let suffix = drop (length name - 4) name in
    ltb 4 (length name)
    && (str_eq suffix (codes ".exe")
        || (str_eq suffix (codes ".bat")
            || (str_eq suffix (codes ".cmd") || str_eq suffix (codes ".com"))))

unfoldable pub mode_of : HostStat → Option CString → ℕ
mode_of hs name =
    let type = kind_type hs.kind in
    if type == s_iflnk
    then s_iflnk + 0o777
    else if hs.has_mode
    then type + hs.mode % 0o10000
    else if type == s_ifdir
    then type + 0o755
    else type + (if is_program name then 0o755 else 0o644)

abbrev pub is_link_kind : HostKind → Bool
is_link_kind lxlink = true
is_link_kind winlink = true
is_link_kind _ = false

-- `dev`, `default_uid` and `default_gid` are the mount's.
unfoldable pub kstat_of : (dev default_uid default_gid : ℕ) → HostStat → Option CString → KStat
kstat_of dev default_uid default_gid hs name = record {
  dev = dev;
  ino = hs.ino;
  mode = mode_of hs name;
  nlink = if hs.nlink == 0 then 1 else hs.nlink;
  uid = if hs.has_uid then hs.uid else default_uid;
  gid = if hs.has_gid then hs.gid else default_gid;
  rdev_major = if hs.has_dev then hs.rdev_major else 0;
  rdev_minor = if hs.has_dev then hs.rdev_minor else 0;
  size = if is_link_kind hs.kind then 0 else hs.size;
  blocks = hs.blocks;
  atime = hs.atime;
  mtime = hs.mtime;
  ctime = hs.ctime;
  btime = hs.btime;
  blksize = 4096;
}

-- `now` is the host's clock.
unfoldable pub kstat_synthetic : ℤ → (dev ino mode size : ℕ) → KStat
kstat_synthetic now dev ino mode size = record {
  dev = dev;
  ino = ino;
  mode = mode;
  nlink = 1;
  uid = 0;
  gid = 0;
  rdev_major = 0;
  rdev_minor = 0;
  size = size;
  blocks = 0;
  atime = now;
  mtime = now;
  ctime = now;
  btime = now;
  blksize = 4096;
}

-- The identity of the process: the real ids and the effective ones.
pub record Cred : Type 0 where
  pub uid : ℕ
  pub gid : ℕ
  pub euid : ℕ
  pub egid : ℕ

-- `mask` is a sum of 4 (R_OK), 2 (W_OK) and 1 (X_OK).
unfoldable pub may : Cred → KStat → ℕ → Bool → Result (Unit {0})
may c st mask effective =
    let uid = if effective then c.euid else c.uid in
    let gid = if effective then c.egid else c.gid in
    let perm =
      if uid == st.uid
      then st.mode / 64 % 8
      else if gid == st.gid
      then st.mode / 8 % 8
      else st.mode % 8 in
    let some_x = has_bit st.mode 64 || (has_bit st.mode 8 || has_bit st.mode 1) in
    if uid == 0
    then (if has_bit mask 1 && (not (is_dir st.mode) && not some_x) then err eacces else ok tt)
    else (if bit_and mask perm == mask then ok tt else err eacces)
