-- ===== src/Dev.antt =====
-- core/vfs_synth.c: the /dev file system, a table of nodes that are character devices or links, and
-- the files they open. The host's console is a parameter.
pub mod Random
pub mod Nodes
pub mod Listing
mod Tests
use elf_sysv_nt.Common.{
  ℕ, zero, suc, ◌+◌, ◌-◌, Bool, true, false, Option, none, some, List, [], ◌∷◌, ◌++◌, CString,
  codes, str_eq, length, take, null, get_or, ltb, ◌==◌, if◌then◌else◌, ℤ,
}
use elf_sysv_nt.Common.Errno.{
  Result, ok, err, enoent, einval, enomem, enotdir, eisdir, eloop, enxio, enospc,
}
use elf_sysv_nt.Stat.{KStat, kstat_synthetic, s_ifchr, s_ifdir, s_iflnk}
use elf_sysv_nt.Open.{OFlags, is_rdonly}
use elf_sysv_nt.Dirent.{Dirent, dt_chr, dt_dir, dt_lnk, getdents_from}

abbrev pub dev_dev : ℕ
dev_dev = 5

-- `struct devnode`
pub record DevNode : Type 0 where
  pub name : CString
  pub mode : ℕ
  pub major : ℕ
  pub minor : ℕ
  pub link : Option CString

abbrev device : CString → ℕ → ℕ → ℕ → DevNode
device name perm major minor = record {
  name = name;
  mode = s_ifchr + perm;
  major = major;
  minor = minor;
  link = none;
}

abbrev link_to : CString → CString → DevNode
link_to name target = record {
  name = name;
  mode = s_iflnk + 0o777;
  major = 0;
  minor = 0;
  link = some target;
}

abbrev pub devnodes : List DevNode
devnodes =
    device (codes "null") 0o666 1 3
    ∷ device (codes "zero") 0o666 1 5
    ∷ device (codes "full") 0o666 1 7
    ∷ device (codes "random") 0o666 1 8
    ∷ device (codes "urandom") 0o666 1 9
    ∷ device (codes "tty") 0o666 5 0
    ∷ device (codes "console") 0o600 5 1
    ∷ link_to (codes "stdin") (codes "/proc/self/fd/0")
    ∷ link_to (codes "stdout") (codes "/proc/self/fd/1")
    ∷ link_to (codes "stderr") (codes "/proc/self/fd/2")
    ∷ link_to (codes "fd") (codes "/proc/self/fd")
    ∷ []

-- A node with its index, `d - devnodes`.
pub record Found : Type 0 where
  pub index : ℕ
  pub node : DevNode

unfoldable pub find_from : List DevNode → ℕ → CString → Option Found
find_from [] i rel = none
find_from (d ∷ l) i rel =
    let rest = find_from l (suc i) rel in
    if str_eq d.name rel then some (record { index = i; node = d }) else rest

unfoldable pub dev_find : CString → Option Found
unfolding find_from
dev_find rel = find_from devnodes 0 rel

abbrev pub link_length : Option CString → ℕ
link_length none = 0
link_length (some t) = length t

abbrev pub node_stat : ℤ → Found → ℕ → KStat
node_stat now d size = record (kstat_synthetic now dev_dev (2 + d.index) d.node.mode size) {
  rdev_major = d.node.major;
  rdev_minor = d.node.minor;
}

abbrev pub devdir_stat : ℤ → KStat
devdir_stat now = record (kstat_synthetic now dev_dev 1 (s_ifdir + 0o755) 0) { nlink = 2 }

abbrev pub found_stat : ℤ → Option Found → Result KStat
found_stat now none = err enoent
found_stat now (some d) = ok (node_stat now d (link_length d.node.link))

unfoldable pub devfs_stat : ℤ → CString → Result KStat
devfs_stat now rel = if null rel then ok (devdir_stat now) else found_stat now (dev_find rel)

abbrev pub link_of : Option CString → Result CString
link_of none = err einval
link_of (some t) = ok t

abbrev pub found_link : Option Found → Result CString
found_link none = err enoent
found_link (some d) = link_of d.node.link

-- The length of the whole text, and the bytes that a buffer of `room` bytes receives.
abbrev pub buffered : ℕ → Result CString → Result (ℕ × CString)
buffered room (ok t) = ok (length t, take room t)
buffered room (err e) = err e

unfoldable pub devfs_readlink : CString → ℕ → Result (ℕ × CString)
devfs_readlink rel room = buffered room (found_link (dev_find rel))

-- What an open of /dev gives: the directory, or a node with the description's `priv_i`.
pub data DevContent : Type 0 where
  dev_directory : DevContent
  dev_file : Found → ℕ → DevContent

pub record DevOpen : Type 0 where
  pub content : DevContent
  pub path : CString

abbrev pub described : Bool → DevOpen → Result DevOpen
described true f = ok f
described false f = err enomem

-- `file` tells whether the allocation of the description succeeds. For a device of major number 5,
-- `priv_i` is set to the minor number twice.
abbrev open_device : OFlags → Bool → CString → Found → Result DevOpen
open_device fl file rel d =
    if fl.directory
    then err enotdir
    else described file
        (record { content = dev_file d d.node.minor; path = take 4095 (codes "/dev/" ++ rel) })

abbrev pub open_node : OFlags → Bool → CString → Found → Result DevOpen
open_node fl file rel d = elim (d.node.link) [
  | some t ↦ if fl.path then err enxio else err eloop
  | none ↦ open_device fl file rel d
]

abbrev pub open_dev_node : OFlags → Bool → CString → Option Found → Result DevOpen
open_dev_node fl file rel none = err enoent
open_dev_node fl file rel (some d) = open_node fl file rel d

unfoldable pub devfs_open : CString → OFlags → Bool → Result DevOpen
devfs_open rel fl file =
    if null rel
    then (if is_rdonly fl.acc
        then described file (record { content = dev_directory; path = codes "/dev" })
        else err eisdir)
    else open_dev_node fl file rel (dev_find rel)

-- fstat on an open node.
unfoldable pub dev_stat : ℤ → Found → KStat
dev_stat now d = node_stat now d 0

unfoldable pub dev_lseek : ℕ → Result ℕ
dev_lseek at = ok 0

abbrev pub no_node : DevNode
no_node = record { name = []; mode = 0; major = 0; minor = 0; link = none }

abbrev node_dt : Option CString → ℕ
node_dt none = dt_chr
node_dt (some t) = dt_lnk

-- The entry at a position of the directory.
unfoldable pub dev_entry : ℕ → Dirent
dev_entry at = record {
  ino = 2 + at;
  off = at + 1;
  type = if ltb at 2 then dt_dir else node_dt (get_or devnodes (at - 2) no_node).link;
  name =
      if at == 0
      then codes "."
      else if at == 1
      then codes ".."
      else (get_or devnodes (at - 2) no_node).name;
}

unfoldable pub devdir_getdents : ℕ → ℕ → Result (List ℕ) × ℕ
devdir_getdents room at = getdents_from dev_entry (length devnodes + 2) room at
