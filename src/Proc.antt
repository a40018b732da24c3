-- ===== src/Proc.antt =====
-- core/vfs_synth.c: the /proc file system. A path below the mount is classified, and the class says
-- what stat, readlink and open answer.
pub mod Dir
pub mod Links
pub mod Listing
mod Tests
use elf_sysv_nt.Common.{
  ℕ, zero, suc, ◌+◌, ◌-◌, ◌*◌, Bool, true, false, ◌&&◌, ◌||◌, Option, none, some, List, [], ◌∷◌,
  ◌++◌, CString, codes, str_eq, length, take, null, get_or, ltb, leb, ◌==◌, if◌then◌else◌, ℤ, pos,
  negsuc,
}
use elf_sysv_nt.Common.Decimal.{decimal, strtol}
use elf_sysv_nt.Common.Errno.{Result, ok, err, enoent, einval}
use elf_sysv_nt.File.{File, Kind, FdTable, fd_get, is_free, nr_open_default}
use elf_sysv_nt.Stat.{KStat, kstat_synthetic, s_ifdir, s_ifreg, s_iflnk}
use elf_sysv_nt.Vma.{Map}

abbrev pub proc_dev : ℕ
proc_dev = 4

-- `PROC_INO`
abbrev pub proc_ino : ℕ → ℕ
proc_ino x = 0x10000 + x

-- The state that /proc shows: the path of the running program, the current directory, the descriptor
-- table with its descriptions, the memory map, and the host's clock.
pub record ProcState : Type 0 where
  pub exe_path : CString
  pub cwd : CString
  pub fds : FdTable
  pub files : ℕ → Option File
  pub map : Map
  pub now : ℤ

-- The program's path, which `strncpy` cuts to its buffer.
unfoldable pub vfs_set_exe_path : CString → ProcState → ProcState
vfs_set_exe_path path s = record s { exe_path = take 4095 path }

-- `P_*`; the class of a descriptor's link has its number.
pub data ProcClass : Type 0 where
  p_root p_self p_maps p_exe p_cwd p_fd : ProcClass
  p_fdn : ℕ → ProcClass
  p_selflink p_none : ProcClass

-- The values of the `P_*` constants.
unfoldable pub class_no : ProcClass → ℕ
class_no p_root = 0
class_no p_self = 1
class_no p_maps = 2
class_no p_exe = 3
class_no p_cwd = 4
class_no p_fd = 5
class_no (p_fdn n) = 6
class_no p_selflink = 7
class_no p_none = 8

-- `fdn >= 0 ? fdn : 0`
abbrev pub fdn_of : ProcClass → ℕ
fdn_of (p_fdn n) = n
fdn_of _ = 0

-- What follows the prefix `p`, if the text starts with it.
abbrev pub after : CString → CString → Option CString
after [] s = some s
after (c ∷ p) [] = none
after (c ∷ p) (d ∷ s) = let rest = after p s in if c == d then rest else none

-- The text behind "self", where a slash follows it, or behind "1", where a slash or nothing does.
abbrev pub if_slash : Option CString → Option CString
if_slash (some (c ∷ s)) = if c == b'/' then some (c ∷ s) else none
if_slash _ = none

abbrev pub if_part : Option CString → Option CString
if_part (some []) = some []
if_part o = if_slash o

abbrev pub or_else : Option CString → Option CString → Option CString
or_else (some s) o = some s
or_else none o = o

abbrev pub below_self : CString → Option CString
below_self rel = or_else (if_slash (after (codes "self") rel)) (if_part (after (codes "1") rel))

abbrev pub fd_class : FdTable → Option (ℤ × CString) → ProcClass
fd_class t (some (pos n, [])) =
    if leb nr_open_default n then p_none else if is_free (fd_get t (pos n)) then p_none else p_fdn n
fd_class t _ = p_none

abbrev pub fd_entry : FdTable → Option CString → ProcClass
fd_entry t none = p_none
fd_entry t (some s) = fd_class t (strtol s)

-- A name below /proc/self.
abbrev pub self_class : FdTable → CString → ProcClass
self_class t p =
    if str_eq p (codes "maps")
    then p_maps
    else if str_eq p (codes "exe")
    then p_exe
    else if str_eq p (codes "cwd")
    then p_cwd
    else if str_eq p (codes "fd")
    then p_fd
    else fd_entry t (after (codes "fd/") p)

abbrev pub pid_class : FdTable → Option CString → ProcClass
pid_class t none = p_none
pid_class t (some []) = p_self
pid_class t (some (c ∷ p)) = self_class t p

unfoldable pub proc_classify : FdTable → CString → ProcClass
proc_classify t rel =
    if null rel
    then p_root
    else if str_eq rel (codes "self")
    then p_selflink
    else pid_class t (below_self rel)

unfoldable pub proc_mode : ProcClass → ℕ
proc_mode p_root = s_ifdir + 0o555
proc_mode p_self = s_ifdir + 0o555
proc_mode p_fd = s_ifdir + 0o500
proc_mode p_maps = s_ifreg + 0o444
proc_mode p_exe = s_iflnk + 0o777
proc_mode p_cwd = s_iflnk + 0o777
proc_mode (p_fdn n) = s_iflnk + 0o777
proc_mode p_selflink = s_iflnk + 0o777
proc_mode p_none = 0

abbrev pub is_proc_dir : ProcClass → Bool
is_proc_dir p_root = true
is_proc_dir p_self = true
is_proc_dir p_fd = true
is_proc_dir _ = false

abbrev pub is_none : ProcClass → Bool
is_none p_none = true
is_none _ = false

abbrev pub class_stat : ProcClass → ProcState → KStat
class_stat c s =
    let st =
      kstat_synthetic s.now proc_dev (proc_ino (class_no c * 4096 + fdn_of c)) (proc_mode c) 0 in
    if is_proc_dir c then record st { nlink = 2 } else st

unfoldable pub procfs_stat : CString → ProcState → Result KStat
procfs_stat rel s =
    let c = proc_classify s.fds rel in if is_none c then err enoent else ok (class_stat c s)

-- What the link of a descriptor names.
abbrev pub link_text : File → CString
link_text f = elim (f.kind) [
  | Kind.pipe ↦ codes "pipe:[" ++ (decimal f.priv_i ++ codes "]")
  | Kind.console ↦ codes "/dev/console"
  | _ ↦ f.path
]

-- The description behind a descriptor.
abbrev pub file_at : ProcState → Option ℕ → Option File
file_at s none = none
file_at s (some a) = s.files a

abbrev pub fd_text : Option File → Result CString
fd_text none = err enoent
fd_text (some f) = ok (link_text f)

-- The text that the link holds, before it is cut to the caller's buffer.
unfoldable pub proc_link : ProcClass → ProcState → Result CString
proc_link p_selflink s = ok (codes "1")
proc_link p_exe s = ok s.exe_path
proc_link p_cwd s = ok s.cwd
proc_link (p_fdn n) s = fd_text (file_at s (fd_get s.fds (pos n)))
proc_link p_none s = err enoent
proc_link _ s = err einval

-- The length of the whole text, and the bytes that a buffer of `room` bytes receives.
abbrev pub into_buffer : ℕ → Result CString → Result (ℕ × CString)
into_buffer room (ok t) = ok (length t, take room t)
into_buffer room (err e) = err e

unfoldable pub procfs_readlink : CString → ℕ → ProcState → Result (ℕ × CString)
procfs_readlink rel room s = into_buffer room (proc_link (proc_classify s.fds rel) s)
