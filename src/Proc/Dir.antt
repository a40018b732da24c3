-- ===== src/Proc/Dir.antt =====
-- core/vfs_synth.c: opening what /proc holds, and listing its directories.
use elf_sysv_nt.Common.{
  ℕ, zero, suc, ◌+◌, ◌-◌, ◌*◌, Bool, true, false, Option, none, some, List, [], ◌∷◌, ◌++◌, CString,
  codes, length, take, null, get_or, ◌==◌, if◌then◌else◌, ℤ, pos,
}
use elf_sysv_nt.Common.Decimal.{decimal}
use elf_sysv_nt.Common.Errno.{Result, ok, err, enoent, einval, eloop, eisdir, enomem}
use elf_sysv_nt.File.{FdTable, fd_get, is_free, nr_open_default}
use elf_sysv_nt.Stat.{KStat, kstat_synthetic, s_ifreg}
use elf_sysv_nt.Vma.{Map}
use elf_sysv_nt.Vma.Render.{vma_render_maps}
use elf_sysv_nt.Open.{OFlags, is_rdonly}
use elf_sysv_nt.Dirent.{Dirent, dt_dir, dt_reg, dt_lnk, getdents_from}
use elf_sysv_nt.Snap.{Snap}
use elf_sysv_nt.Proc.{
  ProcState, ProcClass, p_root, p_self, p_fd, p_maps, p_none, class_no, proc_classify, proc_mode,
  proc_dev, proc_ino,
}

-- A name of a directory with its `DT_*`.
pub record Entry : Type 0 where
  pub name : CString
  pub type : ℕ

-- The descriptors that are open, from `i` on with `n` left.
unfoldable pub fd_names : FdTable → ℕ → ℕ → List Entry
fd_names t zero i = []
fd_names t (suc n) i =
    let rest = fd_names t n (suc i) in
    if is_free (fd_get t (pos i)) then rest else record { name = decimal i; type = dt_lnk } ∷ rest

-- `struct proc_dir`
pub record ProcDir : Type 0 where
  pub cls : ProcClass
  pub names : List Entry

-- The names that the open of a directory renders.
unfoldable pub proc_names : ProcClass → FdTable → List Entry
proc_names p_root t =
    record { name = codes "self"; type = dt_lnk } ∷ record { name = codes "1"; type = dt_dir } ∷ []
proc_names p_self t =
    record { name = codes "cwd"; type = dt_lnk }
    ∷ record { name = codes "exe"; type = dt_lnk }
    ∷ record { name = codes "fd"; type = dt_dir }
    ∷ record { name = codes "maps"; type = dt_reg }
    ∷ []
proc_names _ t = fd_names t nr_open_default 0

abbrev pub no_entry : Entry
no_entry = record { name = []; type = 0 }

-- The name and type at a position: "." and ".." come before the names.
unfoldable pub listed : List Entry → ℕ → Entry
listed names at =
    if at == 0
    then record { name = codes "."; type = dt_dir }
    else if at == 1
    then record { name = codes ".."; type = dt_dir }
    else get_or names (at - 2) no_entry

unfoldable pub proc_entry : ProcDir → ℕ → Dirent
proc_entry d at = record {
  ino = proc_ino (class_no d.cls * 4096 + at);
  off = at + 1;
  type = (listed d.names at).type;
  name = (listed d.names at).name;
}

-- `none` is a description without a directory. The new position is beside the result.
unfoldable pub proc_getdents : Option ProcDir → ℕ → ℕ → Result (List ℕ) × ℕ
proc_getdents none room at = (err einval, at)
proc_getdents (some d) room at = getdents_from (proc_entry d) (length d.names + 2) room at

-- `SEEK_SET` is 0 and `SEEK_CUR` is 1. The new position is beside the result.
unfoldable pub proc_dir_lseek : ℕ → ℤ → ℕ → Result ℕ × ℕ
proc_dir_lseek at (pos zero) zero = (ok 0, 0)
proc_dir_lseek at (pos zero) (suc zero) = (ok at, at)
proc_dir_lseek at _ _ = (err einval, at)

-- What an open gives: a link's description without content, a directory, or the generated maps.
pub data ProcFile : Type 0 where
  link_file : ProcFile
  dir_file : ProcDir → ProcFile
  maps_file : Snap → ProcFile

pub record ProcOpen : Type 0 where
  pub content : ProcFile
  pub path : CString

abbrev pub path_max : ℕ
path_max = 4096

-- `snprintf(f->path, sizeof f->path, …)`
abbrev pub cut_path : CString → CString
cut_path p = take (path_max - 1) p

-- `buffer` and `file` tell whether the allocations of the content and of the description succeed.
abbrev pub with_file : Bool → ProcOpen → Result ProcOpen
with_file true f = ok f
with_file false f = err enomem

abbrev open_link : OFlags → Bool → CString → Result ProcOpen
open_link fl file rel =
    if fl.path
    then with_file file (record { content = link_file; path = cut_path (codes "/proc/" ++ rel) })
    else err eloop

abbrev open_dir : ProcClass → OFlags → (buffer file : Bool) → CString → FdTable → Result ProcOpen
open_dir c fl buffer file rel t =
    if is_rdonly fl.acc
    then (if buffer
        then with_file file (record {
          content = dir_file (record { cls = c; names = proc_names c t });
          path = cut_path (codes "/proc" ++ ((if null rel then [] else codes "/") ++ rel));
        })
        else err enomem)
    else err eisdir

abbrev maps_size : ℕ
maps_size = 65536

abbrev open_maps : (buffer file : Bool) → CString → Map → Result ProcOpen
open_maps buffer file rel m =
    if buffer
    then with_file file (record {
      content = maps_file (record { text = some (vma_render_maps m maps_size); at = 0 });
      path = cut_path (codes "/proc/" ++ rel);
    })
    else err enomem

open_class : ProcClass → OFlags → (buffer file : Bool) → CString → ProcState → Result ProcOpen
open_class p_none fl buffer file rel s = err enoent
open_class p_root fl buffer file rel s = open_dir p_root fl buffer file rel s.fds
open_class p_self fl buffer file rel s = open_dir p_self fl buffer file rel s.fds
open_class p_fd fl buffer file rel s = open_dir p_fd fl buffer file rel s.fds
open_class p_maps fl buffer file rel s = open_maps buffer file rel s.map
open_class _ fl buffer file rel s = open_link fl file rel

unfoldable pub procfs_open : CString → OFlags → (buffer file : Bool) → ProcState → Result ProcOpen
unfolding open_class
procfs_open rel fl buffer file s = open_class (proc_classify s.fds rel) fl buffer file rel s

-- fstat on the generated file and on a directory. A description without a directory answers as the
-- root does.
unfoldable pub proc_file_stat : Snap → ℤ → KStat
proc_file_stat f now =
    let size : ℕ = elim (f.text) [ none ↦ 0 | some text ↦ length text ] in
    kstat_synthetic now proc_dev (proc_ino (size + 7)) (s_ifreg + 0o444) 0

unfoldable pub proc_dir_stat : Option ProcDir → ℤ → KStat
proc_dir_stat none now = record (kstat_synthetic now proc_dev (proc_ino 0) (proc_mode p_root) 0) {
  nlink = 2;
}
proc_dir_stat (some d) now =
    record (kstat_synthetic now proc_dev (proc_ino (class_no d.cls * 4096)) (proc_mode d.cls) 0) {
      nlink = 2;
    }
