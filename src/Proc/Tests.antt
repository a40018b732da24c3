-- ===== src/Proc/Tests.antt =====
-- core/vfs_synth.c, /proc: runs at concrete inputs.
use elf_sysv_nt.Common.{
  ◌+◌, ◌≡◌, refl, false, none, some, [], ◌∷◌, ◌++◌, All, codes, length, pos, arith, replicate,
  str_eq,
}
use elf_sysv_nt.Common.Decimal.{strtol}
use elf_sysv_nt.File.{File, Kind, FdTable, new_file, fd_get}
use elf_sysv_nt.Dirent.Listing.{read_dir}
use elf_sysv_nt.Proc.{ProcState, p_self, p_maps, p_exe, p_cwd, p_none, class_no, proc_classify}
use elf_sysv_nt.Proc.Dir.{Entry, proc_names, proc_getdents}
use elf_sysv_nt.Proc.Listing.{
  opened_dir, numbered, dots, HasType, prefix, read_dir-proc_getdents, proc_names-HasType,
}

abbrev console : File
console = record (new_file Kind.console 0) { path = codes "/dev/console" }

-- Descriptor 0 alone is open, on the console.
abbrev one_open : FdTable
one_open = record { slots = some 7 ∷ replicate 1023 none; cloexec = replicate 1024 false }

abbrev state : ProcState
state = record {
  exe_path = codes "/bin/sh";
  cwd = codes "/root";
  fds = one_open;
  files = λ a. some console;
  map = [];
  now = pos 1000;
}

maps_found : proc_classify one_open (codes "1/maps") ≡ p_maps
unfolding proc_classify str_eq
maps_found = refl

exe_found : proc_classify one_open (codes "self/exe") ≡ p_exe
unfolding proc_classify str_eq
exe_found = refl

cwd_found : proc_classify one_open (codes "1/cwd") ≡ p_cwd
unfolding proc_classify str_eq
cwd_found = refl

self_alone : proc_classify one_open (codes "self/") ≡ p_none
unfolding proc_classify str_eq strtol
self_alone = refl

closed_descriptor : proc_classify one_open (codes "self/fd/3") ≡ p_none
unfolding proc_classify str_eq strtol fd_get
closed_descriptor = refl

read_dir-proc_getdents_example :
    read_dir
      (proc_getdents (some (opened_dir p_self one_open)) 40)
      (length (proc_names p_self one_open) + 3)
      0
    ≡ some (numbered (class_no p_self) 0 (dots ++ proc_names p_self one_open))
read_dir-proc_getdents_example = read_dir-proc_getdents p_self one_open 40 (omega arith)

proc_names-HasType_example :
    All (λ (e : Entry). HasType state (prefix p_self ++ e.name) e.type) (proc_names p_self one_open)
proc_names-HasType_example = proc_names-HasType state p_self refl
