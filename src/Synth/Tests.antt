-- ===== src/Synth/Tests.antt =====
-- core/vfs.c over the /proc and /dev of core/vfs_synth.c, on the host store of the tests.
use elf_sysv_nt.Common.{◌≡◌, refl, true, false, none, CString, [], ◌∷◌, codes, pos, str_eq}
use elf_sysv_nt.Common.Decimal.{strtol}
use elf_sysv_nt.Common.Errno.{Result, ok, err}
use elf_sysv_nt.Host.Toy.{toy}
use elf_sysv_nt.Stat.{kstat_synthetic}
use elf_sysv_nt.Mount.{mount_at, Mount, mnt_proc, mnt_dev, FsCtx, mount_of, best_from, hits}
use elf_sysv_nt.Path.{starts_with, path_join, path_parent, path_rel, base_name, last_slash}
use elf_sysv_nt.Walk.{Loc, walk, walk_loop, walk_step, enter, finish, locate, segments, splice}
use elf_sysv_nt.Walk.{stat_abs, stat_on, readlink_abs, readlink_on, w_none, require_dir}
use elf_sysv_nt.Walk.Toy.{toy_ctx}
use elf_sysv_nt.File.{fdtable_init}
use elf_sysv_nt.Proc.{
  ProcState, proc_classify, proc_mode, procfs_stat, procfs_readlink, proc_link, class_no,
}
use elf_sysv_nt.Dev.{devfs_stat, dev_find, find_from}
use elf_sysv_nt.Synth.{kernel_synth}

abbrev state : ProcState
state = record {
  exe_path = codes "/dev/null";
  cwd = codes "/";
  fds = fdtable_init;
  files = λ a. none;
  map = [];
  now = pos 1000;
}

abbrev synthetic : Mount
synthetic = record {
  type = mnt_proc;
  point = codes "/proc";
  root = 0;
  dev = 4;
  lx_capable = false;
  default_uid = 0;
  default_gid = 0;
}

abbrev ctx : FsCtx
ctx = record toy_ctx {
  mounts = synthetic ∷ record synthetic { type = mnt_dev; point = codes "/dev"; dev = 5 } ∷ [];
}

abbrev abs_of : Result Loc → CString
abs_of (ok loc) = loc.abs
abs_of (err e) = []

-- The walk follows the link exe below /proc/self, which is a link itself, to a device.
through_exe :
    abs_of
      (walk toy
        (kernel_synth (λ s. state) (λ s. true))
        ctx
        none
        (codes "/proc/self/exe")
        w_none
        []).0
    ≡ codes "/dev/null"
unfolding walk walk_loop walk_step enter finish locate segments stat_abs stat_on splice readlink_abs
    readlink_on mount_of best_from hits path_join path_parent path_rel base_name last_slash str_eq
    require_dir proc_classify proc_mode procfs_stat procfs_readlink proc_link class_no devfs_stat
    dev_find find_from kstat_synthetic strtol mount_at starts_with
through_exe = refl
