-- ===== src/Attr/Tests.antt =====
-- The attribute operations of core/vfs.c on the host store of the tests.
use elf_sysv_nt.Common.{◌≡◌, refl, none, [], codes, arith}
use elf_sysv_nt.Common.{str_eq}
use elf_sysv_nt.Common.Errno.{ok}
use elf_sysv_nt.Host.Toy.{toy, drop_handle}
use elf_sysv_nt.Stat.{kstat_of, mode_of, kind_type, may}
use elf_sysv_nt.Mount.{mount_of, best_from, hits, mount_at, FsCtx}
use elf_sysv_nt.Path.{path_join, path_parent, path_rel, base_name, last_slash}
use elf_sysv_nt.Walk.{walk, walk_loop, walk_step, enter, finish, locate, segments}
use elf_sysv_nt.Walk.{stat_abs, stat_on, stat_host, open_host_dir, open_chain, pieces, require_dir}
use elf_sysv_nt.Walk.Toy.{toy_ctx, no_synth}
use elf_sysv_nt.Walk.Landing.{IsPlace}
use elf_sysv_nt.Open.Toy.{no_opens}
use elf_sysv_nt.Attr.{vfs_chdir}
use elf_sysv_nt.Attr.Rules.{vfs_chdir-IsPlace}

root-IsPlace : IsPlace (codes "/")
root-IsPlace = (([], refl, tt), omega arith)

abbrev in_a : FsCtx
in_a = record toy_ctx { cwd = codes "/a" }

entered : (vfs_chdir toy no_synth no_opens [] toy_ctx none (codes "/a/b/..") []).0 ≡ ok in_a
unfolding vfs_chdir walk walk_loop walk_step enter finish locate segments stat_abs stat_on stat_host
    open_host_dir open_chain pieces require_dir mount_of best_from hits mount_at path_join
    path_parent path_rel base_name last_slash kstat_of mode_of kind_type str_eq drop_handle may
entered = refl

vfs_chdir-IsPlace_example : IsPlace (codes "/a")
vfs_chdir-IsPlace_example =
    vfs_chdir-IsPlace toy no_synth no_opens [] toy_ctx none (codes "/a/b/..") [] in_a root-IsPlace
      tt entered
