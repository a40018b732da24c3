-- ===== src/Walk/Tests.antt =====
-- The walk of core/vfs.c through the symlink `/a/l`, whose target is `/d`.
use elf_sysv_nt.Common.{◌≡◌, refl, true, none, [], codes, arith, str_eq}
use elf_sysv_nt.Common.Errno.{ok, err, enotdir}
use elf_sysv_nt.Host.Toy.{toy, drop_handle}
use elf_sysv_nt.Stat.{kstat_of, mode_of, kind_type, is_program}
use elf_sysv_nt.Mount.{Mount, mount_of, best_from, hits, mount_at}
use elf_sysv_nt.Path.{path_join, path_parent, path_rel, base_name, last_slash}
use elf_sysv_nt.Walk.{
  Loc, w_none, walk, walk_loop, walk_step, enter, splice, finish, locate, segments,
}
use elf_sysv_nt.Walk.{
  stat_abs, stat_on, stat_host, open_host_dir, open_chain, pieces, require_dir, readlink_abs,
}
use elf_sysv_nt.Walk.{readlink_on, readlink_host, open_object}
use elf_sysv_nt.Walk.Toy.{toy_ctx, no_synth}
use elf_sysv_nt.Walk.Canonical.{walk-IsPlace}
use elf_sysv_nt.Walk.Landing.{IsPlace}

abbrev head_mount : Mount
head_mount = record {
  type = elf_sysv_nt.Mount.mnt_host;
  point = codes "/";
  root = 1000;
  dev = 1;
  lx_capable = true;
  default_uid = 0;
  default_gid = 0;
}

abbrev at_d_b : Loc
at_d_b = record { seat = (0, head_mount); abs = codes "/d/b"; last = []; rel = codes "d/b" }

through_link : walk toy no_synth toy_ctx none (codes "/a/../a/./l//b") w_none [] ≡ (ok at_d_b, [])
unfolding walk walk_loop walk_step enter splice finish locate segments stat_abs stat_on stat_host
    open_host_dir open_chain pieces require_dir readlink_abs readlink_on readlink_host open_object
    mount_of best_from hits mount_at path_join path_parent path_rel base_name last_slash kstat_of
    mode_of kind_type str_eq drop_handle is_program
through_link = refl

file_on_the_way : (walk toy no_synth toy_ctx none (codes "/f/b") w_none []).0 ≡ err enotdir
unfolding walk walk_loop walk_step enter splice finish locate segments stat_abs stat_on stat_host
    open_host_dir open_chain pieces require_dir readlink_abs readlink_on readlink_host open_object
    mount_of best_from hits mount_at path_join path_parent path_rel base_name last_slash kstat_of
    mode_of kind_type str_eq drop_handle is_program
file_on_the_way = refl

lands_at : (walk toy no_synth toy_ctx none (codes "/a/../a/./l//b") w_none []).0 ≡ ok at_d_b
lands_at = ground (arith, through_link)

walk-IsPlace_example : IsPlace (codes "/d/b")
walk-IsPlace_example =
    walk-IsPlace toy no_synth toy_ctx none (codes "/a/../a/./l//b") w_none [] at_d_b
      (([], refl, tt), omega arith) tt lands_at
