-- ===== src/Open/Tests.antt =====
-- vfs_open of core/vfs.c on the host store of the tests.
use elf_sysv_nt.Common.{true, false, none, codes}
use elf_sysv_nt.Host.Toy.{toy, toy_is_open, toy_laws}
use elf_sysv_nt.Walk.Toy.{toy_ctx, no_synth}
use elf_sysv_nt.Open.{OFlags, rdwr, vfs_open}
use elf_sysv_nt.Open.Toy.{no_opens}
use elf_sysv_nt.Open.Handles.{vfs_open-IsOpening}
use elf_sysv_nt.Open.Holds.{IsOpening}

abbrev create_rdwr : OFlags
create_rdwr = record {
  acc = rdwr;
  creat = true;
  excl = false;
  trunc = true;
  append = false;
  directory = false;
  no_follow = false;
  path = false;
}

vfs_open-IsOpening_example :
    IsOpening toy_is_open
      (vfs_open toy no_synth no_opens toy_ctx none (codes "/a/f") create_rdwr 0o644)
vfs_open-IsOpening_example =
    vfs_open-IsOpening toy no_synth no_opens toy_is_open toy_laws toy_ctx none (codes "/a/f")
      create_rdwr 0o644
