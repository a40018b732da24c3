-- ===== src/Tree/Tests.antt =====
-- The tree operations of core/vfs.c on the host store of the tests.
use elf_sysv_nt.Common.{false, none, [], codes}
use elf_sysv_nt.Host.{IsQuiet}
use elf_sysv_nt.Host.Toy.{toy, toy_is_open, toy_laws}
use elf_sysv_nt.Walk.Toy.{toy_ctx, no_synth}
use elf_sysv_nt.Open.Toy.{no_opens}
use elf_sysv_nt.Tree.{vfs_rename}
use elf_sysv_nt.Tree.Handles.{vfs_rename-IsQuiet}

vfs_rename-IsQuiet_example : IsQuiet toy_is_open (
    vfs_rename toy no_synth no_opens [] toy_ctx none (codes "/a/f") none (codes "/b/f") false false)
vfs_rename-IsQuiet_example =
    vfs_rename-IsQuiet toy no_synth no_opens [] toy_is_open toy_laws toy_ctx none (codes "/a/f")
      none (codes "/b/f") false false
