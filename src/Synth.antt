-- ===== src/Synth.antt =====
-- core/vfs_synth.c behind core/vfs.c: /proc and /dev as the VFS calls them. `view` is what the
-- kernel's state shows to /proc.
mod Tests
use elf_sysv_nt.Common.{ℕ, Bool, true, false, CString}
use elf_sysv_nt.Common.Errno.{Result, ok, err, enoent}
use elf_sysv_nt.File.{Kind}
use elf_sysv_nt.Mount.{MountType, mnt_proc, mnt_dev}
use elf_sysv_nt.Walk.{SynthFs}
use elf_sysv_nt.Open.{SynthOpen, OFlags}
use elf_sysv_nt.Proc.{ProcState, procfs_stat, procfs_readlink}
use elf_sysv_nt.Proc.Dir.{ProcOpen, procfs_open}
use elf_sysv_nt.Dev.{DevOpen, devfs_stat, devfs_readlink, devfs_open}

-- The walk and vfs_readlink pass a buffer of LX_PATH_MAX bytes.
abbrev buffer_size : ℕ
buffer_size = 4096

abbrev text_of : Result (ℕ × CString) → Result CString
text_of (ok (n, t)) = ok t
text_of (err e) = err e

abbrev proc_file : Result ProcOpen → Result (Kind × CString)
proc_file (ok f) = ok (Kind.proc, f.path)
proc_file (err e) = err e

abbrev dev_file : Result DevOpen → Result (Kind × CString)
dev_file (ok f) = ok (Kind.dev, f.path)
dev_file (err e) = err e

module _ {S : Type 0} (view : S → ProcState) (has_memory : S → Bool) where
  abbrev pub kernel_synth : SynthFs S
  kernel_synth = record {
    proc_stat = λ rel s. procfs_stat rel (view s);
    dev_stat = λ rel s. devfs_stat (view s).now rel;
    proc_readlink = λ rel s. text_of (procfs_readlink rel buffer_size (view s));
    dev_readlink = λ rel s. text_of (devfs_readlink rel buffer_size);
  }

  abbrev opened_on : MountType → CString → OFlags → S → Result (Kind × CString)
  opened_on mnt_proc rel fl s =
      proc_file (procfs_open rel fl (has_memory s) (has_memory s) (view s))
  opened_on mnt_dev rel fl s = dev_file (devfs_open rel fl (has_memory s))
  opened_on _ rel fl s = err enoent

  abbrev pub kernel_opens : SynthOpen S
  kernel_opens = record { open_at_rel = opened_on; has_memory = has_memory }
