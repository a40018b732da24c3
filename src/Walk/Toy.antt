-- ===== src/Walk/Toy.antt =====
-- A process on the host store of the tests, with a root mount alone, and the empty /proc and /dev.
use elf_sysv_nt.Common.{ℕ, true, List, [], ◌∷◌, codes}
use elf_sysv_nt.Common.Errno.{err, enoent}
use elf_sysv_nt.Mount.{mnt_host, FsCtx}
use elf_sysv_nt.Walk.{SynthFs}

-- A root mount on the handle 1000, and no other.
abbrev pub toy_ctx : FsCtx
toy_ctx = record {
  mounts =
      record {
        type = mnt_host;
        point = codes "/";
        root = 1000;
        dev = 1;
        lx_capable = true;
        default_uid = 0;
        default_gid = 0;
      }
      ∷ [];
  cwd = codes "/";
  umask = 0o022;
  cred = record { uid = 0; gid = 0; euid = 0; egid = 0 };
}

abbrev pub no_synth : SynthFs (List ℕ)
no_synth = record {
  proc_stat = λ rel s. err enoent;
  dev_stat = λ rel s. err enoent;
  proc_readlink = λ rel s. err enoent;
  dev_readlink = λ rel s. err enoent;
}
