-- ===== src/Stat/Tests.antt =====
-- The permission check of core/vfs.c on a file that its owner and group may read and write.
use elf_sysv_nt.Common.{◌≡◌, refl, true, false, arith, pos, if◌then◌else◌}
use elf_sysv_nt.Common.Errno.{ok, err, eacces}
use elf_sysv_nt.Host.{HostStat}
use elf_sysv_nt.Host.HostKind.{file}
use elf_sysv_nt.Stat.{KStat, Cred, may, kstat_synthetic}
use elf_sysv_nt.Stat.Perm.{may-user, grants, triple_of}

abbrev shared_file : KStat
shared_file = kstat_synthetic (pos 0) 1 7 0o100640 12

abbrev user : Cred
user = record { uid = 5; gid = 0; euid = 5; egid = 0 }

abbrev root : Cred
root = record { uid = 0; gid = 0; euid = 0; egid = 0 }

group_reads : may user shared_file 4 true ≡ ok tt
unfolding may kstat_synthetic
group_reads = refl

group_writes : may user shared_file 2 true ≡ err eacces
unfolding may kstat_synthetic
group_writes = refl

may-user_example :
    may user shared_file 6 true
    ≡ (if grants (triple_of user shared_file) 6 then ok tt else err eacces)
may-user_example = may-user user shared_file 6 (omega arith) (omega arith)

-- A file whose LX attribute says that it is a character device.
abbrev stale_device : HostStat
stale_device = record {
  ino = 1;
  size = 0;
  blocks = 0;
  nlink = 1;
  has_uid = false;
  has_gid = false;
  has_mode = true;
  has_dev = true;
  mode = 0o020666;
  uid = 0;
  gid = 0;
  rdev_major = 1;
  rdev_minor = 3;
  atime = pos 0;
  mtime = pos 0;
  ctime = pos 0;
  btime = pos 0;
  kind = file;
}
