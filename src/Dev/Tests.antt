-- ===== src/Dev/Tests.antt =====
-- core/vfs_synth.c, /dev: runs at concrete inputs.
use elf_sysv_nt.Common.{ℕ, ◌+◌, ◌≡◌, refl, true, false, some, codes, length, pos, arith, str_eq}
use elf_sysv_nt.Common.Errno.{ok, err, enoent}
use elf_sysv_nt.Open.{OFlags, Access}
use elf_sysv_nt.Dirent.Listing.{read_dir}
use elf_sysv_nt.Dev.{
  find_from, dev_find, devfs_stat, devfs_readlink, devfs_open, dev_entry, devdir_getdents,
}
use elf_sysv_nt.Dev.Random.{HostConsole, DevState, dev_read}
use elf_sysv_nt.Dev.Nodes.{AllOpens, devfs_open-AllOpens}
use elf_sysv_nt.Dev.Listing.{
  IsListed, shown, numbered, read_dir-devdir_getdents, dev_entry-IsListed,
}

-- A console whose reads and writes count the calls.
abbrev counting : HostConsole ℕ
counting = record {
  read = λ fd len n. (ok (codes "a"), n + 1);
  write = λ fd bytes n. (ok (length bytes), n + 1);
}

abbrev start : DevState ℕ
start = record { rng_state = 0; host = 0 }

abbrev plain : OFlags
plain = record {
  acc = Access.rdonly;
  creat = false;
  excl = false;
  trunc = false;
  append = false;
  directory = false;
  no_follow = false;
  path = false;
}

tty_reads_the_console : dev_read counting 0 5 start ≡ (ok (codes "a"), record start { host = 1 })
unfolding dev_read
tty_reads_the_console = refl

no_such_node : devfs_readlink (codes "sda") 8 ≡ err enoent
unfolding devfs_readlink dev_find find_from str_eq
no_such_node = refl

devfs_open-AllOpens_example :
    AllOpens (pos 9) (devfs_stat (pos 9) (codes "full")) (devfs_open (codes "full") plain true)
devfs_open-AllOpens_example = devfs_open-AllOpens (pos 9) plain true (codes "full")

read_dir-devdir_getdents_example : read_dir (devdir_getdents 100) 14 0 ≡ some (numbered 0 shown)
read_dir-devdir_getdents_example = read_dir-devdir_getdents 100 (omega arith)

dev_entry-IsListed_example : IsListed (pos 9) (dev_entry 4)
dev_entry-IsListed_example = dev_entry-IsListed (pos 9) 4 (omega arith) (omega arith)
