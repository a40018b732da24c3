-- ===== src/Snap/Tests.antt =====
-- core/vfs_synth.c, snap_*: runs at concrete inputs.
use elf_sysv_nt.Common.{◌≡◌, refl, some, codes, negsuc, arith}
use elf_sysv_nt.Common.Errno.{ok, err, einval}
use elf_sysv_nt.Snap.{Snap, snap_read, snap_lseek, seek_set, seek_end}
use elf_sysv_nt.Snap.Whole.{read_to_end, read_to_end-whole}

abbrev text : Snap
text = record { text = some (codes "vdso"); at = 1 }

two_bytes : snap_read text 2 ≡ (codes "ds", record text { at = 3 })
unfolding snap_read
two_bytes = refl

from_the_end : snap_lseek text (negsuc 0) seek_end ≡ (ok 3, record text { at = 3 })
unfolding snap_lseek
from_the_end = refl

before_the_start : snap_lseek text (negsuc 0) seek_set ≡ (err einval, text)
unfolding snap_lseek
before_the_start = refl

read_to_end-whole_example :
    read_to_end 5 3 (record { text = some (codes "vdso"); at = 0 }) ≡ some (codes "vdso")
read_to_end-whole_example = read_to_end-whole (codes "vdso") 3 (omega arith)
