-- ===== src/Dirent.antt =====
-- core/vfs.c and core/vfs_synth.c: the entries that getdents64 writes, and the loop with which the
-- generated directories write as many as a buffer holds. A buffer is the list of the bytes written
-- so far, whose length is `*used`.
pub mod Read
pub mod Chunks
pub mod Listing
mod Tests
use elf_sysv_nt.Common.{
  ℕ, zero, suc, ◌+◌, ◌-◌, ◌*◌, ◌/◌, ◌%◌, Bool, true, false, List, [], ◌∷◌, ◌++◌, CString, length,
  replicate, null, ltb, if◌then◌else◌,
}
use elf_sysv_nt.Common.Bytes.{put_le}
use elf_sysv_nt.Common.Errno.{Result, ok, err, einval}
use elf_sysv_nt.Host.{HostKind}

-- The arguments of `dirent_pack` that say what is written.
pub record Dirent : Type 0 where
  pub ino : ℕ
  pub off : ℕ
  pub type : ℕ
  pub name : CString

-- `DT_*`
abbrev pub dt_chr : ℕ
dt_chr = 2

abbrev pub dt_dir : ℕ
dt_dir = 4

abbrev pub dt_reg : ℕ
dt_reg = 8

abbrev pub dt_lnk : ℕ
dt_lnk = 10

unfoldable pub dtype_of : HostKind → ℕ
dtype_of HostKind.dir = dt_dir
dtype_of HostKind.lxlink = dt_lnk
dtype_of HostKind.winlink = dt_lnk
dtype_of HostKind.fifo = 1
dtype_of HostKind.chr = dt_chr
dtype_of HostKind.blk = 6
dtype_of HostKind.sock = 12
dtype_of HostKind.file = dt_reg
dtype_of HostKind.other = dt_reg

-- `rec`: the header, the name with its terminator, rounded up to 8.
abbrev pub record_len : CString → ℕ
record_len name = (19 + length name + 1 + 7) / 8 * 8

-- What the `memcpy` and `memset` calls write.
unfoldable pub dirent_bytes : Dirent → List ℕ
dirent_bytes d =
    put_le 8 d.ino
    ++ (put_le 8 d.off
        ++ (put_le 2 (record_len d.name)
            ++ (d.type
                ∷ (d.name ++ (0 ∷ replicate (record_len d.name - 19 - length d.name - 1) 0)))))

-- The bytes with the entry behind them, where the buffer of `cap` bytes has the room.
unfoldable pub dirent_pack : ℕ → List ℕ → Dirent → Result (List ℕ)
dirent_pack cap out d =
    if ltb cap (length out + record_len d.name) then err einval else ok (out ++ dirent_bytes d)

-- What a call returns that has no room for the next entry.
abbrev pub no_room_for_next : List ℕ → Result (List ℕ)
no_room_for_next out = if null out then err einval else ok out

-- The loop of proc_getdents and devdir_getdents with `n` entries left from `at` on; the new
-- position is beside the result.
unfoldable pub getdents_loop : (ℕ → Dirent) → ℕ → ℕ → ℕ → List ℕ → Result (List ℕ) × ℕ
getdents_loop entry cap zero at out = (ok out, at)
getdents_loop entry cap (suc n) at out = elim (dirent_pack cap out (entry at)) [
  | err e ↦ (no_room_for_next out, at)
  | ok out' ↦ getdents_loop entry cap n (suc at) out'
]

-- A call on a directory of `total` entries whose `f->pos` is `at`.
unfoldable pub getdents_from : (ℕ → Dirent) → ℕ → ℕ → ℕ → Result (List ℕ) × ℕ
getdents_from entry total cap at = getdents_loop entry cap (total - at) at []
