-- ===== src/Snap.antt =====
-- core/vfs_synth.c, snap_*: a description whose content was generated at open, read from a buffer.
pub mod Whole
mod Tests
use elf_sysv_nt.Common.{
  ℕ, zero, suc, ◌+◌, ◌-◌, Bool, true, false, ◌||◌, Option, none, some, List, [], ◌∷◌, ◌++◌, ℤ, pos,
  negsuc, length, take, drop, ltb, leb, if◌then◌else◌,
}
use elf_sysv_nt.Common.Int.{◌+ℤ◌, is_negative, pos_part}
use elf_sysv_nt.Common.Errno.{Result, ok, err, einval}

-- `priv` and `pos` of the description; `priv_i` is the buffer's length. `none` is no buffer, which a
-- link that was opened by O_PATH has.
pub record Snap : Type 0 where
  pub text : Option (List ℕ)
  pub at : ℕ

-- `min(total - at, len)` bytes from `at` on, past the end none.
abbrev pub part : List ℕ → ℕ → ℕ → List ℕ
part text at len =
    if leb (length text) at
    then []
    else take (if ltb len (length text - at) then len else length text - at) (drop at text)

-- The bytes read, and the description with its position behind them.
unfoldable pub snap_read : Snap → ℕ → List ℕ × Snap
snap_read f len = elim (f.text) [
  | none ↦ ([], f)
  | some text ↦ let bytes = part text f.at len in (bytes, record f { at = f.at + length bytes })
]

unfoldable pub snap_pread : Snap → ℕ → ℕ → List ℕ
snap_pread f len off = elim (f.text) [ none ↦ [] | some text ↦ part text off len ]

unfoldable pub snap_write : Snap → List ℕ → Result ℕ
snap_write f bytes = err einval

-- `SEEK_SET`, `SEEK_CUR`, `SEEK_END` and any other value.
pub data Whence : Type 0 where
  seek_set seek_cur seek_end seek_other : Whence

abbrev total : Option (List ℕ) → ℕ
total none = 0
total (some text) = length text

abbrev seek_base : Whence → Snap → ℤ
seek_base seek_set f = pos 0
seek_base seek_cur f = pos f.at
seek_base seek_end f = pos (total f.text)
seek_base seek_other f = negsuc 0

-- Numbers are not cut to 64 bits.
unfoldable pub snap_lseek : Snap → ℤ → Whence → Result ℕ × Snap
snap_lseek f off whence =
    let base = seek_base whence f in
    if is_negative base || is_negative (base +ℤ off)
    then (err einval, f)
    else (ok (pos_part (base +ℤ off)), record f { at = pos_part (base +ℤ off) })

unfoldable pub snap_release : Snap → Snap
snap_release f = record f { text = none }
