-- ===== src/Path.antt =====
-- core/vfs.c, path arithmetic: canonical absolute paths as C strings.
pub mod Canon
mod Tests
use elf_sysv_nt.Common.{
  ℕ, zero, suc, ◌+◌, Bool, true, false, ◌&&◌, Option, none, some, List, [], ◌∷◌, ◌++◌,
}
use elf_sysv_nt.Common.{CString, codes, length, take, drop, ltb, ◌==◌, if◌then◌else◌, null}
use elf_sysv_nt.Common.Errno.{Result, ok, err, enametoolong}

-- `LX_PATH_MAX` and `LX_NAME_MAX`
abbrev pub path_max : ℕ
path_max = 4096

abbrev pub name_max : ℕ
name_max = 255

abbrev pub slash : ℕ
slash = b'/'

-- `strrchr(s, '/') - s`
unfoldable pub last_slash : CString → Option ℕ
last_slash [] = none
last_slash (c ∷ s) = elim (last_slash s) [
  | some i ↦ some (suc i)
  | none ↦ if c == slash then some 0 else none
]

unfoldable pub path_parent : CString → CString
path_parent abs = elim (last_slash abs) [
  | none ↦ take 1 abs
  | some i ↦ if i == 0 then take 1 abs else take i abs
]

-- `strrchr(abs, '/') + 1`; without a slash the pointer would be null, and the model gives the whole.
unfoldable pub base_name : CString → CString
base_name abs = elim (last_slash abs) [ none ↦ abs | some i ↦ drop (suc i) abs ]

unfoldable pub path_join : ℕ → CString → CString → Result CString
path_join cap dir name =
    if ltb cap (length dir + 1 + length name + 1)
    then err enametoolong
    else if (length dir == 1) && (elim dir [ [] ↦ false | c ∷ r ↦ c == slash ])
    then ok (slash ∷ name)
    else ok (dir ++ (slash ∷ name))

-- `point` is the mount's.
unfoldable pub path_rel : CString → CString → CString
path_rel point abs =
    if length point == 1
    then drop 1 abs
    else if length abs == length point
    then []
    else drop (length point + 1) abs

-- `strncmp(s, prefix, strlen(prefix)) == 0`
unfoldable pub starts_with : CString → CString → Bool
starts_with s [] = true
starts_with [] (c ∷ prefix) = false
starts_with (d ∷ s) (c ∷ prefix) = (d == c) && starts_with s prefix
