-- ===== src/Proc/Links.antt =====
-- core/vfs_synth.c: the answers of stat and readlink on /proc agree, and the link of a descriptor is
-- found by its number.
use elf_sysv_nt.Common.{
  ℕ, ◌<◌, ◌≡◌, refl, Bool, true, false, not, some, [], ◌++◌, CString, codes, str_eq, length, take,
  leb, pos, arith,
}
use elf_sysv_nt.Common.Decimal.{decimal, strtol-decimal}
use elf_sysv_nt.Common.Errno.{Result, ok, err, enoent, einval}
use elf_sysv_nt.File.{File, FdTable, fd_get, is_free, nr_open_default}
use elf_sysv_nt.Stat.{KStat, is_link}
use elf_sysv_nt.Proc.{
  ProcState, ProcClass, p_exe, p_cwd, p_fdn, p_selflink, proc_classify, link_text, fd_class,
}

-- Every descriptor that is open leads to a description.
pub record IsHeld (s : ProcState) : Type 0 where
  pub held : (n a : ℕ) → fd_get s.fds (pos n) ≡ some a → (f : File) × (s.files a ≡ some f)

-- A class that names a descriptor names an open one.
abbrev is_ready : FdTable → ProcClass → Bool
is_ready t (p_fdn n) = not (is_free (fd_get t (pos n)))
is_ready t _ = true

-- What a link of a class leads to: /proc/self to the one process, exe to the program's path, cwd to
-- the working directory, and a descriptor to what its description was opened at.
pub data Target (s : ProcState) : ProcClass → CString → Type 0 where
  to_process : Target s p_selflink (codes "1")
  to_program : Target s p_exe s.exe_path
  to_directory : Target s p_cwd s.cwd
  to_file :
      (n a : ℕ) (f : File)
      → fd_get s.fds (pos n) ≡ some a
      → s.files a ≡ some f
      → Target s (p_fdn n) (link_text f)

-- What readlink answers with a buffer of `room` bytes on an object of class `c`, by what stat answers.
abbrev pub Agrees : ProcState → ProcClass → ℕ → Result KStat → Result (ℕ × CString) → Type 0
Agrees s c room (err e) r = (e ≡ enoent) × (r ≡ err enoent)
Agrees s c room (ok st) (ok t) =
    (is_link st.mode ≡ true)
    × (text : CString) × Target s c text
    × (t ≡ (length text, take room text))
Agrees s c room (ok st) (err e) = (is_link st.mode ≡ false) × (e ≡ einval)

-- What readlink gives of a text with a buffer of `room` bytes.
abbrev pub shows : ℕ → CString → Result (ℕ × CString)
shows room text = ok (length text, take room text)

-- The name that a listing of /proc/self/fd gives to a descriptor.
abbrev pub fd_path : ℕ → CString
fd_path n = codes "self/fd/" ++ decimal n

classify-number :
    (t : FdTable) (n a : ℕ)
    → n < nr_open_default
    → fd_get t (pos n) ≡ some a
    → fd_class t (some (pos n, [])) ≡ p_fdn n
classify-number t n a h e =
    let below : leb nr_open_default n ≡ false = ground arith in rw (below, e) refl

pub proc_classify-fd_path :
    (t : FdTable) (n a : ℕ)
    → n < nr_open_default
    → fd_get t (pos n) ≡ some a
    → proc_classify t (fd_path n) ≡ p_fdn n
unfolding proc_classify str_eq
proc_classify-fd_path t n a h e = rw (strtol-decimal n (omega arith)) (classify-number t n a h e)
