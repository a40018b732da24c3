-- ===== src/Proc/Listing.antt =====
-- core/vfs_synth.c: what a caller of getdents64 reads from the directories of /proc.
use elf_sysv_nt.Common.{
  ℕ, zero, suc, ◌+◌, ◌-◌, ◌*◌, ◌≤◌, ◌<◌, ◌≡◌, refl, sym, ap, ap₂, ◌∙◌, Bool, true, false, Option,
  none, some, List, [], ◌∷◌, ◌++◌, CString, codes, str_eq, length, All, get_or, get_or-All, ◌==◌,
  if◌then◌else◌, pos, arith, Bool-cases, inl, inr,
}
use elf_sysv_nt.Common.Decimal.{decimal-IsName}
use elf_sysv_nt.Common.Errno.{ok}
use elf_sysv_nt.File.{FdTable, fd_get, is_free, nr_open_default}
use elf_sysv_nt.Stat.{KStat, kstat_synthetic, type_of}
use elf_sysv_nt.Dirent.{Dirent, dt_dir, dt_lnk, record_len}
use elf_sysv_nt.Dirent.Read.{IsDirent, entries}
use elf_sysv_nt.Dirent.Listing.{read_dir, read_dir-entries}
use elf_sysv_nt.Proc.{
  proc_ino, ProcState, ProcClass, p_root, p_self, p_fd, p_maps, p_exe, p_cwd, p_fdn, p_selflink,
  p_none, class_no, proc_classify, proc_mode, procfs_stat, class_stat, is_proc_dir,
}
use elf_sysv_nt.Proc.Dir.{
  Entry, ProcDir, fd_names, proc_names, listed, no_entry, proc_entry, proc_getdents,
}
use elf_sysv_nt.Proc.Links.{fd_path, proc_classify-fd_path}

-- A name that fits the 16 bytes kept for it, or a little more.
abbrev IsEntry : Entry → Type 0
IsEntry e = All (λ c. 0 < c) e.name × (length e.name ≤ 20)

fd_names-IsEntry : (t : FdTable) (n i : ℕ) → All IsEntry (fd_names t n i)
unfolding fd_names
fd_names-IsEntry t zero i = tt
fd_names-IsEntry t (suc n) i = elim (Bool-cases (is_free (fd_get t (pos i)))) [
  | inl free ↦ rw free (fd_names-IsEntry t n (suc i))
  | inr used ↦ rw used (decimal-IsName i, fd_names-IsEntry t n (suc i))
]

length-fd_names : (t : FdTable) (n i : ℕ) → length (fd_names t n i) ≤ n
unfolding fd_names
length-fd_names t zero i = omega arith
length-fd_names t (suc n) i = ground (arith, length-fd_names t n (suc i))

-- A directory as procfs_open makes it.
abbrev pub opened_dir : ProcClass → FdTable → ProcDir
opened_dir c t = record { cls = c; names = proc_names c t }

proc_names-IsEntry : (c : ProcClass) (t : FdTable) → All IsEntry (proc_names c t)
unfolding proc_names
proc_names-IsEntry p_root t = ground arith
proc_names-IsEntry p_self t = ground arith
proc_names-IsEntry p_fd t = fd_names-IsEntry t nr_open_default 0
proc_names-IsEntry p_maps t = fd_names-IsEntry t nr_open_default 0
proc_names-IsEntry p_exe t = fd_names-IsEntry t nr_open_default 0
proc_names-IsEntry p_cwd t = fd_names-IsEntry t nr_open_default 0
proc_names-IsEntry (p_fdn n) t = fd_names-IsEntry t nr_open_default 0
proc_names-IsEntry p_selflink t = fd_names-IsEntry t nr_open_default 0
proc_names-IsEntry p_none t = fd_names-IsEntry t nr_open_default 0

length-proc_names : (c : ProcClass) (t : FdTable) → length (proc_names c t) ≤ nr_open_default
unfolding proc_names
length-proc_names p_root t = omega arith
length-proc_names p_self t = omega arith
length-proc_names p_fd t = length-fd_names t nr_open_default 0
length-proc_names p_maps t = length-fd_names t nr_open_default 0
length-proc_names p_exe t = length-fd_names t nr_open_default 0
length-proc_names p_cwd t = length-fd_names t nr_open_default 0
length-proc_names (p_fdn n) t = length-fd_names t nr_open_default 0
length-proc_names p_selflink t = length-fd_names t nr_open_default 0
length-proc_names p_none t = length-fd_names t nr_open_default 0

class_no-le : (c : ProcClass) → class_no c ≤ 8
unfolding class_no
class_no-le p_root = omega arith
class_no-le p_self = omega arith
class_no-le p_fd = omega arith
class_no-le p_maps = omega arith
class_no-le p_exe = omega arith
class_no-le p_cwd = omega arith
class_no-le (p_fdn n) = omega arith
class_no-le p_selflink = omega arith
class_no-le p_none = omega arith

if-IsEntry : (b : Bool) (x y : Entry) → IsEntry x → IsEntry y → IsEntry (if b then x else y)
if-IsEntry true x y hx hy = hx
if-IsEntry false x y hx hy = hy

pub listed-IsEntry : (names : List Entry) (i : ℕ) → All IsEntry names → IsEntry (listed names i)
unfolding listed
listed-IsEntry names i h = if-IsEntry (i == 0) _ _ (ground arith) (
    if-IsEntry (i == 1) _ _ (ground arith) (get_or-All IsEntry names (i - 2) _ h (tt, omega arith)))

module _ (c : ProcClass) (t : FdTable) (i : ℕ) where
  listed_name : IsEntry (listed (proc_names c t) i)
  listed_name = listed-IsEntry (proc_names c t) i (proc_names-IsEntry c t)

  proc_entry-IsDirent : i < length (proc_names c t) + 2 → IsDirent (proc_entry (opened_dir c t) i)
  unfolding proc_entry
  proc_entry-IsDirent h = record {
    ino_fits = omega (arith, class_no-le c, length-proc_names c t);
    off_fits = omega (arith, length-proc_names c t);
    name_fits = omega (arith, listed_name.1);
    name_nonzero = listed_name.0;
  }

  proc_entry-le : record_len (proc_entry (opened_dir c t) i).name ≤ 40
  unfolding proc_entry
  proc_entry-le = omega (arith, listed_name.1)

-- Entries that follow one another in a directory of class number `cls`, from position `at` on.
abbrev pub numbered : ℕ → ℕ → List Entry → List Dirent
numbered cls at [] = []
numbered cls at (e ∷ es) =
    record { ino = proc_ino (cls * 4096 + at); off = at + 1; type = e.type; name = e.name }
    ∷ numbered cls (suc at) es

-- "." and "..".
abbrev pub dots : List Entry
dots = record { name = codes "."; type = dt_dir } ∷ record { name = codes ".."; type = dt_dir } ∷ []

entries-numbered :
    (d : ProcDir) (es : List Entry) (at : ℕ)
    → ((i : ℕ) → i < length es → listed d.names (at + i) ≡ get_or es i no_entry)
    → entries (proc_entry d) at (length es) ≡ numbered (class_no d.cls) at es
unfolding entries proc_entry
entries-numbered d [] at h = refl
entries-numbered d (e ∷ es) at h =
    let zeroth : at + 0 ≡ at = omega arith in
    let here : listed d.names at ≡ e = ap (listed d.names) (sym zeroth) ∙ h 0 (omega arith) in
    let rest = entries-numbered d es (suc at) (λ i lt.
      let next : suc at + i ≡ at + suc i = omega arith in
      ap (listed d.names) next ∙ h (suc i) (omega arith)) in
    ap₂
      (λ (x : Entry) (l : List Dirent).
        record {
          ino = proc_ino (class_no d.cls * 4096 + at);
          off = at + 1;
          type = x.type;
          name = x.name;
        }
        ∷ l)
      here rest

listed-dots :
    (names : List Entry) (i : ℕ)
    → i < length names + 2
    → listed names (0 + i) ≡ get_or (dots ++ names) i no_entry
unfolding listed
listed-dots names zero h = refl
listed-dots names (suc zero) h = refl
listed-dots names (suc (suc i)) h = ground arith

proc_entries :
    (c : ProcClass) (t : FdTable)
    → entries (proc_entry (opened_dir c t)) 0 (length (proc_names c t) + 2)
      ≡ numbered (class_no c) 0 (dots ++ proc_names c t)
proc_entries c t =
    let names : List Entry = proc_names c t in
    let e : length names + 2 ≡ length (dots ++ names) = omega arith in
    ap (entries (proc_entry (opened_dir c t)) 0) e
    ∙ entries-numbered (opened_dir c t) (dots ++ names) 0
        (λ i lt. listed-dots names i (omega arith))

-- A caller with a buffer of 40 bytes or more that repeats getdents64 on an open directory of /proc
-- until it returns 0 needs at most three calls more than the directory has names, and reads ".",
-- ".." and every name the open rendered, once each and in order.
pub read_dir-proc_getdents :
    (c : ProcClass) (t : FdTable) (room : ℕ)
    → 40 ≤ room
    → read_dir (proc_getdents (some (opened_dir c t)) room) (length (proc_names c t) + 3) 0
      ≡ some (numbered (class_no c) 0 (dots ++ proc_names c t))
unfolding proc_getdents
read_dir-proc_getdents c t room h =
    let total : ℕ = length (proc_names c t) + 2 in
    read_dir-entries (proc_entry (opened_dir c t)) total room (proc_entry-IsDirent c t)
      (λ i e. omega (arith, proc_entry-le c t i)) (length (proc_names c t) + 3) 0 total
      (omega arith) (omega arith)
    ∙ ap some (proc_entries c t)

-- The path below /proc of a name that a directory lists.
abbrev pub prefix : ProcClass → CString
prefix p_self = codes "1/"
prefix p_fd = codes "self/fd/"
prefix _ = []

-- The stat of a path has the type that a listing says.
abbrev pub HasType : ProcState → CString → ℕ → Type 0
HasType s rel type = (st : KStat) × (procfs_stat rel s ≡ ok st) × (type_of st.mode ≡ 4096 * type)

free_or_open : (o : Option ℕ) → is_free o ≡ false → (a : ℕ) × (o ≡ some a)
free_or_open none h = cc
free_or_open (some a) h = (a, refl)

fd_path-HasType :
    (s : ProcState) (n : ℕ)
    → n < nr_open_default
    → is_free (fd_get s.fds (pos n)) ≡ false
    → HasType s (fd_path n) dt_lnk
unfolding procfs_stat proc_mode kstat_synthetic
fd_path-HasType s n h used =
    let (a, e) = free_or_open (fd_get s.fds (pos n)) used in
    (class_stat (p_fdn n) s, rw (proc_classify-fd_path s.fds n a h e) refl, refl)

fd_names-HasType :
    (s : ProcState) (n i : ℕ)
    → n + i ≤ nr_open_default
    → All (λ (e : Entry). HasType s (codes "self/fd/" ++ e.name) e.type) (fd_names s.fds n i)
unfolding fd_names
fd_names-HasType s zero i h = tt
fd_names-HasType s (suc n) i h = elim (Bool-cases (is_free (fd_get s.fds (pos i)))) [
  | inl free ↦ rw free (fd_names-HasType s n (suc i) (omega arith))
  | inr used ↦
      rw used (fd_path-HasType s i (omega arith) used, fd_names-HasType s n (suc i) (omega arith))
]

-- Every name that the root of /proc, /proc/1 and /proc/self/fd list can be looked up: stat succeeds
-- on it, and the type in the mode is the `d_type` listed.
pub proc_names-HasType :
    (s : ProcState) (c : ProcClass)
    → is_proc_dir c ≡ true
    → All (λ (e : Entry). HasType s (prefix c ++ e.name) e.type) (proc_names c s.fds)
unfolding proc_names procfs_stat proc_classify proc_mode kstat_synthetic str_eq
proc_names-HasType s p_root h =
    ((class_stat p_selflink s, refl, refl), ((class_stat p_self s, refl, refl), tt))
proc_names-HasType s p_self h = (
  (class_stat p_cwd s, refl, refl),
  (
    (class_stat p_exe s, refl, refl),
    ((class_stat p_fd s, refl, refl), ((class_stat p_maps s, refl, refl), tt)),
  ),
)
proc_names-HasType s p_fd h = fd_names-HasType s nr_open_default 0 (omega arith)
proc_names-HasType s p_maps h = cc
proc_names-HasType s p_exe h = cc
proc_names-HasType s p_cwd h = cc
proc_names-HasType s (p_fdn n) h = cc
proc_names-HasType s p_selflink h = cc
proc_names-HasType s p_none h = cc
