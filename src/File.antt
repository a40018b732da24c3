-- ===== src/File.antt =====
-- core/file.h and core/file.c: open file descriptions with their reference counts, and the
-- descriptor table. A `struct file *` is an address in a store; `none` at an address is memory that
-- is not allocated, and every access through such a pointer leaves the store as it was.
pub mod Slots
pub mod Balance
pub mod Lowest
mod Tests
use elf_sysv_nt.Common.{ℕ, zero, suc, ◌+◌, ◌-◌, Bool, true, false, Option, none, some, List}
use elf_sysv_nt.Common.{ℤ, pos, negsuc, CString, get_or, set, replicate, ltb, ◌==◌, if◌then◌else◌}
use elf_sysv_nt.Common.Errno.{Errno, Result, ok, err, ebadf, einval, emfile}

-- `FILE_KIND_*`
pub data Kind : Type 0 where
  host hostdir pipe dev proc console symlink : Kind

-- `struct file`, without its operation table, which the kind stands for.
pub record File : Type 0 where
  pub refs : ℕ
  pub kind : Kind
  pub flags : ℕ
  pub offset : ℕ
  pub handle : ℕ
  pub priv : ℕ
  pub priv_i : ℕ
  pub path : CString

abbrev pub nr_open_default : ℕ
nr_open_default = 1024

-- The descriptions in memory, and the rest of the kernel's state, which `release` may change.
pub record Store (W : Type 0) : Type 0 where
  pub files : ℕ → Option File
  pub world : W

-- `struct fdtable`
pub record FdTable : Type 0 where
  pub slots : List (Option ℕ)
  pub cloexec : List Bool

abbrev pub update : (ℕ → Option File) → ℕ → Option File → ℕ → Option File
update m a v b = if a == b then v else m b

abbrev pub new_file : Kind → ℕ → File
new_file kind flags = record {
  refs = 1;
  kind = kind;
  flags = flags;
  offset = 0;
  handle = 0;
  priv = 0;
  priv_i = 0;
  path = List.[];
}

unfoldable pub fdtable_init : FdTable
fdtable_init = record {
  slots = replicate nr_open_default none;
  cloexec = replicate nr_open_default false;
}

unfoldable pub fd_get : FdTable → ℤ → Option ℕ
fd_get t (negsuc n) = none
fd_get t (pos fd) = if ltb fd nr_open_default then get_or t.slots fd none else none

abbrev pub is_free : Option ℕ → Bool
is_free none = true
is_free (some a) = false

-- The scan of `fd_install` from `i`, with `n` descriptors left.
unfoldable pub lowest_free : List (Option ℕ) → ℕ → ℕ → Option ℕ
lowest_free slots zero i = none
lowest_free slots (suc n) i =
    let rest = lowest_free slots n (suc i) in if is_free (get_or slots i none) then some i else rest

unfoldable pub fd_get_cloexec : FdTable → ℤ → Result ℕ
unfolding fd_get
fd_get_cloexec t (negsuc n) = err ebadf
fd_get_cloexec t (pos fd) =
    if is_free (fd_get t (pos fd))
    then err ebadf
    else ok (if get_or t.cloexec fd false then 1 else 0)

unfoldable pub fd_set_cloexec : FdTable → ℤ → Bool → Result FdTable
unfolding fd_get
fd_set_cloexec t (negsuc n) on = err ebadf
fd_set_cloexec t (pos fd) on =
    if is_free (fd_get t (pos fd))
    then err ebadf
    else ok (record t { cloexec = set t.cloexec fd on })

-- The descriptor as an index, once `fd_get` has found it open.
abbrev pub index_of : ℤ → ℕ
index_of (pos n) = n
index_of (negsuc n) = 0

-- `release` is the kind's own function, run on the last reference.
module _ {W : Type 0} (release : File → W → W) where
  -- `fresh` is what `calloc` returns.
  unfoldable pub file_new : Option ℕ → Kind → ℕ → Store W → Option ℕ × Store W
  file_new none kind flags s = (none, s)
  file_new (some a) kind flags s =
      (some a, record s { files = update s.files a (some (new_file kind flags)) })

  unfoldable pub file_get : ℕ → Store W → Store W
  file_get a s = elim (s.files a) [
    | none ↦ s
    | some f ↦ record s { files = update s.files a (some (record f { refs = f.refs + 1 })) }
  ]

  unfoldable pub file_put : Option ℕ → Store W → Store W
  file_put none s = s
  file_put (some a) s = elim (s.files a) [
    | none ↦ s
    | some f ↦
        if ltb 0 (f.refs - 1)
        then record s { files = update s.files a (some (record f { refs = f.refs - 1 })) }
        else record {
          files = update s.files a none;
          world = release (record f { refs = f.refs - 1 }) s.world;
        }
  ]

  unfoldable pub fd_install : FdTable → ℕ → Bool → ℤ → Store W → Result ℕ × FdTable × Store W
  fd_install t a cloexec (negsuc n) s = (err einval, t, s)
  fd_install t a cloexec (pos min) s = elim (lowest_free t.slots (nr_open_default - min) min) [
    | none ↦ (err emfile, t, s)
    | some i ↦ (
      ok i,
      record { slots = set t.slots i (some a); cloexec = set t.cloexec i cloexec },
      file_get a s,
    )
  ]

  unfoldable pub fd_close : FdTable → ℤ → Store W → Result (Unit {0}) × FdTable × Store W
  unfolding fd_get
  fd_close t fd s = elim (fd_get t fd) [
    | none ↦ (err ebadf, t, s)
    | some a ↦ (
      ok tt,
      record {
        slots = set t.slots (index_of fd) none;
        cloexec = set t.cloexec (index_of fd) false;
      },
      file_put (some a) s,
    )
  ]

  -- The part of `fd_dup2` past its checks.
  unfoldable pub dup_over : FdTable → ℕ → ℕ → Bool → Store W → FdTable × Store W
  dup_over t a newfd cloexec s =
      let s' = file_get a s in
      let s'' = file_put (get_or t.slots newfd none) s' in
      (record { slots = set t.slots newfd (some a); cloexec = set t.cloexec newfd cloexec }, s'')

  unfoldable pub fd_dup2 : FdTable → ℤ → ℤ → Bool → Store W → Result ℕ × FdTable × Store W
  unfolding fd_get
  fd_dup2 t oldfd (negsuc n) cloexec s = (err ebadf, t, s)
  fd_dup2 t oldfd (pos newfd) cloexec s = elim (fd_get t oldfd) [
    | none ↦ (err ebadf, t, s)
    | some a ↦
        if ltb newfd nr_open_default
        then (if index_of oldfd == newfd
            then (ok newfd, t, s)
            else (let (t', s') = dup_over t a newfd cloexec s in (ok newfd, t', s')))
        else (err ebadf, t, s)
  ]

  -- The loop of `fdtable_release` over the descriptors from 0 on; each slot is cleared.
  unfoldable pub release_slots : List (Option ℕ) → Store W → List (Option ℕ) × Store W
  release_slots List.[] s = (List.[], s)
  release_slots (List.◌∷◌ slot rest) s =
      let (rest', s') = release_slots rest (file_put slot s) in (List.◌∷◌ none rest', s')

  unfoldable pub fdtable_release : FdTable → Store W → FdTable × Store W
  fdtable_release t s =
      let (slots', s') = release_slots t.slots s in (record t { slots = slots' }, s')
