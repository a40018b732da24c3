-- ===== src/Host.antt =====
-- core/hostfs.h: the host store as the VFS sees it. core/hostfs_nt.c, which realises it over NT
-- calls, is not modelled: its functions are the fields of `HostFs`, and what the VFS relies on about
-- handles is the record `HandleLaws`. A computation takes the kernel's state and gives a value or
-- an errno beside the new state.
pub mod Quiet
pub mod Toy
use elf_sysv_nt.Common.{
  ℕ, ◌≡◌, Bool, true, false, Option, none, some, CString, ◌==◌, if◌then◌else◌, ℤ,
}
use elf_sysv_nt.Common.Errno.{Errno, Result, ok, err}

-- `HFS_KIND_*`
pub data HostKind : Type 0 where
  file dir lxlink fifo chr blk sock other winlink : HostKind

-- The fields of `struct hfs_stat` that the VFS reads; the flags of `lxflags` are Booleans.
pub record HostStat : Type 0 where
  pub ino : ℕ
  pub size : ℕ
  pub blocks : ℕ
  pub nlink : ℕ
  pub has_uid : Bool
  pub has_gid : Bool
  pub has_mode : Bool
  pub has_dev : Bool
  pub mode : ℕ
  pub uid : ℕ
  pub gid : ℕ
  pub rdev_major : ℕ
  pub rdev_minor : ℕ
  pub atime : ℤ
  pub mtime : ℤ
  pub ctime : ℤ
  pub btime : ℤ
  pub kind : HostKind

-- `HFS_O_*`, one field for each flag that the VFS uses.
pub record OpenFlags : Type 0 where
  pub read : Bool
  pub write : Bool
  pub dir_only : Bool
  pub no_dir : Bool
  pub create : Bool
  pub excl : Bool
  pub trunc : Bool
  pub reparse : Bool
  pub attr : Bool

abbrev pub no_flags : OpenFlags
no_flags = record {
  read = false;
  write = false;
  dir_only = false;
  no_dir = false;
  create = false;
  excl = false;
  trunc = false;
  reparse = false;
  attr = false;
}

-- What an open returns: 0 or HFS_REPARSE with a handle and the object's stat, or an errno.
pub data Opened : Type 0 where
  opened : ℕ → HostStat → Opened
  met_link : ℕ → HostStat → Opened
  failed : Errno → Opened

abbrev pub M : Type 0 → Type 0 → Type 0
M S A = S → Result A × S

-- What follows a result, unless it is an errno.
abbrev pub resume : {S A B : Type 0} → Result A → (A → M S B) → M S B
resume (ok a) f s = f a s
resume (err e) f s = (err e, s)

infixl 5 ◌>>=◌ ◌>>◌
abbrev pub ◌>>=◌ : {S A B : Type 0} → M S A → (A → M S B) → M S B
◌>>=◌ m f s = resume (m s).0 f (m s).1

abbrev pub ◌>>◌ : {S B : Type 0} → M S (Unit {0}) → M S B → M S B
m >> k = m >>= λ _. k

abbrev pub pure : {S A : Type 0} → A → M S A
pure a s = (ok a, s)

abbrev pub fail : {S A : Type 0} → Errno → M S A
fail e s = (err e, s)

abbrev pub lift : {S A : Type 0} → Result A → M S A
lift r s = (r, s)

-- A call whose errno the caller looks at.
abbrev pub attempt : {S A : Type 0} → M S A → M S (Result A)
attempt m s = (ok (m s).0, (m s).1)

-- `if (!test) return -errno;`
abbrev pub check : {S : Type 0} → Bool → Errno → M S (Unit {0})
check true e s = (ok tt, s)
check false e s = (err e, s)

-- The functions of hostfs.h that the VFS calls on names and handles. `rename` and `unlink` take
-- their last flag as a Boolean, and `set_lx` takes the values of the attributes it sets.
pub record HostFs (S : Type 0) : Type 0 where
  pub openat : ℕ → CString → OpenFlags → ℕ → ℕ → ℕ → S → Opened × S
  pub close : ℕ → S → S
  pub reopen : ℕ → OpenFlags → M S (ℕ × HostStat)
  pub stat : ℕ → M S HostStat
  pub statat : ℕ → CString → M S HostStat
  pub readlink : ℕ → M S CString
  pub set_lx : ℕ → Option ℕ → Option ℕ → Option ℕ → M S (Unit {0})
  pub set_times : ℕ → ℤ → ℤ → M S (Unit {0})
  pub truncate : ℕ → ℕ → M S (Unit {0})
  pub mkdir : ℕ → CString → ℕ → ℕ → ℕ → Bool → M S (Unit {0})
  pub unlink : ℕ → CString → Bool → M S (Unit {0})
  pub rename : ℕ → CString → ℕ → CString → Bool → M S (Unit {0})
  pub link : ℕ → ℕ → CString → M S (Unit {0})
  pub symlink : ℕ → CString → CString → ℕ → ℕ → M S (Unit {0})
  pub mknod : ℕ → CString → HostKind → ℕ → ℕ → ℕ → ℕ → ℕ → M S (Unit {0})

-- The two outcomes of a reopen, which meets no link.
abbrev pub as_opened : Result (ℕ × HostStat) → Opened
as_opened (ok (h, st)) = opened h st
as_opened (err e) = failed e

abbrev pub reopened : {S : Type 0} → HostFs S → ℕ → OpenFlags → S → Opened × S
reopened fs h flags s = (as_opened (fs.reopen h flags s).0, (fs.reopen h flags s).1)

-- `r = m(); hfs_close(h); return r;`
abbrev pub closing : {S A : Type 0} → HostFs S → ℕ → M S A → M S A
closing fs h m s = ((m s).0, fs.close h (m s).1)

-- Which handles are open, as a function of the state.
abbrev pub Handles : Type 0 → Type 0
Handles S = S → ℕ → Bool

-- The same handles are open in both states.
abbrev pub SameHandles : {S : Type 0} → Handles S → S → S → Type 0
SameHandles is_open s s' = (k : ℕ) → is_open s' k ≡ is_open s k

-- `s'` has the handles of `s` and the fresh handle `h`.
abbrev pub OneMore : {S : Type 0} → Handles S → ℕ → S → S → Type 0
OneMore is_open h s s' =
    (is_open s h ≡ false) × ((k : ℕ) → is_open s' k ≡ (if k == h then true else is_open s k))

abbrev pub OpensOne : {S : Type 0} → Handles S → S → Opened × S → Type 0
OpensOne is_open s (opened h st, s') = OneMore is_open h s s'
OpensOne is_open s (met_link h st, s') = OneMore is_open h s s'
OpensOne is_open s (failed e, s') = SameHandles is_open s s'

-- A computation that leaves the open handles as they were, whatever it returns.
pub record IsQuiet {S A : Type 0} (is_open : Handles S) (m : M S A) : Type 0 where
  pub same : (s : S) → SameHandles is_open s (m s).1

-- What hostfs.h documents about handles: a successful open returns a handle that was not open, a
-- close closes that handle alone, and no other call opens or closes one.
pub record HandleLaws {S : Type 0} (fs : HostFs S) (is_open : Handles S) : Type 0 where
  pub openat_one :
      (d : ℕ) (name : CString) (flags : OpenFlags) (mode uid gid : ℕ) (s : S)
      → OpensOne is_open s (fs.openat d name flags mode uid gid s)
  pub reopen_one : (h : ℕ) (flags : OpenFlags) (s : S) → OpensOne is_open s (reopened fs h flags s)
  pub close_one :
      (h : ℕ) (s : S) (k : ℕ) → is_open (fs.close h s) k ≡ (if k == h then false else is_open s k)
  pub stat_quiet : (h : ℕ) → IsQuiet is_open (fs.stat h)
  pub statat_quiet : (d : ℕ) (name : CString) → IsQuiet is_open (fs.statat d name)
  pub readlink_quiet : (h : ℕ) → IsQuiet is_open (fs.readlink h)
  pub set_lx_quiet : (h : ℕ) (u g m : Option ℕ) → IsQuiet is_open (fs.set_lx h u g m)
  pub set_times_quiet : (h : ℕ) (a m : ℤ) → IsQuiet is_open (fs.set_times h a m)
  pub truncate_quiet : (h size : ℕ) → IsQuiet is_open (fs.truncate h size)
  pub mkdir_quiet :
      (d : ℕ) (name : CString) (mode uid gid : ℕ) (c : Bool)
      → IsQuiet is_open (fs.mkdir d name mode uid gid c)
  pub unlink_quiet : (d : ℕ) (name : CString) (r : Bool) → IsQuiet is_open (fs.unlink d name r)
  pub rename_quiet :
      (d : ℕ) (old : CString) (e : ℕ) (new : CString) (n : Bool)
      → IsQuiet is_open (fs.rename d old e new n)
  pub link_quiet : (h d : ℕ) (name : CString) → IsQuiet is_open (fs.link h d name)
  pub symlink_quiet :
      (d : ℕ) (name target : CString) (uid gid : ℕ)
      → IsQuiet is_open (fs.symlink d name target uid gid)
  pub mknod_quiet :
      (d : ℕ) (name : CString) (kind : HostKind) (mode uid gid major minor : ℕ)
      → IsQuiet is_open (fs.mknod d name kind mode uid gid major minor)
