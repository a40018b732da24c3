-- ===== src/Sys/Paths.antt =====
-- core/sys_fs.c: the calls on paths. A path is copied in, its directory is found, and the VFS does
-- the work; what a call returns to user memory is copied out.
use elf_sysv_nt.Common.{
  ℕ, ◌+◌, ◌-◌, ◌%◌, ◌^◌, Bool, true, false, not, Option, none, some, List, [], ◌∷◌, ◌++◌, CString,
  ℤ, pos, negsuc, length, get_or, take, null, ltb, ◌==◌, if◌then◌else◌, has_bit, clear_bit,
}
use elf_sysv_nt.Common.Bytes.{field}
use elf_sysv_nt.Common.Errno.{Result, ok, err, enoent, einval, ebadf, efault, enotdir, erange}
use elf_sysv_nt.Host.{M, ◌>>=◌, ◌>>◌, pure, fail, lift, check, attempt, HostFs, HostStat}
use elf_sysv_nt.File.{Kind}
use elf_sysv_nt.Stat.{KStat, kstat_of}
use elf_sysv_nt.Mount.{FsCtx, Mount}
use elf_sysv_nt.Path.{slash, base_name}
use elf_sysv_nt.Walk.{SynthFs}
use elf_sysv_nt.Open.{SynthOpen, OFlags, Access, Description, vfs_open}
use elf_sysv_nt.Tree.{vfs_symlink, vfs_link, vfs_unlink, vfs_rename, vfs_mkdir, vfs_mknod}
use elf_sysv_nt.Attr.{
  link_size, vfs_stat, vfs_access, vfs_readlink, vfs_chmod, vfs_fchmod, vfs_chown, vfs_fchown,
  vfs_utimens, vfs_futimens, vfs_truncate, vfs_chdir, vfs_fchdir, vfs_getcwd,
}
use elf_sysv_nt.Sys.{UserMemory, copy_path}
use elf_sysv_nt.Sys.Shape.{
  Timespec, TimeArg, time_now, time_omit, time_at, time_arg, to_stat, stat_bytes, to_statx,
  statx_bytes, major_of, minor_of,
}

-- What the calls look at of a descriptor's file; `lists` tells whether it has `getdents`.
pub record OpenDir : Type 0 where
  pub kind : Kind
  pub lists : Bool
  pub handle : ℕ
  pub mount : Mount
  pub path : CString

-- `f->kind == …`, where base_of wants a directory.
abbrev pub is_base : OpenDir → Bool
is_base f = elim (f.kind) [
  | Kind.hostdir ↦ true
  | Kind.proc ↦ f.lists
  | Kind.dev ↦ f.lists
  | _ ↦ false
]

abbrev at_fdcwd : ℤ
at_fdcwd = negsuc 99

abbrev is_fdcwd : ℤ → Bool
is_fdcwd (negsuc n) = n == 99
is_fdcwd (pos n) = false

-- The base of a relative path, and the file itself where the path is empty.
pub record Base : Type 0 where
  pub dir : Option CString
  pub self : Option OpenDir

abbrev no_base : Base
no_base = record { dir = none; self = none }

abbrev file_base : CString → Option OpenDir → Result Base
file_base path none = err ebadf
file_base path (some f) =
    if null path
    then ok (record { dir = none; self = some f })
    else if is_base f
    then ok (record { dir = some f.path; self = none })
    else err enotdir

-- `fget` is the lookup in the current descriptor table.
unfoldable pub base_of : (ℤ → Option OpenDir) → ℤ → CString → Result Base
base_of fget dirfd path =
    if get_or path 0 0 == slash
    then ok no_base
    else if is_fdcwd dirfd
    then ok no_base
    else file_base path (fget dirfd)

-- The open flags of the call as the VFS reads them.
abbrev access_of : ℕ → Access
access_of flags =
    if flags % 4 == 0
    then Access.rdonly
    else if flags % 4 == 1
    then Access.wronly
    else if flags % 4 == 2
    then Access.rdwr
    else Access.neither

unfoldable pub oflags_of : ℕ → OFlags
oflags_of flags = record {
  acc = access_of flags;
  creat = has_bit flags 0o100;
  excl = has_bit flags 0o200;
  trunc = has_bit flags 0o1000;
  append = has_bit flags 0o2000;
  directory = has_bit flags 0o200000;
  no_follow = has_bit flags 0o400000;
  path = has_bit flags 0o10000000;
}

abbrev at_symlink_nofollow : ℕ
at_symlink_nofollow = 0x100

abbrev at_symlink_follow : ℕ
at_symlink_follow = 0x400

abbrev at_empty_path : ℕ
at_empty_path = 0x1000

abbrev at_removedir : ℕ
at_removedir = 0x200

abbrev at_eaccess : ℕ
at_eaccess = 0x200

-- VFS_TIME_NOW and VFS_TIME_OMIT are times of their own.
abbrev pub time_value : TimeArg → ℤ
time_value time_now = negsuc 1
time_value time_omit = negsuc 0
time_value (time_at t) = t

-- An `int64_t` in memory.
abbrev signed64 : ℕ → ℤ
signed64 n = if ltb n (2 ^ 63) then pos n else negsuc (2 ^ 64 - 1 - n)

abbrev timespec_at : List ℕ → ℕ → Timespec
timespec_at bytes at = record {
  sec = signed64 (field bytes at 8);
  nsec = signed64 (field bytes (at + 8) 8);
}

-- The two times in the bytes copied in.
abbrev both_times : Result TimeArg → Result TimeArg → Result (ℤ × ℤ)
both_times (err e) b = err e
both_times (ok a) (err e) = err e
both_times (ok a) (ok b) = ok (time_value a, time_value b)

unfoldable pub times_of : List ℕ → Result (ℤ × ℤ)
times_of bytes = both_times (time_arg (timespec_at bytes 0)) (time_arg (timespec_at bytes 16))

abbrev pub done : {S : Type 0} → M S (Unit {0}) → M S ℕ
done m = m >>= λ u. pure 0

module _ {S : Type 0} (mem : UserMemory S) where
  abbrev pub read_path : ℕ → M S CString
  read_path upath s = (copy_path mem upath s, s)

  abbrev pub out_result : Bool × S → Result (Unit {0}) × S
  out_result (true, s) = (ok tt, s)
  out_result (false, s) = (err efault, s)

  -- `copy_out`, which writes nothing for a length of 0.
  abbrev pub write_out : ℕ → List ℕ → M S (Unit {0})
  write_out a bytes s = if null bytes then (ok tt, s) else out_result (mem.copy_out a bytes s)

  abbrev pub optional_path : ℕ → M S CString
  optional_path upath = if upath == 0 then pure [] else read_path upath

  -- A text longer than the buffer of 4096 bytes is delivered with what is behind the buffer.
  abbrev pub linked_out : List ℕ → ℕ → ℕ → CString → M S ℕ
  linked_out beyond ubuf room target =
      let n = if ltb room (length target) then room else length target in
      write_out ubuf (take n (take 4096 target ++ beyond)) >>= λ u. pure n

  abbrev times_in : Option (List ℕ) → Result (ℤ × ℤ)
  times_in none = err efault
  times_in (some bytes) = times_of bytes

  -- The times, where `utimes` is not null.
  abbrev pub read_times : ℕ → M S (ℤ × ℤ)
  read_times utimes s =
      if utimes == 0
      then (ok (time_value time_now, time_value time_now), s)
      else (times_in (mem.copy_in utimes 32 s), s)

  abbrev pub cwd_out : ℕ → ℕ → CString × ℕ → M S ℕ
  cwd_out ubuf room (cwd, n) =
      check (not (ltb room n)) erange >> (write_out ubuf (cwd ++ (0 ∷ [])) >>= λ u. pure n)

module _ {S : Type 0} (fget : ℤ → Option OpenDir) where
  abbrev pub fd_file : ℤ → M S OpenDir
  fd_file fd = elim (fget fd) [ none ↦ fail ebadf | some f ↦ pure f ]

  abbrev pub self_or : Option OpenDir → ℤ → M S OpenDir
  self_or (some f) dirfd = pure f
  self_or none dirfd = fd_file dirfd

module _ {S : Type 0} (fs : HostFs S) where
  abbrev pub on_store : Kind → Bool
  on_store Kind.host = true
  on_store Kind.hostdir = true
  on_store Kind.symlink = true
  on_store _ = false

  abbrev is_symlink : Kind → Bool
  is_symlink Kind.symlink = true
  is_symlink _ = false

  abbrev pub shape_file : OpenDir → HostStat → KStat
  shape_file f hs =
      kstat_of f.mount.dev f.mount.default_uid f.mount.default_gid hs (some (base_name f.path))

  -- `f->path` has a slash.
  unfoldable pub hostfile_stat : OpenDir → M S KStat
  hostfile_stat f = do
    hs ← fs.stat f.handle
    if is_symlink f.kind
        then (attempt (fs.readlink f.handle) >>= λ r. pure (link_size (shape_file f hs) r))
        else pure (shape_file f hs)

  -- The file's own stat, by its kind; one that is not on the host store only reads the state.
  unfoldable pub vfs_fstat : (OpenDir → S → Result KStat) → OpenDir → M S KStat
  unfolding hostfile_stat
  vfs_fstat own_stat f = if on_store f.kind then hostfile_stat f else λ s. (own_stat f s, s)

-- `stale` is what an unused path buffer of the VFS holds, `own_stat` is the stat of a file
-- that is not on the host store, and `beyond` the stack behind a buffer.
module _ {S : Type 0} (mem : UserMemory S) (fs : HostFs S) (syn : SynthFs S) (opens : SynthOpen S)
    (stale : CString) (own_stat : OpenDir → S → Result KStat) (ctx : FsCtx)
    (fget : ℤ → Option OpenDir) where
  -- The path and the base of a call on a directory and a path.
  abbrev pub path_at : ℤ → ℕ → (CString → Base → M S ℕ) → M S ℕ
  path_at dirfd upath f = do
    path ← read_path mem upath
    b ← lift (base_of fget dirfd path)
    f path b

  -- The part of sys_openat that opens the file.
  unfoldable pub open_file : ℤ → ℕ → ℕ → ℕ → M S Description
  open_file dirfd upath flags mode = do
    path ← read_path mem upath
    b ← lift (base_of fget dirfd path)
    check (not (null path)) enoent
    vfs_open fs syn opens ctx b.dir path (oflags_of flags) mode

  abbrev pub empty_stat : ℕ → Option OpenDir → ℤ → M S KStat
  empty_stat flags self dirfd =
      check (has_bit flags at_empty_path) enoent
      >> (self_or fget self dirfd >>= λ f. vfs_fstat fs own_stat f)

  abbrev pub shaped : Bool → ℕ → KStat → List ℕ
  shaped true mask k = statx_bytes (to_statx k mask)
  shaped false mask k = stat_bytes (to_stat k)

  unfoldable pub sys_fstatat : ℤ → ℕ → ℕ → ℕ → Bool → ℕ → M S ℕ
  sys_fstatat dirfd upath ust flags isx mask = do
    path ← optional_path mem upath
    b ← lift (base_of fget dirfd path)
    k ←
        if null path
        then empty_stat flags b.self dirfd
        else vfs_stat fs syn opens stale ctx b.dir path (not (has_bit flags at_symlink_nofollow))
    done (write_out mem ust (shaped isx mask k))

  unfoldable pub sys_fstat : ℤ → ℕ → M S ℕ
  sys_fstat fd ust = do
    f ← fd_file fget fd
    k ← vfs_fstat fs own_stat f
    done (write_out mem ust (stat_bytes (to_stat k)))

  unfoldable pub sys_faccessat : ℤ → ℕ → ℕ → ℕ → M S ℕ
  sys_faccessat dirfd upath mode flags = do
    path ← read_path mem upath
    check (not (ltb 7 mode)) einval
    b ← lift (base_of fget dirfd path)
    done (vfs_access fs syn opens stale ctx b.dir path mode (has_bit flags at_eaccess))

  unfoldable pub sys_readlinkat : List ℕ → ℤ → ℕ → ℕ → ℤ → M S ℕ
  sys_readlinkat beyond dirfd upath ubuf (negsuc k) = read_path mem upath >>= λ path. fail einval
  sys_readlinkat beyond dirfd upath ubuf (pos room) = do
    path ← read_path mem upath
    check (not (room == 0)) einval
    b ← lift (base_of fget dirfd path)
    check (not (null path)) enoent
    target ← vfs_readlink fs syn opens stale ctx b.dir path
    linked_out mem beyond ubuf room target

  unfoldable pub sys_symlinkat : ℕ → ℤ → ℕ → M S ℕ
  sys_symlinkat utarget dirfd upath = do
    target ← read_path mem utarget
    path ← read_path mem upath
    b ← lift (base_of fget dirfd path)
    done (vfs_symlink fs syn opens stale ctx target b.dir path)

  -- The old path and base of a link; an empty path names the descriptor's own file.
  abbrev pub own_path : ℕ → CString → Base → Result (CString × Option CString)
  own_path flags old b =
      if null old
      then (if has_bit flags at_empty_path
          then elim (b.self) [ none ↦ err enoent | some f ↦ ok (f.path, none) ]
          else err enoent)
      else ok (old, b.dir)

  unfoldable pub sys_linkat : ℤ → ℕ → ℤ → ℕ → ℕ → M S ℕ
  sys_linkat odirfd uold ndirfd unew flags = do
    old ← read_path mem uold
    new ← read_path mem unew
    check (clear_bit (clear_bit flags at_symlink_follow) at_empty_path == 0) einval
    ob ← lift (base_of fget odirfd old)
    (from, dir) ← lift (own_path flags old ob)
    nb ← lift (base_of fget ndirfd new)
    done (vfs_link fs syn opens stale ctx dir from nb.dir new (has_bit flags at_symlink_follow))

  unfoldable pub sys_unlinkat : ℤ → ℕ → ℕ → M S ℕ
  sys_unlinkat dirfd upath flags = do
    path ← read_path mem upath
    check (clear_bit flags at_removedir == 0) einval
    b ← lift (base_of fget dirfd path)
    done (vfs_unlink fs syn opens stale ctx b.dir path (has_bit flags at_removedir))

  unfoldable pub sys_renameat2 : ℤ → ℕ → ℤ → ℕ → ℕ → M S ℕ
  sys_renameat2 odirfd uold ndirfd unew flags = do
    old ← read_path mem uold
    new ← read_path mem unew
    ob ← lift (base_of fget odirfd old)
    nb ← lift (base_of fget ndirfd new)
    done (
        vfs_rename fs syn opens stale ctx ob.dir old nb.dir new (has_bit flags 1)
          (not (clear_bit flags 1 == 0)))

  unfoldable pub sys_mkdirat : ℤ → ℕ → ℕ → M S ℕ
  sys_mkdirat dirfd upath mode =
      path_at dirfd upath λ path b. done (vfs_mkdir fs syn opens stale ctx b.dir path mode)

  unfoldable pub sys_mknodat : ℤ → ℕ → ℕ → ℕ → M S ℕ
  sys_mknodat dirfd upath mode dev = path_at dirfd upath λ path b.
      done (vfs_mknod fs syn opens stale ctx b.dir path mode (major_of dev) (minor_of dev))

  unfoldable pub sys_fchmodat : ℤ → ℕ → ℕ → M S ℕ
  sys_fchmodat dirfd upath mode =
      path_at dirfd upath λ path b. done (vfs_chmod fs syn opens stale ctx b.dir path mode)

  unfoldable pub sys_fchmod : ℤ → ℕ → M S ℕ
  sys_fchmod fd mode =
      fd_file fget fd >>= λ f. done (vfs_fchmod fs syn opens stale ctx f.kind f.handle mode)

  abbrev pub own_chown : ℕ → Option OpenDir → ℕ → ℕ → M S ℕ
  own_chown flags self uid gid = check (has_bit flags at_empty_path) enoent >> (elim self [
    | none ↦ fail enoent
    | some f ↦ done (vfs_fchown fs syn opens stale ctx f.kind f.handle uid gid)
  ])

  unfoldable pub sys_fchownat : ℤ → ℕ → ℕ → ℕ → ℕ → M S ℕ
  sys_fchownat dirfd upath uid gid flags = do
    path ← read_path mem upath
    check (clear_bit (clear_bit flags at_symlink_nofollow) at_empty_path == 0) einval
    b ← lift (base_of fget dirfd path)
    if null path
        then own_chown flags b.self uid gid
        else done (
            vfs_chown fs syn opens stale ctx b.dir path uid gid
              (not (has_bit flags at_symlink_nofollow)))

  unfoldable pub sys_fchown : ℤ → ℕ → ℕ → M S ℕ
  sys_fchown fd uid gid =
      fd_file fget fd >>= λ f. done (vfs_fchown fs syn opens stale ctx f.kind f.handle uid gid)

  abbrev pub path_times : ℤ → ℕ → ℕ → ℤ × ℤ → M S ℕ
  path_times dirfd upath flags (a, m) = do
    path ← read_path mem upath
    b ← lift (base_of fget dirfd path)
    check (not (null path)) enoent
    done (
        vfs_utimens fs syn opens stale ctx b.dir path a m (not (has_bit flags at_symlink_nofollow)))

  abbrev pub fd_times : ℤ → ℤ × ℤ → M S ℕ
  fd_times fd (a, m) =
      fd_file fget fd >>= λ f. done (vfs_futimens fs syn opens stale f.kind f.handle a m)

  unfoldable pub sys_utimensat : ℤ → ℕ → ℕ → ℕ → M S ℕ
  sys_utimensat dirfd upath utimes flags = do
    check (clear_bit flags at_symlink_nofollow == 0) einval
    times ← read_times mem utimes
    if upath == 0 then fd_times dirfd times else path_times dirfd upath flags times

  unfoldable pub sys_truncate : ℕ → ℤ → M S ℕ
  sys_truncate upath (negsuc k) = read_path mem upath >>= λ path. fail einval
  sys_truncate upath (pos size) =
      read_path mem upath >>= λ path. done (vfs_truncate fs syn opens stale ctx none path size)

  unfoldable pub sys_chdir : ℕ → M S FsCtx
  sys_chdir upath = read_path mem upath >>= λ path. vfs_chdir fs syn opens stale ctx none path

  unfoldable pub sys_fchdir : ℤ → M S FsCtx
  sys_fchdir fd = fd_file fget fd >>= λ f. lift (vfs_fchdir ctx f.kind f.path)

  unfoldable pub sys_getcwd : ℕ → ℤ → M S ℕ
  sys_getcwd ubuf (negsuc k) = fail einval
  sys_getcwd ubuf (pos room) =
      check (not (room == 0)) einval >> (lift (vfs_getcwd ctx 4096) >>= cwd_out mem ubuf room)

-- The old mask is returned.
unfoldable pub sys_umask : FsCtx → ℕ → ℕ × FsCtx
sys_umask ctx mask = (ctx.umask, record ctx { umask = mask % 0o1000 })

-- The calls on paths and on a file's attributes in the table of sys_fs_dispatch, but for openat.
pub data PathCall : Type 0 where
  fstatat : ℤ → ℕ → ℕ → ℕ → Bool → ℕ → PathCall
  fstat_fd : ℤ → ℕ → PathCall
  faccessat : ℤ → ℕ → ℕ → ℕ → PathCall
  readlinkat : ℤ → ℕ → ℕ → ℤ → PathCall
  symlinkat : ℕ → ℤ → ℕ → PathCall
  linkat : ℤ → ℕ → ℤ → ℕ → ℕ → PathCall
  unlinkat : ℤ → ℕ → ℕ → PathCall
  renameat2 : ℤ → ℕ → ℤ → ℕ → ℕ → PathCall
  mkdirat : ℤ → ℕ → ℕ → PathCall
  mknodat : ℤ → ℕ → ℕ → ℕ → PathCall
  fchmodat : ℤ → ℕ → ℕ → PathCall
  fchmod : ℤ → ℕ → PathCall
  fchownat : ℤ → ℕ → ℕ → ℕ → ℕ → PathCall
  fchown : ℤ → ℕ → ℕ → PathCall
  utimensat : ℤ → ℕ → ℕ → ℕ → PathCall
  truncate : ℕ → ℤ → PathCall
  getcwd : ℕ → ℤ → PathCall
  chdir : ℕ → PathCall
  fchdir : ℤ → PathCall
  umask : ℕ → PathCall

-- The result beside the working directory and mask, which most calls keep.
abbrev pub keeping : {S : Type 0} → FsCtx → M S ℕ → M S (ℕ × FsCtx)
keeping ctx m = m >>= λ n. pure (n, ctx)

abbrev pub moving : {S : Type 0} → M S FsCtx → M S (ℕ × FsCtx)
moving m = m >>= λ c. pure (0, c)

module _ {S : Type 0} (mem : UserMemory S) (fs : HostFs S) (syn : SynthFs S) (opens : SynthOpen S)
    (stale : CString) (own_stat : OpenDir → S → Result KStat) (ctx : FsCtx)
    (fget : ℤ → Option OpenDir) where
  unfoldable pub dispatch_path : List ℕ → PathCall → M S (ℕ × FsCtx)
  dispatch_path beyond (fstatat d p st flags isx mask) =
      keeping ctx (sys_fstatat mem fs syn opens stale own_stat ctx fget d p st flags isx mask)
  dispatch_path beyond (fstat_fd fd st) =
      keeping ctx (sys_fstat mem fs syn opens stale own_stat ctx fget fd st)
  dispatch_path beyond (faccessat d p mode flags) =
      keeping ctx (sys_faccessat mem fs syn opens stale own_stat ctx fget d p mode flags)
  dispatch_path beyond (readlinkat d p buf room) =
      keeping ctx (sys_readlinkat mem fs syn opens stale own_stat ctx fget beyond d p buf room)
  dispatch_path beyond (symlinkat t d p) =
      keeping ctx (sys_symlinkat mem fs syn opens stale own_stat ctx fget t d p)
  dispatch_path beyond (linkat d p e q flags) =
      keeping ctx (sys_linkat mem fs syn opens stale own_stat ctx fget d p e q flags)
  dispatch_path beyond (unlinkat d p flags) =
      keeping ctx (sys_unlinkat mem fs syn opens stale own_stat ctx fget d p flags)
  dispatch_path beyond (renameat2 d p e q flags) =
      keeping ctx (sys_renameat2 mem fs syn opens stale own_stat ctx fget d p e q flags)
  dispatch_path beyond (mkdirat d p mode) =
      keeping ctx (sys_mkdirat mem fs syn opens stale own_stat ctx fget d p mode)
  dispatch_path beyond (mknodat d p mode dev) =
      keeping ctx (sys_mknodat mem fs syn opens stale own_stat ctx fget d p mode dev)
  dispatch_path beyond (fchmodat d p mode) =
      keeping ctx (sys_fchmodat mem fs syn opens stale own_stat ctx fget d p mode)
  dispatch_path beyond (fchmod fd mode) =
      keeping ctx (sys_fchmod mem fs syn opens stale own_stat ctx fget fd mode)
  dispatch_path beyond (fchownat d p u g flags) =
      keeping ctx (sys_fchownat mem fs syn opens stale own_stat ctx fget d p u g flags)
  dispatch_path beyond (fchown fd u g) =
      keeping ctx (sys_fchown mem fs syn opens stale own_stat ctx fget fd u g)
  dispatch_path beyond (utimensat d p t flags) =
      keeping ctx (sys_utimensat mem fs syn opens stale own_stat ctx fget d p t flags)
  dispatch_path beyond (truncate p size) =
      keeping ctx (sys_truncate mem fs syn opens stale own_stat ctx fget p size)
  dispatch_path beyond (getcwd buf room) =
      keeping ctx (sys_getcwd mem fs syn opens stale own_stat ctx fget buf room)
  dispatch_path beyond (chdir p) = moving (sys_chdir mem fs syn opens stale own_stat ctx fget p)
  dispatch_path beyond (fchdir fd) = moving (sys_fchdir mem fs syn opens stale own_stat ctx fget fd)
  dispatch_path beyond (umask mask) = pure (sys_umask ctx mask)
