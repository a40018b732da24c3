-- ===== src/Attr.antt =====
-- core/vfs.c: the operations that read and change an object's attributes, and those on the working
-- directory.
pub mod Handles
pub mod Rules
mod Tests
use elf_sysv_nt.Common.{
  ℕ, ◌+◌, ◌-◌, ◌%◌, ◌^◌, Bool, true, false, not, ◌&&◌, ◌||◌, Option, none, some,
}
use elf_sysv_nt.Common.{CString, length, null, ltb, ◌==◌, if◌then◌else◌, ℤ}
use elf_sysv_nt.Common.Errno.{Errno, Result, ok, err, eperm, einval, enotdir, erange}
use elf_sysv_nt.Host.{
  M, resume, ◌>>=◌, ◌>>◌, pure, fail, lift, check, attempt, closing, HostFs, HostStat,
}
use elf_sysv_nt.Host.{OpenFlags, no_flags}
use elf_sysv_nt.File.{Kind}
use elf_sysv_nt.File.Kind.{host, hostdir, proc, symlink}
use elf_sysv_nt.Stat.{KStat, is_link, may, kind_type, s_ifdir, s_ifreg}
use elf_sysv_nt.Mount.{MountType, Mount, FsCtx, Seat, mount_of}
use elf_sysv_nt.Path.{path_parent, base_name, path_rel}
use elf_sysv_nt.Walk.{
  SynthFs, Loc, WalkFlags, w_none, w_no_follow, walk, stat_abs, readlink_abs, open_host_dir,
}
use elf_sysv_nt.Walk.{open_object}
use elf_sysv_nt.Open.{SynthOpen, OFlags, wronly, Description, vfs_open, on_host, is_host_dir}
use elf_sysv_nt.Tree.{putting}

abbrev pub follow_flags : Bool → WalkFlags
follow_flags follow = if follow then w_none else w_no_follow

-- The size of a symlink is its target's length, if it can be read and is not empty.
unfoldable pub link_size : KStat → Result CString → KStat
link_size st (ok target) = if ltb 0 (length target) then record st { size = length target } else st
link_size st (err e) = st

abbrev pub attr_flags : OpenFlags
attr_flags = record no_flags { attr = true }

abbrev pub truncate_flags : OFlags
truncate_flags = record {
  acc = wronly;
  creat = false;
  excl = false;
  trunc = false;
  append = false;
  directory = false;
  no_follow = false;
  path = false;
}

-- `(uint32_t)-1` leaves an id as it is.
abbrev pub given_id : ℕ → Option ℕ
given_id i = if i == 2 ^ 32 - 1 then none else some i

abbrev pub is_given : Option ℕ → Bool
is_given none = false
is_given (some i) = true

-- The kinds of description that stand on a host handle.
abbrev pub on_handle : Kind → Bool
on_handle host = true
on_handle hostdir = true
on_handle symlink = true
on_handle _ = false

abbrev pub is_hostdir : Kind → Bool
is_hostdir hostdir = true
is_hostdir _ = false

-- The kinds whose operation table has a `truncate`.
abbrev pub truncates : Kind → Bool
truncates host = true
truncates symlink = true
truncates _ = false

abbrev pub is_proc : Kind → Bool
is_proc proc = true
is_proc _ = false

unfoldable pub vfs_fchdir : FsCtx → Kind → CString → Result FsCtx
vfs_fchdir ctx kind path =
    if is_hostdir kind || (is_proc kind && not (null path))
    then ok (record ctx { cwd = path })
    else err enotdir

-- The bytes that the caller's buffer gets; the count returned is one more, for the terminator.
unfoldable pub vfs_getcwd : FsCtx → ℕ → Result (CString × ℕ)
vfs_getcwd ctx cap =
    let n = length ctx.cwd in if ltb cap (n + 1) then err erange else ok (ctx.cwd, n + 1)

module _ {S : Type 0} (fs : HostFs S) (syn : SynthFs S) (opens : SynthOpen S)
    (stale : CString) where
  unfoldable pub vfs_stat : FsCtx → Option CString → CString → Bool → M S KStat
  vfs_stat ctx base path follow = do
    loc ← walk fs syn ctx base path (follow_flags follow)
    (st, kind) ← stat_abs fs syn ctx loc.abs
    if is_link st.mode
        then (attempt (readlink_abs fs syn ctx loc.abs) >>= λ r. pure (link_size st r))
        else pure st

  -- `mode` is 0 (F_OK) or a sum of R_OK, W_OK and X_OK.
  unfoldable pub vfs_access : FsCtx → Option CString → CString → ℕ → Bool → M S (Unit {0})
  vfs_access ctx base path mode effective = do
    st ← vfs_stat ctx base path true
    if mode == 0 then pure tt else lift (may ctx.cred st (mode % 8) effective)

  unfoldable pub vfs_readlink : FsCtx → Option CString → CString → M S CString
  vfs_readlink ctx base path = do
    loc ← walk fs syn ctx base path w_no_follow
    (st, kind) ← stat_abs fs syn ctx loc.abs
    check (is_link st.mode) einval
    readlink_abs fs syn ctx loc.abs

  abbrev pub reopen_handle : ℕ → OpenFlags → M S ℕ
  reopen_handle h flags = fs.reopen h flags >>= λ (n, st). pure n

  unfoldable pub open_attr_on : CString → Option Seat → M S ℕ
  open_attr_on abs none = fail eperm
  open_attr_on abs (some (i, m)) =
      if on_host m.type
      then (if null (path_rel m.point abs)
          then reopen_handle m.root (record attr_flags { dir_only = true })
          else (open_host_dir fs syn m (path_parent abs) >>= λ d.
              open_object fs syn d (base_name abs) attr_flags))
      else fail eperm

  unfoldable pub open_attr : FsCtx → CString → M S ℕ
  open_attr ctx abs = open_attr_on abs (mount_of ctx.mounts abs)

  -- The attributes that are there are kept, and absent ids are set to root's.
  unfoldable pub chmod_h : FsCtx → ℕ → ℕ → M S (Unit {0})
  chmod_h ctx mode h = do
    hs ← fs.stat h
    check ((ctx.cred.euid == 0) || (not hs.has_uid || (hs.uid == ctx.cred.euid))) eperm
    fs.set_lx h (if hs.has_uid then none else some 0) (if hs.has_gid then none else some 0)
        (some (kind_type hs.kind + mode % 0o10000))

  unfoldable pub chown_h : FsCtx → ℕ → ℕ → ℕ → M S (Unit {0})
  chown_h ctx uid gid h = do
    hs ← fs.stat h
    check (ctx.cred.euid == 0) eperm
    if is_given (given_id uid) || is_given (given_id gid)
        then fs.set_lx h (given_id uid) (given_id gid) (
            if hs.has_mode
            then none
            else some (if is_host_dir hs.kind then s_ifdir + 0o755 else s_ifreg + 0o644))
        else pure tt

  -- The object at a path is opened for its attributes, used and closed.
  abbrev pub at_path :
      FsCtx → Option CString → CString → Bool → (ℕ → M S (Unit {0})) → M S (Unit {0})
  at_path ctx base path follow f = do
    loc ← walk fs syn ctx base path (follow_flags follow)
    h ← open_attr ctx loc.abs
    closing fs h (f h)

  unfoldable pub vfs_chmod : FsCtx → Option CString → CString → ℕ → M S (Unit {0})
  vfs_chmod ctx base path mode = at_path ctx base path true (chmod_h ctx mode)

  unfoldable pub vfs_chown : FsCtx → Option CString → CString → ℕ → ℕ → Bool → M S (Unit {0})
  vfs_chown ctx base path uid gid follow = at_path ctx base path follow (chown_h ctx uid gid)

  unfoldable pub vfs_utimens : FsCtx → Option CString → CString → ℤ → ℤ → Bool → M S (Unit {0})
  vfs_utimens ctx base path atime mtime follow =
      at_path ctx base path follow (λ h. fs.set_times h atime mtime)

  -- The handle of a description is given by `kind` and `h`.
  unfoldable pub reopen_attr : Kind → ℕ → M S ℕ
  reopen_attr kind h =
      if on_handle kind
      then reopen_handle h (record attr_flags { reparse = true; dir_only = is_hostdir kind })
      else fail eperm

  abbrev pub at_file : Kind → ℕ → (ℕ → M S (Unit {0})) → M S (Unit {0})
  at_file kind handle f = do h ← reopen_attr kind handle; closing fs h (f h)

  unfoldable pub vfs_fchmod : FsCtx → Kind → ℕ → ℕ → M S (Unit {0})
  vfs_fchmod ctx kind handle mode = at_file kind handle (chmod_h ctx mode)

  unfoldable pub vfs_fchown : FsCtx → Kind → ℕ → ℕ → ℕ → M S (Unit {0})
  vfs_fchown ctx kind handle uid gid = at_file kind handle (chown_h ctx uid gid)

  unfoldable pub vfs_futimens : Kind → ℕ → ℤ → ℤ → M S (Unit {0})
  vfs_futimens kind handle atime mtime = at_file kind handle (λ h. fs.set_times h atime mtime)

  -- `f->ops->truncate`, or EINVAL without one.
  unfoldable pub truncate_of : Description → ℕ → M S (Unit {0})
  truncate_of f size =
      if truncates f.kind
      then elim f.handle [ none ↦ fail einval | some h ↦ fs.truncate h size ]
      else fail einval

  unfoldable pub vfs_truncate : FsCtx → Option CString → CString → ℕ → M S (Unit {0})
  vfs_truncate ctx base path size = do
    f ← vfs_open fs syn opens ctx base path truncate_flags 0
    putting fs syn opens stale f (truncate_of f size)

  unfoldable pub vfs_chdir : FsCtx → Option CString → CString → M S FsCtx
  vfs_chdir ctx base path = do
    loc ← walk fs syn ctx base path (record w_none { must_dir = true })
    (st, kind) ← stat_abs fs syn ctx loc.abs
    lift (may ctx.cred st 1 true)
    pure (record ctx { cwd = loc.abs })
