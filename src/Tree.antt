-- ===== src/Tree.antt =====
-- core/vfs.c: the operations that change the names of a directory tree. `stale` is what the buffer of
-- a joined path holds when `path_join` fails, whose result these operations do not look at.
pub mod Handles
mod Tests
use elf_sysv_nt.Common.{
  ℕ, ◌+◌, ◌-◌, ◌%◌, Bool, true, false, not, ◌&&◌, ◌||◌, Option, none, some, List, [], ◌∷◌,
}
use elf_sysv_nt.Common.{CString, codes, str_eq, length, get_or, null, ltb, ◌==◌, if◌then◌else◌}
use elf_sysv_nt.Common.Errno.{
  Errno, Result, ok, err, eperm, enoent, eacces, ebusy, eexist, exdev, enotdir, eisdir, einval,
  enotempty,
}
use elf_sysv_nt.Host.{M, resume, ◌>>=◌, ◌>>◌, pure, fail, check, attempt, closing, HostFs, HostKind}
use elf_sysv_nt.Host.{OpenFlags, no_flags}
use elf_sysv_nt.Host.HostKind.{fifo, chr, blk, sock}
use elf_sysv_nt.Stat.{KStat, is_dir, type_of, s_ififo, s_ifchr, s_ifblk, s_ifreg, s_ifsock}
use elf_sysv_nt.Mount.{MountType, FsCtx, mount_at}
use elf_sysv_nt.Path.{path_parent, path_join, base_name, path_max, starts_with, slash}
use elf_sysv_nt.Walk.{
  SynthFs, Loc, w_none, w_parent, w_no_follow, walk, stat_abs, open_host_dir, open_object,
}
use elf_sysv_nt.Open.{SynthOpen, OFlags, wronly, Description, vfs_open, masked, on_host}

-- EEXIST is turned into another errno.
abbrev pub other_exist : Errno → Errno → Errno
other_exist e eexist = e
other_exist e e' = e'

abbrev pub swap_errno : {A : Type 0} → (Errno → Errno) → Result A → Result A
swap_errno g (ok a) = ok a
swap_errno g (err e) = err (g e)

abbrev pub on_eexist : {S A : Type 0} → Errno → M S A → M S A
on_eexist e m s = (swap_errno (other_exist e) (m s).0, (m s).1)

abbrev pub is_dot : CString → Bool
is_dot name = str_eq name (codes ".")

abbrev pub is_dot_dot : CString → Bool
is_dot_dot name = str_eq name (codes "..")

-- The path ends in a component `.`.
unfoldable pub ends_in_dot : CString → Bool
ends_in_dot path =
    let n = length path in
    ltb 0 n && ((get_or path (n - 1) 0 == b'.') && ((n == 1) || (get_or path (n - 2) 0 == slash)))

abbrev pub buffer_of : CString → Result CString → CString
buffer_of stale (ok p) = p
buffer_of stale (err e) = stale

-- Flags of `open` for mknod of a regular file.
abbrev pub mknod_flags : OFlags
mknod_flags = record {
  acc = wronly;
  creat = true;
  excl = true;
  trunc = false;
  append = false;
  directory = false;
  no_follow = false;
  path = false;
}

-- The kinds of special file that mknod makes.
unfoldable pub special_kind : ℕ → Option HostKind
special_kind mode =
    let type = type_of mode in
    if type == s_ififo
    then some fifo
    else if type == s_ifchr
    then some chr
    else if type == s_ifblk
    then some blk
    else if type == s_ifsock
    then some sock
    else none

-- EACCES from the host on a directory that is there means that it has entries.
abbrev pub rename_errno : Bool → Errno → Errno
rename_errno onto_dir eacces = if onto_dir then enotempty else eacces
rename_errno onto_dir e = e

abbrev pub is_ok : {A : Type 0} → Result A → Bool
is_ok (ok a) = true
is_ok (err e) = false

-- Whether a stat that may have failed is of a directory.
abbrev pub found_dir : Result (KStat × Option HostKind) → Bool
found_dir (ok (st, kind)) = is_dir st.mode
found_dir (err e) = false

-- A directory cannot be moved into itself.
unfoldable pub moves_into_itself : KStat → CString → CString → Bool
moves_into_itself st old new =
    is_dir st.mode && (starts_with new old && (get_or new (length old) 0 == slash))

module _ {S : Type 0} (fs : HostFs S) (syn : SynthFs S) (opens : SynthOpen S)
    (stale : CString) where
  -- `host_parent` without its last step, the open of the directory.
  unfoldable pub parent_loc : FsCtx → Option CString → CString → M S Loc
  parent_loc ctx base path = do
    loc ← walk fs syn ctx base path w_parent
    check (on_host loc.seat.1.type) eacces
    check (not (is_dot loc.last || is_dot_dot loc.last)) einval
    pure loc

  -- The directory of a location is opened for `f` and closed behind it.
  abbrev pub in_dir : {A : Type 0} → Loc → (ℕ → M S A) → M S A
  in_dir loc f = open_host_dir fs syn loc.seat.1 loc.abs >>= λ d. closing fs d (f d)

  unfoldable pub vfs_symlink : FsCtx → CString → Option CString → CString → M S (Unit {0})
  vfs_symlink ctx target base path = check (not (null target)) enoent >> (do
    loc ← parent_loc ctx base path
    in_dir loc (λ d. fs.symlink d loc.last target ctx.cred.euid ctx.cred.egid))

  -- The object at a canonical path, opened for its attributes, is linked into the directory `nd`.
  unfoldable pub link_object : Loc → ℕ → CString → M S (Unit {0})
  link_object oloc nd last = do
    od ← open_host_dir fs syn oloc.seat.1 (path_parent oloc.abs)
    oh ← open_object fs syn od (base_name oloc.abs) (record no_flags { attr = true })
    closing fs oh (fs.link oh nd last)

  unfoldable pub vfs_link :
      FsCtx → Option CString → CString → Option CString → CString → Bool → M S (Unit {0})
  vfs_link ctx old_base old new_base new follow = do
    oloc ← walk fs syn ctx old_base old (if follow then w_none else w_no_follow)
    check (on_host oloc.seat.1.type) eperm
    (st, kind) ← stat_abs fs syn ctx oloc.abs
    check (not (is_dir st.mode)) eperm
    nloc ← parent_loc ctx new_base new
    in_dir nloc (λ nd. check (nloc.seat.0 == oloc.seat.0) exdev >> link_object oloc nd nloc.last)

  unfoldable pub vfs_unlink : FsCtx → Option CString → CString → Bool → M S (Unit {0})
  vfs_unlink ctx base path rmdir = do
    loc ←
        on_eexist (if rmdir && ends_in_dot path then einval else if rmdir then ebusy else eisdir)
          (walk fs syn ctx base path w_parent)
    check (on_host loc.seat.1.type) eacces
    check (not (is_dot loc.last)) einval
    check (not (is_dot_dot loc.last)) enotempty
    let cand = buffer_of stale (path_join path_max loc.abs loc.last)
    check (not (mount_at ctx.mounts cand)) ebusy
    (st, kind) ← stat_abs fs syn ctx cand
    check (not rmdir || is_dir st.mode) enotdir
    check (rmdir || not (is_dir st.mode)) eisdir
    in_dir loc (λ d. fs.unlink d loc.last rmdir)

  -- The two directories are opened, the rename made, and both closed.
  unfoldable pub rename_in : Bool → Bool → CString → CString → ℕ → ℕ → M S (Unit {0})
  rename_in noreplace onto_dir old new od nd s =
      let (r, s') = fs.rename od old nd new noreplace s in
      (swap_errno (rename_errno onto_dir) r, fs.close nd (fs.close od s'))

  -- What follows the open of a second directory, or the close of the first if it fails.
  abbrev pub second_dir : ℕ → (ℕ → M S (Unit {0})) → Result ℕ → M S (Unit {0})
  second_dir od f (ok nd) s = f nd s
  second_dir od f (err e) s = (err e, fs.close od s)

  unfoldable pub rename_dirs : Bool → Bool → Loc → Loc → M S (Unit {0})
  rename_dirs noreplace onto_dir oloc nloc = do
    od ← open_host_dir fs syn oloc.seat.1 oloc.abs
    r ← attempt (open_host_dir fs syn nloc.seat.1 nloc.abs)
    second_dir od (rename_in noreplace onto_dir oloc.last nloc.last od) r

  -- The checks on the two objects and the rename.
  unfoldable pub rename_found : FsCtx → Bool → Loc → Loc → CString → CString → M S (Unit {0})
  rename_found ctx noreplace oloc nloc ocand ncand = do
    (ost, kind) ← stat_abs fs syn ctx ocand
    found ← attempt (stat_abs fs syn ctx ncand)
    if str_eq ocand ncand then pure tt else do
      check (not (moves_into_itself ost ocand ncand)) einval
      check (not (is_ok found && noreplace)) eexist
      check (not (is_ok found && (is_dir ost.mode && not (found_dir found)))) enotdir
      check (not (is_ok found && (not (is_dir ost.mode) && found_dir found))) eisdir
      rename_dirs noreplace (is_ok found && found_dir found) oloc nloc

  -- `other` is whether the flags have a bit beside RENAME_NOREPLACE.
  unfoldable pub vfs_rename :
      FsCtx → Option CString → CString → Option CString → CString → Bool → Bool → M S (Unit {0})
  vfs_rename ctx old_base old new_base new noreplace other = check (not other) einval >> (do
    oloc ← on_eexist ebusy (walk fs syn ctx old_base old w_parent)
    nloc ← on_eexist ebusy (walk fs syn ctx new_base new w_parent)
    check (on_host oloc.seat.1.type && on_host nloc.seat.1.type) eacces
    check (oloc.seat.0 == nloc.seat.0) exdev
    check
        (not (
          (is_dot oloc.last || is_dot_dot oloc.last) || (is_dot nloc.last || is_dot_dot nloc.last)))
        einval
    let ocand = buffer_of stale (path_join path_max oloc.abs oloc.last)
    let ncand = buffer_of stale (path_join path_max nloc.abs nloc.last)
    check (not (mount_at ctx.mounts ocand || mount_at ctx.mounts ncand)) ebusy
    rename_found ctx noreplace oloc nloc ocand ncand)

  -- The directory is case-sensitive under the root mount of an LX-capable volume.
  unfoldable pub vfs_mkdir : FsCtx → Option CString → CString → ℕ → M S (Unit {0})
  vfs_mkdir ctx base path mode = do
    loc ← walk fs syn ctx base path w_parent
    check (on_host loc.seat.1.type) eacces
    check (not (is_dot loc.last || is_dot_dot loc.last)) eexist
    in_dir loc (λ d.
        fs.mkdir d loc.last (masked (mode % 0o2000) ctx.umask) ctx.cred.euid ctx.cred.egid
          (loc.seat.1.lx_capable && str_eq loc.seat.1.point (codes "/")))

  -- The last `file_put` of a description: its release closes its handle.
  abbrev pub put : Option ℕ → S → S
  put none s = s
  put (some h) s = fs.close h s

  -- `r = m(f); file_put(f); return r;`
  abbrev pub putting : {A : Type 0} → Description → M S A → M S A
  putting f m s = ((m s).0, put f.handle (m s).1)

  unfoldable pub make_special :
      FsCtx → Option CString → CString → ℕ → ℕ → ℕ → Option HostKind → M S (Unit {0})
  make_special ctx base path mode major minor none = fail einval
  make_special ctx base path mode major minor (some kind) = do
    loc ← parent_loc ctx base path
    in_dir loc (λ d.
        fs.mknod d loc.last kind (masked mode ctx.umask) ctx.cred.euid ctx.cred.egid major minor)

  unfoldable pub vfs_mknod : FsCtx → Option CString → CString → ℕ → ℕ → ℕ → M S (Unit {0})
  vfs_mknod ctx base path mode major minor =
      if (type_of mode == 0) || (type_of mode == s_ifreg)
      then (do
        f ← vfs_open fs syn opens ctx base path mknod_flags (mode % 0o10000)
        putting f (pure tt))
      else make_special ctx base path mode major minor (special_kind mode)
