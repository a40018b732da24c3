-- ===== src/Attr/Handles.antt =====
-- The attribute operations of core/vfs.c leave no host handle open.
use elf_sysv_nt.Common.{ℕ, refl, Bool, true, false, Option, none, some, null}
use elf_sysv_nt.Common.{CString, if◌then◌else◌, ℤ}
use elf_sysv_nt.Common.Errno.{Result, ok, err, einval}
use elf_sysv_nt.Host.{M, resume, ◌>>=◌, pure, fail, HostFs, HostStat, Handles, OpenFlags}
use elf_sysv_nt.Host.{OneMore, IsQuiet, HandleLaws, OpensOne, as_opened}
use elf_sysv_nt.Host.Quiet.{
  OpensResult, Opens, bind-IsQuiet, check-IsQuiet, if-IsQuiet, pure-IsQuiet, lift-IsQuiet,
}
use elf_sysv_nt.Host.Quiet.{using-IsQuiet, attempt-IsQuiet, fail-IsQuiet}
use elf_sysv_nt.File.{Kind}
use elf_sysv_nt.Mount.{FsCtx, Seat, mount_of}
use elf_sysv_nt.Path.{path_parent, base_name, path_rel}
use elf_sysv_nt.Walk.{SynthFs, walk, open_host_dir}
use elf_sysv_nt.Walk.Handles.{
  walk-IsQuiet, stat_abs-IsQuiet, open_host_dir-Opens, open_object-swap, readlink_abs-IsQuiet,
}
use elf_sysv_nt.Open.{SynthOpen, Description, vfs_open, on_host}
use elf_sysv_nt.Open.Handles.{vfs_open-IsOpening}
use elf_sysv_nt.Tree.Handles.{putting-IsQuiet}
use elf_sysv_nt.Attr.{follow_flags, attr_flags, truncate_flags, vfs_stat, vfs_access, vfs_readlink}
use elf_sysv_nt.Attr.{
  reopen_handle, open_attr_on, open_attr, chmod_h, chown_h, at_path, vfs_chmod, vfs_chown,
}
use elf_sysv_nt.Attr.{
  vfs_utimens, reopen_attr, at_file, vfs_fchmod, vfs_fchown, vfs_futimens, truncate_of,
}
use elf_sysv_nt.Attr.{vfs_truncate, vfs_chdir, on_handle, is_hostdir, truncates}

module _ {S : Type 0} (fs : HostFs S) (syn : SynthFs S) (opens : SynthOpen S) (stale : CString)
    (is_open : Handles S) (laws : HandleLaws fs is_open) where
  -- `vfs_stat` leaves the open handles as they were.
  pub vfs_stat-IsQuiet :
      (ctx : FsCtx) (base : Option CString) (path : CString) (follow : Bool)
      → IsQuiet is_open (vfs_stat fs syn opens stale ctx base path follow)
  unfolding vfs_stat
  vfs_stat-IsQuiet ctx base path follow =
      search
        (
          bind-IsQuiet,
          if-IsQuiet,
          pure-IsQuiet,
          attempt-IsQuiet,
          walk-IsQuiet fs syn is_open laws,
          stat_abs-IsQuiet fs syn is_open laws,
          readlink_abs-IsQuiet fs syn is_open laws,
        )
        depth 14

  pub vfs_access-IsQuiet :
      (ctx : FsCtx) (base : Option CString) (path : CString) (mode : ℕ) (effective : Bool)
      → IsQuiet is_open (vfs_access fs syn opens stale ctx base path mode effective)
  unfolding vfs_access
  vfs_access-IsQuiet ctx base path mode effective =
      search (bind-IsQuiet, if-IsQuiet, pure-IsQuiet, lift-IsQuiet, vfs_stat-IsQuiet)

  pub vfs_readlink-IsQuiet :
      (ctx : FsCtx) (base : Option CString) (path : CString)
      → IsQuiet is_open (vfs_readlink fs syn opens stale ctx base path)
  unfolding vfs_readlink
  vfs_readlink-IsQuiet ctx base path =
      search
        (
          bind-IsQuiet,
          check-IsQuiet,
          walk-IsQuiet fs syn is_open laws,
          stat_abs-IsQuiet fs syn is_open laws,
          readlink_abs-IsQuiet fs syn is_open laws,
        )
        depth 14

  reopen_handle-Opens :
      (h : ℕ) (flags : OpenFlags) → Opens is_open (reopen_handle fs syn opens stale h flags)
  reopen_handle-Opens h flags s =
      taken s (fs.reopen h flags s).0 (fs.reopen h flags s).1 (laws.reopen_one h flags s)
    where
      taken :
          (s : S) (r : Result (ℕ × HostStat)) (s' : S)
          → OpensOne is_open s (as_opened r, s')
          → OpensResult is_open s (resume r (λ x. pure x.0) s')
      taken s (ok (n, st)) s' one = one
      taken s (err e) s' one = one

  if-Opens :
      (b : Bool) (m n : M S ℕ)
      → Opens is_open m
      → Opens is_open n
      → Opens is_open (if b then m else n)
  if-Opens true m n p q = p
  if-Opens false m n p q = q

  swapped-Opens :
      (m : M S ℕ) (f : ℕ → M S ℕ)
      → Opens is_open m
      → ((d : ℕ) (s s' : S) → OneMore is_open d s s' → OpensResult is_open s (f d s'))
      → Opens is_open (m >>= f)
  swapped-Opens m f o q s = swapped (m s).0 (m s).1 (o s)
    where
      swapped :
          (r : Result ℕ) (s' : S)
          → OpensResult is_open s (r, s')
          → OpensResult is_open s (resume r f s')
      swapped (ok d) s' more = q d s s' more
      swapped (err e) s' same = same

  open_attr_on-Opens :
      (abs : CString) (o : Option Seat) → Opens is_open (open_attr_on fs syn opens stale abs o)
  unfolding open_attr_on
  open_attr_on-Opens abs none = λ s k. refl
  open_attr_on-Opens abs (some (i, m)) =
      if-Opens (on_host m.type) _ _
        (if-Opens (null (path_rel m.point abs)) _ _
          (reopen_handle-Opens m.root (record attr_flags { dir_only = true }))
          (swapped-Opens (open_host_dir fs syn m (path_parent abs)) _
            (open_host_dir-Opens fs syn is_open laws m (path_parent abs))
            (open_object-swap fs syn is_open laws (base_name abs) attr_flags)))
        (λ s k. refl)

  open_attr-Opens :
      (ctx : FsCtx) (abs : CString) → Opens is_open (open_attr fs syn opens stale ctx abs)
  unfolding open_attr
  open_attr-Opens ctx abs = open_attr_on-Opens abs (mount_of ctx.mounts abs)

  reopen_attr-Opens : (kind : Kind) (h : ℕ) → Opens is_open (reopen_attr fs syn opens stale kind h)
  unfolding reopen_attr
  reopen_attr-Opens kind h =
      if-Opens (on_handle kind) _ _
        (reopen_handle-Opens h (record attr_flags { reparse = true; dir_only = is_hostdir kind }))
        (λ s k. refl)

  at_path-IsQuiet :
      (ctx : FsCtx) (base : Option CString) (path : CString) (follow : Bool)
      (f : ℕ → M S (Unit {0}))
      → ((h : ℕ) → IsQuiet is_open (f h))
      → IsQuiet is_open (at_path fs syn opens stale ctx base path follow f)
  at_path-IsQuiet ctx base path follow f q =
      bind-IsQuiet is_open (walk fs syn ctx base path (follow_flags follow)) _
        (walk-IsQuiet fs syn is_open laws ctx base path (follow_flags follow))
        (λ loc.
          using-IsQuiet is_open fs laws (open_attr fs syn opens stale ctx loc.abs) f
            (open_attr-Opens ctx loc.abs) q)

  at_file-IsQuiet :
      (kind : Kind) (h : ℕ) (f : ℕ → M S (Unit {0}))
      → ((n : ℕ) → IsQuiet is_open (f n))
      → IsQuiet is_open (at_file fs syn opens stale kind h f)
  at_file-IsQuiet kind h f q =
      using-IsQuiet is_open fs laws (reopen_attr fs syn opens stale kind h) f
        (reopen_attr-Opens kind h) q

  chmod_h-IsQuiet :
      (ctx : FsCtx) (mode h : ℕ) → IsQuiet is_open (chmod_h fs syn opens stale ctx mode h)
  unfolding chmod_h
  chmod_h-IsQuiet ctx mode h =
      search (bind-IsQuiet, check-IsQuiet, laws.stat_quiet, laws.set_lx_quiet)

  chown_h-IsQuiet :
      (ctx : FsCtx) (uid gid h : ℕ) → IsQuiet is_open (chown_h fs syn opens stale ctx uid gid h)
  unfolding chown_h
  chown_h-IsQuiet ctx uid gid h =
      search
        (bind-IsQuiet, check-IsQuiet, if-IsQuiet, pure-IsQuiet, laws.stat_quiet, laws.set_lx_quiet)
        depth 8

  -- Over a host store that keeps the handle laws: `vfs_chmod` closes the object whose attributes
  -- it changes, on success and on each error.
  pub vfs_chmod-IsQuiet :
      (ctx : FsCtx) (base : Option CString) (path : CString) (mode : ℕ)
      → IsQuiet is_open (vfs_chmod fs syn opens stale ctx base path mode)
  unfolding vfs_chmod
  vfs_chmod-IsQuiet ctx base path mode =
      at_path-IsQuiet ctx base path true _ (chmod_h-IsQuiet ctx mode)

  pub vfs_chown-IsQuiet :
      (ctx : FsCtx) (base : Option CString) (path : CString) (uid gid : ℕ) (follow : Bool)
      → IsQuiet is_open (vfs_chown fs syn opens stale ctx base path uid gid follow)
  unfolding vfs_chown
  vfs_chown-IsQuiet ctx base path uid gid follow =
      at_path-IsQuiet ctx base path follow _ (chown_h-IsQuiet ctx uid gid)

  pub vfs_utimens-IsQuiet :
      (ctx : FsCtx) (base : Option CString) (path : CString) (atime mtime : ℤ) (follow : Bool)
      → IsQuiet is_open (vfs_utimens fs syn opens stale ctx base path atime mtime follow)
  unfolding vfs_utimens
  vfs_utimens-IsQuiet ctx base path atime mtime follow =
      at_path-IsQuiet ctx base path follow _ (λ h. laws.set_times_quiet h atime mtime)

  -- Over a host store that keeps the handle laws: the three operations on a description close the
  -- handle that they open beside its own.
  pub f_attr-IsQuiet :
      (ctx : FsCtx) (kind : Kind) (handle mode uid gid : ℕ) (atime mtime : ℤ)
      → IsQuiet is_open (vfs_fchmod fs syn opens stale ctx kind handle mode)
        × IsQuiet is_open (vfs_fchown fs syn opens stale ctx kind handle uid gid)
        × IsQuiet is_open (vfs_futimens fs syn opens stale kind handle atime mtime)
  unfolding vfs_fchmod vfs_fchown vfs_futimens
  f_attr-IsQuiet ctx kind handle mode uid gid atime mtime = (
    at_file-IsQuiet kind handle _ (chmod_h-IsQuiet ctx mode),
    at_file-IsQuiet kind handle _ (chown_h-IsQuiet ctx uid gid),
    at_file-IsQuiet kind handle _ (λ h. laws.set_times_quiet h atime mtime),
  )

  truncate_of-IsQuiet :
      (f : Description) (size : ℕ) → IsQuiet is_open (truncate_of fs syn opens stale f size)
  unfolding truncate_of
  truncate_of-IsQuiet f size =
      if-IsQuiet is_open (truncates f.kind) _ _ (by_handle f.handle)
        (fail-IsQuiet is_open (Unit {0}) einval)
    where
      by_handle :
          (o : Option ℕ)
          → IsQuiet is_open
              (elim o as (λ x. M S (Unit {0})) [ none ↦ fail einval | some h ↦ fs.truncate h size ])
      by_handle none = record { same = λ s k. refl }
      by_handle (some h) = laws.truncate_quiet h size

  -- Over a host store that keeps the handle laws: `vfs_truncate` puts the description that it
  -- opens, on success and on each error.
  pub vfs_truncate-IsQuiet :
      (ctx : FsCtx) (base : Option CString) (path : CString) (size : ℕ)
      → IsQuiet is_open (vfs_truncate fs syn opens stale ctx base path size)
  unfolding vfs_truncate
  vfs_truncate-IsQuiet ctx base path size =
      putting-IsQuiet fs syn opens stale is_open laws
        (vfs_open fs syn opens ctx base path truncate_flags 0)
        (λ f. truncate_of fs syn opens stale f size)
        (vfs_open-IsOpening fs syn opens is_open laws ctx base path truncate_flags 0)
        (λ f. truncate_of-IsQuiet f size)

  pub vfs_chdir-IsQuiet :
      (ctx : FsCtx) (base : Option CString) (path : CString)
      → IsQuiet is_open (vfs_chdir fs syn opens stale ctx base path)
  unfolding vfs_chdir
  vfs_chdir-IsQuiet ctx base path =
      search
        (
          bind-IsQuiet,
          lift-IsQuiet,
          pure-IsQuiet,
          walk-IsQuiet fs syn is_open laws,
          stat_abs-IsQuiet fs syn is_open laws,
        )
        depth 14
