-- ===== src/Sys/QuietCalls.antt =====
-- core/sys_fs.c: each call on a path, and the table of them, over a host store that keeps its laws.
use elf_sysv_nt.Common.{ℕ, refl, Bool, not, Option, none, some, List, CString, ℤ, pos, negsuc, null}
use elf_sysv_nt.Common.Errno.{Result, enoent, einval}
use elf_sysv_nt.Host.{M, lift, check, HostFs, Handles, SameHandles, IsQuiet, HandleLaws}
use elf_sysv_nt.Host.Quiet.{
  bind-IsQuiet, check-IsQuiet, if-IsQuiet, lift-IsQuiet, fail-IsQuiet, pure-IsQuiet,
  attempt-IsQuiet,
}
use elf_sysv_nt.Stat.{KStat}
use elf_sysv_nt.Attr.{vfs_fchown}
use elf_sysv_nt.Mount.{FsCtx}
use elf_sysv_nt.Walk.{SynthFs}
use elf_sysv_nt.Open.{SynthOpen}
use elf_sysv_nt.Open.Holds.{IsOpening, bind-IsOpening}
use elf_sysv_nt.Open.Handles.{vfs_open-IsOpening}
use elf_sysv_nt.Tree.Handles.{
  vfs_symlink-IsQuiet, vfs_link-IsQuiet, vfs_unlink-IsQuiet, vfs_rename-IsQuiet, vfs_mkdir-IsQuiet,
  vfs_mknod-IsQuiet,
}
use elf_sysv_nt.Attr.Handles.{
  vfs_stat-IsQuiet, vfs_access-IsQuiet, vfs_readlink-IsQuiet, vfs_chmod-IsQuiet, vfs_chown-IsQuiet,
  vfs_chdir-IsQuiet, vfs_utimens-IsQuiet, f_attr-IsQuiet, vfs_truncate-IsQuiet,
}
use elf_sysv_nt.Sys.{UserMemory}
use elf_sysv_nt.Sys.Paths.{
  OpenDir, hostfile_stat, vfs_fstat, on_store, keeping, moving, sys_chdir, sys_fchdir, chdir,
  fchdir, umask, Base, base_of, read_path, fd_file, empty_stat, own_chown, path_times, fd_times,
  done, path_at, oflags_of, PathCall, dispatch_path, open_file, sys_fstatat, sys_fstat,
  sys_faccessat, sys_readlinkat, sys_symlinkat, sys_linkat, sys_unlinkat, sys_renameat2,
  sys_mkdirat, sys_mknodat, sys_fchmodat, sys_fchmod, sys_fchownat, sys_fchown, sys_utimensat,
  sys_truncate, sys_getcwd, fstatat, fstat_fd, faccessat, readlinkat, symlinkat, linkat, unlinkat,
  renameat2, mkdirat, mknodat, fchmodat, fchmod, fchownat, fchown, utimensat, truncate, getcwd,
}
use elf_sysv_nt.Sys.Quiet.{
  read_path-IsQuiet, optional_path-IsQuiet, write_out-IsQuiet, linked_out-IsQuiet, cwd_out-IsQuiet,
  read_times-IsQuiet, fd_file-IsQuiet, self_or-IsQuiet, done-IsQuiet,
}

module _ {S : Type 0} (mem : UserMemory S) (fs : HostFs S) (syn : SynthFs S) (opens : SynthOpen S)
    (stale : CString) (own_stat : OpenDir → S → Result KStat) (ctx : FsCtx)
    (fget : ℤ → Option OpenDir) (is_open : Handles S) (laws : HandleLaws fs is_open)
    (out_quiet : (a : ℕ) (bytes : List ℕ) (s : S)
      → SameHandles is_open s (mem.copy_out a bytes s).1) where
  hostfile_stat-IsQuiet : (f : OpenDir) → IsQuiet is_open (hostfile_stat fs f)
  unfolding hostfile_stat
  hostfile_stat-IsQuiet f = search (
    bind-IsQuiet, if-IsQuiet, pure-IsQuiet, attempt-IsQuiet, laws.stat_quiet, laws.readlink_quiet,
  )

  vfs_fstat-IsQuiet : (f : OpenDir) → IsQuiet is_open (vfs_fstat fs own_stat f)
  unfolding vfs_fstat
  vfs_fstat-IsQuiet f =
      if-IsQuiet is_open (on_store fs f.kind) (hostfile_stat fs f) _ (hostfile_stat-IsQuiet f)
        (record { same = λ s k. refl })

  sys_fstat-IsQuiet :
      (fd : ℤ) (ust : ℕ)
      → IsQuiet is_open (sys_fstat mem fs syn opens stale own_stat ctx fget fd ust)
  unfolding sys_fstat
  sys_fstat-IsQuiet fd ust = search (
    bind-IsQuiet,
    fd_file-IsQuiet,
    vfs_fstat-IsQuiet,
    done-IsQuiet,
    write_out-IsQuiet mem is_open out_quiet,
  )

  empty_stat-IsQuiet :
      (flags : ℕ) (self : Option OpenDir) (fd : ℤ)
      → IsQuiet is_open (empty_stat mem fs syn opens stale own_stat ctx fget flags self fd)
  empty_stat-IsQuiet flags self fd =
      search (bind-IsQuiet, check-IsQuiet, self_or-IsQuiet, vfs_fstat-IsQuiet)

  sys_fstatat-IsQuiet :
      (d : ℤ) (p st flags : ℕ) (isx : Bool) (mask : ℕ)
      → IsQuiet is_open (sys_fstatat mem fs syn opens stale own_stat ctx fget d p st flags isx mask)
  unfolding sys_fstatat
  sys_fstatat-IsQuiet d p st flags isx mask =
      search
        (
          bind-IsQuiet,
          if-IsQuiet,
          lift-IsQuiet,
          done-IsQuiet,
          empty_stat-IsQuiet,
          optional_path-IsQuiet mem is_open out_quiet,
          write_out-IsQuiet mem is_open out_quiet,
          vfs_stat-IsQuiet fs syn opens stale is_open laws,
        )
        depth 14

  sys_faccessat-IsQuiet :
      (d : ℤ) (p mode flags : ℕ)
      → IsQuiet is_open (sys_faccessat mem fs syn opens stale own_stat ctx fget d p mode flags)
  unfolding sys_faccessat
  sys_faccessat-IsQuiet d p mode flags =
      search
        (
          bind-IsQuiet,
          check-IsQuiet,
          lift-IsQuiet,
          done-IsQuiet,
          read_path-IsQuiet mem is_open out_quiet,
          vfs_access-IsQuiet fs syn opens stale is_open laws,
        )
        depth 14

  sys_readlinkat-IsQuiet :
      (beyond : List ℕ) (d : ℤ) (p buf : ℕ) (room : ℤ)
      → IsQuiet is_open
          (sys_readlinkat mem fs syn opens stale own_stat ctx fget beyond d p buf room)
  unfolding sys_readlinkat
  sys_readlinkat-IsQuiet beyond d p buf (negsuc k) =
      search (bind-IsQuiet, fail-IsQuiet, read_path-IsQuiet mem is_open out_quiet)
  sys_readlinkat-IsQuiet beyond d p buf (pos room) =
      search
        (
          bind-IsQuiet,
          check-IsQuiet,
          lift-IsQuiet,
          read_path-IsQuiet mem is_open out_quiet,
          linked_out-IsQuiet mem is_open out_quiet,
          vfs_readlink-IsQuiet fs syn opens stale is_open laws,
        )
        depth 14

  sys_symlinkat-IsQuiet :
      (t : ℕ) (d : ℤ) (p : ℕ)
      → IsQuiet is_open (sys_symlinkat mem fs syn opens stale own_stat ctx fget t d p)
  unfolding sys_symlinkat
  sys_symlinkat-IsQuiet t d p =
      search
        (
          bind-IsQuiet,
          lift-IsQuiet,
          done-IsQuiet,
          read_path-IsQuiet mem is_open out_quiet,
          vfs_symlink-IsQuiet fs syn opens stale is_open laws,
        )
        depth 14

  sys_linkat-IsQuiet :
      (d : ℤ) (p : ℕ) (e : ℤ) (q flags : ℕ)
      → IsQuiet is_open (sys_linkat mem fs syn opens stale own_stat ctx fget d p e q flags)
  unfolding sys_linkat
  sys_linkat-IsQuiet d p e q flags =
      search
        (
          bind-IsQuiet,
          check-IsQuiet,
          lift-IsQuiet,
          done-IsQuiet,
          read_path-IsQuiet mem is_open out_quiet,
          vfs_link-IsQuiet fs syn opens stale is_open laws,
        )
        depth 18

  sys_unlinkat-IsQuiet :
      (d : ℤ) (p flags : ℕ)
      → IsQuiet is_open (sys_unlinkat mem fs syn opens stale own_stat ctx fget d p flags)
  unfolding sys_unlinkat
  sys_unlinkat-IsQuiet d p flags =
      search
        (
          bind-IsQuiet,
          check-IsQuiet,
          lift-IsQuiet,
          done-IsQuiet,
          read_path-IsQuiet mem is_open out_quiet,
          vfs_unlink-IsQuiet fs syn opens stale is_open laws,
        )
        depth 14

  sys_renameat2-IsQuiet :
      (d : ℤ) (p : ℕ) (e : ℤ) (q flags : ℕ)
      → IsQuiet is_open (sys_renameat2 mem fs syn opens stale own_stat ctx fget d p e q flags)
  unfolding sys_renameat2
  sys_renameat2-IsQuiet d p e q flags =
      search
        (
          bind-IsQuiet,
          lift-IsQuiet,
          done-IsQuiet,
          read_path-IsQuiet mem is_open out_quiet,
          vfs_rename-IsQuiet fs syn opens stale is_open laws,
        )
        depth 14

  path_at-IsQuiet :
      (d : ℤ) (p : ℕ) (f : CString → Base → M S ℕ)
      → ((path : CString) (b : Base) → IsQuiet is_open (f path b))
      → IsQuiet is_open (path_at mem fs syn opens stale own_stat ctx fget d p f)
  path_at-IsQuiet d p f q =
      bind-IsQuiet is_open (read_path mem p) _ (read_path-IsQuiet mem is_open out_quiet p) (λ path.
        bind-IsQuiet is_open (lift (base_of fget d path)) _ (lift-IsQuiet is_open _)
          (λ b. q path b))

  sys_mkdirat-IsQuiet :
      (d : ℤ) (p mode : ℕ)
      → IsQuiet is_open (sys_mkdirat mem fs syn opens stale own_stat ctx fget d p mode)
  unfolding sys_mkdirat
  sys_mkdirat-IsQuiet d p mode = path_at-IsQuiet d p _ (λ path b.
      done-IsQuiet is_open fget _
        (vfs_mkdir-IsQuiet fs syn opens stale is_open laws ctx b.dir path mode))

  sys_mknodat-IsQuiet :
      (d : ℤ) (p mode dev : ℕ)
      → IsQuiet is_open (sys_mknodat mem fs syn opens stale own_stat ctx fget d p mode dev)
  unfolding sys_mknodat
  sys_mknodat-IsQuiet d p mode dev = path_at-IsQuiet d p _ (λ path b.
      done-IsQuiet is_open fget _
        (vfs_mknod-IsQuiet fs syn opens stale is_open laws ctx b.dir path mode _ _))

  sys_fchmodat-IsQuiet :
      (d : ℤ) (p mode : ℕ)
      → IsQuiet is_open (sys_fchmodat mem fs syn opens stale own_stat ctx fget d p mode)
  unfolding sys_fchmodat
  sys_fchmodat-IsQuiet d p mode = path_at-IsQuiet d p _ (λ path b.
      done-IsQuiet is_open fget _
        (vfs_chmod-IsQuiet fs syn opens stale is_open laws ctx b.dir path mode))

  sys_fchmod-IsQuiet :
      (fd : ℤ) (mode : ℕ)
      → IsQuiet is_open (sys_fchmod mem fs syn opens stale own_stat ctx fget fd mode)
  unfolding sys_fchmod
  sys_fchmod-IsQuiet fd mode =
      bind-IsQuiet is_open (fd_file fget fd) _ (fd_file-IsQuiet is_open fget fd) (λ f.
        done-IsQuiet is_open fget _
          (f_attr-IsQuiet fs syn opens stale is_open laws ctx f.kind f.handle mode 0 0 (pos 0)
            (pos 0)).0)

  fchown_file :
      (f : OpenDir) (u g : ℕ)
      → IsQuiet is_open (done (vfs_fchown fs syn opens stale ctx f.kind f.handle u g))
  fchown_file f u g =
      done-IsQuiet is_open fget _
        (f_attr-IsQuiet fs syn opens stale is_open laws ctx f.kind f.handle 0 u g (pos 0) (pos 0)).1

  sys_fchown-IsQuiet :
      (fd : ℤ) (u g : ℕ)
      → IsQuiet is_open (sys_fchown mem fs syn opens stale own_stat ctx fget fd u g)
  unfolding sys_fchown
  sys_fchown-IsQuiet fd u g =
      bind-IsQuiet is_open (fd_file fget fd) _ (fd_file-IsQuiet is_open fget fd)
        (λ f. fchown_file f u g)

  own_chown-IsQuiet :
      (flags : ℕ) (self : Option OpenDir) (u g : ℕ)
      → IsQuiet is_open (own_chown mem fs syn opens stale own_stat ctx fget flags self u g)
  own_chown-IsQuiet flags none u g = search (bind-IsQuiet, check-IsQuiet, fail-IsQuiet)
  own_chown-IsQuiet flags (some f) u g = search (bind-IsQuiet, check-IsQuiet, fchown_file)

  sys_fchownat-IsQuiet :
      (d : ℤ) (p u g flags : ℕ)
      → IsQuiet is_open (sys_fchownat mem fs syn opens stale own_stat ctx fget d p u g flags)
  unfolding sys_fchownat
  sys_fchownat-IsQuiet d p u g flags =
      search
        (
          bind-IsQuiet,
          check-IsQuiet,
          if-IsQuiet,
          lift-IsQuiet,
          done-IsQuiet,
          own_chown-IsQuiet,
          read_path-IsQuiet mem is_open out_quiet,
          vfs_chown-IsQuiet fs syn opens stale is_open laws,
        )
        depth 14

  path_times-IsQuiet :
      (d : ℤ) (p flags : ℕ) (t : ℤ × ℤ)
      → IsQuiet is_open (path_times mem fs syn opens stale own_stat ctx fget d p flags t)
  path_times-IsQuiet d p flags (a, m) =
      search
        (
          bind-IsQuiet,
          check-IsQuiet,
          lift-IsQuiet,
          done-IsQuiet,
          read_path-IsQuiet mem is_open out_quiet,
          vfs_utimens-IsQuiet fs syn opens stale is_open laws,
        )
        depth 14

  fd_times-IsQuiet :
      (fd : ℤ) (t : ℤ × ℤ)
      → IsQuiet is_open (fd_times mem fs syn opens stale own_stat ctx fget fd t)
  fd_times-IsQuiet fd (a, m) =
      bind-IsQuiet is_open (fd_file fget fd) _ (fd_file-IsQuiet is_open fget fd) (λ f.
        done-IsQuiet is_open fget _
          (f_attr-IsQuiet fs syn opens stale is_open laws ctx f.kind f.handle 0 0 0 a m).2)

  sys_utimensat-IsQuiet :
      (d : ℤ) (p times flags : ℕ)
      → IsQuiet is_open (sys_utimensat mem fs syn opens stale own_stat ctx fget d p times flags)
  unfolding sys_utimensat
  sys_utimensat-IsQuiet d p times flags =
      search
        (
          bind-IsQuiet,
          check-IsQuiet,
          if-IsQuiet,
          fd_times-IsQuiet,
          path_times-IsQuiet,
          read_times-IsQuiet mem is_open out_quiet,
        )
        depth 14

  sys_truncate-IsQuiet :
      (p : ℕ) (size : ℤ)
      → IsQuiet is_open (sys_truncate mem fs syn opens stale own_stat ctx fget p size)
  unfolding sys_truncate
  sys_truncate-IsQuiet p (negsuc k) =
      search (bind-IsQuiet, fail-IsQuiet, read_path-IsQuiet mem is_open out_quiet)
  sys_truncate-IsQuiet p (pos size) = search (
    bind-IsQuiet,
    done-IsQuiet,
    read_path-IsQuiet mem is_open out_quiet,
    vfs_truncate-IsQuiet fs syn opens stale is_open laws,
  )

  sys_getcwd-IsQuiet :
      (buf : ℕ) (room : ℤ)
      → IsQuiet is_open (sys_getcwd mem fs syn opens stale own_stat ctx fget buf room)
  unfolding sys_getcwd
  sys_getcwd-IsQuiet buf (negsuc k) = fail-IsQuiet is_open ℕ einval
  sys_getcwd-IsQuiet buf (pos room) =
      search (bind-IsQuiet, check-IsQuiet, lift-IsQuiet, cwd_out-IsQuiet mem is_open out_quiet)

  keeping-IsQuiet : (m : M S ℕ) → IsQuiet is_open m → IsQuiet is_open (keeping ctx m)
  keeping-IsQuiet m q = bind-IsQuiet is_open m _ q (λ n. pure-IsQuiet is_open _)

  moving-IsQuiet : (m : M S FsCtx) → IsQuiet is_open m → IsQuiet is_open (moving m)
  moving-IsQuiet m q = bind-IsQuiet is_open m _ q (λ c. pure-IsQuiet is_open _)

  sys_chdir-IsQuiet :
      (p : ℕ) → IsQuiet is_open (sys_chdir mem fs syn opens stale own_stat ctx fget p)
  unfolding sys_chdir
  sys_chdir-IsQuiet p =
      bind-IsQuiet is_open (read_path mem p) _ (read_path-IsQuiet mem is_open out_quiet p)
        (λ path. vfs_chdir-IsQuiet fs syn opens stale is_open laws ctx none path)

  sys_fchdir-IsQuiet :
      (fd : ℤ) → IsQuiet is_open (sys_fchdir mem fs syn opens stale own_stat ctx fget fd)
  unfolding sys_fchdir
  sys_fchdir-IsQuiet fd =
      bind-IsQuiet is_open (fd_file fget fd) _ (fd_file-IsQuiet is_open fget fd)
        (λ f. lift-IsQuiet is_open _)

  -- Over a host store that keeps the handle laws: every call of `PathCall`, which are those on
  -- a path or a file's attributes but for openat and ftruncate, leaves the open host handles as they
  -- were, whatever the caller's memory holds, whichever copy faults, and whatever the walk meets, where
  -- a copy to user memory opens and closes none.
  pub dispatch_path-IsQuiet :
      (beyond : List ℕ) (c : PathCall)
      → IsQuiet is_open (dispatch_path mem fs syn opens stale own_stat ctx fget beyond c)
  unfolding dispatch_path
  dispatch_path-IsQuiet beyond (fstatat d p st flags isx mask) =
      keeping-IsQuiet _ (sys_fstatat-IsQuiet d p st flags isx mask)
  dispatch_path-IsQuiet beyond (fstat_fd fd st) = keeping-IsQuiet _ (sys_fstat-IsQuiet fd st)
  dispatch_path-IsQuiet beyond (faccessat d p mode flags) =
      keeping-IsQuiet _ (sys_faccessat-IsQuiet d p mode flags)
  dispatch_path-IsQuiet beyond (readlinkat d p buf room) =
      keeping-IsQuiet _ (sys_readlinkat-IsQuiet beyond d p buf room)
  dispatch_path-IsQuiet beyond (symlinkat t d p) = keeping-IsQuiet _ (sys_symlinkat-IsQuiet t d p)
  dispatch_path-IsQuiet beyond (linkat d p e q flags) =
      keeping-IsQuiet _ (sys_linkat-IsQuiet d p e q flags)
  dispatch_path-IsQuiet beyond (unlinkat d p flags) =
      keeping-IsQuiet _ (sys_unlinkat-IsQuiet d p flags)
  dispatch_path-IsQuiet beyond (renameat2 d p e q flags) =
      keeping-IsQuiet _ (sys_renameat2-IsQuiet d p e q flags)
  dispatch_path-IsQuiet beyond (mkdirat d p mode) = keeping-IsQuiet _ (sys_mkdirat-IsQuiet d p mode)
  dispatch_path-IsQuiet beyond (mknodat d p mode dev) =
      keeping-IsQuiet _ (sys_mknodat-IsQuiet d p mode dev)
  dispatch_path-IsQuiet beyond (fchmodat d p mode) =
      keeping-IsQuiet _ (sys_fchmodat-IsQuiet d p mode)
  dispatch_path-IsQuiet beyond (fchmod fd mode) = keeping-IsQuiet _ (sys_fchmod-IsQuiet fd mode)
  dispatch_path-IsQuiet beyond (fchownat d p u g flags) =
      keeping-IsQuiet _ (sys_fchownat-IsQuiet d p u g flags)
  dispatch_path-IsQuiet beyond (fchown fd u g) = keeping-IsQuiet _ (sys_fchown-IsQuiet fd u g)
  dispatch_path-IsQuiet beyond (utimensat d p t flags) =
      keeping-IsQuiet _ (sys_utimensat-IsQuiet d p t flags)
  dispatch_path-IsQuiet beyond (truncate p size) = keeping-IsQuiet _ (sys_truncate-IsQuiet p size)
  dispatch_path-IsQuiet beyond (getcwd buf room) = keeping-IsQuiet _ (sys_getcwd-IsQuiet buf room)
  dispatch_path-IsQuiet beyond (chdir p) = moving-IsQuiet _ (sys_chdir-IsQuiet p)
  dispatch_path-IsQuiet beyond (fchdir fd) = moving-IsQuiet _ (sys_fchdir-IsQuiet fd)
  dispatch_path-IsQuiet beyond (umask mask) = pure-IsQuiet is_open _

  pub open_file-IsOpening :
      (d : ℤ) (p flags mode : ℕ)
      → IsOpening is_open (open_file mem fs syn opens stale own_stat ctx fget d p flags mode)
  unfolding open_file
  open_file-IsOpening d p flags mode =
      bind-IsOpening is_open (read_path mem p) _ (read_path-IsQuiet mem is_open out_quiet p)
        (λ path.
          bind-IsOpening is_open (lift (base_of fget d path)) _ (lift-IsQuiet is_open _) (λ b.
            bind-IsOpening is_open (check (not (null path)) enoent) _
              (check-IsQuiet is_open _ enoent)
              (λ u.
                vfs_open-IsOpening fs syn opens is_open laws ctx b.dir path (oflags_of flags)
                  mode)))
