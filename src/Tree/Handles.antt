-- ===== src/Tree/Handles.antt =====
-- The operations of core/vfs.c on the names of a directory tree leave no host handle open.
use elf_sysv_nt.Common.{ℕ, refl, ◌∙◌, Bool, true, ◌||◌, Option, none, some}
use elf_sysv_nt.Common.{CString, ◌==◌, ◌%◌}
use elf_sysv_nt.Common.Errno.{Errno, Result, ok, err}
use elf_sysv_nt.Host.{M, resume, ◌>>=◌, pure, HostFs, HostKind, Handles}
use elf_sysv_nt.Host.{OneMore, IsQuiet, SameHandles, HandleLaws, no_flags}
use elf_sysv_nt.Host.Quiet.{OpensResult, bind-IsQuiet, check-IsQuiet, if-IsQuiet, pure-IsQuiet}
use elf_sysv_nt.Host.Quiet.{
  using-IsQuiet, replace-IsQuiet, attempt-IsQuiet, close_restores, swap_handle,
}
use elf_sysv_nt.Stat.{type_of, s_ifreg}
use elf_sysv_nt.Mount.{FsCtx}
use elf_sysv_nt.Path.{path_parent, base_name}
use elf_sysv_nt.Walk.{SynthFs, Loc, open_host_dir, open_object}
use elf_sysv_nt.Walk.Handles.{walk-IsQuiet, stat_abs-IsQuiet, open_host_dir-Opens, open_object-swap}
use elf_sysv_nt.Open.{SynthOpen, Description, vfs_open}
use elf_sysv_nt.Open.Handles.{vfs_open-IsOpening}
use elf_sysv_nt.Open.Holds.{IsOpening, Holds}
use elf_sysv_nt.Tree.{on_eexist, parent_loc, in_dir, vfs_symlink}
use elf_sysv_nt.Tree.{
  link_object, vfs_link, vfs_unlink, rename_in, second_dir, rename_dirs, rename_found,
}
use elf_sysv_nt.Tree.{
  vfs_rename, vfs_mkdir, put, putting, make_special, vfs_mknod, special_kind, mknod_flags,
}

module _ {S : Type 0} (fs : HostFs S) (syn : SynthFs S) (opens : SynthOpen S) (stale : CString)
    (is_open : Handles S) (laws : HandleLaws fs is_open) where
  in_dir-IsQuiet :
      {A : Type 0} (loc : Loc) (f : ℕ → M S A)
      → ((d : ℕ) → IsQuiet is_open (f d))
      → IsQuiet is_open (in_dir fs syn opens stale loc f)
  in_dir-IsQuiet loc f q =
      using-IsQuiet is_open fs laws (open_host_dir fs syn loc.seat.1 loc.abs) f
        (open_host_dir-Opens fs syn is_open laws loc.seat.1 loc.abs) q

  on_eexist-IsQuiet :
      {A : Type 0} (e : Errno) (m : M S A) → IsQuiet is_open m → IsQuiet is_open (on_eexist e m)
  on_eexist-IsQuiet e m q = record { same = q.same }

  parent_loc-IsQuiet :
      (ctx : FsCtx) (base : Option CString) (path : CString)
      → IsQuiet is_open (parent_loc fs syn opens stale ctx base path)
  unfolding parent_loc
  parent_loc-IsQuiet ctx base path =
      search (bind-IsQuiet, check-IsQuiet, pure-IsQuiet, walk-IsQuiet fs syn is_open laws)

  -- `vfs_symlink` leaves the open handles as they were, on success and on each error.
  pub vfs_symlink-IsQuiet :
      (ctx : FsCtx) (target : CString) (base : Option CString) (path : CString)
      → IsQuiet is_open (vfs_symlink fs syn opens stale ctx target base path)
  unfolding vfs_symlink
  vfs_symlink-IsQuiet ctx target base path =
      search (bind-IsQuiet, check-IsQuiet, parent_loc-IsQuiet, in_dir-IsQuiet, laws.symlink_quiet)

  link_object-IsQuiet :
      (oloc : Loc) (nd : ℕ) (last : CString)
      → IsQuiet is_open (link_object fs syn opens stale oloc nd last)
  unfolding link_object
  link_object-IsQuiet oloc nd last =
      replace-IsQuiet is_open fs laws (open_host_dir fs syn oloc.seat.1 (path_parent oloc.abs))
        (λ od. open_object fs syn od (base_name oloc.abs) (record no_flags { attr = true }))
        (λ oh. fs.link oh nd last)
        (open_host_dir-Opens fs syn is_open laws oloc.seat.1 (path_parent oloc.abs))
        (open_object-swap fs syn is_open laws (base_name oloc.abs)
          (record no_flags { attr = true }))
        (λ oh. laws.link_quiet oh nd last)

  -- Over a host store that keeps the handle laws: `vfs_link` closes the two directories and the
  -- object that it opens, on success and on each error.
  pub vfs_link-IsQuiet :
      (ctx : FsCtx) (old_base : Option CString) (old : CString) (new_base : Option CString)
      (new : CString) (follow : Bool)
      → IsQuiet is_open (vfs_link fs syn opens stale ctx old_base old new_base new follow)
  unfolding vfs_link
  vfs_link-IsQuiet ctx old_base old new_base new follow =
      search
        (
          bind-IsQuiet,
          check-IsQuiet,
          parent_loc-IsQuiet,
          in_dir-IsQuiet,
          link_object-IsQuiet,
          walk-IsQuiet fs syn is_open laws,
          stat_abs-IsQuiet fs syn is_open laws,
        )
        depth 14

  -- Over a host store that keeps the handle laws: `vfs_unlink` closes the directory that it
  -- opens, on success and on each error.
  pub vfs_unlink-IsQuiet :
      (ctx : FsCtx) (base : Option CString) (path : CString) (rmdir : Bool)
      → IsQuiet is_open (vfs_unlink fs syn opens stale ctx base path rmdir)
  unfolding vfs_unlink
  vfs_unlink-IsQuiet ctx base path rmdir =
      search
        (
          bind-IsQuiet,
          check-IsQuiet,
          on_eexist-IsQuiet,
          in_dir-IsQuiet,
          laws.unlink_quiet,
          walk-IsQuiet fs syn is_open laws,
          stat_abs-IsQuiet fs syn is_open laws,
        )
        depth 14

  rename_in-restores :
      (noreplace onto_dir : Bool) (old new : CString) (od nd : ℕ) (s s' s'' : S)
      → OneMore is_open od s s'
      → OneMore is_open nd s' s''
      → SameHandles is_open s (rename_in fs syn opens stale noreplace onto_dir old new od nd s'').1
  unfolding rename_in
  rename_in-restores noreplace onto_dir old new od nd s s' s'' more more' =
      let t = (fs.rename od old nd new noreplace s'').1 in
      let same = (laws.rename_quiet od old nd new noreplace).same s'' in
      close_restores is_open fs laws nd s (fs.close od t) (fs.close od t)
        (swap_handle is_open fs laws od nd s s' t more (more'.0, λ k. same k ∙ more'.1 k))
        (λ k. refl)

  second_dir-restores :
      (od : ℕ) (f : ℕ → M S (Unit {0})) (s s' s'' : S) (r : Result ℕ)
      → OneMore is_open od s s'
      → OpensResult is_open s' (r, s'')
      → ((nd : ℕ) → OneMore is_open nd s' s'' → SameHandles is_open s (f nd s'').1)
      → SameHandles is_open s (second_dir fs syn opens stale od f r s'').1
  second_dir-restores od f s s' s'' (ok nd) more o q = q nd o
  second_dir-restores od f s s' s'' (err e) more o q =
      close_restores is_open fs laws od s s' s'' more o

  first_dir-restores :
      (f : ℕ → M S (Unit {0})) (s s' : S) (r : Result ℕ)
      → OpensResult is_open s (r, s')
      → ((od : ℕ) → OneMore is_open od s s' → SameHandles is_open s (f od s').1)
      → SameHandles is_open s (resume r f s').1
  first_dir-restores f s s' (ok od) o q = q od o
  first_dir-restores f s s' (err e) o q = o

  rename_dirs-IsQuiet :
      (noreplace onto_dir : Bool) (oloc nloc : Loc)
      → IsQuiet is_open (rename_dirs fs syn opens stale noreplace onto_dir oloc nloc)
  unfolding rename_dirs
  rename_dirs-IsQuiet noreplace onto_dir oloc nloc = record {
    same = λ s.
        let m = open_host_dir fs syn oloc.seat.1 oloc.abs in
        let n = open_host_dir fs syn nloc.seat.1 nloc.abs in
        first_dir-restores _ s (m s).1 (m s).0
          (open_host_dir-Opens fs syn is_open laws oloc.seat.1 oloc.abs s)
          (λ od more.
            second_dir-restores od
              (rename_in fs syn opens stale noreplace onto_dir oloc.last nloc.last od) s (m s).1
              (n (m s).1).1 (n (m s).1).0 more
              (open_host_dir-Opens fs syn is_open laws nloc.seat.1 nloc.abs (m s).1)
              (λ nd more'.
                rename_in-restores noreplace onto_dir oloc.last nloc.last od nd s (m s).1
                  (n (m s).1).1 more more'));
  }

  rename_found-IsQuiet :
      (ctx : FsCtx) (noreplace : Bool) (oloc nloc : Loc) (ocand ncand : CString)
      → IsQuiet is_open (rename_found fs syn opens stale ctx noreplace oloc nloc ocand ncand)
  unfolding rename_found
  rename_found-IsQuiet ctx noreplace oloc nloc ocand ncand =
      search
        (
          bind-IsQuiet,
          check-IsQuiet,
          attempt-IsQuiet,
          if-IsQuiet,
          pure-IsQuiet,
          rename_dirs-IsQuiet,
          stat_abs-IsQuiet fs syn is_open laws,
        )
        depth 14

  -- Over a host store that keeps the handle laws: `vfs_rename` closes the directories that it
  -- opens, the first one also if the second cannot be opened, on success and on each error.
  pub vfs_rename-IsQuiet :
      (ctx : FsCtx) (old_base : Option CString) (old : CString) (new_base : Option CString)
      (new : CString) (noreplace other : Bool)
      → IsQuiet is_open
          (vfs_rename fs syn opens stale ctx old_base old new_base new noreplace other)
  unfolding vfs_rename
  vfs_rename-IsQuiet ctx old_base old new_base new noreplace other =
      search
        (
          bind-IsQuiet,
          check-IsQuiet,
          on_eexist-IsQuiet,
          rename_found-IsQuiet,
          walk-IsQuiet fs syn is_open laws,
        )
        depth 14

  pub vfs_mkdir-IsQuiet :
      (ctx : FsCtx) (base : Option CString) (path : CString) (mode : ℕ)
      → IsQuiet is_open (vfs_mkdir fs syn opens stale ctx base path mode)
  unfolding vfs_mkdir
  vfs_mkdir-IsQuiet ctx base path mode =
      search
        (
          bind-IsQuiet,
          check-IsQuiet,
          in_dir-IsQuiet,
          laws.mkdir_quiet,
          walk-IsQuiet fs syn is_open laws,
        )
        depth 14

  putting-restores :
      {A : Type 0} (g : Description → M S A) (s s' : S) (r : Result Description)
      → Holds is_open s (r, s')
      → ((f : Description) → IsQuiet is_open (g f))
      → SameHandles is_open s (resume r (λ f. putting fs syn opens stale f (g f)) s').1
  putting-restores g s s' (err e) held q = held
  putting-restores g s s' (ok f) held q = put-restores f.handle (g f s').1 held ((q f).same s')
    where
      put-restores :
          (h : Option ℕ) (s'' : S)
          → elim h as (λ x. Type 0) [
            | none ↦ SameHandles is_open s s'
            | some n ↦ OneMore is_open n s s'
          ]
          → SameHandles is_open s' s''
          → SameHandles is_open s (put fs syn opens stale h s'')
      put-restores none s'' held same = λ k. same k ∙ held k
      put-restores (some h) s'' held same = close_restores is_open fs laws h s s' s'' held same

  -- What opens a description, uses it quietly and puts it is quiet.
  pub putting-IsQuiet :
      {A : Type 0} (m : M S Description) (g : Description → M S A)
      → IsOpening is_open m
      → ((f : Description) → IsQuiet is_open (g f))
      → IsQuiet is_open (m >>= λ f. putting fs syn opens stale f (g f))
  putting-IsQuiet m g o q = record {
    same = λ s. putting-restores g s (m s).1 (m s).0 (o.holds s) q;
  }

  make_special-IsQuiet :
      (ctx : FsCtx) (base : Option CString) (path : CString) (mode major minor : ℕ)
      (kind : Option HostKind)
      → IsQuiet is_open (make_special fs syn opens stale ctx base path mode major minor kind)
  unfolding make_special
  make_special-IsQuiet ctx base path mode major minor none = record { same = λ s k. refl }
  make_special-IsQuiet ctx base path mode major minor (some kind) =
      search (bind-IsQuiet, parent_loc-IsQuiet, in_dir-IsQuiet, laws.mknod_quiet)

  -- Over a host store that keeps the handle laws: `vfs_mknod` leaves the open handles as they
  -- were, also for a regular file, whose description it puts again.
  pub vfs_mknod-IsQuiet :
      (ctx : FsCtx) (base : Option CString) (path : CString) (mode major minor : ℕ)
      → IsQuiet is_open (vfs_mknod fs syn opens stale ctx base path mode major minor)
  unfolding vfs_mknod
  vfs_mknod-IsQuiet ctx base path mode major minor =
      if-IsQuiet is_open ((type_of mode == 0) || (type_of mode == s_ifreg)) _ _
        (putting-IsQuiet (vfs_open fs syn opens ctx base path mknod_flags (mode % 0o10000))
          (λ f. pure tt)
          (vfs_open-IsOpening fs syn opens is_open laws ctx base path mknod_flags (mode % 0o10000))
          (λ f. pure-IsQuiet is_open tt))
        (make_special-IsQuiet ctx base path mode major minor (special_kind mode))
