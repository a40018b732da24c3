-- ===== src/Open.antt =====
-- core/vfs.c, vfs_open: a path and the open flags to a new open file description.
pub mod Holds
pub mod Handles
pub mod Toy
mod Tests
use elf_sysv_nt.Common.{
  ℕ, zero, suc, ◌-◌, ◌%◌, ◌+◌, Bool, true, false, not, ◌&&◌, ◌||◌, Option, none, some, List, [],
}
use elf_sysv_nt.Common.{CString, length, null, ltb, ◌==◌, if◌then◌else◌}
use elf_sysv_nt.Common.Errno.{
  Errno, Result, ok, err, eloop, eacces, eexist, enxio, enoent, eisdir, enotdir, enomem,
}
use elf_sysv_nt.Host.{
  M, resume, ◌>>=◌, ◌>>◌, pure, fail, lift, check, closing, HostFs, HostKind, HostStat, reopened,
}
use elf_sysv_nt.Host.{OpenFlags, no_flags, Opened, opened, met_link, failed}
use elf_sysv_nt.Host.HostKind.{file, dir, lxlink, winlink, fifo, chr, blk, sock, other}
use elf_sysv_nt.File.{Kind}
use elf_sysv_nt.Stat.{KStat, Cred, is_dir, is_link, may}
use elf_sysv_nt.Mount.{MountType, Mount, mnt_host, FsCtx}
use elf_sysv_nt.Path.{path_parent, path_join, base_name, path_max}
use elf_sysv_nt.Walk.{
  SynthFs, Loc, WalkFlags, w_none, w_parent, w_no_follow, walk, stat_abs, open_host_dir,
}
use Prim.Native.Nat.{bit_and}

-- `flags & O_ACCMODE`; the fourth value asks for neither reading nor writing.
pub data Access : Type 0 where
  rdonly wronly rdwr neither : Access

-- The flags of open that the VFS looks at.
pub record OFlags : Type 0 where
  pub acc : Access
  pub creat : Bool
  pub excl : Bool
  pub trunc : Bool
  pub append : Bool
  pub directory : Bool
  pub no_follow : Bool
  pub path : Bool

-- `flags & ~(O_CREAT | O_EXCL | O_NOCTTY | O_TRUNC | O_CLOEXEC)`
abbrev pub kept_flags : OFlags → OFlags
kept_flags fl = record fl { creat = false; excl = false; trunc = false }

-- An open file description as vfs_open fills it in; only one on the host store has a handle.
pub record Description : Type 0 where
  pub kind : Kind
  pub flags : OFlags
  pub handle : Option ℕ
  pub path : CString

-- `procfs_open` and `devfs_open`, which give the kind and path of a description without a handle,
-- and whether `file_new` finds memory.
pub record SynthOpen (S : Type 0) : Type 0 where
  pub open_at_rel : MountType → CString → OFlags → S → Result (Kind × CString)
  pub has_memory : S → Bool

abbrev pub wants_read : Access → Bool
wants_read rdonly = true
wants_read rdwr = true
wants_read _ = false

abbrev pub wants_write : Access → Bool
wants_write wronly = true
wants_write rdwr = true
wants_write _ = false

abbrev pub is_rdonly : Access → Bool
is_rdonly rdonly = true
is_rdonly _ = false

-- `mode & 07777 & ~umask`
abbrev pub masked : ℕ → ℕ → ℕ
masked mode umask = bit_and (mode % 0o10000) (0o7777 - umask % 0o10000)

-- The host flags before the two branches add theirs.
unfoldable pub host_flags : OFlags → OpenFlags
host_flags fl =
    let plain = record no_flags { read = wants_read fl.acc; write = wants_write fl.acc } in
    let base = if fl.path then record no_flags { attr = true } else plain in
    record base { dir_only = fl.directory; trunc = fl.trunc }

abbrev pub create_flags : OFlags → OpenFlags
create_flags fl = record (host_flags fl) { create = true; no_dir = true; excl = fl.excl }

-- The flags for an object that exists, by its stat.
unfoldable pub existing_flags : OFlags → KStat → OpenFlags
existing_flags fl st =
    let base = host_flags fl in
    let as_dir =
      if is_dir st.mode
      then record base { write = false; trunc = false; dir_only = true; read = true }
      else base in
    if is_link st.mode then record as_dir { reparse = true } else as_dir

abbrev pub is_special : HostKind → Bool
is_special fifo = true
is_special chr = true
is_special blk = true
is_special sock = true
is_special _ = false

unfoldable pub kind_of : HostKind → Kind
kind_of dir = Kind.hostdir
kind_of lxlink = Kind.symlink
kind_of winlink = Kind.symlink
kind_of _ = Kind.host

abbrev pub is_lxlink : HostKind → Bool
is_lxlink lxlink = true
is_lxlink _ = false

abbrev pub is_host_dir : HostKind → Bool
is_host_dir dir = true
is_host_dir _ = false

abbrev pub joined_path : Result CString → CString
joined_path (ok p) = p
joined_path (err e) = []

abbrev pub on_host : MountType → Bool
on_host mnt_host = true
on_host _ = false

-- The object that the create branch resolved, or the link that it goes through.
pub data Created : Type 0 where
  object : ℕ → HostStat → Created
  through : CString → Created

module _ {S : Type 0} (fs : HostFs S) (syn : SynthFs S) (opens : SynthOpen S) where
  -- The end of vfs_open: the new description takes the handle.
  unfoldable pub describe : OFlags → CString → ℕ → HostStat → M S Description
  describe fl path h hs s =
      if opens.has_memory s
      then (
        ok (record { kind = kind_of hs.kind; flags = kept_flags fl; handle = some h; path = path }),
        s,
      )
      else (err enomem, fs.close h s)

  unfoldable pub open_synth : MountType → CString → OFlags → M S Description
  open_synth type rel fl s =
      let described : Kind × CString → Description =
        λ (kind, path). record { kind = kind; flags = fl; handle = none; path = path } in
      (elim (opens.open_at_rel type rel fl s) [ ok k ↦ ok (described k) | err e ↦ err e ], s)

  -- The target of the symlink that O_CREAT met, read from its handle.
  unfoldable pub link_target : ℕ → M S CString
  link_target h s =
      let (r, s') = fs.readlink h s in
      elim r [
        | ok target ↦
            if ltb 0 (length target) && ltb (length target) path_max
            then (ok target, s')
            else (err enoent, s')
        | err e ↦ (err enoent, s')
      ]

  -- The open with HFS_O_CREATE in the directory `d`.
  unfoldable pub create_in : FsCtx → OFlags → ℕ → CString → ℕ → M S Created
  create_in ctx fl mode last d s =
      let (o, s1) =
        fs.openat d last (create_flags fl) (masked mode ctx.umask) ctx.cred.euid ctx.cred.egid s in
      let s2 = fs.close d s1 in
      elim o [
        | opened h hs ↦
            if is_host_dir hs.kind then (err eisdir, fs.close h s2) else (ok (object h hs), s2)
        | met_link h hs ↦
            if fl.excl
            then (err eexist, fs.close h s2)
            else if is_lxlink hs.kind
            then closing fs h (link_target h >>= λ t. pure (through t)) s2
            else (err enxio, fs.close h s2)
        | failed e ↦ (err e, s2)
      ]

  -- What is left of the open of an existing object.
  unfoldable pub accept : OFlags → CString → Opened → M S Description
  accept fl path (opened h hs) s =
      if is_special hs.kind && not fl.path
      then (err enxio, fs.close h s)
      else describe fl path h hs s
  accept fl path (met_link h hs) s = (err eloop, fs.close h s)
  accept fl path (failed e) s = (err e, s)

  unfoldable pub open_at : OFlags → KStat → CString → ℕ → M S Description
  open_at fl st abs d s =
      let (o, s1) = fs.openat d (base_name abs) (existing_flags fl st) 0 0 0 s in
      accept fl abs o (fs.close d s1)

  unfoldable pub open_seat : OFlags → KStat → CString → ℕ → M S Description
  open_seat fl st abs root s =
      let (o, s1) = reopened fs root (existing_flags fl st) s in accept fl abs o s1

  unfoldable pub allowed : FsCtx → OFlags → KStat → Result (Unit {0})
  allowed ctx fl st =
      let mask =
        (if wants_read fl.acc then 4 else 0) + (if wants_write fl.acc || fl.trunc then 2 else 0) in
      if fl.path then ok tt else may ctx.cred st mask true

  unfoldable pub open_existing : FsCtx → OFlags → Loc → M S Description
  open_existing ctx fl loc = do
    (st, kind) ← stat_abs fs syn ctx loc.abs
    check (not (is_link st.mode) || fl.path) eloop
    check (not (is_dir st.mode) || (is_rdonly fl.acc || fl.path)) eisdir
    check (is_dir st.mode || not fl.directory) enotdir
    lift (allowed ctx fl st)
    if null loc.rel
        then open_seat fl st loc.abs loc.seat.1.root
        else (open_host_dir fs syn loc.seat.1 (path_parent loc.abs) >>= λ d.
            open_at fl st loc.abs d)

  -- The branch that does not create, from a location.
  unfoldable pub open_found : FsCtx → OFlags → Loc → M S Description
  open_found ctx fl loc =
      if on_host loc.seat.1.type
      then open_existing ctx fl loc
      else open_synth loc.seat.1.type loc.rel fl

  -- The branch that creates, with what follows a symlink.
  unfoldable pub open_created :
      FsCtx → OFlags → ℕ → (CString → CString → M S Description) → Loc → M S Description
  open_created ctx fl mode follow loc =
      if on_host loc.seat.1.type
      then (do
        d ← open_host_dir fs syn loc.seat.1 loc.abs
        c ← create_in ctx fl mode loc.last d
        elim c [
          | object h hs ↦ describe fl (joined_path (path_join path_max loc.abs loc.last)) h hs
          | through target ↦ follow loc.abs target
        ])
      else fail eacces

  -- The walk to the parent failed: with EEXIST the path names a directory, which is opened.
  abbrev pub or_directory : Errno → M S Description → M S Description
  or_directory eexist m = m
  or_directory e m = fail e

  -- `vfs_open_depth` with the number of links that may still be followed: 41 - depth.
  unfoldable pub open_depth : FsCtx → OFlags → ℕ → ℕ → Option CString → CString → M S Description
  open_depth ctx fl mode zero base path s = fail eloop s
  open_depth ctx fl mode (suc links) base path s =
      let flags = if fl.no_follow then w_no_follow else w_none in
      let (r, s') = walk fs syn ctx base path w_parent s in
      if fl.creat
      then elim r [
        | ok loc ↦
            open_created ctx fl mode (λ dir target. open_depth ctx fl mode links (some dir) target)
              loc s'
        | err e ↦
            or_directory e (walk fs syn ctx base path w_none >>= λ loc. open_found ctx fl loc) s'
      ]
      else (walk fs syn ctx base path flags >>= λ loc. open_found ctx fl loc) s

  unfoldable pub vfs_open : FsCtx → Option CString → CString → OFlags → ℕ → M S Description
  vfs_open ctx base path fl mode = open_depth ctx fl mode 41 base path
