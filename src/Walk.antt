-- ===== src/Walk.antt =====
-- core/vfs.c, the walk: a path is consumed a component at a time against a canonical absolute path,
-- symlinks are spliced in with at most forty of them followed, and a mount point changes the mount.
-- `fs` is the host store, and `syn` what the /proc and /dev file systems answer.
pub mod Segments
pub mod Landing
pub mod Canonical
pub mod Handles
pub mod Toy
mod Tests
use elf_sysv_nt.Common.{
  ℕ, zero, suc, ◌+◌, ◌-◌, Bool, true, false, not, ◌&&◌, ◌||◌, Option, none, some,
}
use elf_sysv_nt.Common.{
  List, [], ◌∷◌, ◌++◌, CString, codes, str_eq, length, get_or, take, null, ltb, leb, ◌==◌,
}
use elf_sysv_nt.Common.{if◌then◌else◌}
use elf_sysv_nt.Common.Errno.{
  Errno, Result, ok, err, enoent, enametoolong, enotdir, eloop, eexist, einval,
}
use elf_sysv_nt.Host.{
  M, resume, ◌>>=◌, ◌>>◌, pure, fail, lift, check, closing, HostFs, HostKind, HostStat, reopened,
}
use elf_sysv_nt.Host.{OpenFlags, no_flags, Opened, opened, met_link, failed}
use elf_sysv_nt.Stat.{KStat, kstat_of, is_dir, is_link}
use elf_sysv_nt.Mount.{
  Mount, MountType, mnt_host, mnt_proc, mnt_dev, FsCtx, Seat, mount_of, mount_at,
}
use elf_sysv_nt.Path.{path_parent, path_join, path_rel, base_name, slash, path_max, name_max}

-- The pieces between slashes, as `open_host_dir` takes them off; a piece may be empty.
abbrev pub push_char : ℕ → List CString → List CString
push_char c [] = (c ∷ []) ∷ []
push_char c (d ∷ ds) = (c ∷ d) ∷ ds

unfoldable pub pieces : CString → List CString
pieces [] = []
pieces (c ∷ s) = let rest = pieces s in if c == slash then [] ∷ rest else push_char c rest

-- The components of a path, each with the string from behind it on, which is empty or starts with a
-- slash. `while (*p == '/') p++;` and the `strchr` that follows find them one by one.
abbrev pub Segment : Type 0
Segment = CString × CString

abbrev pub extend : ℕ → CString → List Segment → List Segment
extend c [] segs = (c ∷ [], []) ∷ segs
extend c (d ∷ s) [] = (c ∷ [], d ∷ s) ∷ []
extend c (d ∷ s) ((comp, rest) ∷ segs) =
    if d == slash then (c ∷ [], d ∷ s) ∷ (comp, rest) ∷ segs else (c ∷ comp, rest) ∷ segs

unfoldable pub segments : CString → List Segment
segments [] = []
segments (c ∷ s) = let rest = segments s in if c == slash then rest else extend c s rest

-- What the /proc and /dev file systems answer for a path under their mount.
pub record SynthFs (S : Type 0) : Type 0 where
  pub proc_stat : CString → S → Result KStat
  pub dev_stat : CString → S → Result KStat
  pub proc_readlink : CString → S → Result CString
  pub dev_readlink : CString → S → Result CString

-- `struct vfs_loc`; `seat` is the mount with its index.
pub record Loc : Type 0 where
  pub seat : Seat
  pub abs : CString
  pub last : CString
  pub rel : CString

-- The flags of the walk: W_PARENT, W_NOFOLLOW, W_MUSTDIR.
pub record WalkFlags : Type 0 where
  pub parent : Bool
  pub no_follow : Bool
  pub must_dir : Bool

abbrev pub w_none : WalkFlags
w_none = record { parent = false; no_follow = false; must_dir = false }

abbrev pub w_parent : WalkFlags
w_parent = record w_none { parent = true }

abbrev pub w_no_follow : WalkFlags
w_no_follow = record w_none { no_follow = true }

abbrev pub dir_flags : OpenFlags
dir_flags = record no_flags { read = true; dir_only = true }

-- What is done on the mount that `mount_of` found, or ENOENT without one.
abbrev pub on_seat : {S A : Type 0} → Option Seat → (Seat → M S A) → M S A
on_seat none f = fail enoent
on_seat (some seat) f = f seat

abbrev pub max_links : ℕ
max_links = 40

-- Where the walk starts: the root, a descriptor's directory, or the working directory.
abbrev pub start_of : FsCtx → Option CString → CString → CString
start_of ctx base path =
    if get_or path 0 0 == slash
    then slash ∷ []
    else take (path_max - 1) (elim base [ none ↦ ctx.cwd | some dir ↦ dir ])

module _ {S : Type 0} (fs : HostFs S) (syn : SynthFs S) where
  abbrev pub close_if : Bool → ℕ → S → S
  close_if true h s = fs.close h s
  close_if false h s = s

  -- What `open_host_dir` makes of an open below the mount root, before it goes on with `next`.
  abbrev pub chain_result : (ℕ → M S ℕ) → Opened → M S ℕ
  chain_result next (opened h st) s = next h s
  chain_result next (met_link h st) s = (err enotdir, fs.close h s)
  chain_result next (failed e) s = (err e, s)

  -- The loop of `open_host_dir` with the handle `cur`, which is ours to close if `owned`.
  unfoldable pub open_chain : Mount → Bool → ℕ → List CString → M S ℕ
  open_chain m true cur [] s = (ok cur, s)
  open_chain m false cur [] s =
      let (o, s') = reopened fs m.root dir_flags s in
      elim o [ opened h st ↦ (ok h, s') | met_link h st ↦ (ok h, s') | failed e ↦ (err e, s') ]
  open_chain m owned cur (comp ∷ comps) s =
      if ltb name_max (length comp)
      then (err enametoolong, close_if owned cur s)
      else (let (o, s') = fs.openat cur comp dir_flags 0 0 0 s in
          chain_result (λ h. open_chain m true h comps) o (close_if owned cur s'))

  unfoldable pub open_host_dir : Mount → CString → M S ℕ
  open_host_dir m abs = open_chain m false m.root (pieces (path_rel m.point abs))

  -- `stat_abs`, with the kind of a host object.
  unfoldable pub stat_host : Mount → CString → M S (KStat × Option HostKind)
  stat_host m abs =
      if null (path_rel m.point abs)
      then (do
        hs ← fs.stat m.root
        pure (kstat_of m.dev m.default_uid m.default_gid hs none, some hs.kind))
      else do
        d ← open_host_dir m (path_parent abs)
        hs ← closing fs d (fs.statat d (base_name abs))
        pure (kstat_of m.dev m.default_uid m.default_gid hs (some (base_name abs)), some hs.kind)

  -- A result that reads the state and leaves it.
  abbrev pub reading : {A : Type 0} → (S → Result A) → M S A
  reading r s = (r s, s)

  unfoldable pub stat_on : Mount → MountType → CString → M S (KStat × Option HostKind)
  stat_on m mnt_proc abs = do st ← reading (syn.proc_stat (path_rel m.point abs)); pure (st, none)
  stat_on m mnt_dev abs = do st ← reading (syn.dev_stat (path_rel m.point abs)); pure (st, none)
  stat_on m mnt_host abs = stat_host m abs

  unfoldable pub stat_abs : FsCtx → CString → M S (KStat × Option HostKind)
  stat_abs ctx abs = on_seat (mount_of ctx.mounts abs) (λ (i, m). stat_on m m.type abs)

  -- `hfs_openat` for an object itself, with HFS_O_REPARSE, in the directory `d`, which is closed.
  unfoldable pub open_object : ℕ → CString → OpenFlags → M S ℕ
  open_object d name flags s =
      let (o, s') = fs.openat d name (record flags { reparse = true }) 0 0 0 s in
      let s'' = fs.close d s' in
      elim o [ opened h st ↦ (ok h, s'') | met_link h st ↦ (ok h, s'') | failed e ↦ (err e, s'') ]

  unfoldable pub readlink_host : Mount → CString → M S CString
  readlink_host m abs = if null (path_rel m.point abs) then fail einval else do
    d ← open_host_dir m (path_parent abs)
    l ← open_object d (base_name abs) (record no_flags { read = true })
    closing fs l (fs.readlink l)

  unfoldable pub readlink_on : Mount → MountType → CString → M S CString
  readlink_on m mnt_proc abs = reading (syn.proc_readlink (path_rel m.point abs))
  readlink_on m mnt_dev abs = reading (syn.dev_readlink (path_rel m.point abs))
  readlink_on m mnt_host abs = readlink_host m abs

  -- The whole target; the caller compares its length with the buffer's.
  unfoldable pub readlink_abs : FsCtx → CString → M S CString
  readlink_abs ctx abs = on_seat (mount_of ctx.mounts abs) (λ (i, m). readlink_on m m.type abs)

  -- The location at a canonical path. The root is always mounted (`vfs_init`), so the first case,
  -- where the code would use a null mount, is never met there.
  unfoldable pub locate : FsCtx → CString → CString → M S Loc
  locate ctx abs last = on_seat (mount_of ctx.mounts abs) (λ (i, m).
      pure (record { seat = (i, m); abs = abs; last = last; rel = path_rel m.point abs }))

  unfoldable pub require_dir : FsCtx → CString → M S (Unit {0})
  require_dir ctx abs = do (st, kind) ← stat_abs ctx abs; check (is_dir st.mode) enotdir

  -- The walk stops at the parent of its last component.
  unfoldable pub stop_at_parent : FsCtx → CString → CString → M S Loc
  stop_at_parent ctx abs comp = do loc ← locate ctx abs comp; require_dir ctx abs; pure loc

  -- The end of the path.
  unfoldable pub finish : FsCtx → WalkFlags → Bool → CString → M S Loc
  finish ctx w trailing abs = do
    loc ← locate ctx abs []
    check (not w.parent) eexist
    if w.must_dir || trailing then require_dir ctx abs else pure tt
    pure loc

  -- A symlink's target is spliced in front of what remains; `follow` is given while fewer than
  -- forty links have been followed.
  unfoldable pub splice :
      FsCtx → CString → CString → CString → Option (CString → CString → M S Loc) → M S Loc
  splice ctx abs cand rest none = fail eloop
  splice ctx abs cand rest (some follow) = do
    target ← readlink_abs ctx cand
    check (ltb 0 (length target) && ltb (length target) path_max) enoent
    check (ltb (length target + length rest + 1) path_max) enametoolong
    follow (if get_or target 0 0 == slash then slash ∷ [] else abs) (target ++ rest)

  -- A component that is neither `.` nor `..` nor the one to stop before.
  unfoldable pub enter :
      FsCtx
      → WalkFlags
      → Bool
      → CString
      → CString
      → CString
      → Bool
      → (CString → M S Loc)
      → Option (CString → CString → M S Loc)
      → M S Loc
  enter ctx w trailing abs comp rest last next follow = do
    cand ← lift (path_join path_max abs comp)
    if mount_at ctx.mounts cand then next cand else do
      (st, kind) ← stat_abs ctx cand
      if is_link st.mode && (not last || (not w.no_follow || trailing))
          then splice ctx abs cand rest follow
          else (check (last || is_dir st.mode) enotdir >> next cand)

  -- One round of the loop.
  unfoldable pub walk_step :
      FsCtx
      → WalkFlags
      → Bool
      → CString
      → CString
      → CString
      → Bool
      → (CString → M S Loc)
      → Option (CString → CString → M S Loc)
      → M S Loc
  walk_step ctx w trailing abs comp rest last next follow =
      if ltb name_max (length comp)
      then fail enametoolong
      else if str_eq comp (codes ".")
      then next abs
      else if str_eq comp (codes "..")
      then next (path_parent abs)
      else if last && w.parent
      then stop_at_parent ctx abs comp
      else enter ctx w trailing abs comp rest last next follow

  -- The loop, with the number of links that may still be followed and the components that are left.
  unfoldable pub walk_loop : FsCtx → WalkFlags → Bool → ℕ → List Segment → CString → M S Loc
  walk_loop ctx w trailing links [] abs = finish ctx w trailing abs
  walk_loop ctx w trailing zero ((comp, rest) ∷ segs) abs =
      walk_step ctx w trailing abs comp rest (null segs) (walk_loop ctx w trailing zero segs) none
  walk_loop ctx w trailing (suc links) ((comp, rest) ∷ segs) abs =
      walk_step ctx w trailing abs comp rest (null segs) (walk_loop ctx w trailing (suc links) segs)
        (some (λ abs' path. walk_loop ctx w trailing links (segments path) abs'))

  unfoldable pub walk : FsCtx → Option CString → CString → WalkFlags → M S Loc
  walk ctx base path w =
      if null path
      then fail enoent
      else if leb path_max (length path)
      then fail enametoolong
      else walk_loop ctx w (ltb 1 (length path) && (get_or path (length path - 1) 0 == slash))
          max_links (segments path) (start_of ctx base path)
