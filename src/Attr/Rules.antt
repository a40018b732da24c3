-- ===== src/Attr/Rules.antt =====
-- core/vfs.c, vfs_chdir: the working directory stays canonical and fits its buffer.
use elf_sysv_nt.Common.{◌≡◌, refl, true, Option, none, some}
use elf_sysv_nt.Common.{CString, arith}
use elf_sysv_nt.Common.Errno.{Result, ok, err}
use elf_sysv_nt.Host.{resume, ◌>>=◌, pure, lift, HostFs, HostKind}
use elf_sysv_nt.Stat.{KStat, may}
use elf_sysv_nt.Mount.{FsCtx}
use elf_sysv_nt.Walk.{SynthFs, Loc, walk, w_none, stat_abs}
use elf_sysv_nt.Walk.Canonical.{walk-IsPlace}
use elf_sysv_nt.Walk.Landing.{IsPlace}
use elf_sysv_nt.Open.{SynthOpen}
use elf_sysv_nt.Attr.{vfs_chdir}

module _ {S : Type 0} (fs : HostFs S) (syn : SynthFs S) (opens : SynthOpen S)
    (stale : CString) where
  may_then :
      (ctx c : FsCtx) (loc : Loc) (r : Result (Unit {0})) (s : S)
      → IsPlace loc.abs
      → (resume {S = S} r (λ u. pure (record ctx { cwd = loc.abs })) s).0 ≡ ok c
      → IsPlace c.cwd
  may_then ctx c loc (ok u) s place eq = ground (arith, place)
  may_then ctx c loc (err e) s place eq = cc

  stat_then :
      (ctx c : FsCtx) (loc : Loc) (r : Result (KStat × Option HostKind)) (s : S)
      → IsPlace loc.abs
      → (resume r
          (λ x. lift (may ctx.cred x.0 1 true) >>= λ u. pure (record ctx { cwd = loc.abs }))
          s).0
        ≡ ok c
      → IsPlace c.cwd
  stat_then ctx c loc (ok (st, kind)) s place eq =
      may_then ctx c loc (may ctx.cred st 1 true) s place eq
  stat_then ctx c loc (err e) s place eq = cc

  walk_then :
      (ctx c : FsCtx) (r : Result Loc) (s : S)
      → ((loc : Loc) → r ≡ ok loc → IsPlace loc.abs)
      → (resume r
          (λ loc. stat_abs fs syn ctx loc.abs >>= λ x.
            lift (may ctx.cred x.0 1 true) >>= λ u. pure (record ctx { cwd = loc.abs }))
          s).0
        ≡ ok c
      → IsPlace c.cwd
  walk_then ctx c (ok loc) s q eq =
      stat_then ctx c loc (stat_abs fs syn ctx loc.abs s).0 (stat_abs fs syn ctx loc.abs s).1
        (q loc refl) eq
  walk_then ctx c (err e) s q eq = cc

  -- From a working directory that is canonical and fits the path buffer, and likewise the directory
  -- that the path is relative to, `vfs_chdir` sets a working directory that is so again.
  pub vfs_chdir-IsPlace :
      (ctx : FsCtx) (base : Option CString) (path : CString) (s : S) (c : FsCtx)
      → IsPlace ctx.cwd
      → (elim base as (λ b. Type 0) [ none ↦ Unit | some dir ↦ IsPlace dir ])
      → (vfs_chdir fs syn opens stale ctx base path s).0 ≡ ok c
      → IsPlace c.cwd
  unfolding vfs_chdir
  vfs_chdir-IsPlace ctx base path s c cwd dir eq =
      let w = record w_none { must_dir = true } in
      walk_then ctx c (walk fs syn ctx base path w s).0 (walk fs syn ctx base path w s).1
        (λ loc e. walk-IsPlace fs syn ctx base path w s loc cwd dir e) eq
