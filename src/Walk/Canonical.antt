-- ===== src/Walk/Canonical.antt =====
-- The walk of core/vfs.c ends at a canonical path that fits its buffer.
use elf_sysv_nt.Common.{ℕ, zero, suc, ◌+◌, ◌-◌, ◌≡◌, Bool, true, false, not, ◌&&◌, ◌||◌}
use elf_sysv_nt.Common.{
  List, [], ◌∷◌, ◌++◌, CString, codes, str_eq, length, get_or, take, null, ltb, leb, ◌==◌, arith,
}
use elf_sysv_nt.Common.{Option, none, some, if◌then◌else◌, All}
use elf_sysv_nt.Common.Errno.{ok, enoent, eexist, enametoolong, enotdir}
use elf_sysv_nt.Host.{M, pure, check, HostFs}
use elf_sysv_nt.Stat.{is_dir, is_link}
use elf_sysv_nt.Mount.{FsCtx, Seat, mount_of, mount_at}
use elf_sysv_nt.Path.{slash, name_max, path_max, path_join, path_rel, path_parent}
use elf_sysv_nt.Path.Canon.{IsComponent, path_join-IsCanonical}
use elf_sysv_nt.Walk.{SynthFs, Loc, WalkFlags, Segment, segments, stat_abs, readlink_abs, on_seat}
use elf_sysv_nt.Walk.{
  locate, require_dir, stop_at_parent, finish, splice, enter, walk_step, walk_loop, walk,
}
use elf_sysv_nt.Walk.{max_links, start_of}
use elf_sysv_nt.Walk.Segments.{IsPart, segments-IsPart}
use elf_sysv_nt.Walk.Landing.{
  IsPlace, IsLanding, take-short, path_parent-IsPlace, root-IsPlace, fail-IsLanding, pure-IsLanding,
  bind-IsLanding, lift-IsLanding, if-IsLanding, then-IsLanding,
}

module _ {S : Type 0} (fs : HostFs S) (syn : SynthFs S) where
  locate-IsLanding :
      (ctx : FsCtx) (abs last : CString) → IsPlace abs → IsLanding (locate fs syn ctx abs last)
  unfolding locate
  locate-IsLanding ctx abs last place = seated (mount_of ctx.mounts abs)
    where
      seated :
          (o : Option Seat)
          → IsLanding {S = S} (
              on_seat o (λ (i, m).
                pure
                  (record { seat = (i, m); abs = abs; last = last; rel = path_rel m.point abs })))
      seated none = fail-IsLanding enoent
      seated (some (i, m)) = pure-IsLanding _ place

  stop_at_parent-IsLanding :
      (ctx : FsCtx) (abs comp : CString)
      → IsPlace abs
      → IsLanding (stop_at_parent fs syn ctx abs comp)
  unfolding stop_at_parent
  stop_at_parent-IsLanding ctx abs comp place =
      then-IsLanding (locate fs syn ctx abs comp) _ (locate-IsLanding ctx abs comp place)
        (λ loc p. bind-IsLanding (require_dir fs syn ctx abs) _ (λ u. pure-IsLanding loc p))

  finish-IsLanding :
      (ctx : FsCtx) (w : WalkFlags) (trailing : Bool) (abs : CString)
      → IsPlace abs
      → IsLanding (finish fs syn ctx w trailing abs)
  unfolding finish
  finish-IsLanding ctx w trailing abs place =
      then-IsLanding (locate fs syn ctx abs []) _ (locate-IsLanding ctx abs [] place) (λ loc p.
        bind-IsLanding (check (not w.parent) eexist) _ (λ u.
          bind-IsLanding (if w.must_dir || trailing then require_dir fs syn ctx abs else pure tt) _
            (λ v. pure-IsLanding loc p)))

  -- A continuation that lands wherever it goes on.
  abbrev LandsFollow : Option (CString → CString → M S Loc) → Type 0
  LandsFollow none = Unit
  LandsFollow (some follow) = (abs path : CString) → IsPlace abs → IsLanding (follow abs path)

  splice-IsLanding :
      (ctx : FsCtx) (abs cand rest : CString) (follow : Option (CString → CString → M S Loc))
      → IsPlace abs
      → LandsFollow follow
      → IsLanding (splice fs syn ctx abs cand rest follow)
  unfolding splice
  splice-IsLanding ctx abs cand rest none place q = record { lands = λ s loc eq. cc }
  splice-IsLanding ctx abs cand rest (some follow) place q =
      bind-IsLanding (readlink_abs fs syn ctx cand) _ (λ target.
        bind-IsLanding (check (ltb 0 (length target) && ltb (length target) path_max) enoent) _
          (λ u.
            bind-IsLanding (check (ltb (length target + length rest + 1) path_max) enametoolong) _
              (λ v.
                q (if get_or target 0 0 == slash then slash ∷ [] else abs) (target ++ rest)
                  (start (get_or target 0 0 == slash)))))
    where
      start : (b : Bool) → IsPlace (if b then slash ∷ [] else abs)
      start true = root-IsPlace
      start false = place

  enter-IsLanding :
      (ctx : FsCtx) (w : WalkFlags) (trailing : Bool) (abs comp rest : CString) (last : Bool)
      (next : CString → M S Loc) (follow : Option (CString → CString → M S Loc))
      → IsPlace abs
      → IsComponent comp
      → ((a : CString) → IsPlace a → IsLanding (next a))
      → LandsFollow follow
      → IsLanding (enter fs syn ctx w trailing abs comp rest last next follow)
  unfolding enter
  enter-IsLanding ctx w trailing abs comp rest last next follow place part qn qf =
      lift-IsLanding (path_join path_max abs comp) _ (λ cand joined.
        let there = path_join-IsCanonical path_max abs comp place.0 part joined in
        if-IsLanding (mount_at ctx.mounts cand) _ _ (λ e. qn cand there)
          (λ e. bind-IsLanding (stat_abs fs syn ctx cand) _ (λ (st, kind).
            if-IsLanding (is_link st.mode && (not last || (not w.no_follow || trailing))) _ _
              (λ b. splice-IsLanding ctx abs cand rest follow place qf)
              (λ b.
                bind-IsLanding (check (last || is_dir st.mode) enotdir) _ (λ u. qn cand there)))))

  walk_step-IsLanding :
      (ctx : FsCtx) (w : WalkFlags) (trailing : Bool) (abs comp rest : CString) (last : Bool)
      (next : CString → M S Loc) (follow : Option (CString → CString → M S Loc))
      → IsPlace abs
      → IsPart (comp, rest)
      → ((a : CString) → IsPlace a → IsLanding (next a))
      → LandsFollow follow
      → IsLanding (walk_step fs syn ctx w trailing abs comp rest last next follow)
  unfolding walk_step
  walk_step-IsLanding ctx w trailing abs comp rest last next follow place part qn qf =
      if-IsLanding (ltb name_max (length comp)) _ _ (λ b. fail-IsLanding enametoolong)
        (λ short.
          if-IsLanding (str_eq comp (codes ".")) _ _ (λ b. qn abs place)
            (λ dot.
              if-IsLanding (str_eq comp (codes "..")) _ _
                (λ b. qn (path_parent abs) (path_parent-IsPlace abs place))
                (λ dot_dot.
                  if-IsLanding (last && w.parent) _ _
                    (λ b. stop_at_parent-IsLanding ctx abs comp place)
                    (λ b.
                      enter-IsLanding ctx w trailing abs comp rest last next follow place
                        (record {
                          not_empty = part.0;
                          fits = ground arith;
                          no_slash = part.1;
                          not_dot = dot;
                          not_dot_dot = dot_dot;
                        })
                        qn qf))))

  walk_loop-IsLanding :
      (ctx : FsCtx) (w : WalkFlags) (trailing : Bool) (links : ℕ) (segs : List Segment)
      (abs : CString)
      → All IsPart segs
      → IsPlace abs
      → IsLanding (walk_loop fs syn ctx w trailing links segs abs)
  unfolding walk_loop
  walk_loop-IsLanding ctx w trailing links [] abs parts place =
      finish-IsLanding ctx w trailing abs place
  walk_loop-IsLanding ctx w trailing zero ((comp, rest) ∷ segs) abs parts place =
      walk_step-IsLanding ctx w trailing abs comp rest (null segs) _ none place parts.0
        (λ a p. walk_loop-IsLanding ctx w trailing zero segs a parts.1 p) tt
  walk_loop-IsLanding ctx w trailing (suc links) ((comp, rest) ∷ segs) abs parts place =
      walk_step-IsLanding ctx w trailing abs comp rest (null segs) _
        (some (λ abs' path. walk_loop fs syn ctx w trailing links (segments path) abs')) place
        parts.0 (λ a p. walk_loop-IsLanding ctx w trailing (suc links) segs a parts.1 p)
        (λ a path p.
          walk_loop-IsLanding ctx w trailing links (segments path) a (segments-IsPart path) p)

  start_of-IsPlace :
      (ctx : FsCtx) (base : Option CString) (path : CString)
      → IsPlace ctx.cwd
      → (elim base as (λ b. Type 0) [ none ↦ Unit | some dir ↦ IsPlace dir ])
      → IsPlace (start_of ctx base path)
  start_of-IsPlace ctx base path cwd dir = start (get_or path 0 0 == slash) base dir
    where
      short : (a : CString) → IsPlace a → IsPlace (take (path_max - 1) a)
      short a p = rw (take-short (path_max - 1) a (omega (arith, p.1))) p

      start :
          (b : Bool) (o : Option CString)
          → (elim o as (λ b. Type 0) [ none ↦ Unit | some dir ↦ IsPlace dir ])
          → IsPlace (
              if b
              then slash ∷ []
              else take (path_max - 1) (elim o [ none ↦ ctx.cwd | some dir ↦ dir ]))
      start true o d = root-IsPlace
      start false none d = short ctx.cwd cwd
      start false (some a) d = short a d

  walk-IsLanding :
      (ctx : FsCtx) (base : Option CString) (path : CString) (w : WalkFlags)
      → IsPlace ctx.cwd
      → (elim base as (λ b. Type 0) [ none ↦ Unit | some dir ↦ IsPlace dir ])
      → IsLanding (walk fs syn ctx base path w)
  unfolding walk
  walk-IsLanding ctx base path w cwd dir =
      if-IsLanding (null path) _ _ (λ b. fail-IsLanding enoent)
        (λ b.
          if-IsLanding (leb path_max (length path)) _ _ (λ c. fail-IsLanding enametoolong)
            (λ c.
              walk_loop-IsLanding ctx w
                (ltb 1 (length path) && (get_or path (length path - 1) 0 == slash)) max_links
                (segments path) (start_of ctx base path) (segments-IsPart path)
                (start_of-IsPlace ctx base path cwd dir)))

  -- From a working directory that is canonical and fits the path buffer, and likewise the directory
  -- that the path is relative to, a walk that succeeds ends at a path that is canonical (no empty
  -- component, no `.` and no `..`) and fits the buffer with its terminator, whatever symlinks are on
  -- the way.
  pub walk-IsPlace :
      (ctx : FsCtx) (base : Option CString) (path : CString) (w : WalkFlags) (s : S) (loc : Loc)
      → IsPlace ctx.cwd
      → (elim base as (λ b. Type 0) [ none ↦ Unit | some dir ↦ IsPlace dir ])
      → (walk fs syn ctx base path w s).0 ≡ ok loc
      → IsPlace loc.abs
  walk-IsPlace ctx base path w s loc cwd dir eq =
      (walk-IsLanding ctx base path w cwd dir).lands s loc eq
