-- ===== src/Walk/Handles.antt =====
-- The walk of core/vfs.c closes every host handle that it opens, on every path out of it.
use elf_sysv_nt.Common.{
  ℕ, zero, suc, ◌+◌, ◌-◌, refl, Bool, true, false, not, ◌&&◌, ◌||◌, Option, none, some,
}
use elf_sysv_nt.Common.{
  List, [], ◌∷◌, ◌++◌, CString, codes, str_eq, length, get_or, null, ltb, leb, ◌==◌,
}
use elf_sysv_nt.Common.{if◌then◌else◌, Bool-cases, inl, inr}
use elf_sysv_nt.Common.Errno.{ok, err, enoent, eexist, enametoolong, enotdir}
use elf_sysv_nt.Host.{M, pure, lift, check, HostFs, Handles, reopened}
use elf_sysv_nt.Host.{
  Opened, opened, met_link, failed, OneMore, OpensOne, IsQuiet, HandleLaws, OpenFlags,
}
use elf_sysv_nt.Host.Quiet.{Opens, OpensResult, bind-IsQuiet, if-IsQuiet, check-IsQuiet}
use elf_sysv_nt.Host.Quiet.{pure-IsQuiet, close_restores, swap_handle}
use elf_sysv_nt.Host.Quiet.{using_then-IsQuiet, replace-IsQuiet}
use elf_sysv_nt.Stat.{is_dir}
use elf_sysv_nt.Mount.{
  Mount, MountType, mnt_host, mnt_proc, mnt_dev, FsCtx, Seat, mount_of, mount_at,
}
use elf_sysv_nt.Path.{slash, name_max, path_max, path_join, path_rel, path_parent, base_name}
use elf_sysv_nt.Walk.{
  SynthFs, Loc, WalkFlags, Segment, segments, pieces, chain_result, open_chain, open_host_dir,
}
use elf_sysv_nt.Walk.{
  stat_host, stat_on, stat_abs, open_object, readlink_host, readlink_on, readlink_abs,
}
use elf_sysv_nt.Walk.{
  locate, require_dir, stop_at_parent, finish, splice, enter, walk_step, walk_loop, walk,
}
use elf_sysv_nt.Walk.{dir_flags, on_seat, reading, max_links, start_of}

module _ {S : Type 0} (fs : HostFs S) (syn : SynthFs S) (is_open : Handles S)
    (laws : HandleLaws fs is_open) where
  chain_next :
      (next : ℕ → M S ℕ) (cur : ℕ) (s s' s'' : S) (o : Opened)
      → ((h : ℕ) (t : S) → OneMore is_open h s t → OpensResult is_open s (next h t))
      → OneMore is_open cur s s'
      → OpensOne is_open s' (o, s'')
      → OpensResult is_open s (chain_result fs syn next o (fs.close cur s''))
  chain_next next cur s s' s'' (opened h st) go more one =
      go h (fs.close cur s'') (swap_handle is_open fs laws cur h s s' s'' more one)
  chain_next next cur s s' s'' (met_link h st) go more one =
      close_restores is_open fs laws h s (fs.close cur s'') (fs.close cur s'')
        (swap_handle is_open fs laws cur h s s' s'' more one) (λ k. refl)
  chain_next next cur s s' s'' (failed e) go more one =
      close_restores is_open fs laws cur s s' s'' more one

  chain_first :
      (next : ℕ → M S ℕ) (s s' : S) (o : Opened)
      → ((h : ℕ) (t : S) → OneMore is_open h s t → OpensResult is_open s (next h t))
      → OpensOne is_open s (o, s')
      → OpensResult is_open s (chain_result fs syn next o s')
  chain_first next s s' (opened h st) go one = go h s' one
  chain_first next s s' (met_link h st) go one =
      close_restores is_open fs laws h s s' s' one (λ k. refl)
  chain_first next s s' (failed e) go one = one

  -- The chain from a handle of its own, `cur`, gives back one handle more than before `cur` came.
  chain_owned :
      (m : Mount) (comps : List CString) (cur : ℕ) (s s' : S)
      → OneMore is_open cur s s'
      → OpensResult is_open s (open_chain fs syn m true cur comps s')
  unfolding open_chain
  chain_owned m [] cur s s' more = more
  chain_owned m (comp ∷ comps) cur s s' more = elim (Bool-cases (ltb name_max (length comp))) [
    | inl long ↦ rw long (close_restores is_open fs laws cur s s' s' more (λ k. refl))
    | inr fits ↦ rw fits (
        chain_next (λ h. open_chain fs syn m true h comps) cur s s'
          (fs.openat cur comp dir_flags 0 0 0 s').1 (fs.openat cur comp dir_flags 0 0 0 s').0
          (λ h t one. chain_owned m comps h s t one) more
          (laws.openat_one cur comp dir_flags 0 0 0 s'))
  ]

  -- What follows an open of which either outcome with a handle is a success.
  plain_open :
      (s s' : S) (o : Opened)
      → OpensOne is_open s (o, s')
      → OpensResult is_open s (elim o [
        | opened h st ↦ (ok h, s')
        | met_link h st ↦ (ok h, s')
        | failed e ↦ (err e, s')
      ])
  plain_open s s' (opened h st) one = one
  plain_open s s' (met_link h st) one = one
  plain_open s s' (failed e) one = one

  chain_from_root :
      (m : Mount) (comps : List CString) (s : S)
      → OpensResult is_open s (open_chain fs syn m false m.root comps s)
  unfolding open_chain
  chain_from_root m [] s =
      plain_open s (reopened fs m.root dir_flags s).1 (reopened fs m.root dir_flags s).0
        (laws.reopen_one m.root dir_flags s)
  chain_from_root m (comp ∷ comps) s = elim (Bool-cases (ltb name_max (length comp))) [
    | inl long ↦ rw long (λ k. refl)
    | inr fits ↦ rw fits (
        chain_first (λ h. open_chain fs syn m true h comps) s
          (fs.openat m.root comp dir_flags 0 0 0 s).1 (fs.openat m.root comp dir_flags 0 0 0 s).0
          (λ h t one. chain_owned m comps h s t one)
          (laws.openat_one m.root comp dir_flags 0 0 0 s))
  ]

  -- Over a host store that keeps the handle laws: `open_host_dir` gives one handle that was not
  -- open and leaves the others as they were, on success, and leaves every handle as it was on
  -- each failure.
  pub open_host_dir-Opens : (m : Mount) (abs : CString) → Opens is_open (open_host_dir fs syn m abs)
  unfolding open_host_dir
  open_host_dir-Opens m abs s = chain_from_root m (pieces (path_rel m.point abs)) s

  -- `hfs_openat` of an object in a directory that is ours trades the directory's handle for the
  -- object's.
  pub open_object-swap :
      (name : CString) (flags : OpenFlags) (d : ℕ) (s s' : S)
      → OneMore is_open d s s'
      → OpensResult is_open s (open_object fs syn d name flags s')
  unfolding open_object
  open_object-swap name flags d s s' more =
      traded (fs.openat d name (record flags { reparse = true }) 0 0 0 s').1
        (fs.openat d name (record flags { reparse = true }) 0 0 0 s').0
        (laws.openat_one d name (record flags { reparse = true }) 0 0 0 s')
    where
      traded :
          (s'' : S) (o : Opened)
          → OpensOne is_open s' (o, s'')
          → OpensResult is_open s (elim o [
            | opened h st ↦ (ok h, fs.close d s'')
            | met_link h st ↦ (ok h, fs.close d s'')
            | failed e ↦ (err e, fs.close d s'')
          ])
      traded s'' (opened h st) one = swap_handle is_open fs laws d h s s' s'' more one
      traded s'' (met_link h st) one = swap_handle is_open fs laws d h s s' s'' more one
      traded s'' (failed e) one = close_restores is_open fs laws d s s' s'' more one

  stat_host-IsQuiet : (m : Mount) (abs : CString) → IsQuiet is_open (stat_host fs syn m abs)
  unfolding stat_host
  stat_host-IsQuiet m abs =
      if-IsQuiet is_open (null (path_rel m.point abs)) _ _
        (bind-IsQuiet is_open (fs.stat m.root) _ (laws.stat_quiet m.root)
          (λ hs. pure-IsQuiet is_open _))
        (using_then-IsQuiet is_open fs laws (open_host_dir fs syn m (path_parent abs))
          (λ d. fs.statat d (base_name abs)) _ (open_host_dir-Opens m (path_parent abs))
          (λ d. laws.statat_quiet d (base_name abs)) (λ hs. pure-IsQuiet is_open _))

  stat_on-IsQuiet :
      (m : Mount) (type : MountType) (abs : CString) → IsQuiet is_open (stat_on fs syn m type abs)
  unfolding stat_on
  stat_on-IsQuiet m mnt_proc abs =
      bind-IsQuiet is_open (reading fs syn (syn.proc_stat (path_rel m.point abs))) _
        (record { same = λ s k. refl }) (λ st. pure-IsQuiet is_open _)
  stat_on-IsQuiet m mnt_dev abs =
      bind-IsQuiet is_open (reading fs syn (syn.dev_stat (path_rel m.point abs))) _
        (record { same = λ s k. refl }) (λ st. pure-IsQuiet is_open _)
  stat_on-IsQuiet m mnt_host abs = stat_host-IsQuiet m abs

  readlink_host-IsQuiet : (m : Mount) (abs : CString) → IsQuiet is_open (readlink_host fs syn m abs)
  unfolding readlink_host
  readlink_host-IsQuiet m abs =
      if-IsQuiet is_open (null (path_rel m.point abs)) _ _ (record { same = λ s k. refl })
        (replace-IsQuiet is_open fs laws (open_host_dir fs syn m (path_parent abs))
          (λ d. open_object fs syn d (base_name abs) _) (λ l. fs.readlink l)
          (open_host_dir-Opens m (path_parent abs)) (open_object-swap (base_name abs) _)
          (λ l. laws.readlink_quiet l))

  readlink_on-IsQuiet :
      (m : Mount) (type : MountType) (abs : CString)
      → IsQuiet is_open (readlink_on fs syn m type abs)
  unfolding readlink_on
  readlink_on-IsQuiet m mnt_proc abs = record { same = λ s k. refl }
  readlink_on-IsQuiet m mnt_dev abs = record { same = λ s k. refl }
  readlink_on-IsQuiet m mnt_host abs = readlink_host-IsQuiet m abs

  seat-IsQuiet :
      {A : Type 0} (o : Option Seat) (f : Seat → M S A)
      → ((seat : Seat) → IsQuiet is_open (f seat))
      → IsQuiet is_open (on_seat o f)
  seat-IsQuiet none f q = record { same = λ s k. refl }
  seat-IsQuiet (some seat) f q = q seat

  -- `stat_abs` leaves the open handles as they were, whatever it returns.
  pub stat_abs-IsQuiet : (ctx : FsCtx) (abs : CString) → IsQuiet is_open (stat_abs fs syn ctx abs)
  unfolding stat_abs
  stat_abs-IsQuiet ctx abs =
      seat-IsQuiet (mount_of ctx.mounts abs) (λ (i, m). stat_on fs syn m m.type abs)
        (λ (i, m). stat_on-IsQuiet m m.type abs)

  -- `readlink_abs` leaves the open handles as they were, whatever it returns.
  pub readlink_abs-IsQuiet :
      (ctx : FsCtx) (abs : CString) → IsQuiet is_open (readlink_abs fs syn ctx abs)
  unfolding readlink_abs
  readlink_abs-IsQuiet ctx abs =
      seat-IsQuiet (mount_of ctx.mounts abs) (λ (i, m). readlink_on fs syn m m.type abs)
        (λ (i, m). readlink_on-IsQuiet m m.type abs)

  locate-IsQuiet : (ctx : FsCtx) (abs last : CString) → IsQuiet is_open (locate fs syn ctx abs last)
  unfolding locate
  locate-IsQuiet ctx abs last =
      seat-IsQuiet (mount_of ctx.mounts abs) _ (λ (i, m). record { same = λ s k. refl })

  require_dir-IsQuiet : (ctx : FsCtx) (abs : CString) → IsQuiet is_open (require_dir fs syn ctx abs)
  unfolding require_dir
  require_dir-IsQuiet ctx abs =
      bind-IsQuiet is_open (stat_abs fs syn ctx abs) _ (stat_abs-IsQuiet ctx abs)
        (λ (st, kind). check-IsQuiet is_open (is_dir st.mode) enotdir)

  stop_at_parent-IsQuiet :
      (ctx : FsCtx) (abs comp : CString) → IsQuiet is_open (stop_at_parent fs syn ctx abs comp)
  unfolding stop_at_parent
  stop_at_parent-IsQuiet ctx abs comp =
      bind-IsQuiet is_open (locate fs syn ctx abs comp) _ (locate-IsQuiet ctx abs comp) (λ loc.
        bind-IsQuiet is_open (require_dir fs syn ctx abs) _ (require_dir-IsQuiet ctx abs)
          (λ u. pure-IsQuiet is_open _))

  finish-IsQuiet :
      (ctx : FsCtx) (w : WalkFlags) (trailing : Bool) (abs : CString)
      → IsQuiet is_open (finish fs syn ctx w trailing abs)
  unfolding finish
  finish-IsQuiet ctx w trailing abs =
      bind-IsQuiet is_open (locate fs syn ctx abs []) _ (locate-IsQuiet ctx abs []) (λ loc.
        bind-IsQuiet is_open (check (not w.parent) eexist) _
          (check-IsQuiet is_open (not w.parent) eexist)
          (λ u.
            bind-IsQuiet is_open
              (if w.must_dir || trailing then require_dir fs syn ctx abs else pure tt) _
              (if-IsQuiet is_open (w.must_dir || trailing) _ _ (require_dir-IsQuiet ctx abs)
                (record { same = λ s k. refl }))
              (λ v. pure-IsQuiet is_open _)))

  -- A continuation of the walk that is quiet wherever it goes on.
  abbrev QuietFollow : Option (CString → CString → M S Loc) → Type 0
  QuietFollow none = Unit
  QuietFollow (some follow) = (abs path : CString) → IsQuiet is_open (follow abs path)

  splice-IsQuiet :
      (ctx : FsCtx) (abs cand rest : CString) (follow : Option (CString → CString → M S Loc))
      → QuietFollow follow
      → IsQuiet is_open (splice fs syn ctx abs cand rest follow)
  unfolding splice
  splice-IsQuiet ctx abs cand rest none q = record { same = λ s k. refl }
  splice-IsQuiet ctx abs cand rest (some follow) q =
      bind-IsQuiet is_open (readlink_abs fs syn ctx cand) _ (readlink_abs-IsQuiet ctx cand)
        (λ target.
          let fits = ltb 0 (length target) && ltb (length target) path_max in
          let short = ltb (length target + length rest + 1) path_max in
          bind-IsQuiet is_open (check fits enoent) _ (check-IsQuiet is_open fits enoent) (λ u.
            bind-IsQuiet is_open (check short enametoolong) _
              (check-IsQuiet is_open short enametoolong)
              (λ v. q (if get_or target 0 0 == slash then slash ∷ [] else abs) (target ++ rest))))

  enter-IsQuiet :
      (ctx : FsCtx) (w : WalkFlags) (trailing : Bool) (abs comp rest : CString) (last : Bool)
      (next : CString → M S Loc) (follow : Option (CString → CString → M S Loc))
      → ((a : CString) → IsQuiet is_open (next a))
      → QuietFollow follow
      → IsQuiet is_open (enter fs syn ctx w trailing abs comp rest last next follow)
  unfolding enter
  enter-IsQuiet ctx w trailing abs comp rest last next follow qn qf =
      bind-IsQuiet is_open (lift (path_join path_max abs comp)) _ (record { same = λ s k. refl })
        (λ cand. if-IsQuiet is_open (mount_at ctx.mounts cand) _ _ (qn cand) (
          bind-IsQuiet is_open (stat_abs fs syn ctx cand) _ (stat_abs-IsQuiet ctx cand)
            (λ (st, kind). if-IsQuiet is_open _ _ _ (splice-IsQuiet ctx abs cand rest follow qf) (
              bind-IsQuiet is_open (check (last || is_dir st.mode) enotdir) _
                (check-IsQuiet is_open (last || is_dir st.mode) enotdir) (λ u. qn cand)))))

  walk_step-IsQuiet :
      (ctx : FsCtx) (w : WalkFlags) (trailing : Bool) (abs comp rest : CString) (last : Bool)
      (next : CString → M S Loc) (follow : Option (CString → CString → M S Loc))
      → ((a : CString) → IsQuiet is_open (next a))
      → QuietFollow follow
      → IsQuiet is_open (walk_step fs syn ctx w trailing abs comp rest last next follow)
  unfolding walk_step
  walk_step-IsQuiet ctx w trailing abs comp rest last next follow qn qf =
      if-IsQuiet is_open (ltb name_max (length comp)) _ _ (record { same = λ s k. refl })
        (if-IsQuiet is_open (str_eq comp (codes ".")) _ _ (qn abs) (
          if-IsQuiet is_open (str_eq comp (codes "..")) _ _ (qn (path_parent abs)) (
            if-IsQuiet is_open (last && w.parent) _ _ (stop_at_parent-IsQuiet ctx abs comp)
              (enter-IsQuiet ctx w trailing abs comp rest last next follow qn qf))))

  walk_loop-IsQuiet :
      (ctx : FsCtx) (w : WalkFlags) (trailing : Bool) (links : ℕ) (segs : List Segment)
      (abs : CString)
      → IsQuiet is_open (walk_loop fs syn ctx w trailing links segs abs)
  unfolding walk_loop
  walk_loop-IsQuiet ctx w trailing links [] abs = finish-IsQuiet ctx w trailing abs
  walk_loop-IsQuiet ctx w trailing zero ((comp, rest) ∷ segs) abs =
      walk_step-IsQuiet ctx w trailing abs comp rest (null segs) _ none
        (walk_loop-IsQuiet ctx w trailing zero segs) tt
  walk_loop-IsQuiet ctx w trailing (suc links) ((comp, rest) ∷ segs) abs =
      walk_step-IsQuiet ctx w trailing abs comp rest (null segs) _
        (some (λ abs' path. walk_loop fs syn ctx w trailing links (segments path) abs'))
        (walk_loop-IsQuiet ctx w trailing (suc links) segs)
        (λ a path. walk_loop-IsQuiet ctx w trailing links (segments path) a)

  -- Over a host store that keeps the handle laws: the walk closes every host handle that it opens
  -- and no other, on success and on each of its errors, whatever the host store, /proc and /dev
  -- answer.
  pub walk-IsQuiet :
      (ctx : FsCtx) (base : Option CString) (path : CString) (w : WalkFlags)
      → IsQuiet is_open (walk fs syn ctx base path w)
  unfolding walk
  walk-IsQuiet ctx base path w =
      if-IsQuiet is_open (null path) _ _ (record { same = λ s k. refl })
        (if-IsQuiet is_open (leb path_max (length path)) _ _ (record { same = λ s k. refl })
          (walk_loop-IsQuiet ctx w
            (ltb 1 (length path) && (get_or path (length path - 1) 0 == slash)) max_links
            (segments path) (start_of ctx base path)))
