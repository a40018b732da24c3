-- ===== src/Open/Handles.antt =====
-- vfs_open of core/vfs.c: the one handle that a success leaves open, and none on a failure.
use elf_sysv_nt.Common.{
  ℕ, zero, suc, ◌≡◌, refl, Bool, true, false, not, ◌&&◌, ◌||◌, Option, none, some, null,
}
use elf_sysv_nt.Common.{CString, length, ltb, if◌then◌else◌, Bool-cases, inl, inr}
use elf_sysv_nt.Common.Errno.{Errno, Result, ok, err, enoent, enxio, eloop, eisdir, enotdir, eexist}
use elf_sysv_nt.Host.{
  M, resume, ◌>>=◌, pure, lift, check, closing, HostFs, HostStat, Handles, reopened,
}
use elf_sysv_nt.Host.{
  Opened, opened, met_link, failed, OneMore, OpensOne, IsQuiet, SameHandles, HandleLaws,
}
use elf_sysv_nt.Host.Quiet.{check-IsQuiet, lift-IsQuiet, close_restores, trade_handle}
use elf_sysv_nt.File.{Kind}
use elf_sysv_nt.Stat.{KStat, is_dir, is_link}
use elf_sysv_nt.Mount.{FsCtx}
use elf_sysv_nt.Path.{base_name, path_parent, path_join, path_max}
use elf_sysv_nt.Walk.{
  SynthFs, Loc, WalkFlags, walk, w_parent, w_none, w_no_follow, stat_abs, open_host_dir,
}
use elf_sysv_nt.Walk.Handles.{walk-IsQuiet, stat_abs-IsQuiet, open_host_dir-Opens}
use elf_sysv_nt.Open.{
  SynthOpen, OFlags, Description, describe, accept, open_at, open_seat, open_existing,
}
use elf_sysv_nt.Open.{
  open_found, open_synth, open_created, create_in, Created, object, through, link_target,
}
use elf_sysv_nt.Open.{
  open_depth, vfs_open, existing_flags, create_flags, masked, is_special, is_lxlink, is_host_dir,
}
use elf_sysv_nt.Open.{or_directory, on_host, is_rdonly, allowed, joined_path}
use elf_sysv_nt.Open.Holds.{
  from_same, bind-IsOpening, if-IsOpening, directory-IsOpening, Holds, IsOpening,
}

module _ {S : Type 0} (fs : HostFs S) (syn : SynthFs S) (opens : SynthOpen S) (is_open : Handles S)
    (laws : HandleLaws fs is_open) where
  describe-Holds :
      (fl : OFlags) (path : CString) (h : ℕ) (hs : HostStat) (s s' : S)
      → OneMore is_open h s s'
      → Holds is_open s (describe fs syn opens fl path h hs s')
  unfolding describe
  describe-Holds fl path h hs s s' more = elim (Bool-cases (opens.has_memory s')) [
    | inl there ↦ rw there more
    | inr full ↦ rw full (close_restores is_open fs laws h s s' s' more (λ k. refl))
  ]

  accept-Holds :
      (fl : OFlags) (path : CString) (o : Opened) (s s' : S)
      → OpensOne is_open s (o, s')
      → Holds is_open s (accept fs syn opens fl path o s')
  unfolding accept
  accept-Holds fl path (opened h hs) s s' one =
      elim (Bool-cases (is_special hs.kind && not fl.path)) [
        | inl special ↦ rw special (close_restores is_open fs laws h s s' s' one (λ k. refl))
        | inr plain ↦ rw plain (describe-Holds fl path h hs s s' one)
      ]
  accept-Holds fl path (met_link h hs) s s' one =
      close_restores is_open fs laws h s s' s' one (λ k. refl)
  accept-Holds fl path (failed e) s s' one = one

  open_at-Holds :
      (fl : OFlags) (st : KStat) (abs : CString) (d : ℕ) (s s' : S)
      → OneMore is_open d s s'
      → Holds is_open s (open_at fs syn opens fl st abs d s')
  unfolding open_at
  open_at-Holds fl st abs d s s' more =
      let r = fs.openat d (base_name abs) (existing_flags fl st) 0 0 0 s' in
      accept-Holds fl abs r.0 s (fs.close d r.1) (
        trade_handle is_open fs laws d s s' r.1 r.0 more
          (laws.openat_one d (base_name abs) (existing_flags fl st) 0 0 0 s'))

  open_seat-IsOpening :
      (fl : OFlags) (st : KStat) (abs : CString) (root : ℕ)
      → IsOpening is_open (open_seat fs syn opens fl st abs root)
  unfolding open_seat
  open_seat-IsOpening fl st abs root = record {
    holds = λ s.
        accept-Holds fl abs (reopened fs root (existing_flags fl st) s).0 s
          (reopened fs root (existing_flags fl st) s).1
          (laws.reopen_one root (existing_flags fl st) s);
  }

  open_existing-IsOpening :
      (ctx : FsCtx) (fl : OFlags) (loc : Loc)
      → IsOpening is_open (open_existing fs syn opens ctx fl loc)
  unfolding open_existing
  open_existing-IsOpening ctx fl loc =
      bind-IsOpening is_open (stat_abs fs syn ctx loc.abs) _
        (stat_abs-IsQuiet fs syn is_open laws ctx loc.abs)
        (λ (st, kind).
          let not_link = not (is_link st.mode) || fl.path in
          let not_dir = not (is_dir st.mode) || (is_rdonly fl.acc || fl.path) in
          let dir = is_dir st.mode || not fl.directory in
          bind-IsOpening is_open (check not_link eloop) _ (check-IsQuiet is_open not_link eloop)
            (λ u.
              bind-IsOpening is_open (check not_dir eisdir) _ (check-IsQuiet is_open not_dir eisdir)
                (λ v.
                  bind-IsOpening is_open (check dir enotdir) _ (check-IsQuiet is_open dir enotdir)
                    (λ w.
                      bind-IsOpening is_open (lift (allowed fs syn opens ctx fl st)) _
                        (lift-IsQuiet is_open (allowed fs syn opens ctx fl st))
                        (λ x.
                          if-IsOpening is_open (null loc.rel) _ _
                            (open_seat-IsOpening fl st loc.abs loc.seat.1.root)
                            (directory-IsOpening is_open
                              (open_host_dir fs syn loc.seat.1 (path_parent loc.abs))
                              (λ d. open_at fs syn opens fl st loc.abs d)
                              (open_host_dir-Opens fs syn is_open laws loc.seat.1
                                (path_parent loc.abs))
                              (open_at-Holds fl st loc.abs)))))))

  open_found-IsOpening :
      (ctx : FsCtx) (fl : OFlags) (loc : Loc)
      → IsOpening is_open (open_found fs syn opens ctx fl loc)
  unfolding open_found open_synth
  open_found-IsOpening ctx fl loc =
      if-IsOpening is_open (on_host loc.seat.1.type) _ _ (open_existing-IsOpening ctx fl loc)
        (record { holds = λ s. synth-Holds s (opens.open_at_rel loc.seat.1.type loc.rel fl s) })
    where
      synth-Holds :
          (s : S) (r : Result (Kind × CString))
          → Holds is_open s (
            elim r [
              | ok k ↦ ok (record { kind = k.0; flags = fl; handle = none; path = k.1 })
              | err e ↦ err e
            ],
            s,
          )
      synth-Holds s (ok k) = λ h. refl
      synth-Holds s (err e) = λ h. refl

  -- The handle that `create_in` leaves open, if any.
  abbrev Made : S → Result Created × S → Type 0
  Made s (ok (object h hs), s') = OneMore is_open h s s'
  Made s (ok (through target), s') = SameHandles is_open s s'
  Made s (err e, s') = SameHandles is_open s s'

  link_target-IsQuiet : (h : ℕ) → IsQuiet is_open (link_target fs syn opens h)
  unfolding link_target
  link_target-IsQuiet h = record {
    same = λ s k.
        read_same (fs.readlink h s).0 (fs.readlink h s).1 s k ((laws.readlink_quiet h).same s k);
  }
    where
      read_same :
          (r : Result CString) (s' s : S) (k : ℕ)
          → is_open s' k ≡ is_open s k
          → is_open
              (elim r as (λ x. Result CString × S) [
                | ok target ↦
                    if ltb 0 (length target) && ltb (length target) path_max
                    then (ok target, s')
                    else (err enoent, s')
                | err e ↦ (err enoent, s')
              ]).1
              k
            ≡ is_open s k
      read_same (ok target) s' s k same =
          elim (Bool-cases (ltb 0 (length target) && ltb (length target) path_max)) [
            | inl fits ↦ rw fits same
            | inr odd ↦ rw odd same
          ]
      read_same (err e) s' s k same = same

  followed-Made :
      (s : S) (r : Result CString) (s' : S)
      → SameHandles is_open s s'
      → Made s (resume r (λ t. pure (through t)) s')
  followed-Made s (ok t) s' same = same
  followed-Made s (err e) s' same = same

  closed-Made :
      (s : S) (h : ℕ) (r : Result CString) (t' t : S)
      → OneMore is_open h s t
      → SameHandles is_open t t'
      → Made s (closing fs h (λ x. resume r (λ c. pure (through c)) t') t)
  closed-Made s h (ok c) t' t one same = close_restores is_open fs laws h s t t' one same
  closed-Made s h (err e) t' t one same = close_restores is_open fs laws h s t t' one same

  link-Made :
      (s : S) (h : ℕ) (hs : HostStat) (t : S)
      → OneMore is_open h s t
      → Made s (
          if is_lxlink hs.kind
          then closing fs h (link_target fs syn opens h >>= λ c. pure (through c)) t
          else (err enxio, fs.close h t))
  link-Made s h hs t one = elim (Bool-cases (is_lxlink hs.kind)) [
    | inl link ↦ rw link (
        closed-Made s h (link_target fs syn opens h t).0 (link_target fs syn opens h t).1 t one
          ((link_target-IsQuiet h).same t))
    | inr other ↦ rw other (close_restores is_open fs laws h s t t one (λ k. refl))
  ]

  opened-Made :
      (s : S) (fl : OFlags) (o : Opened) (t : S)
      → OpensOne is_open s (o, t)
      → Made s (elim o as (λ x. Result Created × S) [
        | opened h hs ↦
            if is_host_dir hs.kind then (err eisdir, fs.close h t) else (ok (object h hs), t)
        | met_link h hs ↦
            if fl.excl
            then (err eexist, fs.close h t)
            else if is_lxlink hs.kind
            then closing fs h (link_target fs syn opens h >>= λ c. pure (through c)) t
            else (err enxio, fs.close h t)
        | failed e ↦ (err e, t)
      ])
  opened-Made s fl (opened h hs) t one = elim (Bool-cases (is_host_dir hs.kind)) [
    | inl dir ↦ rw dir (close_restores is_open fs laws h s t t one (λ k. refl))
    | inr plain ↦ rw plain one
  ]
  opened-Made s fl (met_link h hs) t one = elim (Bool-cases fl.excl) [
    | inl excl ↦ rw excl (close_restores is_open fs laws h s t t one (λ k. refl))
    | inr shared ↦ rw shared (link-Made s h hs t one)
  ]
  opened-Made s fl (failed e) t one = one

  create_in-Made :
      (ctx : FsCtx) (fl : OFlags) (mode : ℕ) (last : CString) (d : ℕ) (s s' : S)
      → OneMore is_open d s s'
      → Made s (create_in fs syn opens ctx fl mode last d s')
  unfolding create_in
  create_in-Made ctx fl mode last d s s' more =
      let flags = create_flags fl in
      let m = masked mode ctx.umask in
      let r = fs.openat d last flags m ctx.cred.euid ctx.cred.egid s' in
      opened-Made s fl r.0 (fs.close d r.1) (
        trade_handle is_open fs laws d s s' r.1 r.0 more
          (laws.openat_one d last flags m ctx.cred.euid ctx.cred.egid s'))

  created-Holds :
      (fl : OFlags) (path : CString) (follow : CString → M S Description) (s s' : S)
      (r : Result Created)
      → Made s (r, s')
      → ((target : CString) → IsOpening is_open (follow target))
      → Holds is_open s (
          resume r
            (λ c. elim c [
              | object h hs ↦ describe fs syn opens fl path h hs
              | through target ↦ follow target
            ])
            s')
  created-Holds fl path follow s s' (ok (object h hs)) made q =
      describe-Holds fl path h hs s s' made
  created-Holds fl path follow s s' (ok (through target)) made q =
      from_same is_open s s' (follow target s') made ((q target).holds s')
  created-Holds fl path follow s s' (err e) made q = made

  open_created-IsOpening :
      (ctx : FsCtx) (fl : OFlags) (mode : ℕ) (follow : CString → CString → M S Description)
      (loc : Loc)
      → ((dir target : CString) → IsOpening is_open (follow dir target))
      → IsOpening is_open (open_created fs syn opens ctx fl mode follow loc)
  unfolding open_created
  open_created-IsOpening ctx fl mode follow loc q =
      if-IsOpening is_open (on_host loc.seat.1.type) _ _
        (directory-IsOpening is_open (open_host_dir fs syn loc.seat.1 loc.abs) _
          (open_host_dir-Opens fs syn is_open laws loc.seat.1 loc.abs)
          (λ d s s' more.
            created-Holds fl (joined_path (path_join path_max loc.abs loc.last)) (follow loc.abs) s
              (create_in fs syn opens ctx fl mode loc.last d s').1
              (create_in fs syn opens ctx fl mode loc.last d s').0
              (create_in-Made ctx fl mode loc.last d s s' more) (q loc.abs)))
        (record { holds = λ s k. refl })

  found-IsOpening :
      (ctx : FsCtx) (base : Option CString) (path : CString) (fl : OFlags) (w : WalkFlags)
      → IsOpening is_open
          (walk fs syn ctx base path w >>= λ loc. open_found fs syn opens ctx fl loc)
  found-IsOpening ctx base path fl w =
      bind-IsOpening is_open (walk fs syn ctx base path w) _
        (walk-IsQuiet fs syn is_open laws ctx base path w) (open_found-IsOpening ctx fl)

  or_directory-IsOpening :
      (e : Errno) (m : M S Description)
      → IsOpening is_open m
      → IsOpening is_open (or_directory fs syn opens e m)
  or_directory-IsOpening eexist m q = q
  or_directory-IsOpening _ m q = record { holds = λ s k. refl }

  parent-Holds :
      (create : Loc → M S Description) (other : M S Description) (s s' : S) (r : Result Loc)
      → SameHandles is_open s s'
      → ((loc : Loc) → IsOpening is_open (create loc))
      → IsOpening is_open other
      → Holds is_open s (elim r as (λ x. Result Description × S) [
        | ok loc ↦ create loc s'
        | err e ↦ or_directory fs syn opens e other s'
      ])
  parent-Holds create other s s' (ok loc) same q k =
      from_same is_open s s' (create loc s') same ((q loc).holds s')
  parent-Holds create other s s' (err e) same q k =
      from_same is_open s s' (or_directory fs syn opens e other s') same
        ((or_directory-IsOpening e other k).holds s')

  if-Holds :
      (s : S) (b : Bool) (x y : Result Description × S)
      → Holds is_open s x
      → Holds is_open s y
      → Holds is_open s (if b then x else y)
  if-Holds s true x y h k = h
  if-Holds s false x y h k = k

  open_depth-IsOpening :
      (ctx : FsCtx) (fl : OFlags) (mode links : ℕ) (base : Option CString) (path : CString)
      → IsOpening is_open (open_depth fs syn opens ctx fl mode links base path)
  unfolding open_depth
  open_depth-IsOpening ctx fl mode zero base path = record { holds = λ s k. refl }
  open_depth-IsOpening ctx fl mode (suc links) base path = record {
    holds = λ s.
        if-Holds s fl.creat _ _
          (parent-Holds
            (λ loc.
              open_created fs syn opens ctx fl mode
                (λ dir target. open_depth fs syn opens ctx fl mode links (some dir) target) loc)
            (walk fs syn ctx base path w_none >>= λ loc. open_found fs syn opens ctx fl loc) s
            (walk fs syn ctx base path w_parent s).1 (walk fs syn ctx base path w_parent s).0
            ((walk-IsQuiet fs syn is_open laws ctx base path w_parent).same s)
            (λ loc.
              open_created-IsOpening ctx fl mode _ loc
                (λ dir target. open_depth-IsOpening ctx fl mode links (some dir) target))
            (found-IsOpening ctx base path fl w_none))
          ((found-IsOpening ctx base path fl (if fl.no_follow then w_no_follow else w_none)).holds
            s);
  }

  -- Over a host store that keeps the handle laws: on success `vfs_open` leaves open exactly the
  -- handle of the description that it returns, fresh, and none for a description of /proc or
  -- /dev; on each failure the open handles are what they were. The path, the flags, the links on
  -- the way and what the host answers are any.
  pub vfs_open-IsOpening :
      (ctx : FsCtx) (base : Option CString) (path : CString) (fl : OFlags) (mode : ℕ)
      → IsOpening is_open (vfs_open fs syn opens ctx base path fl mode)
  unfolding vfs_open
  vfs_open-IsOpening ctx base path fl mode = open_depth-IsOpening ctx fl mode 41 base path
