-- ===== src/Mount/Setup.antt =====
-- core/vfs.c: the mount table of a new process. The host volume is a parameter.
use elf_sysv_nt.Common.{
  ℕ, ◌+◌, ◌-◌, ◌≡◌, refl, Bool, true, false, not, ◌&&◌, some, List, [], ◌∷◌, ◌++◌,
}
use elf_sysv_nt.Common.{CString, codes, str_eq, length, take, ◌==◌, if◌then◌else◌}
use elf_sysv_nt.Common.Errno.{Result, ok, err}
use elf_sysv_nt.Host.{M}
use elf_sysv_nt.Mount.{
  Mount, MountType, mnt_host, mnt_proc, mnt_dev, FsCtx, add_mount, mount_of, hits,
}
use elf_sysv_nt.Mount.Lookup.{mount_of-longest}
use elf_sysv_nt.Path.{path_max}

-- `hfs_open_root`, `hfs_volume_serial`, `hfs_volume_is_lx_capable` and `hfs_set_case_sensitive`.
pub record Volume (S : Type 0) : Type 0 where
  pub open_root : CString → M S ℕ
  pub serial : ℕ → S → ℕ
  pub lx_capable : ℕ → S → Bool
  pub set_case_sensitive : ℕ → S → S

-- The close of a handle, for `vfs_release`.
abbrev pub Closer : Type 0 → Type 0
Closer S = ℕ → S → S

abbrev is_host : MountType → Bool
is_host mnt_host = true
is_host _ = false

-- `vfs_release` closes the root of each host mount and empties the table.
unfoldable pub release_mounts : {S : Type 0} → Closer S → List Mount → S → S
release_mounts close [] s = s
release_mounts close (m ∷ ms) s =
    let s' = if is_host m.type && not (m.root == 0) then close m.root s else s in
    release_mounts close ms s'

unfoldable pub vfs_release : {S : Type 0} → Closer S → FsCtx → S → FsCtx × S
vfs_release close ctx s = (record ctx { mounts = [] }, release_mounts close ctx.mounts s)

abbrev pub set_mounts : FsCtx → List Mount → FsCtx
set_mounts ctx ms = record ctx { mounts = ms }

-- `add_mount` on a process.
abbrev pub added : {S : Type 0} → FsCtx → Result (List Mount) → S → Result (Unit {0}) × (FsCtx × S)
added ctx (ok ms) s = (ok tt, (set_mounts ctx ms, s))
added ctx (err e) s = (err e, (ctx, s))

-- The table with a root mount, /proc and /dev.
abbrev three : Mount → List Mount
three root =
    root
    ∷ (record {
      type = mnt_proc;
      point = codes "/proc";
      root = 0;
      dev = 2;
      lx_capable = false;
      default_uid = 0;
      default_gid = 0;
    }
        ∷ (record {
          type = mnt_dev;
          point = codes "/dev";
          root = 0;
          dev = 3;
          lx_capable = false;
          default_uid = 0;
          default_gid = 0;
        }
            ∷ []))

root_hits : (abs : CString) → hits abs (codes "/") ≡ true
unfolding hits
root_hits abs = refl

module _ {S : Type 0} (vol : Volume S) where
  -- The mount that a root handle is seated on, as the `n`th of the table.
  abbrev pub seated : CString → ℕ → ℕ → S → Mount
  seated point n root s = record {
    type = mnt_host;
    point = take (path_max - 1) point;
    root = root;
    dev = if vol.serial root s == 0 then 0x1000 + n else vol.serial root s;
    lx_capable = vol.lx_capable root s;
    default_uid = 0;
    default_gid = 0;
  }

  abbrev pub seat_root : FsCtx → CString → Result ℕ × S → Result (Unit {0}) × (FsCtx × S)
  seat_root ctx point (err e, s) = (err e, (ctx, s))
  seat_root ctx point (ok root, s) =
      let m = seated point (length ctx.mounts + 1) root s in
      let s' =
        if str_eq point (codes "/") && m.lx_capable then vol.set_case_sensitive root s else s in
      (ok tt, (set_mounts ctx (ctx.mounts ++ (m ∷ [])), s'))

  unfoldable pub vfs_mount_host : FsCtx → CString → CString → S → Result (Unit {0}) × (FsCtx × S)
  vfs_mount_host ctx point host_path s = elim (add_mount ctx.mounts mnt_host point) [
    | ok ms ↦ seat_root ctx point (vol.open_root host_path s)
    | err e ↦ (err e, (ctx, s))
  ]

  -- What follows a step unless it failed.
  abbrev pub and_then :
      Result (Unit {0}) × (FsCtx × S)
      → (FsCtx → S → Result (Unit {0}) × (FsCtx × S))
      → Result (Unit {0}) × (FsCtx × S)
  and_then (ok u, (ctx, s)) f = f ctx s
  and_then (err e, (ctx, s)) f = (err e, (ctx, s))

  abbrev pub new_ctx : FsCtx
  new_ctx = record {
    mounts = [];
    cwd = codes "/";
    umask = 0o022;
    cred = record { uid = 0; gid = 0; euid = 0; egid = 0 };
  }

  unfoldable pub vfs_init : CString → S → Result (Unit {0}) × (FsCtx × S)
  vfs_init root_host_path s =
      and_then
        (and_then (vfs_mount_host new_ctx (codes "/") root_host_path s)
          (λ ctx s'. added ctx (add_mount ctx.mounts mnt_proc (codes "/proc")) s'))
        (λ ctx s'. added ctx (add_mount ctx.mounts mnt_dev (codes "/dev")) s')

  -- In the table that `vfs_init` sets up when it succeeds every path has a mount, so that neither
  -- the walk nor a stat meets a path without one.
  pub vfs_init-mounted :
      (root abs : CString) (s : S)
      → (vfs_init root s).0 ≡ ok tt
      → (i : ℕ) × (m : Mount) × (mount_of (vfs_init root s).1.0.mounts abs ≡ some (i, m))
  unfolding vfs_init vfs_mount_host add_mount
  vfs_init-mounted root abs s e = mounted (vol.open_root root s) e
    where
      mounted :
          (r : Result ℕ × S)
          → (and_then
              (and_then
                (seat_root new_ctx (codes "/") r)
                (λ ctx s'. added ctx (add_mount ctx.mounts mnt_proc (codes "/proc")) s'))
              (λ ctx s'. added ctx (add_mount ctx.mounts mnt_dev (codes "/dev")) s')).0
            ≡ ok tt
          → (i : ℕ) × (m : Mount) × (mount_of
                (and_then
                  (and_then
                    (seat_root new_ctx (codes "/") r)
                    (λ ctx s'. added ctx (add_mount ctx.mounts mnt_proc (codes "/proc")) s'))
                  (λ ctx s'. added ctx (add_mount ctx.mounts mnt_dev (codes "/dev")) s')).1.0.mounts
                abs
              ≡ some (i, m))
      mounted (err x, s') e' = cc
      mounted (ok h, s') e' =
          let (i, m, found, at, above, long) =
            mount_of-longest (three (seated (codes "/") 1 h s')) abs 0 (seated (codes "/") 1 h s')
              refl (root_hits abs) in
          (i, m, found)
