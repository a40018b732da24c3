-- ===== src/Host/Toy.antt =====
-- A host store for the tests, whose state is the list of the open handles. Every open succeeds. The
-- name `l` is a symlink to `/d`, `f` is a file, and any other name is a directory.
use elf_sysv_nt.Common.{ℕ, suc, ◌+◌, ◌≤◌, ◌≡◌, refl, true, false, not, ◌&&◌, ◌||◌}
use elf_sysv_nt.Common.{
  List, [], ◌∷◌, CString, codes, str_eq, ◌==◌, if◌then◌else◌, pos, arith, Bool-cases, inl, inr,
}
use elf_sysv_nt.Common.Errno.{ok}
use elf_sysv_nt.Host.{HostKind, HostStat, Opened, opened, HostFs, Handles, HandleLaws, pure}
use elf_sysv_nt.Host.HostKind.{file, dir, lxlink}

abbrev pub total : List ℕ → ℕ
total [] = 0
total (h ∷ hs) = h + total hs

unfoldable pub toy_is_open : Handles (List ℕ)
toy_is_open [] k = false
toy_is_open (h ∷ hs) k = (not (k == 0) && (k == h)) || toy_is_open hs k

-- 0 is no handle.
pub toy_zero : (s : List ℕ) → toy_is_open s 0 ≡ false
unfolding toy_is_open
toy_zero [] = refl
toy_zero (h ∷ hs) = toy_zero hs

unfoldable pub drop_handle : ℕ → List ℕ → List ℕ
drop_handle h [] = []
drop_handle h (g ∷ hs) = let rest = drop_handle h hs in if g == h then rest else g ∷ rest

abbrev pub toy_kind : CString → HostKind
toy_kind name =
    if str_eq name (codes "l") then lxlink else if str_eq name (codes "f") then file else dir

abbrev pub toy_stat : HostKind → HostStat
toy_stat kind = record {
  ino = 1;
  size = 0;
  blocks = 0;
  nlink = 1;
  has_uid = false;
  has_gid = false;
  has_mode = false;
  has_dev = false;
  mode = 0;
  uid = 0;
  gid = 0;
  rdev_major = 0;
  rdev_minor = 0;
  atime = pos 0;
  mtime = pos 0;
  ctime = pos 0;
  btime = pos 0;
  kind = kind;
}

abbrev toy_open : HostKind → List ℕ → Opened × List ℕ
toy_open kind s = (opened (suc (total s)) (toy_stat kind), suc (total s) ∷ s)

abbrev pub toy : HostFs (List ℕ)
toy = record {
  openat = λ d name flags mode uid gid s. toy_open (toy_kind name) s;
  close = drop_handle;
  reopen = λ h flags s. (ok (suc (total s), toy_stat dir), suc (total s) ∷ s);
  stat = λ h. pure (toy_stat dir);
  statat = λ d name. pure (toy_stat (toy_kind name));
  readlink = λ h. pure (codes "/d");
  set_lx = λ h u g m. pure tt;
  set_times = λ h a m. pure tt;
  truncate = λ h n. pure tt;
  mkdir = λ d name mode uid gid c. pure tt;
  unlink = λ d name r. pure tt;
  rename = λ d old e new n. pure tt;
  link = λ h d name. pure tt;
  symlink = λ d name target uid gid. pure tt;
  mknod = λ d name kind mode uid gid major minor. pure tt;
}

is_open-le : (hs : List ℕ) (k : ℕ) → toy_is_open hs k ≡ true → k ≤ total hs
unfolding toy_is_open
is_open-le [] k h = cc
is_open-le (g ∷ hs) k h = ground (arith, is_open-le hs k)

fresh : (s : List ℕ) → toy_is_open s (suc (total s)) ≡ false
fresh s = elim (Bool-cases (toy_is_open s (suc (total s)))) [
  | inl held ↦ absurd (omega (arith, is_open-le s (suc (total s)) held))
  | inr free ↦ free
]

toy-close :
    (h : ℕ) (s : List ℕ) (k : ℕ)
    → toy_is_open (drop_handle h s) k ≡ (if k == h then false else toy_is_open s k)
unfolding toy_is_open drop_handle
toy-close h [] k = ground arith
toy-close h (g ∷ s) k = ground (arith, toy-close h s k)

one_more :
    (s : List ℕ) (k : ℕ)
    → toy_is_open (suc (total s) ∷ s) k ≡ (if k == suc (total s) then true else toy_is_open s k)
unfolding toy_is_open
one_more s k = ground arith

pub toy_laws : HandleLaws toy toy_is_open
toy_laws = record {
  openat_one = λ d name flags mode uid gid s. (fresh s, one_more s);
  reopen_one = λ h flags s. (fresh s, one_more s);
  close_one = toy-close;
  stat_quiet = λ h. record { same = λ s k. refl };
  statat_quiet = λ d name. record { same = λ s k. refl };
  readlink_quiet = λ h. record { same = λ s k. refl };
  set_lx_quiet = λ h u g m. record { same = λ s k. refl };
  set_times_quiet = λ h a m. record { same = λ s k. refl };
  truncate_quiet = λ h n. record { same = λ s k. refl };
  mkdir_quiet = λ d name mode uid gid c. record { same = λ s k. refl };
  unlink_quiet = λ d name r. record { same = λ s k. refl };
  rename_quiet = λ d old e new n. record { same = λ s k. refl };
  link_quiet = λ h d name. record { same = λ s k. refl };
  symlink_quiet = λ d name target uid gid. record { same = λ s k. refl };
  mknod_quiet = λ d name kind mode uid gid major minor. record { same = λ s k. refl };
}
