-- ===== src/Dev/Listing.antt =====
-- core/vfs_synth.c: what a caller of getdents64 reads from /dev.
use elf_sysv_nt.Common.{
  ℕ, suc, ◌+◌, ◌*◌, ◌≤◌, ◌<◌, ◌≡◌, refl, ap, ◌∙◌, some, List, [], ◌∷◌, codes, CString, str_eq,
  length, All, range, All-range, ℤ, arith,
}
use elf_sysv_nt.Common.Errno.{ok}
use elf_sysv_nt.Stat.{KStat, kstat_synthetic, type_of}
use elf_sysv_nt.Dirent.{Dirent}
use elf_sysv_nt.Dirent.Read.{IsDirent, entries}
use elf_sysv_nt.Dirent.Listing.{read_dir, read_dir-entries}
use elf_sysv_nt.Dev.{dev_find, find_from, devfs_stat, dev_entry, devdir_getdents}

abbrev IsName : CString → Type 0
IsName s = All (λ c. 0 < c) s × (length s ≤ 7)

dev_entry-IsName : All (λ i. IsName (dev_entry i).name) (range 0 13)
unfolding dev_entry
dev_entry-IsName = ground arith

entry_name : (i : ℕ) → i < 13 → IsName (dev_entry i).name
entry_name i h = All-range (λ j. IsName (dev_entry j).name) 0 13 i dev_entry-IsName (omega arith) h

dev_entry-IsDirent : (i : ℕ) → i < 13 → IsDirent (dev_entry i)
unfolding dev_entry
dev_entry-IsDirent i h = record {
  ino_fits = omega arith;
  off_fits = omega arith;
  name_fits = omega (arith, (entry_name i h).1);
  name_nonzero = (entry_name i h).0;
}

-- What the directory shows, each name with its `DT_*`: 4 is a directory, 2 a character device and 10
-- a link.
abbrev pub shown : List (CString × ℕ)
shown =
    (codes ".", 4)
    ∷ (codes "..", 4)
    ∷ (codes "null", 2)
    ∷ (codes "zero", 2)
    ∷ (codes "full", 2)
    ∷ (codes "random", 2)
    ∷ (codes "urandom", 2)
    ∷ (codes "tty", 2)
    ∷ (codes "console", 2)
    ∷ (codes "stdin", 10)
    ∷ (codes "stdout", 10)
    ∷ (codes "stderr", 10)
    ∷ (codes "fd", 10)
    ∷ []

-- Entries that follow one another from position `at` on.
abbrev pub numbered : ℕ → List (CString × ℕ) → List Dirent
numbered at [] = []
numbered at (e ∷ es) =
    record { ino = 2 + at; off = at + 1; type = e.1; name = e.0 } ∷ numbered (suc at) es

entries-shown : entries dev_entry 0 13 ≡ numbered 0 shown
unfolding entries dev_entry
entries-shown = refl

-- A caller with a buffer of 32 bytes or more that repeats getdents64 on /dev until it returns 0 reads
-- ".", ".." and the eleven nodes, once each and in order, in at most fourteen calls.
pub read_dir-devdir_getdents :
    (room : ℕ) → 32 ≤ room → read_dir (devdir_getdents room) 14 0 ≡ some (numbered 0 shown)
unfolding devdir_getdents
read_dir-devdir_getdents room h =
    read_dir-entries dev_entry 13 room dev_entry-IsDirent (λ i e. omega (arith, (entry_name i e).1))
      14 0 13 (omega arith) (omega arith)
    ∙ ap some entries-shown

-- What stat says of the name at a position of the listing.
abbrev pub IsListed : ℤ → Dirent → Type 0
IsListed now d =
    (st : KStat) × (devfs_stat now d.name ≡ ok st)
    × (type_of st.mode ≡ 4096 * d.type)
    × (d.ino ≡ st.ino + 2)

listed : (now : ℤ) → All (λ i. IsListed now (dev_entry i)) (range 2 11)
unfolding dev_entry devfs_stat dev_find find_from str_eq kstat_synthetic
listed now = (
  (_, refl, refl, refl),
  (
    (_, refl, refl, refl),
    (
      (_, refl, refl, refl),
      (
        (_, refl, refl, refl),
        (
          (_, refl, refl, refl),
          (
            (_, refl, refl, refl),
            (
              (_, refl, refl, refl),
              (
                (_, refl, refl, refl),
                ((_, refl, refl, refl), ((_, refl, refl, refl), ((_, refl, refl, refl), tt))),
              ),
            ),
          ),
        ),
      ),
    ),
  ),
)

-- Every node that /dev lists is there for stat, with the type that the listing says. The inode number
-- that the listing says is 2 more than the one of stat.
pub dev_entry-IsListed : (now : ℤ) (i : ℕ) → 2 ≤ i → i < 13 → IsListed now (dev_entry i)
dev_entry-IsListed now i h k = All-range (λ j. IsListed now (dev_entry j)) 2 11 i (listed now) h k
