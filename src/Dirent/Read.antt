-- ===== src/Dirent/Read.antt =====
-- core/vfs.c: reading entries back. `read_entries` reads a buffer of getdents64 as a caller does.
use elf_sysv_nt.Common.{
  ℕ, zero, suc, ◌+◌, ◌-◌, ◌^◌, ◌≤◌, ◌<◌, ◌≡◌, refl, ap, ◌∙◌, false, Option, none, some, List, [],
  ◌∷◌, ◌++◌, length, drop, replicate, null, All, arith, length-append, length-replicate,
}
use elf_sysv_nt.Common.Bytes.{field, put_le, le_bytes-put_le, c_string, c_string-append}
use elf_sysv_nt.Dirent.{Dirent, record_len, dirent_bytes}
use mathlib.Core.List.{append_assoc}

-- Fields that fit their widths, and a name that is a C string.
pub record IsDirent (d : Dirent) : Type 0 where
  pub ino_fits : d.ino < 2 ^ 64
  pub off_fits : d.off < 2 ^ 64
  pub name_fits : length d.name < 65000
  pub name_nonzero : All (λ c. 0 < c) d.name

-- The first entry of a buffer.
unfoldable pub read_entry : List ℕ → Dirent
unfolding c_string
read_entry bytes = record {
  ino = field bytes 0 8;
  off = field bytes 8 8;
  type = field bytes 18 1;
  name = c_string (drop 19 bytes);
}

-- `d_reclen` steps to the next entry; `none` if the entries do not end with the buffer.
unfoldable pub read_entries : ℕ → List ℕ → Option (List Dirent)
unfolding read_entry
read_entries zero [] = some []
read_entries zero (b ∷ bytes) = none
read_entries (suc n) [] = some []
read_entries (suc n) (b ∷ bytes) =
    let bytes' = b ∷ bytes in
    elim (read_entries n (drop (field bytes' 16 2) bytes')) [
      | none ↦ none
      | some rest ↦ some (read_entry bytes' ∷ rest)
    ]

drop-append {ℓ} : {A : Type ℓ} (n : ℕ) (xs ys : List A) → length xs ≡ n → drop n (xs ++ ys) ≡ ys
drop-append zero [] ys h = refl
drop-append zero (x ∷ xs) ys h = absurd (omega arith)
drop-append (suc n) [] ys h = absurd (omega arith)
drop-append (suc n) (x ∷ xs) ys h = drop-append n xs ys (omega arith)

pub length-dirent_bytes : (d : Dirent) → length (dirent_bytes d) ≡ record_len d.name
unfolding dirent_bytes
length-dirent_bytes d = omega (
  arith,
  length-append d.name (0 ∷ replicate (record_len d.name - 19 - length d.name - 1) 0),
  length-replicate {A = ℕ} (record_len d.name - 19 - length d.name - 1) 0,
)

abbrev from_name : Dirent → List ℕ
from_name d = d.name ++ (0 ∷ replicate (record_len d.name - 19 - length d.name - 1) 0)

abbrev from_len : Dirent → List ℕ
from_len d = put_le 2 (record_len d.name) ++ (d.type ∷ from_name d)

-- The parts of an entry with anything behind it.
module _ (d : Dirent) (rest : List ℕ) (w : IsDirent d) where
  ino-bytes : field (dirent_bytes d ++ rest) 0 8 ≡ d.ino
  unfolding dirent_bytes
  ino-bytes =
      le_bytes-put_le 8 d.ino ((put_le 8 d.off ++ from_len d) ++ rest) (omega (arith, w.ino_fits))

  off-bytes : field (dirent_bytes d ++ rest) 8 8 ≡ d.off
  unfolding dirent_bytes
  off-bytes = le_bytes-put_le 8 d.off (from_len d ++ rest) (omega (arith, w.off_fits))

  reclen-bytes : field (dirent_bytes d ++ rest) 16 2 ≡ record_len d.name
  unfolding dirent_bytes
  reclen-bytes =
      le_bytes-put_le 2 (record_len d.name) ((d.type ∷ from_name d) ++ rest)
        (omega (arith, w.name_fits))

  type-bytes : field (dirent_bytes d ++ rest) 18 1 ≡ d.type
  unfolding dirent_bytes
  type-bytes = omega arith

  name-bytes : c_string (drop 19 (dirent_bytes d ++ rest)) ≡ d.name
  unfolding dirent_bytes
  name-bytes =
      let zeros : List ℕ = replicate (record_len d.name - 19 - length d.name - 1) 0 in
      rw (append_assoc d.name (0 ∷ zeros) rest)
        (c_string-append d.name (zeros ++ rest) w.name_nonzero)

  read_entry-dirent_bytes : read_entry (dirent_bytes d ++ rest) ≡ d
  unfolding read_entry
  read_entry-dirent_bytes = cc (ino-bytes, off-bytes, type-bytes, name-bytes)

  drop-dirent_bytes : drop (field (dirent_bytes d ++ rest) 16 2) (dirent_bytes d ++ rest) ≡ rest
  drop-dirent_bytes =
      rw reclen-bytes
        (drop-append (record_len d.name) (dirent_bytes d) rest (length-dirent_bytes d))

-- The entries `entry at`, `entry (at + 1)`, …, and their bytes.
unfoldable pub entries : (ℕ → Dirent) → ℕ → ℕ → List Dirent
entries entry at zero = []
entries entry at (suc k) = entry at ∷ entries entry (suc at) k

unfoldable pub packed : (ℕ → Dirent) → ℕ → ℕ → List ℕ
packed entry at zero = []
packed entry at (suc k) = dirent_bytes (entry at) ++ packed entry (suc at) k

pub entries-add :
    (entry : ℕ → Dirent) (at k m : ℕ)
    → entries entry at k ++ entries entry (at + k) m ≡ entries entry at (k + m)
unfolding entries
entries-add entry at zero m =
    let e : at + 0 ≡ at = omega arith in let e' : 0 + m ≡ m = omega arith in rw (e, e') refl
entries-add entry at (suc k) m =
    let e : at + suc k ≡ suc at + k = omega arith in
    let e' : suc k + m ≡ suc (k + m) = omega arith in
    rw (e, e') (ap (λ (l : List Dirent). entry at ∷ l) (entries-add entry (suc at) k m))

-- A buffer is no shorter than its number of entries, and reads back as them.
pub length-packed : (entry : ℕ → Dirent) (at k : ℕ) → k ≤ length (packed entry at k)
unfolding packed
length-packed entry at zero = omega arith
length-packed entry at (suc k) = omega (
  arith,
  length-append (dirent_bytes (entry at)) (packed entry (suc at) k),
  length-packed entry (suc at) k,
  length-dirent_bytes (entry at),
)

read_entries-nonempty :
    (n : ℕ) (bytes rest : List ℕ) (ds : List Dirent)
    → null bytes ≡ false
    → drop (field bytes 16 2) bytes ≡ rest
    → read_entries n rest ≡ some ds
    → read_entries (suc n) bytes ≡ some (read_entry bytes ∷ ds)
unfolding read_entries
read_entries-nonempty n [] rest ds full e h = cc
read_entries-nonempty n (b ∷ bytes) rest ds full e h = rw (e, h) refl

null-dirent_bytes : (d : Dirent) (rest : List ℕ) → null (dirent_bytes d ++ rest) ≡ false
unfolding dirent_bytes
null-dirent_bytes d rest = refl

read_entries-step :
    (n : ℕ) (d : Dirent) (rest : List ℕ) (ds : List Dirent)
    → IsDirent d
    → read_entries n rest ≡ some ds
    → read_entries (suc n) (dirent_bytes d ++ rest) ≡ some (d ∷ ds)
read_entries-step n d rest ds w h =
    read_entries-nonempty n (dirent_bytes d ++ rest) rest ds (null-dirent_bytes d rest)
      (drop-dirent_bytes d rest w) h
    ∙ ap (λ e. some (e ∷ ds)) (read_entry-dirent_bytes d rest w)

pub read_entries-packed :
    (entry : ℕ → Dirent) (total : ℕ) (fits : (i : ℕ) → i < total → IsDirent (entry i)) (at k n : ℕ)
    → at + k ≤ total
    → k ≤ n
    → read_entries n (packed entry at k) ≡ some (entries entry at k)
unfolding packed entries read_entries
read_entries-packed entry total fits at zero zero e h = refl
read_entries-packed entry total fits at zero (suc n) e h = refl
read_entries-packed entry total fits at (suc k) zero e h = absurd (omega arith)
read_entries-packed entry total fits at (suc k) (suc n) e h =
    read_entries-step n (entry at) (packed entry (suc at) k) (entries entry (suc at) k)
      (fits at (omega arith))
      (read_entries-packed entry total fits (suc at) k n (omega arith) (omega arith))
