-- ===== src/File/Lowest.antt =====
-- core/file.c, fd_install: the descriptor that it takes is the lowest free one.
use elf_sysv_nt.Common.{ℕ, zero, suc, ◌+◌, ◌-◌, ◌≤◌, ◌<◌, ◌≡◌, ap, Bool, false, Option, none, some}
use elf_sysv_nt.Common.{List, arith, pos, get_or, length, ltb, leb, ◌&&◌, ◌==◌, if◌then◌else◌}
use elf_sysv_nt.Common.{Bool-cases, Option-cases, inl, inr, ◌↔◌, get_or-set_self, get_or-set}
use elf_sysv_nt.Common.Errno.{ok, err, emfile}
use elf_sysv_nt.File.{File, Store, FdTable, nr_open_default, is_free, lowest_free, fd_install}

-- Every slot from `lo` on and below `hi` is taken.
abbrev pub Taken : List (Option ℕ) → ℕ → ℕ → Type 0
Taken slots lo hi = (k : ℕ) → (leb lo k && (ltb k hi && is_free (get_or slots k none))) ≡ false

in_range-Taken :
    (slots : List (Option ℕ)) (lo hi : ℕ)
    → ((k : ℕ) → lo ≤ k → k < hi → is_free (get_or slots k none) ≡ false)
    → Taken slots lo hi
in_range-Taken slots lo hi taken k = elim (Bool-cases (leb lo k && ltb k hi)) [
  | inl inside ↦ ground (arith, taken k (ground arith) (ground arith))
  | inr outside ↦ ground arith
]

pub lowest_free-some :
    (slots : List (Option ℕ)) (n i j : ℕ)
    → lowest_free slots n i ≡ some j
    → (i ≤ j)
      × (j < i + n)
      × (get_or slots j none ≡ none)
      × ((k : ℕ) → i ≤ k → k < j → is_free (get_or slots k none) ≡ false)
unfolding lowest_free
lowest_free-some slots zero i j e = cc
lowest_free-some slots (suc n) i j e = elim (Bool-cases (is_free (get_or slots i none))) [
  | inl free ↦ (ground arith, ground arith, ground arith, λ k lo hi. absurd (ground arith))
  | inr used ↦
      let (lo, hi, open_slot, taken) = lowest_free-some slots n (suc i) j (ground arith) in
      (
        omega arith,
        omega arith,
        open_slot,
        λ k lo' hi'. elim (Bool-cases (i == k)) [
          | inl same ↦ ground arith
          | inr other ↦ taken k (ground arith) hi'
        ],
      )
]

pub lowest_free-none :
    (slots : List (Option ℕ)) (n i : ℕ)
    → lowest_free slots n i ≡ none
    → (k : ℕ) → i ≤ k
    → k < i + n
    → is_free (get_or slots k none) ≡ false
unfolding lowest_free
lowest_free-none slots zero i e = λ k lo hi. absurd (omega arith)
lowest_free-none slots (suc n) i e = λ k lo hi. elim (Bool-cases (i == k)) [
  | inl same ↦ ground arith
  | inr other ↦ lowest_free-none slots n (suc i) (ground arith) k (ground arith) (omega arith)
]

module _ {W : Type 0} (release : File → W → W) (t : FdTable) (a : ℕ) (cloexec : Bool) where
  -- In a table of 1024 slots and flags, for a minimum that is not negative: on success
  -- `fd_install` has taken the lowest free descriptor not below `min`: it lies below 1024, it was
  -- free, each one from `min` up to it is in use, it now refers to the description with the
  -- close-on-exec flag given, and no other slot of the table has changed.
  pub fd_install-lowest :
      (min i : ℕ) (s : Store W)
      → length t.slots ≡ nr_open_default
      → length t.cloexec ≡ nr_open_default
      → (fd_install release t a cloexec (pos min) s).0 ≡ ok i
      → (min ≤ i)
        × (i < nr_open_default)
        × (get_or t.slots i none ≡ none)
        × Taken t.slots min i
        × (get_or (fd_install release t a cloexec (pos min) s).1.slots i none ≡ some a)
        × (get_or (fd_install release t a cloexec (pos min) s).1.cloexec i false ≡ cloexec)
        × ((k : ℕ)
            → get_or (fd_install release t a cloexec (pos min) s).1.slots k none
              ≡ (if k == i then some a else get_or t.slots k none))
  unfolding fd_install
  fd_install-lowest min i s full full' e =
      elim (Option-cases (lowest_free t.slots (nr_open_default - min) min)) [
        | inl no_slot ↦ absurd (ground arith)
        | inr (j, found) ↦
            let same : j ≡ i = ground arith in
            let (lo, hi, open_slot, taken) =
              lowest_free-some t.slots (nr_open_default - min) min i (ground arith) in
            rw (found, same, fd_install)
              (
                lo,
                ground arith,
                open_slot,
                in_range-Taken t.slots min i taken,
                get_or-set_self t.slots i (some a) none (ground arith),
                get_or-set_self t.cloexec i cloexec false (ground arith),
                λ k. get_or-set t.slots i k (some a) none (ground arith),
              )
      ]

  -- For a minimum that is not negative: `fd_install` fails with EMFILE exactly when every
  -- descriptor from `min` to 1023 is in use, and exactly then it fails so and changes nothing.
  pub fd_install-emfile_iff :
      (min : ℕ) (s : Store W)
      → (((fd_install release t a cloexec (pos min) s).0 ≡ err emfile)
          ↔ Taken t.slots min nr_open_default)
        × ((fd_install release t a cloexec (pos min) s ≡ (err emfile, t, s))
            ↔ Taken t.slots min nr_open_default)
  unfolding fd_install
  fd_install-emfile_iff min s = (
    (fails_taken, λ taken. ap (λ r. r.0) (unchanged taken)),
    (λ e. fails_taken (ap (λ r. r.0) e), unchanged),
  )
    where
      room : ℕ
      room = nr_open_default - min

      found : Option ℕ
      found = lowest_free t.slots room min

      fails_taken :
          (fd_install release t a cloexec (pos min) s).0 ≡ err emfile
          → Taken t.slots min nr_open_default
      fails_taken e = in_range-Taken t.slots min nr_open_default (λ k lo hi.
          elim (Option-cases found) [
            | inl no_slot ↦ lowest_free-none t.slots room min no_slot k lo (omega arith)
            | inr (i, slot) ↦ absurd (ground arith)
          ])

      unchanged :
          Taken t.slots min nr_open_default
          → fd_install release t a cloexec (pos min) s ≡ (err emfile, t, s)
      unchanged taken = elim (Option-cases found) [
        | inl no_slot ↦ rw (no_slot, fd_install)
        | inr (i, slot) ↦
            let (lo, hi, open_slot, below) = lowest_free-some t.slots room min i slot in
            absurd (ground (arith, taken i))
      ]
