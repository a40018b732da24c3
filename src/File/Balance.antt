-- ===== src/File/Balance.antt =====
-- The reference counts of core/file.c: what keeps a description alive.
use elf_sysv_nt.Common.{
  ℕ, ◌+◌, ◌-◌, ◌<◌, ◌≡◌, ◌≢◌, refl, ◌∙◌, Bool, true, false, Option, none, some,
}
use elf_sysv_nt.Common.{
  List, [], ◌∷◌, arith, ℤ, pos, negsuc, get_or, set, length, length-set, ltb, ◌==◌,
}
use elf_sysv_nt.Common.{if◌then◌else◌, Bool-cases, Option-cases, ◌⊎◌, inl, inr}
use elf_sysv_nt.File.{File, Store, FdTable, nr_open_default, fd_get, lowest_free, index_of}
use elf_sysv_nt.File.{file_get, file_put, fd_install, fd_close, dup_over, fd_dup2}
use elf_sysv_nt.File.{fdtable_init, release_slots, fdtable_release}
use elf_sysv_nt.File.Lowest.{lowest_free-some}
use elf_sysv_nt.File.Slots.{refers, count, count-set, count-replicate, refers-le-count}

abbrev pub refs_of : Option File → ℕ
refs_of none = 0
refs_of (some f) = f.refs

abbrev pub is_live : Option File → Bool
is_live none = false
is_live (some f) = true

-- The count of a description with `n` references is `n`, and it is allocated as long as `n` is not 0.
abbrev pub Counts : Option File → ℕ → Type 0
Counts o n = (refs_of o ≡ n) × (is_live o ≡ ltb 0 n)

-- Each description is referred to by its slots in the table and by `held` borrowed references.
abbrev pub IsBalanced : {W : Type 0} → (ℕ → ℕ) → List (Option ℕ) → Store W → Type 0
IsBalanced held slots s = (a : ℕ) → Counts (s.files a) (count a slots + held a)

abbrev pub one_more : (ℕ → ℕ) → ℕ → ℕ → ℕ
one_more held a b = held b + (if b == a then 1 else 0)

-- What `fd_get` finds is in the slot of that index.
pub fd_get-slot :
    (t : FdTable) (fd : ℤ) (a : ℕ)
    → fd_get t fd ≡ some a
    → (get_or t.slots (index_of fd) none ≡ some a) × (index_of fd < nr_open_default)
unfolding fd_get
fd_get-slot t (negsuc n) a e = cc
fd_get-slot t (pos n) a e = ground arith

module _ {W : Type 0} (release : File → W → W) where
  file_get-files :
      (a b : ℕ) (s : Store W) (n m : ℕ)
      → Counts (s.files b) n
      → (0 < n) ⊎ (a ≢ b)
      → m ≡ n + (if b == a then 1 else 0)
      → Counts ((file_get release a s).files b) m
  unfolding file_get
  file_get-files a b s n m c live e = ground arith

  file_put-files :
      (slot : Option ℕ) (b : ℕ) (s : Store W) (n : ℕ)
      → Counts (s.files b) (n + refers b slot)
      → Counts ((file_put release slot s).files b) n
  unfolding file_put
  file_put-files none b s n c = ground arith
  file_put-files (some a) b s n c = ground arith

  -- Installing a live description in a free slot keeps the balance at each address.
  install-Counts :
      (held : ℕ → ℕ) (slots : List (Option ℕ)) (i a b : ℕ) (s : Store W)
      → IsBalanced held slots s
      → is_live (s.files a) ≡ true
      → i < length slots
      → get_or slots i none ≡ none
      → Counts ((file_get release a s).files b) (count b (set slots i (some a)) + held b)
  install-Counts held slots i a b s bal live room free =
      file_get-files a b s (count b slots + held b) (count b (set slots i (some a)) + held b)
        (bal b) (ground (arith, bal b)) (ground (arith, count-set b slots i (some a)))

  -- `file_get` on a live description gives the caller one more reference to account for.
  pub file_get-IsBalanced :
      (held : ℕ → ℕ) (slots : List (Option ℕ)) (a : ℕ) (s : Store W)
      → IsBalanced held slots s
      → is_live (s.files a) ≡ true
      → IsBalanced (one_more held a) slots (file_get release a s)
  file_get-IsBalanced held slots a s bal live b =
      file_get-files a b s (count b slots + held b) (count b slots + one_more held a b) (bal b)
        (ground (arith, bal b)) (omega arith)

  -- Where the reference counts are right: `file_put` gives back one of the references that the
  -- caller holds; the description is freed exactly when no slot and no other holder refers to it.
  pub file_put-IsBalanced :
      (held : ℕ → ℕ) (slots : List (Option ℕ)) (a : ℕ) (s : Store W)
      → IsBalanced (one_more held a) slots s
      → IsBalanced held slots (file_put release (some a) s)
  file_put-IsBalanced held slots a s bal b =
      file_put-files (some a) b s (count b slots + held b) (ground (arith, bal b))

  -- In a table of 1024 slots whose reference counts are right: `fd_install` of a live description
  -- keeps every reference count right, on success and on failure, and keeps the table at its 1024
  -- slots.
  pub fd_install-IsBalanced :
      (held : ℕ → ℕ) (t : FdTable) (a : ℕ) (cloexec : Bool) (min : ℤ) (s : Store W)
      → length t.slots ≡ nr_open_default
      → IsBalanced held t.slots s
      → is_live (s.files a) ≡ true
      → let (r, t', s') = fd_install release t a cloexec min s in
        IsBalanced held t'.slots s' × (length t'.slots ≡ nr_open_default)
  unfolding fd_install
  fd_install-IsBalanced held t a cloexec (negsuc n) s full bal live = (bal, full)
  fd_install-IsBalanced held t a cloexec (pos min) s full bal live =
      elim (Option-cases (lowest_free t.slots (nr_open_default - min) min)) [
        | inl no_slot ↦ rw (no_slot, fd_install) (bal, full)
        | inr (i, found) ↦
            let (lo, hi, free, taken) =
              lowest_free-some t.slots (nr_open_default - min) min i found in
            rw (found, fd_install)
              (
                λ b. install-Counts held t.slots i a b s bal live (omega arith) free,
                length-set t.slots i (some a) ∙ full,
              )
      ]

  -- In a table of 1024 slots whose reference counts are right: `fd_close` keeps every reference
  -- count right, on success and on failure.
  pub fd_close-IsBalanced :
      (held : ℕ → ℕ) (t : FdTable) (fd : ℤ) (s : Store W)
      → length t.slots ≡ nr_open_default
      → IsBalanced held t.slots s
      → let (r, t', s') = fd_close release t fd s in
        IsBalanced held t'.slots s' × (length t'.slots ≡ nr_open_default)
  unfolding fd_close
  fd_close-IsBalanced held t fd s full bal = elim (Option-cases (fd_get t fd)) [
    | inl closed ↦ rw (closed, fd_close) (bal, full)
    | inr (a, found) ↦
        rw (found, fd_close)
          (
            λ b. file_put-files (some a) b s (count b (set t.slots (index_of fd) none) + held b) (
                ground
                  (arith, bal b, count-set b t.slots (index_of fd) none, fd_get-slot t fd a found)),
            length-set t.slots (index_of fd) none ∙ full,
          )
  ]

  dup_over-Counts :
      (held : ℕ → ℕ) (t : FdTable) (a newfd b : ℕ) (cloexec : Bool) (s : Store W)
      → IsBalanced held t.slots s
      → is_live (s.files a) ≡ true
      → newfd < length t.slots
      → let (t', s') = dup_over release t a newfd cloexec s in
        Counts (s'.files b) (count b t'.slots + held b)
  unfolding dup_over
  dup_over-Counts held t a newfd b cloexec s bal live room =
      file_put-files (get_or t.slots newfd none) b (file_get release a s)
        (count b (set t.slots newfd (some a)) + held b)
        (ground (
          arith,
          file_get-IsBalanced held t.slots a s bal live b,
          count-set b t.slots newfd (some a),
        ))

  length-dup_over :
      (t : FdTable) (a newfd : ℕ) (cloexec : Bool) (s : Store W)
      → length (dup_over release t a newfd cloexec s).0.slots ≡ length t.slots
  unfolding dup_over
  length-dup_over t a newfd cloexec s = length-set t.slots newfd (some a)

  pub live_of_slot :
      (held : ℕ → ℕ) (t : FdTable) (fd : ℤ) (a : ℕ) (s : Store W)
      → IsBalanced held t.slots s
      → fd_get t fd ≡ some a
      → is_live (s.files a) ≡ true
  live_of_slot held t fd a s bal found =
      ground (arith, bal a, refers-le-count a t.slots (index_of fd) (fd_get-slot t fd a found).0)

  -- In a table of 1024 slots whose reference counts are right: `fd_dup2` keeps every reference
  -- count right on each of its branches, also where the new descriptor already refers to the same
  -- description or to another one.
  pub fd_dup2-IsBalanced :
      (held : ℕ → ℕ) (t : FdTable) (oldfd newfd : ℤ) (cloexec : Bool) (s : Store W)
      → length t.slots ≡ nr_open_default
      → IsBalanced held t.slots s
      → let (r, t', s') = fd_dup2 release t oldfd newfd cloexec s in
        IsBalanced held t'.slots s' × (length t'.slots ≡ nr_open_default)
  unfolding fd_dup2
  fd_dup2-IsBalanced held t oldfd (negsuc n) cloexec s full bal = (bal, full)
  fd_dup2-IsBalanced held t oldfd (pos newfd) cloexec s full bal =
      elim (Option-cases (fd_get t oldfd)) [
        | inl closed ↦ rw (closed, fd_dup2) (bal, full)
        | inr (a, found) ↦ elim (Bool-cases (ltb newfd nr_open_default)) [
          | inr big ↦ rw (found, big, fd_dup2) (bal, full)
          | inl low ↦ elim (Bool-cases (index_of oldfd == newfd)) [
            | inl same ↦ rw (found, low, same, fd_dup2) (bal, full)
            | inr other ↦
                rw (found, low, other, fd_dup2)
                  (
                    λ b.
                        dup_over-Counts held t a newfd b cloexec s bal
                          (live_of_slot held t oldfd a s bal found) (ground arith),
                    length-dup_over t a newfd cloexec s ∙ full,
                  )
          ]
        ]
      ]

  release_slots-IsBalanced :
      (held : ℕ → ℕ) (slots : List (Option ℕ)) (s : Store W)
      → IsBalanced held slots s
      → (b : ℕ)
      → (count b (release_slots release slots s).0 ≡ 0)
        × Counts ((release_slots release slots s).1.files b) (held b)
  unfolding release_slots
  release_slots-IsBalanced held [] s bal b = (refl, ground (arith, bal b))
  release_slots-IsBalanced held (slot ∷ slots) s bal b =
      let (gone, counts) =
        release_slots-IsBalanced held slots (file_put release slot s)
          (λ c. file_put-files slot c s (count c slots + held c) (ground (arith, bal c))) b in
      (omega arith, counts)

  -- In a table whose reference counts are right: `fdtable_release` gives back every descriptor's
  -- reference: afterwards no slot refers to any description, and those are freed that nobody else
  -- holds.
  pub fdtable_release-IsBalanced :
      (held : ℕ → ℕ) (t : FdTable) (s : Store W)
      → IsBalanced held t.slots s
      → let (t', s') = fdtable_release release t s in
        (b : ℕ) → (count b t'.slots ≡ 0) × Counts (s'.files b) (held b)
  unfolding fdtable_release
  fdtable_release-IsBalanced held t s bal b = release_slots-IsBalanced held t.slots s bal b

-- The empty table that `fdtable_init` makes is balanced when no description is allocated.
pub fdtable_init-IsBalanced :
    {W : Type 0} (s : Store W)
    → ((a : ℕ) → s.files a ≡ none)
    → IsBalanced (λ a. 0) fdtable_init.slots s
unfolding fdtable_init
fdtable_init-IsBalanced s empty a = ground (arith, empty a, count-replicate a nr_open_default)
