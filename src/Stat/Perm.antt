-- ===== src/Stat/Perm.antt =====
-- The permission check of core/vfs.c against its rule bit by bit, and the modes that it is given.
use elf_sysv_nt.Common.{
  ℕ, zero, suc, ◌/◌, ◌%◌, ◌<◌, ◌≡◌, ◌↔◌, refl, Bool, true, false, not, ◌&&◌, ◌||◌,
}
use elf_sysv_nt.Common.{
  Bool-cases, inl, inr, ◌≤◌, Option, arith, ◌==◌, if◌then◌else◌, has_bit, CString,
}
use elf_sysv_nt.Common.Errno.{ok, err, eacces}
use elf_sysv_nt.Host.{HostStat}
use elf_sysv_nt.Stat.{KStat, Cred, may, mode_of, kind_type, type_of, is_dir}
use Prim.Native.Nat.{bit_and}

-- Which of the three permission triples applies.
abbrev pub triple_of : Cred → KStat → ℕ
triple_of c st =
    if c.euid == st.uid
    then st.mode / 64 % 8
    else if c.egid == st.gid
    then st.mode / 8 % 8
    else st.mode % 8

triple_of-lt : (c : Cred) (st : KStat) → triple_of c st < 8
triple_of-lt c st = ground arith

-- Each access asked for is granted.
abbrev pub grants : ℕ → ℕ → Bool
grants perm mask =
    (not (has_bit mask 4) || has_bit perm 4)
    && ((not (has_bit mask 2) || has_bit perm 2) && (not (has_bit mask 1) || has_bit perm 1))

-- A test that every number up to the bound passes.
passes_to : (ℕ → Bool) → ℕ → Bool
passes_to test zero = test zero
passes_to test (suc bound) = passes_to test bound && test (suc bound)

passes-at :
    (test : ℕ → Bool) (bound k : ℕ) → k ≤ bound → passes_to test bound ≡ true → test k ≡ true
unfolding passes_to
passes-at test zero zero le passed = passed
passes-at test zero (suc k) le passed = absurd (omega arith)
passes-at test (suc bound) k le passed = elim (Bool-cases (k == suc bound)) [
  | inl last ↦ ground (arith, passed)
  | inr below ↦ passes-at test bound k (ground arith) (ground (arith, passed))
]

same : Bool → Bool → Bool
same true b = b
same false b = not b

eq_of_same : (a b : Bool) → same a b ≡ true → a ≡ b
unfolding same
eq_of_same true true h = refl
eq_of_same true false h = cc
eq_of_same false true h = cc
eq_of_same false false h = refl

mask_agrees : ℕ → ℕ → Bool
mask_agrees mask perm = same (bit_and mask perm == mask) (grants perm mask)

masks_agree : passes_to (λ mask. passes_to (mask_agrees mask) 7) 7 ≡ true
unfolding passes_to mask_agrees same
masks_agree = refl

bit_and-grants :
    (mask perm : ℕ) → mask < 8 → perm < 8 → (bit_and mask perm == mask) ≡ grants perm mask
unfolding mask_agrees
bit_and-grants mask perm in_mask in_perm =
    let row : passes_to (mask_agrees mask) 7 ≡ true =
      passes-at (λ m. passes_to (mask_agrees m) 7) 7 mask (omega arith) masks_agree in
    eq_of_same (bit_and mask perm == mask) (grants perm mask)
      (passes-at (mask_agrees mask) 7 perm (omega arith) row)

-- For a mask of the three accesses: a process that is not root is allowed an access by its
-- effective ids exactly when each of the read, write and execute accesses asked for is granted by
-- the one triple that applies: the owner's, else the group's, else the others'.
pub may-user :
    (c : Cred) (st : KStat) (mask : ℕ)
    → mask < 8
    → 0 < c.euid
    → may c st mask true ≡ (if grants (triple_of c st) mask then ok tt else err eacces)
unfolding may
may-user c st mask h user =
    let not_root : (c.euid == 0) ≡ false = ground arith in
    ground (arith, bit_and-grants mask (triple_of c st) h (triple_of-lt c st))

-- Root is allowed everything but the execution of a file that nobody may execute.
pub may-root :
    (c : Cred) (st : KStat) (mask : ℕ)
    → c.euid ≡ 0
    → (may c st mask true ≡ err eacces) ↔ (
        (has_bit mask 1 ≡ true)
        × (is_dir st.mode ≡ false)
        × (has_bit st.mode 64 ≡ false)
        × (has_bit st.mode 8 ≡ false)
        × (has_bit st.mode 1 ≡ false))
unfolding may
may-root c st mask root =
    (λ e. (ground arith, ground arith, ground arith, ground arith, ground arith), λ e. ground arith)

-- On every branch the type bits of the mode are those of the object's kind on NTFS, whatever the LX
-- attribute says: an attribute left behind never turns a plain file into a device.
pub type_of-mode_of :
    (hs : HostStat) (name : Option CString) → type_of (mode_of hs name) ≡ kind_type hs.kind
unfolding mode_of kind_type
type_of-mode_of hs name = ground arith
