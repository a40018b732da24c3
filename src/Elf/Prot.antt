-- ===== src/Elf/Prot.antt =====
-- core/binfmt_elf.c, map_load: the protection that a loaded segment's pages end up with.
use elf_sysv_nt.Common.{
  ℕ, ◌+◌, ◌%◌, ◌<◌, ◌≡◌, Bool, true, false, ◌&&◌, Option, none, some, List, CString,
}
use elf_sysv_nt.Common.{ltb, leb, if◌then◌else◌}
use elf_sysv_nt.Vma.{Map}
use elf_sysv_nt.Elf.{Phdr, Substrate, prot_of}

-- The protection at an address once a range has been given `prot`.
abbrev pub with_prot : {S : Type 0} → (S → ℕ → ℕ) → S → (addr len prot a : ℕ) → ℕ
with_prot prot_at s addr len prot a = if leb addr a && ltb a (addr + len) then prot else prot_at s a

abbrev pub MapsProt : {S : Type 0} → (S → ℕ → ℕ) → S → (addr len prot : ℕ) → Option ℕ × S → Type 0
MapsProt prot_at s addr len prot (none, s') = Unit
MapsProt prot_at s addr len prot (some base, s') =
    (base ≡ addr) × ((a : ℕ) → prot_at s' a ≡ with_prot prot_at s addr len prot a)

abbrev pub SetsProt : {S : Type 0} → (S → ℕ → ℕ) → S → ℕ → ℕ → ℕ → Bool × S → Type 0
SetsProt prot_at s addr len prot (false, s') = Unit
SetsProt prot_at s addr len prot (true, s') =
    (a : ℕ) → prot_at s' a ≡ with_prot prot_at s addr len prot a

-- What substrate.h documents of protections: `as_map` at a base that is asked for realises the range
-- there, it and `as_protect` give a range of whole pages the protection asked for and leave the rest,
-- and a copy changes none.
pub record ProtLaws {S : Type 0} (sub : Substrate S) (prot_at : S → ℕ → ℕ) : Type 0 where
  pub map_prot :
      (addr len prot : ℕ) (s : S)
      → 0 < addr
      → addr % 4096 ≡ 0
      → len % 4096 ≡ 0
      → MapsProt prot_at s addr len prot (sub.as_map addr len prot s)
  pub copy_prot :
      (va : ℕ) (bytes : List ℕ) (s : S) (a : ℕ)
      → prot_at (sub.copy_out va bytes s).1 a ≡ prot_at s a
  pub protect_prot :
      (addr len prot : ℕ) (s : S)
      → addr % 4096 ≡ 0
      → len % 4096 ≡ 0
      → SetsProt prot_at s addr len prot (sub.as_protect addr len prot s)

module _ {S : Type 0} (sub : Substrate S) (name : CString) (prot_at : S → ℕ → ℕ)
    (laws : ProtLaws sub prot_at) where
  abbrev fill_end : Bool → Bool → S → S → Map → Map → Bool × (S × Map)
  fill_end copied protected s1 s2 m m' =
      if copied
      then (if protected then (true, (s2, m')) else (false, (s2, m)))
      else (false, (s1, m))

  -- The range of `len` bytes at `start` has the segment's protection, and the rest what it had.
  abbrev pub HasProt : ℕ → ℕ → Phdr → S → S → Type 0
  HasProt start len ph s s' =
      (a : ℕ) → prot_at s' a ≡ with_prot prot_at s start len (prot_of ph.flags) a

  abbrev load_end : Bool → Bool → S → Map → Bool × (S × Map) → Bool × (S × Map)
  load_end short empty s m r =
      if short then (false, (s, m)) else if empty then (true, (s, m)) else r
