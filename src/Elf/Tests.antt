-- ===== src/Elf/Tests.antt =====
-- core/binfmt_elf.c on an image of one executable segment, with a substrate whose state is the
-- protection of each address.
use elf_sysv_nt.Common.{ℕ, ◌+◌, ◌≡◌, refl, true, none, some, List, [], ◌∷◌, ◌++◌}
use elf_sysv_nt.Common.{codes, leb, ltb, ◌&&◌, if◌then◌else◌, ◌==◌, All}
use elf_sysv_nt.Vma.{Map, vma_record, overlaps, place}
use elf_sysv_nt.Elf.{Phdr, Substrate, LoadInfo, map_load, elf_load, phdr_at, phdrs, ehdr}
use elf_sysv_nt.Elf.{
  dyn_base, prot_of, copy_file, protect, fill, record_seg, load_loop, identified, find_phdr,
}
use elf_sysv_nt.Elf.Range.{elf_load-covers, within}

abbrev Prots : Type 0
Prots = ℕ → ℕ

abbrev set_prot : ℕ → ℕ → ℕ → Prots → Prots
set_prot addr len prot s a = if leb addr a && ltb a (addr + len) then prot else s a

abbrev flat : Substrate Prots
flat = record {
  as_map = λ addr len prot s. (some addr, set_prot addr len prot s);
  copy_out = λ va bytes s. (true, s);
  as_protect = λ addr len prot s. (true, set_prot addr len prot s);
}

abbrev prot_at : Prots → ℕ → ℕ
prot_at s a = s a

abbrev blank : Prots × Map
blank = ((λ a. 0), [])

-- The ELF header, and one program header: 120 bytes from 0x400000 on, readable and executable.
abbrev image : List ℕ
image =
    (127 ∷ 69 ∷ 76 ∷ 70 ∷ 2 ∷ 1 ∷ 1 ∷ 0 ∷ 0 ∷ 0 ∷ 0 ∷ 0 ∷ 0 ∷ 0 ∷ 0 ∷ 0 ∷ 2 ∷ 0 ∷ 62 ∷ 0 ∷ 1 ∷ 0 ∷ 0
      ∷ 0 ∷ 120 ∷ 0 ∷ 64 ∷ 0 ∷ 0 ∷ 0 ∷ 0 ∷ 0 ∷ 64 ∷ 0 ∷ 0 ∷ 0 ∷ 0 ∷ 0 ∷ 0 ∷ 0 ∷ 0 ∷ 0 ∷ 0 ∷ 0 ∷ 0
      ∷ 0 ∷ 0 ∷ 0 ∷ 0 ∷ 0 ∷ 0 ∷ 0 ∷ 64 ∷ 0 ∷ 56 ∷ 0 ∷ 1 ∷ 0 ∷ 0 ∷ 0 ∷ 0 ∷ 0 ∷ 0 ∷ 0 ∷ [])
    ++ (1 ∷ 0 ∷ 0 ∷ 0 ∷ 5 ∷ 0 ∷ 0 ∷ 0 ∷ 0 ∷ 0 ∷ 0 ∷ 0 ∷ 0 ∷ 0 ∷ 0 ∷ 0 ∷ 0 ∷ 0 ∷ 64 ∷ 0 ∷ 0 ∷ 0 ∷ 0
        ∷ 0 ∷ 0 ∷ 0 ∷ 64 ∷ 0 ∷ 0 ∷ 0 ∷ 0 ∷ 0 ∷ 120 ∷ 0 ∷ 0 ∷ 0 ∷ 0 ∷ 0 ∷ 0 ∷ 0 ∷ 120 ∷ 0 ∷ 0 ∷ 0 ∷ 0
        ∷ 0 ∷ 0 ∷ 0 ∷ 0 ∷ 16 ∷ 0 ∷ 0 ∷ 0 ∷ 0 ∷ 0 ∷ 0 ∷ [])

abbrev text_segment : Phdr
text_segment = record {
  type = 1;
  flags = 5;
  offset = 0;
  vaddr = 0x400000;
  filesz = 120;
  memsz = 120;
}

abbrev expected : LoadInfo
expected = record {
  entry = 0x400078;
  phdr_va = 0x400040;
  phent = 56;
  phnum = 1;
  load_base = 0x400000;
  load_end = 0x401000;
}

loads : (elf_load flat (codes "a") image blank).0 ≡ some expected
unfolding elf_load ehdr phdrs phdr_at identified load_loop map_load fill copy_file protect
    record_seg find_phdr prot_of vma_record overlaps place
loads = refl

truncated : (elf_load flat (codes "a") (0x7f ∷ []) blank).0 ≡ none
unfolding elf_load identified ehdr
truncated = refl

elf_load-covers_example :
    All
      (λ ph. within (if (ehdr image).type == 3 then dyn_base else 0) 0x400000 0x401000 ph ≡ true)
      (phdrs image (ehdr image).phentsize (ehdr image).phoff (ehdr image).phnum)
elf_load-covers_example = elf_load-covers flat (codes "a") image blank expected loads
