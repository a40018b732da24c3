-- ===== src/Elf.antt =====
-- core/binfmt_elf.c and core/binfmt_elf.h: the loader of static ELF images. The image is a list of
-- bytes, and its headers are read at their offsets. Additions wrap at 2^64 as they do in C. The
-- substrate's calls are the fields of `Substrate`, which the theorems take as a parameter.
pub mod Prot
pub mod Range
mod Tests
use elf_sysv_nt.Common.Bytes.{field}
use elf_sysv_nt.Common.{
  ℕ, zero, suc, ◌+◌, ◌-◌, ◌*◌, ◌/◌, ◌%◌, ◌^◌, Bool, true, false, not, ◌&&◌, ◌||◌, Option, none,
  some,
}
use elf_sysv_nt.Common.{List, [], ◌∷◌, CString, length, take, drop, get_or, ltb, leb, ◌==◌, has_bit}
use elf_sysv_nt.Common.{if◌then◌else◌}
use elf_sysv_nt.Vma.{u64, Map, vma_record, anon, file_backing}

abbrev pub page : ℕ
page = 4096

-- `ROUND_DN` and `ROUND_UP`
abbrev pub round_dn : ℕ → ℕ
round_dn x = x / page * page

abbrev pub round_up : ℕ → ℕ
round_up x = round_dn ((x + (page - 1)) % u64)

-- The fields of `struct elf64_ehdr` that the loader reads.
pub record Ehdr : Type 0 where
  pub type : ℕ
  pub machine : ℕ
  pub entry : ℕ
  pub phoff : ℕ
  pub phentsize : ℕ
  pub phnum : ℕ

unfoldable pub ehdr : List ℕ → Ehdr
ehdr image = record {
  type = field image 16 2;
  machine = field image 18 2;
  entry = field image 24 8;
  phoff = field image 32 8;
  phentsize = field image 54 2;
  phnum = field image 56 2;
}

-- The fields of `struct elf64_phdr` that the loader reads.
pub record Phdr : Type 0 where
  pub type : ℕ
  pub flags : ℕ
  pub offset : ℕ
  pub vaddr : ℕ
  pub filesz : ℕ
  pub memsz : ℕ

unfoldable pub phdr_at : List ℕ → ℕ → Phdr
phdr_at image at = record {
  type = field image at 4;
  flags = field image (at + 4) 4;
  offset = field image (at + 8) 8;
  vaddr = field image (at + 16) 8;
  filesz = field image (at + 32) 8;
  memsz = field image (at + 40) 8;
}

-- The `n` program headers from `at` on.
unfoldable pub phdrs : List ℕ → ℕ → ℕ → ℕ → List Phdr
phdrs image size at zero = []
phdrs image size at (suc n) = phdr_at image at ∷ phdrs image size ((at + size) % u64) n

abbrev pub pt_load : ℕ
pt_load = 1

abbrev pub dyn_base : ℕ
dyn_base = 0x555555554000

-- SUB_PROT_READ is 1, SUB_PROT_WRITE 2 and SUB_PROT_EXEC 4; PF_X is 1, PF_W 2 and PF_R 4.
unfoldable pub prot_of : ℕ → ℕ
prot_of flags =
    (if has_bit flags 4 then 1 else 0)
    + (if has_bit flags 2 then 2 else 0)
    + (if has_bit flags 1 then 4 else 0)

-- `prot | SUB_PROT_WRITE`
abbrev pub writable : ℕ → ℕ
writable prot = if has_bit prot 2 then prot else prot + 2

-- `as_map` of an anonymous range at a requested base, which gives the realised base or fails,
-- `user_copy_out` and `as_protect`, which say whether they succeed.
pub record Substrate (S : Type 0) : Type 0 where
  pub as_map : ℕ → ℕ → ℕ → S → Option ℕ × S
  pub copy_out : ℕ → List ℕ → S → Bool × S
  pub as_protect : ℕ → ℕ → ℕ → S → Bool × S

-- `struct load_info`
pub record LoadInfo : Type 0 where
  pub entry : ℕ
  pub phdr_va : ℕ
  pub phent : ℕ
  pub phnum : ℕ
  pub load_base : ℕ
  pub load_end : ℕ

-- The first and the last but one address of a segment's pages.
abbrev pub seg_va : ℕ → Phdr → ℕ
seg_va bias ph = (ph.vaddr + bias) % u64

abbrev pub seg_start : ℕ → Phdr → ℕ
seg_start bias ph = round_dn (seg_va bias ph)

abbrev pub seg_end : ℕ → Phdr → ℕ
seg_end bias ph = round_up ((seg_va bias ph + ph.memsz) % u64)

-- Unsigned subtraction.
abbrev pub sub64 : ℕ → ℕ → ℕ
sub64 a b = (a + (u64 - b)) % u64

-- The identification and the place of the program headers.
unfoldable pub identified : List ℕ → Bool
identified image =
    let eh = ehdr image in
    leb 64 (length image)
    && ((get_or image 0 0 == 0x7f)
        && ((get_or image 1 0 == b'E')
            && ((get_or image 2 0 == b'L')
                && ((get_or image 3 0 == b'F')
                    && ((get_or image 4 0 == 2)
                        && ((get_or image 5 0 == 1)
                            && ((eh.machine == 62)
                                && (((eh.type == 2) || (eh.type == 3))
                                    && (not (eh.phoff == 0)
                                        && (leb 56 eh.phentsize
                                            && leb ((eh.phoff + eh.phnum * eh.phentsize) % u64)
                                                (length image)))))))))))

-- The state of the segment loop: the lowest and highest address so far, and how many are mapped.
pub record Span : Type 0 where
  pub lo : ℕ
  pub hi : ℕ
  pub mapped : ℕ

abbrev pub widen : ℕ → Phdr → Span → Span
widen bias ph sp = record {
  lo = if ltb (seg_start bias ph) sp.lo then seg_start bias ph else sp.lo;
  hi = if ltb sp.hi (seg_end bias ph) then seg_end bias ph else sp.hi;
  mapped = sp.mapped + 1;
}

-- The loop that finds the program headers' own address.
unfoldable pub find_phdr : ℕ → ℕ → List Phdr → ℕ
find_phdr bias phoff [] = 0
find_phdr bias phoff (ph ∷ rest) =
    let later = find_phdr bias phoff rest in
    if (ph.type == pt_load) && (leb ph.offset phoff && ltb phoff ((ph.offset + ph.filesz) % u64))
    then (ph.vaddr + bias + (phoff - ph.offset)) % u64
    else later

module _ {S : Type 0} (sub : Substrate S) (name : CString) where
  -- The copy of the file's bytes, if there are any, at their address.
  unfoldable pub copy_file : List ℕ → Phdr → ℕ → S → Bool × S
  copy_file image ph va s =
      if ltb 0 ph.filesz
      then sub.copy_out va (take ph.filesz (drop ph.offset image)) s
      else (true, s)

  -- The last protection, if it is not the one that the range was filled under.
  unfoldable pub protect : Phdr → ℕ → ℕ → S → Bool × S
  protect ph addr len s =
      let prot = prot_of ph.flags in
      if has_bit prot 2 then (true, s) else sub.as_protect addr len prot s

  -- What the core records of the segment at `addr`; a refusal of the record is not looked at.
  unfoldable pub record_seg : ℕ → Phdr → ℕ → ℕ → Map → Map
  record_seg bias ph addr len m =
      let file = ltb 0 ph.filesz in
      let offset = if file then sub64 ph.offset (seg_va bias ph - seg_start bias ph) else 0 in
      elim (vma_record addr len (prot_of ph.flags) (if file then file_backing else anon) offset
        (if file then name else []) m) [ none ↦ m | some m' ↦ m' ]

  -- After `as_map` gave `addr`.
  unfoldable pub fill : List ℕ → ℕ → Phdr → ℕ → ℕ → S × Map → Bool × (S × Map)
  fill image bias ph len addr (s, m) =
      let (copied, s1) = copy_file image ph (seg_va bias ph) s in
      let (protected, s2) = protect ph addr len s1 in
      if copied
      then (if protected then (true, (s2, record_seg bias ph addr len m)) else (false, (s2, m)))
      else (false, (s1, m))

  abbrev pub filled : List ℕ → ℕ → Phdr → ℕ → Option ℕ × S → Map → Bool × (S × Map)
  filled image bias ph len (none, s) m = (false, (s, m))
  filled image bias ph len (some addr, s) m = fill image bias ph len addr (s, m)

  unfoldable pub map_load : List ℕ → ℕ → Phdr → S × Map → Bool × (S × Map)
  map_load image bias ph (s, m) =
      let len = sub64 (seg_end bias ph) (seg_start bias ph) in
      if ltb ph.memsz ph.filesz
      then (false, (s, m))
      else if len == 0
      then (true, (s, m))
      else filled image bias ph len
          (sub.as_map (seg_start bias ph) len (writable (prot_of ph.flags)) s) m

  -- The loop over the program headers.
  unfoldable pub load_loop : List ℕ → ℕ → List Phdr → Span → S × Map → Option Span × (S × Map)
  load_loop image bias [] sp w = (some sp, w)
  load_loop image bias (ph ∷ rest) sp w =
      let (done, w') = map_load image bias ph w in
      let skipped = load_loop image bias rest sp w in
      let loaded = load_loop image bias rest (widen bias ph sp) w' in
      if ph.type == pt_load
      then (if ltb (length image) ((ph.offset + ph.filesz) % u64)
          then (none, w)
          else (if done then loaded else (none, w')))
      else skipped

  abbrev pub load_result : List ℕ → ℕ → Option Span × (S × Map) → Option LoadInfo × (S × Map)
  load_result image bias (none, w) = (none, w)
  load_result image bias (some sp, w) =
      let eh = ehdr image in
      if sp.mapped == 0 then (none, w) else (
        some (record {
          entry = (eh.entry + bias) % u64;
          phdr_va = find_phdr bias eh.phoff (phdrs image eh.phentsize eh.phoff eh.phnum);
          phent = eh.phentsize;
          phnum = eh.phnum;
          load_base = sp.lo;
          load_end = sp.hi;
        }),
        w,
      )

  unfoldable pub elf_load : List ℕ → S × Map → Option LoadInfo × (S × Map)
  elf_load image w =
      let eh = ehdr image in
      let bias = if eh.type == 3 then dyn_base else 0 in
      let start : Span = record { lo = u64 - 1; hi = 0; mapped = 0 } in
      if identified image
      then load_result image bias
          (load_loop image bias (phdrs image eh.phentsize eh.phoff eh.phnum) start w)
      else (none, w)
