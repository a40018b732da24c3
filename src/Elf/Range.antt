-- ===== src/Elf/Range.antt =====
-- core/binfmt_elf.c: the page ranges of the segments, and the bounds that elf_load reports.
use elf_sysv_nt.Common.{ℕ, ◌+◌, ◌-◌, ◌%◌, ◌≤◌, ◌<◌, ◌≡◌, Bool, true, false, not, ◌&&◌, ◌||◌}
use elf_sysv_nt.Common.{
  Option, none, some, List, [], ◌∷◌, CString, arith, ltb, leb, ◌==◌, if◌then◌else◌, Bool-cases,
}
use elf_sysv_nt.Common.{inl, inr, All, length}
use mathlib.Core.Path.{subst, sym}
use elf_sysv_nt.Vma.{Map, u64}
use elf_sysv_nt.Elf.{Phdr, Substrate, Span, LoadInfo, pt_load, seg_start, seg_end, widen, map_load}
use elf_sysv_nt.Elf.{load_loop, load_result, elf_load, ehdr, phdrs, identified, dyn_base}

-- When the segment's last byte and a page lie below 2^64, its page range is aligned, covers the
-- segment, and reaches less than a page beyond it on either side.
pub seg_range :
    (bias : ℕ) (ph : Phdr)
    → ph.vaddr + bias + ph.memsz + 4096 < u64
    → (seg_start bias ph % 4096 ≡ 0)
      × (seg_end bias ph % 4096 ≡ 0)
      × (seg_start bias ph ≤ ph.vaddr + bias)
      × (ph.vaddr + bias < seg_start bias ph + 4096)
      × (ph.vaddr + bias + ph.memsz ≤ seg_end bias ph)
      × (seg_end bias ph < ph.vaddr + bias + ph.memsz + 4096)
seg_range bias ph room =
    (omega arith, omega arith, omega arith, omega arith, omega arith, omega arith)

-- A header that is not loaded, or whose pages lie between the bounds.
abbrev pub within : ℕ → ℕ → ℕ → Phdr → Bool
within bias lo hi ph =
    not (ph.type == pt_load) || (leb lo (seg_start bias ph) && leb (seg_end bias ph) hi)

module _ {S : Type 0} (sub : Substrate S) (name : CString) where
  abbrev Covered : ℕ → List Phdr → Span → Option Span → Type 0
  Covered bias phs sp none = Unit
  Covered bias phs sp (some sp') =
      (sp'.lo ≤ sp.lo)
      × (sp.hi ≤ sp'.hi)
      × (sp.mapped ≤ sp'.mapped)
      × All (λ ph. within bias sp'.lo sp'.hi ph ≡ true) phs

  skip-Covered :
      (bias : ℕ) (ph : Phdr) (rest : List Phdr) (sp : Span) (o : Option Span)
      → (ph.type == pt_load) ≡ false
      → Covered bias rest sp o
      → Covered bias (ph ∷ rest) sp o
  skip-Covered bias ph rest sp none other h = tt
  skip-Covered bias ph rest sp (some sp') other h = (h.0, h.1, h.2, (ground arith, h.3))

  load-Covered :
      (bias : ℕ) (ph : Phdr) (rest : List Phdr) (sp : Span) (o : Option Span)
      → Covered bias rest (widen bias ph sp) o
      → Covered bias (ph ∷ rest) sp o
  load-Covered bias ph rest sp none h = tt
  load-Covered bias ph rest sp (some sp') h = (
    ground (arith, h.0),
    ground (arith, h.1),
    ground (arith, h.2),
    (ground (arith, h.0, h.1), h.3),
  )

  mapped-Covered :
      (bias : ℕ) (ph : Phdr) (rest : List Phdr) (sp : Span) (w : S × Map) (r : Bool × (S × Map))
      (next : Option Span × (S × Map)) (short : Bool)
      → Covered bias rest (widen bias ph sp) next.0
      → Covered bias
          (ph ∷ rest)
          sp
          (if◌then◌else◌ {A = Option Span × (S × Map)} short
            (none, w)
            (if r.0 then next else (none, r.1))).0
  mapped-Covered bias ph rest sp w r next true h = tt
  mapped-Covered bias ph rest sp w (true, w') next false h = load-Covered bias ph rest sp next.0 h
  mapped-Covered bias ph rest sp w (false, w') next false h = tt

  load_loop-Covered :
      (image : List ℕ) (bias : ℕ) (phs : List Phdr) (sp : Span) (w : S × Map)
      → Covered bias phs sp (load_loop sub name image bias phs sp w).0
  unfolding load_loop
  load_loop-Covered image bias [] sp w = (omega arith, omega arith, omega arith, tt)
  load_loop-Covered image bias (ph ∷ rest) sp w = elim (Bool-cases (ph.type == pt_load)) [
    | inl loads ↦ rw loads (
        mapped-Covered bias ph rest sp w (map_load sub name image bias ph w)
          (load_loop sub name image bias rest (widen bias ph sp)
            (map_load sub name image bias ph w).1)
          (ltb (length image) ((ph.offset + ph.filesz) % u64))
          (load_loop-Covered image bias rest (widen bias ph sp)
            (map_load sub name image bias ph w).1))
    | inr skips ↦ rw skips (
        skip-Covered bias ph rest sp (load_loop sub name image bias rest sp w).0 skips
          (load_loop-Covered image bias rest sp w))
  ]

  report :
      (image : List ℕ) (bias : ℕ) (phs : List Phdr) (sp : Span) (o : Option Span × (S × Map))
      (info : LoadInfo)
      → Covered bias phs sp o.0
      → (load_result sub name image bias o).0 ≡ some info
      → All (λ ph. within bias info.load_base info.load_end ph ≡ true) phs
  report image bias phs sp (none, w) info h e = cc
  report image bias phs sp (some sp', w) info h e =
      let lo : info.load_base ≡ sp'.lo = ground arith in
      let hi : info.load_end ≡ sp'.hi = ground arith in
      subst (λ b. All (λ ph. within bias b info.load_end ph ≡ true) phs) (sym lo)
        (subst (λ b. All (λ ph. within bias sp'.lo b ph ≡ true) phs) (sym hi) h.3)

  -- When `elf_load` succeeds, the page range of every loadable segment in the program headers lies
  -- between the `load_base` and the `load_end` that it reports.
  pub elf_load-covers :
      (image : List ℕ) (w : S × Map) (info : LoadInfo)
      → (elf_load sub name image w).0 ≡ some info
      → All
          (λ ph.
            within (if (ehdr image).type == 3 then dyn_base else 0) info.load_base info.load_end ph
            ≡ true)
          (phdrs image (ehdr image).phentsize (ehdr image).phoff (ehdr image).phnum)
  unfolding elf_load
  elf_load-covers image w info e =
      let eh = ehdr image in
      let bias = if eh.type == 3 then dyn_base else 0 in
      let phs = phdrs image eh.phentsize eh.phoff eh.phnum in
      let start : Span = record { lo = u64 - 1; hi = 0; mapped = 0 } in
      let o = load_loop sub name image bias phs start w in
      elim (Bool-cases (identified image)) [
        | inl good ↦
            report image bias phs start o info (load_loop-Covered image bias phs start w)
              (ground (arith, e))
        | inr bad ↦ absurd (ground (arith, e))
      ]
