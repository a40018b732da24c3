-- ===== src/Vma.antt =====
-- core/vma.h and core/vma.c: the core's record of the mapped ranges.
pub mod Order
pub mod Render
mod Tests
use elf_sysv_nt.Common.{
  ℕ, suc, ◌+◌, ◌-◌, ◌%◌, ◌^◌, Bool, true, false, ◌&&◌, ◌||◌, Option, none, some, List, [], ◌∷◌,
  ◌++◌,
}
use elf_sysv_nt.Common.{CString, length, get_elem?, take, drop, ltb, leb, ◌==◌, if◌then◌else◌}

-- `enum sub_backing_kind`
pub data BackingKind : Type 0 where
  anon file_backing section vdso stack : BackingKind

abbrev pub vma_max : ℕ
vma_max = 64

abbrev pub vma_name_max : ℕ
vma_name_max = 64

abbrev pub u64 : ℕ
u64 = 2 ^ 64

pub record Vma : Type 0 where
  pub start : ℕ
  pub end : ℕ
  pub prot : ℕ
  pub kind : BackingKind
  pub offset : ℕ
  pub name : CString

-- `g_vma[0 .. g_n)`; `g_n` is the length.
abbrev pub Map : Type 0
Map = List Vma

pub vma_reset : Map
vma_reset = []

pub vma_count : Map → ℕ
vma_count m = length m

pub vma_at : Map → ℕ → Option Vma
vma_at m i = get_elem? m i

-- The loop that refuses an overlap.
unfoldable pub overlaps : ℕ → ℕ → Map → Bool
overlaps start end [] = false
overlaps start end (v ∷ m) = (ltb start v.end && ltb v.start end) || overlaps start end m

-- The loop that finds the place.
unfoldable pub place : ℕ → Map → ℕ
place start [] = 0
place start (v ∷ m) = if ltb v.start start then suc (place start m) else 0

-- The new entry, with `strncpy` into 64 bytes.
abbrev pub entry : ℕ → ℕ → ℕ → BackingKind → ℕ → CString → Vma
entry start end prot kind offset name = record {
  start = start;
  end = end;
  prot = prot;
  kind = kind;
  offset = offset;
  name = take (vma_name_max - 1) name;
}

-- `none` is the return value -1; the map is then as it was.
unfoldable pub vma_record : ℕ → ℕ → ℕ → BackingKind → ℕ → CString → Map → Option Map
vma_record start len prot kind offset name m =
    let end = (start + len) % u64 in
    let at = place start m in
    if (len == 0) || (ltb end start) || (length m == vma_max)
    then none
    else if overlaps start end m
    then none
    else some (take at m ++ (entry start end prot kind offset name ∷ drop at m))
