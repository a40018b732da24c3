-- ===== src/Vma/Tests.antt =====
-- core/vma.c on a small process: a program's text, its stack, and a page put between them.
use elf_sysv_nt.Common.{ℕ, suc, ◌+◌, ◌≤◌, ◌<◌, ◌≡◌, refl, ◌↔◌, ◌⊎◌, some, none, [], ◌∷◌}
use elf_sysv_nt.Common.{arith, codes, length, take}
use elf_sysv_nt.Vma.{Vma, Map, anon, file_backing, stack, u64, overlaps, place, entry, vma_record}
use elf_sysv_nt.Vma.Order.{IsOrdered, owners, vma_record-IsOrdered, owners-vma_record}
use elf_sysv_nt.Vma.Order.{vma_record-none_iff}
use elf_sysv_nt.Vma.Render.{vma_render_maps, render_from, line_of, lines, perms, hex_padded}
use elf_sysv_nt.Vma.Render.{vma_render_maps_lem}

abbrev text : Vma
text = entry 0x400000 0x401000 5 file_backing 0 (codes "/bin/hello")

abbrev main_stack : Vma
main_stack = entry 0x7f0000000000 0x7f0000800000 3 stack 0 (codes "[stack]")

abbrev two : Map
two = text ∷ main_stack ∷ []

abbrev between : Map
between = text ∷ entry 0x500000 0x501000 3 anon 0 [] ∷ main_stack ∷ []

recorded : vma_record 0x500000 0x1000 3 anon 0 [] two ≡ some between
unfolding vma_record overlaps place
recorded = refl

overlap_refused : vma_record 0x400800 0x1000 3 anon 0 [] two ≡ none
unfolding vma_record overlaps place
overlap_refused = refl

wrap_refused : vma_record 0xfffffffffffff000 0x1000 3 anon 0 [] two ≡ none
unfolding vma_record overlaps place
wrap_refused = refl

-- A buffer of 70 bytes takes the first line only.
text_line :
    vma_render_maps two 80
    ≡ codes "000000400000-000000401000 r-xp 00000000 00:00 0                     /bin/hello\n"
unfolding vma_render_maps render_from line_of perms hex_padded
text_line = refl

two-IsOrdered : IsOrdered two
two-IsOrdered = omega arith

vma_record-IsOrdered_example :
    IsOrdered between × (length between ≡ length two + 1) × (length between ≤ 64)
vma_record-IsOrdered_example =
    vma_record-IsOrdered 0x500000 0x1000 3 anon 0 [] two (omega arith) (omega arith) two-IsOrdered
      (omega arith) recorded

owners-vma_record_example : owners 0x500010 between ≡ 1 + owners 0x500010 two
owners-vma_record_example =
    owners-vma_record 0x500000 0x1000 3 anon 0 [] 0x500010 two (omega arith) (omega arith) recorded

vma_record-none_iff_example : (vma_record 0x400800 0x1000 3 anon 0 [] two ≡ none) ↔ (
    (◌≡◌ {A = ℕ} 0x1000 0)
    ⊎ (u64 ≤ 0x400800 + 0x1000)
    ⊎ (length two ≡ 64)
    ⊎ ((a : ℕ) × (0x400800 ≤ a) × (a < 0x400800 + 0x1000) × (0 < owners a two)))
vma_record-none_iff_example =
    vma_record-none_iff 0x400800 0x1000 3 anon 0 [] two (omega arith) (omega arith) two-IsOrdered

vma_render_maps_lem_example :
    (k : ℕ) × (vma_render_maps two 80 ≡ lines (take k two))
    × (length (lines (take k two)) + 1 ≤ 80)
    × ((k ≡ length two) ⊎ (80 < length (lines (take (suc k) two)) + 1))
vma_render_maps_lem_example = vma_render_maps_lem two 80 (omega arith)
