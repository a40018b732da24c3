-- ===== src/Exec/Tests.antt =====
-- Runs of the initial stack with two arguments, and of the vDSO's page.
use elf_sysv_nt.Common.{
  ℕ, ◌+◌, ◌-◌, if◌then◌else◌, ◌%◌, ◌<◌, ◌≡◌, refl, Bool, true, false, some, List, [], ◌∷◌, map,
  arith,
}
use elf_sysv_nt.Common.{CString, codes, length, ℤ, pos}
use elf_sysv_nt.Elf.{LoadInfo, ehdr, phdrs, phdr_at}
use elf_sysv_nt.Vma.{BackingKind, vdso, vma_record, overlaps, place}
use elf_sysv_nt.Exec.{
  vdso_map, vdso_fill, enter_on, enter_stack, stk_size, stack_image, auxv, vdso_image, Regs,
  ThreadSubstrate, exec_enter, push_strings, push_random, align, push, skip,
}
use elf_sysv_nt.Exec.Strings.{args_of, after_args}
use elf_sysv_nt.Exec.Startup.{
  args_of-stack_image, after_args-stack_image, stack_image-IsAligned, random_va,
}

abbrev info : LoadInfo
info = record {
  entry = 0x401000;
  phdr_va = 0x400040;
  phent = 56;
  phnum = 4;
  load_base = 0x400000;
  load_end = 0x405000;
}

abbrev argv : List CString
argv = codes "ls" ∷ codes "/proc" ∷ []

args_of-stack_image_example :
    args_of 0x10000000 (stack_image 0x10000000 info 0x7000 0x8000 argv) ≡ argv
args_of-stack_image_example =
    args_of-stack_image 0x10000000 0x7000 0x8000 info argv (omega arith) (omega arith) (
      (omega arith, (omega arith, tt)),
      ((omega arith, (omega arith, (omega arith, (omega arith, (omega arith, tt))))), tt),
    )

after_args-stack_image_example :
    after_args 20 (stack_image 0x10000000 info 0x7000 0x8000 argv)
    ≡ 0 ∷ 0 ∷ auxv info 0x7000 (random_va 0x10000000 argv) 0x8000
after_args-stack_image_example =
    after_args-stack_image 0x10000000 0x7000 0x8000 info argv (omega arith)
      (omega arith, (omega arith, (omega arith, (omega arith, (omega arith, (omega arith, tt))))))

stack_image-IsAligned_example :
    ((stack_image 0x10000000 info 0x7000 0x8000 argv).sp % 16 ≡ 0)
    × ((stack_image 0x10000000 info 0x7000 0x8000 argv).sp < stk_size)
stack_image-IsAligned_example =
    stack_image-IsAligned 0x10000000 0x7000 0x8000 info argv (omega arith)

-- Two arguments make the count of words odd, so that a word of padding is above them.
span_test : length (stack_image 0x10000000 info 0x7000 0x8000 argv).span ≡ 224
unfolding stack_image push_strings push_random align push skip
span_test = refl

vdso_length : length vdso_image ≡ 4096
vdso_length = refl

-- The loader of static images reads the page's headers.
vdso_headers :
    map (λ ph. ph.type) (phdrs vdso_image 56 (ehdr vdso_image).phoff (ehdr vdso_image).phnum)
    ≡ 1 ∷ 2 ∷ []
unfolding phdrs ehdr phdr_at
vdso_headers = refl

abbrev is_vdso : BackingKind → Bool
is_vdso vdso = true
is_vdso _ = false

-- Every call succeeds; the state is the registers the thread starts with.
abbrev sub : ThreadSubstrate Regs
sub = record {
  as_map = λ kind len prot s. (some (if is_vdso kind then 0x8000 else 0x10000000), s);
  copy_out = λ at bytes s. (true, s);
  as_protect = λ at len prot s. (true, s);
  as_unmap = λ at len s. s;
  thread_start = λ tid regs tls s. (pos 0, regs);
}

started : Regs
started = record { rip = 0x401000; rsp = 0x10000000 + 0x800000 - 224 }

abbrev ran : ℤ × ℕ × Regs
ran =
    let (r, m, s) = exec_enter sub true info 0x7000 argv 1 [] (record { rip = 0; rsp = 0 }) in
    (r, length m, s)

exec_test : ran ≡ (pos 0, 2, started)
unfolding exec_enter enter_stack enter_on vdso_map vdso_fill stack_image push_strings push_random
    align push skip vma_record started overlaps place
exec_test = refl
