-- ===== src/Exec/Startup.antt =====
-- core/exec.c: reading the initial stack back, as _start does.
use elf_sysv_nt.Common.{
  ℕ, ◌+◌, ◌-◌, ◌*◌, ◌%◌, ◌≤◌, ◌<◌, ◌≡◌, refl, ap, ap₂, ◌∙◌, List, [], ◌∷◌, ◌++◌, map,
}
use elf_sysv_nt.Common.{
  arith, CString, All, length, length-append, drop, replicate, length-replicate,
}
use elf_sysv_nt.Common.Bytes.{le_bytes, le_bytes-put_le}
use elf_sysv_nt.Vma.{u64}
use elf_sysv_nt.Elf.{LoadInfo}
use elf_sysv_nt.Exec.{
  Stack, stk_size, push, push_random, random_bytes, align, skip, words_of, stack_image, auxv,
  vector, put_words,
}
use elf_sysv_nt.Exec.Strings.{
  args_of, after_args, words, string_at, strings_of, pointers_of, total, words-put_words,
  drop-put_words, sub64-below, Extends, Extends-trans, push-Extends, push_strings-Extends,
  push_strings-Shows, length-pointers_of, Shows, Shows-extend, Shows-map, Shows-All,
  length-put_words, align-Extends,
}

abbrev top : Stack
top = record { sp = stk_size; span = [] }

-- The stack below the strings and AT_RANDOM's bytes, aligned.
abbrev base_of_vector : ℕ → List CString → Stack
base_of_vector ub argv = align (length argv) (push_random (strings_of ub argv top))

strings-Shows :
    (ub : ℕ) (argv : List CString)
    → total argv ≤ stk_size
    → ub + stk_size ≤ u64
    → All (All (λ c. 0 < c)) argv
    → Shows ub (strings_of ub argv top) (pointers_of ub argv top) argv
strings-Shows ub argv room high texts = push_strings-Shows ub argv top room (omega arith) high texts

base-Extends :
    (ub : ℕ) (argv : List CString)
    → total argv + 39 ≤ stk_size
    → Extends ub 39 (strings_of ub argv top) (base_of_vector ub argv)
      × (stk_size ≤ (base_of_vector ub argv).sp + total argv + 39)
      × ((base_of_vector ub argv).sp ≤ stk_size)
unfolding Extends push_random
base-Extends ub argv room =
    let strings = strings_of ub argv top in
    let random = push_random strings in
    let first = push_strings-Extends ub argv top (omega (arith, room)) (omega arith) in
    let second =
      push-Extends ub random_bytes strings (omega (arith, first.0, room))
        (omega (arith, first.1)) in
    let third =
      align-Extends ub (length argv) random (omega (arith, first.0, second.0, room))
        (omega (arith, first.1, second.1)) in
    let both = Extends-trans ub 16 23 strings random (base_of_vector ub argv) second third in
    (both, omega (arith, first.0, both.0), omega (arith, first.1, both.1))

length-vector :
    (vas aux : List ℕ) → length (put_words (vector vas aux)) ≡ 8 * (length vas + 3 + length aux)
length-vector vas aux =
    omega (arith, length-put_words (vector vas aux), length-append vas (0 ∷ 0 ∷ aux))

image-Shows :
    (ub gate_addr vdso_base : ℕ) (li : LoadInfo) (argv : List CString)
    → total argv + 8 * length argv + 207 ≤ stk_size
    → ub + stk_size ≤ u64
    → All (All (λ c. 0 < c)) argv
    → Shows ub (stack_image ub li gate_addr vdso_base argv) (pointers_of ub argv top) argv
unfolding Extends push_random stack_image
image-Shows ub gate_addr vdso_base li argv room high texts =
    let strings = strings_of ub argv top in
    let vas = pointers_of ub argv top in
    let base = base_of_vector ub argv in
    let v = vector vas (auxv li gate_addr ((ub + (push_random strings).sp) % u64) vdso_base) in
    let shown = strings-Shows ub argv (omega (arith, room)) high texts in
    let count = (Shows-All ub strings vas argv shown).1 in
    let grown = base-Extends ub argv (omega (arith, room)) in
    let size : length (put_words v) ≡ 8 * length argv + 168 = omega (
      arith,
      length-vector vas (auxv li gate_addr ((ub + (push_random strings).sp) % u64) vdso_base),
      count,
    ) in
    Shows-extend ub (39 + length (put_words v)) strings (push (put_words v) base) vas argv
      (Extends-trans ub 39 (length (put_words v)) strings base (push (put_words v) base) grown.0 (
        push-Extends ub (put_words v) base (omega (arith, size, grown.1, room))
          (omega (arith, grown.2))))
      shown

-- The words of the vector lie at the pointer.
image-span :
    (ub gate_addr vdso_base : ℕ) (li : LoadInfo) (argv : List CString)
    → (stack_image ub li gate_addr vdso_base argv).span
      ≡ put_words (
          vector
            (pointers_of ub argv top)
            (auxv li gate_addr ((ub + (push_random (strings_of ub argv top)).sp) % u64) vdso_base))
        ++ (base_of_vector ub argv).span
unfolding stack_image push
image-span ub gate_addr vdso_base li argv = refl

-- The address of AT_RANDOM's bytes.
abbrev pub random_va : ℕ → List CString → ℕ
random_va ub argv = (ub + (push_random (strings_of ub argv top)).sp) % u64

-- The low word of the vector is argc.
image-argc :
    (ub gate_addr vdso_base : ℕ) (li : LoadInfo) (argv : List CString)
    → length (pointers_of ub argv top) < u64
    → le_bytes 8 (stack_image ub li gate_addr vdso_base argv).span
      ≡ length (pointers_of ub argv top)
image-argc ub gate_addr vdso_base li argv small =
    let vas = pointers_of ub argv top in
    let aux = auxv li gate_addr (random_va ub argv) vdso_base in
    ap (le_bytes 8) (image-span ub gate_addr vdso_base li argv)
    ∙ le_bytes-put_le 8 (length vas)
        (put_words (vas ++ (0 ∷ 0 ∷ aux)) ++ (base_of_vector ub argv).span) small

-- Where the strings, AT_RANDOM's bytes and the vector with its alignment fit the stack, the stack
-- lies below 2^64 and the strings are C strings: the pointers after argc show the strings of argv.
pub args_of-stack_image :
    (ub gate_addr vdso_base : ℕ) (li : LoadInfo) (argv : List CString)
    → total argv + 8 * length argv + 207 ≤ stk_size
    → ub + stk_size ≤ u64
    → All (All (λ c. 0 < c)) argv
    → args_of ub (stack_image ub li gate_addr vdso_base argv) ≡ argv
args_of-stack_image ub gate_addr vdso_base li argv room high texts =
    let image = stack_image ub li gate_addr vdso_base argv in
    let vas = pointers_of ub argv top in
    let shown = image-Shows ub gate_addr vdso_base li argv room high texts in
    let low = Shows-All ub image vas argv shown in
    let aux = auxv li gate_addr (random_va ub argv) vdso_base in
    let rest = (base_of_vector ub argv).span in
    let span = image-span ub gate_addr vdso_base li argv in
    let argc = image-argc ub gate_addr vdso_base li argv (omega (arith, low.1, room)) in
    let pointers : words (length vas) (drop 8 image.span) ≡ vas =
      ap (λ s. words (length vas) (drop 8 s)) span ∙ words-put_words vas (0 ∷ 0 ∷ aux) rest low.0 in
    ap (λ n. map (string_at ub image) (words n (drop 8 image.span))) argc
    ∙ ap (map (string_at ub image)) pointers
    ∙ Shows-map ub image vas argv shown

auxv-low :
    (li : LoadInfo) (gate_addr rnd_va vdso_base : ℕ)
    → rnd_va < u64
    → All (λ x. x < u64) (li.phdr_va ∷ li.phent ∷ li.phnum ∷ li.entry ∷ gate_addr ∷ vdso_base ∷ [])
    → All (λ x. x < u64) (0 ∷ 0 ∷ auxv li gate_addr rnd_va vdso_base)
auxv-low li gate_addr rnd_va vdso_base r (p₁, (p₂, (p₃, (p₄, (p₅, (p₆, p)))))) = (
  omega arith,
  (
    omega arith,
    (
      omega arith,
      (
        p₁,
        (
          omega arith,
          (
            p₂,
            (
              omega arith,
              (
                p₃,
                (
                  omega arith,
                  (
                    omega arith,
                    (
                      omega arith,
                      (
                        p₄,
                        (
                          omega arith,
                          (
                            r,
                            (
                              omega arith,
                              (p₅, (omega arith, (p₆, (omega arith, (omega arith, tt))))),
                            ),
                          ),
                        ),
                      ),
                    ),
                  ),
                ),
              ),
            ),
          ),
        ),
      ),
    ),
  ),
)

-- Where the strings, AT_RANDOM's bytes and the vector with its alignment fit the stack, and the
-- values fit their words: after argc and its pointers the stack holds two null pointers and the
-- auxiliary vector.
pub after_args-stack_image :
    (ub gate_addr vdso_base : ℕ) (li : LoadInfo) (argv : List CString)
    → total argv + 8 * length argv + 207 ≤ stk_size
    → All (λ x. x < u64) (li.phdr_va ∷ li.phent ∷ li.phnum ∷ li.entry ∷ gate_addr ∷ vdso_base ∷ [])
    → after_args 20 (stack_image ub li gate_addr vdso_base argv)
      ≡ 0 ∷ 0 ∷ auxv li gate_addr (random_va ub argv) vdso_base
after_args-stack_image ub gate_addr vdso_base li argv room low =
    let image = stack_image ub li gate_addr vdso_base argv in
    let vas = pointers_of ub argv top in
    let count = length-pointers_of ub argv top in
    let random = random_va ub argv in
    let aux = auxv li gate_addr random vdso_base in
    let rest = (base_of_vector ub argv).span in
    let argc = image-argc ub gate_addr vdso_base li argv (omega (arith, count, room)) in
    let after : drop (8 * (1 + le_bytes 8 image.span)) image.span
        ≡ put_words (0 ∷ 0 ∷ aux) ++ rest =
      ap₂ (λ n s. drop (8 * n) s) (omega (arith, argc)) (image-span ub gate_addr vdso_base li argv)
      ∙ drop-put_words (length vas ∷ vas) (0 ∷ 0 ∷ aux) rest in
    ap (words 20) after
    ∙ words-put_words (0 ∷ 0 ∷ aux) [] rest
        (auxv-low li gate_addr random vdso_base (omega arith) low)

sp-skip : (n : ℕ) (st : Stack) → n ≤ st.sp → st.sp < u64 → (skip n st).sp ≡ st.sp - n
unfolding skip push
sp-skip n st fits small =
    let zeros : List ℕ = replicate n 0 in
    let e : length zeros ≡ n = length-replicate n 0 in
    omega (arith, e, sub64-below st.sp (length zeros) (omega (arith, e)) small)

align-aligned :
    (argc : ℕ) (st : Stack)
    → 23 ≤ st.sp
    → st.sp < u64
    → ((align argc st).sp + 8 * words_of argc) % 16 ≡ 0
unfolding align
align-aligned argc st fits small =
    let base = skip (st.sp % 16) st in
    let first = sp-skip (st.sp % 16) st (omega arith) small in
    let second = sp-skip 8 base (omega (arith, first)) (omega (arith, first)) in
    ground (arith, first, second)

-- Where the strings, AT_RANDOM's bytes and the vector with its alignment fit the stack: the pointer
-- that it starts at is a multiple of 16 bytes from its base, and lies in it.
pub stack_image-IsAligned :
    (ub gate_addr vdso_base : ℕ) (li : LoadInfo) (argv : List CString)
    → total argv + 8 * length argv + 207 ≤ stk_size
    → ((stack_image ub li gate_addr vdso_base argv).sp % 16 ≡ 0)
      × ((stack_image ub li gate_addr vdso_base argv).sp < stk_size)
unfolding Extends push_random stack_image push
stack_image-IsAligned ub gate_addr vdso_base li argv room =
    let strings = strings_of ub argv top in
    let vas = pointers_of ub argv top in
    let random = push_random strings in
    let base = base_of_vector ub argv in
    let v = vector vas (auxv li gate_addr (random_va ub argv) vdso_base) in
    let count = length-pointers_of ub argv top in
    let size : length (put_words v) ≡ 8 * length argv + 168 =
      omega (arith, length-vector vas (auxv li gate_addr (random_va ub argv) vdso_base), count) in
    let grown = base-Extends ub argv (omega (arith, room)) in
    let below =
      sub64-below base.sp (length (put_words v)) (omega (arith, size, grown.1, room))
        (omega (arith, grown.2)) in
    let first = push_strings-Extends ub argv top (omega (arith, room)) (omega arith) in
    let second =
      push-Extends ub random_bytes strings (omega (arith, first.0, room))
        (omega (arith, first.1)) in
    let aligned =
      align-aligned (length argv) random (omega (arith, first.0, second.0, room))
        (omega (arith, first.1, second.1)) in
    (
      omega (arith, below, size, aligned, grown.1, room),
      omega (arith, below, size, grown.1, grown.2, room),
    )
