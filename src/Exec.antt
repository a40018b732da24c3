-- ===== src/Exec.antt =====
-- core/exec.c and core/vdso.c: the initial stack, the vDSO's page and the start of the thread. The
-- stack is kept as the bytes from its pointer to its top, so that a write below the pointer is
-- a prefix. The substrate's calls are the fields of `ThreadSubstrate`.
mod Strings
pub mod Startup
mod Tests
use elf_sysv_nt.Common.Bytes.{put_le}
use elf_sysv_nt.Common.{
  ℕ, zero, suc, ◌+◌, ◌-◌, ◌*◌, ◌%◌, Bool, true, false, not, Option, none, some, List, [], ◌∷◌, ◌++◌,
}
use elf_sysv_nt.Common.{CString, codes, length, replicate, ◌==◌, if◌then◌else◌, ℤ, negsuc}
use elf_sysv_nt.Vma.{u64, Map, vma_record, BackingKind, vdso, stack}
use elf_sysv_nt.Elf.{LoadInfo, sub64}

-- `STK_SIZE`
abbrev pub stk_size : ℕ
stk_size = 0x800000

-- `hb` from `sp` to its top.
pub record Stack : Type 0 where
  pub sp : ℕ
  pub span : List ℕ

-- `sp -= n` and the `memcpy` of `n` bytes to it.
unfoldable pub push : List ℕ → Stack → Stack
push bytes st = record { sp = sub64 st.sp (length bytes); span = bytes ++ st.span }

-- `sp -= n` over bytes that are left as `calloc` made them.
unfoldable pub skip : ℕ → Stack → Stack
skip n st = push (replicate n 0) st

-- The loop over argv; the result is `argv_va`.
unfoldable pub push_strings : ℕ → List CString → Stack → List ℕ × Stack
push_strings ub [] st = ([], st)
push_strings ub (arg ∷ args) st =
    let pushed = push (arg ++ (0 ∷ [])) st in
    let (vas, st') = push_strings ub args pushed in ((ub + pushed.sp) % u64 ∷ vas, st')

-- `rnd`
abbrev pub random_bytes : List ℕ
random_bytes =
    0x9e ∷ 0x37 ∷ 0x79 ∷ 0xb9 ∷ 0x7f ∷ 0x4a ∷ 0x7c ∷ 0x15 ∷ 0xf3 ∷ 0x9c ∷ 0xc0 ∷ 0x60 ∷ 0x5c ∷ 0xed
    ∷ 0xc8 ∷ 0x34 ∷ []

-- The auxiliary vector, from AT_PHDR to AT_NULL.
abbrev pub auxv : LoadInfo → ℕ → ℕ → ℕ → List ℕ
auxv li gate_addr rnd_va vdso_base =
    3 ∷ li.phdr_va ∷ 4 ∷ li.phent ∷ 5 ∷ li.phnum ∷ 6 ∷ 4096 ∷ 9 ∷ li.entry ∷ 25 ∷ rnd_va ∷ 32
    ∷ gate_addr ∷ 33 ∷ vdso_base ∷ 0 ∷ 0 ∷ []

-- What the uses of `PUT` write, in their order.
abbrev pub vector : List ℕ → List ℕ → List ℕ
vector vas aux = length vas ∷ (vas ++ (0 ∷ 0 ∷ aux))

abbrev pub put_words : List ℕ → List ℕ
put_words [] = []
put_words (w ∷ ws) = put_le 8 w ++ put_words ws

-- `words`
abbrev pub words_of : ℕ → ℕ
words_of argc = 1 + (argc + 1) + (0 + 1) + 2 * 9

-- The strings and AT_RANDOM's bytes, the pointer brought down to 16, and the word of padding
-- when the count of words is odd.
unfoldable pub push_random : Stack → Stack
push_random st = push random_bytes st

unfoldable pub align : ℕ → Stack → Stack
align argc st =
    let base = skip (st.sp % 16) st in if words_of argc % 2 == 1 then skip 8 base else base

-- The stack that the thread starts on, with argc at its pointer.
unfoldable pub stack_image : ℕ → LoadInfo → ℕ → ℕ → List CString → Stack
unfolding push_strings push_random
stack_image ub li gate_addr vdso_base argv =
    let (vas, strings) = push_strings ub argv (record { sp = stk_size; span = [] }) in
    let random = push_random strings in
    let aux = auxv li gate_addr ((ub + random.sp) % u64) vdso_base in
    push (put_words (vector vas aux)) (align (length argv) random)

-- The fields of `struct sub_regs` that are not 0.
pub record Regs : Type 0 where
  pub rip : ℕ
  pub rsp : ℕ

-- `as_map` of a kind of backing, which gives the realised base or fails, `user_copy_out`,
-- `as_protect`, which say whether they succeed, `as_unmap`, and `thread_start` with its result.
pub record ThreadSubstrate (S : Type 0) : Type 0 where
  pub as_map : BackingKind → ℕ → ℕ → S → Option ℕ × S
  pub copy_out : ℕ → List ℕ → S → Bool × S
  pub as_protect : ℕ → ℕ → ℕ → S → Bool × S
  pub as_unmap : ℕ → ℕ → S → S
  pub thread_start : ℕ → Regs → ℕ → S → ℤ × S

-- `VDSO_SIZE`
abbrev pub vdso_size : ℕ
vdso_size = 4096

-- `struct e64hdr` as `build` fills it
abbrev pub vdso_ehdr : List ℕ
vdso_ehdr =
    (0x7f ∷ codes "ELF")
    ++ (2 ∷ 1 ∷ 1 ∷ [])
    ++ replicate 9 0
    ++ put_le 2 3
    ++ put_le 2 62
    ++ put_le 4 1
    ++ put_le 8 0
    ++ put_le 8 64
    ++ put_le 8 0
    ++ put_le 4 0
    ++ put_le 2 64
    ++ put_le 2 56
    ++ put_le 2 2
    ++ replicate 6 0

-- `struct p64hdr`; the physical address is 0.
abbrev pub vdso_phdr : ℕ → ℕ → ℕ → ℕ → ℕ → List ℕ
vdso_phdr type flags at size align_to =
    put_le 4 type
    ++ put_le 4 flags
    ++ put_le 8 at
    ++ put_le 8 at
    ++ put_le 8 0
    ++ put_le 8 size
    ++ put_le 8 size
    ++ put_le 8 align_to

-- `build`; the parts lie at 0, 64, 256 and 384.
abbrev pub vdso_image : List ℕ
vdso_image =
    vdso_ehdr
    ++ vdso_phdr 1 5 0 vdso_size vdso_size
    ++ vdso_phdr 2 4 256 48 8
    ++ replicate 80 0
    ++ (put_le 8 5 ++ put_le 8 384 ++ put_le 8 14 ++ put_le 8 1 ++ replicate 16 0)
    ++ replicate 80 0
    ++ (0 ∷ codes "linux-vdso.so.1")
    ++ replicate 3696 0

module _ {S : Type 0} (sub : ThreadSubstrate S) where
  -- `vdso_map` after its `as_map` gave `base`; `none` is -1.
  unfoldable pub vdso_fill : ℕ → Map → S → Option (ℕ × Map) × S
  vdso_fill base m s =
      let (copied, s₁) = sub.copy_out base vdso_image s in
      let (protected, s₂) = sub.as_protect base vdso_size 5 s₁ in
      let recorded = vma_record base vdso_size 5 vdso 0 (codes "[vdso]") m in
      if not copied
      then (none, sub.as_unmap base vdso_size s₁)
      else if not protected
      then (none, sub.as_unmap base vdso_size s₂)
      else elim recorded [
        | none ↦ (none, sub.as_unmap base vdso_size s₂)
        | some m' ↦ (some (base, m'), s₂)
      ]

  unfoldable pub vdso_map : Map → S → Option (ℕ × Map) × S
  unfolding vdso_fill
  vdso_map m s =
      let (mapped, s') = sub.as_map vdso vdso_size 3 s in
      elim mapped [ none ↦ (none, s') | some base ↦ vdso_fill base m s' ]

  -- `vma_record` of the stack, whose result `exec_enter` does not look at.
  abbrev pub record_stack : ℕ → Map → Map
  record_stack ub m = elim (vma_record ub stk_size 3 stack 0 (codes "[stack]") m) [
    | none ↦ m
    | some m' ↦ m'
  ]

  -- `exec_enter` from the two `calloc` calls on; `memory` says whether they succeed.
  unfoldable pub enter_on : Bool → LoadInfo → ℕ → List CString → ℕ → ℕ → ℕ → S → ℤ × S
  enter_on memory li gate_addr argv tid ub vdso_base s =
      let image = stack_image ub li gate_addr vdso_base argv in
      let argc_va = (ub + image.sp) % u64 in
      let (copied, s') = sub.copy_out argc_va image.span s in
      if not memory
      then (negsuc 0, s)
      else if not copied
      then (negsuc 0, s')
      else sub.thread_start tid (record { rip = li.entry; rsp = argc_va }) 0 s'

  -- `exec_enter` from `vdso_map` on.
  unfoldable pub enter_stack : Bool → LoadInfo → ℕ → List CString → ℕ → ℕ → Map → S → ℤ × Map × S
  unfolding enter_on vdso_map
  enter_stack memory li gate_addr argv tid ub m s =
      let (page, s₁) = vdso_map m s in
      elim page [
        | none ↦ (negsuc 0, m, s₁)
        | some at ↦
            (let (r, s₂) = enter_on memory li gate_addr argv tid ub at.0 s₁ in (r, at.1, s₂))
      ]

  unfoldable pub exec_enter : Bool → LoadInfo → ℕ → List CString → ℕ → Map → S → ℤ × Map × S
  unfolding enter_stack
  exec_enter memory li gate_addr argv tid m s =
      let (mapped, s₁) = sub.as_map stack stk_size 3 s in
      elim mapped [
        | none ↦ (negsuc 0, m, s₁)
        | some ub ↦ enter_stack memory li gate_addr argv tid ub (record_stack ub m) s₁
      ]
