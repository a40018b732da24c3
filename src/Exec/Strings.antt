-- ===== src/Exec/Strings.antt =====
-- core/exec.c: the strings of the initial stack, and how it grows.
use elf_sysv_nt.Common.{
  ℕ, zero, suc, ◌+◌, ◌-◌, ◌*◌, ◌%◌, ◌≤◌, ◌<◌, ◌≡◌, refl, ap, ap₂, ◌∙◌, Bool, true, false,
}
use elf_sysv_nt.Common.{List, [], ◌∷◌, ◌++◌, map, arith, CString, All, length, drop, replicate}
use elf_sysv_nt.Common.{length-append, length-replicate, ◌==◌, if◌then◌else◌}
use elf_sysv_nt.Common.Bytes.{le_bytes, put_le, le_bytes-put_le, c_string, c_string-append}
use mathlib.Core.Path.{subst}
use mathlib.Core.List.{append_assoc}
use elf_sysv_nt.Vma.{u64}
use elf_sysv_nt.Elf.{sub64}
use elf_sysv_nt.Exec.{Stack, push, skip, push_strings, align, put_words, words_of}

-- The `n` words from the start of some bytes.
abbrev pub words : ℕ → List ℕ → List ℕ
words zero bytes = []
words (suc n) bytes = le_bytes 8 bytes ∷ words n (drop 8 bytes)

-- The string at an address of the stack.
abbrev pub string_at : ℕ → Stack → ℕ → CString
string_at ub st va = c_string (drop (va - (ub + st.sp)) st.span)

-- The arguments that argc and the pointers after it show.
abbrev pub args_of : ℕ → Stack → List CString
args_of ub st = map (string_at ub st) (words (le_bytes 8 st.span) (drop 8 st.span))

-- The `n` words after argc and its pointers.
abbrev pub after_args : ℕ → Stack → List ℕ
after_args n st = words n (drop (8 * (1 + le_bytes 8 st.span)) st.span)

drop-append {ℓ} :
    {A : Type ℓ} (xs ys : List A) (k : ℕ) → drop (length xs + k) (xs ++ ys) ≡ drop k ys
drop-append [] ys k = ap (λ i. drop i ys) (omega arith)
drop-append (x ∷ xs) ys k =
    let e : suc (length xs) + k ≡ suc (length xs + k) = omega arith in
    ap (λ i. drop i (x ∷ (xs ++ ys))) e ∙ drop-append xs ys k

pub sub64-below : (a n : ℕ) → n ≤ a → a < u64 → sub64 a n ≡ a - n
sub64-below a n h small = omega arith

-- A push that fits does not change the strings above it.
string_at-push :
    (ub : ℕ) (bytes : List ℕ) (st : Stack) (va : ℕ)
    → length bytes ≤ st.sp
    → st.sp < u64
    → ub + st.sp ≤ va
    → string_at ub (push bytes st) va ≡ string_at ub st va
unfolding push
string_at-push ub bytes st va fits small above =
    let e : va - (ub + sub64 st.sp (length bytes)) ≡ length bytes + (va - (ub + st.sp)) =
      omega arith in
    ap (λ k. c_string (drop k (bytes ++ st.span))) e
    ∙ ap c_string (drop-append bytes st.span (va - (ub + st.sp)))

pub words-put_words :
    (v w : List ℕ) (rest : List ℕ)
    → All (λ x. x < u64) v
    → words (length v) (put_words (v ++ w) ++ rest) ≡ v
words-put_words [] w rest h = refl
words-put_words (x ∷ v) w rest h =
    ap₂ (λ y ys. y ∷ ys) (le_bytes-put_le 8 x (put_words (v ++ w) ++ rest) h.0)
      (words-put_words v w rest h.1)

pub drop-put_words :
    (v w : List ℕ) (rest : List ℕ)
    → drop (8 * length v) (put_words (v ++ w) ++ rest) ≡ put_words w ++ rest
drop-put_words [] w rest = refl
drop-put_words (x ∷ v) w rest =
    let e : 8 * suc (length v) ≡ 8 + 8 * length v = omega arith in
    ap (λ k. drop k (put_words (x ∷ (v ++ w)) ++ rest)) e
    ∙ drop-append (put_le 8 x) (put_words (v ++ w) ++ rest) (8 * length v)
    ∙ drop-put_words v w rest

-- A stack that has grown by `n` bytes at most, and shows the same strings above the old pointer.
unfoldable pub Extends : ℕ → ℕ → Stack → Stack → Type 0
Extends ub n st st' =
    (st.sp ≤ st'.sp + n)
    × (st'.sp ≤ st.sp)
    × ((va : ℕ) → ub + st.sp ≤ va → string_at ub st' va ≡ string_at ub st va)

pub Extends-trans :
    (ub a b : ℕ) (s t u : Stack) → Extends ub a s t → Extends ub b t u → Extends ub (a + b) s u
unfolding Extends
Extends-trans ub a b s t u h k = (
  omega (arith, h.0, k.0),
  omega (arith, h.1, k.1),
  λ va above. k.2 va (omega (arith, h.1, above)) ∙ h.2 va above,
)

pub push-Extends :
    (ub : ℕ) (bytes : List ℕ) (st : Stack)
    → length bytes ≤ st.sp
    → st.sp < u64
    → Extends ub (length bytes) st (push bytes st)
unfolding Extends push
push-Extends ub bytes st fits small =
    let e : sub64 st.sp (length bytes) ≡ st.sp - length bytes =
      sub64-below st.sp (length bytes) fits small in
    (omega (arith, e), omega (arith, e), λ va above. string_at-push ub bytes st va fits small above)

skip-Extends : (ub n : ℕ) (st : Stack) → n ≤ st.sp → st.sp < u64 → Extends ub n st (skip n st)
unfolding skip
skip-Extends ub n st fits small =
    let e : length (replicate n 0) ≡ n = length-replicate n 0 in
    subst (λ k. Extends ub k st (push (replicate n 0) st)) e
      (push-Extends ub (replicate n 0) st (omega (arith, e)) small)

-- The bytes that the strings take.
abbrev pub total : List CString → ℕ
total [] = 0
total (arg ∷ args) = length arg + 1 + total args

abbrev pub strings_of : ℕ → List CString → Stack → Stack
strings_of ub args st = (push_strings ub args st).1

abbrev pub pointers_of : ℕ → List CString → Stack → List ℕ
pointers_of ub args st = (push_strings ub args st).0

length-terminated : (arg : CString) → length (arg ++ (0 ∷ [])) ≡ length arg + 1
length-terminated arg = length-append arg (0 ∷ [])

push_string-Extends :
    (ub : ℕ) (arg : CString) (st : Stack)
    → length arg + 1 ≤ st.sp
    → st.sp < u64
    → Extends ub (length arg + 1) st (push (arg ++ (0 ∷ [])) st)
push_string-Extends ub arg st fits small =
    let e = length-terminated arg in
    subst (λ k. Extends ub k st (push (arg ++ (0 ∷ [])) st)) e
      (push-Extends ub (arg ++ (0 ∷ [])) st (omega (arith, e)) small)

pub push_strings-Extends :
    (ub : ℕ) (args : List CString) (st : Stack)
    → total args ≤ st.sp
    → st.sp < u64
    → Extends ub (total args) st (strings_of ub args st)
unfolding Extends push_strings
push_strings-Extends ub [] st fits small = (omega arith, omega arith, λ va above. refl)
push_strings-Extends ub (arg ∷ args) st fits small =
    let first = push_string-Extends ub arg st (omega arith) small in
    let st' = push (arg ++ (0 ∷ [])) st in
    Extends-trans ub (length arg + 1) (total args) st st' (strings_of ub args st') first
      (push_strings-Extends ub args st' (omega (arith, first.0)) (omega (arith, first.1)))

string_at-new :
    (ub : ℕ) (arg : CString) (st : Stack)
    → All (λ c. 0 < c) arg
    → (let st' = push (arg ++ (0 ∷ [])) st in string_at ub st' (ub + st'.sp) ≡ arg)
unfolding push
string_at-new ub arg st h =
    let sp = sub64 st.sp (length (arg ++ (0 ∷ []))) in
    let e : ub + sp - (ub + sp) ≡ 0 = omega arith in
    ap (λ k. c_string (drop k ((arg ++ (0 ∷ [])) ++ st.span))) e
    ∙ ap c_string (append_assoc arg (0 ∷ []) st.span)
    ∙ c_string-append arg st.span h

-- The pointers show the arguments on a stack, and lie between its pointer and 2^64.
unfoldable pub Shows : ℕ → Stack → List ℕ → List CString → Type 0
Shows ub st [] [] = Unit
Shows ub st [] (arg ∷ args) = ⊥
Shows ub st (va ∷ vas) [] = ⊥
Shows ub st (va ∷ vas) (arg ∷ args) =
    (ub + st.sp ≤ va) × (va < u64) × (string_at ub st va ≡ arg) × Shows ub st vas args

pub Shows-extend :
    (ub n : ℕ) (s t : Stack) (vas : List ℕ) (args : List CString)
    → Extends ub n s t
    → Shows ub s vas args
    → Shows ub t vas args
unfolding Shows Extends
Shows-extend ub n s t [] [] h k = tt
Shows-extend ub n s t [] (arg ∷ args) h k = elim k [ ]
Shows-extend ub n s t (va ∷ vas) [] h k = elim k [ ]
Shows-extend ub n s t (va ∷ vas) (arg ∷ args) h k =
    (omega (arith, h.1, k.0), k.1, h.2 va k.0 ∙ k.2, Shows-extend ub n s t vas args h k.3)

push_string-below :
    (arg : CString) (st : Stack)
    → length arg + 1 ≤ st.sp
    → st.sp < u64
    → (push (arg ++ (0 ∷ [])) st).sp < st.sp
unfolding push
push_string-below arg st fits small =
    let e = length-terminated arg in
    omega (arith, e, sub64-below st.sp (length (arg ++ (0 ∷ []))) (omega (arith, e)) small)

pub push_strings-Shows :
    (ub : ℕ) (args : List CString) (st : Stack)
    → total args ≤ st.sp
    → st.sp < u64
    → ub + st.sp ≤ u64
    → All (All (λ c. 0 < c)) args
    → Shows ub (strings_of ub args st) (pointers_of ub args st) args
unfolding Shows push_strings Extends
push_strings-Shows ub [] st fits small room h = tt
push_strings-Shows ub (arg ∷ args) st fits small room h =
    let st' = push (arg ++ (0 ∷ [])) st in
    let first = push_string-Extends ub arg st (omega arith) small in
    let after =
      push_strings-Extends ub args st' (omega (arith, first.0)) (omega (arith, first.1)) in
    let e : (ub + st'.sp) % u64 ≡ ub + st'.sp =
      omega (arith, push_string-below arg st (omega arith) small, room) in
    let here : string_at ub st' ((ub + st'.sp) % u64) ≡ arg =
      ap (string_at ub st') e ∙ string_at-new ub arg st h.0 in
    (
      omega (arith, e, after.1),
      omega (arith, e),
      after.2 ((ub + st'.sp) % u64) (omega (arith, e)) ∙ here,
      push_strings-Shows ub args st' (omega (arith, first.0)) (omega (arith, first.1))
          (omega (arith, first.1, room)) h.1,
    )

pub Shows-map :
    (ub : ℕ) (st : Stack) (vas : List ℕ) (args : List CString)
    → Shows ub st vas args
    → map (string_at ub st) vas ≡ args
unfolding Shows
Shows-map ub st [] [] h = refl
Shows-map ub st [] (arg ∷ args) h = elim h [ ]
Shows-map ub st (va ∷ vas) [] h = elim h [ ]
Shows-map ub st (va ∷ vas) (arg ∷ args) h = ap₂ (λ x xs. x ∷ xs) h.2 (Shows-map ub st vas args h.3)

pub Shows-All :
    (ub : ℕ) (st : Stack) (vas : List ℕ) (args : List CString)
    → Shows ub st vas args
    → All (λ va. va < u64) vas × (length vas ≡ length args)
unfolding Shows
Shows-All ub st [] [] h = (tt, refl)
Shows-All ub st [] (arg ∷ args) h = elim h [ ]
Shows-All ub st (va ∷ vas) [] h = elim h [ ]
Shows-All ub st (va ∷ vas) (arg ∷ args) h =
    let rest = Shows-All ub st vas args h.3 in ((h.1, rest.0), ap suc rest.1)

pub length-put_words : (v : List ℕ) → length (put_words v) ≡ 8 * length v
length-put_words [] = refl
length-put_words (w ∷ v) =
    omega (arith, length-append (put_le 8 w) (put_words v), length-put_words v)

if-Extends :
    (ub n : ℕ) (st s t : Stack) (b : Bool)
    → Extends ub n st s
    → Extends ub n st t
    → Extends ub n st (if b then s else t)
if-Extends ub n st s t true h k = h
if-Extends ub n st s t false h k = k

Extends-weaken : (ub a b : ℕ) (s t : Stack) → a ≤ b → Extends ub a s t → Extends ub b s t
unfolding Extends
Extends-weaken ub a b s t le h = (omega (arith, h.0), h.1, h.2)

pub align-Extends :
    (ub argc : ℕ) (st : Stack) → 23 ≤ st.sp → st.sp < u64 → Extends ub 23 st (align argc st)
unfolding Extends align
align-Extends ub argc st fits small =
    let base = skip (st.sp % 16) st in
    let h = skip-Extends ub (st.sp % 16) st (omega arith) small in
    let padded = skip-Extends ub 8 base (omega (arith, h.0)) (omega (arith, h.1)) in
    if-Extends ub 23 st (skip 8 base) base (words_of argc % 2 == 1)
      (Extends-weaken ub (st.sp % 16 + 8) 23 st (skip 8 base) (omega arith)
        (Extends-trans ub (st.sp % 16) 8 st base (skip 8 base) h padded))
      (Extends-weaken ub (st.sp % 16) 23 st base (omega arith) h)

pub length-pointers_of :
    (ub : ℕ) (args : List CString) (st : Stack) → length (pointers_of ub args st) ≡ length args
unfolding push_strings
length-pointers_of ub [] st = refl
length-pointers_of ub (arg ∷ args) st =
    ap suc (length-pointers_of ub args (push (arg ++ (0 ∷ [])) st))
