-- ===== src/Common/Decimal.antt =====
-- Decimal text, as `printf` writes it for `%llu` and as `strtol` reads it with base 10.
use Prim.Native.Nat.{ℕ, zero, suc, ◌+◌, ◌-◌, ◌*◌, ◌/◌, ◌%◌, ◌^◌, ◌≤◌, ◌<◌}
use mathlib.Core.Path.{◌≡◌, refl, ap, ◌∙◌, sym}
use mathlib.Core.Logic.{inl, inr}
use mathlib.Core.Bool.{Bool, true, false, ◌&&◌, ◌||◌}
use mathlib.Core.Option.{Option, none, some}
use mathlib.Core.List.{[], ◌∷◌, ◌++◌, append_assoc, append-nil}
use native.Mathlib.Omega.{arith}
use elf_sysv_nt.Common.Tests.{◌==◌, leb, ltb, if◌then◌else◌, Bool-cases}
use elf_sysv_nt.Common.Lists.{CString, All, length, length-append}
use elf_sysv_nt.Common.Int.{ℤ, pos, negsuc}

dec_digits : ℕ → ℕ → CString
dec_digits zero n = []
dec_digits (suc f) n =
    let more = dec_digits f (n / 10) in
    if ltb n 10 then (b'0' + n) ∷ [] else more ++ ((b'0' + n % 10) ∷ [])

-- `%llu`
unfoldable pub decimal : ℕ → CString
unfolding dec_digits
decimal n = dec_digits 20 n

abbrev is_digit : ℕ → Bool
is_digit c = leb 48 c && leb c 57

-- The digits at the start of a text, added to the number read so far, and what follows them.
read_digits : CString → ℕ → ℕ × CString
read_digits [] n = (n, [])
read_digits (c ∷ s) n =
    let rest = read_digits s (10 * n + (c - 48)) in if is_digit c then rest else (n, c ∷ s)

abbrev begins_with_digit : CString → Bool
begins_with_digit [] = false
begins_with_digit (c ∷ s) = is_digit c

abbrev negate : ℕ → ℤ
negate zero = pos 0
negate (suc n) = negsuc n

-- The number after the sign, or nothing if there is no digit.
read_number : (ℕ → ℤ) → CString → Option (ℤ × CString)
unfolding read_digits
read_number sign s =
    let r = read_digits s 0 in if begins_with_digit s then some (sign r.0, r.1) else none

read_signed : CString → Option (ℤ × CString)
unfolding read_number
read_signed [] = none
read_signed (c ∷ s) =
    if c == b'-'
    then read_number negate s
    else if c == b'+'
    then read_number pos s
    else read_number pos (c ∷ s)

-- `strtol(s, &end, 10)`: the number and the text from `end` on, or `none` where `end` is `s`. White
-- space and a sign may lead. A number past the range of `long` is not cut to it here.
unfoldable pub strtol : CString → Option (ℤ × CString)
unfolding read_signed
strtol [] = none
strtol (c ∷ s) =
    let rest = strtol s in if (c == 32) || (leb 9 c && leb c 13) then rest else read_signed (c ∷ s)

digit-Holds : (d : ℕ) → d < 10 → is_digit (48 + d) ≡ true
digit-Holds d h = ground arith

read_digit :
    (d n : ℕ) (rest : CString)
    → d < 10
    → read_digits ((48 + d) ∷ rest) n ≡ read_digits rest (10 * n + d)
unfolding read_digits
read_digit d n rest h =
    let e : 10 * n + (48 + d - 48) ≡ 10 * n + d = omega arith in rw (digit-Holds d h, e) refl

dec_digits-small : (f n : ℕ) → n < 10 → dec_digits (suc f) n ≡ (48 + n) ∷ []
unfolding dec_digits
dec_digits-small f n h = let e : ltb n 10 ≡ true = ground arith in rw e refl

dec_digits-large :
    (f n : ℕ)
    → ltb n 10 ≡ false
    → dec_digits (suc f) n ≡ dec_digits f (n / 10) ++ ((48 + n % 10) ∷ [])
unfolding dec_digits
dec_digits-large f n h = rw h refl

ten_times : (f n : ℕ) → n < 10 ^ suc f → n / 10 < 10 ^ f
ten_times f n h = let e : 10 ^ suc f ≡ 10 * 10 ^ f = omega arith in omega arith

-- Reading what was written goes on with the number.
read_digits-dec_digits :
    (f n : ℕ) (rest : CString)
    → n < 10 ^ suc f
    → read_digits (dec_digits (suc f) n ++ rest) 0 ≡ read_digits rest n
read_digits-dec_digits zero n rest h =
    let e : 10 * 0 + n ≡ n = omega arith in
    let few : n < 10 = omega arith in
    rw (dec_digits-small 0 n few) (read_digit n 0 rest few ∙ ap (read_digits rest) e)
read_digits-dec_digits (suc f) n rest h = elim (Bool-cases (ltb n 10)) [
  | inl small ↦
      let few : n < 10 = ground arith in
      let e : 10 * 0 + n ≡ n = omega arith in
      rw (dec_digits-small (suc f) n few) (read_digit n 0 rest few ∙ ap (read_digits rest) e)
  | inr large ↦
      let d : ℕ = n % 10 in
      let e : 10 * (n / 10) + d ≡ n = omega arith in
      rw (dec_digits-large (suc f) n large) (
        ap (λ (l : CString). read_digits l 0)
          (append_assoc (dec_digits (suc f) (n / 10)) ((48 + d) ∷ []) rest)
        ∙ read_digits-dec_digits f (n / 10) ((48 + d) ∷ rest) (ten_times (suc f) n h)
        ∙ read_digit d (n / 10) rest (omega arith)
        ∙ ap (read_digits rest) e)
]

begins_with_digit-append :
    (s t : CString) → begins_with_digit s ≡ true → begins_with_digit (s ++ t) ≡ true
begins_with_digit-append [] t h = cc
begins_with_digit-append (c ∷ s) t h = h

-- The text of a number is digits, and not empty.
dec_digits-Holds : (f n : ℕ) → n < 10 ^ suc f → begins_with_digit (dec_digits (suc f) n) ≡ true
dec_digits-Holds zero n h =
    let few : n < 10 = omega arith in rw (dec_digits-small 0 n few) (digit-Holds n few)
dec_digits-Holds (suc f) n h = elim (Bool-cases (ltb n 10)) [
  | inl small ↦
      let few : n < 10 = ground arith in rw (dec_digits-small (suc f) n few) (digit-Holds n few)
  | inr large ↦ rw (dec_digits-large (suc f) n large) (
      begins_with_digit-append (dec_digits (suc f) (n / 10)) _
        (dec_digits-Holds f (n / 10) (ten_times (suc f) n h)))
]

strtol-digits :
    (s : CString) (n : ℕ)
    → begins_with_digit s ≡ true
    → read_digits s 0 ≡ (n, [])
    → strtol s ≡ some (pos n, [])
unfolding strtol read_signed read_number
strtol-digits [] n d h = cc
strtol-digits (c ∷ s) n d h =
    let not_space : ((c == 32) || (leb 9 c && leb c 13)) ≡ false = ground arith in
    let not_minus : (c == 45) ≡ false = ground arith in
    let not_plus : (c == 43) ≡ false = ground arith in
    rw (not_space, not_minus, not_plus, h, d) refl

-- A number below 10^20 reads back from its text.
pub strtol-decimal : (n : ℕ) → n < 10 ^ 20 → strtol (decimal n) ≡ some (pos n, [])
unfolding decimal read_digits
strtol-decimal n h = strtol-digits (dec_digits 20 n) n (dec_digits-Holds 19 n h) (
    ap (λ (l : CString). read_digits l 0) (sym (append-nil (dec_digits 20 n)))
    ∙ read_digits-dec_digits 19 n [] h)

All-append_one : (P : ℕ → Type 0) (s : CString) (c : ℕ) → All P s → P c → All P (s ++ (c ∷ []))
All-append_one P [] c hs hc = (hc, tt)
All-append_one P (d ∷ s) c hs hc = (hs.0, All-append_one P s c hs.1 hc)

dec_digits-Nonzero : (f n : ℕ) → All (λ c. 0 < c) (dec_digits f n)
unfolding dec_digits
dec_digits-Nonzero zero n = tt
dec_digits-Nonzero (suc f) n = elim (Bool-cases (ltb n 10)) [
  | inl small ↦ rw small (omega arith, tt)
  | inr large ↦ rw large (
      All-append_one (λ c. 0 < c) (dec_digits f (n / 10)) (48 + n % 10)
        (dec_digits-Nonzero f (n / 10)) (omega arith))
]

length-dec_digits : (f n : ℕ) → length (dec_digits f n) ≤ f
unfolding dec_digits
length-dec_digits zero n = omega arith
length-dec_digits (suc f) n = ground (
  arith,
  length-dec_digits f (n / 10),
  length-append (dec_digits f (n / 10)) ((48 + n % 10) ∷ []),
)

-- The text is a C string of at most 20 characters.
pub decimal-IsName : (n : ℕ) → All (λ c. 0 < c) (decimal n) × (length (decimal n) ≤ 20)
unfolding decimal
decimal-IsName n = (dec_digits-Nonzero 20 n, length-dec_digits 20 n)
