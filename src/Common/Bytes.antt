-- ===== src/Common/Bytes.antt =====
-- Little-endian fields of byte buffers, and NUL-terminated strings in them.
use Prim.Native.Nat.{ℕ, zero, suc, ◌+◌, ◌*◌, ◌/◌, ◌%◌, ◌^◌, ◌<◌}
use mathlib.Core.Path.{◌≡◌, refl, ap}
use mathlib.Core.List.{List, [], ◌∷◌, ◌++◌}
use native.Mathlib.Omega.{arith}
use elf_sysv_nt.Common.Tests.{◌==◌, if◌then◌else◌}
use elf_sysv_nt.Common.Lists.{All, CString, length, drop}

-- The number in the first `n` bytes; bytes past the end of the buffer count as 0.
abbrev pub le_bytes : ℕ → List ℕ → ℕ
le_bytes zero bytes = 0
le_bytes (suc n) [] = 0
le_bytes (suc n) (b ∷ bytes) = b + 256 * le_bytes n bytes

abbrev pub field : List ℕ → ℕ → ℕ → ℕ
field image at n = le_bytes n (drop at image)

-- The `n` low bytes of a number, as `memcpy` of a variable of `n` bytes leaves them.
abbrev pub put_le : ℕ → ℕ → List ℕ
put_le zero v = []
put_le (suc n) v = (v % 256) ∷ put_le n (v / 256)

pub length-put_le : (n v : ℕ) → length (put_le n v) ≡ n
length-put_le zero v = refl
length-put_le (suc n) v = ap suc (length-put_le n (v / 256))

div_below : (n v : ℕ) → v < 256 ^ suc n → v / 256 < 256 ^ n
div_below n v h = let e : 256 ^ suc n ≡ 256 * 256 ^ n = omega arith in omega arith

pub le_bytes-put_le : (n v : ℕ) (rest : List ℕ) → v < 256 ^ n → le_bytes n (put_le n v ++ rest) ≡ v
le_bytes-put_le zero v rest h = omega arith
le_bytes-put_le (suc n) v rest h = omega (arith, le_bytes-put_le n (v / 256) rest (div_below n v h))

-- The string at the start of a buffer, up to its terminator or the buffer's end.
unfoldable pub c_string : List ℕ → CString
c_string [] = []
c_string (c ∷ bytes) = let rest = c_string bytes in if c == 0 then [] else c ∷ rest

pub c_string-append :
    (s : CString) (rest : List ℕ) → All (λ c. 0 < c) s → c_string (s ++ (0 ∷ rest)) ≡ s
unfolding c_string
c_string-append [] rest h = refl
c_string-append (c ∷ s) rest h = ground (arith, c_string-append s rest h.1, h.0)
