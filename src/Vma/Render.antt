-- ===== src/Vma/Render.antt =====
-- core/vma.c, vma_render_maps: the text of /proc/self/maps.
use elf_sysv_nt.Common.{ℕ, zero, suc, ◌+◌, ◌-◌, ◌/◌, ◌%◌, ◌≤◌, ◌<◌, ◌≡◌, refl}
use elf_sysv_nt.Common.{false, List, [], ◌∷◌, ◌++◌, arith, inl, inr, ◌⊎◌, ap, map}
use elf_sysv_nt.Common.{CString, codes, length, length-append, length-replicate, take, replicate}
use elf_sysv_nt.Common.{null, ltb, ◌==◌, if◌then◌else◌, Bool-cases, has_bit}
use elf_sysv_nt.Vma.{Vma, Map, section}

-- `perms`, four characters.
unfoldable pub perms : Vma → CString
perms v =
    (if has_bit v.prot 1 then b'r' else b'-')
    ∷ (if has_bit v.prot 2 then b'w' else b'-')
    ∷ (if has_bit v.prot 4 then b'x' else b'-')
    ∷ (elim v.kind [ section ↦ b's' | _ ↦ b'p' ])
    ∷ []

hex_digit : ℕ → ℕ
hex_digit d = if ltb d 10 then b'0' + d else b'a' + (d - 10)

-- `%llx`, least digit last; a 64-bit number has at most 16 digits.
hex_digits : ℕ → ℕ → CString
hex_digits zero n = []
hex_digits (suc f) n =
    let more = hex_digits f (n / 16) in
    if ltb n 16 then hex_digit n ∷ [] else more ++ (hex_digit (n % 16) ∷ [])

-- `%0<width>llx`
unfoldable pub hex_padded : ℕ → ℕ → CString
unfolding hex_digits hex_digit
hex_padded width n = let s = hex_digits 16 n in replicate (width - length s) b'0' ++ s

-- What `snprintf` puts into `line`, without the terminator.
unfoldable pub line_of : Vma → CString
line_of v =
    hex_padded 12 v.start
    ++ (b'-'
        ∷ (hex_padded 12 v.end
            ++ (b' '
                ∷ (perms v
                    ++ (b' '
                        ∷ (hex_padded 8 v.offset
                            ++ (codes " 00:00 0 "
                                ++ (replicate (if null v.name then 0 else 20) b' '
                                    ++ (v.name ++ (b'\n' ∷ []))))))))))

-- The loop over the ranges, with `used` bytes already in a buffer of `cap`.
unfoldable pub render_from : ℕ → ℕ → Map → CString
render_from cap used [] = []
render_from cap used (v ∷ m) =
    let rest = render_from cap (used + length (line_of v)) m in
    if ltb cap (used + length (line_of v) + 1) then [] else line_of v ++ rest

-- The bytes written before the terminator; their number is the return value.
unfoldable pub vma_render_maps : Map → ℕ → CString
vma_render_maps m cap = if cap == 0 then [] else render_from cap 0 m

abbrev pub flatten : List CString → CString
flatten [] = []
flatten (x ∷ xs) = x ++ flatten xs

abbrev pub lines : Map → CString
lines m = flatten (map line_of m)

render_from_lem :
    (cap used : ℕ) (m : Map)
    → used + 1 ≤ cap
    → (k : ℕ) × (render_from cap used m ≡ lines (take k m))
      × (used + length (lines (take k m)) + 1 ≤ cap)
      × ((k ≡ length m) ⊎ (cap < used + length (lines (take (suc k) m)) + 1))
unfolding render_from
render_from_lem cap used [] h = (0, refl, omega arith, inl refl)
render_from_lem cap used (v ∷ m) h = elim (Bool-cases (ltb cap (used + length (line_of v) + 1))) [
  | inl full ↦ (0, rw full refl, omega arith, inr (ground (arith, length-append (line_of v) [])))
  | inr fits ↦
      let (k, text, room, stop) =
        render_from_lem cap (used + length (line_of v)) m (ground arith) in
      (
        suc k,
        rw (fits, text),
        omega (arith, length-append (line_of v) (lines (take k m))),
        after k stop,
      )
]
  where
    after :
        (k : ℕ)
        → (k ≡ length m) ⊎ (cap < used + length (line_of v) + length (lines (take (suc k) m)) + 1)
        → (suc k ≡ suc (length m)) ⊎ (cap < used + length (line_of v ++ lines (take (suc k) m)) + 1)
    after k (inl e) = inl (ap suc e)
    after k (inr e) = inr (omega (arith, length-append (line_of v) (lines (take (suc k) m))))

-- For a buffer of at least one byte the text written is the whole lines of the first `k` ranges, it
-- fits with its terminator, and either all ranges are written or one more line would not fit.
pub vma_render_maps_lem :
    (m : Map) (cap : ℕ)
    → 0 < cap
    → (k : ℕ) × (vma_render_maps m cap ≡ lines (take k m))
      × (length (lines (take k m)) + 1 ≤ cap)
      × ((k ≡ length m) ⊎ (cap < length (lines (take (suc k) m)) + 1))
unfolding vma_render_maps
vma_render_maps_lem m cap h =
    let some_room : (cap == 0) ≡ false = ground arith in
    let (k, text, room, stop) = render_from_lem cap 0 m h in
    (k, rw some_room text, omega arith, elim stop [ inl e ↦ inl e | inr e ↦ inr (omega arith) ])

length-hex_digits : (f n : ℕ) → length (hex_digits f n) ≤ f
unfolding hex_digits
length-hex_digits zero n = omega arith
length-hex_digits (suc f) n = ground (
  arith,
  length-hex_digits f (n / 16),
  length-append (hex_digits f (n / 16)) (hex_digit (n % 16) ∷ []),
)

length-hex_padded : (width n : ℕ) → width ≤ 16 → length (hex_padded width n) ≤ 16
unfolding hex_padded
length-hex_padded width n h = omega (
  arith,
  length-hex_digits 16 n,
  length-append (replicate (width - length (hex_digits 16 n)) b'0') (hex_digits 16 n),
  length-replicate {A = ℕ} (width - length (hex_digits 16 n)) b'0',
)

-- A line of a range whose name fits its array is shorter than the 192 bytes of `line`, so `snprintf`
-- never truncates it and the copy never reads past it.
pub length-line_of : (v : Vma) → length v.name < 64 → length (line_of v) < 192
unfolding line_of perms
length-line_of v h = simp length-append (
    omega (
      arith,
      length-hex_padded 12 v.start (omega arith),
      length-hex_padded 12 v.end (omega arith),
      length-hex_padded 8 v.offset (omega arith),
      indent,
    ))
  where
    indent : length (replicate {A = ℕ} (if null v.name then 0 else 20) b' ') ≤ 20
    indent = elim (Bool-cases (null v.name)) [
      | inl e ↦ rw e (omega arith)
      | inr e ↦ rw e (omega arith)
    ]
