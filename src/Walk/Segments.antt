-- ===== src/Walk/Segments.antt =====
-- The components that the walk of core/vfs.c takes off a path.
use elf_sysv_nt.Common.{ℕ, ◌<◌, ◌≡◌, ◌≢◌, false, List, [], ◌∷◌, CString, All, length}
use elf_sysv_nt.Common.{◌==◌, arith, Bool-cases, inl, inr}
use elf_sysv_nt.Path.{slash}
use elf_sysv_nt.Walk.{Segment, segments, extend}

-- A segment's component is not empty and has no slash.
abbrev pub IsPart : Segment → Type 0
IsPart (comp, rest) = (0 < length comp) × All (λ x. x ≢ slash) comp

extend-IsPart :
    (c : ℕ) (s : CString) (segs : List Segment)
    → (c == slash) ≡ false
    → All IsPart segs
    → All IsPart (extend c s segs)
extend-IsPart c [] segs ne all = ((omega arith, (ground arith, tt)), all)
extend-IsPart c (d ∷ s) [] ne all = ((omega arith, (ground arith, tt)), tt)
extend-IsPart c (d ∷ s) ((comp, rest) ∷ segs) ne all = elim (Bool-cases (d == slash)) [
  | inl at_slash ↦ rw at_slash ((omega arith, (ground arith, tt)), all)
  | inr inside ↦ rw inside ((omega arith, (ground arith, all.0.1)), all.1)
]

pub segments-IsPart : (path : CString) → All IsPart (segments path)
unfolding segments
segments-IsPart [] = tt
segments-IsPart (c ∷ s) = elim (Bool-cases (c == slash)) [
  | inl at_slash ↦ rw at_slash (segments-IsPart s)
  | inr inside ↦ rw inside (extend-IsPart c s (segments s) inside (segments-IsPart s))
]
