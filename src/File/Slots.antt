-- ===== src/File/Slots.antt =====
-- How often a descriptor table of core/file.c refers to a description.
use elf_sysv_nt.Common.{ℕ, zero, suc, ◌+◌, ◌<◌, ◌≡◌, refl, Option, none, some, List, [], ◌∷◌}
use elf_sysv_nt.Common.{arith, get_or, set, length, replicate, ◌==◌, if◌then◌else◌}

-- 1 if the slot refers to description `a`.
abbrev pub refers : ℕ → Option ℕ → ℕ
refers a none = 0
refers a (some b) = if a == b then 1 else 0

abbrev pub count : ℕ → List (Option ℕ) → ℕ
count a [] = 0
count a (slot ∷ slots) = refers a slot + count a slots

pub count-set :
    (a : ℕ) (slots : List (Option ℕ)) (i : ℕ) (v : Option ℕ)
    → i < length slots
    → count a (set slots i v) + refers a (get_or slots i none) ≡ count a slots + refers a v
count-set a [] i v h = absurd (omega arith)
count-set a (s ∷ slots) zero v h = omega arith
count-set a (s ∷ slots) (suc i) v h = omega (arith, count-set a slots i v)

pub count-replicate : (a n : ℕ) → count a (replicate n none) ≡ 0
count-replicate a zero = refl
count-replicate a (suc n) = omega (arith, count-replicate a n)

pub refers-le-count :
    (a : ℕ) (slots : List (Option ℕ)) (i : ℕ) → get_or slots i none ≡ some a → 0 < count a slots
refers-le-count a [] i h = ground arith
refers-le-count a (s ∷ slots) zero h = ground arith
refers-le-count a (s ∷ slots) (suc i) h = ground (arith, refers-le-count a slots i h)
