-- ===== src/Walk/Landing.antt =====
-- Places, and rules for walks that end at one.
use elf_sysv_nt.Common.{ℕ, zero, suc, ◌≤◌, ◌<◌, ◌≡◌, refl, Bool, true, false}
use elf_sysv_nt.Common.{[], ◌∷◌, CString, length, take, ◌==◌, arith}
use elf_sysv_nt.Common.{Option, none, some, if◌then◌else◌, ap, take-nil}
use elf_sysv_nt.Common.Errno.{Errno, Result, ok, err}
use elf_sysv_nt.Host.{M, resume, ◌>>=◌, pure, fail, lift}
use elf_sysv_nt.Path.{slash, path_max, path_parent, last_slash}
use elf_sysv_nt.Path.Canon.{IsCanonical, path_parent-IsCanonical}
use elf_sysv_nt.Walk.{Loc}

-- A canonical path that fits the kernel's path buffers with its terminator.
abbrev pub IsPlace : CString → Type 0
IsPlace abs = IsCanonical abs × (length abs < path_max)

-- Where the computation gives a location, it is at a place.
pub record IsLanding {S : Type 0} (m : M S Loc) : Type 0 where
  pub lands : (s : S) (loc : Loc) → (m s).0 ≡ ok loc → IsPlace loc.abs

pub take-short : (n : ℕ) (s : CString) → length s ≤ n → take n s ≡ s
take-short n [] h = take-nil ℕ n
take-short zero (c ∷ s) h = absurd (omega arith)
take-short (suc n) (c ∷ s) h = ap (λ r. c ∷ r) (take-short n s (omega arith))

take-length-le : (n : ℕ) (s : CString) → length (take n s) ≤ length s
take-length-le zero s = ground arith
take-length-le (suc n) [] = ground arith
take-length-le (suc n) (c ∷ s) = omega (arith, take-length-le n s)

path_parent-le : (abs : CString) → length (path_parent abs) ≤ length abs
unfolding path_parent
path_parent-le abs = parent_len (last_slash abs)
  where
    parent_len :
        (o : Option ℕ)
        → length (elim o as (λ x. CString) [
          | none ↦ take 1 abs
          | some i ↦ if i == 0 then take 1 abs else take i abs
        ])
          ≤ length abs
    parent_len none = take-length-le 1 abs
    parent_len (some i) = ground (arith, take-length-le 1 abs, take-length-le i abs)

pub path_parent-IsPlace : (abs : CString) → IsPlace abs → IsPlace (path_parent abs)
path_parent-IsPlace abs place =
    (path_parent-IsCanonical abs place.0, omega (arith, path_parent-le abs, place.1))

pub root-IsPlace : IsPlace (slash ∷ [])
root-IsPlace = (([], refl, tt), omega arith)

module _ {S : Type 0} where
  pub fail-IsLanding : (e : Errno) → IsLanding {S = S} (fail e)
  fail-IsLanding e = record { lands = λ s loc eq. cc }

  pub pure-IsLanding : (loc : Loc) → IsPlace loc.abs → IsLanding {S = S} (pure loc)
  pure-IsLanding loc place = record { lands = λ s loc' eq. ground (arith, place) }

  resume-lands :
      {A : Type 0} (r : Result A) (f : A → M S Loc) (s : S) (loc : Loc)
      → ((a : A) → r ≡ ok a → IsLanding (f a))
      → (resume r f s).0 ≡ ok loc
      → IsPlace loc.abs
  resume-lands (ok a) f s loc q eq = (q a refl).lands s loc eq
  resume-lands (err e) f s loc q eq = cc

  pub bind-IsLanding :
      {A : Type 0} (m : M S A) (f : A → M S Loc) → ((a : A) → IsLanding (f a)) → IsLanding (m >>= f)
  bind-IsLanding m f q = record {
    lands = λ s loc eq. resume-lands (m s).0 f (m s).1 loc (λ a e. q a) eq;
  }

  pub lift-IsLanding :
      {A : Type 0} (r : Result A) (f : A → M S Loc)
      → ((a : A) → r ≡ ok a → IsLanding (f a))
      → IsLanding (lift r >>= f)
  lift-IsLanding r f q = record { lands = λ s loc eq. resume-lands r f s loc q eq }

  pub if-IsLanding :
      (b : Bool) (m n : M S Loc)
      → (b ≡ true → IsLanding m)
      → (b ≡ false → IsLanding n)
      → IsLanding (if b then m else n)
  if-IsLanding true m n p q = p refl
  if-IsLanding false m n p q = q refl

  landed-lands :
      (r : Result Loc) (f : Loc → M S Loc) (s : S) (loc : Loc)
      → ((l : Loc) → r ≡ ok l → IsPlace l.abs)
      → ((l : Loc) → IsPlace l.abs → IsLanding (f l))
      → (resume r f s).0 ≡ ok loc
      → IsPlace loc.abs
  landed-lands (ok l) f s loc p q eq = (q l (p l refl)).lands s loc eq
  landed-lands (err e) f s loc p q eq = cc

  pub then-IsLanding :
      (m : M S Loc) (f : Loc → M S Loc)
      → IsLanding m
      → ((l : Loc) → IsPlace l.abs → IsLanding (f l))
      → IsLanding (m >>= f)
  then-IsLanding m f p q = record {
    lands = λ s loc eq. landed-lands (m s).0 f (m s).1 loc (p.lands s) q eq;
  }
