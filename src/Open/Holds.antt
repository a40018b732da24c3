-- ===== src/Open/Holds.antt =====
-- Rules for the handle that a computation giving a description leaves open.
use elf_sysv_nt.Common.{ℕ, sym, ◌∙◌, Bool, true, false, Option, none, some}
use elf_sysv_nt.Common.{if◌then◌else◌, arith}
use elf_sysv_nt.Common.Errno.{Result, ok, err}
use elf_sysv_nt.Host.{M, resume, ◌>>=◌, Handles}
use elf_sysv_nt.Host.{OneMore, IsQuiet, SameHandles}
use elf_sysv_nt.Host.Quiet.{OpensResult, Opens}
use elf_sysv_nt.Open.{Description}

-- A description holds its one handle open, or none if it is not on the host store.
abbrev pub HoldsHandle : {S : Type 0} → Handles S → S → S → Option ℕ → Type 0
HoldsHandle is_open s s' none = SameHandles is_open s s'
HoldsHandle is_open s s' (some h) = OneMore is_open h s s'

abbrev pub Holds : {S : Type 0} → Handles S → S → Result Description × S → Type 0
Holds is_open s (err e, s') = SameHandles is_open s s'
Holds is_open s (ok f, s') = HoldsHandle is_open s s' f.handle

pub record IsOpening {S : Type 0} (is_open : Handles S) (m : M S Description) : Type 0 where
  pub holds : (s : S) → Holds is_open s (m s)

module _ {S : Type 0} (is_open : Handles S) where
  held_handle :
      (s s' s'' : S) (o : Option ℕ)
      → SameHandles is_open s s'
      → HoldsHandle is_open s' s'' o
      → HoldsHandle is_open s s'' o
  held_handle s s' s'' none same held = λ k. held k ∙ same k
  held_handle s s' s'' (some h) same held =
      (sym (same h) ∙ held.0, λ k. ground (arith, held.1 k, same k))

  pub from_same :
      (s s' : S) (r : Result Description × S)
      → SameHandles is_open s s'
      → Holds is_open s' r
      → Holds is_open s r
  from_same s s' (err e, s'') same held = λ k. held k ∙ same k
  from_same s s' (ok f, s'') same held = held_handle s s' s'' f.handle same held

  resume-Holds :
      {A : Type 0} (f : A → M S Description) (s : S) (r : Result A) (s' : S)
      → SameHandles is_open s s'
      → ((a : A) → IsOpening is_open (f a))
      → Holds is_open s (resume r f s')
  resume-Holds f s (ok a) s' same q = from_same s s' (f a s') same ((q a).holds s')
  resume-Holds f s (err e) s' same q = same

  pub bind-IsOpening :
      {A : Type 0} (m : M S A) (f : A → M S Description)
      → IsQuiet is_open m
      → ((a : A) → IsOpening is_open (f a))
      → IsOpening is_open (m >>= f)
  bind-IsOpening m f q k = record { holds = λ s. resume-Holds f s (m s).0 (m s).1 (q.same s) k }

  pub if-IsOpening :
      (b : Bool) (m n : M S Description)
      → IsOpening is_open m
      → IsOpening is_open n
      → IsOpening is_open (if b then m else n)
  if-IsOpening true m n p q = p
  if-IsOpening false m n p q = q

  directory-Holds :
      (f : ℕ → M S Description) (s : S) (r : Result ℕ) (s' : S)
      → OpensResult is_open s (r, s')
      → ((d : ℕ) (t : S) → OneMore is_open d s t → Holds is_open s (f d t))
      → Holds is_open s (resume r f s')
  directory-Holds f s (ok d) s' o q = q d s' o
  directory-Holds f s (err e) s' o q = o

  -- A directory's handle that the rest of the open gives up.
  pub directory-IsOpening :
      (m : M S ℕ) (f : ℕ → M S Description)
      → Opens is_open m
      → ((d : ℕ) (s s' : S) → OneMore is_open d s s' → Holds is_open s (f d s'))
      → IsOpening is_open (m >>= f)
  directory-IsOpening m f o q = record {
    holds = λ s. directory-Holds f s (m s).0 (m s).1 (o s) (λ d t. q d s t);
  }
