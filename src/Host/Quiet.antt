-- ===== src/Host/Quiet.antt =====
-- Rules for the handles that a computation of the VFS leaves open.
use elf_sysv_nt.Common.{ℕ, refl, ◌∙◌, Bool, true, false, if◌then◌else◌, arith}
use elf_sysv_nt.Common.Errno.{Errno, Result, ok, err}
use elf_sysv_nt.Host.{
  M, resume, ◌>>=◌, pure, fail, attempt, check, lift, HostFs, closing, Handles, SameHandles,
  OneMore,
}
use elf_sysv_nt.Host.{IsQuiet, HandleLaws, Opened, opened, met_link, failed, OpensOne}

-- A computation whose value is a fresh open handle, and that is quiet where it fails.
abbrev pub OpensResult : {S : Type 0} → Handles S → S → Result ℕ × S → Type 0
OpensResult is_open s (ok h, s') = OneMore is_open h s s'
OpensResult is_open s (err e, s') = SameHandles is_open s s'

abbrev pub Opens : {S : Type 0} → Handles S → M S ℕ → Type 0
Opens {S} is_open m = (s : S) → OpensResult is_open s (m s)

module _ {S : Type 0} (is_open : Handles S) where
  pub pure-IsQuiet : {A : Type 0} (a : A) → IsQuiet is_open (pure a)
  pure-IsQuiet a = record { same = λ s k. refl }

  pub fail-IsQuiet : (A : Type 0) (e : Errno) → IsQuiet is_open (fail {A = A} e)
  fail-IsQuiet A e = record { same = λ s k. refl }

  pub lift-IsQuiet : {A : Type 0} (r : Result A) → IsQuiet is_open (lift r)
  lift-IsQuiet r = record { same = λ s k. refl }

  pub check-IsQuiet : (b : Bool) (e : Errno) → IsQuiet is_open (check b e)
  check-IsQuiet true e = record { same = λ s k. refl }
  check-IsQuiet false e = record { same = λ s k. refl }

  pub bind_result :
      {A B : Type 0} (f : A → M S B) (s : S) (r : Result A) (s' : S)
      → SameHandles is_open s s'
      → ((a : A) → IsQuiet is_open (f a))
      → SameHandles is_open s (resume r f s').1
  bind_result f s (ok a) s' h q = λ k. (q a).same s' k ∙ h k
  bind_result f s (err e) s' h q = h

  pub bind-IsQuiet :
      {A B : Type 0} (m : M S A) (f : A → M S B)
      → IsQuiet is_open m
      → ((a : A) → IsQuiet is_open (f a))
      → IsQuiet is_open (m >>= f)
  bind-IsQuiet m f q k = record { same = λ s. bind_result f s (m s).0 (m s).1 (q.same s) k }

  pub attempt-IsQuiet : {A : Type 0} (m : M S A) → IsQuiet is_open m → IsQuiet is_open (attempt m)
  attempt-IsQuiet m q = record { same = q.same }

  pub if-IsQuiet :
      {A : Type 0} (b : Bool) (m n : M S A)
      → IsQuiet is_open m
      → IsQuiet is_open n
      → IsQuiet is_open (if b then m else n)
  if-IsQuiet true m n p q = p
  if-IsQuiet false m n p q = q

  module _ (fs : HostFs S) (laws : HandleLaws fs is_open) where
    -- Closing the one handle that is more restores the handles.
    pub close_restores :
        (h : ℕ) (s s' s'' : S)
        → OneMore is_open h s s'
        → SameHandles is_open s' s''
        → SameHandles is_open s (fs.close h s'')
    close_restores h s s' s'' more same k =
        ground (arith, laws.close_one h s'' k, more.1 k, same k, more.0)

    pub using_result :
        {A : Type 0} (f : ℕ → M S A) (s : S) (r : Result ℕ) (s' : S)
        → OpensResult is_open s (r, s')
        → ((h : ℕ) → IsQuiet is_open (f h))
        → SameHandles is_open s (resume r (λ h. closing fs h (f h)) s').1
    using_result f s (ok h) s' o q = close_restores h s s' (f h s').1 o ((q h).same s')
    using_result f s (err e) s' o q = o

    -- What opens a handle, uses it quietly and closes it is quiet.
    pub using-IsQuiet :
        {A : Type 0} (m : M S ℕ) (f : ℕ → M S A)
        → Opens is_open m
        → ((h : ℕ) → IsQuiet is_open (f h))
        → IsQuiet is_open (m >>= λ h. closing fs h (f h))
    using-IsQuiet m f o q = record { same = λ s. using_result f s (m s).0 (m s).1 (o s) q }

    using_then_result :
        {A B : Type 0} (f : ℕ → M S A) (g : A → M S B) (s : S) (r : Result ℕ) (s' : S)
        → OpensResult is_open s (r, s')
        → ((h : ℕ) → IsQuiet is_open (f h))
        → ((a : A) → IsQuiet is_open (g a))
        → SameHandles is_open s (resume r (λ h. closing fs h (f h) >>= g) s').1
    using_then_result f g s (ok h) s' o q k =
        bind_result g s (f h s').0 (fs.close h (f h s').1)
          (close_restores h s s' (f h s').1 o ((q h).same s')) k
    using_then_result f g s (err e) s' o q k = o

    -- The same, going on with the result once the handle is closed.
    pub using_then-IsQuiet :
        {A B : Type 0} (m : M S ℕ) (f : ℕ → M S A) (g : A → M S B)
        → Opens is_open m
        → ((h : ℕ) → IsQuiet is_open (f h))
        → ((a : A) → IsQuiet is_open (g a))
        → IsQuiet is_open (m >>= λ h. closing fs h (f h) >>= g)
    using_then-IsQuiet m f g o q k = record {
      same = λ s. using_then_result f g s (m s).0 (m s).1 (o s) q k;
    }

    -- From a state with one handle more than `s`, closing it while another is opened leaves one more.
    pub swap_handle :
        (h n : ℕ) (s s' s'' : S)
        → OneMore is_open h s s'
        → OneMore is_open n s' s''
        → OneMore is_open n s (fs.close h s'')
    swap_handle h n s s' s'' more more' = (
      ground (arith, more.1 n, more'.0),
      λ k. ground (arith, laws.close_one h s'' k, more.1 k, more.1 n, more'.0, more'.1 k, more.0),
    )

    -- What an open leaves, once the handle that it started from is closed.
    pub trade_handle :
        (d : ℕ) (s s' s'' : S) (o : Opened)
        → OneMore is_open d s s'
        → OpensOne is_open s' (o, s'')
        → OpensOne is_open s (o, fs.close d s'')
    trade_handle d s s' s'' (opened h st) more one = swap_handle d h s s' s'' more one
    trade_handle d s s' s'' (met_link h st) more one = swap_handle d h s s' s'' more one
    trade_handle d s s' s'' (failed e) more one = close_restores d s s' s'' more one

    replace_result :
        {A : Type 0} (n : ℕ → M S ℕ) (f : ℕ → M S A) (s : S) (r : Result ℕ) (s' : S)
        → OpensResult is_open s (r, s')
        → ((d : ℕ) (s s' : S) → OneMore is_open d s s' → OpensResult is_open s (n d s'))
        → ((h : ℕ) → IsQuiet is_open (f h))
        → SameHandles is_open s (resume r (λ d. n d >>= λ l. closing fs l (f l)) s').1
    replace_result n f s (ok d) s' o swap q =
        using_result f s (n d s').0 (n d s').1 (swap d s s' o) q
    replace_result n f s (err e) s' o swap q = o

    -- A handle that is given up for another, which is used quietly and closed.
    pub replace-IsQuiet :
        {A : Type 0} (m : M S ℕ) (n : ℕ → M S ℕ) (f : ℕ → M S A)
        → Opens is_open m
        → ((d : ℕ) (s s' : S) → OneMore is_open d s s' → OpensResult is_open s (n d s'))
        → ((h : ℕ) → IsQuiet is_open (f h))
        → IsQuiet is_open (m >>= λ d. n d >>= λ l. closing fs l (f l))
    replace-IsQuiet m n f o swap q = record {
      same = λ s. replace_result n f s (m s).0 (m s).1 (o s) swap q;
    }

pub ruleset quiet_rules =
    (bind-IsQuiet, if-IsQuiet, pure-IsQuiet, fail-IsQuiet, lift-IsQuiet, check-IsQuiet)
