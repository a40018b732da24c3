-- ===== src/Sys/Sound.antt =====
-- core/sys_fs.c: the calls on descriptors keep the reference counts.
use elf_sysv_nt.Common.{
  ℕ, ◌%◌, ◌≡◌, refl, sym, ap, ◌∙◌, Bool, true, false, not, Option, none, some, List, ℤ, pos, negsuc,
  length, ◌==◌, if◌then◌else◌, has_bit, clear_bit, arith, Bool-cases, inl, inr,
}
use elf_sysv_nt.Common.Errno.{Errno, Result, ok, err, ebadf}
use elf_sysv_nt.File.{File, FdTable, nr_open_default, update, fd_get, fd_set_cloexec, is_free}
use elf_sysv_nt.File.Balance.{
  IsBalanced, Counts, is_live, refs_of, fd_install-IsBalanced, fd_close-IsBalanced,
  fd_dup2-IsBalanced, live_of_slot,
}
use elf_sysv_nt.Pipe.{Pipes}
use elf_sysv_nt.Sys.Fds.{
  Task, FcntlCmd, f_dupfd, f_dupfd_cloexec, f_getfd, f_setfd, f_getfl, f_setfl, f_other, install,
  close, sys_close, sys_dup, sys_dup2, sys_dup3, sys_fcntl, drop_unit, over, set_table, set_flags,
  dup_file, dup2_file, fcntl_file, same_fd, o_cloexec, with_flags, as_unsigned, int_of,
}

-- A table of 1024 slots whose descriptions' reference counts are right, `held` references aside.
pub record IsSound (held : ℕ → ℕ) (k : Task) : Type 0 where
  pub full : length k.fds.slots ≡ nr_open_default
  pub balanced : IsBalanced held k.fds.slots k.store

module _ (release : File → Pipes → Pipes) (held : ℕ → ℕ) (k : Task) (w : IsSound held k) where
  pub install-IsSound :
      (a : ℕ) (cloexec : Bool) (min : ℤ)
      → is_live (k.store.files a) ≡ true
      → IsSound held (install release k a cloexec min).1
  install-IsSound a cloexec min live =
      let (bal, full) =
        fd_install-IsBalanced release held k.fds a cloexec min k.store w.full w.balanced live in
      record { full = full; balanced = bal }

  pub close-IsSound : (fd : ℤ) → IsSound held (close release fd k).1
  close-IsSound fd =
      let (bal, full) = fd_close-IsBalanced release held k.fds fd k.store w.full w.balanced in
      record { full = full; balanced = bal }

  over-IsSound :
      (oldfd newfd : ℤ) (cloexec : Bool) → IsSound held (over release oldfd newfd cloexec k).1
  over-IsSound oldfd newfd cloexec =
      let (bal, full) =
        fd_dup2-IsBalanced release held k.fds oldfd newfd cloexec k.store w.full w.balanced in
      record { full = full; balanced = bal }

-- The task after a call that is sound whichever way a test goes.
pub if-IsSound :
    (held : ℕ → ℕ) (b : Bool) (p q : Result ℕ × Task)
    → IsSound held p.1
    → IsSound held q.1
    → IsSound held (if b then p else q).1
if-IsSound held true p q hp hq = hp
if-IsSound held false p q hp hq = hq

drop_unit-task : {A : Type 0} (p : Result A × Task) → (drop_unit p).1 ≡ p.1
drop_unit-task (ok u, k) = refl
drop_unit-task (err e, k) = refl

-- New flags in a description leave its references as they were.
set_flags-Counts :
    (f : ℕ → Option File) (a b flags n : ℕ) (g : File)
    → f a ≡ some g
    → Counts (f b) n
    → Counts (update f a (some (record g { flags = flags })) b) n
set_flags-Counts f a b flags n g h c = elim (Bool-cases (a == b)) [
  | inl same ↦
      let e : a ≡ b = ground arith in
      let c' : Counts (f a) n = rw e c in
      rw same (sym (ap refs_of h) ∙ c'.0, sym (ap is_live h) ∙ c'.1)
  | inr other ↦ rw other c
]

abbrev SameSlots : List (Option ℕ) → Result FdTable → Type 0
SameSlots slots (err e) = Unit
SameSlots slots (ok t) = t.slots ≡ slots

set_table-IsSound :
    (held : ℕ → ℕ) (k : Task) (r : Result FdTable)
    → IsSound held k
    → SameSlots k.fds.slots r
    → IsSound held (set_table k r).1
set_table-IsSound held k (err e) w h = w
set_table-IsSound held k (ok t) w h = record {
  full = ap length h ∙ w.full;
  balanced = rw h w.balanced;
}

if-SameSlots :
    (slots : List (Option ℕ)) (b : Bool) (r : Result FdTable) (e : Errno)
    → SameSlots slots r
    → SameSlots slots (if b then err e else r)
if-SameSlots slots true r e h = tt
if-SameSlots slots false r e h = h

fd_set_cloexec-SameSlots :
    (t : FdTable) (fd : ℤ) (on : Bool) → SameSlots t.slots (fd_set_cloexec t fd on)
unfolding fd_set_cloexec
fd_set_cloexec-SameSlots t (negsuc n) on = tt
fd_set_cloexec-SameSlots t (pos fd) on =
    if-SameSlots t.slots (is_free (fd_get t (pos fd))) _ ebadf refl

set_flags-IsSound :
    (held : ℕ → ℕ) (k : Task) (a : ℕ) (arg : ℤ) (o : Option File)
    → k.store.files a ≡ o
    → IsSound held k
    → IsSound held (set_flags a arg k o).1
set_flags-IsSound held k a arg none h w = w
set_flags-IsSound held k a arg (some f) h w = record {
  full = w.full;
  balanced = λ b. set_flags-Counts k.store.files a b (with_flags f.flags arg) _ f h (w.balanced b);
}

module _ (release : File → Pipes → Pipes) (held : ℕ → ℕ) (k : Task) (w : IsSound held k) where
  -- A descriptor's description is live.
  live_fd : (fd : ℤ) (a : ℕ) → fd_get k.fds fd ≡ some a → is_live (k.store.files a) ≡ true
  live_fd fd a h = live_of_slot release held k.fds fd a k.store w.balanced h

  pub sys_close-IsSound : (fd : ℤ) → IsSound held (sys_close release fd k).1
  unfolding sys_close
  sys_close-IsSound fd =
      rw (drop_unit-task (close release fd k)) (close-IsSound release held k w fd)

  dup_file-IsSound :
      (fd : ℤ) (o : Option ℕ) → fd_get k.fds fd ≡ o → IsSound held (dup_file release o k).1
  dup_file-IsSound fd none h = w
  dup_file-IsSound fd (some a) h = install-IsSound release held k w a false (pos 0) (live_fd fd a h)

  pub sys_dup-IsSound : (fd : ℤ) → IsSound held (sys_dup release fd k).1
  unfolding sys_dup
  sys_dup-IsSound fd = dup_file-IsSound fd (fd_get k.fds fd) refl

  dup2_file-IsSound : (old new : ℤ) (o : Option ℕ) → IsSound held (dup2_file release old new o k).1
  dup2_file-IsSound old new none = w
  dup2_file-IsSound old new (some a) =
      if-IsSound held (same_fd old new) _ _ w (over-IsSound release held k w old new false)

  pub sys_dup2-IsSound : (old new : ℤ) → IsSound held (sys_dup2 release old new k).1
  unfolding sys_dup2
  sys_dup2-IsSound old new = dup2_file-IsSound old new (fd_get k.fds old)

  pub sys_dup3-IsSound :
      (old new : ℤ) (flags : ℕ) → IsSound held (sys_dup3 release old new flags k).1
  unfolding sys_dup3
  sys_dup3-IsSound old new flags = if-IsSound held (not (clear_bit flags o_cloexec == 0)) _ _ w (
      if-IsSound held (same_fd old new) _ _ w
        (over-IsSound release held k w old new (has_bit flags o_cloexec)))

  fcntl_file-IsSound :
      (fd : ℤ) (cmd : FcntlCmd) (arg : ℤ) (o : Option ℕ)
      → fd_get k.fds fd ≡ o
      → IsSound held (fcntl_file release fd cmd arg o k).1
  fcntl_file-IsSound fd cmd arg none h = w
  fcntl_file-IsSound fd f_dupfd arg (some a) h =
      install-IsSound release held k w a false (int_of arg) (live_fd fd a h)
  fcntl_file-IsSound fd f_dupfd_cloexec arg (some a) h =
      install-IsSound release held k w a true (int_of arg) (live_fd fd a h)
  fcntl_file-IsSound fd f_getfd arg (some a) h = w
  fcntl_file-IsSound fd f_setfd arg (some a) h =
      set_table-IsSound held k _ w (fd_set_cloexec-SameSlots k.fds fd (as_unsigned arg % 2 == 1))
  fcntl_file-IsSound fd f_getfl arg (some a) h = w
  fcntl_file-IsSound fd f_setfl arg (some a) h =
      set_flags-IsSound held k a arg (k.store.files a) refl w
  fcntl_file-IsSound fd f_other arg (some a) h = w

  pub sys_fcntl-IsSound :
      (fd : ℤ) (cmd : FcntlCmd) (arg : ℤ) → IsSound held (sys_fcntl release fd cmd arg k).1
  unfolding sys_fcntl
  sys_fcntl-IsSound fd cmd arg = fcntl_file-IsSound fd cmd arg (fd_get k.fds fd) refl
