-- ===== src/Sys/Fds.antt =====
-- core/sys_fs.c: the calls on descriptors. `release` is the kinds' own function, and `Calloc` stands
-- for the C library's allocator.
use elf_sysv_nt.Common.{
  ℕ, ◌+◌, ◌-◌, ◌%◌, ◌^◌, Bool, true, false, not, Option, none, some, ℤ, pos, negsuc, ◌==◌, ltb,
  if◌then◌else◌, has_bit, clear_bit,
}
use elf_sysv_nt.Common.Errno.{Result, ok, err, ebadf, einval, efault}
use elf_sysv_nt.File.{
  File, Store, FdTable, update, fd_get, file_put, fd_install, fd_close, fd_dup2, fd_get_cloexec,
  fd_set_cloexec,
}
use elf_sysv_nt.Pipe.{Pipes, vfs_pipe}

-- The current task's descriptor table, and the descriptions.
pub record Task : Type 0 where
  pub fds : FdTable
  pub store : Store Pipes

abbrev pub o_cloexec : ℕ
o_cloexec = 0o2000000

abbrev pub o_nonblock : ℕ
o_nonblock = 0o4000

-- `F_*`, and any other command.
pub data FcntlCmd : Type 0 where
  f_dupfd f_dupfd_cloexec f_getfd f_setfd f_getfl f_setfl f_other : FcntlCmd

-- The addresses for a ring and two descriptions that three `calloc` calls return.
pub record Calloc : Type 0 where
  pub ring : Store Pipes → Option ℕ
  pub reader : Store Pipes → Option ℕ
  pub writer : Store Pipes → Option ℕ

abbrev pub same_fd : ℤ → ℤ → Bool
same_fd (pos a) (pos b) = a == b
same_fd (negsuc a) (negsuc b) = a == b
same_fd _ _ = false

-- A result of file.c as the task's.
abbrev pub into : {A : Type 0} → Result A × FdTable × Store Pipes → Result A × Task
into (r, t, s) = (r, record { fds = t; store = s })

abbrev pub as_int : ℤ → ℕ
as_int (pos n) = n
as_int (negsuc n) = 0

-- `(unsigned)arg`
abbrev pub as_unsigned : ℤ → ℕ
as_unsigned (pos n) = n % 2 ^ 32
as_unsigned (negsuc n) = 2 ^ 32 - 1 - n % 2 ^ 32

-- `(int)arg`
abbrev pub int_of : ℤ → ℤ
int_of arg =
    if ltb (as_unsigned arg) (2 ^ 31)
    then pos (as_unsigned arg)
    else negsuc (2 ^ 32 - 1 - as_unsigned arg)

-- The flags that F_SETFL changes: O_APPEND, O_NONBLOCK, O_DIRECT and O_NOATIME.
abbrev flag_in : ℕ → ℕ → ℕ
flag_in bit flags = if has_bit flags bit then bit else 0

abbrev pub settable : ℕ → ℕ
settable flags =
    flag_in 0o2000 flags + flag_in 0o4000 flags + flag_in 0o40000 flags + flag_in 0o1000000 flags

abbrev pub with_flags : ℕ → ℤ → ℕ
with_flags flags arg = flags - settable flags + settable (as_unsigned arg)

abbrev pub drop_unit : {A : Type 0} → Result A × Task → Result ℕ × Task
drop_unit (ok u, k) = (ok 0, k)
drop_unit (err e, k) = (err e, k)

abbrev pub set_flags : ℕ → ℤ → Task → Option File → Result ℕ × Task
set_flags a arg k none = (ok 0, k)
set_flags a arg k (some f) = (
  ok 0,
  record k {
    store = record (k.store) {
      files = update k.store.files a (some (record f { flags = with_flags f.flags arg }));
    };
  },
)

abbrev flags_of : Option File → ℕ
flags_of none = 0
flags_of (some f) = clear_bit f.flags o_cloexec

abbrev pub set_table : Task → Result FdTable → Result ℕ × Task
set_table k (ok t) = (ok 0, record k { fds = t })
set_table k (err e) = (err e, k)

module _ (release : File → Pipes → Pipes) where
  abbrev pub install : Task → ℕ → Bool → ℤ → Result ℕ × Task
  install k a cloexec min = into (fd_install release k.fds a cloexec min k.store)

  abbrev pub put : ℕ → Task → Task
  put a k = record k { store = file_put release (some a) k.store }

  abbrev pub close : ℤ → Task → Result (Unit {0}) × Task
  close fd k = into (fd_close release k.fds fd k.store)

  unfoldable pub sys_close : ℤ → Task → Result ℕ × Task
  sys_close fd k = drop_unit (close fd k)

  abbrev pub dup_file : Option ℕ → Task → Result ℕ × Task
  dup_file none k = (err ebadf, k)
  dup_file (some a) k = install k a false (pos 0)

  unfoldable pub sys_dup : ℤ → Task → Result ℕ × Task
  sys_dup fd k = dup_file (fd_get k.fds fd) k

  abbrev pub over : ℤ → ℤ → Bool → Task → Result ℕ × Task
  over oldfd newfd cloexec k = into (fd_dup2 release k.fds oldfd newfd cloexec k.store)

  unfoldable pub sys_dup3 : ℤ → ℤ → ℕ → Task → Result ℕ × Task
  sys_dup3 oldfd newfd flags k =
      if not (clear_bit flags o_cloexec == 0)
      then (err einval, k)
      else if same_fd oldfd newfd
      then (err einval, k)
      else over oldfd newfd (has_bit flags o_cloexec) k

  abbrev pub dup2_file : ℤ → ℤ → Option ℕ → Task → Result ℕ × Task
  dup2_file oldfd newfd none k = (err ebadf, k)
  dup2_file oldfd newfd (some a) k =
      if same_fd oldfd newfd then (ok (as_int newfd), k) else over oldfd newfd false k

  unfoldable pub sys_dup2 : ℤ → ℤ → Task → Result ℕ × Task
  sys_dup2 oldfd newfd k = dup2_file oldfd newfd (fd_get k.fds oldfd) k

  abbrev pub fcntl_file : ℤ → FcntlCmd → ℤ → Option ℕ → Task → Result ℕ × Task
  fcntl_file fd cmd arg none k = (err ebadf, k)
  fcntl_file fd f_dupfd arg (some a) k = install k a false (int_of arg)
  fcntl_file fd f_dupfd_cloexec arg (some a) k = install k a true (int_of arg)
  fcntl_file fd f_getfd arg (some a) k = (fd_get_cloexec k.fds fd, k)
  fcntl_file fd f_setfd arg (some a) k =
      set_table k (fd_set_cloexec k.fds fd (as_unsigned arg % 2 == 1))
  fcntl_file fd f_getfl arg (some a) k = (ok (flags_of (k.store.files a)), k)
  fcntl_file fd f_setfl arg (some a) k = set_flags a arg k (k.store.files a)
  fcntl_file fd f_other arg (some a) k = (err einval, k)

  unfoldable pub sys_fcntl : ℤ → FcntlCmd → ℤ → Task → Result ℕ × Task
  sys_fcntl fd cmd arg k = fcntl_file fd cmd arg (fd_get k.fds fd) k

  -- The end of sys_openat, from the description that vfs_open made at `a`.
  unfoldable pub install_opened : ℕ → ℕ → Task → Result ℕ × Task
  install_opened a flags k =
      let (r, k') = install k a (has_bit flags o_cloexec) (pos 0) in (r, put a k')

  -- The end of sys_pipe2, with the two results of fd_install. `copied` tells whether two descriptors
  -- reach the caller's memory.
  abbrev pub second : ℕ → Bool → Result ℕ × Task → Result ℕ × Task
  second wr cloexec (err e, k) = (err e, k)
  second wr cloexec (ok fd, k) = install k wr cloexec (pos 0)

  abbrev pub close_one : ℕ → Task → Task
  close_one fd k = (close (pos fd) k).1

  unfoldable pub finish_pipe : (ℕ → ℕ → Bool) → Result ℕ → Result ℕ → Task → Result ℕ × Task
  finish_pipe copied (err e) r k = (err e, k)
  finish_pipe copied (ok fd) (err e) k = (err e, close_one fd k)
  finish_pipe copied (ok fd) (ok fd') k =
      if copied fd fd' then (ok 0, k) else (err efault, close_one fd' (close_one fd k))

  unfoldable pub install_pipe : (ℕ → ℕ → Bool) → Bool → ℕ → ℕ → Task → Result ℕ × Task
  install_pipe copied cloexec rd wr k =
      let first = install k rd cloexec (pos 0) in
      let both = second wr cloexec first in
      finish_pipe copied first.0 both.0 (put wr (put rd both.1))

  abbrev pub made_pipe :
      (ℕ → ℕ → Bool) → ℕ → FdTable → Result (ℕ × ℕ) × Store Pipes → Result ℕ × Task
  made_pipe copied flags t (err e, s) = (err e, record { fds = t; store = s })
  made_pipe copied flags t (ok (rd, wr), s) =
      install_pipe copied (has_bit flags o_cloexec) rd wr (record { fds = t; store = s })

  unfoldable pub sys_pipe2 : Calloc → (ℕ → ℕ → Bool) → ℕ → Task → Result ℕ × Task
  sys_pipe2 calloc copied flags k =
      if not (clear_bit (clear_bit flags o_nonblock) o_cloexec == 0)
      then (err einval, k)
      else made_pipe copied flags k.fds (
          vfs_pipe (calloc.ring k.store) (calloc.reader k.store) (calloc.writer k.store) flags
            k.store)

-- The calls on descriptors in the table of sys_fs_dispatch; NR_pipe is NR_pipe2 without flags.
pub data FdCall : Type 0 where
  close_fd dup_fd : ℤ → FdCall
  dup2_fd : ℤ → ℤ → FdCall
  dup3_fd : ℤ → ℤ → ℕ → FdCall
  fcntl_fd : ℤ → FcntlCmd → ℤ → FdCall
  pipe2_fd : ℕ → FdCall

unfoldable pub dispatch_fd :
    (File → Pipes → Pipes) → Calloc → (ℕ → ℕ → Bool) → FdCall → Task → Result ℕ × Task
dispatch_fd release calloc copied (close_fd fd) k = sys_close release fd k
dispatch_fd release calloc copied (dup_fd fd) k = sys_dup release fd k
dispatch_fd release calloc copied (dup2_fd old new) k = sys_dup2 release old new k
dispatch_fd release calloc copied (dup3_fd old new flags) k = sys_dup3 release old new flags k
dispatch_fd release calloc copied (fcntl_fd fd cmd arg) k = sys_fcntl release fd cmd arg k
dispatch_fd release calloc copied (pipe2_fd flags) k = sys_pipe2 release calloc copied flags k
