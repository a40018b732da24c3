-- ===== src/Common/Errno.antt =====
-- core/lxerrno.h: the Linux errno values, and the results of functions that return a value or a
-- negated errno.
use Prim.Native.Nat.{ℕ}

pub data Errno : Type 0 where
  eperm enoent eio enxio ebadf eagain enomem eacces efault ebusy eexist exdev enotdir eisdir : Errno
  einval emfile enospc espipe epipe erange enametoolong enosys enotempty eloop : Errno

pub code_of : Errno → ℕ
code_of eperm = 1
code_of enoent = 2
code_of eio = 5
code_of enxio = 6
code_of ebadf = 9
code_of eagain = 11
code_of enomem = 12
code_of eacces = 13
code_of efault = 14
code_of ebusy = 16
code_of eexist = 17
code_of exdev = 18
code_of enotdir = 20
code_of eisdir = 21
code_of einval = 22
code_of emfile = 24
code_of enospc = 28
code_of espipe = 29
code_of epipe = 32
code_of erange = 34
code_of enametoolong = 36
code_of enosys = 38
code_of enotempty = 39
code_of eloop = 40

-- A value, or the errno whose negation the function returns.
pub data Result {ℓ} (A : Type ℓ) : Type ℓ where
  ok : A → Result A
  err : Errno → Result A
