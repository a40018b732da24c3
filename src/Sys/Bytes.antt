-- ===== src/Sys/Bytes.antt =====
-- core/sys_fs.c: read, write and their variants, through the kernel's buffer of 65536 bytes.
use elf_sysv_nt.Common.{
  ℕ, zero, suc, ◌+◌, ◌-◌, ◌*◌, ◌/◌, ◌%◌, Bool, true, false, ◌||◌, Option, none, some, List, [], ◌∷◌,
  ℤ, pos, negsuc, length, drop, ltb, ◌==◌, if◌then◌else◌, has_bit,
}
use elf_sysv_nt.Common.Bytes.{field}
use elf_sysv_nt.Common.Errno.{
  Errno, Result, ok, err, efault, einval, ebadf, enomem, espipe, enotdir,
}
use elf_sysv_nt.Sys.{UserMemory}

abbrev pub bounce_size : ℕ
bounce_size = 65536

-- `struct file_ops`, the operations on bytes; `none` is a null pointer. The state has the
-- description's position.
pub record FileOps (S : Type 0) : Type 0 where
  pub read : Option (ℕ → S → Result (List ℕ) × S)
  pub write : Option (List ℕ → S → Result ℕ × S)
  pub pread : Option (ℕ → ℕ → S → Result (List ℕ) × S)
  pub pwrite : Option (List ℕ → ℕ → S → Result ℕ × S)
  pub lseek : Option (ℤ → ℕ → S → Result ℕ × S)
  pub getdents : Option (ℕ → S → Result (List ℕ) × S)

pub record OpenFile (S : Type 0) : Type 0 where
  pub flags : ℕ
  pub ops : FileOps S

abbrev o_path : ℕ
o_path = 0o10000000

-- `done ? done : -errno`
abbrev pub or_partial : ℕ → Errno → Result ℕ
or_partial zero e = err e
or_partial (suc n) e = ok (suc n)

abbrev pub chunk_of : ℕ → ℕ
chunk_of left = if ltb bounce_size left then bounce_size else left

-- The rounds that are enough for a call of `len` bytes.
abbrev pub rounds : ℕ → ℕ
rounds len = len / bounce_size + 1

module _ {S : Type 0} (mem : UserMemory S) (ubuf : ℕ) where
  -- What follows a copy out of `n` bytes, of `chunk` asked for; `next` goes on.
  abbrev pub copied : ℕ → ℕ → ℕ → Bool × S → (ℕ → S → Result ℕ × S) → Result ℕ × S
  copied done chunk n (false, s) next = (or_partial done efault, s)
  copied done chunk n (true, s) next = if ltb n chunk then (ok (done + n), s) else next (done + n) s

  abbrev pub was_read : ℕ → ℕ → Result (List ℕ) × S → (ℕ → S → Result ℕ × S) → Result ℕ × S
  was_read done chunk (err e, s) next = (or_partial done e, s)
  was_read done chunk (ok [], s) next = (ok done, s)
  was_read done chunk (ok (b ∷ bytes), s) next =
      copied done chunk (length (b ∷ bytes)) (mem.copy_out (ubuf + done) (b ∷ bytes) s) next

  -- The loop of do_read: `get done chunk` is the read of the next chunk.
  unfoldable pub read_rounds : (ℕ → ℕ → S → Result (List ℕ) × S) → ℕ → ℕ → ℕ → S → Result ℕ × S
  read_rounds get len zero done s = (ok done, s)
  read_rounds get len (suc n) done s =
      if ltb done len
      then was_read done (chunk_of (len - done)) (get done (chunk_of (len - done)) s)
          (read_rounds get len n)
      else (ok done, s)

  abbrev pub was_written : ℕ → ℕ → Result ℕ × S → (ℕ → S → Result ℕ × S) → Result ℕ × S
  was_written done chunk (err e, s) next = (or_partial done e, s)
  was_written done chunk (ok n, s) next =
      if ltb n chunk then (ok (done + n), s) else next (done + n) s

  abbrev pub fetched :
      (ℕ → List ℕ → S → Result ℕ × S)
      → ℕ
      → ℕ
      → Option (List ℕ)
      → S
      → (ℕ → S → Result ℕ × S)
      → Result ℕ × S
  fetched put done chunk none s next = (or_partial done efault, s)
  fetched put done chunk (some bytes) s next = was_written done chunk (put done bytes s) next

  -- The loop of do_write: `put done bytes` is the write of the next chunk.
  unfoldable pub write_rounds : (ℕ → List ℕ → S → Result ℕ × S) → ℕ → ℕ → ℕ → S → Result ℕ × S
  write_rounds put len zero done s = (ok done, s)
  write_rounds put len (suc n) done s =
      if ltb done len
      then fetched put done (chunk_of (len - done))
          (mem.copy_in (ubuf + done) (chunk_of (len - done)) s) s (write_rounds put len n)
      else (ok done, s)

abbrev pub readable : ℕ → Bool
readable flags = (flags % 4 == 0) || (flags % 4 == 2)

abbrev pub writable : ℕ → Bool
writable flags = (flags % 4 == 1) || (flags % 4 == 2)

module _ {S : Type 0} (mem : UserMemory S) (has_bounce : Bool) where
  -- The checks that do_read and do_write begin with, and the loop if they pass.
  abbrev checked : Bool → ℕ → ℤ → (ℕ → S → Result ℕ × S) → S → Result ℕ × S
  checked may flags (negsuc n) go s = (err einval, s)
  checked may flags (pos len) go s =
      if has_bounce
      then (if may
          then (if has_bit flags o_path then (err ebadf, s) else go len s)
          else (err ebadf, s))
      else (err enomem, s)

  abbrev read_with : ℕ → Errno → Option (ℕ → ℕ → S → Result (List ℕ) × S) → ℕ → S → Result ℕ × S
  read_with ubuf e none len s = (err e, s)
  read_with ubuf e (some get) len s = read_rounds mem ubuf get len (rounds len) 0 s

  abbrev write_with : ℕ → Errno → Option (ℕ → List ℕ → S → Result ℕ × S) → ℕ → S → Result ℕ × S
  write_with ubuf e none len s = (err e, s)
  write_with ubuf e (some put) len s = write_rounds mem ubuf put len (rounds len) 0 s

  abbrev getter : FileOps S → Option ℕ → Option (ℕ → ℕ → S → Result (List ℕ) × S)
  getter ops none = elim (ops.read) [ none ↦ none | some f ↦ some (λ done chunk. f chunk) ]
  getter ops (some off) = elim (ops.pread) [
    | none ↦ none
    | some f ↦ some (λ done chunk. f chunk (off + done))
  ]

  abbrev putter : FileOps S → Option ℕ → Option (ℕ → List ℕ → S → Result ℕ × S)
  putter ops none = elim (ops.write) [ none ↦ none | some f ↦ some (λ done bytes. f bytes) ]
  putter ops (some off) = elim (ops.pwrite) [
    | none ↦ none
    | some f ↦ some (λ done bytes. f bytes (off + done))
  ]

  abbrev missing : Option ℕ → Errno
  missing none = einval
  missing (some off) = espipe

  -- The offset is given in a positional call.
  unfoldable pub do_read : OpenFile S → ℕ → ℤ → Option ℕ → S → Result ℕ × S
  do_read f ubuf len off s =
      checked (readable f.flags) f.flags len (read_with ubuf (missing off) (getter f.ops off)) s

  unfoldable pub do_write : OpenFile S → ℕ → ℤ → Option ℕ → S → Result ℕ × S
  do_write f ubuf len off s =
      checked (writable f.flags) f.flags len (write_with ubuf (missing off) (putter f.ops off)) s

-- `struct lx_iovec`
pub record Iovec : Type 0 where
  pub base : ℕ
  pub len : ℕ

-- The vectors in the bytes copied in, 16 bytes each.
unfoldable pub iovecs : ℕ → List ℕ → List Iovec
iovecs zero bytes = []
iovecs (suc n) bytes =
    record { base = field bytes 0 8; len = field bytes 8 8 } ∷ iovecs n (drop 16 bytes)

abbrev moved : {S : Type 0} → ℕ → ℕ → Result ℕ × S → (ℕ → S → Result ℕ × S) → Result ℕ × S
moved total len (err e, s) next = (or_partial total e, s)
moved total len (ok n, s) next = if ltb n len then (ok (total + n), s) else next (total + n) s

-- The loop of readv and writev; `go` is do_read or do_write on one vector.
unfoldable pub iov_loop :
    {S : Type 0} → (ℕ → ℤ → S → Result ℕ × S) → List Iovec → ℕ → S → Result ℕ × S
iov_loop go [] total s = (ok total, s)
iov_loop go (v ∷ vs) total s =
    if v.len == 0
    then iov_loop go vs total s
    else if ltb 0x7fffffff v.len
    then (or_partial total einval, s)
    else moved total v.len (go v.base (pos v.len) s) (iov_loop go vs)

module _ {S : Type 0} (mem : UserMemory S) (has_bounce : Bool) where
  abbrev one_vector : Bool → OpenFile S → ℕ → ℤ → S → Result ℕ × S
  one_vector true f base len s = do_write mem has_bounce f base len none s
  one_vector false f base len s = do_read mem has_bounce f base len none s

  abbrev vectors : Bool → OpenFile S → ℕ → Option (List ℕ) → S → Result ℕ × S
  vectors writing f n none s = (err efault, s)
  vectors writing f n (some bytes) s = iov_loop (one_vector writing f) (iovecs n bytes) 0 s

  -- `copy_in`, which reads nothing for a length of 0.
  abbrev copy_in : ℕ → ℕ → S → Option (List ℕ)
  copy_in a len s = if len == 0 then some [] else mem.copy_in a len s

  -- `file` is what `fget` gives, and `has_room` tells whether the vectors find memory.
  unfoldable pub sys_readv_writev : Bool → Option (OpenFile S) → Bool → ℕ → ℤ → S → Result ℕ × S
  sys_readv_writev writing none has_room uiov cnt s = (err ebadf, s)
  sys_readv_writev writing (some f) has_room uiov (negsuc k) s = (err einval, s)
  sys_readv_writev writing (some f) has_room uiov (pos n) s =
      if ltb 1024 n
      then (err einval, s)
      else if has_room
      then vectors writing f n (copy_in uiov (n * 16) s) s
      else (err enomem, s)

  unfoldable pub sys_lseek : Option (OpenFile S) → ℤ → ℕ → S → Result ℕ × S
  sys_lseek none off whence s = (err ebadf, s)
  sys_lseek (some f) off whence s = elim (f.ops.lseek) [
    | none ↦ (err espipe, s)
    | some seek ↦ seek off whence s
  ]

  abbrev delivered : ℕ → Bool × S → Result ℕ × S
  delivered n (false, s) = (err efault, s)
  delivered n (true, s) = (ok n, s)

  abbrev listed : ℕ → Result (List ℕ) × S → Result ℕ × S
  listed ubuf (err e, s) = (err e, s)
  listed ubuf (ok [], s) = (ok 0, s)
  listed ubuf (ok (b ∷ bytes), s) = delivered (length (b ∷ bytes)) (mem.copy_out ubuf (b ∷ bytes) s)

  abbrev list_with : ℕ → ℤ → Option (ℕ → S → Result (List ℕ) × S) → S → Result ℕ × S
  list_with ubuf len none s = (err enotdir, s)
  list_with ubuf (negsuc k) (some get) s = (err einval, s)
  list_with ubuf (pos len) (some get) s =
      if has_bounce then listed ubuf (get (chunk_of len) s) else (err enomem, s)

  unfoldable pub sys_getdents64 : Option (OpenFile S) → ℕ → ℤ → S → Result ℕ × S
  sys_getdents64 none ubuf len s = (err ebadf, s)
  sys_getdents64 (some f) ubuf len s = list_with ubuf len f.ops.getdents s
