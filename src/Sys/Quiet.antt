-- ===== src/Sys/Quiet.antt =====
-- core/sys_fs.c: the calls on paths leave no host handle open.
use elf_sysv_nt.Common.{
  ℕ, refl, Bool, true, false, Option, none, some, List, CString, ℤ, null, ◌==◌, if◌then◌else◌,
}
use elf_sysv_nt.Common.Errno.{Result, ebadf}
use elf_sysv_nt.Host.{M, pure, fail, Handles, SameHandles, IsQuiet}
use elf_sysv_nt.Host.Quiet.{bind-IsQuiet, check-IsQuiet, if-IsQuiet, pure-IsQuiet, fail-IsQuiet}
use elf_sysv_nt.Sys.{UserMemory}
use elf_sysv_nt.Sys.Paths.{
  OpenDir, read_path, out_result, write_out, optional_path, linked_out, read_times, cwd_out,
  fd_file, self_or, done,
}

-- Moving bytes to and from user memory leaves the host's handles alone.
module _ {S : Type 0} (mem : UserMemory S) (is_open : Handles S)
    (out_quiet : (a : ℕ) (bytes : List ℕ) (s : S)
      → SameHandles is_open s (mem.copy_out a bytes s).1) where
  pub read_path-IsQuiet : (upath : ℕ) → IsQuiet is_open (read_path mem upath)
  read_path-IsQuiet upath = record { same = λ s k. refl }

  pub optional_path-IsQuiet : (upath : ℕ) → IsQuiet is_open (optional_path mem upath)
  optional_path-IsQuiet upath = search (if-IsQuiet, pure-IsQuiet, read_path-IsQuiet)

  out_result-same :
      (s : S) (p : Bool × S)
      → SameHandles is_open s p.1
      → SameHandles is_open s (out_result mem p).1
  out_result-same s (true, s') h = h
  out_result-same s (false, s') h = h

  if-same :
      {A : Type 0} (b : Bool) (s : S) (p q : Result A × S)
      → SameHandles is_open s p.1
      → SameHandles is_open s q.1
      → SameHandles is_open s (if b then p else q).1
  if-same true s p q hp hq = hp
  if-same false s p q hp hq = hq

  pub write_out-IsQuiet : (a : ℕ) (bytes : List ℕ) → IsQuiet is_open (write_out mem a bytes)
  write_out-IsQuiet a bytes = record {
    same = λ s.
        if-same (null bytes) s _ _ (λ k. refl)
          (out_result-same s (mem.copy_out a bytes s) (out_quiet a bytes s));
  }

  pub linked_out-IsQuiet :
      (beyond : List ℕ) (ubuf room : ℕ) (t : CString)
      → IsQuiet is_open (linked_out mem beyond ubuf room t)
  linked_out-IsQuiet beyond ubuf room t =
      bind-IsQuiet is_open (write_out mem ubuf _) _ (write_out-IsQuiet ubuf _)
        (λ u. pure-IsQuiet is_open _)

  pub cwd_out-IsQuiet :
      (ubuf room : ℕ) (c : CString × ℕ) → IsQuiet is_open (cwd_out mem ubuf room c)
  cwd_out-IsQuiet ubuf room (cwd, n) =
      search (bind-IsQuiet, check-IsQuiet, pure-IsQuiet, write_out-IsQuiet)

  pub read_times-IsQuiet : (utimes : ℕ) → IsQuiet is_open (read_times mem utimes)
  read_times-IsQuiet utimes = record {
    same = λ s. if-same (utimes == 0) s _ _ (λ k. refl) (λ k. refl);
  }

module _ {S : Type 0} (is_open : Handles S) (fget : ℤ → Option OpenDir) where
  found-IsQuiet :
      (o : Option OpenDir)
      → IsQuiet is_open (elim o as (λ p. M S OpenDir) [ none ↦ fail ebadf | some f ↦ pure f ])
  found-IsQuiet none = fail-IsQuiet is_open OpenDir ebadf
  found-IsQuiet (some f) = pure-IsQuiet is_open f

  pub fd_file-IsQuiet : (fd : ℤ) → IsQuiet is_open (fd_file fget fd)
  fd_file-IsQuiet fd = found-IsQuiet (fget fd)

  pub self_or-IsQuiet : (o : Option OpenDir) (fd : ℤ) → IsQuiet is_open (self_or fget o fd)
  self_or-IsQuiet none fd = fd_file-IsQuiet fd
  self_or-IsQuiet (some f) fd = pure-IsQuiet is_open f

  pub done-IsQuiet : (m : M S (Unit {0})) → IsQuiet is_open m → IsQuiet is_open (done m)
  done-IsQuiet m q = bind-IsQuiet is_open m _ q (λ u. pure-IsQuiet is_open 0)
