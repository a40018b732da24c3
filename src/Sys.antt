-- ===== src/Sys.antt =====
-- core/sys_fs.c: the file system calls. User memory is behind the substrate's two copy calls, which
-- are a parameter; what substrate.h documents about them is the record `MemoryLaws`.
pub mod PathIn
pub mod Bytes
pub mod Reading
pub mod Shape
pub mod Fds
pub mod Paths
pub mod Quiet
pub mod Opening
pub mod QuietCalls
pub mod Sound
pub mod SoundPipe
mod Tests
use elf_sysv_nt.Common.{
  ℕ, zero, suc, ◌+◌, ◌-◌, ◌*◌, ◌/◌, ◌<◌, ◌≡◌, Bool, true, false, ◌&&◌, Option, none, some, List, [],
  ◌∷◌, ◌++◌, CString, length, get_or, null, ltb, leb, ◌==◌, if◌then◌else◌,
}
use elf_sysv_nt.Common.Errno.{Errno, Result, ok, err, efault, enametoolong}

-- `user_copy_in` and `user_copy_out` of the substrate: `none` and `false` are a fault.
pub record UserMemory (S : Type 0) : Type 0 where
  pub copy_in : ℕ → ℕ → S → Option (List ℕ)
  pub copy_out : ℕ → List ℕ → S → Bool × S

abbrev pub with_byte : Option ℕ → Option (List ℕ) → Option (List ℕ)
with_byte (some b) (some l) = some (b ∷ l)
with_byte _ _ = none

-- The bytes at `n` addresses from `a` on, where all of them can be read.
abbrev pub peek_all : (ℕ → Option ℕ) → ℕ → ℕ → Option (List ℕ)
peek_all peek a zero = some []
peek_all peek a (suc n) = with_byte (peek a) (peek_all peek (a + 1) n)

-- `peek` is the byte at an address, where it can be read, and `writable` tells where bytes can be
-- written. A copy in fails on an address that cannot be read; a copy out to addresses that can be
-- written succeeds and changes those bytes alone.
pub record MemoryLaws {S : Type 0} (mem : UserMemory S) (peek : S → ℕ → Option ℕ)
    (writable : ℕ → Bool) : Type 0 where
  pub copy_in_peek : (a n : ℕ) (s : S) → mem.copy_in a n s ≡ peek_all (peek s) a n
  pub copy_out_done :
      (a : ℕ) (bytes : List ℕ) (s : S)
      → ((i : ℕ) → i < length bytes → writable (a + i) ≡ true)
      → (mem.copy_out a bytes s).0 ≡ true
  pub copy_out_peek :
      (a : ℕ) (bytes : List ℕ) (s : S) (x : ℕ)
      → (mem.copy_out a bytes s).0 ≡ true
      → peek (mem.copy_out a bytes s).1 x
        ≡ (if leb a x && ltb x (a + length bytes) then some (get_or bytes (x - a) 0) else peek s x)

abbrev pub path_max : ℕ
path_max = 4096

abbrev pub cons_if : ℕ → Option CString → Option CString
cons_if b none = none
cons_if b (some s) = some (b ∷ s)

-- The string at the start of bytes, if its terminator is among them.
abbrev pub ended : List ℕ → Option CString
ended [] = none
ended (b ∷ bytes) = let rest = ended bytes in if b == 0 then some [] else cons_if b rest

-- What is in the buffer so far goes before the rest of a path.
abbrev pub behind : List ℕ → Result CString → Result CString
behind got (ok s) = ok (got ++ s)
behind got (err e) = err e

-- What a copied piece of the path says: it ends in it, or the loop goes on.
abbrev pub ended_or : List ℕ → Option CString → Result CString → Result CString
ended_or bytes (some s) rest = ok s
ended_or bytes none rest = behind bytes rest

-- The inner loop's byte, where a whole chunk faults; `rest` is what the loop gives behind it.
abbrev pub one_byte : Option (List ℕ) → Result CString → Result CString
one_byte none rest = err efault
one_byte (some bytes) rest = ended_or bytes (ended bytes) rest

abbrev pub one_chunk : Option (List ℕ) → Result CString → Result CString → Result CString
one_chunk none bytewise rest = bytewise
one_chunk (some bytes) bytewise rest = ended_or bytes (ended bytes) rest

module _ {S : Type 0} (mem : UserMemory S) where
  -- The inner loop with `k` bytes left.
  unfoldable pub by_bytes : ℕ → ℕ → Result CString → S → Result CString
  by_bytes zero a rest s = rest
  by_bytes (suc k) a rest s = one_byte (mem.copy_in a 1 s) (by_bytes k (a + 1) rest s)

  -- The outer loop with `n` chunks of 64 bytes left; 4096 is 64 of them. What the buffer holds already
  -- is put in front by the caller.
  unfoldable pub copy_chunks : ℕ → ℕ → S → Result CString
  copy_chunks zero a s = err enametoolong
  copy_chunks (suc n) a s =
      let rest = copy_chunks n (a + 64) s in
      one_chunk (mem.copy_in a 64 s) (by_bytes 64 a rest s) rest

  unfoldable pub copy_path : ℕ → S → Result CString
  copy_path a s = copy_chunks (path_max / 64) a s
