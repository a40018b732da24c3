-- ===== src/Sys/PathIn.antt =====
-- core/sys_fs.c, copy_path: copying in chunks reads the same string as reading byte by byte.
use elf_sysv_nt.Common.{
  ℕ, zero, suc, ◌+◌, ◌*◌, ◌≡◌, refl, ap, ◌∙◌, Bool, true, false, Option, none, some, List, [], ◌∷◌,
  CString, ◌==◌, if◌then◌else◌, arith,
}
use elf_sysv_nt.Common.Errno.{Result, ok, err, efault, enametoolong}
use elf_sysv_nt.Sys.{
  UserMemory, MemoryLaws, with_byte, peek_all, cons_if, ended, behind, ended_or, one_byte, by_bytes,
  one_chunk, copy_chunks, copy_path,
}

-- The string at an address, read byte by byte: a byte that cannot be read is a fault, and a string
-- that does not end within `n` bytes is too long.
abbrev scan_byte : Option ℕ → Result CString → Result CString
scan_byte none rest = err efault
scan_byte (some b) rest = if b == 0 then ok [] else behind (b ∷ []) rest

unfoldable pub scan : (ℕ → Option ℕ) → ℕ → ℕ → Result CString
scan peek a zero = err enametoolong
scan peek a (suc n) = scan_byte (peek a) (scan peek (a + 1) n)

-- As `scan`, with `rest` for what lies behind the `n` bytes.
scan_then : (ℕ → Option ℕ) → ℕ → ℕ → Result CString → Result CString
scan_then peek a zero rest = rest
scan_then peek a (suc n) rest = scan_byte (peek a) (scan_then peek (a + 1) n rest)

scan-add :
    (peek : ℕ → Option ℕ) (n m a : ℕ)
    → scan peek a (n + m) ≡ scan_then peek a n (scan peek (a + n) m)
unfolding scan scan_then
scan-add peek zero m a =
    let e : 0 + m ≡ m = omega arith in let e' : a + 0 ≡ a = omega arith in rw (e, e') refl
scan-add peek (suc n) m a =
    let e : suc n + m ≡ suc (n + m) = omega arith in
    let e' : a + suc n ≡ a + 1 + n = omega arith in
    rw (e, e') (ap (scan_byte (peek a)) (scan-add peek n m (a + 1)))

-- A copied byte is what the scan reads.
one_byte-scan_byte :
    (o : Option ℕ) (rest : Result CString)
    → one_byte (with_byte o (some [])) rest ≡ scan_byte o rest
one_byte-scan_byte none rest = refl
one_byte-scan_byte (some b) rest = by_test b (b == 0) rest
  where
    by_test :
        (b : ℕ) (t : Bool) (rest : Result CString)
        → ended_or (b ∷ []) (if t then some [] else none) rest
          ≡ (if t then ok [] else behind (b ∷ []) rest)
    by_test b true rest = refl
    by_test b false rest = refl

behind-nil : (r : Result CString) → behind [] r ≡ r
behind-nil (ok s) = refl
behind-nil (err e) = refl

-- A byte before a copied piece, which does not end the path.
ended_or-cons_if :
    (b : ℕ) (l : List ℕ) (o : Option CString) (rest : Result CString)
    → ended_or (b ∷ l) (cons_if b o) rest ≡ behind (b ∷ []) (ended_or l o rest)
ended_or-cons_if b l (some s) rest = refl
ended_or-cons_if b l none (ok s) = refl
ended_or-cons_if b l none (err e) = refl

ended_or-byte :
    (b : ℕ) (t : Bool) (l : List ℕ) (rest r : Result CString)
    → ended_or l (ended l) rest ≡ r
    → ended_or (b ∷ l) (if t then some [] else cons_if b (ended l)) rest
      ≡ (if t then ok [] else behind (b ∷ []) r)
ended_or-byte b true l rest r h = refl
ended_or-byte b false l rest r h = ended_or-cons_if b l (ended l) rest ∙ ap (behind (b ∷ [])) h

-- A piece that is copied whole.
ended_or-scan_then :
    (peek : ℕ → Option ℕ) (k a : ℕ) (bytes : List ℕ) (rest : Result CString)
    → peek_all peek a k ≡ some bytes
    → ended_or bytes (ended bytes) rest ≡ scan_then peek a k rest
unfolding scan_then
ended_or-scan_then peek zero a [] rest h = behind-nil rest
ended_or-scan_then peek zero a (b ∷ bytes) rest h = cc
ended_or-scan_then peek (suc k) a bytes rest h =
    next (peek a) (peek_all peek (a + 1) k) bytes h
      (λ l e. ended_or-scan_then peek k (a + 1) l rest e)
  where
    next :
        (o : Option ℕ) (p : Option (List ℕ)) (bytes : List ℕ)
        → with_byte o p ≡ some bytes
        → ((l : List ℕ) → p ≡ some l → ended_or l (ended l) rest ≡ scan_then peek (a + 1) k rest)
        → ended_or bytes (ended bytes) rest ≡ scan_byte o (scan_then peek (a + 1) k rest)
    next none p bytes h ih = cc
    next (some b) none bytes h ih = cc
    next (some b) (some l) [] h ih = cc
    next (some b) (some l) (c ∷ bytes) h ih =
        let same : ended_or (b ∷ l) (ended (b ∷ l)) rest
            ≡ scan_byte (some b) (scan_then peek (a + 1) k rest) =
          ended_or-byte b (b == 0) l rest _ (ih l refl) in
        cc

module _ {S : Type 0} (mem : UserMemory S) (peek : S → ℕ → Option ℕ) (writable : ℕ → Bool)
    (laws : MemoryLaws mem peek writable) where
  by_bytes-scan_then :
      (k a : ℕ) (rest : Result CString) (s : S)
      → by_bytes mem k a rest s ≡ scan_then (peek s) a k rest
  unfolding by_bytes scan_then
  by_bytes-scan_then zero a rest s = refl
  by_bytes-scan_then (suc k) a rest s =
      rw (laws.copy_in_peek a 1 s, by_bytes-scan_then k (a + 1) rest s)
        (one_byte-scan_byte (peek s a) (scan_then (peek s) (a + 1) k rest))

  one_chunk-scan_then :
      (k a : ℕ) (o : Option (List ℕ)) (rest : Result CString) (s : S)
      → peek_all (peek s) a k ≡ o
      → one_chunk o (scan_then (peek s) a k rest) rest ≡ scan_then (peek s) a k rest
  one_chunk-scan_then k a none rest s h = refl
  one_chunk-scan_then k a (some bytes) rest s h = ended_or-scan_then (peek s) k a bytes rest h

  copy_chunks-scan : (n a : ℕ) (s : S) → copy_chunks mem n a s ≡ scan (peek s) a (64 * n)
  unfolding copy_chunks scan
  copy_chunks-scan zero a s = refl
  copy_chunks-scan (suc n) a s =
      let e : 64 * suc n ≡ 64 + 64 * n = omega arith in
      rw
        (
          e,
          scan-add (peek s) 64 (64 * n) a,
          laws.copy_in_peek a 64 s,
          copy_chunks-scan n (a + 64) s,
          by_bytes-scan_then 64 a (scan (peek s) (a + 64) (64 * n)) s,
        )
        (one_chunk-scan_then 64 a (peek_all (peek s) a 64) (scan (peek s) (a + 64) (64 * n)) s refl)

  -- Copying a path in, by chunks of 64 bytes and byte by byte where a chunk faults, gives what reading
  -- it one byte at a time gives: the string up to its terminator, EFAULT if a byte before it cannot be
  -- read, and ENAMETOOLONG if there is none in 4096 bytes.
  pub copy_path-scan : (a : ℕ) (s : S) → copy_path mem a s ≡ scan (peek s) a 4096
  unfolding copy_path
  copy_path-scan a s = copy_chunks-scan 64 a s
