-- ===== src/Dirent/Listing.antt =====
-- core/vfs_synth.c: calling getdents64 until it returns nothing, on a generated directory.
use elf_sysv_nt.Common.{
  ℕ, zero, suc, ◌+◌, ◌-◌, ◌≤◌, ◌<◌, ◌≡◌, refl, ap, ◌∙◌, false, Option, none, some, List, [], ◌∷◌,
  ◌++◌, length, null, arith,
}
use elf_sysv_nt.Common.Errno.{Result, ok, err}
use elf_sysv_nt.Dirent.{Dirent, record_len, getdents_from}
use elf_sysv_nt.Dirent.Read.{
  IsDirent, read_entries, entries, packed, length-packed, entries-add, read_entries-packed,
}
use elf_sysv_nt.Dirent.Chunks.{IsChunk, getdents_loop-IsChunk}

abbrev both : Option (List Dirent) → Option (List Dirent) → Option (List Dirent)
both (some ds) (some rest) = some (ds ++ rest)
both _ _ = none

-- An answer, and what the calls after it give.
read_next : Result (List ℕ) → Option (List Dirent) → Option (List Dirent)
read_next (err e) rest = none
read_next (ok []) rest = some []
read_next (ok (b ∷ bytes)) rest = both (read_entries (length (b ∷ bytes)) (b ∷ bytes)) rest

-- What a caller that repeats the call `get` from position `at` collects, with at most `fuel` calls;
-- `none` if a call fails, if an answer does not divide into entries, or if the calls do not suffice.
unfoldable pub read_dir : (ℕ → Result (List ℕ) × ℕ) → ℕ → ℕ → Option (List Dirent)
unfolding read_next
read_dir get zero at = none
read_dir get (suc fuel) at = read_next (get at).0 (read_dir get fuel (get at).1)

read_next-more :
    (bytes : List ℕ) (ds rest : List Dirent)
    → null bytes ≡ false
    → read_entries (length bytes) bytes ≡ some ds
    → read_next (ok bytes) (some rest) ≡ some (ds ++ rest)
unfolding read_next
read_next-more [] ds rest h e = cc
read_next-more (b ∷ bytes) ds rest h e = rw e refl

null-packed : (entry : ℕ → Dirent) (at k : ℕ) → 0 < k → null (packed entry at k) ≡ false
null-packed entry at k h = nonempty (packed entry at k) (omega (arith, length-packed entry at k))
  where
    nonempty : (bytes : List ℕ) → 0 < length bytes → null bytes ≡ false
    nonempty [] h = absurd (omega arith)
    nonempty (b ∷ bytes) h = refl

packed-none : (entry : ℕ → Dirent) (at k : ℕ) → k ≤ 0 → packed entry at k ≡ []
unfolding packed
packed-none entry at zero h = refl
packed-none entry at (suc k) h = absurd (omega arith)

module _ (entry : ℕ → Dirent) (total bound : ℕ) (fits : (i : ℕ) → i < total → IsDirent (entry i))
    (room : (i : ℕ) → i < total → record_len (entry i).name ≤ bound) where
  -- A call when `m` entries are left.
  call-IsChunk :
      (at m : ℕ) → at + m ≡ total → IsChunk entry m at [] (getdents_from entry total bound at)
  unfolding getdents_from
  call-IsChunk at m e =
      let e' : total - at ≡ m = omega arith in
      rw e' (getdents_loop-IsChunk entry bound total room m at [] (omega arith))

  -- A call with nothing left returns 0.
  read_next-end :
      (at : ℕ) (r : Result (List ℕ) × ℕ) (o : Option (List Dirent))
      → IsChunk entry 0 at [] r
      → read_next r.0 o ≡ some (entries entry at 0)
  unfolding read_next entries
  read_next-end at r o c = rw (c.bytes, packed-none entry at c.count c.within) refl

  -- A call with something left, and what the calls behind it give.
  read_next-chunk :
      (at m : ℕ) (r : Result (List ℕ) × ℕ) (o : Option (List Dirent)) (c : IsChunk entry m at [] r)
      → at + m ≡ total
      → 0 < c.count
      → o ≡ some (entries entry (at + c.count) (m - c.count))
      → read_next r.0 o ≡ some (entries entry at m)
  read_next-chunk at m r o c all some_read h =
      let k : ℕ = c.count in
      let e : k + (m - k) ≡ m = omega (arith, c.within) in
      rw (c.bytes, h)
        (read_next-more (packed entry at k) (entries entry at k) (entries entry (at + k) (m - k))
            (null-packed entry at k some_read)
            (read_entries-packed entry total fits at k (length (packed entry at k))
              (omega (arith, c.within)) (length-packed entry at k))
          ∙ ap (λ l. some l) (entries-add entry at k (m - k))
          ∙ ap (λ n. some (entries entry at n)) e)

  -- Enough calls list each entry once, in order, and the last call returns 0.
  pub read_dir-entries :
      (fuel at m : ℕ)
      → at + m ≡ total
      → m < fuel
      → read_dir (getdents_from entry total bound) fuel at ≡ some (entries entry at m)
  unfolding read_dir
  read_dir-entries zero at m e h = absurd (omega arith)
  read_dir-entries (suc fuel) at zero e h =
      read_next-end at (getdents_from entry total bound at) _ (call-IsChunk at 0 e)
  read_dir-entries (suc fuel) at (suc m) e h =
      let c : IsChunk entry (suc m) at [] (getdents_from entry total bound at) =
        call-IsChunk at (suc m) e in
      let some_read : 0 < c.count = c.some_read refl (omega arith) in
      read_next-chunk at (suc m) (getdents_from entry total bound at) _ c e some_read (
        ap (read_dir (getdents_from entry total bound) fuel) c.next
        ∙ read_dir-entries fuel (at + c.count) (suc m - c.count) (omega (arith, c.within))
            (omega arith))
