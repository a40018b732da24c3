-- ===== src/Sys/Reading.antt =====
-- core/sys_fs.c, do_read: what a positional read of a generated file leaves in user memory.
use elf_sysv_nt.Common.{
  ℕ, zero, suc, ◌+◌, ◌-◌, ◌*◌, ◌≤◌, ◌<◌, ◌≡◌, refl, ap, ◌∙◌, Bool, true, false, ◌&&◌, Option, some,
  List, [], ◌∷◌, pos, length, take, drop, get_or, min, ltb, leb, if◌then◌else◌, has_bit, arith,
  Bool-cases, inl, inr, length-take, length-drop,
}
use elf_sysv_nt.Common.Errno.{Result, ok}
use elf_sysv_nt.Snap.{part}
use elf_sysv_nt.Snap.Whole.{part_size, part-past, part-within, length-part}
use elf_sysv_nt.Sys.{UserMemory, MemoryLaws}
use elf_sysv_nt.Sys.Bytes.{
  bounce_size, chunk_of, rounds, was_read, copied, read_rounds, OpenFile, readable, do_read,
}

get_or-take : (n i : ℕ) (xs : List ℕ) → i < n → get_or (take n xs) i 0 ≡ get_or xs i 0
get_or-take zero i xs h = absurd (omega arith)
get_or-take (suc n) i [] h = refl
get_or-take (suc n) zero (x ∷ xs) h = refl
get_or-take (suc n) (suc i) (x ∷ xs) h = get_or-take n i xs (omega arith)

get_or-drop : (n i : ℕ) (xs : List ℕ) → get_or (drop n xs) i 0 ≡ get_or xs (n + i) 0
get_or-drop zero i xs = let e : 0 + i ≡ i = omega arith in rw e refl
get_or-drop (suc n) i [] = refl
get_or-drop (suc n) i (x ∷ xs) =
    let e : suc n + i ≡ suc (n + i) = omega arith in rw e (get_or-drop n i xs)

get_or-part :
    (text : List ℕ) (at len i : ℕ)
    → i < length (part text at len)
    → get_or (part text at len) i 0 ≡ get_or text (at + i) 0
get_or-part text at len i h = elim (Bool-cases (leb (length text) at)) [
  | inl past ↦
      let e : length (part text at len) ≡ 0 = ap length (part-past text at len past) in
      absurd (omega arith)
  | inr within ↦
      let k : ℕ = part_size text at len in
      let e : part text at len ≡ take k (drop at text) = part-within text at len within in
      let few : i < k =
        omega (arith, ap length e, length-take k (drop at text), length-drop at text) in
      rw e (get_or-take k i (drop at text) few ∙ get_or-drop at i text)
]

-- Seen through `peek'` the `n` bytes at `a` are those of the text from `at` on, and the others are as
-- seen through `peek`.
abbrev pub Holds : (peek peek' : ℕ → Option ℕ) → List ℕ → (at a n : ℕ) → Type 0
Holds peek peek' text at a n =
    (x : ℕ)
    → peek' x ≡ (if leb a x && ltb x (a + n) then some (get_or text (at + (x - a)) 0) else peek x)

-- Two ranges of a text side by side.
Holds-append :
    (p q r : ℕ → Option ℕ) (text : List ℕ) (at a m n : ℕ)
    → Holds p q text at a m
    → Holds q r text (at + m) (a + m) n
    → Holds p r text at a (m + n)
Holds-append p q r text at a m n first second x = elim (Bool-cases (leb (a + m) x)) [
  | inl behind ↦
      let e : at + m + (x - (a + m)) ≡ at + (x - a) = ground arith in
      let same : get_or text (at + m + (x - (a + m))) 0 ≡ get_or text (at + (x - a)) 0 =
        ap (λ i. get_or text i 0) e in
      ground (arith, first x, second x)
  | inr before ↦ ground (arith, first x, second x)
]

Holds-none : (p : ℕ → Option ℕ) (text : List ℕ) (at a : ℕ) → Holds p p text at a 0
Holds-none p text at a x = ground arith

Holds-at :
    (p q : ℕ → Option ℕ) (text : List ℕ) (at at' a a' n n' : ℕ)
    → at ≡ at'
    → a ≡ a'
    → n ≡ n'
    → Holds p q text at a n
    → Holds p q text at' a' n'
Holds-at p q text at at' a a' n n' e e' e'' h = rw (← e, ← e', ← e'') h

module _ {S : Type 0} (mem : UserMemory S) (peek : S → ℕ → Option ℕ) (writable : ℕ → Bool)
    (laws : MemoryLaws mem peek writable) (text : List ℕ) (off ubuf len : ℕ)
    (room : (i : ℕ) → i < len → writable (ubuf + i) ≡ true) where
  -- The end of what the call can deliver.
  abbrev available : ℕ
  available = min len (length text - off)

  abbrev get : ℕ → ℕ → S → Result (List ℕ) × S
  get done chunk s = (ok (part text (off + done) chunk), s)

  -- A copy of a part, as `Holds`.
  part-Holds :
      (done chunk : ℕ) (bytes : List ℕ) (s : S)
      → bytes ≡ part text (off + done) chunk
      → (mem.copy_out (ubuf + done) bytes s).0 ≡ true
      → Holds
          (peek s)
          (peek (mem.copy_out (ubuf + done) bytes s).1)
          text
          (off + done)
          (ubuf + done)
          (length bytes)
  part-Holds done chunk bytes s e h x =
      let i : ℕ = x - (ubuf + done) in
      let seen = laws.copy_out_peek (ubuf + done) bytes s x h in
      elim (Bool-cases (ltb i (length bytes))) [
        | inl inside ↦
            let few : i < length (part text (off + done) chunk) = rw (← e) (ground arith) in
            let same : get_or bytes i 0 ≡ get_or text (off + done + i) 0 =
              ap (λ l. get_or l i 0) e ∙ get_or-part text (off + done) chunk i few in
            ground (arith, seen, same)
        | inr outside ↦ ground (arith, seen)
      ]

  -- What the rounds from `done` on do.
  record IsRead (done : ℕ) (s : S) (r : Result ℕ × S) : Type 0 where
    count : r.0 ≡ ok available
    bytes : Holds (peek s) (peek r.1) text (off + done) (ubuf + done) (available - done)

  done-IsRead :
      (done m : ℕ) (s s' : S)
      → done + m ≡ available
      → Holds (peek s) (peek s') text (off + done) (ubuf + done) m
      → IsRead done s (ok (done + m), s')
  done-IsRead done m s s' e h =
      let e' : available - done ≡ m = omega arith in record { count = ap ok e; bytes = rw e' h }

  more-IsRead :
      (done m : ℕ) (s s' : S) (r : Result ℕ × S)
      → done + m ≤ available
      → Holds (peek s) (peek s') text (off + done) (ubuf + done) m
      → IsRead (done + m) s' r
      → IsRead done s r
  more-IsRead done m s s' r h first then_read =
      let e : off + (done + m) ≡ off + done + m = omega arith in
      let e' : ubuf + (done + m) ≡ ubuf + done + m = omega arith in
      let rest : Holds (peek s') (peek r.1) text (off + done + m) (ubuf + done + m)
          (available - (done + m)) =
        rw (← e, ← e') then_read.bytes in
      let all : m + (available - (done + m)) ≡ available - done = omega arith in
      record {
        count = then_read.count;
        bytes = rw (← all) (
            Holds-append (peek s) (peek s') (peek r.1) text (off + done) (ubuf + done) m
              (available - (done + m)) first rest);
      }

  -- The rounds that are left after one, which go on from a later position.
  module _ (done : ℕ) (s : S) (next : ℕ → S → Result ℕ × S) (below : done < len)
      (within : done ≤ available)
      (go_on : (s' : S)
        → done + chunk_of (len - done) ≤ available
        → IsRead (done + chunk_of (len - done)) s' (next (done + chunk_of (len - done)) s')) where
    copied-IsRead :
        (m : ℕ) (p : Bool × S)
        → p.0 ≡ true
        → m ≡ min (chunk_of (len - done)) (length text - (off + done))
        → Holds (peek s) (peek p.1) text (off + done) (ubuf + done) m
        → IsRead done s (copied mem ubuf done (chunk_of (len - done)) m p next)
    copied-IsRead m (false, s') h e bytes = cc
    copied-IsRead m (true, s') h e bytes = elim (Bool-cases (ltb m (chunk_of (len - done)))) [
      | inl short ↦ rw short (done-IsRead done m s s' (ground arith) bytes)
      | inr whole ↦
          let all : m ≡ chunk_of (len - done) = ground arith in
          let fits : done + m ≤ available = ground arith in
          rw whole (more-IsRead done m s s' _ fits bytes (rw all (go_on s' (rw (← all) fits))))
    ]

    was_read-IsRead :
        (bytes : List ℕ)
        → bytes ≡ part text (off + done) (chunk_of (len - done))
        → IsRead done s (was_read mem ubuf done (chunk_of (len - done)) (ok bytes, s) next)
    was_read-IsRead [] e =
        let size : 0 ≡ min (chunk_of (len - done)) (length text - (off + done)) =
          ap length e ∙ length-part text (off + done) (chunk_of (len - done)) in
        let end : done ≡ available = ground arith in
        let none_left : available - done ≡ 0 = omega arith in
        record {
          count = ap ok end;
          bytes = rw none_left (Holds-none (peek s) text (off + done) (ubuf + done));
        }
    was_read-IsRead (b ∷ l) e =
        let size : length (b ∷ l) ≡ min (chunk_of (len - done)) (length text - (off + done)) =
          ap length e ∙ length-part text (off + done) (chunk_of (len - done)) in
        let some_room : (i : ℕ) → i < length (b ∷ l) → writable (ubuf + done + i) ≡ true = λ i few.
          let shift : ubuf + done + i ≡ ubuf + (done + i) = omega arith in
          rw shift (room (done + i) (ground arith)) in
        let h : (mem.copy_out (ubuf + done) (b ∷ l) s).0 ≡ true =
          laws.copy_out_done (ubuf + done) (b ∷ l) s some_room in
        copied-IsRead (length (b ∷ l)) (mem.copy_out (ubuf + done) (b ∷ l) s) h size
          (part-Holds done (chunk_of (len - done)) (b ∷ l) s e h)

  end-IsRead : (done : ℕ) (s : S) → done ≡ available → IsRead done s (ok done, s)
  end-IsRead done s e =
      let none_left : available - done ≡ 0 = omega arith in
      record {
        count = ap ok e;
        bytes = rw none_left (Holds-none (peek s) text (off + done) (ubuf + done));
      }

  read_rounds-IsRead :
      (n done : ℕ) (s : S)
      → done ≤ available
      → len - done ≤ bounce_size * n
      → IsRead done s (read_rounds mem ubuf get len n done s)
  unfolding read_rounds
  read_rounds-IsRead zero done s h k = end-IsRead done s (omega arith)
  read_rounds-IsRead (suc n) done s h k = elim (Bool-cases (ltb done len)) [
    | inl below ↦
        let left : done < len = ground arith in
        rw below (
          was_read-IsRead done s (read_rounds mem ubuf get len n) left h
            (λ s' e. read_rounds-IsRead n (done + chunk_of (len - done)) s' e (ground arith))
            (part text (off + done) (chunk_of (len - done))) refl)
    | inr end ↦ rw end (end-IsRead done s (ground arith))
  ]

  -- A positional read of a generated file, into a buffer that can be written throughout, returns the
  -- smaller of the length asked for and the bytes behind the offset, however many chunks that takes.
  -- It leaves those bytes of the file at the start of the buffer, and the rest of memory as it was.
  pub do_read-text :
      (f : OpenFile S) (s : S)
      → readable f.flags ≡ true
      → has_bit f.flags 0o10000000 ≡ false
      → f.ops.pread ≡ some (λ chunk at s. (ok (part text at chunk), s))
      → (s' : S) × (do_read mem true f ubuf (pos len) (some off) s
          ≡ (ok (min len (length text - off)), s'))
        × Holds (peek s) (peek s') text off ubuf (min len (length text - off))
  unfolding do_read
  do_read-text f s may plain reads =
      let r : IsRead 0 s (read_rounds mem ubuf get len (rounds len) 0 s) =
        read_rounds-IsRead (rounds len) 0 s (omega arith) (omega arith) in
      let r' : Result ℕ × S = read_rounds mem ubuf get len (rounds len) 0 s in
      let bytes : Holds (peek s) (peek r'.1) text off ubuf available =
        Holds-at (peek s) (peek r'.1) text (off + 0) off (ubuf + 0) ubuf (available - 0) available
          (omega arith) (omega arith) (omega arith) r.bytes in
      rw (may, plain, reads) (r'.1, ap (λ c. (c, r'.1)) r.count, bytes)
