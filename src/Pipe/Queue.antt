-- ===== src/Pipe/Queue.antt =====
-- The ring of core/vfs_synth.c behaves as a bounded queue of bytes.
use elf_sysv_nt.Common.{ℕ, zero, suc, ◌+◌, ◌-◌, ◌%◌, ◌≤◌, ◌<◌, ◌≡◌, refl, ap, ap₂, ◌∙◌, ◌&&◌, ◌||◌}
use elf_sysv_nt.Common.Int.{is_zero}
use elf_sysv_nt.Common.{
  List, [], ◌∷◌, ◌++◌, arith, length, length-set, get_or, set, take, drop, ltb, leb, ◌==◌,
}
use elf_sysv_nt.Common.{
  if◌then◌else◌, Bool-cases, inl, inr, get_or-set_self, get_or-set_ne, min, ltb→lt, take-nil,
  drop-nil, sym,
}
use mathlib.Core.Path.{subst}
use mathlib.Core.List.{append-nil, append_assoc}
use elf_sysv_nt.Common.Errno.{ok, err, eagain, epipe}
use elf_sysv_nt.Pipe.{Ring, ring_size, pipe_buf, read_loop, pipe_read, write_loop, pipe_write}

pub record IsRing (p : Ring) : Type 0 where
  pub storage : length p.buf ≡ ring_size
  pub head_in : p.head < ring_size
  pub tail_at : p.tail ≡ (p.head + p.used) % ring_size
  pub used_le : p.used ≤ ring_size

-- The `n` bytes at places `k`, `k + 1`, … past `head`.
abbrev pub items : List ℕ → ℕ → ℕ → ℕ → List ℕ
items buf head k zero = []
items buf head k (suc n) = get_or buf ((head + k) % ring_size) 0 ∷ items buf head (suc k) n

abbrev pub contents : Ring → List ℕ
contents p = items p.buf p.head 0 p.used

length-items : (buf : List ℕ) (head k n : ℕ) → length (items buf head k n) ≡ n
length-items buf head k zero = refl
length-items buf head k (suc n) = ap suc (length-items buf head (suc k) n)

pub length-contents : (p : Ring) → length (contents p) ≡ p.used
length-contents p = length-items p.buf p.head 0 p.used

-- Moving the head by one is moving every place by one.
items_shift :
    (buf : List ℕ) (head k n : ℕ)
    → items buf ((head + 1) % ring_size) k n ≡ items buf head (suc k) n
items_shift buf head k zero = refl
items_shift buf head k (suc n) =
    let place : ((head + 1) % ring_size + k) % ring_size ≡ (head + suc k) % ring_size =
      omega arith in
    rw (place, items_shift buf head (suc k) n)

-- A write at a place past those read, within one round, is not seen.
items-set-past :
    (buf : List ℕ) (head x k n m : ℕ)
    → k + n ≤ m
    → m < k + ring_size
    → items (set buf ((head + m) % ring_size) x) head k n ≡ items buf head k n
items-set-past buf head x k zero m h w = refl
items-set-past buf head x k (suc n) m h w =
    ap₂ ◌∷◌ (get_or-set_ne buf ((head + m) % ring_size) ((head + k) % ring_size) x 0 (omega arith))
      (items-set-past buf head x (suc k) n m (omega arith) (omega arith))

-- A write just past the bytes held appends one.
items-set-append :
    (buf : List ℕ) (head x k n m : ℕ)
    → length buf ≡ ring_size
    → n < ring_size
    → m ≡ k + n
    → items (set buf ((head + m) % ring_size) x) head k (suc n) ≡ items buf head k n ++ (x ∷ [])
items-set-append buf head x k zero m full room e =
    let here : m ≡ k = omega arith in
    rw (here, get_or-set_self buf ((head + k) % ring_size) x 0 (omega arith))
items-set-append buf head x k (suc n) m full room e =
    ap₂ ◌∷◌ (get_or-set_ne buf ((head + m) % ring_size) ((head + k) % ring_size) x 0 (omega arith))
      (items-set-append buf head x (suc k) n m full (omega arith) (omega arith))

items-set-at :
    (buf : List ℕ) (head x n i : ℕ)
    → length buf ≡ ring_size
    → n < ring_size
    → i ≡ (head + n) % ring_size
    → items (set buf i x) head 0 (suc n) ≡ items buf head 0 n ++ (x ∷ [])
items-set-at buf head x n i full room e =
    subst (λ j. items (set buf j x) head 0 (suc n) ≡ items buf head 0 n ++ (x ∷ [])) (sym e)
      (items-set-append buf head x 0 n n full room (omega arith))

items_step :
    (buf : List ℕ) (head n : ℕ)
    → head < ring_size
    → 0 < n
    → items buf head 0 n ≡ get_or buf head 0 ∷ items buf ((head + 1) % ring_size) 0 (n - 1)
items_step buf head zero h lt = absurd (omega arith)
items_step buf head (suc n) h lt =
    let here : (head + 0) % ring_size ≡ head = omega arith in
    let less : suc n - 1 ≡ n = omega arith in rw (here, less, items_shift buf head 0 n)

items_none : (buf : List ℕ) (head k n : ℕ) → n ≡ 0 → items buf head k n ≡ []
items_none buf head k zero e = refl
items_none buf head k (suc n) e = absurd (omega arith)

-- The ring after one byte has been read, and after one has been written.
abbrev advance : Ring → Ring
advance p = record p { head = (p.head + 1) % ring_size; used = p.used - 1 }

abbrev append_byte : ℕ → Ring → Ring
append_byte x p = record p {
  buf = set p.buf p.tail x;
  tail = (p.tail + 1) % ring_size;
  used = p.used + 1;
}

advance-IsRing : (p : Ring) → IsRing p → 0 < p.used → IsRing (advance p)
advance-IsRing p v lt = omega arith

append_byte-IsRing : (x : ℕ) (p : Ring) → IsRing p → p.used < ring_size → IsRing (append_byte x p)
append_byte-IsRing x p v lt = record {
  storage = length-set p.buf p.tail x ∙ v.storage;
  head_in = v.head_in;
  tail_at = omega arith;
  used_le = omega arith;
}

contents-append_byte :
    (x : ℕ) (p : Ring)
    → IsRing p
    → p.used < ring_size
    → contents (append_byte x p) ≡ contents p ++ (x ∷ [])
contents-append_byte x p v lt =
    let one_more : p.used + 1 ≡ suc p.used = omega arith in
    rw one_more (items-set-at p.buf p.head x p.used p.tail v.storage lt v.tail_at)

-- What the loop of `pipe_read` has done when it stops.
read_loop_lem :
    (n : ℕ) (p : Ring)
    → IsRing p
    → ((read_loop n p).0 ≡ take n (contents p))
      × (contents (read_loop n p).1 ≡ drop n (contents p))
      × IsRing (read_loop n p).1
unfolding read_loop
read_loop_lem zero p v = (refl, refl, v)
read_loop_lem (suc n) p v = elim (Bool-cases (ltb 0 p.used)) [
  | inl more ↦
      let (bytes, left, valid) =
        read_loop_lem n (advance p) (advance-IsRing p v (ltb→lt 0 p.used more)) in
      rw (more, items_step p.buf p.head p.used v.head_in (ltb→lt 0 p.used more))
        (ap (λ l. get_or p.buf p.head 0 ∷ l) bytes, left, valid)
  | inr empty ↦ rw (empty, items_none p.buf p.head 0 p.used (ground arith)) (refl, refl, v)
]

write_loop_lem :
    (bytes : List ℕ) (n : ℕ) (p : Ring)
    → IsRing p
    → let (n', p') = write_loop bytes n p in
      (n' ≡ n + min (length bytes) (ring_size - p.used))
      × (contents p' ≡ contents p ++ take (ring_size - p.used) bytes)
      × IsRing p'
unfolding write_loop
write_loop_lem [] n p v = (omega arith, rw (take-nil, append-nil), v)
write_loop_lem (x ∷ xs) n p v = elim (Bool-cases (ltb p.used ring_size)) [
  | inl room ↦
      let lt = ltb→lt p.used ring_size room in
      let (count, text, valid) =
        write_loop_lem xs (n + 1) (append_byte x p) (append_byte-IsRing x p v lt) in
      let more : ring_size - p.used ≡ suc (ring_size - (p.used + 1)) = omega arith in
      rw room
        (omega arith, rw more (text ∙ (rw (contents-append_byte x p v lt, append_assoc))), valid)
  | inr full ↦
      let none_left : ring_size - p.used ≡ 0 = ground arith in
      rw full (omega arith, rw (none_left, append-nil), v)
]

-- The fields that a read and a write leave alone: the counts of the two ends and the inode number.
abbrev pub SameEnds : Ring → Ring → Type 0
SameEnds p q = (q.readers ≡ p.readers) × (q.writers ≡ p.writers) × (q.ino ≡ p.ino)

read_loop-SameEnds : (n : ℕ) (p : Ring) → SameEnds p (read_loop n p).1
unfolding read_loop
read_loop-SameEnds zero p = (refl, refl, refl)
read_loop-SameEnds (suc n) p = elim (Bool-cases (ltb 0 p.used)) [
  | inl more ↦ rw more (read_loop-SameEnds n (advance p))
  | inr empty ↦ rw empty (refl, refl, refl)
]

write_loop-SameEnds : (bytes : List ℕ) (n : ℕ) (p : Ring) → SameEnds p (write_loop bytes n p).1
unfolding write_loop
write_loop-SameEnds [] n p = (refl, refl, refl)
write_loop-SameEnds (x ∷ xs) n p = elim (Bool-cases (ltb p.used ring_size)) [
  | inl room ↦ rw room (write_loop-SameEnds xs (n + 1) (append_byte x p))
  | inr full ↦ rw full (refl, refl, refl)
]

-- On a valid ring: reading from a pipe gives the oldest bytes it holds, up to the number asked
-- for, and leaves the rest in order; an empty pipe gives the end of file if no writer is left and
-- EAGAIN otherwise, and the ring is then the same in every field. The ring stays valid, and its
-- counts of ends and its inode number stay.
pub pipe_read_refines :
    (p : Ring) (len : ℕ)
    → IsRing p
    → (pipe_read p len ≡ (
        if p.used == 0
        then (if is_zero p.writers then ok [] else err eagain, p)
        else (ok (take len (contents p)), (pipe_read p len).1)))
      × (contents (pipe_read p len).1 ≡ drop len (contents p))
      × IsRing (pipe_read p len).1
      × SameEnds p (pipe_read p len).1
unfolding pipe_read
pipe_read_refines p len v = elim (Bool-cases (p.used == 0)) [
  | inl empty ↦
      rw (empty, items_none p.buf p.head 0 p.used (ground arith))
        (refl, sym (drop-nil ℕ len), v, (refl, refl, refl))
  | inr some_held ↦
      let (bytes, left, valid) = read_loop_lem len p v in
      rw some_held
        (ap (λ b. (ok b, (read_loop len p).1)) bytes, left, valid, read_loop-SameEnds len p)
]

-- On a valid ring: writing to a pipe appends the bytes that fit, in order, and returns their
-- number; it fails with EPIPE when no reader is left, and with EAGAIN when the ring is full or at
-- most 4096 bytes are given and they do not all fit, in which cases the ring is the same in every
-- field. The ring stays valid, and its counts of ends and its inode number stay.
pub pipe_write_refines :
    (p : Ring) (bytes : List ℕ)
    → IsRing p
    → let room = ring_size - p.used in
      let blocked = (leb (length bytes) pipe_buf && ltb room (length bytes)) || (room == 0) in
      (pipe_write p bytes ≡ (
        if is_zero p.readers
        then (err epipe, p)
        else if blocked
        then (err eagain, p)
        else (ok (min (length bytes) room), (pipe_write p bytes).1)))
      × (contents (pipe_write p bytes).1
          ≡ contents p ++ take (if is_zero p.readers || blocked then 0 else room) bytes)
      × IsRing (pipe_write p bytes).1
      × SameEnds p (pipe_write p bytes).1
unfolding pipe_write
pipe_write_refines p bytes v =
    ground
      (arith, write_loop_lem bytes 0 p v, append-nil (contents p), write_loop-SameEnds bytes 0 p)
