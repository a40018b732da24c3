-- ===== src/Dev/Random.antt =====
-- core/vfs_synth.c: reading and writing the devices, and the generator behind /dev/random.
use elf_sysv_nt.Common.{
  ℕ, zero, suc, ◌+◌, ◌-◌, ◌*◌, ◌/◌, ◌%◌, ◌^◌, ◌≤◌, ◌<◌, ◌≡◌, refl, Bool, true, ◌||◌, ◌⊎◌, inl, inr,
  List, [], ◌++◌, length, take, replicate, ltb, ◌==◌, if◌then◌else◌, arith, length-append,
  length-take, length-replicate,
}
use elf_sysv_nt.Common.Bytes.{put_le, length-put_le}
use elf_sysv_nt.Common.Errno.{Result, ok, err, enospc, enxio}
use Prim.Native.Nat.{bit_xor}

abbrev u64 : ℕ
u64 = 2 ^ 64

-- The number and the state behind it, in 64-bit arithmetic.
unfoldable pub rng_next : ℕ → ℕ × ℕ
rng_next st =
    let st' = (st + 0x9e3779b97f4a7c15) % u64 in
    let z = bit_xor st' (st' / 2 ^ 30) * 0xbf58476d1ce4e5b9 % u64 in
    let z' = bit_xor z (z / 2 ^ 27) * 0x94d049bb133111eb % u64 in (bit_xor z' (z' / 2 ^ 31), st')

-- The loop of dev_read: each round with `i & 7 == 0` draws a number and copies up to eight of its
-- bytes. `n` rounds are left, and `len` bytes.
random_fill : ℕ → ℕ → ℕ → List ℕ × ℕ
random_fill zero len st = ([], st)
random_fill (suc n) len st =
    let (v, st') = rng_next st in
    let (rest, st'') = random_fill n (len - 8) st' in
    (take (if ltb len 8 then len else 8) (put_le 8 v) ++ rest, st'')

-- `host_console_read` and `host_console_write`, with the host's descriptor, on the state `S`.
pub record HostConsole (S : Type 0) : Type 0 where
  pub read : ℕ → ℕ → S → Result (List ℕ) × S
  pub write : ℕ → List ℕ → S → Result ℕ × S

pub record DevState (S : Type 0) : Type 0 where
  pub rng_state : ℕ
  pub host : S

module _ {S : Type 0} (console : HostConsole S) where
  abbrev of_host : {A : Type 0} → (S → A × S) → DevState S → A × DevState S
  of_host f s = ((f s.host).0, record s { host = (f s.host).1 })

  abbrev random : ℕ → DevState S → Result (List ℕ) × DevState S
  random len s =
      let (bytes, st) = random_fill ((len + 7) / 8) len s.rng_state in
      (ok bytes, record s { rng_state = st })

  -- `minor` is the description's `priv_i`.
  unfoldable pub dev_read : ℕ → ℕ → DevState S → Result (List ℕ) × DevState S
  unfolding random_fill
  dev_read minor len s =
      if minor == 3
      then (ok [], s)
      else if minor == 5
      then (ok (replicate len 0), s)
      else if minor == 7
      then (ok (replicate len 0), s)
      else if minor == 8
      then random len s
      else if minor == 9
      then random len s
      else if minor == 0
      then of_host (console.read 0 len) s
      else if minor == 1
      then of_host (console.read 0 len) s
      else (err enxio, s)

  unfoldable pub dev_write : ℕ → List ℕ → DevState S → Result ℕ × DevState S
  dev_write minor bytes s =
      if minor == 3
      then (ok (length bytes), s)
      else if minor == 5
      then (ok (length bytes), s)
      else if minor == 8
      then (ok (length bytes), s)
      else if minor == 9
      then (ok (length bytes), s)
      else if minor == 7
      then (err enospc, s)
      else if minor == 0
      then of_host (console.write 1 bytes) s
      else if minor == 1
      then of_host (console.write 1 bytes) s
      else (err enxio, s)

length-chunk :
    (len v : ℕ)
    → length (take (if ltb len 8 then len else 8) (put_le 8 v)) ≡ (if ltb len 8 then len else 8)
length-chunk len v =
    ground (arith, length-take (if ltb len 8 then len else 8) (put_le 8 v), length-put_le 8 v)

length-random_fill :
    (n len st : ℕ) → len ≤ 8 * n → 8 * n < len + 8 → length (random_fill n len st).0 ≡ len
unfolding random_fill
length-random_fill zero len st h k = omega arith
length-random_fill (suc n) len st h k =
    let (v, st') = rng_next st in
    ground (
      arith,
      length-append (take (if ltb len 8 then len else 8) (put_le 8 v))
          (random_fill n (len - 8) st').0,
      length-chunk len v,
      length-random_fill n (len - 8) st',
    )

-- The devices that are always ready to be read: zero, full, random and urandom.
abbrev pub is_source : ℕ → Bool
is_source minor = (minor == 5) || ((minor == 7) || ((minor == 8) || (minor == 9)))

source_cases :
    (minor : ℕ) → is_source minor ≡ true → ((minor ≡ 5) ⊎ (minor ≡ 7)) ⊎ ((minor ≡ 8) ⊎ (minor ≡ 9))
source_cases minor h = ground arith

-- A read of zero, full, random or urandom returns as many bytes as were asked for, and leaves the
-- host's console alone.
pub dev_read-source :
    {S : Type 0} (console : HostConsole S) (minor len : ℕ) (s : DevState S)
    → is_source minor ≡ true
    → (bytes : List ℕ) × (st : ℕ) × (dev_read console minor len s
        ≡ (ok bytes, record s { rng_state = st }))
      × (length bytes ≡ len)
unfolding dev_read
dev_read-source console minor len s h =
    let zeros : length (replicate {A = ℕ} len 0) ≡ len = length-replicate {A = ℕ} len 0 in
    let drawn : length (random_fill ((len + 7) / 8) len s.rng_state).0 ≡ len =
      length-random_fill ((len + 7) / 8) len s.rng_state (omega arith) (omega arith) in
    elim (source_cases minor h) [
      | inl zero_or_full ↦ elim zero_or_full [
        | inl e ↦ rw e (replicate len 0, s.rng_state, refl, zeros)
        | inr e ↦ rw e (replicate len 0, s.rng_state, refl, zeros)
      ]
      | inr random_or_urandom ↦ elim random_or_urandom [
        | inl e ↦ rw e (_, _, refl, drawn)
        | inr e ↦ rw e (_, _, refl, drawn)
      ]
    ]
