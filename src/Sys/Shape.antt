-- ===== src/Sys/Shape.antt =====
-- core/sys_fs.c: what stat and statx show of an object, and how utimensat and mknod read the times
-- and the device number that a caller gives back.
use elf_sysv_nt.Common.{
  ℕ, zero, suc, ◌+◌, ◌-◌, ◌*◌, ◌/◌, ◌%◌, ◌^◌, ◌<◌, ◌≡◌, refl, Bool, false, not, List, ◌++◌, ℤ, pos,
  negsuc, replicate, length, leb, ◌==◌, if◌then◌else◌, arith,
}
use elf_sysv_nt.Common.Int.{◌+ℤ◌}
use elf_sysv_nt.Common.Bytes.{put_le, le_bytes, field}
use elf_sysv_nt.Common.Errno.{Result, ok, err, einval}
use elf_sysv_nt.Stat.{KStat}

abbrev pub billion : ℕ
billion = 1_000_000_000

abbrev negate : ℕ → ℤ
negate zero = pos 0
negate (suc n) = negsuc n

-- `struct lx_timespec`
pub record Timespec : Type 0 where
  pub sec : ℤ
  pub nsec : ℤ

-- `t / 1000000000` and `t % 1000000000`, which round towards 0.
unfoldable pub to_timespec : ℤ → Timespec
to_timespec (pos n) = record { sec = pos (n / billion); nsec = pos (n % billion) }
to_timespec (negsuc n) = record {
  sec = negate ((n + 1) / billion);
  nsec = negate ((n + 1) % billion);
}

-- `st_rdev`
unfoldable pub rdev_of : (major minor : ℕ) → ℕ
rdev_of major minor =
    major % 4096 * 256 + minor % 256 + minor / 256 * 256 * 2 ^ 12 + major / 4096 * 4096 * 2 ^ 32

-- The numbers that sys_mknodat takes out of `dev`.
unfoldable pub major_of : ℕ → ℕ
major_of dev = (dev / 256 % 4096 + dev / 2 ^ 32 / 4096 * 4096) % 2 ^ 32

unfoldable pub minor_of : ℕ → ℕ
minor_of dev = (dev % 256 + dev / 2 ^ 12 / 256 * 256) % 2 ^ 32

-- `struct lx_stat`
pub record LxStat : Type 0 where
  pub dev : ℕ
  pub ino : ℕ
  pub nlink : ℕ
  pub mode : ℕ
  pub uid : ℕ
  pub gid : ℕ
  pub rdev : ℕ
  pub size : ℕ
  pub blksize : ℕ
  pub blocks : ℕ
  pub atim : Timespec
  pub mtim : Timespec
  pub ctim : Timespec

unfoldable pub to_stat : KStat → LxStat
to_stat k = record {
  dev = k.dev;
  ino = k.ino;
  nlink = k.nlink;
  mode = k.mode;
  uid = k.uid;
  gid = k.gid;
  rdev = rdev_of k.rdev_major k.rdev_minor;
  size = k.size;
  blksize = k.blksize;
  blocks = k.blocks;
  atim = to_timespec k.atime;
  mtim = to_timespec k.mtime;
  ctim = to_timespec k.ctime;
}

-- Two's complement in `w` values.
abbrev wrapped : ℕ → ℤ → ℕ
wrapped w (pos n) = n % w
wrapped w (negsuc n) = w - 1 - n % w

abbrev timespec_bytes : Timespec → List ℕ
timespec_bytes t = put_le 8 (wrapped (2 ^ 64) t.sec) ++ put_le 8 (wrapped (2 ^ 64) t.nsec)

-- The 144 bytes that are copied out.
unfoldable pub stat_bytes : LxStat → List ℕ
stat_bytes st =
    put_le 8 st.dev
    ++ (put_le 8 st.ino
        ++ (put_le 8 st.nlink
            ++ (put_le 4 st.mode
                ++ (put_le 4 st.uid
                    ++ (put_le 4 st.gid
                        ++ (put_le 4 0
                            ++ (put_le 8 st.rdev
                                ++ (put_le 8 st.size
                                    ++ (put_le 8 st.blksize
                                        ++ (put_le 8 st.blocks
                                            ++ (timespec_bytes st.atim
                                                ++ (timespec_bytes st.mtim
                                                    ++ (timespec_bytes st.ctim
                                                        ++ replicate 24 0)))))))))))))

-- `struct lx_statx_timestamp`, whose nanoseconds are unsigned.
pub record StatxTime : Type 0 where
  pub sec : ℤ
  pub nsec : ℕ

abbrev statx_time : ℤ → StatxTime
statx_time t = record { sec = (to_timespec t).sec; nsec = wrapped (2 ^ 32) (to_timespec t).nsec }

-- `struct lx_statx`, the fields that are not 0.
pub record LxStatx : Type 0 where
  pub mask : ℕ
  pub blksize : ℕ
  pub nlink : ℕ
  pub uid : ℕ
  pub gid : ℕ
  pub mode : ℕ
  pub ino : ℕ
  pub size : ℕ
  pub blocks : ℕ
  pub atime : StatxTime
  pub mtime : StatxTime
  pub ctime : StatxTime
  pub btime : StatxTime
  pub rdev_major : ℕ
  pub rdev_minor : ℕ
  pub dev_major : ℕ
  pub dev_minor : ℕ

-- The mask keeps STATX_BASIC_STATS and STATX_BTIME, the twelve low bits.
unfoldable pub to_statx : KStat → ℕ → LxStatx
unfolding to_timespec
to_statx k mask = record {
  mask = mask % 2 ^ 12;
  blksize = k.blksize;
  nlink = k.nlink;
  uid = k.uid;
  gid = k.gid;
  mode = k.mode % 2 ^ 16;
  ino = k.ino;
  size = k.size;
  blocks = k.blocks;
  atime = statx_time k.atime;
  mtime = statx_time k.mtime;
  ctime = statx_time k.ctime;
  btime = statx_time k.btime;
  rdev_major = k.rdev_major;
  rdev_minor = k.rdev_minor;
  dev_major = k.dev / 256 % 4096;
  dev_minor = k.dev % 256 + k.dev / 2 ^ 20 % 4096 * 256;
}

abbrev statx_time_bytes : StatxTime → List ℕ
statx_time_bytes t = put_le 8 (wrapped (2 ^ 64) t.sec) ++ (put_le 4 t.nsec ++ put_le 4 0)

-- The 256 bytes that are copied out.
unfoldable pub statx_bytes : LxStatx → List ℕ
statx_bytes st =
    put_le 4 st.mask
    ++ (put_le 4 st.blksize
        ++ (put_le 8 0
            ++ (put_le 4 st.nlink
                ++ (put_le 4 st.uid
                    ++ (put_le 4 st.gid
                        ++ (put_le 2 st.mode
                            ++ (put_le 2 0
                                ++ (put_le 8 st.ino
                                    ++ (put_le 8 st.size
                                        ++ (put_le 8 st.blocks
                                            ++ (put_le 8 0
                                                ++ (statx_time_bytes st.atime
                                                    ++ (statx_time_bytes st.btime
                                                        ++ (statx_time_bytes st.ctime
                                                            ++ (statx_time_bytes st.mtime
                                                            ++ (put_le 4 st.rdev_major
                                                            ++ (put_le 4 st.rdev_minor
                                                            ++ (put_le 4 st.dev_major
                                                            ++ (put_le 4 st.dev_minor
                                                            ++ replicate 112 0)))))))))))))))))))

-- VFS_TIME_NOW, VFS_TIME_OMIT, or a time in nanoseconds.
pub data TimeArg : Type 0 where
  time_now time_omit : TimeArg
  time_at : ℤ → TimeArg

abbrev scaled : ℤ → ℤ
scaled (pos n) = pos (n * billion)
scaled (negsuc n) = negate ((n + 1) * billion)

-- One of the two times of sys_utimensat. The product is not cut to 64 bits.
unfoldable pub time_arg : Timespec → Result TimeArg
time_arg t = elim (t.nsec) [
  | negsuc k ↦ err einval
  | pos n ↦
      if n == 2 ^ 30 - 1
      then ok time_now
      else if n == 2 ^ 30 - 2
      then ok time_omit
      else if leb billion n
      then err einval
      else ok (time_at (scaled t.sec +ℤ pos n))
]

-- A device number of two 32-bit parts that stat shows is read back by mknod.
pub mknod-rdev_of :
    (major minor : ℕ)
    → major < 2 ^ 32
    → minor < 2 ^ 32
    → (major_of (rdev_of major minor) ≡ major) × (minor_of (rdev_of major minor) ≡ minor)
unfolding major_of minor_of rdev_of
mknod-rdev_of major minor h k = (omega arith, omega arith)

-- Whether a time is before 1970 and not a whole second.
abbrev pub is_broken : ℤ → Bool
is_broken (pos n) = false
is_broken (negsuc n) = not ((n + 1) % billion == 0)

add_pos : (a b n : ℕ) → a + b ≡ n → pos a +ℤ pos b ≡ pos n
add_pos a b n h = ground arith

add_zero : (n : ℕ) → negsuc n +ℤ pos 0 ≡ negsuc n
add_zero n = ground arith

time_arg-negative :
    (q r n : ℕ)
    → q * billion + r ≡ n + 1
    → r < billion
    → time_arg (record { sec = negate q; nsec = negate r })
      ≡ (if not (r == 0) then err einval else ok (time_at (negsuc n)))
unfolding time_arg
time_arg-negative q (suc r) n h k = ground arith
time_arg-negative zero zero n h k = absurd (omega arith)
time_arg-negative (suc q) zero n h k =
    let e : (q + 1) * billion ≡ suc n = omega arith in rw (e, add_zero n) refl

-- The time that stat shows is read back by utimensat, except that of a time before 1970 that is not a
-- whole second, whose nanoseconds stat shows as a negative number and utimensat refuses with EINVAL.
pub time_arg-to_timespec :
    (t : ℤ) → time_arg (to_timespec t) ≡ (if is_broken t then err einval else ok (time_at t))
unfolding time_arg to_timespec
time_arg-to_timespec (pos n) =
    let not_now : (n % billion == 2 ^ 30 - 1) ≡ false = ground arith in
    let not_omit : (n % billion == 2 ^ 30 - 2) ≡ false = ground arith in
    let small : leb billion (n % billion) ≡ false = ground arith in
    rw (not_now, not_omit, small, add_pos (n / billion * billion) (n % billion) n (omega arith))
      refl
time_arg-to_timespec (negsuc n) =
    time_arg-negative ((n + 1) / billion) ((n + 1) % billion) n (omega arith) (omega arith)

put_four : (v : ℕ) → v < 2 ^ 32 → le_bytes 4 (put_le 4 v) ≡ v
put_four v h = omega arith

-- The bytes of a stat with 64-bit and 32-bit fields are 144, with the fields that a caller reads at
-- their places in `struct stat` of x86-64: the inode number at 8, the mode at 24 and the size at 48.
pub stat_bytes-fields :
    (st : LxStat)
    → st.ino < 2 ^ 64
    → st.mode < 2 ^ 32
    → st.size < 2 ^ 64
    → (length (stat_bytes st) ≡ 144)
      × (field (stat_bytes st) 8 8 ≡ st.ino)
      × (field (stat_bytes st) 24 4 ≡ st.mode)
      × (field (stat_bytes st) 48 8 ≡ st.size)
unfolding stat_bytes
stat_bytes-fields st hi hm hs = (refl, omega arith, omega arith, omega arith)
