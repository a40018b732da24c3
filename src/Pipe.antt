-- ===== src/Pipe.antt =====
-- core/vfs_synth.c, the pipe: a ring of 65536 bytes in kernel memory behind two descriptions.
pub mod Ends
pub mod Queue
mod Tests
use elf_sysv_nt.Common.Decimal.{decimal}
use elf_sysv_nt.Common.{
  ℕ, zero, suc, ◌+◌, ◌-◌, ◌/◌, ◌%◌, Bool, true, false, ◌&&◌, Option, none, some,
}
use elf_sysv_nt.Common.{
  List, [], ◌∷◌, ◌++◌, CString, codes, length, get_or, set, replicate, ltb, leb, ◌==◌,
}
use elf_sysv_nt.Common.{if◌then◌else◌, has_bit, ℤ, pos, negsuc}
use elf_sysv_nt.Common.Int.{◌+ℤ◌, is_zero}
use elf_sysv_nt.Common.Errno.{Errno, Result, ok, err, eagain, epipe, espipe, enomem}
use elf_sysv_nt.File.{File, Kind, pipe, Store, update, new_file, file_new}

abbrev pub ring_size : ℕ
ring_size = 65536

-- `LX_PIPE_BUF`
abbrev pub pipe_buf : ℕ
pipe_buf = 4096

-- `struct pipe_ring`; `used` is its `count`.
pub record Ring : Type 0 where
  pub buf : List ℕ
  pub head : ℕ
  pub tail : ℕ
  pub used : ℕ
  pub readers : ℤ
  pub writers : ℤ
  pub ino : ℕ

-- The loop of `pipe_read`, with `n` bytes left to fill; the bytes go to the caller's buffer.
unfoldable pub read_loop : ℕ → Ring → List ℕ × Ring
read_loop zero p = ([], p)
read_loop (suc n) p =
    let next = record p { head = (p.head + 1) % ring_size; used = p.used - 1 } in
    let (bytes, p') = read_loop n next in
    if ltb 0 p.used then (get_or p.buf p.head 0 ∷ bytes, p') else ([], p)

-- The result is what goes to the buffer; its length is the return value.
unfoldable pub pipe_read : Ring → ℕ → Result (List ℕ) × Ring
pipe_read p len =
    if p.used == 0
    then (if is_zero p.writers then ok [] else err eagain, p)
    else (let (bytes, p') = read_loop len p in (ok bytes, p'))

-- The loop of `pipe_write` over the bytes left, with `n` bytes written.
unfoldable pub write_loop : List ℕ → ℕ → Ring → ℕ × Ring
write_loop [] n p = (n, p)
write_loop (x ∷ xs) n p =
    let next = record p {
      buf = set p.buf p.tail x;
      tail = (p.tail + 1) % ring_size;
      used = p.used + 1;
    } in
    let rest = write_loop xs (n + 1) next in if ltb p.used ring_size then rest else (n, p)

unfoldable pub pipe_write : Ring → List ℕ → Result ℕ × Ring
pipe_write p bytes =
    if is_zero p.readers
    then (err epipe, p)
    else if leb (length bytes) pipe_buf && ltb (ring_size - p.used) (length bytes)
    then (err eagain, p)
    else if ring_size - p.used == 0
    then (err eagain, p)
    else (let (n, p') = write_loop bytes 0 p in (ok n, p'))

unfoldable pub pipe_lseek : ℤ → ℕ → Result ℕ
pipe_lseek off whence = err espipe

-- The rings in memory and the next inode number.
pub record Pipes : Type 0 where
  pub rings : ℕ → Option Ring
  pub next_ino : ℕ

abbrev pub update_ring : (ℕ → Option Ring) → ℕ → Option Ring → ℕ → Option Ring
update_ring m a v b = if a == b then v else m b

-- The ring with the count of one side, by the access mode, decremented.
abbrev pub less_end : ℕ → Ring → Ring
less_end flags p =
    if flags % 4 == 0
    then record p { readers = p.readers +ℤ negsuc 0 }
    else record p { writers = p.writers +ℤ negsuc 0 }

-- One end goes; `none` is the ring freed.
unfoldable pub drop_end : ℕ → Ring → Option Ring
drop_end flags p =
    let p' = less_end flags p in if is_zero p'.readers && is_zero p'.writers then none else some p'

unfoldable pub pipe_release : File → Pipes → Pipes
unfolding drop_end
pipe_release f w = elim (w.rings f.priv) [
  | none ↦ w
  | some p ↦ record w { rings = update_ring w.rings f.priv (drop_end f.flags p) }
]

abbrev pub empty_ring : ℕ → Ring
empty_ring ino = record {
  buf = replicate ring_size 0;
  head = 0;
  tail = 0;
  used = 0;
  readers = pos 1;
  writers = pos 1;
  ino = ino;
}

-- One end's description: `access` is O_RDONLY or O_WRONLY, and `nonblock` is `flags & O_NONBLOCK`.
abbrev pub end_of : ℕ → ℕ → ℕ → ℕ → File
end_of access nonblock ring ino = record (new_file pipe (access + nonblock)) {
  priv = ring;
  priv_i = ino;
  path = codes "pipe:[" ++ (decimal ino ++ codes "]");
}

-- `ring`, `rd` and `wr` are what the three `calloc` calls return.
unfoldable pub vfs_pipe : (ring rd wr : Option ℕ) → ℕ → Store Pipes → Result (ℕ × ℕ) × Store Pipes
vfs_pipe none rd wr flags s = (err enomem, s)
vfs_pipe (some p) (some r) (some w) flags s =
    let ino = s.world.next_ino in
    let nonblock = if has_bit flags 0o4000 then 0o4000 else 0 in
    (
      ok (r, w),
      record {
        files =
            update (update s.files r (some (end_of 0 nonblock p ino))) w
              (some (end_of 1 nonblock p ino));
        world = record {
          rings = update_ring s.world.rings p (some (empty_ring ino));
          next_ino = ino + 1;
        };
      },
    )
vfs_pipe (some p) _ _ flags s =
    (err enomem, record s { world = record (s.world) { next_ino = s.world.next_ino + 1 } })
