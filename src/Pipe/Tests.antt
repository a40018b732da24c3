-- ===== src/Pipe/Tests.antt =====
-- The pipe of core/vfs_synth.c at a ring that holds two bytes.
use elf_sysv_nt.Common.{ℕ, ◌≡◌, ◌≢◌, refl}
use elf_sysv_nt.Common.{none, some, List, [], ◌∷◌, arith, codes}
use elf_sysv_nt.Common.{length-replicate, replicate, ◌⊎◌, ◌==◌, if◌then◌else◌}
use elf_sysv_nt.Common.Errno.{ok}
use elf_sysv_nt.File.{File, Kind, new_file}
use elf_sysv_nt.Common.Decimal.{decimal}
use elf_sysv_nt.Pipe.{Ring, Pipes, empty_ring, pipe_release}
use elf_sysv_nt.Pipe.{pipe_write, pipe_read, read_loop}
use elf_sysv_nt.Pipe.Queue.{IsRing, SameEnds, contents, pipe_read_refines, pipe_write_refines}
use elf_sysv_nt.Pipe.Ends.{HasEnds, pipe_release-HasEnds}

abbrev two_held : Ring
two_held = record (empty_ring 1) { buf = 7 ∷ 8 ∷ replicate 65534 0; tail = 2; used = 2 }

two_held-IsRing : IsRing two_held
two_held-IsRing = record {
  storage = omega (arith, length-replicate {A = ℕ} 65534 0);
  head_in = omega arith;
  tail_at = omega arith;
  used_le = omega arith;
}

read_one : (pipe_read two_held 1).0 ≡ ok (7 ∷ [])
unfolding pipe_read read_loop
read_one = refl

named : decimal 1024 ≡ codes "1024"
unfolding decimal
named = refl

pipe_read_refines_example :
    (pipe_read two_held 5 ≡ (ok (7 ∷ 8 ∷ []), (pipe_read two_held 5).1))
    × (contents (pipe_read two_held 5).1 ≡ [])
    × IsRing (pipe_read two_held 5).1
    × SameEnds two_held (pipe_read two_held 5).1
pipe_read_refines_example = pipe_read_refines two_held 5 two_held-IsRing

pipe_write_refines_example :
    (pipe_write two_held (9 ∷ []) ≡ (ok 1, (pipe_write two_held (9 ∷ [])).1))
    × (contents (pipe_write two_held (9 ∷ [])).1 ≡ 7 ∷ 8 ∷ 9 ∷ [])
    × IsRing (pipe_write two_held (9 ∷ [])).1
    × SameEnds two_held (pipe_write two_held (9 ∷ [])).1
pipe_write_refines_example = pipe_write_refines two_held (9 ∷ []) two_held-IsRing

-- The ring is at 10.
abbrev holding : Pipes
holding = record { rings = λ a. if a == 10 then some two_held else none; next_ino = 2 }

-- The end for reading.
abbrev reader : File
reader = record (new_file Kind.pipe 0) { priv = 10 }

pipe_release-HasEnds_example :
    ((((pipe_release reader holding).rings 10 ≡ none) × (◌≡◌ {A = List ℕ} (1 ∷ []) []))
      ⊎ ((p' : Ring) × ((pipe_release reader holding).rings 10 ≡ some p')
          × HasEnds (1 ∷ []) p'
          × (◌≢◌ {A = List ℕ} (1 ∷ []) [])
          × (contents p' ≡ contents two_held)))
    × ((q : ℕ)
        → (pipe_release reader holding).rings q
          ≡ (if 10 == q then (pipe_release reader holding).rings 10 else holding.rings q))
pipe_release-HasEnds_example =
    pipe_release-HasEnds reader (1 ∷ []) holding two_held refl
      (record { reads = refl; writes = refl })
