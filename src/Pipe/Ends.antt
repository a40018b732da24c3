-- ===== src/Pipe/Ends.antt =====
-- The two descriptions of a pipe of core/vfs_synth.c and the ring that they share.
use elf_sysv_nt.Common.{ℕ, ◌+◌, ◌%◌, ◌≡◌, ◌≢◌, ◌∙◌, refl, Bool, true, false}
use elf_sysv_nt.Common.{Option, none, some, List, [], ◌∷◌, arith, length-replicate}
use elf_sysv_nt.Common.{◌==◌, if◌then◌else◌, has_bit, pos, ◌⊎◌, inl, inr}
use elf_sysv_nt.Common.Errno.{ok, err, epipe}
use elf_sysv_nt.File.{File, Store}
use elf_sysv_nt.Pipe.{Ring, Pipes, ring_size, empty_ring, end_of, vfs_pipe}
use elf_sysv_nt.Pipe.{less_end, drop_end, pipe_release, pipe_write}
use elf_sysv_nt.Pipe.Queue.{IsRing, contents}

-- The number of the `ends` in a list of open ends, each given by its flags, that are for reading
-- (`reading` is true) or for writing.
abbrev pub ends_of : Bool → List ℕ → ℕ
ends_of reading [] = 0
ends_of true (f ∷ fs) = (if f % 4 == 0 then 1 else 0) + ends_of true fs
ends_of false (f ∷ fs) = (if f % 4 == 0 then 0 else 1) + ends_of false fs

-- The ring counts its open ends.
pub record HasEnds (fs : List ℕ) (p : Ring) : Type 0 where
  pub reads : p.readers ≡ pos (ends_of true fs)
  pub writes : p.writers ≡ pos (ends_of false fs)

-- The ring that is left when the ends `fs` are released in turn; `none` once it is freed.
abbrev pub release_all : List ℕ → Ring → Option Ring
release_all [] p = some p
release_all (f ∷ fs) p = elim (drop_end f p) [ none ↦ none | some p' ↦ release_all fs p' ]

drop_end-HasEnds :
    (f : ℕ) (fs : List ℕ) (p : Ring)
    → HasEnds (f ∷ fs) p
    → ((drop_end f p ≡ none) × (fs ≡ []))
      ⊎ ((p' : Ring) × (drop_end f p ≡ some p')
          × HasEnds fs p'
          × (fs ≢ [])
          × (contents p' ≡ contents p))
unfolding drop_end
drop_end-HasEnds f [] p h = inl (ground arith, refl)
drop_end-HasEnds f (g ∷ fs) p h = inr (
  less_end f p,
  ground arith,
  record { reads = ground arith; writes = ground arith },
  λ e. cc,
  ground arith,
)

-- What `pipe_release` leaves at the ring of the description.
released-at :
    (f : File) (w : Pipes) (p : Ring)
    → w.rings f.priv ≡ some p
    → (pipe_release f w).rings f.priv ≡ drop_end f.flags p
unfolding pipe_release
released-at f w p e = rw (pipe_release, e) (ground arith)

released-other :
    (f : File) (w : Pipes) (p : Ring) (q : ℕ)
    → w.rings f.priv ≡ some p
    → (pipe_release f w).rings q ≡ (if f.priv == q then drop_end f.flags p else w.rings q)
unfolding pipe_release
released-other f w p q e = rw (pipe_release, e) refl

-- Releasing the description of one of a ring's open ends frees the ring exactly when it was the last
-- one, and otherwise leaves the ring in memory with one end less of that side, holding the same
-- bytes. No other ring changes.
pub pipe_release-HasEnds :
    (f : File) (fs : List ℕ) (w : Pipes) (p : Ring)
    → w.rings f.priv ≡ some p
    → HasEnds (f.flags ∷ fs) p
    → ((((pipe_release f w).rings f.priv ≡ none) × (fs ≡ []))
        ⊎ ((p' : Ring) × ((pipe_release f w).rings f.priv ≡ some p')
            × HasEnds fs p'
            × (fs ≢ [])
            × (contents p' ≡ contents p)))
      × ((q : ℕ)
          → (pipe_release f w).rings q
            ≡ (if f.priv == q then (pipe_release f w).rings f.priv else w.rings q))
pipe_release-HasEnds f fs w p e h =
    let at = released-at f w p e in
    (
      elim (drop_end-HasEnds f.flags fs p h) [
        | inl (gone, last) ↦ inl (at ∙ gone, last)
        | inr (p', kept, ends, more, same) ↦ inr (p', at ∙ kept, ends, more, same)
      ],
      λ q. rw at (released-other f w p q e),
    )

-- Once the last end for reading is gone every write fails with EPIPE.
pub pipe_write-after_readers :
    (fs bytes : List ℕ) (p : Ring)
    → HasEnds fs p
    → ends_of true fs ≡ 0
    → pipe_write p bytes ≡ (err epipe, p)
unfolding pipe_write
pipe_write-after_readers fs bytes p h e = ground arith

-- A new pipe: `ring` at `p`, and the descriptions `f` at `r` for reading and `g` at `w` for writing.
pub record IsPipe (p r w : ℕ) (ring : Ring) (f g : File) (s : Store Pipes) : Type 0 where
  pub ring_at : s.world.rings p ≡ some ring
  pub reader_at : s.files r ≡ some f
  pub writer_at : s.files w ≡ some g
  pub valid : IsRing ring
  pub empty : contents ring ≡ []
  pub ends : HasEnds (f.flags ∷ g.flags ∷ []) ring
  pub one_reader : (f.priv ≡ p) × (f.refs ≡ 1) × (f.flags % 4 ≡ 0)
  pub one_writer : (g.priv ≡ p) × (g.refs ≡ 1) × (g.flags % 4 ≡ 1)
  pub same_name : (f.path ≡ g.path) × (f.priv_i ≡ ring.ino) × (g.priv_i ≡ ring.ino)

-- `vfs_pipe` with memory for its three objects makes a valid empty ring with one end for reading
-- and one for writing, behind two descriptions of one reference each that show the ring's inode
-- number, which is the next one, and it counts that number up.
pub vfs_pipe-IsPipe :
    (p r w flags : ℕ) (s : Store Pipes)
    → r ≢ w
    → (ring : Ring) × (f : File) × (g : File) × ((vfs_pipe (some p) (some r) (some w) flags s).0
        ≡ ok (r, w))
      × IsPipe p r w ring f g (vfs_pipe (some p) (some r) (some w) flags s).1
      × (ring.ino ≡ s.world.next_ino)
      × ((vfs_pipe (some p) (some r) (some w) flags s).1.world.next_ino ≡ s.world.next_ino + 1)
unfolding vfs_pipe
vfs_pipe-IsPipe p r w flags s ne =
    let nonblock : ℕ = if has_bit flags 0o4000 then 0o4000 else 0 in
    let small : nonblock % 4 ≡ 0 = ground arith in
    (
      empty_ring s.world.next_ino,
      end_of 0 nonblock p s.world.next_ino,
      end_of 1 nonblock p s.world.next_ino,
      refl,
      record {
        ring_at = ground arith;
        reader_at = ground arith;
        writer_at = ground arith;
        valid = record {
          storage = length-replicate {A = ℕ} ring_size 0;
          head_in = omega arith;
          tail_at = omega arith;
          used_le = omega arith;
        };
        empty = refl;
        ends = record { reads = ground arith; writes = ground arith };
        one_reader = (refl, refl, omega arith);
        one_writer = (refl, refl, omega arith);
        same_name = (refl, refl, refl);
      },
      refl,
      refl,
    )
