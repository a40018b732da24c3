-- ===== src/Dirent/Chunks.antt =====
-- core/vfs_synth.c: what one call of getdents64 on a generated directory returns.
use elf_sysv_nt.Common.{
  ℕ, zero, suc, ◌+◌, ◌≤◌, ◌<◌, ◌≡◌, refl, sym, ap, ◌∙◌, true, false, List, [], ◌∷◌, ◌++◌, length,
  null, ltb, arith, Bool-cases, inl, inr,
}
use elf_sysv_nt.Common.Errno.{Errno, Result, ok, err, einval}
use elf_sysv_nt.Dirent.{
  Dirent, record_len, dirent_bytes, dirent_pack, no_room_for_next, getdents_loop,
}
use mathlib.Core.List.{append_assoc, append-nil}
use elf_sysv_nt.Dirent.Read.{packed}

-- A call's outcome: the `k` entries from `at` on, behind what is written already, and the position
-- behind them. Where anything was left and nothing written, `k` is not 0.
pub record IsChunk (entry : ℕ → Dirent) (n at : ℕ) (out : List ℕ) (r : Result (List ℕ) × ℕ)
    : Type 0 where
  pub count : ℕ
  pub within : count ≤ n
  pub bytes : r.0 ≡ ok (out ++ packed entry at count)
  pub next : r.1 ≡ at + count
  pub some_read : null out ≡ true → 0 < n → 0 < count

nothing-IsChunk :
    (entry : ℕ → Dirent) (n at : ℕ) (out : List ℕ) (r : Result (List ℕ))
    → r ≡ ok out
    → (null out ≡ true → 0 < n → 0 < 0)
    → IsChunk entry n at out (r, at)
unfolding packed
nothing-IsChunk entry n at out r e h = record {
  count = 0;
  within = omega arith;
  bytes = e ∙ ap ok (sym (append-nil out));
  next = omega arith;
  some_read = h;
}

more-IsChunk :
    (entry : ℕ → Dirent) (n at : ℕ) (out : List ℕ) (r : Result (List ℕ) × ℕ)
    → IsChunk entry n (suc at) (out ++ dirent_bytes (entry at)) r
    → IsChunk entry (suc n) at out r
unfolding packed
more-IsChunk entry n at out r c = record {
  count = suc c.count;
  within = omega (arith, c.within);
  bytes =
      c.bytes ∙ ap ok (append_assoc out (dirent_bytes (entry at)) (packed entry (suc at) c.count));
  next = omega (arith, c.next);
  some_read = λ e h. omega arith;
}

no_room_for_next-written : (out : List ℕ) → null out ≡ false → no_room_for_next out ≡ ok out
no_room_for_next-written out e = rw e refl

length-empty : (out : List ℕ) → null out ≡ true → length out ≡ 0
length-empty [] h = refl
length-empty (b ∷ out) h = cc

getdents_loop-zero :
    (entry : ℕ → Dirent) (bound at : ℕ) (out : List ℕ)
    → getdents_loop entry bound 0 at out ≡ (ok out, at)
unfolding getdents_loop
getdents_loop-zero entry bound at out = refl

-- One round, by the outcome of dirent_pack.
module _ (entry : ℕ → Dirent) (bound n at : ℕ) (out : List ℕ) where
  getdents_loop-full :
      (e : Errno)
      → dirent_pack bound out (entry at) ≡ err e
      → getdents_loop entry bound (suc n) at out ≡ (no_room_for_next out, at)
  unfolding getdents_loop
  getdents_loop-full e h = rw (h, getdents_loop) refl

  getdents_loop-more :
      (out' : List ℕ)
      → dirent_pack bound out (entry at) ≡ ok out'
      → getdents_loop entry bound (suc n) at out ≡ getdents_loop entry bound n (suc at) out'
  unfolding getdents_loop
  getdents_loop-more out' h = rw (h, getdents_loop) refl

dirent_pack-full :
    (bound : ℕ) (out : List ℕ) (d : Dirent)
    → ltb bound (length out + record_len d.name) ≡ true
    → dirent_pack bound out d ≡ err einval
unfolding dirent_pack
dirent_pack-full bound out d h = rw h refl

dirent_pack-room :
    (bound : ℕ) (out : List ℕ) (d : Dirent)
    → ltb bound (length out + record_len d.name) ≡ false
    → dirent_pack bound out d ≡ ok (out ++ dirent_bytes d)
unfolding dirent_pack
dirent_pack-room bound out d h = rw h refl

pub getdents_loop-IsChunk :
    (entry : ℕ → Dirent) (bound total : ℕ)
    (room : (i : ℕ) → i < total → record_len (entry i).name ≤ bound) (n at : ℕ) (out : List ℕ)
    → at + n ≤ total
    → IsChunk entry n at out (getdents_loop entry bound n at out)
getdents_loop-IsChunk entry bound total room zero at out h =
    let e : getdents_loop entry bound 0 at out ≡ (ok out, at) =
      getdents_loop-zero entry bound at out in
    rw e (nothing-IsChunk entry 0 at out (ok out) refl (λ e h. h))
getdents_loop-IsChunk entry bound total room (suc n) at out h =
    elim (Bool-cases (ltb bound (length out + record_len (entry at).name))) [
      | inl e ↦
          let written : null out ≡ false =
            ground (arith, room at (omega arith), length-empty out, Bool-cases (null out)) in
          rw
            (getdents_loop-full entry bound n at out einval
              (dirent_pack-full bound out (entry at) e))
            (nothing-IsChunk entry (suc n) at out (no_room_for_next out)
              (no_room_for_next-written out written) (λ e'. absurd (cc (written, e'))))
      | inr e ↦
          rw (getdents_loop-more entry bound n at out _ (dirent_pack-room bound out (entry at) e)) (
            more-IsChunk entry n at out _ (
              getdents_loop-IsChunk entry bound total room n (suc at)
                (out ++ dirent_bytes (entry at)) (omega arith)))
    ]
