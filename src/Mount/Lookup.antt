-- ===== src/Mount/Lookup.antt =====
-- core/vfs.c, mount_of: the mount with the longest point above a path.
use elf_sysv_nt.Common.{
  ℕ, zero, suc, ◌+◌, ◌≤◌, ◌≡◌, refl, ◌∙◌, ap, Bool, true, false, ◌&&◌, Option, none, some,
}
use elf_sysv_nt.Common.{List, [], ◌∷◌, CString, length, leb, get_elem?, arith}
use elf_sysv_nt.Common.{Bool-cases, inl, inr}
use elf_sysv_nt.Mount.{Mount, Seat, hits, best_from, mount_of}

abbrev pub point_len : Option Seat → ℕ
point_len none = 0
point_len (some (i, m)) = length m.point

abbrev is_found : Option Seat → Bool
is_found none = false
is_found (some seat) = true

-- A seat found is in the table, and its point is above the path.
abbrev IsSeat : List Mount → CString → Option Seat → Type 0
IsSeat all abs none = Unit
IsSeat all abs (some (i, m)) = (get_elem? all i ≡ some m) × (hits abs m.point ≡ true)

module _ (all : List Mount) (abs : CString) where
  shift :
      (m : Mount) (ms : List Mount) (i : ℕ)
      → ((j : ℕ) → get_elem? all (i + j) ≡ get_elem? (m ∷ ms) j)
      → (j : ℕ) → get_elem? all (suc i + j) ≡ get_elem? ms j
  shift m ms i same j = ap (λ k. get_elem? all k) (omega arith) ∙ same (suc j)

  this-IsSeat :
      (m : Mount) (ms : List Mount) (i : ℕ)
      → ((j : ℕ) → get_elem? all (i + j) ≡ get_elem? (m ∷ ms) j)
      → hits abs m.point ≡ true
      → IsSeat all abs (some (i, m))
  this-IsSeat m ms i same hit = (ap (λ k. get_elem? all k) (omega arith) ∙ same 0, hit)

  best_from-IsSeat :
      (ms : List Mount) (i : ℕ) (best : Option Seat) (bl : ℕ)
      → ((j : ℕ) → get_elem? all (i + j) ≡ get_elem? ms j)
      → IsSeat all abs best
      → point_len best ≡ bl
      → IsSeat all abs (best_from abs ms i best bl)
        × (bl ≤ point_len (best_from abs ms i best bl))
        × (is_found best ≡ true → is_found (best_from abs ms i best bl) ≡ true)
  unfolding best_from
  best_from-IsSeat [] i best bl same seat e = (seat, omega arith, λ f. f)
  best_from-IsSeat (m ∷ ms) i best bl same seat e =
      elim (Bool-cases (hits abs m.point && leb bl (length m.point))) [
        | inl better ↦
            let (kept, longer, found) =
              best_from-IsSeat ms (suc i) (some (i, m)) (length m.point) (shift m ms i same)
                (this-IsSeat m ms i same (ground arith)) refl in
            rw better (kept, ground arith, λ f. found refl)
        | inr worse ↦ rw worse (best_from-IsSeat ms (suc i) best bl (shift m ms i same) seat e)
      ]

  best_from-longest :
      (ms : List Mount) (i : ℕ) (best : Option Seat) (bl j : ℕ) (m : Mount)
      → ((k : ℕ) → get_elem? all (i + k) ≡ get_elem? ms k)
      → IsSeat all abs best
      → point_len best ≡ bl
      → get_elem? ms j ≡ some m
      → hits abs m.point ≡ true
      → (is_found (best_from abs ms i best bl) ≡ true)
        × (length m.point ≤ point_len (best_from abs ms i best bl))
  unfolding best_from
  best_from-longest [] i best bl j m same seat e at hit = cc
  best_from-longest (x ∷ ms) i best bl zero m same seat e at hit =
      elim (Bool-cases (hits abs x.point && leb bl (length x.point))) [
        | inl better ↦
            let (kept, longer, found) =
              best_from-IsSeat ms (suc i) (some (i, x)) (length x.point) (shift x ms i same)
                (this-IsSeat x ms i same (ground arith)) refl in
            rw better (found refl, ground arith)
        | inr worse ↦
            let (kept, longer, found) =
              best_from-IsSeat ms (suc i) best bl (shift x ms i same) seat e in
            rw worse (found (ground arith), ground arith)
      ]
  best_from-longest (x ∷ ms) i best bl (suc j) m same seat e at hit =
      elim (Bool-cases (hits abs x.point && leb bl (length x.point))) [
        | inl better ↦ rw better (
            best_from-longest ms (suc i) (some (i, x)) (length x.point) j m (shift x ms i same)
              (this-IsSeat x ms i same (ground arith)) refl at hit)
        | inr worse ↦
            rw worse (best_from-longest ms (suc i) best bl j m (shift x ms i same) seat e at hit)
      ]

seat_at :
    (ms : List Mount) (abs : CString) (j : ℕ) (m : Mount) (o : Option Seat) (i : ℕ) (best : Mount)
    → IsSeat ms abs o
    → length m.point ≤ point_len o
    → o ≡ some (i, best)
    → (get_elem? ms i ≡ some best)
      × (hits abs best.point ≡ true)
      × (length m.point ≤ length best.point)
seat_at ms abs j m none i best seat long e = cc
seat_at ms abs j m (some (k, b)) i best seat long e = ground arith

-- If some mount of the table is above the path, `mount_of` finds a mount of the table that is above
-- it, and none that is above it has a longer point.
pub mount_of-longest :
    (ms : List Mount) (abs : CString) (j : ℕ) (m : Mount)
    → get_elem? ms j ≡ some m
    → hits abs m.point ≡ true
    → (i : ℕ) × (best : Mount) × (mount_of ms abs ≡ some (i, best))
      × (get_elem? ms i ≡ some best)
      × (hits abs best.point ≡ true)
      × (length m.point ≤ length best.point)
unfolding mount_of
mount_of-longest ms abs j m at hit = found (best_from abs ms 0 none 0) refl
  where
    same : (k : ℕ) → get_elem? ms (0 + k) ≡ get_elem? ms k
    same k = ap (λ i. get_elem? ms i) (omega arith)

    found :
        (o : Option Seat)
        → best_from abs ms 0 none 0 ≡ o
        → (i : ℕ) × (best : Mount) × (best_from abs ms 0 none 0 ≡ some (i, best))
          × (get_elem? ms i ≡ some best)
          × (hits abs best.point ≡ true)
          × (length m.point ≤ length best.point)
    found none e =
        absurd (ground (arith, best_from-longest ms abs ms 0 none 0 j m same tt refl at hit))
    found (some (i, best)) e =
        let (in_table, above, longest) =
          seat_at ms abs j m (best_from abs ms 0 none 0) i best
            (best_from-IsSeat ms abs ms 0 none 0 same tt refl).0
            (best_from-longest ms abs ms 0 none 0 j m same tt refl at hit).1 e in
        (i, best, e, in_table, above, longest)
