-- ===== src/Vma/Order.antt =====
-- The ranges of core/vma.c stay sorted and apart, and a recorded range adds its own addresses.
use elf_sysv_nt.Common.{ℕ, suc, ◌+◌, ◌%◌, ◌≤◌, ◌<◌, ◌≡◌, refl, ◌↔◌, ◌⊎◌, inl, inr}
use elf_sysv_nt.Common.{Bool, true, false, ◌&&◌, ◌||◌, none, some, [], ◌∷◌, ◌++◌, arith}
use elf_sysv_nt.Common.{CString, All, length, take, drop, ltb, leb, ◌==◌, if◌then◌else◌, Bool-cases}
use elf_sysv_nt.Vma.{Vma, Map, BackingKind, vma_max, u64, overlaps, place, entry, vma_record}

-- A range is not empty and ends within 64 bits.
abbrev pub IsRange : Vma → Type 0
IsRange v = (v.start < v.end) × (v.end < u64)

-- Each range ends before the later ones begin.
abbrev pub IsOrdered : Map → Type 0
IsOrdered [] = Unit
IsOrdered (v ∷ m) = IsRange v × All (λ w. v.end ≤ w.start) m × IsOrdered m

abbrev pub covers : Vma → ℕ → Bool
covers v a = leb v.start a && ltb a v.end

abbrev pub covered : ℕ → Map → Bool
covered a [] = false
covered a (v ∷ m) = covers v a || covered a m

-- The number of ranges that hold an address.
abbrev pub owners : ℕ → Map → ℕ
owners a [] = 0
owners a (v ∷ m) = (if covers v a then 1 else 0) + owners a m

abbrev pub insert : Vma → Map → Map
insert v m = take (place v.start m) m ++ (v ∷ drop (place v.start m) m)

All-weaken : (a b : ℕ) (m : Map) → a ≤ b → All (λ w. b ≤ w.start) m → All (λ w. a ≤ w.start) m
All-weaken a b [] h p = tt
All-weaken a b (w ∷ m) h p = (omega arith, All-weaken a b m h p.1)

All-insert :
    (a : ℕ) (v : Vma) (m : Map)
    → a ≤ v.start
    → All (λ w. a ≤ w.start) m
    → All (λ w. a ≤ w.start) (insert v m)
unfolding place
All-insert a v [] h p = (h, tt)
All-insert a v (w ∷ m) h p = elim (Bool-cases (ltb w.start v.start)) [
  | inl e ↦ rw e (p.0, All-insert a v m h p.1)
  | inr e ↦ rw e (h, p)
]

pub insert-IsOrdered :
    (v : Vma) (m : Map)
    → IsRange v
    → overlaps v.start v.end m ≡ false
    → IsOrdered m
    → IsOrdered (insert v m)
unfolding place overlaps
insert-IsOrdered v [] r apart o = (r, tt, tt)
insert-IsOrdered v (w ∷ m) r apart o = elim (Bool-cases (ltb w.start v.start)) [
  | inl e ↦
      rw e (o.0, All-insert w.end v m (ground arith) o.1, insert-IsOrdered v m r (ground arith) o.2)
  | inr e ↦ rw e (r, (ground arith, All-weaken v.end w.end m (ground arith) o.1), o)
]

pub owners-insert :
    (a : ℕ) (v : Vma) (m : Map) → owners a (insert v m) ≡ (if covers v a then 1 else 0) + owners a m
unfolding place
owners-insert a v [] = omega arith
owners-insert a v (w ∷ m) = elim (Bool-cases (ltb w.start v.start)) [
  | inl e ↦ rw e (omega (arith, owners-insert a v m))
  | inr e ↦ rw e refl
]

length-insert : (v : Vma) (m : Map) → length (insert v m) ≡ suc (length m)
unfolding place
length-insert v [] = refl
length-insert v (w ∷ m) = elim (Bool-cases (ltb w.start v.start)) [
  | inl e ↦ rw e (omega (arith, length-insert v m))
  | inr e ↦ rw e refl
]

-- Past the end of an ordered map's first range no later range starts before it.
owners-zero : (a b : ℕ) (m : Map) → a < b → All (λ w. b ≤ w.start) m → owners a m ≡ 0
owners-zero a b [] h p = refl
owners-zero a b (w ∷ m) h p = ground (arith, owners-zero a b m)

-- In an ordered map an address belongs to at most one range.
pub owners-le-one : (a : ℕ) (m : Map) → IsOrdered m → owners a m ≤ 1
owners-le-one a [] o = omega arith
owners-le-one a (v ∷ m) o = ground (arith, owners-le-one a m o.2, owners-zero a v.end m)

overlap_found :
    (start end : ℕ) (m : Map)
    → start < end
    → IsOrdered m
    → overlaps start end m ≡ true
    → (a : ℕ) × (start ≤ a) × (a < end) × (0 < owners a m)
unfolding overlaps
overlap_found start end [] h o e = cc
overlap_found start end (v ∷ m) h o e = elim (Bool-cases (ltb start v.end && ltb v.start end)) [
  | inl hit ↦
      (if leb v.start start then start else v.start, ground arith, ground arith, ground arith)
  | inr miss ↦
      let (a, lo, hi, own) = overlap_found start end m h o.2 (ground arith) in
      (a, lo, hi, omega arith)
]

overlaps_of_owner :
    (start end a : ℕ) (m : Map) → start ≤ a → a < end → 0 < owners a m → overlaps start end m ≡ true
unfolding overlaps
overlaps_of_owner start end a [] lo hi own = absurd (omega arith)
overlaps_of_owner start end a (v ∷ m) lo hi own = ground (arith, overlaps_of_owner start end a m)

module _ (start len prot : ℕ) (kind : BackingKind) (offset : ℕ) (name : CString) where
  -- For a start and a length below 2^64: recording a range in an ordered map of at most 64
  -- ranges, if it succeeds, leaves an ordered map of one range more, and of at most 64.
  pub vma_record-IsOrdered :
      (m : Map) {m' : Map}
      → start < u64
      → len < u64
      → IsOrdered m
      → length m ≤ vma_max
      → vma_record start len prot kind offset name m ≡ some m'
      → IsOrdered m' × (length m' ≡ length m + 1) × (length m' ≤ vma_max)
  unfolding vma_record
  vma_record-IsOrdered m hs hl o room e =
      let v = entry start ((start + len) % u64) prot kind offset name in
      ground (arith, insert-IsOrdered v m, length-insert v m)

  -- For a start and a length below 2^64: recording a range, if it succeeds, adds exactly the
  -- addresses of the range: each of them gets one owner more, and every other address keeps its
  -- owners.
  pub owners-vma_record :
      (a : ℕ) (m : Map) {m' : Map}
      → start < u64
      → len < u64
      → vma_record start len prot kind offset name m ≡ some m'
      → owners a m' ≡ (if leb start a && ltb a (start + len) then 1 else 0) + owners a m
  unfolding vma_record
  owners-vma_record a m hs hl e =
      let v = entry start ((start + len) % u64) prot kind offset name in
      ground (arith, owners-insert a v m)

  -- For a start and a length below 2^64 and an ordered map: the call is refused exactly when the
  -- range is empty, its end does not fit in 64 bits, the map holds 64 ranges, or some address of
  -- the range is already in a recorded range.
  pub vma_record-none_iff :
      (m : Map)
      → start < u64
      → len < u64
      → IsOrdered m
      → (vma_record start len prot kind offset name m ≡ none) ↔ (
          (len ≡ 0)
          ⊎ (u64 ≤ start + len)
          ⊎ (length m ≡ vma_max)
          ⊎ ((a : ℕ) × (start ≤ a) × (a < start + len) × (0 < owners a m)))
  unfolding vma_record
  vma_record-none_iff m hs hl o = (
    λ e. elim (Bool-cases ((len == 0) || (ltb end start) || (length m == vma_max))) [
      | inl bad ↦ ground arith
      | inr fine ↦
          let (a, lo, hi, own) = overlap_found start end m (ground arith) o (ground arith) in
          inr (inr (inr (a, lo, ground arith, own)))
    ],
    elim [
      | inl z ↦ ground arith
      | inr (inl w) ↦ ground arith
      | inr (inr (inl f)) ↦ ground arith
      | inr (inr (inr (a, lo, hi, own))) ↦ ground (arith, overlaps_of_owner start end a m)
    ],
  )
    where
      end : ℕ
      end = (start + len) % u64
