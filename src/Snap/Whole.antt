-- ===== src/Snap/Whole.antt =====
-- core/vfs_synth.c, snap_read: reading a snapshot from end to end.
use elf_sysv_nt.Common.{
  ℕ, zero, suc, ◌+◌, ◌-◌, ◌≤◌, ◌<◌, ◌≡◌, refl, sym, ap, ◌∙◌, true, false, Option, none, some, List,
  [], ◌∷◌, ◌++◌, length, take, drop, ltb, leb, if◌then◌else◌, arith, inl, inr, min, Bool-cases,
  length-take, length-drop, drop-nil,
}
use elf_sysv_nt.Snap.{Snap, part, snap_read}

-- A caller that reads `len` bytes at a time until it reads none, with at most `fuel` calls.
read_next : List ℕ → Option (List ℕ) → Option (List ℕ)
read_next [] rest = some []
read_next (b ∷ bytes) none = none
read_next (b ∷ bytes) (some rest) = some ((b ∷ bytes) ++ rest)

unfoldable pub read_to_end : ℕ → ℕ → Snap → Option (List ℕ)
unfolding read_next
read_to_end zero len f = none
read_to_end (suc fuel) len f =
    let (bytes, f') = snap_read f len in read_next bytes (read_to_end fuel len f')

drop-drop {ℓ} : {A : Type ℓ} (m n : ℕ) (xs : List A) → drop n (drop m xs) ≡ drop (m + n) xs
drop-drop zero n xs = let e : 0 + n ≡ n = omega arith in rw e refl
drop-drop (suc m) n [] = drop-nil _ n ∙ sym (drop-nil _ (suc m + n))
drop-drop (suc m) n (x ∷ xs) =
    let e : suc m + n ≡ suc (m + n) = omega arith in rw e (drop-drop m n xs)

drop-all {ℓ} : {A : Type ℓ} (n : ℕ) (xs : List A) → length xs ≤ n → drop n xs ≡ []
drop-all n [] h = drop-nil _ n
drop-all zero (x ∷ xs) h = absurd (omega arith)
drop-all (suc n) (x ∷ xs) h = drop-all n xs (omega arith)

take-append-rest {ℓ} :
    {A : Type ℓ} (k : ℕ) (xs : List A) → take k xs ++ drop (length (take k xs)) xs ≡ xs
take-append-rest zero xs = refl
take-append-rest (suc k) [] = refl
take-append-rest (suc k) (x ∷ xs) = ap (λ l. x ∷ l) (take-append-rest k xs)

module _ (text : List ℕ) (at len : ℕ) where
  -- How much `part` takes.
  abbrev pub part_size : ℕ
  part_size = if ltb len (length text - at) then len else length text - at

  pub part-past : leb (length text) at ≡ true → part text at len ≡ []
  part-past h = rw h refl

  pub part-within : leb (length text) at ≡ false → part text at len ≡ take part_size (drop at text)
  part-within h = rw h refl

  -- A part and what lies behind it.
  part-rest : part text at len ++ drop (at + length (part text at len)) text ≡ drop at text
  part-rest = elim (Bool-cases (leb (length text) at)) [
    | inl past ↦ let e : at + 0 ≡ at = omega arith in rw (part-past past, e) refl
    | inr within ↦
        rw (part-within within, ← drop-drop at (length (take part_size (drop at text))) text)
          (take-append-rest part_size (drop at text))
  ]

  pub length-part : length (part text at len) ≡ min len (length text - at)
  length-part = elim (Bool-cases (leb (length text) at)) [
    | inl past ↦ rw (part-past past) (ground arith)
    | inr within ↦
        rw (part-within within)
          (ground (arith, length-take part_size (drop at text), length-drop at text))
  ]

  -- A part is empty at the end only.
  pub part-progress : 0 < len → at < length text → 0 < length (part text at len)
  part-progress p h =
      let within : leb (length text) at ≡ false = ground arith in
      rw (part-within within)
        (ground (arith, length-take part_size (drop at text), length-drop at text))

  pub part-end : length text ≤ at → part text at len ≡ []
  part-end h = part-past (ground arith)

read_next-more :
    (bytes rest whole : List ℕ) (o : Option (List ℕ))
    → 0 < length bytes
    → o ≡ some rest
    → bytes ++ rest ≡ whole
    → read_next bytes o ≡ some whole
unfolding read_next
read_next-more [] rest whole o h e e' = absurd (omega arith)
read_next-more (b ∷ bytes) rest whole o h e e' = rw e (ap (λ l. some l) e')

-- From any position, `m` bytes before the end.
read_to_end-rest :
    (text : List ℕ) (fuel len at m : ℕ)
    → 0 < len
    → length text - at ≡ m
    → m < fuel
    → read_to_end fuel len (record { text = some text; at = at }) ≡ some (drop at text)
unfolding read_to_end snap_read read_next
read_to_end-rest text zero len at m p e h = absurd (omega arith)
read_to_end-rest text (suc fuel) len at zero p e h =
    let past : length text ≤ at = omega arith in
    rw (part-end text at len past) (ap (λ l. some l) (sym (drop-all at text past)))
read_to_end-rest text (suc fuel) len at (suc m) p e h =
    let some_read : 0 < length (part text at len) = part-progress text at len p (omega arith) in
    let next : ℕ = at + length (part text at len) in
    read_next-more (part text at len) (drop next text) (drop at text) _ some_read
      (read_to_end-rest text fuel len next (length text - next) p refl (omega arith))
      (part-rest text at len)

-- A caller that reads `len` bytes at a time, where `len` is not 0, reads a generated file from its
-- start to its end in at most one call more than it has bytes: it gets the bytes generated at open.
pub read_to_end-whole :
    (text : List ℕ) (len : ℕ)
    → 0 < len
    → read_to_end (suc (length text)) len (record { text = some text; at = 0 }) ≡ some text
read_to_end-whole text len p =
    read_to_end-rest text (suc (length text)) len 0 (length text) p (omega arith) (omega arith)
