-- ===== src/Path/Canon.antt =====
-- The canonical paths of core/vfs.c as lists of components, and the path arithmetic on them.
use elf_sysv_nt.Common.{ℕ, ◌+◌, ◌≤◌, ◌<◌, ◌≡◌, ◌≢◌, refl, ap, ◌∙◌, false}
use elf_sysv_nt.Common.{none, some, List, [], ◌∷◌, ◌++◌, arith, inl, inr, ◌⊎◌, Bool-cases, codes}
use elf_sysv_nt.Common.{CString, length, length-append, take, ltb, ◌==◌, if◌then◌else◌, All, str_eq}
use elf_sysv_nt.Common.Errno.{ok, err, enametoolong}
use mathlib.Core.Path.{subst}
use mathlib.Core.List.{append-nil, append_assoc}
use elf_sysv_nt.Path.{name_max, slash, last_slash, path_parent, path_join}

-- A component: a non-empty name without a slash, of at most 255 bytes, and neither `.` nor `..`.
pub record IsComponent (c : CString) : Type 0 where
  pub not_empty : 0 < length c
  pub fits : length c ≤ name_max
  pub no_slash : All (λ x. x ≢ slash) c
  pub not_dot : str_eq c (codes ".") ≡ false
  pub not_dot_dot : str_eq c (codes "..") ≡ false

-- A slash before each component.
abbrev pub join : List CString → CString
join [] = []
join (c ∷ cs) = slash ∷ (c ++ join cs)

-- The path of a list of components; the root is "/".
abbrev pub render : List CString → CString
render [] = slash ∷ []
render (c ∷ cs) = join (c ∷ cs)

abbrev pub IsCanonical : CString → Type 0
IsCanonical abs = (cs : List CString) × (abs ≡ render cs) × All IsComponent cs

last_slash-none : (c : CString) → All (λ x. x ≢ slash) c → last_slash c ≡ none
unfolding last_slash
last_slash-none [] h = refl
last_slash-none (x ∷ c) h = ground (arith, last_slash-none c h.1)

last_slash-append :
    (s c : CString) → All (λ x. x ≢ slash) c → last_slash (s ++ (slash ∷ c)) ≡ some (length s)
unfolding last_slash
last_slash-append [] c h = ground (arith, last_slash-none c h)
last_slash-append (x ∷ s) c h = ground (arith, last_slash-append s c h)

take-length-append : (s t : CString) → take (length s) (s ++ t) ≡ s
take-length-append [] t = refl
take-length-append (x ∷ s) t = ap (λ r. x ∷ r) (take-length-append s t)

pub join-snoc : (cs : List CString) (c : CString) → join (cs ++ (c ∷ [])) ≡ join cs ++ (slash ∷ c)
join-snoc [] c = simp append-nil
join-snoc (d ∷ cs) c = simp (join-snoc cs c, append_assoc)

pub render-snoc :
    (cs : List CString) (c : CString) → render (cs ++ (c ∷ [])) ≡ join cs ++ (slash ∷ c)
render-snoc [] c = simp append-nil
render-snoc (d ∷ cs) c = join-snoc (d ∷ cs) c

path_parent_at :
    (s c : CString) → All (λ x. x ≢ slash) c → 0 < length s → path_parent (s ++ (slash ∷ c)) ≡ s
unfolding path_parent
path_parent_at s c h lt = ground (arith, last_slash-append s c h, take-length-append s (slash ∷ c))

path_parent_top : (c : CString) → All (λ x. x ≢ slash) c → path_parent (slash ∷ c) ≡ slash ∷ []
unfolding path_parent
path_parent_top c h = ground (arith, last_slash-append [] c h)

-- On canonical paths `path_parent` drops the last component.
pub path_parent-render :
    (cs : List CString) (c : CString)
    → All (λ x. x ≢ slash) c
    → path_parent (render (cs ++ (c ∷ []))) ≡ render cs
path_parent-render [] c h = ap path_parent (render-snoc [] c) ∙ path_parent_top c h
path_parent-render (d ∷ cs) c h =
    ap path_parent (join-snoc (d ∷ cs) c) ∙ path_parent_at (join (d ∷ cs)) c h (omega arith)

path_parent-root : path_parent (slash ∷ []) ≡ slash ∷ []
unfolding path_parent last_slash
path_parent-root = refl

-- On the path of a list of proper components `path_join` adds a component at the end, if the
-- result and its terminator fit the buffer, and fails with ENAMETOOLONG otherwise.
pub path_join-render :
    (cap : ℕ) (cs : List CString) (c : CString)
    → All IsComponent cs
    → path_join cap (render cs) c ≡ (
        if ltb cap (length (render cs) + 1 + length c + 1)
        then err enametoolong
        else ok (render (cs ++ (c ∷ []))))
unfolding path_join
path_join-render cap [] c h = rw append-nil
path_join-render cap (d ∷ cs) c h =
    let long : (length (render (d ∷ cs)) == 1) ≡ false =
      ground (arith, length-append d (join cs), h.0.not_empty) in
    rw (long, join-snoc (d ∷ cs) c)

length-render-snoc :
    (cs : List CString) (c : CString)
    → length (render (cs ++ (c ∷ []))) ≤ length (render cs) + 1 + length c
length-render-snoc [] c = omega (arith, length-append c [])
length-render-snoc (d ∷ cs) c =
    omega
      (arith, ap (λ l. length l) (join-snoc (d ∷ cs) c), length-append (join (d ∷ cs)) (slash ∷ c))

All-snoc :
    (cs : List CString) (c : CString)
    → All IsComponent cs
    → IsComponent c
    → All IsComponent (cs ++ (c ∷ []))
All-snoc [] c h k = (k, tt)
All-snoc (d ∷ cs) c h k = (h.0, All-snoc cs c h.1 k)

-- What `path_join` makes of a canonical path and a component is canonical and fits the buffer.
pub path_join-IsCanonical :
    (cap : ℕ) (dir c : CString) {out : CString}
    → IsCanonical dir
    → IsComponent c
    → path_join cap dir c ≡ ok out
    → IsCanonical out × (length out < cap)
path_join-IsCanonical cap dir c (cs, e, good) comp joined =
    elim (Bool-cases (ltb cap (length (render cs) + 1 + length c + 1))) [
      | inl long ↦ absurd (ground (arith, path_join-render cap cs c good))
      | inr fits ↦ (
        (cs ++ (c ∷ []), ground (arith, path_join-render cap cs c good), All-snoc cs c good comp),
        ground (arith, path_join-render cap cs c good, length-render-snoc cs c),
      )
    ]

-- Every list of components is empty or ends in one.
pub snoc-cases :
    (cs : List CString)
    → (cs ≡ []) ⊎ ((front : List CString) × (c : CString) × (cs ≡ front ++ (c ∷ [])))
snoc-cases [] = inl refl
snoc-cases (d ∷ cs) = elim (snoc-cases cs) [
  | inl e ↦ inr ([], d, ap (λ r. d ∷ r) e)
  | inr (front, c, e) ↦ inr (d ∷ front, c, ap (λ r. d ∷ r) e)
]

All-front :
    (front : List CString) (c : CString)
    → All IsComponent (front ++ (c ∷ []))
    → All IsComponent front × IsComponent c
All-front [] c h = (tt, h.0)
All-front (d ∷ front) c h = let (fs, k) = All-front front c h.1 in ((h.0, fs), k)

-- The parent of a canonical path is canonical, and not longer.
pub path_parent-IsCanonical : (abs : CString) → IsCanonical abs → IsCanonical (path_parent abs)
path_parent-IsCanonical abs (cs, e, good) = elim (snoc-cases cs) [
  | inl root ↦ rw (e, root) ([], path_parent-root, tt)
  | inr (front, c, parts) ↦
      let (fs, k) = All-front front c (subst (λ l. All IsComponent l) parts good) in
      rw (e, parts) (front, path_parent-render front c k.no_slash, fs)
]
