-- ===== src/Sys/Opening.antt =====
-- core/sys_fs.c: openat, from the path to the descriptor. The descriptions' world is the host store.
use elf_sysv_nt.Common.{
  ℕ, zero, suc, ◌+◌, ◌-◌, ◌≡◌, refl, sym, false, Option, none, some, List, CString, ℤ, pos, length,
  get_or, get_or-set_self, ◌==◌, if◌then◌else◌, has_bit, clear_bit, arith, Option-cases, inl, inr,
}
use mathlib.Core.Path.{subst}
use elf_sysv_nt.Common.Errno.{Result, ok, err}
use elf_sysv_nt.Host.{HostFs, Handles, SameHandles, OneMore, HandleLaws}
use elf_sysv_nt.File.{
  File, FdTable, Store, update, new_file, nr_open_default, lowest_free, fd_install, file_get,
  file_put,
}
use elf_sysv_nt.File.Lowest.{lowest_free-some}
use elf_sysv_nt.Stat.{KStat}
use elf_sysv_nt.Mount.{FsCtx}
use elf_sysv_nt.Walk.{SynthFs}
use elf_sysv_nt.Open.{SynthOpen, Description}
use elf_sysv_nt.Open.Holds.{Holds, HoldsHandle}
use elf_sysv_nt.Sys.{UserMemory}
use elf_sysv_nt.Sys.Fds.{o_cloexec}
use elf_sysv_nt.Sys.Paths.{OpenDir, open_file}
use elf_sysv_nt.Sys.QuietCalls.{open_file-IsOpening}

-- The flags that a description on the host store keeps: all but O_CREAT, O_EXCL, O_NOCTTY, O_TRUNC
-- and O_CLOEXEC.
abbrev stored_flags : ℕ → ℕ
stored_flags flags =
    clear_bit (clear_bit (clear_bit (clear_bit (clear_bit flags 0o100) 0o200) 0o400) 0o1000)
      o_cloexec

-- The description in memory; a handle of 0 is none.
abbrev pub file_of : ℕ → Description → File
file_of flags d = elim (d.handle) [
  | none ↦ record (new_file d.kind flags) { path = d.path }
  | some h ↦ record (new_file d.kind (stored_flags flags)) { path = d.path; handle = h }
]

module _ {S : Type 0} (fs : HostFs S) where
  -- `hostfile_release`; the kinds that are not on the host store have no handle. A description that
  -- is released here was not read as a directory.
  unfoldable pub release_file : File → S → S
  release_file f w = if f.handle == 0 then w else fs.close f.handle w

  -- The descriptor for a description at `a`, whose own reference is then given up.
  unfoldable pub install_file : ℕ → ℕ → FdTable → Store S → Result ℕ × FdTable × Store S
  install_file a flags t s =
      let (r, t', s') = fd_install release_file t a (has_bit flags o_cloexec) (pos 0) s in
      (r, t', file_put release_file (some a) s')

  unfoldable pub finish_open :
      ℕ → ℕ → Result Description × S → FdTable → Store S → Result ℕ × FdTable × Store S
  finish_open a flags (err e, w) t s = (err e, t, record s { world = w })
  finish_open a flags (ok d, w) t s =
      install_file a flags t
        (record { files = update s.files a (some (file_of flags d)); world = w })

-- `a` is the address that vfs_open's description has.
module _ {S : Type 0} (mem : UserMemory S) (fs : HostFs S) (syn : SynthFs S) (opens : SynthOpen S)
    (stale : CString) (own_stat : OpenDir → S → Result KStat) (ctx : FsCtx)
    (fget : ℤ → Option OpenDir) where
  unfoldable pub sys_openat : ℕ → ℤ → ℕ → ℕ → ℕ → FdTable → Store S → Result ℕ × FdTable × Store S
  unfolding finish_open open_file
  sys_openat a dirfd upath flags mode t s =
      finish_open fs a flags
        (open_file mem fs syn opens stale own_stat ctx fget dirfd upath flags mode s.world) t s

-- The handle of a description is held, where 0 is none.
abbrev pub HoldsNumber : {S : Type 0} → Handles S → S → S → ℕ → Type 0
HoldsNumber is_open w w' zero = SameHandles is_open w w'
HoldsNumber is_open w w' (suc h) = OneMore is_open (suc h) w w'

-- What an openat leaves: a descriptor that refers to a description with one reference, whose handle
-- is the one more that is open, or an errno and neither a new descriptor nor a handle.
abbrev pub Installed :
    {S : Type 0} → Handles S → ℕ → FdTable → Store S → Result ℕ × FdTable × Store S → Type 0
Installed is_open a t s (err e, t', s') = (t' ≡ t) × SameHandles is_open s.world s'.world
Installed is_open a t s (ok fd, t', s') =
    (f : File) × (s'.files a ≡ some f)
    × (f.refs ≡ 1)
    × (get_or t'.slots fd none ≡ some a)
    × HoldsNumber is_open s.world s'.world f.handle

module _ {S : Type 0} (fs : HostFs S) (is_open : Handles S) (laws : HandleLaws fs is_open)
    (zero_closed : (w : S) → is_open w 0 ≡ false) where
  -- The last reference to a description gives its handle back.
  release_file-same :
      (f : File) (w w' : S) (h : ℕ)
      → f.handle ≡ h
      → HoldsNumber is_open w w' h
      → SameHandles is_open w (release_file fs f w')
  unfolding release_file
  release_file-same f w w' zero e held = λ k. ground (arith, held k)
  release_file-same f w w' (suc h) e held =
      λ k. ground (arith, held.0, held.1 k, laws.close_one (suc h) w' k)

  -- A held handle is a held number.
  number-of : (w w' : S) (h : ℕ) → OneMore is_open h w w' → HoldsNumber is_open w w' h
  number-of w w' zero held = absurd (ground (arith, held.1 0, zero_closed w'))
  number-of w w' (suc h) held = held

  file_of-refs : (flags : ℕ) (d : Description) → (file_of flags d).refs ≡ 1
  file_of-refs flags d = elim (Option-cases d.handle) [
    | inl bare ↦ rw bare refl
    | inr (h, held) ↦ rw held refl
  ]

  file_of-Holds :
      (w w' : S) (flags : ℕ) (d : Description) (o : Option ℕ)
      → d.handle ≡ o
      → HoldsHandle is_open w w' o
      → HoldsNumber is_open w w' (file_of flags d).handle
  file_of-Holds w w' flags d none e held = rw e held
  file_of-Holds w w' flags d (some h) e held = rw e (number-of w w' h held)

  put_last :
      (a : ℕ) (f : File) (s : Store S)
      → f.refs ≡ 1
      → s.files a ≡ some f
      → (file_put (release_file fs) (some a) s).world
        ≡ release_file fs (record f { refs = f.refs - 1 }) s.world
  unfolding file_put
  put_last a f s one at = rw (file_put, at) (ground arith)

  get_put :
      (a : ℕ) (f : File) (s : Store S)
      → f.refs ≡ 1
      → s.files a ≡ some f
      → (let s' = file_put (release_file fs) (some a) (file_get (release_file fs) a s) in
          (s'.files a ≡ some (record f { refs = f.refs + 1 - 1 })) × (s'.world ≡ s.world))
  unfolding file_put file_get
  get_put a f s one at = rw (file_get, at) (ground (arith, at))

  install_file-Installed :
      (a flags : ℕ) (f : File) (t : FdTable) (s s' : Store S)
      → length t.slots ≡ nr_open_default
      → f.refs ≡ 1
      → s'.files a ≡ some f
      → HoldsNumber is_open s.world s'.world f.handle
      → Installed is_open a t s (install_file fs a flags t s')
  unfolding install_file fd_install
  install_file-Installed a flags f t s s' full one at held =
      elim (Option-cases (lowest_free t.slots nr_open_default 0)) [
        | inl no_slot ↦
            rw (install_file, fd_install, no_slot)
              (
                refl,
                subst (SameHandles is_open s.world) (sym (put_last a f s' one at)) (
                    release_file-same (record f { refs = f.refs - 1 }) s.world s'.world f.handle
                      refl held),
              )
        | inr (i, found) ↦
            let (lo, hi, open_slot, below) = lowest_free-some t.slots nr_open_default 0 i found in
            let (kept, same) = get_put a f s' one at in
            rw (install_file, fd_install, found)
              (
                record f { refs = f.refs + 1 - 1 },
                kept,
                omega (arith, one),
                get_or-set_self t.slots i (some a) none (omega (arith, full, hi)),
                subst (λ w. HoldsNumber is_open s.world w f.handle) (sym same) held,
              )
      ]

  finish_open-Installed :
      (a flags : ℕ) (r : Result Description × S) (t : FdTable) (s : Store S)
      → length t.slots ≡ nr_open_default
      → Holds is_open s.world r
      → Installed is_open a t s (finish_open fs a flags r t s)
  unfolding finish_open
  finish_open-Installed a flags (err e, w) t s full held = (refl, held)
  finish_open-Installed a flags (ok d, w) t s full held =
      let files = update s.files a (some (file_of flags d)) in
      let s' : Store S = record { files = files; world = w } in
      install_file-Installed a flags (file_of flags d) t s s' full (file_of-refs flags d)
        (ground arith) (file_of-Holds s.world w flags d d.handle refl held)

module _ {S : Type 0} (mem : UserMemory S) (fs : HostFs S) (syn : SynthFs S) (opens : SynthOpen S)
    (stale : CString) (own_stat : OpenDir → S → Result KStat) (ctx : FsCtx)
    (fget : ℤ → Option OpenDir) (is_open : Handles S) (laws : HandleLaws fs is_open)
    (zero_closed : (w : S) → is_open w 0 ≡ false)
    (out_quiet : (a : ℕ) (bytes : List ℕ) (s : S)
      → SameHandles is_open s (mem.copy_out a bytes s).1) where
  -- Over a host store that keeps the handle laws and has no open handle 0, with a table of 1024 slots,
  -- where a copy to user memory opens and closes no handle: an openat that succeeds returns a
  -- descriptor whose slot refers to a description with one reference, and leaves open exactly that
  -- description's handle beside those that were open. One that fails, for want of a free descriptor
  -- too, leaves the table and the open handles as they were.
  pub sys_openat-Installed :
      (a : ℕ) (dirfd : ℤ) (upath flags mode : ℕ) (t : FdTable) (s : Store S)
      → length t.slots ≡ nr_open_default
      → Installed is_open a t s
          (sys_openat mem fs syn opens stale own_stat ctx fget a dirfd upath flags mode t s)
  unfolding sys_openat
  sys_openat-Installed a dirfd upath flags mode t s full =
      let q =
        open_file-IsOpening mem fs syn opens stale own_stat ctx fget is_open laws out_quiet dirfd
          upath flags mode in
      finish_open-Installed fs is_open laws zero_closed a flags _ t s full (q.holds s.world)
