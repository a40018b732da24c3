-- ===== src/Sys/SoundPipe.antt =====
-- core/sys_fs.c: opening and pipes keep the reference counts, and so does any sequence of calls on
-- descriptors.
use elf_sysv_nt.Common.{
  ℕ, ◌+◌, ◌<◌, ◌≡◌, ◌≢◌, refl, sym, ap, ◌∙◌, Bool, true, false, not, Option, none, some, List, [],
  ◌∷◌, pos, ◌==◌, if◌then◌else◌, has_bit, clear_bit, arith, Bool-cases, inl, inr,
}
use elf_sysv_nt.Common.Errno.{Result, ok, err}
use elf_sysv_nt.File.{File, Store, update}
use elf_sysv_nt.File.Slots.{count}
use elf_sysv_nt.File.Balance.{IsBalanced, Counts, is_live, refs_of, one_more, file_put-IsBalanced}
use elf_sysv_nt.Pipe.{Pipes, vfs_pipe}
use elf_sysv_nt.Sys.Fds.{
  Task, Calloc, install, put, install_opened, FdCall, close_fd, dup_fd, dup2_fd, dup3_fd, fcntl_fd,
  pipe2_fd, dispatch_fd, finish_pipe, install_pipe, sys_pipe2, close_one, second, made_pipe,
  o_cloexec, o_nonblock,
}
use elf_sysv_nt.Sys.Sound.{
  IsSound, install-IsSound, close-IsSound, if-IsSound, sys_close-IsSound, sys_dup-IsSound,
  sys_dup2-IsSound, sys_dup3-IsSound, sys_fcntl-IsSound,
}

-- What the C library documents of calloc: an address it returns is not in use, and the two
-- descriptions get two addresses.
pub record CallocLaws (calloc : Calloc) : Type 0 where
  pub reader_free : (s : Store Pipes) (a : ℕ) → calloc.reader s ≡ some a → s.files a ≡ none
  pub writer_free : (s : Store Pipes) (a : ℕ) → calloc.writer s ≡ some a → s.files a ≡ none
  pub apart : (s : Store Pipes) (a : ℕ) → calloc.reader s ≡ some a → calloc.writer s ≢ some a

-- A new description of one reference, at an address that was free.
new_file-Counts :
    (files : ℕ → Option File) (a b n m : ℕ) (f : File)
    → Counts (files b) n
    → files a ≡ none
    → f.refs ≡ 1
    → m ≡ n + (if b == a then 1 else 0)
    → Counts (update files a (some f) b) m
new_file-Counts files a b n m f c free one e = elim (Bool-cases (a == b)) [
  | inl same ↦
      let e' : a ≡ b = ground arith in
      let c' : Counts (files a) n = rw e' c in
      let empty : 0 ≡ n = sym (ap refs_of free) ∙ c'.0 in rw same (ground arith)
  | inr other ↦ let e' : m ≡ n = ground arith in rw (other, e') c
]

-- Two new descriptions, whose references the caller holds.
new_pair-Counts :
    (held : ℕ → ℕ) (slots : List (Option ℕ)) (s : Store Pipes) (r w : ℕ) (f g : File) (b : ℕ)
    → IsBalanced held slots s
    → s.files r ≡ none
    → s.files w ≡ none
    → r ≢ w
    → f.refs ≡ 1
    → g.refs ≡ 1
    → Counts
        (update (update s.files r (some f)) w (some g) b)
        (count b slots + one_more (one_more held w) r b)
new_pair-Counts held slots s r w f g b bal hr hw ne ef eg =
    let apart : (r == w) ≡ false = ground arith in
    let free : update s.files r (some f) w ≡ none = rw apart hw in
    new_file-Counts (update s.files r (some f)) w b (count b slots + one_more held r b) _ g
      (new_file-Counts s.files r b (count b slots + held b) _ f (bal b) hr ef (omega arith)) free eg
      (omega arith)

-- A description that a reference is held to is live.
held_live :
    (held : ℕ → ℕ) (a : ℕ) (k : Task)
    → IsSound held k
    → 0 < held a
    → is_live (k.store.files a) ≡ true
held_live held a k w h = ground (arith, w.balanced a)

module _ (release : File → Pipes → Pipes) (held : ℕ → ℕ) where
  put-IsSound : (a : ℕ) (k : Task) → IsSound (one_more held a) k → IsSound held (put release a k)
  put-IsSound a k w = record {
    full = w.full;
    balanced = file_put-IsBalanced release held k.fds.slots a k.store w.balanced;
  }

  finish_pipe-IsSound :
      (copied : ℕ → ℕ → Bool) (r r' : Result ℕ) (k : Task)
      → IsSound held k
      → IsSound held (finish_pipe release copied r r' k).1
  unfolding finish_pipe
  finish_pipe-IsSound copied (err e) r k w = w
  finish_pipe-IsSound copied (ok fd) (err e) k w = close-IsSound release held k w (pos fd)
  finish_pipe-IsSound copied (ok fd) (ok fd') k w =
      let w' : IsSound held (close_one release fd k) = close-IsSound release held k w (pos fd) in
      if-IsSound held (copied fd fd') _ _ w
        (close-IsSound release held (close_one release fd k) w' (pos fd'))

  second-IsSound :
      (wr : ℕ) (cloexec : Bool) (p : Result ℕ × Task)
      → 0 < held wr
      → IsSound held p.1
      → IsSound held (second release wr cloexec p).1
  second-IsSound wr cloexec (err e, k) h w = w
  second-IsSound wr cloexec (ok fd, k) h w =
      install-IsSound release held k w wr cloexec (pos 0) (held_live held wr k w h)

module _ (release : File → Pipes → Pipes) (held : ℕ → ℕ) where
  -- sys_openat's end gives back the reference that vfs_open made, whatever fd_install says.
  pub install_opened-IsSound :
      (a flags : ℕ) (k : Task)
      → IsSound (one_more held a) k
      → IsSound held (install_opened release a flags k).1
  unfolding install_opened
  install_opened-IsSound a flags k w =
      let cloexec : Bool = has_bit flags o_cloexec in
      let live : is_live (k.store.files a) ≡ true =
        held_live (one_more held a) a k w (ground arith) in
      put-IsSound release held a (install release k a cloexec (pos 0)).1
        (install-IsSound release (one_more held a) k w a cloexec (pos 0) live)

  install_pipe-IsSound :
      (copied : ℕ → ℕ → Bool) (cloexec : Bool) (rd wr : ℕ) (k : Task)
      → IsSound (one_more (one_more held wr) rd) k
      → IsSound held (install_pipe release copied cloexec rd wr k).1
  unfolding install_pipe
  install_pipe-IsSound copied cloexec rd wr k w =
      let both : ℕ → ℕ = one_more (one_more held wr) rd in
      let live : is_live (k.store.files rd) ≡ true = held_live both rd k w (ground arith) in
      let first : Result ℕ × Task = install release k rd cloexec (pos 0) in
      let last : Result ℕ × Task = second release wr cloexec first in
      let after : IsSound both last.1 =
        second-IsSound release both wr cloexec first (ground arith)
          (install-IsSound release both k w rd cloexec (pos 0) live) in
      finish_pipe-IsSound release held copied first.0 last.0
        (put release wr (put release rd last.1))
        (put-IsSound release held wr (put release rd last.1)
          (put-IsSound release (one_more held wr) rd last.1 after))

  made_pipe-IsSound :
      (copied : ℕ → ℕ → Bool) (flags : ℕ) (k : Task) (ring rd wr : Option ℕ)
      → IsSound held k
      → ((a : ℕ) → rd ≡ some a → k.store.files a ≡ none)
      → ((a : ℕ) → wr ≡ some a → k.store.files a ≡ none)
      → ((a : ℕ) → rd ≡ some a → wr ≢ some a)
      → IsSound held (made_pipe release copied flags k.fds (vfs_pipe ring rd wr flags k.store)).1
  unfolding vfs_pipe
  made_pipe-IsSound copied flags k none rd wr w hr hw ne = w
  made_pipe-IsSound copied flags k (some p) none wr w hr hw ne = record {
    full = w.full;
    balanced = w.balanced;
  }
  made_pipe-IsSound copied flags k (some p) (some r) none w hr hw ne = record {
    full = w.full;
    balanced = w.balanced;
  }
  made_pipe-IsSound copied flags k (some p) (some r) (some v) w hr hw ne =
      install_pipe-IsSound copied (has_bit flags o_cloexec) r v _ (record {
        full = w.full;
        balanced = λ b.
            new_pair-Counts held k.fds.slots k.store r v _ _ b w.balanced (hr r refl) (hw v refl)
              (λ e. ne r refl (ap some (sym e))) refl refl;
      })

-- The task after each call of a sequence.
unfoldable pub run_calls :
    (File → Pipes → Pipes) → Calloc → (ℕ → ℕ → Bool) → List FdCall → Task → Task
run_calls release calloc copied [] k = k
run_calls release calloc copied (c ∷ cs) k =
    run_calls release calloc copied cs (dispatch_fd release calloc copied c k).1

module _ (release : File → Pipes → Pipes) (calloc : Calloc) (laws : CallocLaws calloc)
    (copied : ℕ → ℕ → Bool) (held : ℕ → ℕ) where
  sys_pipe2-IsSound :
      (flags : ℕ) (k : Task)
      → IsSound held k
      → IsSound held (sys_pipe2 release calloc copied flags k).1
  unfolding sys_pipe2
  sys_pipe2-IsSound flags k w =
      if-IsSound held (not (clear_bit (clear_bit flags o_nonblock) o_cloexec == 0)) _ _ w (
        made_pipe-IsSound release held copied flags k (calloc.ring k.store) (calloc.reader k.store)
          (calloc.writer k.store) w (laws.reader_free k.store) (laws.writer_free k.store)
          (laws.apart k.store))

  dispatch_fd-IsSound :
      (c : FdCall) (k : Task)
      → IsSound held k
      → IsSound held (dispatch_fd release calloc copied c k).1
  unfolding dispatch_fd
  dispatch_fd-IsSound (close_fd fd) k w = sys_close-IsSound release held k w fd
  dispatch_fd-IsSound (dup_fd fd) k w = sys_dup-IsSound release held k w fd
  dispatch_fd-IsSound (dup2_fd old new) k w = sys_dup2-IsSound release held k w old new
  dispatch_fd-IsSound (dup3_fd old new flags) k w = sys_dup3-IsSound release held k w old new flags
  dispatch_fd-IsSound (fcntl_fd fd cmd arg) k w = sys_fcntl-IsSound release held k w fd cmd arg
  dispatch_fd-IsSound (pipe2_fd flags) k w = sys_pipe2-IsSound flags k w

  -- Where calloc returns fresh addresses: any sequence of close, dup, dup2, dup3, fcntl, pipe and
  -- pipe2 calls, those that fail at any point included, keeps the table at 1024 slots and every
  -- reference count right: a description has as many references as descriptors and other holders
  -- refer to it, and is freed when that number is 0.
  pub run_calls-IsSound :
      (cs : List FdCall) (k : Task)
      → IsSound held k
      → IsSound held (run_calls release calloc copied cs k)
  unfolding run_calls
  run_calls-IsSound [] k w = w
  run_calls-IsSound (c ∷ cs) k w =
      run_calls-IsSound cs (dispatch_fd release calloc copied c k).1 (dispatch_fd-IsSound c k w)
