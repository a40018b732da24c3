-- ===== src/Sys/Tests.antt =====
-- core/sys_fs.c: runs at concrete inputs.
use elf_sysv_nt.Common.{
  ℕ, ◌+◌, ◌-◌, ◌≡◌, refl, ◌∙◌, true, false, ◌&&◌, Option, none, some, [], ◌∷◌, ◌++◌, pos, negsuc,
  codes, length, get_or, ltb, leb, ◌==◌, if◌then◌else◌, arith, length-replicate,
}
use elf_sysv_nt.Common.{ℤ, List}
use elf_sysv_nt.Host.{IsQuiet}
use elf_sysv_nt.Host.Toy.{toy, toy_is_open, toy_laws, toy_zero}
use elf_sysv_nt.Stat.{KStat}
use elf_sysv_nt.Mount.{mnt_host}
use elf_sysv_nt.Walk.Toy.{toy_ctx, no_synth}
use elf_sysv_nt.Open.Toy.{no_opens}
use elf_sysv_nt.Sys.Paths.{OpenDir, base_of, dispatch_path, fstat_fd}
use elf_sysv_nt.Sys.Opening.{sys_openat, Installed, sys_openat-Installed}
use elf_sysv_nt.Sys.QuietCalls.{dispatch_path-IsQuiet}
use elf_sysv_nt.Common.Errno.{Result, ok, err, einval}
use elf_sysv_nt.File.{File, Kind, Store, new_file, nr_open_default, fdtable_init}
use elf_sysv_nt.File.Balance.{fdtable_init-IsBalanced, one_more}
use elf_sysv_nt.File.Slots.{count-replicate}
use elf_sysv_nt.Pipe.{Pipes, pipe_release}
use elf_sysv_nt.Snap.{part}
use elf_sysv_nt.Sys.{UserMemory, MemoryLaws, peek_all, copy_path}
use elf_sysv_nt.Sys.PathIn.{scan, copy_path-scan}
use elf_sysv_nt.Sys.Bytes.{OpenFile, do_read}
use elf_sysv_nt.Sys.Reading.{Holds, do_read-text}
use elf_sysv_nt.Sys.Shape.{
  LxStat, Timespec, rdev_of, major_of, minor_of, to_timespec, time_arg, time_at, is_broken,
  mknod-rdev_of, time_arg-to_timespec,
}
use elf_sysv_nt.Sys.Fds.{
  Task, Calloc, install_opened, close_fd, dup2_fd, fcntl_fd, pipe2_fd, f_dupfd,
}
use elf_sysv_nt.Sys.Sound.{IsSound}
use elf_sysv_nt.Sys.SoundPipe.{CallocLaws, run_calls, run_calls-IsSound, install_opened-IsSound}

-- User memory as a function; every byte can be written.
abbrev Memory : Type 0
Memory = ℕ → Option ℕ

abbrev memory : UserMemory Memory
memory = record {
  copy_in = λ a n s. peek_all s a n;
  copy_out = λ a bytes s. (
    true,
    λ x. if leb a x && ltb x (a + length bytes) then some (get_or bytes (x - a) 0) else s x,
  );
}

memory_laws : MemoryLaws memory (λ s x. s x) (λ a. true)
memory_laws = record {
  copy_in_peek = λ a n s. refl;
  copy_out_done = λ a bytes s h. refl;
  copy_out_peek = λ a bytes s x h. refl;
}

-- "/bin" at 100, behind which nothing can be read.
abbrev with_path : Memory
with_path x =
    if leb 100 x && ltb x 105 then some (get_or (codes "/bin" ++ (0 ∷ [])) (x - 100) 0) else none

scanned : scan with_path 100 4096 ≡ ok (codes "/bin")
unfolding scan
scanned = refl

path_at_the_end : copy_path memory 100 with_path ≡ ok (codes "/bin")
path_at_the_end = copy_path-scan memory (λ s x. s x) (λ a. true) memory_laws 100 with_path ∙ scanned

copy_path-scan_example : copy_path memory 100 with_path ≡ scan with_path 100 4096
copy_path-scan_example = copy_path-scan memory (λ s x. s x) (λ a. true) memory_laws 100 with_path

abbrev snapshot : OpenFile Memory
snapshot = record {
  flags = 0;
  ops = record {
    read = none;
    write = none;
    pread = some (λ chunk at s. (ok (part (codes "vdso") at chunk), s));
    pwrite = none;
    lseek = none;
    getdents = none;
  };
}

do_read-text_example :
    (s' : Memory) × (do_read memory true snapshot 500 (pos 10) (some 1) with_path ≡ (ok 3, s'))
    × Holds with_path s' (codes "vdso") 1 500 3
do_read-text_example =
    do_read-text memory (λ s x. s x) (λ a. true) memory_laws (codes "vdso") 1 500 10 (λ i h. refl)
      snapshot with_path refl refl refl

mknod-rdev_of_example :
    (major_of (rdev_of 259 70000) ≡ 259) × (minor_of (rdev_of 259 70000) ≡ 70000)
mknod-rdev_of_example = mknod-rdev_of 259 70000 (omega arith) (omega arith)

before_1970 : to_timespec (negsuc 0) ≡ record { sec = pos 0; nsec = negsuc 0 }
unfolding to_timespec
before_1970 = refl

time_arg-to_timespec_example :
    time_arg (to_timespec (negsuc 0))
    ≡ (if is_broken (negsuc 0) then err einval else ok (time_at (negsuc 0)))
time_arg-to_timespec_example = time_arg-to_timespec (negsuc 0)

abbrev epoch : Timespec
epoch = record { sec = pos 0; nsec = pos 0 }

abbrev a_stat : LxStat
a_stat = record {
  dev = 3;
  ino = 1000;
  nlink = 1;
  mode = 0o100644;
  uid = 0;
  gid = 0;
  rdev = 0;
  size = 70000;
  blksize = 4096;
  blocks = 8;
  atim = epoch;
  mtim = epoch;
  ctim = epoch;
}

-- An allocator that has three addresses.
abbrev if_free : Store Pipes → ℕ → Option File → Option ℕ
if_free s a none = some a
if_free s a (some f) = none

abbrev three : Calloc
three = record {
  ring = λ s. some 9;
  reader = λ s. if_free s 5 (s.files 5);
  writer = λ s. if_free s 6 (s.files 6);
}

if_free-free :
    (s : Store Pipes) (a b : ℕ) (o : Option File)
    → s.files a ≡ o
    → if_free s a o ≡ some b
    → (a ≡ b) × (s.files b ≡ none)
if_free-free s a b none h e = let e' : a ≡ b = ground arith in (e', rw (← e') h)
if_free-free s a b (some f) h e = cc

three-laws : CallocLaws three
three-laws = record {
  reader_free = λ s a e. (if_free-free s 5 a (s.files 5) refl e).1;
  writer_free = λ s a e. (if_free-free s 6 a (s.files 6) refl e).1;
  apart = λ s a e e'.
      let (h, f) = if_free-free s 5 a (s.files 5) refl e in
      let (h', f') = if_free-free s 6 a (s.files 6) refl e' in omega (arith, h, h');
}

abbrev nothing : Store Pipes
nothing = record { files = λ a. none; world = record { rings = λ a. none; next_ino = 1 } }

abbrev at_start : Task
at_start = record { fds = fdtable_init; store = nothing }

at_start-IsSound : IsSound (λ a. 0) at_start
unfolding fdtable_init
at_start-IsSound = record {
  full = length-replicate {A = Option ℕ} nr_open_default none;
  balanced = fdtable_init-IsBalanced nothing (λ a. refl);
}

run_calls-IsSound_example :
    IsSound
      (λ a. 0)
      (run_calls pipe_release three
        (λ a b. true)
        (pipe2_fd 0
          ∷ dup2_fd (pos 0) (pos 7)
          ∷ close_fd (pos 1)
          ∷ fcntl_fd (pos 7) f_dupfd (pos 2)
          ∷ [])
        at_start)
run_calls-IsSound_example =
    run_calls-IsSound pipe_release three three-laws (λ a b. true) (λ a. 0)
      (pipe2_fd 0
        ∷ dup2_fd (pos 0) (pos 7)
        ∷ close_fd (pos 1)
        ∷ fcntl_fd (pos 7) f_dupfd (pos 2)
        ∷ [])
      at_start at_start-IsSound

-- One description, made by an open that has not installed it yet.
abbrev opened : Task
opened = record {
  fds = fdtable_init;
  store = record nothing { files = λ a. if a == 4 then some (new_file Kind.host 0) else none };
}

opened-IsSound : IsSound (one_more (λ a. 0) 4) opened
unfolding fdtable_init
opened-IsSound = record {
  full = length-replicate {A = Option ℕ} nr_open_default none;
  balanced = λ b. ground (arith, count-replicate b nr_open_default);
}

install_opened-IsSound_example : IsSound (λ a. 0) (install_opened pipe_release 4 0o2000000 opened).1
install_opened-IsSound_example =
    install_opened-IsSound pipe_release (λ a. 0) 4 0o2000000 opened opened-IsSound

fdtable_init-full : length fdtable_init.slots ≡ nr_open_default
unfolding fdtable_init
fdtable_init-full = length-replicate {A = Option ℕ} nr_open_default none

-- The host store of the tests with one page of user memory, which holds "/bin" at 100 and cannot be
-- changed.
abbrev fixed : UserMemory (List ℕ)
fixed = record { copy_in = λ a n s. peek_all with_path a n; copy_out = λ a bytes s. (true, s) }

abbrev no_files : ℤ → Option OpenDir
no_files fd = none

-- A file that is not on the host store has no stat.
abbrev no_stat : OpenDir → List ℕ → Result KStat
no_stat f s = err einval

-- Descriptor 3 is open on a file of the host store.
abbrev one_file : ℤ → Option OpenDir
one_file fd = some (record {
  kind = Kind.host;
  lists = false;
  handle = 1;
  mount = record {
    type = mnt_host;
    point = codes "/";
    root = 1000;
    dev = 3;
    lx_capable = true;
    default_uid = 0;
    default_gid = 0;
  };
  path = codes "/a/f";
})

dispatch_path-IsQuiet_example : IsQuiet toy_is_open (
    dispatch_path fixed toy no_synth no_opens [] no_stat toy_ctx one_file [] (fstat_fd (pos 3) 100))
dispatch_path-IsQuiet_example =
    dispatch_path-IsQuiet fixed toy no_synth no_opens [] no_stat toy_ctx one_file toy_is_open
      toy_laws (λ a bytes s k. refl) [] (fstat_fd (pos 3) 100)

-- No description is in memory, and no handle is open.
abbrev idle : Store (List ℕ)
idle = record { files = λ a. none; world = [] }

sys_openat-Installed_example : Installed toy_is_open 4 fdtable_init idle (
    sys_openat fixed toy no_synth no_opens [] no_stat toy_ctx no_files 4
      (negsuc 99)
      100
      0o100
      0o644
      fdtable_init
      idle)
sys_openat-Installed_example =
    sys_openat-Installed fixed toy no_synth no_opens [] no_stat toy_ctx no_files toy_is_open
      toy_laws toy_zero (λ a bytes s k. refl) 4 (negsuc 99) 100 0o100 0o644 fdtable_init idle
      fdtable_init-full

-- An empty path on the working directory has no file of its own, and is then looked up as a
-- descriptor.
working_directory : base_of no_files (negsuc 99) [] ≡ ok (record { dir = none; self = none })
unfolding base_of
working_directory = refl
