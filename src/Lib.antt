-- ===== src/Lib.antt =====
-- The kernel core of the repository (core/) as functions and relations, with the theorems that make
-- it correct. The core runs Linux programs on NT: it keeps the map of a process's memory, its
-- descriptor table and open file descriptions, resolves paths over a table of mounts onto a store of
-- host files, and answers the file system calls from these parts.
--
-- Parts and files:
-- - Common: numbers, lists with native indices, Boolean tests, and the errno values and results of
--   core/lxerrno.h.
-- - Vma: core/vma.c and core/vma.h, the memory map and /proc/self/maps. `vma_record`, `vma_reset`,
--   `vma_at` and `vma_count` are the code's functions; the array and its count are one list. The end of
--   a range is `(start + len) % 2 ^ 64`, as the machine computes it. Vma/Order is about the order and
--   disjointness of the ranges, Vma/Render about the text.
-- - File: core/file.c and core/file.h. A `struct file *` is an address in a store of descriptions;
--   `file_get`, `file_put`, `fd_install`, `fd_close`, `fd_dup2` and `fdtable_release` change the store
--   and the table as the code does. What a description's release does is a parameter. File/Lowest is
--   about the descriptor chosen, File/Balance about the reference counts.
-- - Pipe: the pipe of core/vfs_synth.c, the ring with its loops and the two ends. Pipe/Queue refines it
--   to a bounded queue of bytes, Pipe/Ends counts its readers and writers.
-- - Path: the path arithmetic of core/vfs.c on C strings, which are lists of codes without the
--   terminator. Path/Canon describes canonical paths as lists of components.
-- - Host: core/hostfs.h. The host store is the record `HostFs` of its calls over a state of any type;
--   `HandleLaws` says what the header documents of handles. core/hostfs_nt.c, which realises the calls
--   over NT, is not modelled. Host/Quiet has the rules for code that opens and closes handles, and
--   Host/Toy a store that the tests run on.
-- - Stat: what core/vfs.c makes of a host stat, and its permission check `may`.
-- - Mount: the mount table of core/vfs.h and `mount_of`. Mount/Setup is the table of a new process.
-- - Walk: `walk`, `stat_abs`, `readlink_abs` and `open_host_dir` of core/vfs.c. What /proc and /dev
--   answer is the record `SynthFs`. Walk/Handles is about the host handles, Walk/Canonical about the
--   paths, with Walk/Segments and Walk/Landing below it.
-- - Open: `vfs_open`; Tree: the operations that change names; Attr: the operations on attributes and
--   on the working directory. All are in core/vfs.c.
-- - Elf: core/binfmt_elf.c. The image is a list of bytes, the substrate's calls are the record
--   `Substrate`, and `vma_record` is that of Vma. Elf/Prot is about the pages' protection, Elf/Range
--   about their ranges.
-- - Exec: core/exec.c and core/vdso.c, which lay out the initial stack and the vDSO's page and start
--   the thread. Exec/Strings and Exec/Startup are about reading the stack back.
-- - Dirent: `dirent_pack` of core/vfs.c and the loop of the generated directories of
--   core/vfs_synth.c. Dirent/Read reads entries back, Dirent/Chunks is about one call and
--   Dirent/Listing about repeated calls.
-- - Snap: the generated files of core/vfs_synth.c, which are read from a buffer rendered at open.
-- - Proc and Dev: the /proc and /dev of core/vfs_synth.c. `ProcState` is what /proc shows of the
--   kernel: the descriptor table of File, the map of Vma and the working directory. Proc/Dir opens and
--   lists, Proc/Links is about readlink, Dev/Random reads and writes the devices. Synth puts both
--   behind the interfaces of Walk and Open.
-- - Sys: core/sys_fs.c. Sys itself copies paths in, Sys/Bytes reads and writes, Sys/Shape lays out stat
--   and statx, Sys/Fds has the calls on descriptors over File and Pipe, Sys/Paths the calls on paths
--   over Walk, Open, Tree and Attr, and Sys/Opening the whole of openat, down to the descriptor. User
--   memory is the record `UserMemory` of the substrate's two copy calls, with what
--   substrate/substrate.h says of them in `MemoryLaws`. Sys/PathIn and Sys/Reading are about what is
--   copied, Sys/Sound and Sys/SoundPipe about the reference counts,
--   Sys/Quiet and Sys/QuietCalls about the host handles.
-- The walk calls the mount table, the path arithmetic and the stat shaping; open, the tree operations
-- and the attribute operations call the walk, and close every host handle that they open. The calls of
-- Sys copy their arguments in, call these parts, and copy the result out.
--
-- Bounds and fuel: the walk recurses on the links that may still be followed, 40 at the start, and for
-- each number of links on the components that are left, so that it is total without fuel.
-- `vfs_open_depth` recurses on 41 less its depth. The loops of the ring recurse on the bytes asked for
-- and those of the tables on the tables. `copy_chunks` recurses on the 64 chunks of a path buffer.
-- `read_rounds` and `write_rounds` have `len / 65536 + 1` rounds, which Sys/Reading shows to be enough
-- for `read_rounds` on a generated file,
-- and the loops of getdents recurse on the entries that are left.
-- The initial stack has room for 8 MB, which core/exec.c does not check; the theorems on it take it
-- as a condition.
--
-- Numbers: times, offsets and the addresses of user memory are not cut to 64 bits. `strtol` is modelled
-- as the C library documents it, without its cut at the range of `long`, which its caller's test makes
-- no difference to.
--
-- Not modelled: the realisation of the host store and of the substrate (core/hostfs_nt.c,
-- substrate/), which are NT calls; process start (core/host.c, core/main.c); reading, writing and
-- listing of host files in core/vfs.c; sys_fsync and sys_ftruncate, which only call a file's
-- operation; the numbers of the calls (core/syscall.c); and the gate (core/gate.c, core/task.c).
pub mod Common
pub mod Vma
pub mod File
pub mod Pipe
pub mod Path
pub mod Host
pub mod Stat
pub mod Mount
pub mod Walk
pub mod Open
pub mod Tree
pub mod Attr
pub mod Elf
pub mod Exec
pub mod Dirent
pub mod Snap
pub mod Proc
pub mod Dev
pub mod Sys
pub mod Synth
