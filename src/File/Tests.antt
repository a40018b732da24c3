-- ===== src/File/Tests.antt =====
-- core/file.c on a table with one description behind descriptors 0 and 1. Releases are recorded.
use elf_sysv_nt.Common.{ℕ, ◌≤◌, ◌<◌, ◌≡◌, ◌↔◌, refl, true, false, Option, none, some}
use elf_sysv_nt.Common.{List, [], ◌∷◌, arith, pos, negsuc, get_or, length, length-replicate}
use elf_sysv_nt.Common.{replicate, ◌==◌, if◌then◌else◌}
use elf_sysv_nt.Common.Errno.{ok, err, ebadf, emfile}
use elf_sysv_nt.File.{File, pipe, Store, FdTable, nr_open_default, update, new_file}
use elf_sysv_nt.File.{lowest_free, fd_install, fd_close, fd_dup2, fdtable_release, file_put}
use elf_sysv_nt.File.Slots.{count, count-replicate}
use elf_sysv_nt.File.Lowest.{Taken, fd_install-lowest, fd_install-emfile_iff}
use elf_sysv_nt.File.Balance.{Counts, IsBalanced}
use elf_sysv_nt.File.Balance.{fd_dup2-IsBalanced}
use elf_sysv_nt.File.Balance.{fdtable_release-IsBalanced}

abbrev log : File → List File → List File
log f w = f ∷ w

abbrev shared : File
shared = record (new_file pipe 0) { refs = 2 }

abbrev store : Store (List File)
store = record { files = update (λ a. none) 5 (some shared); world = [] }

abbrev table : FdTable
table = record { slots = some 5 ∷ some 5 ∷ replicate 1022 none; cloexec = replicate 1024 false }

store-IsBalanced : IsBalanced (λ a. 0) table.slots store
store-IsBalanced a = ground (arith, count-replicate a 1022)

table-full : length table.slots ≡ nr_open_default
table-full = omega (arith, length-replicate {A = Option ℕ} 1022 none)

-- Closing one of the two descriptors releases nothing; closing both releases the description.
close_one : (fd_close log table (pos 0) store).2.world ≡ []
unfolding fd_close file_put
close_one = refl

close_both : ℕ
unfolding fd_close file_put
close_both =
    let (r, t, s) = fd_close log table (pos 0) store in
    let (r', t', s') = fd_close log t (pos 1) s in length s'.world

close_both_releases : close_both ≡ 1
unfolding close_both
close_both_releases = refl

third : (fd_install log table 5 true (pos 0) store).0 ≡ ok 2
unfolding fd_install lowest_free
third = refl

closed_negative : (fd_close log table (negsuc 0) store).0 ≡ err ebadf
unfolding fd_close
closed_negative = refl

fd_install-lowest_example :
    (0 ≤ 2)
    × (2 < nr_open_default)
    × (get_or table.slots 2 none ≡ none)
    × Taken table.slots 0 2
    × (get_or (fd_install log table 5 true (pos 0) store).1.slots 2 none ≡ some 5)
    × (get_or (fd_install log table 5 true (pos 0) store).1.cloexec 2 false ≡ true)
    × ((k : ℕ)
        → get_or (fd_install log table 5 true (pos 0) store).1.slots k none
          ≡ (if k == 2 then some 5 else get_or table.slots k none))
fd_install-lowest_example =
    fd_install-lowest log table 5 true 0 2 store table-full (length-replicate 1024 false) third

fd_install-emfile_iff_example :
    (((fd_install log table 5 true (pos 1) store).0 ≡ err emfile)
      ↔ Taken table.slots 1 nr_open_default)
    × ((fd_install log table 5 true (pos 1) store ≡ (err emfile, table, store))
        ↔ Taken table.slots 1 nr_open_default)
fd_install-emfile_iff_example = fd_install-emfile_iff log table 5 true 1 store

fd_dup2-IsBalanced_example :
    let (r, t', s') = fd_dup2 log table (pos 0) (pos 1) true store in
    IsBalanced (λ a. 0) t'.slots s' × (length t'.slots ≡ nr_open_default)
fd_dup2-IsBalanced_example =
    fd_dup2-IsBalanced log (λ a. 0) table (pos 0) (pos 1) true store table-full store-IsBalanced

fdtable_release-IsBalanced_example :
    let (t', s') = fdtable_release log table store in (count 5 t'.slots ≡ 0) × Counts (s'.files 5) 0
fdtable_release-IsBalanced_example =
    fdtable_release-IsBalanced log (λ a. 0) table store store-IsBalanced 5
