-- ===== src/Open/Toy.antt =====
-- The descriptions of the tests: /proc and /dev have none, and memory does not run out.
use elf_sysv_nt.Common.{ℕ, true, List}
use elf_sysv_nt.Common.Errno.{err, enoent}
use elf_sysv_nt.Open.{SynthOpen}

abbrev pub no_opens : SynthOpen (List ℕ)
no_opens = record { open_at_rel = λ type rel fl s. err enoent; has_memory = λ s. true }
