-- ===== src/Dirent/Tests.antt =====
-- core/vfs.c: directory entries at concrete inputs.
use elf_sysv_nt.Common.{◌≡◌, refl, [], ◌∷◌, codes}
use elf_sysv_nt.Common.Errno.{ok, err, einval}
use elf_sysv_nt.Dirent.{Dirent, dirent_bytes, dirent_pack}

abbrev dot : Dirent
dot = record { ino = 258; off = 1; type = 4; name = codes "." }

dot_packed :
    dirent_pack 24 [] dot
    ≡ ok (
        2 ∷ 1 ∷ 0 ∷ 0 ∷ 0 ∷ 0 ∷ 0 ∷ 0 ∷ 1 ∷ 0 ∷ 0 ∷ 0 ∷ 0 ∷ 0 ∷ 0 ∷ 0 ∷ 24 ∷ 0 ∷ 4 ∷ b'.' ∷ 0 ∷ 0
        ∷ 0 ∷ 0 ∷ [])
unfolding dirent_pack dirent_bytes
dot_packed = refl

no_room : dirent_pack 23 [] dot ≡ err einval
unfolding dirent_pack
no_room = refl
