-- ===== src/Path/Tests.antt =====
-- The path arithmetic of core/vfs.c on short paths.
use elf_sysv_nt.Common.{◌≡◌, refl, codes, arith, str_eq}
use elf_sysv_nt.Common.Errno.{ok, err, enametoolong}
use elf_sysv_nt.Path.{path_parent, path_join, path_rel, last_slash}
use elf_sysv_nt.Path.Canon.{IsComponent}

parent_of_file : path_parent (codes "/a/b") ≡ codes "/a"
unfolding path_parent last_slash
parent_of_file = refl

parent_of_root : path_parent (codes "/") ≡ codes "/"
unfolding path_parent last_slash
parent_of_root = refl

rel_below_mount : path_rel (codes "/proc") (codes "/proc/self") ≡ codes "self"
unfolding path_rel
rel_below_mount = refl

join_too_long : path_join 4 (codes "/a") (codes "b") ≡ err enametoolong
unfolding path_join
join_too_long = refl

a-IsComponent : IsComponent (codes "a")
unfolding str_eq
a-IsComponent = record {
  not_empty = omega arith;
  fits = omega arith;
  no_slash = (omega arith, tt);
  not_dot = refl;
  not_dot_dot = refl;
}

b-IsComponent : IsComponent (codes "b")
unfolding str_eq
b-IsComponent = record {
  not_empty = omega arith;
  fits = omega arith;
  no_slash = (omega arith, tt);
  not_dot = refl;
  not_dot_dot = refl;
}

joined : path_join 4096 (codes "/a") (codes "b") ≡ ok (codes "/a/b")
unfolding path_join
joined = refl
