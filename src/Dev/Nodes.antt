-- ===== src/Dev/Nodes.antt =====
-- core/vfs_synth.c: the nodes of /dev through stat, readlink, open and getdents64.
use elf_sysv_nt.Common.{
  ℕ, ◌≡◌, refl, Bool, true, false, Option, none, some, [], ◌∷◌, CString, codes, str_eq, take,
  length, null, All, get_or, if◌then◌else◌, ℤ, Bool-cases, inl, inr,
}
use elf_sysv_nt.Common.Errno.{Errno, Result, ok, err, enoent, einval, eisdir, enxio, enotdir}
use elf_sysv_nt.Stat.{KStat, is_link}
use elf_sysv_nt.Open.{OFlags, is_rdonly}
use elf_sysv_nt.Dev.{
  DevNode, Found, devnodes, dev_find, devfs_stat, devfs_open, DevOpen, dev_directory, dev_file,
  dev_stat, found_stat, open_dev_node, node_stat, find_from, no_node, open_node, link_length,
  devdir_stat, DevContent, described,
}

-- A lookup by one of the names finds the node with its index.
dev_find-names :
    All
      (λ (x : ℕ).
        dev_find (get_or devnodes x no_node).name
        ≡ some (record { index = x; node = get_or devnodes x no_node }))
      (0 ∷ 1 ∷ 2 ∷ 3 ∷ 4 ∷ 5 ∷ 6 ∷ 7 ∷ 8 ∷ 9 ∷ 10 ∷ [])
unfolding dev_find find_from str_eq
dev_find-names =
    (refl, (refl, (refl, (refl, (refl, (refl, (refl, (refl, (refl, (refl, (refl, tt)))))))))))

abbrev is_some : Option CString → Bool
is_some none = false
is_some (some t) = true

-- Where the links of /dev lead.
pub data Leads : CString → CString → Type 0 where
  to_stdin : Leads (codes "stdin") (codes "/proc/self/fd/0")
  to_stdout : Leads (codes "stdout") (codes "/proc/self/fd/1")
  to_stderr : Leads (codes "stderr") (codes "/proc/self/fd/2")
  to_fd : Leads (codes "fd") (codes "/proc/self/fd")

abbrev LeadsFrom : CString → Option CString → Type 0
LeadsFrom name none = Unit
LeadsFrom name (some t) = Leads name t

-- A node is a link if it has a text, which is where its name leads, and no link otherwise.
abbrev IsNode : DevNode → Type 0
IsNode d = (is_link d.mode ≡ is_some d.link) × LeadsFrom d.name d.link

-- A node found by a name has that name.
abbrev Finds : CString → Option Found → Type 0
Finds rel none = Unit
Finds rel (some d) = IsNode d.node × (d.node.name ≡ rel)

-- What readlink answers on a name with a buffer of `room` bytes, by what stat answers.
abbrev pub LinkAgrees : CString → ℕ → Result KStat → Result (ℕ × CString) → Type 0
LinkAgrees rel room (err e) r = (e ≡ enoent) × (r ≡ err enoent)
LinkAgrees rel room (ok st) (ok t) =
    (is_link st.mode ≡ true)
    × (text : CString) × Leads rel text
    × (st.size ≡ length text)
    × (t ≡ (length text, take room text))
LinkAgrees rel room (ok st) (err e) = (is_link st.mode ≡ false) × (e ≡ einval)

-- An open gives the object that stat describes: the directory, or a node whose fstat is that stat
-- and whose number is the minor number shown there.
abbrev pub OpensAs : ℤ → Result KStat → DevContent → Type 0
OpensAs now st dev_directory = st ≡ ok (devdir_stat now)
OpensAs now st (dev_file d minor) = (st ≡ ok (dev_stat now d)) × (minor ≡ d.node.minor)

abbrev pub AllOpens : ℤ → Result KStat → Result DevOpen → Type 0
AllOpens now st (err e) = Unit
AllOpens now st (ok f) = OpensAs now st f.content

described-AllOpens :
    (now : ℤ) (st : Result KStat) (file : Bool) (f : DevOpen)
    → OpensAs now st f.content
    → AllOpens now st (described file f)
described-AllOpens now st true f h = h
described-AllOpens now st false f h = tt

if-AllOpens :
    (now : ℤ) (st : Result KStat) (b : Bool) (r : Result DevOpen) (e : Errno)
    → AllOpens now st r
    → AllOpens now st (if b then err e else r)
if-AllOpens now st true r e h = tt
if-AllOpens now st false r e h = h

-- An open node, by its link.
node-AllOpens :
    (now : ℤ) (fl : OFlags) (file : Bool) (rel : CString) (d : Found) (o : Option CString)
    → d.node.link ≡ o
    → AllOpens now (ok (node_stat now d (link_length o))) (open_node fl file rel d)
unfolding dev_stat
node-AllOpens now fl file rel d none h = rw h (
    if-AllOpens now (ok (node_stat now d 0)) fl.directory _ enotdir
      (described-AllOpens now (ok (node_stat now d 0)) file _ (refl, refl)))
node-AllOpens now fl file rel d (some t) h =
    rw h (if-AllOpens now (ok (node_stat now d (length t))) fl.path _ enxio tt)

found-AllOpens :
    (now : ℤ) (fl : OFlags) (file : Bool) (rel : CString) (o : Option Found)
    → AllOpens now (found_stat now o) (open_dev_node fl file rel o)
found-AllOpens now fl file rel none = tt
found-AllOpens now fl file rel (some d) = node-AllOpens now fl file rel d d.node.link refl

-- Whatever an open of a path below /dev gives is what stat says of the path: the directory, or a
-- device whose fstat is that stat and whose number is the node's minor number.
pub devfs_open-AllOpens :
    (now : ℤ) (fl : OFlags) (file : Bool) (rel : CString)
    → AllOpens now (devfs_stat now rel) (devfs_open rel fl file)
unfolding devfs_stat devfs_open
devfs_open-AllOpens now fl file rel = elim (Bool-cases (null rel)) [
  | inl root ↦ rw root (root-AllOpens (is_rdonly fl.acc))
  | inr below ↦ rw below (found-AllOpens now fl file rel (dev_find rel))
]
  where
    root-AllOpens :
        (b : Bool)
        → AllOpens now (ok (devdir_stat now)) (
            if b
            then described file (record { content = dev_directory; path = codes "/dev" })
            else err eisdir)
    root-AllOpens true = described-AllOpens now (ok (devdir_stat now)) file _ refl
    root-AllOpens false = tt
