-- ===== src/Fs/Paths.antt =====
-- Paths, in src/minixfs/fs/util.go: lastDir, advance and eatPath, of Unix paths. filepath.Clean is
-- a parameter. A call that waits for ever (PutInode of nil, a search for a mount that is not in the
-- table, a climb through mounts that does not end) is `panic`.
use minixfs_old.Base.{
  ℕ, zero, suc, ◌+◌, Bool, true, false, ◌&&◌, ◌||◌, Option, none, some, List, [], ◌∷◌, ◌==◌,
  if◌then◌else◌, get_elem?, set, Run, done, panic, ◌>>=◌, or_panic,
}
use minixfs_old.Common.{Errno, enoent, enotdir, i_directory}
use minixfs_old.Dinode.{lookup, Searched, search_dir}
use minixfs_old.Icache.{get_inode, put_inode}
use minixfs_old.Fs.{FileSystem, MountInfo, Process, inode_of, server_of, with_inode, get_type}

abbrev pub Name : Type 0
Name = List ℕ

abbrev pub root_inode : ℕ
root_inode = 1

abbrev pub nr_devices : ℕ
nr_devices = 8

abbrev pub separator : ℕ
separator = 47

-- `==` of strings
unfoldable pub is_name : Name → Name → Bool
is_name [] [] = true
is_name (x ∷ xs) (y ∷ ys) = x == y && is_name xs ys
is_name _ _ = false

abbrev pub dot_dot : Name
dot_dot = 46 ∷ 46 ∷ []

-- filepath.IsAbs
abbrev pub is_abs : Name → Bool
is_abs [] = false
is_abs (x ∷ xs) = x == separator

-- A character more in the first of the names
abbrev pub cons_first : ℕ → List Name → List Name
cons_first x [] = (x ∷ []) ∷ []
cons_first x (n ∷ ns) = (x ∷ n) ∷ ns

-- strings.Split at the separator
unfoldable pub split : Name → List Name
split [] = [] ∷ []
split (x ∷ xs) = let rest = split xs in if x == separator then [] ∷ rest else cons_first x rest

abbrev pub tail : List Name → List Name
tail [] = []
tail (n ∷ ns) = ns

-- pathlist of lastDir
abbrev pub pathlist : Name → List Name
pathlist path = if is_abs path then tail (split path) else split path

-- An inode or none, with an error
abbrev pub Got : Type 0
Got = Option ℕ × Option Errno × FileSystem

unfoldable pub get_at : FileSystem → ℕ → ℕ → Run Got
get_at fs devno inum =
    get_inode fs.icache devno inum >>= λ (slot, err, c). done (slot, err, record fs { icache = c })

unfoldable pub put_slot : FileSystem → ℕ → Run FileSystem
put_slot fs slot = put_inode fs.icache slot >>= λ c. done (record fs { icache = c })

abbrev pub put_any : FileSystem → Option ℕ → Run FileSystem
put_any fs none = panic
put_any fs (some slot) = put_slot fs slot

-- dupInode
unfoldable pub dup_inode : FileSystem → ℕ → Run FileSystem
dup_inode fs slot = inode_of fs slot >>= λ rip. done (record fs {
  icache = record (fs.icache) {
    inodes = set fs.icache.inodes slot (record rip { count = rip.count + 1 });
  };
})

-- LookupGet of the Dinode of a slot: of an inode that is no directory it is a nil interface.
abbrev pub get_found : FileSystem → ℕ → ℕ → Searched → Run Got
get_found fs slot devno (some e, inum, dirp, s) =
    done (none, some e, with_inode slot devno dirp s fs)
get_found fs slot devno (none, inum, dirp, s) = get_at (with_inode slot devno dirp s fs) devno inum

unfoldable pub lookup_get : FileSystem → ℕ → Name → Run Got
lookup_get fs slot name = inode_of fs slot >>= λ rip.
    let found = search_dir lookup name 0 rip (server_of fs rip) >>= get_found fs slot rip.devno in
    if get_type rip == i_directory then found else panic

-- The loop of advance at an inode that is mounted on, for a number of rounds.
unfoldable pub find_mount : ℕ → ℕ → List MountInfo → Option ℕ
find_mount slot i [] = none
find_mount slot i (m ∷ ms) =
    let rest = find_mount slot (i + 1) ms in
    elim (m.imount) [ none ↦ rest | some k ↦ if k == slot then some i else rest ]

abbrev pub mounted_root : FileSystem → ℕ → Option ℕ → Run Got
mounted_root fs slot none = panic
mounted_root fs slot (some devno) = put_slot fs slot >>= λ fs1. get_at fs1 devno root_inode

unfoldable pub descend : ℕ → FileSystem → Option ℕ → Run Got
descend zero fs slot = panic
descend (suc n) fs none = done (none, none, fs)
descend (suc n) fs (some slot) = inode_of fs slot >>= λ rip.
    let below =
      mounted_root fs slot (find_mount slot 0 fs.mountinfo) >>= λ (k, err, fs1). descend n fs1 k in
    if rip.mount then below else done (some slot, none, fs)

-- Lines 226 to 238 of advance: from the root of a mounted device, `up` is taken in the directory
-- that it is mounted on.
unfoldable pub climb : (FileSystem → Option ℕ → Run Got) → FileSystem → ℕ → ℕ → Option ℕ → Run Got
climb up fs slot devno none = done (some slot, none, fs)
climb up fs slot devno (some dev) = or_panic (get_elem? fs.mountinfo devno) >>= λ info.
    put_slot fs slot >>= λ fs1. or_panic info.imount >>= λ mnt. inode_of fs1 mnt >>= λ rip.
    get_at fs1 rip.devno rip.inum >>= λ (rip2, err2, fs2).
    up fs2 rip2 >>= λ (rip3, err3, fs3). put_any fs3 rip2 >>= λ fs4. done (rip3, none, fs4)

-- `path[1] == '.'`, which panics in a path of one byte
abbrev pub is_dotted : Name → Run Bool
is_dotted name = or_panic (get_elem? name 1) >>= λ x. done (x == 46)

-- Lines 222 to 242 of advance
unfoldable pub leave_root : (FileSystem → Option ℕ → Run Got) → FileSystem → ℕ → ℕ → Name → Run Got
leave_root up fs from slot name = inode_of fs slot >>= λ rip.
    let climbs = is_dotted name >>= λ dotted.
    (let out = or_panic (get_elem? fs.devices rip.devno) >>= climb up fs slot rip.devno in
      if dotted then out else done (some slot, none, fs)) in
    if (rip.inum == root_inode) && (from == root_inode) then climbs else done (some slot, none, fs)

abbrev pub after_lookup : ℕ → (FileSystem → Option ℕ → Run Got) → ℕ → Name → Got → Run Got
after_lookup n up from name (slot, some e, fs) = done (none, some enoent, fs)
after_lookup n up from name (none, none, fs) = panic
after_lookup n up from name (some slot, none, fs) =
    leave_root up fs from slot name >>= λ (slot1, err, fs1). descend n fs1 slot1

-- The fuel bounds the depth of mounts in mounts, of which there are as many as devices.
unfoldable pub advance : ℕ → FileSystem → Process → Option ℕ → Name → Run Got
advance zero fs proc dirp name = panic
advance (suc n) fs proc none [] = panic
advance (suc n) fs proc none (x ∷ xs) = done (none, none, fs)
advance (suc n) fs proc (some slot) [] = inode_of fs slot >>= λ rip. get_at fs rip.devno rip.inum
advance (suc n) fs proc (some slot) (x ∷ xs) =
    let name = x ∷ xs in
    let up = λ (fs1 : FileSystem) (k : Option ℕ). advance n fs1 proc k name in
    inode_of fs slot >>= λ dirp.
    let found = lookup_get fs slot name >>= after_lookup nr_devices up dirp.inum name in
    if slot == proc.rootdir && is_name name dot_dot then get_at fs dirp.devno dirp.inum else found

abbrev pub advance_in : FileSystem → Process → ℕ → Name → Run Got
advance_in fs proc slot name = advance nr_devices fs proc (some slot) name

-- From a directory to the inode of a name; the directory is put.
abbrev pub pass_on : FileSystem → Process → ℕ → Name → Run Got
pass_on fs proc slot name = advance_in fs proc slot name >>= λ (rip, err, fs1).
    put_slot fs1 slot >>= λ fs2. done (rip, err, fs2)

-- A directory and the last name, or none and an error
abbrev pub LastDir : Type 0
LastDir = Option (ℕ × Name) × Option Errno × FileSystem

-- The loop of lastDir, and the test after it
abbrev pub at_last : FileSystem → ℕ → Name → Run LastDir
at_last fs slot name = inode_of fs slot >>= λ rip.
    let other = put_slot fs slot >>= λ fs1. done (none, some enotdir, fs1) in
    if get_type rip == i_directory then done (some (slot, name), none, fs) else other

unfoldable pub walk : FileSystem → Process → ℕ → List Name → Run LastDir
walk fs proc slot [] = panic
walk fs proc slot (name ∷ []) = at_last fs slot name
walk fs proc slot (name ∷ next ∷ names) = pass_on fs proc slot name >>= λ (newip, err, fs2).
    elim newip [ none ↦ done (none, some enoent, fs2) | some k ↦ walk fs2 proc k (next ∷ names) ]

abbrev pub is_empty_name : Name → Bool
is_empty_name [] = true
is_empty_name (x ∷ xs) = false

-- The last step of eatPath
abbrev pub eat_last : Process → LastDir → Run Got
eat_last proc (none, err, fs) = done (none, err, fs)
eat_last proc (some (slot, []), err, fs) = done (some slot, none, fs)
eat_last proc (some (slot, x ∷ xs), err, fs) = pass_on fs proc slot (x ∷ xs)

module _ (clean : Name → Name) where
  unfoldable pub last_dir : FileSystem → Process → Name → Run LastDir
  last_dir fs proc given =
      let path = clean given in
      let slot = if is_abs path then proc.rootdir else proc.workdir in
      inode_of fs slot >>= λ rip.
      let found = dup_inode fs slot >>= λ fs1. walk fs1 proc slot (pathlist path) in
      if (rip.inode.nlinks == 0) || is_empty_name path then done (none, some enoent, fs) else found

  unfoldable pub eat_path : FileSystem → Process → Name → Run Got
  eat_path fs proc path = last_dir fs proc path >>= eat_last proc
