-- ===== src/Fs/Calls.antt =====
-- The system calls that take a path: Open, Unlink, Mkdir, Rmdir and Chdir of
-- src/minixfs/fs/syscalls.go, with newNode, unlinkPrep and unlinkFile of util.go. A nil inode that
-- is used is `panic`, and so is the PutInode of nil, which waits for ever.
use Prim.Native.Nat.{bit_and, bit_or}
use minixfs_old.Base.{
  ℕ, zero, suc, ◌+◌, ◌%◌, ◌^◌, true, false, ◌||◌, Option, none, some, [], ◌∷◌, ltb, leb, ◌==◌,
  if◌then◌else◌, set, Run, done, panic, ◌>>=◌,
}
use minixfs_old.Common.{
  CacheInode, Errno, ebusy, eexist, einval, emlink, enfile, enoent, enotdir, enotempty, i_directory,
  i_regular,
}
use minixfs_old.Bitmap.{alloc_inode}
use minixfs_old.Dinode.{DirOp, enter, delete, is_empty, Searched, search_dir}
use minixfs_old.Icache.{Icache, new_inode}
use minixfs_old.Icache.Server.{flush_inode}
use minixfs_old.Fs.{
  FileSystem, Process, HasOpened, inode_of, server_of, with_inode, get_type, open_inode,
}
use minixfs_old.Fs.Paths.{
  Name, Got, root_inode, is_name, dot_dot, put_slot, put_any, dup_inode, lookup_get, advance_in,
  last_dir, eat_path,
}

-- A method of the Dinode of a slot, which returns an error
abbrev pub searched : FileSystem → ℕ → ℕ → Searched → Run (Option Errno × FileSystem)
searched fs slot devno (err, inum, dirp, s) = done (err, with_inode slot devno dirp s fs)

unfoldable pub in_directory : DirOp → FileSystem → ℕ → Name → ℕ → Run (Option Errno × FileSystem)
in_directory op fs slot name inum = inode_of fs slot >>= λ rip.
    let found = search_dir op name inum rip (server_of fs rip) >>= searched fs slot rip.devno in
    if get_type rip == i_directory then found else panic

-- `rip.Inode.Nlinks++`, and `--`, with `rip.Dirty = true`, of 16 bits
abbrev pub with_links : ℕ → CacheInode → CacheInode
with_links n rip = record rip { inode = record (rip.inode) { nlinks = n % 2 ^ 16 }; dirty = true }

abbrev pub more_links : CacheInode → CacheInode
more_links rip = with_links (rip.inode.nlinks + 1) rip

abbrev pub less_links : CacheInode → CacheInode
less_links rip = with_links (rip.inode.nlinks + 65535) rip

unfoldable pub change : (CacheInode → CacheInode) → FileSystem → ℕ → Run FileSystem
change f fs slot = inode_of fs slot >>= λ rip.
    done (record fs { icache = record (fs.icache) { inodes = set fs.icache.inodes slot (f rip) } })

-- The parent, the inode and the name that newNode and unlinkPrep return, with an error
abbrev pub Node : Type 0
Node = Option ℕ × Option ℕ × Name × Option Errno × FileSystem

abbrev pub fail : Option Errno → FileSystem → Run Node
fail err fs = done (none, none, [], err, fs)

abbrev pub put_and_fail : Errno → FileSystem → ℕ → Run Node
put_and_fail e fs slot = put_slot fs slot >>= λ fs1. fail (some e) fs1

-- NO_BIT, the inode number with the error of AllocInode
abbrev pub inum_of : Option ℕ → ℕ
inum_of none = 0
inum_of (some inum) = inum

-- `dirp.Bitmap.AllocInode()`; its error is overwritten.
unfoldable pub alloc : FileSystem → ℕ → Run (ℕ × FileSystem)
alloc fs dirp = inode_of fs dirp >>= λ rip. alloc_inode (server_of fs rip) >>= λ (inum, err, s).
    done (inum_of inum, with_inode dirp rip.devno rip s fs)

-- Lines 109 to 118 of newNode
abbrev pub after_link : ℕ → ℕ → Name → Option Errno × FileSystem → Run Node
after_link dirp rip name (some e, fs) = put_slot fs dirp >>= λ fs1.
    change less_links fs1 rip >>= λ fs2. put_slot fs2 rip >>= λ fs3. fail (some e) fs3
after_link dirp rip name (none, fs) = done (some dirp, some rip, name, none, fs)

abbrev pub with_new : ℕ → ℕ → Name → Option ℕ × Option Errno × Icache → FileSystem → Run Node
with_new dirp inum name (none, err, c) fs = put_and_fail enfile (record fs { icache = c }) dirp
with_new dirp inum name (some rip, err, c) fs = flush_inode c rip >>= λ c1.
    in_directory enter (record fs { icache = c1 }) dirp name inum >>= after_link dirp rip name

-- Lines 89 to 119 of newNode
unfoldable pub make_node : FileSystem → ℕ → Name → ℕ → ℕ → Run Node
make_node fs dirp name bits z0 = alloc fs dirp >>= λ (inum, fs1). inode_of fs1 dirp >>= λ parent.
    new_inode fs1.icache parent.devno inum bits 1 0 0 z0 >>= λ made.
    with_new dirp inum name made fs1

-- What follows advance in newNode
abbrev pub node_at : ℕ → Name → ℕ → ℕ → Got → Run Node
node_at dirp name bits z0 (none, some enoent, fs) = make_node fs dirp name bits z0
node_at dirp name bits z0 (none, err, fs) = done (some dirp, none, name, err, fs)
node_at dirp name bits z0 (some rip, err, fs) = done (some dirp, some rip, name, some eexist, fs)

-- What follows advance in unlinkPrep: an inode that is not there leaves its parent held.
abbrev pub to_unlink : ℕ → Name → Got → Run Node
to_unlink dirp name (none, err, fs) = fail err fs
to_unlink dirp name (some rip, some e, fs) = put_slot fs dirp >>= λ fs1. fail none fs1
to_unlink dirp name (some rip, none, fs) = inode_of fs rip >>= λ ip.
    let busy = put_slot fs dirp >>= λ fs1. put_and_fail ebusy fs1 rip in
    if ip.inum == root_inode then busy else done (some dirp, some rip, name, none, fs)

module _ (clean : Name → Name) where
  unfoldable pub new_node : FileSystem → Process → Name → ℕ → ℕ → Run Node
  new_node fs proc path bits z0 = last_dir clean fs proc path >>= λ (dir, err, fs1). elim dir [
    | none ↦ fail err fs1
    | some (dirp, rlast) ↦ inode_of fs1 dirp >>= λ parent.
        let made = advance_in fs1 proc dirp rlast >>= node_at dirp rlast bits z0 in
        if leb 65535 parent.inode.nlinks then put_and_fail emlink fs1 dirp else made
  ]

  unfoldable pub unlink_prep : FileSystem → Process → Name → Run Node
  unlink_prep fs proc path = last_dir clean fs proc path >>= λ (dir, err, fs1). elim dir [
    | none ↦ fail err fs1
    | some (dirp, rest) ↦ advance_in fs1 proc dirp rest >>= to_unlink dirp rest
  ]

-- The inode of unlinkFile: the given one, with a holder more, or that of the name
abbrev pub target : FileSystem → ℕ → Option ℕ → Name → Run Got
target fs dirp none name = lookup_get fs dirp name
target fs dirp (some rip) name = dup_inode fs rip >>= λ fs1. done (some rip, none, fs1)

abbrev pub unlinked : ℕ → Option Errno × FileSystem → Run (Option Errno × FileSystem)
unlinked rip (some e, fs) = put_slot fs rip >>= λ fs1. done (some e, fs1)
unlinked rip (none, fs) =
    change less_links fs rip >>= λ fs1. put_slot fs1 rip >>= λ fs2. done (none, fs2)

abbrev pub unlink_from : ℕ → Name → Got → Run (Option Errno × FileSystem)
unlink_from dirp name (slot, some e, fs) = done (some enoent, fs)
unlink_from dirp name (none, none, fs) = panic
unlink_from dirp name (some rip, none, fs) = in_directory delete fs dirp name 0 >>= unlinked rip

unfoldable pub unlink_file : FileSystem → ℕ → Option ℕ → Name → Run (Option Errno × FileSystem)
unlink_file fs dirp rip name = target fs dirp rip name >>= unlink_from dirp name

-- Unlink, once it has the inodes
unfoldable pub unlink_node : Node → Run (Option Errno × FileSystem)
unlink_node (some dirp, some rip, name, none, fs) = inode_of fs rip >>= λ ip.
    (if ip.inum == root_inode then done (some ebusy, fs) else unlink_file fs dirp (some rip) name)
    >>= λ (err, fs1). put_slot fs1 rip >>= λ fs2. put_slot fs2 dirp >>= λ fs3. done (err, fs3)
unlink_node (dirp, rip, name, err, fs) = done (err, fs)

abbrev pub dot : Name
dot = 46 ∷ []

-- Rmdir after its tests: the entry in the parent, and those of the directory
abbrev pub then_unlink :
    (FileSystem → Run (Option Errno × FileSystem))
    → Option Errno × FileSystem
    → Run (Option Errno × FileSystem)
then_unlink rest (some e, fs) = done (some e, fs)
then_unlink rest (none, fs) = rest fs

unfoldable pub remove_directory : FileSystem → ℕ → ℕ → Name → Run (Option Errno × FileSystem)
remove_directory fs dirp rip name =
    unlink_file fs dirp (some rip) name
    >>= then_unlink (λ fs1.
      unlink_file fs1 rip none dot
      >>= then_unlink (λ fs2.
        unlink_file fs2 rip none dot_dot
        >>= then_unlink
            (λ fs3. put_slot fs3 rip >>= λ fs4. put_slot fs4 dirp >>= λ fs5. done (none, fs5))))

-- The tests of Rmdir. Each leaves the two inodes held.
unfoldable pub test_directory :
    Name → ℕ → ℕ → Name → Option Errno × FileSystem → Run (Option Errno × FileSystem)
test_directory path dirp rip name (some e, fs) = done (some enotempty, fs)
test_directory path dirp rip name (none, fs) = inode_of fs rip >>= λ ip.
    let go = remove_directory fs dirp rip name in
    if is_name path dot || is_name path dot_dot
    then done (some einval, fs)
    else if (ip.inum == root_inode) || ltb 1 ip.count
    then done (some ebusy, fs)
    else go

unfoldable pub rmdir_node : Name → Node → Run (Option Errno × FileSystem)
rmdir_node path (dirp, rip, name, some e, fs) = done (some e, fs)
rmdir_node path (some dirp, some rip, name, none, fs) =
    in_directory is_empty fs rip [] 0 >>= test_directory path dirp rip name
rmdir_node path (some dirp, none, name, none, fs) = panic
rmdir_node path (none, rip, name, none, fs) = panic

-- The entries of a directory that is made, and its links or its removal
abbrev pub dots_entered :
    ℕ → ℕ → Name → Option Errno → Option Errno → FileSystem → Run (Option Errno × FileSystem)
dots_entered dirp rip name none none fs =
    change more_links fs rip >>= λ fs1. change more_links fs1 dirp >>= λ fs2. done (none, fs2)
dots_entered dirp rip name err1 err2 fs = in_directory delete fs dirp name 0 >>= λ (err, fs1).
    change less_links fs1 rip >>= λ fs2. done (elim err1 [ some e ↦ some e | none ↦ err2 ], fs2)

abbrev pub with_mode : ℕ → CacheInode → CacheInode
with_mode bits rip = record rip { inode = record (rip.inode) { mode = bits } }

-- Mkdir once newNode has returned: a node that is there is put with its parent.
unfoldable pub mkdir_node : ℕ → Node → Run (Option Errno × FileSystem)
mkdir_node bits (dirp, none, name, err, fs) = panic
mkdir_node bits (dirp, some rip, name, some eexist, fs) =
    put_slot fs rip >>= λ fs1. put_any fs1 dirp >>= λ fs2. done (some eexist, fs2)
mkdir_node bits (none, some rip, name, err, fs) = panic
mkdir_node bits (some dirp, some rip, name, err, fs) = inode_of fs dirp >>= λ parent.
    inode_of fs rip >>= λ ip. change (with_mode bits) fs rip >>= λ fs1.
    in_directory enter fs1 rip dot ip.inum >>= λ (err1, fs2).
    in_directory enter fs2 rip dot_dot parent.inum >>= λ (err2, fs3).
    dots_entered dirp rip name err1 err2 fs3 >>= λ (err3, fs4). put_slot fs4 dirp >>= λ fs5.
    put_slot fs5 rip >>= λ fs6. done (elim err3 [ some e ↦ some e | none ↦ err ], fs6)

abbrev pub chdir_to : Process → Got → Run (Option Errno × FileSystem × Process)
chdir_to proc (slot, some e, fs) = done (some e, fs, proc)
chdir_to proc (none, none, fs) = panic
chdir_to proc (some slot, none, fs) = inode_of fs slot >>= λ rip.
    let other = put_slot fs slot >>= λ fs1. done (some enotdir, fs1, proc) in
    let changed =
      put_slot fs proc.workdir >>= λ fs1. done (none, fs1, record proc { workdir = slot }) in
    if get_type rip == i_directory then changed else other

-- `mode_map[oflags & O_ACCMODE]`, whose last entry is 0
abbrev pub mode_map : ℕ → ℕ
mode_map zero = 4
mode_map (suc zero) = 2
mode_map (suc (suc zero)) = 6
mode_map (suc (suc (suc n))) = 0

abbrev pub o_creat : ℕ
o_creat = 0o100

abbrev pub o_excl : ℕ
o_excl = 0o200

-- Lines 283 to 306 of Open: the inode is new or was there before.
abbrev pub created : Process → ℕ → ℕ → Node → Run HasOpened
created proc bits oflags (dirp, rip, name, some eexist, fs) =
    put_any fs dirp >>= λ fs1. open_inode fs1 proc rip bits oflags (bit_and oflags o_excl == 0)
created proc bits oflags (dirp, rip, name, some e, fs) = done (none, some e, fs, proc)
created proc bits oflags (dirp, rip, name, none, fs) =
    put_any fs dirp >>= λ fs1. open_inode fs1 proc rip bits oflags false

abbrev pub found : Process → ℕ → ℕ → Got → Run HasOpened
found proc bits oflags (slot, some e, fs) = done (none, some e, fs, proc)
found proc bits oflags (slot, none, fs) = open_inode fs proc slot bits oflags false

module _ (clean : Name → Name) where
  unfoldable pub open_path : FileSystem → Process → Name → ℕ → ℕ → Run HasOpened
  open_path fs proc path oflags omode =
      let bits = mode_map (bit_and oflags 3) in
      let mode = bit_or i_regular (bit_and (bit_and omode 0o7777) proc.umask) in
      if ltb 0 (bit_and oflags o_creat)
      then new_node clean fs proc path mode 0 >>= created proc bits oflags
      else eat_path clean fs proc path >>= found proc bits oflags

  unfoldable pub unlink : FileSystem → Process → Name → Run (Option Errno × FileSystem)
  unlink fs proc path = unlink_prep clean fs proc path >>= unlink_node

  unfoldable pub mkdir : FileSystem → Process → Name → ℕ → Run (Option Errno × FileSystem)
  mkdir fs proc path mode =
      let bits = bit_or i_directory (bit_and (bit_and mode 0o777) proc.umask) in
      new_node clean fs proc path bits 0 >>= mkdir_node bits

  unfoldable pub rmdir : FileSystem → Process → Name → Run (Option Errno × FileSystem)
  rmdir fs proc path = unlink_prep clean fs proc path >>= rmdir_node path

  unfoldable pub chdir : FileSystem → Process → Name → Run (Option Errno × FileSystem × Process)
  chdir fs proc path = eat_path clean fs proc path >>= chdir_to proc
