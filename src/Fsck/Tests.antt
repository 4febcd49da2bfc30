-- ===== src/Fsck/Tests.antt =====
-- A check of a device of ten zones: the root directory with a file, and an inode that is in use and
-- not in the tree.
use minixfs_old.Base.{
  ℕ, ◌≡◌, refl, false, arith, List, [], ◌∷◌, ◌==◌, if◌then◌else◌, ℤ, pos, update,
}
use minixfs_old.Common.{DiskInode, DiskDirent}
use minixfs_old.Common.Dirent.{has_name, rest_after}
use minixfs_old.Bitmap.Word.{test_bit, set_bit}
use minixfs_old.Device.Super.{DiskSuperblock, blank_super}
use minixfs_old.Fsck.{
  finished, ◌>>=◌, bitset, setbit, Super, Image, Vars, mark_zone, check_list, indirect_loop,
  check_zone, check_singles, check_file,
}
use minixfs_old.Fsck.Walk.{
  has_slash, check_name, check_dots, check_entry, directory_loop, data_zone, check_directory,
  check_mode, check_inode, descend_tree, cleared, check_tree,
}
use minixfs_old.Fsck.Bits.{Ends}
use minixfs_old.Fsck.Superblock.{
  bitmapsize, super_v3, get_super, check_super, device_super, reckoned, check_count, check_ilist,
  check_device,
}
use minixfs_old.Fsck.Maps.{device_super-bitset}
use minixfs_old.Fsck.Program.{IsSound, check_device-Ends}

abbrev sup : DiskSuperblock
sup = record blank_super {
  ninodes = 3;
  imap_blocks = 1;
  zmap_blocks = 1;
  max_size = 1000000;
  zones = 10;
  magic = super_v3;
  block_size = 1024;
}

abbrev inode : ℕ → ℕ → ℕ → ℕ → DiskInode
inode mode nlinks size z = record {
  mode = mode;
  nlinks = nlinks;
  uid = 0;
  gid = 0;
  size = size;
  atime = 0;
  mtime = 0;
  ctime = 0;
  zone = z ∷ 0 ∷ 0 ∷ 0 ∷ 0 ∷ 0 ∷ 0 ∷ 0 ∷ 0 ∷ 0 ∷ [];
}

abbrev entry : ℕ → List ℕ → DiskDirent
entry inum name = record { inum = inum; name = name }

-- "." and ".." and a file "a", which has the inode 2
abbrev img : Image
img = record {
  inode = λ block offset.
      if offset == 0
      then inode 0o40755 2 192 5
      else if offset == 64
      then inode 0o100644 1 10 6
      else inode 0o100644 1 0 0;
  entry = λ block offset.
      if offset == 0
      then entry 1 (46 ∷ 0 ∷ [])
      else if offset == 64
      then entry 1 (46 ∷ 46 ∷ 0 ∷ [])
      else if offset == 128
      then entry 2 (97 ∷ 0 ∷ [])
      else entry 0 [];
  indirect = λ block offset. [];
}

abbrev checked : Super
checked = reckoned sup 1024

sup_is_checked : device_super sup ≡ finished checked
unfolding device_super get_super check_super bitmapsize
sup_is_checked = refl

-- What is free in the end, and the inode that is not cleared
abbrev tallies : Vars × List ℕ → ℤ × ℤ × List ℕ
tallies (s, uncleared) = (s.nfreezone, s.nfreeinode, uncleared)

check_device_run :
    (check_device 5 img sup >>= λ r. finished (tallies r)) ≡ finished (pos 3, pos 1, 3 ∷ [])
unfolding check_device device_super get_super check_super bitmapsize check_count check_ilist bitset
    setbit test_bit set_bit mark_zone check_list indirect_loop check_zone check_singles check_file
    has_slash check_name check_dots check_entry directory_loop data_zone check_directory check_mode
    check_inode descend_tree cleared check_tree has_name rest_after update
check_device_run = refl

check_device-Ends_example : Ends (IsSound img checked) (check_device 5 img sup)
check_device-Ends_example = check_device-Ends img sup checked sup_is_checked

device_super-bitset_example :
    (bitset (cleared checked).imap 3 ≡ finished false)
    × (bitset (cleared checked).zmap 5 ≡ finished false)
device_super-bitset_example =
    device_super-bitset sup checked 3 9 sup_is_checked (omega arith) (omega arith) (omega arith)
