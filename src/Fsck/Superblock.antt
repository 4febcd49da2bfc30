-- ===== src/Fsck/Superblock.antt =====
-- The superblock in src/fsck/main.go: getsuper, after the read, and chksuper; and the program,
-- chkdev, with chkcount and chkilist. Warnings are left out, and with them the reckoning of the
-- largest size; and chkmap, which prints and reads the maps of the device over the marks of
-- suspects. The fuel bounds the depth of the tree.
use minixfs_old.Base.{
  ℕ, zero, suc, ◌+◌, ◌-◌, ◌*◌, ◌/◌, ◌^◌, Bool, not, ◌&&◌, List, [], ◌∷◌, ltb, leb, ◌==◌, false,
  if◌then◌else◌, ℤ, pos, negsuc, succ,
}
use minixfs_old.Common.{DiskInode}
use minixfs_old.Device.Super.{DiskSuperblock}
use minixfs_old.Fsck.{Check, finished, stop, ◌>>=◌, bitset, Super, Image, Vars, inoblock, inooff}
use minixfs_old.Fsck.Walk.{check_tree}

-- FS_BITS_PER_BLOCK, a bit chunk being a uint32, and bitmapsize
abbrev pub bits_per_block : ℕ → ℕ
bits_per_block b = b / 4 * 32

unfoldable pub bitmapsize : ℕ → ℕ → ℕ
bitmapsize nr_bits b =
    let nr_blocks = nr_bits / bits_per_block b in
    if ltb (nr_blocks * bits_per_block b) nr_bits then nr_blocks + 1 else nr_blocks

abbrev pub super_v2 : ℕ
super_v2 = 0x2468

abbrev pub super_v3 : ℕ
super_v3 = 0x4D5A

abbrev pub version_block_size : DiskSuperblock → Check ℕ
version_block_size sup =
    if sup.magic == super_v2
    then finished 8192
    else if sup.magic == super_v3
    then finished sup.block_size
    else stop

-- getsuper, with the block size that it sets. A maximum size of 0 or below is set to the largest.
unfoldable pub get_super : DiskSuperblock → Check (DiskSuperblock × ℕ)
get_super sup = version_block_size sup >>= λ bs.
    if sup.ninodes == 0
    then stop
    else if sup.zones == 0
    then stop
    else if sup.imap_blocks == 0
    then stop
    else if sup.zmap_blocks == 0
    then stop
    else if not (sup.firstdatazone == 0) && leb sup.firstdatazone 4
    then stop
    else finished (
      (if sup.max_size == 0
          then record sup { max_size = 2 ^ 31 - 1 }
          else if leb (2 ^ 31) sup.max_size
          then record sup { max_size = 2 ^ 31 - 1 }
          else sup),
      bs,
    )

-- The superblock with the first data zone that its numbers make
abbrev pub reckoned : DiskSuperblock → ℕ → Super
reckoned sup bs =
    let per_block = sup.block_size / 64 in
    let n_ilist = (sup.ninodes + per_block - 1) / per_block in
    let before = 2 + sup.imap_blocks + sup.zmap_blocks + n_ilist in
    record {
      ninodes = sup.ninodes;
      zones = sup.zones;
      imap_blocks = sup.imap_blocks;
      zmap_blocks = sup.zmap_blocks;
      firstdatazone = (before + 2 ^ sup.log_zone_size - 1) / 2 ^ sup.log_zone_size;
      log_zone_size = sup.log_zone_size;
      block_size = bs;
    }

-- The first data zone that the superblock has, if it has one, is taken.
abbrev pub with_first : DiskSuperblock → Super → Check Super
with_first sup sb =
    if sup.firstdatazone == 0
    then finished sb
    else if leb sup.zones sup.firstdatazone
    then stop
    else if ltb sup.firstdatazone sb.firstdatazone
    then stop
    else finished (record sb { firstdatazone = sup.firstdatazone })

-- chksuper. The field Block_size below 64 makes a division by 0, also where it is not the block
-- size.
unfoldable pub check_super : DiskSuperblock → ℕ → Check Super
check_super sup bs =
    if not (sup.magic == super_v2) && not (sup.magic == super_v3)
    then stop
    else if ltb sup.imap_blocks (bitmapsize (sup.ninodes + 1) bs)
    then stop
    else if ltb sup.zmap_blocks (bitmapsize sup.zones bs)
    then stop
    else if leb 32 sup.log_zone_size
    then stop
    else if sup.block_size / 64 == 0
    then stop
    else with_first sup (reckoned sup bs)

-- chkdev until the bit maps are made
unfoldable pub device_super : DiskSuperblock → Check Super
device_super sup = get_super sup >>= λ (read, bs). if ltb bs 1024 then stop else check_super read bs

abbrev pub is_zero : ℤ → Bool
is_zero (pos n) = n == 0
is_zero (negsuc n) = false

abbrev pub plus : ℤ → ℕ → ℤ
plus z zero = z
plus z (suc n) = succ (plus z n)

module _ (img : Image) (sb : Super) where
  abbrev pub inode_of : ℕ → DiskInode
  inode_of ino = img.inode (inoblock sb ino) (inooff sb ino)

  -- chkcount: every inode whose count is not 0 is given the count that it should have.
  unfoldable pub check_count : Vars → Vars
  check_count s = record s {
    count = λ ino.
        if is_zero (s.count ino) then s.count ino else plus (s.count ino) (inode_of ino).nlinks;
  }

  -- chkilist: the inodes that it finds in use on the device, and not in the tree
  unfoldable pub check_ilist : ℕ → ℕ → List ℕ → Check (List ℕ)
  check_ilist zero ino imap = finished []
  check_ilist (suc n) ino imap = bitset imap ino >>= λ found.
      check_ilist n (ino + 1) imap >>= λ rest.
      finished (if not found && not ((inode_of ino).mode == 0) then ino ∷ rest else rest)

-- chkdev
unfoldable pub check_device : ℕ → Image → DiskSuperblock → Check (Vars × List ℕ)
check_device fuel img sup = device_super sup >>= λ sb. check_tree sb img fuel >>= λ s.
    check_ilist img sb sb.ninodes 1 s.imap >>= λ uncleared.
    finished (check_count img sb s, uncleared)
