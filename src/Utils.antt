-- ===== src/Utils.antt =====
-- src/minixfs/utils/write.go: the routines that give a file its blocks. The inode is changed and
-- returned; the bitmap server and the store are one state. A block that GetBlock delivers with
-- NO_READ is always zeroed or overwritten whole, so that it need not be told from a block read.
pub mod Entry
pub mod Mapping
pub mod Chunk
pub mod Truncate
mod Tests
use minixfs_old.Base.{
  ℕ, ◌+◌, ◌-◌, ◌*◌, ◌/◌, ◌%◌, ◌^◌, ◌<◌, Bool, true, false, not, ◌&&◌, ◌||◌, Option, none, some,
  List, ltb, leb, ◌==◌, if◌then◌else◌, get_elem?, set, length, replicate, Run, done, panic, ◌>>=◌,
  or_panic,
}
use minixfs_old.Common.{
  CacheInode, DiskInode, DiskDirent, DeviceInfo, Block, BlockType, inode_type, directory_type,
  indirect_type, map_type, full_data_type, partial_data_type, inode_block, directory_block,
  indirect_block, map_block, full_data_block, partial_data_block, Errno, efbig, no_zone, no_block,
  v2_nr_dzones, v2_zone_num_size, v2_inode_size, dir_entry_size, Store, get_block, put_block,
  as_full_data, i_type, i_char_special, i_block_special,
}
use minixfs_old.Common.Read.{rd_indir, get_indirect, read_map, zone_of, nr_indirects, zone_at}
use minixfs_old.Bitmap.{State, alloc_zone, free_zone}

-- ClearZone: what follows its call of panic is never reached.
unfoldable pub clear_zone : CacheInode → Run (Unit {0})
clear_zone rip = if rip.devinfo.scale == 0 then done tt else panic

abbrev pub blank_inode : DiskInode
blank_inode = record {
  mode = 0;
  nlinks = 0;
  uid = 0;
  gid = 0;
  size = 0;
  atime = 0;
  mtime = 0;
  ctime = 0;
  zone = replicate 10 0;
}

abbrev pub blank_dirent : DiskDirent
blank_dirent = record { inum = 0; name = replicate 60 0 }

-- ZeroBlock: the zero value of each type of block
unfoldable pub zero_block : BlockType → ℕ → Block
zero_block inode_type bs = inode_block (replicate (bs / v2_inode_size) blank_inode)
zero_block directory_type bs = directory_block (replicate (bs / dir_entry_size) blank_dirent)
zero_block indirect_type bs = indirect_block (replicate (bs / 4) 0)
zero_block map_type bs = map_block (replicate (bs / 2) 0)
zero_block full_data_type bs = full_data_block (replicate bs 0)
zero_block partial_data_type bs = partial_data_block (replicate bs 0)

-- `rip.Inode.Zone[i] = uint32(z)`
abbrev pub with_zone : CacheInode → ℕ → ℕ → CacheInode
with_zone rip i z = record rip {
  inode = record (rip.inode) { zone = set rip.inode.zone i (z % 2 ^ 32) };
}

-- WrIndir
unfoldable pub wr_indir : List ℕ → ℕ → ℕ → Run (List ℕ)
wr_indir indb index zone =
    if ltb index (length indb) then done (set indb index (zone % 2 ^ 32)) else panic

abbrev pub put_indirect : CacheInode → ℕ → List ℕ → State → State
put_indirect rip z ws s = record s {
  store = put_block s.store rip.devno (z * 2 ^ rip.devinfo.scale) (indirect_block ws);
}

-- GetBlock of the indirect block in zone z, zeroed if it is new
unfoldable pub open_indirect : CacheInode → ℕ → Bool → State → Run (List ℕ)
open_indirect rip z fresh s =
    if fresh then done (replicate (rip.devinfo.blocksize / 4) 0) else get_indirect rip z s.store

abbrev pub Written : Type 0
Written = Option Errno × CacheInode × State

-- The end of WriteMap: enter the zone in the indirect block in zone z1.
unfoldable pub write_single : CacheInode → ℕ → Bool → ℕ → ℕ → State → Run Written
write_single rip z1 new_ind ex new_zone s = open_indirect rip z1 new_ind s >>= λ ws.
    wr_indir ws ex new_zone >>= λ ws'. done (none, rip, put_indirect rip z1 ws' s)

-- `rip.Bitmap.AllocZone(int(rip.Inode.Zone[0]))`
unfoldable pub alloc_near : CacheInode → State → Run (ℕ × Option Errno × State)
alloc_near rip s = zone_at rip 0 >>= λ z0. alloc_zone s z0

-- WriteMap where the single indirect block, in zone z1 so far, stands in the inode
unfoldable pub write_by_single : CacheInode → ℕ → ℕ → ℕ → State → Run Written
write_by_single rip z1 ex new_zone s =
    let fresh = alloc_near rip s >>= λ (z, err, s1).
    let rip1 = with_zone rip v2_nr_dzones z in
    if z == no_zone then done (err, rip1, s1) else write_single rip1 z true ex new_zone s1 in
    if z1 == no_zone then fresh else write_single rip z1 false ex new_zone s

-- WriteMap where the single indirect block stands in the double indirect block in zone z
unfoldable pub write_by_double : CacheInode → ℕ → Bool → ℕ → ℕ → ℕ → State → Run Written
write_by_double rip z new_dbl ind_ex ex new_zone s =
    let fresh = λ (dbl : List ℕ). alloc_near rip (put_indirect rip z dbl s) >>= λ (z2, err, s1).
    wr_indir dbl ind_ex z2 >>= λ dbl'.
    let s2 = put_indirect rip z dbl' s1 in
    if z2 == no_zone then done (err, rip, s2) else write_single rip z2 true ex new_zone s2 in
    let there = open_indirect rip z new_dbl s >>= λ dbl.
    rd_indir dbl ind_ex rip.devinfo.firstdatazone rip.devinfo.zones >>= λ z1.
    if z1 == no_zone
    then fresh dbl
    else write_single rip z1 false ex new_zone (put_indirect rip z dbl s) in
    if leb (nr_indirects rip) ind_ex then done (some efbig, rip, s) else there

-- WriteMap. The inode is marked dirty first, in every case.
unfoldable pub write_map : CacheInode → ℕ → ℕ → State → Run Written
write_map inode position new_zone s =
    let rip = record inode { dirty = true } in
    let zone = zone_of rip position in
    let excess = zone - v2_nr_dzones in
    let nr = nr_indirects rip in
    let far = excess - nr in
    let by_single = zone_at rip v2_nr_dzones >>= λ z1. write_by_single rip z1 excess new_zone s in
    let fresh_double = alloc_near rip s >>= λ (z, err, s1).
    let rip1 = with_zone rip (v2_nr_dzones + 1) z in
    if z == no_zone
    then done (err, rip, s1)
    else write_by_double rip1 z true (far / nr) (far % nr) new_zone s1 in
    let by_double = zone_at rip (v2_nr_dzones + 1) >>= λ z.
    if z == no_zone
    then fresh_double
    else write_by_double rip z false (far / nr) (far % nr) new_zone s in
    if ltb zone v2_nr_dzones
    then done (none, with_zone rip zone new_zone, s)
    else if ltb excess nr
    then by_single
    else by_double

-- NewBlock: the number of the block, which is zeroed, or `none` for a nil block
abbrev pub Acquired : Type 0
Acquired = Option ℕ × Option Errno × CacheInode × State

abbrev pub zeroed : CacheInode → ℕ → BlockType → State → Acquired
zeroed rip b btype s = (
  some b,
  none,
  rip,
  record s { store = put_block s.store rip.devno b (zero_block btype rip.devinfo.blocksize) },
)

-- NewBlock once WriteMap has returned
unfoldable pub enter_block : ℕ → ℕ → BlockType → Written → Run Acquired
enter_block position z btype (some e, rip, s) = free_zone s z >>= λ s'. done (none, some e, rip, s')
enter_block position z btype (none, rip, s) =
    let bs = rip.devinfo.blocksize in
    let zone_size = bs * 2 ^ rip.devinfo.scale in
    let b = z * 2 ^ rip.devinfo.scale + position % zone_size / bs in
    (if position == rip.inode.size then done tt else clear_zone rip) >>= λ _.
    done (zeroed rip b btype s)

unfoldable pub new_block : CacheInode → ℕ → BlockType → State → Run Acquired
new_block rip position btype s =
    let fresh = alloc_near rip s >>= λ (z, err, s1).
    if z == no_zone
    then done (none, err, rip, s1)
    else write_map rip position z s1 >>= enter_block position z btype in
    read_map rip position s.store >>= λ b.
    if b == no_block then fresh else done (zeroed rip b btype s)
