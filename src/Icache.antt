-- ===== src/Icache.antt =====
-- The inode cache of src/minixfs/inode/cache.go: a table of slots with their counts. A request that
-- loads an inode is answered here before the next request is taken, and the inode is a copy of the
-- one in its block. The finode and dinode servers that a slot runs are left out.
mod Slots
pub mod Table
pub mod Disk
pub mod Server
mod Put
mod Trace
pub mod Tree
pub mod Stores
pub mod Holders
pub mod Calls
mod Tests
use minixfs_old.Base.{
  ℕ, zero, suc, ◌+◌, ◌-◌, ◌*◌, ◌/◌, ◌%◌, Bool, true, false, ◌&&◌, ◌||◌, Option, none, some, List,
  [], ◌∷◌, ltb, leb, ◌==◌, if◌then◌else◌, get_elem?, set, Run, done, panic, ◌>>=◌, or_panic,
}
use minixfs_old.Common.{
  CacheInode, DiskInode, DeviceInfo, Block, inode_block, Errno, enfile, ebusy, v2_inode_size, Store,
  get_block, put_block,
}
use minixfs_old.Bitmap.{Bitmap, State, free_inode}
use minixfs_old.Utils.Truncate.{truncate}

-- inodeCache, with the store that its bcache gives
pub record Icache : Type 0 where
  pub inodes : List CacheInode
  pub devinfo : ℕ → DeviceInfo
  pub bitmaps : ℕ → Bitmap
  pub store : Store

-- `rip.Count > 0`
abbrev pub is_live : CacheInode → Bool
is_live rip = ltb 0 rip.count

abbrev pub is_inode : ℕ → ℕ → CacheInode → Bool
is_inode devno inum rip = rip.devno == devno && rip.inum == inum

-- The loop over the slots from index i on: the slot with the inode, or the last unused one, or the
-- one from before.
unfoldable pub find_slot : ℕ → ℕ → ℕ → Option ℕ → List CacheInode → Option ℕ
find_slot devno inum i slot [] = slot
find_slot devno inum i slot (rip ∷ rips) =
    let pass = find_slot devno inum (i + 1) slot rips in
    let unused = find_slot devno inum (i + 1) (some i) rips in
    if is_live rip then (if is_inode devno inum rip then some i else pass) else unused

-- `inodeb := bp.Block.(InodeBlock)`
abbrev pub as_inodes : Block → Option (List DiskInode)
as_inodes (inode_block b) = some b
as_inodes _ = none

-- The block of an inode and its index there. An inode number 0 gives the index -1, which panics.
abbrev pub inode_blockno : DeviceInfo → ℕ → ℕ
inode_blockno info inum = info.map_offset + (inum - 1) / (info.blocksize / v2_inode_size)

abbrev pub inode_offset : DeviceInfo → ℕ → ℕ
inode_offset info inum = (inum - 1) % (info.blocksize / v2_inode_size)

unfoldable pub inode_at : Icache → ℕ → ℕ → Run (List DiskInode)
inode_at c devno inum =
    if inum == 0 || (c.devinfo devno).blocksize / v2_inode_size == 0
    then panic
    else or_panic (as_inodes (get_block c.store devno (inode_blockno (c.devinfo devno) inum)))

-- loadInode, into a slot whose count has just gone up from 0
unfoldable pub load_inode : Icache → ℕ → ℕ → Run CacheInode
load_inode c devno inum = inode_at c devno inum >>= λ inodeb.
    or_panic (get_elem? inodeb (inode_offset (c.devinfo devno) inum)) >>= λ inode_d. done (record {
      inode = inode_d;
      devinfo = c.devinfo devno;
      devno = devno;
      inum = inum;
      count = 1;
      dirty = false;
      mount = false;
    })

unfoldable pub write_inode : Icache → CacheInode → Run (CacheInode × Icache)
write_inode c xp = inode_at c xp.devno xp.inum >>= λ inodeb.
    let info = c.devinfo xp.devno in
    let offset = inode_offset info xp.inum in
    or_panic (get_elem? inodeb offset) >>= λ _. done (
      record xp { dirty = false },
      record c {
        store =
            put_block c.store xp.devno (inode_blockno info xp.inum)
              (inode_block (set inodeb offset xp.inode));
      },
    )

-- A slot and the inode in it, or an error
abbrev pub Gotten : Type 0
Gotten = Option ℕ × Option Errno × Icache

-- The parameters of NewInode that go into a loaded inode
unfoldable pub with_params : ℕ → ℕ → ℕ → ℕ → ℕ → CacheInode → CacheInode
with_params mode links uid gid zone xp = record xp {
  inode = record (xp.inode) {
    mode = mode;
    nlinks = links;
    uid = uid;
    gid = gid;
    zone = set xp.inode.zone 0 zone;
  };
}

-- GetInode and NewInode once a slot is chosen. Slot 0 is treated as none.
unfoldable pub take_slot : (CacheInode → CacheInode) → Icache → ℕ → ℕ → Option ℕ → Run Gotten
take_slot fill c devno inum none = done (none, some enfile, c)
take_slot fill c devno inum (some zero) = done (none, some enfile, c)
take_slot fill c devno inum (some (suc k)) = or_panic (get_elem? c.inodes (suc k)) >>= λ xp.
    let shared = record xp { count = xp.count + 1 } in
    let loaded = load_inode c devno inum >>= λ xp'.
    done (some (suc k), none, record c { inodes = set c.inodes (suc k) (fill xp') }) in
    if is_live xp
    then done (some (suc k), none, record c { inodes = set c.inodes (suc k) shared })
    else loaded

unfoldable pub get_inode : Icache → ℕ → ℕ → Run Gotten
get_inode c devno inum = take_slot (λ xp. xp) c devno inum (find_slot devno inum 0 none c.inodes)

unfoldable pub new_inode : Icache → ℕ → ℕ → ℕ → ℕ → ℕ → ℕ → ℕ → Run Gotten
new_inode c devno inum mode links uid gid zone =
    take_slot (with_params mode links uid gid zone) c devno inum
      (find_slot devno inum 0 none c.inodes)

-- PutInode of an inode without links that no one holds: its zones and the inode are freed.
unfoldable pub release : Icache → CacheInode → Run (CacheInode × Icache)
release c rip =
    truncate rip (record { bmap = c.bitmaps rip.devno; store = c.store }) >>= λ (rip1, s1).
    free_inode s1 rip.inum >>= λ s2. done (
      record rip1 { inode = record (rip1.inode) { mode = 0 }; dirty = true },
      record c { bitmaps = λ d. if d == rip.devno then s2.bmap else c.bitmaps d; store = s2.store },
    )

-- PutInode of the inode in a slot, which the caller holds: its count is not 0.
unfoldable pub put_inode : Icache → ℕ → Run Icache
put_inode c slot = or_panic (get_elem? c.inodes slot) >>= λ xp.
    let rip = record xp { count = xp.count - 1 } in
    let freed = (if rip.inode.nlinks == 0 then release c rip else done (rip, c)) >>= λ (rip1, c1).
    (if rip1.dirty then write_inode c1 rip1 else done (rip1, c1)) >>= λ (rip2, c2).
    done (record c2 { inodes = set c2.inodes slot rip2 }) in
    if rip.count == 0 then freed else done (record c { inodes = set c.inodes slot rip })

-- IsDeviceBusy: more than one use of the device's inodes
unfoldable pub uses : ℕ → List CacheInode → ℕ
uses devno [] = 0
uses devno (rip ∷ rips) =
    (if is_live rip && rip.devno == devno then rip.count else 0) + uses devno rips

unfoldable pub is_device_busy : Icache → ℕ → Bool
is_device_busy c devno = ltb 1 (uses devno c.inodes)

-- Close: EBUSY if some slot is in use
unfoldable pub any_live : List CacheInode → Bool
any_live [] = false
any_live (rip ∷ rips) = is_live rip || any_live rips

unfoldable pub close : Icache → Option Errno
close c = if any_live c.inodes then some ebusy else none
