-- ===== src/Icache/Server.antt =====
-- The loop of the inode cache, in src/minixfs/inode/cache.go and messages.go: its requests and
-- their responses. An inode is known by its slot.
use minixfs_old.Base.{
  ℕ, Bool, false, Option, none, some, ◌==◌, if◌then◌else◌, get_elem?, set, replicate, Run, done,
  ◌>>=◌, or_panic,
}
use minixfs_old.Common.{CacheInode, DeviceInfo, Errno, Store, no_devinfo}
use minixfs_old.Bitmap.{Bitmap}
use minixfs_old.Utils.{blank_inode}
use minixfs_old.Icache.{Icache, get_inode, new_inode, put_inode, write_inode, is_device_busy, close}

pub data Req : Type 0 where
  req_mount : ℕ → Bitmap → DeviceInfo → Req
  req_newinode : ℕ → ℕ → ℕ → ℕ → ℕ → ℕ → ℕ → Req
  req_getinode : ℕ → ℕ → Req
  req_putinode : Option ℕ → Req
  req_flushinode : ℕ → Req
  req_isbusy : ℕ → Req
  req_close : Req

pub data Res : Type 0 where
  res_empty : Res
  res_newinode res_getinode : Option ℕ → Option Errno → Res
  res_isbusy : Bool → Res
  res_err : Option Errno → Res

-- The zero value of a CacheInode
abbrev pub blank_slot : CacheInode
blank_slot = record {
  inode = blank_inode;
  devinfo = no_devinfo;
  devno = 0;
  inum = 0;
  count = 0;
  dirty = false;
  mount = false;
}

-- NewCache: there are no bitmaps before a device is mounted.
unfoldable pub new_cache : (ℕ → Bitmap) → Store → ℕ → Icache
new_cache bitmaps store size = record {
  inodes = replicate size blank_slot;
  devinfo = λ d. no_devinfo;
  bitmaps = bitmaps;
  store = store;
}

abbrev pub mount_device : ℕ → Bitmap → DeviceInfo → Icache → Icache
mount_device devno bmap info c = record c {
  devinfo = λ d. if d == devno then info else c.devinfo d;
  bitmaps = λ d. if d == devno then bmap else c.bitmaps d;
}

unfoldable pub flush_inode : Icache → ℕ → Run Icache
flush_inode c slot = or_panic (get_elem? c.inodes slot) >>= λ rip.
    write_inode c rip >>= λ (rip1, c1). done (record c1 { inodes = set c1.inodes slot rip1 })

-- The cases of the loop. PutInode of nil ends the loop with no response, which is `none`.
unfoldable pub serve : Icache → Req → Run (Option Res × Icache)
serve c (req_mount devno bmap info) = done (some res_empty, mount_device devno bmap info c)
serve c (req_newinode devno inum mode links uid gid zone) =
    new_inode c devno inum mode links uid gid zone >>= λ (slot, err, c1).
    done (some (res_newinode slot err), c1)
serve c (req_getinode devno inum) =
    get_inode c devno inum >>= λ (slot, err, c1). done (some (res_getinode slot err), c1)
serve c (req_putinode none) = done (none, c)
serve c (req_putinode (some slot)) = put_inode c slot >>= λ c1. done (some res_empty, c1)
serve c (req_flushinode slot) = flush_inode c slot >>= λ c1. done (some res_empty, c1)
serve c (req_isbusy devno) = done (some (res_isbusy (is_device_busy c devno)), c)
serve c req_close = done (some (res_err (close c)), c)
