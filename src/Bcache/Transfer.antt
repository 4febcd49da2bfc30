-- ===== src/Bcache/Transfer.antt =====
-- The operations of src/minixfs/bcache/cache_lru.go that reach the devices: flush, WriteBlock,
-- evictBlock, loadBlock, putBlock; and invalidate, mountDevice and unmountDevice.
use Prim.Native.Nat.{bit_and}
use minixfs_old.Base.{
  ℕ, zero, suc, ◌+◌, ◌*◌, Bool, true, false, ◌&&◌, Option, none, some, List, [], ◌∷◌, leb, ltb,
  ◌==◌, if◌then◌else◌, get_elem?, set, Run, done, panic, ◌>>=◌, or_panic, update, succ, pred,
  is_positive,
}
use minixfs_old.Common.{
  Block, DeviceInfo, inode_type, directory_type, indirect_type, map_type, full_data_type,
  partial_data_type,
}
use minixfs_old.Utils.{zero_block}
use minixfs_old.Bcache.{
  Driver, LruBuf, LruCache, is_device, modify, rm_lru, unhash, put_front, put_rear,
}

-- NR_BUFS, NORMAL, PREFETCH, WRITE_IMMED and ONE_SHOT of const.go
abbrev pub nr_bufs : ℕ
nr_bufs = 1280

abbrev pub normal : ℕ
normal = 0

abbrev pub prefetch : ℕ
prefetch = 2

abbrev pub write_immed : ℕ
write_immed = 0o100

abbrev pub one_shot : ℕ
one_shot = 0o200

-- A slice at an index that may be NO_DEV
abbrev pub index {ℓ} : {A : Type ℓ} → List A → Option ℕ → Run A
index l none = panic
index l (some i) = or_panic (get_elem? l i)

-- `devno != NO_DEV`
abbrev pub is_some : Option ℕ → Bool
is_some none = false
is_some (some d) = true

abbrev pub same_device : Option ℕ → Option ℕ → Bool
same_device none none = true
same_device none (some d) = false
same_device (some d) dev = is_device dev d

-- A new block of a BlockType, all zero: the numbers are those of const.go.
unfoldable pub new_block : ℕ → ℕ → Option Block
new_block btype blocksize =
    if btype == 0
    then some (zero_block inode_type blocksize)
    else if btype == 1
    then some (zero_block directory_type blocksize)
    else if btype == 2
    then some (zero_block indirect_type blocksize)
    else if btype == 3
    then some (zero_block map_type blocksize)
    else if btype == 5
    then some (zero_block full_data_type blocksize)
    else if btype == 6
    then some (zero_block partial_data_type blocksize)
    else none

-- The dirty buffers of a device, among a number of them from an index on
unfoldable pub dirty_bufs : (ℕ → LruBuf) → Option ℕ → ℕ → ℕ → List ℕ
dirty_bufs buf dev zero i = []
dirty_bufs buf dev (suc n) i =
    let rest = dirty_bufs buf dev n (i + 1) in
    if (buf i).dirty && same_device (buf i).devno dev then i ∷ rest else rest

unfoldable pub invalidate : {Disk : Type 0} → Option ℕ → LruCache Disk → Run (LruCache Disk)
invalidate dev c =
    if leb nr_bufs c.nr_slots
    then done (record c {
      buf = λ i.
          let bp = c.buf i in
          if ltb i nr_bufs && same_device bp.devno dev then record bp { devno = none } else bp;
    })
    else panic

abbrev pub mount_at :
    {Disk : Type 0}
    → ℕ
    → Disk
    → DeviceInfo
    → LruCache Disk
    → Option Disk
    → Run (Bool × LruCache Disk)
mount_at devno dev info c (some busy) = done (true, c)
mount_at devno dev info c none =
    done
      (false, record c { devs = set c.devs devno (some dev); devinfo = set c.devinfo devno info })

unfoldable pub mount_device :
    {Disk : Type 0} → ℕ → Disk → DeviceInfo → LruCache Disk → Run (Bool × LruCache Disk)
mount_device devno dev info c =
    or_panic (get_elem? c.devs devno) >>= λ slot. mount_at devno dev info c slot

unfoldable pub unmount_device : {Disk : Type 0} → ℕ → LruCache Disk → Run (LruCache Disk)
unmount_device devno c =
    or_panic (get_elem? c.devs devno) >>= λ slot. done (record c { devs = set c.devs devno none })

abbrev pub fill_buf : Option ℕ → ℕ → Block → Option ℕ → LruBuf → LruBuf
fill_buf dev bnum b chain x = record x {
  block = some b;
  devno = dev;
  blockno = bnum;
  count = succ x.count;
  b_hash = chain;
}

-- Lines 322 to 328 of loadBlock, on the buffer with its new block
unfoldable pub rehash : {Disk : Type 0} → ℕ → Option ℕ → ℕ → Block → LruCache Disk → LruCache Disk
rehash bp dev bnum b c =
    let h = bit_and bnum c.hash_mask in
    record c {
      buf = modify (fill_buf dev bnum b (c.buf_hash h)) c.buf bp;
      buf_hash = update c.buf_hash h (some bp);
    }

module _ {Disk : Type 0} (v : Driver Disk) where
  -- `c.devs[devno].Write(b, pos)`: whether it fails, and the device after it
  unfoldable pub disk_write :
      Option ℕ → Option Block → ℕ → LruCache Disk → Run (Bool × LruCache Disk)
  disk_write none b pos c = panic
  disk_write (some devno) b pos c = or_panic (get_elem? c.devs devno) >>= λ slot.
      or_panic slot >>= λ disk.
      done
        ((v.write disk b pos).1, record c { devs = set c.devs devno (some (v.write disk b pos).0) })

  -- The loop of flush over the buffers that it found
  unfoldable pub write_dirty : Option ℕ → ℕ → List ℕ → LruCache Disk → Run (LruCache Disk)
  write_dirty dev blocksize [] c = done c
  write_dirty dev blocksize (x ∷ xs) c =
      let rest = λ (k : LruCache Disk). write_dirty dev blocksize xs k in
      if c.actuallywrite
      then disk_write dev (c.buf x).block (blocksize * (c.buf x).blockno) c
        >>= (λ (failed, k). if failed then panic else rest k)
      else rest c

  abbrev pub flush_bufs : Option ℕ → List ℕ → LruCache Disk → Run (LruCache Disk)
  flush_bufs dev [] c = done c
  flush_bufs dev (x ∷ xs) c = index c.devinfo dev >>= λ info.
      index c.devs dev >>= λ slot. write_dirty dev info.blocksize (x ∷ xs) c

  -- flush: buf[i] is out of range in a cache with fewer than NR_BUFS slots.
  unfoldable pub flush : Option ℕ → LruCache Disk → Run (LruCache Disk)
  flush dev c =
      if leb nr_bufs c.nr_slots then flush_bufs dev (dirty_bufs c.buf dev nr_bufs 0) c else panic

  unfoldable pub write_block : ℕ → LruCache Disk → Run (Bool × LruCache Disk)
  write_block bp c = index c.devinfo (c.buf bp).devno >>= λ info.
      disk_write (c.buf bp).devno (c.buf bp).block (info.blocksize * (c.buf bp).blockno) c

  abbrev pub flush_evicted : ℕ → LruCache Disk → Run (LruCache Disk)
  flush_evicted bp c =
      if is_some (c.buf bp).devno && (c.buf bp).dirty then flush (c.buf bp).devno c else done c

  abbrev pub evict_from : Option ℕ → LruCache Disk → Run (Option ℕ × LruCache Disk)
  evict_from none c = done (none, c)
  evict_from (some bp) c =
      unhash (rm_lru bp c) bp >>= λ k. flush_evicted bp k >>= λ k'. done (some bp, k')

  unfoldable pub evict_block : LruCache Disk → Run (Option ℕ × LruCache Disk)
  evict_block c = evict_from c.front c

  -- Lines 339 to 342
  unfoldable pub read_in : ℕ → Option ℕ → ℕ → Block → LruCache Disk → Run (Bool × LruCache Disk)
  read_in bp dev pos b c = index c.devs dev >>= λ slot. or_panic slot >>= λ disk. done (
    (v.read disk b pos).1,
    record c { buf = modify (λ x. record x { block = some (v.read disk b pos).0 }) c.buf bp },
  )

  -- loadBlock: whether it fails
  unfoldable pub load_block : ℕ → Option ℕ → ℕ → ℕ → ℕ → LruCache Disk → Run (Bool × LruCache Disk)
  load_block bp dev bnum btype only_search c = index c.devinfo dev >>= λ info.
      or_panic (new_block btype info.blocksize) >>= λ b.
      let k = rehash bp dev bnum b c in
      if only_search == prefetch
      then done (false, record k { buf = modify (λ x. record x { devno = none }) k.buf bp })
      else if only_search == normal
      then read_in bp dev (info.blocksize * bnum) b k
      else done (false, k)

  abbrev pub write_put : ℕ → ℕ → LruCache Disk → Run (Bool × LruCache Disk)
  write_put bp btype c =
      if ltb 0 (bit_and btype write_immed) && (c.buf bp).dirty
      then write_block bp c
      else done (false, c)

  -- putBlock, of a buffer that GetBlock has returned, or of nil: whether it fails
  unfoldable pub put_block : Option ℕ → ℕ → LruCache Disk → Run (Bool × LruCache Disk)
  put_block none btype c = done (false, c)
  put_block (some bp) btype c =
      let k = record c { buf = modify (λ x. record x { count = pred x.count }) c.buf bp } in
      if is_positive (k.buf bp).count
      then done (false, k)
      else if ltb 0 (bit_and btype one_shot)
      then write_put bp btype (put_front bp k)
      else write_put bp btype (put_rear bp k)
