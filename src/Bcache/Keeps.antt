-- ===== src/Bcache/Keeps.antt =====
-- What flush and WriteBlock leave alone: they change the devices only.
use Prim.Native.Nat.{bit_and}
use minixfs_old.Base.{
  ℕ, Bool, false, ◌&&◌, Option, none, some, List, [], ◌∷◌, done, panic, or_panic, get_elem?, IfDone,
  IfDone-bind, IfDone-then, IfDone-if, leb, ltb,
}
use minixfs_old.Common.{DeviceInfo, Block}
use minixfs_old.Bcache.{Driver, LruCache}
use minixfs_old.Bcache.Transfer.{
  index, disk_write, write_dirty, flush_bufs, flush, flush_evicted, nr_bufs, dirty_bufs,
  write_block, write_put, write_immed,
}

-- What holds of a cache whatever its devices are, holds after they are written.
module _ {Disk : Type 0} (v : Driver Disk) (P : LruCache Disk → Type 0)
    (keep : (k : LruCache Disk) (d : List (Option Disk)) (i : List DeviceInfo)
      → P k
      → P (record k { devs = d; devinfo = i })) where
  abbrev pub Kept : Bool × LruCache Disk → Type 0
  Kept r = P r.1

  pub disk_write-keeps :
      (dev : Option ℕ) (b : Option Block) (pos : ℕ) (c : LruCache Disk)
      → P c
      → IfDone Kept (disk_write v dev b pos c)
  unfolding disk_write
  disk_write-keeps none b pos c p = tt
  disk_write-keeps (some devno) b pos c p =
      IfDone-then Kept (or_panic (get_elem? c.devs devno)) _
        (λ slot. IfDone-then Kept (or_panic slot) _ (λ disk. keep c _ c.devinfo p))

  write_dirty-keeps :
      (dev : Option ℕ) (blocksize : ℕ) (xs : List ℕ) (c : LruCache Disk)
      → P c
      → IfDone P (write_dirty v dev blocksize xs c)
  unfolding write_dirty
  write_dirty-keeps dev blocksize [] c p = p
  write_dirty-keeps dev blocksize (x ∷ xs) c p =
      IfDone-if P c.actuallywrite _ _
        (IfDone-bind Kept P _ _ (disk_write-keeps dev (c.buf x).block _ c p)
          (λ r q. IfDone-if P r.0 panic _ tt (write_dirty-keeps dev blocksize xs r.1 q)))
        (write_dirty-keeps dev blocksize xs c p)

  flush_bufs-keeps :
      (dev : Option ℕ) (xs : List ℕ) (c : LruCache Disk) → P c → IfDone P (flush_bufs v dev xs c)
  flush_bufs-keeps dev [] c p = p
  flush_bufs-keeps dev (x ∷ xs) c p = IfDone-then P (index c.devinfo dev) _ (λ info.
      IfDone-then P (index c.devs dev) _
        (λ slot. write_dirty-keeps dev info.blocksize (x ∷ xs) c p))

  pub flush-keeps : (dev : Option ℕ) (c : LruCache Disk) → P c → IfDone P (flush v dev c)
  unfolding flush
  flush-keeps dev c p =
      IfDone-if P (leb nr_bufs c.nr_slots) _ panic
        (flush_bufs-keeps dev (dirty_bufs c.buf dev nr_bufs 0) c p) tt

  pub flush_evicted-keeps : (x : ℕ) (c : LruCache Disk) → P c → IfDone P (flush_evicted v x c)
  flush_evicted-keeps x c p = IfDone-if P _ _ (done c) (flush-keeps (c.buf x).devno c p) p

  pub write_block-keeps : (x : ℕ) (c : LruCache Disk) → P c → IfDone Kept (write_block v x c)
  unfolding write_block
  write_block-keeps x c p =
      IfDone-then Kept (index c.devinfo (c.buf x).devno) _
        (λ info. disk_write-keeps (c.buf x).devno (c.buf x).block _ c p)

  pub write_put-keeps :
      (x btype : ℕ) (c : LruCache Disk) → P c → IfDone Kept (write_put v x btype c)
  write_put-keeps x btype c p =
      IfDone-if Kept (ltb 0 (bit_and btype write_immed) && (c.buf x).dirty) _ (done (false, c))
        (write_block-keeps x c p) p
