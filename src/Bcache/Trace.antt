-- ===== src/Bcache/Trace.antt =====
-- Every state that the block cache reaches is in order, whatever its clients ask.
use minixfs_old.Base.{
  ℕ, ◌<◌, ◌≡◌, refl, Bool, true, false, Option, none, some, done, panic, ◌>>=◌, or_panic, get_elem?,
  ltb, leb, ◌&&◌, if◌then◌else◌, pred, is_positive, IfDone, IfDone-bind, IfDone-then, IfDone-if,
  IfDone-returned,
}
use Prim.Native.Nat.{bit_and}
use mathlib.Core.Option.{none-ne-some}
use minixfs_old.Common.{DeviceInfo, Block}
use minixfs_old.Bcache.{
  Driver, LruBuf, LruCache, new_lru_cache, modify, find_block, put_front, put_rear, rm_lru, unhash,
}
use minixfs_old.Bcache.Transfer.{
  put_block, mount_at, invalidate, mount_device, unmount_device, flush, evict_block, evict_from,
  flush_evicted, load_block, same_device, nr_bufs, one_shot,
}
use minixfs_old.Bcache.Server.{
  Req, req_mount, req_unmount, req_get, req_put, req_invalidate, req_flush, req_close, Res, serve,
  get_block, get_from, fill,
}
use minixfs_old.Bcache.Keeps.{flush-keeps, write_put-keeps}
use minixfs_old.Bcache.Coherent.{
  IsCoherent, IsCoherent-frame, IsMild, modify-IsCoherent, devs-IsCoherent, put_front-IsCoherent,
  put_rear-IsCoherent,
}
use minixfs_old.Bcache.New.{fresh_both}
use minixfs_old.Bcache.Evict.{
  BlockEnd, held, missing, find_block-end, AfterEvict, evict_block-IsEvicted, load_block-IsCoherent,
  Coherent,
}

-- A client puts back buffers of the cache only.
abbrev pub IsOwn : {Disk : Type 0} → LruCache Disk → Req Disk → Type 0
IsOwn c (req_put (some x) btype) = x < c.nr_slots
IsOwn c _ = Unit

abbrev IsTaken : Option ℕ → Type 0
IsTaken none = ⊥
IsTaken (some x) = Unit

abbrev pub forget : Bool → LruBuf → LruBuf
forget t b = if t then record b { devno = none } else b

forget-IsMild : (b : LruBuf) (t : Bool) → IsMild b (forget t b)
forget-IsMild b true = record {
  blockno = refl;
  b_hash = refl;
  devno = λ d e. absurd (none-ne-some d e);
}
forget-IsMild b false = record { blockno = refl; b_hash = refl; devno = λ d e. e }

next-forget : (b : LruBuf) (t : Bool) → (forget t b).next ≡ b.next
next-forget b true = refl
next-forget b false = refl

module _ {Disk : Type 0} (v : Driver Disk) (c : LruCache Disk) (k : IsCoherent c) where
  abbrev Served : Res × LruCache Disk → Type 0
  Served r = IsCoherent r.1

  get-IsCoherent :
      (dev : Option ℕ) (bnum btype only_search : ℕ)
      → IfDone Served (get_block v dev bnum btype only_search c)
  unfolding get_block load_block find_block evict_block
  get-IsCoherent (some dev) bnum btype only_search = finish (find_block-end c k dev bnum)
    where
      filled :
          (r : Option ℕ × LruCache Disk)
          → AfterEvict v c dev bnum r
          → IfDone Served (fill v (some dev) bnum btype only_search r.0 r.1)
      filled (none, c') k' = k'
      filled (some x, c') u =
          IfDone-bind (Coherent v c') Served (load_block v x (some dev) bnum btype only_search c') _
            (load_block-IsCoherent v c' x dev bnum btype only_search u) (λ r p. p)

      finish :
          {r : Option ℕ}
          → BlockEnd c dev bnum r
          → IfDone Served (get_from v (some dev) bnum btype only_search r c)
      finish (held x below on same) = k
      finish (missing gone) =
          IfDone-bind (AfterEvict v c dev bnum) Served (evict_block v c) _
            (evict_block-IsEvicted v c dev bnum k gone) filled
  get-IsCoherent none bnum btype only_search = from_front c.front
    where
      from_front :
          (o : Option ℕ)
          → IfDone Served (evict_from v o c >>= λ (bp, k). fill v none bnum btype only_search bp k)
      from_front none = k
      from_front (some x) =
          IfDone-bind (λ (r : Option ℕ × LruCache Disk). IsTaken r.0) Served
            (evict_from v (some x) c) (λ (bp, k). fill v none bnum btype only_search bp k)
            (IfDone-then (λ (r : Option ℕ × LruCache Disk). IsTaken r.0) (unhash (rm_lru x c) x) _
              (λ k.
                IfDone-then (λ (r : Option ℕ × LruCache Disk). IsTaken r.0) (flush_evicted v x k) _
                  (λ k'. tt)))
            (λ r t. stuck r.0 r.1 t)
        where
          stuck :
              (o : Option ℕ) (c' : LruCache Disk)
              → IsTaken o
              → IfDone Served (fill v none bnum btype only_search o c')
          stuck none c' t = elim t [ ]
          stuck (some x) c' t = tt

  put-IsCoherent :
      (x btype : ℕ) → x < c.nr_slots → IfDone (Coherent v c) (put_block v (some x) btype c)
  unfolding put_block
  put-IsCoherent x btype below =
      IfDone-if (Coherent v c) (is_positive (counted.buf x).count) (done (false, counted)) _ k' (
        IfDone-if (Coherent v c) (ltb 0 (bit_and btype one_shot)) _ _
          (write_put-keeps v IsCoherent (λ c d i e. devs-IsCoherent c e d i) x btype
            (put_front x counted) (put_front-IsCoherent counted k' x below))
          (write_put-keeps v IsCoherent (λ c d i e. devs-IsCoherent c e d i) x btype
            (put_rear x counted) (put_rear-IsCoherent counted k' x below)))
    where
      mild : (b : LruBuf) → IsMild b (record b { count = pred b.count })
      mild b = record { blockno = refl; b_hash = refl; devno = λ d e. e }

      counted : LruCache Disk
      counted = record c { buf = modify (λ b. record b { count = pred b.count }) c.buf x }

      k' : IsCoherent counted
      k' = modify-IsCoherent c k (λ b. record b { count = pred b.count }) x mild (k.next_in x)

  invalidate-IsCoherent : (dev : Option ℕ) → IfDone IsCoherent (invalidate dev c)
  unfolding invalidate
  invalidate-IsCoherent dev =
      IfDone-if IsCoherent (leb nr_bufs c.nr_slots) _ panic
        (IsCoherent-frame c _ (λ h. refl) refl refl (λ y. forget-IsMild (c.buf y) _) k.front_in
          (λ y.
            rw (next-forget (c.buf y) (ltb y nr_bufs && same_device (c.buf y).devno dev))
              (k.next_in y))
          k)
        tt

  mount-IsCoherent :
      (devno : ℕ) (dev : Disk) (info : DeviceInfo)
      → IfDone (Coherent v c) (mount_device devno dev info c)
  unfolding mount_device
  mount-IsCoherent devno dev info =
      IfDone-then (Coherent v c) (or_panic (get_elem? c.devs devno)) _ at
    where
      at : (slot : Option Disk) → IfDone (Coherent v c) (mount_at devno dev info c slot)
      at (some busy) = k
      at none = devs-IsCoherent c k _ _

  unmount-IsCoherent : (devno : ℕ) → IfDone IsCoherent (unmount_device devno c)
  unfolding unmount_device
  unmount-IsCoherent devno =
      IfDone-then IsCoherent (or_panic (get_elem? c.devs devno)) _
        (λ slot. devs-IsCoherent c k _ c.devinfo)

  serve-IsCoherent : (req : Req Disk) → IsOwn c req → IfDone Served (serve v req c)
  unfolding serve put_block
  serve-IsCoherent (req_mount devno dev info) own =
      IfDone-bind (Coherent v c) Served (mount_device devno dev info c) _
        (mount-IsCoherent devno dev info) (λ r p. p)
  serve-IsCoherent (req_unmount dev) own =
      IfDone-bind IsCoherent Served (unmount_device dev c) _ (unmount-IsCoherent dev) (λ r p. p)
  serve-IsCoherent (req_get dev bnum btype only_search) own =
      get-IsCoherent dev bnum btype only_search
  serve-IsCoherent (req_put none btype) own = k
  serve-IsCoherent (req_put (some x) btype) own =
      IfDone-bind (Coherent v c) Served (put_block v (some x) btype c) _
        (put-IsCoherent x btype own) (λ r p. p)
  serve-IsCoherent (req_invalidate dev) own =
      IfDone-bind IsCoherent Served (invalidate dev c) _ (invalidate-IsCoherent dev) (λ r p. p)
  serve-IsCoherent (req_flush dev) own =
      IfDone-bind IsCoherent Served (flush v dev c) _
        (flush-keeps v IsCoherent (λ c d i e. devs-IsCoherent c e d i) dev c k) (λ r p. p)
  serve-IsCoherent req_close own = k

-- The states that a cache reaches: by a request that is served, or when a client changes the block
-- of a buffer, or whether it is dirty.
pub data Reaches {Disk : Type 0} (v : Driver Disk) (c : LruCache Disk)
    : LruCache Disk → Type 0 where
  started : Reaches v c c
  served :
      (k k' : LruCache Disk) (req : Req Disk) (res : Res)
      → Reaches v c k
      → IsOwn k req
      → serve v req k ≡ done (res, k')
      → Reaches v c k'
  changed :
      (k : LruCache Disk) (x : ℕ) (t : Option Block) (d : Bool)
      → Reaches v c k
      → Reaches v c (record k { buf = modify (λ b. record b { block = t; dirty = d }) k.buf x })

Reaches-IsCoherent :
    {Disk : Type 0} (v : Driver Disk) (c k : LruCache Disk)
    → IsCoherent c
    → Reaches v c k
    → IsCoherent k
Reaches-IsCoherent v c k i started = i
Reaches-IsCoherent v c m i (served k k' req res r own e) =
    IfDone-returned (Served v k (Reaches-IsCoherent v c k i r)) (serve v req k)
      (serve-IsCoherent v k (Reaches-IsCoherent v c k i r) req own) e
Reaches-IsCoherent v c m i (changed k x t d r) =
    let j = Reaches-IsCoherent v c k i r in
    modify-IsCoherent k j (λ b. record b { block = t; dirty = d }) x mild (j.next_in x)
  where
    mild : (b : LruBuf) → IsMild b (record b { block = t; dirty = d })
    mild b = record { blockno = refl; b_hash = refl; devno = λ n e. e }

-- In every state that a cache reaches from the one that NewLRUCache returns, when its clients put
-- back buffers of the cache only and may change their blocks, the hash table has each buffer once,
-- in the chain of its block number, no block of a device is in two buffers, and the links lead to
-- buffers of the cache.
pub cache-IsCoherent :
    {Disk : Type 0} (v : Driver Disk) (nd n nh : ℕ) (c k : LruCache Disk)
    → new_lru_cache nd n nh ≡ done c
    → Reaches v c k
    → IsCoherent k
cache-IsCoherent v nd n nh c k e r = Reaches-IsCoherent v c k (fresh_both nd n nh c e).0 r
