-- ===== src/Icache/Trace.antt =====
-- Every state that the inode cache reaches has each inode in one slot at most.
use minixfs_old.Base.{
  ℕ, zero, suc, ◌+◌, ◌≡◌, refl, sym, ap, ◌∙◌, true, false, false≢true, Option, none, some, [],
  arith, get_elem?, get_elem?-bound, set, replicate, done, ◌>>=◌, or_panic, IfDone, IfDone-bind,
  IfDone-then, IfDone-returned,
}
use native.Mathlib.Nat.{zero-add}
use mathlib.Core.Option.{some-injective}
use minixfs_old.Common.{CacheInode, Store}
use minixfs_old.Bitmap.{Bitmap}
use minixfs_old.Icache.{
  Icache, is_live, Gotten, take_slot, get_inode, new_inode, with_params, load_inode, inode_at,
  put_inode, find_slot,
}
use minixfs_old.Icache.Slots.{IsAbsent, FindEnd, held, unused, all_live, find_slot-end}
use minixfs_old.Icache.Table.{IsTable, IsTable-set}
use minixfs_old.Icache.Put.{
  IsSame, IsTable-keep, HasTable, flush_inode-HasTable, put_inode-HasTable,
}
use minixfs_old.Icache.Server.{
  Req, req_mount, req_newinode, req_getinode, req_putinode, req_flushinode, req_isbusy, req_close,
  Res, new_cache, blank_slot, flush_inode, serve,
}

-- What GetInode and NewInode leave
abbrev GottenTable : Gotten → Type 0
GottenTable (slot, err, c) = HasTable c

abbrev IsLoaded : ℕ → ℕ → CacheInode → Type 0
IsLoaded devno inum xp = (xp.devno ≡ devno) × (xp.inum ≡ inum)

load_inode-IsLoaded :
    (c : Icache) (devno inum : ℕ) → IfDone (IsLoaded devno inum) (load_inode c devno inum)
unfolding load_inode
load_inode-IsLoaded c devno inum =
    IfDone-then (IsLoaded devno inum) (inode_at c devno inum) _ (λ inodeb.
      IfDone-then (IsLoaded devno inum) (or_panic (get_elem? inodeb _)) _ (λ d. (refl, refl)))

module _ (fill : CacheInode → CacheInode) (c : Icache) (devno inum : ℕ)
    (fills : (xp : CacheInode) → IsLoaded devno inum xp → IsLoaded devno inum (fill xp))
    (t : HasTable c) where
  take_slot-HasTable :
      IfDone GottenTable (take_slot fill c devno inum (find_slot devno inum 0 none c.inodes))
  unfolding take_slot
  take_slot-HasTable = finish (find_slot-end devno inum 0 none c.inodes)
    where
      loads :
          (k : ℕ) (rip : CacheInode)
          → get_elem? c.inodes (suc k) ≡ some rip
          → is_live rip ≡ false
          → IsAbsent devno inum c.inodes
          → IfDone GottenTable (take_slot fill c devno inum (some (suc k)))
      loads k rip e free absent =
          rw (e, ◌>>=◌, free)
            (IfDone-bind (IsLoaded devno inum) GottenTable (load_inode c devno inum) _
              (load_inode-IsLoaded c devno inum)
              (λ xp p.
                let (dev, num) = fills xp p in
                IsTable-set c.inodes k (fill xp) t (get_elem?-bound c.inodes (suc k) rip e)
                  (λ j a ne e' l' is'. absent j a e' l' (rw (← dev, ← num) is'))))

      shares :
          (k : ℕ) (rip : CacheInode)
          → get_elem? c.inodes (suc k) ≡ some rip
          → is_live rip ≡ true
          → IfDone GottenTable (take_slot fill c devno inum (some (suc k)))
      shares k rip e live =
          rw (e, ◌>>=◌, live)
            (IsTable-keep c.inodes (suc k) rip (record rip { count = rip.count + 1 }) t e
              (record { devno = refl; inum = refl; live = λ l. live }))

      finish :
          {r : Option ℕ}
          → FindEnd devno inum 0 none c.inodes r
          → IfDone GottenTable (take_slot fill c devno inum r)
      finish (held zero j rip at e l is) = t
      finish (held (suc k) j rip at e l is) = shares k rip (rw (at, zero-add) e) l
      finish (unused zero j rip at e f absent later) = t
      finish (unused (suc k) j rip at e f absent later) = loads k rip (rw (at, zero-add) e) f absent
      finish (all_live all absent) = t

serve-HasTable :
    (c : Icache) (req : Req)
    → HasTable c
    → IfDone (λ (r : Option Res × Icache). HasTable r.1) (serve c req)
unfolding serve get_inode new_inode with_params
serve-HasTable c (req_mount devno bmap info) t = t
serve-HasTable c (req_newinode devno inum mode links uid gid zone) t =
    IfDone-bind GottenTable _ (new_inode c devno inum mode links uid gid zone) _
      (take_slot-HasTable (with_params mode links uid gid zone) c devno inum (λ xp p. p) t)
      (λ r p. p)
serve-HasTable c (req_getinode devno inum) t =
    IfDone-bind GottenTable _ (get_inode c devno inum) _
      (take_slot-HasTable (λ xp. xp) c devno inum (λ xp p. p) t) (λ r p. p)
serve-HasTable c (req_putinode none) t = t
serve-HasTable c (req_putinode (some slot)) t =
    IfDone-bind HasTable _ (put_inode c slot) _ (put_inode-HasTable c slot t) (λ c1 p. p)
serve-HasTable c (req_flushinode slot) t =
    IfDone-bind HasTable _ (flush_inode c slot) _ (flush_inode-HasTable c slot t) (λ c1 p. p)
serve-HasTable c (req_isbusy devno) t = t
serve-HasTable c req_close t = t

-- The inode that a client puts is in use.
abbrev pub IsHeldSlot : Icache → Req → Type 0
IsHeldSlot c (req_putinode (some slot)) =
    (rip : CacheInode) × (get_elem? c.inodes slot ≡ some rip) × (is_live rip ≡ true)
IsHeldSlot c _ = Unit

-- The states that a cache reaches: by a request that is served, or when a client changes an inode
-- that it has, but neither its numbers nor whether it is in use.
pub data Reaches (c : Icache) : Icache → Type 0 where
  started : Reaches c c
  served :
      (k k' : Icache) (req : Req) (res : Option Res)
      → Reaches c k
      → IsHeldSlot k req
      → serve k req ≡ done (res, k')
      → Reaches c k'
  changed :
      (k : Icache) (slot : ℕ) (rip rip' : CacheInode)
      → Reaches c k
      → get_elem? k.inodes slot ≡ some rip
      → IsSame rip rip'
      → Reaches c (record k { inodes = set k.inodes slot rip' })

Reaches-HasTable : (c k : Icache) → HasTable c → Reaches c k → HasTable k
Reaches-HasTable c m t started = t
Reaches-HasTable c m t (served k k' req res r own e) =
    IfDone-returned (λ (r : Option Res × Icache). HasTable r.1) (serve k req)
      (serve-HasTable k req (Reaches-HasTable c k t r)) e
Reaches-HasTable c m t (changed k slot rip rip' r e same) =
    IsTable-keep k.inodes slot rip rip' (Reaches-HasTable c k t r) e same

blank-is_live :
    (n j : ℕ) (a : CacheInode) → get_elem? (replicate n blank_slot) j ≡ some a → is_live a ≡ false
blank-is_live zero j a e = absurd (omega (arith, get_elem?-bound {A = CacheInode} [] j a e))
blank-is_live (suc n) zero a e = sym (ap is_live (some-injective blank_slot a e))
blank-is_live (suc n) (suc j) a e = blank-is_live n j a e

-- In every state that the inode cache reaches from the one that NewCache returns, when its clients
-- put only inodes that are in use, and change those that they have but for their numbers, no inode
-- is in two slots, and slot 0 is not in use.
pub cache-IsTable :
    (bitmaps : ℕ → Bitmap) (store : Store) (size : ℕ) (k : Icache)
    → Reaches (new_cache bitmaps store size) k
    → IsTable k.inodes
unfolding new_cache
cache-IsTable bitmaps store size k r =
    Reaches-HasTable (new_cache bitmaps store size) k
      (record {
        first_free = λ rip e. blank-is_live size 0 rip e;
        distinct = λ i j a b e f l m is. absurd (false≢true (sym (blank-is_live size i a e) ∙ l));
      })
      r
