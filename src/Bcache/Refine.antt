-- ===== src/Bcache/Refine.antt =====
-- The block cache implements a queue of free buffers: a block that is not in the cache takes the
-- first, and a buffer that is put back by its last client becomes the last, or the first if its
-- block is not likely to be needed again.
use Prim.Native.Nat.{bit_and}
use minixfs_old.Base.{
  ℕ, ◌<◌, ◌≡◌, refl, sym, subst, ap, Bool, true, false, Option, none, some, List, [], ◌∷◌, ◌++◌,
  done, panic, ◌>>=◌, or_panic, get_elem?, ltb, leb, ◌&&◌, if◌then◌else◌, pred, is_positive,
  IsNotIn, IfDone, IfDone-bind, IfDone-then, IfDone-if,
}
use minixfs_old.Common.{DeviceInfo}
use minixfs_old.Bcache.{
  Driver, LruBuf, LruCache, modify, find_block, put_front, put_rear, rm_lru, unhash,
}
use minixfs_old.Bcache.Transfer.{
  put_block, write_put, invalidate, mount_at, mount_device, unmount_device, flush, evict_block,
  evict_from, flush_evicted, load_block, same_device, nr_bufs, one_shot,
}
use minixfs_old.Bcache.Server.{
  Req, req_mount, req_unmount, req_get, req_put, req_invalidate, req_flush, req_close, Res,
  res_block, serve, get_block, get_from, fill,
}
use minixfs_old.Bcache.Links.{head?, IsLru, modify_self}
use minixfs_old.Bcache.Lru.{rm_lru-IsLru, put_front-IsLru, put_rear-IsLru}
use minixfs_old.Bcache.Frame.{AsBefore, IsLru-frame, modify-IsLru, devs-IsLru, load_block-IsLru}
use minixfs_old.Bcache.Trace.{forget}
use minixfs_old.Bcache.Keeps.{flush-keeps, flush_evicted-keeps, write_put-keeps}
use minixfs_old.Bcache.Hashed.{IsUnhashed, unhash-IsUnhashed}
use minixfs_old.Bcache.Coherent.{IsCoherent, rm_lru-IsCoherent, nr_slots-rm_lru}

-- The free buffers after a buffer is put back
abbrev pub after_put : Bool → ℕ → ℕ → List ℕ → List ℕ
after_put still_held btype x xs =
    if still_held then xs else if ltb 0 (bit_and btype one_shot) then x ∷ xs else xs ++ (x ∷ [])

-- The buffer that a get request has for an answer, given what the search finds, and the free
-- buffers after it
abbrev pub after_get : Option ℕ → List ℕ → Option ℕ × List ℕ
after_get (some x) xs = (some x, xs)
after_get none [] = (none, [])
after_get none (x ∷ xs) = (some x, xs)

-- What the queue of free buffers promises of a request
abbrev pub IsQueued :
    {Disk : Type 0} → LruCache Disk → List ℕ → Req Disk → Res × LruCache Disk → Type 0
IsQueued c xs (req_get dev bnum btype only_search) r =
    (r.0 ≡ res_block (after_get (find_block c dev bnum) xs).0)
    × IsLru r.1 (after_get (find_block c dev bnum) xs).1
IsQueued c xs (req_put (some x) btype) r =
    IsLru r.1 (after_put (is_positive (pred (c.buf x).count)) btype x xs)
IsQueued c xs _ r = IsLru r.1 xs

-- A buffer that a client puts back is not free.
abbrev pub IsHeld : {Disk : Type 0} → List ℕ → Req Disk → Type 0
IsHeld xs (req_put (some x) btype) = IsNotIn x xs
IsHeld xs _ = Unit

module _ {Disk : Type 0} (v : Driver Disk) (c : LruCache Disk) (k : IsCoherent c) where
  unhash-IsLru :
      (x : ℕ) (xs : List ℕ) (c' : LruCache Disk)
      → IsUnhashed c k.chains x c'
      → IsLru c xs
      → IsLru c' xs
  unhash-IsLru x xs c' u l =
      IsLru-frame c c' xs (ap (λ (d : LruCache Disk). d.front) u.same_rest)
        (ap (λ (d : LruCache Disk). d.rear) u.same_rest)
        (λ y. (
          ap (λ (b : LruBuf). b.prev) (u.same_bufs y),
          ap (λ (b : LruBuf). b.next) (u.same_bufs y),
        ))
        l

module _ {Disk : Type 0} (v : Driver Disk) (c : LruCache Disk) (k : IsCoherent c) where
  put-IsLru :
      (x btype : ℕ) (xs : List ℕ)
      → IsLru c xs
      → IsNotIn x xs
      → IfDone
          (AsBefore v (after_put (is_positive (pred (c.buf x).count)) btype x xs))
          (put_block v (some x) btype c)
  unfolding put_block
  put-IsLru x btype xs l out =
      rw (modify_self (λ b. record b { count = pred b.count }) c.buf x)
        (by_count (is_positive (pred (c.buf x).count)))
    where
      counted : LruCache Disk
      counted = record c { buf = modify (λ b. record b { count = pred b.count }) c.buf x }

      l' : IsLru counted xs
      l' = modify-IsLru c xs l (λ b. record b { count = pred b.count }) x (λ b. (refl, refl))

      linked :
          (ys : List ℕ) (d : LruCache Disk)
          → IsLru d ys
          → IfDone (AsBefore v ys) (write_put v x btype d)
      linked ys d i =
          write_put-keeps v (λ c. IsLru c ys) (λ c d i e. devs-IsLru c ys e d i) x btype d i

      by_end :
          (b : Bool)
          → IfDone (AsBefore v (if b then x ∷ xs else xs ++ (x ∷ []))) (
              if b
              then write_put v x btype (put_front x counted)
              else write_put v x btype (put_rear x counted))
      by_end true = linked (x ∷ xs) (put_front x counted) (put_front-IsLru counted x xs out l')
      by_end false =
          linked (xs ++ (x ∷ [])) (put_rear x counted) (put_rear-IsLru counted x xs out l')

      by_count :
          (b : Bool)
          → IfDone (AsBefore v (after_put b btype x xs)) (
              if b
              then done (false, counted)
              else if ltb 0 (bit_and btype one_shot)
              then write_put v x btype (put_front x counted)
              else write_put v x btype (put_rear x counted))
      by_count true = l'
      by_count false = by_end (ltb 0 (bit_and btype one_shot))

  evict-IsLru :
      (x : ℕ) (xs : List ℕ)
      → IsLru c (x ∷ xs)
      → x < c.nr_slots
      → IfDone
          (λ (r : Option ℕ × LruCache Disk). (r.0 ≡ some x) × IsLru r.1 xs)
          (evict_from v (some x) c)
  evict-IsLru x xs l below =
      let k1 = rm_lru-IsCoherent c k x in
      taken k1
        (unhash-IsUnhashed (rm_lru x c) k1.chains x k1.hashed (rw (nr_slots-rm_lru c x) below))
    where
      taken :
          (k1 : IsCoherent (rm_lru x c))
          → (c' : LruCache Disk) × (unhash (rm_lru x c) x ≡ done c')
            × IsUnhashed (rm_lru x c) k1.chains x c'
          → IfDone
              (λ (r : Option ℕ × LruCache Disk). (r.0 ≡ some x) × IsLru r.1 xs)
              (evict_from v (some x) c)
      taken k1 (c', e, u) = rw e (
          IfDone-bind (λ (d : LruCache Disk). IsLru d xs) _ (flush_evicted v x c') _
            (flush_evicted-keeps v (λ (d : LruCache Disk). IsLru d xs)
              (λ d i j p. devs-IsLru d xs p i j) x c'
              (unhash-IsLru v (rm_lru x c) k1 x xs c' u (rm_lru-IsLru c x xs l)))
            (λ d i. (refl, i)))

links-forget : (b : LruBuf) (t : Bool) → ((forget t b).prev ≡ b.prev) × ((forget t b).next ≡ b.next)
links-forget b true = (refl, refl)
links-forget b false = (refl, refl)

module _ {Disk : Type 0} (v : Driver Disk) (c : LruCache Disk) (k : IsCoherent c) where
  get-IsLru :
      (dev : Option ℕ) (bnum btype only_search : ℕ) (xs : List ℕ)
      → IsLru c xs
      → IfDone
          (IsQueued c xs (req_get dev bnum btype only_search))
          (get_block v dev bnum btype only_search c)
  unfolding get_block evict_block head?
  get-IsLru dev bnum btype only_search xs l = by_search (find_block c dev bnum) xs l
    where
      Answer : Option ℕ → List ℕ → Res × LruCache Disk → Type 0
      Answer o xs r = (r.0 ≡ res_block (after_get o xs).0) × IsLru r.1 (after_get o xs).1

      filled :
          (x : ℕ) (ys : List ℕ) (r : Option ℕ × LruCache Disk)
          → (r.0 ≡ some x) × IsLru r.1 ys
          → IfDone (Answer none (x ∷ ys)) (fill v dev bnum btype only_search r.0 r.1)
      filled x ys (o, d) (e, i) = rw e (
          IfDone-bind (AsBefore v ys) (Answer none (x ∷ ys))
            (load_block v x dev bnum btype only_search d) _
            (load_block-IsLru v ys d x dev bnum btype only_search i) (λ r p. (refl, p)))

      by_search :
          (o : Option ℕ) (xs : List ℕ)
          → IsLru c xs
          → IfDone (Answer o xs) (get_from v dev bnum btype only_search o c)
      by_search (some x) xs l = (refl, l)
      by_search none [] l =
          subst
            (λ o.
              IfDone (Answer none [])
                (evict_from v o c >>= λ (bp, k). fill v dev bnum btype only_search bp k))
            (sym l.at_front) (refl, l)
      by_search none (x ∷ ys) l =
          let below = k.front_in x l.at_front in
          subst
            (λ o.
              IfDone (Answer none (x ∷ ys))
                (evict_from v o c >>= λ (bp, k). fill v dev bnum btype only_search bp k))
            (sym l.at_front)
            (IfDone-bind _ (Answer none (x ∷ ys)) (evict_from v (some x) c) _
              (evict-IsLru v c k x ys l below) (filled x ys))

  -- The block cache, in order and with its LRU chain a list of buffers, implements a queue of free
  -- buffers. A get request that returns has the buffer that the search finds, with the list as it
  -- was; or else the first of the list, which leaves it, or none if it is empty. A put of a buffer
  -- that is not in the list leaves the list as it was if the buffer has clients still, and
  -- otherwise adds it in front for ONE_SHOT, and at the end if not. No other request changes the
  -- list.
  pub serve-IsLru :
      (req : Req Disk) (xs : List ℕ)
      → IsLru c xs
      → IsHeld xs req
      → IfDone (IsQueued c xs req) (serve v req c)
  unfolding serve put_block mount_device unmount_device invalidate
  serve-IsLru (req_mount devno dev info) xs l out =
      IfDone-bind (AsBefore v xs) _ (mount_device devno dev info c) _
        (IfDone-then (AsBefore v xs) (or_panic (get_elem? c.devs devno)) _
          (mounted devno dev info xs l))
        (λ r p. p)
    where
      mounted :
          (devno : ℕ) (dev : Disk) (info : DeviceInfo) (xs : List ℕ)
          → IsLru c xs
          → (slot : Option Disk) → IfDone (AsBefore v xs) (mount_at devno dev info c slot)
      mounted devno dev info xs l (some busy) = l
      mounted devno dev info xs l none = devs-IsLru c xs l _ _
  serve-IsLru (req_unmount dev) xs l out =
      IfDone-bind (λ (d : LruCache Disk). IsLru d xs) _ (unmount_device dev c) _
        (IfDone-then (λ (d : LruCache Disk). IsLru d xs) (or_panic (get_elem? c.devs dev)) _
          (λ slot. devs-IsLru c xs l _ c.devinfo))
        (λ d p. p)
  serve-IsLru (req_get dev bnum btype only_search) xs l out =
      get-IsLru dev bnum btype only_search xs l
  serve-IsLru (req_put none btype) xs l out = l
  serve-IsLru (req_put (some x) btype) xs l out =
      let ys = after_put (is_positive (pred (c.buf x).count)) btype x xs in
      IfDone-bind (AsBefore v ys) _ (put_block v (some x) btype c) _
        (put-IsLru v c k x btype xs l out) (λ r p. p)
  serve-IsLru (req_invalidate dev) xs l out =
      IfDone-bind (λ (d : LruCache Disk). IsLru d xs) _ (invalidate dev c) _
        (IfDone-if (λ (d : LruCache Disk). IsLru d xs) (leb nr_bufs c.nr_slots) _ panic
          (IsLru-frame c _ xs refl refl
            (λ y. links-forget (c.buf y) (ltb y nr_bufs && same_device (c.buf y).devno dev)) l)
          tt)
        (λ d p. p)
  serve-IsLru (req_flush dev) xs l out =
      IfDone-bind (λ (d : LruCache Disk). IsLru d xs) _ (flush v dev c) _
        (flush-keeps v (λ (d : LruCache Disk). IsLru d xs) (λ d i j p. devs-IsLru d xs p i j) dev c
          l)
        (λ d p. p)
  serve-IsLru req_close xs l out = l
