-- ===== src/Bcache/Outcome.antt =====
-- GetBlock of a device that is mounted: it returns, with the block, unless all buffers are in use.
use minixfs_old.Base.{
  ℕ, ◌*◌, ◌≡◌, ◌≢◌, refl, sym, subst, ap, ◌∙◌, false, ◌&&◌, Option, none, some, Run, done, ◌>>=◌,
  get_elem?, succ, ℕ_discrete,
}
use minixfs_old.Common.{DeviceInfo, Block}
use minixfs_old.Bcache.{
  Driver, LruBuf, LruCache, modify, rm_lru, unhash, link_next, link_prev, set_next, set_prev,
  set_links, set_b_hash,
}
use minixfs_old.Bcache.Transfer.{
  is_some, new_block, normal, rehash, fill_buf, read_in, load_block, evict_from, evict_block,
}
use minixfs_old.Bcache.Server.{Res, res_block, get_block, get_from, fill}
use minixfs_old.Bcache.Links.{modify_self, modify_ne}
use minixfs_old.Bcache.Hashed.{IsUnhashed, unhash-IsUnhashed}
use minixfs_old.Bcache.Coherent.{IsCoherent, rm_lru-IsCoherent, nr_slots-rm_lru}
use minixfs_old.Bcache.Evict.{IsMissing, BlockEnd, held, missing, find_block-end}

-- A buffer is as another, but for its links.
abbrev pub IsRelinked : LruBuf → LruBuf → Type 0
IsRelinked a b = b ≡ set_b_hash b.b_hash (set_links b.prev b.next a)

IsRelinked-trans : (a b d : LruBuf) → IsRelinked a b → IsRelinked b d → IsRelinked a d
IsRelinked-trans a b d p q =
    q ∙ ap (λ (x : LruBuf). set_b_hash d.b_hash (set_links d.prev d.next x)) p

module _ {Disk : Type 0} (c : LruCache Disk) where
  modify-IsRelinked :
      (g : LruBuf → LruBuf) (i y : ℕ)
      → ((b : LruBuf) → IsRelinked b (g b))
      → IsRelinked (c.buf y) (modify g c.buf i y)
  modify-IsRelinked g i y keeps = elim (ℕ_discrete y i) [
    | yes e ↦ rw (e, modify_self g c.buf i) (keeps (c.buf i))
    | no ne ↦ rw (modify_ne g c.buf i y ne) refl
  ]

  link_next-IsRelinked : (o p : Option ℕ) (y : ℕ) → IsRelinked (c.buf y) ((link_next o p c).buf y)
  link_next-IsRelinked none p y = refl
  link_next-IsRelinked (some x) p y = modify-IsRelinked (set_next p) x y (λ b. refl)

  link_prev-IsRelinked : (o p : Option ℕ) (y : ℕ) → IsRelinked (c.buf y) ((link_prev o p c).buf y)
  link_prev-IsRelinked none p y = refl
  link_prev-IsRelinked (some x) p y = modify-IsRelinked (set_prev p) x y (λ b. refl)

  -- The devices and their geometry
  abbrev Mounts : LruCache Disk → Type 0
  Mounts d = (d.devs ≡ c.devs) × (d.devinfo ≡ c.devinfo)

  link_next-Mounts : (o p : Option ℕ) → Mounts (link_next o p c)
  link_next-Mounts none p = (refl, refl)
  link_next-Mounts (some x) p = (refl, refl)

  link_prev-Mounts : (o p : Option ℕ) → Mounts (link_prev o p c)
  link_prev-Mounts none p = (refl, refl)
  link_prev-Mounts (some x) p = (refl, refl)

module _ {Disk : Type 0} (c : LruCache Disk) (x : ℕ) where
  rm_lru-IsRelinked : (y : ℕ) → IsRelinked (c.buf y) ((rm_lru x c).buf y)
  unfolding rm_lru
  rm_lru-IsRelinked y =
      let linked = link_next (c.buf x).prev (c.buf x).next c in
      IsRelinked-trans (c.buf y) (linked.buf y) ((rm_lru x c).buf y)
        (link_next-IsRelinked c (c.buf x).prev (c.buf x).next y)
        (link_prev-IsRelinked linked (c.buf x).next (c.buf x).prev y)

  rm_lru-Mounts : Mounts c (rm_lru x c)
  unfolding rm_lru
  rm_lru-Mounts =
      let linked = link_next (c.buf x).prev (c.buf x).next c in
      let (a, b) = link_next-Mounts c (c.buf x).prev (c.buf x).next in
      let (a', b') = link_prev-Mounts linked (c.buf x).next (c.buf x).prev in (a' ∙ a, b' ∙ b)

-- How GetBlock ends: the buffer that has the block, with nothing changed; or no buffer is free, or
-- the first of the free ones has taken what the device reads, and no other has changed but for its
-- links.
pub data GetEnd {Disk : Type 0} (v : Driver Disk) (c : LruCache Disk) (dev bnum pos : ℕ)
    (disk : Disk) (b : Block) : Run (Res × LruCache Disk) → Type 0 where
  in_cache :
      (x : ℕ)
      → (c.buf x).devno ≡ some dev
      → (c.buf x).blockno ≡ bnum
      → GetEnd v c dev bnum pos disk b (done (res_block (some x), c))
  all_in_use :
      IsMissing c dev bnum
      → c.front ≡ none
      → GetEnd v c dev bnum pos disk b (done (res_block none, c))
  loaded :
      (x : ℕ) (c' : LruCache Disk)
      → IsMissing c dev bnum
      → c.front ≡ some x
      → (c'.buf x).block ≡ some (v.read disk b pos).0
      → (c'.buf x).devno ≡ some dev
      → (c'.buf x).blockno ≡ bnum
      → (c'.buf x).count ≡ succ (c.buf x).count
      → ((y : ℕ) → y ≢ x → IsRelinked (c.buf y) (c'.buf y))
      → GetEnd v c dev bnum pos disk b (done (res_block (some x), c'))

module _ {Disk : Type 0} (v : Driver Disk) (dev bnum btype : ℕ) (info : DeviceInfo) (disk : Disk)
    (b : Block) where
  abbrev filled_in : ℕ → LruCache Disk → LruCache Disk
  filled_in x c =
      let k = rehash x (some dev) bnum b c in
      record k {
        buf =
            modify (λ x. record x { block = some (v.read disk b (info.blocksize * bnum)).0 }) k.buf
              x;
      }

  load_block-eq :
      (x : ℕ) (c : LruCache Disk)
      → get_elem? c.devinfo dev ≡ some info
      → get_elem? c.devs dev ≡ some (some disk)
      → new_block btype info.blocksize ≡ some b
      → load_block v x (some dev) bnum btype normal c
        ≡ done ((v.read disk b (info.blocksize * bnum)).1, filled_in x c)
  unfolding load_block read_in rehash
  load_block-eq x c at_info at_disk new = rw (at_info, ◌>>=◌, new, at_disk) refl

  filled_in_self :
      (x : ℕ) (c : LruCache Disk)
      → (h : Option ℕ) × ((filled_in x c).buf x
          ≡ fill_buf (some dev) bnum (v.read disk b (info.blocksize * bnum)).0 h (c.buf x))
  unfolding rehash
  filled_in_self x c = (
    _,
    modify_self (λ x. record x { block = some (v.read disk b (info.blocksize * bnum)).0 })
          (modify (fill_buf (some dev) bnum b _) c.buf x) x
        ∙ ap (λ (x : LruBuf). record x { block = some (v.read disk b (info.blocksize * bnum)).0 })
            (modify_self (fill_buf (some dev) bnum b _) c.buf x),
  )

  filled_in_other : (x y : ℕ) (c : LruCache Disk) → y ≢ x → (filled_in x c).buf y ≡ c.buf y
  unfolding rehash
  filled_in_other x y c ne =
      modify_ne (λ x. record x { block = some (v.read disk b (info.blocksize * bnum)).0 })
        (modify (fill_buf (some dev) bnum b _) c.buf x) x y ne
      ∙ modify_ne (fill_buf (some dev) bnum b _) c.buf x y ne

module _ {Disk : Type 0} (v : Driver Disk) (c : LruCache Disk) (k : IsCoherent c) where
  -- GetBlock in mode NORMAL of a cache in order, of a block of a device that is mounted, by one of
  -- the block types, when the first free buffer has no dirty block of a device, returns: the buffer
  -- that has the block, with nothing changed; or, if no buffer has it, LRU_ALLINUSE when no buffer
  -- is free, with nothing changed; or the first free buffer, which has one client more and the
  -- block as the device reads it into a new block, and no other buffer has changed but for its
  -- links.
  pub get_block_outcome :
      (dev bnum btype : ℕ) (info : DeviceInfo) (disk : Disk) (b : Block)
      → get_elem? c.devinfo dev ≡ some info
      → get_elem? c.devs dev ≡ some (some disk)
      → new_block btype info.blocksize ≡ some b
      → ((x : ℕ) → c.front ≡ some x → (is_some (c.buf x).devno && (c.buf x).dirty) ≡ false)
      → GetEnd v c dev bnum
          (info.blocksize * bnum)
          disk
          b
          (get_block v (some dev) bnum btype normal c)
  unfolding get_block evict_block
  get_block_outcome dev bnum btype info disk b at_info at_disk new clean =
      finish (find_block-end c k dev bnum)
    where
      pos : ℕ
      pos = info.blocksize * bnum

      taken :
          (x : ℕ) (k1 : IsCoherent (rm_lru x c))
          → IsMissing c dev bnum
          → c.front ≡ some x
          → (c' : LruCache Disk) × (unhash (rm_lru x c) x ≡ done c')
            × IsUnhashed (rm_lru x c) k1.chains x c'
          → GetEnd v c dev bnum pos disk b
              (evict_from v (some x) c >>= λ (bp, k). fill v (some dev) bnum btype normal bp k)
      taken x k1 gone at (c', e, u) =
          let as_before = λ (y : ℕ).
            IsRelinked-trans (c.buf y) ((rm_lru x c).buf y) (c'.buf y) (rm_lru-IsRelinked c x y)
              (subst (λ t. IsRelinked ((rm_lru x c).buf y) t) (sym (u.same_bufs y)) refl) in
          let (devs, devinfo) = rm_lru-Mounts c x in
          let (h, here) = filled_in_self v dev bnum btype info disk b x c' in
          rw
            (
              e,
              ap (λ (b : LruBuf). is_some b.devno && b.dirty) (as_before x) ∙ clean x at,
              load_block-eq v dev bnum btype info disk b x c'
                  (ap (λ (d : LruCache Disk). get_elem? d.devinfo dev) u.same_rest
                    ∙ ap (λ l. get_elem? l dev) devinfo
                    ∙ at_info)
                  (ap (λ (d : LruCache Disk). get_elem? d.devs dev) u.same_rest
                    ∙ ap (λ l. get_elem? l dev) devs
                    ∙ at_disk)
                  new,
            )
            (loaded x (filled_in v dev bnum btype info disk b x c') gone at
              (ap (λ (b : LruBuf). b.block) here) (ap (λ (b : LruBuf). b.devno) here)
              (ap (λ (b : LruBuf). b.blockno) here)
              (ap (λ (b : LruBuf). b.count) here ∙ ap (λ (b : LruBuf). succ b.count) (as_before x))
              (λ y ne. rw (filled_in_other v dev bnum btype info disk b x y c' ne) (as_before y)))

      from_front :
          (o : Option ℕ)
          → IsMissing c dev bnum
          → c.front ≡ o
          → GetEnd v c dev bnum pos disk b
              (evict_from v o c >>= λ (bp, k). fill v (some dev) bnum btype normal bp k)
      from_front none gone at = all_in_use gone at
      from_front (some x) gone at =
          let k1 = rm_lru-IsCoherent c k x in
          taken x k1 gone at (
            unhash-IsUnhashed (rm_lru x c) k1.chains x k1.hashed
              (rw (nr_slots-rm_lru c x) (k.front_in x at)))

      finish :
          {r : Option ℕ}
          → BlockEnd c dev bnum r
          → GetEnd v c dev bnum pos disk b (get_from v (some dev) bnum btype normal r c)
      finish (held x below on same) = in_cache x on same
      finish (missing gone) = from_front c.front gone refl
