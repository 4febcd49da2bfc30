-- ===== src/Bitmap/Inodes.antt =====
-- AllocInode and FreeInode.
use minixfs_old.Base.{
  ℕ, ◌<◌, ◌≡◌, refl, ◌∙◌, ◌≢◌, Bool, true, false, Option, none, some, arith, leb, ltb, lt→leb,
  le→ltb, ◌==◌, ◌||◌, Bool-cases, inl, inr, ne→==, if◌then◌else◌, Run, done, panic, ◌>>=◌,
}
use minixfs_old.Common.{Which, imap, zmap, no_bit, Errno, enfile, Store}
use minixfs_old.Bitmap.{State, map_bits, check_bit, alloc_inode, free_inode}
use minixfs_old.Bitmap.Search.{IsMapped}
use minixfs_old.Bitmap.Bits.{IsInside}
use minixfs_old.Bitmap.Alloc.{Allocated, IsCovered-of_small, IsInside-of_covered}
use minixfs_old.Bitmap.Outcome.{AllocOutcome, allocated, exhausted, alloc_bit_outcome}
use minixfs_old.Bitmap.Free.{FreeOutcome, freed, refused, free_bit_outcome}
use minixfs_old.Bitmap.Server.{
  IsWellFormed, IsZone, IsInum, zone_taken, inode_taken, check_bit-with_search,
  free_bit-with_search, IsWellFormed-with_search,
}
use native.Mathlib.Nat.{zero-div}

-- A request has set inode i's bit to v, left every other inode and every zone as it was, and kept
-- the invariant.
pub record InodeSet (s : State) (i : ℕ) (v : Bool) (s' : State) : Type 0 where
  pub device : s'.bmap.devinfo ≡ s.bmap.devinfo
  pub now : inode_taken s' i ≡ done v
  pub others : (j : ℕ) → IsInum s.bmap j → j ≢ i → inode_taken s' j ≡ inode_taken s j
  pub zones : (z : ℕ) → IsZone s.bmap z → zone_taken s' z ≡ zone_taken s z
  pub valid : IsWellFormed s'.bmap s'.store

-- The two ways in which AllocInode returns.
pub data AllocInode (s : State) : Run (Option ℕ × Option Errno × State) → Type 0 where
  granted :
      (i : ℕ) (s' : State)
      → IsInum s.bmap i
      → inode_taken s i ≡ done false
      → InodeSet s i true s'
      → (t : State) × (free_inode s' i ≡ done t) × (t.store ≡ s.store)
      → AllocInode s (done (some i, none, s'))
  no_inodes :
      ((i : ℕ) → IsInum s.bmap i → inode_taken s i ≡ done true)
      → AllocInode s (done (none, some enfile, s))

-- The three ways in which FreeInode ends.
pub data FreeInode (s : State) (i : ℕ) : Run State → Type 0 where
  freed_inode :
      (s' : State)
      → IsInum s.bmap i
      → inode_taken s i ≡ done true
      → InodeSet s i false s'
      → FreeInode s i (done s')
  ignored : ¬ IsInum s.bmap i → FreeInode s i (done s)
  already_free : IsInum s.bmap i → inode_taken s i ≡ done false → FreeInode s i panic

module _ (s : State) (v : IsWellFormed s.bmap s.store) where
  inside : (w : Which) (b : ℕ) → b < map_bits s.bmap w → IsInside s.bmap w b
  inside w b p =
      IsInside-of_covered s.bmap v.geometry w b (IsCovered-of_small s.bmap v.geometry w (v.small w))
        p

  -- A change of one bit of the inode map.
  set_inode :
      (i : ℕ) (value : Bool) (st' : Store) (hint : ℕ)
      → IsInum s.bmap i
      → check_bit s.bmap imap i st' ≡ done value
      → ((j : ℕ)
          → j < map_bits s.bmap imap
          → j ≢ i
          → check_bit s.bmap imap j st' ≡ check_bit s.bmap imap j s.store)
      → ((j : ℕ)
          → IsInside s.bmap zmap j
          → check_bit s.bmap zmap j st' ≡ check_bit s.bmap zmap j s.store)
      → ((w : Which) → IsMapped s.bmap w s.store → IsMapped s.bmap w st')
      → InodeSet s i value (record { bmap = record (s.bmap) { i_search = hint }; store = st' })
  set_inode i value st' hint inum now others apart mapped = record {
    device = refl;
    now = check_bit-with_search s.bmap hint s.bmap.z_search imap i st' ∙ now;
    others = λ j p ne.
        check_bit-with_search s.bmap hint s.bmap.z_search imap j st' ∙ others j (omega arith) ne;
    zones = λ z p.
        check_bit-with_search s.bmap hint s.bmap.z_search zmap _ st'
        ∙ apart _ (inside zmap _ (omega (arith, v.geometry.first_zone)));
    valid = IsWellFormed-with_search s.bmap hint s.bmap.z_search st' (record {
      geometry = v.geometry;
      small = v.small;
      mapped = λ w. mapped w (v.mapped w);
      reserved = reserved;
    });
  }
    where
      reserved : (w : Which) → check_bit s.bmap w 0 st' ≡ done true
      reserved imap = others 0 (omega arith) (omega arith) ∙ v.reserved imap
      reserved zmap =
          apart 0 (omega (arith, v.geometry.zmaps, zero-div s.bmap.bitchunks_per_block))
          ∙ v.reserved zmap

  freed_again :
      (b : ℕ) (st' : Store) (hint : ℕ)
      → IsInum s.bmap b
      → Allocated s.bmap imap s.store b st'
      → (t : State) × (free_inode
            (record { bmap = record (s.bmap) { i_search = hint }; store = st' })
            b
          ≡ done t)
        × (t.store ≡ s.store)
  unfolding free_inode
  freed_again b st' hint inum a = (
    record {
      bmap = record (s.bmap) { i_search = if ltb b hint then b else hint };
      store = s.store;
    },
    rw (
      lt→leb b 0 (inum.0),
      le→ltb s.bmap.devinfo.inodes b (inum.1),
      free_bit-with_search s.bmap hint s.bmap.z_search imap b st',
      a.restored,
    ),
    refl,
  )

  granted_inode :
      (b : ℕ) (st' : Store) (hint : ℕ)
      → b ≢ no_bit
      → Allocated s.bmap imap s.store b st'
      → AllocInode s
          (done (some b, none, record { bmap = record (s.bmap) { i_search = hint }; store = st' }))
  granted_inode b st' hint live a =
      let inum : IsInum s.bmap b = omega (arith, a.in_map) in
      granted b _ inum a.was_clear
        (set_inode b true st' hint inum a.now_set a.others a.apart a.mapped)
        (freed_again b st' hint inum a)

  -- AllocInode on a valid allocator returns: an inode number of the device that was free and is now
  -- taken, no other inode and no zone changed, or ENFILE with nothing changed and every inode
  -- taken. Freeing the inode again would restore the store.
  pub alloc_inode_outcome : AllocInode s (alloc_inode s)
  unfolding alloc_inode
  alloc_inode_outcome = finish (
      alloc_bit_outcome s.bmap v.geometry imap (v.small imap) s.store (v.mapped imap)
        (v.reserved imap) s.bmap.i_search)
    where
      finish :
          {r : Run (ℕ × Store)}
          → AllocOutcome s.bmap imap s.store r
          → AllocInode s (
              r >>= λ (b, st).
              if b == no_bit
              then done (none, some enfile, record s { store = st })
              else done
                  (some b, none, record { bmap = record (s.bmap) { i_search = b }; store = st }))
      finish (allocated b st' live a) = rw (ne→== b no_bit live) (granted_inode b st' b live a)
      finish (exhausted full) = no_inodes (λ i p. full i (omega arith))

  -- The ways in which FreeInode ends on a valid allocator: the inode's bit is cleared, the number
  -- is no inode of the device and nothing changes, or the inode is free already and the server
  -- panics.
  pub free_inode_outcome : (i : ℕ) → FreeInode s i (free_inode s i)
  unfolding free_inode
  free_inode_outcome i = elim (Bool-cases (leb i 0 || ltb s.bmap.devinfo.inodes i)) [
    | inl out ↦ rw out (ignored (λ p. cc (guard_of p out)))
    | inr ok ↦
        let inum : IsInum s.bmap i = ground arith in
        rw ok (
          finish inum (
            free_bit_outcome s.bmap v.geometry imap s.store (v.mapped imap) i
              (inside imap i (omega arith))))
  ]
    where
      guard_of : IsInum s.bmap i → (leb i 0 || ltb s.bmap.devinfo.inodes i) ≡ true → true ≡ false
      guard_of p e = ground arith

      finish :
          {r : Run Store}
          → IsInum s.bmap i
          → FreeOutcome s.bmap imap s.store i r
          → FreeInode s i (
              r >>= λ st. done (record {
                bmap = record (s.bmap) {
                  i_search = if ltb i s.bmap.i_search then i else s.bmap.i_search;
                };
                store = st;
              }))
      finish inum (freed st' taken f) = freed_inode _ inum taken (
          set_inode i false st' _ inum f.now_clear (λ j p. f.others j (inside imap j p)) f.apart
            f.mapped)
      finish inum (refused free) = already_free inum free
