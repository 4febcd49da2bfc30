-- ===== src/Bitmap/Zones.antt =====
-- AllocZone and FreeZone.
use minixfs_old.Base.{
  ℕ, ◌+◌, ◌-◌, ◌<◌, ◌≡◌, refl, ◌∙◌, ◌≢◌, Bool, true, false, Option, none, some, arith, leb, ltb,
  le→ltb, lt→leb, ◌==◌, ◌||◌, Bool-cases, inl, inr, ne→==, if◌then◌else◌, Run, done, panic, ◌>>=◌,
}
use minixfs_old.Common.{Which, imap, zmap, no_zone, no_bit, Errno, enospc, Store}
use minixfs_old.Bitmap.{State, map_bits, check_bit, lower_search, alloc_zone, free_zone}
use minixfs_old.Bitmap.Bits.{IsInside}
use minixfs_old.Bitmap.Search.{IsMapped}
use minixfs_old.Bitmap.Alloc.{Allocated, IsCovered-of_small, IsInside-of_covered}
use minixfs_old.Bitmap.Outcome.{AllocOutcome, allocated, exhausted, alloc_bit_outcome}
use minixfs_old.Bitmap.Free.{FreeOutcome, freed, refused, free_bit_outcome}
use minixfs_old.Bitmap.Server.{
  IsWellFormed, IsZone, IsInum, zone_taken, inode_taken, check_bit-with_search,
  free_bit-with_search, IsWellFormed-with_search,
}

-- A request has set zone z's bit to v, left every other zone and every inode as it was, and kept
-- the invariant.
pub record ZoneSet (s : State) (z : ℕ) (v : Bool) (s' : State) : Type 0 where
  pub device : s'.bmap.devinfo ≡ s.bmap.devinfo
  pub now : zone_taken s' z ≡ done v
  pub others : (y : ℕ) → IsZone s.bmap y → y ≢ z → zone_taken s' y ≡ zone_taken s y
  pub inodes : (i : ℕ) → IsInum s.bmap i → inode_taken s' i ≡ inode_taken s i
  pub valid : IsWellFormed s'.bmap s'.store

-- The two ways in which AllocZone returns.
pub data AllocZone (s : State) : Run (ℕ × Option Errno × State) → Type 0 where
  granted :
      (z : ℕ) (s' : State)
      → IsZone s.bmap z
      → zone_taken s z ≡ done false
      → ZoneSet s z true s'
      → (t : State) × (free_zone s' z ≡ done t) × (t.store ≡ s.store)
      → AllocZone s (done (z, none, s'))
  no_space :
      ((z : ℕ) → IsZone s.bmap z → zone_taken s z ≡ done true)
      → AllocZone s (done (no_zone, some enospc, s))

-- The three ways in which FreeZone ends.
pub data FreeZone (s : State) (z : ℕ) : Run State → Type 0 where
  freed_zone :
      (s' : State)
      → IsZone s.bmap z
      → zone_taken s z ≡ done true
      → ZoneSet s z false s'
      → FreeZone s z (done s')
  ignored : ¬ IsZone s.bmap z → FreeZone s z (done s)
  already_free : IsZone s.bmap z → zone_taken s z ≡ done false → FreeZone s z panic

module _ (s : State) (v : IsWellFormed s.bmap s.store) where
  inside : (w : Which) (b : ℕ) → b < map_bits s.bmap w → IsInside s.bmap w b
  inside w b p =
      IsInside-of_covered s.bmap v.geometry w b (IsCovered-of_small s.bmap v.geometry w (v.small w))
        p

  zone_bit-lt :
      (y : ℕ) → IsZone s.bmap y → y + 1 - s.bmap.devinfo.firstdatazone < map_bits s.bmap zmap
  zone_bit-lt y p = omega (arith, v.geometry.first_zone)

  -- A change of one bit of the zone map.
  set_zone :
      (z b : ℕ) (value : Bool) (st' : Store) (hint : ℕ)
      → IsZone s.bmap z
      → b ≡ z + 1 - s.bmap.devinfo.firstdatazone
      → check_bit s.bmap zmap b st' ≡ done value
      → ((j : ℕ)
          → j < map_bits s.bmap zmap
          → j ≢ b
          → check_bit s.bmap zmap j st' ≡ check_bit s.bmap zmap j s.store)
      → ((j : ℕ)
          → IsInside s.bmap imap j
          → check_bit s.bmap imap j st' ≡ check_bit s.bmap imap j s.store)
      → ((w : Which) → IsMapped s.bmap w s.store → IsMapped s.bmap w st')
      → ZoneSet s z value (record { bmap = record (s.bmap) { z_search = hint }; store = st' })
  set_zone z b value st' hint zone bit now others apart mapped = record {
    device = refl;
    now = check_bit-with_search s.bmap s.bmap.i_search hint zmap _ st' ∙ rw (← bit) now;
    others = λ y p ne.
        check_bit-with_search s.bmap s.bmap.i_search hint zmap _ st'
        ∙ others _ (zone_bit-lt y p) (omega arith);
    inodes = λ i p.
        check_bit-with_search s.bmap s.bmap.i_search hint imap i st'
        ∙ apart i (inside imap i (omega arith));
    valid = IsWellFormed-with_search s.bmap s.bmap.i_search hint st' (record {
      geometry = v.geometry;
      small = v.small;
      mapped = λ w. mapped w (v.mapped w);
      reserved = reserved;
    });
  }
    where
      reserved : (w : Which) → check_bit s.bmap w 0 st' ≡ done true
      reserved imap = apart 0 (inside imap 0 (omega arith)) ∙ v.reserved imap
      reserved zmap = others 0 (omega arith) (omega arith) ∙ v.reserved zmap

  freed_again :
      (b z : ℕ) (st' : Store) (hint : ℕ)
      → b ≡ z + 1 - s.bmap.devinfo.firstdatazone
      → IsZone s.bmap z
      → Allocated s.bmap zmap s.store b st'
      → (t : State) × (free_zone
            (record { bmap = record (s.bmap) { z_search = hint }; store = st' })
            z
          ≡ done t)
        × (t.store ≡ s.store)
  unfolding free_zone
  freed_again b z st' hint bit zone a = (
    record { bmap = record (s.bmap) { z_search = lower_search b hint }; store = s.store },
    rw (
      le→ltb z s.bmap.devinfo.firstdatazone (zone.0),
      lt→leb s.bmap.devinfo.zones z (zone.1),
      ← bit,
      free_bit-with_search s.bmap s.bmap.i_search hint zmap b st',
      a.restored,
    ),
    refl,
  )

  granted_zone :
      (b : ℕ) (st' : Store) (hint : ℕ)
      → b ≢ no_bit
      → Allocated s.bmap zmap s.store b st'
      → AllocZone s (
          done (
            s.bmap.devinfo.firstdatazone + b - 1,
            none,
            record { bmap = record (s.bmap) { z_search = hint }; store = st' },
          ))
  granted_zone b st' hint live a =
      let z = s.bmap.devinfo.firstdatazone + b - 1 in
      let first = v.geometry.first_zone in
      let bit : b ≡ z + 1 - s.bmap.devinfo.firstdatazone = omega (arith, first) in
      let zone : IsZone s.bmap z = omega (arith, first, a.in_map) in
      granted z _ zone (rw (← bit) a.was_clear)
        (set_zone z b true st' hint zone bit a.now_set a.others a.apart a.mapped)
        (freed_again b z st' hint bit zone a)

  -- AllocZone on a valid allocator returns: a zone of the device that was free and is now taken, no
  -- other zone and no inode changed, or ENOSPC with nothing changed and every zone taken. Freeing
  -- the zone again would restore the store.
  pub alloc_zone_outcome : (zstart : ℕ) → AllocZone s (alloc_zone s zstart)
  unfolding alloc_zone
  alloc_zone_outcome zstart = finish (
      alloc_bit_outcome s.bmap v.geometry zmap (v.small zmap) s.store (v.mapped zmap)
        (v.reserved zmap) _)
    where
      finish :
          {r : Run (ℕ × Store)}
          → AllocOutcome s.bmap zmap s.store r
          → AllocZone s (
              r >>= λ (bit, st).
              if bit == no_bit
              then done (no_zone, some enospc, record s { store = st })
              else done (
                s.bmap.devinfo.firstdatazone + bit - 1,
                none,
                record {
                  bmap = record (s.bmap) { z_search = lower_search bit s.bmap.z_search };
                  store = st;
                },
              ))
      finish (allocated b st' live a) = rw (ne→== b no_bit live) (granted_zone b st' _ live a)
      finish (exhausted full) = no_space (λ z p. full _ (zone_bit-lt z p))

  -- The ways in which FreeZone ends on a valid allocator: the zone's bit is cleared, the number is
  -- no zone of the device and nothing changes, or the zone is free already and the server panics.
  pub free_zone_outcome : (z : ℕ) → FreeZone s z (free_zone s z)
  unfolding free_zone
  free_zone_outcome z =
      elim (Bool-cases (ltb z s.bmap.devinfo.firstdatazone || leb s.bmap.devinfo.zones z)) [
        | inl out ↦ rw out (ignored (λ p. cc (guard_of p out)))
        | inr ok ↦
            let zone : IsZone s.bmap z = ground arith in
            rw ok (
              finish zone (
                free_bit_outcome s.bmap v.geometry zmap s.store (v.mapped zmap) _
                  (inside zmap _ (zone_bit-lt z zone))))
      ]
    where
      guard_of :
          IsZone s.bmap z
          → (ltb z s.bmap.devinfo.firstdatazone || leb s.bmap.devinfo.zones z) ≡ true
          → true ≡ false
      guard_of p e = ground arith

      finish :
          {r : Run Store}
          → IsZone s.bmap z
          → FreeOutcome s.bmap zmap s.store (z + 1 - s.bmap.devinfo.firstdatazone) r
          → FreeZone s z (
              r >>= λ st. done (record {
                bmap = record (s.bmap) {
                  z_search = lower_search (z + 1 - s.bmap.devinfo.firstdatazone) s.bmap.z_search;
                };
                store = st;
              }))
      finish zone (freed st' taken f) = freed_zone _ zone taken (
          set_zone z _ false st' _ zone refl f.now_clear (λ j p. f.others j (inside zmap j p))
            f.apart f.mapped)
      finish zone (refused free) = already_free zone free
