-- ===== src/Utils/Mapping.antt =====
-- WriteMap against ReadMap: the zone that is entered at a position is the one that is found there.
use minixfs_old.Base.{
  ℕ, ◌-◌, ◌/◌, ◌^◌, ◌≤◌, ◌<◌, ◌≡◌, refl, ap, ◌≢◌, true, false, Option, none, some, List, arith, ltb,
  ◌==◌, if◌then◌else◌, get_elem?, length, replicate, Run, done, ◌>>=◌, Bool-cases, inl, inr,
  get_elem?-set_self, ltb→lt, ==→eq, ==→ne, lt→ltb, le→ltb, ne→==, get_or, get_elem?-eq-get_or,
  length-replicate,
}
use minixfs_old.Common.{CacheInode, DeviceInfo, Errno, enospc, no_zone, v2_nr_dzones}
use minixfs_old.Common.Read.{get_indirect, block_in, read_map, zone_of, boff_of, nr_indirects}
use minixfs_old.Bitmap.{State}
use minixfs_old.Bitmap.Server.{IsWellFormed}
use minixfs_old.Bitmap.Zones.{AllocZone, granted, no_space, alloc_zone_outcome}
use native.Mathlib.Nat.{mod-eq_of_lt}
use minixfs_old.Utils.{
  with_zone, open_indirect, Written, write_single, alloc_near, write_by_single, write_map,
}
use minixfs_old.Utils.Entry.{IsDataZone, IsNear, write_single-ok, read_map-direct, single_found}

-- If the inode has a single indirect block, it is one.
abbrev pub HasSingle : CacheInode → State → Type 0
HasSingle inode s =
    (z1 : ℕ)
    → get_elem? inode.inode.zone v2_nr_dzones ≡ some z1
    → z1 ≢ no_zone
    → (ws : List ℕ) × (get_indirect inode z1 s.store ≡ done ws) × (nr_indirects inode ≤ length ws)

-- How WriteMap ends near the inode: the zone is found at the position, and the size is unchanged
-- and the inode dirty; or the device has no zone left.
pub data MapOutcome (inode : CacheInode) (position z : ℕ) : Run Written → Type 0 where
  entered :
      (rip : CacheInode) (s' : State)
      → read_map rip position s'.store ≡ done (block_in inode z (boff_of inode position))
      → rip.inode.size ≡ inode.inode.size
      → rip.dirty ≡ true
      → MapOutcome inode position z (done (none, rip, s'))
  no_room :
      (rip : CacheInode) (s' : State) → MapOutcome inode position z (done (some enospc, rip, s'))

module _ (inode : CacheInode) (position z : ℕ) (s : State) (d : IsDataZone inode z)
    (ten : length inode.inode.zone ≡ 10) where
  direct :
      zone_of inode position < v2_nr_dzones
      → MapOutcome inode position z (write_map inode position z s)
  unfolding write_map block_in
  direct near = rw (lt→ltb (zone_of inode position) v2_nr_dzones near) (
      entered _ s
        (read_map-direct _ position z s.store near (
          rw (mod-eq_of_lt d.fits)
            (get_elem?-set_self inode.inode.zone (zone_of inode position) z (omega arith))))
        refl refl)

  -- The single indirect block is there.
  single_there :
      (z1 : ℕ) (ws : List ℕ)
      → v2_nr_dzones ≤ zone_of inode position
      → zone_of inode position - v2_nr_dzones < nr_indirects inode
      → get_elem? inode.inode.zone v2_nr_dzones ≡ some z1
      → z1 ≢ no_zone
      → get_indirect inode z1 s.store ≡ done ws
      → nr_indirects inode ≤ length ws
      → MapOutcome inode position z (write_map inode position z s)
  unfolding write_map write_by_single open_indirect get_indirect block_in
  single_there z1 ws far near e live opened room =
      rw
        (
          le→ltb (zone_of inode position) v2_nr_dzones far,
          lt→ltb (zone_of inode position - v2_nr_dzones) (nr_indirects inode) near,
          e,
          ◌>>=◌,
          ne→== z1 no_zone live,
          write_single-ok (record inode { dirty = true }) z
              (record { first = d.first; above = d.above; below = d.below; fits = d.fits }) z1 false
              (zone_of inode position - v2_nr_dzones) ws s opened (omega arith),
        )
        (entered _ _
          (single_found (record inode { dirty = true }) position z z1 ws s
            (record { first = d.first; above = d.above; below = d.below; fits = d.fits }) live far
            near e (omega arith))
          refl refl)

  module _ (v : IsWellFormed s.bmap s.store) (same : s.bmap.devinfo ≡ inode.devinfo)
      (narrow : inode.devinfo.zones ≤ 2 ^ 32) where
    granted_found :
        (z1 : ℕ) (s1 : State)
        → v2_nr_dzones ≤ zone_of inode position
        → zone_of inode position - v2_nr_dzones < nr_indirects inode
        → z1 ≢ no_zone
        → z1 < 2 ^ 32
        → MapOutcome inode position z (
            let rip1 = with_zone (record inode { dirty = true }) v2_nr_dzones z1 in
            if z1 == no_zone
            then done (none, rip1, s1)
            else write_single rip1 z1 true (zone_of inode position - v2_nr_dzones) z s1)
    unfolding block_in open_indirect
    granted_found z1 s1 far near live low =
        let r = with_zone (record inode { dirty = true }) v2_nr_dzones z1 in
        let d' : IsDataZone r z = record {
          first = d.first;
          above = d.above;
          below = d.below;
          fits = d.fits;
        } in
        let blank : List ℕ = replicate {A = ℕ} (r.devinfo.blocksize / 4) 0 in
        let room : zone_of inode position - v2_nr_dzones < length blank =
          rw (length-replicate {A = ℕ} (inode.devinfo.blocksize / 4) 0) near in
        let entry : get_elem? r.inode.zone v2_nr_dzones ≡ some z1 =
          rw (mod-eq_of_lt low)
            (get_elem?-set_self inode.inode.zone v2_nr_dzones z1 (omega (arith, ten))) in
        rw
          (
            ne→== z1 no_zone live,
            write_single-ok r z d' z1 true (zone_of inode position - v2_nr_dzones) blank s1 refl
                room,
          )
          (entered _ _ (single_found r position z z1 blank s1 d' live far near entry room) refl
            refl)

    -- The single indirect block is not there yet.
    single_fresh :
        v2_nr_dzones ≤ zone_of inode position
        → zone_of inode position - v2_nr_dzones < nr_indirects inode
        → get_elem? inode.inode.zone v2_nr_dzones ≡ some no_zone
        → MapOutcome inode position z (write_map inode position z s)
    unfolding write_map write_by_single alloc_near
    single_fresh far near e =
        rw
          (
            le→ltb (zone_of inode position) v2_nr_dzones far,
            lt→ltb (zone_of inode position - v2_nr_dzones) (nr_indirects inode) near,
            e,
            get_elem?-eq-get_or inode.inode.zone 0 0 (omega (arith, ten)),
          )
          (finish (alloc_zone_outcome s v (get_or inode.inode.zone 0 0)))
      where
        rest : Run (ℕ × Option Errno × State) → Run Written
        rest r = r >>= λ (z1, err, s1).
            let rip1 = with_zone (record inode { dirty = true }) v2_nr_dzones z1 in
            if z1 == no_zone
            then done (err, rip1, s1)
            else write_single rip1 z1 true (zone_of inode position - v2_nr_dzones) z s1

        finish :
            {r : Run (ℕ × Option Errno × State)}
            → AllocZone s r
            → MapOutcome inode position z (rest r)
        finish (granted z1 s1 zone clear taken freed) =
            let live : z1 ≢ no_zone =
              omega (arith, zone.0, d.first, ap (λ (i : DeviceInfo). i.firstdatazone) same) in
            let low : z1 < 2 ^ 32 =
              omega (arith, zone.1, narrow, ap (λ (i : DeviceInfo). i.zones) same) in
            granted_found z1 s1 far near live low
        finish (no_space full) = no_room _ _

    beyond :
        (z1 : ℕ)
        → v2_nr_dzones ≤ zone_of inode position
        → zone_of inode position - v2_nr_dzones < nr_indirects inode
        → get_elem? inode.inode.zone v2_nr_dzones ≡ some z1
        → HasSingle inode s
        → MapOutcome inode position z (write_map inode position z s)
    beyond z1 far near e single = elim (Bool-cases (z1 == no_zone)) [
      | inl absent ↦ single_fresh far near (rw (← ==→eq z1 no_zone absent) e)
      | inr there ↦
          let live = ==→ne z1 no_zone there in
          let (ws, opened, room) = single z1 e live in
          single_there z1 ws far near e live opened room
    ]

    -- WriteMap of a data zone, at a position within the direct zones and the single indirect block,
    -- returns: ReadMap then finds the zone there, the size is unchanged and the inode dirty; or
    -- ENOSPC. The inode has ten zones on the device of a valid allocator, whose zone numbers fit 32
    -- bits, and its single indirect block, if it has one, is a whole indirect block.
    pub write_map_outcome :
        IsNear inode position
        → HasSingle inode s
        → MapOutcome inode position z (write_map inode position z s)
    write_map_outcome near single = elim (Bool-cases (ltb (zone_of inode position) v2_nr_dzones)) [
      | inl p ↦ direct (ltb→lt (zone_of inode position) v2_nr_dzones p)
      | inr p ↦
          let far : v2_nr_dzones ≤ zone_of inode position = ground arith in
          beyond (get_or inode.inode.zone v2_nr_dzones 0) far (omega (arith, near, far))
            (get_elem?-eq-get_or inode.inode.zone v2_nr_dzones 0 (omega (arith, ten))) single
    ]
