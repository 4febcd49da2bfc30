-- ===== src/Utils/Entry.antt =====
-- One entry of an indirect block or of the inode: what WriteMap enters there ReadMap finds.
use minixfs_old.Base.{
  ℕ, ◌+◌, ◌-◌, ◌*◌, ◌^◌, ◌≤◌, ◌<◌, ◌≡◌, ◌∙◌, ◌≢◌, Bool, none, some, List, arith, get_elem?, set,
  length, done, ◌>>=◌, get_elem?-set_self, lt→ltb, le→ltb, lt→leb, ne→==,
}
use minixfs_old.Common.{CacheInode, no_zone, v2_nr_dzones, indirect_block, Store, get-put_self}
use minixfs_old.Common.Read.{
  rd_indir, get_indirect, entry_of, block_in, read_single, read_map, zone_of, boff_of, nr_indirects,
}
use minixfs_old.Bitmap.{State}
use native.Mathlib.Nat.{mod-eq_of_lt}
use minixfs_old.Utils.{wr_indir, put_indirect, open_indirect, write_single}

-- The zone is one of the device's, and fits the 32 bits of a zone number.
pub record IsDataZone (rip : CacheInode) (z : ℕ) : Type 0 where
  pub first : 1 ≤ rip.devinfo.firstdatazone
  pub above : rip.devinfo.firstdatazone ≤ z
  pub below : z < rip.devinfo.zones
  pub fits : z < 2 ^ 32

module _ (rip : CacheInode) (z : ℕ) (d : IsDataZone rip z) where
  rd_indir-in_range :
      (ws : List ℕ) (ex : ℕ)
      → get_elem? ws ex ≡ some z
      → rd_indir ws ex rip.devinfo.firstdatazone rip.devinfo.zones ≡ done z
  unfolding rd_indir
  rd_indir-in_range ws ex e =
      rw (e, le→ltb z rip.devinfo.firstdatazone d.above, lt→leb rip.devinfo.zones z d.below)
        (ground arith)

  wr_indir-ok : (ws : List ℕ) (ex : ℕ) → ex < length ws → wr_indir ws ex z ≡ done (set ws ex z)
  unfolding wr_indir
  wr_indir-ok ws ex room = rw (lt→ltb ex (length ws) room, mod-eq_of_lt d.fits)

  pub write_single-ok :
      (z1 : ℕ) (fresh : Bool) (ex : ℕ) (ws : List ℕ) (s : State)
      → open_indirect rip z1 fresh s ≡ done ws
      → ex < length ws
      → write_single rip z1 fresh ex z s ≡ done (none, rip, put_indirect rip z1 (set ws ex z) s)
  unfolding write_single
  write_single-ok z1 fresh ex ws s opened room = rw (opened, ◌>>=◌, wr_indir-ok ws ex room)

  read_single-ok :
      (z1 ex boff : ℕ) (ws : List ℕ) (s : State)
      → z1 ≢ no_zone
      → ex < length ws
      → read_single rip z1 ex boff (put_indirect rip z1 (set ws ex z) s).store
        ≡ done (block_in rip z boff)
  unfolding read_single entry_of get_indirect
  read_single-ok z1 ex boff ws s live room = rw (
    ne→== z1 no_zone live,
    get-put_self s.store rip.devno (z1 * 2 ^ rip.devinfo.scale) (indirect_block (set ws ex z)),
    rd_indir-in_range (set ws ex z) ex (get_elem?-set_self ws ex z room),
  )

-- The position is in a direct zone or in one of the single indirect block.
abbrev pub IsNear : CacheInode → ℕ → Type 0
IsNear inode position = zone_of inode position < v2_nr_dzones + nr_indirects inode

pub read_map-direct :
    (r : CacheInode) (position z : ℕ) (st : Store)
    → zone_of r position < v2_nr_dzones
    → get_elem? r.inode.zone (zone_of r position) ≡ some z
    → read_map r position st ≡ done (block_in r z (boff_of r position))
unfolding read_map
read_map-direct r position z st near e = rw (lt→ltb (zone_of r position) v2_nr_dzones near, e)

pub read_map-single :
    (r : CacheInode) (position z1 : ℕ) (st : Store)
    → v2_nr_dzones ≤ zone_of r position
    → zone_of r position - v2_nr_dzones < nr_indirects r
    → get_elem? r.inode.zone v2_nr_dzones ≡ some z1
    → read_map r position st
      ≡ read_single r z1 (zone_of r position - v2_nr_dzones) (boff_of r position) st
unfolding read_map
read_map-single r position z1 st far near e = rw (
  le→ltb (zone_of r position) v2_nr_dzones far,
  lt→ltb (zone_of r position - v2_nr_dzones) (nr_indirects r) near,
  e,
)

-- ReadMap after write_single, in an inode whose single indirect block is in zone z1.
pub single_found :
    (r : CacheInode) (position z z1 : ℕ) (ws : List ℕ) (t : State)
    → IsDataZone r z
    → z1 ≢ no_zone
    → v2_nr_dzones ≤ zone_of r position
    → zone_of r position - v2_nr_dzones < nr_indirects r
    → get_elem? r.inode.zone v2_nr_dzones ≡ some z1
    → zone_of r position - v2_nr_dzones < length ws
    → read_map r position (put_indirect r z1 (set ws (zone_of r position - v2_nr_dzones) z) t).store
      ≡ done (block_in r z (boff_of r position))
single_found r position z z1 ws t d live far near e room =
    read_map-single r position z1
      (put_indirect r z1 (set ws (zone_of r position - v2_nr_dzones) z) t).store far near e
    ∙ read_single-ok r z d z1 (zone_of r position - v2_nr_dzones) (boff_of r position) ws t live
        room
