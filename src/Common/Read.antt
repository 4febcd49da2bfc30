-- ===== src/Common/Read.antt =====
-- ReadMap and RdIndir of src/minixfs/common/read.go: from a position in a file to the block that
-- holds it. `x >> scale` is `x / 2 ^ scale`, and `x << scale` is `x * 2 ^ scale`.
use minixfs_old.Base.{
  ℕ, ◌+◌, ◌-◌, ◌*◌, ◌/◌, ◌%◌, ◌^◌, not, ◌&&◌, ◌||◌, List, ltb, leb, ◌==◌, if◌then◌else◌, get_elem?,
  Run, done, panic, ◌>>=◌, or_panic,
}
use minixfs_old.Common.Data.{
  CacheInode, v2_nr_dzones, v2_zone_num_size, no_zone, no_block, as_indirect,
}
use minixfs_old.Common.Blocks.{Store, get_block}

-- An entry of an indirect block, within [min, max) unless it is NO_ZONE.
unfoldable pub rd_indir : List ℕ → ℕ → ℕ → ℕ → Run ℕ
rd_indir bpdata index min max = or_panic (get_elem? bpdata index) >>= λ zone.
    if not (zone == no_zone) && (ltb zone min || leb max zone) then panic else done zone

unfoldable pub get_indirect : CacheInode → ℕ → Store → Run (List ℕ)
get_indirect inode z st =
    or_panic (as_indirect (get_block st inode.devno (z * 2 ^ inode.devinfo.scale)))

-- An entry of the indirect block in zone z, if there is such a block.
unfoldable pub entry_of : CacheInode → ℕ → ℕ → Store → Run ℕ
entry_of inode z index st = get_indirect inode z st >>= λ bpdata.
    rd_indir bpdata index inode.devinfo.firstdatazone inode.devinfo.zones

-- `if z == NO_ZONE { return NO_BLOCK }; return (z << scale) + boff`
unfoldable pub block_in : CacheInode → ℕ → ℕ → ℕ
block_in inode z boff = if z == no_zone then no_block else z * 2 ^ inode.devinfo.scale + boff

-- The end of ReadMap: z is the zone of the single indirect block, excess the index into it.
unfoldable pub read_single : CacheInode → ℕ → ℕ → ℕ → Store → Run ℕ
read_single inode z excess boff st =
    if z == no_zone
    then done no_block
    else entry_of inode z excess st >>= λ z'. done (block_in inode z' boff)

abbrev pub zone_of : CacheInode → ℕ → ℕ
zone_of inode position = position / inode.devinfo.blocksize / 2 ^ inode.devinfo.scale

abbrev pub boff_of : CacheInode → ℕ → ℕ
boff_of inode position =
    position / inode.devinfo.blocksize - zone_of inode position * 2 ^ inode.devinfo.scale

abbrev pub nr_indirects : CacheInode → ℕ
nr_indirects inode = inode.devinfo.blocksize / v2_zone_num_size

-- `inode.Inode.Zone[i]`
abbrev pub zone_at : CacheInode → ℕ → Run ℕ
zone_at inode i = or_panic (get_elem? inode.inode.zone i)

unfoldable pub read_map : CacheInode → ℕ → Store → Run ℕ
read_map inode position st =
    let zone = zone_of inode position in
    let boff = boff_of inode position in
    let excess = zone - v2_nr_dzones in
    let nr = nr_indirects inode in
    let far = excess - nr in
    let direct = zone_at inode zone >>= λ z. done (block_in inode z boff) in
    let by_single = zone_at inode v2_nr_dzones >>= λ z. read_single inode z excess boff st in
    let by_double = zone_at inode (v2_nr_dzones + 1) >>= λ z.
    if z == no_zone
    then done no_block
    else entry_of inode z (far / nr) st >>= λ z'. read_single inode z' (far % nr) boff st in
    if ltb zone v2_nr_dzones then direct else if ltb excess nr then by_single else by_double
