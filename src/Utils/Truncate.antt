-- ===== src/Utils/Truncate.antt =====
-- Truncate of src/minixfs/utils/write.go: the zones of a file go back to the bitmap server.
use minixfs_old.Base.{
  ℕ, zero, suc, ◌+◌, ◌-◌, ◌*◌, ◌/◌, ◌^◌, true, ◌||◌, List, ◌==◌, if◌then◌else◌, Run, done, ◌>>=◌,
}
use Prim.Native.Nat.{bit_and}
use minixfs_old.Common.{
  is_negative, CacheInode, no_zone, no_block, v2_nr_dzones, i_type, i_char_special, i_block_special,
}
use minixfs_old.Common.Read.{read_map, rd_indir, get_indirect, zone_at, nr_indirects}
use minixfs_old.Bitmap.{State, free_zone}

-- The loop over the positions of the file, with the given number of rounds left
unfoldable pub free_positions : CacheInode → ℕ → ℕ → State → Run State
free_positions rip zero position s = done s
free_positions rip (suc rounds) position s =
    let zone_size = rip.devinfo.blocksize * 2 ^ rip.devinfo.scale in
    read_map rip position s.store >>= λ b.
    (if b == no_block then done s else free_zone s (b / 2 ^ rip.devinfo.scale)) >>= λ s'.
    free_positions rip rounds (position + zone_size) s'

-- The loop over the entries of the double indirect block, from entry i on
unfoldable pub free_entries : CacheInode → List ℕ → ℕ → ℕ → State → Run State
free_entries rip dbl zero i s = done s
free_entries rip dbl (suc n) i s =
    rd_indir dbl i rip.devinfo.firstdatazone rip.devinfo.zones >>= λ z1.
    free_zone s z1 >>= λ s'. free_entries rip dbl n (i + 1) s'

-- The indirect zones
unfoldable pub free_indirect : CacheInode → State → Run State
free_indirect rip s = zone_at rip v2_nr_dzones >>= λ z1. free_zone s z1 >>= λ s1.
    zone_at rip (v2_nr_dzones + 1) >>= λ z.
    let all = get_indirect rip z s1.store >>= λ dbl.
    free_entries rip dbl (nr_indirects rip) 0 s1 >>= λ s2. free_zone s2 z in
    if z == no_zone then done s1 else all

unfoldable pub truncate : CacheInode → State → Run (CacheInode × State)
truncate rip s =
    let ftype = bit_and rip.inode.mode i_type in
    let zone_size = rip.devinfo.blocksize * 2 ^ rip.devinfo.scale in
    let rounds =
      if is_negative rip.inode.size then 0 else (rip.inode.size + zone_size - 1) / zone_size in
    let all = free_positions rip rounds 0 s >>= λ s1.
    free_indirect rip s1 >>= λ s2. done (record rip { dirty = true }, s2) in
    if ftype == i_char_special || ftype == i_block_special then done (rip, s) else all
